-- ===== src/Ingestion/Collection.antt =====
-- What is said of a collection: the objects, the numbers and the rows of its items
-- (app/app/infrastructure/securities/store.py).
use info_backend.Prelude.{
  ℕ, suc, ◌+◌, ◌≤◌, ◌≡◌, refl, sym, true, false, List, [], ◌∷◌, ◌++◌, length, arith, Text,
  text_eq_iff, Bool-cases, ap, inl, inr, All, ◌∙◌,
}
use info_backend.Ingestion.Domain.{ArchivedItem}
use info_backend.Ingestion.Storage.{Backend, Bucket}
use info_backend.Ingestion.Store.{Artifact, Item, World, StoreEnv}
use info_backend.Ingestion.Archive.{is_same_content}
use info_backend.Ingestion.Context.{max_requests}
use info_backend.Ingestion.Existing.{has_content}
use info_backend.Ingestion.Objects.{IsDigestKey, IsWritten}
use info_backend.Ingestion.Keeps.{Property}

-- The bucket has an object of the digest, under a key of the digest.
abbrev pub HasObject : Backend → Bucket → Text → Text → Type 0
HasObject b bucket key sha256 = IsDigestKey key sha256 × IsWritten b bucket key sha256

-- Every artifact has its object.
unfoldable pub IsStored : StoreEnv → World → Type 0
IsStored env w = All (λ a. HasObject env.backend w.bucket a.object_key a.sha256) w.artifacts

-- Each artifact that is added has a content that none of those before it has.
unfoldable pub AddsFresh : List Artifact → List Artifact → Type 0
AddsFresh rows [] = Unit
AddsFresh rows (a ∷ added) =
    (has_content a.bucket a.object_key a.sha256 rows ≡ false) × AddsFresh (rows ++ a ∷ []) added

-- The numbers of the items follow each other.
abbrev pub IsNumbered : ℕ → List ArchivedItem → Type 0
IsNumbered n [] = Unit
IsNumbered n (item ∷ items) = (item.seq ≡ n) × IsNumbered (suc n) items

-- Each item has its row, in order.
abbrev pub Mirrors : ℕ → List Item → List ArchivedItem → Type 0
Mirrors id [] [] = Unit
Mirrors id (row ∷ rows) (item ∷ items) =
    ((row.ingestion_id ≡ id)
      × (row.seq ≡ item.seq)
      × (row.sha256 ≡ item.sha256)
      × (row.reused ≡ item.reused))
    × Mirrors id rows items
Mirrors id _ _ = false ≡ true

unfoldable pub IsCollection : StoreEnv → ℕ → World → Property
IsCollection env id before w items =
    (length items ≤ max_requests)
    × IsNumbered 1 items
    × All (λ i. HasObject env.backend w.bucket i.object_key i.sha256) items
    × ((rows : List Item) × (w.items ≡ before.items ++ rows) × Mirrors id rows items)
    × ((added : List Artifact) × (w.artifacts ≡ before.artifacts ++ added)
        × AddsFresh before.artifacts added)
    × IsStored env w
    × (w.batches ≡ before.batches)

pub IsNumbered-snoc :
    (n : ℕ) (items : List ArchivedItem) (item : ArchivedItem)
    → IsNumbered n items
    → item.seq ≡ n + length items
    → IsNumbered n (items ++ item ∷ [])
IsNumbered-snoc n [] item h e = (omega (arith, e), tt)
IsNumbered-snoc n (x ∷ items) item h e =
    (h.0, IsNumbered-snoc (suc n) items item h.1 (omega (arith, e)))

pub Mirrors-snoc :
    (id : ℕ) (rows : List Item) (items : List ArchivedItem) (row : Item) (item : ArchivedItem)
    → Mirrors id rows items
    → Mirrors id (row ∷ []) (item ∷ [])
    → Mirrors id (rows ++ row ∷ []) (items ++ item ∷ [])
Mirrors-snoc id [] [] row item h p = p
Mirrors-snoc id (r ∷ rows) (i ∷ items) row item h p =
    (h.0, Mirrors-snoc id rows items row item h.1 p)
Mirrors-snoc id [] (i ∷ items) row item h p = cc
Mirrors-snoc id (r ∷ rows) [] row item h p = cc

pub length-snoc : {A : Type 0} (l : List A) (x : A) → length (l ++ x ∷ []) ≡ suc (length l)
length-snoc [] x = refl
length-snoc (y ∷ l) x = omega (arith, length-snoc l x)

pub append_assoc : {A : Type 0} (a b c : List A) → (a ++ b) ++ c ≡ a ++ (b ++ c)
append_assoc [] b c = refl
append_assoc (x ∷ a) b c = ap (λ z. x ∷ z) (append_assoc a b c)

pub append_nil : {A : Type 0} (a : List A) → a ++ [] ≡ a
append_nil [] = refl
append_nil (x ∷ a) = ap (λ z. x ∷ z) (append_nil a)

pub AddsFresh-snoc :
    (rows added : List Artifact) (a : Artifact)
    → AddsFresh rows added
    → has_content a.bucket a.object_key a.sha256 (rows ++ added) ≡ false
    → AddsFresh rows (added ++ a ∷ [])
unfolding AddsFresh
AddsFresh-snoc rows [] a h absent =
    (ap (has_content a.bucket a.object_key a.sha256) (sym (append_nil rows)) ∙ absent, tt)
AddsFresh-snoc rows (x ∷ added) a h absent = (
  h.0,
  AddsFresh-snoc (rows ++ x ∷ []) added a h.1
      (ap (has_content a.bucket a.object_key a.sha256) (append_assoc rows (x ∷ []) added) ∙ absent),
)

-- A content that is there has its object.
pub has_content-IsWritten :
    (b : Backend) (bucket : Bucket) (name key sha256 : Text) (rows : List Artifact)
    → All (λ a. IsWritten b bucket a.object_key a.sha256) rows
    → has_content name key sha256 rows ≡ true
    → IsWritten b bucket key sha256
has_content-IsWritten b bucket name key sha256 [] h e = cc
has_content-IsWritten b bucket name key sha256 (a ∷ rows) h e =
    elim (Bool-cases (is_same_content name key sha256 a)) [
      | inl same ↦
          let k : a.object_key ≡ key = ground (arith, same, text_eq_iff a.object_key key) in
          let d : a.sha256 ≡ sha256 = ground (arith, same, text_eq_iff a.sha256 sha256) in
          rw (sym k) (rw (sym d) h.0)
      | inr other ↦
          has_content-IsWritten b bucket name key sha256 rows h.1 (ground (arith, e, other))
    ]
