-- ===== src/Ingestion/Existing.antt =====
-- The search of `archive` for a content that is there already (app/app/infrastructure/securities/store.py).
use info_backend.Prelude.{
  ℕ, ◌≡◌, refl, sym, ◌||◌, Bool, true, false, none, some, List, [], ◌∷◌, ◌++◌, any, filter_by,
  sort_by, insert_by, arith, Text, text_eq_iff, Bool-cases, inl, inr, All,
}
use info_backend.Rows.{All-sort_by, All-imp}
use info_backend.Ingestion.Store.{Artifact}
use info_backend.Ingestion.Archive.{is_same_content, existing_artifact, first_of}

-- The bucket has an artifact of the content under the key.
abbrev pub has_content : Text → Text → Text → List Artifact → Bool
has_content bucket key sha256 rows = any (is_same_content bucket key sha256) rows

module _ {A : Type 0} where
  All-filter_by :
      (P : A → Type 0) (p : A → Bool) (l : List A)
      → All P l
      → All (λ x. P x × (p x ≡ true)) (filter_by p l)
  All-filter_by P p [] h = tt
  All-filter_by P p (x ∷ l) h = elim (Bool-cases (p x)) [
    | inl e ↦ rw e ((h.0, e), All-filter_by P p l h.1)
    | inr e ↦ rw e (All-filter_by P p l h.1)
  ]

  first_of-holds : (P : A → Type 0) (l : List A) {a : A} → All P l → first_of l ≡ some a → P a
  first_of-holds P [] h e = cc
  first_of-holds P (x ∷ l) {a} h e = let same : x ≡ a = cc in rw (sym same) h.0

  first_of-filled : (l : List A) → first_of l ≡ none → l ≡ []
  first_of-filled [] e = refl
  first_of-filled (x ∷ l) e = cc

  insert_by-filled : (key : A → ℕ) (x : A) (l : List A) → insert_by key x l ≡ [] → x ∷ l ≡ []
  insert_by-filled key x [] e = e
  insert_by-filled key x (y ∷ l) e = ground (arith, e)

  sort_by-filled : (key : A → ℕ) (l : List A) → sort_by key l ≡ [] → l ≡ []
  sort_by-filled key [] e = refl
  sort_by-filled key (x ∷ l) e = let clash = insert_by-filled key x (sort_by key l) e in cc

  filter_by-none : (p : A → Bool) (l : List A) → filter_by p l ≡ [] → any p l ≡ false
  filter_by-none p [] e = refl
  filter_by-none p (x ∷ l) e = ground (arith, e, filter_by-none p l)

  pub All-any : (p : A → Bool) (l : List A) → All (λ x. p x ≡ true → any p l ≡ true) l
  All-any p [] = tt
  All-any p (x ∷ l) = (
    λ e. ground (arith, e),
    All-imp _ _ l (λ y later e. let rest = later e in ground (arith, rest)) (All-any p l),
  )

  pub All-snoc : (P : A → Type 0) (l : List A) (x : A) → All P l → P x → All P (l ++ x ∷ [])
  All-snoc P [] x h p = (p, tt)
  All-snoc P (y ∷ l) x h p = (h.0, All-snoc P l x h.1 p)

  -- any of the rows, one more at the end
  pub any-snoc : (p : A → Bool) (l : List A) (x : A) → any p (l ++ x ∷ []) ≡ (any p l || p x)
  any-snoc p [] x = ground arith
  any-snoc p (y ∷ l) x = ground (arith, any-snoc p l x)

module _ (bucket key sha256 : Text) where
  -- What holds of all artifacts holds of the one that is found, and it has the content.
  pub existing_artifact-holds :
      (P : Artifact → Type 0) (rows : List Artifact) {a : Artifact}
      → All P rows
      → existing_artifact bucket key sha256 rows ≡ some a
      → P a × (is_same_content bucket key sha256 a ≡ true)
  unfolding existing_artifact
  existing_artifact-holds P rows h e =
      let found = filter_by (is_same_content bucket key sha256) rows in
      first_of-holds _ (sort_by (λ a. a.created_at) found)
        (All-sort_by _ (λ a. a.created_at) found (All-filter_by P _ rows h)) e

  pub existing_artifact-none :
      (rows : List Artifact)
      → existing_artifact bucket key sha256 rows ≡ none
      → has_content bucket key sha256 rows ≡ false
  unfolding existing_artifact
  existing_artifact-none rows e =
      let found = filter_by (is_same_content bucket key sha256) rows in
      filter_by-none _ rows (sort_by-filled _ found (first_of-filled _ e))

  pub existing_artifact-some :
      (rows : List Artifact) {a : Artifact}
      → existing_artifact bucket key sha256 rows ≡ some a
      → has_content bucket key sha256 rows ≡ true
  existing_artifact-some rows e =
      let (known, same) = existing_artifact-holds _ rows (All-any _ rows) e in known same

pub existing_artifact-key :
    (bucket key sha256 : Text) (rows : List Artifact) {a : Artifact}
    → existing_artifact bucket key sha256 rows ≡ some a
    → a.object_key ≡ key
existing_artifact-key bucket key sha256 rows {a} e =
    let (_, same) = existing_artifact-holds bucket key sha256 _ rows (All-any (λ _. true) rows) e in
    ground (arith, same, text_eq_iff a.object_key key)
