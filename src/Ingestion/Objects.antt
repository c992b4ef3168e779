-- ===== src/Ingestion/Objects.antt =====
-- The objects of the bucket (app/app/infrastructure/storage/object_storage.py) under the keys that
-- `security_object_key` (app/app/infrastructure/securities/store.py) makes: writing one keeps the contents
-- of the others.
use info_backend.Prelude.{
  ℕ, ◌≡◌, refl, sym, subst, ◌∙◌, Bool, true, false, not, ◌&&◌, ◌||◌, Option, List, [], ◌∷◌, ◌++◌,
  arith, any, All, filter_by, Text, text_eq, text_eq_iff, Bool-cases, inl, inr, leb, ◌==◌,
}
use info_backend.Ingestion.Domain.{Bytes}
use info_backend.Ingestion.Storage.{Backend, Bucket, StoredBytes, is_object, write_object}

-- An object under the key has a content of the digest.
abbrev pub is_write_of : Backend → Text → Text → StoredBytes → Bool
is_write_of b key sha256 o = text_eq o.key key && text_eq (b.sha256 o.content) sha256

-- An object of the bucket has the digest under the key.
abbrev pub IsWritten : Backend → Bucket → Text → Text → Type 0
IsWritten b bucket key sha256 = any (is_write_of b key sha256) bucket ≡ true

abbrev pub is_hex : ℕ → Bool
is_hex c = leb b'0' c && leb c b'9' || leb b'a' c && leb c b'f'

-- The digest is written in hexadecimal digits.
abbrev pub HasHexDigest : Backend → Type 0
HasHexDigest b = (content : Bytes) → All (λ c. is_hex c ≡ true) (b.sha256 content)

abbrev HasNoSlash : Text → Type 0
HasNoSlash t = All (λ c. c == b'/' ≡ false) t

-- The last part of the key but one is the digest.
pub record IsDigestKey (key sha256 : Text) : Type 0 where
  pub above : Text
  pub name : Text
  pub key_of : key ≡ (above ++ b'/' ∷ sha256) ++ b'/' ∷ name
  pub plain_digest : All (λ c. c == b'/' ≡ false) sha256
  pub plain_name : All (λ c. c == b'/' ≡ false) name

slash_clash : {P : Type 0} (t u : Text) → HasNoSlash (t ++ b'/' ∷ u) → P
slash_clash [] u h = let clash : true ≡ false = h.0 in cc
slash_clash (c ∷ t) u h = slash_clash t u h.1

last_part :
    (s t u v : Text)
    → HasNoSlash u
    → HasNoSlash v
    → s ++ b'/' ∷ u ≡ t ++ b'/' ∷ v
    → (s ≡ t) × (u ≡ v)
last_part [] [] u v h k e = (refl, cc)
last_part [] (c ∷ t) u v h k e =
    let same : u ≡ t ++ b'/' ∷ v = cc in slash_clash t v (subst HasNoSlash same h)
last_part (c ∷ s) [] u v h k e =
    let same : v ≡ s ++ b'/' ∷ u = cc in slash_clash s u (subst HasNoSlash same k)
last_part (c ∷ s) (d ∷ t) u v h k e = let (above, last) = last_part s t u v h k cc in (cc, last)

-- A key has one digest.
IsDigestKey-unique :
    (key first second : Text) → IsDigestKey key first → IsDigestKey key second → first ≡ second
IsDigestKey-unique key first second h k =
    let same = sym h.key_of ∙ k.key_of in
    let (above, _) = last_part _ _ h.name k.name h.plain_name k.plain_name same in
    (last_part h.above k.above first second h.plain_digest k.plain_digest above).1

-- What is in the bucket under the key of its digest stays there.
unfoldable pub Keeps : Backend → Bucket → Bucket → Type 0
Keeps b before after =
    (key sha256 : Text)
    → IsDigestKey key sha256
    → IsWritten b before key sha256
    → IsWritten b after key sha256

any-filter_by :
    {A : Type 0} (p q : A → Bool) (l : List A)
    → ((x : A) → p x ≡ true → q x ≡ true)
    → any p l ≡ true
    → any p (filter_by q l) ≡ true
any-filter_by p q [] h e = e
any-filter_by p q (x ∷ l) h e = elim (Bool-cases (p x)) [
  | inl here ↦ rw (h x here) (ground (arith, here))
  | inr away ↦
      let later = any-filter_by p q l h (ground (arith, e, away)) in
      elim (Bool-cases (q x)) [
        | inl kept ↦ rw kept (ground (arith, later))
        | inr gone ↦ rw gone later
      ]
]

pub write_object-Keeps :
    (b : Backend) (key : Text) (version : Option Text) (content : Bytes) (bucket : Bucket)
    → IsDigestKey key (b.sha256 content)
    → Keeps b bucket (write_object key version content bucket)
unfolding write_object Keeps
write_object-Keeps b key version content bucket own k d keyed there =
    elim (Bool-cases (text_eq key k)) [
      | inl same ↦
          let e : key ≡ k = (text_eq_iff key k).0 same in
          let digest =
            IsDigestKey-unique k (b.sha256 content) d
              (subst (λ z. IsDigestKey z (b.sha256 content)) e own) keyed in
          let equal : text_eq (b.sha256 content) d ≡ true =
            (text_eq_iff (b.sha256 content) d).1 digest in
          rw same (rw equal refl)
      | inr other ↦
          let later =
            any-filter_by (is_write_of b k d) (λ o. not (is_object key version o)) bucket
              (λ o h.
                ground
                  (arith, h, other, text_eq_iff o.key k, text_eq_iff o.key key, text_eq_iff key k))
              there in
          rw other later
    ]

pub write_object-IsWritten :
    (b : Backend) (key : Text) (version : Option Text) (content : Bytes) (bucket : Bucket)
    → IsWritten b (write_object key version content bucket) key (b.sha256 content)
unfolding write_object
write_object-IsWritten b key version content bucket =
    rw ((text_eq_iff key key).1 refl)
      (rw ((text_eq_iff (b.sha256 content) (b.sha256 content)).1 refl) refl)
