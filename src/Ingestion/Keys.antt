-- ===== src/Ingestion/Keys.antt =====
-- The keys of `security_object_key` (app/app/infrastructure/securities/store.py), and what a PUT of
-- app/app/infrastructure/storage/object_storage.py under such a key keeps.
use info_backend.Prelude.{
  ℕ, zero, suc, ◌≡◌, refl, ap, ◌∙◌, true, false, Option, none, some, [], ◌∷◌, ◌++◌, arith, All, map,
  take, Text, codes, Bool-cases, inl, inr, ◌==◌, if◌then◌else◌,
}
use info_backend.Ingestion.Domain.{Bytes}
use info_backend.Ingestion.Storage.{Backend, Bucket, after_put, put_bytes, put_local, is_version}
use info_backend.Ingestion.Archive.{is_safe, safe_name, security_object_key}
use info_backend.Ingestion.Objects.{HasHexDigest, is_hex, IsDigestKey, Keeps, write_object-Keeps}

append_assoc : (s t u : Text) → (s ++ t) ++ u ≡ s ++ (t ++ u)
append_assoc [] t u = refl
append_assoc (c ∷ s) t u = ap (λ z. c ∷ z) (append_assoc s t u)

last_parts :
    (above digest name : Text)
    → ((above ++ b'/' ∷ []) ++ digest) ++ b'/' ∷ [] ++ name
      ≡ (above ++ b'/' ∷ digest) ++ b'/' ∷ name
last_parts above digest name =
    append_assoc ((above ++ b'/' ∷ []) ++ digest) (b'/' ∷ []) name
    ∙ ap (λ z. z ++ b'/' ∷ name) (append_assoc above (b'/' ∷ []) digest)

abbrev safe_char : ℕ → ℕ
safe_char c = if is_safe c then c else b'-'

safe_name-plain : (name : Text) → All (λ c. c == b'/' ≡ false) (safe_name name)
unfolding safe_name
safe_name-plain [] = (refl, (refl, (refl, (refl, (refl, (refl, tt))))))
safe_name-plain (c ∷ name) = (safe_char-plain c, taken 119 name)
  where
    safe_char-plain : (c : ℕ) → safe_char c == b'/' ≡ false
    safe_char-plain c = elim (Bool-cases (is_safe c)) [
      | inl safe ↦ rw safe (ground (arith, safe))
      | inr other ↦ rw other refl
    ]

    taken : (n : ℕ) (l : Text) → All (λ x. x == b'/' ≡ false) (take n (map safe_char l))
    taken zero l = tt
    taken (suc n) [] = tt
    taken (suc n) (x ∷ l) = (safe_char-plain x, taken n l)

hex-plain : (t : Text) → All (λ c. is_hex c ≡ true) t → All (λ c. c == b'/' ≡ false) t
hex-plain [] h = tt
hex-plain (c ∷ t) h = (ground (arith, h.0), hex-plain t h.1)

-- The key of a content has its digest.
pub security_object_key-IsDigestKey :
    (b : Backend) (code source name : Text) (content : Bytes)
    → HasHexDigest b
    → IsDigestKey (security_object_key code source (b.sha256 content) name) (b.sha256 content)
unfolding security_object_key
security_object_key-IsDigestKey b code source name content hex =
    let sha256 = b.sha256 content in
    let above =
      codes "knowfeed/securities/code="
      ++ code
      ++ codes "/source="
      ++ source
      ++ codes "/sha256="
      ++ take 2 sha256 in
    record {
      above = above;
      name = safe_name name;
      key_of = last_parts above sha256 (safe_name name);
      plain_digest = hex-plain sha256 (hex content);
      plain_name = safe_name-plain name;
    }

module _ (b : Backend) (key : Text) (content : Bytes) (content_type : Text) (bucket : Bucket)
    (own : IsDigestKey key (b.sha256 content)) where
  after_put-Keeps :
      (answer : Option (Option Text))
      → Keeps b bucket (after_put b key content content_type bucket answer).1
  unfolding after_put Keeps
  after_put-Keeps none k d keyed e = e
  after_put-Keeps (some none) k d keyed e =
      write_object-Keeps b key none content bucket own k d keyed e
  after_put-Keeps (some (some version)) k d keyed e =
      let kept = write_object-Keeps b key (some version) content bucket own k d keyed e in
      elim (Bool-cases (is_version b version)) [ inl v ↦ rw v kept | inr v ↦ rw v kept ]

  pub put_bytes-Keeps : Keeps b bucket (put_bytes b key content content_type bucket).1
  unfolding put_bytes put_local Keeps
  put_bytes-Keeps k d keyed e = elim (Bool-cases b.is_s3) [
    | inl v ↦ rw v (after_put-Keeps _ k d keyed e)
    | inr v ↦ rw v (write_object-Keeps b key none content bucket own k d keyed e)
  ]
