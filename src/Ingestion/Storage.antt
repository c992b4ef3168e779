-- ===== src/Ingestion/Storage.antt =====
-- `ObjectStorage.put_bytes` (app/app/infrastructure/storage/object_storage.py). The client of S3 and the
-- digest are parameters; the local backend writes the object itself.
use info_backend.Prelude.{
  ℕ, Bool, not, ◌&&◌, Option, none, some, List, [], ◌∷◌, length, Text, text_eq, codes, ◌==◌,
  filter_by, if◌then◌else◌,
}
use info_backend.Ingestion.Domain.{Bytes, Outcome, done, crashed, storage_failed}

-- An object of the bucket, or one version of it; `none` is a local file.
pub record StoredBytes : Type 0 where
  pub key : Text
  pub version : Option Text
  pub content : Bytes

abbrev pub Bucket : Type 0
Bucket = List StoredBytes

-- The answer of `head_object`; an absent key of the answer is `none`.
pub record Head : Type 0 where
  pub version_id : Option Text
  pub content_length : ℕ
  pub sha256 : Option Text

-- The client: `put_object` answers a version or fails, which is `none`; a response without a version
-- is `some none`.
pub record Backend : Type 0 where
  pub is_s3 : Bool
  pub bucket : Text
  pub sha256 : Bytes → Text
  pub lower : Text → Text
  pub put_object : Bucket → Text → Bytes → Option (Option Text)
  pub head_object : Bucket → Text → Text → Option Head

pub record StoredObject : Type 0 where
  pub bucket : Text
  pub object_key : Text
  pub version_id : Option Text
  pub sha256 : Text
  pub size_bytes : ℕ
  pub content_type : Text

abbrev pub stored_object : Backend → Text → Bytes → Text → Option Text → StoredObject
stored_object b key content content_type version = record {
  bucket = b.bucket;
  object_key = key;
  version_id = version;
  sha256 = b.sha256 content;
  size_bytes = length content;
  content_type = content_type;
}

abbrev pub is_text : Text → Option Text → Bool
is_text t none = Bool.false
is_text t (some u) = text_eq u t

abbrev pub same_version : Option Text → Option Text → Bool
same_version none none = Bool.true
same_version (some s) (some t) = text_eq s t
same_version _ _ = Bool.false

abbrev pub is_object : Text → Option Text → StoredBytes → Bool
is_object key version o = text_eq o.key key && same_version o.version version

-- A file, or the version of an object, is written over.
unfoldable pub write_object : Text → Option Text → Bytes → Bucket → Bucket
write_object key version content bucket =
    record { key = key; version = version; content = content }
    ∷ filter_by (λ o. not (is_object key version o)) bucket

-- `_put_local`
unfoldable pub put_local : Backend → Text → Bytes → Text → Bucket → Outcome StoredObject × Bucket
unfolding write_object
put_local b key content content_type bucket =
    (done (stored_object b key content content_type none), write_object key none content bucket)

unfoldable pub checked_head :
    Backend → Text → Bytes → Text → Text → Option Head → Outcome StoredObject
checked_head b key content content_type version none = crashed storage_failed
checked_head b key content content_type version (some head) =
    if is_text version head.version_id
      && head.content_length == length content
      && is_text (b.sha256 content) head.sha256
    then done (stored_object b key content content_type (some version))
    else crashed storage_failed

-- A version that is empty or `null` is none.
unfoldable pub is_version : Backend → Text → Bool
is_version b [] = Bool.false
is_version b (c ∷ t) = not (text_eq (b.lower (c ∷ t)) (codes "null"))

-- The answer to the PUT; the object is there whatever the answer is.
unfoldable pub after_put :
    Backend → Text → Bytes → Text → Bucket → Option (Option Text) → Outcome StoredObject × Bucket
unfolding checked_head is_version write_object
after_put b key content content_type bucket none = (crashed storage_failed, bucket)
after_put b key content content_type bucket (some none) =
    (crashed storage_failed, write_object key none content bucket)
after_put b key content content_type bucket (some (some version)) =
    let after = write_object key (some version) content bucket in
    if is_version b version
    then (checked_head b key content content_type version (b.head_object after key version), after)
    else (crashed storage_failed, after)

-- `put_bytes`, with `_put_s3`
unfoldable pub put_bytes : Backend → Text → Bytes → Text → Bucket → Outcome StoredObject × Bucket
unfolding put_local after_put
put_bytes b key content content_type bucket =
    if b.is_s3
    then after_put b key content content_type bucket (b.put_object bucket key content)
    else put_local b key content content_type bucket
