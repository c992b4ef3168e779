-- ===== src/Ingestion/Effects.antt =====
-- What `archive` of app/app/infrastructure/securities/store.py leaves behind.
use info_backend.Prelude.{
  ℕ, ◌≡◌, refl, sym, subst, true, false, Option, none, some, [], ◌∷◌, ◌++◌, arith, Text, text_eq,
  text_eq_iff, Bool-cases, inl, inr, ◌⊎◌, contains,
}
use info_backend.Ingestion.Domain.{
  FetchRequest, RawResponse, ArchivedItem, Bytes, Outcome, done, stopped, crashed, storage_failed,
  digest_mismatch, no_source_row, done_injective, source_text,
}
use info_backend.Ingestion.Storage.{
  Backend, Bucket, StoredObject, stored_object, Head, put_bytes, after_put, put_local, checked_head,
  is_version, write_object,
}
use info_backend.Ingestion.Store.{Artifact, Item, World, StoreEnv}
use info_backend.Ingestion.Existing.{
  has_content, existing_artifact-none, existing_artifact-some, existing_artifact-key,
}
use info_backend.Ingestion.Archive.{
  security_object_key, existing_artifact, archive, archive_with, after_stored, add_item,
  new_artifact, new_item, archived_item, new_job,
}

text_eq_refl : (t : Text) → text_eq t t ≡ true
text_eq_refl t = (text_eq_iff t t).1 refl

-- What a PUT that succeeds answers, and that the content is in the bucket then.
IsPut : Backend → Text → Bytes → Bucket → StoredObject → Bucket → Type 0
IsPut b key content before stored after =
    (stored.bucket ≡ b.bucket)
    × (stored.object_key ≡ key)
    × (stored.sha256 ≡ b.sha256 content)
    × ((version : Option Text) × (after ≡ write_object key version content before))

checked_head-eq :
    (b : Backend) (key : Text) (content : Bytes) (content_type version : Text) (head : Option Head)
    {stored : StoredObject}
    → checked_head b key content content_type version head ≡ done stored
    → stored_object b key content content_type (some version) ≡ stored
unfolding checked_head
checked_head-eq b key content content_type version none e = cc
checked_head-eq b key content content_type version (some head) {stored} e = ground (arith, e)

after_put-IsPut :
    (b : Backend) (key : Text) (content : Bytes) (content_type : Text) (bucket : Bucket)
    (answer : Option (Option Text)) {stored : StoredObject}
    → (after_put b key content content_type bucket answer).0 ≡ done stored
    → IsPut b key content bucket stored (after_put b key content content_type bucket answer).1
unfolding after_put IsPut
after_put-IsPut b key content content_type bucket none e = cc
after_put-IsPut b key content content_type bucket (some none) e = cc
after_put-IsPut b key content content_type bucket (some (some version)) {stored} e =
    elim (Bool-cases (is_version b version)) [
      | inl v ↦
          let same = checked_head-eq b key content content_type version _ (rw v at e) in
          rw v (rw (sym same) (refl, refl, refl, (some version, refl)))
      | inr v ↦ let clash : crashed storage_failed ≡ done stored = rw v at e in cc
    ]

put_bytes-IsPut :
    (b : Backend) (key : Text) (content : Bytes) (content_type : Text) (bucket : Bucket)
    {stored : StoredObject}
    → (put_bytes b key content content_type bucket).0 ≡ done stored
    → IsPut b key content bucket stored (put_bytes b key content content_type bucket).1
unfolding put_bytes put_local IsPut
put_bytes-IsPut b key content content_type bucket {stored} e = elim (Bool-cases b.is_s3) [
  | inl v ↦ rw v (after_put-IsPut b key content content_type bucket _ (rw v at e))
  | inr v ↦
      let same : done (stored_object b key content content_type none) ≡ done stored = rw v at e in
      rw v (rw (sym (done_injective same)) (refl, refl, refl, (none, refl)))
]

-- What an archived item and its row are.
pub record IsArchived (env : StoreEnv) (id seq : ℕ) (code : Text) (request : FetchRequest)
    (r : RawResponse) (w : World) (item : ArchivedItem) (u : World) : Type 0 where
  pub row : Item
  pub rows : u.items ≡ w.items ++ row ∷ []
  pub row_of :
      (row.ingestion_id ≡ id)
      × (row.seq ≡ seq)
      × (row.sha256 ≡ item.sha256)
      × (row.reused ≡ item.reused)
  pub seq_of : item.seq ≡ seq
  pub kind_of : item.kind ≡ request.kind
  pub status_of : item.http_status ≡ r.status_code
  pub digest : item.sha256 ≡ env.backend.sha256 r.content
  pub key_of :
      item.object_key
      ≡ security_object_key code (source_text request.source) item.sha256 request.name
  pub was_there :
      item.reused ≡ has_content env.backend.bucket item.object_key item.sha256 w.artifacts

-- A content that was there adds no artifact, a new one adds it after it has been written.
unfoldable pub Stores : StoreEnv → World → ArchivedItem → World → Type 0
Stores env w item u =
    ((item.reused ≡ true) × (u.artifacts ≡ w.artifacts) × (u.bucket ≡ w.bucket))
    ⊎ ((item.reused ≡ false)
        × ((a : Artifact) × (u.artifacts ≡ w.artifacts ++ a ∷ [])
            × (a.bucket ≡ env.backend.bucket)
            × (a.object_key ≡ item.object_key)
            × (a.sha256 ≡ item.sha256))
        × ((version : Option Text) × (content : Bytes) × (u.bucket
              ≡ write_object item.object_key version content w.bucket)
            × (item.sha256 ≡ env.backend.sha256 content)))

module _ (env : StoreEnv) (id seq : ℕ) (code : Text) (request : FetchRequest)
    (r : RawResponse) where
  abbrev digest_of : Text
  digest_of = env.backend.sha256 r.content

  abbrev key_for : Text
  key_for = security_object_key code (source_text request.source) digest_of request.name

  abbrev Archival : World → ArchivedItem → World → Type 0
  Archival w item u = IsArchived env id seq code request r w item u × Stores env w item u

  reused-Archival :
      (w : World) {a : Artifact}
      → existing_artifact env.backend.bucket key_for digest_of w.artifacts ≡ some a
      → Archival w
          (archived_item seq request r digest_of a true)
          (archive_with env id seq code request r digest_of key_for w (some a)).1
  unfolding archive_with add_item new_item archived_item Stores
  reused-Archival w {a} x =
      let key = existing_artifact-key env.backend.bucket key_for digest_of w.artifacts x in
      let there = existing_artifact-some env.backend.bucket key_for digest_of w.artifacts x in
      (
        record {
          row = new_item id seq request r digest_of (env.new_id w) a true;
          rows = refl;
          row_of = (refl, refl, refl, refl);
          seq_of = refl;
          kind_of = refl;
          status_of = refl;
          digest = refl;
          key_of = key;
          was_there = rw key (sym there);
        },
        inl (refl, refl, refl),
      )

  new-Archival :
      (w : World) (stored : StoredObject) (after : Bucket)
      → existing_artifact env.backend.bucket key_for digest_of w.artifacts ≡ none
      → IsPut env.backend key_for r.content w.bucket stored after
      → text_eq stored.sha256 digest_of ≡ true
      → let job = new_job (env.new_id w) id seq request r (env.clock w.tick) in
        let u = record w { bucket = after; jobs = w.jobs ++ job ∷ [] } in
        let a = new_artifact (env.new_id u) job.id code request stored (env.db_now w.tick) in
        Archival w
          (archived_item seq request r digest_of a false)
          (after_stored env id seq code request r digest_of job w (done stored, after)).1
  unfolding after_stored add_item new_item archived_item Stores new_artifact new_job IsPut
  new-Archival w stored after x (bucket, key, digest, (version, written)) same =
      let absent = existing_artifact-none env.backend.bucket key_for digest_of w.artifacts x in
      let job = new_job (env.new_id w) id seq request r (env.clock w.tick) in
      let u = record w { bucket = after; jobs = w.jobs ++ job ∷ [] } in
      let a = new_artifact (env.new_id u) job.id code request stored (env.db_now w.tick) in
      rw same (
        record {
          row = new_item id seq request r digest_of (env.new_id w) a false;
          rows = refl;
          row_of = (refl, refl, refl, refl);
          seq_of = refl;
          kind_of = refl;
          status_of = refl;
          digest = refl;
          key_of = key;
          was_there = rw key (sym absent);
        },
        inr (refl, (a, refl, bucket, refl, digest), (version, r.content, rw key written, refl)),
      )

  stored-Archival :
      (w : World) (put : Outcome StoredObject × Bucket) {item : ArchivedItem}
      → existing_artifact env.backend.bucket key_for digest_of w.artifacts ≡ none
      → ((stored : StoredObject)
          → put.0 ≡ done stored
          → IsPut env.backend key_for r.content w.bucket stored put.1)
      → let job = new_job (env.new_id w) id seq request r (env.clock w.tick) in
        (after_stored env id seq code request r digest_of job w put).0 ≡ done item
        → Archival w item (after_stored env id seq code request r digest_of job w put).1
  unfolding after_stored add_item
  stored-Archival w (stopped x, after) absent is_put e = cc
  stored-Archival w (crashed x, after) absent is_put e = cc
  stored-Archival w (done stored, after) {item} absent is_put e =
      elim (Bool-cases (text_eq stored.sha256 digest_of)) [
        | inl same ↦
            let settled = done_injective (rw same at e) in
            subst
              (λ i.
                Archival w i
                  (after_stored env id seq code request r digest_of
                    (new_job (env.new_id w) id seq request r (env.clock w.tick)) w
                    (done stored, after)).1)
              settled (new-Archival w stored after absent (is_put stored refl) same)
        | inr other ↦ let clash : crashed digest_mismatch ≡ done item = rw other at e in cc
      ]

  archive_with-Archival :
      (w : World) (found : Option Artifact) {item : ArchivedItem}
      → existing_artifact env.backend.bucket key_for digest_of w.artifacts ≡ found
      → (archive_with env id seq code request r digest_of key_for w found).0 ≡ done item
      → Archival w item (archive_with env id seq code request r digest_of key_for w found).1
  unfolding archive_with add_item
  archive_with-Archival w (some a) x e =
      subst
        (λ i. Archival w i (archive_with env id seq code request r digest_of key_for w (some a)).1)
        (done_injective e) (reused-Archival w x)
  archive_with-Archival w none x e =
      stored-Archival w (put_bytes env.backend key_for r.content r.content_type w.bucket) x
        (λ stored q. put_bytes-IsPut env.backend key_for r.content r.content_type w.bucket q) e

  -- What `archive` did when it answers an item.
  pub archive-Archival :
      (w : World) {item : ArchivedItem}
      → (archive env id code seq request r w).0 ≡ done item
      → Archival w item (archive env id code seq request r w).1
  unfolding archive Stores
  archive-Archival w {item} e =
      elim (Bool-cases (contains w.sources (source_text request.source))) [
        | inl known ↦
            let p = archive_with-Archival w _ refl (rw known at e) in
            rw known (
              record {
                row = p.0.row;
                rows = p.0.rows;
                row_of = p.0.row_of;
                seq_of = p.0.seq_of;
                kind_of = p.0.kind_of;
                status_of = p.0.status_of;
                digest = p.0.digest;
                key_of = p.0.key_of;
                was_there = p.0.was_there;
              },
              p.1,
            )
        | inr unknown ↦ let clash : crashed no_source_row ≡ done item = rw unknown at e in cc
      ]
