-- ===== src/Ingestion/Failures.antt =====
-- What `archive` of app/app/infrastructure/securities/store.py leaves alone, and what it leaves when it fails.
use info_backend.Prelude.{
  ℕ, ◌≡◌, refl, Option, none, some, Text, text_eq, Bool-cases, inl, inr, contains,
}
use info_backend.Ingestion.Domain.{
  FetchRequest, RawResponse, ArchivedItem, Outcome, done, stopped, crashed, source_text,
}
use info_backend.Ingestion.Storage.{Bucket, StoredObject, put_bytes}
use info_backend.Ingestion.Store.{Artifact, Job, World, StoreEnv, tick}
use info_backend.Ingestion.Objects.{HasHexDigest, IsDigestKey, Keeps}
use info_backend.Ingestion.Keys.{security_object_key-IsDigestKey, put_bytes-Keeps}
use info_backend.Ingestion.Archive.{
  security_object_key, existing_artifact, archive, archive_with, after_stored, add_item,
}

-- No batch is written.
unfoldable pub Spares : World → World → Type 0
Spares w u = u.batches ≡ w.batches

-- An operation that does not answer adds neither an item nor an artifact.
unfoldable pub Leaves : Outcome ArchivedItem → World → World → Type 0
Leaves (done item) w u = Unit
Leaves (stopped e) w u = (u.items ≡ w.items) × (u.artifacts ≡ w.artifacts)
Leaves (crashed e) w u = (u.items ≡ w.items) × (u.artifacts ≡ w.artifacts)

Spares-tick :
    (o : Outcome ArchivedItem) (w u : World)
    → Spares w u × Leaves o w u
    → Spares w (tick u) × Leaves o w (tick u)
unfolding Spares Leaves
Spares-tick (done item) w u h = h
Spares-tick (stopped e) w u h = h
Spares-tick (crashed e) w u h = h

module _ (env : StoreEnv) (id seq : ℕ) (code : Text) (request : FetchRequest)
    (r : RawResponse) where
  after_stored-Spares :
      (sha256 : Text) (job : Job) (w : World) (put : Outcome StoredObject × Bucket)
      → let result = after_stored env id seq code request r sha256 job w put in
        Spares w result.1 × Leaves result.0 w result.1
  unfolding after_stored add_item Spares Leaves
  after_stored-Spares sha256 job w (stopped e, after) = (refl, (refl, refl))
  after_stored-Spares sha256 job w (crashed e, after) = (refl, (refl, refl))
  after_stored-Spares sha256 job w (done stored, after) =
      elim (Bool-cases (text_eq stored.sha256 sha256)) [
        | inl same ↦ rw same (refl, tt)
        | inr other ↦ rw other (refl, (refl, refl))
      ]

  archive_with-Spares :
      (sha256 key : Text) (w : World) (found : Option Artifact)
      → let result = archive_with env id seq code request r sha256 key w found in
        Spares w result.1 × Leaves result.0 w result.1
  unfolding archive_with add_item Spares Leaves
  archive_with-Spares sha256 key w (some a) = (refl, tt)
  archive_with-Spares sha256 key w none = after_stored-Spares sha256 _ w _

  pub archive-Spares :
      (w : World)
      → let result = archive env id code seq request r w in
        Spares w result.1 × Leaves result.0 w result.1
  unfolding archive Spares Leaves
  archive-Spares w =
      let sha256 = env.backend.sha256 r.content in
      let key = security_object_key code (source_text request.source) sha256 request.name in
      let found = existing_artifact env.backend.bucket key sha256 w.artifacts in
      elim (Bool-cases (contains w.sources (source_text request.source))) [
        | inl known ↦ rw known (Spares-tick _ w _ (archive_with-Spares sha256 key w found))
        | inr unknown ↦ rw unknown (refl, (refl, refl))
      ]

  after_stored-bucket :
      (sha256 : Text) (job : Job) (w : World) (put : Outcome StoredObject × Bucket)
      → (after_stored env id seq code request r sha256 job w put).1.bucket ≡ put.1
  unfolding after_stored add_item
  after_stored-bucket sha256 job w (stopped e, after) = refl
  after_stored-bucket sha256 job w (crashed e, after) = refl
  after_stored-bucket sha256 job w (done stored, after) =
      elim (Bool-cases (text_eq stored.sha256 sha256)) [
        | inl same ↦ rw same refl
        | inr other ↦ rw other refl
      ]

  archive_with-Keeps :
      (key : Text) (w : World) (found : Option Artifact)
      → IsDigestKey key (env.backend.sha256 r.content)
      → let sha256 = env.backend.sha256 r.content in
        Keeps env.backend w.bucket
          (archive_with env id seq code request r sha256 key w found).1.bucket
  unfolding archive_with add_item Keeps
  archive_with-Keeps key w (some a) own k d keyed e = e
  archive_with-Keeps key w none own k d keyed e =
      let put = put_bytes env.backend key r.content r.content_type w.bucket in
      rw (after_stored-bucket (env.backend.sha256 r.content) _ w put)
        (put_bytes-Keeps env.backend key r.content r.content_type w.bucket own k d keyed e)

  -- No content that is in the bucket under a key of its digest is lost.
  pub archive-Keeps :
      HasHexDigest env.backend
      → (w : World) → Keeps env.backend w.bucket (archive env id code seq request r w).1.bucket
  unfolding archive Keeps
  archive-Keeps hex w k d keyed e =
      let source = source_text request.source in
      let sha256 = env.backend.sha256 r.content in
      let key = security_object_key code source sha256 request.name in
      let found = existing_artifact env.backend.bucket key sha256 w.artifacts in
      let own =
        security_object_key-IsDigestKey env.backend code source request.name r.content hex in
      elim (Bool-cases (contains w.sources source)) [
        | inl known ↦ rw known (archive_with-Keeps key w found own k d keyed e)
        | inr unknown ↦ rw unknown e
      ]
