-- ===== src/Ingestion/Collected.antt =====
-- What a collection leaves (app/app/application/securities/ingestion_service.py with
-- app/app/infrastructure/securities/store.py): its items are numbered, limited, registered and kept.
use info_backend.Prelude.{
  ◌≢◌, All, ℕ, suc, ◌<◌, ◌≡◌, refl, sym, ◌∙◌, List, [], ◌∷◌, ◌++◌, length, arith, Text, ap, inl,
  inr,
}
use info_backend.SecurityCode.{SecurityCode}
use info_backend.Ingestion.Domain.{
  FetchRequest, RawResponse, ArchivedItem, Outcome, done, stopped, crashed, source_text,
}
use info_backend.Ingestion.Store.{Artifact, World, StoreEnv}
use info_backend.Ingestion.Context.{Env, max_requests}
use info_backend.Ingestion.Storage.{Bucket}
use info_backend.Ingestion.Objects.{
  HasHexDigest, IsDigestKey, IsWritten, Keeps, write_object-IsWritten,
}
use info_backend.Ingestion.Keys.{security_object_key-IsDigestKey}
use info_backend.Rows.{All-imp}
use info_backend.Ingestion.Existing.{has_content, All-snoc}
use info_backend.Ingestion.Effects.{IsArchived, Stores, archive-Archival}
use info_backend.Ingestion.Failures.{Spares, Leaves, archive-Spares, archive-Keeps}
use info_backend.Ingestion.Keeps.{IsKept}
use info_backend.Ingestion.Collection.{
  HasObject, IsStored, AddsFresh, AddsFresh-snoc, IsCollection, IsNumbered-snoc, Mirrors-snoc,
  length-snoc, append_assoc, has_content-IsWritten,
}

module _ (env : StoreEnv) (id : ℕ) (code : Text) where
  -- What has its object keeps it, as far as the bucket keeps the contents under their keys.
  HasObject-stays :
      (before after : Bucket) (key sha256 : Text)
      → Keeps env.backend before after
      → HasObject env.backend before key sha256
      → HasObject env.backend after key sha256
  unfolding Keeps
  HasObject-stays before after key sha256 keeps (own, there) = (own, keeps key sha256 own there)

  artifacts-stay :
      (w u : World)
      → Keeps env.backend w.bucket u.bucket
      → IsStored env w
      → All (λ a. HasObject env.backend u.bucket a.object_key a.sha256) w.artifacts
  unfolding IsStored
  artifacts-stay w u keeps h =
      All-imp _ _ w.artifacts
        (λ a k. HasObject-stays w.bucket u.bucket a.object_key a.sha256 keeps k) h

  stays :
      (before w u : World) (items : List ArchivedItem)
      → Spares w u
      → Keeps env.backend w.bucket u.bucket
      → u.items ≡ w.items
      → u.artifacts ≡ w.artifacts
      → IsCollection env id before w items
      → IsCollection env id before u items
  unfolding IsCollection IsStored Spares
  stays before w u items batches keeps rows artifacts
        (few, numbered, objects, (l, added, mirrored), (more, joined, fresh), stored, same) =
      (
        few,
        numbered,
        All-imp _ _ items (λ i h. HasObject-stays w.bucket u.bucket i.object_key i.sha256 keeps h)
            objects,
        (l, rows ∙ added, mirrored),
        (more, artifacts ∙ joined, fresh),
        rw artifacts (artifacts-stay w u keeps stored),
        batches ∙ same,
      )

  pub IsArchived-HasObject :
      (n : ℕ) (request : FetchRequest) (r : RawResponse) (w u : World) (item : ArchivedItem)
      → HasHexDigest env.backend
      → IsArchived env id n code request r w item u
      → Stores env w item u
      → IsStored env w
      → HasObject env.backend u.bucket item.object_key item.sha256
  unfolding IsStored Stores
  IsArchived-HasObject n request r w u item hex archived stores stored = (keyed, there stores)
    where
      keyed : IsDigestKey item.object_key item.sha256
      keyed =
          rw (archived.key_of, archived.digest)
            (security_object_key-IsDigestKey env.backend code (source_text request.source)
              request.name r.content hex)

      there : Stores env w item u → IsWritten env.backend u.bucket item.object_key item.sha256
      there (inl (reused, artifacts, bucket)) = rw bucket (
          has_content-IsWritten env.backend w.bucket env.backend.bucket item.object_key item.sha256
            w.artifacts (All-imp _ _ w.artifacts (λ a h. h.1) stored)
            (sym archived.was_there ∙ reused))
      there (inr (reused, new, (version, content, bucket, digest))) =
          rw (bucket, digest)
            (write_object-IsWritten env.backend item.object_key version content w.bucket)

  Stores-IsStored :
      (w u : World) (item : ArchivedItem)
      → Stores env w item u
      → Keeps env.backend w.bucket u.bucket
      → HasObject env.backend u.bucket item.object_key item.sha256
      → IsStored env w
      → IsStored env u
  unfolding IsStored Stores
  Stores-IsStored w u item (inl (reused, artifacts, bucket)) keeps object stored =
      rw artifacts (artifacts-stay w u keeps stored)
  Stores-IsStored w u item (inr (reused, (a, artifacts, b, key, sha256), written)) keeps object
        stored =
      rw artifacts
        (All-snoc _ w.artifacts a (artifacts-stay w u keeps stored) (rw key (rw sha256 object)))

  Stores-fresh :
      (before w u : World) (item : ArchivedItem)
      → (item.reused ≡ has_content env.backend.bucket item.object_key item.sha256 w.artifacts)
      → Stores env w item u
      → ((added : List Artifact) × (w.artifacts ≡ before.artifacts ++ added)
          × AddsFresh before.artifacts added)
      → (added : List Artifact) × (u.artifacts ≡ before.artifacts ++ added)
        × AddsFresh before.artifacts added
  unfolding Stores
  Stores-fresh before w u item there (inl (reused, artifacts, bucket)) (added, joined, fresh) =
      (added, artifacts ∙ joined, fresh)
  Stores-fresh before w u item there (inr (reused, (a, artifacts, b, key, sha256), written))
        (added, joined, fresh) =
      (
        added ++ a ∷ [],
        artifacts ∙ ap (λ z. z ++ a ∷ []) joined ∙ append_assoc before.artifacts added (a ∷ []),
        AddsFresh-snoc before.artifacts added a fresh (
            rw (b, key, sha256)
              (ap (has_content env.backend.bucket item.object_key item.sha256) (sym joined)
                ∙ sym there
                ∙ reused)),
      )

  grows :
      (request : FetchRequest) (r : RawResponse) (before w u : World) (items : List ArchivedItem)
      (item : ArchivedItem)
      → HasHexDigest env.backend
      → length items < max_requests
      → IsArchived env id (suc (length items)) code request r w item u
      → Stores env w item u
      → Spares w u
      → Keeps env.backend w.bucket u.bucket
      → IsCollection env id before w items
      → IsCollection env id before u (items ++ item ∷ [])
  unfolding IsCollection Spares
  grows request r before w u items item hex room archived stores batches keeps
        (few, numbered, objects, (l, added, mirrored), artifacts, stored, same) =
      let object =
        IsArchived-HasObject (suc (length items)) request r w u item hex archived stores stored in
      (
        rw (length-snoc items item) (omega (arith, room)),
        IsNumbered-snoc 1 items item numbered (omega (arith, archived.seq_of)),
        All-snoc _ items item
            (All-imp _ _ items
              (λ i h. HasObject-stays w.bucket u.bucket i.object_key i.sha256 keeps h) objects)
            object,
        (
          l ++ archived.row ∷ [],
          archived.rows
              ∙ ap (λ z. z ++ archived.row ∷ []) added
              ∙ append_assoc before.items l (archived.row ∷ []),
          Mirrors-snoc id l items archived.row item mirrored (
              let (batch, seq, digest, reused) = archived.row_of in
              ((batch, seq ∙ sym archived.seq_of, digest, reused), tt)),
        ),
        Stores-fresh before w u item archived.was_there stores artifacts,
        Stores-IsStored w u item stores keeps object stored,
        batches ∙ same,
      )

module _ (env : Env) (id : ℕ) (before : World) where
  left_alone :
      (o : Outcome ArchivedItem) (w u : World) (items : List ArchivedItem)
      → Spares w u
      → Keeps env.store.backend w.bucket u.bucket
      → Leaves o w u
      → ((item : ArchivedItem) → o ≢ done item)
      → IsCollection env.store id before w items
      → IsCollection env.store id before u items
  unfolding Leaves
  left_alone (done item) w u items spares keeps leaves other h = elim (other item refl) [ ]
  left_alone (stopped e) w u items spares keeps (rows, artifacts) other h =
      stays env.store id [] before w u items spares keeps rows artifacts h
  left_alone (crashed e) w u items spares keeps (rows, artifacts) other h =
      stays env.store id [] before w u items spares keeps rows artifacts h

-- A collection is kept by whatever a collector asks for.
pub IsCollection-IsKept :
    (env : Env) (id : ℕ) (code : Text) (before : World)
    → HasHexDigest env.store.backend
    → IsKept env id code (IsCollection env.store id before)
unfolding IsCollection IsStored
IsCollection-IsKept env id code before hex = record {
  by_call = λ w items h. h;
  by_failure = λ request r w items h other.
      let (spares, leaves) = archive-Spares env.store id (suc (length items)) code request r w in
      let keeps = archive-Keeps env.store id (suc (length items)) code request r hex w in
      left_alone env id before _ w _ items spares keeps leaves other h;
  by_archive = λ request r w items item room h e.
      let (archived, stores) =
        archive-Archival env.store id (suc (length items)) code request r w e in
      let (spares, _) = archive-Spares env.store id (suc (length items)) code request r w in
      let keeps = archive-Keeps env.store id (suc (length items)) code request r hex w in
      grows env.store id code request r before w _ items item hex room archived stores spares keeps
        h;
}
