-- ===== src/Ingestion/Seen.antt =====
-- What a collector reads is kept first: `fetch` of app/app/application/securities/ingestion_service.py.
use info_backend.Prelude.{
  ℕ, suc, ◌≡◌, refl, subst, ap, ◌∙◌, true, false, List, [], ◌∷◌, ◌++◌, length, arith, Text,
  Bool-cases, inl, inr, leb,
}
use info_backend.Ingestion.Domain.{
  FetchRequest, RawResponse, ArchivedItem, Bytes, Outcome, done, stopped, crashed, done_injective,
}
use info_backend.Ingestion.Store.{World, StoreEnv}
use info_backend.Ingestion.Context.{
  Env, Run, fetch_with_retry, with_attempts, max_requests, paused, after_archive, after_retry,
  fetch,
}
use info_backend.Ingestion.Effects.{archive-Archival}
use info_backend.Ingestion.Collection.{HasObject, IsStored}
use info_backend.Ingestion.Collected.{IsArchived-HasObject}
use info_backend.Ingestion.Objects.{HasHexDigest}
use info_backend.Ingestion.Keeps.{retried-Holds}

-- The last item is of the content, and the bucket has an object of its digest under the item's key.
pub IsSeen : StoreEnv → List ArchivedItem → Bytes → Run → Type 0
IsSeen env before content s =
    (item : ArchivedItem) × (s.items ≡ before ++ item ∷ [])
    × (item.sha256 ≡ env.backend.sha256 content)
    × (item.seq ≡ suc (length before))
    × HasObject env.backend s.world.bucket item.object_key item.sha256

-- What is known of an item that was archived
KnownItem : StoreEnv → ℕ → Bytes → World → ArchivedItem → Type 0
KnownItem env n content w item =
    (item.sha256 ≡ env.backend.sha256 content)
    × (item.seq ≡ suc n)
    × HasObject env.backend w.bucket item.object_key item.sha256

after_archive-IsSeen :
    (env : StoreEnv) (r : RawResponse) (s : Run) (o : Outcome ArchivedItem) (w : World)
    {content : Bytes}
    → ((item : ArchivedItem) → o ≡ done item → KnownItem env (length s.items) r.content w item)
    → (after_archive r s (o, w)).0 ≡ done content
    → IsSeen env s.items content (after_archive r s (o, w)).1
unfolding after_archive IsSeen KnownItem
after_archive-IsSeen env r s (stopped x) w known e = cc
after_archive-IsSeen env r s (crashed x) w known e = cc
after_archive-IsSeen env r s (done item) w {content} known e =
    elim (Bool-cases (leb 400 r.status_code)) [
      | inl refused ↦ let clash : false ≡ true = ground (arith, e, refused) in cc
      | inr fine ↦
          let same : r.content ≡ content = done_injective (rw fine at e) in
          let (digest, seq, written) = known item refl in
          rw fine (item, refl, digest ∙ ap env.backend.sha256 same, seq, written)
    ]

after_retry-IsSeen :
    (env : Env) (id : ℕ) (code : Text) (request : FetchRequest) (o : Outcome (RawResponse × ℕ))
    (s : Run) {content : Bytes}
    → HasHexDigest env.store.backend
    → IsStored env.store s.world
    → (after_retry env id code request (o, s)).0 ≡ done content
    → IsSeen env.store s.items content (after_retry env id code request (o, s)).1
unfolding after_retry KnownItem
after_retry-IsSeen env id code request (stopped x) s hex stored e = cc
after_retry-IsSeen env id code request (crashed x) s hex stored e = cc
after_retry-IsSeen env id code request (done (r, attempts)) s hex stored e =
    let asked = with_attempts attempts request in
    let n = suc (length s.items) in
    after_archive-IsSeen env.store r s _ _
      (λ item q.
        let (archived, stores) = archive-Archival env.store id n code asked r s.world q in
        (
          archived.digest,
          archived.seq_of,
          IsArchived-HasObject env.store id code n asked r s.world _ item hex archived stores
              stored,
        ))
      e

-- A content that `fetch` hands to a collector is the last item by then, and the bucket has an object with
-- its digest under the item's key, which is a key of that digest. The digests must be hexadecimal, and the
-- artifacts must have their objects before, each under a key of its digest.
pub fetch-IsSeen :
    (env : Env) (id : ℕ) (code : Text) (request : FetchRequest) (s : Run) {content : Bytes}
    → HasHexDigest env.store.backend
    → IsStored env.store s.world
    → (fetch env id code request s).0 ≡ done content
    → IsSeen env.store s.items content (fetch env id code request s).1
unfolding fetch IsStored
fetch-IsSeen env id code request s {content} hex stored e =
    elim (Bool-cases (leb max_requests (length s.items))) [
      | inl full ↦ let clash : false ≡ true = ground (arith, e, full) in cc
      | inr room ↦
          let (kept, same) =
            retried-Holds env {P = λ w items. IsStored env.store w} (λ w items h. h) request s
              stored in
          let retried = fetch_with_retry env request (paused s) in
          let end = after_retry env id code request retried in
          let seen =
            subst (λ l. IsSeen env.store l content end.1) same
              (after_retry-IsSeen env id code request retried.0 retried.1 hex kept
                (rw room at e)) in
          rw room seen
    ]
