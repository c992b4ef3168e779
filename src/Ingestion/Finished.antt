-- ===== src/Ingestion/Finished.antt =====
-- What `finish` and `begin` of app/app/infrastructure/securities/store.py leave, for a run.
use info_backend.Prelude.{
  ℕ, ◌≡◌, refl, sym, ap, true, Option, none, some, List, [], ◌∷◌, find?, update, arith, Text,
  Bool-cases, Option-cases, inl, inr, is_some,
}
use info_backend.SecurityCode.{security_code}
use info_backend.Intake.Domain.{IngestionStatus, pending, running, succeeded}
use info_backend.Ingestion.Domain.{
  ArchivedItem, CollectError, IngestionSummary, done, crashed, batch_absent, SkippedItem,
}
use info_backend.Ingestion.Store.{
  Batch, World, StoreEnv, has_id, batch_of, begin, begin_found, begin_pending, finish, finished,
}
use info_backend.Ingestion.Summary.{summary_of, stored_summary, error_code_of}
use info_backend.Ingestion.Collection.{IsStored}
use info_backend.Ingestion.Totals.{some_injective}

-- The row of the batch tells what the summary tells.
unfoldable pub IsFinished : ℕ → IngestionSummary → World → Type 0
IsFinished id s w =
    (b : Batch) × (batch_of id w ≡ some b)
    × (b.status ≡ s.status)
    × (b.summary ≡ some (stored_summary s))
    × (b.error_code ≡ s.error_code)
    × (b.error_detail ≡ s.error_detail)
    × (is_some b.finished_at ≡ true)

found_after :
    (id : ℕ) (f : Batch → Batch) (l : List Batch) {b : Batch}
    → ((x : Batch) → (f x).id ≡ x.id)
    → find? (has_id id) l ≡ some b
    → find? (has_id id) (update (has_id id) f l) ≡ some (f b)
found_after id f [] same e = cc
found_after id f (x ∷ l) {b} same e = elim (Bool-cases (has_id id x)) [
  | inl hit ↦
      let again : has_id id (f x) ≡ true = rw (same x) hit in
      let first : x ≡ b = ground (arith, hit, e) in rw hit (rw again (ap (λ z. some (f z)) first))
  | inr miss ↦ rw miss (rw miss (found_after id f l same (rw miss at e)))
]

pub finish-IsFinished :
    (env : StoreEnv) (id : ℕ) (s : IngestionSummary) (w : World)
    → (finish env id s.status (stored_summary s) s.error_code s.error_detail w).0 ≡ done tt
    → IsFinished id s (finish env id s.status (stored_summary s) s.error_code s.error_detail w).1
unfolding finish finished IsFinished
finish-IsFinished env id s w e = elim (Option-cases (batch_of id w)) [
  | inl x ↦ let clash : crashed batch_absent ≡ done tt = rw (x, finish) at e in cc
  | inr (b, x) ↦
      rw (x, finish) (_, found_after id _ w.batches (λ y. refl) x, refl, refl, refl, refl, refl)
]

-- The tables of the documents are the same.
unfoldable pub SameStore : World → World → Type 0
SameStore w u = (u.items ≡ w.items) × (u.artifacts ≡ w.artifacts) × (u.bucket ≡ w.bucket)

pub SameStore-IsStored :
    (env : StoreEnv) (w u : World) → SameStore w u → IsStored env w → IsStored env u
unfolding SameStore IsStored
SameStore-IsStored env w u (items, artifacts, bucket) h = rw artifacts (rw bucket h)

pub finish-SameStore :
    (env : StoreEnv) (id : ℕ) (s : IngestionSummary) (w : World)
    → SameStore w (finish env id s.status (stored_summary s) s.error_code s.error_detail w).1
unfolding finish SameStore
finish-SameStore env id s w = elim (Option-cases (batch_of id w)) [
  | inl x ↦ rw (x, finish) (refl, refl, refl)
  | inr (b, x) ↦ rw (x, finish) (refl, refl, refl)
]

begin_found-SameStore :
    (env : StoreEnv) (id : ℕ) (w : World) (b : Batch) (status : IngestionStatus)
    → SameStore w (begin_found env id w b status).1
unfolding begin_found begin_pending SameStore
begin_found-SameStore env id w b running = (refl, refl, refl)
begin_found-SameStore env id w b succeeded = (refl, refl, refl)
begin_found-SameStore env id w b IngestionStatus.failed = (refl, refl, refl)
begin_found-SameStore env id w b pending =
    elim (Option-cases (security_code env.digit b.security_code)) [
      | inl x ↦ rw x (refl, refl, refl)
      | inr (c, x) ↦ rw x (refl, refl, refl)
    ]

pub begin-SameStore : (env : StoreEnv) (id : ℕ) (w : World) → SameStore w (begin env id w).1
unfolding begin SameStore
begin-SameStore env id w = elim (Option-cases (batch_of id w)) [
  | inl x ↦ rw (x, begin) (refl, refl, refl)
  | inr (b, x) ↦ rw (x, begin) (begin_found-SameStore env id w b b.status)
]

-- What a summary takes over
pub summary_of-fields :
    (id : ℕ) (code : Text) (status : IngestionStatus) (started ended : ℕ)
    (items : List ArchivedItem) (error : Option CollectError) (skipped : List SkippedItem)
    (periods : Option (List (Text × List Text))) (years : Option (List ℕ)) {s : IngestionSummary}
    → summary_of id code status started ended items error skipped periods years ≡ some s
    → (s.status ≡ status) × (s.error_code ≡ error_code_of error) × (s.skipped ≡ skipped)
unfolding summary_of
summary_of-fields id code status started ended items error skipped none years e = cc
summary_of-fields id code status started ended items error skipped (some periods) none e = cc
summary_of-fields id code status started ended items error skipped (some periods) (some years) e =
    let same = some_injective e in
    (
      ap (λ z. z.status) (sym same),
      ap (λ z. z.error_code) (sym same),
      ap (λ z. z.skipped) (sym same),
    )
