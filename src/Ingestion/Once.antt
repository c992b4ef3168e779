-- ===== src/Ingestion/Once.antt =====
-- A batch is carried out once: `begin` of app/app/infrastructure/securities/store.py through any
-- sequence of its transactions.
use info_backend.Prelude.{
  ℕ, suc, ◌≡◌, ◌≢◌, refl, true, false, Option, none, some, List, [], ◌∷◌, ◌++◌, find?, update,
  arith, Text, Bool-cases, Option-cases, inl, inr,
}
use info_backend.SecurityCode.{SecurityCode, security_code}
use info_backend.Intake.Domain.{IngestionStatus, pending, running, succeeded}
use info_backend.Ingestion.Domain.{
  FetchRequest, RawResponse, StoredSummary, Outcome, done, crashed, not_runnable, invalid_code,
}
use info_backend.Ingestion.Store.{
  Batch, World, StoreEnv, has_id, batch_of, tick, start, insert_batch, register_sources,
  record_build_refusal, refused_build, begin, begin_found, begin_pending, begun, interrupted,
  finish, finished,
}
use info_backend.Ingestion.Archive.{archive}
use info_backend.Ingestion.Failures.{Spares, archive-Spares}
use info_backend.Ingestion.Service.{Service, run, run_begun}

-- A transaction of the store, whoever makes it, or a call of the fetcher or the clock in between
pub data Step (env : StoreEnv) (w : World) : World → Type 0 where
  starts : (code : SecurityCode) (sources : List Text) → Step env w (start env code sources w).1
  refuses : (id : ℕ) (error : Text) → Step env w (record_build_refusal env id error w)
  begins : (id : ℕ) → Step env w (begin env id w).1
  archives :
      (id : ℕ) (code : Text) (seq : ℕ) (request : FetchRequest) (r : RawResponse)
      → Step env w (archive env id code seq request r w).1
  finishes :
      (id : ℕ) (status : IngestionStatus) (summary : StoredSummary) (code detail : Option Text)
      → status ≢ pending
      → Step env w (finish env id status summary code detail w).1
  calls : Step env w (record w { calls = suc w.calls })
  reads : Step env w (tick w)

pub data Reaches (env : StoreEnv) (w : World) : World → Type 0 where
  here : Reaches env w w
  later : {u v : World} → Reaches env w u → Step env u v → Reaches env w v

-- The batch is there, and it is not pending.
abbrev Settled : ℕ → List Batch → Type 0
Settled id rows = (b : Batch) × (find? (has_id id) rows ≡ some b) × (b.status ≢ pending)

abbrev pub HasBegun : ℕ → World → Type 0
HasBegun id w = Settled id w.batches

Settled-append : (id : ℕ) (l m : List Batch) → Settled id l → Settled id (l ++ m)
Settled-append id [] m (b, e, h) = cc
Settled-append id (x ∷ l) m (b, e, h) = elim (Bool-cases (has_id id x)) [
  | inl hit ↦ (b, rw hit (rw hit at e), h)
  | inr miss ↦ rw miss (Settled-append id l m (b, rw miss at e, h))
]

Settled-update :
    (id key : ℕ) (f : Batch → Batch) (l : List Batch)
    → ((x : Batch) → (f x).id ≡ x.id)
    → ((x : Batch) → x.status ≢ pending → (f x).status ≢ pending)
    → Settled id l
    → Settled id (update (has_id key) f l)
Settled-update id key f [] same keeps (b, e, h) = cc
Settled-update id key f (x ∷ l) same keeps (b, e, h) = elim (Bool-cases (has_id id x)) [
  | inl hit ↦
      let first : x ≡ b = ground (arith, hit, e) in
      let h : x.status ≢ pending = rw first h in
      elim (Bool-cases (has_id key x)) [
        | inl k ↦
            let again : has_id id (f x) ≡ true = rw (same x) hit in
            rw k (rw again (f x, refl, keeps x h))
        | inr k ↦ rw k (rw hit (x, refl, h))
      ]
  | inr miss ↦
      let rest = Settled-update id key f l same keeps (b, rw miss at e, h) in
      elim (Bool-cases (has_id key x)) [
        | inl k ↦ let again : has_id id (f x) ≡ false = rw (same x) miss in rw k (rw again rest)
        | inr k ↦ rw k (rw miss rest)
      ]
]

module _ (env : StoreEnv) (id : ℕ) where
  start-HasBegun :
      (code : SecurityCode) (sources : List Text) (w : World)
      → HasBegun id w
      → HasBegun id (start env code sources w).1
  unfolding start insert_batch
  start-HasBegun code sources w h = elim (Option-cases (register_sources sources w.sources)) [
    | inl e ↦ rw e h
    | inr (rows, e) ↦ rw e (Settled-append id w.batches _ h)
  ]

  record_build_refusal-HasBegun :
      (key : ℕ) (error : Text) (w : World)
      → HasBegun id w
      → HasBegun id (record_build_refusal env key error w)
  unfolding record_build_refusal refused_build
  record_build_refusal-HasBegun key error w h = elim (Option-cases (batch_of key w)) [
    | inl e ↦ rw (e, record_build_refusal) h
    | inr (b, e) ↦
        rw (e, record_build_refusal)
          (Settled-update id key _ w.batches (λ x. refl) (λ x keep. keep) h)
  ]

  begin_found-HasBegun :
      (key : ℕ) (w : World) (b : Batch) (status : IngestionStatus)
      → HasBegun id w
      → HasBegun id (begin_found env key w b status).1
  unfolding begin_found begin_pending begun interrupted
  begin_found-HasBegun key w b running h =
      Settled-update id key _ w.batches (λ x. refl) (λ x keep clash. cc) h
  begin_found-HasBegun key w b succeeded h = h
  begin_found-HasBegun key w b IngestionStatus.failed h = h
  begin_found-HasBegun key w b pending h =
      elim (Option-cases (security_code env.digit b.security_code)) [
        | inl e ↦ rw e h
        | inr (code, e) ↦
            rw e (Settled-update id key _ w.batches (λ x. refl) (λ x keep clash. cc) h)
      ]

  begin-HasBegun : (key : ℕ) (w : World) → HasBegun id w → HasBegun id (begin env key w).1
  unfolding begin
  begin-HasBegun key w h = elim (Option-cases (batch_of key w)) [
    | inl e ↦ rw (e, begin) h
    | inr (b, e) ↦ rw (e, begin) (begin_found-HasBegun key w b b.status h)
  ]

  finish-HasBegun :
      (key : ℕ) (status : IngestionStatus) (summary : StoredSummary) (code detail : Option Text)
      (w : World)
      → status ≢ pending
      → HasBegun id w
      → HasBegun id (finish env key status summary code detail w).1
  unfolding finish finished
  finish-HasBegun key status summary code detail w ended h = elim (Option-cases (batch_of key w)) [
    | inl e ↦ rw (e, finish) h
    | inr (b, e) ↦
        rw (e, finish) (Settled-update id key _ w.batches (λ x. refl) (λ x keep. ended) h)
  ]

  Step-HasBegun : (w u : World) → Step env w u → HasBegun id w → HasBegun id u
  unfolding Spares
  Step-HasBegun w _ (starts code sources) h = start-HasBegun code sources w h
  Step-HasBegun w _ (refuses key error) h = record_build_refusal-HasBegun key error w h
  Step-HasBegun w _ (begins key) h = begin-HasBegun key w h
  Step-HasBegun w _ (archives key code seq request r) h =
      let (batches, _) = archive-Spares env key seq code request r w in rw batches h
  Step-HasBegun w _ (finishes key status summary code detail ended) h =
      finish-HasBegun key status summary code detail w ended h
  Step-HasBegun w _ calls h = h
  Step-HasBegun w _ reads h = h

  Reaches-HasBegun : (w u : World) → Reaches env w u → HasBegun id w → HasBegun id u
  Reaches-HasBegun w _ here h = h
  Reaches-HasBegun w _ (later {u} {v} r s) h = Step-HasBegun u v s (Reaches-HasBegun w u r h)

Settled-written :
    (id : ℕ) (f : Batch → Batch) (l : List Batch) {b : Batch}
    → ((x : Batch) → (f x).id ≡ x.id)
    → ((x : Batch) → (f x).status ≢ pending)
    → find? (has_id id) l ≡ some b
    → Settled id (update (has_id id) f l)
Settled-written id f [] same ended e = cc
Settled-written id f (x ∷ l) same ended e = elim (Bool-cases (has_id id x)) [
  | inl hit ↦
      let again : has_id id (f x) ≡ true = rw (same x) hit in rw hit (rw again (f x, refl, ended x))
  | inr miss ↦ rw miss (rw miss (Settled-written id f l same ended (rw miss at e)))
]

module _ (env : StoreEnv) (id : ℕ) where
  begin_found-some :
      (w : World) (b : Batch) (status : IngestionStatus) {code : SecurityCode}
      → batch_of id w ≡ some b
      → (begin_found env id w b status).0 ≡ done (some code)
      → HasBegun id (begin_found env id w b status).1
  unfolding begin_found begin_pending begun interrupted
  begin_found-some w b running found e = cc
  begin_found-some w b succeeded found e = cc
  begin_found-some w b IngestionStatus.failed found e = cc
  begin_found-some w b pending {code} found e =
      elim (Option-cases (security_code env.digit b.security_code)) [
        | inl x ↦ let clash : crashed invalid_code ≡ done (some code) = rw x at e in cc
        | inr (c, x) ↦ rw x (Settled-written id _ w.batches (λ y. refl) (λ y clash. cc) found)
      ]

  pub begin-some :
      (w : World) {code : SecurityCode}
      → (begin env id w).0 ≡ done (some code)
      → HasBegun id (begin env id w).1
  unfolding begin
  begin-some w {code} e = elim (Option-cases (batch_of id w)) [
    | inl x ↦ let clash : done none ≡ done (some code) = rw (x, begin) at e in cc
    | inr (b, x) ↦ rw (x, begin) (begin_found-some w b b.status x (rw (x, begin) at e))
  ]

  begin_found-none :
      (w : World) (b : Batch) (status : IngestionStatus)
      → status ≢ pending
      → (begin_found env id w b status).0 ≡ done none
  unfolding begin_found
  begin_found-none w b running h = refl
  begin_found-none w b succeeded h = refl
  begin_found-none w b IngestionStatus.failed h = refl
  begin_found-none w b pending h = elim (h refl) [ ]

  begin-none : (w : World) → HasBegun id w → (begin env id w).0 ≡ done none
  unfolding begin
  begin-none w (b, e, h) = rw (e, begin) (begin_found-none w b b.status h)

run_begun-none :
    (s : Service) (id : ℕ) (o : Outcome (Option SecurityCode)) (w : World)
    → o ≡ done none
    → run_begun s id (o, w) ≡ (crashed not_runnable, w)
unfolding run_begun
run_begun-none s id o w e = rw e refl

-- Once `begin` has handed a batch out, no run of the batch carries it out again: in every state that
-- transactions of the store reach from there, whoever makes them, a run ends as `IngestionNotRunnable`
-- right after its own `begin`. The transactions finish no batch as pending.
pub run-once :
    (s : Service) (id : ℕ) (w v : World) {code : SecurityCode}
    → (begin s.env.store id w).0 ≡ done (some code)
    → Reaches s.env.store (begin s.env.store id w).1 v
    → run s id v ≡ (crashed not_runnable, (begin s.env.store id v).1)
unfolding run
run-once s id w v e reached =
    let begun = Reaches-HasBegun s.env.store id _ v reached (begin-some s.env.store id w e) in
    run_begun-none s id _ _ (begin-none s.env.store id v begun)
