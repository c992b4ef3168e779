-- ===== src/Intake/Integrity.antt =====
-- The constraints that the database holds against `security_request`
-- (app/alembic/versions/20260929_0013_security_requests.py) are kept by every operation, so none of
-- them is ever refused for one, except the insertion that loses a race.
use info_backend.Prelude.{
  ℕ, ◌≡◌, ◌≢◌, refl, sym, ◌∙◌, Bool, true, inl, inr, Option, none, some, List, [], ◌∷◌, Text, arith,
  All, any, update, Bool-cases, is_none,
}
use info_backend.Intake.Domain.{SecurityRequest, RequestStatus, Progress, is_by}
use info_backend.Intake.Unit.{Db}
use info_backend.Intake.Keeps.{IsPreorder, Keeps, Keeps-modify, keeps_rules}
use info_backend.Intake.Store.{
  NewRequester, has_id, first_of_two, update_row, must, joined, join, left, withdraw_requester,
  decided, decide, closed, close,
}
use info_backend.Intake.Stable.{HasBatch}
use info_backend.Intake.History.{
  IsWrite, joined-IsWrite, left-IsWrite, decided-IsWrite, closed-IsWrite,
}

-- `ck_security_request_closed_with_outcome` and `ck_security_request_approved_has_ingestion`
pub record IsSoundRow (row : SecurityRequest) : Type 0 where
  pub outcome_iff_closed : row.is_open ≡ is_none row.outcome
  pub time_iff_closed : row.is_open ≡ is_none row.closed_at
  pub batch : HasBatch row.status row.ingestion_id

-- Two open rows are for different companies: `uq_security_request_open_code`.
abbrev pub DiffersFrom : SecurityRequest → SecurityRequest → Type 0
DiffersFrom x y = x.is_open ≡ true → y.is_open ≡ true → x.security_code ≢ y.security_code

abbrev pub OpenOnce : List SecurityRequest → Type 0
OpenOnce [] = Unit
OpenOnce (x ∷ xs) = All (DiffersFrom x) xs × OpenOnce xs

-- the primary key
abbrev pub UniqueIds : List SecurityRequest → Type 0
UniqueIds [] = Unit
UniqueIds (x ∷ xs) = All (λ y. x.request_id ≢ y.request_id) xs × UniqueIds xs

pub record IsSound (d : Db) : Type 0 where
  pub rows : All IsSoundRow d.requests
  pub once : OpenOnce d.requests
  pub ids : UniqueIds d.requests

abbrev pub Preserves : Db → Db → Type 0
Preserves d e = IsSound d → IsSound e

pub Preserves-preorder : IsPreorder Preserves
Preserves-preorder = record { same = λ d h. h; chain = λ d e f p q h. q (p h) }

pub All-update :
    {P : SecurityRequest → Type 0} (p : SecurityRequest → Bool)
    (f : SecurityRequest → SecurityRequest) (rows : List SecurityRequest)
    → ((r : SecurityRequest) → P r → P (f r))
    → All P rows
    → All P (update p f rows)
All-update p f [] keep h = tt
All-update p f (x ∷ rows) keep h = elim (Bool-cases (p x)) [
  | inl e ↦ rw e (keep x h.0, All-update p f rows keep h.1)
  | inr e ↦ rw e (h.0, All-update p f rows keep h.1)
]

DiffersFrom-write :
    (f : SecurityRequest → SecurityRequest)
    → IsWrite f
    → (x y : SecurityRequest) → DiffersFrom x y
    → DiffersFrom x (f y)
DiffersFrom-write f w x y h = let c = w.continues y in ground (arith, c.same_code, c.stays_closed)

DiffersFrom-write_left :
    (f : SecurityRequest → SecurityRequest)
    → IsWrite f
    → (x y : SecurityRequest) → DiffersFrom x y
    → DiffersFrom (f x) y
DiffersFrom-write_left f w x y h =
    let c = w.continues x in ground (arith, c.same_code, c.stays_closed)

pub All-map :
    {P Q : SecurityRequest → Type 0} (rows : List SecurityRequest)
    → ((r : SecurityRequest) → P r → Q r)
    → All P rows
    → All Q rows
All-map [] f h = tt
All-map (x ∷ rows) f h = (f x h.0, All-map rows f h.1)

OpenOnce-update :
    (id : ℕ) (f : SecurityRequest → SecurityRequest)
    → IsWrite f
    → (rows : List SecurityRequest) → OpenOnce rows
    → OpenOnce (update (has_id id) f rows)
OpenOnce-update id f w [] h = tt
OpenOnce-update id f w (x ∷ rows) h = elim (Bool-cases (has_id id x)) [
  | inl e ↦ rw e (
    All-update (has_id id) f rows (DiffersFrom-write f w (f x))
        (All-map rows (DiffersFrom-write_left f w x) h.0),
    OpenOnce-update id f w rows h.1,
  )
  | inr e ↦
      rw e (
        All-update (has_id id) f rows (DiffersFrom-write f w x) h.0,
        OpenOnce-update id f w rows h.1,
      )
]

UniqueIds-update :
    (id : ℕ) (f : SecurityRequest → SecurityRequest)
    → IsWrite f
    → (rows : List SecurityRequest) → UniqueIds rows
    → UniqueIds (update (has_id id) f rows)
UniqueIds-update id f w [] h = tt
UniqueIds-update id f w (x ∷ rows) h = elim (Bool-cases (has_id id x)) [
  | inl e ↦ rw e (
    All-update (has_id id) f rows (λ r p q. p (q ∙ w.same_id r))
        (All-map rows (λ r p q. p (sym (w.same_id x) ∙ q)) h.0),
    UniqueIds-update id f w rows h.1,
  )
  | inr e ↦ rw e (
    All-update (has_id id) f rows (λ r p q. p (q ∙ w.same_id r)) h.0,
    UniqueIds-update id f w rows h.1,
  )
]

-- What a write of the store must do to a row to keep the constraints of the row.
abbrev pub SoundWrite : (SecurityRequest → SecurityRequest) → Type 0
SoundWrite f = (r : SecurityRequest) → IsSoundRow r → IsSoundRow (f r)

pub update_row-Preserves :
    (id : ℕ) (f : SecurityRequest → SecurityRequest)
    → IsWrite f
    → SoundWrite f
    → (d : Db) → Preserves d (update_row id f d)
unfolding update_row
update_row-Preserves id f w s d h = record {
  rows = All-update (has_id id) f d.requests s h.rows;
  once = OpenOnce-update id f w d.requests h.once;
  ids = UniqueIds-update id f w d.requests h.ids;
}

pub joined-SoundWrite : (new : NewRequester) → SoundWrite (joined new)
unfolding joined
joined-SoundWrite new r h = elim (Bool-cases (any (is_by new.actor_id) r.requesters)) [
  | inl e ↦ rw e (record {
    outcome_iff_closed = h.outcome_iff_closed;
    time_iff_closed = h.time_iff_closed;
    batch = h.batch;
  })
  | inr e ↦ rw e (record {
    outcome_iff_closed = h.outcome_iff_closed;
    time_iff_closed = h.time_iff_closed;
    batch = h.batch;
  })
]

left-SoundWrite : (actor_id at : ℕ) → SoundWrite (left actor_id at)
unfolding left
left-SoundWrite actor_id at r h = record {
  outcome_iff_closed = h.outcome_iff_closed;
  time_iff_closed = h.time_iff_closed;
  batch = h.batch;
}

decided_batch :
    (status : RequestStatus) (batch old : Option ℕ)
    → HasBatch status batch
    → HasBatch status (first_of_two batch old)
decided_batch RequestStatus.approved none old h = absurd h
decided_batch RequestStatus.approved (some b) old h = tt
decided_batch _ batch old h = tt

pub decided-SoundWrite :
    (status : RequestStatus) (by : Text) (at : ℕ) (remark : Option Text) (batch : Option ℕ)
    → HasBatch status batch
    → SoundWrite (decided status by at remark batch)
unfolding decided
decided-SoundWrite status by at remark batch b r h = record {
  outcome_iff_closed = h.outcome_iff_closed;
  time_iff_closed = h.time_iff_closed;
  batch = decided_batch status batch r.ingestion_id b;
}

pub closed-SoundWrite : (outcome : Progress) (at : ℕ) → SoundWrite (closed outcome at)
unfolding closed
closed-SoundWrite outcome at r h = elim (Bool-cases r.is_open) [
  | inl e ↦ rw e (record { outcome_iff_closed = refl; time_iff_closed = refl; batch = h.batch })
  | inr e ↦ simp e h
]

ruleset writes = (
  Preserves-preorder, keeps_rules, Keeps-modify, update_row-Preserves, joined-IsWrite, left-IsWrite,
  decided-IsWrite, closed-IsWrite, joined-SoundWrite, left-SoundWrite, decided-SoundWrite,
  closed-SoundWrite,
)

pub must-Preserves : (id : ℕ) → Keeps Preserves (must id)
unfolding must
must-Preserves id = search writes

pub join-Preserves : (id : ℕ) (new : NewRequester) → Keeps Preserves (join id new)
unfolding join
join-Preserves id new = search writes depth 9

pub withdraw_requester-Preserves :
    (id actor_id at : ℕ) → Keeps Preserves (withdraw_requester id actor_id at)
unfolding withdraw_requester
withdraw_requester-Preserves id actor_id at = search writes depth 9

pub decide-Preserves :
    (id : ℕ) (status : RequestStatus) (by : Text) (at : ℕ) (remark : Option Text) (batch : Option ℕ)
    → HasBatch status batch
    → Keeps Preserves (decide id status by at remark batch)
unfolding decide
decide-Preserves id status by at remark batch b =
    let write =
      update_row-Preserves id _ (decided-IsWrite status by at remark batch)
        (decided-SoundWrite status by at remark batch b) in
    search (must-Preserves, Preserves-preorder, keeps_rules, Keeps-modify, write)

pub close-Preserves : (id : ℕ) (outcome : Progress) (at : ℕ) → Keeps Preserves (close id outcome at)
unfolding close
close-Preserves id outcome at = search writes depth 9
