-- ===== src/Intake/Rows.antt =====
-- Rows of `security_request` found by their id, under the writes of the store.
use info_backend.Prelude.{
  ℕ, ◌≡◌, inl, inr, some, List, [], ◌∷◌, ◌++◌, arith, find?, update, ◌==◌, Bool-cases,
  if◌then◌else◌,
}
use info_backend.Intake.Domain.{SecurityRequest}
use info_backend.Intake.Store.{has_id}

pub find?-append :
    (id : ℕ) (rows more : List SecurityRequest) {row : SecurityRequest}
    → find? (has_id id) rows ≡ some row
    → find? (has_id id) (rows ++ more) ≡ some row
find?-append id [] more h = cc
find?-append id (x ∷ rows) more h = elim (Bool-cases (has_id id x)) [
  | inl e ↦ rw e (rw e at h)
  | inr e ↦ rw e (find?-append id rows more (rw e at h))
]

-- A write to the rows of one id keeps every row in its place, and changes the row of that id only.
pub find?-update :
    (id j : ℕ) (f : SecurityRequest → SecurityRequest) (rows : List SecurityRequest)
    {row : SecurityRequest}
    → ((r : SecurityRequest) → (f r).request_id ≡ r.request_id)
    → find? (has_id id) rows ≡ some row
    → find? (has_id id) (update (has_id j) f rows) ≡ some (if id == j then f row else row)
find?-update id j f [] keeps h = cc
find?-update id j f (x ∷ rows) {row} keeps h = ground (
  arith,
  keeps x,
  λ (p : find? (has_id id) rows ≡ some row). find?-update id j f rows {row = row} keeps p,
)

pub find?-has_id :
    (id : ℕ) (rows : List SecurityRequest) {row : SecurityRequest}
    → find? (has_id id) rows ≡ some row
    → row.request_id ≡ id
find?-has_id id [] h = cc
find?-has_id id (x ∷ rows) {row} h =
    ground (arith, λ (p : find? (has_id id) rows ≡ some row). find?-has_id id rows {row = row} p)
