-- ===== src/Intake/Counting.antt =====
-- Counting the open requests of a person: what a list of ids says of the rows of the table.
use info_backend.Prelude.{
  ℕ, suc, ◌≤◌, ◌≡◌, ◌≢◌, refl, ◌∙◌, Bool, true, inl, inr, List, [], ◌∷◌, map, arith, All, any,
  count, length, update, filter_by, sort_by, insert_by, ◌==◌, Bool-cases, if◌then◌else◌,
}
use info_backend.Intake.Domain.{SecurityRequest, Progress}
use info_backend.Intake.Unit.{Db}
use info_backend.Intake.Store.{has_id, load, closed}
use info_backend.Intake.Queries.{is_open_of}
use info_backend.Intake.Integrity.{UniqueIds, All-map}

-- The open requests that a person takes part in.
abbrev pub open_count : ℕ → Db → ℕ
open_count actor_id db = count (is_open_of actor_id) db.requests

abbrev pub has : List ℕ → ℕ → Bool
has ids n = any (λ j. j == n) ids

abbrev without : ℕ → List ℕ → List ℕ
without n [] = []
without n (j ∷ ids) = let rest = j ∷ without n ids in if j == n then ids else rest

has-without : (n m : ℕ) (ids : List ℕ) → n ≢ m → has ids m ≡ true → has (without n ids) m ≡ true
has-without n m [] d h = h
has-without n m (j ∷ ids) d h = ground (arith, λ (p : has ids m ≡ true). has-without n m ids d p)

length-without :
    (n : ℕ) (ids : List ℕ) → has ids n ≡ true → suc (length (without n ids)) ≡ length ids
length-without n [] h = cc
length-without n (j ∷ ids) h = ground (arith, λ (p : has ids n ≡ true). length-without n ids p)

-- An open row of the person has one of the ids.
abbrev pub OpenIn : ℕ → List ℕ → SecurityRequest → Type 0
OpenIn actor_id ids row = is_open_of actor_id row ≡ true → has ids row.request_id ≡ true

OpenIn-without :
    (actor_id : ℕ) (ids : List ℕ) (n : ℕ) (rows : List SecurityRequest)
    → All (λ y. n ≢ y.request_id) rows
    → All (OpenIn actor_id ids) rows
    → All (OpenIn actor_id (without n ids)) rows
OpenIn-without actor_id ids n [] d h = tt
OpenIn-without actor_id ids n (x ∷ rows) d h =
    (λ p. has-without n x.request_id ids d.0 (h.0 p), OpenIn-without actor_id ids n rows d.1 h.1)

-- So there are at most as many of them.
pub count-le-length :
    (actor_id : ℕ) (rows : List SecurityRequest) (ids : List ℕ)
    → UniqueIds rows
    → All (OpenIn actor_id ids) rows
    → count (is_open_of actor_id) rows ≤ length ids
count-le-length actor_id [] ids u h = omega arith
count-le-length actor_id (x ∷ rows) ids u h = elim (Bool-cases (is_open_of actor_id x)) [
  | inl e ↦
      let rest =
        count-le-length actor_id rows (without x.request_id ids) u.1
          (OpenIn-without actor_id ids x.request_id rows u.0 h.1) in
      rw e (omega (arith, rest, length-without x.request_id ids (h.0 e)))
  | inr e ↦ rw e (count-le-length actor_id rows ids u.1 h.1)
]

abbrev pub ids_of : List SecurityRequest → List ℕ
ids_of l = map (λ r. r.request_id) l

has-insert_by :
    (x : SecurityRequest) (l : List SecurityRequest) (n : ℕ)
    → has (ids_of (insert_by (λ r. r.created_at) x l)) n ≡ has (ids_of (x ∷ l)) n
has-insert_by x [] n = refl
has-insert_by x (y ∷ l) n = ground (arith, has-insert_by x l n)

has-sort_by :
    (l : List SecurityRequest) (n : ℕ)
    → has (ids_of (sort_by (λ r. r.created_at) l)) n ≡ has (ids_of l) n
has-sort_by [] n = refl
has-sort_by (x ∷ l) n =
    ground (arith, has-insert_by x (sort_by (λ r. r.created_at) l) n, has-sort_by l n)

ids_of-load : (l : List SecurityRequest) → ids_of (map load l) ≡ ids_of l
unfolding load
ids_of-load [] = refl
ids_of-load (x ∷ l) = rw (ids_of-load l)

OpenIn-filter_cons :
    (actor_id : ℕ) (x : SecurityRequest) (rows : List SecurityRequest) (r : SecurityRequest)
    → OpenIn actor_id (ids_of (filter_by (is_open_of actor_id) rows)) r
    → OpenIn actor_id (ids_of (filter_by (is_open_of actor_id) (x ∷ rows))) r
OpenIn-filter_cons actor_id x rows r h p = elim (Bool-cases (is_open_of actor_id x)) [
  | inl e ↦ rw e (rw (h p) (ground arith))
  | inr e ↦ rw e (h p)
]

OpenIn-filter :
    (actor_id : ℕ) (rows : List SecurityRequest)
    → All (OpenIn actor_id (ids_of (filter_by (is_open_of actor_id) rows))) rows
OpenIn-filter actor_id [] = tt
OpenIn-filter actor_id (x ∷ rows) = (
  λ p. rw p (ground arith),
  All-map rows (OpenIn-filter_cons actor_id x rows) (OpenIn-filter actor_id rows),
)

-- The rows that `open_of` returns have the ids of all open rows of the person.
abbrev pub opened : ℕ → Db → List SecurityRequest
opened actor_id d =
    map load (sort_by (λ r. r.created_at) (filter_by (is_open_of actor_id) d.requests))

OpenIn-same :
    (actor_id : ℕ) (ids more : List ℕ)
    → ((n : ℕ) → has more n ≡ has ids n)
    → (r : SecurityRequest) → OpenIn actor_id ids r
    → OpenIn actor_id more r
OpenIn-same actor_id ids more same r h p = same r.request_id ∙ h p

pub OpenIn-opened :
    (actor_id : ℕ) (d : Db) → All (OpenIn actor_id (ids_of (opened actor_id d))) d.requests
OpenIn-opened actor_id d =
    let l = filter_by (is_open_of actor_id) d.requests in
    All-map d.requests
      (OpenIn-same actor_id (ids_of l) (ids_of (opened actor_id d))
        (λ n. rw (ids_of-load (sort_by (λ r. r.created_at) l)) (has-sort_by l n)))
      (OpenIn-filter actor_id d.requests)

-- Closing the row of an id takes the id out of what may be open.
pub OpenIn-closed :
    (actor_id n at : ℕ) (outcome : Progress) (ids : List ℕ) (rows : List SecurityRequest)
    → All (OpenIn actor_id (n ∷ ids)) rows
    → All (OpenIn actor_id ids) (update (has_id n) (closed outcome at) rows)
unfolding closed
OpenIn-closed actor_id n at outcome ids [] h = tt
OpenIn-closed actor_id n at outcome ids (x ∷ rows) h =
    (λ p. ground (arith, h.0), OpenIn-closed actor_id n at outcome ids rows h.1)
