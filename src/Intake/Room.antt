-- ===== src/Intake/Room.antt =====
-- `_my_open_count` (app/app/application/securities/request_service.py) counts every open request that its
-- views leave open.
use info_backend.Prelude.{
  ℕ, suc, ◌≤◌, ◌≡◌, refl, sym, ◌∙◌, subst, ap, true, false, ◌||◌, inl, inr, List, [], ◌∷◌, ◌++◌,
  map, arith, All, count, length, filter_by, Bool-cases, is_none,
}
use info_backend.Intake.Domain.{SecurityRequest, ok}
use info_backend.Intake.Unit.{Db, Session, Env, pure, traverse, gets, ◌>>=◌}
use info_backend.Intake.Store.{load, update_row}
use info_backend.Intake.Queries.{is_open_of, open_of}
use info_backend.Intake.Views.{RequestView, view, views, unfinished, my_open_count}
use info_backend.Intake.Integrity.{IsSound, IsSoundRow, All-map}
use info_backend.Intake.Reading.{views-Keeps}
use info_backend.Intake.Keeps.{Keeps-ok}
use info_backend.Rows.{All-sort_by}
use info_backend.Intake.Integrity.{Preserves-preorder, close-Preserves}
use info_backend.Intake.Counting.{
  open_count, has, OpenIn, ids_of, opened, count-le-length, OpenIn-opened, OpenIn-closed,
}
use info_backend.Intake.Endings.{>>=-elim, view-eq}

-- The ids that may be open, in two parts: of the rows that are not viewed yet, and of those that are.
abbrev Covered : ℕ → List ℕ → List ℕ → Db → Type 0
Covered actor_id todo done d = All (OpenIn actor_id (todo ++ done)) d.requests

has-append : (a b : List ℕ) (n : ℕ) → has (a ++ b) n ≡ (has a n || has b n)
has-append [] b n = refl
has-append (x ∷ a) b n = ground (arith, has-append a b n)

-- What the views leave: as many ids as there are unfinished views.
record Left (actor_id : ℕ) (done : List ℕ) (vs : List RequestView) (d : Db) : Type 0 where
  ids : List ℕ
  size : length ids ≡ count unfinished vs
  covered : Covered actor_id ids done d

move : (x n : ℕ) (a b : List ℕ) → has (a ++ x ∷ b) n ≡ has (x ∷ a ++ b) n
move x n a b = ground (arith, has-append a (x ∷ b) n, has-append a b n)

moved :
    (actor_id x : ℕ) (a b : List ℕ) (rows : List SecurityRequest)
    → All (OpenIn actor_id (x ∷ a ++ b)) rows
    → All (OpenIn actor_id (a ++ x ∷ b)) rows
moved actor_id x a b rows = All-map rows (λ r h p. move x r.request_id a b ∙ h p)

moved_back :
    (actor_id x : ℕ) (a b : List ℕ) (rows : List SecurityRequest)
    → All (OpenIn actor_id (a ++ x ∷ b)) rows
    → All (OpenIn actor_id (x ∷ a ++ b)) rows
moved_back actor_id x a b rows = All-map rows (λ r h p. sym (move x r.request_id a b) ∙ h p)

pub pure-eq : {A : Type 0} (a b : A) (s t : Session) → pure a s ≡ ok (b, t) → (a ≡ b) × (s ≡ t)
unfolding ◌>>=◌
pure-eq a b s t e = (cc, cc)

Left-kept :
    (actor_id x : ℕ) (done : List ℕ) (v : RequestView) (ws : List RequestView) (d : Db)
    → unfinished v ≡ true
    → Left actor_id (x ∷ done) ws d
    → Left actor_id done (v ∷ ws) d
Left-kept actor_id x done v ws d b l = record {
  ids = x ∷ l.ids;
  size = rw b (ap suc l.size);
  covered = moved_back actor_id x l.ids done d.requests l.covered;
}

Left-freed :
    (actor_id : ℕ) (done : List ℕ) (v : RequestView) (ws : List RequestView) (d : Db)
    → unfinished v ≡ false
    → Left actor_id done ws d
    → Left actor_id done (v ∷ ws) d
Left-freed actor_id done v ws d b l = record {
  ids = l.ids;
  size = rw b l.size;
  covered = l.covered;
}

views-Left :
    (env : Env) (actor_id : ℕ) (todo : List SecurityRequest) (done : List ℕ) (s t : Session)
    (vs : List RequestView)
    → All (λ r. (r.is_open ≡ true) × (is_none r.outcome ≡ true)) todo
    → Covered actor_id (ids_of todo) done s.db
    → traverse (view env) todo s ≡ ok (vs, t)
    → Left actor_id done vs t.db
unfolding traverse update_row
views-Left env actor_id [] done s t vs fresh c e =
    let (same, end) = pure-eq [] vs s t e in
    subst (λ z. Left actor_id done z t.db) same
      (record { ids = []; size = refl; covered = subst (λ z. Covered actor_id [] done z.db) end c })
views-Left env actor_id (r ∷ todo) done s t vs fresh c e =
    >>=-elim _ (view env r) _ s
      (λ v s1 e1. >>=-elim _ (traverse (view env) todo) _ s1 λ ws s2 e2 e3.
        let (same, end) = pure-eq (v ∷ ws) vs s2 t e3 in
        let after = view-eq env r s s1 v fresh.0.0 fresh.0.1 e1 in
        subst (λ z. Left actor_id done z t.db) same
          (subst (λ z. Left actor_id done (v ∷ ws) z.db) end
            (elim (Bool-cases (unfinished v)) [
              | inl b ↦
                  let kept : Covered actor_id (ids_of todo) (r.request_id ∷ done) s1.db =
                    subst (Covered actor_id (ids_of todo) (r.request_id ∷ done))
                      (sym (rw b at after))
                      (moved actor_id r.request_id (ids_of todo) done s.db.requests c) in
                  Left-kept actor_id r.request_id done v ws s2.db b
                    (views-Left env actor_id todo (r.request_id ∷ done) s1 s2 ws fresh.1 kept e2)
              | inr b ↦
                  let freed : Covered actor_id (ids_of todo) done s1.db =
                    subst (Covered actor_id (ids_of todo) done) (sym (rw b at after)) (
                      OpenIn-closed actor_id r.request_id (env.clock s.tick) v.progress
                        (ids_of todo ++ done) s.db.requests c) in
                  Left-freed actor_id done v ws s2.db b
                    (views-Left env actor_id todo done s1 s2 ws fresh.1 freed e2)
            ])))
      e

-- A request that is open and has no outcome.
abbrev IsFresh : SecurityRequest → Type 0
IsFresh r = (r.is_open ≡ true) × (is_none r.outcome ≡ true)

filter-IsFresh :
    (actor_id : ℕ) (rows : List SecurityRequest)
    → All IsSoundRow rows
    → All IsFresh (filter_by (is_open_of actor_id) rows)
filter-IsFresh actor_id [] h = tt
filter-IsFresh actor_id (r ∷ rows) h = elim (Bool-cases (is_open_of actor_id r)) [
  | inl e ↦
      let open_row : r.is_open ≡ true = ground (arith, e) in
      rw e ((open_row, sym h.0.outcome_iff_closed ∙ open_row), filter-IsFresh actor_id rows h.1)
  | inr e ↦ rw e (filter-IsFresh actor_id rows h.1)
]

load-IsFresh : (l : List SecurityRequest) → All IsFresh l → All IsFresh (map load l)
unfolding load
load-IsFresh [] h = tt
load-IsFresh (r ∷ l) h = (h.0, load-IsFresh l h.1)

opened-IsFresh :
    (actor_id : ℕ) (d : Db) → All IsSoundRow d.requests → All IsFresh (opened actor_id d)
opened-IsFresh actor_id d h =
    load-IsFresh _
      (All-sort_by IsFresh (λ r. r.created_at) _ (filter-IsFresh actor_id d.requests h))

append-nothing : (l : List ℕ) → l ++ [] ≡ l
append-nothing [] = refl
append-nothing (x ∷ l) = ap (λ k. x ∷ k) (append-nothing l)

gets-eq :
    {A : Type 0} (f : Db → A) (b : A) (s t : Session)
    → gets f s ≡ ok (b, t)
    → (f s.db ≡ b) × (s ≡ t)
unfolding ◌>>=◌
gets-eq f b s t e = (cc, cc)

-- The number that `_my_open_count` answers bounds the open requests that the person is left with: the
-- requests whose progress is final are closed on the way, and every other one is counted. The tables must keep the constraints.
pub my_open_count-bounds :
    (env : Env) (actor_id n : ℕ) (s t : Session)
    → IsSound s.db
    → my_open_count env actor_id s ≡ ok (n, t)
    → open_count actor_id t.db ≤ n
unfolding my_open_count views open_of
my_open_count-bounds env actor_id n s t sound e =
    >>=-elim _ (open_of actor_id) _ s
      (λ l s1 e1. >>=-elim _ (views env l) _ s1 λ vs s2 e2 e3.
        let (rows, start) = gets-eq (opened actor_id) l s s1 e1 in
        let (number, end) = pure-eq (count unfinished vs) n s2 t e3 in
        let sound1 : IsSound s1.db = subst (λ z. IsSound z.db) start sound in
        let sound2 : IsSound s2.db =
          (Keeps-ok (views-Keeps env Preserves-preorder close-Preserves l) e2).0 sound1 in
        let left : Left actor_id [] vs s2.db =
          views-Left env actor_id l [] s1 s2 vs
            (subst (All IsFresh) rows (opened-IsFresh actor_id s.db sound.rows))
            (subst (λ z. Covered actor_id (ids_of l) [] z.db) start
              (subst (λ k. Covered actor_id (ids_of k) [] s.db) rows (uncovered actor_id s.db)))
            e2 in
        let bound =
          count-le-length actor_id s2.db.requests (left.ids ++ []) sound2.ids left.covered in
        subst (λ z. open_count actor_id z.db ≤ n) end
          (omega (arith, bound, ap length (append-nothing left.ids), left.size, number)))
      e
  where
    uncovered : (actor_id : ℕ) (d : Db) → Covered actor_id (ids_of (opened actor_id d)) [] d
    uncovered actor_id d =
        subst (λ k. All (OpenIn actor_id k) d.requests)
          (sym (append-nothing (ids_of (opened actor_id d)))) (OpenIn-opened actor_id d)
