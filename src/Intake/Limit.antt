-- ===== src/Intake/Limit.antt =====
-- How many open requests of a person the writes of the store add (app/app/infrastructure/securities/request_store.py).
use info_backend.Prelude.{
  ℕ, suc, ◌≤◌, ◌≡◌, ◌≢◌, refl, subst, Bool, true, inl, inr, Option, List, [], ◌∷◌, ◌++◌, arith, All,
  count, update, Bool-cases, Text,
}
use info_backend.Intake.Domain.{SecurityRequest, RequestStatus, Progress}
use info_backend.Intake.Unit.{Db}
use info_backend.Intake.Keeps.{IsPreorder, Keeps, Keeps-modify, keeps_rules}
use info_backend.Intake.Store.{has_id, update_row, must, decided, decide, closed, close}
use info_backend.Intake.Queries.{is_open_of}
use info_backend.Intake.Stable.{HasBatch}
use info_backend.Intake.History.{IsWrite, decided-IsWrite, closed-IsWrite}
use info_backend.Intake.Integrity.{
  IsSound, UniqueIds, SoundWrite, update_row-Preserves, decided-SoundWrite, closed-SoundWrite,
}
use info_backend.Intake.Counting.{open_count}

-- The person has no more open requests than before.
abbrev pub Fewer : ℕ → Db → Db → Type 0
Fewer actor_id d e = IsSound d → IsSound e × (open_count actor_id e ≤ open_count actor_id d)

-- The person has at most one more.
abbrev pub OneMore : ℕ → Db → Db → Type 0
OneMore actor_id d e = IsSound d → IsSound e × (open_count actor_id e ≤ suc (open_count actor_id d))

pub Fewer-preorder : (actor_id : ℕ) → IsPreorder (Fewer actor_id)
Fewer-preorder actor_id = record {
  same = λ d h. (h, omega arith);
  chain = λ d e f p q h. (let (he, pe) = p h in let (hf, qf) = q he in (hf, omega (arith, pe, qf)));
}

count-update_le :
    (p q : SecurityRequest → Bool) (f : SecurityRequest → SecurityRequest)
    (rows : List SecurityRequest)
    → ((r : SecurityRequest) → p (f r) ≡ true → p r ≡ true)
    → count p (update q f rows) ≤ count p rows
count-update_le p q f [] h = omega arith
count-update_le p q f (x ∷ rows) h = ground (arith, h x, count-update_le p q f rows h)

count-untouched :
    (p : SecurityRequest → Bool) (id : ℕ) (f : SecurityRequest → SecurityRequest)
    (rows : List SecurityRequest)
    → All (λ y. id ≢ y.request_id) rows
    → count p (update (has_id id) f rows) ≡ count p rows
count-untouched p id f [] h = refl
count-untouched p id f (x ∷ rows) h = ground (arith, h.0, count-untouched p id f rows h.1)

count-update_one :
    (p : SecurityRequest → Bool) (id : ℕ) (f : SecurityRequest → SecurityRequest)
    (rows : List SecurityRequest)
    → UniqueIds rows
    → count p (update (has_id id) f rows) ≤ suc (count p rows)
count-update_one p id f [] u = omega arith
count-update_one p id f (x ∷ rows) u = elim (Bool-cases (has_id id x)) [
  | inl e ↦
      let same : x.request_id ≡ id = ground (arith, e) in
      let rest =
        count-untouched p id f rows (subst (λ k. All (λ y. k ≢ y.request_id) rows) same u.0) in
      rw e (rw rest (ground arith))
  | inr e ↦ rw e (let rest = count-update_one p id f rows u.1 in ground (arith, rest))
]

pub count-snoc :
    (p : SecurityRequest → Bool) (row : SecurityRequest) (rows : List SecurityRequest)
    → count p (rows ++ row ∷ []) ≤ suc (count p rows)
count-snoc p row [] = ground arith
count-snoc p row (x ∷ rows) = let rest = count-snoc p row rows in ground (arith, rest)

pub update_row-Fewer :
    (actor_id id : ℕ) (f : SecurityRequest → SecurityRequest)
    → IsWrite f
    → SoundWrite f
    → ((r : SecurityRequest) → is_open_of actor_id (f r) ≡ true → is_open_of actor_id r ≡ true)
    → (d : Db) → Fewer actor_id d (update_row id f d)
unfolding update_row
update_row-Fewer actor_id id f w s h d sound = (
  update_row-Preserves id f w s d sound,
  count-update_le (is_open_of actor_id) (has_id id) f d.requests h,
)

pub update_row-OneMore :
    (actor_id id : ℕ) (f : SecurityRequest → SecurityRequest)
    → IsWrite f
    → SoundWrite f
    → (d : Db) → OneMore actor_id d (update_row id f d)
unfolding update_row
update_row-OneMore actor_id id f w s d sound = (
  update_row-Preserves id f w s d sound,
  count-update_one (is_open_of actor_id) id f d.requests sound.ids,
)

module _ (actor_id : ℕ) where
  must-Fewer : (id : ℕ) → Keeps (Fewer actor_id) (must id)
  unfolding must
  must-Fewer id = search (keeps_rules, Fewer-preorder)

  pub decide-Fewer :
      (id : ℕ) (status : RequestStatus) (by : Text) (at : ℕ) (remark : Option Text)
      (batch : Option ℕ)
      → HasBatch status batch
      → Keeps (Fewer actor_id) (decide id status by at remark batch)
  unfolding decide decided
  decide-Fewer id status by at remark batch b =
      let write =
        update_row-Fewer actor_id id _ (decided-IsWrite status by at remark batch)
          (decided-SoundWrite status by at remark batch b)
          (still_decided status by at remark batch) in
      search (must-Fewer, Fewer-preorder, keeps_rules, Keeps-modify, write)
    where
      still_decided :
          (status : RequestStatus) (by : Text) (at : ℕ) (remark : Option Text) (batch : Option ℕ)
          (r : SecurityRequest)
          → is_open_of actor_id (decided status by at remark batch r) ≡ true
          → is_open_of actor_id r ≡ true
      still_decided status by at remark batch r h = h

  pub close-Fewer :
      (id : ℕ) (outcome : Progress) (at : ℕ) → Keeps (Fewer actor_id) (close id outcome at)
  unfolding close closed
  close-Fewer id outcome at =
      let write =
        update_row-Fewer actor_id id _ (closed-IsWrite outcome at) (closed-SoundWrite outcome at)
          (still_closed outcome at) in
      search (must-Fewer, Fewer-preorder, keeps_rules, Keeps-modify, write) depth 9
    where
      still_closed :
          (outcome : Progress) (at : ℕ) (r : SecurityRequest)
          → is_open_of actor_id (closed outcome at r) ≡ true
          → is_open_of actor_id r ≡ true
      still_closed outcome at r h = ground (arith, h)
