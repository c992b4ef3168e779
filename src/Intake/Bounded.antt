-- ===== src/Intake/Bounded.antt =====
-- `submit` (app/app/application/securities/request_service.py) keeps a person's open requests within the limit.
use info_backend.Prelude.{
  ℕ, ◌≤◌, ◌<◌, ◌≡◌, refl, subst, ◌⊎◌, inl, inr, false, Option, none, some, arith, Bool-cases,
  if◌then◌else◌, Text, leb,
}
use info_backend.SecurityCode.{SecurityCode}
use info_backend.Intake.Domain.{
  SecurityRequest, Result, ok, err, clean_reason, too_many_open_requests,
}
use info_backend.Intake.Unit.{Db, Session, Env, pure, raise, commit, lift, read_clock, ◌>>=◌}
use info_backend.Intake.Keeps.{
  Keeps, Keeps-ok, Keeps-or_raise, Keeps-lift, Keeps-read_clock, keeps_rules,
}
use info_backend.Intake.Store.{NewRequester}
use info_backend.Intake.Steps.{code_of}
use info_backend.Intake.Views.{RequestView, view, my_open_count}
use info_backend.Intake.Submit.{
  open_for, ensure_room, create_or_join, submit_new, answer, is_mine, submit_checked, submit,
}
use info_backend.Intake.Integrity.{IsSound}
use info_backend.Intake.Soundness.{HasFreshIds}
use info_backend.Intake.Reading.{
  open_for-Keeps, view-Keeps, after_decision-Keeps, my_open_count-Keeps,
}
use info_backend.Intake.Counting.{open_count}
use info_backend.Intake.Endings.{>>=-elim}
use info_backend.Intake.Room.{my_open_count-bounds, pure-eq}
use info_backend.Intake.Limit.{Fewer, Fewer-preorder, close-Fewer}
use info_backend.Intake.Additions.{Keeps-after, create_or_join-OneMore}

module _ (env : Env) (actor_id : ℕ) (fresh : HasFreshIds env)
    (others : (d : Db) → Fewer actor_id d (env.others d)) where
  -- What is left when there was room.
  ensure_room-room :
      (s t : Session) {a : Unit {0}}
      → IsSound s.db
      → ensure_room env actor_id s ≡ ok (a, t)
      → IsSound t.db × (open_count actor_id t.db < env.max_open)
  unfolding ensure_room ◌>>=◌
  ensure_room-room s t {a = a} sound e =
      >>=-elim _ (my_open_count env actor_id) _ s
        (λ n s1 e1 e2.
          let kept =
            (Keeps-ok
                (my_open_count-Keeps env (Fewer-preorder actor_id) (close-Fewer actor_id) actor_id)
                e1).0
              sound in
          let bound = my_open_count-bounds env actor_id n s s1 sound e1 in
          roomy n s1 kept.0 bound e2)
        e
    where
      never :
          {P : Type 0}
          → ◌≡◌ {A = Result (Unit {0} × Session)} (err too_many_open_requests) (ok (a, t))
          → P
      never q = cc

      below : (n m : ℕ) → leb env.max_open n ≡ false → m ≤ n → m < env.max_open
      below n m b h = ground arith

      roomy :
          (n : ℕ) (s1 : Session)
          → IsSound s1.db
          → open_count actor_id s1.db ≤ n
          → (if leb env.max_open n then raise too_many_open_requests else pure tt) s1 ≡ ok (a, t)
          → IsSound t.db × (open_count actor_id t.db < env.max_open)
      roomy n s1 sound bound q = elim (Bool-cases (leb env.max_open n)) [
        | inl b ↦ never (rw b at q)
        | inr b ↦
            let (r, end) = pure-eq tt a s1 t (rw b at q) in
            subst (λ z. IsSound z.db × (open_count actor_id z.db < env.max_open)) end
              (sound, below n _ b bound)
      ]

  submit_new-bounded :
      (code : SecurityCode) (new : NewRequester) (o : Option SecurityRequest) (s t : Session)
      (v : RequestView)
      → new.actor_id ≡ actor_id
      → IsSound s.db
      → submit_new env code new o s ≡ ok (v, t)
      → open_count actor_id t.db ≤ env.max_open
  unfolding submit_new
  submit_new-bounded code new o s t v same sound e =
      >>=-elim _ (ensure_room env new.actor_id) _ s
        (λ a s1 e1 e2.
          let (sound1, room) = ensure_room-room s s1 sound (rw same at e1) in
          let rest =
            Keeps-after actor_id (create_or_join env code new o) _
              (create_or_join-OneMore env actor_id fresh others code new o)
              λ r.
                after_decision-Keeps env (Fewer-preorder actor_id) (close-Fewer actor_id)
                  r.request_id in
          let (sound2, more) = (Keeps-ok rest e2).0 sound1 in omega (arith, room, more))
        e

  answer-bounded :
      (code : SecurityCode) (new : NewRequester) (o : Option SecurityRequest) (s t : Session)
      (v : RequestView)
      → new.actor_id ≡ actor_id
      → IsSound s.db
      → answer env code new o s ≡ ok (v, t)
      → (open_count actor_id t.db ≤ env.max_open)
        ⊎ (open_count actor_id t.db ≤ open_count actor_id s.db)
  unfolding answer
  answer-bounded code new none s t v same sound e =
      inl (submit_new-bounded code new none s t v same sound e)
  answer-bounded code new (some r) s t v same sound e =
      elim (Bool-cases (is_mine new.actor_id (some r))) [
        | inl b ↦ inr ((Keeps-ok seen (rw b at e)).0 sound).1
        | inr b ↦ inl (submit_new-bounded code new (some r) s t v same sound (rw b at e))
      ]
    where
      seen : Keeps (Fewer actor_id) (view env r >>= λ w. commit >>= λ x. pure w)
      seen =
          search
            (
              keeps_rules,
              Fewer-preorder,
              view-Keeps env (Fewer-preorder actor_id) (close-Fewer actor_id),
            )
            depth 9

code_of-Fewer : (env : Env) (actor_id : ℕ) (raw : Text) → Keeps (Fewer actor_id) (code_of env raw)
unfolding code_of
code_of-Fewer env actor_id raw = Keeps-or_raise (Fewer-preorder actor_id) _ _

-- A submission that succeeds leaves the person with at most `max_open` open requests, or with no more than
-- before, provided that the tables keep their constraints, new ids are fresh, and what the other transactions commit
-- in between keeps the constraints and adds no open request of this person, whose submissions are queued by a lock.
pub submit-bounded :
    (env : Env) (raw : Text) (actor_id : ℕ) (reason app ref : Option Text) (s t : Session)
    (v : RequestView)
    → HasFreshIds env
    → ((d : Db) → Fewer actor_id d (env.others d))
    → IsSound s.db
    → submit env raw actor_id reason app ref s ≡ ok (v, t)
    → (open_count actor_id t.db ≤ env.max_open)
      ⊎ (open_count actor_id t.db ≤ open_count actor_id s.db)
unfolding submit submit_checked
submit-bounded env raw actor_id reason app ref s t v fresh others sound e =
    >>=-elim _ (code_of env raw) _ s
      (λ code s1 e1. >>=-elim _ (lift (clean_reason env.space reason)) _ s1 λ cleaned s2 e2.
        >>=-elim _ (read_clock env) _ s2 λ now s3 e3.
          >>=-elim _ (open_for env code) _ s3 λ current s4 e4 e5.
            let early = (Keeps-ok (code_of-Fewer env actor_id raw) e1).0 sound in
            let then_lift = (Keeps-ok (Keeps-lift (Fewer-preorder actor_id) _) e2).0 early.0 in
            let then_clock =
              (Keeps-ok (Keeps-read_clock (Fewer-preorder actor_id) env) e3).0 then_lift.0 in
            let found =
              (Keeps-ok (open_for-Keeps env (Fewer-preorder actor_id) (close-Fewer actor_id) code)
                  e4).0
                then_clock.0 in
            combine early.1 then_lift.1 then_clock.1 found.1
              (answer-bounded env actor_id fresh others code _ current s4 t v refl found.0 e5))
      e
  where
    combine :
        {a b c d k m z : ℕ} → b ≤ a → c ≤ b → d ≤ c → k ≤ d → (z ≤ m) ⊎ (z ≤ k) → (z ≤ m) ⊎ (z ≤ a)
    combine p q r w (inl h) = inl h
    combine p q r w (inr h) = inr (omega (arith, p, q, r, w, h))
