-- ===== src/Intake/Additions.antt =====
-- Which steps of `submit` (app/app/application/securities/request_service.py) add an open request of a person, and
-- that none adds two.
use info_backend.Prelude.{
  ℕ, ◌≡◌, refl, sym, ◌∙◌, subst, inl, inr, Option, none, some, arith, any, Bool-cases, Text,
}
use info_backend.SecurityCode.{SecurityCode}
use info_backend.Intake.Domain.{SecurityRequest, RequestKind, Result, ok, err}
use info_backend.Intake.Unit.{Db, Session, Env, M, continue, ◌>>=◌}
use info_backend.Intake.Keeps.{
  Between, Ends, Keeps, Keeps-pure, Keeps-gets, Keeps-or_raise, Keeps-modify, Keeps-or_on_conflict,
  keeps_rules,
}
use info_backend.Intake.Store.{
  NewRequester, is_open_for, create, joined, join, with_requester, new_row,
}
use info_backend.Intake.Queries.{is_open_of, start_ingestion}
use info_backend.Intake.Steps.{stored_code, approve_request}
use info_backend.Intake.Submit.{create_request, join_conflicting, create_or_join}
use info_backend.Intake.History.{joined-IsWrite}
use info_backend.Intake.Integrity.{joined-SoundWrite, Preserves}
use info_backend.Intake.Soundness.{HasFreshIds, create-Preserves, same-Preserves}
use info_backend.Intake.Reading.{latest_published-Keeps, contains-Keeps, open_for-Keeps}
use info_backend.Intake.Limit.{
  Fewer, OneMore, Fewer-preorder, update_row-OneMore, count-snoc, decide-Fewer, close-Fewer,
}

-- A write that leaves the requests as they are.
same-Fewer :
    (actor_id : ℕ) (f : Db → Db)
    → ((d : Db) → (f d).requests ≡ d.requests)
    → (d : Db) → Fewer actor_id d (f d)
same-Fewer actor_id f e d h = (same-Preserves f e d h, rw (e d) (omega arith))

-- One action after another, where each changes the tables in its own way.
module _ {P Q R : Db → Db → Type 0} (both : (d e f : Db) → P d e → Q e f → R d f)
    (first : (d e : Db) → P d e → R d e) {B : Type 0} where
  Ends-then : (s t : Session) (r : Result (B × Session)) → Between P s t → Ends Q t r → Ends R s r
  Ends-then s t (err e) p q = tt
  Ends-then s t (ok (b, u)) (p, c) (q, inr d) =
      (both s.db t.db u.db p q, inr (both s.db t.db u.committed p d))
  Ends-then s t (ok (b, u)) (p, inl c) (q, inl d) = (both s.db t.db u.db p q, inl (d ∙ c))
  Ends-then s t (ok (b, u)) (p, inr c) (q, inl d) =
      (both s.db t.db u.db p q, inr (subst (R s.db) (sym d) (first s.db t.committed c)))

module _ {P Q R : Db → Db → Type 0} (both : (d e f : Db) → P d e → Q e f → R d f)
    (first : (d e : Db) → P d e → R d e) {A B : Type 0} where
  Ends-bind :
      (s : Session) (r : Result (A × Session)) (f : A → M B)
      → Ends P s r
      → ((a : A) → Keeps Q (f a))
      → Ends R s (continue r f)
  Ends-bind s (ok (a, t)) f p k = Ends-then both first s t (f a t) p ((k a).at t)
  Ends-bind s (err e) f p k = tt

  Keeps-then : (m : M A) (f : A → M B) → Keeps P m → ((a : A) → Keeps Q (f a)) → Keeps R (m >>= f)
  unfolding ◌>>=◌
  Keeps-then m f km kf = record { at = λ s. Ends-bind s (m s) f (km.at s) kf }

module _ (actor_id : ℕ) {A B : Type 0} where
  Keeps-before :
      (m : M A) (f : A → M B)
      → Keeps (Fewer actor_id) m
      → ((a : A) → Keeps (OneMore actor_id) (f a))
      → Keeps (OneMore actor_id) (m >>= f)
  Keeps-before =
      Keeps-then
        (λ d e f p q h. (let (he, pe) = p h in let (hf, qf) = q he in (hf, omega (arith, pe, qf))))
        (λ d e p h. (let (he, pe) = p h in (he, omega (arith, pe))))

  pub Keeps-after :
      (m : M A) (f : A → M B)
      → Keeps (OneMore actor_id) m
      → ((a : A) → Keeps (Fewer actor_id) (f a))
      → Keeps (OneMore actor_id) (m >>= f)
  Keeps-after =
      Keeps-then
        (λ d e f p q h. (let (he, pe) = p h in let (hf, qf) = q he in (hf, omega (arith, pe, qf))))
        (λ d e p h. p h)

module _ (env : Env) (actor_id : ℕ) (fresh : HasFreshIds env)
    (others : (d : Db) → Fewer actor_id d (env.others d)) where
  create-OneMore :
      (code : SecurityCode) (kind : RequestKind) (new : NewRequester)
      → Keeps (OneMore actor_id) (create env code kind new)
  unfolding create ◌>>=◌
  create-OneMore code kind new = record {
    at = λ s. go s ((create-Preserves env fresh code kind new).at s);
  }
    where
      row : Db → SecurityRequest
      row d = with_requester new (new_row env code kind d)

      go :
          (s : Session)
          → Ends Preserves s (create env code kind new s)
          → Ends (OneMore actor_id) s (create env code kind new s)
      go s = elim (Bool-cases (any (is_open_for code.code) s.db.requests)) [
        | inl e ↦ rw e (λ p. tt)
        | inr e ↦ rw e (λ p.
            ((λ h. (p.0 h, count-snoc (is_open_of actor_id) (row s.db) s.db.requests)), inl refl))
      ]

  join-OneMore : (id : ℕ) (new : NewRequester) → Keeps (OneMore actor_id) (join id new)
  unfolding join
  join-OneMore id new = Keeps-before actor_id _ _ (Keeps-gets (Fewer-preorder actor_id) _) λ row.
      Keeps-before actor_id _ _ (Keeps-or_raise (Fewer-preorder actor_id) _ row) λ r.
        Keeps-modify _
          (update_row-OneMore actor_id id (joined new) (joined-IsWrite new) (joined-SoundWrite new))

  start_ingestion-Fewer : (code : SecurityCode) → Keeps (Fewer actor_id) (start_ingestion env code)
  unfolding start_ingestion
  start_ingestion-Fewer code =
      search (keeps_rules, Fewer-preorder, Keeps-modify, same-Fewer actor_id) depth 9

  approve_request-Fewer :
      (r : SecurityRequest) (by : Text) → Keeps (Fewer actor_id) (approve_request env r by)
  unfolding approve_request stored_code
  approve_request-Fewer r by =
      search
        (keeps_rules, Fewer-preorder actor_id, start_ingestion-Fewer, decide-Fewer actor_id, tt)
        depth 9

  create_request-OneMore :
      (code : SecurityCode) (new : NewRequester)
      → Keeps (OneMore actor_id) (create_request env code new)
  unfolding create_request
  create_request-OneMore code new =
      Keeps-before actor_id _ _
        (latest_published-Keeps env (Fewer-preorder actor_id) (close-Fewer actor_id) code)
        λ existing. Keeps-after actor_id _ _ (create-OneMore code _ new) λ created.
          search
            (
              keeps_rules,
              Fewer-preorder actor_id,
              contains-Keeps env (Fewer-preorder actor_id) (close-Fewer actor_id),
              approve_request-Fewer,
            )
            depth 9

  join_conflicting-OneMore :
      (code : SecurityCode) (new : NewRequester)
      → Keeps (OneMore actor_id) (join_conflicting env code new)
  unfolding join_conflicting
  join_conflicting-OneMore code new =
      Keeps-before actor_id _ _
        (open_for-Keeps env (Fewer-preorder actor_id) (close-Fewer actor_id) code)
        λ found.
          Keeps-before actor_id _ _ (Keeps-or_raise (Fewer-preorder actor_id) _ found) λ current.
            Keeps-after actor_id _ _ (join-OneMore current.request_id new)
              λ r. Keeps-pure (Fewer-preorder actor_id) current

  pub create_or_join-OneMore :
      (code : SecurityCode) (new : NewRequester) (o : Option SecurityRequest)
      → Keeps (OneMore actor_id) (create_or_join env code new o)
  unfolding create_or_join
  create_or_join-OneMore code new none =
      Keeps-before actor_id _ _ (Keeps-modify env.others others) λ r.
        Keeps-or_on_conflict _ _ (create_request-OneMore code new)
          (join_conflicting-OneMore code new)
  create_or_join-OneMore code new (some current) =
      Keeps-after actor_id _ _ (join-OneMore current.request_id new)
        λ r. Keeps-pure (Fewer-preorder actor_id) current
