-- ===== src/Intake/Keeps.antt =====
-- How the tables may change under an action: one rule for each way to build an action.
use info_backend.Prelude.{
  ◌≡◌, refl, sym, ◌∙◌, subst, ◌⊎◌, inl, inr, Bool, true, false, Option, none, some, List, [], ◌∷◌,
  if◌then◌else◌,
}
use info_backend.Intake.Domain.{Error, Result, ok, err, open_request_exists}
use info_backend.Intake.Unit.{
  Db, Session, Env, M, pure, raise, lift, gets, modify, read_clock, commit, continue, traverse,
  or_on_conflict, or_raise, finish, transact, ◌>>=◌,
}

pub record IsPreorder (R : Db → Db → Type 0) : Type 0 where
  pub same : (d : Db) → R d d
  pub chain : (d e f : Db) → R d e → R e f → R d f

-- From one session to a later one: `R` relates the tables, also to those committed in between.
abbrev pub Between : (Db → Db → Type 0) → Session → Session → Type 0
Between R s t = R s.db t.db × ((t.committed ≡ s.committed) ⊎ R s.db t.committed)

abbrev pub Ends : {A : Type 0} → (Db → Db → Type 0) → Session → Result (A × Session) → Type 0
Ends R s (ok (a, t)) = Between R s t
Ends R s (err e) = Unit

-- Where `m` succeeds, `R` relates the tables before and after.
pub record Keeps (R : Db → Db → Type 0) {A : Type 0} (m : M A) : Type 0 where
  pub at : (s : Session) → Ends R s (m s)

pub Keeps-ok :
    {R : Db → Db → Type 0} {A : Type 0} {m : M A} {s t : Session} {a : A}
    → Keeps R m
    → m s ≡ ok (a, t)
    → Between R s t
Keeps-ok {R} {s = s} k e = subst (Ends R s) e (k.at s)

module _ {R : Db → Db → Type 0} (pre : IsPreorder R) {A : Type 0} where
  pub Keeps-pure : (a : A) → Keeps R (pure a)
  unfolding ◌>>=◌
  Keeps-pure a = record { at = λ s. (pre.same s.db, inl refl) }

  pub Keeps-gets : (f : Db → A) → Keeps R (gets f)
  unfolding ◌>>=◌
  Keeps-gets f = record { at = λ s. (pre.same s.db, inl refl) }

  pub Keeps-lift : (r : Result A) → Keeps R (lift r)
  unfolding ◌>>=◌
  Keeps-lift (ok a) = record { at = λ s. (pre.same s.db, inl refl) }
  Keeps-lift (err e) = record { at = λ s. tt }

  pub Keeps-or_raise : (e : Error) (o : Option A) → Keeps R (or_raise e o)
  unfolding or_raise
  Keeps-or_raise e none = record { at = λ s. tt }
  Keeps-or_raise e (some a) = record { at = λ s. (pre.same s.db, inl refl) }

module _ {R : Db → Db → Type 0} {A : Type 0} where
  pub Keeps-raise : (e : Error) → Keeps R (raise {A = A} e)
  unfolding ◌>>=◌
  Keeps-raise e = record { at = λ s. tt }

  pub Keeps-if : (b : Bool) (m n : M A) → Keeps R m → Keeps R n → Keeps R (if b then m else n)
  Keeps-if true m n km kn = km
  Keeps-if false m n km kn = kn

  Ends-conflict :
      (m h : M A) (s : Session) (r : Result (A × Session))
      → Keeps R m
      → Ends R s r
      → Ends R s (h s)
      → Ends R s (elim r [ ok x ↦ ok x | err open_request_exists ↦ h s | err e ↦ err e ])
  Ends-conflict m h s (ok (a, t)) k p q = p
  Ends-conflict m h s (err open_request_exists) k p q = q
  Ends-conflict m h s (err _) k p q = tt

  pub Keeps-or_on_conflict : (m h : M A) → Keeps R m → Keeps R h → Keeps R (or_on_conflict m h)
  unfolding or_on_conflict
  Keeps-or_on_conflict m h km kh = record {
    at = λ s. Ends-conflict m h s (m s) km (km.at s) (kh.at s);
  }

module _ {R : Db → Db → Type 0} (pre : IsPreorder R) where
  pub Keeps-commit : Keeps R commit
  unfolding ◌>>=◌
  Keeps-commit = record { at = λ s. (pre.same s.db, inr (pre.same s.db)) }

  pub Keeps-read_clock : (env : Env) → Keeps R (read_clock env)
  unfolding ◌>>=◌
  Keeps-read_clock env = record { at = λ s. (pre.same s.db, inl refl) }

pub Keeps-modify :
    {R : Db → Db → Type 0} (f : Db → Db) → ((d : Db) → R d (f d)) → Keeps R (modify f)
unfolding ◌>>=◌
Keeps-modify f h = record { at = λ s. (h s.db, inl refl) }

module _ {R : Db → Db → Type 0} (pre : IsPreorder R) where
  Between-chain : (s t u : Session) → Between R s t → Between R t u → Between R s u
  Between-chain s t u (p, c) (q, inr e) =
      (pre.chain s.db t.db u.db p q, inr (pre.chain s.db t.db u.committed p e))
  Between-chain s t u (p, inl c) (q, inl e) = (pre.chain s.db t.db u.db p q, inl (e ∙ c))
  Between-chain s t u (p, inr c) (q, inl e) =
      (pre.chain s.db t.db u.db p q, inr (subst (R s.db) (sym e) c))

module _ {R : Db → Db → Type 0} (pre : IsPreorder R) {B : Type 0} where
  Ends-chain : (s t : Session) (r : Result (B × Session)) → Between R s t → Ends R t r → Ends R s r
  Ends-chain s t (ok (b, u)) p q = Between-chain pre s t u p q
  Ends-chain s t (err e) p q = tt

module _ {R : Db → Db → Type 0} (pre : IsPreorder R) {A B : Type 0} where
  Ends-continue :
      (s : Session) (r : Result (A × Session)) (f : A → M B)
      → Ends R s r
      → ((a : A) → Keeps R (f a))
      → Ends R s (continue r f)
  Ends-continue s (ok (a, t)) f p k = Ends-chain pre s t (f a t) p ((k a).at t)
  Ends-continue s (err e) f p k = tt

  pub Keeps-bind :
      (m : M A) (f : A → M B) → Keeps R m → ((a : A) → Keeps R (f a)) → Keeps R (m >>= f)
  unfolding ◌>>=◌
  Keeps-bind m f km kf = record { at = λ s. Ends-continue s (m s) f (km.at s) kf }

module _ {R : Db → Db → Type 0} (pre : IsPreorder R) {A B : Type 0} where
  pub Keeps-traverse :
      (f : A → M B) (l : List A) → ((a : A) → Keeps R (f a)) → Keeps R (traverse f l)
  unfolding traverse
  Keeps-traverse f [] k = record { at = λ s. (pre.same s.db, inl refl) }
  Keeps-traverse f (x ∷ xs) k = Keeps-bind pre (f x) _ (k x) (λ y.
      Keeps-bind pre (traverse f xs) _ (Keeps-traverse f xs k)
        (λ ys. record { at = λ s. (pre.same s.db, inl refl) }))

-- What others see after one call of the service, failed or not.
pub Keeps-transact :
    {R : Db → Db → Type 0} {A : Type 0} (pre : IsPreorder R) (m : M A)
    → Keeps R m
    → (d : Db) → R d (transact m d).1
unfolding transact
Keeps-transact {R} {A} pre m k d = go (m start) (k.at start)
  where
    start : Session
    start = record { db = d; committed = d; tick = 0 }

    go : (r : Result (A × Session)) → Ends R start r → R d (finish d r).1
    go (ok (a, t)) (p, inl e) = subst (R d) (sym e) (pre.same d)
    go (ok (a, t)) (p, inr q) = q
    go (err e) p = pre.same d

pub ruleset keeps_rules = (
  Keeps-pure, Keeps-gets, Keeps-lift, Keeps-or_raise, Keeps-raise, Keeps-if, Keeps-or_on_conflict,
  Keeps-commit, Keeps-read_clock, Keeps-bind,
)
