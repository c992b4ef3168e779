-- ===== src/Intake/Endings.antt =====
-- What a view of a request does to the tables: it closes the row where the derived progress is final
-- (`_view` of app/app/application/securities/request_service.py).
use info_backend.Prelude.{
  ℕ, ◌≡◌, refl, ◌∙◌, subst, Bool, true, false, ◌||◌, not, inl, inr, Option, none, some, arith,
  Bool-cases, if◌then◌else◌, is_none, is_some,
}
use info_backend.Intake.Domain.{
  SecurityRequest, DatasetState, IngestionState, progress_after_approval, Progress, Result, ok, err,
  is_final, is_pending,
}
use info_backend.Intake.Unit.{Db, Session, Env, M, continue, pure, or_raise, ◌>>=◌}
use info_backend.Intake.Store.{closed, close, must, update_row}
use info_backend.Intake.Queries.{dataset_of, ingestion_state}
use info_backend.Intake.Views.{
  RequestView, view_approved, record_end, dataset_of_id, ingestion_of_id, view, unfinished,
}

-- To use that a bind succeeds: the first action does, and then the second.
pub >>=-elim :
    {A B : Type 0} (P : Type 0) (m : M A) (f : A → M B) (s : Session) {b : B} {u : Session}
    → ((a : A) (t : Session) → m s ≡ ok (a, t) → f a t ≡ ok (b, u) → P)
    → (m >>= f) s ≡ ok (b, u)
    → P
unfolding ◌>>=◌
>>=-elim {A} {B} P m f s {b} {u} k = go (m s) refl
  where
    go : (r : Result (A × Session)) → m s ≡ r → continue r f ≡ ok (b, u) → P
    go (ok (a, t)) p q = k a t p q
    go (err x) p q = cc

record_end-eq :
    (env : Env) (r : SecurityRequest) (p : Progress) (s t : Session) {a : Unit {0}}
    → record_end env r p s ≡ ok (a, t)
    → t.db
      ≡ (if is_final p then update_row r.request_id (closed p (env.clock s.tick)) s.db else s.db)
unfolding record_end close must update_row or_raise ◌>>=◌
record_end-eq env r p s t e = ground arith

dataset_of_id-eq :
    (o : Option ℕ) (s t : Session) {a : Option DatasetState} → dataset_of_id o s ≡ ok (a, t) → t ≡ s
unfolding dataset_of_id dataset_of ◌>>=◌
dataset_of_id-eq none s t e = ground arith
dataset_of_id-eq (some id) s t e = ground arith

ingestion_of_id-eq :
    (o : Option ℕ) (s t : Session) {a : Option IngestionState}
    → ingestion_of_id o s ≡ ok (a, t)
    → t ≡ s
unfolding ingestion_of_id ingestion_state ◌>>=◌
ingestion_of_id-eq none s t e = ground arith
ingestion_of_id-eq (some id) s t e = ground arith

-- The tables after the view of an open request that has no outcome yet.
abbrev pub After : Env → SecurityRequest → Session → RequestView → Db → Type 0
After env r s v d = d ≡ (
    if unfinished v
    then s.db
    else update_row r.request_id (closed v.progress (env.clock s.tick)) s.db)

answered :
    (env : Env) (r : SecurityRequest) (p : Progress) (d : Option DatasetState) (s s2 s3 t : Session)
    (v : RequestView)
    → s2 ≡ s
    → s3.db
      ≡ (if is_final p then update_row r.request_id (closed p (env.clock s2.tick)) s2.db else s2.db)
    → pure (record { request = r; progress = p; dataset = d }) s3 ≡ ok (v, t)
    → After env r s v t.db
unfolding ◌>>=◌
answered env r p d s s2 s3 t v same e f =
    let view_is : record { request = r; progress = p; dataset = d } ≡ v = cc in
    let end_is : s3 ≡ t = cc in
    subst (λ z. After env r s z t.db) view_is
      (subst (λ z. After env r s (record { request = r; progress = p; dataset = d }) z.db) end_is
        (turned _ _ _ (is_final p) (
          subst
            (λ z. s3.db ≡ (
              if is_final p
              then update_row r.request_id (closed p (env.clock z.tick)) z.db
              else z.db))
            same e)))
  where
    turned : (x y z : Db) (b : Bool) → x ≡ (if b then y else z) → x ≡ (if not b then z else y)
    turned x y z true h = h
    turned x y z false h = h

view_approved-eq :
    (env : Env) (r : SecurityRequest) (s t : Session) (v : RequestView)
    → view_approved env r s ≡ ok (v, t)
    → After env r s v t.db
unfolding view_approved
view_approved-eq env r s t v = >>=-elim _ (ingestion_of_id r.ingestion_id) _ s λ i s1 e1.
    >>=-elim _ (dataset_of_id r.ingestion_id) _ s1 λ d s2 e2.
      let same : s2 ≡ s =
        dataset_of_id-eq r.ingestion_id s1 s2 e2 ∙ ingestion_of_id-eq r.ingestion_id s s1 e1 in
      >>=-elim _ (record_end env r (progress_after_approval i d env.registration_enabled)) _ s2
        λ a s3 e3 f3.
          answered env r (progress_after_approval i d env.registration_enabled) _ s s2 s3 t v same
            (record_end-eq env r _ s2 s3 e3) f3

module _ {A : Type 0} where
  second :
      (b c : Bool) (x y z : M A) (s : Session) {q : Result (A × Session)}
      → b ≡ false
      → c ≡ true
      → (if b then x else (if c then y else z)) s ≡ q
      → y s ≡ q
  second true c x y z s f g h = cc
  second false true x y z s f g h = h
  second false false x y z s f g h = cc

  third :
      (b c : Bool) (x y z : M A) (s : Session) {q : Result (A × Session)}
      → b ≡ false
      → c ≡ false
      → (if b then x else (if c then y else z)) s ≡ q
      → z s ≡ q
  third true c x y z s f g h = cc
  third false true x y z s f g h = cc
  third false false x y z s f g h = h

pub view-eq :
    (env : Env) (r : SecurityRequest) (s t : Session) (v : RequestView)
    → r.is_open ≡ true
    → is_none r.outcome ≡ true
    → view env r s ≡ ok (v, t)
    → After env r s v t.db
unfolding view is_final
view-eq env r s t v o n e =
    let shut : (not r.is_open || is_some r.outcome) ≡ false =
      ground (arith, o, absent r.outcome n) in
    elim (Bool-cases (is_pending r.status)) [
      | inl p ↦
          answered env r Progress.pending none s s s t v refl refl (second _ _ _ _ _ s shut p e)
      | inr p ↦ view_approved-eq env r s t v (third _ _ _ _ _ s shut p e)
    ]
  where
    absent : (x : Option Progress) → is_none x ≡ true → is_some x ≡ false
    absent none h = refl
    absent (some x) h = cc
