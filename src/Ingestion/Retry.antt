-- ===== src/Ingestion/Retry.antt =====
-- The attempts of a request: `_fetch_with_retry` of app/app/application/securities/ingestion_service.py.
use info_backend.Prelude.{
  ℕ, zero, suc, ◌+◌, ◌≤◌, subst, ◌<◌, ◌≡◌, ◌≢◌, refl, true, false, arith, Bool-cases, inl, inr, ◌⊎◌,
  ◌==◌,
}
use info_backend.Ingestion.Domain.{FetchRequest, RawResponse, Outcome}
use info_backend.Ingestion.Context.{
  Env, Run, fetch_from, fetch_with_retry, is_transient, settle, max_attempts, called, backed_off,
}

-- The attempt `n`, which is the call `c`, is taken: the answers before it are transient, and it is not, or
-- the attempts are used up.
unfoldable pub IsSettled : Env → FetchRequest → ℕ → Run → Outcome (RawResponse × ℕ) × Run → Type 0
IsSettled env request attempt s (result, t) =
    (n : ℕ) × ((c : ℕ) × (attempt ≤ n)
      × (n ≤ max_attempts)
      × (c + attempt ≡ s.world.calls + n)
      × ((j : ℕ) → s.world.calls ≤ j → j < c → is_transient (env.fetcher j request) ≡ true)
      × ((n ≡ max_attempts) ⊎ (is_transient (env.fetcher c request) ≡ false))
      × (result ≡ settle n (env.fetcher c request))
      × (t.world.calls ≡ suc c)
      × (t.items ≡ s.items))

beyond : (attempt : ℕ) → attempt ≤ max_attempts → attempt + 0 ≢ suc max_attempts
beyond attempt few = omega (arith, few)

nothing_between : (c j : ℕ) → c ≤ j → ¬ (j < c)
nothing_between c j h = omega (arith, h)

-- the first answer is taken
taken :
    (env : Env) (request : FetchRequest) (attempt : ℕ) (s : Run)
    → attempt ≤ max_attempts
    → (attempt ≡ max_attempts) ⊎ (is_transient (env.fetcher s.world.calls request) ≡ false)
    → IsSettled env request attempt s (settle attempt (env.fetcher s.world.calls request), called s)
unfolding IsSettled
taken env request attempt s few why = (
  attempt,
  (
    s.world.calls,
    omega arith,
    few,
    refl,
    λ j low high. elim (nothing_between s.world.calls j low high) [ ],
    why,
    refl,
    refl,
    refl,
  ),
)

-- one more answer before
shifted :
    (env : Env) (request : FetchRequest) (attempt : ℕ) (s : Run)
    (result : Outcome (RawResponse × ℕ)) (t : Run)
    → is_transient (env.fetcher s.world.calls request) ≡ true
    → IsSettled env request (suc attempt) (backed_off attempt (called s)) (result, t)
    → IsSettled env request attempt s (result, t)
unfolding IsSettled
shifted env request attempt s result t transient
      (n, (c, first, last, number, before, why, same, calls, items)) =
    (
      n,
      (
        c,
        omega (arith, first),
        last,
        omega (arith, number),
        λ j low high. elim (Bool-cases (j == s.world.calls)) [
          | inl e ↦
              let here : s.world.calls ≡ j = ground (arith, e) in
              subst (λ z. is_transient (env.fetcher z request) ≡ true) here transient
          | inr e ↦ before j (ground (arith, e, low)) high
        ],
        why,
        same,
        calls,
        items,
      ),
    )

fetch_from-IsSettled :
    (env : Env) (request : FetchRequest) (rounds attempt : ℕ) (s : Run)
    → attempt ≤ max_attempts
    → attempt + rounds ≡ suc max_attempts
    → IsSettled env request attempt s (fetch_from env request rounds attempt s)
unfolding fetch_from
fetch_from-IsSettled env request zero attempt s few total = elim (beyond attempt few total) [ ]
fetch_from-IsSettled env request (suc rounds) attempt s few total =
    let later = fetch_from env request rounds (suc attempt) (backed_off attempt (called s)) in
    elim (Bool-cases (attempt == max_attempts)) [
      | inl last ↦ rw last (taken env request attempt s few (inl (ground (arith, last))))
      | inr more ↦
          let rest =
            fetch_from-IsSettled env request rounds (suc attempt) (backed_off attempt (called s))
              (ground (arith, few, more)) (omega (arith, total)) in
          elim (Bool-cases (is_transient (env.fetcher s.world.calls request))) [
            | inl transient ↦
                rw more
                  (rw transient (shifted env request attempt s later.0 later.1 transient rest))
            | inr fine ↦ rw more (rw fine (taken env request attempt s few (inr fine)))
          ]
    ]

-- A request is tried at most three times: the attempt that is taken is the first one whose answer is not
-- transient, or else the third; the answers to the calls before it were transient, what it answers is
-- the result, and no call is made after it. So the loop never reaches its end.
pub fetch_with_retry-IsSettled :
    (env : Env) (request : FetchRequest) (s : Run)
    → IsSettled env request 1 s (fetch_with_retry env request s)
unfolding fetch_with_retry
fetch_with_retry-IsSettled env request s =
    fetch_from-IsSettled env request max_attempts 1 s (omega arith) refl
