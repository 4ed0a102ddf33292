-- ===== src/Httpx/Retry.antt =====
-- The retry loop of `Agent.do` and `Agent.do_stream` of src/core_py/httpx.py. One attempt is a step
-- on a state `S`; whether its error can be retried, the clock, the sleep and the random number of a
-- delay are arguments. Durations are in clock ticks, and the random number in thousandths.
use core_py.Base.{
  ℕ, zero, suc, Bool, true, false, Option, none, some, not, ◌&&◌, ◌||◌, List, [], ◌∷◌,
  if◌then◌else◌, leb, ◌==◌, length, Result, ok, err, All, arith, ◌≡◌, refl, ◌+◌, ◌-◌, ◌*◌, ◌/◌, ◌^◌,
  ◌≤◌, ◌<◌, ◌⊎◌, inl, inr, Bool-cases, min, subst,
}
use core_py.Base.Int.{ℤ, pos, negsuc}
use core_py.Base.Text.{Str, codes, str_eq}

pub record RetryOpt : Type 0 where
  pub max_delay : ℕ
  pub base_delay : ℕ
  pub attempts : ℤ
  pub idempotent : Bool

abbrev pub default_attempts : ℕ
default_attempts = 3

-- `self.retry_opt.attempts`, or the default where it is not positive
unfoldable pub retry_attempts : RetryOpt → ℕ
retry_attempts opt = elim opt.attempts [
  | pos zero ↦ default_attempts
  | pos (suc n) ↦ suc n
  | negsuc n ↦ default_attempts
]

unfoldable pub can_retry_method : RetryOpt → Str → Bool
unfolding str_eq
can_retry_method opt method =
    opt.idempotent
    || str_eq method (codes "GET")
    || str_eq method (codes "HEAD")
    || str_eq method (codes "OPTIONS")

abbrev or_default : ℕ → ℕ → ℕ
or_default n default = if n == 0 then default else n

unfoldable pub retry_delay : RetryOpt → ℕ → ℕ → ℕ
retry_delay opt attempt random =
    let delay =
      min (or_default opt.max_delay 1000) (or_default opt.base_delay 100 * 2 ^ (attempt - 1)) in
    delay / 2 + random * delay / 2000

-- A sleep between two attempts: when it was decided, and for how long.
pub record Sleep : Type 0 where
  pub at : ℕ
  pub delay : ℕ

-- What a call comes to: its result, the state, the attempts that were made and the sleeps.
pub record Called {ℓ κ μ} (S : Type ℓ) (E : Type κ) (A : Type μ) : Type (ℓ ⊔ (κ ⊔ μ)) where
  pub result : Result E A
  pub state : S
  pub calls : ℕ
  pub sleeps : List Sleep

-- `self._deadline and time.time() + delay >= self._deadline`; no deadline is 0.
unfoldable pub is_late : ℕ → ℕ → ℕ → Bool
is_late deadline now delay = not (deadline == 0) && leb deadline (now + delay)

module _ {ℓ κ μ} {S : Type ℓ} {E : Type κ} {A : Type μ} (do_http : S → Result E A × S)
    (is_retryable : E → Bool) (clock random : S → ℕ) (sleep : ℕ → S → S) (opt : RetryOpt)
    (deadline : ℕ) where
  abbrev once : Result E A → S → Called S E A
  once r s = record { result = r; state = s; calls = 1; sleeps = [] }

  abbrev again : Sleep → Called S E A → Called S E A
  again sleep c = record {
    result = c.result;
    state = c.state;
    calls = c.calls + 1;
    sleeps = sleep ∷ c.sleeps;
  }

  abbrev pub after_attempt : ℕ → Result E A → S → Called S E A → Called S E A
  after_attempt attempt (ok x) s rest = once (ok x) s
  after_attempt attempt (err e) s rest =
      let delay = retry_delay opt attempt (random s) in
      if not (is_retryable e)
      then once (err e) s
      else if is_late deadline (clock s) delay
      then once (err e) s
      else again (record { at = clock s; delay = delay }) rest

  -- `left` attempts come after this one, whose number is `attempt`.
  unfoldable pub attempt_from : ℕ → ℕ → S → Called S E A
  unfolding retry_delay is_late
  attempt_from zero attempt s = let (r, after) = do_http s in once r after
  attempt_from (suc left) attempt s =
      let (r, after) = do_http s in
      after_attempt attempt r after
        (attempt_from left (suc attempt) (sleep (retry_delay opt attempt (random after)) after))

  abbrev pub attempts_of : Str → ℕ
  attempts_of method = if can_retry_method opt method then retry_attempts opt else 1

  unfoldable pub retried : Str → S → Called S E A
  unfolding attempt_from
  retried method s = attempt_from (attempts_of method - 1) 1 s

  -- A sleep that ends before the deadline, where there is one.
  abbrev pub InTime : Sleep → Type 0
  InTime t = (deadline ≡ 0) ⊎ (t.at + t.delay < deadline)

  -- Why a call that makes at most `n` attempts after the `first` ones has raised: its error cannot
  -- be retried, it was the last attempt, or the delay after it would have run into the deadline.
  abbrev pub Reason : ℕ → ℕ → Called S E A → E → Type 0
  Reason first n c e =
      (is_retryable e ≡ false)
      ⊎ ((c.calls ≡ n)
          ⊎ (¬ (deadline ≡ 0)
              × (deadline ≤ clock c.state + retry_delay opt (first + c.calls) (random c.state))))

  -- What each call comes to: the bounds on its attempts and sleeps, and a reason where it raises.
  abbrev pub Settled : ℕ → ℕ → Called S E A → Type (κ ⊔ μ)
  Settled first n c =
      (1 ≤ c.calls)
      × (c.calls ≤ n)
      × (length c.sleeps + 1 ≡ c.calls)
      × All InTime c.sleeps
      × (((x : A) × (c.result ≡ ok x)) ⊎ ((e : E) × (c.result ≡ err e) × Reason first n c e))

  once-Settled :
      (first n : ℕ) (s : S) (r : Result E A)
      → 1 ≤ n
      → ((e : E) → r ≡ err e → Reason first n (once r s) e)
      → Settled first n (once r s)
  once-Settled first n s (ok x) h k = (omega arith, h, omega arith, tt, inl (x, refl))
  once-Settled first n s (err e) h k = (omega arith, h, omega arith, tt, inr (e, refl, k e refl))

  again-Settled :
      (first n : ℕ) (t : Sleep) (c : Called S E A)
      → InTime t
      → Settled (suc first) n c
      → Settled first (n + 1) (again t c)
  again-Settled first n t c h (a, b, l, ts, inl r) =
      (omega arith, omega arith, omega arith, (h, ts), inl r)
  again-Settled first n t c h (a, b, l, ts, inr (e, r, inl k)) =
      (omega arith, omega arith, omega arith, (h, ts), inr (e, r, inl k))
  again-Settled first n t c h (a, b, l, ts, inr (e, r, inr (inl k))) =
      (omega arith, omega arith, omega arith, (h, ts), inr (e, r, inr (inl (omega arith))))
  again-Settled first n t c h (a, b, l, ts, inr (e, r, inr (inr (some_end, late)))) =
      let same : suc first + c.calls ≡ first + (c.calls + 1) = omega arith in
      (
        omega arith,
        omega arith,
        omega arith,
        (h, ts),
        inr (
          e,
          r,
          inr (
              inr (
                some_end,
                subst (λ k. deadline ≤ clock c.state + retry_delay opt k (random c.state)) same
                    late,
              )),
        ),
      )

  timely :
      (now delay : ℕ)
      → is_late deadline now delay ≡ false
      → InTime (record { at = now; delay = delay })
  unfolding is_late
  timely now delay h = elim (Bool-cases (deadline == 0)) [
    | inl e ↦ inl (ground arith)
    | inr e ↦ inr (ground arith)
  ]

  too_late :
      (now delay : ℕ)
      → is_late deadline now delay ≡ true
      → ¬ (deadline ≡ 0) × (deadline ≤ now + delay)
  unfolding is_late
  too_late now delay h = elim (Bool-cases (deadline == 0)) [
    | inl e ↦ absurd (ground arith)
    | inr e ↦ (λ z. ground arith, ground arith)
  ]

  after_attempt-Settled :
      (first n : ℕ) (r : Result E A) (s : S) (rest : Called S E A)
      → 1 ≤ n
      → Settled (suc first) n rest
      → Settled first (n + 1) (after_attempt (suc first) r s rest)
  after_attempt-Settled first n (ok x) s rest h k =
      once-Settled first (n + 1) s (ok x) (omega arith) (λ e f. absurd cc)
  after_attempt-Settled first n (err e) s rest h k = elim (Bool-cases (is_retryable e)) [
    | inr f ↦ rw f (
        once-Settled first (n + 1) s (err e) (omega arith)
          (λ x g. inl (let same : e ≡ x = cc in subst (λ e. is_retryable e ≡ false) same f)))
    | inl f ↦
        let delay = retry_delay opt (suc first) (random s) in
        elim (Bool-cases (is_late deadline (clock s) delay)) [
          | inl late ↦
              let same : suc first ≡ first + 1 = omega arith in
              rw (f, late)
                (once-Settled first (n + 1) s (err e) (omega arith) (λ x g. inr (
                  inr (
                    subst
                      (λ k. ¬ (deadline ≡ 0) × (deadline ≤ clock s + retry_delay opt k (random s)))
                      same (too_late (clock s) delay late)))))
          | inr on ↦
              rw (f, on)
                (again-Settled first n (record { at = clock s; delay = delay }) rest
                  (timely (clock s) delay on) k)
        ]
  ]

  attempt_from-Settled :
      (left first : ℕ) (s : S) → Settled first (left + 1) (attempt_from left (suc first) s)
  unfolding attempt_from
  attempt_from-Settled zero first s =
      once-Settled first (0 + 1) ((do_http s).1) ((do_http s).0) (omega arith)
        (λ e f. inr (inl (omega arith)))
  attempt_from-Settled (suc left) first s =
      let r = (do_http s).0 in
      let after = (do_http s).1 in
      let slept = sleep (retry_delay opt (suc first) (random after)) after in
      let rest = attempt_from left (suc (suc first)) slept in
      let more : left + 1 + 1 ≡ suc left + 1 = omega arith in
      subst (λ n. Settled first n (after_attempt (suc first) r after rest)) more
        (after_attempt-Settled first (left + 1) r after rest (omega arith)
          (attempt_from-Settled left (suc first) slept))

  attempts_of-pos : (method : Str) → 1 ≤ attempts_of method
  unfolding retry_attempts
  attempts_of-pos method = elim (Bool-cases (can_retry_method opt method)) [
    | inl e ↦ rw e (positive opt.attempts)
    | inr e ↦ rw e (omega arith)
  ]
    where
      positive :
          (n : ℤ)
          → 1 ≤ elim n [
            | pos zero ↦ default_attempts
            | pos (suc k) ↦ suc k
            | negsuc k ↦ default_attempts
          ]
      positive (pos zero) = omega arith
      positive (pos (suc n)) = omega arith
      positive (negsuc n) = omega arith

  retried-Settled : (method : Str) (s : S) → Settled 0 (attempts_of method) (retried method s)
  unfolding retried
  retried-Settled method s =
      let same : attempts_of method - 1 + 1 ≡ attempts_of method =
        omega (arith, attempts_of-pos method) in
      subst (λ n. Settled 0 n (attempt_from (attempts_of method - 1) 1 s)) same
        (attempt_from-Settled (attempts_of method - 1) 0 s)

-- `init` is the agent's own, whose exception is wrapped by `call_error`; `retry_opt` and `deadline`
-- are the agent's after it.
module _ {ℓ κ μ} {S : Type ℓ} {E : Type κ} {A : Type μ} (init : S → Result E (Unit {0}) × S)
    (call_error : E → E) (do_http : S → Result E A × S) (is_retryable : E → Bool)
    (clock random : S → ℕ) (sleep : ℕ → S → S) (deadline : ℕ) where
  abbrev inited : Option RetryOpt → Str → Result E (Unit {0}) × S → Called S E A
  inited retry_opt method (err e, s) = record {
    result = err (call_error e);
    state = s;
    calls = 0;
    sleeps = [];
  }
  inited none method (ok u, s) =
      let (r, after) = do_http s in record { result = r; state = after; calls = 1; sleeps = [] }
  inited (some opt) method (ok u, s) =
      retried do_http is_retryable clock random sleep opt deadline method s

  unfoldable pub do_request : Option RetryOpt → Str → S → Called S E A
  unfolding retried
  do_request retry_opt method s = inited retry_opt method (init s)

  -- What a call comes to, by what `init` did and by the options of the retries.
  abbrev pub Outcome : Option RetryOpt → Str → Result E (Unit {0}) × S → Called S E A → Type (κ ⊔ μ)
  Outcome retry_opt method (err e, s) c =
      (c.result ≡ err (call_error e)) × (c.calls ≡ 0) × (c.sleeps ≡ [])
  Outcome none method (ok u, s) c = (c.result ≡ (do_http s).0) × (c.calls ≡ 1) × (c.sleeps ≡ [])
  Outcome (some opt) method (ok u, s) c =
      Settled do_http is_retryable clock random sleep opt deadline 0
        (attempts_of do_http is_retryable clock random sleep opt deadline method) c

  inited-Outcome :
      (retry_opt : Option RetryOpt) (method : Str) (i : Result E (Unit {0}) × S)
      → Outcome retry_opt method i (inited retry_opt method i)
  inited-Outcome none method (err e, s) = (refl, refl, refl)
  inited-Outcome (some opt) method (err e, s) = (refl, refl, refl)
  inited-Outcome none method (ok u, s) = (refl, refl, refl)
  inited-Outcome (some opt) method (ok u, s) =
      retried-Settled do_http is_retryable clock random sleep opt deadline method s

  -- A call whose initialisation raises makes no attempt and raises a CallError, and a call with no
  -- options of retries makes exactly one attempt. Else a call makes at least one attempt and at
  -- most its number of attempts, which is 1 for a method that must not be repeated. It sleeps once
  -- between two attempts and never into the deadline. It returns, or raises an error that cannot
  -- be retried, or after the last attempt, or since there is a deadline and the clock has reached
  -- it once the delay after the attempt that it made last is added.
  pub do_request-Settled :
      (retry_opt : Option RetryOpt) (method : Str) (s : S)
      → Outcome retry_opt method (init s) (do_request retry_opt method s)
  unfolding do_request
  do_request-Settled retry_opt method s = inited-Outcome retry_opt method (init s)
