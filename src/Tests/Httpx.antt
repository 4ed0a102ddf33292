-- ===== src/Tests/Httpx.antt =====
-- src/core_py/httpx.py at concrete inputs.
use core_py.Base.{
  ℕ, zero, suc, true, false, none, some, [], ◌∷◌, ◌≡◌, refl, Result, ok, err, ◌+◌, ◌^◌,
}
use core_py.Base.Int.{pos}
use core_py.Base.Text.{Str, codes, str_eq}
use core_py.Base.Dict
use core_py.Base.Dict.{Dict}
use core_py.Context.Keys.{key_remaining_timeout_ms}
use core_py.Httpx.Retry.{
  RetryOpt, Called, Outcome, do_request, retried, do_request-Settled, attempt_from, is_late,
  retry_delay, can_retry_method, retry_attempts,
}
use core_py.Httpx.Deadline.{
  context_from_headers, asked_timeout, overflows, float_end, overflow_error, IsTooLarge, Leaves,
  lower_keys, context_from_headers_lem,
}

-- A service that answers at the third attempt; a state is the number of attempts made.
abbrev answer : ℕ → Result ℕ ℕ × ℕ
answer zero = (err 5, 1)
answer (suc zero) = (err 5, 2)
answer (suc (suc n)) = (ok 7, n + 3)

abbrev retries : RetryOpt
retries = record { max_delay = 0; base_delay = 0; attempts = pos 0; idempotent = false }

abbrev started : ℕ → Result ℕ (Unit {0}) × ℕ
started n = (ok tt, n)

abbrev call : Str → Called ℕ ℕ ℕ
call method =
    do_request started (λ e. e) answer (λ e. true) (λ s. s) (λ s. 0) (λ t s. s) 0 (some retries)
      method 0

get-answers : (call (codes "GET")).result ≡ ok 7
unfolding do_request retried attempt_from is_late retry_delay can_retry_method retry_attempts str_eq
get-answers = refl

post-fails : (call (codes "POST")).calls ≡ 1
unfolding do_request retried attempt_from is_late retry_delay can_retry_method retry_attempts str_eq
post-fails = refl

do_request-Settled_example :
    Outcome started
      (λ e. e)
      answer
      (λ e. true)
      (λ s. s)
      (λ s. 0)
      (λ t s. s)
      0
      (some retries)
      (codes "GET")
      (ok tt, 0)
      (call (codes "GET"))
do_request-Settled_example =
    do_request-Settled started (λ e. e) answer (λ e. true) (λ s. s) (λ s. 0) (λ t s. s) 0
      (some retries) (codes "GET") 0

abbrev negative_ms : Dict Str
negative_ms = (codes "OFA-Direct-Remaining-Timeout-Ms", codes "-1") ∷ []

context_from_headers_lem_example :
    let header = Dict.get key_remaining_timeout_ms (lower_keys [] negative_ms) in
    let r = context_from_headers negative_ms (pos 5000) (pos 1000) 100 none in
    Leaves (pos 1000) 100 header (asked_timeout (pos 5000) header) r
    × (IsTooLarge header → r.0 ≡ err overflow_error)
context_from_headers_lem_example =
    context_from_headers_lem negative_ms (pos 5000) (pos 1000) 100 none refl

overflows-digits : overflows (pos (10 ^ 400)) ≡ true
unfolding overflows float_end
overflows-digits = refl
