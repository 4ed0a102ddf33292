-- ===== src/Httpx/Deadline.antt =====
-- `context_from_headers` and `_deadline_from_context` of src/core_py/httpx.py. A tick is a
-- millisecond; `now` is the reading of the clock.
use core_py.Base.{
  ℕ, zero, suc, ltb, leb, Bool, true, false, ◌&&◌, ◌||◌, Option, none, some, [], ◌∷◌, if◌then◌else◌,
  Result, ok, err, arith, ◌≡◌, refl, ◌⊎◌, inl, inr, Bool-cases, leb→le, ◌≤◌, ◌+◌, ◌-◌, ◌*◌, ◌^◌,
}
use core_py.Base.Int.{ℤ, pos, negsuc, ◌+ℤ◌, is_positive, ltb_ℤ, leb_ℤ, pos_part, neg_part}
use core_py.Base.Number.{py_int}
use core_py.Base.Text.{Str, codes, is_empty, lower, starts_with}
use core_py.Base.Dict
use core_py.Base.Dict.{Dict}
use core_py.Context.{
  Var, Context, Value, text, update_value, copy_context, current_context, set_current_context,
  set_request_deadline, get_request_deadline,
}
use core_py.Context.Keys.{
  fixed_key, fixed_key_direct, fixed_key_value, key_request_id, key_remaining_timeout_ms,
  key_request_deadline,
}

-- `{key.lower(): val for key, val in headers.items()}`
unfoldable pub lower_keys : Dict Str → Dict Str → Dict Str
lower_keys out [] = out
lower_keys out ((key, val) ∷ headers) = lower_keys (Dict.put (lower key) val out) headers

unfoldable pub put_pass_headers : Context → Dict Str → Context
put_pass_headers current [] = current
put_pass_headers current ((key, val) ∷ headers) =
    put_pass_headers
      (if starts_with key (codes "ofa-pass-")
        then Dict.put (fixed_key key) (text val) current
        else current)
      headers

-- `if request_id := …`: an empty value is passed over.
abbrev put_request_id : Option Str → Context → Context
put_request_id none current = current
put_request_id (some id) current =
    if is_empty id then current else Dict.put (fixed_key_direct key_request_id) (text id) current

pub data OverflowError : Type 0 where
  overflow_error : OverflowError

-- The least quotient that no float has: it would round to 2 ^ 1024.
unfoldable pub float_end : ℕ
float_end = 2 ^ 1024 - 2 ^ 970

-- The integer divided by 1000 is too large for a float; the model keeps its milliseconds.
unfoldable pub overflows : ℤ → Bool
overflows n = leb (1000 * float_end) (pos_part n + neg_part n)

abbrev int_or : ℤ → Option ℤ → Result OverflowError ℤ
int_or default none = ok default
int_or default (some n) = if overflows n then err overflow_error else ok n

-- The timeout that a header asks for: its integer, or the default.
abbrev pub asked_timeout : ℤ → Option Str → Result OverflowError ℤ
asked_timeout default none = ok default
asked_timeout default (some raw) = if is_empty raw then ok default else int_or default (py_int raw)

abbrev is_zero : ℤ → Bool
is_zero (pos zero) = true
is_zero _ = false

unfoldable pub clamp_timeout : ℤ → ℤ → ℤ
clamp_timeout max_timeout timeout =
    if is_positive max_timeout && (is_zero timeout || ltb_ℤ max_timeout timeout)
    then max_timeout
    else timeout

abbrev set_deadline : ℕ → ℤ → Var → Result OverflowError (Option ℤ) × Var
set_deadline now timeout s =
    if is_positive timeout
    then (ok (some (pos now +ℤ timeout)), set_request_deadline (pos now +ℤ timeout) s)
    else (ok none, s)

abbrev set_asked : ℤ → ℕ → Result OverflowError ℤ → Var → Result OverflowError (Option ℤ) × Var
set_asked max_timeout now (err e) s = (err e, s)
set_asked max_timeout now (ok timeout) s = set_deadline now (clamp_timeout max_timeout timeout) s

unfoldable pub context_from_headers :
    Dict Str → ℤ → ℤ → ℕ → Var → Result OverflowError (Option ℤ) × Var
unfolding lower_keys put_pass_headers clamp_timeout overflows
context_from_headers headers default_timeout max_timeout now s =
    let normalized = lower_keys [] headers in
    let current =
      put_request_id (Dict.get key_request_id normalized)
        (put_pass_headers (current_context s) normalized) in
    set_asked max_timeout now
      (asked_timeout default_timeout (Dict.get key_remaining_timeout_ms normalized))
      ((set_current_context (some current) s).0)

-- `_deadline_from_context`: none where the context has no deadline, an error where it is over.
abbrev pub deadline_of : ℤ × Bool → ℕ → Result (Unit {0}) (Option ℤ)
deadline_of (deadline, false) now = ok none
deadline_of (deadline, true) now = if leb_ℤ deadline (pos now) then err tt else ok (some deadline)

unfoldable pub deadline_from_context : ℕ → Var → Result (Unit {0}) (Option ℤ)
deadline_from_context now s = deadline_of (get_request_deadline s) now

abbrev pub is_negative : ℤ → Bool
is_negative (pos n) = false
is_negative (negsuc n) = true

-- With a longest timeout, a timeout that is not negative becomes a positive one within it.
clamp_timeout-cases :
    (longest asked : ℤ)
    → is_positive longest ≡ true
    → ((is_negative asked ≡ true) × (clamp_timeout longest asked ≡ asked))
      ⊎ ((is_positive (clamp_timeout longest asked) ≡ true)
          × (ltb_ℤ longest (clamp_timeout longest asked) ≡ false))
unfolding clamp_timeout
clamp_timeout-cases (pos zero) asked h = absurd (ground arith)
clamp_timeout-cases (negsuc m) asked h = absurd cc
clamp_timeout-cases (pos (suc m)) (negsuc n) h = inl (refl, ground arith)
clamp_timeout-cases (pos (suc m)) (pos zero) h = inr (ground arith, ground arith)
clamp_timeout-cases (pos (suc m)) (pos (suc n)) h = elim (Bool-cases (ltb (suc m) (suc n))) [
  | inl e ↦ inr (ground arith, ground arith)
  | inr e ↦ inr (ground arith, ground arith)
]

later-positive : (now : ℕ) (t : ℤ) → is_positive t ≡ true → is_positive (pos now +ℤ t) ≡ true
later-positive now (pos zero) h = absurd (ground arith)
later-positive now (negsuc n) h = absurd cc
later-positive now (pos (suc n)) h =
    let all : leb (0 + 0) (now + suc n) ≡ true = ground arith in rw all (ground arith)

get-set_request_deadline :
    (t : ℤ) (s : Var)
    → is_positive t ≡ true
    → get_request_deadline (set_request_deadline t s) ≡ (t, true)
unfolding get_request_deadline set_request_deadline update_value current_context copy_context
get-set_request_deadline t s h =
    rw
      (Dict.get-put_self (fixed_key_value key_request_deadline) (Value.float t) (current_context s))
      (rw h)

not_positive : (t : ℤ) → is_negative t ≡ true → is_positive t ≡ false
not_positive (pos n) e = absurd cc
not_positive (negsuc n) e = refl

-- A header whose integer, divided by 1000, is too large for a float.
abbrev pub IsTooLarge : Option Str → Type 0
IsTooLarge header =
    (raw : Str) × (n : ℤ) × (header ≡ some raw)
    × (is_empty raw ≡ false)
    × (py_int raw ≡ some n)
    × (1000 * float_end ≤ pos_part n + neg_part n)

IsTooLarge-asked_timeout :
    (default : ℤ) (header : Option Str)
    → IsTooLarge header
    → asked_timeout default header ≡ err overflow_error
unfolding overflows
IsTooLarge-asked_timeout default header (raw, n, e, filled, parsed, large) =
    let over : leb (1000 * float_end) (pos_part n + neg_part n) ≡ true = ground arith in
    rw (e, filled, parsed, over)

int_or-IsTooLarge :
    (default : ℤ) (raw : Str) (o : Option ℤ)
    → py_int raw ≡ o
    → is_empty raw ≡ false
    → int_or default o ≡ err overflow_error
    → IsTooLarge (some raw)
unfolding overflows
int_or-IsTooLarge default raw none parsed filled h = cc
int_or-IsTooLarge default raw (some n) parsed filled h =
    elim (Bool-cases (leb (1000 * float_end) (pos_part n + neg_part n))) [
      | inl e ↦ (raw, n, refl, filled, parsed, leb→le _ _ e)
      | inr e ↦ cc (rw e at h)
    ]

asked_timeout-IsTooLarge :
    (default : ℤ) (header : Option Str)
    → asked_timeout default header ≡ err overflow_error
    → IsTooLarge header
unfolding overflows
asked_timeout-IsTooLarge default none h = cc
asked_timeout-IsTooLarge default (some raw) h = elim (Bool-cases (is_empty raw)) [
  | inl e ↦ cc (rw e at h)
  | inr e ↦ int_or-IsTooLarge default raw (py_int raw) refl e (rw e at h)
]

-- What the headers leave in the context, by the timeout that they ask for.
abbrev pub Leaves :
    ℤ → ℕ → Option Str → Result OverflowError ℤ → Result OverflowError (Option ℤ) × Var → Type 0
Leaves longest now header asked r =
    (IsTooLarge header × (r.0 ≡ err overflow_error))
    ⊎ (((t : ℤ) × (asked ≡ ok t) × (is_negative t ≡ true) × (r.0 ≡ ok none))
        ⊎ ((timeout : ℤ) × (is_positive timeout ≡ true)
            × (ltb_ℤ longest timeout ≡ false)
            × (r.0 ≡ ok (some (pos now +ℤ timeout)))
            × (get_request_deadline r.1 ≡ (pos now +ℤ timeout, true))))

set_asked-Leaves :
    (longest : ℤ) (now : ℕ) (header : Option Str) (asked : Result OverflowError ℤ) (s : Var)
    → is_positive longest ≡ true
    → (asked ≡ err overflow_error → IsTooLarge header)
    → Leaves longest now header asked (set_asked longest now asked s)
set_asked-Leaves longest now header (err overflow_error) s h large = inl (large refl, refl)
set_asked-Leaves longest now header (ok asked) s h large =
    elim (clamp_timeout-cases longest asked h) [
      | inl (negative, same) ↦
          inr (inl (asked, refl, negative, rw (same, not_positive asked negative)))
      | inr (positive, within) ↦ inr (
          inr (
            clamp_timeout longest asked,
            positive,
            within,
            rw positive,
            rw positive (
                get-set_request_deadline (pos now +ℤ clamp_timeout longest asked) s
                  (later-positive now (clamp_timeout longest asked) positive)),
          ))
    ]

-- With a longest timeout, a call's headers leave a deadline in the context that is after now and
-- within the longest timeout, and that a read of the context returns. There are two exceptions:
-- where the header asks for a negative number of milliseconds, or the default is negative and
-- nothing is asked for, no deadline is set; and exactly where the header's integer divided by 1000
-- is too large for a float, the call raises OverflowError.
pub context_from_headers_lem :
    (headers : Dict Str) (default longest : ℤ) (now : ℕ) (s : Var)
    → is_positive longest ≡ true
    → let header = Dict.get key_remaining_timeout_ms (lower_keys [] headers) in
      let r = context_from_headers headers default longest now s in
      Leaves longest now header (asked_timeout default header) r
      × (IsTooLarge header → r.0 ≡ err overflow_error)
unfolding context_from_headers
context_from_headers_lem headers default longest now s h =
    let header = Dict.get key_remaining_timeout_ms (lower_keys [] headers) in
    (
      set_asked-Leaves longest now header (asked_timeout default header) _ h
          (asked_timeout-IsTooLarge default header),
      λ large. rw (IsTooLarge-asked_timeout default header large),
    )
