-- ===== src/Data.antt =====
-- src/core_py/data.py: exceptions as nodes of a heap, linked by `__cause__` and `__context__`.
pub mod Chain
pub mod Wrap
pub mod Sort
use core_py.Base.{
  ℕ, zero, suc, Bool, true, false, not, ◌&&◌, Option, none, some, List, [], ◌∷◌, ◌++◌,
  if◌then◌else◌, ◌==◌, leb, length, get_elem?,
}
use core_py.Base.Unseen.{mem}
use core_py.Base.Text.{Str, codes, is_empty, or_else}

abbrev pub err_code_unexpected : ℕ
err_code_unexpected = 10000

abbrev pub err_code_expected : ℕ
err_code_expected = 20000

abbrev pub err_code_validate : ℕ
err_code_validate = 20001

abbrev pub err_code_not_found : ℕ
err_code_not_found = 20002

abbrev pub err_code_conflict : ℕ
err_code_conflict = 20003

-- The classes of the module, with the fields that it reads; `foreign` is any other exception.
pub data Kind : Type 0 where
  error : (code : ℕ) (message : Str) → Kind
  resource_error : (code : ℕ) (message resource : Str) → Kind
  validation_error : (message : Str) → Kind
  internal_error : (message : Str) → Kind
  http_validation_error : (status_code : ℕ) (body : Str) → Kind
  extra_data_error : (payload : ℕ) → Kind
  retryable_error : Kind
  upstream_error : (target operation request_id : Str) → Kind
  foreign : Kind

-- An exception object; an address is its place in the heap.
pub record Exn : Type 0 where
  pub kind : Kind
  pub cause : Option ℕ
  pub context : Option ℕ

abbrev pub Heap : Type 0
Heap = List Exn

-- `cur.__cause__ or cur.__context__`
abbrev pub or_context : Option ℕ → Option ℕ → Option ℕ
or_context none context = context
or_context (some a) context = some a

unfoldable pub next : Exn → Option ℕ
next e = or_context e.cause e.context

pub data Walk {ℓ} (A : Type ℓ) : Type ℓ where
  found : A → Walk A
  ended : Walk A
  out_of_fuel : Walk A

-- The loop that `code_of`, `error_data` and `is_retryable_error` share: `pick` is its test.
module _ {ℓ} {A : Type ℓ} (pick : Exn → Option A) (h : Heap) where
  unfoldable pub walk : ℕ → List ℕ → Option ℕ → Walk A
  walk fuel seen none = ended
  walk zero seen (some a) = out_of_fuel
  walk (suc fuel) seen (some a) = elim (mem a seen) [
    | true ↦ ended
    | false ↦ elim (get_elem? h a) [
      | none ↦ ended
      | some e ↦ elim (pick e) [ some x ↦ found x | none ↦ walk fuel (a ∷ seen) (next e) ]
    ]
  ]

  -- One round more than there are exceptions.
  unfoldable pub search_chain : Option ℕ → Walk A
  unfolding walk
  search_chain err = walk (suc (length h)) [] err

abbrev if_set : ℕ → Option ℕ
if_set zero = none
if_set (suc n) = some (suc n)

-- `isinstance(cur, Error) and cur.code`
unfoldable pub own_code : Kind → Option ℕ
own_code (error code message) = if_set code
own_code (resource_error code message resource) = if_set code
own_code (validation_error message) = some err_code_validate
own_code (internal_error message) = some err_code_unexpected
own_code (http_validation_error status_code body) = some err_code_unexpected
own_code _ = none

unfoldable pub pick_code : Exn → Option ℕ
unfolding own_code
pick_code e = own_code e.kind

abbrev pub code_or_unexpected : Walk ℕ → ℕ
code_or_unexpected (found code) = code
code_or_unexpected _ = err_code_unexpected

unfoldable pub code_of : Heap → Option ℕ → ℕ
code_of h none = 0
code_of h (some a) = code_or_unexpected (search_chain pick_code h (some a))

abbrev pub own_payload : Kind → Option ℕ
own_payload (extra_data_error payload) = some payload
own_payload _ = none

unfoldable pub pick_payload : Exn → Option ℕ
pick_payload e = own_payload e.kind

abbrev pub as_option {ℓ} : {A : Type ℓ} → Walk A → Option A
as_option (found x) = some x
as_option _ = none

unfoldable pub error_data : Heap → Option ℕ → Option ℕ
error_data h err = as_option (search_chain pick_payload h err)

abbrev pub is_retryable : Kind → Option Bool
is_retryable retryable_error = some true
is_retryable _ = none

unfoldable pub pick_retryable : Exn → Option Bool
pick_retryable e = is_retryable e.kind

abbrev pub was_found {ℓ} : {A : Type ℓ} → Walk A → Bool
was_found (found x) = true
was_found _ = false

unfoldable pub is_retryable_error : Heap → Option ℕ → Bool
is_retryable_error h err = was_found (search_chain pick_retryable h err)

unfoldable pub is_err_code : Heap → ℕ → Option ℕ → Bool
is_err_code h code none = false
is_err_code h code (some a) = code_of h (some a) == code

unfoldable pub is_expected : Heap → Option ℕ → Bool
is_expected h err = leb err_code_expected (code_of h err)

unfoldable pub is_unexpected : Heap → Option ℕ → Bool
is_unexpected h none = false
is_unexpected h (some a) = not (is_expected h (some a))

-- A new exception whose cause is the given one; its address is the heap's length.
unfoldable pub raise_from : Kind → Option ℕ → Heap → Heap
raise_from kind cause h = h ++ record { kind = kind; cause = cause; context = none } ∷ []

unfoldable pub with_error_data : Heap → Option ℕ → ℕ → Heap × Option ℕ
unfolding raise_from
with_error_data h none payload = (h, none)
with_error_data h (some a) payload =
    (raise_from (extra_data_error payload) (some a) h, some (length h))

unfoldable pub with_retryable_error : Heap → Option ℕ → Heap × Option ℕ
unfolding raise_from
with_retryable_error h none = (h, none)
with_retryable_error h (some a) = (raise_from retryable_error (some a) h, some (length h))

unfoldable pub new_validation_error : Str → Kind
new_validation_error message = validation_error (or_else message (codes "validation failed"))

unfoldable pub new_internal_failure : Str → Kind
new_internal_failure message = internal_error (or_else message (codes "internal error"))

unfoldable pub new_internal_error : Str → Kind
new_internal_error msg = internal_error (or_else msg (codes "internal server error"))

unfoldable pub new_validate_error : Str → Kind
unfolding new_validation_error
new_validate_error msg = new_validation_error (or_else msg (codes "parameter validate failed"))

abbrev pub code_or_expected : ℕ → ℕ
code_or_expected zero = err_code_expected
code_or_expected (suc n) = suc n

abbrev pub named : Str → Str → Str
named message [] = message
named message (c ∷ resource) = message ++ (codes ": " ++ (c ∷ resource))

unfoldable pub new_resource_error : ℕ → Str → Str → Kind
new_resource_error code message resource =
    resource_error (code_or_expected code)
      (named (or_else message (codes "resource error")) resource) resource

unfoldable pub new_resource_not_found_error : Str → Kind
unfolding new_resource_error
new_resource_not_found_error resource =
    new_resource_error err_code_not_found (codes "resource not found") resource

unfoldable pub new_resource_conflict_error : Str → Kind
unfolding new_resource_error
new_resource_conflict_error resource =
    new_resource_error err_code_conflict (codes "resource conflict") resource

unfoldable pub new_upstream_error : Str → Str → Str → Kind
new_upstream_error target operation request_id = upstream_error target operation request_id

-- `__str__`, given the text of the cause; `show` is `str` on an integer.
module _ (show : ℕ → Str) where
  unfoldable pub error_str : ℕ → Str → Option Str → Str
  error_str code [] none = codes "error code " ++ show code
  error_str code [] (some cause) = cause
  error_str code (c ∷ message) none = c ∷ message
  error_str code (c ∷ message) (some cause) = (c ∷ message) ++ (codes ": " ++ cause)

  unfoldable pub http_validation_str : ℕ → Str → Str
  http_validation_str status_code [] =
      codes "http validate failed, status: [" ++ (show status_code ++ codes "]")
  http_validation_str status_code (c ∷ body) =
      codes "http validate failed, status: ["
      ++ (show status_code ++ (codes "], body : [" ++ ((c ∷ body) ++ codes "]")))

abbrev upstream_message : Str → Str → Str
upstream_message [] [] = codes "upstream call failed"
upstream_message [] (c ∷ operation) = codes "upstream call failed: " ++ (c ∷ operation)
upstream_message (c ∷ target) [] = codes "upstream call failed: " ++ (c ∷ target)
upstream_message (c ∷ target) (d ∷ operation) =
    codes "upstream call failed: " ++ ((d ∷ operation) ++ (codes " " ++ (c ∷ target)))

unfoldable pub upstream_str : Str → Str → Option Str → Str
upstream_str target operation none = upstream_message target operation
upstream_str target operation (some cause) =
    upstream_message target operation ++ (codes ": " ++ cause)
