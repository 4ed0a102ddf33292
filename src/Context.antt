-- ===== src/Context.antt =====
-- src/core_py/context.py: the context variable of one task, and its reads and writes.
pub mod Keys
pub mod Keyed
pub mod Scope
use core_py.Base.{
  ℕ, Bool, true, false, not, Option, none, some, List, [], ◌∷◌, if◌then◌else◌, Result,
}
use core_py.Base.Text.{Str, is_empty, starts_with}
use core_py.Base.Int.{ℤ, pos, is_positive}
use core_py.Base.Dict
use core_py.Base.Dict.{Dict}
use core_py.Context.Keys.{
  fixed_key, fixed_key_direct, fixed_key_value, pass_prefix, key_request_deadline, key_trace_id,
  key_request_id, key_operator, key_tenant_id, key_app_id,
}

-- What the program stores in a context; `float` is a time in the clock's ticks, and `repo_opt` the
-- address of a `RepoOpt` object, which copies of a context share.
pub data Value : Type 0 where
  text : Str → Value
  float : ℤ → Value
  repo_opt : (address : ℕ) → Value
  other : ℕ → Value

abbrev pub Context : Type 0
Context = Dict Value

-- `_CURRENT_CONTEXT`: nothing was set yet, or a dict.
abbrev pub Var : Type 0
Var = Option Context

unfoldable pub copy_context : Option Context → Context
copy_context none = []
copy_context (some ctx) = ctx

unfoldable pub current_context : Var → Context
unfolding copy_context
current_context s = copy_context s

-- The token is the value that the variable had.
unfoldable pub set_current_context : Option Context → Var → Var × Var
unfolding copy_context
set_current_context ctx s = (some (copy_context ctx), s)

unfoldable pub reset_current_context : Var → Var → Var
reset_current_context token s = token

unfoldable pub clear_current_context : Var → Var
clear_current_context s = some []

-- The `with` block's body gets the context that it sees, and may return or raise.
unfoldable pub use_context {ℓ κ} :
    {E : Type ℓ} {A : Type κ}
    → Option Context
    → (Context → Var → Result E A × Var)
    → Var
    → Result E A × Var
unfolding set_current_context reset_current_context current_context
use_context ctx body s =
    let chosen : Option Context = elim ctx [ none ↦ some (current_context s) | some c ↦ some c ] in
    let (entered, token) = set_current_context chosen s in
    let (r, left) = body (current_context entered) entered in (r, reset_current_context token left)

unfoldable pub update_value : Str → Value → Var → Var
unfolding current_context
update_value key value s = some (Dict.put key value (current_context s))

abbrev pub as_text : Option Value → Str × Bool
as_text none = ([], false)
as_text (some (text t)) = (t, not (is_empty t))
as_text (some _) = ([], false)

unfoldable pub get_string_value : Str → Var → Str × Bool
unfolding current_context
get_string_value key s = as_text (Dict.get key (current_context s))

unfoldable pub get_pass_value : Str → Var → Str × Bool
unfolding get_string_value
get_pass_value key s = get_string_value (fixed_key key) s

unfoldable pub set_pass_value : Str → Str → Var → Var
unfolding update_value
set_pass_value key value s = update_value (fixed_key key) (text value) s

unfoldable pub get_direct_value : Str → Var → Str × Bool
unfolding get_string_value
get_direct_value key s = get_string_value (fixed_key_direct key) s

unfoldable pub set_direct_value : Str → Str → Var → Var
unfolding update_value
set_direct_value key value s = update_value (fixed_key_direct key) (text value) s

-- The entries that go out with a call: the texts under a pass key.
abbrev pub pass_entry : Str → Value → Dict Str → Dict Str
pass_entry key (text t) rest = if starts_with key pass_prefix then (key, t) ∷ rest else rest
pass_entry key _ rest = rest

unfoldable pub pass_items : Context → Dict Str
pass_items [] = []
pass_items ((key, value) ∷ ctx) = pass_entry key value (pass_items ctx)

unfoldable pub pass_headers : Var → Dict Str
unfolding current_context pass_items
pass_headers s = pass_items (current_context s)

abbrev pub as_deadline : Option Value → ℤ × Bool
as_deadline (some (float t)) = if is_positive t then (t, true) else (pos 0, false)
as_deadline _ = (pos 0, false)

unfoldable pub get_request_deadline : Var → ℤ × Bool
unfolding current_context
get_request_deadline s =
    as_deadline (Dict.get (fixed_key_value key_request_deadline) (current_context s))

unfoldable pub set_request_deadline : ℤ → Var → Var
unfolding update_value
set_request_deadline t s = update_value (fixed_key_value key_request_deadline) (float t) s

unfoldable pub get_trace_id : Var → Str × Bool
unfolding get_pass_value
get_trace_id s = get_pass_value key_trace_id s

unfoldable pub set_trace_id : Str → Var → Var
unfolding set_pass_value
set_trace_id v s = set_pass_value key_trace_id v s

unfoldable pub get_request_id : Var → Str × Bool
unfolding get_direct_value
get_request_id s = get_direct_value key_request_id s

unfoldable pub set_request_id : Str → Var → Var
unfolding set_direct_value
set_request_id v s = set_direct_value key_request_id v s

unfoldable pub get_operator : Var → Str × Bool
unfolding get_pass_value
get_operator s = get_pass_value key_operator s

unfoldable pub set_operator : Str → Var → Var
unfolding set_pass_value
set_operator v s = set_pass_value key_operator v s

unfoldable pub get_tenant_id : Var → Str × Bool
unfolding get_pass_value
get_tenant_id s = get_pass_value key_tenant_id s

unfoldable pub set_tenant_id : Str → Var → Var
unfolding set_pass_value
set_tenant_id v s = set_pass_value key_tenant_id v s

unfoldable pub get_app_id : Var → Str × Bool
unfolding get_pass_value
get_app_id s = get_pass_value key_app_id s

unfoldable pub set_app_id : Str → Var → Var
unfolding set_pass_value
set_app_id v s = set_pass_value key_app_id v s
