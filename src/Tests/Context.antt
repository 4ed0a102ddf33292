-- ===== src/Tests/Context.antt =====
-- src/core_py/context.py at concrete inputs.
use core_py.Base.{◌≡◌, refl, true, not, none, some, [], ◌∷◌, if◌then◌else◌, Result, ok, All}
use core_py.Base.Text.{Str, codes, is_empty, str_eq, strip, lower, starts_with, remove_prefix}
use core_py.Base.Dict
use core_py.Context.Keys.{pass_prefix, dash_char, normalize_key, fixed_key, fixed_key_direct}
use core_py.Context.Keyed.{get-set_pass_value, pass_headers_lem}
use core_py.Context.{
  text, Context, Var, get_pass_value, set_pass_value, get_direct_value, set_direct_value,
  pass_headers, set_trace_id, get_trace_id,
}

abbrev spelled : Str
spelled = codes "  OFA_Trace_Id "

fixed_key-spelled : fixed_key spelled ≡ codes "ofa-pass-trace-id"
unfolding fixed_key normalize_key strip lower dash_char starts_with remove_prefix
fixed_key-spelled = refl

fixed_key_direct-spelled : fixed_key_direct spelled ≡ codes "ofa-direct-trace-id"
unfolding fixed_key_direct normalize_key strip lower dash_char starts_with remove_prefix
fixed_key_direct-spelled = refl

trace_round : get_trace_id (set_trace_id (codes "t-1") none) ≡ (codes "t-1", true)
unfolding get_trace_id set_trace_id fixed_key normalize_key strip lower dash_char starts_with
    remove_prefix Dict.get Dict.put str_eq
trace_round = refl

abbrev traced : Var
traced = some ((codes "ofa-pass-trace-id", text (codes "t-1")) ∷ [])

get-set_pass_value_example :
    (get_pass_value spelled (set_pass_value (codes "trace-id") (codes "t-2") traced) ≡ (
      if str_eq (fixed_key (codes "trace-id")) (fixed_key spelled)
      then (codes "t-2", not (is_empty (codes "t-2")))
      else get_pass_value spelled traced))
    × (get_direct_value spelled (set_pass_value (codes "trace-id") (codes "t-2") traced)
        ≡ get_direct_value spelled traced)
get-set_pass_value_example = get-set_pass_value spelled (codes "trace-id") (codes "t-2") traced

pass_headers_lem_example :
    All (λ e. starts_with e.0 pass_prefix ≡ true) (pass_headers traced)
    × (Dict.get
          (codes "ofa-pass-operator")
          (pass_headers (set_pass_value (codes "operator") (codes "u") traced))
        ≡ (if str_eq (fixed_key (codes "operator")) (codes "ofa-pass-operator")
            then some (codes "u")
            else Dict.get (codes "ofa-pass-operator") (pass_headers traced)))
    × (pass_headers (set_direct_value (codes "operator") (codes "u") traced) ≡ pass_headers traced)
pass_headers_lem_example =
    pass_headers_lem (codes "ofa-pass-operator") (codes "operator") (codes "u") traced

abbrev clobber : Context → Var → Result Str Str × Var
clobber seen s = (ok (codes "done"), some [])
