-- ===== src/Context/Keys.antt =====
-- The keys of src/core_py/context.py: normal forms and the three namespaces.
pub mod Normal
use core_py.Base.{ℕ, Bool, ◌++◌, map, ◌==◌, if◌then◌else◌}
use core_py.Base.Text.{Str, codes, strip, lower, starts_with, remove_prefix}

abbrev pub pass_prefix : Str
pass_prefix = codes "ofa-pass-"

abbrev pub direct_prefix : Str
direct_prefix = codes "ofa-direct-"

abbrev pub value_prefix : Str
value_prefix = codes "ofa-"

abbrev pub key_trace_id : Str
key_trace_id = codes "ofa-pass-trace-id"

abbrev pub key_request_id : Str
key_request_id = codes "ofa-direct-request-id"

abbrev pub key_remaining_timeout_ms : Str
key_remaining_timeout_ms = codes "ofa-direct-remaining-timeout-ms"

abbrev pub key_request_deadline : Str
key_request_deadline = codes "ofa-request-deadline"

abbrev pub key_operator : Str
key_operator = codes "ofa-pass-operator"

abbrev pub key_tenant_id : Str
key_tenant_id = codes "ofa-pass-tenant-id"

abbrev pub key_app_id : Str
key_app_id = codes "ofa-pass-app-id"

-- `.replace("_", "-")`, on one character
unfoldable pub dash_char : ℕ → ℕ
dash_char c = if c == b'_' then b'-' else c

unfoldable pub normalize_key : Str → Str
normalize_key key = map dash_char (lower (strip key))

unfoldable pub fixed_key : Str → Str
fixed_key key =
    let normalized = normalize_key key in
    if starts_with normalized pass_prefix
    then normalized
    else pass_prefix ++ remove_prefix normalized value_prefix

unfoldable pub fixed_key_direct : Str → Str
fixed_key_direct key =
    let normalized = normalize_key key in
    if starts_with normalized direct_prefix
    then normalized
    else direct_prefix ++ remove_prefix normalized value_prefix

unfoldable pub fixed_key_value : Str → Str
fixed_key_value key =
    let normalized = normalize_key key in
    if starts_with normalized value_prefix then normalized else value_prefix ++ normalized
