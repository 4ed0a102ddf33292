-- ===== src/Resource/Identifier.antt =====
-- `parse` of src/core_py/resource.py: resource identifiers `ofa-res?params#source_uri`.
-- `urllib.parse.parse_qs` is an argument; a ValueError of it is `none`.
pub mod Sound
use core_py.Base.{
  ℕ, Bool, true, false, not, ◌&&◌, ◌||◌, Option, none, some, List, [], ◌∷◌, if◌then◌else◌, ltb, leb,
  ◌==◌, any, all, String, Result, ok, err, ◌>>=◌, ◌>>◌,
}
use core_py.Base.Text.{
  Str, codes, is_empty, str_eq, starts_with, remove_prefix, contains, partition, lower,
}
use core_py.Base.Dict
use core_py.Base.Dict.{Dict}

-- The exceptions of the module: `validation` is `data.new_validation_error(message)`, and
-- `invalid_value` one whose message ends in the value's `repr`; `handler` is any other exception.
pub data Fault : Type 0 where
  validation : (message : Str) → Fault
  invalid_value : (message value : Str) → Fault
  unsupported_scheme : Fault
  open_unsupported : Fault
  upload_unsupported : Fault
  size_limit_exceeded : Fault
  handler : ℕ → Fault

pub record Identifier : Type 0 where
  pub raw : Str
  pub params : Dict Str
  pub source_uri : Str
  pub scheme : Str
  pub auth_id : Str
  pub media_type : Str

-- `[a-z0-9_]`, and `[a-z0-9_+.-]`
abbrev is_param_char : ℕ → Bool
is_param_char c = leb b'a' c && leb c b'z' || leb b'0' c && leb c b'9' || c == b'_'

abbrev pub is_scheme_char : ℕ → Bool
is_scheme_char c = is_param_char c || c == b'+' || c == b'.' || c == b'-'

-- `_PARAM_NAME_RE.fullmatch(key)`
unfoldable pub is_param_name : Str → Bool
is_param_name key = not (is_empty key) && all is_param_char key

-- `_SCHEME_RE.fullmatch(scheme)`
unfoldable pub is_scheme : Str → Bool
is_scheme [] = false
is_scheme (c ∷ s) = leb b'a' c && leb c b'z' && all is_scheme_char s

-- The loop over the parsed query.
unfoldable pub collect_params : Dict Str → Dict (List Str) → Result Fault (Dict Str)
unfolding is_param_name
collect_params params [] = ok params
collect_params params ((key, vals) ∷ values) =
    if not (is_param_name key)
    then err (invalid_value (codes "invalid param name ") key)
    else elim vals [
      | [] ↦ err (invalid_value (codes "duplicate param ") key)
      | (v ∷ []) ↦ collect_params (Dict.put key v params) values
      | (v ∷ w ∷ vs) ↦ err (invalid_value (codes "duplicate param ") key)
    ]

abbrev pub query_params : Option (Dict (List Str)) → Result Fault (Dict Str)
query_params none = err (validation (codes "parse params"))
query_params (some values) = collect_params [] values

unfoldable pub source_scheme : Str → Result Fault Str
unfolding is_scheme
source_scheme source_uri =
    let (scheme, found, rest) = partition b':' source_uri in
    if not found || is_empty scheme
    then err (validation (codes "source_uri scheme is required"))
    else if not (is_scheme scheme)
    then err (invalid_value (codes "invalid source_uri scheme ") scheme)
    else if not (str_eq (lower scheme) scheme)
    then err (validation (codes "source_uri scheme must be lowercase"))
    else ok scheme

abbrev pub param_or_empty : Str → Dict Str → Str
param_or_empty key params = elim (Dict.get key params) [ none ↦ [] | some v ↦ v ]

unfoldable pub has_separator : Str → Bool
has_separator filename =
    contains (codes "/") filename
    || contains (codes "\\") filename
    || contains (0 ∷ []) filename
    || contains (codes "..") filename

unfoldable pub has_control : Str → Bool
has_control filename = any (λ ch. ltb ch 0x20 || ch == 0x7f) filename

unfoldable pub validate_identifier_params : Dict Str → Result Fault (Unit {0})
unfolding has_separator has_control
validate_identifier_params params =
    let filename = param_or_empty (codes "filename") params in
    if is_empty filename
    then ok tt
    else if has_separator filename
    then err (validation (codes "invalid filename"))
    else if has_control filename
    then err (validation (codes "invalid filename"))
    else ok tt

-- A `ParseError` carries the text with the fault.
abbrev pub ParseError : Type 0
ParseError = Str × Fault

abbrev pub parse_error : Str → String → ParseError
parse_error raw msg = (raw, validation (codes msg))

abbrev pub with_raw {ℓ} : {A : Type ℓ} → Str → Result Fault A → Result ParseError A
with_raw raw (ok x) = ok x
with_raw raw (err e) = err (raw, e)

module _ (parse_qs : Str → Option (Dict (List Str))) where
  unfoldable pub parse_params : Str → Result Fault (Dict Str)
  unfolding collect_params
  parse_params meta =
      if str_eq meta (codes "ofa-res")
      then ok []
      else query_params (parse_qs (remove_prefix meta (codes "ofa-res?")))

  abbrev pub identify : Str → Str → Str → Result Fault Identifier
  identify raw meta source_uri = do
    params ← parse_params meta
    scheme ← source_scheme source_uri
    validate_identifier_params params
    ok (record {
      raw = raw;
      params = params;
      source_uri = source_uri;
      scheme = scheme;
      auth_id = param_or_empty (codes "auth_id") params;
      media_type = param_or_empty (codes "media_type") params;
    })

  unfoldable pub parse : Str → Result ParseError Identifier
  unfolding parse_params source_scheme validate_identifier_params
  parse raw =
      let (meta, found, source_uri) = partition b'#' raw in
      if is_empty raw
      then err (parse_error raw "empty identifier")
      else if not (starts_with raw (codes "ofa-res"))
      then err (parse_error raw "identifier must start with ofa-res")
      else if not found
      then err (parse_error raw "missing source_uri separator")
      else if is_empty source_uri
      then err (parse_error raw "empty source_uri")
      else if not (str_eq meta (codes "ofa-res")) && not (starts_with meta (codes "ofa-res?"))
      then err (parse_error raw "invalid metadata prefix")
      else with_raw raw (identify raw meta source_uri)
