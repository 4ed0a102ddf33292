-- ===== src/Tests/Config.antt =====
-- src/core_py/config.py at concrete inputs.
use core_py.Base.{
  String, ℕ, ◌≡◌, ◌↔◌, refl, Option, none, some, List, [], ◌∷◌, inl, inr, if◌then◌else◌, Result, ok,
  err, All,
}
use core_py.Base.Text.{
  Str, codes, str_eq, strip, lower, starts_with, remove_prefix, contains, partition, split, join,
}
use core_py.Base.Text.Split.{split_from, split_str, split_once}
use core_py.Base.Int.{pos}
use core_py.Base.Number.{py_int, int_signed, int_digits}
use core_py.Base.Dict
use core_py.Base.Dict.{Dict}
use core_py.Config.Value.{Value, text, int, dict, Fields, end, field, get_field, put_field, HasKeys}
use core_py.Config.Maps.{normalize_map, merge_maps, set_path, get_path, flatten_map, record_sources}
use core_py.Config.Maps.Merge.{Lacks, merge_maps_wins}
use core_py.Config.Maps.Paths.{set_path_lem}
use core_py.Config.Parse.{
  parse_bool, is_valid_env_name, deploy_env_var_name, env_entry, env_entries, env_to_map,
  args_entry, args_entries, args_to_map, parse_with_hint, apply_typed_overrides,
}
use core_py.Config.Checks.{
  Exc, is_empty_value, validate_required, is_sensitive_path, is_placeholder_text, is_placeholder,
  validate_sensitive_entry, validate_sensitive_entries, validate_sensitive_sources, mask_uri,
  mask_fields, mask_map,
}
use core_py.Config.Checks.Sensitive.{
  IsPresent, IsSafe, validate_required_iff, validate_sensitive_sources-IsSafe,
}
use core_py.Config.Checks.Masking.{Hidden, mask_map-Hidden}
use core_py.Config.Load.{
  Options, Loading, YamlFile, missing, loaded, loaded_map, dir_of, new_loading, resolve_deploy_env,
  load_config_if_exists, load_env_file, add_file, add_overrides, load_sources,
}
use core_py.Config.Load.Precedence.{load_flags_win}

abbrev word : String → Value
word s = text (codes s)

-- { db: { uri: "mongodb://u:p@h", port: "1" }, name: "app" }
abbrev base_map : Fields
base_map =
    field (codes "db")
      (dict (field (codes "uri") (word "mongodb://u:p@h") (field (codes "port") (int (pos 1)) end)))
      (field (codes "name") (word "app") end)

abbrev override_map : Fields
override_map = field (codes "db") (dict (field (codes "uri") (word "x") end)) end

abbrev db_uri : List Str
db_uri = codes "db" ∷ codes "uri" ∷ []

abbrev db_port : List Str
db_port = codes "db" ∷ codes "port" ∷ []

override-HasKeys : HasKeys override_map
unfolding HasKeys get_field
override-HasKeys = (refl, (refl, tt, tt), tt)

override-get : get_path (dict override_map) db_uri ≡ some (word "x")
unfolding get_path get_field str_eq
override-get = refl

override-Lacks : Lacks override_map db_port
unfolding get_field str_eq
override-Lacks = inr (field (codes "uri") (word "x") end, refl, inl refl)

merged_run :
    merge_maps base_map override_map
    ≡ field
        (codes "db")
        (dict (field (codes "uri") (word "x") (field (codes "port") (int (pos 1)) end)))
        (field (codes "name") (word "app") end)
unfolding merge_maps get_field put_field str_eq
merged_run = refl

merge_maps_wins_example :
    get_path (dict (merge_maps base_map override_map)) db_uri ≡ some (word "x")
merge_maps_wins_example =
    merge_maps_wins base_map override_map db_uri (word "x") override-HasKeys refl override-get

set_path_lem_example :
    (get_path
        (dict (set_path base_map (codes "name" ∷ codes "first" ∷ []) (word "a")))
        (codes "name" ∷ codes "first" ∷ [])
      ≡ some (word "a"))
    × (get_path (dict (set_path base_map (codes "name" ∷ codes "first" ∷ []) (word "a"))) db_uri
        ≡ get_path (dict base_map) db_uri)
set_path_lem_example =
    set_path_lem base_map (codes "name" ∷ codes "first" ∷ []) db_uri (word "a")
      (inl (unfold str_eq in refl))

-- The loader of the tests: one default file, one environment entry, one flag.
abbrev yaml_files : Str → YamlFile
yaml_files path =
    if str_eq path (codes "configs/config.yaml") then loaded (dict base_map) else missing

abbrev no_float : Str → Option ℕ
no_float t = none

abbrev opts : Options Fields
opts = record {
  default_config_path = codes "configs/config.yaml";
  env_prefix = codes "APP";
  env_separator = codes "__";
  deploy_env_key = codes "ENV";
  args = codes "--db.port=27" ∷ [];
  required_keys = codes "db.uri" ∷ [];
  sensitive_keys = codes "uri" ∷ [];
  validate_map = λ fs. ok tt;
  decode = λ fs. ok fs;
  validate_config = λ fs. ok tt;
}

abbrev env : Dict Str
env = (codes "APP__DB__URI", codes "x") ∷ (codes "PATH", codes "/bin") ∷ []

abbrev loading_of : Result Exc Loading → Loading
loading_of (ok l) = l
loading_of (err x) = new_loading

args_run :
    args_to_map opts.args ≡ field (codes "db") (dict (field (codes "port") (word "27") end)) end
unfolding args_to_map args_entries args_entry set_path put_field get_field str_eq partition strip
    lower split starts_with remove_prefix
args_run = refl

env_run : env_to_map (codes "APP") (codes "__") (codes "ENV") env ≡ override_map
unfolding env_to_map env_entries env_entry set_path put_field get_field str_eq split_str split_from
    lower starts_with remove_prefix is_valid_env_name deploy_env_var_name
env_run = refl

-- Everything that loading the sources computes with.
run_sources : (o : Options Fields) → Result Exc Loading
unfolding load_sources load_config_if_exists load_env_file loaded_map normalize_map merge_maps
    record_sources add_file add_overrides apply_typed_overrides parse_with_hint parse_bool py_int
    int_signed int_digits args_to_map args_entries args_entry env_to_map env_entries env_entry
    set_path put_field get_field str_eq split_str split_from lower starts_with remove_prefix
    is_valid_env_name deploy_env_var_name partition strip split resolve_deploy_env dir_of Dict.get
    Dict.put
run_sources o = load_sources yaml_files no_float o env

abbrev sample : Loading
sample = loading_of (load_sources yaml_files no_float opts env)

abbrev sample_plain : Loading
sample_plain = loading_of (load_sources yaml_files no_float (record opts { args = [] }) env)

sample-loaded : load_sources yaml_files no_float opts env ≡ ok sample
unfolding run_sources
sample-loaded = refl

sample_plain-loaded :
    load_sources yaml_files no_float (record opts { args = [] }) env ≡ ok sample_plain
unfolding run_sources
sample_plain-loaded = refl

sample_port : get_path (dict sample.merged) db_port ≡ some (int (pos 27))
unfolding run_sources get_path
sample_port = refl

load_flags_win_example :
    get_path (dict sample.merged) db_port
    ≡ some (parse_with_hint no_float (get_path (dict sample_plain.merged) db_port) (codes "27"))
load_flags_win_example =
    load_flags_win yaml_files no_float opts env sample sample-loaded sample_plain db_port
      (codes "27") sample_plain-loaded (unfold run_sources get_path in refl)

-- The files alone, with an environment that names none of the keys.
abbrev bare : Dict Str
bare = (codes "PATH", codes "/bin") ∷ []

abbrev sample_files : Loading
sample_files = loading_of (load_sources yaml_files no_float (record opts { args = [] }) bare)

validate_required_iff_example :
    (validate_required base_map (codes "DB.uri" ∷ []) ≡ ok tt)
    ↔ All (IsPresent base_map) (codes "DB.uri" ∷ [])
validate_required_iff_example = validate_required_iff base_map (codes "DB.uri" ∷ [])

abbrev env_sources : Dict Str
env_sources = (codes "db.uri", codes "env") ∷ []

validate_sensitive_sources-IsSafe_example :
    All (IsSafe env_sources (codes "URI" ∷ [])) (flatten_map [] [] base_map)
validate_sensitive_sources-IsSafe_example =
    validate_sensitive_sources-IsSafe base_map env_sources (codes "URI" ∷ []) (
      unfold validate_sensitive_sources validate_sensitive_entries validate_sensitive_entry
        flatten_map is_sensitive_path is_empty_value is_placeholder is_placeholder_text str_eq
        contains starts_with lower strip Dict.get Dict.put Dict.update in
      refl)

abbrev fields_of : Result Exc Fields → Fields
fields_of (ok fs) = fs
fields_of (err x) = end

mask_map-Hidden_example : Hidden (word "***")
mask_map-Hidden_example =
    mask_map-Hidden base_map (fields_of (mask_map base_map (codes "uri" ∷ []))) (codes "uri" ∷ [])
      (codes "db") (codes "uri" ∷ []) (word "***")
      (unfold mask_map mask_fields mask_uri is_sensitive_path contains starts_with lower in refl)
      (unfold mask_map mask_fields mask_uri is_sensitive_path contains starts_with lower get_path
          get_field str_eq in
        refl)
      (unfold is_sensitive_path contains starts_with lower join in refl)

mask_uri_run :
    (mask_uri (codes "mongodb://u:p@h") ≡ ok (codes "mongodb://u:***@h"))
    × (mask_uri (codes "plain") ≡ ok (codes "plain"))
unfolding mask_uri contains starts_with split_once partition
mask_uri_run = (refl, refl)
