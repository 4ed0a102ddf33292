-- ===== src/Config/Load.antt =====
-- `load` of src/core_py/config.py, with `model=None` decoded by a given function.
pub mod Sources
pub mod Precedence
use core_py.Base.{
  ℕ, Bool, true, false, not, Option, none, some, List, [], ◌∷◌, ◌++◌, ◌||◌, ◌^◌, ◌==◌, ltb,
  if◌then◌else◌, Result, ok, err, ◌>>=◌, ◌>>◌,
}
use core_py.Base.Text.{Str, codes, is_empty, str_eq, strip, lower}
use core_py.Base.Int.{ℤ, pos, negsuc}
use core_py.Base.Dict
use core_py.Base.Dict.{Dict}
use core_py.Config.Value.{
  Value, null, bool, int, float, text, arr, dict, nil, cons, Fields, end, field,
}
use core_py.Config.Maps.{normalize_map, merge_maps, record_sources, flatten_map}
use core_py.Config.Parse.{
  deploy_env_var_name, env_to_map, args_to_map, apply_typed_overrides, parse_with_hint,
}
use core_py.Config.Checks.{
  Exc, not_mapping, is_empty_value, validate_required, validate_sensitive_sources, mask_map,
}

pub record Options {ℓ} (A : Type ℓ) : Type ℓ where
  pub default_config_path : Str
  pub env_prefix : Str
  pub env_separator : Str
  pub deploy_env_key : Str
  pub args : List Str
  pub required_keys : List Str
  pub sensitive_keys : List Str
  pub validate_map : Fields → Result Exc (Unit {0})
  pub decode : Fields → Result Exc A
  pub validate_config : A → Result Exc (Unit {0})

pub record Meta : Type 0 where
  pub sources : List Str
  pub hash : Str
  pub summary : Fields

-- What the loader works on: the map so far, the source of each path, the sources in order.
pub record Loading : Type 0 where
  pub merged : Fields
  pub source_map : Dict Str
  pub sources : List Str

-- What `yaml.safe_load` gives for a path.
pub data YamlFile : Type 0 where
  missing : YamlFile
  broken : Exc → YamlFile
  loaded : Value → YamlFile

-- `not raw`
unfoldable pub is_falsy : Value → Bool
is_falsy null = true
is_falsy (bool b) = not b
is_falsy (int n) = elim n [ pos m ↦ m == 0 | negsuc _ ↦ false ]
is_falsy (float x) = x == 0 || x == 2 ^ 63
is_falsy (text t) = is_empty t
is_falsy (arr nil) = true
is_falsy (arr (cons _ _)) = false
is_falsy (dict end) = true
is_falsy (dict (field _ _ _)) = false

-- `raw = yaml.safe_load(f) or {}`, which has to be a mapping
unfoldable pub loaded_map : Str → Value → Result Exc (Option Fields)
unfolding is_falsy
loaded_map path (dict fs) = ok (some (normalize_map end fs))
loaded_map path v = if is_falsy v then ok (some end) else err (not_mapping path)

-- The directory of a path, with its slash: `Path(path).parent / name` is `dir_of path ++ name`.
unfoldable pub dir_of : Str → Str
dir_of [] = []
dir_of (c ∷ s) =
    let rest = dir_of s in if c == b'/' then c ∷ rest else if is_empty rest then [] else c ∷ rest

-- The order of `sorted` on texts: by code points.
unfoldable pub str_leb : Str → Str → Bool
str_leb [] b = true
str_leb (x ∷ a) [] = false
str_leb (x ∷ a) (y ∷ b) = let rest = str_leb a b in if x == y then rest else ltb x y

unfoldable pub insert_key {ℓ} : {V : Type ℓ} → Str → V → Dict V → Dict V
insert_key k v [] = (k, v) ∷ []
insert_key k v ((j, w) ∷ d) =
    let rest = insert_key k v d in if str_leb k j then (k, v) ∷ (j, w) ∷ d else (j, w) ∷ rest

unfoldable pub sort_keys {ℓ} : {V : Type ℓ} → Dict V → Dict V
sort_keys [] = []
sort_keys ((k, v) ∷ d) = insert_key k v (sort_keys d)

abbrev pub new_loading : Loading
new_loading = record { merged = end; source_map = []; sources = [] }

-- What each source does: `given` is its own map, `typed` what is merged.
unfoldable pub add_source : Str → Fields → Fields → Loading → Loading
add_source name given typed l = record {
  merged = merge_maps l.merged typed;
  source_map = record_sources l.source_map name [] given;
  sources = l.sources ++ name ∷ [];
}

unfoldable pub add_file : Str → Option Fields → Loading → Loading
unfolding add_source
add_file name none l = l
add_file name (some fs) l = add_source name fs fs l

abbrev deploy_env_of : Option Str → Str
deploy_env_of none = []
deploy_env_of (some v) = strip v

unfoldable pub resolve_deploy_env : Str → Dict Str → Str
resolve_deploy_env var env = if is_empty var then [] else deploy_env_of (Dict.get var env)

-- The file system with the YAML reader.
module _ (read : Str → YamlFile) where
  unfoldable pub load_config_if_exists : Str → Result Exc (Option Fields)
  load_config_if_exists path =
      if is_empty path
      then ok none
      else elim (read path) [ missing ↦ ok none | broken e ↦ err e | loaded v ↦ loaded_map path v ]

  unfoldable pub load_env_file : Str → Str → Result Exc (Option Fields)
  load_env_file base deploy_env =
      if is_empty deploy_env
      then ok none
      else load_config_if_exists (base ++ (codes "config." ++ (lower deploy_env ++ codes ".yaml")))

-- The built-in `float` on a text.
module _ (py_float : Str → Option ℕ) where
  unfoldable pub add_overrides : Str → Fields → Loading → Loading
  unfolding add_source
  add_overrides name end l = l
  add_overrides name (field k v fs) l =
      add_source name (field k v fs) (apply_typed_overrides py_float end l.merged (field k v fs)) l

-- All the sources, in the order of `load`.
module _ (read : Str → YamlFile) (py_float : Str → Option ℕ) where
  unfoldable pub load_sources {ℓ} : {A : Type ℓ} → Options A → Dict Str → Result Exc Loading
  unfolding add_file add_overrides
  load_sources opts env = do
    let base = dir_of opts.default_config_path
    default ← load_config_if_exists read opts.default_config_path
    env_file ← load_env_file read base (
        resolve_deploy_env
          (deploy_env_var_name opts.env_prefix opts.env_separator opts.deploy_env_key) env)
    local ← load_config_if_exists read (base ++ codes "config.local.yaml")
    let files =
        add_file (codes "local") local
          (add_file (codes "env-file") env_file (add_file (codes "default") default new_loading))
    let with_env =
        add_overrides py_float (codes "env")
          (env_to_map opts.env_prefix opts.env_separator opts.deploy_env_key env) files
    ok (add_overrides py_float (codes "flags") (args_to_map opts.args) with_env)

-- `str` on a value, and SHA-256 in hexadecimal.
module _ (show : Value → Str) (sha256_hex : Str → Str) where
  unfoldable pub hash_lines : Dict Value → Str
  hash_lines [] = []
  hash_lines ((k, v) ∷ d) = k ++ (codes "=" ++ (show v ++ (codes "\n" ++ hash_lines d)))

  unfoldable pub hash_map : Fields → Str
  hash_map fs = sha256_hex (hash_lines (sort_keys (flatten_map [] [] fs)))

module _ (read : Str → YamlFile) (py_float : Str → Option ℕ) (show : Value → Str)
    (sha256_hex : Str → Str) where
  unfoldable pub load {ℓ} : {A : Type ℓ} → Options A → Dict Str → Result Exc (A × Meta)
  load opts env = do
    l ← load_sources read py_float opts env
    validate_required l.merged opts.required_keys
    validate_sensitive_sources l.merged l.source_map opts.sensitive_keys
    opts.validate_map l.merged
    summary ← mask_map l.merged opts.sensitive_keys
    out ← opts.decode l.merged
    opts.validate_config out
    ok (
      out,
      record { sources = l.sources; hash = hash_map show sha256_hex l.merged; summary = summary },
    )
