-- ===== src/Config/Load/Sources.antt =====
-- The sources of `load` in src/core_py/config.py: distinct keys, and which source decides a path.
use core_py.Base.{
  ◌≡◌, subst, ok_inj, ◌++◌, ◌||◌, ◌&&◌, all, map, Bool, true, false, not, Bool-cases, Option, none,
  some, List, [], ◌∷◌, inl, inr, ℕ, if◌then◌else◌, if_both, ok, err,
}
use core_py.Base.Text.{
  Str, codes, str_eq, is_empty, starts_with, remove_prefix, lower, strip, split, partition,
}
use core_py.Base.Text.Split.{split_str}
use core_py.Base.Dict.{Dict}
use core_py.Config.Value.{Value, text, dict, Fields, end, field, IsDict, HasKeys}
use core_py.Config.Maps.{set_path}
use core_py.Config.Maps.Distinct.{HasKeys-normalize_map, merge_maps-HasKeys, set_path-HasKeys}
use core_py.Config.Parse.{
  deploy_env_var_name, is_valid_env_name, env_entry, env_entries, env_to_map, args_entry,
  args_entries, args_to_map,
}
use core_py.Config.Parse.Typed.{typed-HasKeys}
use core_py.Config.Checks.{not_mapping}
use core_py.Config.Load.{
  Loading, YamlFile, missing, broken, loaded, is_falsy, loaded_map, load_env_file, add_file,
  load_config_if_exists, add_overrides,
}

-- A text under a path of a map keeps its keys distinct.
set_text : (fs : Fields) (p : List Str) (t : Str) → HasKeys fs → HasKeys (set_path fs p (text t))
set_text fs p t h = set_path-HasKeys fs p (text t) (unfold IsDict in tt) h

env_entry-HasKeys :
    (prefix sep deploy_key : Str) (ret : Fields) (key value : Str)
    → HasKeys ret
    → HasKeys (env_entry prefix sep deploy_key ret key value)
unfolding env_entry
env_entry-HasKeys prefix sep deploy_key ret key value h =
    let path = remove_prefix key (prefix ++ sep) in
    let nodes = split_str sep path in
    let deploy = lower prefix ∷ map lower (split_str sep deploy_key) in
    let is_deploy =
      not (is_empty deploy_key) && str_eq key (deploy_env_var_name prefix sep deploy_key) in
    let is_full = not (is_empty path) && all (λ n. not (is_empty n)) nodes in
    if_both HasKeys (not (starts_with key (prefix ++ sep))) h (
      if_both HasKeys (not (is_valid_env_name key)) h (
        if_both HasKeys is_deploy (set_text ret deploy value h)
          (if_both HasKeys is_full (set_text ret (map lower nodes) value h) h)))

env_entries-HasKeys :
    (prefix sep deploy_key : Str) (ret : Fields) (env : Dict Str)
    → HasKeys ret
    → HasKeys (env_entries prefix sep deploy_key ret env)
unfolding env_entries
env_entries-HasKeys prefix sep deploy_key ret [] h = h
env_entries-HasKeys prefix sep deploy_key ret ((key, value) ∷ env) h =
    env_entries-HasKeys prefix sep deploy_key (env_entry prefix sep deploy_key ret key value) env
      (env_entry-HasKeys prefix sep deploy_key ret key value h)

pub env_to_map-HasKeys :
    (prefix sep deploy_key : Str) (env : Dict Str) → HasKeys (env_to_map prefix sep deploy_key env)
unfolding env_to_map
env_to_map-HasKeys prefix sep deploy_key env =
    if_both HasKeys (is_empty prefix || is_empty sep) (unfold HasKeys in tt)
      (env_entries-HasKeys prefix sep deploy_key end env (unfold HasKeys in tt))

args_entry-HasKeys : (ret : Fields) (arg : Str) → HasKeys ret → HasKeys (args_entry ret arg)
unfolding args_entry
args_entry-HasKeys ret arg h =
    let (raw, found, value) = partition b'=' (remove_prefix arg (codes "--")) in
    let key = lower (strip raw) in
    if_both HasKeys (not (starts_with arg (codes "--"))) h
      (if_both HasKeys (found && not (is_empty key)) (set_text ret (split b'.' key) value h) h)

args_entries-HasKeys :
    (ret : Fields) (args : List Str) → HasKeys ret → HasKeys (args_entries ret args)
unfolding args_entries
args_entries-HasKeys ret [] h = h
args_entries-HasKeys ret (arg ∷ args) h =
    args_entries-HasKeys (args_entry ret arg) args (args_entry-HasKeys ret arg h)

pub args_to_map-HasKeys : (args : List Str) → HasKeys (args_to_map args)
unfolding args_to_map
args_to_map-HasKeys args = args_entries-HasKeys end args (unfold HasKeys in tt)

unfoldable pub IsWellFormed : Option Fields → Type 0
IsWellFormed none = Unit
IsWellFormed (some fs) = HasKeys fs

falsy-IsWellFormed :
    (b : Bool) (path : Str) (o : Option Fields)
    → (if b then ok (some end) else err (not_mapping path)) ≡ ok o
    → IsWellFormed o
unfolding IsWellFormed HasKeys
falsy-IsWellFormed true path o e = subst IsWellFormed (ok_inj e) tt
falsy-IsWellFormed false path o e = cc

loaded_map-IsWellFormed :
    (path : Str) (v : Value) (o : Option Fields) → loaded_map path v ≡ ok o → IsWellFormed o
unfolding loaded_map IsWellFormed
loaded_map-IsWellFormed path (dict fs) o e =
    subst IsWellFormed (ok_inj e) (HasKeys-normalize_map fs)
loaded_map-IsWellFormed path v o e = falsy-IsWellFormed (is_falsy v) path o e

module _ (read : Str → YamlFile) where
  read-IsWellFormed :
      (path : Str) (f : YamlFile) (o : Option Fields)
      → (elim f [ missing ↦ ok none | broken x ↦ err x | loaded v ↦ loaded_map path v ]) ≡ ok o
      → IsWellFormed o
  unfolding IsWellFormed
  read-IsWellFormed path missing o e = subst IsWellFormed (ok_inj e) tt
  read-IsWellFormed path (broken x) o e = cc
  read-IsWellFormed path (loaded v) o e = loaded_map-IsWellFormed path v o e

  pub load_config-IsWellFormed :
      (path : Str) (o : Option Fields) → load_config_if_exists read path ≡ ok o → IsWellFormed o
  unfolding load_config_if_exists
  load_config-IsWellFormed path o e = elim (Bool-cases (is_empty path)) [
    | inl none_given ↦ subst IsWellFormed (ok_inj (rw none_given at e)) (unfold IsWellFormed in tt)
    | inr given ↦ read-IsWellFormed path (read path) o (rw given at e)
  ]

  pub load_env-IsWellFormed :
      (base name : Str) (o : Option Fields) → load_env_file read base name ≡ ok o → IsWellFormed o
  unfolding load_env_file
  load_env-IsWellFormed base name o e = elim (Bool-cases (is_empty name)) [
    | inl none_given ↦ subst IsWellFormed (ok_inj (rw none_given at e)) (unfold IsWellFormed in tt)
    | inr given ↦ load_config-IsWellFormed _ o (rw given at e)
  ]

pub add_file-HasKeys :
    (name : Str) (o : Option Fields) (l : Loading)
    → IsWellFormed o
    → HasKeys l.merged
    → HasKeys (add_file name o l).merged
unfolding add_file IsWellFormed
add_file-HasKeys name none l w h = h
add_file-HasKeys name (some fs) l w h = merge_maps-HasKeys l.merged fs h w

module _ (py_float : Str → Option ℕ) where
  pub add_overrides-HasKeys :
      (name : Str) (fs : Fields) (l : Loading)
      → HasKeys fs
      → HasKeys l.merged
      → HasKeys (add_overrides py_float name fs l).merged
  unfolding add_overrides HasKeys
  add_overrides-HasKeys name end l w h = h
  add_overrides-HasKeys name (field k v fs) l w h =
      merge_maps-HasKeys l.merged _ h (typed-HasKeys py_float (field k v fs) end l.merged w tt)
