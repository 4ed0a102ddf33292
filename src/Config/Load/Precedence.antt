-- ===== src/Config/Load/Precedence.antt =====
-- `load` of src/core_py/config.py: the order of the sources.
use core_py.Base.{
  ◌≡◌, refl, sym, ◌∙◌, subst, false, Option, some, List, [], ◌∷◌, ◌++◌, ℕ, ok, bind-eq-ok, ok_inj,
  some_inj,
}
use core_py.Base.Text.{Str, codes}
use core_py.Base.Dict.{Dict}
use core_py.Config.Value.{Value, text, dict, Fields, end, field, get_field, HasKeys, is_dict}
use core_py.Config.Maps.{get_path}
use core_py.Config.Maps.Merge.{merge_maps_wins}
use core_py.Config.Parse.{
  deploy_env_var_name, env_to_map, args_entries, args_to_map, parse_with_hint,
}
use core_py.Config.Parse.Typed.{typed-HasKeys, typed_text, parse_with_hint-Scalar, Scalar}
use core_py.Config.Load.{
  Options, Loading, YamlFile, new_loading, dir_of, resolve_deploy_env, add_file,
  load_config_if_exists, load_env_file, add_overrides, load_sources,
}
use core_py.Config.Load.Sources.{
  load_config-IsWellFormed, load_env-IsWellFormed, add_file-HasKeys, args_to_map-HasKeys,
}

Scalar-not_dict : (v : Value) → Scalar v → is_dict v ≡ false
Scalar-not_dict (dict fs) h = absurd h
Scalar-not_dict _ h = refl

no_text : (p : List Str) (t : Str) → get_path (dict end) p ≡ some (text t) → ⊥
unfolding get_path get_field
no_text [] t e = cc (some_inj e)
no_text (n ∷ p) t e = cc

HasKeys-end : HasKeys end
unfolding HasKeys
HasKeys-end = tt

module _ (py_float : Str → Option ℕ) where
  add_overrides_wins :
      (name : Str) (fs : Fields) (l : Loading) (p : List Str) (t : Str)
      → HasKeys fs
      → get_path (dict fs) p ≡ some (text t)
      → get_path (dict (add_overrides py_float name fs l).merged) p
        ≡ some (parse_with_hint py_float (get_path (dict l.merged) p) t)
  unfolding add_overrides
  add_overrides_wins name end l p t h e = absurd (no_text p t e)
  add_overrides_wins name (field k v fs) l p t h e =
      merge_maps_wins l.merged _ p _
        (typed-HasKeys py_float (field k v fs) end l.merged h HasKeys-end)
        (Scalar-not_dict _ (parse_with_hint-Scalar py_float _ t))
        (typed_text py_float p t l.merged (field k v fs) h e)

-- What `load_sources` returns, from the files that it read.
record Loads {ℓ} {A : Type ℓ} (read : Str → YamlFile) (py_float : Str → Option ℕ) (opts : Options A)
    (env : Dict Str) (l : Loading) : Type 0 where
  files : Loading
  files_keys : HasKeys files.merged
  env_map : Fields
  env_map_is : env_map ≡ env_to_map opts.env_prefix opts.env_separator opts.deploy_env_key env
  files_only :
      (bare : Dict Str)
      → env_to_map opts.env_prefix opts.env_separator opts.deploy_env_key bare ≡ end
      → (let var = deploy_env_var_name opts.env_prefix opts.env_separator opts.deploy_env_key in
          resolve_deploy_env var bare ≡ resolve_deploy_env var env)
      → load_sources read py_float (record opts { args = [] }) bare ≡ ok files
  without_flags :
      load_sources read py_float (record opts { args = [] }) env
      ≡ ok (add_overrides py_float (codes "env") env_map files)
  is_loaded :
      l
      ≡ add_overrides py_float
          (codes "flags")
          (args_to_map opts.args)
          (add_overrides py_float (codes "env") env_map files)

module _ {ℓ} {A : Type ℓ} (read : Str → YamlFile) (py_float : Str → Option ℕ) (opts : Options A)
    (env : Dict Str) (l : Loading) (e : load_sources read py_float opts env ≡ ok l) where
  loads : Loads read py_float opts env l
  unfolding load_sources args_to_map args_entries add_overrides
  loads =
      let base = dir_of opts.default_config_path in
      let var = deploy_env_var_name opts.env_prefix opts.env_separator opts.deploy_env_key in
      let name = resolve_deploy_env var env in
      let local_path = base ++ codes "config.local.yaml" in
      let (d, ed, e1) = bind-eq-ok (load_config_if_exists read opts.default_config_path) _ e in
      let (f, ef, e2) = bind-eq-ok (load_env_file read base name) _ e1 in
      let (c, ec, e3) = bind-eq-ok (load_config_if_exists read local_path) _ e2 in
      let l1 = add_file (codes "default") d new_loading in
      let l2 = add_file (codes "env-file") f l1 in
      record {
        files = add_file (codes "local") c l2;
        files_keys =
            add_file-HasKeys (codes "local") c l2 (load_config-IsWellFormed read local_path c ec) (
              add_file-HasKeys (codes "env-file") f l1 (load_env-IsWellFormed read base name f ef) (
                add_file-HasKeys (codes "default") d new_loading
                  (load_config-IsWellFormed read opts.default_config_path d ed) HasKeys-end));
        env_map = env_to_map opts.env_prefix opts.env_separator opts.deploy_env_key env;
        env_map_is = refl;
        files_only = λ bare none_set same. rw (none_set, same) (rw ed (rw ef (rw ec)));
        without_flags = rw ed (rw ef (rw ec));
        is_loaded = sym (ok_inj e3);
      }

  -- A flag decides its path: the merged map has there the text of the flag, read with the hint
  -- that loading the same sources with no flags leaves at the path.
  pub load_flags_win :
      (before : Loading) (p : List Str) (t : Str)
      → load_sources read py_float (record opts { args = [] }) env ≡ ok before
      → get_path (dict (args_to_map opts.args)) p ≡ some (text t)
      → get_path (dict l.merged) p
        ≡ some (parse_with_hint py_float (get_path (dict before.merged) p) t)
  load_flags_win before p t plain found =
      let loaded = add_overrides py_float (codes "env") loads.env_map loads.files in
      let same = ok_inj (sym loads.without_flags ∙ plain) in
      subst
        (λ x.
          get_path (dict l.merged) p
          ≡ some (parse_with_hint py_float (get_path (dict x.merged) p) t))
        same
        (subst
          (λ x.
            get_path (dict x.merged) p
            ≡ some (parse_with_hint py_float (get_path (dict loaded.merged) p) t))
          (sym loads.is_loaded)
          (add_overrides_wins py_float (codes "flags") (args_to_map opts.args) loaded p t
            (args_to_map-HasKeys opts.args) found))
