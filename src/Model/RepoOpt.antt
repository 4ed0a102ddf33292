-- ===== src/Model/RepoOpt.antt =====
-- `RepoOpt` and its constants, of src/core_py/model/options.py.
use mathlib.Core.List.{[]}
use core_py.Base.Text.{Str, codes}

pub record RepoOpt : Type 0 where
  pub deploy_isolation : Str
  pub data_isolation : Str
  pub update_run_context : Str
  pub try_fix_sync_delay : Str
  pub soft_delete : Str

abbrev pub new_repo_opt : RepoOpt
new_repo_opt = record {
  deploy_isolation = [];
  data_isolation = [];
  update_run_context = [];
  try_fix_sync_delay = [];
  soft_delete = [];
}

abbrev pub ctx_key_repo_opt : Str
ctx_key_repo_opt = codes "repo-opt"

abbrev pub fixed_strategy_backoff : Str
fixed_strategy_backoff = codes "backoff"

abbrev pub update_run_context_always : Str
update_run_context_always = codes "always"

abbrev pub data_isolation_tenant : Str
data_isolation_tenant = codes "tenant"

abbrev pub data_isolation_user : Str
data_isolation_user = codes "user"

abbrev pub data_isolation_app : Str
data_isolation_app = codes "app"

abbrev pub soft_delete_disable : Str
soft_delete_disable = codes "disable"
