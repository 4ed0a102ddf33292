-- ===== src/Model/Audit.antt =====
-- The audit records of src/core_py/model/audit.py and the functions on them of
-- src/core_py/model/options.py. An entity has the parts whose methods it offers; `now` is the
-- reading of the clock in a setter.
use core_py.Base.{
  ℕ, Bool, true, false, not, Option, none, some, if◌then◌else◌, Result, ok, err, ◌==◌,
}
use core_py.Base.Text.{Str, codes, str_eq}
use core_py.Context.{Var, get_operator, get_tenant_id, get_app_id}
use core_py.Data.{Kind, new_validate_error}
use core_py.Model.RepoOpt.{RepoOpt, new_repo_opt, update_run_context_always}

-- `CreateAudit`, `UpdateAudit` and `DeleteAudit`, and their variants in milliseconds: who and when.
pub record Stamp : Type 0 where
  pub at : Option ℕ
  pub by : Str

pub record TenantAudit : Type 0 where
  pub tenant_id : Str
  pub app_id : Str

pub record Entity : Type 0 where
  pub created : Option Stamp
  pub updated : Option Stamp
  pub deleted : Option Stamp
  pub tenant : Option TenantAudit

unfoldable pub set_creator : Str → ℕ → Stamp → Stamp
set_creator user now s = record { at = some now; by = user }

unfoldable pub set_updater : Str → ℕ → Stamp → Stamp
set_updater user now s = record { at = some now; by = user }

unfoldable pub set_deleter : Str → ℕ → Stamp → Stamp
set_deleter user now s = record { at = some now; by = user }

-- `_missing_context_error`
unfoldable pub missing_context_error : Str → Kind
missing_context_error message = new_validate_error message

-- A step on the entity: what it raises, with the entity as it leaves it.
abbrev pub Step : Type 0
Step = Entity → Result Kind (Unit {0}) × Entity

-- `if not ok: raise …`, or the rest with the value.
abbrev pub with_value : Str × Bool → Str → (Str → Step) → Step
with_value (v, false) message k e = (err (missing_context_error message), e)
with_value (v, true) message k e = k v e

abbrev pub and_then : Result Kind (Unit {0}) × Entity → Step → Result Kind (Unit {0}) × Entity
and_then (err x, e) k = (err x, e)
and_then (ok u, e) k = k e

abbrev pub no_user : Str
no_user = codes "there is no user in context"

abbrev pub stamp_update : Option Stamp → Var → ℕ → Step
stamp_update none s now e = (ok tt, e)
stamp_update (some u) s now e =
    with_value (get_operator s) no_user
      (λ user e. (ok tt, record e { updated = some (set_updater user now u) })) e

unfoldable pub update_audit : Var → ℕ → Step
unfolding set_updater missing_context_error
update_audit s now e = stamp_update e.updated s now e

unfoldable pub update_audit_and_env : Var → ℕ → Step
unfolding update_audit
update_audit_and_env s now e = update_audit s now e

abbrev pub stamp_create : Option Stamp → Var → ℕ → Step
stamp_create none s now e = (ok tt, e)
stamp_create (some c) s now e =
    with_value (get_operator s) no_user
      (λ user e. (ok tt, record e { created = some (set_creator user now c) })) e

abbrev pub stamp_tenant : Option TenantAudit → Var → Step
stamp_tenant none s e = (ok tt, e)
stamp_tenant (some t) s e =
    with_value (get_tenant_id s) (codes "there is no tenantid in context")
      (λ tenant_id e.
        with_value (get_app_id s) (codes "there is no appid in context")
          (λ app_id e.
            (ok tt, record e { tenant = some (record { tenant_id = tenant_id; app_id = app_id }) }))
          e)
      e

-- `now` and `later` are the readings of the two setters.
unfoldable pub create_audit : Var → ℕ → ℕ → Step
unfolding set_creator update_audit missing_context_error
create_audit s now later e =
    and_then (and_then (stamp_create e.created s now e) (λ e. stamp_tenant e.tenant s e))
      (update_audit s later)

abbrev pub mark_deleted : ℕ → Stamp → Str × Bool → Entity → Result Kind Bool × Entity
mark_deleted now d (user, false) e = (err (missing_context_error no_user), e)
mark_deleted now d (user, true) e = (ok true, record e { deleted = some (set_deleter user now d) })

abbrev pub stamp_delete : Option Stamp → Var → ℕ → Entity → Result Kind Bool × Entity
stamp_delete none s now e = (ok false, e)
stamp_delete (some d) s now e = mark_deleted now d (get_operator s) e

unfoldable pub delete_audit : Var → ℕ → Entity → Result Kind Bool × Entity
unfolding set_deleter missing_context_error
delete_audit s now e = stamp_delete e.deleted s now e

-- `update_lock_and_audit`: the update time before the update, for the optimistic lock.
pub record UpdatesResult : Type 0 where
  pub has_original_update : Bool
  pub original_updated_at : Option ℕ

abbrev pub update_time_raw : Option Stamp → Option ℕ
update_time_raw none = none
update_time_raw (some u) = u.at

abbrev pub is_time : Option ℕ → Bool
is_time none = false
is_time (some n) = not (n == 0)

abbrev pub lock_result :
    Option ℕ → Result Kind (Unit {0}) × Entity → Result Kind UpdatesResult × Entity
lock_result original (err x, e) = (err x, e)
lock_result original (ok u, e) =
    (ok (record { has_original_update = is_time original; original_updated_at = original }), e)

abbrev pub opt_or_new : Option RepoOpt → RepoOpt
opt_or_new none = new_repo_opt
opt_or_new (some o) = o

unfoldable pub update_lock_and_audit :
    Var → ℕ → Option RepoOpt → Entity → Result Kind UpdatesResult × Entity
unfolding update_audit update_audit_and_env
update_lock_and_audit s now opt e = lock_result (update_time_raw e.updated) (
    if str_eq (opt_or_new opt).update_run_context update_run_context_always
    then update_audit_and_env s now e
    else update_audit s now e)

-- `get_creator_info`, `get_update_info` and `get_delete_info`; the second form is that of the
-- variants in milliseconds, where a time of 0 is none.
unfoldable pub stamp_info : Stamp → Str × Option ℕ
stamp_info s = (s.by, s.at)

abbrev set_time : Option ℕ → Option ℕ
set_time none = none
set_time (some n) = if n == 0 then none else some n

unfoldable pub stamp_info_ms : Stamp → Str × Option ℕ
stamp_info_ms s = (s.by, set_time s.at)
