-- ===== src/Model/Stamps.antt =====
-- What the audit functions of src/core_py/model/options.py leave in an entity.
use core_py.Base.{ℕ, true, false, Option, none, some, ok, err, ◌≡◌, refl, if_both, ap, ◌∙◌}
use core_py.Base.Text.{Str, str_eq}
use core_py.Context.{Var, get_operator, get_tenant_id, get_app_id}
use core_py.Model.RepoOpt.{RepoOpt, update_run_context_always}
use core_py.Model.Audit.{
  Stamp, TenantAudit, Entity, create_audit, update_audit, update_audit_and_env,
  update_lock_and_audit, set_creator, set_updater, stamp_update, stamp_create, stamp_tenant,
  and_then, is_time, update_time_raw, lock_result, opt_or_new, missing_context_error, no_user,
}

-- A part that is there gets the new value.
abbrev pub replaced {ℓ} : {A : Type ℓ} → A → Option A → Option A
replaced x none = none
replaced x (some y) = some x

abbrev pub stamp : Str → ℕ → Stamp
stamp user now = record { at = some now; by = user }

module _ (s : Var) (user tenant_id app_id : Str) (operator : get_operator s ≡ (user, true)) where
  stamp_update-eq :
      (o : Option Stamp) (now : ℕ) (e : Entity)
      → e.updated ≡ o
      → stamp_update o s now e ≡ (ok tt, record e { updated = replaced (stamp user now) o })
  unfolding set_updater
  stamp_update-eq none now e h = ap (λ u. (ok tt, record e { updated = u })) h
  stamp_update-eq (some u) now e h = rw operator

  stamp_create-eq :
      (o : Option Stamp) (now : ℕ) (e : Entity)
      → e.created ≡ o
      → stamp_create o s now e ≡ (ok tt, record e { created = replaced (stamp user now) o })
  unfolding set_creator
  stamp_create-eq none now e h = ap (λ c. (ok tt, record e { created = c })) h
  stamp_create-eq (some c) now e h = rw operator

  stamp_tenant-eq :
      (o : Option TenantAudit) (e : Entity)
      → get_tenant_id s ≡ (tenant_id, true)
      → get_app_id s ≡ (app_id, true)
      → e.tenant ≡ o
      → stamp_tenant o s e ≡ (
        ok tt,
        record e { tenant = replaced (record { tenant_id = tenant_id; app_id = app_id }) o },
      )
  stamp_tenant-eq none e h k f = ap (λ t. (ok tt, record e { tenant = t })) f
  stamp_tenant-eq (some t) e h k f = rw (h, k)

  update_audit-eq :
      (now : ℕ) (e : Entity)
      → update_audit s now e ≡ (ok tt, record e { updated = replaced (stamp user now) e.updated })
  unfolding update_audit
  update_audit-eq now e = stamp_update-eq e.updated now e refl

  -- With an operator, a tenant and an app in the context, `create_audit` stamps the creator and the
  -- updater with the operator and the times, and puts the tenant and the app in: each where the
  -- entity has that part, and nothing else changes.
  pub create_audit_lem :
      (now later : ℕ) (e : Entity)
      → get_tenant_id s ≡ (tenant_id, true)
      → get_app_id s ≡ (app_id, true)
      → create_audit s now later e ≡ (
        ok tt,
        record {
          created = replaced (stamp user now) e.created;
          updated = replaced (stamp user later) e.updated;
          deleted = e.deleted;
          tenant = replaced (record { tenant_id = tenant_id; app_id = app_id }) e.tenant;
        },
      )
  unfolding create_audit
  create_audit_lem now later e h k =
      let made = record e { created = replaced (stamp user now) e.created } in
      let tenanted = record made {
        tenant = replaced (record { tenant_id = tenant_id; app_id = app_id }) e.tenant;
      } in
      ap (λ r. and_then (and_then r (λ e. stamp_tenant e.tenant s e)) (update_audit s later))
        (stamp_create-eq e.created now e refl)
      ∙ (ap (λ r. and_then r (update_audit s later)) (stamp_tenant-eq e.tenant made h k refl)
          ∙ update_audit-eq later tenanted)

  -- With an operator in the context, `update_lock_and_audit` returns the update time from before
  -- the update, under every option, and stamps the updater where the entity has that part.
  pub update_lock_and_audit_lem :
      (now : ℕ) (opt : Option RepoOpt) (e : Entity)
      → update_lock_and_audit s now opt e ≡ (
        ok (record {
          has_original_update = is_time (update_time_raw e.updated);
          original_updated_at = update_time_raw e.updated;
        }),
        record e { updated = replaced (stamp user now) e.updated },
      )
  unfolding update_lock_and_audit update_audit_and_env
  update_lock_and_audit_lem now opt e =
      if_both
        (λ r. lock_result (update_time_raw e.updated) r ≡ (
          ok (record {
            has_original_update = is_time (update_time_raw e.updated);
            original_updated_at = update_time_raw e.updated;
          }),
          record e { updated = replaced (stamp user now) e.updated },
        ))
        (str_eq ((opt_or_new opt).update_run_context) update_run_context_always)
        (rw (update_audit-eq now e)) (rw (update_audit-eq now e))

-- Without an operator in the context, `create_audit` of an entity with a creator raises the missing
-- user's error, and leaves the entity as it is.
pub create_audit-missing :
    (s : Var) (user : Str) (now later : ℕ) (e : Entity) (c : Stamp)
    → get_operator s ≡ (user, false)
    → e.created ≡ some c
    → create_audit s now later e ≡ (err (missing_context_error no_user), e)
unfolding create_audit
create_audit-missing s user now later e c missing has = rw (has, missing)
