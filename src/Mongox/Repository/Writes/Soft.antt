-- ===== src/Mongox/Repository/Writes/Soft.antt =====
-- Soft deletion in src/core_py/model/mongox/repository.py.
use core_py.Base.{ℕ, Bool, true, false, some, ok, ok_inj, ◌≡◌, sym, subst}
use core_py.Base.Text.{Str, str_eq}
use core_py.Context.{Var, get_operator}
use core_py.Model.RepoOpt.{soft_delete_disable}
use core_py.Model.Audit.{Stamp, Entity, delete_audit, mark_deleted, stamp_delete}
use core_py.Mongox.Value.{Fields}
use core_py.Mongox.Act.{after-cong, lift-eq-ok, Call, Env}
use core_py.Mongox.Repository.{Repository, get_merged_repo_opt, supports_delete_audit}
use core_py.Mongox.Repository.Writes.{update, stamped}
use core_py.Mongox.Repository.Writes.Changes.{delete, after_audit}
use core_py.Mongox.Repository.Writes.Batch.{batch_delete_by_filter}

abbrev pub with_deletes {ℓ κ} :
    {σ : Type ℓ} {T : Type κ}
    → (Fields → Call σ ℕ)
    → (Fields → Call σ ℕ)
    → Repository σ T
    → Repository σ T
with_deletes one many r = record r {
  collection = record r.collection { delete_one = one; delete_many = many };
}

mark_deleted-true :
    (now : ℕ) (stamp : Stamp) (p : Str × Bool) (e : Entity) {b : Bool}
    → (mark_deleted now stamp p e).0 ≡ ok b
    → b ≡ true
mark_deleted-true now stamp (user, true) e h = sym (ok_inj h)
mark_deleted-true now stamp (user, false) e h = absurd cc

delete_audit-true :
    (s : Var) (now : ℕ) (stamp : Stamp) (e : Entity) {b : Bool}
    → e.deleted ≡ some stamp
    → (delete_audit s now e).0 ≡ ok b
    → b ≡ true
unfolding delete_audit
delete_audit-true s now stamp e {b = b} has h =
    mark_deleted-true now stamp (get_operator s) e
      (subst (λ o. (stamp_delete o s now e).0 ≡ ok b) has h)

module _ {ℓ κ} {σ : Type ℓ} {T : Type κ} (r : Repository σ T) (env : Env)
    (one many : Fields → Call σ ℕ)
    (soft : str_eq (get_merged_repo_opt r env).soft_delete soft_delete_disable ≡ false) where
  -- With soft deletion, `delete` of a document that records its deletion and
  -- `batch_delete_by_filter` on a class that does never call the collection's `delete_one` and
  -- `delete_many`: whatever these do, the outcome is the same.
  pub soft_delete-keeps :
      (s : σ) (d : T) (stamp : Stamp) (filter : Fields)
      → (r.entity.audit_of d).deleted ≡ some stamp
      → supports_delete_audit r ≡ true
      → (delete (with_deletes one many r) env (s, d) ≡ delete r env (s, d))
        × (batch_delete_by_filter (with_deletes one many r) env filter s
            ≡ batch_delete_by_filter r env filter s)
  unfolding delete update batch_delete_by_filter delete_audit
  soft_delete-keeps s d stamp filter has supports = (
    after-cong (stamped r (delete_audit env.ctx env.now) (s, d))
        (λ b. after_audit (with_deletes one many r) env b) (λ b. after_audit r env b)
        (λ b st e.
          let yes : b ≡ true =
            delete_audit-true env.ctx env.now stamp (r.entity.audit_of d) has (lift-eq-ok _ _ e) in
          rw (yes, soft)),
    rw (supports, soft),
  )
