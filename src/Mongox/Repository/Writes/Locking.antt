-- ===== src/Mongox/Repository/Writes/Locking.antt =====
-- The optimistic lock of `update` in src/core_py/model/mongox/repository.py.
use core_py.Base.{
  ℕ, suc, true, false, ◌&&◌, if◌then◌else◌, some, [], ◌==◌, Result, ok, err, ◌≡◌, ap, ◌∙◌,
  Bool-cases, ok_inj, inl, inr,
}
use core_py.Base.Text.{Str, codes}
use core_py.Context.{get_operator}
use core_py.Data.{Kind, new_resource_not_found_error}
use core_py.Model.Audit.{Entity, update_lock_and_audit, update_time_raw}
use core_py.Model.Stamps.{update_lock_and_audit_lem, replaced, stamp}
use core_py.Mongox.Value.{Fields, end, field, has_field, put_field, remove_field}
use core_py.Mongox.Codec.{to_document}
use core_py.Mongox.Act.{known, after, lift, UpdateResult, Collection, Env}
use core_py.Mongox.Repository.{
  Repository, id_key, get_merged_repo_opt, inject_cond, resource_by_filter,
}
use core_py.Mongox.Repository.Writes.{
  base_update_filter, audit_and_build_replace_filter, common_replace, update, stamped,
  with_original, modified_by_other, locking_failed, document, replace_by,
}

abbrev pub none_matched : UpdateResult
none_matched = record { matched_count = 0; modified_count = 0; upserted = false }

-- What is relied on of a collection: `replace_one` replaces a document that the filter matches, if
-- there is one, and else nothing; `changed` says how many documents it modified.
pub record Replaces {ℓ} {σ : Type ℓ} (c : Collection σ) (count : Fields → σ → ℕ)
    (changed : Fields → Fields → σ → ℕ) (replace : Fields → Fields → σ → σ) : Type ℓ where
  pub counts : (f : Fields) (s : σ) → c.count_documents f s ≡ (ok (count f s), s)
  pub misses :
      (f p : Fields) (s : σ) → count f s ≡ 0 → c.replace_one f p false s ≡ (ok none_matched, s)
  pub hits :
      (f p : Fields) (s : σ) (n : ℕ)
      → count f s ≡ suc n
      → c.replace_one f p false s ≡ (
        ok (record { matched_count = 1; modified_count = changed f p s; upserted = false }),
        replace f p s,
      )

module _ {ℓ κ} {σ : Type ℓ} {T : Type κ} (r : Repository σ T) (env : Env) (d : T) (user : Str)
    (t : ℕ) (operator : get_operator env.ctx ≡ (user, true))
    (time : update_time_raw (r.entity.audit_of d).updated ≡ some t)
    (nonzero : (t == 0) ≡ false) where
  -- The document with the new updater and time.
  abbrev pub restamped : T
  restamped =
      let e = r.entity.audit_of d in
      r.entity.with_audit (record e { updated = replaced (stamp user env.now) e.updated }) d

  -- The id and the update time from before.
  abbrev pub version_filter : Fields
  version_filter =
      put_field (codes "updated_at") (r.entity.time t)
        (field id_key (r.entity.get_id restamped) end)

  stamped-eq {μ} :
      {A : Type μ} (f : Entity → Result Kind A × Entity) (s : σ) (a : A) (e : Entity)
      → f (r.entity.audit_of d) ≡ (ok a, e)
      → stamped r f (s, d) ≡ (ok a, (s, r.entity.with_audit e d))
  stamped-eq f s a e h = rw h

  base_update_filter-eq :
      (s : σ) (g : Fields)
      → inject_cond r env version_filter ≡ ok g
      → base_update_filter r env (s, d) ≡ (ok g, (s, restamped))
  unfolding base_update_filter
  base_update_filter-eq s g injected =
      let opt = some (get_merged_repo_opt r env) in
      ap
        (λ m. after m (λ ret st.
          lift (inject_cond r env (with_original r ret (field id_key (r.entity.get_id st.1) end)))
            st))
        (stamped-eq (update_lock_and_audit env.ctx env.now opt) s _ _
          (update_lock_and_audit_lem env.ctx user [] [] operator env.now opt (r.entity.audit_of d)))
      ∙ rw (time, nonzero, injected)

  -- What `update` comes to, by how many documents the collection has with the document's id and
  -- the update time from before, in the scope of the context, and with the id alone. With one of
  -- that time it is replaced, and `update` returns unless the replacement modified nothing. With
  -- none, nothing is replaced: if a document with the id is there, a newer version, `update` raises
  -- the conflict, and if there is none, that it was not found.
  pub update-stale :
      (count : Fields → σ → ℕ) (changed : Fields → Fields → σ → ℕ)
      (replace : Fields → Fields → σ → σ) (store : Replaces r.collection count changed replace)
      (s : σ) (g p : Fields)
      → inject_cond r env version_filter ≡ ok g
      → document r restamped ≡ ok p
      → (count g s ≡ 0
          → update r env (s, d) ≡ (
            err (
                known (
                  if count (remove_field (codes "updated_at") g) s == 0
                  then new_resource_not_found_error (resource_by_filter r g)
                  else modified_by_other (resource_by_filter r g))),
            (s, restamped),
          ))
        × ((n : ℕ)
            → count g s ≡ suc n
            → update r env (s, d) ≡ (
              (if has_field (codes "updated_at") g && changed g p s == 0
                  then err (known (locking_failed (resource_by_filter r g)))
                  else ok tt),
              (replace g p s, restamped),
            ))
  unfolding update common_replace audit_and_build_replace_filter to_document
  update-stale count changed replace store s g p injected encoded =
      let left = remove_field (codes "updated_at") g in
      (
        λ none_left.
            ap (λ m. after m (replace_by r false)) (base_update_filter-eq s g injected)
            ∙ rw (store.misses g _ s none_left, store.counts left s)
                (elim (Bool-cases (count left s == 0)) [ inl e ↦ rw e | inr e ↦ rw e ]),
        λ n some_left.
            ap (λ m. after m (replace_by r false)) (base_update_filter-eq s g injected)
            ∙ rw (ok_inj encoded) (
                rw (store.hits g p s n some_left)
                  (elim (Bool-cases (has_field (codes "updated_at") g && changed g p s == 0)) [
                    | inl e ↦ rw e
                    | inr e ↦ rw e
                  ])),
      )
