-- ===== src/Mongox/Repository/Writes/Scoped.antt =====
-- The writes of src/core_py/model/mongox/repository.py stay in scope: they reach the collection
-- only with filters that have the conditions of the scope.
use core_py.Base.{ℕ, Bool, true, false, ◌&&◌, some, if◌then◌else◌, ok, ◌≡◌, refl, ap, ◌∙◌}
use core_py.Base.Text.{Str}
use core_py.Base.Dict
use core_py.Context.{get_operator}
use core_py.Model.Audit.{delete_audit, update_lock_and_audit}
use core_py.Mongox.Value.{Value, dataclass, Fields, end, field, get_field}
use core_py.Mongox.Codec.{to_document}
use core_py.Mongox.Patch.{build_patch_payload}
use core_py.Mongox.Query.{PatchRawInput}
use core_py.Mongox.Act.{
  Act, after, after-eq-ok, after-cong, lift, lift-eq-ok, called, UpdateResult, Call, Collection,
  Env,
}
use core_py.Mongox.Repository.{
  Repository, id_key, get_merged_repo_opt, inject_cond, supports_delete_audit,
}
use core_py.Mongox.Repository.Scope.{demanded, inject_cond_lem}
use core_py.Mongox.Repository.Writes.{
  base_update_filter, audit_and_build_replace_filter, common_replace, update, stamped,
}
use core_py.Mongox.Repository.Writes.Changes.{
  patch, patch_raw, patch_payload, delete, update_with, set_update, patched, hard_delete,
  delete_matching,
}
use core_py.Mongox.Repository.Writes.Batch.{
  batch_delete_by_filter, soft_delete_many, hard_delete_many, soft_update,
}

-- The calls by which a repository changes documents that are there.
pub record Writers {ℓ} (σ : Type ℓ) : Type ℓ where
  pub replace_one : Fields → Fields → Bool → Call σ UpdateResult
  pub update_one : Fields → Fields → Call σ UpdateResult
  pub update_many : Fields → Fields → Call σ UpdateResult
  pub delete_one : Fields → Call σ ℕ
  pub delete_many : Fields → Call σ ℕ

abbrev pub with_writers {ℓ κ} :
    {σ : Type ℓ} {T : Type κ} → Writers σ → Repository σ T → Repository σ T
with_writers w r = record r {
  collection = record r.collection {
    replace_one = w.replace_one;
    update_one = w.update_one;
    update_many = w.update_many;
    delete_one = w.delete_one;
    delete_many = w.delete_many;
  };
}

-- Other calls that do what the collection's do, on filters with a condition.
pub record Agrees {ℓ} {σ : Type ℓ} (k : Str) (v : Value) (c : Collection σ) (w : Writers σ)
    : Type ℓ where
  pub replaces :
      (f p : Fields) (b : Bool) (s : σ)
      → get_field k f ≡ some v
      → w.replace_one f p b s ≡ c.replace_one f p b s
  pub updates_one :
      (f u : Fields) (s : σ) → get_field k f ≡ some v → w.update_one f u s ≡ c.update_one f u s
  pub updates_many :
      (f u : Fields) (s : σ) → get_field k f ≡ some v → w.update_many f u s ≡ c.update_many f u s
  pub deletes_one :
      (f : Fields) (s : σ) → get_field k f ≡ some v → w.delete_one f s ≡ c.delete_one f s
  pub deletes_many :
      (f : Fields) (s : σ) → get_field k f ≡ some v → w.delete_many f s ≡ c.delete_many f s

abbrev pub raw_input : Fields → Fields → Bool → PatchRawInput
raw_input filter payload is_many = record {
  filter = filter;
  patch_payload = payload;
  is_many = is_many;
  skip_inject_cond = false;
}

if-cong {ℓ κ} :
    {S : Type ℓ} {A : Type κ} (b : Bool) (x y z w : Act S A) (s : S)
    → x s ≡ y s
    → z s ≡ w s
    → (if b then x else z) s ≡ (if b then y else w) s
if-cong true x y z w s h k = h
if-cong false x y z w s h k = k

module _ {ℓ κ} {σ : Type ℓ} {T : Type κ} (r : Repository σ T) (env : Env) (k : Str) (v : Value)
    (demand : Dict.get k (demanded r env) ≡ some v) (w : Writers σ)
    (agrees : Agrees k v r.collection w) where
  inject_cond-has : (filter g : Fields) → inject_cond r env filter ≡ ok g → get_field k g ≡ some v
  inject_cond-has filter g h = inject_cond_lem r env filter g k h ∙ rw demand

  base_update_filter-has :
      (st st2 : σ × T) (g : Fields)
      → base_update_filter r env st ≡ (ok g, st2)
      → get_field k g ≡ some v
  unfolding base_update_filter
  base_update_filter-has st st2 g h =
      let locked = update_lock_and_audit env.ctx env.now (some (get_merged_repo_opt r env)) in
      let (ret, s1, e, h1) = after-eq-ok (stamped r locked st) _ h in
      inject_cond-has _ g (lift-eq-ok _ s1 h1)

  update-same : (st : σ × T) → update (with_writers w r) env st ≡ update r env st
  unfolding update common_replace audit_and_build_replace_filter base_update_filter to_document
  update-same st =
      after-cong (base_update_filter r env st) _ _
        (λ f s e. rw (agrees.replaces f _ false s.0 (base_update_filter-has st s f e)))

  patch_raw-same :
      (filter payload : Fields) (is_many : Bool) (s : σ)
      → patch_raw (with_writers w r) env (raw_input filter payload is_many) s
        ≡ patch_raw r env (raw_input filter payload is_many) s
  unfolding patch_raw
  patch_raw-same filter payload is_many s =
      after-cong (lift (inject_cond r env filter) s) _ _ (λ f s1 e.
        let has = inject_cond-has filter f (lift-eq-ok _ s e) in
        after-cong (lift (patch_payload r env payload) s1) _ _
          (λ p s2 e2. sent is_many f (set_update r p) s2 has))
    where
      sent :
          (is_many : Bool) (f u : Fields) (s : σ)
          → get_field k f ≡ some v
          → after
              (called (update_with (with_writers w r) is_many f u) s)
              (patched (with_writers w r) f)
            ≡ after (called (update_with r is_many f u) s) (patched r f)
      sent true f u s has = rw (agrees.updates_many f u s has)
      sent false f u s has = rw (agrees.updates_one f u s has)

  patch-same : (st : σ × T) → patch (with_writers w r) env st ≡ patch r env st
  unfolding patch patch_raw base_update_filter
  patch-same st = after-cong (base_update_filter r env st) _ _ (λ f s e.
      let has = base_update_filter-has st s f e in
      ap (λ m. (m.0, (m.1, s.1)))
        (after-cong
          (lift (patch_payload r env (build_patch_payload (dataclass (r.entity.attrs s.1)))) s.0) _
          _ (λ p s2 e2. rw (agrees.updates_one f (set_update r p) s2 has))))

  hard_delete-same : (st : σ × T) → hard_delete (with_writers w r) env st ≡ hard_delete r env st
  unfolding delete
  hard_delete-same (s, d) =
      after-cong (lift (inject_cond r env (field id_key (r.entity.get_id d) end)) (s, d))
        (delete_matching (with_writers w r) d) (delete_matching r d)
        (λ f st e.
          let has =
            inject_cond-has (field id_key (r.entity.get_id d) end) f (lift-eq-ok _ (s, d) e) in
          rw (agrees.deletes_one f st.0 has))

  delete-same : (st : σ × T) → delete (with_writers w r) env st ≡ delete r env st
  unfolding delete update
  delete-same st = after-cong (stamped r (delete_audit env.ctx env.now) st) _ _ (λ b s e.
      if-cong (b && _) (update (with_writers w r) env) (update r env)
        (hard_delete (with_writers w r) env) (hard_delete r env) s (update-same s)
        (hard_delete-same s))

  batch_delete_by_filter-same :
      (filter : Fields) (s : σ)
      → batch_delete_by_filter (with_writers w r) env filter s
        ≡ batch_delete_by_filter r env filter s
  unfolding batch_delete_by_filter
  batch_delete_by_filter-same filter s =
      after-cong (lift (inject_cond r env filter) s) _ _ (λ f s1 e.
        let has = inject_cond-has filter f (lift-eq-ok _ s e) in
        if-cong (supports_delete_audit r && _)
          (soft_delete_many (with_writers w r) env (get_operator env.ctx) f)
          (soft_delete_many r env (get_operator env.ctx) f) (hard_delete_many (with_writers w r) f)
          (hard_delete_many r f) s1 (soft (get_operator env.ctx) f s1 has)
          (rw (agrees.deletes_many f s1 has)))
    where
      soft :
          (user : Str × Bool) (f : Fields) (s : σ)
          → get_field k f ≡ some v
          → soft_delete_many (with_writers w r) env user f s ≡ soft_delete_many r env user f s
      soft (user, false) f s has = refl
      soft (user, true) f s has = rw (agrees.updates_many f (soft_update r env user) s has)

  -- `update`, `patch`, `patch_raw` with the injection, `delete` and `batch_delete_by_filter` change
  -- documents only by calls whose filter has each condition of the scope: with other calls that do
  -- the same on such filters, and anything on the others, each of them has the same outcome.
  pub writes-scoped :
      (st : σ × T) (filter payload : Fields) (is_many : Bool) (s : σ)
      → (update (with_writers w r) env st ≡ update r env st)
        × (patch (with_writers w r) env st ≡ patch r env st)
        × (patch_raw (with_writers w r) env (raw_input filter payload is_many) s
            ≡ patch_raw r env (raw_input filter payload is_many) s)
        × (delete (with_writers w r) env st ≡ delete r env st)
        × (batch_delete_by_filter (with_writers w r) env filter s
            ≡ batch_delete_by_filter r env filter s)
  writes-scoped st filter payload is_many s = (
    update-same st,
    patch-same st,
    patch_raw-same filter payload is_many s,
    delete-same st,
    batch_delete_by_filter-same filter s,
  )
