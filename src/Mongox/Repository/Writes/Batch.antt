-- ===== src/Mongox/Repository/Writes/Batch.antt =====
-- The batch operations of `CollectionRepository` of src/core_py/model/mongox/repository.py. The
-- documents of a batch are objects of the caller's, in the order of the list.
use core_py.Base.{
  ℕ, Bool, true, false, not, ◌&&◌, List, [], ◌∷◌, map, if◌then◌else◌, ◌==◌, Result, ok, err,
}
use core_py.Base.Text.{Str, codes, str_eq}
use core_py.Context.{get_operator}
use core_py.Data.{new_validate_error, new_resource_not_found_error, new_resource_conflict_error}
use core_py.Model.RepoOpt.{soft_delete_disable}
use core_py.Mongox.Value.{Value, text, date, arr, dict, Fields, end, field}
use core_py.Mongox.Codec.{is_duplicate_error}
use core_py.Mongox.Act.{Raised, Act, ◌>>=◌, done, raise, lift, called, Env}
use core_py.Mongox.Repository.{
  Repository, id_key, items_of, get_merged_repo_opt, inject_cond, supports_delete_audit,
  resource_by_docs, resource_by_filter,
}
use core_py.Mongox.Repository.Writes.{handled, prepare, update}

abbrev with_first {μ} : {A : Type μ} → A → Result Raised (List A) → Result Raised (List A)
with_first a (err e) = err e
with_first a (ok xs) = ok (a ∷ xs)

-- What a step on the first document and one on the rest give together.
abbrev first {ℓ κ μ} :
    {σ : Type ℓ} {T : Type κ} {A : Type μ}
    → List T
    → Result Raised A × (σ × T)
    → (A → σ → Result Raised (List A) × (σ × List T))
    → Result Raised (List A) × (σ × List T)
first docs (err e, (s, d)) rest = (err e, (s, d ∷ docs))
first docs (ok a, (s, d)) rest = let (x, (t, ds)) = rest a s in (with_first a x, (t, d ∷ ds))

module _ {ℓ κ μ} {σ : Type ℓ} {T : Type κ} {A : Type μ} (step : Act (σ × T) A) where
  -- `for doc in docs`: the first error ends the loop.
  unfoldable pub each : Act (σ × List T) (List A)
  each (s, []) = (ok [], (s, []))
  each (s, d ∷ docs) = first docs (step (s, d)) (λ a s. each (s, docs))

module _ {ℓ κ} {σ : Type ℓ} {T : Type κ} (r : Repository σ T) where
  abbrev insert_all : List Fields → List T → σ → Result Raised (Unit {0}) × σ
  insert_all [] docs s = (ok tt, s)
  insert_all (p ∷ payloads) docs s =
      handled (new_resource_conflict_error (resource_by_docs r docs))
        (r.collection.insert_many (p ∷ payloads) s)

  unfoldable pub batch_create : Env → Act (σ × List T) (Unit {0})
  unfolding each prepare is_duplicate_error resource_by_docs
  batch_create env = each (prepare r env) >>= inserted
    where
      inserted : List Fields → Act (σ × List T) (Unit {0})
      inserted payloads (s, docs) = let (x, t) = insert_all payloads docs s in (x, (t, docs))

  unfoldable pub batch_update : Env → Act (σ × List T) (Unit {0})
  unfolding each update
  batch_update env = each (update r env) >>= λ _. done tt

  abbrev count_or_missing : Fields → ℕ → Act σ ℕ
  count_or_missing filter n =
      if n == 0 then raise (new_resource_not_found_error (resource_by_filter r filter)) else done n

  -- `{"$set": {"deleted_at": …, "deleted_by": user}}`
  abbrev pub soft_update : Env → Str → Fields
  soft_update env user =
      field (codes "$set")
        (dict
          (field (codes "deleted_at") (date env.now) (field (codes "deleted_by") (text user) end)))
        end

  abbrev pub soft_delete_many : Env → Str × Bool → Fields → Act σ ℕ
  soft_delete_many env (user, false) filter = raise (new_validate_error (codes "there is no user"))
  soft_delete_many env (user, true) filter = do
    result ← called (r.collection.update_many filter (soft_update env user))
    count_or_missing filter result.matched_count

  abbrev pub hard_delete_many : Fields → Act σ ℕ
  hard_delete_many filter = do
    deleted ← called (r.collection.delete_many filter)
    count_or_missing filter deleted

  unfoldable pub batch_delete_by_filter : Env → Fields → Act σ ℕ
  unfolding inject_cond get_merged_repo_opt supports_delete_audit get_operator resource_by_filter
  batch_delete_by_filter env filter = do
    injected ← lift (inject_cond r env filter)
    let soft = not (str_eq (get_merged_repo_opt r env).soft_delete soft_delete_disable)
    if supports_delete_audit r && soft
        then soft_delete_many env (get_operator env.ctx) injected
        else hard_delete_many injected

  -- `{self._id_key: {"$in": ids}}`
  abbrev in_ids : List Value → Fields
  in_ids ids = field id_key (dict (field (codes "$in") (arr (items_of ids)) end)) end

  unfoldable pub batch_delete_by_ids : Env → List Value → Act σ ℕ
  unfolding batch_delete_by_filter
  batch_delete_by_ids env [] = done 0
  batch_delete_by_ids env (id ∷ ids) = batch_delete_by_filter env (in_ids (id ∷ ids))

  unfoldable pub batch_delete : Env → List T → Act σ ℕ
  unfolding batch_delete_by_ids
  batch_delete env docs = batch_delete_by_ids env (map r.entity.get_id docs)
