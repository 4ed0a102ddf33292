-- ===== src/Model/Options.antt =====
-- The repository options of the context, of src/core_py/model/options.py. A `RepoOpt` is an object
-- that a context and its copies share: a state is the context variable with the objects.
use core_py.Base.{
  ℕ, zero, suc, Bool, true, false, Option, none, some, List, [], ◌∷◌, ◌++◌, if◌then◌else◌, length,
  get_elem?, arith, Result, ok, ◌≡◌, refl, ap, ◌∙◌, ◌<◌,
}
use core_py.Base.Text.{Str, or_else}
use core_py.Base.Dict
use core_py.Base.Dict.{Dict}
use core_py.Context.{
  Value, repo_opt, Context, Var, use_context, current_context, copy_context, set_current_context,
  reset_current_context,
}
use core_py.Model.RepoOpt.{RepoOpt, new_repo_opt, ctx_key_repo_opt}

abbrev pub Objects : Type 0
Objects = List RepoOpt

abbrev pub State : Type 0
State = Var × Objects

-- `value if isinstance(value, RepoOpt)`
abbrev pub address_of : Option Value → Option ℕ
address_of (some (repo_opt a)) = some a
address_of _ = none

unfoldable pub repo_opt_address : Var → Option ℕ
repo_opt_address s = address_of (Dict.get ctx_key_repo_opt (current_context s))

abbrev pub object_at : Objects → Option ℕ → RepoOpt
object_at objects none = new_repo_opt
object_at objects (some a) = elim (get_elem? objects a) [ none ↦ new_repo_opt | some o ↦ o ]

-- What `repo_opt_or_new` reads.
unfoldable pub repo_opt_or_new : State → RepoOpt
unfolding repo_opt_address
repo_opt_or_new (s, objects) = object_at objects (repo_opt_address s)

unfoldable pub set_at : ℕ → (RepoOpt → RepoOpt) → Objects → Objects
set_at n f [] = []
set_at zero f (o ∷ objects) = f o ∷ objects
set_at (suc n) f (o ∷ objects) = o ∷ set_at n f objects

-- `_set_repo_opt` on the object at an address.
abbrev pub store_address : ℕ → Var → Var
store_address a s =
    (set_current_context (some (Dict.put ctx_key_repo_opt (repo_opt a) (current_context s))) s).0

-- `opt = repo_opt_or_new()`, an assignment to its field, and `_set_repo_opt(opt)`: a new object is
-- the last one.
unfoldable pub assign : Option ℕ → (RepoOpt → RepoOpt) → State → State
unfolding set_at
assign none f (s, objects) = (store_address (length objects) s, objects ++ f new_repo_opt ∷ [])
assign (some a) f (s, objects) = (store_address a s, set_at a f objects)

unfoldable pub set_field : (RepoOpt → RepoOpt) → State → State
unfolding assign repo_opt_address
set_field f st = assign (repo_opt_address st.0) f st

unfoldable pub set_repo_data_isolation : Str → State → State
unfolding set_field
set_repo_data_isolation v = set_field (λ o. record o { data_isolation = v })

unfoldable pub set_repo_deploy_isolation : Str → State → State
unfolding set_field
set_repo_deploy_isolation v = set_field (λ o. record o { deploy_isolation = v })

unfoldable pub set_repo_update_run_context : Str → State → State
unfolding set_field
set_repo_update_run_context v = set_field (λ o. record o { update_run_context = v })

unfoldable pub set_soft_delete : Str → State → State
unfolding set_field
set_soft_delete v = set_field (λ o. record o { soft_delete = v })

unfoldable pub set_fixed_strategy : Str → State → State
unfolding set_field
set_fixed_strategy v = set_field (λ o. record o { try_fix_sync_delay = v })

unfoldable pub merge_repo_opt : Option RepoOpt → State → RepoOpt
unfolding repo_opt_or_new
merge_repo_opt none st = repo_opt_or_new st
merge_repo_opt (some other) st =
    let opt = repo_opt_or_new st in
    record {
      deploy_isolation = or_else opt.deploy_isolation other.deploy_isolation;
      data_isolation = or_else opt.data_isolation other.data_isolation;
      update_run_context = or_else opt.update_run_context other.update_run_context;
      try_fix_sync_delay = or_else opt.try_fix_sync_delay other.try_fix_sync_delay;
      soft_delete = or_else opt.soft_delete other.soft_delete;
    }

-- The address of the context's object, if it has one, is that of an object.
abbrev pub Inside : ℕ → Option ℕ → Type 0
Inside n none = Unit
Inside n (some a) = a < n

abbrev pub IsValid : State → Type 0
IsValid st = Inside (length st.1) (repo_opt_address st.0)

address-stored : (a : ℕ) (s : Var) → repo_opt_address (store_address a s) ≡ some a
unfolding repo_opt_address current_context copy_context set_current_context
address-stored a s =
    ap address_of (Dict.get-put_self ctx_key_repo_opt (repo_opt a) (current_context s))

object_at-set :
    (a : ℕ) (f : RepoOpt → RepoOpt) (objects : Objects)
    → a < length objects
    → object_at (set_at a f objects) (some a) ≡ f (object_at objects (some a))
unfolding set_at
object_at-set a f [] h = absurd (omega arith)
object_at-set zero f (o ∷ objects) h = refl
object_at-set (suc a) f (o ∷ objects) h = object_at-set a f objects (omega arith)

object_at-last :
    (objects : Objects) (o : RepoOpt) → object_at (objects ++ o ∷ []) (some (length objects)) ≡ o
object_at-last [] o = refl
object_at-last (p ∷ objects) o = object_at-last objects o

assign-read :
    (o : Option ℕ) (f : RepoOpt → RepoOpt) (st : State)
    → Inside (length st.1) o
    → repo_opt_or_new (assign o f st) ≡ f (object_at st.1 o)
unfolding repo_opt_or_new assign
assign-read none f (s, objects) h =
    ap (object_at (objects ++ f new_repo_opt ∷ [])) (address-stored (length objects) s)
    ∙ object_at-last objects (f new_repo_opt)
assign-read (some a) f (s, objects) h =
    ap (object_at (set_at a f objects)) (address-stored a s) ∙ object_at-set a f objects h

-- A setter changes the options that the context reads by its one field, whether the context has
-- options yet or not.
pub set_field-read :
    (f : RepoOpt → RepoOpt) (st : State)
    → IsValid st
    → repo_opt_or_new (set_field f st) ≡ f (repo_opt_or_new st)
unfolding set_field repo_opt_or_new
set_field-read f st h = assign-read (repo_opt_address st.0) f st h

-- A setter as the body of a `with` block: the block's result is the objects after it.
abbrev pub setting : (RepoOpt → RepoOpt) → Objects → Context → Var → Result (Unit {0}) Objects × Var
setting f objects ctx s = let (left, after) = set_field f (s, objects) in (ok after, left)

address-entered :
    (s : Var)
    → repo_opt_address ((set_current_context (some (current_context s)) s).0) ≡ repo_opt_address s
unfolding repo_opt_address set_current_context current_context copy_context
address-entered none = refl
address-entered (some ctx) = refl

abbrev after_scope : Option ℕ → (RepoOpt → RepoOpt) → Objects → RepoOpt
after_scope none f objects = new_repo_opt
after_scope (some a) f objects = f (object_at objects (some a))

scoped-after :
    (o : Option ℕ) (f : RepoOpt → RepoOpt) (s : Var) (objects : Objects)
    → Inside (length objects) o
    → object_at ((assign o f ((set_current_context (some (current_context s)) s).0, objects)).1) o
      ≡ after_scope o f objects
unfolding assign
scoped-after none f s objects h = refl
scoped-after (some a) f s objects h = object_at-set a f objects h

abbrev is_set : Option ℕ → Bool
is_set none = false
is_set (some a) = true

-- A setter in the body of `use_context(None)` leaves the outer context variable as it was. It is
-- undone for the outer context only where that had no options before: where it had some, the
-- scope's copy shares the object, and the outer context reads the changed options afterwards.
pub set_field-scoped :
    (f : RepoOpt → RepoOpt) (s : Var) (objects : Objects)
    → IsValid (s, objects)
    → (after : Objects) × (use_context none (setting f objects) s ≡ (ok after, s))
      × (repo_opt_or_new (s, after) ≡ (
          if is_set (repo_opt_address s) then f (repo_opt_or_new (s, objects)) else new_repo_opt))
unfolding repo_opt_or_new use_context set_field reset_current_context set_current_context
set_field-scoped f s objects h = (
  _,
  refl,
  rw (address-entered s)
      (scoped-after (repo_opt_address s) f s objects h ∙ outer (repo_opt_address s)),
)
  where
    outer :
        (o : Option ℕ)
        → after_scope o f objects ≡ (if is_set o then f (object_at objects o) else new_repo_opt)
    outer none = refl
    outer (some a) = refl
