-- ===== src/Context/Scope.antt =====
-- `use_context` of src/core_py/context.py.
use core_py.Base.{◌≡◌, refl, Option, none, some, Result}
use core_py.Context.{Context, Var, current_context, use_context}

-- The body runs once, in a copy of the given context, or of the current one where none is given.
-- Whatever it does to the variable, and whether it returns or raises, its outcome comes back and
-- the variable has the value that it had before.
pub use_context_restores {ℓ κ} :
    {E : Type ℓ} {A : Type κ} (ctx : Option Context) (body : Context → Var → Result E A × Var)
    (s : Var)
    → let inner : Context = elim ctx [ none ↦ current_context s | some c ↦ c ] in
      use_context ctx body s ≡ ((body inner (some inner)).0, s)
unfolding use_context
use_context_restores none body s = refl
use_context_restores (some c) body s = refl
