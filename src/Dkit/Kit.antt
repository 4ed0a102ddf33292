-- ===== src/Dkit/Kit.antt =====
-- src/core_py/dkit/kit.py: the default kit over a backend, and the kit of the process. A backend and
-- an action work on a state `S` and raise an `E`; `is_exception` tells an `Exception` from another
-- `BaseException`.
pub mod Locked
use core_py.Base.{
  ℕ, Bool, true, false, ◌||◌, Option, none, some, List, [], ◌∷◌, if◌then◌else◌, Result, ok, err,
  ltb, ◌%◌,
}
use core_py.Base.Text.{Str, codes}
use core_py.Base.Int.{ℤ, pos, negsuc}
use core_py.Dkit.Options.{LockOptionOp, lock_ttl, lock_with_max_wait}

pub data KitError {ℓ} (E : Type ℓ) : Type ℓ where
  invalid_option : (message : Str) → KitError E
  -- `InvalidOptionError` with the number in its message
  machine_id_out_of_range : (num : ℤ) → KitError E
  default_kit_not_configured : KitError E
  raised : E → KitError E
  -- `RuntimeError("unlock failed…") from …`
  unlock_failed : (unlock : E) (action : Option E) → KitError E

abbrev pub Run {ℓ κ μ} : Type ℓ → Type κ → Type μ → Type (ℓ ⊔ (κ ⊔ μ))
Run S E A = S → Result E A × S

pub record DistributedMutex {ℓ κ} (S : Type ℓ) (E : Type κ) : Type (ℓ ⊔ κ) where
  pub try_lock : Run S E Bool
  pub lock : List LockOptionOp → Run S E (Unit {0})
  pub unlock : Run S E (Unit {0})

pub record Atomic {ℓ κ} (S : Type ℓ) (E : Type κ) : Type (ℓ ⊔ κ) where
  pub get_unique_random_number : ℤ → Run S E ℤ
  pub new_mutex : Str → Option (DistributedMutex S E)
  pub get_mutex_default_ttl : ℤ

pub record DefaultKit {ℓ κ} (S : Type ℓ) (E : Type κ) : Type (ℓ ⊔ κ) where
  pub atomic : Atomic S E
  pub machine_id : ℕ

abbrev action_err {κ} : {E : Type κ} → Result E (Unit {0}) → Option E
action_err (ok u) = none
action_err (err e) = some e

-- What leaves the `try … finally` block: the action's result, then the release's.
abbrev pub settle {κ} :
    {E : Type κ}
    → (E → Bool)
    → Result E (Unit {0})
    → Result E (Unit {0})
    → Result (KitError E) (Unit {0})
settle is_exception (ok u) (ok v) = ok tt
settle is_exception (err e) (ok v) = err (raised e)
settle is_exception acted (err x) =
    if is_exception x then err (unlock_failed x (action_err acted)) else err (raised x)

abbrev pub as_true {κ} : {E : Type κ} → Result (KitError E) (Unit {0}) → Result (KitError E) Bool
as_true (ok u) = ok true
as_true (err e) = err e

module _ {ℓ κ} {S : Type ℓ} {E : Type κ} (is_exception : E → Bool) where
  unfoldable pub run_locked_action :
      DistributedMutex S E → Run S E (Unit {0}) → Run S (KitError E) (Unit {0})
  run_locked_action mutex action s =
      let (acted, after) = action s in
      let (freed, left) = mutex.unlock after in (settle is_exception acted freed, left)

  abbrev try_result :
      DistributedMutex S E → Run S E (Unit {0}) → Result E Bool → Run S (KitError E) Bool
  try_result mutex action (err e) s = (err (raised e), s)
  try_result mutex action (ok false) s = (ok false, s)
  try_result mutex action (ok true) s =
      let (r, left) = run_locked_action mutex action s in (as_true r, left)

  abbrev try_with : Option (DistributedMutex S E) → Run S E (Unit {0}) → Run S (KitError E) Bool
  try_with none action s = (err (invalid_option (codes "dkit: invalid option: mutex is nil")), s)
  try_with (some mutex) action s =
      let (tried, after) = mutex.try_lock s in try_result mutex action tried after

  unfoldable pub mutex_try_do :
      DefaultKit S E → Str → Option (Run S E (Unit {0})) → Run S (KitError E) Bool
  unfolding run_locked_action
  mutex_try_do kit mutex_key none s =
      (err (invalid_option (codes "dkit: invalid option: action is nil")), s)
  mutex_try_do kit mutex_key (some action) s = try_with (kit.atomic.new_mutex mutex_key) action s

  abbrev locked_result :
      DistributedMutex S E
      → Run S E (Unit {0})
      → Result E (Unit {0})
      → Run S (KitError E) (Unit {0})
  locked_result mutex action (err e) s = (err (raised e), s)
  locked_result mutex action (ok u) s = run_locked_action mutex action s

  abbrev do_with :
      Option (DistributedMutex S E) → ℤ → Run S E (Unit {0}) → Run S (KitError E) (Unit {0})
  do_with none ttl action s = (err (invalid_option (codes "dkit: invalid option: mutex is nil")), s)
  do_with (some mutex) ttl action s =
      let (locked, after) = mutex.lock (lock_ttl ttl ∷ lock_with_max_wait ttl ∷ []) s in
      locked_result mutex action locked after

  unfoldable pub mutex_do :
      DefaultKit S E → Str → Option (Run S E (Unit {0})) → Run S (KitError E) (Unit {0})
  unfolding run_locked_action lock_ttl lock_with_max_wait
  mutex_do kit mutex_key none s =
      (err (invalid_option (codes "dkit: invalid option: action is nil")), s)
  mutex_do kit mutex_key (some action) s =
      do_with (kit.atomic.new_mutex mutex_key) kit.atomic.get_mutex_default_ttl action s

-- `machine_id & 0xFFFF`
unfoldable pub init_kit {ℓ κ} : {S : Type ℓ} {E : Type κ} → Atomic S E → ℕ → DefaultKit S E
init_kit atomic machine_id = record { atomic = atomic; machine_id = machine_id % 65536 }

abbrev kit_of {ℓ κ} :
    {S : Type ℓ} {E : Type κ} → Atomic S E → Result E ℤ → Result (KitError E) (DefaultKit S E)
kit_of atomic (err e) = err (raised e)
kit_of atomic (ok (negsuc n)) = err (machine_id_out_of_range (negsuc n))
kit_of atomic (ok (pos n)) =
    if ltb 65535 n then err (machine_id_out_of_range (pos n)) else ok (init_kit atomic n)

unfoldable pub new_default_kit {ℓ κ} :
    {S : Type ℓ} {E : Type κ} → Option (Atomic S E) → Run S (KitError E) (DefaultKit S E)
unfolding init_kit
new_default_kit none s = (err (invalid_option (codes "dkit: invalid option: atomic is nil")), s)
new_default_kit (some atomic) s =
    let (num, left) = atomic.get_unique_random_number (pos 65535) s in (kit_of atomic num, left)

unfoldable pub reset_default_kit {ℓ} : {K : Type ℓ} → Option K → Option K
reset_default_kit s = none

-- `_default_kit`, with the functions that read and write it.
module _ {ℓ κ} {K : Type ℓ} {E : Type κ} where
  unfoldable pub set_default_kit : Option K → Run (Option K) (KitError E) (Unit {0})
  set_default_kit none s = (err (invalid_option (codes "dkit: invalid option: kit is nil")), s)
  set_default_kit (some kit) s = (ok tt, some kit)

  unfoldable pub default_kit : Run (Option K) (KitError E) K
  default_kit none = (err default_kit_not_configured, none)
  default_kit (some kit) = (ok kit, some kit)

  -- The body of the `with` statement may return or raise, and may change the default kit.
  abbrev use_entered {μ} :
      {A : Type μ}
      → Result (KitError E) (Unit {0})
      → Option K
      → Run (Option K) (KitError E) A
      → Run (Option K) (KitError E) A
  use_entered (err e) previous body s = (err e, s)
  use_entered (ok u) previous body s = let (r, left) = body s in (r, previous)

  unfoldable pub use_default_kit {μ} :
      {A : Type μ} → Option K → Run (Option K) (KitError E) A → Run (Option K) (KitError E) A
  unfolding set_default_kit
  use_default_kit kit body previous =
      let (entered, s) = set_default_kit kit previous in use_entered entered previous body s
