-- ===== src/Dkit/Options.antt =====
-- src/core_py/dkit/options.py. Durations are whole numbers of clock ticks; a tick is a millisecond.
use core_py.Base.{true, List, [], ◌∷◌, if◌then◌else◌, ◌≡◌, refl, inl, inr, Bool-cases}
use core_py.Base.Text.{Str}
use core_py.Base.Int.{ℤ, pos, is_positive}

abbrev pub default_lock_ttl : ℤ
default_lock_ttl = pos 30000

abbrev pub default_lock_spin_interval : ℤ
default_lock_spin_interval = pos 500

pub record LockOption : Type 0 where
  pub ttl : ℤ
  pub reentrant_identity : Str
  pub spin_interval : ℤ
  pub max_wait_time : ℤ

-- An option operation changes the record that it is given.
abbrev pub LockOptionOp : Type 0
LockOptionOp = LockOption → LockOption

abbrev pub apply_ops : List LockOptionOp → LockOption → LockOption
apply_ops [] opt = opt
apply_ops (op ∷ ops) opt = apply_ops ops (op opt)

-- The value where it is positive, or the default.
abbrev pub positive_or : ℤ → ℤ → ℤ
positive_or default t = if is_positive t then t else default

abbrev pub with_defaults : ℤ → LockOption → LockOption
with_defaults ttl opt = record {
  ttl = positive_or ttl opt.ttl;
  reentrant_identity = opt.reentrant_identity;
  spin_interval = positive_or default_lock_spin_interval opt.spin_interval;
  max_wait_time = opt.max_wait_time;
}

abbrev pub start_option : ℤ → LockOption
start_option ttl = record {
  ttl = ttl;
  reentrant_identity = [];
  spin_interval = default_lock_spin_interval;
  max_wait_time = pos 0;
}

unfoldable pub new_lock_option : ℤ → List LockOptionOp → LockOption
new_lock_option default_ttl ops =
    let ttl = positive_or default_lock_ttl default_ttl in
    with_defaults ttl (apply_ops ops (start_option ttl))

unfoldable pub lock_ttl : ℤ → LockOptionOp
lock_ttl seconds option = record {
  ttl = if is_positive seconds then seconds else option.ttl;
  reentrant_identity = option.reentrant_identity;
  spin_interval = option.spin_interval;
  max_wait_time = option.max_wait_time;
}

unfoldable pub lock_with_max_wait : ℤ → LockOptionOp
lock_with_max_wait seconds option = record {
  ttl = option.ttl;
  reentrant_identity = option.reentrant_identity;
  spin_interval = option.spin_interval;
  max_wait_time = if is_positive seconds then seconds else option.max_wait_time;
}

unfoldable pub lock_with_spin_interval : ℤ → LockOptionOp
lock_with_spin_interval seconds option = record {
  ttl = option.ttl;
  reentrant_identity = option.reentrant_identity;
  spin_interval = if is_positive seconds then seconds else option.spin_interval;
  max_wait_time = option.max_wait_time;
}

unfoldable pub reentrant : Str → LockOptionOp
reentrant identity option = record {
  ttl = option.ttl;
  reentrant_identity = identity;
  spin_interval = option.spin_interval;
  max_wait_time = option.max_wait_time;
}

positive_or-positive :
    (default t : ℤ) → is_positive default ≡ true → is_positive (positive_or default t) ≡ true
positive_or-positive default t h = elim (Bool-cases (is_positive t)) [
  | inl e ↦ rw e e
  | inr e ↦ rw e h
]

-- Whatever the default and the operations are, the time to live and the spin interval of an option
-- are positive.
pub new_lock_option-IsUsable :
    (default_ttl : ℤ) (ops : List LockOptionOp)
    → (is_positive ((new_lock_option default_ttl ops).ttl) ≡ true)
      × (is_positive ((new_lock_option default_ttl ops).spin_interval) ≡ true)
unfolding new_lock_option
new_lock_option-IsUsable default_ttl ops =
    let ttl = positive_or default_lock_ttl default_ttl in
    let opt = apply_ops ops (start_option ttl) in
    (
      positive_or-positive ttl opt.ttl (positive_or-positive default_lock_ttl default_ttl refl),
      positive_or-positive default_lock_spin_interval opt.spin_interval refl,
    )
