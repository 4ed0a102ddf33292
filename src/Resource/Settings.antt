-- ===== src/Resource/Settings.antt =====
-- `Options` of src/core_py/resource.py, with the operations that set them.
use core_py.Base.{Bool, true, false, if◌then◌else◌, List, [], ◌∷◌, ◌≡◌, refl}
use core_py.Base.Int.{ℤ, pos, is_positive, leb_ℤ}

-- Durations are integers of clock ticks.
pub record Options : Type 0 where
  pub max_bytes : ℤ
  pub data_max_bytes : ℤ
  pub timeout_quota : ℤ
  pub redirect_limit : ℤ
  pub retry_attempts : ℤ
  pub retry_base_delay : ℤ
  pub retry_max_delay : ℤ
  pub enable_http : Bool

abbrev pub default_options : Options
default_options = record {
  max_bytes = pos 33554432;
  data_max_bytes = pos 1048576;
  timeout_quota = pos 5000;
  redirect_limit = pos 5;
  retry_attempts = pos 3;
  retry_base_delay = pos 100;
  retry_max_delay = pos 1000;
  enable_http = true;
}

unfoldable pub with_max_bytes : ℤ → Options → Options
with_max_bytes n o = if is_positive n then record o { max_bytes = n } else o

unfoldable pub with_data_max_bytes : ℤ → Options → Options
with_data_max_bytes n o = if is_positive n then record o { data_max_bytes = n } else o

unfoldable pub with_timeout_quota : ℤ → Options → Options
with_timeout_quota timeout o =
    if is_positive timeout then record o { timeout_quota = timeout } else o

unfoldable pub with_redirect_limit : ℤ → Options → Options
with_redirect_limit limit o = if leb_ℤ (pos 0) limit then record o { redirect_limit = limit } else o

abbrev set_attempts : ℤ → Options → Options
set_attempts n o = if is_positive n then record o { retry_attempts = n } else o

abbrev set_base_delay : ℤ → Options → Options
set_base_delay t o = if is_positive t then record o { retry_base_delay = t } else o

abbrev set_max_delay : ℤ → Options → Options
set_max_delay t o = if is_positive t then record o { retry_max_delay = t } else o

unfoldable pub with_retry : ℤ → ℤ → ℤ → Options → Options
with_retry attempts base_delay max_delay o =
    set_max_delay max_delay (set_base_delay base_delay (set_attempts attempts o))

unfoldable pub with_http_enabled : Bool → Options → Options
with_http_enabled enabled o = record o { enable_http = enabled }

-- An operation on the options, by its name and its arguments.
pub data Op : Type 0 where
  max_bytes_op : (max_bytes : ℤ) → Op
  data_max_bytes_op : (max_bytes : ℤ) → Op
  timeout_quota_op : (timeout : ℤ) → Op
  redirect_limit_op : (limit : ℤ) → Op
  retry_op : (attempts base_delay max_delay : ℤ) → Op
  http_enabled_op : (enabled : Bool) → Op

unfoldable pub apply_op : Op → Options → Options
unfolding with_max_bytes with_data_max_bytes with_timeout_quota with_redirect_limit with_retry
    with_http_enabled
apply_op (max_bytes_op n) o = with_max_bytes n o
apply_op (data_max_bytes_op n) o = with_data_max_bytes n o
apply_op (timeout_quota_op t) o = with_timeout_quota t o
apply_op (redirect_limit_op n) o = with_redirect_limit n o
apply_op (retry_op n base longest) o = with_retry n base longest o
apply_op (http_enabled_op b) o = with_http_enabled b o

-- The loop of `Manager.__init__`.
unfoldable pub apply_options : List Op → Options → Options
unfolding apply_op
apply_options [] o = o
apply_options (op ∷ ops) o = apply_options ops (apply_op op o)

-- Every limit, quota and delay is positive, and the number of redirects is not negative.
abbrev pub IsUsable : Options → Type 0
IsUsable o =
    (is_positive o.max_bytes ≡ true)
    × (is_positive o.data_max_bytes ≡ true)
    × (is_positive o.timeout_quota ≡ true)
    × (leb_ℤ (pos 0) o.redirect_limit ≡ true)
    × (is_positive o.retry_attempts ≡ true)
    × (is_positive o.retry_base_delay ≡ true)
    × (is_positive o.retry_max_delay ≡ true)

guarded :
    (b : Bool) (o p : Options)
    → IsUsable o
    → (b ≡ true → IsUsable p)
    → IsUsable (if b then p else o)
guarded true o p h k = k refl
guarded false o p h k = h

apply_op-IsUsable : (op : Op) (o : Options) → IsUsable o → IsUsable (apply_op op o)
unfolding apply_op with_max_bytes with_data_max_bytes with_timeout_quota with_redirect_limit
    with_retry with_http_enabled
apply_op-IsUsable (max_bytes_op n) o (a, b, c, d, e, f, g) =
    guarded (is_positive n) o (record o { max_bytes = n }) (a, b, c, d, e, f, g)
      (λ h. (h, b, c, d, e, f, g))
apply_op-IsUsable (data_max_bytes_op n) o (a, b, c, d, e, f, g) =
    guarded (is_positive n) o (record o { data_max_bytes = n }) (a, b, c, d, e, f, g)
      (λ h. (a, h, c, d, e, f, g))
apply_op-IsUsable (timeout_quota_op t) o (a, b, c, d, e, f, g) =
    guarded (is_positive t) o (record o { timeout_quota = t }) (a, b, c, d, e, f, g)
      (λ h. (a, b, h, d, e, f, g))
apply_op-IsUsable (redirect_limit_op n) o (a, b, c, d, e, f, g) =
    guarded (leb_ℤ (pos 0) n) o (record o { redirect_limit = n }) (a, b, c, d, e, f, g)
      (λ h. (a, b, c, h, e, f, g))
apply_op-IsUsable (retry_op n base longest) o h =
    let attempts : IsUsable (set_attempts n o) =
      guarded (is_positive n) o (record o { retry_attempts = n }) h
        (λ k. (h.0, h.1, h.2, h.3, k, h.5, h.6)) in
    let o1 = set_attempts n o in
    let delays : IsUsable (set_base_delay base o1) =
      guarded (is_positive base) o1 (record o1 { retry_base_delay = base }) attempts
        (λ k. (attempts.0, attempts.1, attempts.2, attempts.3, attempts.4, k, attempts.6)) in
    let o2 = set_base_delay base o1 in
    guarded (is_positive longest) o2 (record o2 { retry_max_delay = longest }) delays
      (λ k. (delays.0, delays.1, delays.2, delays.3, delays.4, delays.5, k))
apply_op-IsUsable (http_enabled_op b) o h = h

apply_options_keep : (ops : List Op) (o : Options) → IsUsable o → IsUsable (apply_options ops o)
unfolding apply_options
apply_options_keep [] o h = h
apply_options_keep (op ∷ ops) o h =
    apply_options_keep ops (apply_op op o) (apply_op-IsUsable op o h)

-- Whatever operations a manager is made with, and whatever their arguments, its limits, its quota
-- and its delays are positive and its number of redirects is not negative.
pub apply_options-IsUsable : (ops : List Op) → IsUsable (apply_options ops default_options)
apply_options-IsUsable ops =
    apply_options_keep ops default_options (refl, refl, refl, refl, refl, refl, refl)
