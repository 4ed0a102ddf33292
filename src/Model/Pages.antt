-- ===== src/Model/Pages.antt =====
-- `Pager`, `PagedResult` and `FeedResult` of src/core_py/model/page.py, and `SnowflakeID` of
-- src/core_py/model/snowflake_id.py, which stands for its number.
use core_py.Base.{ℕ, Option, none, some, List, if◌then◌else◌, ◌==◌, Result, ok, err, Bool, false}
use core_py.Base.Text.{Str, codes, is_empty, strip}
use core_py.Base.Int.{ℤ, pos, negsuc}
use core_py.Base.Number.{py_int}
use core_py.Data.{Kind, new_validation_error}

pub record Pager : Type 0 where
  pub page_size : ℤ
  pub page_num : ℤ
  pub page_token : Str

unfoldable pub get_page_info : Pager → ℤ × ℤ × Str
get_page_info p = (p.page_size, p.page_num, p.page_token)

unfoldable pub set_page_number : ℤ → Pager → Pager
set_page_number page_number p = record p { page_num = page_number }

abbrev is_unset : ℤ → Bool
is_unset (pos n) = n == 0
is_unset (negsuc n) = false

unfoldable pub initial_default_val : Pager → Pager
initial_default_val p = if is_unset p.page_size then record p { page_size = pos 20 } else p

pub record PagedResult {ℓ} (T : Type ℓ) : Type ℓ where
  pub rows : List T
  pub total_count : ℕ

pub record FeedResult {ℓ} (T : Type ℓ) : Type ℓ where
  pub rows : List T
  pub next_page_token : Str

abbrev snowflake_number : Option ℤ → Result Kind ℕ
snowflake_number none = err (new_validation_error (codes "parse snowflake id failed"))
snowflake_number (some (pos n)) = ok n
snowflake_number (some (negsuc n)) =
    err (new_validation_error (codes "snowflake id should not be negative"))

-- `SnowflakeID.__new__` of a text.
unfoldable pub new_snowflake_id : Str → Result Kind ℕ
unfolding strip
new_snowflake_id value =
    if is_empty (strip value)
    then err (new_validation_error (codes "snowflake id should not be empty"))
    else snowflake_number (py_int (strip value))
