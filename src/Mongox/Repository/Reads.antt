-- ===== src/Mongox/Repository/Reads.antt =====
-- The reads of `CollectionRepository`: `find`, `page_query`, `feed_query`, `get` and
-- `get_by_filter`.
pub mod Sound
pub mod Scoped
pub mod Feed
use core_py.Base.{
  ℕ, zero, suc, ◌+◌, ◌-◌, Bool, true, false, not, ◌&&◌, Option, none, some, List, [], ◌∷◌, ◌++◌,
  map, if◌then◌else◌, ltb, length, get_elem?, take, Result, ok, err,
}
use core_py.Base.Text.{Str, codes, is_empty, str_eq}
use core_py.Base.Int.{ℤ, pos, pos_part, is_positive}
use core_py.Data.{Kind, foreign, new_validation_error, new_resource_not_found_error}
use core_py.Model.RepoOpt.{fixed_strategy_backoff}
use core_py.Model.Pages.{Pager, PagedResult, FeedResult}
use core_py.Mongox.Value.{Value, Fields, end, field, get_field}
use core_py.Mongox.Query.{
  PageQueryInput, FeedQueryInput, Sort, FieldType, untyped, page_limit_skip, sort_conf,
  merge_feed_filter, normalize_feed_cursor_field, feed_cursor_filter, feed_sort_conf,
  parse_feed_token,
}
use core_py.Mongox.Act.{
  Raised, known, Act, after, ◌>>=◌, done, raise, lift, called, FindOpts, Collection, EntityClass,
  Env, Supports,
}
use core_py.Mongox.Repository.{
  Repository, id_key, get_merged_repo_opt, inject_cond, supports_create_audit, resource_by_filter,
}

abbrev positive : ℤ → Option ℕ
positive n = if is_positive n then some (pos_part n) else none

abbrev skipped : ℕ → Option ℕ
skipped n = if ltb 0 n then some n else none

abbrev sorted_by : Sort → Option Sort
sorted_by [] = none
sorted_by (p ∷ ps) = some (p ∷ ps)

-- An order clause whose `get_sort_info` is an IndexError.
abbrev or_index_error : Option Sort → Result Kind Sort
or_index_error none = err foreign
or_index_error (some sort) = ok sort

abbrev or_created_at : Bool → Sort → Sort
or_created_at true [] = (codes "created_at", pos 1) ∷ []
or_created_at _ sort = sort

abbrev page_size_of : Option Pager → ℕ
page_size_of none = 20
page_size_of (some pager) = if is_positive pager.page_size then pos_part pager.page_size else 20

abbrev page_token_of : Option Pager → Str
page_token_of none = []
page_token_of (some pager) = pager.page_token

abbrev type_or_untyped : Option FieldType → FieldType
type_or_untyped none = untyped
type_or_untyped (some t) = t

abbrev is_none {ℓ} : {A : Type ℓ} → Option A → Bool
is_none none = true
is_none (some x) = false

abbrev cursor_missing : Str → Kind
cursor_missing cursor_field =
    new_validation_error (codes "cursor field " ++ (cursor_field ++ codes " not found"))

abbrev with_cursor : Result Kind Value → Str → Bool → Fields → Result Kind Fields
with_cursor (err e) cursor_field is_descending filter = err e
with_cursor (ok v) cursor_field is_descending filter =
    ok (merge_feed_filter filter (feed_cursor_filter cursor_field v is_descending))

module _ {ℓ κ} {σ : Type ℓ} {T : Type κ} (r : Repository σ T) where
  unfoldable pub find : Env → Fields → FindOpts → Act σ (List T)
  unfolding inject_cond
  find env filter find_opts = do
    injected ← lift (inject_cond r env filter)
    docs ← called (r.collection.find injected find_opts)
    done (map r.entity.decode docs)

  unfoldable pub page_query : Env → PageQueryInput → Act σ (PagedResult T)
  unfolding inject_cond page_limit_skip sort_conf supports_create_audit
  page_query env input = do
    filter ← lift (inject_cond r env input.filter)
    total_count ← called (r.collection.count_documents filter)
    sort ← lift (or_index_error (sort_conf input.sort))
    docs ← called (
        r.collection.find filter (record {
          limit = positive (page_limit_skip input.pager).0;
          skip = skipped ((page_limit_skip input.pager).1);
          sort = sorted_by (or_created_at (supports_create_audit r) sort);
        }))
    done (record { rows = map r.entity.decode docs; total_count = total_count })

  abbrev typed_by : Option Supports → Str → Option FieldType
  typed_by none cursor_field = none
  typed_by (some s) cursor_field = r.entity.field_type cursor_field

  unfoldable pub feed_cursor_field_type : Str → Option FieldType
  feed_cursor_field_type cursor_field = typed_by r.entity.supports cursor_field

  -- The filter with the condition on the cursor.
  unfoldable pub feed_filter : Str → Str → Bool → Fields → Result Kind Fields
  unfolding feed_cursor_field_type merge_feed_filter feed_cursor_filter parse_feed_token str_eq
  feed_filter page_token cursor_field is_descending filter =
      let field_type = feed_cursor_field_type cursor_field in
      if is_empty page_token
      then ok filter
      else if is_none field_type && not (str_eq cursor_field id_key)
      then err (cursor_missing cursor_field)
      else with_cursor
          (parse_feed_token r.texts.to_float r.texts.from_isoformat page_token
            (type_or_untyped field_type))
          cursor_field is_descending filter

  abbrev shown_or : Str → Option Value → Result Kind Str
  shown_or cursor_field none = err (cursor_missing cursor_field)
  shown_or cursor_field (some v) = ok (r.texts.show v)

  unfoldable pub feed_cursor_token : Fields → Str → Result Kind Str
  feed_cursor_token doc cursor_field = shown_or cursor_field (get_field cursor_field doc)

  abbrev token_of : Option Fields → Str → Result Kind Str
  token_of none cursor_field = err foreign
  token_of (some doc) cursor_field = feed_cursor_token doc cursor_field

  abbrev with_token : List T → Result Kind Str → Result Kind (FeedResult T)
  with_token rows (err e) = err e
  with_token rows (ok token) = ok (record { rows = rows; next_page_token = token })

  -- The page out of what the collection returned, with the token of its last row where there are
  -- more.
  unfoldable pub feed_page : ℕ → Str → List Fields → Result Kind (FeedResult T)
  unfolding feed_cursor_token
  feed_page page_size cursor_field docs =
      let rows = map r.entity.decode docs in
      if ltb page_size (length rows)
      then with_token (take page_size rows) (token_of (get_elem? docs (page_size - 1)) cursor_field)
      else ok (record { rows = rows; next_page_token = [] })

  unfoldable pub feed_query : Env → FeedQueryInput → Act σ (FeedResult T)
  unfolding inject_cond normalize_feed_cursor_field feed_filter feed_page feed_sort_conf
  feed_query env input =
      let page_size = page_size_of input.pager in
      let cursor_field = normalize_feed_cursor_field input.cursor_field in
      do
        base ← lift (inject_cond r env input.filter)
        filter ←
            lift (feed_filter (page_token_of input.pager) cursor_field input.is_descending base)
        docs ← called (
            r.collection.find filter (record {
              limit = some (page_size + 1);
              skip = none;
              sort = some (feed_sort_conf cursor_field input.is_descending);
            }))
        lift (feed_page page_size cursor_field docs)

  abbrev answered : Act σ T → Option Fields → Act σ T
  answered again none = again
  answered again (some doc) = done (r.entity.decode doc)

  -- The number counts the attempts that are left after this one.
  unfoldable pub get_attempts : ℕ → Fields → Act σ T
  unfolding resource_by_filter
  get_attempts zero injected s =
      after (called (r.collection.find_one injected) s)
        (answered (raise (new_resource_not_found_error (resource_by_filter r injected))))
  get_attempts (suc n) injected s =
      after (called (r.collection.find_one injected) s)
        (answered (λ s. get_attempts n injected (r.collection.pause s)))

  unfoldable pub get_by_filter : Env → Fields → Act σ T
  unfolding inject_cond get_merged_repo_opt get_attempts str_eq
  get_by_filter env filter = do
    injected ← lift (inject_cond r env filter)
    get_attempts
        (if str_eq (get_merged_repo_opt r env).try_fix_sync_delay fixed_strategy_backoff
          then 2
          else 0)
        injected

  unfoldable pub get : Env → Value → Act σ T
  unfolding get_by_filter
  get env id = get_by_filter env (field id_key id end)
