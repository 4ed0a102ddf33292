-- ===== src/Tests/Mongox/Reads.antt =====
-- The reads of src/core_py/model/mongox/repository.py at concrete inputs.
use core_py.Base.{
  ℕ, Bool, true, ltb, false, Option, none, some, List, [], ◌∷◌, ◌++◌, ok, All, ◌≡◌, refl, sym, take,
  map, some_inj,
}
use core_py.Base.Text.{Str, codes, str_eq, starts_with, lower, strip}
use core_py.Base.Dict
use core_py.Context.{get_tenant_id, current_context}
use core_py.Context.Keys.{fixed_key, normalize_key, dash_char}
use core_py.Model.Options.{merge_repo_opt}
use core_py.Mongox.Value.{Value, nil, cons, Fields, end, field, arr, dict, get_field, put_field}
use core_py.Mongox.Codec.{to_bson_fields}
use core_py.Mongox.Query.{
  str_type, FeedQueryInput, merge_feed_filter, feed_cursor_filter, normalize_feed_cursor_field,
  parse_feed_token, unwrap_optional_type,
}
use core_py.Mongox.Act.{FindOpts}
use core_py.Mongox.Repository.{
  Repository, get_merged_repo_opt, supports_delete_audit, supports_tenant_audit, inject_cond,
  not_exists,
}
use core_py.Mongox.Repository.Scope.{demanded, inject_cond_lem}
use core_py.Mongox.Repository.Reads.Sound.{rows_of, find_all}
use core_py.Mongox.Repository.Reads.Scoped.{rows_of-scoped}
use core_py.Mongox.Repository.Reads.{feed_cursor_field_type}
use core_py.Mongox.Repository.Reads.Feed.{
  filter, IsOrdered, HasToken, follow, follow-all, cursor_field,
}
use core_py.Model.Pages.{Pager}
use core_py.Base.Int.{pos}
use core_py.Tests.Mongox.{
  IsMet, Note, doc, meets, note, notes, repository, rows, rows-IsSound, signed_in, stored,
  tenant_demanded,
}

abbrev all_rows : FindOpts
all_rows = record { limit = none; skip = none; sort = none }

both_found :
    rows_of repository signed_in (find_all end all_rows) stored
    ≡ (ok (note (codes "a") ∷ note (codes "c") ∷ []), stored)
unfolding rows_of meets inject_cond demanded put_field to_bson_fields get_merged_repo_opt
    merge_repo_opt supports_delete_audit supports_tenant_audit get_tenant_id current_context
    fixed_key normalize_key dash_char starts_with lower strip str_eq Dict.get
both_found = refl

rows_of-scoped_example :
    (docs : List Fields) × (note (codes "a") ∷ note (codes "c") ∷ [] ≡ map notes.decode docs)
    × All (IsMet (codes "tenant_id") (Value.text (codes "t"))) docs
rows_of-scoped_example =
    rows_of-scoped IsMet repository signed_in rows-IsSound (find_all end all_rows)
      (codes "tenant_id") (Value.text (codes "t")) stored stored
      (note (codes "a") ∷ note (codes "c") ∷ []) tenant_demanded both_found

abbrev scoped_filter : Fields
scoped_filter =
    field (codes "tenant_id") (Value.text (codes "t")) (field (codes "deleted_at") not_exists end)

injected :
    inject_cond repository signed_in (field (codes "tenant_id") (Value.text (codes "x")) end)
    ≡ ok scoped_filter
unfolding inject_cond put_field to_bson_fields get_merged_repo_opt merge_repo_opt
    supports_delete_audit supports_tenant_audit get_tenant_id current_context fixed_key
    normalize_key dash_char starts_with lower strip str_eq Dict.get
injected = refl

inject_cond_lem_example :
    get_field (codes "tenant_id") scoped_filter ≡ some (Value.text (codes "t"))
unfolding demanded get_merged_repo_opt merge_repo_opt supports_delete_audit supports_tenant_audit
    get_tenant_id current_context fixed_key normalize_key dash_char starts_with lower strip str_eq
    Dict.get
inject_cond_lem_example =
    inject_cond_lem repository signed_in (field (codes "tenant_id") (Value.text (codes "x")) end)
      scoped_filter (codes "tenant_id") injected

-- A collection in the order of its ids, of which a feed reads one page after the other: an id is
-- beyond another by its first character.
abbrev first_char : Str → ℕ
first_char [] = 0
first_char (c ∷ s) = c

abbrev lies_beyond : Value → Option Value → Bool
lies_beyond (Value.text v) (some (Value.text u)) = ltb (first_char v) (first_char u)
lies_beyond _ _ = false

abbrev beyond : Value → Fields → Bool
beyond v d = lies_beyond v (get_field (codes "_id") d)

abbrev seek : Fields → List Fields → List Fields
seek (field k (arr (cons base (cons (dict (field c (dict (field op v end)) end)) nil))) end) s =
    filter (beyond v) s
seek _ s = s

abbrev limited : Option ℕ → List Fields → List Fields
limited none ds = ds
limited (some n) ds = take n ds

abbrev feed_repository : Repository (List Fields) Note
feed_repository = record repository {
  collection = record rows { find = λ f o s. (ok (limited o.limit (seek f s)), s) };
}

abbrev feed_input : FeedQueryInput
feed_input = record { filter = end; pager = none; cursor_field = []; is_descending = false }

abbrev one_row : Pager
one_row = record { page_size = pos 1; page_num = pos 0; page_token = [] }

abbrev two_docs : List Fields
two_docs = doc (codes "a") (codes "t") ∷ doc (codes "c") (codes "t") ∷ []

feed_injected : inject_cond feed_repository signed_in end ≡ ok scoped_filter
unfolding inject_cond put_field to_bson_fields get_merged_repo_opt merge_repo_opt
    supports_delete_audit supports_tenant_audit get_tenant_id current_context fixed_key
    normalize_key dash_char starts_with lower strip str_eq Dict.get
feed_injected = refl

head_eq : {x y : Fields} {xs ys : List Fields} → x ∷ xs ≡ y ∷ ys → x ≡ y
head_eq e = cc

tail_eq : {x y : Fields} {xs ys : List Fields} → x ∷ xs ≡ y ∷ ys → xs ≡ ys
tail_eq e = cc

not_cons : {x : Fields} {xs : List Fields} → [] ≡ x ∷ xs → ⊥
not_cons e = cc

typed_feed :
    feed_cursor_field_type feed_repository
      (cursor_field feed_repository signed_in feed_input one_row)
    ≡ some str_type
unfolding feed_cursor_field_type
typed_feed = refl

two_IsOrdered :
    IsOrdered feed_repository signed_in feed_input one_row beyond scoped_filter two_docs two_docs
unfolding normalize_feed_cursor_field feed_cursor_filter merge_feed_filter get_field str_eq
two_IsOrdered = record {
  from_first = refl;
  from_next = λ v. refl;
  is_strict = λ pre post d v e h. strict pre post d v e h;
}
  where
    strict :
        (pre post : List Fields) (d : Fields) (v : Value)
        → two_docs ≡ pre ++ d ∷ post
        → get_field (cursor_field feed_repository signed_in feed_input one_row) d ≡ some v
        → All (λ x. beyond v x ≡ false) pre
          × (beyond v d ≡ false)
          × All (λ x. beyond v x ≡ true) post
    strict [] post d v e h =
        let id : Value.text (codes "a") ≡ v = some_inj (rw (sym (head_eq e)) at h) in
        rw (sym (tail_eq e), sym (head_eq e), sym id) (tt, refl, (refl, tt))
    strict (x ∷ []) post d v e h =
        let id : Value.text (codes "c") ≡ v = some_inj (rw (sym (head_eq (tail_eq e))) at h) in
        rw (sym (tail_eq (tail_eq e)), sym (head_eq (tail_eq e)), sym (head_eq e), sym id)
          ((refl, tt), refl, tt)
    strict (x ∷ y ∷ []) post d v e h = absurd (not_cons (tail_eq (tail_eq e)))
    strict (x ∷ y ∷ z ∷ pre) post d v e h = absurd (not_cons (tail_eq (tail_eq e)))

two_tokens : All (HasToken feed_repository signed_in feed_input one_row str_type) two_docs
unfolding parse_feed_token normalize_feed_cursor_field unwrap_optional_type get_field str_eq
two_tokens =
    ((Value.text (codes "a"), refl, refl, refl), ((Value.text (codes "c"), refl, refl, refl), tt))

follow-all_example :
    follow feed_repository signed_in feed_input one_row 3 [] two_docs
    ≡ (ok (note (codes "a") ∷ note (codes "c") ∷ []), two_docs)
unfolding get_field str_eq
follow-all_example =
    follow-all feed_repository signed_in feed_input one_row str_type typed_feed scoped_filter
      feed_injected two_docs two_docs beyond two_IsOrdered 0 refl two_tokens
