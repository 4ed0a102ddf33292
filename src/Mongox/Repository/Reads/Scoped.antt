-- ===== src/Mongox/Repository/Reads/Scoped.antt =====
-- What the reads of src/core_py/model/mongox/repository.py return: documents in scope.
use core_py.Base.{
  ℕ, zero, suc, Bool, Option, none, some, List, [], ◌∷◌, map, take, ltb, length, Result, ok, err,
  All, ◌≡◌, refl, ap, ◌∙◌, sym, subst, inl, inr, Bool-cases, some_inj, ok_inj, guard-eq-ok,
}
use core_py.Base.Text.{Str, codes, str_eq, str_eq_iff, is_empty}
use core_py.Base.Dict
use core_py.Base.Dict.{Dict}
use core_py.Data.{Kind}
use core_py.Model.Pages.{PagedResult, FeedResult}
use core_py.Mongox.Value.{Value, arr, dict, nil, cons, Fields, end, field, get_field}
use core_py.Mongox.Query.{
  PageQueryInput, FeedQueryInput, merge_feed_filter, feed_cursor_filter, sort_conf,
  normalize_feed_cursor_field,
}
use core_py.Mongox.Act.{
  Act, lift, from_db, after-eq-ok, from_db-eq-ok, lift-eq-ok, done-eq-ok, FindOpts, Env,
}
use core_py.Mongox.Repository.{Repository, inject_cond}
use core_py.Mongox.Repository.Scope.{demanded, inject_cond_lem}
use core_py.Mongox.Repository.Reads.{
  find, page_query, feed_query, feed_filter, feed_page, get_by_filter, get_attempts, answered,
  with_token, with_cursor, or_index_error, page_token_of, page_size_of,
}
use core_py.Mongox.Repository.Reads.Sound.{
  Read, find_all, page, feed, one, rows_of, MeetsAll, IsSound, take-All, map-All, take-map,
  mapped-eq-ok,
}

module _ (Meets : Str → Value → Fields → Type 0) where
  get_field-MeetsAll :
      (k : Str) (v : Value) (f d : Fields)
      → get_field k f ≡ some v
      → MeetsAll Meets f d
      → Meets k v d
  unfolding get_field MeetsAll
  get_field-MeetsAll k v end d e h = absurd cc
  get_field-MeetsAll k v (field j w fs) d e h = elim (Bool-cases (str_eq j k)) [
    | inl m ↦
        subst (λ j. Meets j v d) ((str_eq_iff j k).0 m)
          (subst (λ w. Meets j w d) (some_inj (rw m at e)) h.0)
    | inr m ↦ get_field-MeetsAll k v fs d (rw m at e) h.1
  ]

  -- A feed's filter keeps the base's conditions.
  merged-MeetsAll :
      (f g d : Fields)
      → ((f g d : Fields)
          → Meets (codes "$and") (arr (cons (dict f) (cons (dict g) nil))) d
          → MeetsAll Meets f d × MeetsAll Meets g d)
      → MeetsAll Meets (merge_feed_filter f g) d
      → MeetsAll Meets f d
  unfolding merge_feed_filter MeetsAll
  merged-MeetsAll end g d both h = tt
  merged-MeetsAll (field k v f) end d both h = h
  merged-MeetsAll (field k v f) (field j w g) d both h = (both (field k v f) (field j w g) d h.0).0

  module _ {ℓ κ} {σ : Type ℓ} {T : Type κ} (r : Repository σ T) (env : Env)
      (sound : IsSound r.collection Meets) where
    -- The rows are decoded documents that meet the condition.
    abbrev Rows : Str → Value → List T → Type κ
    Rows k v rows = (docs : List Fields) × (rows ≡ map r.entity.decode docs) × All (Meets k v) docs

    scoped_filter :
        (k : Str) (v : Value) (filter g d : Fields)
        → Dict.get k (demanded r env) ≡ some v
        → inject_cond r env filter ≡ ok g
        → MeetsAll Meets g d
        → Meets k v d
    scoped_filter k v filter g d demand e h =
        let gets : get_field k g ≡ some v = inject_cond_lem r env filter g k e ∙ rw demand in
        get_field-MeetsAll k v g d gets h

    found-Rows :
        (k : Str) (v : Value) (g : Fields) (o : FindOpts) (s t : σ) (docs : List Fields)
        → ((d : Fields) → MeetsAll Meets g d → Meets k v d)
        → from_db (r.collection.find g o s) ≡ (ok docs, t)
        → All (Meets k v) docs
    found-Rows k v g o s t docs scoped h =
        map-All (MeetsAll Meets g) (Meets k v) scoped docs
          (sound.found g o s t docs (from_db-eq-ok (r.collection.find g o s) h))

    find-Rows :
        (k : Str) (v : Value) (filter : Fields) (o : FindOpts) (s t : σ) (rows : List T)
        → Dict.get k (demanded r env) ≡ some v
        → find r env filter o s ≡ (ok rows, t)
        → Rows k v rows
    unfolding find
    find-Rows k v filter o s t rows demand h =
        let (g, s1, e, h1) = after-eq-ok (lift (inject_cond r env filter) s) _ h in
        let (docs, s2, f, h2) = after-eq-ok (from_db (r.collection.find g o s1)) _ h1 in
        let scoped = λ (d : Fields) (m : MeetsAll Meets g d).
          scoped_filter k v filter g d demand (lift-eq-ok _ s e) m in
        (docs, sym (done-eq-ok _ s2 h2), found-Rows k v g o s1 s2 docs scoped f)

    page_query-Rows :
        (k : Str) (v : Value) (input : PageQueryInput) (s t : σ) (p : PagedResult T)
        → Dict.get k (demanded r env) ≡ some v
        → page_query r env input s ≡ (ok p, t)
        → Rows k v p.rows
    unfolding page_query
    page_query-Rows k v input s t p demand h =
        let (g, s1, e, h1) = after-eq-ok (lift (inject_cond r env input.filter) s) _ h in
        let (n, s2, e2, h2) = after-eq-ok (from_db (r.collection.count_documents g s1)) _ h1 in
        let (sort, s3, e3, h3) =
          after-eq-ok (lift (or_index_error (sort_conf input.sort)) s2) _ h2 in
        let (docs, s4, f, h4) = after-eq-ok (from_db (r.collection.find g _ s3)) _ h3 in
        let scoped = λ (d : Fields) (m : MeetsAll Meets g d).
          scoped_filter k v input.filter g d demand (lift-eq-ok _ s e) m in
        (docs, ap (λ p. p.rows) (sym (done-eq-ok _ s4 h4)), found-Rows k v g _ s3 s4 docs scoped f)

    with_cursor-Meets :
        (k : Str) (v : Value) (value : Result Kind Value) (cursor_field : Str)
        (is_descending : Bool) (base filter d : Fields)
        → (MeetsAll Meets base d → Meets k v d)
        → with_cursor value cursor_field is_descending base ≡ ok filter
        → MeetsAll Meets filter d
        → Meets k v d
    with_cursor-Meets k v (err e) cursor_field is_descending base filter d scoped h m = absurd cc
    with_cursor-Meets k v (ok w) cursor_field is_descending base filter d scoped h m = scoped (
        merged-MeetsAll base (feed_cursor_filter cursor_field w is_descending) d sound.both
          (subst (λ f. MeetsAll Meets f d) (sym (ok_inj h)) m))

    feed_filter-Meets :
        (k : Str) (v : Value) (page_token cursor_field : Str) (is_descending : Bool)
        (base filter d : Fields)
        → (MeetsAll Meets base d → Meets k v d)
        → feed_filter r page_token cursor_field is_descending base ≡ ok filter
        → MeetsAll Meets filter d
        → Meets k v d
    unfolding feed_filter
    feed_filter-Meets k v page_token cursor_field is_descending base filter d scoped h m =
        elim (Bool-cases (is_empty page_token)) [
          | inl e ↦ scoped (subst (λ f. MeetsAll Meets f d) (sym (ok_inj (rw e at h))) m)
          | inr e ↦
              let (_, h2) = guard-eq-ok _ _ _ (rw e at h) in
              with_cursor-Meets k v _ cursor_field is_descending base filter d scoped h2 m
        ]

    with_token-rows :
        (rows : List T) (token : Result Kind Str) (p : FeedResult T)
        → with_token r rows token ≡ ok p
        → p.rows ≡ rows
    with_token-rows rows (ok token) p h = ap (λ p. p.rows) (sym (ok_inj h))
    with_token-rows rows (err e) p h = absurd cc

    feed_page-Rows :
        (k : Str) (v : Value) (page_size : ℕ) (cursor_field : Str) (docs : List Fields)
        (p : FeedResult T)
        → All (Meets k v) docs
        → feed_page r page_size cursor_field docs ≡ ok p
        → Rows k v p.rows
    unfolding feed_page
    feed_page-Rows k v page_size cursor_field docs p m h =
        elim (Bool-cases (ltb page_size (length (map r.entity.decode docs)))) [
          | inl e ↦ (
            take page_size docs,
            with_token-rows (take page_size (map r.entity.decode docs)) _ p (rw e at h)
                ∙ take-map r.entity.decode page_size docs,
            take-All (Meets k v) page_size docs m,
          )
          | inr e ↦ (docs, ap (λ p. p.rows) (sym (ok_inj (rw e at h))), m)
        ]

    feed_query-Rows :
        (k : Str) (v : Value) (input : FeedQueryInput) (s t : σ) (p : FeedResult T)
        → Dict.get k (demanded r env) ≡ some v
        → feed_query r env input s ≡ (ok p, t)
        → Rows k v p.rows
    unfolding feed_query
    feed_query-Rows k v input s t p demand h =
        let token = page_token_of input.pager in
        let cursor = normalize_feed_cursor_field input.cursor_field in
        let (base, s1, e, h1) = after-eq-ok (lift (inject_cond r env input.filter) s) _ h in
        let (filter, s2, e2, h2) =
          after-eq-ok (lift (feed_filter r token cursor input.is_descending base) s1) _ h1 in
        let (docs, s3, f, h3) = after-eq-ok (from_db (r.collection.find filter _ s2)) _ h2 in
        let scoped = λ (d : Fields) (m : MeetsAll Meets filter d).
          feed_filter-Meets k v token cursor input.is_descending base filter d
            (λ b. scoped_filter k v input.filter base d demand (lift-eq-ok _ s e) b)
            (lift-eq-ok _ s1 e2) m in
        feed_page-Rows k v (page_size_of input.pager) cursor docs p
          (found-Rows k v filter _ s2 s3 docs scoped f) (lift-eq-ok _ s3 h3)

    answered-Rows :
        (k : Str) (v : Value) (g : Fields) (again : Act σ T) (found : Option Fields) (s t : σ)
        (row : T)
        → ((d : Fields) → found ≡ some d → Meets k v d)
        → (again s ≡ (ok row, t) → Rows k v (row ∷ []))
        → answered r again found s ≡ (ok row, t)
        → Rows k v (row ∷ [])
    answered-Rows k v g again none s t row here later h = later h
    answered-Rows k v g again (some d) s t row here later h =
        (d ∷ [], ap (λ x. x ∷ []) (sym (done-eq-ok _ s h)), (here d refl, tt))

    get_attempts-Rows :
        (n : ℕ) (k : Str) (v : Value) (g : Fields) (s t : σ) (row : T)
        → ((d : Fields) → MeetsAll Meets g d → Meets k v d)
        → get_attempts r n g s ≡ (ok row, t)
        → Rows k v (row ∷ [])
    unfolding get_attempts
    get_attempts-Rows zero k v g s t row scoped h =
        let (found, s1, e, h1) = after-eq-ok (from_db (r.collection.find_one g s)) _ h in
        let one = from_db-eq-ok (r.collection.find_one g s) e in
        answered-Rows k v g _ found s1 t row
          (λ d same. scoped d (sound.found_one g s s1 d (rw same at one))) (λ bad. absurd cc) h1
    get_attempts-Rows (suc n) k v g s t row scoped h =
        let (found, s1, e, h1) = after-eq-ok (from_db (r.collection.find_one g s)) _ h in
        let one = from_db-eq-ok (r.collection.find_one g s) e in
        answered-Rows k v g _ found s1 t row
          (λ d same. scoped d (sound.found_one g s s1 d (rw same at one)))
          (λ again. get_attempts-Rows n k v g (r.collection.pause s1) t row scoped again) h1

    get_by_filter-Rows :
        (k : Str) (v : Value) (filter : Fields) (s t : σ) (row : T)
        → Dict.get k (demanded r env) ≡ some v
        → get_by_filter r env filter s ≡ (ok row, t)
        → Rows k v (row ∷ [])
    unfolding get_by_filter
    get_by_filter-Rows k v filter s t row demand h =
        let (g, s1, e, h1) = after-eq-ok (lift (inject_cond r env filter) s) _ h in
        get_attempts-Rows _ k v g s1 t row
          (λ d m. scoped_filter k v filter g d demand (lift-eq-ok _ s e) m) h1

    -- Every row that a read returns is the decoding of a document that meets each condition of the
    -- scope: the operator's, the tenant's or the app's, as the options say, and that it is not
    -- deleted, whatever filter, page or token the caller gives. The collection is taken to return
    -- only documents that meet the filter.
    pub rows_of-scoped :
        (read : Read) (k : Str) (v : Value) (s t : σ) (rows : List T)
        → Dict.get k (demanded r env) ≡ some v
        → rows_of r env read s ≡ (ok rows, t)
        → (docs : List Fields) × (rows ≡ map r.entity.decode docs) × All (Meets k v) docs
    unfolding rows_of
    rows_of-scoped (find_all filter o) k v s t rows demand h =
        find-Rows k v filter o s t rows demand h
    rows_of-scoped (page input) k v s t rows demand h =
        let (p, e, same) = mapped-eq-ok _ (page_query r env input s) h in
        subst (Rows k v) same (page_query-Rows k v input s t p demand e)
    rows_of-scoped (feed input) k v s t rows demand h =
        let (p, e, same) = mapped-eq-ok _ (feed_query r env input s) h in
        subst (Rows k v) same (feed_query-Rows k v input s t p demand e)
    rows_of-scoped (one filter) k v s t rows demand h =
        let (row, e, same) = mapped-eq-ok _ (get_by_filter r env filter s) h in
        subst (Rows k v) same (get_by_filter-Rows k v filter s t row demand e)
