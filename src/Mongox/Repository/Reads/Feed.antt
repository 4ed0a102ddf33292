-- ===== src/Mongox/Repository/Reads/Feed.antt =====
-- The pages of `feed_query` of src/core_py/model/mongox/repository.py, one after the other.
use core_py.Base.{
  ℕ, zero, suc, ◌+◌, ◌-◌, ◌≤◌, ◌<◌, Bool, true, false, none, some, List, [], ◌∷◌, ◌++◌, map, take,
  drop, if◌then◌else◌, ltb, length, get_elem?, take-append-drop, length-take, append_assoc, ok, All,
  All-append_right, length-append, ltb→lt, ◌≡◌, refl, ap, ◌∙◌, sym, subst, inl, inr, Bool-cases,
  arith,
}
use core_py.Base.Text.{Str, is_empty}
use core_py.Model.Pages.{Pager}
use core_py.Mongox.Value.{Value, Fields, get_field}
use core_py.Mongox.Query.{
  FeedQueryInput, FieldType, parse_feed_token, merge_feed_filter, feed_cursor_filter,
  feed_sort_conf, normalize_feed_cursor_field,
}
use core_py.Mongox.Act.{Act, after, done, lift, FindOpts, Env}
use core_py.Mongox.Repository.{Repository, inject_cond}
use core_py.Mongox.Repository.Reads.{
  feed_query, feed_filter, feed_page, feed_cursor_field_type, feed_cursor_token, page_size_of,
}

-- The last of the first rows, where there are more.
take-last {ℓ} :
    {A : Type ℓ} (m : ℕ) (xs : List A)
    → suc m < length xs
    → (q : List A) × (d : A) × (take (suc m) xs ≡ q ++ d ∷ [])
      × (get_elem? (take (suc (suc m)) xs) m ≡ some d)
take-last m [] h = absurd (omega arith)
take-last zero (x ∷ xs) h = ([], x, refl, refl)
take-last (suc m) (x ∷ xs) h =
    let (q, d, e, g) = take-last m xs (omega arith) in (x ∷ q, d, ap (λ ys. x ∷ ys) e, g)

take-all {ℓ} : {A : Type ℓ} (n : ℕ) (xs : List A) → length xs ≤ n → take n xs ≡ xs
take-all zero [] h = refl
take-all zero (x ∷ xs) h = absurd (omega arith)
take-all (suc n) [] h = refl
take-all (suc n) (x ∷ xs) h = ap (λ ys. x ∷ ys) (take-all n xs (omega arith))

take-less {ℓ κ} :
    {A : Type ℓ} {B : Type κ} (f : A → B) (n : ℕ) (xs : List A)
    → take n (map f (take (suc n) xs)) ≡ map f (take n xs)
take-less f zero xs = refl
take-less f (suc n) [] = refl
take-less f (suc n) (x ∷ xs) = ap (λ ys. f x ∷ ys) (take-less f n xs)

length-map {ℓ κ} :
    {A : Type ℓ} {B : Type κ} (f : A → B) (xs : List A) → length (map f xs) ≡ length xs
length-map f [] = refl
length-map f (x ∷ xs) = ap suc (length-map f xs)

map-append {ℓ κ} :
    {A : Type ℓ} {B : Type κ} (f : A → B) (xs ys : List A) → map f (xs ++ ys) ≡ map f xs ++ map f ys
map-append f [] ys = refl
map-append f (x ∷ xs) ys = ap (λ zs. f x ∷ zs) (map-append f xs ys)

-- The documents that pass a test.
abbrev pub filter {ℓ} : {A : Type ℓ} → (A → Bool) → List A → List A
filter p [] = []
filter p (x ∷ xs) = let rest = filter p xs in if p x then x ∷ rest else rest

filter-all {ℓ} :
    {A : Type ℓ} (p : A → Bool) (xs : List A) → All (λ x. p x ≡ true) xs → filter p xs ≡ xs
filter-all p [] h = refl
filter-all p (x ∷ xs) (h, hs) = rw (h, filter-all p xs hs)

filter-beyond {ℓ} :
    {A : Type ℓ} (p : A → Bool) (pre post : List A) (d : A)
    → All (λ x. p x ≡ false) pre
    → p d ≡ false
    → All (λ x. p x ≡ true) post
    → filter p (pre ++ d ∷ post) ≡ post
filter-beyond p [] post d h here hs = rw here (filter-all p post hs)
filter-beyond p (x ∷ pre) post d (h, h2) here hs = rw h (filter-beyond p pre post d h2 here hs)

-- The input whose pager has the token of the page before.
abbrev pub at_token : FeedQueryInput → Pager → Str → FeedQueryInput
at_token input pager token = record input { pager = some (record pager { page_token = token }) }

module _ {ℓ κ} {σ : Type ℓ} {T : Type κ} (r : Repository σ T) (env : Env) (input : FeedQueryInput)
    (pager : Pager) where
  abbrev pub cursor_field : Str
  cursor_field = normalize_feed_cursor_field input.cursor_field

  abbrev pub page_opts : FindOpts
  page_opts = record {
    limit = some (page_size_of (some pager) + 1);
    skip = none;
    sort = some (feed_sort_conf cursor_field input.is_descending);
  }

  -- A caller that follows the tokens until one is empty, for at most so many pages.
  unfoldable pub follow : ℕ → Str → Act σ (List T)
  follow zero token s = (ok [], s)
  follow (suc fuel) token s = after (feed_query r env (at_token input pager token) s) (λ page s.
      let rest = follow fuel page.next_page_token s in
      if is_empty page.next_page_token
      then (ok page.rows, s)
      else after rest (λ rows. done (page.rows ++ rows)))

  -- What the collection returns for the pages: the documents in the order of the cursor, of which a
  -- page after the first keeps those whose cursor lies beyond the token's value. No two documents
  -- have one cursor: beyond the cursor of a document lie the documents after it and no other.
  pub record IsOrdered (beyond : Value → Fields → Bool) (base : Fields) (all : List Fields) (s : σ)
      : Type ℓ where
    pub from_first :
        r.collection.find base page_opts s ≡ (ok (take (page_size_of (some pager) + 1) all), s)
    pub from_next :
        (v : Value)
        → r.collection.find
            (merge_feed_filter base (feed_cursor_filter cursor_field v input.is_descending))
            page_opts
            s
          ≡ (ok (take (page_size_of (some pager) + 1) (filter (beyond v) all)), s)
    pub is_strict :
        (pre post : List Fields) (d : Fields) (v : Value)
        → all ≡ pre ++ d ∷ post
        → get_field cursor_field d ≡ some v
        → All (λ x. beyond v x ≡ false) pre
          × (beyond v d ≡ false)
          × All (λ x. beyond v x ≡ true) post

  -- A document has a cursor whose text is a token that reads back.
  abbrev pub HasToken : FieldType → Fields → Type 0
  HasToken t d =
      (v : Value) × (get_field cursor_field d ≡ some v)
      × (is_empty (r.texts.show v) ≡ false)
      × (parse_feed_token r.texts.to_float r.texts.from_isoformat (r.texts.show v) t ≡ ok v)

  module _ (t : FieldType) (typed : feed_cursor_field_type r cursor_field ≡ some t) (base : Fields)
      (injected : inject_cond r env input.filter ≡ ok base) (all : List Fields) (s : σ)
      (beyond : Value → Fields → Bool) (ordered : IsOrdered beyond base all s) (m : ℕ)
      (size : page_size_of (some pager) ≡ suc m) where
    -- The page that a token asks for begins a given rest of the documents.
    abbrev Serves : Str → List Fields → Type (ℓ ⊔ κ)
    Serves token post =
        feed_query r env (at_token input pager token) s
        ≡ lift (feed_page r (suc m) cursor_field (take (suc (suc m)) post)) s

    first-Serves : Serves [] all
    unfolding feed_query feed_filter feed_page
    first-Serves =
        let more : suc m + 1 ≡ suc (suc m) = omega arith in
        rw (injected, ordered.from_first, size, more)

    next-Serves :
        (pre post : List Fields) (d : Fields)
        → all ≡ pre ++ d ∷ post
        → (h : HasToken t d) → Serves (r.texts.show h.0) post
    unfolding feed_query feed_filter feed_page
    next-Serves pre post d e (v, has, shown, parsed) =
        let more : suc m + 1 ≡ suc (suc m) = omega arith in
        let (earlier, here, later) = ordered.is_strict pre post d v e has in
        let rest : filter (beyond v) all ≡ post =
          ap (filter (beyond v)) e ∙ filter-beyond (beyond v) pre post d earlier here later in
        rw (injected, shown, typed, parsed, ordered.from_next v, rest, size, more)

    page-last :
        (post : List Fields)
        → length post ≤ suc m
        → feed_page r (suc m) cursor_field (take (suc (suc m)) post)
          ≡ ok (record { rows = map r.entity.decode post; next_page_token = [] })
    unfolding feed_page
    page-last post h =
        let same : length (map r.entity.decode post) ≡ length post =
          length-map r.entity.decode post in
        let none_left : ltb (suc m) (length (map r.entity.decode post)) ≡ false =
          ground (arith, same) in
        rw (take-all (suc (suc m)) post (omega arith), none_left)

    page-more :
        (post : List Fields) (d : Fields) (v : Value)
        → suc m < length post
        → get_elem? (take (suc (suc m)) post) m ≡ some d
        → get_field cursor_field d ≡ some v
        → feed_page r (suc m) cursor_field (take (suc (suc m)) post)
          ≡ ok (record {
            rows = map r.entity.decode (take (suc m) post);
            next_page_token = r.texts.show v;
          })
    unfolding feed_page feed_cursor_token
    page-more post d v h at has =
        let docs = take (suc (suc m)) post in
        let same : length (map r.entity.decode docs) ≡ length docs =
          length-map r.entity.decode docs in
        let some_left : ltb (suc m) (length (map r.entity.decode docs)) ≡ true =
          ground (arith, same, length-take (suc (suc m)) post) in
        let before : (suc m - 1) ≡ m = omega arith in
        rw (some_left, before, at, has, take-less r.entity.decode (suc m) post)

    -- Following the tokens from a page's to the end gives the rest of the documents.
    follow-rest :
        (fuel : ℕ) (token : Str) (pre post : List Fields)
        → all ≡ pre ++ post
        → All (HasToken t) post
        → Serves token post
        → length post < fuel
        → follow fuel token s ≡ (ok (map r.entity.decode post), s)
    unfolding follow
    follow-rest zero token pre post e h serves enough = absurd (omega arith)
    follow-rest (suc fuel) token pre post e h serves enough =
        elim (Bool-cases (ltb (suc m) (length post))) [
          | inl more ↦
              let (q, d, first, at) = take-last m post (ltb→lt _ _ more) in
              let rest = drop (suc m) post in
              let parts : post ≡ q ++ d ∷ rest =
                sym (take-append-drop (suc m) post)
                ∙ (ap (λ xs. xs ++ rest) first ∙ append_assoc q (d ∷ []) rest) in
              let (has, hs) =
                All-append_right (HasToken t) q (d ∷ rest) (subst (All (HasToken t)) parts h) in
              let before : all ≡ (pre ++ q) ++ d ∷ rest =
                e ∙ (ap (λ xs. pre ++ xs) parts ∙ sym (append_assoc pre q (d ∷ rest))) in
              let after_d : all ≡ ((pre ++ q) ++ d ∷ []) ++ rest =
                before ∙ sym (append_assoc (pre ++ q) (d ∷ []) rest) in
              let shorter : length rest < fuel =
                omega (arith, enough, ap length parts, length-append q (d ∷ rest)) in
              let page = page-more post d has.0 (ltb→lt _ _ more) at has.1 in
              let next =
                follow-rest fuel (r.texts.show has.0) ((pre ++ q) ++ d ∷ []) rest after_d hs
                  (next-Serves (pre ++ q) rest d before has) shorter in
              let whole : map r.entity.decode (take (suc m) post) ++ map r.entity.decode rest
                  ≡ map r.entity.decode post =
                sym (map-append r.entity.decode (take (suc m) post) rest)
                ∙ ap (map r.entity.decode) (take-append-drop (suc m) post) in
              rw (serves, page, has.2, next, whole)
          | inr last ↦ rw (serves, page-last post (ground arith))
        ]

    -- A caller that follows the tokens of `feed_query` from the first page until a token is empty
    -- gets every document of the collection that the filter selects, once each and in the cursor's
    -- order, and ends after no more pages than there are documents and one. This is for a
    -- collection that is unchanged meanwhile and returns the documents in the order of the cursor,
    -- for documents with distinct cursors, and for cursors whose texts read back.
    pub follow-all :
        All (HasToken t) all → follow (suc (length all)) [] s ≡ (ok (map r.entity.decode all), s)
    follow-all h = follow-rest (suc (length all)) [] [] all refl h first-Serves (omega arith)
