-- ===== src/Data/Sort.antt =====
-- `Sortable.get_sort_info` of src/core_py/data.py: the fields and the directions of an order clause.
use core_py.Base.{
  ℕ, Bool, true, false, Option, none, some, List, [], ◌∷◌, ◌++◌, if◌then◌else◌, ◌==◌, All, arith,
  ◌≡◌, refl, ap, ◌∙◌, inl, inr, Bool-cases, some_inj, All-append,
}
use core_py.Base.Text.{
  Str, codes, is_empty, str_eq, split, split_cons, is_space, strip, strip_trims, HeadOk,
}

pub record SortPair : Type 0 where
  pub field : Str
  pub is_descending : Bool

-- The runs between whitespace characters, the empty ones too.
unfoldable pub split_space : Str → List Str
unfolding is_space
split_space [] = [] ∷ []
split_space (c ∷ s) =
    let rest = split_space s in if is_space c then [] ∷ rest else split_cons c rest

abbrev pub keep_words : List Str → List Str
keep_words [] = []
keep_words ([] ∷ ws) = keep_words ws
keep_words ((c ∷ w) ∷ ws) = (c ∷ w) ∷ keep_words ws

-- `raw.split()`
unfoldable pub words : Str → List Str
unfolding split_space
words s = keep_words (split_space s)

-- `SortPair(parts[0], len(parts) > 1 and parts[1] == "desc")`; an IndexError is `none`.
unfoldable pub sort_pair : List Str → Option SortPair
unfolding str_eq
sort_pair [] = none
sort_pair (field ∷ []) = some (record { field = field; is_descending = false })
sort_pair (field ∷ direction ∷ ws) =
    some (record { field = field; is_descending = str_eq direction (codes "desc") })

abbrev pub add_pair : Option SortPair → Option (List SortPair) → Option (List SortPair)
add_pair none rest = none
add_pair (some p) none = none
add_pair (some p) (some ps) = some (p ∷ ps)

-- One round of the loop: an entry that is empty after `strip` is passed over.
unfoldable pub sort_entry : Str → Option (List SortPair) → Option (List SortPair)
unfolding words sort_pair
sort_entry [] rest = rest
sort_entry (c ∷ raw) rest = add_pair (sort_pair (words (c ∷ raw))) rest

unfoldable pub sort_entries : List Str → Option (List SortPair)
unfolding sort_entry strip
sort_entries [] = some []
sort_entries (raw ∷ raws) = sort_entry (strip raw) (sort_entries raws)

unfoldable pub get_sort_info : Str → Option (List SortPair)
unfolding sort_entries split
get_sort_info order_by = sort_entries (split b',' order_by)

abbrev pub HasField : SortPair → Type 0
HasField p = is_empty p.field ≡ false

split_cons-word :
    (c : ℕ) (ws : List Str)
    → (w : Str) × (vs : List Str) × (keep_words (split_cons c ws) ≡ (c ∷ w) ∷ vs)
split_cons-word c [] = ([], [], refl)
split_cons-word c (w ∷ ws) = (w, keep_words ws, refl)

words-cons :
    (c : ℕ) (s : Str)
    → is_space c ≡ false
    → (w : Str) × (vs : List Str) × (words (c ∷ s) ≡ (c ∷ w) ∷ vs)
unfolding words split_space
words-cons c s h =
    let (w, vs, e) = split_cons-word c (split_space s) in (w, vs, rw (h, split_space) e)

sort_pair-HasField :
    (c : ℕ) (w : Str) (vs : List Str)
    → (p : SortPair) × (sort_pair ((c ∷ w) ∷ vs) ≡ some p) × HasField p
unfolding sort_pair
sort_pair-HasField c w [] = (record { field = c ∷ w; is_descending = false }, refl, refl)
sort_pair-HasField c w (v ∷ vs) =
    (record { field = c ∷ w; is_descending = str_eq v (codes "desc") }, refl, refl)

-- The shape of a sort that does not raise, with a field in every pair.
abbrev pub Sorts : Option (List SortPair) → Type 0
Sorts r = (ps : List SortPair) × (r ≡ some ps) × All HasField ps

sort_entry-Sorts :
    (raw : Str) (r : Option (List SortPair)) → HeadOk raw → Sorts r → Sorts (sort_entry raw r)
unfolding sort_entry
sort_entry-Sorts [] r h s = s
sort_entry-Sorts (c ∷ raw) r h (ps, e, k) =
    let (w, vs, f) = words-cons c raw h in
    let (p, g, m) = sort_pair-HasField c w vs in (p ∷ ps, rw (f, g, e), (m, k))

sort_entries-Sorts : (raws : List Str) → Sorts (sort_entries raws)
unfolding sort_entries
sort_entries-Sorts [] = ([], refl, tt)
sort_entries-Sorts (raw ∷ raws) =
    sort_entry-Sorts (strip raw) (sort_entries raws) (strip_trims raw).0 (sort_entries-Sorts raws)

split-cons : (sep : ℕ) (s : Str) → (w : Str) × (ws : List Str) × (split sep s ≡ w ∷ ws)
unfolding split
split-cons sep [] = ([], [], refl)
split-cons sep (c ∷ s) = elim (Bool-cases (c == sep)) [
  | inl e ↦ ([], split sep s, rw e)
  | inr e ↦ let (w, ws, f) = split-cons sep s in (c ∷ w, ws, rw (e, f))
]

split-append : (sep : ℕ) (a b : Str) → split sep (a ++ sep ∷ b) ≡ split sep a ++ split sep b
unfolding split
split-append sep [] b = let same : (sep == sep) ≡ true = ground arith in rw same
split-append sep (c ∷ a) b = elim (Bool-cases (c == sep)) [
  | inl e ↦ rw (e, split-append sep a b)
  | inr e ↦ let (w, ws, f) = split-cons sep a in rw (e, split-append sep a b, f)
]

sort_entry-append :
    (raw : Str) (r : Option (List SortPair)) (ps qs : List SortPair)
    → HeadOk raw
    → r ≡ some (ps ++ qs)
    → (all : List SortPair) → sort_entry raw (some ps) ≡ some all
    → sort_entry raw r ≡ some (all ++ qs)
unfolding sort_entry
sort_entry-append [] r ps qs h e all f = e ∙ ap some (ap (λ ps. ps ++ qs) (some_inj f))
sort_entry-append (c ∷ raw) r ps qs h e all f =
    let (w, vs, g) = words-cons c raw h in
    let (p, k, m) = sort_pair-HasField c w vs in
    let same : p ∷ ps ≡ all = some_inj (rw (g, k) at f) in
    rw (g, k, e) (ap (λ ps. some (ps ++ qs)) same)

sort_entries-append :
    (xs ys : List Str) (ps qs : List SortPair)
    → sort_entries xs ≡ some ps
    → sort_entries ys ≡ some qs
    → sort_entries (xs ++ ys) ≡ some (ps ++ qs)
unfolding sort_entries
sort_entries-append [] ys ps qs e f = f ∙ ap (λ ps. some (ps ++ qs)) (some_inj e)
sort_entries-append (x ∷ xs) ys ps qs e f =
    let (rs, g, k) = sort_entries-Sorts xs in
    sort_entry-append (strip x) (sort_entries (xs ++ ys)) rs qs (strip_trims x).0
      (sort_entries-append xs ys rs qs g f) ps (rw g at e)

-- An order clause never raises. It gives pairs with a field each, and two clauses with a comma
-- between them give the pairs of the first and then those of the second.
pub get_sort_info_lem :
    (a b : Str)
    → (ps : List SortPair) × (qs : List SortPair) × (get_sort_info a ≡ some ps)
      × (get_sort_info b ≡ some qs)
      × (get_sort_info (a ++ b',' ∷ b) ≡ some (ps ++ qs))
      × All HasField (ps ++ qs)
unfolding get_sort_info
get_sort_info_lem a b =
    let (ps, e, k) = sort_entries-Sorts (split b',' a) in
    let (qs, f, m) = sort_entries-Sorts (split b',' b) in
    (
      ps,
      qs,
      e,
      f,
      rw (split-append b',' a b) (sort_entries-append (split b',' a) (split b',' b) ps qs e f),
      All-append HasField ps qs k m,
    )
