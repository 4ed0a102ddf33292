-- ===== src/Mongox/Repository/Reads/Sound.antt =====
-- What the reads of src/core_py/model/mongox/repository.py rely on, and lemmas on their results.
use core_py.Base.{ℕ, zero, suc, some, List, [], ◌∷◌, map, take, Result, ok, err, All, ◌≡◌, refl, ap}
use core_py.Base.Text.{Str, codes}
use core_py.Mongox.Value.{Value, arr, dict, nil, cons, Fields, end, field}
use core_py.Mongox.Query.{PageQueryInput, FeedQueryInput}
use core_py.Mongox.Act.{Raised, Act, FindOpts, Collection, Env}
use core_py.Mongox.Repository.{Repository}
use core_py.Mongox.Repository.Reads.{find, page_query, feed_query, get_by_filter}

-- A read, and the rows that it returns.
pub data Read : Type 0 where
  find_all : (filter : Fields) (find_opts : FindOpts) → Read
  page : (input : PageQueryInput) → Read
  feed : (input : FeedQueryInput) → Read
  one : (filter : Fields) → Read

abbrev pub mapped {ℓ κ μ} :
    {S : Type ℓ} {A : Type κ} {B : Type μ} → (A → B) → Result Raised A × S → Result Raised B × S
mapped f (err e, s) = (err e, s)
mapped f (ok a, s) = (ok (f a), s)

unfoldable pub rows_of {ℓ κ} :
    {σ : Type ℓ} {T : Type κ} → Repository σ T → Env → Read → Act σ (List T)
unfolding find page_query feed_query get_by_filter
rows_of r env (find_all filter find_opts) s = find r env filter find_opts s
rows_of r env (page input) s = mapped (λ p. p.rows) (page_query r env input s)
rows_of r env (feed input) s = mapped (λ p. p.rows) (feed_query r env input s)
rows_of r env (one filter) s = mapped (λ d. d ∷ []) (get_by_filter r env filter s)

-- A document meets every condition of a filter, where `Meets` is what the collection takes a
-- condition on a key to say.
unfoldable pub MeetsAll : (Str → Value → Fields → Type 0) → Fields → Fields → Type 0
MeetsAll Meets end d = Unit
MeetsAll Meets (field k v fs) d = Meets k v d × MeetsAll Meets fs d

-- What the reads rely on: a collection returns only documents that meet the filter, and `$and` says
-- that both filters are met.
pub record IsSound {ℓ} {σ : Type ℓ} (c : Collection σ) (Meets : Str → Value → Fields → Type 0)
    : Type ℓ where
  pub found :
      (f : Fields) (o : FindOpts) (s s2 : σ) (docs : List Fields)
      → c.find f o s ≡ (ok docs, s2)
      → All (MeetsAll Meets f) docs
  pub found_one :
      (f : Fields) (s s2 : σ) (d : Fields) → c.find_one f s ≡ (ok (some d), s2) → MeetsAll Meets f d
  pub both :
      (f g d : Fields)
      → Meets (codes "$and") (arr (cons (dict f) (cons (dict g) nil))) d
      → MeetsAll Meets f d × MeetsAll Meets g d

pub take-All {ℓ κ} :
    {A : Type ℓ} (P : A → Type κ) (n : ℕ) (xs : List A) → All P xs → All P (take n xs)
take-All P zero xs h = tt
take-All P (suc n) [] h = tt
take-All P (suc n) (x ∷ xs) h = (h.0, take-All P n xs h.1)

pub map-All {ℓ κ μ} :
    {A : Type ℓ} (P : A → Type κ) (Q : A → Type μ) (f : (a : A) → P a → Q a) (xs : List A)
    → All P xs
    → All Q xs
map-All P Q f [] h = tt
map-All P Q f (x ∷ xs) h = (f x h.0, map-All P Q f xs h.1)

pub take-map {ℓ κ} :
    {A : Type ℓ} {B : Type κ} (f : A → B) (n : ℕ) (xs : List A)
    → take n (map f xs) ≡ map f (take n xs)
take-map f zero xs = refl
take-map f (suc n) [] = refl
take-map f (suc n) (x ∷ xs) = ap (λ ys. f x ∷ ys) (take-map f n xs)

pub mapped-eq-ok {ℓ κ μ} :
    {S : Type ℓ} {A : Type κ} {B : Type μ} (f : A → B) (m : Result Raised A × S) {b : B} {t : S}
    → mapped f m ≡ (ok b, t)
    → (a : A) × (m ≡ (ok a, t)) × (f a ≡ b)
mapped-eq-ok f (ok a, s) h = (a, cc, cc)
mapped-eq-ok f (err e, s) h = absurd cc
