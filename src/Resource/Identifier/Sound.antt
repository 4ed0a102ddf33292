-- ===== src/Resource/Identifier/Sound.antt =====
-- What an identifier that was parsed satisfies, and the identifiers that always parse.
use core_py.Base.{
  ℕ, true, false, not, ◌&&◌, ◌||◌, Option, List, [], ◌∷◌, ◌++◌, ◌==◌, any, all, Result, ok, err,
  bind-eq-ok, guard-eq-ok, ok_inj, All, arith, ◌≡◌, refl, ap, subst, inl, inr, Bool-cases,
  Option-cases,
}
use core_py.Base.Text.{
  Str, strip_prefix, lower_char, str_eq_refl, codes, is_empty, str_eq, remove_prefix, starts_with,
  contains, partition, partition_parts, partition-append, lower,
}
use core_py.Base.Dict
use core_py.Base.Dict.{Dict}
use core_py.Resource.Identifier.{
  Fault, Identifier, is_param_name, is_scheme, is_scheme_char, collect_params, source_scheme,
  param_or_empty, has_separator, has_control, validate_identifier_params, parse_params, identify,
  parse, with_raw,
}

source_scheme-eq-ok :
    (uri scheme : Str)
    → source_scheme uri ≡ ok scheme
    → (rest : Str) × (uri ≡ scheme ++ b':' ∷ rest) × (is_scheme scheme ≡ true)
unfolding source_scheme
source_scheme-eq-ok uri scheme h =
    let parts = partition b':' uri in
    let (there, h1) = guard-eq-ok (not parts.1 || is_empty parts.0) _ _ h in
    let (valid, h2) = guard-eq-ok (not (is_scheme parts.0)) _ _ h1 in
    let (lowered, h3) = guard-eq-ok (not (str_eq (lower parts.0) parts.0)) _ _ h2 in
    let same : parts.0 ≡ scheme = ok_inj h3 in
    (
      parts.2,
      subst (λ s. uri ≡ s ++ b':' ∷ parts.2) same (partition_parts b':' uri (ground arith)),
      subst (λ s. is_scheme s ≡ true) same (ground arith),
    )

IsNamed : Str × Str → Type 0
IsNamed entry = is_param_name entry.0 ≡ true

put-IsNamed :
    (k v : Str) (d : Dict Str)
    → is_param_name k ≡ true
    → All IsNamed d
    → All IsNamed (Dict.put k v d)
unfolding Dict.put IsNamed
put-IsNamed k v [] h a = (h, tt)
put-IsNamed k v ((j, w) ∷ d) h a = elim (Bool-cases (str_eq j k)) [
  | inl e ↦ rw e (a.0, a.1)
  | inr e ↦ rw e (a.0, put-IsNamed k v d h a.1)
]

collect_params-IsNamed :
    (params : Dict Str) (values : Dict (List Str)) (out : Dict Str)
    → All IsNamed params
    → collect_params params values ≡ ok out
    → All IsNamed out
unfolding collect_params
collect_params-IsNamed params [] out a h = subst (All IsNamed) (ok_inj h) a
collect_params-IsNamed params ((key, []) ∷ values) out a h =
    let (named, e) = guard-eq-ok (not (is_param_name key)) _ _ h in cc
collect_params-IsNamed params ((key, v ∷ []) ∷ values) out a h =
    let (named, e) = guard-eq-ok (not (is_param_name key)) _ _ h in
    collect_params-IsNamed (Dict.put key v params) values out
      (put-IsNamed key v params (ground arith) a) e
collect_params-IsNamed params ((key, v ∷ w ∷ vs) ∷ values) out a h =
    let (named, e) = guard-eq-ok (not (is_param_name key)) _ _ h in cc

-- The file name of valid parameters has no separator and no control character.
abbrev pub IsSafe : Str → Type 0
IsSafe filename = (has_separator filename ≡ false) × (has_control filename ≡ false)

empty-IsSafe : (s : Str) → is_empty s ≡ true → IsSafe s
unfolding has_separator has_control contains starts_with
empty-IsSafe [] h = (refl, refl)
empty-IsSafe (c ∷ s) h = cc

validate-IsSafe :
    (params : Dict Str)
    → validate_identifier_params params ≡ ok tt
    → IsSafe (param_or_empty (codes "filename") params)
unfolding validate_identifier_params
validate-IsSafe params h =
    let filename = param_or_empty (codes "filename") params in
    elim (Bool-cases (is_empty filename)) [
      | inl e ↦ empty-IsSafe filename e
      | inr e ↦
          let (plain, h1) = guard-eq-ok (has_separator filename) _ _ (rw e at h) in
          let (printable, h2) = guard-eq-ok (has_control filename) _ _ h1 in (plain, printable)
    ]

with_raw-eq-ok {ℓ} :
    {A : Type ℓ} (raw : Str) (m : Result Fault A) (a : A) → with_raw raw m ≡ ok a → m ≡ ok a
with_raw-eq-ok raw (ok x) a h = ap ok (ok_inj h)
with_raw-eq-ok raw (err e) a h = cc

-- What `parse` promises of an identifier: its parts stand in the text, its scheme and its parameters'
-- names are well formed, and its file name names a file in one directory.
unfoldable pub IsParsed : Str → Identifier → Type 0
IsParsed raw i =
    (meta : Str) × (rest : Str) × (raw ≡ meta ++ b'#' ∷ i.source_uri)
    × (i.source_uri ≡ i.scheme ++ b':' ∷ rest)
    × (is_scheme i.scheme ≡ true)
    × All (λ entry. is_param_name entry.0 ≡ true) i.params
    × IsSafe (param_or_empty (codes "filename") i.params)
    × (i.auth_id ≡ param_or_empty (codes "auth_id") i.params)

module _ (parse_qs : Str → Option (Dict (List Str))) where
  parse_params-IsNamed :
      (meta : Str) (params : Dict Str) → parse_params parse_qs meta ≡ ok params → All IsNamed params
  unfolding parse_params
  parse_params-IsNamed meta params h = elim (Bool-cases (str_eq meta (codes "ofa-res"))) [
    | inl e ↦ subst (All IsNamed) (ok_inj (rw e at h)) tt
    | inr e ↦ elim (Option-cases (parse_qs (remove_prefix meta (codes "ofa-res?")))) [
      | inl q ↦ absurd (failed (rw (e, q) at h))
      | inr (values, q) ↦ collect_params-IsNamed [] values params tt (rw (e, q) at h)
    ]
  ]
    where
      failed : {x : Fault} {d : Dict Str} → ◌≡◌ {A = Result Fault (Dict Str)} (err x) (ok d) → ⊥
      failed h = cc

  -- An identifier that `parse` returns is a part of the text, its scheme is well formed, each of its
  -- parameters has a well-formed name, and its file name holds no separator, no two dots in a row
  -- and no control character.
  pub parse-IsParsed : (raw : Str) (i : Identifier) → parse parse_qs raw ≡ ok i → IsParsed raw i
  unfolding parse IsParsed IsNamed
  parse-IsParsed raw i h =
      let parts = partition b'#' raw in
      let (full, h1) = guard-eq-ok (is_empty raw) _ _ h in
      let (begins, h2) = guard-eq-ok (not (starts_with raw (codes "ofa-res"))) _ _ h1 in
      let (there, h3) = guard-eq-ok (not parts.1) _ _ h2 in
      let (sourced, h4) = guard-eq-ok (is_empty parts.2) _ _ h3 in
      let (meta, h5) =
        guard-eq-ok
          (not (str_eq parts.0 (codes "ofa-res")) && not (starts_with parts.0 (codes "ofa-res?"))) _
          _ h4 in
      let whole = with_raw-eq-ok raw (identify parse_qs raw parts.0 parts.2) i h5 in
      let (params, p, k1) = bind-eq-ok (parse_params parse_qs parts.0) _ whole in
      let (scheme, s, k2) = bind-eq-ok (source_scheme parts.2) _ k1 in
      let (u, v, k3) = bind-eq-ok (validate_identifier_params params) _ k2 in
      let (rest, e, valid) = source_scheme-eq-ok parts.2 scheme s in
      subst (IsParsed raw) (ok_inj k3) (
        parts.0,
        rest,
        partition_parts b'#' raw (ground arith),
        e,
        valid,
        parse_params-IsNamed parts.0 params p,
        validate-IsSafe params v,
        refl,
      )

scheme_char-lower : (c : ℕ) → is_scheme_char c ≡ true → lower_char c ≡ c
unfolding lower_char
scheme_char-lower c h = ground arith

all-scheme_lower : (s : Str) → all is_scheme_char s ≡ true → lower s ≡ s
unfolding lower
all-scheme_lower [] h = refl
all-scheme_lower (c ∷ s) h =
    let tail : all is_scheme_char s ≡ true = ground arith in
    let head : is_scheme_char c ≡ true = ground arith in
    cc (scheme_char-lower c head, all-scheme_lower s tail)

all-scheme_plain : (s : Str) → all is_scheme_char s ≡ true → any (λ c. c == b':') s ≡ false
all-scheme_plain [] h = refl
all-scheme_plain (c ∷ s) h =
    let tail : all is_scheme_char s ≡ true = ground arith in ground (arith, all-scheme_plain s tail)

is_scheme-chars : (c : ℕ) (s : Str) → is_scheme (c ∷ s) ≡ true → all is_scheme_char (c ∷ s) ≡ true
unfolding is_scheme
is_scheme-chars c s h = ground arith

source_scheme-append :
    (c : ℕ) (s rest : Str)
    → is_scheme (c ∷ s) ≡ true
    → source_scheme ((c ∷ s) ++ b':' ∷ rest) ≡ ok (c ∷ s)
unfolding source_scheme
source_scheme-append c s rest h =
    let chars = is_scheme-chars c s h in
    rw (
      partition-append b':' (c ∷ s) rest (all-scheme_plain (c ∷ s) chars),
      h,
      all-scheme_lower (c ∷ s) chars,
      str_eq_refl (c ∷ s),
    )

abbrev pub plain_identifier : Str → Str → Identifier
plain_identifier scheme rest = record {
  raw = codes "ofa-res#" ++ (scheme ++ b':' ∷ rest);
  params = [];
  source_uri = scheme ++ b':' ∷ rest;
  scheme = scheme;
  auth_id = [];
  media_type = [];
}

-- An identifier without parameters parses for every source with a well-formed scheme, and gives the
-- scheme and the whole source back.
pub parse_plain :
    (parse_qs : Str → Option (Dict (List Str))) (scheme rest : Str)
    → is_scheme scheme ≡ true
    → parse parse_qs (codes "ofa-res#" ++ (scheme ++ b':' ∷ rest))
      ≡ ok (plain_identifier scheme rest)
unfolding parse partition starts_with strip_prefix parse_params validate_identifier_params Dict.get
    str_eq is_scheme
parse_plain parse_qs [] rest h = cc
parse_plain parse_qs (c ∷ s) rest h = rw (source_scheme-append c s rest h)
