-- ===== src/Resource/Limit.antt =====
-- `_LimitReadCloser` of src/core_py/resource.py: a reader that gives at most `max_bytes`. The body
-- below it is a state `B` with its read, which may give more than it was asked for.
pub mod Drain
use core_py.Base.{
  ℕ, zero, suc, Bool, true, false, Option, none, some, List, [], ◌∷◌, if◌then◌else◌, ltb, leb,
  length, Result, ok, err, arith, ◌≡◌, refl, ◌+◌, ◌-◌, ◌≤◌, ◌<◌, inl, inr, Bool-cases, if_false,
  ◌∙◌,
}
use core_py.Base.Int.{ℤ, pos, negsuc}

abbrev pub Bytes : Type 0
Bytes = List ℕ

-- `SizeLimitExceededError`
pub data LimitError : Type 0 where
  size_limit_exceeded : LimitError

pub record LimitReadCloser {ℓ} (B : Type ℓ) : Type ℓ where
  pub body : B
  pub max_bytes : ℕ
  pub read_bytes : ℕ
  pub over : Bool

abbrev pub read_limit : ℕ → ℕ → ℕ
read_limit size remaining = if ltb size (remaining + 1) then size else remaining + 1

abbrev pub size_of : Result LimitError Bytes → ℕ
size_of (ok chunk) = length chunk
size_of (err e) = 0

module _ {ℓ} {B : Type ℓ} where
  abbrev set_over : LimitReadCloser B → LimitReadCloser B
  set_over st = record {
    body = st.body;
    max_bytes = st.max_bytes;
    read_bytes = st.read_bytes;
    over = true;
  }

  -- What follows a read of the body: the count, and an error once it is above the limit. `kept` is
  -- the count that the error leaves.
  abbrev pub counted :
      (ℕ → ℕ) → Bytes × B → LimitReadCloser B → Result LimitError Bytes × LimitReadCloser B
  counted kept (chunk, left) st =
      let total = st.read_bytes + length chunk in
      if ltb st.max_bytes total
      then (
        err size_limit_exceeded,
        record { body = left; max_bytes = st.max_bytes; read_bytes = kept total; over = true },
      )
      else (
        ok chunk,
        record { body = left; max_bytes = st.max_bytes; read_bytes = total; over = st.over },
      )

  -- What the reader may still give.
  abbrev left_of : LimitReadCloser B → ℕ
  left_of st = if st.over then 0 else st.max_bytes - st.read_bytes

  counted-left :
      (kept : ℕ → ℕ) (r : Bytes × B) (st : LimitReadCloser B)
      → st.over ≡ false
      → size_of ((counted kept r st).0) + left_of ((counted kept r st).1) ≤ left_of st
  counted-left kept (chunk, left) st live =
      elim (Bool-cases (ltb st.max_bytes (st.read_bytes + length chunk))) [
        | inl e ↦ rw (e, live) (omega arith)
        | inr e ↦ rw (e, live) (ground arith)
      ]

module _ {ℓ} {B : Type ℓ} (read_body : ℕ → B → Bytes × B) where
  unfoldable pub read_left : ℤ → LimitReadCloser B → Result LimitError Bytes × LimitReadCloser B
  read_left (negsuc n) st =
      counted (λ total. total) (read_body (st.max_bytes - st.read_bytes + 1) st.body) st
  read_left (pos size) st =
      counted (λ total. st.max_bytes)
        (read_body (read_limit size (st.max_bytes - st.read_bytes)) st.body) st

  unfoldable pub read : ℤ → LimitReadCloser B → Result LimitError Bytes × LimitReadCloser B
  unfolding read_left
  read size st =
      if st.over
      then (err size_limit_exceeded, st)
      else if leb st.max_bytes st.read_bytes
      then (err size_limit_exceeded, set_over st)
      else read_left size st

  -- How many bytes a sequence of reads gives, errors passed over.
  unfoldable pub delivered : List ℤ → LimitReadCloser B → ℕ
  unfolding read
  delivered [] st = 0
  delivered (size ∷ sizes) st = let (r, left) = read size st in size_of r + delivered sizes left

  read_left-left :
      (size : ℤ) (st : LimitReadCloser B)
      → st.over ≡ false
      → size_of ((read_left size st).0) + left_of ((read_left size st).1) ≤ left_of st
  unfolding read_left
  read_left-left (negsuc n) st live =
      counted-left (λ total. total) (read_body (st.max_bytes - st.read_bytes + 1) st.body) st live
  read_left-left (pos size) st live =
      counted-left (λ total. st.max_bytes)
        (read_body (read_limit size (st.max_bytes - st.read_bytes)) st.body) st live

  -- A read of a reader that is not over and has something left asks the body.
  pub read-live :
      (size : ℤ) (st : LimitReadCloser B)
      → st.over ≡ false
      → leb st.max_bytes st.read_bytes ≡ false
      → read size st ≡ read_left size st
  unfolding read
  read-live size st live e =
      let asked =
        if leb st.max_bytes st.read_bytes
        then (err size_limit_exceeded, set_over st)
        else read_left size st in
      if_false (err size_limit_exceeded, st) asked live
      ∙ if_false (err size_limit_exceeded, set_over st) (read_left size st) e

  read-left :
      (size : ℤ) (st : LimitReadCloser B)
      → size_of ((read size st).0) + left_of ((read size st).1) ≤ left_of st
  unfolding read
  read-left size st = elim (Bool-cases (st.over)) [
    | inl e ↦ rw e (omega arith)
    | inr live ↦ elim (Bool-cases (leb st.max_bytes st.read_bytes)) [
      | inl e ↦ rw (live, e) (omega arith)
      | inr e ↦ rw (read-live size st live e) (read_left-left size st live)
    ]
  ]

  delivered-left : (sizes : List ℤ) (st : LimitReadCloser B) → delivered sizes st ≤ left_of st
  unfolding delivered
  delivered-left [] st = omega arith
  delivered-left (size ∷ sizes) st =
      omega (arith, read-left size st, delivered-left sizes ((read size st).1))

unfoldable pub new_limit {ℓ} : {B : Type ℓ} → B → ℕ → LimitReadCloser B
new_limit body max_bytes = record {
  body = body;
  max_bytes = max_bytes;
  read_bytes = 0;
  over = false;
}

-- Whatever sizes are asked for, and whatever the body gives, the reader gives at most `max_bytes`
-- bytes over its whole life, also to a caller who goes on after an error.
pub delivered_bounded {ℓ} :
    {B : Type ℓ} (read_body : ℕ → B → Bytes × B) (body : B) (max_bytes : ℕ) (sizes : List ℤ)
    → delivered read_body sizes (new_limit body max_bytes) ≤ max_bytes
unfolding new_limit
delivered_bounded read_body body max_bytes sizes =
    omega (arith, delivered-left read_body sizes (new_limit body max_bytes))
