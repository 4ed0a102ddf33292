-- ===== src/Resource/Limit/Drain.antt =====
-- The loop of `Manager.download` over a limited reader, whose body gives a content in chunks of the
-- sizes that it is asked for.
use core_py.Base.{
  ℕ, zero, suc, true, false, Option, none, some, [], ◌∷◌, ◌++◌, if◌then◌else◌, ltb, leb, length,
  Result, ok, err, arith, ◌≡◌, refl, ◌+◌, ◌-◌, ◌≤◌, ◌<◌, inl, inr, Bool-cases, if_false, ◌∙◌, take,
  drop, take-append-drop, length-take, ap, length-append, sym,
}
use core_py.Base.Int.{pos}
use core_py.Resource.Limit.{
  Bytes, LimitError, size_limit_exceeded, LimitReadCloser, read, read_left, read-live, read_limit,
  new_limit,
}

-- A body that holds its content gives as much as it is asked for, or all that is left.
abbrev pub read_content : ℕ → Bytes → Bytes × Bytes
read_content n xs = (take n xs, drop n xs)

-- What was written in front of what the rest of the loop writes.
abbrev pub written : Bytes → Result LimitError Bytes → Result LimitError Bytes
written chunk (ok rest) = ok (chunk ++ rest)
written chunk (err e) = err e

abbrev pub go_on :
    Result LimitError Bytes → Option (Result LimitError Bytes) → Option (Result LimitError Bytes)
go_on (err e) rest = some (err e)
go_on (ok []) rest = some (ok [])
go_on (ok (c ∷ chunk)) none = none
go_on (ok (c ∷ chunk)) (some rest) = some (written (c ∷ chunk) rest)

-- `while chunk := await body.read(size): await tmp.write(chunk)`
module _ {ℓ} {B : Type ℓ} (read_body : ℕ → B → Bytes × B) where
  unfoldable pub drain : ℕ → ℕ → LimitReadCloser B → Option (Result LimitError Bytes)
  unfolding read
  drain zero size st = none
  drain (suc fuel) size st =
      let (r, left) = read read_body (pos size) st in go_on r (drain fuel size left)

  drain-stop :
      (fuel size : ℕ) (st : LimitReadCloser B) (e : LimitError)
      → (read read_body (pos size) st).0 ≡ err e
      → drain (suc fuel) size st ≡ some (err e)
  unfolding drain
  drain-stop fuel size st e h =
      ap (λ r. go_on r (drain fuel size ((read read_body (pos size) st).1))) h

  drain-chunk :
      (fuel size : ℕ) (st left : LimitReadCloser B) (chunk : Bytes)
      → read read_body (pos size) st ≡ (ok chunk, left)
      → drain (suc fuel) size st ≡ go_on (ok chunk) (drain fuel size left)
  unfolding drain
  drain-chunk fuel size st left chunk h = ap (λ r. go_on r.0 (drain fuel size r.1)) h

abbrev at_count : ℕ → ℕ → Bytes → LimitReadCloser Bytes
at_count max_bytes count xs = record {
  body = xs;
  max_bytes = max_bytes;
  read_bytes = count;
  over = false;
}

-- The whole content, or the error where it reaches the limit.
abbrev pub limited : ℕ → ℕ → Bytes → Result LimitError Bytes
limited max_bytes count xs =
    if ltb (count + length xs) max_bytes then ok xs else err size_limit_exceeded

read_limit-pos : (size room : ℕ) → 0 < size → (k : ℕ) × (read_limit size room ≡ suc k) × (k ≤ room)
read_limit-pos zero room h = absurd (omega arith)
read_limit-pos (suc n) room h = elim (Bool-cases (ltb (suc n) (room + 1))) [
  | inl e ↦ (n, rw e, ground arith)
  | inr e ↦ (room, rw e (omega arith), omega arith)
]

-- A read that stays within the limit, and one that does not.
read-within :
    (size max_bytes count k : ℕ) (xs : Bytes)
    → count < max_bytes
    → read_limit size (max_bytes - count) ≡ suc k
    → count + length (take (suc k) xs) ≤ max_bytes
    → read read_content (pos size) (at_count max_bytes count xs) ≡ (
      ok (take (suc k) xs),
      at_count max_bytes (count + length (take (suc k) xs)) (drop (suc k) xs),
    )
unfolding read_left
read-within size max_bytes count k xs room e fits =
    let some_left : leb max_bytes count ≡ false = ground arith in
    let inside : ltb max_bytes (count + length (take (suc k) xs)) ≡ false = ground arith in
    read-live read_content (pos size) (at_count max_bytes count xs) refl some_left ∙ rw (e, inside)

read-beyond :
    (size max_bytes count k : ℕ) (xs : Bytes)
    → count < max_bytes
    → read_limit size (max_bytes - count) ≡ suc k
    → max_bytes < count + length (take (suc k) xs)
    → (read read_content (pos size) (at_count max_bytes count xs)).0 ≡ err size_limit_exceeded
unfolding read_left
read-beyond size max_bytes count k xs room e past =
    let some_left : leb max_bytes count ≡ false = ground arith in
    let outside : ltb max_bytes (count + length (take (suc k) xs)) ≡ true = ground arith in
    ap (λ r. r.0) (read-live read_content (pos size) (at_count max_bytes count xs) refl some_left)
    ∙ rw (e, outside)

limited-full :
    (max_bytes count : ℕ) (xs : Bytes)
    → max_bytes ≤ count + length xs
    → limited max_bytes count xs ≡ err size_limit_exceeded
limited-full max_bytes count xs full =
    let out : ltb (count + length xs) max_bytes ≡ false = ground arith in
    if_false (ok xs) (err size_limit_exceeded) out

-- What the rest of the loop gives, with the first chunk in front.
limited-written :
    (max_bytes count : ℕ) (chunk xs : Bytes)
    → written chunk (limited max_bytes (count + length chunk) xs)
      ≡ limited max_bytes count (chunk ++ xs)
limited-written max_bytes count chunk xs =
    let same : count + length (chunk ++ xs) ≡ count + length chunk + length xs =
      omega (arith, length-append chunk xs) in
    elim (Bool-cases (ltb (count + length chunk + length xs) max_bytes)) [
      | inl e ↦ rw (same, e)
      | inr e ↦ rw (same, e)
    ]

length-drop : (k : ℕ) (xs : Bytes) → length (drop k xs) ≤ length xs
length-drop zero xs = omega arith
length-drop (suc k) [] = omega arith
length-drop (suc k) (x ∷ xs) = omega (arith, length-drop k xs)

read-full :
    (size max_bytes count : ℕ) (xs : Bytes)
    → leb max_bytes count ≡ true
    → (read read_content (pos size) (at_count max_bytes count xs)).0 ≡ err size_limit_exceeded
unfolding read
read-full size max_bytes count xs full = rw full

-- The loop after a chunk, where the rest of the loop is known.
after_chunk :
    (fuel size max_bytes count k : ℕ) (xs : Bytes) (rest : Option (Result LimitError Bytes))
    → count < max_bytes
    → (length (drop (suc k) xs) < fuel
        → rest ≡ some (limited max_bytes (count + length (take (suc k) xs)) (drop (suc k) xs)))
    → length xs < suc fuel
    → go_on (ok (take (suc k) xs)) rest ≡ some (limited max_bytes count xs)
after_chunk fuel size max_bytes count k [] rest room ih enough =
    let inside : ltb (count + 0) max_bytes ≡ true = ground arith in rw inside
after_chunk fuel size max_bytes count k (x ∷ xs) rest room ih enough =
    let chunk = take (suc k) (x ∷ xs) in
    ap (go_on (ok chunk)) (ih (omega (arith, length-drop k xs)))
    ∙ ap some (
        limited-written max_bytes count chunk (drop k xs)
        ∙ ap (limited max_bytes count) (take-append-drop (suc k) (x ∷ xs)))

drain-at :
    (fuel size max_bytes count : ℕ) (xs : Bytes)
    → 0 < size
    → count ≤ max_bytes
    → length xs < fuel
    → drain read_content fuel size (at_count max_bytes count xs) ≡ some (limited max_bytes count xs)
drain-at zero size max_bytes count xs h low enough = absurd (omega arith)
drain-at (suc fuel) size max_bytes count xs h low enough = elim (Bool-cases (leb max_bytes count)) [
  | inl full ↦
      drain-stop read_content fuel size (at_count max_bytes count xs) size_limit_exceeded
        (read-full size max_bytes count xs full)
      ∙ ap some (sym (limited-full max_bytes count xs (ground arith)))
  | inr some_left ↦
      let room : count < max_bytes = ground arith in
      let (k, e, small) = read_limit-pos size (max_bytes - count) h in
      elim (Bool-cases (ltb max_bytes (count + length (take (suc k) xs)))) [
        | inl past ↦
            let beyond : max_bytes < count + length (take (suc k) xs) = ground arith in
            drain-stop read_content fuel size (at_count max_bytes count xs) size_limit_exceeded
              (read-beyond size max_bytes count k xs room e beyond)
            ∙ ap some
                (sym (limited-full max_bytes count xs (omega (arith, length-take (suc k) xs))))
        | inr inside ↦
            let fits : count + length (take (suc k) xs) ≤ max_bytes = ground arith in
            let next = count + length (take (suc k) xs) in
            drain-chunk read_content fuel size (at_count max_bytes count xs)
              (at_count max_bytes next (drop (suc k) xs)) (take (suc k) xs)
              (read-within size max_bytes count k xs room e fits)
            ∙ after_chunk fuel size max_bytes count k xs
                (drain read_content fuel size (at_count max_bytes next (drop (suc k) xs))) room
                (drain-at fuel size max_bytes next (drop (suc k) xs) h fits) enough
      ]
]

-- The loop of a download over a limited reader ends, and gives the whole content exactly if that is
-- shorter than the limit. A content of exactly the limit's length gives the size error too.
pub drain_lem :
    (size max_bytes : ℕ) (xs : Bytes)
    → 0 < size
    → drain read_content (suc (length xs)) size (new_limit xs max_bytes)
      ≡ some (if ltb (length xs) max_bytes then ok xs else err size_limit_exceeded)
unfolding new_limit
drain_lem size max_bytes xs h =
    let same : 0 + length xs ≡ length xs = omega arith in
    drain-at (suc (length xs)) size max_bytes 0 xs h (omega arith) (omega arith)
    ∙ ap (λ n. some (if ltb n max_bytes then ok xs else err size_limit_exceeded)) same
