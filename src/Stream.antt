-- ===== src/Stream.antt =====
-- `AsyncReadableAdapter` of src/core_py/_async.py over a body of chunks: the reads that buffer what
-- was not asked for. A body with a `read` or an `aread` of its own is passed through and not here.
use core_py.Base.{
  ℕ, zero, suc, Bool, true, false, not, ◌&&◌, List, [], ◌∷◌, ◌++◌, if◌then◌else◌, ltb, length, take,
  drop, arith, ◌≡◌, refl, ap, ◌∙◌, sym, ◌≤◌, ◌+◌, ◌⊎◌, inl, inr, Bool-cases, append-nil,
  append_assoc,
}
use core_py.Base.Int.{ℤ, pos, negsuc}

abbrev pub Bytes : Type 0
Bytes = List ℕ

-- `chunks` is what the iterator has yet to give.
pub record Adapter : Type 0 where
  pub buffer : Bytes
  pub chunks : List Bytes
  pub eof : Bool

abbrev pub join_chunks : List Bytes → Bytes
join_chunks [] = []
join_chunks (c ∷ chunks) = c ++ join_chunks chunks

-- `while len(self._buffer) < size and not self._eof: …`
unfoldable pub fill : ℕ → Bytes → List Bytes → Bool → Adapter
fill size buffer [] eof = record {
  buffer = buffer;
  chunks = [];
  eof = if ltb (length buffer) size then true else eof;
}
fill size buffer (c ∷ chunks) eof =
    let rest = fill size (buffer ++ c) chunks eof in
    if ltb (length buffer) size && not eof
    then rest
    else record { buffer = buffer; chunks = c ∷ chunks; eof = eof }

abbrev cut : ℕ → Adapter → Bytes × Adapter
cut size a = (take size a.buffer, record a { buffer = drop size a.buffer })

-- `AsyncReadableAdapter.read`
unfoldable pub read_buffered : ℤ → Adapter → Bytes × Adapter
unfolding fill
read_buffered (negsuc n) a =
    (a.buffer ++ join_chunks a.chunks, record { buffer = []; chunks = []; eof = true })
read_buffered (pos size) a = cut size (fill size a.buffer a.chunks a.eof)

-- What the body still holds, the buffer first.
abbrev pub content : Adapter → Bytes
content a = a.buffer ++ join_chunks a.chunks

-- At the end of the body the iterator has nothing more.
abbrev pub IsSound : Adapter → Type 0
IsSound a = (a.eof ≡ false) ⊎ (a.chunks ≡ [])

fill-content :
    (size : ℕ) (buffer : Bytes) (chunks : List Bytes) (eof : Bool)
    → content (fill size buffer chunks eof) ≡ buffer ++ join_chunks chunks
unfolding fill
fill-content size buffer [] eof = refl
fill-content size buffer (c ∷ chunks) eof =
    elim (Bool-cases (ltb (length buffer) size && not eof)) [
      | inl e ↦
          rw e (
            fill-content size (buffer ++ c) chunks eof ∙ append_assoc buffer c (join_chunks chunks))
      | inr e ↦ rw e
    ]

-- After the loop the buffer has enough, or the body is at its end.
fill-enough :
    (size : ℕ) (buffer : Bytes) (chunks : List Bytes) (eof : Bool)
    → (eof ≡ false) ⊎ (chunks ≡ [])
    → let a = fill size buffer chunks eof in
      IsSound a × ((size ≤ length a.buffer) ⊎ (a.chunks ≡ []))
unfolding fill
fill-enough size buffer [] eof h = (inr refl, inr refl)
fill-enough size buffer (c ∷ chunks) eof (inr h) = absurd cc
fill-enough size buffer (c ∷ chunks) eof (inl h) = elim (Bool-cases (ltb (length buffer) size)) [
  | inl e ↦ rw (e, h) (fill-enough size (buffer ++ c) chunks false (inl refl))
  | inr e ↦ rw (e, h) (inl refl, inl (ground arith))
]

take-append : (n : ℕ) (xs ys : Bytes) → (n ≤ length xs) ⊎ (ys ≡ []) → take n (xs ++ ys) ≡ take n xs
take-append n xs ys (inr h) = rw h (ap (take n) (append-nil xs))
take-append zero xs ys (inl h) = refl
take-append (suc n) [] ys (inl h) = absurd (omega arith)
take-append (suc n) (x ∷ xs) ys (inl h) =
    ap (λ zs. x ∷ zs) (take-append n xs ys (inl (omega arith)))

drop-append :
    (n : ℕ) (xs ys : Bytes) → (n ≤ length xs) ⊎ (ys ≡ []) → drop n (xs ++ ys) ≡ drop n xs ++ ys
drop-append n xs ys (inr h) = rw h (ap (drop n) (append-nil xs) ∙ sym (append-nil (drop n xs)))
drop-append zero xs ys (inl h) = refl
drop-append (suc n) [] ys (inl h) = absurd (omega arith)
drop-append (suc n) (x ∷ xs) ys (inl h) = drop-append n xs ys (inl (omega arith))

join-enough :
    (n : ℕ) (a : Adapter)
    → (n ≤ length a.buffer) ⊎ (a.chunks ≡ [])
    → (n ≤ length a.buffer) ⊎ (join_chunks a.chunks ≡ [])
join-enough n a (inl h) = inl h
join-enough n a (inr h) = inr (ap join_chunks h)

-- A read of a size gives that many bytes of what the body still holds, or all of it where there are
-- fewer, and the rest is still to be read: no byte is lost, given twice or moved, however the body
-- cuts its chunks.
pub read_buffered_lem :
    (size : ℕ) (a : Adapter)
    → IsSound a
    → ((read_buffered (pos size) a).0 ≡ take size (content a))
      × (content ((read_buffered (pos size) a).1) ≡ drop size (content a))
      × IsSound ((read_buffered (pos size) a).1)
unfolding read_buffered
read_buffered_lem size a h =
    let full = fill size a.buffer a.chunks a.eof in
    let same = fill-content size a.buffer a.chunks a.eof in
    let (sound, enough) = fill-enough size a.buffer a.chunks a.eof h in
    let room = join-enough size full enough in
    (
      sym (take-append size full.buffer (join_chunks full.chunks) room) ∙ ap (take size) same,
      sym (drop-append size full.buffer (join_chunks full.chunks) room) ∙ ap (drop size) same,
      sound,
    )

abbrev pub sum : List ℕ → ℕ
sum [] = 0
sum (n ∷ ns) = n + sum ns

-- The bytes that a sequence of reads gives.
unfoldable pub reads : List ℕ → Adapter → Bytes
unfolding read_buffered
reads [] a = []
reads (size ∷ sizes) a = let (given, left) = read_buffered (pos size) a in given ++ reads sizes left

take_sum : (m n : ℕ) (xs : Bytes) → take m xs ++ take n (drop m xs) ≡ take (m + n) xs
take_sum zero n xs = let same : 0 + n ≡ n = omega arith in ap (λ k. take k xs) (sym same)
take_sum (suc m) zero [] = let same : suc m + 0 ≡ suc m = omega arith in rw same
take_sum (suc m) (suc n) [] = let same : suc m + suc n ≡ suc (m + suc n) = omega arith in rw same
take_sum (suc m) n (x ∷ xs) =
    let same : suc m + n ≡ suc (m + n) = omega arith in
    rw same (ap (λ zs. x ∷ zs) (take_sum m n xs))

-- A sequence of reads gives the content in order, as many bytes of it as were asked for: no byte
-- is lost, given twice or moved, however the body cuts its chunks.
pub reads_lem :
    (sizes : List ℕ) (a : Adapter) → IsSound a → reads sizes a ≡ take (sum sizes) (content a)
unfolding reads
reads_lem [] a h = refl
reads_lem (size ∷ sizes) a h =
    let (given, left, sound) = read_buffered_lem size a h in
    let rest = reads_lem sizes ((read_buffered (pos size) a).1) sound in
    cc (given, left, rest, take_sum size (sum sizes) (content a))
