-- ===== src/Tests/Stream.antt =====
-- src/core_py/_async.py at concrete inputs.
use core_py.Base.{false, [], ◌∷◌, ◌≡◌, refl, inl, take}
use core_py.Stream.{Adapter, content, reads, sum, reads_lem, read_buffered, fill}

abbrev body : Adapter
body = record { buffer = 9 ∷ []; chunks = (1 ∷ []) ∷ [] ∷ (2 ∷ 3 ∷ 4 ∷ []) ∷ []; eof = false }

reads-body : reads (2 ∷ 1 ∷ []) body ≡ 9 ∷ 1 ∷ 2 ∷ []
unfolding reads read_buffered fill
reads-body = refl

reads_lem_example : reads (2 ∷ 1 ∷ []) body ≡ take (sum (2 ∷ 1 ∷ [])) (content body)
reads_lem_example = reads_lem (2 ∷ 1 ∷ []) body (inl refl)
