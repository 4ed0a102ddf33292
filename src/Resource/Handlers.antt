-- ===== src/Resource/Handlers.antt =====
-- The handlers of src/core_py/resource.py: `_DataHandler`, and what `_HTTPHandler.open` makes of a
-- response. `base64.b64decode`, `unquote_to_bytes`, `email.message` and the reading of an integer
-- header are arguments.
use core_py.Base.{
  Bool, true, false, not, ◌&&◌, Option, none, some, List, [], ◌∷◌, if◌then◌else◌, any, length,
  Result, ok, err, arith, ◌≡◌, refl, inl, inr, Bool-cases, if_both, guard-eq-ok, ok_inj, ap, sym,
  subst, bind-eq-ok, ◌>>=◌,
}
use core_py.Base.Int.{ℤ, pos, negsuc, is_positive, ltb_ℤ}
use core_py.Base.Number.{py_int}
use core_py.Base.Text.{
  Str, codes, is_empty, or_else, str_eq, lower, strip, starts_with, remove_prefix, partition, split,
  contains,
}
use core_py.Base.Dict.{Dict}
use core_py.Resource.Limit.{Bytes}
use core_py.Resource.Settings.{Options}
use core_py.Resource.Identifier.{
  Fault, validation, invalid_value, size_limit_exceeded, Identifier, param_or_empty, has_separator,
  parse,
}
use core_py.Resource.Identifier.Sound.{IsParsed, parse-IsParsed}
use core_py.Resource.Manager.{Stream}

-- The text before the first ";", without spaces around, in lower case.
unfoldable pub main_type : Str → Str
main_type a = lower (strip ((partition b';' a).0))

unfoldable pub same_media_type : Str → Str → Bool
unfolding main_type
same_media_type a b = str_eq (main_type a) (main_type b)

abbrev pub head_of : List Str → Str
head_of [] = []
head_of (w ∷ ws) = w

abbrev pub tail_of : List Str → List Str
tail_of [] = []
tail_of (w ∷ ws) = ws

module _ (b64decode : Str → Result Fault Bytes) (unquote_to_bytes : Str → Bytes) where
  unfoldable pub parse_data_url : Str → Result Fault (Str × Bytes)
  parse_data_url raw =
      let (meta, found, payload) = partition b',' (remove_prefix raw (codes "data:")) in
      let parts = split b';' meta in
      let media_type = or_else (head_of parts) (codes "text/plain;charset=US-ASCII") in
      if not (starts_with raw (codes "data:"))
      then err (validation (codes "invalid data URL"))
      else if not found
      then err (validation (codes "invalid data URL payload"))
      else if any (λ part. str_eq (lower part) (codes "base64")) (tail_of parts)
      then (do body ← b64decode payload; ok (media_type, body))
      else ok (media_type, unquote_to_bytes payload)

  -- `Stream(body=BytesIO(body), …)`: one chunk with all of it.
  abbrev data_stream : Identifier → Str → Bytes → Stream
  data_stream i media_type body = record {
    body = record { chunks = body ∷ []; fault = none };
    media_type = or_else i.media_type media_type;
    size = pos (length body);
    source_uri = i.source_uri;
  }

  abbrev mismatch : Identifier → Str → Bool
  mismatch i media_type =
      not (is_empty i.media_type)
      && not (is_empty media_type)
      && not (same_media_type i.media_type media_type)

  abbrev pub checked : ℤ → Identifier → Str × Bytes → Result Fault Stream
  checked max_bytes i (media_type, body) =
      if mismatch i media_type
      then err (invalid_value (codes "data media type does not match ") i.media_type)
      else if is_positive max_bytes && ltb_ℤ max_bytes (pos (length body))
      then err size_limit_exceeded
      else ok (data_stream i media_type body)

  -- `_DataHandler.open`
  unfoldable pub open_data : Options → Identifier → Result Fault Stream
  unfolding parse_data_url same_media_type
  open_data opts i = do parsed ← parse_data_url i.source_uri; checked opts.data_max_bytes i parsed

-- `int(raw)`, or -1
abbrev int_or_unknown : Option ℤ → ℤ
int_or_unknown none = negsuc 0
int_or_unknown (some n) = n

unfoldable pub parse_content_length : Str → ℤ
parse_content_length raw = if is_empty raw then negsuc 0 else int_or_unknown (py_int raw)

-- What `_HTTPHandler.open` makes of a response's headers: the size, the media type and the file
-- name, or the error where the size is above the limit; `is_limited` says that the body is put
-- in a limited reader.
pub record HttpStream : Type 0 where
  pub size : ℤ
  pub media_type : Str
  pub filename : Str
  pub is_limited : Bool

-- `get_filename` reads a file name of a Content-Disposition header.
module _ (get_filename : Str → Option Str) where
  abbrev name_or_empty : Option Str → Str
  name_or_empty none = []
  name_or_empty (some name) = if has_separator name then [] else name

  unfoldable pub filename_from_disposition : Str → Str
  unfolding has_separator
  filename_from_disposition disposition =
      if is_empty disposition then [] else name_or_empty (get_filename disposition)

  unfoldable pub open_response : Options → Identifier → Dict Str → Result Fault HttpStream
  unfolding parse_content_length filename_from_disposition
  open_response opts i headers =
      let size = parse_content_length (param_or_empty (codes "Content-Length") headers) in
      if is_positive opts.max_bytes && ltb_ℤ opts.max_bytes size
      then err size_limit_exceeded
      else ok (record {
        size = size;
        media_type = or_else (param_or_empty (codes "Content-Type") headers) i.media_type;
        filename =
            or_else (param_or_empty (codes "filename") i.params)
              (filename_from_disposition (param_or_empty (codes "Content-Disposition") headers));
        is_limited = is_positive opts.max_bytes;
      })

-- A data stream that was opened holds its body whole, says its length, and is within the limit.
pub open_data-Bounded :
    (b64decode : Str → Result Fault Bytes) (unquote_to_bytes : Str → Bytes) (opts : Options)
    (i : Identifier) (s : Stream)
    → is_positive opts.data_max_bytes ≡ true
    → open_data b64decode unquote_to_bytes opts i ≡ ok s
    → (body : Bytes) × (s.body.chunks ≡ body ∷ [])
      × (s.size ≡ pos (length body))
      × (ltb_ℤ opts.data_max_bytes (pos (length body)) ≡ false)
unfolding open_data
open_data-Bounded b64decode unquote_to_bytes opts i s limit h =
    let (parsed, p, k) = bind-eq-ok (parse_data_url b64decode unquote_to_bytes i.source_uri) _ h in
    let (same, k1) = guard-eq-ok (mismatch b64decode unquote_to_bytes i parsed.0) _ _ k in
    let (fits, k2) =
      guard-eq-ok
        (is_positive opts.data_max_bytes && ltb_ℤ opts.data_max_bytes (pos (length parsed.1))) _ _
        k1 in
    let e = ok_inj k2 in
    (parsed.1, ap (λ s. s.body.chunks) (sym e), ap (λ s. s.size) (sym e), ground (arith, fits))

or_else-plain :
    (a b : Str)
    → has_separator a ≡ false
    → has_separator b ≡ false
    → has_separator (or_else a b) ≡ false
or_else-plain [] b h k = k
or_else-plain (c ∷ a) b h k = h

filename-plain :
    (get_filename : Str → Option Str) (disposition : Str)
    → has_separator (filename_from_disposition get_filename disposition) ≡ false
unfolding filename_from_disposition has_separator contains starts_with
filename-plain get_filename disposition =
    if_both (λ s. has_separator s ≡ false) (is_empty disposition) refl
      (plain (get_filename disposition))
  where
    plain : (o : Option Str) → has_separator (name_or_empty get_filename o) ≡ false
    plain none = refl
    plain (some name) = elim (Bool-cases (has_separator name)) [
      | inl e ↦ rw e
      | inr e ↦ rw (e, has_separator) e
    ]

-- A response to a parsed identifier becomes a stream only where its length is within the limit, and
-- the stream's file name holds no separator and no two dots in a row, whatever the server sent.
pub open_response-IsSafe :
    (parse_qs : Str → Option (Dict (List Str))) (get_filename : Str → Option Str) (opts : Options)
    (raw : Str) (i : Identifier) (headers : Dict Str) (s : HttpStream)
    → parse parse_qs raw ≡ ok i
    → open_response get_filename opts i headers ≡ ok s
    → (has_separator s.filename ≡ false)
      × (is_positive opts.max_bytes && ltb_ℤ opts.max_bytes s.size ≡ false)
      × (s.is_limited ≡ is_positive opts.max_bytes)
unfolding open_response IsParsed
open_response-IsSafe parse_qs get_filename opts raw i headers s parsed h =
    let size = parse_content_length (param_or_empty (codes "Content-Length") headers) in
    let (fits, k) = guard-eq-ok (is_positive opts.max_bytes && ltb_ℤ opts.max_bytes size) _ _ h in
    let e = ok_inj k in
    let name = (parse-IsParsed parse_qs raw i parsed).6.0 in
    (
      subst (λ s. has_separator s.filename ≡ false) e
          (or_else-plain (param_or_empty (codes "filename") i.params) _ name
            (filename-plain get_filename (param_or_empty (codes "Content-Disposition") headers))),
      subst (λ s. is_positive opts.max_bytes && ltb_ℤ opts.max_bytes s.size ≡ false) e fits,
      ap (λ s. s.is_limited) (sym e),
    )
