-- ===== src/Tests/Resource.antt =====
-- src/core_py/resource.py at concrete inputs.
use core_py.Base.{
  ◌+◌, ◌≤◌, ℕ, true, false, none, some, Option, List, [], ◌∷◌, arith, ◌≡◌, refl, ok, err, Result,
  Bool, if◌then◌else◌, ltb,
}
use core_py.Base.Text.{
  Str, codes, str_eq, split, strip, lstrip, rstrip, rstrip_cons, is_space, partition, starts_with,
  strip_prefix, lower, lower_char, contains, remove_prefix,
}
use core_py.Base.Int.{pos, negsuc}
use core_py.Base.Number.{py_int, int_signed, int_digits}
use core_py.Resource.Handlers.{
  open_data, parse_data_url, HttpStream, open_response, parse_content_length,
  filename_from_disposition,
}
use core_py.Base.Dict
use core_py.Base.Dict.{Dict}
use core_py.Resource.Limit.{Bytes, new_limit, LimitError, delivered, delivered_bounded}
use core_py.Resource.Limit.Drain.{read_content, drain, drain_lem}
use core_py.Resource.Identifier.{
  Identifier, is_scheme, parse, parse_params, collect_params, is_param_name, source_scheme,
  validate_identifier_params, has_separator, has_control, Fault,
}
use core_py.Resource.Identifier.Sound.{IsParsed, parse-IsParsed}
use core_py.Resource.Manager.{Manager, Faults, Stream, open_stream, handler_of}
use core_py.Resource.Settings.{default_options}

-- A body that gives more than it is asked for.
abbrev generous : ℕ → Bytes → Bytes × Bytes
generous n xs = (1 ∷ 2 ∷ 3 ∷ 4 ∷ [], xs)

drain_lem_example :
    drain read_content 4 2 (new_limit (7 ∷ 8 ∷ 9 ∷ []) 3)
    ≡ some (if ltb 3 3 then ok (7 ∷ 8 ∷ 9 ∷ []) else err LimitError.size_limit_exceeded)
drain_lem_example = drain_lem 2 3 (7 ∷ 8 ∷ 9 ∷ []) (omega arith)

-- A body that gives a chunk of four bytes at every read, whatever it is asked for.
abbrev greedy : ℕ → ℕ → Bytes × ℕ
greedy n reads = (1 ∷ 2 ∷ 3 ∷ 4 ∷ [], reads + 1)

delivered_bounded_example : delivered greedy (pos 4 ∷ pos 1 ∷ negsuc 0 ∷ []) (new_limit 0 6) ≤ 6
delivered_bounded_example = delivered_bounded greedy 0 6 (pos 4 ∷ pos 1 ∷ negsuc 0 ∷ [])

abbrev query : Str → Option (Dict (List Str))
query s = some ((codes "filename", codes "a.txt" ∷ []) ∷ [])

abbrev res : Str
res = codes "ofa-res?filename=a.txt#data:,x"

abbrev identified : Identifier
identified = record {
  raw = res;
  params = (codes "filename", codes "a.txt") ∷ [];
  source_uri = codes "data:,x";
  scheme = codes "data";
  auth_id = [];
  media_type = [];
}

parses : parse query res ≡ ok identified
unfolding parse partition starts_with strip_prefix str_eq parse_params collect_params is_param_name
    remove_prefix source_scheme is_scheme lower lower_char validate_identifier_params has_separator
    has_control contains Dict.get Dict.put
parses = refl

parse-IsParsed_example : IsParsed res identified
parse-IsParsed_example = parse-IsParsed query res identified parses

abbrev stream : Stream
stream = record {
  body = record { chunks = (1 ∷ 2 ∷ []) ∷ (3 ∷ []) ∷ []; fault = none };
  media_type = [];
  size = negsuc 0;
  source_uri = codes "data:,x";
}

abbrev manager : Manager ℕ
manager = record {
  opts = default_options;
  handlers =
      (
        codes "data",
        record {
          open_func = λ i. ok (some stream);
          upload_func = λ v. err Fault.upload_unsupported;
        },
      )
      ∷ [];
}

abbrev no_dir : Str → Bool
no_dir path = false

abbrev any_dir : Str → Bool
any_dir path = true

abbrev files : Dict Bytes
files = (codes "d/x", 9 ∷ []) ∷ []

opens : open_stream query res manager ≡ ok stream
unfolding open_stream handler_of Dict.get str_eq parse starts_with partition lower Dict.put contains
opens = refl

-- The replacement works, the close of the stream raises.
abbrev bad_close : Faults
bad_close = record {
  mkstemp = none;
  write = none;
  replace = none;
  close = some (Fault.handler 0);
  remove = none;
}

abbrev no_base64 : Str → Result Fault Bytes
no_base64 s = err (Fault.handler 0)

abbrev data_x : Stream
data_x = record {
  body = record { chunks = codes "x" ∷ []; fault = none };
  media_type = codes "text/plain;charset=US-ASCII";
  size = pos 1;
  source_uri = codes "data:,x";
}

opens_data : open_data no_base64 (λ s. s) default_options identified ≡ ok data_x
unfolding open_data parse_data_url partition starts_with strip_prefix remove_prefix split
opens_data = refl

abbrev slashed : Str → Option Str
slashed s = some (codes "../etc")

abbrev headers : Dict Str
headers = (codes "Content-Length", codes "7") ∷ []

abbrev response : HttpStream
response = record { size = pos 7; media_type = []; filename = codes "a.txt"; is_limited = true }

opens_response : open_response slashed default_options identified headers ≡ ok response
unfolding open_response parse_content_length py_int int_signed int_digits strip lstrip rstrip
    rstrip_cons is_space Dict.get str_eq filename_from_disposition
opens_response = refl
