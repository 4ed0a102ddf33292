-- ===== src/Resource/Manager.antt =====
-- The options and the manager of src/core_py/resource.py: handlers by scheme, `open`, `upload` and
-- `download`. A body is the chunks that its reads give, and the exception that ends them, if any.
pub mod Download
use core_py.Base.{
  ℕ, Bool, true, false, not, ◌&&◌, ◌||◌, Option, none, some, List, [], ◌∷◌, ◌++◌, if◌then◌else◌,
  ◌==◌, ltb, length, Result, ok, err,
}
use core_py.Base.Int.{ℤ, pos, negsuc, is_positive, ltb_ℤ}
use core_py.Base.Text.{Str, codes, is_empty, str_eq, lower, or_else}
use core_py.Base.Dict
use core_py.Base.Dict.{Dict}
use core_py.Config.Load.{dir_of}
use core_py.Resource.Limit.{Bytes}
use core_py.Resource.Settings.{Options}
use core_py.Resource.Identifier.{
  Fault, validation, invalid_value, unsupported_scheme, open_unsupported, upload_unsupported,
  size_limit_exceeded, Identifier, ParseError, is_scheme, parse,
}

pub record Body : Type 0 where
  pub chunks : List Bytes
  pub fault : Option Fault

pub record Stream : Type 0 where
  pub body : Body
  pub media_type : Str
  pub size : ℤ
  pub source_uri : Str

-- A handler may return no stream; `Upload` is what it is given to upload.
pub record Handler {ℓ} (Upload : Type ℓ) : Type ℓ where
  pub open_func : Identifier → Result Fault (Option Stream)
  pub upload_func : Upload → Result Fault Identifier

-- `HandlerFuncs`
unfoldable pub handler_funcs {ℓ} :
    {Upload : Type ℓ}
    → Option (Identifier → Result Fault (Option Stream))
    → Option (Upload → Result Fault Identifier)
    → Handler Upload
handler_funcs opens uploads = record {
  open_func = λ i. elim opens [ none ↦ err open_unsupported | some f ↦ f i ];
  upload_func = λ v. elim uploads [ none ↦ err upload_unsupported | some f ↦ f v ];
}

pub record Manager {ℓ} (Upload : Type ℓ) : Type ℓ where
  pub opts : Options
  pub handlers : Dict (Handler Upload)

pub data ManagerError : Type 0 where
  parse_error : ParseError → ManagerError
  open_error : Identifier → Fault → ManagerError
  upload_error : Str → Fault → ManagerError

-- `not scheme or scheme.lower() != scheme or not _SCHEME_RE.fullmatch(scheme)`
unfoldable pub is_bad_scheme : Str → Bool
is_bad_scheme scheme =
    is_empty scheme || not (str_eq (lower scheme) scheme) || not (is_scheme scheme)

abbrev empty_stream : Fault
empty_stream = validation (codes "handler returned empty stream")

abbrev opened : Identifier → Result Fault (Option Stream) → Result ManagerError Stream
opened i (err e) = err (open_error i e)
opened i (ok none) = err (open_error i empty_stream)
opened i (ok (some stream)) = ok stream

abbrev uploaded : Str → Result Fault Identifier → Result ManagerError Identifier
uploaded scheme (err e) = err (upload_error scheme e)
uploaded scheme (ok i) = ok i

module _ {ℓ} {Upload : Type ℓ} where
  -- `Manager.__init__`, after the operations on the options.
  unfoldable pub new_manager :
      Options → (Options → Handler Upload) → (Options → Handler Upload) → Manager Upload
  new_manager opts http_handler data_handler = record {
    opts = opts;
    handlers =
        (codes "https", http_handler opts)
        ∷ (codes "data", data_handler opts)
        ∷ (if opts.enable_http then (codes "http", http_handler opts) ∷ [] else []);
  }

  unfoldable pub register :
      Str → Option (Handler Upload) → Manager Upload → Result Fault (Manager Upload)
  unfolding is_bad_scheme
  register scheme none m = err (validation (codes "handler is nil"))
  register scheme (some handler) m =
      if is_bad_scheme scheme
      then err (invalid_value (codes "invalid scheme ") scheme)
      else ok (record { opts = m.opts; handlers = Dict.put scheme handler m.handlers })

  unfoldable pub handler_of : Str → Manager Upload → Result Fault (Handler Upload)
  handler_of scheme m = elim (Dict.get scheme m.handlers) [
    | none ↦ err unsupported_scheme
    | some h ↦ ok h
  ]

  abbrev open_with : Identifier → Result Fault (Handler Upload) → Result ManagerError Stream
  open_with i (err e) = err (open_error i e)
  open_with i (ok h) = opened i (h.open_func i)

  abbrev pub open_parsed :
      Manager Upload → Result ParseError Identifier → Result ManagerError Stream
  open_parsed m (err e) = err (parse_error e)
  open_parsed m (ok i) = open_with i (handler_of i.scheme m)

  unfoldable pub open_stream :
      (Str → Option (Dict (List Str))) → Str → Manager Upload → Result ManagerError Stream
  unfolding handler_of
  open_stream parse_qs raw m = open_parsed m (parse parse_qs raw)

  abbrev upload_with : Str → Upload → Result Fault (Handler Upload) → Result ManagerError Identifier
  upload_with scheme value (err e) = err (upload_error scheme e)
  upload_with scheme value (ok h) = uploaded scheme (h.upload_func value)

  unfoldable pub upload : Str → Upload → Manager Upload → Result ManagerError Identifier
  unfolding is_bad_scheme handler_of
  upload scheme value m =
      if is_bad_scheme scheme
      then err (upload_error scheme (invalid_value (codes "invalid scheme ") scheme))
      else upload_with scheme value (handler_of scheme m)

-- `os.path.dirname(path) or "."`
abbrev drop_slashes : Str → Str
drop_slashes [] = []
drop_slashes (c ∷ s) =
    let rest = drop_slashes s in if c == b'/' && is_empty rest then [] else c ∷ rest

unfoldable pub parent_of : Str → Str
parent_of path = or_else (or_else (drop_slashes (dir_of path)) (dir_of path)) (codes ".")

-- What a download raises in a `DownloadError`: its own fault, or that of `open`.
pub data DownloadError : Type 0 where
  download_fault : Fault → DownloadError
  not_opened : ManagerError → DownloadError

-- The files, by path, and whether `stream.close` was called.
pub record Disk : Type 0 where
  pub files : Dict Bytes
  pub is_closed : Bool

-- The exceptions that the calls of the operating system and of the stream raise in a download: in
-- `mkstemp`, in the use of the temporary file, if that ends the copying, in `os.replace`, in
-- `stream.close`, and in `os.remove`, if it is no FileNotFoundError.
pub record Faults : Type 0 where
  pub mkstemp : Option Fault
  pub write : Option Fault
  pub replace : Option Fault
  pub close : Option Fault
  pub remove : Option Fault

-- The loop that copies the body: what was written, and the exception that ended it. A read that
-- gives no byte ends it too.
abbrev add_chunk : Bytes → Bytes × Option Fault → Bytes × Option Fault
add_chunk chunk (written, fault) = (chunk ++ written, fault)

unfoldable pub copy_body : List Bytes → Option Fault → Bytes × Option Fault
copy_body [] fault = ([], fault)
copy_body ([] ∷ chunks) fault = ([], none)
copy_body ((c ∷ chunk) ∷ chunks) fault = add_chunk (c ∷ chunk) (copy_body chunks fault)

-- `stream.size >= 0 and max_bytes > 0 and stream.size > max_bytes`
unfoldable pub is_too_large : ℤ → ℤ → Bool
is_too_large size max_bytes = ltb_ℤ (negsuc 0) size && is_positive max_bytes && ltb_ℤ max_bytes size

-- What the `try` block raises before `os.replace`.
abbrev pub copy_fault : Option Fault → Stream → ℤ → Option Fault
copy_fault (some e) stream max_bytes = some e
copy_fault none stream max_bytes = elim (copy_body stream.body.chunks stream.body.fault).1 [
  | some e ↦ some e
  | none ↦ if is_too_large stream.size max_bytes then some size_limit_exceeded else none
]

abbrev raise_fault : Fault → Bool → Dict Bytes → Result DownloadError (Unit {0}) × Disk
raise_fault e is_closed files =
    (err (download_fault e), record { files = files; is_closed = is_closed })

-- The `finally` block after the file was put in place, and after an exception: what `stream.close`
-- raises leaves the block.
abbrev pub placed : Option Fault → Dict Bytes → Result DownloadError (Unit {0}) × Disk
placed none files = (ok tt, record { files = files; is_closed = true })
placed (some c) files = raise_fault c true files

abbrev pub remove_tmp :
    Option Fault → Fault → Str → Dict Bytes → Result DownloadError (Unit {0}) × Disk
remove_tmp none e tmp files = raise_fault e true (Dict.remove tmp files)
remove_tmp (some x) e tmp files = raise_fault x true files

abbrev pub failed :
    Option Fault → Option Fault → Fault → Str → Dict Bytes → Result DownloadError (Unit {0}) × Disk
failed none remove e tmp files = remove_tmp remove e tmp files
failed (some c) remove e tmp files = raise_fault c true files

-- `os.replace` and the `finally` block.
abbrev pub published :
    Option Fault
    → Option Fault
    → Option Fault
    → Str
    → Str
    → Bytes
    → Dict Bytes
    → Result DownloadError (Unit {0}) × Disk
published (some e) close remove tmp dst written files = failed close remove e tmp files
published none close remove tmp dst written files =
    placed close (Dict.put dst written (Dict.remove tmp files))

abbrev pub finish :
    Faults → Str → Str → Bytes → Option Fault → Dict Bytes → Result DownloadError (Unit {0}) × Disk
finish faults tmp dst written (some e) files = failed faults.close faults.remove e tmp files
finish faults tmp dst written none files =
    published faults.replace faults.close faults.remove tmp dst written files

-- `tmp` is the path that `mkstemp` makes; `is_dir` is `os.path.isdir`.
module _ (is_dir : Str → Bool) (faults : Faults) (tmp : Str) where
  -- From `mkstemp` on.
  abbrev pub download_body :
      Option Fault → ℤ → Str → Stream → Dict Bytes → Result DownloadError (Unit {0}) × Disk
  download_body (some e) max_bytes dst stream files = raise_fault e false files
  download_body none max_bytes dst stream files =
      let written = (copy_body stream.body.chunks stream.body.fault).0 in
      finish faults tmp dst written (copy_fault faults.write stream max_bytes)
        (Dict.put tmp written files)

  abbrev pub download_stream :
      ℤ → Str → Result ManagerError Stream → Dict Bytes → Result DownloadError (Unit {0}) × Disk
  download_stream max_bytes dst (err e) files =
      (err (not_opened e), record { files = files; is_closed = false })
  download_stream max_bytes dst (ok stream) files =
      if not (is_dir (parent_of dst))
      then raise_fault (validation (codes "destination parent is not a directory")) false files
      else download_body faults.mkstemp max_bytes dst stream files

  unfoldable pub download {ℓ} :
      {Upload : Type ℓ}
      → (Str → Option (Dict (List Str)))
      → Str
      → Str
      → Manager Upload
      → Dict Bytes
      → Result DownloadError (Unit {0}) × Disk
  unfolding open_stream copy_body is_too_large parent_of
  download parse_qs raw dst m files =
      if is_empty dst
      then raise_fault (validation (codes "dst_path is empty")) false files
      else download_stream m.opts.max_bytes dst (open_stream parse_qs raw m) files
