-- ===== src/Resource/Manager/Download.antt =====
-- A download is all or nothing: it writes the whole file in place, or leaves the file that was there.
use core_py.Base.{true, Option, none, some, Result, ok, err, ◌≡◌, ◌⊎◌}
use core_py.Base.Text.{Str, str_eq}
use core_py.Base.Dict
use core_py.Base.Dict.{Dict}
use core_py.Resource.Limit.{Bytes}
use core_py.Resource.Identifier.{Fault}
use core_py.Resource.Manager.{Stream, Manager, ManagerError, DownloadError, Disk, copy_body}

-- What a download came to: the whole body in its place, with or without an exception of
-- `stream.close`, or an exception and the old file.
abbrev pub Outcome :
    Option Fault
    → Str
    → Dict Bytes
    → Result ManagerError Stream
    → Result DownloadError (Unit {0}) × Disk
    → Type 0
Outcome close dst files opened r =
    ((stream : Stream) × (opened ≡ ok stream)
      × ((copy_body stream.body.chunks stream.body.fault).1 ≡ none)
      × (Dict.get dst r.1.files ≡ some ((copy_body stream.body.chunks stream.body.fault).0))
      × (((close ≡ none) × (r.0 ≡ ok tt))
          ⊎ ((c : Fault) × (close ≡ some c) × (r.0 ≡ err (DownloadError.download_fault c)))))
    ⊎ ((e : DownloadError) × (r.0 ≡ err e) × (Dict.get dst r.1.files ≡ Dict.get dst files))

-- A temporary file may be left: the stream's close has raised, or the file's removal.
abbrev pub MayStay : Option Fault → Option Fault → Type 0
MayStay close remove = ((e : Fault) × (close ≡ some e)) ⊎ ((e : Fault) × (remove ≡ some e))

-- A path has its file of before, or it is that of a temporary file that is left.
abbrev pub Kept :
    Option Fault
    → Option Fault
    → Str
    → Dict Bytes
    → Str
    → Result DownloadError (Unit {0}) × Disk
    → Type 0
Kept close remove tmp files p r =
    (Dict.get p r.1.files ≡ Dict.get p files) ⊎ ((str_eq tmp p ≡ true) × MayStay close remove)
