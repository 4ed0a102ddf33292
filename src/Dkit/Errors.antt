-- ===== src/Dkit/Errors.antt =====
-- src/core_py/dkit/errors.py: the errors of the kit, as exceptions of the module of shared errors.
use core_py.Base.{ℕ}
use core_py.Base.Text.{Str, codes}
use core_py.Data.{Kind, error}

pub data DkitError : Type 0 where
  invalid_option : (message : Str) → DkitError
  lock_not_acquired : DkitError
  already_unlocked : DkitError
  election_not_enabled : DkitError
  backend_unavailable : DkitError
  no_available_number : DkitError
  default_kit_not_configured : DkitError

unfoldable pub error_code : DkitError → ℕ
error_code (invalid_option message) = 20100
error_code lock_not_acquired = 20101
error_code already_unlocked = 20102
error_code election_not_enabled = 20103
error_code no_available_number = 20104
error_code backend_unavailable = 10100
error_code default_kit_not_configured = 10101

unfoldable pub error_message : DkitError → Str
error_message (invalid_option message) = message
error_message lock_not_acquired = codes "dkit: lock not acquired"
error_message already_unlocked = codes "dkit: already unlocked"
error_message election_not_enabled = codes "dkit: election not enabled"
error_message backend_unavailable = codes "dkit: backend unavailable"
error_message no_available_number = codes "dkit: no available number"
error_message default_kit_not_configured = codes "dkit: default kit not configured"

-- `DKitError.__init__`
unfoldable pub as_kind : DkitError → Kind
unfolding error_code error_message
as_kind e = error (error_code e) (error_message e)
