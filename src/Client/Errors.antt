-- ===== src/Client/Errors.antt =====
-- nfs4/consts.go: StatusError.Is; and client/fs.go: pathError.
use go_nfs_client.Prelude.{
  ℕ, ◌≡◌, Bool, true, false, ◌||◌, Option, some, none, if◌then◌else◌, ◌==◌, arith,
}
use go_nfs_client.Nfs4.Caller.{CallError, status_error, other_error}

-- fs.ErrExist, fs.ErrNotExist, fs.ErrPermission, fs.ErrInvalid and fs.ErrClosed.
pub data Sentinel : Type 0 where
  exist not_exist permission invalid closed : Sentinel

-- StatusError.Is, on the status.
unfoldable pub status_is : ℕ → Sentinel → Bool
status_is s not_exist = (s == 2) || ((s == 70) || ((s == 10014) || (s == 10020)))
status_is s exist = s == 17
status_is s permission = (s == 1) || ((s == 13) || (s == 30))
status_is s invalid = (s == 22) || ((s == 10036) || ((s == 10001) || (s == 10007)))
status_is s closed = false

-- errors.Is(err, target). An error that is no StatusError matches none of the sentinels.
unfoldable pub error_is : CallError → Sentinel → Bool
error_is (status_error s) target = status_is s target
error_is (other_error n) target = false

unfoldable pub canonical_sentinel : CallError → Option Sentinel
canonical_sentinel e =
    if error_is e exist
    then some exist
    else if error_is e not_exist
    then some not_exist
    else if error_is e permission
    then some permission
    else if error_is e invalid
    then some invalid
    else none

-- What the file operations return: a PathError by what it wraps, io.EOF, io.ErrShortWrite, or an
-- error as it is. `text` is an error made on the spot, by a number. `out_of_fuel` has no counterpart.
pub data FileError : Type 0 where
  path_sentinel : Sentinel → FileError
  path_wrap : CallError → FileError
  plain : CallError → FileError
  eof short_write out_of_fuel : FileError
  text : ℕ → FileError

unfoldable pub path_error : CallError → FileError
path_error e = elim (canonical_sentinel e) [ some s ↦ path_sentinel s | none ↦ path_wrap e ]

abbrev same : Sentinel → Sentinel → Bool
same exist exist = true
same not_exist not_exist = true
same permission permission = true
same invalid invalid = true
same closed closed = true
same _ _ = false

-- errors.Is on a PathError, which unwraps.
abbrev pub file_error_is : FileError → Sentinel → Bool
file_error_is (path_sentinel s) target = same s target
file_error_is (path_wrap e) target = error_is e target
file_error_is (plain e) target = error_is e target
file_error_is eof target = false
file_error_is short_write target = false
file_error_is out_of_fuel target = false
file_error_is (text n) target = false

-- Wrapping a status in a PathError keeps what errors.Is says of it: it matches exactly the sentinels that the
-- status matches, of which there is one at most.
pub path_error-is :
    (s : ℕ) (target : Sentinel)
    → file_error_is (path_error (status_error s)) target ≡ status_is s target
unfolding path_error canonical_sentinel error_is status_is
path_error-is s exist = ground arith
path_error-is s not_exist = ground arith
path_error-is s permission = ground arith
path_error-is s invalid = ground arith
path_error-is s closed = ground arith
