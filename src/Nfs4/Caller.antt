-- ===== src/Nfs4/Caller.antt =====
-- nfs4/conn.go: the interface CompoundCaller, and the errors of nfs4/consts.go.
use go_nfs_client.Prelude.{ℕ, Option, some, none, List, Bool, false, if◌then◌else◌, ◌==◌}
use go_nfs_client.Nfs4.Types.{nfs4_ok}
use go_nfs_client.Nfs4.Compound.{Compound, CompoundResult, Res}

-- An error that is or wraps a StatusError, or any other, by a number.
pub data CallError : Type 0 where
  status_error : ℕ → CallError
  other_error : ℕ → CallError

-- `s.Err()`
unfoldable pub status_err : ℕ → Option CallError
status_err s = if s == nfs4_ok then none else some (status_error s)

unfoldable pub error_has_status : CallError → ℕ → Bool
error_has_status (status_error t) s = t == s
error_has_status (other_error n) s = false

-- What a call returns; nil is `none`.
pub record Answer : Type 0 where
  pub res : Option CompoundResult
  pub err : Option CallError

-- A CompoundCaller. `S` is the state that the result decoders work on, `W` all else: the server, the
-- connection, the clock, and what other goroutines do meanwhile.
abbrev pub Caller : Type 0 → Type 0 → Type 0
Caller S W = Compound → List (Res S) → S → W → Answer × S × W
