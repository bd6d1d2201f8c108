-- ===== src/Nfs4/Conn/Stack.antt =====
-- nfs4/conn.go: the callers that a connection puts on top of each other, and nfs4/transport.go's at the
-- bottom.
use go_nfs_client.Prelude.{ℕ, Option, some, none, List, [], get_elem?, set}
use go_nfs_client.Prelude.Int.{ℤ}
use go_nfs_client.Xdr.Io.{Bytes}
use go_nfs_client.Xdr.Encoder.{Put}
use go_nfs_client.Xdr.Decoder.{Get, pure, ◌>>=◌}
use go_nfs_client.Nfs4.Results.{SequenceRes}
use go_nfs_client.Nfs4.Compound.{Res, Outcome, ok, err, encode_compound, decode_compound}
use go_nfs_client.Nfs4.Caller.{other_error, Answer, Caller}
use go_nfs_client.Nfs4.Session.{Session}
use go_nfs_client.Nfs4.SessionCaller.{session_call}
use go_nfs_client.Nfs4.Retry.{RetryConfig, retry_call}

-- The sessions that a pointer can lead to, by their numbers, and all else.
pub record World (W : Type 0) : Type 0 where
  pub sessions : List Session
  pub rest : W

-- The callers, as the connection's field `caller` holds them; the number is a *Session.
pub data CallerStack : Type 0 where
  rpc_caller : CallerStack
  session_caller : ℕ → CallerStack → CallerStack
  retry_caller : RetryConfig → CallerStack → CallerStack

-- What rand.Read(verifier[:]) comes to.
pub data Random : Type 0 where
  rand_failed : ℕ → Random
  rand_bytes : Bytes → Random

-- What the code calls. `rpc_call` is rpc.Client.Call of procedure NFSPROC4_COMPOUND: it is given what
-- encodes the arguments and what decodes the results, which works on a state of the caller's, and
-- gives an error by its number; `ctx_err` and `sleep` are those of the retrying caller; `done` is the error of a context
-- whose arm AcquireSlot's select takes; `until_token` is what other goroutines do while it waits,
-- and `meanwhile` what they do between the token and the mutex; `rpc_dial` is rpc.Dial, and `rpc_close` is the RPC client's
-- Close.
pub record Environment (W : Type 0) : Type 1 where
  pub rpc_call : (S : Type 0) → Put → (S → Get S) → S → World W → Option ℕ × S × World W
  pub ctx_err : World W → Option ℕ
  pub sleep : ℤ → World W → Option ℕ × World W
  pub done : World W → Option ℕ
  pub until_token : World W → World W
  pub meanwhile : Session → Session
  pub rand : World W → Random × World W
  pub hostname : Bytes
  pub rpc_dial : World W → Option ℕ × World W
  pub rpc_close : World W → Option ℕ × World W

-- The error that stands for a call that waits for a token for ever.
abbrev pub no_token : ℕ
no_token = 2

-- The error that stands for what DecodeCompound returns.
abbrev pub malformed : ℕ
malformed = 3

-- A pointer out of range leads to an empty session.
unfoldable pub load : {W : Type 0} → ℕ → World W → Session
load p w = elim (get_elem? w.sessions p) [
  | some s ↦ s
  | none ↦ record { id = []; slots = []; highest = 0; free = 0 }
]

unfoldable pub store : {W : Type 0} → ℕ → Session → World W → World W
store p s w = record w { sessions = set w.sessions p s }

-- What CallCompound returns once the RPC went through. A nil result and a nil error go on as they are.
unfoldable pub answer_of : Option Outcome → Answer
answer_of none = record { res = none; err = none }
answer_of (some (ok r)) = record { res = some r; err = none }
answer_of (some (err e)) = record { res = none; err = some (other_error malformed) }

-- The closure that decodes: it sets `out` and `decErr`.
unfoldable pub decode_into :
    {S : Type 0} → List (Res S) → Option Outcome × S → Get (Option Outcome × S)
decode_into results (out, s) = do (o, s') ← decode_compound results s; pure (some o, s')

-- What follows the RPC in CallCompound.
unfoldable pub after_rpc :
    {S W : Type 0} → Option ℕ × (Option Outcome × S) × World W → Answer × S × World W
after_rpc (some n, (out, s), w) = (record { res = none; err = some (other_error n) }, s, w)
after_rpc (none, (out, s), w) = (answer_of out, s, w)

unfoldable pub or_no_token : Option Answer → Answer
or_no_token (some a) = a
or_no_token none = record { res = none; err = some (other_error no_token) }

-- The caller beneath a session's, on the session in its place among the others.
unfoldable pub with_session : {S W : Type 0} → ℕ → Caller S (World W) → Caller S (Session × World W)
with_session p base c results s (session, w) =
    let (a, s', w') = base c results s (store p session w) in (a, s', (load p w', w'))

module _ {W : Type 0} (env : Environment W) where
  -- RPCCaller.CallCompound
  unfoldable pub rpc_call_compound : (S : Type 0) → Caller S (World W)
  rpc_call_compound S c results s w =
      after_rpc
        (env.rpc_call (Option Outcome × S) (encode_compound c) (decode_into results) (none, s) w)

  -- `caller.CallCompound`
  unfoldable pub call_compound : CallerStack → (S : Type 0) → Caller S (World W)
  call_compound rpc_caller S c results s w = rpc_call_compound S c results s w
  call_compound (retry_caller cfg base) S c results s w =
      retry_call (call_compound base S) env.ctx_err env.sleep cfg c results s w
  call_compound (session_caller p base) S c results s w =
      let w₁ = env.until_token w in
      let (a, s', (session, w₂)) =
        session_call (with_session p (call_compound base (SequenceRes × S))) (env.done w₁)
          env.meanwhile c results s (load p w₁, w₁) in
      (or_no_token a, s', store p session w₂)
