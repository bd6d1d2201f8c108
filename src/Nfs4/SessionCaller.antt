-- ===== src/Nfs4/SessionCaller.antt =====
-- nfs4/session.go: the caller that puts a SEQUENCE in front of every compound.
pub mod Wrapping
pub mod Calls
use go_nfs_client.Prelude.{
  ℕ, zero, suc, ◌+◌, ◌-◌, Bool, true, false, Option, some, none, List, [], ◌∷◌, replicate,
  if◌then◌else◌, ltb, ◌==◌,
}
use go_nfs_client.Xdr.Io.{Bytes}
use go_nfs_client.Xdr.Decoder.{Get, pure, ◌>>=◌}
use go_nfs_client.Nfs4.Types.{nfs4_ok}
use go_nfs_client.Nfs4.Opnums.{op_sequence}
use go_nfs_client.Nfs4.Args.{Arg, sequence_args, SequenceArgs}
use go_nfs_client.Nfs4.Results.{SequenceRes, decode_sequence_res}
use go_nfs_client.Nfs4.Compound.{Compound, CompoundResult, Res, new_compound, add}
use go_nfs_client.Nfs4.Caller.{CallError, other_error, status_error, status_err, Answer, Caller}
use go_nfs_client.Nfs4.Session.{Session, SlotLease, take_token, claim_slot, release}

-- How AcquireSlot ends: with a lease; with the context's error, where that arm of the select is
-- taken; with context.Canceled; or not at all, while no token comes.
pub data Acquired : Type 0 where
  leased : SlotLease → Acquired
  ctx_done : ℕ → Acquired
  canceled : Acquired
  waiting : Acquired

-- The number of context.Canceled.
abbrev pub canceled_error : ℕ
canceled_error = 1

-- `done` is the error of a context whose arm of the select is taken. Other goroutines may run between
-- the token and the mutex: `meanwhile` is what they make of the session.
unfoldable pub acquire_slot : Option ℕ → (Session → Session) → Session → Acquired × Session
acquire_slot (some n) meanwhile s = (ctx_done n, s)
acquire_slot none meanwhile s = elim (take_token s) [
  | none ↦ (waiting, s)
  | some s₁ ↦
      let (l, s₂) = claim_slot (meanwhile s₁) in
      elim l [ some lease ↦ (leased lease, s₂) | none ↦ (canceled, s₂) ]
]

unfoldable pub sequence_of : Session → SlotLease → SequenceArgs
sequence_of s l = record {
  session_id = s.id;
  sequence_id = l.seq;
  slot_id = l.slot_id;
  highest_slot_id = l.highest;
  cache_this = false;
}

-- `for _, op := range ops { wrapped.Add(op) }`
unfoldable pub add_all : Compound → List Arg → Compound
add_all c [] = c
add_all c (op ∷ ops) = add_all (add c op) ops

unfoldable pub wrapped : Session → SlotLease → Compound → Compound
wrapped s l c =
    add_all
      (add (record (new_compound c.tag) { minor_version = c.minor_version })
        (sequence_args (sequence_of s l)))
      c.ops

-- `var seqRes SequenceRes`
abbrev pub new_sequence_res : SequenceRes
new_sequence_res = record {
  status = 0;
  session_id = replicate 16 0;
  sequence_id = 0;
  slot_id = 0;
  highest_slot_id = 0;
  target_highest_slot = 0;
  status_flags = 0;
}

-- The program passes the caller's decoders on as they are, since each writes through its own pointer. Here
-- the state that they write to is passed along, so they work on theirs next to that of SEQUENCE;
-- `beside` and `all_beside` have no counterpart in the program.
unfoldable pub beside : {S : Type 0} → Res S → Res (SequenceRes × S)
beside r = record { op = r.op; decode_res = λ (q, s). (do s' ← r.decode_res s; pure (q, s')) }

unfoldable pub sequence_decoder : {S : Type 0} → Res (SequenceRes × S)
sequence_decoder = record {
  op = op_sequence;
  decode_res = λ (q, s). (do q' ← decode_sequence_res q; pure (q', s));
}

unfoldable pub all_beside : {S : Type 0} → List (Res S) → List (Res (SequenceRes × S))
all_beside [] = []
all_beside (r ∷ results) = beside r ∷ all_beside results

-- `if r != nil && r.NumResults > 0 { r.NumResults-- }`
unfoldable pub without_sequence : Option CompoundResult → Option CompoundResult
without_sequence none = none
without_sequence (some r) =
    some (if ltb 0 r.num_results then record r { num_results = r.num_results - 1 } else r)

-- What follows the base caller's answer. The deferred `lease.Retry()` runs on its error.
unfoldable pub finish : Answer → SequenceRes → SlotLease → Session → Answer × Session
finish a q l s = elim a.err [
  | some e ↦ (record { res = none; err = some e }, (release false l s).1)
  | none ↦
      if q.status == nfs4_ok
      then (record { res = without_sequence a.res; err = none }, (release true l s).1)
      else (record { res = none; err = some (status_error q.status) }, (release true l s).1)
]

-- The outcome of a call: an answer, or none while it waits for a slot. The base caller works on the
-- session too, as other goroutines use it during the call.
unfoldable pub session_call :
    {S W : Type 0}
    → Caller (SequenceRes × S) (Session × W)
    → Option ℕ
    → (Session → Session)
    → Compound
    → List (Res S)
    → S
    → Session × W
    → Option Answer × S × (Session × W)
session_call base done meanwhile c results s (session, w) =
    let (got, session₁) = acquire_slot done meanwhile session in
    elim got [
      | waiting ↦ (none, s, (session₁, w))
      | ctx_done n ↦ (some (record { res = none; err = some (other_error n) }), s, (session₁, w))
      | canceled ↦
          (some (record { res = none; err = some (other_error canceled_error) }), s, (session₁, w))
      | leased l ↦
          let (a, (q, s'), (session₂, w')) =
            base (wrapped session₁ l c) (sequence_decoder ∷ all_beside results)
              (new_sequence_res, s) (session₁, w) in
          let (a', session₃) = finish a q l session₂ in (some a', s', (session₃, w'))
    ]
