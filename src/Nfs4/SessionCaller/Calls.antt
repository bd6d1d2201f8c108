-- ===== src/Nfs4/SessionCaller/Calls.antt =====
-- A call through the session's caller that gets a slot and an answer.
use go_nfs_client.Prelude.{ℕ, suc, ◌≡◌, true, some, none, List, ◌∷◌, arith}
use go_nfs_client.Xdr.Io.{Bytes}
use go_nfs_client.Nfs4.Types.{nfs4_ok}
use go_nfs_client.Nfs4.Results.{SequenceRes}
use go_nfs_client.Nfs4.Compound.{Compound, CompoundResult, Res}
use go_nfs_client.Nfs4.Caller.{Caller}
use go_nfs_client.Nfs4.Session.{Session, SlotLease, take_token, claim_slot, release}
use go_nfs_client.Nfs4.SessionCaller.{
  leased, acquire_slot, wrapped, new_sequence_res, sequence_decoder, all_beside, without_sequence,
  finish, session_call,
}

acquire_slot-leased :
    (meanwhile : Session → Session) (s s₁ s₂ : Session) (l : SlotLease)
    → take_token s ≡ some s₁
    → claim_slot (meanwhile s₁) ≡ (some l, s₂)
    → acquire_slot none meanwhile s ≡ (leased l, s₂)
unfolding acquire_slot
acquire_slot-leased meanwhile s s₁ s₂ l ht hc = ground (arith, ht, hc)

finish-answered :
    (r : CompoundResult) (q : SequenceRes) (l : SlotLease) (s : Session)
    → q.status ≡ nfs4_ok
    → finish (record { res = some r; err = none }) q l s
      ≡ (record { res = without_sequence (some r); err = none }, (release true l s).1)
unfolding finish
finish-answered r q l s e = ground (arith, e)

pub without_sequence-suc :
    (status : ℕ) (tag : Bytes) (n : ℕ)
    → without_sequence (some (record { status = status; tag = tag; num_results = suc n }))
      ≡ some (record { status = status; tag = tag; num_results = n })
unfolding without_sequence
without_sequence-suc status tag n = ground arith

module _ {S W : Type 0} (base : Caller (SequenceRes × S) (Session × W))
    (meanwhile : Session → Session) (c : Compound) (results : List (Res S)) (s s' : S)
    (session s₁ s₂ session' : Session) (w w' : W) (l : SlotLease) (q : SequenceRes)
    (r : CompoundResult) where
  pub session_call-answered :
      take_token session ≡ some s₁
      → claim_slot (meanwhile s₁) ≡ (some l, s₂)
      → base (wrapped s₂ l c) (sequence_decoder ∷ all_beside results) (new_sequence_res, s) (s₂, w)
        ≡ (record { res = some r; err = none }, (q, s'), (session', w'))
      → q.status ≡ nfs4_ok
      → session_call base none meanwhile c results s (session, w) ≡ (
        some (record { res = without_sequence (some r); err = none }),
        s',
        ((release true l session').1, w'),
      )
  unfolding session_call
  session_call-answered ht hc hb hq =
      let ha = acquire_slot-leased meanwhile session s₁ s₂ l ht hc in
      let hf = finish-answered r q l session' hq in ground (arith, ha, hb, hf)
