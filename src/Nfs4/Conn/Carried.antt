-- ===== src/Nfs4/Conn/Carried.antt =====
-- How the callers of a connection carry a server's reply up to the methods.
use go_nfs_client.Prelude.{
  ℕ, ◌≡◌, ◌≢◌, refl, ap, ◌∙◌, true, false, Option, some, none, List, [], ◌∷◌, length, arith,
  append-nil,
}
use go_nfs_client.Xdr.Io.{Bytes, eof}
use go_nfs_client.Xdr.Encoder.{Put}
use go_nfs_client.Xdr.Decoder.{Get, pure, ◌>>=◌}
use go_nfs_client.Xdr.Codec.{Codec, reader, written}
use go_nfs_client.Nfs4.Types.{nfs4_ok, nfs4err_delay, nfs4err_grace, U32, Small}
use go_nfs_client.Nfs4.Opnums.{op_sequence}
use go_nfs_client.Nfs4.Results.{SequenceRes, decode_sequence_res}
use go_nfs_client.Nfs4.Compound.{Compound, Res, Outcome, encode_compound}
use go_nfs_client.Nfs4.Compound.Replies.{
  Resop, Answers, put_compound_res, decode_compound-put_compound_res,
}
use go_nfs_client.Nfs4.Caller.{Answer}
use go_nfs_client.Nfs4.Retry.{RetryConfig, retriable, is_retriable_status}
use go_nfs_client.Nfs4.Retry.Bounded.{retry_call-base}
use go_nfs_client.Nfs4.Session.{Session, SlotLease, take_token, claim_slot, release}
use go_nfs_client.Nfs4.SessionCaller.{wrapped, new_sequence_res, sequence_decoder, all_beside}
use go_nfs_client.Nfs4.SessionCaller.Calls.{session_call-answered, without_sequence-suc}
use go_nfs_client.Nfs4.SessionCaller.Wrapping.{sequence-Answers}
use go_nfs_client.Nfs4.Conn.Stack.{
  session_caller, with_session, load, store, or_no_token, World, Environment, CallerStack,
  rpc_caller, retry_caller, answer_of, after_rpc, decode_into, rpc_call_compound, call_compound,
}

-- The RPC client takes the request out and brings `body` back, whatever decodes it.
pub record Delivered {W : Type 0} (env : Environment W) (request : Put) (w : World W) (body : Bytes)
    (w' : World W) : Type 1 where
  pub delivered :
      (S : Type 0) (decode : S → Get S) (s : S)
      → (decode s (reader body eof)).1.err ≡ none
      → env.rpc_call S request decode s w ≡ (none, (decode s (reader body eof)).0, w')

-- What a caller returns for a reply.
abbrev pub replied : ℕ → Bytes → ℕ → Answer
replied status tag n = record {
  res = some (record { status = status; tag = tag; num_results = n });
  err = none;
}

-- A caller carries a reply of `resops` up: it answers with the reply's status, and the results' decoders have
-- read the resops, whichever decoders these are that the resops fit.
pub record Carried {W : Type 0} (env : Environment W) (stack : CallerStack) (c : Compound)
    (w : World W) (status : ℕ) (resops : List Resop) (w' : World W) : Type 1 where
  pub tag : Bytes
  pub carried :
      (S : Type 0) (results : List (Res S)) (s s' : S)
      → Answers results resops s s'
      → call_compound env stack S c results s w ≡ (replied status tag (length resops), s', w')

not_retriable :
    (status : ℕ) (tag : Bytes) (n : ℕ)
    → status ≢ nfs4err_delay
    → status ≢ nfs4err_grace
    → retriable (replied status tag n) ≡ false
unfolding retriable is_retriable_status
not_retriable status tag n hd hg = ground arith

module _ {W : Type 0} (env : Environment W) where
  decode_into-reply :
      {S : Type 0} (status : ℕ) (tag : Bytes) (results : List (Res S)) (resops : List Resop)
      (s s' : S)
      → U32 status
      → Small tag
      → U32 (length resops)
      → Answers results resops s s'
      → decode_into results (none, s) (reader (written (put_compound_res status tag resops)) eof)
        ≡ (
          (
            some (Outcome.ok (record { status = status; tag = tag; num_results = length resops })),
            s',
          ),
          reader [] eof,
        )
  unfolding decode_into pure ◌>>=◌
  decode_into-reply status tag results resops s s' hs ht hn h =
      let e = decode_compound-put_compound_res status tag results resops s s' eof [] hs ht hn h in
      rw (rw (append-nil (written (put_compound_res status tag resops))) at e) refl

  -- The reply of a server that follows RFC 7530.
  pub rpc-Carried :
      (c : Compound) (w w' : World W) (status : ℕ) (tag : Bytes) (resops : List Resop)
      → U32 status
      → Small tag
      → U32 (length resops)
      → Delivered env (encode_compound c) w (written (put_compound_res status tag resops)) w'
      → Carried env rpc_caller c w status resops w'
  unfolding call_compound rpc_call_compound after_rpc answer_of
  rpc-Carried c w w' status tag resops hs ht hn d = record {
    tag = tag;
    carried = λ S results s s' h.
        let e = decode_into-reply status tag results resops s s' hs ht hn h in
        let came =
          d.delivered (Option Outcome × S) (decode_into results) (none, s) (ap (λ p. p.1.err) e)
          ∙ ap (λ p. (none, p.0, w')) e in
        ap after_rpc came;
  }

  -- The retrying caller hands a reply on that is neither DELAY nor GRACE, unless the context is done.
  pub retry-Carried :
      (cfg : RetryConfig) (base : CallerStack) (c : Compound) (w w' : World W) (status : ℕ)
      (resops : List Resop)
      → env.ctx_err w ≡ none
      → status ≢ nfs4err_delay
      → status ≢ nfs4err_grace
      → Carried env base c w status resops w'
      → Carried env (retry_caller cfg base) c w status resops w'
  unfolding call_compound
  retry-Carried cfg base c w w' status resops hc hd hg h = record {
    tag = h.tag;
    carried = λ S results s s' a.
        let e = h.carried S results s s' a in
        retry_call-base (call_compound env base S) env.ctx_err env.sleep cfg c results s w hc
          (rw e (not_retriable status h.tag (length resops) hd hg))
        ∙ e;
  }

  -- The session's caller puts a SEQUENCE in front, takes its answer off, and releases the slot.
  pub session-Carried :
      (p : ℕ) (base : CallerStack) (c : Compound) (w w' : World W) (status : ℕ)
      (resops : List Resop) (s₁ s₂ : Session) (l : SlotLease) (q : SequenceRes) (body : Put)
      → env.done (env.until_token w) ≡ none
      → take_token (load p (env.until_token w)) ≡ some s₁
      → claim_slot (env.meanwhile s₁) ≡ (some l, s₂)
      → Codec body (decode_sequence_res new_sequence_res) q
      → q.status ≡ nfs4_ok
      → Carried env base
          (wrapped s₂ l c)
          (store p s₂ (env.until_token w))
          status
          (record { op = op_sequence; body = body } ∷ resops)
          w'
      → Carried env
          (session_caller p base)
          c
          w
          status
          resops
          (store p (release true l (load p w')).1 w')
  unfolding with_session call_compound or_no_token
  session-Carried p base c w w' status resops s₁ s₂ l q body hd ht hc hq ok h = record {
    tag = h.tag;
    carried = λ S results s s' a.
        let e =
          h.carried (SequenceRes × S) (sequence_decoder ∷ all_beside results) (new_sequence_res, s)
            (q, s') (sequence-Answers results resops q body s s' hq a) in
        let called =
          session_call-answered (with_session p (call_compound env base (SequenceRes × S)))
            env.meanwhile c results s s' (load p (env.until_token w)) s₁ s₂ (load p w')
            (env.until_token w) w' l q _ ht hc (ap (λ x. (x.0, x.1, (load p x.2, x.2))) e) ok in
        let fewer = without_sequence-suc status h.tag (length resops) in
        rw hd (
          ap (λ x. (or_no_token x.0, x.1, store p x.2.0 x.2.1)) called
          ∙ ap
              (λ r. (record { res = r; err = none }, s', store p (release true l (load p w')).1 w'))
              fewer);
  }
