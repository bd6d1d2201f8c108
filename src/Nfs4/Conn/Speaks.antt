-- ===== src/Nfs4/Conn/Speaks.antt =====
-- No caller of a connection returns a nil result without an error.
use go_nfs_client.Prelude.{
  ℕ, zero, suc, ◌<◌, ◌≡◌, ◌≢◌, refl, ap, ◌∙◌, true, Bool-cases, Option-cases, inl, inr, ◌⊎◌, ◌∷◌,
  Option, some, none, List, arith, ◌==◌,
}
use go_nfs_client.Prelude.Int.{ℤ}
use go_nfs_client.Xdr.Encoder.{Put}
use go_nfs_client.Xdr.Decoder.{Decoder, Get, pure, ◌>>=◌}
use go_nfs_client.Nfs4.Results.{SequenceRes}
use go_nfs_client.Nfs4.Compound.{Compound, Res, Outcome, ok, err, encode_compound, decode_compound}
use go_nfs_client.Nfs4.Caller.{status_err, Answer, Caller}
use go_nfs_client.Nfs4.Session.{Session, SlotLease}
use go_nfs_client.Nfs4.SessionCaller.{
  Acquired, leased, ctx_done, canceled, waiting, acquire_slot, without_sequence, finish,
  session_call, wrapped, new_sequence_res, sequence_decoder, all_beside,
}
use go_nfs_client.Nfs4.Retry.{
  RetryConfig, with_defaults, retriable, is_retriable_status, next_delay, exhausted, retry_loop,
  retry_call,
}
use go_nfs_client.Nfs4.Retry.Bounded.{some_attempt}
use go_nfs_client.Nfs4.Conn.Stack.{
  World, Environment, CallerStack, rpc_caller, session_caller, retry_caller, answer_of, after_rpc,
  decode_into, or_no_token, with_session, load, store, rpc_call_compound, call_compound,
}

-- Not nil and nil.
abbrev pub Speaks : Answer → Type 0
Speaks a = a.err ≡ none → a.res ≢ none

-- The RPC client decodes the results of every call that it returns no error from.
pub record Decodes {W : Type 0} (env : Environment W) : Type 1 where
  pub decodes :
      (S : Type 0) (args : Put) (decode : S → Get S) (s : S) (w : World W)
      → (env.rpc_call S args decode s w).0 ≡ none
      → (d : Decoder) × ((env.rpc_call S args decode s w).1 ≡ (decode s d).0)

answer_of-Speaks : (o : Outcome) → Speaks (answer_of (some o))
unfolding answer_of
answer_of-Speaks (ok r) e n = ground arith
answer_of-Speaks (err x) e n = ground arith

-- A retriable answer becomes an error.
exhausted-Speaks : (a : Answer) → retriable a ≡ true → Speaks (exhausted a)
unfolding exhausted retriable is_retriable_status status_err
exhausted-Speaks a r = elim (Option-cases a.err) [
  | inr (y, e) ↦ ground arith
  | inl e ↦ elim (Option-cases a.res) [ inl e' ↦ ground arith | inr (q, e') ↦ ground arith ]
]

module _ {S W : Type 0} (base : Caller S W) (ctx_err : W → Option ℕ) (sleep : ℤ → W → Option ℕ × W)
    (cfg : RetryConfig)
    (speaks : (c : Compound) (results : List (Res S)) (s : S) (w : W)
      → Speaks (base c results s w).0) where
  loop-Speaks :
      (n : ℕ) (delay : ℤ) (last : Answer) (c : Compound) (results : List (Res S)) (s : S) (w : W)
      → 0 < n
      → Speaks (retry_loop base ctx_err sleep cfg n delay last c results s w).0
  unfolding retry_loop
  loop-Speaks zero delay last c results s w h = absurd (omega arith)
  loop-Speaks (suc n) delay last c results s w h =
      let a = base c results s w in
      let z = sleep delay a.2 in
      elim (Option-cases (ctx_err w)) [
        | inr (x, e) ↦ elim (Option-cases last.err) [
          | inl e' ↦ ground arith
          | inr (y, e') ↦ ground arith
        ]
        | inl e ↦ elim (Bool-cases (retriable a.0)) [
          | inr r ↦ ground (arith, speaks c results s w)
          | inl r ↦ elim (Bool-cases (n == 0)) [
            | inl q ↦ ground (arith, exhausted-Speaks a.0 r)
            | inr q ↦ elim (Option-cases z.0) [
              | inr (x, e') ↦ ground arith
              | inl e' ↦
                  (ground (arith, loop-Speaks n (next_delay cfg delay) a.0 c results a.1 z.1))
            ]
          ]
        ]
      ]

finish-Speaks :
    (a : Answer) (q : SequenceRes) (l : SlotLease) (s : Session)
    → Speaks a
    → Speaks (finish a q l s).0
unfolding finish without_sequence
finish-Speaks a q l s h = elim (Option-cases a.err) [
  | inr (x, e) ↦ ground (arith, e)
  | inl e ↦ elim (Option-cases a.res) [
    | inl e' ↦ absurd (h e e')
    | inr (r, e') ↦ ground (arith, e, e')
  ]
]

Acquired-cases :
    (a : Acquired)
    → ((l : SlotLease) × (a ≡ leased l))
      ⊎ (((n : ℕ) × (a ≡ ctx_done n)) ⊎ ((a ≡ canceled) ⊎ (a ≡ waiting)))
Acquired-cases (leased l) = inl (l, refl)
Acquired-cases (ctx_done n) = inr (inl (n, refl))
Acquired-cases canceled = inr (inr (inl refl))
Acquired-cases waiting = inr (inr (inr refl))

session_call-Speaks :
    {S W : Type 0} (base : Caller (SequenceRes × S) (Session × W)) (done : Option ℕ)
    (meanwhile : Session → Session) (c : Compound) (results : List (Res S)) (s : S)
    (session : Session) (w : W)
    → ((c : Compound) (results : List (Res (SequenceRes × S))) (s : SequenceRes × S)
          (v : Session × W)
        → Speaks (base c results s v).0)
    → Speaks (or_no_token (session_call base done meanwhile c results s (session, w)).0)
unfolding session_call or_no_token
session_call-Speaks {S} base done meanwhile c results s session w h =
    let g = acquire_slot done meanwhile session in
    elim (Acquired-cases g.0) [
      | inl (l, e) ↦
          let b =
            base (wrapped g.1 l c) (sequence_decoder ∷ all_beside results) (new_sequence_res, s)
              (g.1, w) in
          ground (arith, e, finish-Speaks b.0 b.1.0 l b.2.0 (h _ _ _ _))
      | inr (inl (n, e)) ↦ ground (arith, e)
      | inr (inr (inl e)) ↦ ground (arith, e)
      | inr (inr (inr e)) ↦ ground (arith, e)
    ]

decoded :
    {S : Type 0} (results : List (Res S)) (s : S) (d : Decoder)
    → (decode_into results (none, s) d).0.0 ≡ some (decode_compound results s d).0.0
unfolding decode_into pure ◌>>=◌
decoded results s d = refl

module _ {W : Type 0} (env : Environment W) (h : Decodes env) where
  rpc-Speaks :
      (S : Type 0) (c : Compound) (results : List (Res S)) (s : S) (w : World W)
      → Speaks (rpc_call_compound env S c results s w).0
  unfolding rpc_call_compound after_rpc
  rpc-Speaks S c results s w =
      let x =
        env.rpc_call (Option Outcome × S) (encode_compound c) (decode_into results) (none, s) w in
      elim (Option-cases x.0) [
        | inr (n, e) ↦ ground arith
        | inl e ↦
            let (d, p) =
              h.decodes (Option Outcome × S) (encode_compound c) (decode_into results) (none, s) w
                e in
            answered x e (decode_compound results s d).0.0
              (ap (λ (y : Option Outcome × S). y.0) p ∙ decoded results s d)
      ]
    where
      answered :
          {S : Type 0} (x : Option ℕ × (Option Outcome × S) × World W)
          → x.0 ≡ none
          → (o : Outcome) → x.1.0 ≡ some o
          → Speaks (after_rpc x).0
      answered x e o p = ground (arith, answer_of-Speaks o)

  -- What every caller of the stack returns.
  pub call_compound-Speaks :
      (stack : CallerStack) (S : Type 0) (c : Compound) (results : List (Res S)) (s : S)
      (w : World W)
      → Speaks (call_compound env stack S c results s w).0
  unfolding call_compound retry_call with_session
  call_compound-Speaks rpc_caller S c results s w = rpc-Speaks S c results s w
  call_compound-Speaks (retry_caller cfg base) S c results s w =
      loop-Speaks (call_compound env base S) env.ctx_err env.sleep (with_defaults cfg)
        (call_compound-Speaks base S) _ _ _ c results s w (some_attempt cfg)
  call_compound-Speaks (session_caller p base) S c results s w =
      session_call-Speaks (with_session p (call_compound env base (SequenceRes × S)))
        (env.done (env.until_token w)) env.meanwhile c results s (load p (env.until_token w))
        (env.until_token w)
        (λ c' results' t v.
          call_compound-Speaks base (SequenceRes × S) c' results' t (store p v.0 v.1))
