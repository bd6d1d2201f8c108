-- ===== src/Nfs4/SessionCaller/Wrapping.antt =====
-- The wrapped compound, its results, and the slot after the call.
use go_nfs_client.Prelude.{
  ℕ, ◌+◌, ◌%◌, ◌^◌, ◌≡◌, ◌≢◌, refl, ◌∙◌, Bool, true, false, some, none, Option-cases, Bool-cases,
  inl, inr, List, [], ◌∷◌, ◌++◌, append_assoc, append-nil, arith, get_elem?, get_elem?-set_self,
  get_elem?-set_ne, if◌then◌else◌, ◌==◌,
}
use go_nfs_client.Xdr.Encoder.{Put}
use go_nfs_client.Xdr.Codec.{Codec, Codec-map}
use go_nfs_client.Nfs4.Types.{nfs4_ok}
use go_nfs_client.Nfs4.Opnums.{op_sequence}
use go_nfs_client.Nfs4.Args.{Arg, sequence_args}
use go_nfs_client.Nfs4.Results.{SequenceRes, decode_sequence_res}
use go_nfs_client.Nfs4.Compound.{Compound, Res, new_compound, add}
use go_nfs_client.Nfs4.Compound.Replies.{Resop, Answers, stop, next}
use go_nfs_client.Nfs4.Caller.{Answer}
use go_nfs_client.Nfs4.Session.{Slot, Session, SlotLease, release, release_slot, freed, put_token}
use go_nfs_client.Nfs4.Session.Slots.{get_elem?-lt}
use go_nfs_client.Nfs4.SessionCaller.{
  sequence_of, add_all, wrapped, new_sequence_res, beside, sequence_decoder, all_beside, finish,
}

add_all_lem : (c : Compound) (ops : List Arg) → add_all c ops ≡ record c { ops = c.ops ++ ops }
unfolding add_all add
add_all_lem c [] = rw append-nil refl
add_all_lem c (op ∷ ops) = add_all_lem (add c op) ops ∙ rw (append_assoc c.ops (op ∷ []) ops) refl

-- The wrapped compound is the caller's with one SEQUENCE in front, which carries the session's id
-- and the lease's slot, sequence id and highest slot.
pub wrapped_lem :
    (s : Session) (l : SlotLease) (c : Compound)
    → wrapped s l c ≡ record c { ops = sequence_args (sequence_of s l) ∷ c.ops }
unfolding wrapped new_compound add
wrapped_lem s l c = add_all_lem _ c.ops

module _ {S : Type 0} where
  beside-Answers :
      (results : List (Res S)) (resops : List Resop) (q : SequenceRes) (s s' : S)
      → Answers results resops s s'
      → Answers (all_beside results) resops (q, s) (q, s')
  unfolding all_beside beside
  beside-Answers results [] q s s' stop = stop
  beside-Answers (r ∷ results) (a ∷ resops) q s s'' (next {s' = t} e u c h) =
      next e u (Codec-map (λ t. (q, t)) c) (beside-Answers results resops q t s'' h)
  beside-Answers [] (a ∷ resops) q s s' h = elim h [ ]

  -- A reply whose answers fit the caller's result decoders, behind an answer to SEQUENCE, fits the
  -- decoders of the wrapped call: those of the caller read what they read without a session.
  pub sequence-Answers :
      (results : List (Res S)) (resops : List Resop) (q : SequenceRes) (body : Put) (s s' : S)
      → Codec body (decode_sequence_res new_sequence_res) q
      → Answers results resops s s'
      → Answers
          (sequence_decoder ∷ all_beside results)
          (record { op = op_sequence; body = body } ∷ resops)
          (new_sequence_res, s)
          (q, s')
  unfolding sequence_decoder
  sequence-Answers results resops q body s s' c h =
      next (inr refl) (omega arith) (Codec-map (λ p. (p, s)) c)
        (beside-Answers results resops q s s' h)

-- What a release leaves: the slot free, its sequence id advanced or not, and one more token.
release-slots :
    (advance : Bool) (l : SlotLease) (s : Session) (t : Slot) (j : ℕ)
    → l.released ≡ false
    → l.slot_id ≢ j
    → get_elem? s.slots l.slot_id ≡ some t
    → let s' = (release advance l s).1 in
      (get_elem? s'.slots l.slot_id
        ≡ some (record { seq = if advance then (t.seq + 1) % 2 ^ 32 else t.seq; in_use = false }))
      × (get_elem? s'.slots j ≡ get_elem? s.slots j)
      × (s'.free ≡ s.free + 1)
unfolding release release_slot freed put_token
release-slots advance l s t j h ne e =
    let u : Slot = record {
      seq = if advance then (t.seq + 1) % 2 ^ 32 else t.seq;
      in_use = false;
    } in
    rw (h, freed, e)
      (
        get_elem?-set_self {A = Slot} s.slots l.slot_id u (get_elem?-lt s.slots l.slot_id t e),
        get_elem?-set_ne {A = Slot} s.slots l.slot_id j u ne,
        refl,
      )

-- The deferred release of a call whose lease is out: the slot is free again and its token is back,
-- another slot is as it was, and the slot's sequence id has advanced exactly if the base caller got an answer, whatever
-- SEQUENCE's own status in it.
pub finish-slots :
    (a : Answer) (q : SequenceRes) (l : SlotLease) (s : Session) (t : Slot) (j : ℕ)
    → l.released ≡ false
    → l.slot_id ≢ j
    → get_elem? s.slots l.slot_id ≡ some t
    → let s' = (finish a q l s).1 in
      (get_elem? s'.slots l.slot_id
        ≡ some (record {
          seq = elim a.err [ none ↦ (t.seq + 1) % 2 ^ 32 | some e ↦ t.seq ];
          in_use = false;
        }))
      × (get_elem? s'.slots j ≡ get_elem? s.slots j)
      × (s'.free ≡ s.free + 1)
unfolding finish
finish-slots a q l s t j h ne e = elim (Option-cases a.err) [
  | inr (x, p) ↦ rw p (release-slots false l s t j h ne e)
  | inl p ↦ elim (Bool-cases (q.status == nfs4_ok)) [
    | inl k ↦ rw (p, k) (release-slots true l s t j h ne e)
    | inr k ↦ rw (p, k) (release-slots true l s t j h ne e)
  ]
]
