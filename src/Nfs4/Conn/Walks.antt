-- ===== src/Nfs4/Conn/Walks.antt =====
-- Lookup and LookupPath, on a server that holds a tree of directories.
pub mod Paths
use go_nfs_client.Prelude.{
  ℕ, ◌+◌, ◌≡◌, ◌≢◌, refl, ap, ◌∙◌, sym, Bool, true, false, Bool-cases, Option-cases, ◌⊎◌, inl, inr,
  Option, some, none, List, [], ◌∷◌, length, arith, ◌==◌, if◌then◌else◌,
}
use go_nfs_client.Xdr.Io.{Bytes}
use go_nfs_client.Xdr.Encoder
use go_nfs_client.Xdr.Encoder.{Put}
use go_nfs_client.Xdr.Decoder.{Get, pure, ◌>>=◌}
use go_nfs_client.Xdr.Codec.{Codec, Codec-map}
use go_nfs_client.Xdr.RoundTrip.{uint32-Codec}
use go_nfs_client.Nfs4.Types.{nfs4_ok, U32, Small}
use go_nfs_client.Nfs4.Opnums.{op_putfh, op_lookup, op_getfh}
use go_nfs_client.Nfs4.Args.{Arg, putfh_args, lookup_args, getfh_args}
use go_nfs_client.Nfs4.Results.{StatusRes, GetfhRes, decode_status_res, decode_getfh_res}
use go_nfs_client.Nfs4.Replies.Ops.{put_getfh_res, getfh_res-Codec}
use go_nfs_client.Nfs4.Compound.{Compound, CompoundResult, Res, new_compound, add}
use go_nfs_client.Nfs4.Compound.Replies.{Resop, Answers, stop, next}
use go_nfs_client.Nfs4.Caller.{CallError, status_error, status_err}
use go_nfs_client.Nfs4.Conn.Stack.{World, Environment, call_compound}
use go_nfs_client.Nfs4.Conn.Action.{
  Conn, Result, ok, err, Action, check, check_result, compound, call,
}
use go_nfs_client.Nfs4.Conn.Zero.{
  first, second, new_status_res, status_result, new_getfh_res, getfh_result,
}
use go_nfs_client.Nfs4.Conn.Reading.{lookup, is_skipped, lookup_components, lookup_path}
use go_nfs_client.Nfs4.Conn.Carried.{Carried, replied}

abbrev pub requested : Conn → List Arg → Compound
requested c ops = record { tag = []; minor_version = c.cfg.minor_version; ops = ops }

pub first-Codec :
    {A B : Type 0} (r : Res A) (a a' : A) (b : B) {p : Put}
    → Codec p (r.decode_res a) a'
    → Codec p ((first {B = B} r).decode_res (a, b)) (a', b)
unfolding first
first-Codec r a a' b h = Codec-map (λ x. (x, b)) h

pub second-Codec :
    {A B : Type 0} (r : Res B) (a : A) (b b' : B) {p : Put}
    → Codec p (r.decode_res b) b'
    → Codec p ((second {A = A} r).decode_res (a, b)) (a, b')
unfolding second
second-Codec r a b b' h = Codec-map (λ x. (a, x)) h

pub status-Codec :
    (s : ℕ) (r : StatusRes)
    → U32 s
    → Codec (Encoder.uint32 s) (status_result.decode_res r) (record { status = s })
unfolding status_result decode_status_res
status-Codec s r h = Codec-map (λ x. record { status = x }) (uint32-Codec s h)

module _ {W S : Type 0} (env : Environment W) where
  -- A call whose reply is carried up.
  pub call-Carried :
      (comp : Conn → Compound) (results : List (Res S)) (s s' : S) (c : Conn) (w w' : World W)
      (status : ℕ) (resops : List Resop) (h : Carried env c.caller (comp c) w status resops w')
      → Answers results resops s s'
      → call env comp results s c w ≡ (
        ok (some (record { status = status; tag = h.tag; num_results = length resops }), s'),
        c,
        w',
      )
  unfolding call
  call-Carried comp results s s' c w w' status resops h a =
      let e = h.carried S results s s' a in ground (arith, e)

-- The replies to PUTFH, LOOKUP and GETFH: the handle, or the status of a LOOKUP that fails.
abbrev pub status_resop : ℕ → ℕ → Resop
status_resop op status = record { op = op; body = Encoder.uint32 status }

abbrev pub found_resops : Bytes → List Resop
found_resops fh =
    status_resop op_putfh nfs4_ok
    ∷ status_resop op_lookup nfs4_ok
    ∷ record { op = op_getfh; body = put_getfh_res (record { status = nfs4_ok; fh = fh }) }
    ∷ []

abbrev pub missing_resops : ℕ → List Resop
missing_resops status = status_resop op_putfh nfs4_ok ∷ status_resop op_lookup status ∷ []

abbrev lookup_results : List (Res (StatusRes × (StatusRes × GetfhRes)))
lookup_results =
    first status_result ∷ second (first status_result) ∷ second (second getfh_result) ∷ []

abbrev lookup_zeros : StatusRes × (StatusRes × GetfhRes)
lookup_zeros = (new_status_res, (new_status_res, new_getfh_res))

found-Answers :
    (fh : Bytes)
    → Small fh
    → Answers lookup_results
        (found_resops fh)
        lookup_zeros
        (new_status_res, (new_status_res, record { status = nfs4_ok; fh = fh }))
unfolding first second status_result getfh_result
found-Answers fh h =
    next (inl refl) (omega arith)
      (first-Codec status_result _ _ _ (status-Codec nfs4_ok new_status_res (omega arith)))
      (next (inl refl) (omega arith)
        (second-Codec (first status_result) _ _ _
          (first-Codec status_result _ _ _ (status-Codec nfs4_ok new_status_res (omega arith))))
        (next (inr refl) (omega arith)
          (second-Codec (second getfh_result) _ _ _ (
            second-Codec getfh_result _ _ _ (
              getfh_res-Codec (record { status = nfs4_ok; fh = fh }) new_getfh_res (omega arith)
                h)))
          stop))

missing-Answers :
    (status : ℕ)
    → U32 status
    → Answers lookup_results
        (missing_resops status)
        lookup_zeros
        (new_status_res, (record { status = status }, new_getfh_res))
unfolding first second status_result getfh_result
missing-Answers status h =
    next (inl refl) (omega arith)
      (first-Codec status_result _ _ _ (status-Codec nfs4_ok new_status_res (omega arith)))
      (next (inl refl) (omega arith)
        (second-Codec (first status_result) _ _ _
          (first-Codec status_result _ _ _ (status-Codec status new_status_res h)))
        stop)

abbrev pub lookup_request : Conn → Bytes → Bytes → Compound
lookup_request c dir name =
    requested c
      (putfh_args (record { fh = dir }) ∷ lookup_args (record { name = name }) ∷ getfh_args ∷ [])

module _ {W : Type 0} (env : Environment W) where
  pub lookup_found :
      (dir name fh : Bytes) (c : Conn) (w w' : World W)
      → Small fh
      → Carried env c.caller (lookup_request c dir name) w nfs4_ok (found_resops fh) w'
      → lookup env dir name c w ≡ (ok fh, c, w')
  unfolding lookup compound new_compound add check check_result status_err
  lookup_found dir name fh c w w' hf h =
      let e =
        call-Carried env (λ c. lookup_request c dir name) lookup_results lookup_zeros _ c w w'
          nfs4_ok (found_resops fh) h (found-Answers fh hf) in
      ground (arith, e)

  pub lookup_missing :
      (dir name : Bytes) (status : ℕ) (c : Conn) (w w' : World W)
      → U32 status
      → status ≢ nfs4_ok
      → Carried env c.caller (lookup_request c dir name) w status (missing_resops status) w'
      → lookup env dir name c w ≡ (err (status_error status), c, w')
  unfolding lookup compound new_compound add check check_result status_err
  lookup_missing dir name status c w w' hs hn h =
      let e =
        call-Carried env (λ c. lookup_request c dir name) lookup_results lookup_zeros _ c w w'
          status (missing_resops status) h (missing-Answers status hs) in
      ground (arith, e)
