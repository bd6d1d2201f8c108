-- ===== src/Examples/ConnRuns.antt =====
-- A connection over a server that answers from a script.
use go_nfs_client.Prelude.{
  ℕ, ◌≡◌, ◌≢◌, refl, true, false, some, none, List, [], ◌∷◌, length, replicate, arith,
}
use go_nfs_client.Prelude.Int.{pos}
use go_nfs_client.Xdr.Io.{Bytes, eof}
use go_nfs_client.Xdr.Encoder.{Put}
use go_nfs_client.Xdr.Codec.{reader, written}
use go_nfs_client.Nfs4.Types.{nfs4_ok, nfs4err_delay, nfs4err_grace, U32, Stateid}
use go_nfs_client.Nfs4.Opnums.{op_setclientid_confirm}
use go_nfs_client.Nfs4.Results.{needs_confirm}
use go_nfs_client.Nfs4.Replies.Opens.{undelegated}
use go_nfs_client.Nfs4.Compound.{Compound, encode_compound}
use go_nfs_client.Nfs4.Compound.Replies.{Resop, put_compound_res}
use go_nfs_client.Nfs4.Session.{Session}
use go_nfs_client.Nfs4.Conn.Stack.{World, Environment, rand_bytes, rpc_caller, retry_caller}
use go_nfs_client.Nfs4.Conn.Action.{Conn, ConnConfig, ok, panicked, new_conn}
use go_nfs_client.Nfs4.Conn.Reading.{lookup_path, is_skipped}
use go_nfs_client.Nfs4.Conn.Bootstrap.{mount}
use go_nfs_client.Nfs4.Conn.Writing.{open_file}
use go_nfs_client.Nfs4.Conn.Carried.{Delivered, Carried, rpc-Carried, retry-Carried}
use go_nfs_client.Nfs4.Conn.Walks.{lookup_request, found_resops, status_resop}
use go_nfs_client.Nfs4.Conn.Walks.Paths.{found, Serves, lookup_path-walk, walk, names}
use go_nfs_client.Nfs4.Conn.Mounting.{mount-v40, root_resops, setclientid_resops}
use go_nfs_client.Nfs4.Conn.Opening.{
  Opened, open_resops, confirm_resops, open_file-confirmed, with_seqid,
}
use go_nfs_client.Nfs4.Conn.Speaks.{Decodes}
use go_nfs_client.Nfs4.Conn.Panics.All.{open_, invoke, invoke-ne-panicked}

module _ {W : Type 0} (next : W → Bytes × W) where
  -- What decodes without an error is a reply; else the RPC client reports one.
  abbrev pub serving : Environment W
  serving = record {
    rpc_call = λ S args decode s w.
        let (b, v) = next w.rest in
        let (s', d) = decode s (reader b eof) in
        (elim d.err [ none ↦ none | some x ↦ some 6 ], s', record w { rest = v });
    ctx_err = λ w. none;
    sleep = λ d w. (none, w);
    done = λ w. none;
    until_token = λ w. w;
    meanwhile = λ s. s;
    rand = λ w. (rand_bytes (replicate 8 7), w);
    hostname = [];
    rpc_dial = λ w. (none, w);
    rpc_close = λ w. (none, w);
  }

  pub serving-Delivered :
      (args : Put) (w : World W)
      → Delivered serving args w (next w.rest).0 (record w { rest = (next w.rest).1 })
  serving-Delivered args w = record { delivered = λ S decode s h. rw h refl }

  serving-Decodes : Decodes serving
  serving-Decodes = record { decodes = λ S args decode s w h. (reader (next w.rest).0 eof, refl) }

abbrev pub config : ConnConfig
config = record {
  client_name = 99 ∷ [];
  minor_version = 0;
  retry = record { initial = pos 0; max_delay = pos 0; max_attempts = pos 0 };
}

abbrev pub fresh : Conn
fresh = new_conn rpc_caller config

abbrev pub next_reply : List Bytes → Bytes × List Bytes
next_reply [] = ([], [])
next_reply (b ∷ bs) = (b, bs)

abbrev pub script : Environment (List Bytes)
script = serving next_reply

abbrev pub reply : ℕ → List Resop → Bytes
reply status resops = written (put_compound_res status [] resops)

abbrev pub at_script : List Session → List Bytes → World (List Bytes)
at_script sessions bs = record { sessions = sessions; rest = bs }

-- The next reply of the script, as the connection without a session gets it.
pub script-Carried :
    (c : Compound) (sessions : List Session) (status : ℕ) (resops : List Resop) (bs : List Bytes)
    → U32 status
    → U32 (length resops)
    → status ≢ nfs4err_delay
    → status ≢ nfs4err_grace
    → Carried script
        (retry_caller config.retry rpc_caller)
        c
        (at_script sessions (reply status resops ∷ bs))
        status
        resops
        (at_script sessions bs)
script-Carried c sessions status resops bs hs hn hd hg =
    retry-Carried script config.retry rpc_caller c _ _ status resops refl hd hg (
      rpc-Carried script c _ _ status [] resops hs (omega arith) hn (
        serving-Delivered next_reply (encode_compound c)
          (at_script sessions (reply status resops ∷ bs))))

abbrev pub nine : Bytes
nine = 9 ∷ []

abbrev mounted : Conn
mounted = record fresh { root_fh = some (1 ∷ []) }

-- A server with the handle 9 under every name.
abbrev everywhere : Environment (Unit {0})
everywhere = serving (λ u. (reply nfs4_ok (found_resops nine), u))

nine-Serves : Serves everywhere mounted (λ dir name. found nine) (λ w. Unit)
unfolding new_conn
nine-Serves = record {
  fits = λ dir name. omega arith;
  after = λ dir name w. w;
  serves = λ dir name w g.
      retry-Carried everywhere config.retry rpc_caller (lookup_request mounted dir name) w w nfs4_ok
        (found_resops nine) refl (omega arith) (omega arith)
        (rpc-Carried everywhere (lookup_request mounted dir name) w w nfs4_ok [] (found_resops nine)
          (omega arith) (omega arith) (omega arith)
          (serving-Delivered (λ u. (reply nfs4_ok (found_resops nine), u))
            (encode_compound (lookup_request mounted dir name)) w));
  stays = λ dir name w g. g;
}

abbrev w_nine : World (Unit {0})
w_nine = record { sessions = []; rest = tt }

-- "a//./b"
abbrev a_b : List Bytes
a_b = (97 ∷ []) ∷ [] ∷ (46 ∷ []) ∷ (98 ∷ []) ∷ []

lookup_path-walk_example :
    ((lookup_path everywhere a_b mounted w_nine).0 ≡ ok nine)
    × ((lookup_path everywhere a_b mounted w_nine).1 ≡ mounted)
    × Unit {0}
unfolding walk names is_skipped
lookup_path-walk_example =
    lookup_path-walk everywhere mounted (λ dir name. found nine) (λ w. Unit) nine-Serves a_b
      (1 ∷ []) w_nine tt refl

abbrev eight : Bytes
eight = replicate 8 5

mount-v40_example :
    mount script fresh (
      at_script [] (
        reply nfs4_ok (setclientid_resops 77 eight)
        ∷ reply nfs4_ok (status_resop op_setclientid_confirm nfs4_ok ∷ [])
        ∷ reply nfs4_ok (root_resops nine)
        ∷ []))
    ≡ (
      ok tt,
      record fresh { client_id = 77; confirm = eight; root_fh = some nine },
      at_script [] [],
    )
unfolding new_conn
mount-v40_example =
    mount-v40 script fresh _ _ _ _ _ (replicate 8 7) eight nine 77 refl refl (omega arith) refl
      (omega arith)
      (script-Carried _ [] nfs4_ok (setclientid_resops 77 eight) _ (omega arith) (omega arith)
        (omega arith) (omega arith))
      (script-Carried _ [] nfs4_ok (status_resop op_setclientid_confirm nfs4_ok ∷ []) _
        (omega arith) (omega arith) (omega arith) (omega arith))
      (script-Carried _ [] nfs4_ok (root_resops nine) _ (omega arith) (omega arith) (omega arith)
        (omega arith))

abbrev seqid_of : ℕ → Stateid
seqid_of n = record { seqid = n; other = replicate 12 3 }

-- An OPEN whose flags ask for OPEN_CONFIRM.
abbrev unconfirmed : Opened
unconfirmed = record {
  res = record { status = nfs4_ok; stateid = seqid_of 1; rflags = 2; attr_set = [] };
  cinfo = record { atomic = true; before = 4; after = 5 };
  deleg = undelegated;
  fh = nine;
}

open_file-confirmed_example :
    open_file script (1 ∷ []) (97 ∷ []) 3 [] [] true false fresh (
      at_script [] (
        reply nfs4_ok (open_resops unconfirmed) ∷ reply nfs4_ok (confirm_resops (seqid_of 2)) ∷ []))
    ≡ (ok (record { fh = nine; stateid = seqid_of 2 }), with_seqid 2 fresh, at_script [] [])
unfolding new_conn needs_confirm
open_file-confirmed_example =
    open_file-confirmed script (1 ∷ []) (97 ∷ []) 3 [] [] true false unconfirmed (seqid_of 2) fresh
      _ _ _
      (record {
        stateid_fits = record { seqid_fits = omega arith; other_fits = refl };
        cinfo_fits = record { before_fits = omega arith; after_fits = omega arith };
        rflags_fits = omega arith;
        attr_set_fits = record { count_fits = omega arith; words_fit = tt };
        deleg_fits = tt;
        fh_fits = omega arith;
      })
      (record { seqid_fits = omega arith; other_fits = refl }) refl
      (script-Carried _ [] nfs4_ok (open_resops unconfirmed) _ (omega arith) (omega arith)
        (omega arith) (omega arith))
      (script-Carried _ [] nfs4_ok (confirm_resops (seqid_of 2)) _ (omega arith) (omega arith)
        (omega arith) (omega arith))

invoke-ne-panicked_example :
    (invoke script (open_ (1 ∷ []) (97 ∷ []) 3 [] [] true false) fresh (at_script [] [])).0
    ≢ panicked
invoke-ne-panicked_example =
    invoke-ne-panicked script (open_ (1 ∷ []) (97 ∷ []) 3 [] [] true false) fresh (at_script [] [])
      (serving-Decodes next_reply)
