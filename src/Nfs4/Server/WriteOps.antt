-- ===== src/Nfs4/Server/WriteOps.antt =====
-- The operations of nfs4/writeops.go, as a server reads them.
use go_nfs_client.Prelude.{ℕ, Option, some, [], if◌then◌else◌, ◌==◌, ◌||◌, arith}
use go_nfs_client.Xdr.Io.{Bytes}
use go_nfs_client.Xdr.Decoder
use go_nfs_client.Xdr.Decoder.{Get, pure, times, ◌>>=◌}
use go_nfs_client.Xdr.Codec.{Codec, Codec-then, Codec-map, Codec-end, Codec-pure}
use go_nfs_client.Xdr.RoundTrip.{uint32-Codec, uint64-Codec, opaque-Codec, string-Codec}
use go_nfs_client.Nfs4.Types.{Bitmap, bitmap-Codec, stateid-Codec, Array-Codec, if-Codec}
use go_nfs_client.Nfs4.Opnums.{
  op_open, op_open_confirm, op_write, op_commit, op_close, op_create, op_remove, op_rename, op_link,
  op_setattr, op_savefh, op_restorefh,
}
use go_nfs_client.Nfs4.Args.{
  Arg, encode_createhow, encode_createtype, open4_create, create_exclusive, claim_null, open_args,
  open_confirm_args, write_args, commit_args, close_args, create_args, remove_args, rename_args,
  link_args, setattr_args, savefh_args, restorefh_args, encode_open, encode_open_confirm,
  encode_write, encode_commit, encode_close, encode_create, encode_remove, encode_rename,
  encode_link, encode_setattr, encode_savefh, encode_restorefh, OpenArgs, OpenConfirmArgs,
  WriteArgs, CommitArgs, CloseArgs, CreateArgs, RemoveArgs, RenameArgs, LinkArgs, SetattrArgs,
}
use go_nfs_client.Nfs4.Server.{read_arg, read_body, FitsArg, FitsOpen}
use go_nfs_client.Nfs4.Readers.{
  read_createhow, read_open, read_open_confirm, read_write, read_commit, read_close, read_create,
  read_remove, read_rename, read_link, read_setattr,
}
use go_nfs_client.Nfs4.Types.{Reads-pure}

-- What is not sent is not read back: the fields of a createhow4 that the open type and the mode leave out.
abbrev pub sent_how : OpenArgs → ℕ × Bytes × Bitmap × Bytes
sent_how a =
    if a.open_type == open4_create
    then (if a.create_mode == create_exclusive
        then (a.create_mode, a.create_verf, [], [])
        else (a.create_mode, [], a.create_attr_mask, a.create_attr_vals))
    else (0, [], [], [])

abbrev pub sent_open : OpenArgs → OpenArgs
sent_open a =
    let how = sent_how a in
    record a {
      create_mode = how.0;
      create_verf = how.1;
      create_attr_mask = how.2;
      create_attr_vals = how.3;
    }

createhow-Codec :
    (a : OpenArgs)
    → FitsOpen a
    → Codec (encode_createhow a) read_createhow (
        if a.create_mode == create_exclusive
        then (a.create_mode, a.create_verf, [], [])
        else (a.create_mode, [], a.create_attr_mask, a.create_attr_vals))
unfolding encode_createhow read_createhow
createhow-Codec a h = Codec-then _ (uint32-Codec a.create_mode h.mode_fits) (
    if-Codec (a.create_mode == create_exclusive)
      (λ _. Codec-map (λ v. (a.create_mode, v, [], [])) (Array-Codec 8 a.create_verf h.verf_fits))
      (λ _. Codec-then _ (bitmap-Codec a.create_attr_mask h.mask_fits) (
        Codec-map (λ p. (a.create_mode, [], a.create_attr_mask, p))
          (opaque-Codec a.create_attr_vals h.vals_fit))))

pub open-Codec :
    (a : OpenArgs)
    → FitsArg (open_args a)
    → Codec (encode_open a) read_arg (some (open_args (sent_open a)))
unfolding encode_open read_arg read_body read_open
open-Codec a h = Codec-then _ (uint32-Codec op_open (omega arith)) (
    Codec-then _ (uint32-Codec a.seqid h.seqid_fits) (
      Codec-then _ (uint32-Codec a.share_access h.access_fits) (
        Codec-then _ (uint32-Codec a.share_deny h.deny_fits) (
          Codec-then _ (uint64-Codec a.client_id h.client_id_fits) (
            Codec-then _ (opaque-Codec a.owner h.owner_fits) (
              Codec-then _ (uint32-Codec a.open_type h.type_fits) (
                Codec-then _
                  (if-Codec (a.open_type == open4_create) (λ _. createhow-Codec a h)
                    (λ _. Codec-pure _))
                  (Codec-then _ (uint32-Codec claim_null (omega arith)) (
                    Codec-map {B = Option Arg}
                      (λ name. some (open_args (record (sent_open a) { name = name })))
                      (string-Codec a.name h.name_fits))))))))))

-- Only a link sends its text.
abbrev pub sent_create : CreateArgs → CreateArgs
sent_create a = record a {
  link_data =
      if a.ftype == 5 then a.link_data else if (a.ftype == 3) || (a.ftype == 4) then [] else [];
}

createtype-Codec :
    (a : CreateArgs)
    → FitsArg (create_args a)
    → Codec
        (encode_createtype a)
        (if a.ftype == 5
          then Decoder.string
          else if (a.ftype == 3) || (a.ftype == 4)
          then (do _ ← Decoder.uint32; _ ← Decoder.uint32; pure [])
          else pure [])
        (sent_create a).link_data
unfolding encode_createtype
createtype-Codec a h =
    if-Codec (a.ftype == 5) (λ _. string-Codec a.link_data h.1)
      (λ _.
        if-Codec ((a.ftype == 3) || (a.ftype == 4))
          (λ _.
            Codec-then _ (uint32-Codec 0 (omega arith))
              (Codec-map (λ _. []) (uint32-Codec 0 (omega arith))))
          (λ _. Codec-pure []))

pub create-Codec :
    (a : CreateArgs)
    → FitsArg (create_args a)
    → Codec (encode_create a) read_arg (some (create_args (sent_create a)))
unfolding encode_create read_arg read_body read_create
create-Codec a h = Codec-then _ (uint32-Codec op_create (omega arith)) (
    Codec-then _ (uint32-Codec a.ftype h.0) (
      Codec-then _ (createtype-Codec a h) (
        Codec-then _ (string-Codec a.obj_name h.2) (
          Codec-then _ (bitmap-Codec a.attr_mask h.3) (
            Codec-map {B = Option Arg}
              (λ vals. some (create_args (record (sent_create a) { attr_vals = vals })))
              (opaque-Codec a.attr_vals h.4))))))

pub open_confirm-Codec :
    (a : OpenConfirmArgs)
    → FitsArg (open_confirm_args a)
    → Codec (encode_open_confirm a) read_arg (some (open_confirm_args a))
unfolding encode_open_confirm read_arg read_body read_open_confirm
open_confirm-Codec a h = Codec-then _ (uint32-Codec op_open_confirm (omega arith)) (
    Codec-then _ (stateid-Codec a.stateid h.0) (
      Codec-map {B = Option Arg}
        (λ seqid. some (open_confirm_args (record { stateid = a.stateid; seqid = seqid })))
        (uint32-Codec a.seqid h.1)))

pub write-Codec :
    (a : WriteArgs) → FitsArg (write_args a) → Codec (encode_write a) read_arg (some (write_args a))
unfolding encode_write read_arg read_body read_write
write-Codec a h = Codec-then _ (uint32-Codec op_write (omega arith)) (
    Codec-then _ (stateid-Codec a.stateid h.0) (
      Codec-then _ (uint64-Codec a.offset h.1) (
        Codec-then _ (uint32-Codec a.stable h.2) (
          Codec-map {B = Option Arg}
            (λ contents. some (
              write_args (record {
                stateid = a.stateid;
                offset = a.offset;
                stable = a.stable;
                contents = contents;
              })))
            (opaque-Codec a.contents h.3)))))

pub commit-Codec :
    (a : CommitArgs)
    → FitsArg (commit_args a)
    → Codec (encode_commit a) read_arg (some (commit_args a))
unfolding encode_commit read_arg read_body read_commit
commit-Codec a h = Codec-then _ (uint32-Codec op_commit (omega arith)) (
    Codec-then _ (uint64-Codec a.offset h.0) (
      Codec-map {B = Option Arg}
        (λ count. some (commit_args (record { offset = a.offset; count = count })))
        (uint32-Codec a.count h.1)))

pub close-Codec :
    (a : CloseArgs) → FitsArg (close_args a) → Codec (encode_close a) read_arg (some (close_args a))
unfolding encode_close read_arg read_body read_close
close-Codec a h = Codec-then _ (uint32-Codec op_close (omega arith)) (
    Codec-then _ (uint32-Codec a.seqid h.0) (
      Codec-map {B = Option Arg}
        (λ stateid. some (close_args (record { seqid = a.seqid; stateid = stateid })))
        (stateid-Codec a.stateid h.1)))

pub remove-Codec :
    (a : RemoveArgs)
    → FitsArg (remove_args a)
    → Codec (encode_remove a) read_arg (some (remove_args a))
unfolding encode_remove read_arg read_body read_remove
remove-Codec a h = Codec-then _ (uint32-Codec op_remove (omega arith)) (
    Codec-map {B = Option Arg} (λ name. some (remove_args (record { name = name })))
      (string-Codec a.name h))

pub rename-Codec :
    (a : RenameArgs)
    → FitsArg (rename_args a)
    → Codec (encode_rename a) read_arg (some (rename_args a))
unfolding encode_rename read_arg read_body read_rename
rename-Codec a h = Codec-then _ (uint32-Codec op_rename (omega arith)) (
    Codec-then _ (string-Codec a.old_name h.0) (
      Codec-map {B = Option Arg}
        (λ new_name. some (rename_args (record { old_name = a.old_name; new_name = new_name })))
        (string-Codec a.new_name h.1)))

pub link-Codec :
    (a : LinkArgs) → FitsArg (link_args a) → Codec (encode_link a) read_arg (some (link_args a))
unfolding encode_link read_arg read_body read_link
link-Codec a h = Codec-then _ (uint32-Codec op_link (omega arith)) (
    Codec-map {B = Option Arg} (λ new_name. some (link_args (record { new_name = new_name })))
      (string-Codec a.new_name h))

pub setattr-Codec :
    (a : SetattrArgs)
    → FitsArg (setattr_args a)
    → Codec (encode_setattr a) read_arg (some (setattr_args a))
unfolding encode_setattr read_arg read_body read_setattr
setattr-Codec a h = Codec-then _ (uint32-Codec op_setattr (omega arith)) (
    Codec-then _ (stateid-Codec a.stateid h.0) (
      Codec-then _ (bitmap-Codec a.attr_mask h.1) (
        Codec-map {B = Option Arg}
          (λ attr_vals. some (
            setattr_args
              (record { stateid = a.stateid; attr_mask = a.attr_mask; attr_vals = attr_vals })))
          (opaque-Codec a.attr_vals h.2))))

pub savefh-Codec : Codec encode_savefh read_arg (some savefh_args)
unfolding encode_savefh read_arg read_body
savefh-Codec = Codec-end _ (uint32-Codec op_savefh (omega arith)) (Reads-pure _)

pub restorefh-Codec : Codec encode_restorefh read_arg (some restorefh_args)
unfolding encode_restorefh read_arg read_body
restorefh-Codec = Codec-end _ (uint32-Codec op_restorefh (omega arith)) (Reads-pure _)
