-- ===== src/Examples/HandleRuns.antt =====
-- Writing to a server that takes one byte at a time; and the files' modes and errors.
use go_nfs_client.Prelude.{◌≡◌, refl, true, false, none, [], ◌∷◌, take, arith}
use go_nfs_client.Prelude.Int.{pos}
use go_nfs_client.Xdr.Io.{Bytes}
use go_nfs_client.Nfs4.Types.{new_stateid}
use go_nfs_client.Nfs4.Caller.{status_error, other_error}
use go_nfs_client.Nfs4.Attr.Attributes.{Attributes, new_attributes}
use go_nfs_client.Nfs4.Attr.Mode.{is_dir, file_mode, is_dir-file_mode}
use go_nfs_client.Client.Errors.{status_is, file_error_is, path_error, not_exist, path_error-is}
use go_nfs_client.Client.Protocol.{Outcome, done, failed, RwProtocol}
use go_nfs_client.Client.Handle.{File, write_at, write}
use go_nfs_client.Client.Handle.Splices.{padded, splice, written_at}
use go_nfs_client.Client.Handle.Writes.{Takes, write_at_lem, write-write}

abbrev unsupported : {A : Type 0} → Bytes → Outcome A × Bytes
unsupported w = (failed (other_error 0), w)

-- The world is the file's content.
abbrev one_byte : RwProtocol Bytes
one_byte = record {
  root_fh = λ w. [];
  lookup = λ dir name w. unsupported w;
  get_attr = λ fh mask w. unsupported w;
  read = λ fh offset count w. unsupported w;
  readdir = λ dir cookie verf mask w. unsupported w;
  readlink = λ fh w. unsupported w;
  open_file = λ dir name share mask vals do_create excl w. unsupported w;
  write = λ fh sid offset contents stable w. (done (1, 2), splice offset (take 1 contents) w);
  commit = λ fh offset count w. unsupported w;
  close_file = λ fh sid w. unsupported w;
  set_attr = λ fh sid mask vals w. unsupported w;
}

one_byte-Takes : Takes (λ w. w) one_byte [] new_stateid
one_byte-Takes = record {
  law = λ off p w some_ wide.
      (1, 2, splice off (take 1 p) w, omega arith, omega (arith, some_), refl, refl);
}

abbrev opened : File
opened = record {
  base = [];
  fh = [];
  stateid = new_stateid;
  flag = 2;
  share = 3;
  offset = pos 0;
  is_closed = false;
}

write_at_lem_example :
    ((write_at one_byte (7 ∷ 8 ∷ []) (pos 2) opened (1 ∷ [])).0 ≡ (2, none))
    × ((write_at one_byte (7 ∷ 8 ∷ []) (pos 2) opened (1 ∷ [])).1 ≡ opened)
    × ((write_at one_byte (7 ∷ 8 ∷ []) (pos 2) opened (1 ∷ [])).2 ≡ 1 ∷ 0 ∷ 7 ∷ 8 ∷ [])
unfolding written_at splice padded
write_at_lem_example =
    write_at_lem (λ w. w) one_byte opened (7 ∷ 8 ∷ []) 2 (1 ∷ []) one_byte-Takes refl (omega arith)
      (omega arith)

write-write_example :
    let (r, f', w') = write one_byte (7 ∷ []) opened (1 ∷ []) in
    let (r', f'', w'') = write one_byte (8 ∷ 9 ∷ []) f' w' in
    (r ≡ (1, none))
    × (r' ≡ (2, none))
    × (f'' ≡ record opened { offset = pos 3 })
    × (w'' ≡ 7 ∷ 8 ∷ 9 ∷ [])
unfolding written_at splice padded
write-write_example =
    write-write (λ w. w) one_byte opened 0 (7 ∷ []) (8 ∷ 9 ∷ []) (1 ∷ []) one_byte-Takes refl refl
      refl (omega arith)

path_error-is_example : file_error_is (path_error (status_error 2)) not_exist ≡ true
unfolding status_is
path_error-is_example = path_error-is 2 not_exist

-- A directory without any permission.
abbrev sealed : Attributes
sealed = record (new_attributes []) { ftype = 2 }

is_dir-file_mode_example : is_dir (file_mode sealed) ≡ true
is_dir-file_mode_example = is_dir-file_mode sealed
