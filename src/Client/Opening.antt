-- ===== src/Client/Opening.antt =====
-- client/file.go: OpenFile and Statvfs.
use go_nfs_client.Prelude.{
  ℕ, ◌/◌, ◌%◌, Bool, true, false, not, ◌&&◌, Option, some, none, [], if◌then◌else◌, ◌==◌,
}
use go_nfs_client.Prelude.Int.{pos}
use go_nfs_client.Xdr.Io.{Bytes}
use go_nfs_client.Nfs4.Types.{Bitmap}
use go_nfs_client.Nfs4.Caller.{other_error}
use go_nfs_client.Nfs4.Conn.Writing.{OpenResult}
use go_nfs_client.Nfs4.Attr.Settable.{encode_fattr}
use go_nfs_client.Nfs4.Attr.Statvfs
use go_nfs_client.Nfs4.Attr.Statvfs.{Statvfs, statvfs_mask, decode_statvfs}
use go_nfs_client.Client.Errors.{invalid, FileError, path_sentinel, path_error}
use go_nfs_client.Client.Protocol.{done, failed, RwProtocol}
use go_nfs_client.Client.Paths.{valid_path, path_split, resolve_fh, resolve_parent}
use go_nfs_client.Client.Handle.{File, o_wronly, o_rdwr, has_flag, undecodable, truncate, close}

abbrev pub o_create : ℕ
o_create = 64

abbrev pub o_excl : ℕ
o_excl = 128

abbrev pub o_trunc : ℕ
o_trunc = 512

abbrev pub share_access_read : ℕ
share_access_read = 1

abbrev pub share_access_write : ℕ
share_access_write = 2

abbrev pub share_access_both : ℕ
share_access_both = 3

unfoldable pub share_for : ℕ → ℕ
share_for flag =
    if has_flag flag o_wronly
    then share_access_write
    else if has_flag flag o_rdwr
    then share_access_both
    else share_access_read

-- The attributes of a file that is created with the permissions `perm`, or none.
unfoldable pub create_attrs : Bool → ℕ → Bitmap × Bytes
create_attrs true perm =
    encode_fattr
      (record { mode = some (perm % 512); size = none; time_access = none; time_modify = none })
create_attrs false perm = ([], [])

abbrev pub new_file : Bytes → ℕ → OpenResult → File
new_file name flag res = record {
  base = (path_split name).1;
  fh = res.fh;
  stateid = res.stateid;
  flag = flag;
  share = share_for flag;
  offset = pos 0;
  is_closed = false;
}

module _ {W : Type 0} (valid_string : Bytes → Bool) (proto : RwProtocol W) where
  -- What follows an Open that succeeded. A PathError around a PathError counts as one.
  unfoldable pub truncated : File → W → (Option File × Option FileError) × W
  truncated f w =
      let ((_, e), f₁, w₁) = truncate proto (pos 0) f w in
      let (_, f₂, w₂) = close proto f₁ w₁ in
      if has_flag f.flag o_trunc && not (f.share == share_access_read)
      then elim e [ some x ↦ ((none, some x), w₂) | none ↦ ((some f₁, none), w₁) ]
      else ((some f, none), w)

  unfoldable pub open_parent :
      Bytes → ℕ → ℕ → Bytes → Bytes → W → (Option File × Option FileError) × W
  open_parent name flag perm parent base w =
      let (mask, vals) = create_attrs (has_flag flag o_create) perm in
      let (r, w') =
        proto.open_file parent base (share_for flag) mask vals (has_flag flag o_create)
          (has_flag flag o_excl) w in
      elim r [
        | failed e ↦ ((none, some (path_error e)), w')
        | done res ↦ truncated (new_file name flag res) w'
      ]

  -- OpenFile
  unfoldable pub open_named : Bytes → ℕ → ℕ → W → (Option File × Option FileError) × W
  open_named name flag perm w =
      let (r, w') = resolve_parent proto name w in
      if not (valid_path valid_string name)
      then ((none, some (path_sentinel invalid)), w)
      else elim r [
        | failed e ↦ ((none, some (path_error e)), w')
        | done (parent, base) ↦ open_parent name flag perm parent base w'
      ]

pub record StatvfsInfo : Type 0 where
  pub block_size : ℕ
  pub blocks : ℕ
  pub blocks_free : ℕ
  pub blocks_avail : ℕ
  pub files : ℕ
  pub files_free : ℕ
  pub files_avail : ℕ
  pub max_name : ℕ

abbrev pub statvfs_block_size : ℕ
statvfs_block_size = 4096

unfoldable pub info_of : Statvfs → StatvfsInfo
info_of sv = record {
  block_size = statvfs_block_size;
  blocks = sv.space_total / statvfs_block_size;
  blocks_free = sv.space_free / statvfs_block_size;
  blocks_avail = sv.space_avail / statvfs_block_size;
  files = sv.files_total;
  files_free = sv.files_free;
  files_avail = sv.files_avail;
  max_name = sv.max_name;
}

module _ {W : Type 0} (valid_string : Bytes → Bool) (proto : RwProtocol W) where
  unfoldable pub statvfs_at : Bytes → W → (Option StatvfsInfo × Option FileError) × W
  statvfs_at fh w =
      let (r, w') = proto.get_attr fh statvfs_mask w in
      elim r [
        | failed e ↦ ((none, some (path_error e)), w')
        | done (mask, vals) ↦ elim (decode_statvfs mask vals) [
          | Statvfs.ok sv ↦ ((some (info_of sv), none), w')
          | Statvfs.err e ↦ ((none, some (path_error (other_error undecodable))), w')
        ]
      ]

  unfoldable pub statvfs : Bytes → W → (Option StatvfsInfo × Option FileError) × W
  statvfs name w =
      let (r, w') = resolve_fh proto name w in
      if not (valid_path valid_string name)
      then ((none, some (path_sentinel invalid)), w)
      else elim r [ failed e ↦ ((none, some (path_error e)), w') | done fh ↦ statvfs_at fh w' ]
