-- ===== src/Client/Views.antt =====
-- client/fs.go: the read-only file system and its files.
use go_nfs_client.Prelude.{
  ℕ, ◌+◌, ◌%◌, ◌^◌, Bool, true, false, not, ◌&&◌, Option, some, none, List, [], length, take,
  if◌then◌else◌, leb, ltb, ◌==◌,
}
use go_nfs_client.Prelude.Int.{ℤ, pos, negsuc}
use go_nfs_client.Xdr.Io.{Bytes}
use go_nfs_client.Nfs4.Attr.Attributes.{Attributes}
use go_nfs_client.Nfs4.Attr.Mode.{FileInfo, file_mode, is_dir}
use go_nfs_client.Client.Errors.{
  FileError, invalid, path_sentinel, path_wrap, path_error, text, eof, out_of_fuel,
}
use go_nfs_client.Client.Protocol.{Outcome, done, failed, RwProtocol}
use go_nfs_client.Client.Paths.{valid_path, path_split, resolve_fh}
use go_nfs_client.Client.Handle.{attributes}
use go_nfs_client.Client.Dirs.{listed, refused, unfinished, read_dir_all, DirFile}

-- readBlock, of the field ReadBlockSize.
unfoldable pub read_block : ℤ → ℕ
read_block (negsuc n) = 2 ^ 20
read_block (pos n) = if n == 0 then 2 ^ 20 else n

-- file; its name is the name of `info`.
pub record ReadFile : Type 0 where
  pub info : FileInfo
  pub fh : Bytes
  pub offset : ℕ
  pub at_end : Bool

-- What Open returns, with the FileInfo that Stat of it returns.
pub data View : Type 0 where
  file : ReadFile → View
  dir : FileInfo → DirFile → View

abbrev pub not_a_directory : ℕ
not_a_directory = 1

-- What a method returns: a value, or an error.
pub data Answer (A : Type 0) : Type 0 where
  ok : A → Answer A
  err : FileError → Answer A

module _ {W : Type 0} (valid_string : Bytes → Bool) (proto : RwProtocol W) where
  unfoldable pub resolve : Bytes → W → Outcome (Bytes × Attributes) × W
  resolve name w =
      let (r, w₁) = resolve_fh proto name w in
      elim r [
        | failed e ↦ (failed e, w₁)
        | done fh ↦
            let (a, w₂) = attributes proto fh w₁ in
            elim a [ failed e ↦ (failed e, w₂) | done attrs ↦ (done (fh, attrs), w₂) ]
      ]

  -- How each method begins: with fs.ValidPath and resolve.
  unfoldable pub resolved :
      {A : Type 0} → Bytes → (Bytes → Attributes → W → Answer A × W) → W → Answer A × W
  resolved name k w =
      let (r, w') = resolve name w in
      if not (valid_path valid_string name)
      then (err (path_sentinel invalid), w)
      else elim r [ failed e ↦ (err (path_error e), w') | done (fh, attrs) ↦ k fh attrs w' ]

  -- `attrs.FileInfo(base)`
  abbrev pub info_named : Bytes → Attributes → FileInfo
  info_named name a = record { name = (path_split name).1; attrs = a }

  unfoldable pub view : FileInfo → Bytes → View
  view info fh = elim (is_dir (file_mode info.attrs)) [
    | true ↦ dir info (record { fh = fh; entries = none; position = 0 })
    | false ↦ file (record { info = info; fh = fh; offset = 0; at_end = false })
  ]

  unfoldable pub open_view : Bytes → W → Answer View × W
  open_view name = resolved name (λ fh a w. (ok (view (info_named name a) fh), w))

  -- Stat, and Lstat, which does the same.
  unfoldable pub stat_named : Bytes → W → Answer FileInfo × W
  stat_named name = resolved name (λ fh a w. (ok (info_named name a), w))

  unfoldable pub read_link : Bytes → W → Answer Bytes × W
  read_link name = resolved name (λ fh a w.
      let (r, w') = proto.readlink fh w in
      elim r [ failed e ↦ (err (path_error e), w') | done target ↦ (ok target, w') ])

  unfoldable pub read_dir_named : ℕ → Bytes → W → Answer (List FileInfo) × W
  read_dir_named fuel name = resolved name (λ fh a w.
      let (r, w') = read_dir_all proto fuel fh w in
      if not (is_dir (file_mode a)) then (err (text not_a_directory), w) else elim r [
        | listed entries ↦ (ok entries, w')
        | refused e ↦ (err (path_error e), w')
        | unfinished ↦ (err out_of_fuel, w')
      ])

-- Read of a file, into a buffer of `n` bytes.
unfoldable pub read_file :
    {W : Type 0} → RwProtocol W → ℕ → ℕ → ReadFile → W → (Bytes × Option FileError) × ReadFile × W
read_file proto block n f w =
    let want = if ltb block n then block else n in
    let (r, w') = proto.read f.fh f.offset (want % 2 ^ 32) w in
    if f.at_end then (([], some eof), f, w) else elim r [
      | failed e ↦ (([], some (path_wrap e)), f, w')
      | done (contents, server_eof) ↦
          let got = take n contents in
          (
            (got, if (length got == 0) && server_eof then some eof else none),
            record f {
              offset = (f.offset + length got) % 2 ^ 64;
              at_end = server_eof && leb (length contents) (length got);
            },
            w',
          )
    ]
