-- ===== src/Nfs4/Results/Ops.antt =====
-- nfs4/ops.go: the results of the NFSv4.0 operations that read.
use go_nfs_client.Prelude.{
  ℕ, zero, suc, Bool, some, none, List, [], ◌∷◌, ◌++◌, length, if◌then◌else◌, ◌==◌,
}
use go_nfs_client.Prelude.Int.{pos}
use go_nfs_client.Xdr.Io.{Bytes}
use go_nfs_client.Xdr.Decoder
use go_nfs_client.Xdr.Decoder.{Decoder, Get, pure, times, get_err, ◌>>=◌}
use go_nfs_client.Nfs4.Types.{Bitmap, decode_bitmap, copy, nfs4_ok, nfs4err_clid_inuse}

pub record GetfhRes : Type 0 where
  pub status : ℕ
  pub fh : Bytes

unfoldable pub decode_getfh_res : GetfhRes → Get GetfhRes
decode_getfh_res r = do
  status ← Decoder.uint32
  if status == nfs4_ok
      then (do fh ← Decoder.opaque; pure (record r { status = status; fh = fh }))
      else pure (record r { status = status })

pub record GetattrRes : Type 0 where
  pub status : ℕ
  pub attr_mask : Bitmap
  pub attr_vals : Bytes

unfoldable pub decode_getattr_res : GetattrRes → Get GetattrRes
decode_getattr_res r = do
  status ← Decoder.uint32
  if status == nfs4_ok
      then (do
        attr_mask ← decode_bitmap
        attr_vals ← Decoder.opaque
        pure (record r { status = status; attr_mask = attr_mask; attr_vals = attr_vals }))
      else pure (record r { status = status })

pub record SetclientidRes : Type 0 where
  pub status : ℕ
  pub client_id : ℕ
  pub confirm : Bytes
  pub client_using_net_id : Bytes
  pub client_using_addr : Bytes

unfoldable pub decode_setclientid_res : SetclientidRes → Get SetclientidRes
decode_setclientid_res r = do
  status ← Decoder.uint32
  if status == nfs4_ok
      then (do
        client_id ← Decoder.uint64
        confirm ← Decoder.fixed_opaque (pos 8)
        pure
            (record r { status = status; client_id = client_id; confirm = copy r.confirm confirm }))
      else if status == nfs4err_clid_inuse
      then (do
        net_id ← Decoder.string
        addr ← Decoder.string
        pure (record r { status = status; client_using_net_id = net_id; client_using_addr = addr }))
      else pure (record r { status = status })

pub record ReadRes : Type 0 where
  pub status : ℕ
  pub eof : Bool
  pub contents : Bytes

unfoldable pub decode_read_res : ReadRes → Get ReadRes
decode_read_res r = do
  status ← Decoder.uint32
  if status == nfs4_ok
      then (do
        eof ← Decoder.bool
        contents ← Decoder.opaque
        pure (record r { status = status; eof = eof; contents = contents }))
      else pure (record r { status = status })

pub record DirEntry : Type 0 where
  pub cookie : ℕ
  pub name : Bytes
  pub attr_mask : Bitmap
  pub attr_vals : Bytes

unfoldable pub decode_entry : Get DirEntry
decode_entry = do
  cookie ← Decoder.uint64
  name ← Decoder.string
  mask ← decode_bitmap
  vals ← Decoder.opaque
  pure (record { cookie = cookie; name = name; attr_mask = mask; attr_vals = vals })

-- How the loop over the entries is left: by `break`, by `return`, or for want of fuel, which has no
-- counterpart in the program.
pub data Entries : Type 0 where
  ended : List DirEntry → Entries
  returned : List DirEntry → Entries
  out_of_fuel : Entries

-- A round reads one `value-follows` flag, and an entry behind it.
unfoldable pub read_entries : ℕ → List DirEntry → Get Entries
read_entries zero es = pure out_of_fuel
read_entries (suc fuel) es = do
  more ← Decoder.bool
  e ← get_err
  elim e [
    | some x ↦ pure (ended es)
    | none ↦
        if more
        then (do
          entry ← decode_entry
          e' ← get_err
          elim e' [ some x ↦ pure (returned es) | none ↦ read_entries fuel (es ++ (entry ∷ [])) ])
        else pure (ended es)
  ]

-- Each round takes four bytes of the input at least, so the loop has fuel enough.
unfoldable pub all_entries : List DirEntry → Get Entries
all_entries es d = read_entries (suc (length d.r.input)) es d

pub record ReaddirRes : Type 0 where
  pub status : ℕ
  pub cookieverf : Bytes
  pub entries : List DirEntry
  pub eof : Bool

unfoldable pub decode_readdir_res : ReaddirRes → Get ReaddirRes
decode_readdir_res r = do
  status ← Decoder.uint32
  if status == nfs4_ok
      then (do
        verf ← Decoder.fixed_opaque (pos 8)
        entries ← all_entries r.entries
        let r' = record r { status = status; cookieverf = copy r.cookieverf verf }
        elim entries [
          | ended es ↦ (do eof ← Decoder.bool; pure (record r' { entries = es; eof = eof }))
          | returned es ↦ pure (record r' { entries = es })
          | out_of_fuel ↦ pure r'
        ])
      else pure (record r { status = status })

pub record ReadlinkRes : Type 0 where
  pub status : ℕ
  pub link : Bytes

unfoldable pub decode_readlink_res : ReadlinkRes → Get ReadlinkRes
decode_readlink_res r = do
  status ← Decoder.uint32
  if status == nfs4_ok
      then (do link ← Decoder.string; pure (record r { status = status; link = link }))
      else pure (record r { status = status })

pub record StatusRes : Type 0 where
  pub status : ℕ

unfoldable pub decode_status_res : StatusRes → Get StatusRes
decode_status_res r = do status ← Decoder.uint32; pure (record { status = status })
