-- ===== src/Nfs4/Conn/Zero/Reads.antt =====
-- The zero values of the results that nfs4/conn.go reads files with, and their decoders.
use go_nfs_client.Prelude.{[], false, replicate}
use go_nfs_client.Nfs4.Opnums.{op_getfh, op_getattr, op_read, op_readdir, op_readlink}
use go_nfs_client.Nfs4.Results.{
  StatusRes, decode_status_res, GetfhRes, decode_getfh_res, GetattrRes, decode_getattr_res, ReadRes,
  decode_read_res, ReaddirRes, decode_readdir_res, ReadlinkRes, decode_readlink_res,
}
use go_nfs_client.Nfs4.Compound.{Res}

abbrev pub new_status_res : StatusRes
new_status_res = record { status = 0 }

unfoldable pub status_result : Res StatusRes
status_result = record { op = 0; decode_res = decode_status_res }

abbrev pub new_getfh_res : GetfhRes
new_getfh_res = record { status = 0; fh = [] }

unfoldable pub getfh_result : Res GetfhRes
getfh_result = record { op = op_getfh; decode_res = decode_getfh_res }

abbrev pub new_getattr_res : GetattrRes
new_getattr_res = record { status = 0; attr_mask = []; attr_vals = [] }

unfoldable pub getattr_result : Res GetattrRes
getattr_result = record { op = op_getattr; decode_res = decode_getattr_res }

abbrev pub new_read_res : ReadRes
new_read_res = record { status = 0; eof = false; contents = [] }

unfoldable pub read_result : Res ReadRes
read_result = record { op = op_read; decode_res = decode_read_res }

abbrev pub new_readdir_res : ReaddirRes
new_readdir_res = record { status = 0; cookieverf = replicate 8 0; entries = []; eof = false }

unfoldable pub readdir_result : Res ReaddirRes
readdir_result = record { op = op_readdir; decode_res = decode_readdir_res }

abbrev pub new_readlink_res : ReadlinkRes
new_readlink_res = record { status = 0; link = [] }

unfoldable pub readlink_result : Res ReadlinkRes
readlink_result = record { op = op_readlink; decode_res = decode_readlink_res }
