-- ===== src/Nfs4/Conn/Zero/Writes.antt =====
-- The zero values of the results that nfs4/conn_write.go uses, and their decoders.
use go_nfs_client.Prelude.{[], replicate}
use go_nfs_client.Nfs4.Types.{new_stateid}
use go_nfs_client.Nfs4.Opnums.{
  op_open, op_open_confirm, op_write, op_commit, op_close, op_create, op_remove, op_rename, op_link,
  op_setattr,
}
use go_nfs_client.Nfs4.Results.{
  OpenRes, decode_open_res, OpenConfirmRes, decode_open_confirm_res, WriteRes, decode_write_res,
  CommitRes, decode_commit_res, CloseRes, decode_close_res, CreateRes, decode_create_res, RemoveRes,
  decode_remove_res, RenameRes, decode_rename_res, LinkRes, decode_link_res, SetattrRes,
  decode_setattr_res,
}
use go_nfs_client.Nfs4.Compound.{Res}

abbrev pub new_open_res : OpenRes
new_open_res = record { status = 0; stateid = new_stateid; rflags = 0; attr_set = [] }

unfoldable pub open_result : Res OpenRes
open_result = record { op = op_open; decode_res = decode_open_res }

abbrev pub new_open_confirm_res : OpenConfirmRes
new_open_confirm_res = record { status = 0; stateid = new_stateid }

unfoldable pub open_confirm_result : Res OpenConfirmRes
open_confirm_result = record { op = op_open_confirm; decode_res = decode_open_confirm_res }

abbrev pub new_write_res : WriteRes
new_write_res = record { status = 0; count = 0; committed = 0; verf = replicate 8 0 }

unfoldable pub write_result : Res WriteRes
write_result = record { op = op_write; decode_res = decode_write_res }

abbrev pub new_commit_res : CommitRes
new_commit_res = record { status = 0; verf = replicate 8 0 }

unfoldable pub commit_result : Res CommitRes
commit_result = record { op = op_commit; decode_res = decode_commit_res }

abbrev pub new_close_res : CloseRes
new_close_res = record { status = 0; stateid = new_stateid }

unfoldable pub close_result : Res CloseRes
close_result = record { op = op_close; decode_res = decode_close_res }

abbrev pub new_create_res : CreateRes
new_create_res = record { status = 0; attr_set = [] }

unfoldable pub create_result : Res CreateRes
create_result = record { op = op_create; decode_res = decode_create_res }

abbrev pub new_remove_res : RemoveRes
new_remove_res = record { status = 0 }

unfoldable pub remove_result : Res RemoveRes
remove_result = record { op = op_remove; decode_res = decode_remove_res }

abbrev pub new_rename_res : RenameRes
new_rename_res = record { status = 0 }

unfoldable pub rename_result : Res RenameRes
rename_result = record { op = op_rename; decode_res = decode_rename_res }

abbrev pub new_link_res : LinkRes
new_link_res = record { status = 0 }

unfoldable pub link_result : Res LinkRes
link_result = record { op = op_link; decode_res = decode_link_res }

abbrev pub new_setattr_res : SetattrRes
new_setattr_res = record { status = 0; attr_set = [] }

unfoldable pub setattr_result : Res SetattrRes
setattr_result = record { op = op_setattr; decode_res = decode_setattr_res }
