-- ===== src/Nfs4/Conn/Zero/Boot.antt =====
-- The zero values of the results that nfs4/conn.go mounts with, and their decoders.
use go_nfs_client.Prelude.{[], replicate}
use go_nfs_client.Nfs4.Opnums.{
  op_setclientid, op_exchange_id, op_create_session, op_reclaim_complete, op_destroy_session,
  op_destroy_client_id,
}
use go_nfs_client.Nfs4.Args.{ChannelAttrs}
use go_nfs_client.Nfs4.Results.{
  SetclientidRes, decode_setclientid_res, ExchangeIdRes, decode_exchange_id_res, CreateSessionRes,
  decode_create_session_res, ReclaimCompleteRes, decode_reclaim_complete_res, DestroySessionRes,
  decode_destroy_session_res, DestroyClientIdRes, decode_destroy_client_id_res,
}
use go_nfs_client.Nfs4.Compound.{Res}

abbrev pub new_channel_attrs : ChannelAttrs
new_channel_attrs = record {
  header_pad_size = 0;
  max_request_size = 0;
  max_response_size = 0;
  max_response_size_cach = 0;
  max_operations = 0;
  max_requests = 0;
}

abbrev pub new_setclientid_res : SetclientidRes
new_setclientid_res = record {
  status = 0;
  client_id = 0;
  confirm = replicate 8 0;
  client_using_net_id = [];
  client_using_addr = [];
}

unfoldable pub setclientid_result : Res SetclientidRes
setclientid_result = record { op = op_setclientid; decode_res = decode_setclientid_res }

abbrev pub new_exchange_id_res : ExchangeIdRes
new_exchange_id_res = record { status = 0; client_id = 0; sequence_id = 0; flags = 0 }

unfoldable pub exchange_id_result : Res ExchangeIdRes
exchange_id_result = record { op = op_exchange_id; decode_res = decode_exchange_id_res }

abbrev pub new_create_session_res : CreateSessionRes
new_create_session_res = record {
  status = 0;
  session_id = replicate 16 0;
  sequence_id = 0;
  flags = 0;
  fore_chan = new_channel_attrs;
  back_chan = new_channel_attrs;
}

unfoldable pub create_session_result : Res CreateSessionRes
create_session_result = record { op = op_create_session; decode_res = decode_create_session_res }

abbrev pub new_reclaim_complete_res : ReclaimCompleteRes
new_reclaim_complete_res = record { status = 0 }

unfoldable pub reclaim_complete_result : Res ReclaimCompleteRes
reclaim_complete_result = record {
  op = op_reclaim_complete;
  decode_res = decode_reclaim_complete_res;
}

abbrev pub new_destroy_session_res : DestroySessionRes
new_destroy_session_res = record { status = 0 }

unfoldable pub destroy_session_result : Res DestroySessionRes
destroy_session_result = record { op = op_destroy_session; decode_res = decode_destroy_session_res }

abbrev pub new_destroy_client_id_res : DestroyClientIdRes
new_destroy_client_id_res = record { status = 0 }

unfoldable pub destroy_client_id_result : Res DestroyClientIdRes
destroy_client_id_result = record {
  op = op_destroy_client_id;
  decode_res = decode_destroy_client_id_res;
}
