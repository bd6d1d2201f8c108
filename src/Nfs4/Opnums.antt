-- ===== src/Nfs4/Opnums.antt =====
-- nfs4/consts.go: the operation numbers that the client sends.
use go_nfs_client.Prelude.{ℕ}

abbrev pub op_close : ℕ
op_close = 4

abbrev pub op_commit : ℕ
op_commit = 5

abbrev pub op_create : ℕ
op_create = 6

abbrev pub op_getattr : ℕ
op_getattr = 9

abbrev pub op_getfh : ℕ
op_getfh = 10

abbrev pub op_link : ℕ
op_link = 11

abbrev pub op_lookup : ℕ
op_lookup = 15

abbrev pub op_open : ℕ
op_open = 18

abbrev pub op_open_confirm : ℕ
op_open_confirm = 20

abbrev pub op_putfh : ℕ
op_putfh = 22

abbrev pub op_putrootfh : ℕ
op_putrootfh = 24

abbrev pub op_read : ℕ
op_read = 25

abbrev pub op_readdir : ℕ
op_readdir = 26

abbrev pub op_readlink : ℕ
op_readlink = 27

abbrev pub op_remove : ℕ
op_remove = 28

abbrev pub op_rename : ℕ
op_rename = 29

abbrev pub op_renew : ℕ
op_renew = 30

abbrev pub op_restorefh : ℕ
op_restorefh = 31

abbrev pub op_savefh : ℕ
op_savefh = 32

abbrev pub op_setattr : ℕ
op_setattr = 34

abbrev pub op_setclientid : ℕ
op_setclientid = 35

abbrev pub op_setclientid_confirm : ℕ
op_setclientid_confirm = 36

abbrev pub op_write : ℕ
op_write = 38

abbrev pub op_exchange_id : ℕ
op_exchange_id = 42

abbrev pub op_create_session : ℕ
op_create_session = 43

abbrev pub op_destroy_session : ℕ
op_destroy_session = 44

abbrev pub op_sequence : ℕ
op_sequence = 53

abbrev pub op_destroy_client_id : ℕ
op_destroy_client_id = 57

abbrev pub op_reclaim_complete : ℕ
op_reclaim_complete = 58
