-- ===== src/Examples/NfsRuns.antt =====
-- Requests, replies and retries of package nfs4 at concrete values.
use go_nfs_client.Prelude.{
  ℕ, ◌+◌, ◌≤◌, ◌≡◌, ◌≢◌, refl, true, false, Option, some, none, List, [], ◌∷◌, ◌++◌, map, inr,
  arith, if◌then◌else◌, ◌==◌,
}
use go_nfs_client.Prelude.Int.{ℤ, pos}
use go_nfs_client.Xdr.Io.{Bytes, eof}
use go_nfs_client.Xdr.Codec.{reader, written}
use go_nfs_client.Nfs4.Types.{new_stateid, nfs4err_delay, nfs4err_grace}
use go_nfs_client.Nfs4.Args.{putrootfh_args, lookup_args, getfh_args}
use go_nfs_client.Nfs4.Server.RoundTrip.{sent}
use go_nfs_client.Nfs4.Compound.{Compound, Res, encode_compound, decode_compound, ok}
use go_nfs_client.Nfs4.Compound.Requests.{read_compound, encode_compound-read_compound}
use go_nfs_client.Nfs4.Compound.Replies.{
  Resop, Answers, stop, next, put_compound_res, decode_compound-put_compound_res,
}
use go_nfs_client.Nfs4.Results.{
  GetfhRes, decode_getfh_res, DirEntry, ReaddirRes, decode_readdir_res, all_entries, out_of_fuel,
  OpenRes, decode_open_res,
}
use go_nfs_client.Nfs4.Replies.Ops.{put_getfh_res, getfh_res-Codec}
use go_nfs_client.Nfs4.Replies.Directories.{put_readdir_res, decode_readdir_res-put_readdir_res}
use go_nfs_client.Nfs4.Replies.Termination.{all_entries-ne-out_of_fuel}
use go_nfs_client.Nfs4.Replies.Changes.{ChangeInfo}
use go_nfs_client.Nfs4.Replies.Opens.{
  Delegation, blocks, write_delegation, put_open_res, decode_open_res-put_open_res,
}
use go_nfs_client.Nfs4.Caller.{Caller}
use go_nfs_client.Nfs4.Retry.{
  RetryConfig, with_defaults, retry_call, retriable, is_retriable_status, retry_loop,
}
use go_nfs_client.Nfs4.Retry.Bounded.{
  counted, with_count, retry_call-calls-le, retry_call-calls-eq, allowed, retry_call-not_retriable,
}

abbrev request : Compound
request = record {
  tag = [];
  minor_version = 0;
  ops = putrootfh_args ∷ lookup_args (record { name = 97 ∷ [] }) ∷ getfh_args ∷ [];
}

encode_compound-read_compound_example :
    read_compound (reader (written (encode_compound request) ++ (7 ∷ [])) eof)
    ≡ (([], 0, map (λ a. some (sent a)) request.ops), reader (7 ∷ []) eof)
encode_compound-read_compound_example =
    encode_compound-read_compound request eof (7 ∷ []) (omega arith) (omega arith) (omega arith)
      (tt, (omega arith, (tt, tt)))

abbrev handle : GetfhRes
handle = record { status = 0; fh = 1 ∷ 2 ∷ [] }

abbrev no_handle : GetfhRes
no_handle = record { status = 0; fh = [] }

abbrev getfh_results : List (Res GetfhRes)
getfh_results = record { op = 10; decode_res = decode_getfh_res } ∷ []

abbrev getfh_resops : List Resop
getfh_resops = record { op = 10; body = put_getfh_res handle } ∷ []

getfh-Answers : Answers getfh_results getfh_resops no_handle handle
getfh-Answers =
    next (inr refl) (omega arith) (getfh_res-Codec handle no_handle (omega arith) (omega arith))
      stop

decode_compound-put_compound_res_example :
    decode_compound getfh_results no_handle
      (reader (written (put_compound_res 0 [] getfh_resops) ++ (7 ∷ [])) eof)
    ≡ ((ok (record { status = 0; tag = []; num_results = 1 }), handle), reader (7 ∷ []) eof)
decode_compound-put_compound_res_example =
    decode_compound-put_compound_res 0 [] getfh_results getfh_resops no_handle handle eof (7 ∷ [])
      (omega arith) (omega arith) (omega arith) getfh-Answers

abbrev zeros8 : Bytes
zeros8 = 0 ∷ 0 ∷ 0 ∷ 0 ∷ 0 ∷ 0 ∷ 0 ∷ 0 ∷ []

abbrev entry : DirEntry
entry = record { cookie = 3; name = 97 ∷ []; attr_mask = 2 ∷ []; attr_vals = 0 ∷ 0 ∷ 0 ∷ 1 ∷ [] }

abbrev listing : ReaddirRes
listing = record { status = 0; cookieverf = zeros8; entries = entry ∷ []; eof = true }

abbrev no_listing : ReaddirRes
no_listing = record { status = 0; cookieverf = zeros8; entries = []; eof = false }

decode_readdir_res-put_readdir_res_example :
    decode_readdir_res no_listing (reader (written (put_readdir_res listing) ++ (7 ∷ [])) eof)
    ≡ (listing, reader (7 ∷ []) eof)
decode_readdir_res-put_readdir_res_example =
    decode_readdir_res-put_readdir_res listing no_listing eof (7 ∷ []) (omega arith) refl refl (
      record {
        cookie_fits = omega arith;
        name_fits = omega arith;
        mask_fits = record { count_fits = omega arith; words_fit = (omega arith, tt) };
        vals_fit = omega arith;
      },
      tt,
    )

all_entries-ne-out_of_fuel_example :
    (all_entries [] (reader (0 ∷ 0 ∷ 0 ∷ 1 ∷ 9 ∷ []) eof)).0 ≢ out_of_fuel
all_entries-ne-out_of_fuel_example =
    all_entries-ne-out_of_fuel [] (reader (0 ∷ 0 ∷ 0 ∷ 1 ∷ 9 ∷ []) eof)

abbrev opened : OpenRes
opened = record { status = 0; stateid = new_stateid; rflags = 2; attr_set = [] }

abbrev unopened : OpenRes
unopened = record { status = 0; stateid = new_stateid; rflags = 0; attr_set = [] }

abbrev change : ChangeInfo
change = record { atomic = true; before = 4; after = 5 }

abbrev granted : Delegation
granted =
    write_delegation new_stateid false (blocks 1 2)
      (record { type_ = 0; flag = 0; access_mask = 3; who = 97 ∷ [] })

decode_open_res-put_open_res_example :
    decode_open_res unopened (reader (written (put_open_res opened change granted) ++ (7 ∷ [])) eof)
    ≡ (opened, reader (7 ∷ []) eof)
decode_open_res-put_open_res_example =
    decode_open_res-put_open_res opened unopened change granted eof (7 ∷ []) (omega arith)
      (record { seqid_fits = omega arith; other_fits = refl })
      (record { before_fits = omega arith; after_fits = omega arith }) (omega arith)
      (record { count_fits = omega arith; words_fit = tt })
      (
        record { seqid_fits = omega arith; other_fits = refl },
        (omega arith, omega arith),
        record {
          type_fits = omega arith;
          flag_fits = omega arith;
          mask_fits = omega arith;
          who_fits = omega arith;
        },
      )

-- A server that answers DELAY twice; the world counts its calls.
abbrev busy : Caller ℕ ℕ
busy c results s w = (
  record {
    res = some (record {
      status = if (w == 0) then 10008 else if (w == 1) then 10008 else 0;
      tag = [];
      num_results = 0;
    });
    err = none;
  },
  s,
  w + 1,
)

abbrev never : ℕ → Option ℕ
never w = none

abbrev no_sleep : ℤ → ℕ → Option ℕ × ℕ
no_sleep d w = (none, w)

abbrev config : RetryConfig
config = record { initial = pos 5; max_delay = pos 8; max_attempts = pos 3 }

retry_call-calls-le_example :
    (retry_call
      (counted busy)
      (λ (v : ℕ × ℕ). never v.1)
      (with_count no_sleep)
      config
      request
      []
      0
      (0, 0)).2.0
    ≤ 3
unfolding allowed
retry_call-calls-le_example = retry_call-calls-le busy never no_sleep config request [] 0 0 0

-- A server that answers GRACE for ever.
abbrev in_grace : Caller ℕ ℕ
in_grace c results s w =
    (record { res = some (record { status = 10013; tag = []; num_results = 0 }); err = none }, s, w)

retry_call-calls-eq_example :
    (retry_call
      (counted in_grace)
      (λ (v : ℕ × ℕ). never v.1)
      (with_count no_sleep)
      config
      request
      []
      0
      (0, 0)).2.0
    ≡ 3
unfolding allowed
retry_call-calls-eq_example =
    retry_call-calls-eq in_grace never no_sleep config request [] 0 0 0 (λ v. refl)
      (λ c results s v. (record { status = 10013; tag = []; num_results = 0 }, refl, inr refl))
      (λ d v. refl)

retry_call-not_retriable_example : (0 ≢ nfs4err_delay) × (0 ≢ nfs4err_grace)
unfolding retry_call retry_loop with_defaults retriable is_retriable_status
retry_call-not_retriable_example =
    retry_call-not_retriable busy never no_sleep config request [] 0 0
      (record { status = 0; tag = []; num_results = 0 }) refl
