-- ===== src/Examples/LeaseRuns.antt =====
-- A stateid table with one entry.
use go_nfs_client.Prelude.{◌≡◌, some, none, [], ◌∷◌, if◌then◌else◌, ◌==◌, arith}
use go_nfs_client.Nfs4.Types.{Stateid, new_stateid}
use go_nfs_client.Client.Lease.{
  LeaseManager, track_stateid, stateid, reissue_stateid, forget_stateid,
}
use go_nfs_client.Client.Lease.Table.{
  at_handle, GivenOut, with_sid, track_stateid_lem, reissue_forget_lem,
}

abbrev one_tracked : LeaseManager
one_tracked = record {
  next_h = 1;
  stateids = (1, record { key = 97 ∷ []; sid = new_stateid }) ∷ [];
}

abbrev newer : Stateid
newer = record new_stateid { seqid = 2 }

track_stateid_lem_example :
    let (h, lm') = track_stateid (98 ∷ []) newer one_tracked in
    (at_handle one_tracked h ≡ none)
    × (at_handle lm' 1 ≡ (
        if 1 == h then some (record { key = 98 ∷ []; sid = newer }) else at_handle one_tracked 1))
    × (stateid lm' h ≡ newer)
    × GivenOut lm'
track_stateid_lem_example =
    track_stateid_lem (98 ∷ []) newer one_tracked 1 (omega arith) (omega arith, tt)

reissue_forget_lem_example :
    (at_handle (reissue_stateid 1 newer one_tracked) 1 ≡ with_sid newer (at_handle one_tracked 1))
    × (at_handle (forget_stateid 1 one_tracked) 1 ≡ none)
reissue_forget_lem_example = reissue_forget_lem 1 1 newer one_tracked
