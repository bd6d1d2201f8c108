-- ===== src/Examples/DirRuns.antt =====
-- A directory of two entries on a server that sends one at a time.
use go_nfs_client.Prelude.{
  ℕ, zero, suc, ◌+◌, ◌≤◌, ◌≡◌, refl, ◌∙◌, ap, ◌⊎◌, inl, inr, Bool, true, false, List, [], ◌∷◌, ◌++◌,
  length, length-append, take, drop, take-append, drop-append, leb, arith,
}
use go_nfs_client.Xdr.Io.{Bytes}
use go_nfs_client.Nfs4.Types.{nfs4_ok}
use go_nfs_client.Nfs4.Caller.{other_error}
use go_nfs_client.Nfs4.Results.{DirEntry}
use go_nfs_client.Nfs4.Attr.Bitmap.{standard_mask, set_attrs, set_attrs_from}
use go_nfs_client.Nfs4.Attr.Attributes.{Attributes, new_attributes}
use go_nfs_client.Nfs4.Attr.Attributes
use go_nfs_client.Xdr.Decoder.{pure}
use go_nfs_client.Client.Protocol.{Outcome, done, failed, RwProtocol}
use go_nfs_client.Client.Paths.{is_nil}
use go_nfs_client.Client.Dirs.{listed, zero_verf, read_dir_all}
use go_nfs_client.Client.Dirs.Paging.{last_cookie, infos, Holds, read_dir_all_lem}

abbrev entry : ℕ → Bytes → DirEntry
entry cookie name = record { cookie = cookie; name = name; attr_mask = []; attr_vals = [] }

-- "." and "a"
abbrev directory : List DirEntry
directory = entry 1 (46 ∷ []) ∷ entry 2 (97 ∷ []) ∷ []

abbrev none_shown : DirEntry → Attributes
none_shown e = new_attributes []

abbrev unsupported : {A : Type 0} → Unit {0} → Outcome A × Unit {0}
unsupported w = (failed (other_error 0), w)

abbrev one_entry : RwProtocol (Unit {0})
one_entry = record {
  root_fh = λ w. [];
  lookup = λ dir name w. unsupported w;
  get_attr = λ fh mask w. unsupported w;
  read = λ fh offset count w. unsupported w;
  readdir = λ dir cookie verf mask w. (
    done (record {
      status = nfs4_ok;
      cookieverf = zero_verf;
      entries = take 1 (drop cookie directory);
      eof = leb 2 (cookie + 1);
    }),
    w,
  );
  readlink = λ fh w. unsupported w;
  open_file = λ dir name share mask vals do_create excl w. unsupported w;
  write = λ fh sid offset contents stable w. unsupported w;
  commit = λ fh offset count w. unsupported w;
  close_file = λ fh sid w. unsupported w;
  set_attr = λ fh sid mask vals w. unsupported w;
}

abbrev Answers : List DirEntry → List DirEntry → Unit {0} → Type 0
Answers before after w =
    (sent rest : List DirEntry) × (status : ℕ) × (at_end : Bool) × (w' : Unit {0}) × (after
      ≡ sent ++ rest)
    × (((at_end ≡ true) × (rest ≡ [])) ⊎ ((at_end ≡ false) × (is_nil sent ≡ false)))
    × (one_entry.readdir [] (last_cookie 0 before) zero_verf standard_mask w ≡ (
      done (record { status = status; cookieverf = zero_verf; entries = sent; eof = at_end }),
      w',
    ))

answers : (k : ℕ) (w : Unit {0}) → k ≤ 2 → Answers (take k directory) (drop k directory) w
unfolding last_cookie
answers zero w h = (take 1 directory, drop 1 directory, 0, false, w, refl, inr (refl, refl), refl)
answers (suc zero) w h = (drop 1 directory, [], 0, true, w, refl, inl (refl, refl), refl)
answers (suc (suc zero)) w h = ([], [], 0, true, w, refl, inl (refl, refl), refl)
answers (suc (suc (suc k))) w h = absurd (omega arith)

one_entry-Holds : Holds none_shown one_entry [] directory zero_verf
unfolding Attributes.decode Attributes.decode_attrs set_attrs set_attrs_from pure
one_entry-Holds = record {
  decodes = (refl, (refl, tt));
  law = λ before after verf w split fresh.
      let shown = ap (take (length before)) split ∙ take-append before after in
      let left = ap (drop (length before)) split ∙ drop-append before after in
      let short : length before ≤ 2 = omega (arith, ap length split, length-append before after) in
      rw (shown, left) at (answers (length before) w short);
}

read_dir_all_lem_example :
    (read_dir_all one_entry 3 [] tt).0
    ≡ listed (record { name = 97 ∷ []; attrs = new_attributes [] } ∷ [])
unfolding infos
read_dir_all_lem_example =
    read_dir_all_lem none_shown one_entry [] directory zero_verf one_entry-Holds tt
