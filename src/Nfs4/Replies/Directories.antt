-- ===== src/Nfs4/Replies/Directories.antt =====
-- READDIR: the linked list of entries that a server writes, and the loop that reads it.
use go_nfs_client.Prelude.{
  ℕ, zero, suc, ◌≤◌, ◌<◌, ◌≡◌, refl, ◌∙◌, sym, some, none, true, false, List, [], ◌∷◌, ◌++◌,
  append-nil, append_assoc, length, length-append, if◌then◌else◌, ◌==◌, All, arith,
}
use go_nfs_client.Xdr.Io.{Bytes, IoError, put_uint32}
use go_nfs_client.Xdr.Encoder
use go_nfs_client.Xdr.Encoder.{Put, skip, ◌>>◌}
use go_nfs_client.Xdr.Decoder.{pure, get_err, ◌>>=◌}
use go_nfs_client.Xdr.Codec.{
  Codec, Emits, Emits-then, Emits-written, Reads, Codec-then, Codec-map, Codec-end, Codec-pure,
  Codec-get_err, Codec-decodes, reader, written,
}
use go_nfs_client.Xdr.RoundTrip.{
  uint32-Codec, uint32-Emits, uint64-Codec, opaque-Codec, string-Codec, bool-Codec,
}
use go_nfs_client.Nfs4.Types.{
  encode_bitmap, copy, copy-Array, nfs4_ok, U32, U64, Small, Array, FitsBitmap, bitmap-Codec,
  Array-Codec, if-Codec,
}
use go_nfs_client.Nfs4.Results.{
  DirEntry, ended, decode_entry, read_entries, all_entries, ReaddirRes, decode_readdir_res,
}

pub record FitsEntry (e : DirEntry) : Type 0 where
  pub cookie_fits : U64 e.cookie
  pub name_fits : Small e.name
  pub mask_fits : FitsBitmap e.attr_mask
  pub vals_fit : Small e.attr_vals

pub put_entry : DirEntry → Put
put_entry e = do
  Encoder.uint64 e.cookie
  Encoder.string e.name
  encode_bitmap e.attr_mask
  Encoder.opaque e.attr_vals

-- Each entry behind a true, and a false behind the last.
pub put_entries : List DirEntry → Put
put_entries [] = Encoder.bool false
put_entries (e ∷ es) = do Encoder.bool true; put_entry e; put_entries es

entry-Codec : (e : DirEntry) → FitsEntry e → Codec (put_entry e) decode_entry e
unfolding put_entry decode_entry
entry-Codec e h = Codec-then _ (uint64-Codec e.cookie h.cookie_fits) (
    Codec-then _ (string-Codec e.name h.name_fits) (
      Codec-then _ (bitmap-Codec e.attr_mask h.mask_fits) (
        Codec-map {B = DirEntry} (λ v. record e { attr_vals = v })
          (opaque-Codec e.attr_vals h.vals_fit))))

stop-Reads :
    (es : List DirEntry)
    → Reads
        (get_err >>= λ e. elim e [ some x ↦ pure (ended es) | none ↦ pure (ended es) ])
        []
        (ended es)
unfolding get_err ◌>>=◌ pure
stop-Reads es ending rest = refl

entries-Codec :
    (fuel : ℕ) (es acc : List DirEntry)
    → length es < fuel
    → All FitsEntry es
    → Codec (put_entries es) (read_entries fuel acc) (ended (acc ++ es))
unfolding put_entries read_entries
entries-Codec zero es acc lt h = absurd (omega arith)
entries-Codec (suc fuel) [] acc lt h =
    rw append-nil (Codec-end _ (bool-Codec false) (stop-Reads acc))
entries-Codec (suc fuel) (e ∷ es) acc lt h = Codec-then _ (bool-Codec true) (
    Codec-get_err _ (
      Codec-then _ (entry-Codec e h.0) (
        Codec-get_err _ (
          rw (append_assoc acc (e ∷ []) es) at
            (entries-Codec fuel es (acc ++ (e ∷ [])) (omega arith) h.1)))))

-- The list takes four bytes of the reply for each entry.
entries-Emits :
    (es : List DirEntry)
    → All FitsEntry es
    → (bs : Bytes) × Emits (put_entries es) bs × (length es ≤ length bs)
unfolding put_entries Encoder.bool put_uint32
entries-Emits [] h = (put_uint32 0, uint32-Emits 0, omega arith)
entries-Emits (e ∷ es) h =
    let (bs, p, le) = entries-Emits es h.1 in
    let c = entry-Codec e h.0 in
    (
      put_uint32 1 ++ (c.bytes ++ bs),
      Emits-then _ _ _ _ (uint32-Emits 1) (Emits-then _ _ _ _ c.emits p),
      omega (arith, length-append c.bytes bs),
    )

-- The loop with the fuel that the model gives it.
all_entries-Codec :
    (es acc : List DirEntry)
    → All FitsEntry es
    → Codec (put_entries es) (all_entries acc) (ended (acc ++ es))
unfolding all_entries
all_entries-Codec es acc h =
    let (bs, p, le) = entries-Emits es h in
    record {
      bytes = bs;
      emits = p;
      reads = λ ending rest. rw (Emits-written (put_entries es) bs p) at (
          Codec-decodes _ _ _
            (entries-Codec (suc (length (bs ++ rest))) es acc (omega (arith, length-append bs rest))
              h)
            ending rest);
    }

-- READDIR4res as RFC 7530 lays it out.
pub put_readdir_res : ReaddirRes → Put
put_readdir_res a = do
  Encoder.uint32 a.status
  (if a.status == nfs4_ok
      then (do Encoder.fixed_opaque a.cookieverf; put_entries a.entries; Encoder.bool a.eof)
      else skip)

copied :
    (a r : ReaddirRes)
    → U32 a.status
    → Array 8 a.cookieverf
    → All FitsEntry a.entries
    → Codec (put_readdir_res a) (decode_readdir_res r) (
        if a.status == nfs4_ok
        then record {
          status = a.status;
          cookieverf = copy r.cookieverf a.cookieverf;
          entries = r.entries ++ a.entries;
          eof = a.eof;
        }
        else record r { status = a.status })
unfolding put_readdir_res decode_readdir_res
copied a r hs hv he = Codec-then _ (uint32-Codec a.status hs) (
    if-Codec (a.status == nfs4_ok)
      (λ _. Codec-then _ (Array-Codec 8 a.cookieverf hv) (
        Codec-then _ (all_entries-Codec a.entries r.entries he) (
          Codec-map {B = ReaddirRes}
            (λ b. record {
              status = a.status;
              cookieverf = copy r.cookieverf a.cookieverf;
              entries = r.entries ++ a.entries;
              eof = b;
            })
            (bool-Codec a.eof))))
      (λ _. Codec-pure _))

-- READDIR's result decoder takes from a server's reply the cookie verifier, all entries in their
-- order, behind those it had before, and the directory's end mark, if the status is NFS4_OK, and
-- else only the status; what follows the reply is left.
pub decode_readdir_res-put_readdir_res :
    (a r : ReaddirRes) (ending : IoError) (rest : Bytes)
    → U32 a.status
    → Array 8 a.cookieverf
    → Array 8 r.cookieverf
    → All FitsEntry a.entries
    → decode_readdir_res r (reader (written (put_readdir_res a) ++ rest) ending) ≡ (
      if a.status == nfs4_ok
          then record a { entries = r.entries ++ a.entries }
          else record r { status = a.status },
      reader rest ending,
    )
decode_readdir_res-put_readdir_res a r ending rest hs hv hr he =
    rw (copy-Array r.cookieverf a.cookieverf (hv ∙ sym hr)) at
      (Codec-decodes _ _ _ (copied a r hs hv he) ending rest)
