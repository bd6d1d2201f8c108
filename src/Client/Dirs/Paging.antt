-- ===== src/Client/Dirs/Paging.antt =====
-- readDirAll against a server that answers page by page.
use go_nfs_client.Prelude.{
  ℕ, zero, suc, ◌+◌, ◌<◌, ◌≡◌, refl, ◌∙◌, sym, ap, ◌⊎◌, inl, inr, Bool, true, false, ◌||◌,
  Bool-cases, some, List, [], ◌∷◌, ◌++◌, append_assoc, append-nil, length, length-append, arith,
}
use go_nfs_client.Xdr.Io.{Bytes}
use go_nfs_client.Nfs4.Results.{DirEntry, ReaddirRes}
use go_nfs_client.Nfs4.Attr.Bitmap.{standard_mask}
use go_nfs_client.Nfs4.Attr.Attributes.{Attributes}
use go_nfs_client.Nfs4.Attr.Attributes
use go_nfs_client.Nfs4.Attr.Mode.{FileInfo}
use go_nfs_client.Client.Protocol.{done, RwProtocol}
use go_nfs_client.Client.Paths.{is_nil}
use go_nfs_client.Client.Dirs.{listed, zero_verf, is_dots, page, read_dir_loop, read_dir_all}

-- The cookie of the last of the entries, or `cookie` where there is none.
unfoldable pub last_cookie : ℕ → List DirEntry → ℕ
last_cookie cookie [] = cookie
last_cookie cookie (e ∷ entries) = last_cookie e.cookie entries

last_cookie-append :
    (cookie : ℕ) (xs ys : List DirEntry)
    → last_cookie cookie (xs ++ ys) ≡ last_cookie (last_cookie cookie xs) ys
unfolding last_cookie
last_cookie-append cookie [] ys = refl
last_cookie-append cookie (e ∷ xs) ys = last_cookie-append e.cookie xs ys

is_nil-length : (xs : List DirEntry) → is_nil xs ≡ false → 0 < length xs
is_nil-length [] h = ground (arith, h)
is_nil-length (x ∷ xs) h = omega arith

module _ (attrs : DirEntry → Attributes) where
  -- The entries without "." and "..", with their attributes.
  unfoldable pub infos : List DirEntry → List FileInfo
  infos [] = []
  infos (e ∷ entries) = elim (is_dots e) [
    | true ↦ infos entries
    | false ↦ record { name = e.name; attrs = attrs e } ∷ infos entries
  ]

  infos-append : (xs ys : List DirEntry) → infos (xs ++ ys) ≡ infos xs ++ infos ys
  unfolding infos
  infos-append [] ys = refl
  infos-append (e ∷ xs) ys = elim (Bool-cases (is_dots e)) [
    | inl b ↦ ground (arith, b, infos-append xs ys)
    | inr b ↦ ground (arith, b, infos-append xs ys)
  ]

  -- The attributes of each entry decode to `attrs`.
  abbrev pub Decodes : List DirEntry → Type 0
  Decodes [] = Unit {0}
  Decodes (e ∷ entries) =
      (Attributes.decode e.attr_mask e.attr_vals ≡ Attributes.ok (attrs e)) × Decodes entries

  Decodes-split : (xs ys : List DirEntry) → Decodes (xs ++ ys) → Decodes xs × Decodes ys
  Decodes-split [] ys h = (tt, h)
  Decodes-split (e ∷ xs) ys (d, h) = let (l, r) = Decodes-split xs ys h in ((d, l), r)

  page_lem :
      (cookie : ℕ) (out : List FileInfo) (entries : List DirEntry)
      → Decodes entries
      → page cookie out entries ≡ some (last_cookie cookie entries, out ++ infos entries)
  unfolding page last_cookie infos
  page_lem cookie out [] h = rw (append-nil out) refl
  page_lem cookie out (e ∷ entries) (d, h) = elim (Bool-cases (is_dots e)) [
    | inl b ↦ ground (arith, b, page_lem e.cookie out entries h)
    | inr b ↦
        let info : FileInfo = record { name = e.name; attrs = attrs e } in
        ground (
          arith,
          b,
          d,
          append_assoc out (info ∷ []) (infos entries),
          page_lem e.cookie (out ++ (info ∷ [])) entries h,
        )
  ]

  module _ {W : Type 0} (proto : RwProtocol W) (fh : Bytes) (entries : List DirEntry)
      (verifier : Bytes) where
    -- A server that holds a directory. To a cookie that it gave out, with its verifier, it answers with
    -- some of the entries that follow, with one at least or the end mark, and sets the end mark
    -- only where nothing is left.
    pub record Holds : Type 0 where
      pub decodes : Decodes entries
      pub law :
          (before after : List DirEntry) (verf : Bytes) (w : W)
          → entries ≡ before ++ after
          → ((before ≡ []) × (verf ≡ zero_verf)) ⊎ (verf ≡ verifier)
          → (sent rest : List DirEntry) × (status : ℕ) × (at_end : Bool) × (w' : W) × (after
              ≡ sent ++ rest)
            × (((at_end ≡ true) × (rest ≡ [])) ⊎ ((at_end ≡ false) × (is_nil sent ≡ false)))
            × (proto.readdir fh (last_cookie 0 before) verf standard_mask w ≡ (
              done
                  (record { status = status; cookieverf = verifier; entries = sent; eof = at_end }),
              w',
            ))

    module _ (srv : Holds) where
      round :
          (fuel cookie : ℕ) (verf : Bytes) (out : List FileInfo) (w w' : W) (res : ReaddirRes)
          → proto.readdir fh cookie verf standard_mask w ≡ (done res, w')
          → Decodes res.entries
          → read_dir_loop proto fh (suc fuel) cookie verf out w
            ≡ elim (res.eof || is_nil res.entries) [
              | true ↦ (listed (out ++ infos res.entries), w')
              | false ↦
                  read_dir_loop proto fh fuel
                    (last_cookie cookie res.entries)
                    res.cookieverf
                    (out ++ infos res.entries)
                    w'
            ]
      unfolding read_dir_loop
      round fuel cookie verf out w w' res e h = ground (arith, e, page_lem cookie out res.entries h)

      loop-listed :
          (fuel : ℕ) (before after : List DirEntry) (verf : Bytes) (w : W)
          → entries ≡ before ++ after
          → ((before ≡ []) × (verf ≡ zero_verf)) ⊎ (verf ≡ verifier)
          → Decodes after
          → length after < fuel
          → (read_dir_loop proto fh fuel (last_cookie 0 before) verf (infos before) w).0
            ≡ listed (infos (before ++ after))
      loop-listed zero before after verf w split fresh d enough = absurd (omega arith)
      loop-listed (suc fuel) before after verf w split fresh d enough =
          let (sent, rest, status, at_end, w', cut, progress, answer) =
            srv.law before after verf w split fresh in
          let (d', d'') = Decodes-split sent rest (rw cut at d) in
          let step = round fuel (last_cookie 0 before) verf (infos before) w w' _ answer d' in
          elim progress [
            | inl (e, z) ↦
                let whole : after ≡ sent = cut ∙ ap (λ l. sent ++ l) z ∙ append-nil sent in
                ap (λ r. r.0) (rw e at step)
                ∙ ap listed
                    (sym (infos-append before sent) ∙ ap (λ l. infos (before ++ l)) (sym whole))
            | inr (e, some_) ↦
                let longer = is_nil-length sent some_ in
                let sizes = ap length cut ∙ length-append sent rest in
                let parts : before ++ after ≡ (before ++ sent) ++ rest =
                  ap (λ l. before ++ l) cut ∙ sym (append_assoc before sent rest) in
                let ih =
                  loop-listed fuel (before ++ sent) rest verifier w' (split ∙ parts) (inr refl) d''
                    (omega (arith, longer, sizes, enough)) in
                ap (λ r. r.0) (rw (e, some_) at step)
                ∙ rw (last_cookie-append 0 before sent, infos-append before sent) at ih
                ∙ ap (λ l. listed (infos l)) (sym parts)
          ]

      -- A directory whose entries have attributes that decode, on a server that answers READDIR page by
      -- page: readDirAll lists each entry but "." and ".." once, in order, with its attributes, whatever
      -- the sizes of the pages, and one round more than there are entries is enough, if each page but
      -- the last has one entry at least.
      pub read_dir_all_lem :
          (w : W) → (read_dir_all proto (length entries + 1) fh w).0 ≡ listed (infos entries)
      unfolding read_dir_all infos last_cookie
      read_dir_all_lem w =
          loop-listed (length entries + 1) [] entries zero_verf w refl (inl (refl, refl))
            srv.decodes (omega arith)
