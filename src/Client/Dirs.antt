-- ===== src/Client/Dirs.antt =====
-- client/fs.go: the pages of a directory, and an open directory.
pub mod Paging
use go_nfs_client.Prelude.{
  ℕ, zero, suc, ◌+◌, ◌-◌, Bool, true, false, ◌||◌, Option, some, none, List, [], ◌∷◌, ◌++◌, length,
  take, drop, if◌then◌else◌, leb, ltb, ◌==◌,
}
use go_nfs_client.Prelude.Int.{ℤ, pos, negsuc}
use go_nfs_client.Xdr.Io.{Bytes}
use go_nfs_client.Nfs4.Caller.{CallError, other_error}
use go_nfs_client.Nfs4.Results.{DirEntry, ReaddirRes}
use go_nfs_client.Nfs4.Attr.Bitmap.{standard_mask}
use go_nfs_client.Nfs4.Attr.Attributes.{Attributes}
use go_nfs_client.Nfs4.Attr.Attributes
use go_nfs_client.Nfs4.Attr.Mode.{FileInfo}
use go_nfs_client.Client.Errors.{FileError, plain, eof, out_of_fuel}
use go_nfs_client.Client.Protocol.{Outcome, done, failed, RwProtocol}
use go_nfs_client.Client.Paths.{is_dot, is_dot_dot, is_nil}
use go_nfs_client.Client.Handle.{undecodable}

-- What readDirAll returns. `unfinished` has no counterpart in the program.
pub data Listing : Type 0 where
  listed : List FileInfo → Listing
  refused : CallError → Listing
  unfinished : Listing

abbrev pub zero_verf : Bytes
zero_verf = 0 ∷ 0 ∷ 0 ∷ 0 ∷ 0 ∷ 0 ∷ 0 ∷ 0 ∷ []

abbrev pub is_dots : DirEntry → Bool
is_dots e = is_dot e.name || is_dot_dot e.name

-- The loop over a page's entries: the cookie and what is listed after it, or none on an error.
unfoldable pub page : ℕ → List FileInfo → List DirEntry → Option (ℕ × List FileInfo)
page cookie out [] = some (cookie, out)
page cookie out (e ∷ entries) = elim (is_dots e) [
  | true ↦ page e.cookie out entries
  | false ↦ elim (Attributes.decode e.attr_mask e.attr_vals) [
    | Attributes.err x ↦ none
    | Attributes.ok a ↦ page e.cookie (out ++ (record { name = e.name; attrs = a } ∷ [])) entries
  ]
]

module _ {W : Type 0} (proto : RwProtocol W) where
  unfoldable pub read_dir_loop : Bytes → ℕ → ℕ → Bytes → List FileInfo → W → Listing × W
  read_dir_loop fh zero cookie verf out w = (unfinished, w)
  read_dir_loop fh (suc fuel) cookie verf out w =
      let (r, w') = proto.readdir fh cookie verf standard_mask w in
      elim r [
        | failed e ↦ (refused e, w')
        | done res ↦ elim (page cookie out res.entries) [
          | none ↦ (refused (other_error undecodable), w')
          | some (cookie', out') ↦ elim (res.eof || is_nil res.entries) [
            | true ↦ (listed out', w')
            | false ↦ read_dir_loop fh fuel cookie' res.cookieverf out' w'
          ]
        ]
      ]

  -- readDirAll, which has no bound on its rounds.
  unfoldable pub read_dir_all : ℕ → Bytes → W → Listing × W
  read_dir_all fuel fh w = read_dir_loop fh fuel 0 zero_verf [] w

-- dirFile, without its name and attributes. `entries` is none until they are read.
pub record DirFile : Type 0 where
  pub fh : Bytes
  pub entries : Option (List FileInfo)
  pub position : ℕ

-- What ReadDir(n) returns of the entries, from the position on, and the position after it.
unfoldable pub next_entries : ℤ → List FileInfo → ℕ → (List FileInfo × Option FileError) × ℕ
next_entries (negsuc n) entries position = ((drop position entries, none), length entries)
next_entries (pos n) entries position =
    if n == 0
    then ((drop position entries, none), length entries)
    else if leb (length entries) position
    then (([], some eof), position)
    else (let end = if ltb (length entries) (position + n) then length entries else position + n in
        ((take (end - position) (drop position entries), none), end))

module _ {W : Type 0} (proto : RwProtocol W) where
  unfoldable pub read_dir : ℕ → ℤ → DirFile → W → (List FileInfo × Option FileError) × DirFile × W
  read_dir fuel n d w = elim d.entries [
    | some entries ↦
        let (r, position) = next_entries n entries d.position in
        (r, record d { position = position }, w)
    | none ↦
        let (listing, w') = read_dir_all proto fuel d.fh w in
        elim listing [
          | refused e ↦ (([], some (plain e)), d, w')
          | unfinished ↦ (([], some out_of_fuel), d, w')
          | listed entries ↦
              let (r, position) = next_entries n entries d.position in
              (r, record d { entries = some entries; position = position }, w')
        ]
  ]
