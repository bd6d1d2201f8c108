-- ===== src/Nfs4/Attr/Mode.antt =====
-- nfs4/attr/attr.go: os.FileMode and fs.FileInfo.
use go_nfs_client.Prelude.{
  ℕ, ◌%◌, ◌^◌, ◌≡◌, refl, Bool, true, false, ◌||◌, if◌then◌else◌, ◌==◌, arith,
}
use go_nfs_client.Prelude.Int.{ℤ, of_pattern}
use go_nfs_client.Prelude.Bits.{test_bit, set_bit, test_bit-set_bit}
use go_nfs_client.Xdr.Io.{Bytes}
use go_nfs_client.Nfs4.Attr.Attributes.{Attributes}

abbrev pub ftype_dir : ℕ
ftype_dir = 2

abbrev pub ftype_blk : ℕ
ftype_blk = 3

abbrev pub ftype_chr : ℕ
ftype_chr = 4

abbrev pub ftype_lnk : ℕ
ftype_lnk = 5

abbrev pub ftype_sock : ℕ
ftype_sock = 6

abbrev pub ftype_fifo : ℕ
ftype_fifo = 7

abbrev pub ftype_attr_dir : ℕ
ftype_attr_dir = 8

-- The bits of fs.FileMode: ModeDir is 31, ModeSymlink 27, ModeDevice 26, ModeNamedPipe 25,
-- ModeSocket 24, ModeSetuid 23, ModeSetgid 22, ModeCharDevice 21 and ModeSticky 20.
abbrev when : Bool → ℕ → ℕ → ℕ
when b bit mode = if b then set_bit bit mode else mode

-- `fs.FileMode(a.Mode & 0o777)`, with setuid, setgid and sticky.
unfoldable pub permissions : Attributes → ℕ
permissions a =
    when (test_bit 9 a.mode) 20
      (when (test_bit 10 a.mode) 22 (when (test_bit 11 a.mode) 23 (a.mode % 512)))

unfoldable pub file_mode : Attributes → ℕ
file_mode a =
    let mode = permissions a in
    if (a.ftype == ftype_dir) || (a.ftype == ftype_attr_dir)
    then set_bit 31 mode
    else if a.ftype == ftype_lnk
    then set_bit 27 mode
    else if a.ftype == ftype_blk
    then set_bit 26 mode
    else if a.ftype == ftype_chr
    then set_bit 21 (set_bit 26 mode)
    else if a.ftype == ftype_sock
    then set_bit 24 mode
    else if a.ftype == ftype_fifo
    then set_bit 25 mode
    else mode

-- `m.IsDir()`
unfoldable pub is_dir : ℕ → Bool
is_dir mode = test_bit 31 mode

pub record FileInfo : Type 0 where
  pub name : Bytes
  pub attrs : Attributes

-- Size()
unfoldable pub size : FileInfo → ℤ
size fi = of_pattern (2 ^ 63) (2 ^ 64) fi.attrs.size

low-test_bit : (n : ℕ) → test_bit 31 (n % 512) ≡ false
unfolding test_bit
low-test_bit n = ground arith

other-test_bit :
    (b : Bool) (j bit mode : ℕ)
    → (j == bit) ≡ false
    → test_bit j (when b bit mode) ≡ test_bit j mode
other-test_bit true j bit mode h = rw (test_bit-set_bit j bit mode, h) refl
other-test_bit false j bit mode h = refl

permissions-test_bit : (a : Attributes) → test_bit 31 (permissions a) ≡ false
unfolding permissions
permissions-test_bit a =
    rw
      (
        other-test_bit (test_bit 9 a.mode) 31 20 _ refl,
        other-test_bit (test_bit 10 a.mode) 31 22 _ refl,
        other-test_bit (test_bit 11 a.mode) 31 23 _ refl,
      )
      (low-test_bit a.mode)

-- A file is a directory to io/fs exactly if its type is NF4DIR or NF4ATTRDIR, whatever its mode bits.
pub is_dir-file_mode :
    (a : Attributes)
    → is_dir (file_mode a) ≡ ((a.ftype == ftype_dir) || (a.ftype == ftype_attr_dir))
unfolding is_dir file_mode
is_dir-file_mode a =
    let mode = permissions a in
    let low = permissions-test_bit a in
    let l21 = other-test_bit true 31 21 (set_bit 26 mode) refl in
    let l24 = other-test_bit true 31 24 mode refl in
    let l25 = other-test_bit true 31 25 mode refl in
    let l26 = other-test_bit true 31 26 mode refl in
    let l27 = other-test_bit true 31 27 mode refl in
    let l31 = test_bit-set_bit 31 31 mode in ground (arith, low, l21, l24, l25, l26, l27, l31)
