-- ===== src/Xdr/Sticky.antt =====
-- The first error stays: a failed encoder ignores every later call.
use go_nfs_client.Prelude.{ℕ, ◌≡◌, Bool, true, false, some, arith}
use go_nfs_client.Prelude.Int.{ℤ}
use go_nfs_client.Xdr.Io.{Bytes, IoError}
use go_nfs_client.Xdr.Encoder.{
  Encoder, Put, write, pad, uint32, int32, uint64, int64, bool, opaque, fixed_opaque, string, ◌>>◌,
}

-- Once `err` is set, `put` changes nothing.
abbrev pub IsSticky : Put → Type 0
IsSticky put = (e : Encoder) (x : IoError) → e.err ≡ some x → put e ≡ e

write-IsSticky : (p : Bytes) → IsSticky (write p)
unfolding write
write-IsSticky p e x h = ground arith

pub >>-IsSticky : (f g : Put) → IsSticky f → IsSticky g → IsSticky (f >> g)
unfolding ◌>>◌
>>-IsSticky f g hf hg e x h = rw (hf e x h) (hg e x h)

pad-IsSticky : (n : ℕ) → IsSticky (pad n)
unfolding pad
pad-IsSticky n e x h = ground arith

bool-IsSticky : (b : Bool) → IsSticky (bool b)
unfolding bool uint32
bool-IsSticky true = write-IsSticky _
bool-IsSticky false = write-IsSticky _

fixed_opaque-IsSticky : (p : Bytes) → IsSticky (fixed_opaque p)
unfolding fixed_opaque
fixed_opaque-IsSticky p e x h = rw (write-IsSticky p e x h) (pad-IsSticky _ e x h)

opaque-IsSticky : (p : Bytes) → IsSticky (opaque p)
unfolding opaque uint32
opaque-IsSticky p e x h = rw (write-IsSticky _ e x h, write-IsSticky p e x h) (pad-IsSticky _ e x h)

-- After the first error of the writer every method of the encoder is a no-op: nothing more is
-- written, and the error stays the first one.
pub methods_sticky :
    (e : Encoder) (x : IoError) (n : ℕ) (i : ℤ) (b : Bool) (p : Bytes)
    → e.err ≡ some x
    → (uint32 n e ≡ e)
      × (uint64 n e ≡ e)
      × (int32 i e ≡ e)
      × (int64 i e ≡ e)
      × (bool b e ≡ e)
      × (opaque p e ≡ e)
      × (fixed_opaque p e ≡ e)
      × (string p e ≡ e)
unfolding uint32 uint64 int32 int64 string opaque
methods_sticky e x n i b p h = (
  write-IsSticky _ e x h,
  write-IsSticky _ e x h,
  write-IsSticky _ e x h,
  write-IsSticky _ e x h,
  bool-IsSticky b e x h,
  opaque-IsSticky p e x h,
  fixed_opaque-IsSticky p e x h,
  opaque-IsSticky p e x h,
)
