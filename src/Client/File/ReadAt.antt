-- ===== src/Client/File/ReadAt.antt =====
-- ReadAt against a server that may answer with less than was asked for.
use go_nfs_client.Prelude.{
  ℕ, zero, suc, ◌+◌, ◌-◌, ◌%◌, ◌^◌, ◌≤◌, ◌<◌, ◌≡◌, refl, ◌∙◌, sym, ap, ◌⊎◌, inl, inr, Bool, false,
  ◌||◌, Bool-cases, Option, some, none, [], ◌++◌, append_assoc, append-nil, length, length-append,
  take, drop, take_all, length-take, length-drop, take_add, drop_add, if◌then◌else◌, leb, le→leb,
  leb→le, ◌==◌, ==_iff, arith,
}
use go_nfs_client.Prelude.Int.{pos}
use go_nfs_client.Xdr.Io.{Bytes}
use go_nfs_client.Client.File.{data_, ReadProc, Error, eof, read_at_loop, read_at}

-- `n` bytes of a file from an offset on, or as many as there are.
abbrev pub slice : ℕ → ℕ → Bytes → Bytes
slice off n content = take n (drop off content)

-- A server that holds `content`: it answers with some of the bytes asked for, at least one where
-- there is one, and marks the end exactly where it has come to it.
pub record Serves {W : Type 0} (content : Bytes) (read : ReadProc W) : Type 0 where
  pub law :
      (off count : ℕ) (w : W)
      → 0 < count
      → (k : ℕ) × (k ≤ count)
        × (k ≤ length content - off)
        × ((0 < k) ⊎ (length content ≤ off))
        × ((read off count w).0 ≡ data_ (slice off k content) (leb (length content) (off + k)))

-- Past the end there is nothing more.
slice-short :
    (off k n : ℕ) (content : Bytes)
    → k ≤ n
    → length content ≤ off + k
    → slice off k content ≡ slice off n content
slice-short off k n content le h =
    take_all k (drop off content) (omega (arith, length-drop off content))
    ∙ sym (take_all n (drop off content) (omega (arith, length-drop off content)))

slice_add :
    (off k n : ℕ) (content : Bytes)
    → slice off k content ++ slice (off + k) n content ≡ slice off (k + n) content
slice_add off k n content =
    ap (λ xs. slice off k content ++ take n xs) (sym (drop_add k off content))
    ∙ take_add k n (drop off content)

length-slice :
    (off k : ℕ) (content : Bytes) → k ≤ length content - off → length (slice off k content) ≡ k
length-slice off k content h =
    length-take k (drop off content) (omega (arith, length-drop off content))

-- Nothing where nothing was asked for, and io.EOF exactly where the read comes to the end.
abbrev pub ending : Bytes → ℕ → ℕ → Option Error
ending content off n =
    if n == 0 then none else if leb (length content) (off + n) then some eof else none

module _ {W : Type 0} (content : Bytes) (read : ReadProc W) (off : ℕ) where
  loop-data :
      (fuel n : ℕ) (acc d : Bytes) (w : W) (b : Bool)
      → (n == 0) ≡ false
      → (read ((off + length acc) % 2 ^ 64) (n % 2 ^ 32) w).0 ≡ data_ d b
      → read_at_loop read off (suc fuel) acc n w ≡ (
          if b || (length d == 0)
          then ((acc ++ take n d, some eof), (read ((off + length acc) % 2 ^ 64) (n % 2 ^ 32) w).1)
          else read_at_loop read off fuel
              (acc ++ take n d)
              (n - length (take n d))
              (read ((off + length acc) % 2 ^ 64) (n % 2 ^ 32) w).1)
  unfolding read_at_loop
  loop-data fuel n acc d w b z e = ground arith

  -- What `fuel` rounds from `acc` on come to.
  abbrev Finishes : ℕ → ℕ → Bytes → W → Type 0
  Finishes fuel n acc w =
      (read_at_loop read off fuel acc n w).0
      ≡ (acc ++ slice (off + length acc) n content, ending content (off + length acc) n)

  nothing-Finishes : (fuel n : ℕ) (acc : Bytes) (w : W) → n ≡ 0 → Finishes (suc fuel) n acc w
  unfolding read_at_loop
  nothing-Finishes fuel n acc w z = rw (z, append-nil acc) (ground arith)

  at_end-Finishes :
      (fuel n k : ℕ) (acc : Bytes) (w : W)
      → (n == 0) ≡ false
      → k ≤ n
      → length content ≤ off + length acc + k
      → k ≤ length content - (off + length acc)
      → (read_at_loop read off (suc fuel) acc n w).0
        ≡ (acc ++ take n (slice (off + length acc) k content), some eof)
      → Finishes (suc fuel) n acc w
  at_end-Finishes fuel n k acc w z le past avail e =
      let o = off + length acc in
      let whole = take_all n (slice o k content) (omega (arith, length-slice o k content avail)) in
      let same = slice-short o k n content le past in
      e ∙ rw (whole, same, z, le→leb (length content) (o + n) (omega arith)) refl

  more-Finishes :
      (fuel n k : ℕ) (acc : Bytes) (w w' : W)
      → (n == 0) ≡ false
      → k ≤ n
      → off + length acc + k < length content
      → k ≤ length content - (off + length acc)
      → (read_at_loop read off (suc fuel) acc n w).0
        ≡ (read_at_loop read off fuel (acc ++ slice (off + length acc) k content) (n - k) w').0
      → Finishes fuel (n - k) (acc ++ slice (off + length acc) k content) w'
      → Finishes (suc fuel) n acc w
  more-Finishes fuel n k acc w w' z le more avail e ih =
      let o = off + length acc in
      let size = length-slice o k content avail in
      let moved : off + length (acc ++ slice o k content) ≡ o + k =
        omega (arith, length-append acc (slice o k content), size) in
      let total : k + (n - k) ≡ n = omega arith in
      let joined = rw total at (slice_add o k (n - k) content) in
      let ih' =
        rw (moved, append_assoc acc (slice o k content) (slice (o + k) (n - k) content), joined) at
          ih in
      let same : ending content (o + k) (n - k) ≡ ending content o n = ground arith in
      e ∙ ih' ∙ ap (λ x. (acc ++ slice o n content, x)) same

  round-Finishes :
      (fuel n k : ℕ) (acc : Bytes) (w : W)
      → off + length acc + n < 2 ^ 64
      → n < 2 ^ 32
      → (n == 0) ≡ false
      → k ≤ n
      → k ≤ length content - (off + length acc)
      → (0 < k) ⊎ (length content ≤ off + length acc)
      → (read (off + length acc) n w).0
        ≡ data_ (slice (off + length acc) k content) (leb (length content) (off + length acc + k))
      → ((w' : W) → 0 < k → Finishes fuel (n - k) (acc ++ slice (off + length acc) k content) w')
      → Finishes (suc fuel) n acc w
  round-Finishes fuel n k acc w wide small z le avail prog eq ih =
      let o = off + length acc in
      let d = slice o k content in
      let m : (off + length acc) % 2 ^ 64 ≡ off + length acc = omega arith in
      let m' : n % 2 ^ 32 ≡ n = omega arith in
      let size = length-slice o k content avail in
      let whole = take_all n d (omega (arith, size)) in
      let opened = loop-data fuel n acc d w (leb (length content) (o + k)) z (rw (m, m') eq) in
      elim (Bool-cases (leb (length content) (o + k))) [
        | inl b ↦
            at_end-Finishes fuel n k acc w z le (leb→le _ _ b) avail
              (ap (λ (x : (Bytes × Option Error) × W). x.0) (rw b at opened))
        | inr b ↦
            let some_read : (length d == 0) ≡ false = ground (arith, size, prog) in
            more-Finishes fuel n k acc w (read ((off + length acc) % 2 ^ 64) (n % 2 ^ 32) w).1 z le
              (ground arith) avail
              (ap (λ (x : (Bytes × Option Error) × W). x.0)
                (rw (b, some_read, whole, size) at opened))
              (ih (read ((off + length acc) % 2 ^ 64) (n % 2 ^ 32) w).1 (ground (arith, prog)))
      ]

  loop-Finishes :
      Serves content read
      → (fuel n : ℕ) (acc : Bytes) (w : W) → n < fuel
      → off + length acc + n < 2 ^ 64
      → n < 2 ^ 32
      → Finishes fuel n acc w
  loop-Finishes h zero n acc w lt wide small = absurd (omega arith)
  loop-Finishes h (suc fuel) n acc w lt wide small = elim (Bool-cases (n == 0)) [
    | inl z ↦ nothing-Finishes fuel n acc w ((==_iff n 0).0 z)
    | inr z ↦
        let (k, le, avail, prog, eq) = h.law (off + length acc) n w (ground arith) in
        let size = length-slice (off + length acc) k content avail in
        round-Finishes fuel n k acc w wide small z le avail prog eq (λ w' progress.
          loop-Finishes h fuel (n - k) (acc ++ slice (off + length acc) k content) w' (omega arith)
            (omega (arith, length-append acc (slice (off + length acc) k content), size))
            (omega arith))
  ]

-- From a server that holds a file and may answer each read with less than was asked for, ReadAt on
-- an open file gets the bytes asked for, or as many as the file has from the offset on, in order, and
-- io.EOF exactly where bytes were asked for and the file ends with them or before, if the offset is
-- not negative, the end of the read is below 2^64 and the buffer below 4 GiB.
pub read_at_lem :
    {W : Type 0} (content : Bytes) (read : ReadProc W) (off n : ℕ) (w : W)
    → Serves content read
    → off + n < 2 ^ 64
    → n < 2 ^ 32
    → (read_at read false n (pos off) w).0 ≡ (slice off n content, ending content off n)
unfolding read_at
read_at_lem content read off n w h wide small =
    let e : off + 0 ≡ off = omega arith in
    rw e at (loop-Finishes content read off h (n + 1) n [] w (omega arith) (omega arith) small)
