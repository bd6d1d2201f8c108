-- ===== src/Client/Handle/Writes.antt =====
-- WriteAt to a server that may take less than it was sent.
use go_nfs_client.Prelude.{
  ℕ, zero, suc, ◌+◌, ◌%◌, ◌^◌, ◌≤◌, ◌<◌, ◌≡◌, refl, ◌∙◌, ap, false, none, [], ◌∷◌, ◌++◌, length,
  length-drop, take, drop, ◌==◌, arith,
}
use go_nfs_client.Prelude.Int.{pos}
use go_nfs_client.Xdr.Io.{Bytes}
use go_nfs_client.Nfs4.Types.{Stateid}
use go_nfs_client.Client.Protocol.{done, RwProtocol}
use go_nfs_client.Client.Handle.{
  File, file_sync4, write_loop, is_negative, add64, o_append, has_flag, write_bytes, write_at,
  write_offset, write,
}
use go_nfs_client.Client.Handle.Splices.{splice, written_at, written_at-rest, written_at_twice}

-- A server with one file, whose content stands in the world: a write takes one byte at least, and
-- says how many it took.
pub record Takes {W : Type 0} (content : W → Bytes) (proto : RwProtocol W) (fh : Bytes)
    (sid : Stateid) : Type 0 where
  pub law :
      (off : ℕ) (p : Bytes) (w : W)
      → 0 < length p
      → off + length p < 2 ^ 64
      → (k : ℕ) × (committed : ℕ) × (w' : W) × (0 < k)
        × (k ≤ length p)
        × (proto.write fh sid off p file_sync4 w ≡ (done (k, committed), w'))
        × (content w' ≡ splice off (take k p) (content w))

module _ {W : Type 0} (content : W → Bytes) (proto : RwProtocol W) (fh : Bytes) (sid : Stateid)
    (off : ℕ) where
  abbrev Wrote : ℕ → ℕ → Bytes → W → Type 0
  Wrote fuel total p w =
      ((write_loop proto fh sid off fuel total p w).0 ≡ (total + length p, none))
      × (content (write_loop proto fh sid off fuel total p w).1
          ≡ written_at (off + total) p (content w))

  nothing-Wrote : (fuel total : ℕ) (w : W) → Wrote (suc fuel) total [] w
  unfolding write_loop written_at
  nothing-Wrote fuel total w = (ap (λ n. (n, none)) (omega arith), refl)

  loop-step :
      (fuel total k committed : ℕ) (b : ℕ) (p : Bytes) (w : W)
      → (k == 0) ≡ false
      → (proto.write fh sid ((off + total) % 2 ^ 64) (b ∷ p) file_sync4 w).0 ≡ done (k, committed)
      → write_loop proto fh sid off (suc fuel) total (b ∷ p) w
        ≡ write_loop proto fh sid off fuel
            (total + k)
            (drop k (b ∷ p))
            (proto.write fh sid ((off + total) % 2 ^ 64) (b ∷ p) file_sync4 w).1
  unfolding write_loop
  loop-step fuel total k committed b p w z e = ground arith

  loop-Wrote :
      Takes content proto fh sid
      → (fuel total : ℕ) (p : Bytes) (w : W) → length p < fuel
      → off + total + length p < 2 ^ 64
      → Wrote fuel total p w
  unfolding written_at
  loop-Wrote h zero total p w enough wide = absurd (omega arith)
  loop-Wrote h (suc fuel) total [] w enough wide = nothing-Wrote fuel total w
  loop-Wrote h (suc fuel) total (b ∷ p) w enough wide =
      let (k, committed, w', progress, le, e, c) =
        h.law (off + total) (b ∷ p) w (omega arith) wide in
      let size = length-drop k (b ∷ p) in
      let m : (off + total) % 2 ^ 64 ≡ off + total = omega arith in
      let said : proto.write fh sid ((off + total) % 2 ^ 64) (b ∷ p) file_sync4 w
          ≡ (done (k, committed), w') =
        rw m e in
      let step =
        rw said at (loop-step fuel total k committed b p w (ground arith) (ap (λ r. r.0) said)) in
      let (n, after) =
        loop-Wrote h fuel (total + k) (drop k (b ∷ p)) w' (omega (arith, size))
          (omega (arith, size)) in
      let all : total + k + length (drop k (b ∷ p)) ≡ total + length (b ∷ p) =
        omega (arith, size) in
      let moved : off + (total + k) ≡ off + total + k = omega arith in
      let joined = written_at-rest (off + total) k (b ∷ p) (content w) le in
      (
        ap (λ r. r.0) step ∙ n ∙ ap (λ m. (m, none)) all,
        ap (λ r. content r.1) step ∙ after ∙ rw (moved, c) joined,
      )

-- To a server that may take less of a write than it was sent, but takes one byte at least and says
-- how many, WriteAt on an open file writes the whole buffer at the offset: it returns its length
-- and no error, where its documentation promises a short write error, since it sends what is left
-- again; the file's other bytes stay, a gap before the offset is zeros, and the file keeps its own
-- offset, if the offset is not negative and the end of the write is below 2^64. An empty buffer
-- leaves the content as it is.
pub write_at_lem :
    {W : Type 0} (content : W → Bytes) (proto : RwProtocol W) (f : File) (p : Bytes) (off : ℕ)
    (w : W)
    → Takes content proto f.fh f.stateid
    → f.is_closed ≡ false
    → off < 2 ^ 63
    → off + length p < 2 ^ 64
    → ((write_at proto p (pos off) f w).0 ≡ (length p, none))
      × ((write_at proto p (pos off) f w).1 ≡ f)
      × (content (write_at proto p (pos off) f w).2 ≡ written_at off p (content w))
unfolding write_at write_bytes is_negative
write_at_lem content proto f p off w h open_ small wide =
    let m : off % 2 ^ 64 ≡ off = omega arith in
    let z : off + 0 ≡ off = omega arith in
    let total : 0 + length p ≡ length p = omega arith in
    let (n, c) =
      loop-Wrote content proto f.fh f.stateid off h (length p + 1) 0 p w (omega arith)
        (omega arith) in
    rw (open_, m) (rw total at n, refl, rw z at c)

add64-pos : (a b : ℕ) → a + b < 2 ^ 63 → add64 (pos a) (pos b) ≡ pos (a + b)
unfolding add64
add64-pos a b h = ground arith

module _ {W : Type 0} (content : W → Bytes) (proto : RwProtocol W) where
  -- What Write comes to on an open file that does not append.
  abbrev Advances : File → ℕ → Bytes → W → Type 0
  Advances f off p w =
      ((write proto p f w).0 ≡ (length p, none))
      × ((write proto p f w).1 ≡ record f { offset = pos (off + length p) })
      × (content (write proto p f w).2 ≡ written_at off p (content w))

  write_offset-plain :
      (f : File) (w : W)
      → has_flag f.flag o_append ≡ false
      → write_offset proto f w ≡ (done f.offset, w)
  unfolding write_offset
  write_offset-plain f w flag = rw flag refl

  write-Advances :
      (f : File) (off : ℕ) (p : Bytes) (w : W)
      → Takes content proto f.fh f.stateid
      → f.is_closed ≡ false
      → has_flag f.flag o_append ≡ false
      → f.offset ≡ pos off
      → off + length p < 2 ^ 63
      → Advances f off p w
  unfolding write write_bytes
  write-Advances f off p w h open_ flag at_off small =
      let m : off % 2 ^ 64 ≡ off = omega arith in
      let z : off + 0 ≡ off = omega arith in
      let total : 0 + length p ≡ length p = omega arith in
      let (n, c) =
        loop-Wrote content proto f.fh f.stateid off h (length p + 1) 0 p w (omega arith)
          (omega arith) in
      let r = rw total at n in
      let start = write_offset-plain f w flag in
      let moved = add64-pos off (length p) small in
      rw (write, start, start, at_off, m, r, moved, open_) (refl, refl, rw z at c)

  -- Two Writes, one after the other, on an open file that does not append, come to one Write of both
  -- buffers at the file's offset: each returns its length and no error, and the offset moves behind
  -- both, if the server may take less than it was sent but takes one byte at least and says how many,
  -- the offset is not negative, and the end is below 2^63.
  pub write-write :
      (f : File) (off : ℕ) (p q : Bytes) (w : W)
      → Takes content proto f.fh f.stateid
      → f.is_closed ≡ false
      → has_flag f.flag o_append ≡ false
      → f.offset ≡ pos off
      → off + length p + length q < 2 ^ 63
      → let (r, f', w') = write proto p f w in
        let (r', f'', w'') = write proto q f' w' in
        (r ≡ (length p, none))
        × (r' ≡ (length q, none))
        × (f'' ≡ record f { offset = pos (off + length p + length q) })
        × (content w'' ≡ written_at off (p ++ q) (content w))
  write-write f off p q w h open_ flag at_off small =
      let (r, moved, c) = write-Advances f off p w h open_ flag at_off (omega arith) in
      let f' : File = record f { offset = pos (off + length p) } in
      let (r', moved', c') =
        write-Advances f' (off + length p) q (write proto p f w).2 h open_ flag refl small in
      rw moved (r, r', moved', c' ∙ rw c (written_at_twice off p q (content w)))
