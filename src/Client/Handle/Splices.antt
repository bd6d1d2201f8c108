-- ===== src/Client/Handle/Splices.antt =====
-- Bytes written into a file at an offset.
use go_nfs_client.Prelude.{
  ℕ, ◌+◌, ◌-◌, ◌≤◌, ◌≡◌, refl, ap, sym, ◌∙◌, [], ◌∷◌, ◌++◌, append_assoc, append-nil, length,
  length-append, length-replicate, take, drop, take_all, length-take, length-drop, take_add,
  take-append, drop-append, drop_add, replicate, arith,
}
use go_nfs_client.Xdr.Io.{Bytes}

drop-append_more : (x y : Bytes) (n : ℕ) → drop (length x + n) (x ++ y) ≡ drop n y
drop-append_more x y n = sym (drop_add n (length x) (x ++ y)) ∙ ap (drop n) (drop-append x y)

-- A file that is at least `n` bytes long, filled up with zeros.
unfoldable pub padded : ℕ → Bytes → Bytes
padded n content = content ++ replicate (n - length content) 0

-- The content after `p` was written at `off`: what lies before and behind stays, and a gap is zeros.
unfoldable pub splice : ℕ → Bytes → Bytes → Bytes
splice off p content = take off (padded off content) ++ (p ++ drop (off + length p) content)

length-front : (off : ℕ) (content : Bytes) → length (take off (padded off content)) ≡ off
unfolding padded
length-front off content = length-take off (padded off content) (
    omega (
      arith,
      length-append content (replicate (off - length content) 0),
      length-replicate {A = ℕ} (off - length content) 0,
    ))

padded-le : (n : ℕ) (content : Bytes) → n ≤ length content → padded n content ≡ content
unfolding padded
padded-le n content h = let e : n - length content ≡ 0 = omega arith in rw e (append-nil content)

splice-append :
    (n : ℕ) (y r b : Bytes) → length y ≡ n → splice n b (y ++ r) ≡ y ++ (b ++ drop (length b) r)
unfolding splice
splice-append n y r b h =
    let long = padded-le n (y ++ r) (omega (arith, length-append y r)) in
    let front = rw h at (take-append y r) in
    let back = rw h at (drop-append_more y r (length b)) in rw (long, front, back) refl

-- Two writes, one behind the other, are one.
pub splice-splice :
    (off : ℕ) (a b content : Bytes)
    → splice (off + length a) b (splice off a content) ≡ splice off (a ++ b) content
unfolding splice
splice-splice off a b content =
    let x = take off (padded off content) in
    let r = drop (off + length a) content in
    let size : length (x ++ a) ≡ off + length a =
      omega (arith, length-append x a, length-front off content) in
    let assoc = append_assoc x a r in
    let once = splice-append (off + length a) (x ++ a) r b size in
    let rest = drop_add (length b) (off + length a) content in
    let total : off + length (a ++ b) ≡ off + length a + length b =
      omega (arith, length-append a b) in
    let tail = append_assoc a b (drop (off + length a + length b) content) in
    let outer = append_assoc x a (b ++ drop (off + length a + length b) content) in
    ap (splice (off + length a) b) (sym assoc) ∙ once ∙ rw (rest, total, outer, tail) refl

-- Go's writes of nothing do not reach the server, and leave the file.
unfoldable pub written_at : ℕ → Bytes → Bytes → Bytes
written_at off [] content = content
written_at off (b ∷ p) content = splice off (b ∷ p) content

pub written_at-splice :
    (off : ℕ) (a b content : Bytes)
    → written_at (off + length a) b (splice off a content) ≡ splice off (a ++ b) content
unfolding written_at
written_at-splice off a [] content = ap (λ p. splice off p content) (sym (append-nil a))
written_at-splice off a (x ∷ b) content = splice-splice off a (x ∷ b) content

-- The rest of a write after its first `k` bytes.
pub written_at-rest :
    (off k : ℕ) (p content : Bytes)
    → k ≤ length p
    → written_at (off + k) (drop k p) (splice off (take k p) content) ≡ splice off p content
written_at-rest off k p content h =
    let whole : take k p ++ drop k p ≡ p =
      ap (λ xs. take k p ++ xs)
        (sym (take_all (length p) (drop k p) (omega (arith, length-drop k p))))
      ∙ take_add k (length p) p
      ∙ take_all (k + length p) p (omega arith) in
    rw (length-take k p h, whole) at (written_at-splice off (take k p) (drop k p) content)

pub written_at_twice :
    (off : ℕ) (p q content : Bytes)
    → written_at (off + length p) q (written_at off p content) ≡ written_at off (p ++ q) content
unfolding written_at
written_at_twice off [] q content = let e : off + 0 ≡ off = omega arith in rw e refl
written_at_twice off (b ∷ p) q content = written_at-splice off (b ∷ p) q content
