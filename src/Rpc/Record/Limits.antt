-- ===== src/Rpc/Record/Limits.antt =====
-- ReadRecord on a stream of finitely many bytes: the fuel is enough, and a message keeps to the size limit.
use go_nfs_client.Prelude.{
  ℕ, zero, suc, ◌+◌, ◌^◌, ◌%◌, ◌≤◌, ◌<◌, ◌≡◌, ◌≢◌, inl, inr, none, ◌++◌, [], arith, length,
  length-append, le→ltb, lt→ltb,
}
use go_nfs_client.Xdr.Io.{Bytes, Stream, read_full-cases, big_endian, put_uint32}
use go_nfs_client.Rpc.Record.{
  fragment_size_mask, last_fragment_flag, max_message_size, fragment_size, write_record, message,
  failed, out_of_fuel, read_loop, read_record,
}

read_loop-message-le :
    (fuel : ℕ) (msg : Bytes) (r r' : Stream) (m : Bytes)
    → read_loop fuel msg r ≡ (message m, r')
    → length m ≤ max_message_size
unfolding read_loop
read_loop-message-le zero msg r r' m e = cc
read_loop-message-le (suc fuel) msg r r' m e = elim (read_full-cases 4 r) [
  | inl (x, s, p) ↦ ground (arith, p)
  | inr (hdr, s, p, _, _) ↦ elim (read_full-cases (fragment_size (big_endian 0 hdr)) s) [
    | inl (x, t, q) ↦ ground (arith, p, q)
    | inr (frag, t, q, len, _) ↦
        ground (arith, p, q, length-append msg frag, read_loop-message-le fuel (msg ++ frag) t r' m)
  ]
]

read_loop-ne-out_of_fuel :
    (fuel : ℕ) (msg : Bytes) (r : Stream)
    → length r.input < fuel
    → (read_loop fuel msg r).0 ≢ failed out_of_fuel
unfolding read_loop
read_loop-ne-out_of_fuel zero msg r h e = absurd (omega arith)
read_loop-ne-out_of_fuel (suc fuel) msg r h e = elim (read_full-cases 4 r) [
  | inl (x, s, p) ↦ ground (arith, p)
  | inr (hdr, s, p, _, took) ↦ elim (read_full-cases (fragment_size (big_endian 0 hdr)) s) [
    | inl (x, t, q) ↦ ground (arith, p, q)
    | inr (frag, t, q, _, more) ↦
        ground (arith, p, q, read_loop-ne-out_of_fuel fuel (msg ++ frag) t)
  ]
]

-- On a stream that has finitely many bytes before its end, which is what `Stream` stands for, the loop
-- never runs out of fuel. On a connection that never ends it has no bound: fragments of no bytes
-- without the last-fragment flag keep it going.
pub read_record-ne-out_of_fuel : (r : Stream) → (read_record r).0 ≢ failed out_of_fuel
unfolding read_record
read_record-ne-out_of_fuel r = read_loop-ne-out_of_fuel (suc (length r.input)) [] r (omega arith)

-- Whatever the server sends, and in whatever fragments, a message that ReadRecord returns keeps to the
-- limit of 512 MiB.
pub read_record-message-le :
    (r r' : Stream) (m : Bytes) → read_record r ≡ (message m, r') → length m ≤ max_message_size
unfolding read_record
read_record-message-le r r' m e = read_loop-message-le (suc (length r.input)) [] r r' m e

-- The guard of WriteRecord looks at the low 32 bits of the length. So a payload of 4 GiB or more
-- whose low 32 bits fit passes it, and the header states a size that is not the payload's.
pub write_record_wraps :
    (payload : Bytes) (sent : Bytes)
    → 2 ^ 32 ≤ length payload
    → length payload % 2 ^ 32 < 2 ^ 31
    → ((write_record payload (record { sent = sent; fails = λ _ _. none })).0 ≡ none)
      × ((write_record payload (record { sent = sent; fails = λ _ _. none })).1.sent
          ≡ (sent ++ put_uint32 (length payload % 2 ^ 32 + 2 ^ 31)) ++ payload)
      × (fragment_size (length payload % 2 ^ 32 + 2 ^ 31) ≢ length payload)
unfolding write_record
write_record_wraps payload sent large low =
    let a = le→ltb fragment_size_mask (length payload % 2 ^ 32) (omega arith) in
    let b = lt→ltb (length payload % 2 ^ 32) last_fragment_flag (omega arith) in
    (rw a, rw (a, b), omega arith)
