-- ===== src/Xdr/RoundTrip.antt =====
-- Items that are encoded somewhere in a buffer and decoded from there, and the fragment bit.
use nfs_client_simulator.Common.{
  ℕ, zero, suc, ◌+◌, ◌/◌, ◌%◌, ◌^◌, ◌≤◌, ◌<◌, ◌≡◌, refl, ◌∙◌, List, [], ◌∷◌, ◌++◌, Outcome, ok,
  ◌==◌, if◌then◌else◌, length, drop, arith, append_assoc, append-nil, drop-drop, length-append, All,
  ◌≢◌, Option, none, some,
}
use nfs_client_simulator.Common.Bits.{or_top, and_clear_top}
use nfs_client_simulator.Xdr.{
  Buffer, store, load, at, xdr_encode_u32, xdr_encode_u64, xdr_encode_string, xdr_encode_n_bytes,
  xdr_encode_last_fragment, xdr_strip_last_fragment, xdr_decode_u32, xdr_decode_u64,
  xdr_decode_string, xdr_decode_n_bytes,
}
use nfs_client_simulator.Xdr.Encode.{
  be32, be64, Written, xdr_encode_u32-Written, xdr_encode_u64-Written, xdr_encode_string-Written,
  xdr_encode_n_bytes-Written,
}
use nfs_client_simulator.Xdr.Decode.{xdr_decode_u32-drop, xdr_decode_u64-drop}
use nfs_client_simulator.Xdr.Sequences.{xdr_decode_n_bytes-drop, xdr_decode_string-drop}

at-suc :
    (b : ℕ) (bs : Buffer) (off : ℕ) (f : Buffer → Outcome (ℕ × Buffer)) (r : Outcome (ℕ × Buffer))
    {n : ℕ} {buf' : Buffer}
    → at bs off f ≡ r
    → at (b ∷ bs) (suc off) f ≡ ok (n, buf')
    → (bs' : Buffer) × (at bs off f ≡ ok (n, bs')) × (buf' ≡ b ∷ bs')
unfolding at
at-suc b bs off f (ok (m, bs')) h e = (bs', ground arith, ground arith)
at-suc b bs off f Outcome.aborted h e = ground arith
at-suc b bs off f Outcome.fault h e = ground arith
at-suc b bs off f Outcome.blocked h e = ground arith

-- After a write that succeeded, its bytes stand at the offset, before what stood behind them.
at-Written :
    (buf : Buffer) (off : ℕ) (f : Buffer → Outcome (ℕ × Buffer)) (bytes : List ℕ) {n : ℕ}
    {buf' : Buffer}
    → f (drop off buf) ≡ Written (drop off buf) bytes
    → at buf off f ≡ ok (n, buf')
    → drop off buf' ≡ bytes ++ drop (length bytes) (drop off buf)
unfolding at
at-Written buf zero f bytes w e = ground (arith)
at-Written [] (suc off) f bytes w e = cc
at-Written (b ∷ bs) (suc off) f bytes w e =
    let (bs', h, same) = at-suc b bs off f (at bs off f) refl e in
    rw same (at-Written bs off f bytes w h)

compare_lengths :
    (off : ℕ) (str more : List ℕ)
    → ◌≡◌ {A = Outcome (Option ℕ × List ℕ × ℕ)}
        (if length (str ++ more) == length str
          then ok (some (length str), str ++ more, off + 4 + length str)
          else ok (none, str ++ more, off + 4))
        (if length more == 0
          then ok (some (length str), str, off + 4 + length str)
          else ok (none, str ++ more, off + 4))
compare_lengths off str [] = rw (append-nil str) (ground arith)
compare_lengths off str (c ∷ more) = ground (arith, length-append str (c ∷ more))

module _ (buf : Buffer) (off : ℕ) {n : ℕ} {buf' : Buffer} where
  -- A number of 32 bits that xdr_encode_u32 has written at an offset of a buffer is read back there by
  -- xdr_decode_u32, with the offset behind it. The end lies below 2 ^ 32.
  pub xdr_decode_u32-encode_u32 :
      (v : ℕ)
      → v < 2 ^ 32
      → off + 4 < 2 ^ 32
      → at buf off (λ p. xdr_encode_u32 p v) ≡ ok (n, buf')
      → xdr_decode_u32 (some buf') off ≡ ok (v, off + 4)
  xdr_decode_u32-encode_u32 v small fits e =
      xdr_decode_u32-drop buf' off v _ fits small
        (at-Written buf off (λ p. xdr_encode_u32 p v) (be32 v) (xdr_encode_u32-Written _ v) e)

  -- Of a number of 64 bits that xdr_encode_u64 has written at an offset of a buffer, xdr_decode_u64 reads
  -- back the lower 32 bits only, with the offset behind all 64. The end lies below 2 ^ 32.
  pub xdr_decode_u64-encode_u64 :
      (v : ℕ)
      → v < 2 ^ 64
      → off + 8 < 2 ^ 32
      → at buf off (λ p. xdr_encode_u64 p v) ≡ ok (n, buf')
      → xdr_decode_u64 (some buf') off ≡ ok (v % 2 ^ 32, off + 8)
  xdr_decode_u64-encode_u64 v small fits e =
      xdr_decode_u64-drop buf' off v _ fits small
        (at-Written buf off (λ p. xdr_encode_u64 p v) (be64 v) (xdr_encode_u64-Written _ v) e)

  -- Bytes that xdr_encode_n_bytes has written at an offset of a buffer are read back there by
  -- xdr_decode_n_bytes, behind those that the vector had, if they are no more than the maximum. The end
  -- lies below 2 ^ 32.
  pub xdr_decode_n_bytes-encode_n_bytes :
      (old bytes : List ℕ) (max : ℕ)
      → length bytes ≤ max
      → off + 4 + length bytes < 2 ^ 32
      → at buf off (λ p. xdr_encode_n_bytes p bytes) ≡ ok (n, buf')
      → xdr_decode_n_bytes (some buf') old max off
        ≡ ok (some (length bytes), old ++ bytes, off + 4 + length bytes)
  xdr_decode_n_bytes-encode_n_bytes old bytes max small fits e =
      xdr_decode_n_bytes-drop buf' off max old bytes _ fits small (
        at-Written buf off (λ p. xdr_encode_n_bytes p bytes) (be32 (length bytes) ++ bytes)
          (xdr_encode_n_bytes-Written _ bytes (omega arith)) e)

  string_stands :
      (str more post : List ℕ)
      → length str + 4 < 2 ^ 32
      → drop (off + (4 + length str)) buf ≡ more ++ 0 ∷ post
      → at buf off (λ p. xdr_encode_string p str) ≡ ok (n, buf')
      → drop off buf' ≡ be32 (length str) ++ (str ++ more) ++ 0 ∷ post
  string_stands str more post fits behind e =
      written
      ∙ rw (drop-drop off (4 + length str) buf, behind) (rw (append_assoc str more (0 ∷ post)))
    where
      written : drop off buf' ≡ be32 (length str) ++ str ++ drop (4 + length str) (drop off buf)
      written =
          let size : 4 + length str ≡ length (be32 (length str) ++ str) = omega arith in
          rw size (
            at-Written buf off (λ p. xdr_encode_string p str) (be32 (length str) ++ str)
              (xdr_encode_string-Written _ str fits) e)

  -- A string without zero bytes, shorter than the maximum, that xdr_encode_string has written at an
  -- offset of a buffer is read back there by xdr_decode_string exactly if the byte behind it is 0. If
  -- other bytes `more` come before the next 0, the result is -1 and the string has them too.
  pub xdr_decode_string-encode_string :
      (old str more post : List ℕ) (max : ℕ)
      → length str < max
      → off + 4 + length str < 2 ^ 32
      → All (λ b. b ≢ 0) (str ++ more)
      → drop (off + (4 + length str)) buf ≡ more ++ 0 ∷ post
      → at buf off (λ p. xdr_encode_string p str) ≡ ok (n, buf')
      → xdr_decode_string (some buf') old max off ≡ (
          if length more == 0
          then ok (some (length str), str, off + 4 + length str)
          else ok (none, str ++ more, off + 4))
  xdr_decode_string-encode_string old str more post max small fits nonzero behind e =
      xdr_decode_string-drop buf' off max (length str) old (str ++ more) post fits small nonzero
        (string_stands str more post (omega arith) behind e)
      ∙ compare_lengths off str more

-- xdr_encode_last_fragment adds 2 ^ 31 to a number below 2 ^ 31 that stands at the front of the buffer.
pub xdr_encode_last_fragment-be32 :
    (v : ℕ) (post : List ℕ)
    → v < 2 ^ 31
    → xdr_encode_last_fragment (be32 v ++ post) ≡ ok (be32 (v + 2 ^ 31) ++ post)
unfolding xdr_encode_last_fragment load store
xdr_encode_last_fragment-be32 v post h = ground (arith, or_top (v / 2 ^ 24 % 256))

-- xdr_strip_last_fragment takes the bit 2 ^ 31 from a number of 32 bits at the front of the buffer.
pub xdr_strip_last_fragment-be32 :
    (v : ℕ) (post : List ℕ)
    → v < 2 ^ 32
    → xdr_strip_last_fragment (be32 v ++ post) ≡ ok (be32 (v % 2 ^ 31) ++ post)
unfolding xdr_strip_last_fragment load store
xdr_strip_last_fragment-be32 v post h = ground (arith, and_clear_top (v / 2 ^ 24 % 256))
