-- ===== src/Xdr/Sequences.antt =====
-- What the decoders of byte sequences and strings make of a buffer.
use nfs_client_simulator.Common.{
  ℕ, zero, suc, ◌+◌, ◌%◌, ◌^◌, ◌≤◌, ◌<◌, ◌≡◌, refl, sym, ap, ◌∙◌, List, [], ◌∷◌, ◌++◌, ok, none,
  some, ◌==◌, if◌then◌else◌, length, drop, arith, ◌≢◌, All, drop-drop, length-drop,
}
use nfs_client_simulator.Xdr.{
  Buffer, load, c_string, advance, read_bytes, xdr_decode_string, xdr_decode_n_bytes,
}
use nfs_client_simulator.Xdr.Encode.{be32}
use nfs_client_simulator.Xdr.Decode.{load-drop, xdr_decode_u32-drop, drop-be32}

drop-suc :
    (buf : Buffer) (off b : ℕ) (rest : List ℕ) → drop off buf ≡ b ∷ rest → drop (suc off) buf ≡ rest
drop-suc buf off b rest e =
    let next : suc off ≡ off + 1 = omega arith in
    rw next (sym (drop-drop off 1 buf) ∙ ap (drop 1) e)

-- Reading `n` bytes gives those bytes, if they are there.
pub read_bytes-drop :
    (bytes : List ℕ) (buf : Buffer) (off : ℕ) (post : List ℕ)
    → off + length bytes < 2 ^ 32
    → drop off buf ≡ bytes ++ post
    → read_bytes buf off (length bytes) ≡ ok bytes
unfolding read_bytes
read_bytes-drop [] buf off post fits e = refl
read_bytes-drop (b ∷ bytes) buf off post fits e =
    let same : off % 2 ^ 32 ≡ off + 0 = omega arith in
    rw
      (
        same,
        load-drop buf off 0,
        e,
        read_bytes-drop bytes buf (suc off) post (omega arith)
            (drop-suc buf off b (bytes ++ post) e),
      )
      (unfold load in refl)

pub xdr_decode_n_bytes-drop :
    (buf : Buffer) (off max : ℕ) (old bytes post : List ℕ)
    → off + 4 + length bytes < 2 ^ 32
    → length bytes ≤ max
    → drop off buf ≡ be32 (length bytes) ++ bytes ++ post
    → xdr_decode_n_bytes (some buf) old max off
      ≡ ok (some (length bytes), old ++ bytes, off + 4 + length bytes)
unfolding xdr_decode_n_bytes
xdr_decode_n_bytes-drop buf off max old bytes post fits small e = ground (
  arith,
  xdr_decode_u32-drop buf off (length bytes) (bytes ++ post) (omega arith) (omega arith) e,
  read_bytes-drop bytes buf (off + 4) post (omega arith)
      (drop-be32 buf off (length bytes) (bytes ++ post) e),
)

-- xdr_decode_n_bytes refuses a length above the maximum: the result is -1, the vector is kept, and the
-- offset stands behind the length.
pub xdr_decode_n_bytes_refused :
    (buf : Buffer) (off max n : ℕ) (old post : List ℕ)
    → off + 4 < 2 ^ 32
    → n < 2 ^ 32
    → max < n
    → drop off buf ≡ be32 n ++ post
    → xdr_decode_n_bytes (some buf) old max off ≡ ok (none, old, off + 4)
unfolding xdr_decode_n_bytes
xdr_decode_n_bytes_refused buf off max n old post fits small big e =
    ground (arith, xdr_decode_u32-drop buf off n post fits small e)

-- The bytes of a string up to the zero that ends it.
c_string-nonzero : (s post : List ℕ) → All (λ b. b ≢ 0) s → c_string (s ++ 0 ∷ post) ≡ ok s
unfolding c_string
c_string-nonzero [] post h = refl
c_string-nonzero (b ∷ s) post h = ground (arith, c_string-nonzero s post h.1)

advance-drop : (buf : Buffer) (off : ℕ) → off ≤ length buf → advance buf off ≡ ok (drop off buf)
unfolding advance
advance-drop buf zero h = refl
advance-drop [] (suc off) h = absurd (omega arith)
advance-drop (b ∷ bs) (suc off) h = advance-drop bs off (omega arith)

-- The decoder takes the bytes up to the first zero, whatever the length says, and then compares.
pub xdr_decode_string-drop :
    (buf : Buffer) (off max n : ℕ) (old s post : List ℕ)
    → off + 4 + n < 2 ^ 32
    → n < max
    → All (λ b. b ≢ 0) s
    → drop off buf ≡ be32 n ++ s ++ 0 ∷ post
    → xdr_decode_string (some buf) old max off
      ≡ (if length s == n then ok (some n, s, off + 4 + n) else ok (none, s, off + 4))
unfolding xdr_decode_string
xdr_decode_string-drop buf off max n old s post fits small h e = ground (
  arith,
  xdr_decode_u32-drop buf off n (s ++ 0 ∷ post) (omega arith) (omega arith) e,
  advance-drop buf (off + 4),
  drop-be32 buf off n (s ++ 0 ∷ post) e,
  length-drop {0} off buf,
  ap (λ (r : List ℕ). length r) e,
  c_string-nonzero s post h,
)
