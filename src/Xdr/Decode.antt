-- ===== src/Xdr/Decode.antt =====
-- What the decoders of xdr.cpp read, in terms of the bytes from the offset on.
use nfs_client_simulator.Common.{
  ℕ, zero, suc, ◌+◌, ◌*◌, ◌/◌, ◌%◌, ◌^◌, ◌<◌, ◌≡◌, refl, sym, ap, ◌∙◌, List, [], ◌∷◌, ◌++◌, Outcome,
  ok, fault, some, length, drop, arith, bit_or, All, drop-drop, length-drop, ap₂,
}
use nfs_client_simulator.Common.Bits.{or_shifted, zero-or}
use nfs_client_simulator.Xdr.{Buffer, load, shl32, xdr_decode_u32, xdr_decode_u64, add32, load_at}
use nfs_client_simulator.Xdr.Encode.{be32, be64}

pub load-drop : (buf : Buffer) (m i : ℕ) → load buf (m + i) ≡ load (drop m buf) i
unfolding load
load-drop buf zero i = let e : zero + i ≡ i = omega arith in rw e
load-drop [] (suc m) i = refl
load-drop (b ∷ bs) (suc m) i =
    let e : suc m + i ≡ suc (m + i) = omega arith in rw e (load-drop bs m i)

load_at-drop :
    (buf : Buffer) (off i : ℕ) (rest : List ℕ)
    → off + i < 2 ^ 32
    → drop off buf ≡ rest
    → load_at buf off i ≡ load rest i
load_at-drop buf off i rest fits e =
    let same : add32 off i ≡ off + i = omega arith in
    rw same (load-drop buf off i ∙ ap (λ r. load r i) e)

-- The value of four bytes as the decoder puts it together.
or_bytes :
    (b₀ b₁ b₂ b₃ : ℕ)
    → b₀ < 256
    → b₁ < 256
    → b₂ < 256
    → b₃ < 256
    → bit_or (bit_or (bit_or (b₀ * 2 ^ 24) (b₁ * 2 ^ 16)) (b₂ * 2 ^ 8)) b₃
      ≡ b₀ * 2 ^ 24 + b₁ * 2 ^ 16 + b₂ * 2 ^ 8 + b₃
or_bytes b₀ b₁ b₂ b₃ h₀ h₁ h₂ h₃ = ground (
  arith,
  or_shifted 24 b₀ (b₁ * 2 ^ 16),
  or_shifted 16 (b₀ * 2 ^ 8 + b₁) (b₂ * 2 ^ 8),
  or_shifted 8 (b₀ * 2 ^ 16 + b₁ * 2 ^ 8 + b₂) b₃,
)

or_be32 :
    (v : ℕ)
    → v < 2 ^ 32
    → bit_or
        (bit_or
          (bit_or (shl32 (v / 2 ^ 24 % 256) 24) (shl32 (v / 2 ^ 16 % 256) 16))
          (shl32 (v / 2 ^ 8 % 256) 8))
        (v % 256)
      ≡ v
or_be32 v small =
    ground (arith, or_bytes (v / 2 ^ 24 % 256) (v / 2 ^ 16 % 256) (v / 2 ^ 8 % 256) (v % 256))

-- At an offset where the bytes of `v` stand, the decoder reads `v` and moves past it.
pub xdr_decode_u32-drop :
    (buf : Buffer) (off v : ℕ) (post : List ℕ)
    → off + 4 < 2 ^ 32
    → v < 2 ^ 32
    → drop off buf ≡ be32 v ++ post
    → xdr_decode_u32 (some buf) off ≡ ok (v, off + 4)
unfolding xdr_decode_u32 load
xdr_decode_u32-drop buf off v post fits small e =
    rw
      (
        load_at-drop buf off 0 _ (omega arith) e,
        load_at-drop buf off 1 _ (omega arith) e,
        load_at-drop buf off 2 _ (omega arith) e,
        load_at-drop buf off 3 _ (omega arith) e,
        or_be32 v small,
      )
      (ap {B = Outcome (ℕ × ℕ)} (λ (n : ℕ). ok (v, n)) (omega arith))

-- Behind the number stand the bytes that follow it.
pub drop-be32 :
    (buf : Buffer) (off v : ℕ) (post : List ℕ)
    → drop off buf ≡ be32 v ++ post
    → drop (off + 4) buf ≡ post
drop-be32 buf off v post e = sym (drop-drop off 4 buf) ∙ ap (drop 4) e

short_rest :
    (buf : Buffer) (off : ℕ) (rest : List ℕ)
    → off + 4 < 2 ^ 32
    → drop off buf ≡ rest
    → length rest < 4
    → xdr_decode_u32 (some buf) off ≡ fault
unfolding xdr_decode_u32 load
short_rest buf off [] fits e h = rw (load_at-drop buf off 0 _ (omega arith) e)
short_rest buf off (a ∷ []) fits e h =
    rw (load_at-drop buf off 0 _ (omega arith) e, load_at-drop buf off 1 _ (omega arith) e)
short_rest buf off (a ∷ b ∷ []) fits e h = rw (
  load_at-drop buf off 0 _ (omega arith) e,
  load_at-drop buf off 1 _ (omega arith) e,
  load_at-drop buf off 2 _ (omega arith) e,
)
short_rest buf off (a ∷ b ∷ c ∷ []) fits e h = rw (
  load_at-drop buf off 0 _ (omega arith) e,
  load_at-drop buf off 1 _ (omega arith) e,
  load_at-drop buf off 2 _ (omega arith) e,
  load_at-drop buf off 3 _ (omega arith) e,
)
short_rest buf off (a ∷ b ∷ c ∷ d ∷ rest) fits e h = absurd (omega arith)

-- Where fewer than four bytes are left from the offset on, xdr_decode_u32 reads outside the array.
pub xdr_decode_u32_short :
    (buf : Buffer) (off : ℕ)
    → off + 4 < 2 ^ 32
    → length buf < off + 4
    → xdr_decode_u32 (some buf) off ≡ fault
xdr_decode_u32_short buf off fits short =
    short_rest buf off _ fits refl (omega (arith, length-drop {0} off buf))

-- The 32-bit accumulator loses the upper four bytes.
or_be64 :
    (b₀ b₁ b₂ b₃ b₄ b₅ b₆ b₇ : ℕ)
    → All (λ b. b < 256) (b₄ ∷ b₅ ∷ b₆ ∷ b₇ ∷ [])
    → bit_or
          (bit_or
              (bit_or
                  (bit_or
                      (bit_or
                          (bit_or
                              (bit_or (b₀ * 2 ^ 56 % 2 ^ 32) (b₁ * 2 ^ 48) % 2 ^ 32)
                              (b₂ * 2 ^ 40)
                            % 2 ^ 32)
                          (b₃ * 2 ^ 32)
                        % 2 ^ 32)
                      (b₄ * 2 ^ 24)
                    % 2 ^ 32)
                  (b₅ * 2 ^ 16)
                % 2 ^ 32)
              (b₆ * 2 ^ 8)
            % 2 ^ 32)
          b₇
        % 2 ^ 32
      ≡ b₄ * 2 ^ 24 + b₅ * 2 ^ 16 + b₆ * 2 ^ 8 + b₇
or_be64 b₀ b₁ b₂ b₃ b₄ b₅ b₆ b₇ h =
    let e₀ : b₀ * 2 ^ 56 % 2 ^ 32 ≡ 0 = omega arith in
    let e₁ : b₁ * 2 ^ 48 % 2 ^ 32 ≡ 0 = omega arith in
    let e₂ : b₂ * 2 ^ 40 % 2 ^ 32 ≡ 0 = omega arith in
    let e₃ : b₃ * 2 ^ 32 % 2 ^ 32 ≡ 0 = omega arith in
    let e₄ : b₄ * 2 ^ 24 % 2 ^ 32 ≡ b₄ * 2 ^ 24 = omega arith in
    rw
      (
        e₀,
        zero-or (b₁ * 2 ^ 48),
        e₁,
        zero-or (b₂ * 2 ^ 40),
        e₂,
        zero-or (b₃ * 2 ^ 32),
        e₃,
        zero-or (b₄ * 2 ^ 24),
        e₄,
      )
      (ground (
        arith,
        or_shifted 24 b₄ (b₅ * 2 ^ 16),
        or_shifted 16 (b₄ * 2 ^ 8 + b₅) (b₆ * 2 ^ 8),
        or_shifted 8 (b₄ * 2 ^ 16 + b₅ * 2 ^ 8 + b₆) b₇,
      ))

pub xdr_decode_u64-drop :
    (buf : Buffer) (off v : ℕ) (post : List ℕ)
    → off + 8 < 2 ^ 32
    → v < 2 ^ 64
    → drop off buf ≡ be64 v ++ post
    → xdr_decode_u64 (some buf) off ≡ ok (v % 2 ^ 32, off + 8)
unfolding xdr_decode_u64 load
xdr_decode_u64-drop buf off v post fits small e =
    rw
      (
        load_at-drop buf off 0 _ (omega arith) e,
        load_at-drop buf off 1 _ (omega arith) e,
        load_at-drop buf off 2 _ (omega arith) e,
        load_at-drop buf off 3 _ (omega arith) e,
        load_at-drop buf off 4 _ (omega arith) e,
        load_at-drop buf off 5 _ (omega arith) e,
        load_at-drop buf off 6 _ (omega arith) e,
        load_at-drop buf off 7 _ (omega arith) e,
        or_be64 (v / 2 ^ 32 / 2 ^ 24 % 256) (v / 2 ^ 32 / 2 ^ 16 % 256) (v / 2 ^ 32 / 2 ^ 8 % 256)
            (v / 2 ^ 32 % 256) (v / 2 ^ 24 % 256) (v / 2 ^ 16 % 256) (v / 2 ^ 8 % 256) (v % 256)
            (omega arith),
      )
      (ap₂ {C = Outcome (ℕ × ℕ)} (λ (m n : ℕ). ok (m, n)) (omega arith) (omega arith))
