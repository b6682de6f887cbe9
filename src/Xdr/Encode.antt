-- ===== src/Xdr/Encode.antt =====
-- What the encoders of xdr.cpp write: one equation for each that covers a buffer of any length.
use nfs_client_simulator.Common.{
  ℕ, zero, suc, ◌+◌, ◌-◌, ◌*◌, ◌/◌, ◌%◌, ◌^◌, ◌<◌, ◌≡◌, refl, List, [], ◌∷◌, ◌++◌, Outcome, ok,
  fault, ◌>>=◌, leb, ◌==◌, if◌then◌else◌, length, drop, replicate, length-replicate, take-le, arith,
  Bool-cases, inl, inr,
}
use native.Mathlib.Nat.{mul-mod_left, div-add-mod', mod-lt}
use nfs_client_simulator.Xdr.{
  Buffer, at, copy, memcpy, xdr_encode_u32, xdr_encode_u64, xdr_encode_string, xdr_encode_align,
  xdr_encode_n_bytes,
}

-- The four bytes of a 32-bit number and the eight of a 64-bit one, the highest first.
abbrev pub be32 : ℕ → List ℕ
be32 v = v / 2 ^ 24 % 256 ∷ v / 2 ^ 16 % 256 ∷ v / 2 ^ 8 % 256 ∷ v % 256 ∷ []

abbrev pub be64 : ℕ → List ℕ
be64 v = be32 (v / 2 ^ 32) ++ be32 v

-- `bytes` over the front of `buf`: what an operation leaves that writes just these.
abbrev pub Written : Buffer → List ℕ → Outcome (ℕ × Buffer)
Written buf bytes =
    if leb (length bytes) (length buf)
    then ok (length bytes, bytes ++ drop (length bytes) buf)
    else fault

pub xdr_encode_u32-Written : (buf : Buffer) (v : ℕ) → xdr_encode_u32 buf v ≡ Written buf (be32 v)
unfolding xdr_encode_u32
xdr_encode_u32-Written [] v = refl
xdr_encode_u32-Written (a ∷ []) v = refl
xdr_encode_u32-Written (a ∷ b ∷ []) v = refl
xdr_encode_u32-Written (a ∷ b ∷ c ∷ []) v = refl
xdr_encode_u32-Written (a ∷ b ∷ c ∷ d ∷ buf) v = ground arith

pub xdr_encode_u64-Written : (buf : Buffer) (v : ℕ) → xdr_encode_u64 buf v ≡ Written buf (be64 v)
unfolding xdr_encode_u64
xdr_encode_u64-Written [] v = refl
xdr_encode_u64-Written (a ∷ []) v = refl
xdr_encode_u64-Written (a ∷ b ∷ []) v = refl
xdr_encode_u64-Written (a ∷ b ∷ c ∷ []) v = refl
xdr_encode_u64-Written (a ∷ b ∷ c ∷ d ∷ []) v = refl
xdr_encode_u64-Written (a ∷ b ∷ c ∷ d ∷ e ∷ []) v = refl
xdr_encode_u64-Written (a ∷ b ∷ c ∷ d ∷ e ∷ f ∷ []) v = refl
xdr_encode_u64-Written (a ∷ b ∷ c ∷ d ∷ e ∷ f ∷ g ∷ []) v = refl
xdr_encode_u64-Written (a ∷ b ∷ c ∷ d ∷ e ∷ f ∷ g ∷ h ∷ buf) v = ground arith

-- A copy succeeds exactly if the bytes fit.
pub copy_lem :
    (buf : Buffer) (bytes : List ℕ)
    → copy buf bytes
      ≡ (if leb (length bytes) (length buf) then ok (bytes ++ drop (length bytes) buf) else fault)
unfolding copy
copy_lem buf [] = ground arith
copy_lem [] (v ∷ vs) = ground arith
copy_lem (b ∷ bs) (v ∷ vs) = ground (arith, copy_lem bs vs)

-- A number, and bytes copied behind it.
abbrev number_then : Buffer → ℕ → ℕ → List ℕ → Outcome (ℕ × Buffer)
number_then buf n r bytes = do
  (_, dst₁) ← xdr_encode_u32 buf n
  (_, dst₂) ← at dst₁ 4 (λ p. memcpy p bytes)
  ok (r, dst₂)

number_then_bytes :
    (buf : Buffer) (n r : ℕ) (bytes : List ℕ)
    → number_then buf n r bytes ≡ (
        if leb (length bytes + 4) (length buf)
        then ok (r, be32 n ++ bytes ++ drop (length bytes + 4) buf)
        else fault)
unfolding xdr_encode_u32 memcpy at
number_then_bytes [] n r bytes = ground arith
number_then_bytes (a ∷ []) n r bytes = ground arith
number_then_bytes (a ∷ b ∷ []) n r bytes = ground arith
number_then_bytes (a ∷ b ∷ c ∷ []) n r bytes = ground arith
number_then_bytes (a ∷ b ∷ c ∷ d ∷ buf) n r bytes = ground (arith, copy_lem buf bytes)

pub xdr_encode_string-Written :
    (buf : Buffer) (str : List ℕ)
    → length str + 4 < 2 ^ 32
    → xdr_encode_string buf str ≡ Written buf (be32 (length str) ++ str)
unfolding xdr_encode_string
xdr_encode_string-Written buf str h = ground (
  arith,
  take-le {0} (length str % 2 ^ 32) str,
  number_then_bytes buf (length str) (length str + 4) str,
)

pub xdr_encode_n_bytes-Written :
    (buf : Buffer) (bytes : List ℕ)
    → length bytes + 4 < 2 ^ 32
    → xdr_encode_n_bytes buf bytes ≡ Written buf (be32 (length bytes) ++ bytes)
unfolding xdr_encode_n_bytes
xdr_encode_n_bytes-Written buf bytes h = ground (
  arith,
  xdr_encode_u32-Written buf (length bytes),
  number_then_bytes buf (length bytes) (length bytes + 4) bytes,
)

-- The zeros that fill `n` bytes up to a multiple of `k`.
abbrev pub padding : ℕ → ℕ → List ℕ
padding n k = if n % k == 0 then [] else replicate (k - n % k) 0

-- xdr_encode_align writes exactly the zeros that fill `n` bytes up to a multiple of `k`, which is not 0,
-- and faults exactly if they do not fit the array.
pub xdr_encode_align-Written :
    (buf : Buffer) (n k : ℕ) → 0 < k → xdr_encode_align buf n k ≡ Written buf (padding n k)
unfolding xdr_encode_align
xdr_encode_align-Written buf n zero h = absurd (omega arith)
xdr_encode_align-Written buf n (suc k) h = ground (
  arith,
  length-replicate {0} {A = ℕ} (suc k - n % suc k) 0,
  copy_lem buf (replicate (suc k - n % suc k) 0),
)

round_up : (n k : ℕ) → 0 < k → (n + (k - n % k)) % k ≡ 0
round_up n k h = rw e (mul-mod_left (n / k + 1) k)
  where
    e : n + (k - n % k) ≡ (n / k + 1) * k
    e = omega (arith, div-add-mod' n k, mod-lt n {m = k})

pub length-padding : (n k : ℕ) → length (padding n k) ≡ (if n % k == 0 then 0 else k - n % k)
length-padding n k = ground (arith, length-replicate {0} {A = ℕ} (k - n % k) 0)

-- The alignment makes the size a multiple of `k`, and adds fewer than `k` bytes.
pub padding-aligns :
    (n k : ℕ) → 0 < k → ((n + length (padding n k)) % k ≡ 0) × (length (padding n k) < k)
padding-aligns n k h = rw (length-padding n k) (elim (Bool-cases (n % k == 0)) [
  | inl e ↦ rw e (ground arith, h)
  | inr e ↦ rw e (round_up n k h, ground (arith, mod-lt n {m = k}))
])
