-- ===== src/Xdr.antt =====
-- xdr.cpp: the encoders and decoders of XDR items in a byte buffer.
-- A `uchar_t*` is the list of the bytes from where it points to the end of its array, `none` for
-- nullptr. An access outside the list is a `fault`. Bytes are numbers below 256.
pub mod Encode
pub mod Decode
pub mod Sequences
pub mod Integer
pub mod Emit
pub mod RoundTrip
use nfs_client_simulator.Common.{
  ℕ, zero, suc, ◌+◌, ◌-◌, ◌*◌, ◌/◌, ◌%◌, ◌^◌, bit_and, bit_or, true, false, Option, none, some,
  List, [], ◌∷◌, ◌++◌, Outcome, ok, aborted, fault, ◌>>=◌, ltb, leb, ◌==◌, if◌then◌else◌, length,
  take, replicate,
}

abbrev pub Buffer : Type 0
Buffer = List ℕ

abbrev pub Pointer : Type 0
Pointer = Option Buffer

-- `dst[i] = v`
unfoldable pub store : Buffer → ℕ → ℕ → Outcome Buffer
store [] i v = fault
store (b ∷ bs) zero v = ok (v ∷ bs)
store (b ∷ bs) (suc i) v = do bs' ← store bs i v; ok (b ∷ bs')

-- `src[i]`
unfoldable pub load : Buffer → ℕ → Outcome ℕ
load [] i = fault
load (b ∷ bs) zero = ok b
load (b ∷ bs) (suc i) = load bs i

-- A call of `f` on `&buf[i]`. Past the end of the array there is no such pointer.
unfoldable pub at {ℓ} :
    {A : Type ℓ} → Buffer → ℕ → (Buffer → Outcome (A × Buffer)) → Outcome (A × Buffer)
at buf zero f = f buf
at [] (suc i) f = fault
at (b ∷ bs) (suc i) f = do (a, bs') ← at bs i f; ok (a, b ∷ bs')

-- memcpy, and the loops that copy bytes one by one: every byte is stored in turn.
unfoldable pub copy : Buffer → List ℕ → Outcome Buffer
copy dst [] = ok dst
copy [] (v ∷ vs) = fault
copy (b ∷ bs) (v ∷ vs) = do bs' ← copy bs vs; ok (v ∷ bs')

unfoldable pub memcpy : Buffer → List ℕ → Outcome (Unit {0} × Buffer)
memcpy dst bytes = do dst' ← copy dst bytes; ok (tt, dst')

-- uint32_t addition.
abbrev pub add32 : ℕ → ℕ → ℕ
add32 a b = (a + b) % 2 ^ 32

unfoldable pub xdr_encode_u32 : Buffer → ℕ → Outcome (ℕ × Buffer)
unfolding store
xdr_encode_u32 dst u32 = do
  dst₁ ← store dst 3 (u32 % 256)
  let u32₁ = u32 / 2 ^ 8
  dst₂ ← store dst₁ 2 (u32₁ % 256)
  let u32₂ = u32₁ / 2 ^ 8
  dst₃ ← store dst₂ 1 (u32₂ % 256)
  let u32₃ = u32₂ / 2 ^ 8
  dst₄ ← store dst₃ 0 (u32₃ % 256)
  ok (4, dst₄)

unfoldable pub xdr_encode_u64 : Buffer → ℕ → Outcome (ℕ × Buffer)
unfolding store
xdr_encode_u64 dst u64 = do
  dst₁ ← store dst 7 (u64 % 256)
  let u64₁ = u64 / 2 ^ 8
  dst₂ ← store dst₁ 6 (u64₁ % 256)
  let u64₂ = u64₁ / 2 ^ 8
  dst₃ ← store dst₂ 5 (u64₂ % 256)
  let u64₃ = u64₂ / 2 ^ 8
  dst₄ ← store dst₃ 4 (u64₃ % 256)
  let u64₄ = u64₃ / 2 ^ 8
  dst₅ ← store dst₄ 3 (u64₄ % 256)
  let u64₅ = u64₄ / 2 ^ 8
  dst₆ ← store dst₅ 2 (u64₅ % 256)
  let u64₆ = u64₅ / 2 ^ 8
  dst₇ ← store dst₆ 1 (u64₆ % 256)
  let u64₇ = u64₆ / 2 ^ 8
  dst₈ ← store dst₇ 0 (u64₇ % 256)
  ok (8, dst₈)

-- `strLen` is the length as a uint32_t, and the result, an int32_t, is added to unsigned sizes.
unfoldable pub xdr_encode_string : Buffer → List ℕ → Outcome (ℕ × Buffer)
xdr_encode_string dst str = do
  let str_len = length str % 2 ^ 32
  (_, dst₁) ← xdr_encode_u32 dst str_len
  (_, dst₂) ← at dst₁ 4 (λ p. memcpy p (take str_len str))
  ok (add32 str_len 4, dst₂)

-- The modulus is 0 if `alignSize` is, and then the division is undefined.
unfoldable pub xdr_encode_align : Buffer → ℕ → ℕ → Outcome (ℕ × Buffer)
xdr_encode_align dst current_size zero = fault
xdr_encode_align dst current_size (suc n) =
    let padding = current_size % suc n in
    if padding == 0 then ok (padding, dst) else (do
      let padding' = suc n - padding
      dst' ← copy dst (replicate padding' 0)
      ok (padding', dst'))

unfoldable pub xdr_encode_last_fragment : Buffer → Outcome Buffer
xdr_encode_last_fragment dst = do b ← load dst 0; store dst 0 (bit_or b (2 ^ 7))

unfoldable pub xdr_strip_last_fragment : Buffer → Outcome Buffer
xdr_strip_last_fragment dst = do b ← load dst 0; store dst 0 (bit_and b 0xffff_ff7f % 256)

unfoldable pub xdr_encode_n_bytes : Buffer → List ℕ → Outcome (ℕ × Buffer)
xdr_encode_n_bytes src bytes = do
  (offset, src₁) ← xdr_encode_u32 src (length bytes % 2 ^ 32)
  (_, src₂) ← at src₁ offset (λ p. memcpy p bytes)
  ok (add32 offset (length bytes), src₂)

-- DASSERT(src)
unfoldable pub not_null : Pointer → Outcome Buffer
not_null none = aborted
not_null (some src) = ok src

-- `src[offset + i]`, the index a uint32_t.
abbrev pub load_at : Buffer → ℕ → ℕ → Outcome ℕ
load_at src offset i = load src (add32 offset i)

-- `(uint32_t)b << k`
abbrev pub shl32 : ℕ → ℕ → ℕ
shl32 b k = b * 2 ^ k % 2 ^ 32

-- Reference parameters are results: the value and the new offset.
unfoldable pub xdr_decode_u32 : Pointer → ℕ → Outcome (ℕ × ℕ)
unfolding not_null
xdr_decode_u32 p offset = do
  src ← not_null p
  b₀ ← load_at src offset 0
  b₁ ← load_at src offset 1
  b₂ ← load_at src offset 2
  b₃ ← load_at src offset 3
  let u32₁ = shl32 b₀ 24
  let u32₂ = bit_or u32₁ (shl32 b₁ 16)
  let u32₃ = bit_or u32₂ (shl32 b₂ 8)
  let u32₄ = bit_or u32₃ b₃
  ok (u32₄, add32 offset 4)

-- `u64` is declared a uint32_t, so that each assignment keeps 32 bits.
unfoldable pub xdr_decode_u64 : Pointer → ℕ → Outcome (ℕ × ℕ)
unfolding not_null
xdr_decode_u64 p offset = do
  src ← not_null p
  b₀ ← load_at src offset 0
  b₁ ← load_at src offset 1
  b₂ ← load_at src offset 2
  b₃ ← load_at src offset 3
  b₄ ← load_at src offset 4
  b₅ ← load_at src offset 5
  b₆ ← load_at src offset 6
  b₇ ← load_at src offset 7
  let u₁ = b₀ * 2 ^ 56 % 2 ^ 32
  let u₂ = bit_or u₁ (b₁ * 2 ^ 48) % 2 ^ 32
  let u₃ = bit_or u₂ (b₂ * 2 ^ 40) % 2 ^ 32
  let u₄ = bit_or u₃ (b₃ * 2 ^ 32) % 2 ^ 32
  let u₅ = bit_or u₄ (b₄ * 2 ^ 24) % 2 ^ 32
  let u₆ = bit_or u₅ (b₅ * 2 ^ 16) % 2 ^ 32
  let u₇ = bit_or u₆ (b₆ * 2 ^ 8) % 2 ^ 32
  let u₈ = bit_or u₇ b₇ % 2 ^ 32
  ok (u₈, add32 offset 8)

-- std::string(const char*): the bytes up to the first zero.
unfoldable pub c_string : Buffer → Outcome (List ℕ)
c_string [] = fault
c_string (b ∷ bs) = elim (b == 0) [ true ↦ ok [] | false ↦ do s ← c_string bs; ok (b ∷ s) ]

-- The pointer `&src[offset]`.
unfoldable pub advance : Buffer → ℕ → Outcome Buffer
advance src zero = ok src
advance [] (suc i) = fault
advance (b ∷ bs) (suc i) = advance bs i

-- The result of a decoder of sequences: `some n` for n bytes read, `none` for -1. Beside it the
-- value of the reference parameter and the new offset.
unfoldable pub xdr_decode_string : Pointer → List ℕ → ℕ → ℕ → Outcome (Option ℕ × List ℕ × ℕ)
unfolding not_null
xdr_decode_string p str max_str_length offset = do
  (str_len, offset₁) ← xdr_decode_u32 p offset
  if ltb str_len max_str_length
      then (do
        src ← not_null p
        here ← advance src offset₁
        str' ← c_string here
        if length str' == str_len
            then ok (some str_len, str', add32 offset₁ str_len)
            else ok (none, str', offset₁))
      else ok (none, str, offset₁)

-- `for (i = 0; i < n; ++i) bytes.push_back(src[offset+i]);`
unfoldable pub read_bytes : Buffer → ℕ → ℕ → Outcome (List ℕ)
read_bytes src offset zero = ok []
read_bytes src offset (suc n) = do
  b ← load src (offset % 2 ^ 32)
  rest ← read_bytes src (suc offset) n
  ok (b ∷ rest)

unfoldable pub xdr_decode_n_bytes : Pointer → List ℕ → ℕ → ℕ → Outcome (Option ℕ × List ℕ × ℕ)
unfolding not_null
xdr_decode_n_bytes p bytes max_bytes offset = do
  (byte_len, offset₁) ← xdr_decode_u32 p offset
  if leb byte_len max_bytes
      then (do
        src ← not_null p
        read ← read_bytes src offset₁ byte_len
        ok (some byte_len, bytes ++ read, add32 offset₁ byte_len))
      else ok (none, bytes, offset₁)

-- `size += f(&wire[size], …)`: the size so far and the array.
unfoldable pub emit : (Buffer → Outcome (ℕ × Buffer)) → ℕ × Buffer → Outcome (ℕ × Buffer)
emit f (size, wire) = do (n, wire') ← at wire size f; ok (add32 size n, wire')
