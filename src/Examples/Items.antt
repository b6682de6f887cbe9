-- ===== src/Examples/Items.antt =====
-- XDR items in small buffers.
use nfs_client_simulator.Common.{ℕ, ◌+◌, ◌^◌, ◌≡◌, refl, List, [], ◌∷◌, ok, some, arith}
use nfs_client_simulator.Xdr.{
  at, xdr_encode_u32, xdr_encode_u64, xdr_encode_string, xdr_encode_n_bytes, xdr_decode_u64,
  xdr_decode_string, xdr_decode_n_bytes, memcpy, copy,
}
use nfs_client_simulator.Xdr.RoundTrip.{
  xdr_decode_u64-encode_u64, xdr_decode_n_bytes-encode_n_bytes, xdr_decode_string-encode_string,
}

abbrev zeros : List ℕ
zeros = 0 ∷ 0 ∷ 0 ∷ 0 ∷ 0 ∷ 0 ∷ 0 ∷ 0 ∷ 0 ∷ 0 ∷ []

abbrev name : List ℕ
name = b'a' ∷ b'b' ∷ []

-- 2 ^ 32 + 258 comes back as 258.
xdr_decode_u64-encode_u64_example :
    xdr_decode_u64 (some (0 ∷ 0 ∷ 0 ∷ 0 ∷ 1 ∷ 0 ∷ 0 ∷ 1 ∷ 2 ∷ 0 ∷ [])) 1 ≡ ok (258, 9)
unfolding at xdr_encode_u64
xdr_decode_u64-encode_u64_example =
    xdr_decode_u64-encode_u64 zeros 1 (2 ^ 32 + 258) (omega arith) (omega arith) refl

xdr_decode_n_bytes-encode_n_bytes_example :
    xdr_decode_n_bytes (some (0 ∷ 0 ∷ 0 ∷ 0 ∷ 2 ∷ b'a' ∷ b'b' ∷ 0 ∷ 0 ∷ 0 ∷ [])) (9 ∷ []) 64 1
    ≡ ok (some 2, 9 ∷ b'a' ∷ b'b' ∷ [], 7)
unfolding at xdr_encode_n_bytes xdr_encode_u32 memcpy copy
xdr_decode_n_bytes-encode_n_bytes_example =
    xdr_decode_n_bytes-encode_n_bytes zeros 1 (9 ∷ []) name 64 (omega arith) (omega arith) refl

xdr_decode_string-encode_string_example :
    xdr_decode_string (some (0 ∷ 0 ∷ 0 ∷ 0 ∷ 2 ∷ b'a' ∷ b'b' ∷ 0 ∷ 0 ∷ 0 ∷ [])) [] 64 1
    ≡ ok (some 2, name, 7)
unfolding at xdr_encode_string xdr_encode_u32 memcpy copy
xdr_decode_string-encode_string_example =
    xdr_decode_string-encode_string zeros 1 [] name [] (0 ∷ 0 ∷ []) 64 (omega arith) (omega arith)
      ((λ e. cc), ((λ e. cc), tt)) refl refl
