-- ===== src/Server/Words.antt =====
-- A server reads the items that the clients write.
use nfs_client_simulator.Common.{
  subst, ℕ, ◌+◌, ◌-◌, ◌%◌, ◌^◌, ◌≤◌, ◌<◌, ◌≡◌, refl, ap, List, [], ◌++◌, some, arith, length, drop,
  le→leb, append-nil, take-append, drop-append, drop-drop, length-append, length-replicate, ◌==◌,
  Bool-cases, inl, inr,
}
use nfs_client_simulator.Xdr.Encode.{be32, padding}
use nfs_client_simulator.Server.{read_word, fill, read_opaque}

pub read_word-be32 :
    (v : ℕ) (rest : List ℕ) → v < 2 ^ 32 → read_word (be32 v ++ rest) ≡ some (v, rest)
unfolding read_word
read_word-be32 v rest small = ap (λ (n : ℕ). some (n, rest)) (omega arith)

length-padding : (n : ℕ) → length (padding n 4) ≡ fill n
length-padding n = elim (Bool-cases (n % 4 == 0)) [
  | inl e ↦ ground arith
  | inr e ↦ rw e (ground (arith, length-replicate {A = ℕ} (4 - n % 4) 0))
]

-- Bytes behind their length and in front of what fills them up.
pub read_opaque-be32 :
    (max : ℕ) (bytes rest : List ℕ)
    → length bytes ≤ max
    → max < 2 ^ 32
    → read_opaque max (be32 (length bytes) ++ (bytes ++ (padding (length bytes) 4 ++ rest)))
      ≡ some (bytes, rest)
unfolding read_opaque
read_opaque-be32 max bytes rest short small =
    rw
      (
        read_opaque,
        read_word-be32 (length bytes) (bytes ++ (pad ++ rest)) (omega arith),
        le→leb (length bytes) max short,
        le→leb (length bytes + fill (length bytes)) (length (bytes ++ (pad ++ rest))) room,
        take-append bytes (pad ++ rest),
        dropped,
      )
      refl
  where
    pad : List ℕ
    pad = padding (length bytes) 4

    room : length bytes + fill (length bytes) ≤ length (bytes ++ (pad ++ rest))
    room = omega (
      arith,
      length-padding (length bytes),
      length-append bytes (pad ++ rest),
      length-append pad rest,
    )

    dropped : drop (length bytes + fill (length bytes)) (bytes ++ (pad ++ rest)) ≡ rest
    dropped = rw (
      ← length-padding (length bytes),
      ← drop-drop (length bytes) (length pad) (bytes ++ (pad ++ rest)),
      drop-append bytes (pad ++ rest),
      drop-append pad rest,
    )

-- Bytes whose number is a multiple of four need no filling up.
pub read_opaque-aligned :
    (max : ℕ) (bytes rest : List ℕ)
    → length bytes ≤ max
    → max < 2 ^ 32
    → length bytes % 4 ≡ 0
    → read_opaque max (be32 (length bytes) ++ (bytes ++ rest)) ≡ some (bytes, rest)
read_opaque-aligned max bytes rest short small aligned =
    let none_needed : padding (length bytes) 4 ≡ [] = rw aligned refl in
    subst
      (λ (pad : List ℕ).
        read_opaque max (be32 (length bytes) ++ (bytes ++ (pad ++ rest))) ≡ some (bytes, rest))
      none_needed (read_opaque-be32 max bytes rest short small)

-- Bytes that are filled up, at the end.
pub read_opaque-last :
    (max : ℕ) (bytes : List ℕ)
    → length bytes ≤ max
    → max < 2 ^ 32
    → read_opaque max (be32 (length bytes) ++ (bytes ++ padding (length bytes) 4))
      ≡ some (bytes, [])
read_opaque-last max bytes short small =
    subst
      (λ (pad : List ℕ). read_opaque max (be32 (length bytes) ++ (bytes ++ pad)) ≡ some (bytes, []))
      (append-nil (padding (length bytes) 4)) (read_opaque-be32 max bytes [] short small)
