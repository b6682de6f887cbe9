-- ===== src/Server/Dirop.antt =====
-- What a server reads of the arguments of a lookup.
use nfs_client_simulator.Common.{
  ℕ, ◌+◌, ◌%◌, ◌≤◌, ◌<◌, ◌≡◌, refl, List, [], ◌∷◌, ◌++◌, none, some, false, arith, length, drop,
  le→leb, lt→leb_false, take-append, drop-append, drop-drop, ◌==◌, if◌then◌else◌, inl, inr,
  Bool-cases, length-append,
}
use nfs_client_simulator.Xdr.Encode.{be32, padding}
use nfs_client_simulator.Rpc.Call.{padding_mod}
use nfs_client_simulator.Inode.Lookup.{dirop}
use nfs_client_simulator.Server.{read_word, read_opaque, fill, read_dirop}
use nfs_client_simulator.Server.Words.{read_word-be32, read_opaque-last}

read_opaque-long :
    (max n : ℕ) (bytes rest : List ℕ)
    → read_word bytes ≡ some (n, rest)
    → max < n
    → read_opaque max bytes ≡ none
unfolding read_opaque
read_opaque-long max n bytes rest e h = rw (e, lt→leb_false n max h) refl

read_opaque-short :
    (max : ℕ) (bytes : List ℕ) → read_word bytes ≡ none → read_opaque max bytes ≡ none
unfolding read_opaque
read_opaque-short max bytes e = rw e refl

-- From the second byte of a length on, from its third, and from its fourth, a server reads no name: the length
-- of the name, which is not 0, stands too far in front.
module _ (n : ℕ) (some_name : 0 < n) (short : n ≤ 255) where
  no_name₁ : (rest : List ℕ) → read_opaque 255 (drop 1 (be32 n ++ rest)) ≡ none
  unfolding read_word
  no_name₁ [] = read_opaque-short 255 _ refl
  no_name₁ (a ∷ rest) = read_opaque-long 255 _ _ rest refl (omega arith)

  no_name₂ : (rest : List ℕ) → read_opaque 255 (drop 2 (be32 n ++ rest)) ≡ none
  unfolding read_word
  no_name₂ [] = read_opaque-short 255 _ refl
  no_name₂ (a ∷ []) = read_opaque-short 255 _ refl
  no_name₂ (a ∷ b ∷ rest) = read_opaque-long 255 _ _ rest refl (omega arith)

  no_name₃ : (rest : List ℕ) → read_opaque 255 (drop 3 (be32 n ++ rest)) ≡ none
  unfolding read_word
  no_name₃ [] = read_opaque-short 255 _ refl
  no_name₃ (a ∷ []) = read_opaque-short 255 _ refl
  no_name₃ (a ∷ b ∷ []) = read_opaque-short 255 _ refl
  no_name₃ (a ∷ b ∷ c ∷ rest) = read_opaque-long 255 _ _ rest refl (omega arith)

  no_name :
      (m : ℕ) (rest : List ℕ)
      → (m % 4 == 0) ≡ false
      → read_opaque 255 (drop (fill m) (be32 n ++ rest)) ≡ none
  no_name m rest e = elim (Bool-cases (m % 4 == 1)) [
    | inl one ↦ let filled : fill m ≡ 3 = ground arith in rw filled (no_name₃ rest)
    | inr not_one ↦ elim (Bool-cases (m % 4 == 2)) [
      | inl two ↦ let filled : fill m ≡ 2 = ground arith in rw filled (no_name₂ rest)
      | inr not_two ↦ let filled : fill m ≡ 1 = ground arith in rw filled (no_name₁ rest)
    ]
  ]

-- The handle is read, and what fills it up is passed over.
handle_read :
    (handle rest : List ℕ)
    → length handle ≤ 64
    → fill (length handle) ≤ length rest
    → read_opaque 64 (be32 (length handle) ++ (handle ++ rest))
      ≡ some (handle, drop (fill (length handle)) rest)
unfolding read_opaque
handle_read handle rest small room =
    rw
      (
        read_opaque,
        read_word-be32 (length handle) (handle ++ rest) (omega arith),
        le→leb (length handle) 64 small,
        le→leb (length handle + fill (length handle)) (length (handle ++ rest))
            (omega (arith, length-append handle rest)),
        take-append handle rest,
        ← drop-drop (length handle) (fill (length handle)) (handle ++ rest),
        drop-append handle rest,
      )
      refl

-- The arguments of a lookup, for a handle of at most 64 bytes and a name of 1 to 255: a server reads them back if the
-- length of the handle is a multiple of four, and refuses them if it is not, because nothing fills the handle up.
pub read_dirop-dirop :
    (handle child : List ℕ)
    → length handle ≤ 64
    → 0 < length child
    → length child ≤ 255
    → read_dirop (dirop handle child)
      ≡ (if length handle % 4 == 0 then some (handle, child) else none)
unfolding read_dirop
read_dirop-dirop handle child small some_name short = elim (Bool-cases (length handle % 4 == 0)) [
  | inl whole ↦
      let filled : fill (length handle) ≡ 0 = ground arith in
      let pad : padding (length handle + length child) 4 ≡ padding (length child) 4 =
        padding_mod (length handle + length child) (length child) (ground arith) in
      rw
        (
          whole,
          read_dirop,
          handle_read handle rest small (omega arith),
          filled,
          pad,
          read_opaque-last 255 child short (omega arith),
        )
        refl
  | inr odd ↦
      rw
        (
          odd,
          read_dirop,
          handle_read handle rest small (omega arith),
          no_name (length child) some_name short (length handle) _ odd,
        )
        refl
]
  where
    rest : List ℕ
    rest = be32 (length child) ++ (child ++ padding (length handle + length child) 4)
