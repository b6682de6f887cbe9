-- ===== src/Xdr/Integer.antt =====
-- getInteger of xdr.cpp, for an integer type of so many bytes. Its loop reads the same byte in every round,
-- and is a recursion on fuel.
pub mod Ends
use nfs_client_simulator.Common.{
  ℕ, zero, suc, ◌+◌, ◌-◌, ◌*◌, ◌%◌, ◌^◌, ◌≤◌, ◌<◌, ◌≡◌, ◌≢◌, refl, List, [], ◌∷◌, Bool, true, false,
  ◌||◌, Option, none, some, Outcome, ok, aborted, fault, ltb, ◌==◌, if◌then◌else◌, arith,
  Bool-cases, inl, inr,
}
use nfs_client_simulator.Common.Int.{ℤ, pos, negsuc}

-- The digit appended to a number of 64 bits.
unfoldable pub append_digit : ℕ → ℕ → ℕ
append_digit c ret_value = (ret_value * 10 % 2 ^ 64 + (c - b'0')) % 2 ^ 64

-- The loop on the byte `c`; `none` if it is still running when the fuel is used up.
unfoldable pub integer_loop : ℕ → ℕ → ℕ → ℕ → Option ℕ
integer_loop zero max_value c ret_value = none
integer_loop (suc fuel) max_value c ret_value =
    let more = integer_loop fuel max_value c (append_digit c ret_value) in
    if c == 0
    then some ret_value
    else if ltb b'9' c || ltb c b'0'
    then some ret_value
    else if ltb max_value (append_digit c ret_value)
    then some (append_digit c ret_value)
    else more

-- `(T)retValue`
unfoldable pub to_type : Bool → ℕ → ℕ → ℤ
to_type signed_type bits v =
    let r = v % 2 ^ bits in
    if signed_type
    then if ltb r (2 ^ (bits - 1)) then pos r else negsuc (2 ^ bits - 1 - r)
    else pos r

abbrev pub value_bits : Bool → ℕ → ℕ
value_bits signed_type size_t = if signed_type then size_t * 8 - 1 else size_t * 8

-- The loop and what follows it, for a type whose shift is defined.
unfoldable pub read_integer : ℕ → Bool → ℕ → Option (List ℕ) → Outcome (Option ℤ)
read_integer fuel signed_type size_t none = aborted
read_integer fuel signed_type size_t (some []) = fault
read_integer fuel signed_type size_t (some (c ∷ src)) =
    ok (elim (integer_loop fuel (2 ^ value_bits signed_type size_t - 1) c 0) [
      | none ↦ none
      | some v ↦ some (to_type signed_type (size_t * 8) v)
    ])

-- A shift by 64 bits is undefined.
unfoldable pub get_integer : ℕ → Bool → ℕ → Option (List ℕ) → Outcome (Option ℤ)
get_integer fuel signed_type size_t src =
    if ltb (value_bits signed_type size_t) 64
    then read_integer fuel signed_type size_t src
    else fault
