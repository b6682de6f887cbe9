-- ===== src/Xdr/Integer/Ends.antt =====
-- When getInteger ends.
use native.Mathlib.Nat.{pow-le-pow_right}
use nfs_client_simulator.Common.{
  ℕ, zero, suc, ◌+◌, ◌-◌, ◌*◌, ◌^◌, ◌≤◌, ◌<◌, ◌≡◌, ◌≢◌, refl, List, ◌∷◌, Bool, true, false, ◌||◌,
  Option, none, some, ok, ltb, ◌==◌, if◌then◌else◌, arith, Bool-cases, inl, inr, sym, ◌∙◌, subst,
}
use nfs_client_simulator.Common.Bits.{all_below, all_below→true}
use nfs_client_simulator.Common.Int.{ℤ}
use nfs_client_simulator.Xdr.Integer.{
  append_digit, integer_loop, to_type, value_bits, read_integer, get_integer,
}

-- A round on a digit.
loop_digit :
    (fuel max_value c r : ℕ)
    → b'0' ≤ c
    → c ≤ b'9'
    → integer_loop (suc fuel) max_value c r ≡ (
        if ltb max_value (append_digit c r)
        then some (append_digit c r)
        else integer_loop fuel max_value c (append_digit c r))
unfolding integer_loop
loop_digit fuel max_value c r l u =
    let nonzero : (c == 0) ≡ false = ground arith in
    let digit : (ltb b'9' c || ltb c b'0') ≡ false = ground arith in
    rw (integer_loop, nonzero, digit)

-- On zeros the number stays 0, which exceeds no bound.
loop_zero : (fuel max_value : ℕ) → integer_loop fuel max_value b'0' 0 ≡ none
unfolding integer_loop append_digit
loop_zero zero max_value = refl
loop_zero (suc fuel) max_value =
    let within : ltb max_value 0 ≡ false = ground arith in
    loop_digit fuel max_value b'0' 0 (omega arith) (omega arith)
    ∙ rw within (loop_zero fuel max_value)

-- With a smaller bound the loop ends as well.
loop_smaller :
    (fuel max_value larger c r v : ℕ)
    → b'0' ≤ c
    → c ≤ b'9'
    → max_value ≤ larger
    → integer_loop fuel larger c r ≡ some v
    → (v' : ℕ) × (integer_loop fuel max_value c r ≡ some v')
unfolding integer_loop
loop_smaller zero max_value larger c r v l u h e = cc
loop_smaller (suc fuel) max_value larger c r v l u h e =
    elim (Bool-cases (ltb max_value (append_digit c r))) [
      | inl over ↦ (append_digit c r, loop_digit fuel max_value c r l u ∙ rw over refl)
      | inr within ↦
          let below : ltb larger (append_digit c r) ≡ false = ground arith in
          let e' : integer_loop fuel larger c (append_digit c r) ≡ some v =
            sym (loop_digit fuel larger c r l u ∙ rw below refl) ∙ e in
          let (v', e'') = loop_smaller fuel max_value larger c (append_digit c r) v l u h e' in
          (v', loop_digit fuel max_value c r l u ∙ rw within e'')
    ]

-- At 63 bits the loop ends for each of the digits from 1 to 9.
is_done : {A : Type 0} → Option A → Bool
is_done none = false
is_done (some a) = true

is_done_lem : {A : Type 0} (o : Option A) → is_done o ≡ true → (a : A) × (o ≡ some a)
unfolding is_done
is_done_lem none h = cc
is_done_lem (some a) h = (a, refl)

loop_63_table : all_below 9 (λ k. is_done (integer_loop 23 (2 ^ 63 - 1) (k + b'1') 0)) ≡ true
unfolding all_below is_done integer_loop append_digit
loop_63_table = refl

loop_63 : (c : ℕ) → b'1' ≤ c → c ≤ b'9' → (v : ℕ) × (integer_loop 23 (2 ^ 63 - 1) c 0 ≡ some v)
loop_63 c l u =
    let same : c - b'1' + b'1' ≡ c = omega arith in
    let done = all_below→true 9 _ (c - b'1') loop_63_table (omega arith) in
    is_done_lem _ (subst (λ k. is_done (integer_loop 23 (2 ^ 63 - 1) k 0) ≡ true) same done)

loop_other :
    (fuel max_value c : ℕ)
    → (ltb b'9' c || ltb c b'0') ≡ true
    → integer_loop (suc fuel) max_value c 0 ≡ some 0
unfolding integer_loop
loop_other fuel max_value c h = elim (Bool-cases (c == 0)) [
  | inl e ↦ rw (integer_loop, e) refl
  | inr e ↦ rw (integer_loop, e, h) refl
]

loop_ends :
    (max_value c : ℕ)
    → max_value < 2 ^ 63
    → c ≢ b'0'
    → (v : ℕ) × (integer_loop 23 max_value c 0 ≡ some v)
loop_ends max_value c m h = elim (Bool-cases (ltb b'9' c || ltb c b'0')) [
  | inl other ↦ (0, loop_other 22 max_value c other)
  | inr digit ↦
      let low : b'1' ≤ c = ground arith in
      let high : c ≤ b'9' = ground arith in
      let (v, e) = loop_63 c low high in
      loop_smaller 23 max_value (2 ^ 63 - 1) c 0 v (omega arith) high (omega arith) e
]

pow_below : (bits : ℕ) → bits < 64 → 2 ^ bits - 1 < 2 ^ 63
pow_below bits h =
    let le : 2 ^ bits ≤ 2 ^ 63 =
      pow-le-pow_right {n = 2} (omega arith) {i = bits} {j = 63} (omega arith) in
    omega arith

-- Take a type of at most 63 bits without the sign. If the text begins with the digit 0, then getInteger
-- does not end; on any other text it ends within 23 rounds, with a value that depends on the first byte
-- alone, whatever follows.
pub get_integer_ends :
    (signed_type : Bool) (size_t c : ℕ)
    → value_bits signed_type size_t < 64
    → (c ≡ b'0'
        → (fuel : ℕ) (src : List ℕ)
        → get_integer fuel signed_type size_t (some (c ∷ src)) ≡ ok none)
      × (c ≢ b'0'
          → (z : ℤ) × ((src : List ℕ)
              → get_integer 23 signed_type size_t (some (c ∷ src)) ≡ ok (some z)))
unfolding get_integer read_integer
get_integer_ends signed_type size_t c h =
    let bits = value_bits signed_type size_t in
    let fits : ltb bits 64 ≡ true = ground arith in
    (
      λ e fuel src. rw (e, fits, loop_zero fuel (2 ^ bits - 1)) refl,
      λ n.
          let (v, e) = loop_ends (2 ^ bits - 1) c (pow_below bits h) n in
          (to_type signed_type (size_t * 8) v, λ src. rw (fits, e) refl),
    )
