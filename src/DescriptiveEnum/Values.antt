-- ===== src/DescriptiveEnum/Values.antt =====
-- generateEnumMap on the text of an enumeration.
use nfs_client_simulator.Common.{
  ℕ, suc, ◌+◌, ◌%◌, ◌^◌, ◌≡◌, refl, sym, ap, subst, ◌∙◌, List, [], ◌∷◌, ◌++◌, append-nil, true,
  false, All, Option, none, some, ok, ◌==◌, if◌then◌else◌, arith,
}
use nfs_client_simulator.Common.Int.{ℤ, pos, negsuc}
use nfs_client_simulator.Text.{codes, decimal, decimal_int, stoll, scan, magnitude, fit_long}
use nfs_client_simulator.Text.Decimal.{decimal_cons, stoll-decimal, stoll-minus}
use nfs_client_simulator.DescriptiveEnum.{
  split_from, split_string, EnumMap, assign, name_at, contains, to_size, name_and_value, enum_loop,
  generate_enum_map,
}
use nfs_client_simulator.DescriptiveEnum.Names.{
  Enumerator, plain, valued, shifted, initializer, Unmarked, InRange, entries, last_name, All-map,
  split_from_cut, split_from-append,
}
use nfs_client_simulator.DescriptiveEnum.Read.{
  IsName→Unmarked, Unmarked-decimal, Unmarked-decimal_int, bares, AllEnumerators,
  split_string-initializer,
}

read_shift : (bit : ℕ) → stoll (codes "1u<<" ++ decimal bit) ≡ ok (pos 1)
unfolding stoll fit_long magnitude scan
read_shift bit = refl

stoll-decimal_int : (z : ℤ) → InRange z → stoll (decimal_int z) ≡ ok z
unfolding decimal_int
stoll-decimal_int (pos n) h = stoll-decimal n h
stoll-decimal_int (negsuc n) h = stoll-minus (suc n) (omega arith)

-- An item with a value: its name and the text behind `=`.
abbrev NotEqual : ℕ → Type 0
NotEqual c = (c == b'=') ≡ false

contains-value : (name value : List ℕ) → contains (name ++ b'=' ∷ value) b'=' ≡ true
unfolding contains
contains-value [] value = refl
contains-value (c ∷ name) value = ground (arith, contains-value name value)

contains_none : (name : List ℕ) → All NotEqual name → contains name b'=' ≡ false
unfolding contains
contains_none [] h = refl
contains_none (c ∷ name) h = ground (arith, contains_none name h.1)

split_value :
    (name : List ℕ) (c : ℕ) (cs : List ℕ)
    → All NotEqual name
    → All NotEqual (c ∷ cs)
    → name_and_value (split_string (name ++ b'=' ∷ c ∷ cs) b'=') ≡ ok (name, c ∷ cs)
unfolding name_and_value split_string split_from
split_value name c cs h k = ap name_and_value (
    split_from-append b'=' [] name (b'=' ∷ c ∷ cs) h
    ∙ split_from_cut b'=' name (c ∷ cs)
    ∙ ap (λ r. name ∷ r)
        (ap (split_from b'=' []) (sym (append-nil (c ∷ cs)))
          ∙ split_from-append b'=' [] (c ∷ cs) [] k))

no_equal : (text : List ℕ) → Unmarked text → All NotEqual text
no_equal text h = All-map text (λ c k. ground arith) h

value_item :
    (name value : List ℕ)
    → Unmarked name
    → Unmarked value
    → ((c : ℕ) × (cs : List ℕ) × (value ≡ c ∷ cs))
    → name_and_value (split_string (name ++ b'=' ∷ value) b'=') ≡ ok (name, value)
value_item name value h k (c, cs, e) =
    rw e (split_value name c cs (no_equal name h) (no_equal (c ∷ cs) (subst Unmarked e k)))

decimal_int_cons : (z : ℤ) → (c : ℕ) × (cs : List ℕ) × (decimal_int z ≡ c ∷ cs)
unfolding decimal_int
decimal_int_cons (pos n) = decimal_cons n
decimal_int_cons (negsuc n) = (b'-', decimal (suc n), refl)

-- The assignments of the loop.
abbrev assign_all : EnumMap → List (ℕ × List ℕ) → EnumMap
assign_all m [] = m
assign_all m ((key, name) ∷ rest) = assign_all (assign m key name) rest

loop_value :
    (current : ℕ) (m : EnumMap) (name value : List ℕ) (z : ℤ) (items : List (List ℕ))
    → name_and_value (split_string (name ++ b'=' ∷ value) b'=') ≡ ok (name, value)
    → stoll value ≡ ok z
    → enum_loop current m ((name ++ b'=' ∷ value) ∷ items)
      ≡ enum_loop ((to_size z + 1) % 2 ^ 64) (assign m (to_size z) name) items
unfolding enum_loop
loop_value current m name value z items e h = rw (contains-value name value, enum_loop, e, h)

enum_loop-bares :
    (current : ℕ) (m : EnumMap) (es : List Enumerator)
    → AllEnumerators es
    → enum_loop current m (bares es) ≡ ok (assign_all m (entries current es))
unfolding enum_loop
enum_loop-bares current m [] h = refl
enum_loop-bares current m (plain name ∷ es) h =
    rw (contains_none name (no_equal name (IsName→Unmarked name h.0)), enum_loop)
      (enum_loop-bares ((current + 1) % 2 ^ 64) (assign m current name) es h.1)
enum_loop-bares current m (valued name z ∷ es) h =
    let item =
      value_item name (decimal_int z) (IsName→Unmarked name h.0.0) (Unmarked-decimal_int z)
        (decimal_int_cons z) in
    loop_value current m name (decimal_int z) z (bares es) item (stoll-decimal_int z h.0.1)
    ∙ enum_loop-bares ((to_size z + 1) % 2 ^ 64) (assign m (to_size z) name) es h.1
enum_loop-bares current m (shifted name bit ∷ es) h =
    let item =
      value_item name (codes "1u<<" ++ decimal bit) (IsName→Unmarked name h.0)
        (refl, (refl, (refl, (refl, Unmarked-decimal bit))))
        (b'1', codes "u<<" ++ decimal bit, refl) in
    loop_value current m name (codes "1u<<" ++ decimal bit) (pos 1) (bares es) item (read_shift bit)
    ∙ enum_loop-bares 2 (assign m 1 name) es h.1

pub name_at-assign :
    (m : EnumMap) (key : ℕ) (name : List ℕ) (value : ℕ)
    → name_at (assign m key name) value ≡ (if key == value then some name else name_at m value)
unfolding name_at assign
name_at-assign [] key name value = refl
name_at-assign ((k, old) ∷ m) key name value = ground (arith, name_at-assign m key name value)

name_at-assign_all :
    (m : EnumMap) (pairs : List (ℕ × List ℕ)) (value : ℕ)
    → name_at (assign_all m pairs) value
      ≡ elim (last_name pairs value) [ some name ↦ some name | none ↦ name_at m value ]
name_at-assign_all m [] value = refl
name_at-assign_all m ((key, name) ∷ rest) value =
    ground
      (arith, name_at-assign_all (assign m key name) rest value, name_at-assign m key name value)

-- Take enumerators NAME, NAME = value with a value of 64 bits, or NAME = (1u << bit), where no name is
-- empty or has a space, a parenthesis, a quote, a comma or `=`. generateEnumMap of their text yields a
-- map that has under each value the last of the names with that value, where a name without a value has
-- the one after that of the name before it, and every shift counts as 1, whatever its bit.
pub generate_enum_map-initializer :
    (es : List Enumerator)
    → AllEnumerators es
    → (m : EnumMap) × (generate_enum_map (initializer es) ≡ ok m)
      × ((value : ℕ) → name_at m value ≡ last_name (entries 0 es) value)
unfolding generate_enum_map name_at
generate_enum_map-initializer es h =
    let pairs = entries 0 es in
    (
      assign_all [] pairs,
      ap (enum_loop 0 []) (split_string-initializer es h) ∙ enum_loop-bares 0 [] es h,
      λ value. name_at-assign_all [] pairs value ∙ found (last_name pairs value),
    )
  where
    found : (o : Option (List ℕ)) → elim o [ some name ↦ some name | none ↦ none ] ≡ o
    found none = refl
    found (some name) = refl
