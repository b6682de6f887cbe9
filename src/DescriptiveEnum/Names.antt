-- ===== src/DescriptiveEnum/Names.antt =====
-- Enumerators and their text in the program, and the names that generateEnumMap reads in it.
use nfs_client_simulator.Common.{
  ℕ, ◌+◌, ◌%◌, ◌^◌, ◌<◌, ◌≡◌, refl, sym, ap, ◌∙◌, List, [], ◌∷◌, ◌++◌, append_assoc, append-nil,
  Bool, false, ◌||◌, All, Option, none, some, ◌==◌, if◌then◌else◌, arith,
}
use nfs_client_simulator.Common.Int.{ℤ, pos, negsuc}
use nfs_client_simulator.Text.{codes, decimal, decimal_int}
use nfs_client_simulator.DescriptiveEnum.{remove_char, split_from, to_size, strip_marks}

-- `NAME`, `NAME = value`, or `NAME = (1u << bit)`.
pub data Enumerator : Type 0 where
  plain : List ℕ → Enumerator
  valued : List ℕ → ℤ → Enumerator
  shifted : List ℕ → ℕ → Enumerator

-- As the preprocessor turns it into a string.
abbrev pub written : Enumerator → List ℕ
written (plain name) = name
written (valued name value) = name ++ codes " = " ++ decimal_int value
written (shifted name bit) = name ++ codes " = (1u << " ++ decimal bit ++ codes ")"

abbrev pub initializer : List Enumerator → List ℕ
initializer [] = []
initializer (e ∷ []) = written e
initializer (e ∷ f ∷ es) = written e ++ codes ", " ++ initializer (f ∷ es)

-- The bytes that mean something in the text of an enumeration.
abbrev pub is_mark : ℕ → Bool
is_mark c = c == b' ' || c == b'(' || c == b')' || c == b'"' || c == b',' || c == b'='

abbrev pub Unmarked : List ℕ → Type 0
Unmarked text = All (λ c. is_mark c ≡ false) text

abbrev pub IsName : List ℕ → Type 0
IsName [] = ⊥
IsName (c ∷ cs) = Unmarked (c ∷ cs)

abbrev pub InRange : ℤ → Type 0
InRange (pos n) = n < 2 ^ 63
InRange (negsuc n) = n < 2 ^ 63

abbrev pub IsEnumerator : Enumerator → Type 0
IsEnumerator (plain name) = IsName name
IsEnumerator (valued name value) = IsName name × InRange value
IsEnumerator (shifted name bit) = IsName name

-- The names with the value that each is given, from a current value on. Behind `1` in the text of a shift
-- there is no further digit, so a shifted enumerator has the value 1 here.
abbrev pub entries : ℕ → List Enumerator → List (ℕ × List ℕ)
entries current [] = []
entries current (plain name ∷ es) = (current, name) ∷ entries ((current + 1) % 2 ^ 64) es
entries current (valued name value ∷ es) =
    (to_size value, name) ∷ entries ((to_size value + 1) % 2 ^ 64) es
entries current (shifted name bit ∷ es) = (1, name) ∷ entries 2 es

-- The last name that is given a value.
abbrev pub last_name : List (ℕ × List ℕ) → ℕ → Option (List ℕ)
last_name [] value = none
last_name ((k, name) ∷ rest) value = elim (last_name rest value) [
  | some later ↦ some later
  | none ↦ if k == value then some name else none
]

-- The text of an enumerator without its marks.
abbrev pub bare : Enumerator → List ℕ
bare (plain name) = name
bare (valued name value) = name ++ b'=' ∷ decimal_int value
bare (shifted name bit) = name ++ b'=' ∷ (codes "1u<<" ++ decimal bit)

abbrev pub commas : List (List ℕ) → List ℕ
commas [] = []
commas (t ∷ []) = t
commas (t ∷ u ∷ ts) = t ++ b',' ∷ commas (u ∷ ts)

remove_char-append :
    (a b : List ℕ) (c : ℕ) → remove_char (a ++ b) c ≡ remove_char a c ++ remove_char b c
unfolding remove_char
remove_char-append [] b c = refl
remove_char-append (x ∷ a) b c = ground (arith, remove_char-append a b c)

pub strip_marks-append : (a b : List ℕ) → strip_marks (a ++ b) ≡ strip_marks a ++ strip_marks b
unfolding strip_marks
strip_marks-append a b =
    rw (remove_char-append, remove_char-append, remove_char-append, remove_char-append) refl

remove_char_other :
    (c : ℕ) (text : List ℕ) → All (λ x. (x == c) ≡ false) text → remove_char text c ≡ text
unfolding remove_char
remove_char_other c [] h = refl
remove_char_other c (x ∷ text) h = ground (arith, remove_char_other c text h.1)

-- A property of the bytes follows from another one.
pub All-map {ℓ} :
    {P Q : ℕ → Type ℓ} (text : List ℕ) → ((c : ℕ) → P c → Q c) → All P text → All Q text
All-map [] f h = h
All-map (c ∷ text) f h = (f c h.0, All-map text f h.1)

pub strip_marks-Unmarked : (text : List ℕ) → Unmarked text → strip_marks text ≡ text
unfolding strip_marks
strip_marks-Unmarked text h =
    let s = remove_char_other b' ' text (All-map text (λ c k. ground arith) h) in
    let o = remove_char_other b'(' text (All-map text (λ c k. ground arith) h) in
    let p = remove_char_other b')' text (All-map text (λ c k. ground arith) h) in
    let q = remove_char_other b'"' text (All-map text (λ c k. ground arith) h) in
    rw (s, o, p, q) refl

split_from_step :
    (seperator : ℕ) (substr : List ℕ) (c : ℕ) (input : List ℕ)
    → (c == seperator) ≡ false
    → split_from seperator substr (c ∷ input) ≡ split_from seperator (substr ++ c ∷ []) input
unfolding split_from
split_from_step seperator [] c input e = rw (e, split_from)
split_from_step seperator (s ∷ substr) c input e = rw (e, split_from)

pub split_from_cut :
    (seperator : ℕ) (substr input : List ℕ)
    → split_from seperator substr (seperator ∷ input) ≡ substr ∷ split_from seperator [] input
unfolding split_from
split_from_cut seperator [] input = ground arith
split_from_cut seperator (s ∷ substr) input = ground arith

-- Bytes that are no separator are collected.
pub split_from-append :
    (seperator : ℕ) (substr text input : List ℕ)
    → All (λ c. (c == seperator) ≡ false) text
    → split_from seperator substr (text ++ input) ≡ split_from seperator (substr ++ text) input
split_from-append seperator substr [] input h =
    ap (λ t. split_from seperator t input) (sym (append-nil substr))
split_from-append seperator substr (c ∷ text) input h =
    split_from_step seperator substr c (text ++ input) h.0
    ∙ split_from-append seperator (substr ++ c ∷ []) text input h.1
    ∙ ap (λ t. split_from seperator t input) (append_assoc substr (c ∷ []) text)
