-- ===== src/Text.antt =====
-- The texts that the program reads and prints, through routines of the C++ library: std::stoll and
-- atoi on one side, the output of numbers to a stream on the other. A text is the list of its bytes.
pub mod Decimal
use Prim.Native.Char.{code}
use Prim.Native.String.{String}
use nfs_client_simulator.Common.{
  ℕ, zero, suc, ◌+◌, ◌-◌, ◌*◌, ◌/◌, ◌%◌, ◌^◌, List, [], ◌∷◌, ◌++◌, Bool, true, false, ◌&&◌, ◌||◌,
  Option, none, some, Outcome, ok, aborted, fault, ltb, leb, ◌==◌, if◌then◌else◌,
}
use nfs_client_simulator.Common.Int.{ℤ, pos, negsuc}

-- The bytes of a literal.
abbrev pub codes : String → List ℕ
codes String.[] = []
codes (String.◌∷◌ c s) = code c ∷ codes s

-- isspace
abbrev pub is_space : ℕ → Bool
is_space c = c == b' ' || (leb 9 c && leb c 13)

abbrev pub skip_space : List ℕ → List ℕ
skip_space [] = []
skip_space (c ∷ cs) = if is_space c then skip_space cs else c ∷ cs

-- The value of a digit in any base; 36 for what is none.
abbrev pub digit : ℕ → ℕ
digit c =
    if leb b'0' c && leb c b'9'
    then c - b'0'
    else if leb b'a' c && leb c b'z'
    then c - b'a' + 10
    else if leb b'A' c && leb c b'Z'
    then c - b'A' + 10
    else 36

-- The number that the digits at the front spell, behind `n`.
unfoldable pub scan : ℕ → ℕ → List ℕ → ℕ
scan base n [] = n
scan base n (c ∷ cs) =
    let rest = scan base (n * base + digit c) cs in if ltb (digit c) base then rest else n

abbrev pub starts_hex : List ℕ → Bool
starts_hex [] = false
starts_hex (c ∷ cs) = ltb (digit c) 16

-- The base 0 of strtoll: 16 behind 0x, 8 behind another 0, else 10. `none` if there is no digit.
unfoldable pub behind_zero : List ℕ → ℕ
behind_zero [] = 0
behind_zero (c ∷ cs) =
    if (c == b'x' || c == b'X') && starts_hex cs then scan 16 0 cs else scan 8 0 (c ∷ cs)

unfoldable pub magnitude : List ℕ → Option ℕ
magnitude [] = none
magnitude (c ∷ cs) =
    if c == b'0'
    then some (behind_zero cs)
    else if ltb (digit c) 10
    then some (scan 10 0 (c ∷ cs))
    else none

-- Whether there is a minus, and what stands behind the sign.
abbrev pub read_sign : List ℕ → Bool × List ℕ
read_sign [] = (false, [])
read_sign (c ∷ cs) =
    if c == b'-' then (true, cs) else if c == b'+' then (false, cs) else (false, c ∷ cs)

abbrev pub negate : ℕ → ℤ
negate zero = pos 0
negate (suc n) = negsuc n

-- A signed number of w + 1 bits with this sign and magnitude, if there is one.
abbrev pub signed : ℕ → Bool → ℕ → Option ℤ
signed w true n = if leb n (2 ^ w) then some (negate n) else none
signed w false n = if ltb n (2 ^ w) then some (pos n) else none

-- std::stoll(text, 0, 0). No digit, or a number that does not fit, throws: `aborted`.
unfoldable pub fit_long : Bool → Option ℕ → Outcome ℤ
fit_long minus none = aborted
fit_long minus (some n) = elim (signed 63 minus n) [ none ↦ aborted | some z ↦ ok z ]

unfoldable pub stoll : List ℕ → Outcome ℤ
stoll text = let s = read_sign (skip_space text) in fit_long s.0 (magnitude s.1)

-- atoi. It is undefined for a number that does not fit.
unfoldable pub fit_int : Bool → ℕ → Outcome ℤ
fit_int minus n = elim (signed 31 minus n) [ none ↦ fault | some z ↦ ok z ]

unfoldable pub atoi : List ℕ → Outcome ℤ
atoi text = let s = read_sign (skip_space text) in fit_int s.0 (scan 10 0 s.1)

-- A number in decimal, as `<<` prints it: a round for each digit, of which there are no more than the
-- number says.
unfoldable pub digits : ℕ → ℕ → List ℕ → List ℕ
digits zero n out = out
digits (suc f) n out = elim (n == 0) [
  | true ↦ out
  | false ↦ digits f (n / 10) ((b'0' + n % 10) ∷ out)
]

unfoldable pub decimal : ℕ → List ℕ
decimal n = if n == 0 then b'0' ∷ [] else digits n n []

unfoldable pub decimal_int : ℤ → List ℕ
decimal_int (pos n) = decimal n
decimal_int (negsuc n) = b'-' ∷ decimal (suc n)

-- A byte in hexadecimal, in a field of two digits filled with 0.
abbrev pub hex_digit : ℕ → ℕ
hex_digit n = if ltb n 10 then b'0' + n else b'a' + (n - 10)

abbrev pub hex_byte : ℕ → List ℕ
hex_byte b = hex_digit (b / 16) ∷ hex_digit (b % 16) ∷ []
