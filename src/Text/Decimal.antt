-- ===== src/Text/Decimal.antt =====
-- Numbers in decimal are read back by stoll and atoi, whatever comes behind them that is no digit.
use nfs_client_simulator.Common.{
  ℕ, zero, suc, ◌+◌, ◌*◌, ◌/◌, ◌%◌, ◌^◌, ◌≤◌, ◌<◌, ◌≡◌, refl, sym, ap, subst, ◌∙◌, List, [], ◌∷◌,
  ◌++◌, append-nil, true, false, All, ok, some, ltb, leb, ◌==◌, Bool-cases, inl, inr, arith,
}
use nfs_client_simulator.Common.Int.{pos}
use nfs_client_simulator.Text.{
  skip_space, digit, scan, magnitude, behind_zero, read_sign, negate, fit_long, fit_int, stoll,
  atoi, digits, decimal,
}

-- What follows a number: nothing, or a byte that is no decimal digit.
abbrev pub NoDigit : List ℕ → Type 0
NoDigit [] = Unit {0}
NoDigit (c ∷ cs) = 10 ≤ digit c

scan_end : (n : ℕ) (rest : List ℕ) → NoDigit rest → scan 10 n rest ≡ n
unfolding scan
scan_end n [] h = refl
scan_end n (c ∷ rest) h = ground arith

scan_step :
    (n c : ℕ) (cs : List ℕ) → digit c < 10 → scan 10 n (c ∷ cs) ≡ scan 10 (n * 10 + digit c) cs
unfolding scan
scan_step n c cs h = let t : ltb (digit c) 10 ≡ true = ground arith in rw t

digit_of : (n : ℕ) → n < 10 → digit (b'0' + n) ≡ n
digit_of n h = ground arith

-- Reading the last digit of `n` behind the others gives `n`.
scan_last : (n : ℕ) (out : List ℕ) → scan 10 (n / 10) ((b'0' + n % 10) ∷ out) ≡ scan 10 n out
scan_last n out =
    let low : n % 10 < 10 = omega arith in
    let d : digit (b'0' + n % 10) ≡ n % 10 = digit_of (n % 10) low in
    let v : n / 10 * 10 + n % 10 ≡ n = omega arith in
    scan_step (n / 10) (b'0' + n % 10) out (rw d low)
    ∙ ap (λ k. scan 10 (n / 10 * 10 + k) out) d
    ∙ ap (λ k. scan 10 k out) v

digits_last : (f n : ℕ) (out : List ℕ) → (n == 0) ≡ true → digits (suc f) n out ≡ out
unfolding digits
digits_last f n out e = rw (e, digits)

digits_more :
    (f n : ℕ) (out : List ℕ)
    → (n == 0) ≡ false
    → digits (suc f) n out ≡ digits f (n / 10) ((b'0' + n % 10) ∷ out)
unfolding digits
digits_more f n out e = rw (e, digits)

digits_zero : (f : ℕ) (out : List ℕ) → digits f 0 out ≡ out
unfolding digits
digits_zero zero out = refl
digits_zero (suc f) out = refl

scan-digits : (f n : ℕ) (out : List ℕ) → n ≤ f → scan 10 0 (digits f n out) ≡ scan 10 n out
scan-digits zero n out h = let e : n ≡ 0 = omega arith in rw (e, digits_zero) refl
scan-digits (suc f) n out h = elim (Bool-cases (n == 0)) [
  | inl e ↦
      let z : n ≡ 0 = ground arith in rw (digits_last f n out e) (ap (λ k. scan 10 k out) (sym z))
  | inr e ↦
      rw (digits_more f n out e)
        (scan-digits f (n / 10) ((b'0' + n % 10) ∷ out) (ground arith) ∙ scan_last n out)
]

-- Every byte of a decimal is a decimal digit.
abbrev pub IsDigit : ℕ → Type 0
IsDigit c = (b'0' ≤ c) × (c ≤ b'9')

digits-IsDigit : (f n : ℕ) (out : List ℕ) → All IsDigit out → All IsDigit (digits f n out)
unfolding digits
digits-IsDigit zero n out h = h
digits-IsDigit (suc f) n out h =
    let d : IsDigit (b'0' + n % 10) = (omega arith, omega arith) in
    elim (Bool-cases (n == 0)) [
      | inl e ↦ rw (e, digits) h
      | inr e ↦ rw (e, digits) (digits-IsDigit f (n / 10) ((b'0' + n % 10) ∷ out) (d, h))
    ]

decimal-suc : (n : ℕ) → decimal (suc n) ≡ digits (suc n) (suc n) []
unfolding decimal
decimal-suc n = ground arith

pub decimal-IsDigit : (n : ℕ) → All IsDigit (decimal n)
unfolding decimal
decimal-IsDigit zero = ((omega arith, omega arith), tt)
decimal-IsDigit (suc n) = rw (decimal-suc n) (digits-IsDigit (suc n) (suc n) [] tt)

digits-append : (f n : ℕ) (out rest : List ℕ) → digits f n out ++ rest ≡ digits f n (out ++ rest)
unfolding digits
digits-append zero n out rest = refl
digits-append (suc f) n out rest = elim (Bool-cases (n == 0)) [
  | inl e ↦ rw (digits_last f n out e, digits_last f n (out ++ rest) e)
  | inr e ↦
      rw (digits_more f n out e, digits_more f n (out ++ rest) e)
        (digits-append f (n / 10) ((b'0' + n % 10) ∷ out) rest)
]

-- The front of a decimal: a digit that is not 0, unless the number is.
first_digit :
    (f n : ℕ) (out : List ℕ)
    → 0 < n
    → n ≤ f
    → (c : ℕ) × (cs : List ℕ) × (digits f n out ≡ c ∷ cs) × (b'1' ≤ c) × (c ≤ b'9')
first_digit zero n out h k = absurd (omega arith)
first_digit (suc f) n out h k =
    let more : (n == 0) ≡ false = ground arith in
    rw (digits_more f n out more) (elim (Bool-cases (n / 10 == 0)) [
      | inl e ↦
          let last : n / 10 ≡ 0 = ground arith in
          (
            b'0' + n % 10,
            out,
            ap (λ q. digits f q ((b'0' + n % 10) ∷ out)) last ∙ digits_zero f _,
            omega arith,
            omega arith,
          )
      | inr e ↦ first_digit f (n / 10) ((b'0' + n % 10) ∷ out) (ground arith) (omega arith)
    ])

-- A decimal followed by something else: a digit in front, and what it reads back as.
record Front (n : ℕ) (text : List ℕ) : Type 0 where
  first : ℕ
  others : List ℕ
  is_text : text ≡ first ∷ others
  low : b'0' ≤ first
  high : first ≤ b'9'
  value : scan 10 0 text ≡ n
  not_zero : 0 < n → b'1' ≤ first

decimal-Front : (n : ℕ) (rest : List ℕ) → NoDigit rest → Front n (decimal n ++ rest)
unfolding decimal
decimal-Front zero rest h = record {
  first = b'0';
  others = rest;
  is_text = refl;
  low = omega arith;
  high = omega arith;
  value = scan_step 0 b'0' rest (ground arith) ∙ scan_end 0 rest h;
  not_zero = λ p. omega arith;
}
decimal-Front (suc n) rest h =
    let (c, cs, e, l, u) = first_digit (suc n) (suc n) rest (omega arith) (omega arith) in
    let whole : decimal (suc n) ++ rest ≡ digits (suc n) (suc n) rest =
      ap (λ t. t ++ rest) (decimal-suc n) ∙ digits-append (suc n) (suc n) [] rest in
    record {
      first = c;
      others = cs;
      is_text = whole ∙ e;
      low = omega arith;
      high = u;
      value =
          ap (λ t. scan 10 0 t) whole
          ∙ scan-digits (suc n) (suc n) rest (omega arith)
          ∙ scan_end (suc n) rest h;
      not_zero = λ p. l;
    }

-- A decimal is not empty.
pub decimal_cons : (n : ℕ) → (c : ℕ) × (cs : List ℕ) × (decimal n ≡ c ∷ cs)
decimal_cons n =
    let f = decimal-Front n [] tt in (f.first, f.others, sym (append-nil (decimal n)) ∙ f.is_text)

-- In front of a digit there is neither space nor sign.
sign_digit :
    (c : ℕ) (cs : List ℕ) → b'0' ≤ c → c ≤ b'9' → read_sign (skip_space (c ∷ cs)) ≡ (false, c ∷ cs)
sign_digit c cs l u = ground arith

sign-Front : {n : ℕ} {text : List ℕ} → Front n text → read_sign (skip_space text) ≡ (false, text)
sign-Front {text = text} f = rw f.is_text (sign_digit f.first f.others f.low f.high)

-- atoi reads back a number of 31 bits.
pub atoi-decimal :
    (n : ℕ) (rest : List ℕ) → n < 2 ^ 31 → NoDigit rest → atoi (decimal n ++ rest) ≡ ok (pos n)
unfolding atoi fit_int
atoi-decimal n rest s h =
    let f = decimal-Front n rest h in
    let fits : ltb n (2 ^ 31) ≡ true = ground arith in
    ap (λ s. fit_int s.0 (scan 10 0 s.1)) (sign-Front f)
    ∙ ap (fit_int false) f.value
    ∙ rw (fit_int, fits) refl

magnitude-Front : {n : ℕ} {text : List ℕ} → Front n text → 0 < n → magnitude text ≡ some n
unfolding magnitude
magnitude-Front {n = n} {text = text} f p =
    let no_zero : (f.first == b'0') ≡ false = let q = f.not_zero p in ground arith in
    let is_digit : ltb (digit f.first) 10 ≡ true =
      let l = f.low in let u = f.high in ground arith in
    let v = ap (λ t. scan 10 0 t) (sym f.is_text) ∙ f.value in rw (f.is_text, no_zero, is_digit, v)

magnitude-decimal : (n : ℕ) → magnitude (decimal n) ≡ some n
unfolding magnitude behind_zero decimal scan
magnitude-decimal zero = refl
magnitude-decimal (suc n) =
    subst (λ t. magnitude t ≡ some (suc n)) (append-nil (decimal (suc n)))
      (magnitude-Front (decimal-Front (suc n) [] tt) (omega arith))

sign_decimal : (n : ℕ) → read_sign (skip_space (decimal n)) ≡ (false, decimal n)
sign_decimal n =
    subst (λ t. read_sign (skip_space t) ≡ (false, t)) (append-nil (decimal n))
      (sign-Front (decimal-Front n [] tt))

-- stoll reads back a number of 63 bits and its sign.
pub stoll-decimal : (n : ℕ) → n < 2 ^ 63 → stoll (decimal n) ≡ ok (pos n)
unfolding stoll fit_long
stoll-decimal n s =
    let fits : ltb n (2 ^ 63) ≡ true = ground arith in
    ap (λ s. fit_long s.0 (magnitude s.1)) (sign_decimal n)
    ∙ ap (fit_long false) (magnitude-decimal n)
    ∙ rw (fit_long, fits) refl

pub stoll-minus : (n : ℕ) → n ≤ 2 ^ 63 → stoll (b'-' ∷ decimal n) ≡ ok (negate n)
unfolding stoll fit_long
stoll-minus n s =
    let fits : leb n (2 ^ 63) ≡ true = ground arith in
    ap (fit_long true) (magnitude-decimal n) ∙ rw (fit_long, fits) refl
