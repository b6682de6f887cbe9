-- ===== src/Common/Outcomes.antt =====
-- How a piece of the program ends. Apart from a value these are the ways a C++ run can go wrong.
use mathlib.Core.Path.{◌≡◌, refl, ap, subst}
use mathlib.Core.Bool.{Bool, true, false}
use nfs_client_simulator.Common.Tests.{if◌then◌else◌}

-- `aborted`: a DASSERT failed. `fault`: undefined behaviour (an access outside its array, a null
-- pointer or an end iterator that is read). `blocked`: a system call has not returned.
pub data Outcome {ℓ} (A : Type ℓ) : Type ℓ where
  ok : A → Outcome A
  aborted fault blocked : Outcome A

infixl 5 ◌>>=◌ ◌>>◌
abbrev pub ◌>>=◌ {ℓ κ} : {A : Type ℓ} {B : Type κ} → Outcome A → (A → Outcome B) → Outcome B
ok a >>= f = f a
aborted >>= f = aborted
fault >>= f = fault
blocked >>= f = blocked

abbrev pub ◌>>◌ {ℓ} : {B : Type ℓ} → Outcome (Unit {0}) → Outcome B → Outcome B
m >> k = m >>= λ _. k

-- DASSERT(cond)
abbrev pub dassert : Bool → Outcome (Unit {0})
dassert true = ok tt
dassert false = aborted

-- A run that faults still does if what follows is extended.
pub still_fault {ℓ κ ι} :
    {A : Type ℓ} {B : Type κ} {C : Type ι} (m : Outcome A) {f : A → Outcome B} {g : A → Outcome C}
    → (m >>= f) ≡ fault
    → ((a : A) → f a ≡ fault → g a ≡ fault)
    → (m >>= g) ≡ fault
still_fault (ok a) e h = h a e
still_fault aborted e h = cc
still_fault fault e h = refl
still_fault blocked e h = cc

-- A run that yields a value has yielded one in its first part.
pub bind_ok {ℓ κ} :
    {A : Type ℓ} {B : Type κ} (m : Outcome A) {f : A → Outcome B} {b : B}
    → (m >>= f) ≡ ok b
    → (a : A) × (m ≡ ok a) × (f a ≡ ok b)
bind_ok (ok a) e = (a, refl, e)
bind_ok aborted e = cc
bind_ok fault e = cc
bind_ok blocked e = cc

abbrev value_or {ℓ} : {A : Type ℓ} → A → Outcome A → A
value_or a (ok b) = b
value_or a m = a

-- Whatever value the run yields has the property; with lemmas on the parts of a run.
pub record Ensures {ℓ} {A : Type ℓ} (P : A → Type 0) (m : Outcome A) : Type ℓ where
  pub of_value : (a : A) → m ≡ ok a → P a

pub Ensures-ok {ℓ} : {A : Type ℓ} {P : A → Type 0} {a : A} → P a → Ensures P (ok a)
Ensures-ok {A = A} {P = P} {a = a} h = record {
  of_value = λ b e. subst P (ap (λ (m : Outcome A). value_or a m) e) h;
}

pub Ensures-bind {ℓ κ} :
    {A : Type ℓ} {B : Type κ} {P : B → Type 0} (m : Outcome A) {f : A → Outcome B}
    → ((a : A) → Ensures P (f a))
    → Ensures P (m >>= f)
Ensures-bind {P = P} m {f = f} h = record {
  of_value = λ b e. let (a, e₁, e₂) = bind_ok m e in (h a).of_value b e₂;
}

-- A test, with the result of each branch.
pub Ensures-if {ℓ} :
    {A : Type ℓ} {P : A → Type 0} (b : Bool) {m n : Outcome A}
    → (b ≡ true → Ensures P m)
    → (b ≡ false → Ensures P n)
    → Ensures P (if b then m else n)
Ensures-if true h k = h refl
Ensures-if false h k = k refl

pub Ensures-then {ℓ κ} :
    {A : Type ℓ} {B : Type κ} {Q : A → Type 0} {P : B → Type 0} {m : Outcome A} {f : A → Outcome B}
    → Ensures Q m
    → ((a : A) → Q a → Ensures P (f a))
    → Ensures P (m >>= f)
Ensures-then {m = m} q h = record {
  of_value = λ b e. let (a, e₁, e₂) = bind_ok m e in (h a (q.of_value a e₁)).of_value b e₂;
}

-- What follows from the property holds too.
pub Ensures-weaken {ℓ} :
    {A : Type ℓ} {Q P : A → Type 0} {m : Outcome A}
    → Ensures Q m
    → ((a : A) → Q a → P a)
    → Ensures P m
Ensures-weaken q h = record { of_value = λ a e. h a (q.of_value a e) }

pub Ensures-fault {ℓ} : {A : Type ℓ} {P : A → Type 0} → Ensures P fault
Ensures-fault = record { of_value = λ a e. cc }
