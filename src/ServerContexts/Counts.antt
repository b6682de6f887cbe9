-- ===== src/ServerContexts/Counts.antt =====
-- The use counts of the contexts.
use nfs_client_simulator.Common.{
  ℕ, zero, suc, ◌≡◌, refl, [], ◌∷◌, ◌++◌, Bool, true, false, not, ok, Outcome, dassert, Bool-cases,
  inl, inr, All, arith, bind_ok, subst, ◌==◌, ◌-◌, ◌^◌, ap, sym,
}
use nfs_client_simulator.Common.Int.{ℤ, pos, negsuc, decrement, is_negative, is_positive}
use nfs_client_simulator.Context.{Context}
use nfs_client_simulator.ServerContexts.{
  ServerHold, ServerContexts, add_context, at_index, bump, take_one, give_one, get_context,
  put_context,
}

-- No count is negative.
abbrev pub IsCounted : ServerContexts → Type 0
IsCounted ss = All (λ (s : ServerHold). is_negative s.usage_count ≡ false) ss

-- What a program does with the list.
pub data Use : Type 0 where
  add : Context → Use
  get : ℤ → Use
  put : ℤ → Use

-- The list before and after one call that returns.
pub data Step : ServerContexts → ServerContexts → Type 0 where
  added : (ss : ServerContexts) (c : Context) → Step ss (add_context ss c)
  taken :
      (ss ss' : ServerContexts) (i : ℤ) (c : Context) → get_context ss i ≡ ok (c, ss') → Step ss ss'
  given_back : (ss ss' : ServerContexts) (i : ℤ) → put_context ss i ≡ ok (tt, ss') → Step ss ss'

pub data Steps : ServerContexts → ServerContexts → Type 0 where
  none_yet : (ss : ServerContexts) → Steps ss ss
  and_then : (a b c : ServerContexts) → Steps a b → Step b c → Steps a c

abbrev IsCount : ServerHold → Type 0
IsCount s = is_negative s.usage_count ≡ false

-- A property of every element holds after one of them was replaced by one that has it.
at_index-All :
    (P : ServerHold → Type 0) {A : Type 0} (f : ServerHold → Outcome (A × ServerHold))
    → ((s s' : ServerHold) (a : A) → P s → f s ≡ ok (a, s') → P s')
    → (ss ss' : ServerContexts) (i : ℕ) (a : A) → All P ss
    → at_index ss i f ≡ ok (a, ss')
    → All P ss'
unfolding at_index
at_index-All P f keep [] ss' i a h e = cc
at_index-All P f keep (s ∷ ss) ss' zero a h e =
    let ((a', s'), e₁, e₂) = bind_ok (f s) e in
    let split : s' ∷ ss ≡ ss' = cc in subst (All P) split (keep s s' a' h.0 e₁, h.1)
at_index-All P f keep (s ∷ ss) ss' (suc i) a h e =
    let ((a', ss₁), e₁, e₂) = bind_ok (at_index ss i f) e in
    let split : s ∷ ss₁ ≡ ss' = cc in
    subst (All P) split (h.0, at_index-All P f keep ss ss₁ i a' h.1 e₁)

bump-IsCount : (n n' : ℤ) → is_negative n ≡ false → bump n ≡ ok n' → is_negative n' ≡ false
unfolding bump
bump-IsCount (pos n) n' h e = elim (Bool-cases (n == 2 ^ 31 - 1)) [
  | inl full ↦ ground arith
  | inr room ↦ let split : pos (suc n) ≡ n' = ground arith in ap is_negative (sym split)
]
bump-IsCount (negsuc n) n' h e = cc

decrement-IsCount : (n : ℤ) → is_positive n ≡ true → is_negative (decrement n) ≡ false
decrement-IsCount (pos zero) h = cc
decrement-IsCount (pos (suc n)) h = refl
decrement-IsCount (negsuc n) h = cc

All-snoc :
    (ss : ServerContexts) (s : ServerHold) → All IsCount ss → IsCount s → All IsCount (ss ++ s ∷ [])
All-snoc [] s h k = (k, tt)
All-snoc (t ∷ ss) s h k = (h.0, All-snoc ss s h.1 k)

dassert-true : (b : Bool) {u : Unit {0}} → dassert b ≡ ok u → b ≡ true
dassert-true true e = refl
dassert-true false e = cc

-- The count in a result.
abbrev count_of : {A : Type 0} → Outcome (A × ServerHold) → ℤ
count_of (ok (a, s)) = s.usage_count
count_of m = pos 0

abbrev hold_of : {A : Type 0} → ServerHold → Outcome (A × ServerHold) → ServerHold
hold_of s₀ (ok (a, s)) = s
hold_of s₀ m = s₀

take_one-IsCount :
    (s s' : ServerHold) (c : Context) → IsCount s → take_one s ≡ ok (c, s') → IsCount s'
unfolding take_one
take_one-IsCount s s' c h e =
    let (_, e₁, e₂) = bind_ok (dassert (not (is_negative s.usage_count))) e in
    let (n, e₃, e₄) = bind_ok (bump s.usage_count) e₂ in
    let split : n ≡ s'.usage_count = ap (λ (o : Outcome (Context × ServerHold)). count_of o) e₄ in
    subst (λ m. is_negative m ≡ false) split (bump-IsCount s.usage_count n h e₃)

give_one-IsCount :
    (s s' : ServerHold) (u : Unit {0}) → IsCount s → give_one s ≡ ok (u, s') → IsCount s'
unfolding give_one
give_one-IsCount s s' u h e =
    let (_, e₁, e₂) = bind_ok (dassert (is_positive s.usage_count)) e in
    let split : decrement s.usage_count ≡ s'.usage_count =
      ap (λ (o : Outcome (Unit {0} × ServerHold)). count_of o) e₂ in
    subst (λ m. is_negative m ≡ false) split
      (decrement-IsCount s.usage_count (dassert-true (is_positive s.usage_count) e₁))

Step-IsCounted : (ss ss' : ServerContexts) → Step ss ss' → IsCounted ss → IsCounted ss'
unfolding add_context get_context put_context
Step-IsCounted _ _ (added ss c) h = All-snoc ss _ h refl
Step-IsCounted _ _ (taken ss ss' (pos i) c e) h =
    at_index-All IsCount take_one take_one-IsCount ss ss' i c h e
Step-IsCounted _ _ (taken ss ss' (negsuc i) c e) h = cc
Step-IsCounted _ _ (given_back ss ss' (pos i) e) h =
    at_index-All IsCount give_one give_one-IsCount ss ss' i tt h e
Step-IsCounted _ _ (given_back ss ss' (negsuc i) e) h = cc

all-IsCounted : (a b : ServerContexts) → Steps a b → IsCounted a → IsCounted b
all-IsCounted _ _ (none_yet ss) h = h
all-IsCounted _ _ (and_then a b c steps step) h =
    Step-IsCounted b c step (all-IsCounted a b steps h)

-- Whatever calls add, take and give back contexts, no count is ever negative.
pub Steps-IsCounted : (ss : ServerContexts) → Steps [] ss → IsCounted ss
Steps-IsCounted ss h = all-IsCounted [] ss h tt

bump_back :
    (c : Context) (n n' : ℤ)
    → is_negative n ≡ false
    → bump n ≡ ok n'
    → give_one (record { context = c; usage_count = n' })
      ≡ ok (tt, record { context = c; usage_count = n })
unfolding bump give_one
bump_back c (pos n) n' h e = elim (Bool-cases (n == 2 ^ 31 - 1)) [
  | inl full ↦ ground arith
  | inr room ↦ let split : pos (suc n) ≡ n' = ground arith in rw (← split) refl
]
bump_back c (negsuc n) n' h e = cc

take_one_back :
    (s s' : ServerHold) (c : Context)
    → IsCount s
    → take_one s ≡ ok (c, s')
    → give_one s' ≡ ok (tt, s)
unfolding take_one
take_one_back s s' c h e =
    let (_, e₁, e₂) = bind_ok (dassert (not (is_negative s.usage_count))) e in
    let (n, e₃, e₄) = bind_ok (bump s.usage_count) e₂ in
    let split : record s { usage_count = n } ≡ s' =
      ap (λ (o : Outcome (Context × ServerHold)). hold_of s o) e₄ in
    subst (λ t. give_one t ≡ ok (tt, s)) split (bump_back s.context s.usage_count n h e₃)

at_index_back :
    (ss ss' : ServerContexts) (i : ℕ) (c : Context)
    → IsCounted ss
    → at_index ss i take_one ≡ ok (c, ss')
    → at_index ss' i give_one ≡ ok (tt, ss)
unfolding at_index
at_index_back [] ss' i c h e = cc
at_index_back (s ∷ ss) ss' zero c h e =
    let ((c', s'), e₁, e₂) = bind_ok (take_one s) e in
    let split : s' ∷ ss ≡ ss' = cc in
    subst (λ t. at_index t 0 give_one ≡ ok (tt, s ∷ ss)) split
      (rw (take_one_back s s' c' h.0 e₁) refl)
at_index_back (s ∷ ss) ss' (suc i) c h e =
    let ((c', ss₁), e₁, e₂) = bind_ok (at_index ss i take_one) e in
    let split : s ∷ ss₁ ≡ ss' = cc in
    subst (λ t. at_index t (suc i) give_one ≡ ok (tt, s ∷ ss)) split
      (rw (at_index_back ss ss₁ i c' h.1 e₁) refl)

-- If no count is negative, then putContext after a getContext of the same index that returned gives the
-- list from before.
pub put_context-get_context :
    (ss ss' : ServerContexts) (i : ℤ) (c : Context)
    → IsCounted ss
    → get_context ss i ≡ ok (c, ss')
    → put_context ss' i ≡ ok (tt, ss)
unfolding get_context put_context
put_context-get_context ss ss' (pos i) c h e = at_index_back ss ss' i c h e
put_context-get_context ss ss' (negsuc i) c h e = cc
