-- ===== src/Inode/Strip.antt =====
-- What stripSlash leaves of a name.
use nfs_client_simulator.Common.{
  ℕ, zero, suc, ◌≤◌, ◌<◌, ◌≡◌, ◌≢◌, inl, inr, refl, ap, subst, List, [], ◌∷◌, ◌++◌, true, none,
  some, Option-cases, length, length-append, take-append, drop-append, drop-drop, All, arith,
}
use nfs_client_simulator.Inode.{starts_with, rfind, erase_at, erase_all, strip_slash, dot, slash}

-- Where the text is found, the name has it between two parts.
starts_with_split :
    (text name : List ℕ) → starts_with text name ≡ true → (post : List ℕ) × (name ≡ text ++ post)
starts_with_split [] name e = (name, refl)
starts_with_split (c ∷ cs) [] e = cc
starts_with_split (c ∷ cs) (d ∷ ds) e =
    let (post, split) = starts_with_split cs ds (ground arith) in (post, ground arith)

rfind_split :
    (text name : List ℕ) (i : ℕ)
    → rfind text name ≡ some i
    → (pre : List ℕ) × (post : List ℕ) × (name ≡ pre ++ (text ++ post)) × (length pre ≡ i)
unfolding rfind
rfind_split text [] i e =
    let (post, split) = starts_with_split text [] (ground arith) in ([], post, split, ground arith)
rfind_split text (c ∷ cs) i e = elim (Option-cases (rfind text cs)) [
  | inr (j, h) ↦
      let (pre, post, split, at_j) = rfind_split text cs j h in
      (c ∷ pre, post, ap (λ (l : List ℕ). c ∷ l) split, ground arith)
  | inl h ↦
      let (post, split) = starts_with_split text (c ∷ cs) (ground arith) in
      ([], post, split, ground arith)
]

erase_at_split :
    (pre text post : List ℕ)
    → erase_at (length pre) (length text) (pre ++ (text ++ post)) ≡ pre ++ post
erase_at_split pre text post = rw (
  take-append pre (text ++ post),
  ← drop-drop (length pre) (length text) (pre ++ (text ++ post)),
  drop-append pre (text ++ post),
  drop-append text post,
)

-- No two neighbours are `a` and `b`.
abbrev pub NoPair : ℕ → ℕ → List ℕ → Type 0
NoPair a b [] = Unit {0}
NoPair a b (c ∷ []) = Unit {0}
NoPair a b (c ∷ d ∷ ds) = (c ≡ a → d ≢ b) × NoPair a b (d ∷ ds)

pub NoPair-tail : (a b c : ℕ) (cs : List ℕ) → NoPair a b (c ∷ cs) → NoPair a b cs
NoPair-tail a b c [] h = tt
NoPair-tail a b c (d ∷ ds) h = h.1

pub NoPair-behind : (a b : ℕ) (pre post : List ℕ) → NoPair a b (pre ++ post) → NoPair a b post
NoPair-behind a b [] post h = h
NoPair-behind a b (c ∷ pre) post h = NoPair-behind a b pre post (NoPair-tail a b c (pre ++ post) h)

-- The last character is not `a`.
abbrev pub LastNot : ℕ → List ℕ → Type 0
LastNot a [] = Unit {0}
LastNot a (c ∷ []) = c ≢ a
LastNot a (c ∷ d ∷ ds) = LastNot a (d ∷ ds)

pub NoPair-LastNot : (a b : ℕ) (pre post : List ℕ) → NoPair a b (pre ++ b ∷ post) → LastNot a pre
NoPair-LastNot a b [] post h = tt
NoPair-LastNot a b (c ∷ []) post h = λ e. h.0 e refl
NoPair-LastNot a b (c ∷ d ∷ ds) post h = NoPair-LastNot a b (d ∷ ds) post h.1

-- What stands between may go, if the front does not end in `a`.
NoPair-join :
    (a b : ℕ) (pre mid post : List ℕ)
    → NoPair a b (pre ++ mid)
    → NoPair a b post
    → LastNot a pre
    → NoPair a b (pre ++ post)
NoPair-join a b [] mid post h k l = k
NoPair-join a b (c ∷ []) mid [] h k l = tt
NoPair-join a b (c ∷ []) mid (d ∷ ds) h k l = (λ e. absurd (l e), k)
NoPair-join a b (c ∷ d ∷ ds) mid post h k l = (h.0, NoPair-join a b (d ∷ ds) mid post h.1 k l)

-- The tests of the code decide these predicates.
pub rfind_pair-none : (a b : ℕ) (name : List ℕ) → rfind (a ∷ b ∷ []) name ≡ none → NoPair a b name
unfolding rfind
rfind_pair-none a b [] e = tt
rfind_pair-none a b (c ∷ []) e = tt
rfind_pair-none a b (c ∷ d ∷ ds) e =
    (λ p q. ground arith, rfind_pair-none a b (d ∷ ds) (ground arith))

pub NoPair-rfind : (a b : ℕ) (name : List ℕ) → NoPair a b name → rfind (a ∷ b ∷ []) name ≡ none
unfolding rfind
NoPair-rfind a b [] h = refl
NoPair-rfind a b (c ∷ []) h = ground arith
NoPair-rfind a b (c ∷ d ∷ ds) h = ground (arith, NoPair-rfind a b (d ∷ ds) h.1)

pub rfind_one-none : (a : ℕ) (name : List ℕ) → rfind (a ∷ []) name ≡ none → All (λ c. c ≢ a) name
unfolding rfind
rfind_one-none a [] e = tt
rfind_one-none a (c ∷ cs) e = (λ p. ground arith, rfind_one-none a cs (ground arith))

rfind-nil : (text : List ℕ) → 0 < length text → rfind text [] ≡ none
unfolding rfind
rfind-nil [] h = absurd (omega arith)
rfind-nil (t ∷ ts) h = refl

erase_at_lem :
    (text name pre post : List ℕ) (i : ℕ)
    → name ≡ pre ++ (text ++ post)
    → length pre ≡ i
    → erase_at i (length text) name ≡ pre ++ post
erase_at_lem text name pre post i split at_i = rw (split, ← at_i) (erase_at_split pre text post)

-- A property that every removal keeps holds of the result, and in the result the text is not found.
pub erase_all-keeps :
    (P : List ℕ → Type 0) (text : List ℕ)
    → 0 < length text
    → ((pre post : List ℕ) → P (pre ++ (text ++ post)) → P (pre ++ post))
    → (fuel : ℕ) (name : List ℕ) → length name ≤ fuel
    → P name
    → P (erase_all fuel text name) × (rfind text (erase_all fuel text name) ≡ none)
unfolding erase_all
erase_all-keeps P text some_text keep zero [] h p = (p, rfind-nil text some_text)
erase_all-keeps P text some_text keep zero (c ∷ cs) h p = absurd (omega arith)
erase_all-keeps P text some_text keep (suc fuel) name h p = elim (Option-cases (rfind text name)) [
  | inl e ↦ rw (e, erase_all) (p, e)
  | inr (i, e) ↦
      let (pre, post, split, at_i) = rfind_split text name i e in
      let shorter = erase_at_lem text name pre post i split at_i in
      rw (e, erase_all, shorter)
        (erase_all-keeps P text some_text keep fuel (pre ++ post)
          (omega (
            arith,
            ap (λ (l : List ℕ). length l) split,
            length-append pre (text ++ post),
            length-append text post,
            length-append pre post,
          ))
          (keep pre post (subst P split p)))
]

-- Without "..", removing a "./" or a "/" that follows no dot makes no new pair.
abbrev pub NoDots : List ℕ → Type 0
NoDots = NoPair dot dot

pub keep-NoDots :
    (pre post : List ℕ) → NoDots (pre ++ ((dot ∷ slash ∷ []) ++ post)) → NoDots (pre ++ post)
keep-NoDots pre post h =
    NoPair-join dot dot pre (dot ∷ slash ∷ post) post h
      (NoPair-tail dot dot slash post
        (NoPair-tail dot dot dot (slash ∷ post) (NoPair-behind dot dot pre (dot ∷ slash ∷ post) h)))
      (NoPair-LastNot dot dot pre (slash ∷ post) h)

abbrev pub NoDotsNorDotSlash : List ℕ → Type 0
NoDotsNorDotSlash name = NoDots name × NoPair dot slash name

pub keep_both :
    (pre post : List ℕ)
    → NoDotsNorDotSlash (pre ++ ((slash ∷ []) ++ post))
    → NoDotsNorDotSlash (pre ++ post)
keep_both pre post (h, k) =
    let last = NoPair-LastNot dot slash pre post k in
    (
      NoPair-join dot dot pre (slash ∷ post) post h
          (NoPair-tail dot dot slash post (NoPair-behind dot dot pre (slash ∷ post) h)) last,
      NoPair-join dot slash pre (slash ∷ post) post k
          (NoPair-tail dot slash slash post (NoPair-behind dot slash pre (slash ∷ post) k)) last,
    )

-- Whatever the name, what stripSlash leaves of it has neither ".." nor "/".
pub strip_slash_clean :
    (name : List ℕ)
    → (rfind (dot ∷ dot ∷ []) (strip_slash name) ≡ none)
      × (rfind (slash ∷ []) (strip_slash name) ≡ none)
unfolding strip_slash
strip_slash_clean name = elim (Option-cases (rfind (dot ∷ dot ∷ []) name)) [
  | inr (i, e) ↦ rw (e, strip_slash) (rfind-nil _ (omega arith), rfind-nil _ (omega arith))
  | inl e ↦
      let name₁ = erase_all (length name) (dot ∷ slash ∷ []) name in
      let (no_dots, no_dot_slash) =
        erase_all-keeps NoDots (dot ∷ slash ∷ []) (omega arith) keep-NoDots (length name) name
          (omega arith) (rfind_pair-none dot dot name e) in
      let (both, no_slash) =
        erase_all-keeps NoDotsNorDotSlash (slash ∷ []) (omega arith) keep_both (length name₁) name₁
          (omega arith) (no_dots, rfind_pair-none dot slash name₁ no_dot_slash) in
      rw (e, strip_slash) (NoPair-rfind dot dot _ both.0, no_slash)
]
