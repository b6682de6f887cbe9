-- ===== src/Inode/Plain.antt =====
-- stripSlash in one pass.
use nfs_client_simulator.Common.{
  ℕ, ◌≡◌, ◌≢◌, inl, inr, refl, ap, sym, ◌∙◌, List, [], ◌∷◌, ◌++◌, Bool, false, ◌&&◌, ◌||◌, none,
  Option-cases, Bool-cases, All, arith, ◌==◌, if◌then◌else◌, length, ne→==_false,
}
use nfs_client_simulator.Inode.{starts_with, rfind, erase_all, strip_slash, dot, slash}
use nfs_client_simulator.Inode.Strip.{
  LastNot, NoDots, NoDotsNorDotSlash, NoPair-LastNot, rfind_pair-none, NoPair-rfind, rfind_one-none,
  keep-NoDots, keep_both, erase_all-keeps, strip_slash_clean,
}

-- Two dots stand next to each other.
abbrev pub has_dots : List ℕ → Bool
has_dots [] = false
has_dots (c ∷ []) = false
has_dots (c ∷ d ∷ ds) = (c == dot) && (d == dot) || has_dots (d ∷ ds)

-- A slash goes, and so does a dot that a slash follows.
abbrev pub goes : ℕ → List ℕ → Bool
goes c cs = (c == slash) || (c == dot) && starts_with (slash ∷ []) cs

-- The name without what goes.
abbrev pub plain : List ℕ → List ℕ
plain [] = []
plain (c ∷ cs) = let rest : List ℕ = plain cs in if goes c cs then rest else c ∷ rest

has_dots-NoDots : (name : List ℕ) → has_dots name ≡ false → NoDots name
has_dots-NoDots [] e = tt
has_dots-NoDots (c ∷ []) e = tt
has_dots-NoDots (c ∷ d ∷ ds) e = (λ p q. ground arith, has_dots-NoDots (d ∷ ds) (ground arith))

NoDots-has_dots : (name : List ℕ) → NoDots name → has_dots name ≡ false
NoDots-has_dots [] h = refl
NoDots-has_dots (c ∷ []) h = refl
NoDots-has_dots (c ∷ d ∷ ds) h = ground (arith, NoDots-has_dots (d ∷ ds) h.1)

-- Behind a front that does not end in a dot, only what stands there decides what is left of it.
plain-join :
    (pre mid post : List ℕ)
    → LastNot dot pre
    → plain mid ≡ plain post
    → plain (pre ++ mid) ≡ plain (pre ++ post)
plain-join [] mid post h e = e
plain-join (c ∷ []) mid post h e = rw (ne→==_false c dot h, e) refl
plain-join (c ∷ d ∷ ds) mid post h e = rw (plain-join (d ∷ ds) mid post h e) refl

goes-All : (c : ℕ) (cs : List ℕ) → c ≢ slash → All (λ d. d ≢ slash) cs → goes c cs ≡ false
goes-All c [] h k = ground arith
goes-All c (d ∷ ds) h (k, ks) = ground arith

-- Where there is no slash, nothing goes.
plain-All : (name : List ℕ) → All (λ c. c ≢ slash) name → plain name ≡ name
plain-All [] h = refl
plain-All (c ∷ cs) (h, hs) = rw (goes-All c cs h hs) (ap (λ (l : List ℕ). c ∷ l) (plain-All cs hs))

-- What both loops leave alone.
abbrev LeavesPlain : List ℕ → List ℕ → Type 0
LeavesPlain name s = plain s ≡ plain name

keep_dots :
    (name pre post : List ℕ)
    → NoDots (pre ++ ((dot ∷ slash ∷ []) ++ post))
      × LeavesPlain name (pre ++ ((dot ∷ slash ∷ []) ++ post))
    → NoDots (pre ++ post) × LeavesPlain name (pre ++ post)
keep_dots name pre post (h, e) =
    let last = NoPair-LastNot dot dot pre (slash ∷ post) h in
    (keep-NoDots pre post h, sym (plain-join pre (dot ∷ slash ∷ post) post last refl) ∙ e)

keep_slashes :
    (name pre post : List ℕ)
    → NoDotsNorDotSlash (pre ++ ((slash ∷ []) ++ post))
      × LeavesPlain name (pre ++ ((slash ∷ []) ++ post))
    → NoDotsNorDotSlash (pre ++ post) × LeavesPlain name (pre ++ post)
keep_slashes name pre post (h, e) =
    let last = NoPair-LastNot dot slash pre post h.1 in
    (keep_both pre post h, sym (plain-join pre (slash ∷ post) post last refl) ∙ e)

one_pass : (name : List ℕ) → strip_slash name ≡ (if has_dots name then [] else plain name)
unfolding strip_slash
one_pass name = elim (Option-cases (rfind (dot ∷ dot ∷ []) name)) [
  | inr (i, e) ↦ elim (Bool-cases (has_dots name)) [
    | inl dots ↦ rw (dots, e, strip_slash) refl
    | inr no_dots ↦ let none_found = NoPair-rfind dot dot name (has_dots-NoDots name no_dots) in cc
  ]
  | inl e ↦
      let no_dots = rfind_pair-none dot dot name e in
      let name₁ = erase_all (length name) (dot ∷ slash ∷ []) name in
      let (kept, no_dot_slash) =
        erase_all-keeps (λ s. NoDots s × LeavesPlain name s) (dot ∷ slash ∷ []) (omega arith)
          (keep_dots name) (length name) name (omega arith) (no_dots, refl) in
      let (kept₁, no_slash) =
        erase_all-keeps (λ s. NoDotsNorDotSlash s × LeavesPlain name s) (slash ∷ []) (omega arith)
          (keep_slashes name) (length name₁) name₁ (omega arith)
          ((kept.0, rfind_pair-none dot slash name₁ no_dot_slash), kept.1) in
      let result = erase_all (length name₁) (slash ∷ []) name₁ in
      rw (NoDots-has_dots name no_dots, e, strip_slash)
        (sym (plain-All result (rfind_one-none slash result no_slash)) ∙ kept₁.1)
]

-- stripSlash gives the empty name for a name with two dots in a row. From every other name its two loops, which
-- look for the last "./" and the last "/" and start again behind each removal, remove what one pass removes:
-- each slash, and each dot in front of a slash. What is left has neither ".." nor "/".
pub strip_slash-plain :
    (name : List ℕ)
    → (strip_slash name ≡ (if has_dots name then [] else plain name))
      × (rfind (dot ∷ dot ∷ []) (strip_slash name) ≡ none)
      × (rfind (slash ∷ []) (strip_slash name) ≡ none)
strip_slash-plain name = (one_pass name, (strip_slash_clean name).0, (strip_slash_clean name).1)
