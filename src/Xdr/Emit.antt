-- ===== src/Xdr/Emit.antt =====
-- Sequences of writes, each where the last one ended, and writes back into what stands already.
use nfs_client_simulator.Common.{
  ℕ, ◌+◌, ◌^◌, ◌<◌, ◌≡◌, sym, ap, ◌∙◌, List, [], ◌∷◌, ◌++◌, Outcome, ok, fault, ◌>>=◌, leb,
  if◌then◌else◌, length, drop, arith, append_assoc, drop-drop, length-append, length-drop,
  Bool-cases, inl, inr, leb→le, leb_false→lt, lt→leb_false,
}
use nfs_client_simulator.Xdr.{Buffer, at, emit}
use nfs_client_simulator.Xdr.Encode.{Written}

-- The operation writes `bytes`, and nothing else, on a buffer of any length.
abbrev pub Writes : (Buffer → Outcome (ℕ × Buffer)) → List ℕ → Type 0
Writes f bytes = (buf : Buffer) → f buf ≡ Written buf bytes

pub at-append_ok {ℓ} :
    {A : Type ℓ} (pre buf : Buffer) (f : Buffer → Outcome (A × Buffer)) {a : A} {buf' : Buffer}
    → f buf ≡ ok (a, buf')
    → at (pre ++ buf) (length pre) f ≡ ok (a, pre ++ buf')
unfolding at
at-append_ok [] buf f e = e
at-append_ok (x ∷ pre) buf f e = rw (at-append_ok pre buf f e)

pub at-append_fault {ℓ} :
    {A : Type ℓ} (pre buf : Buffer) (f : Buffer → Outcome (A × Buffer))
    → f buf ≡ fault
    → at (pre ++ buf) (length pre) f ≡ fault
unfolding at
at-append_fault [] buf f e = e
at-append_fault (x ∷ pre) buf f e = rw (at-append_fault pre buf f e)

-- From size `n` on, the operation writes `bytes` behind what stands, and adds their number.
pub record Emits (n : ℕ) (op : ℕ × Buffer → Outcome (ℕ × Buffer)) (bytes : List ℕ) : Type 0 where
  pub emits :
      (pre buf : Buffer)
      → length pre ≡ n
      → length pre + length buf < 2 ^ 32
      → op (n, pre ++ buf) ≡ (
          if leb (length bytes) (length buf)
          then ok (n + length bytes, pre ++ bytes ++ drop (length bytes) buf)
          else fault)

module _ (n : ℕ) (f : Buffer → Outcome (ℕ × Buffer)) (bytes : List ℕ) (w : Writes f bytes) where
  emit_lem :
      (pre buf : Buffer)
      → length pre ≡ n
      → length pre + length buf < 2 ^ 32
      → emit f (n, pre ++ buf) ≡ (
          if leb (length bytes) (length buf)
          then ok (n + length bytes, pre ++ bytes ++ drop (length bytes) buf)
          else fault)
  unfolding emit
  emit_lem pre buf e fits = elim (Bool-cases (leb (length bytes) (length buf))) [
    | inl h ↦
        let room = leb→le (length bytes) (length buf) h in
        let rest : Buffer = drop (length bytes) buf in
        let front : f buf ≡ ok (length bytes, bytes ++ rest) = w buf ∙ rw h in
        rw (sym e, h, at-append_ok pre buf f front, append_assoc pre bytes rest)
          (ap {B = Outcome (ℕ × Buffer)} (λ (k : ℕ). ok (k, pre ++ (bytes ++ rest))) (omega arith))
    | inr h ↦ rw (sym e, h, at-append_fault pre buf f (w buf ∙ rw h))
  ]

  pub emit-Emits : Emits n (emit f) bytes
  emit-Emits = record { emits = emit_lem }

  -- So too where the operation itself depends on the size.
  pub emit_sized-Emits :
      (g : ℕ → Buffer → Outcome (ℕ × Buffer)) → g n ≡ f → Emits n (λ s. emit (g s.0) s) bytes
  emit_sized-Emits g e = record { emits = λ pre buf h fits. rw e (emit_lem pre buf h fits) }

module _ {n : ℕ} {f g : ℕ × Buffer → Outcome (ℕ × Buffer)} {xs ys : List ℕ} where
  then_lem :
      Emits n f xs
      → Emits (n + length xs) g ys
      → (pre buf : Buffer) → length pre ≡ n
      → length pre + length buf < 2 ^ 32
      → (f (n, pre ++ buf) >>= g) ≡ (
          if leb (length (xs ++ ys)) (length buf)
          then ok (n + length (xs ++ ys), pre ++ (xs ++ ys) ++ drop (length (xs ++ ys)) buf)
          else fault)
  then_lem p q pre buf e fits = elim (Bool-cases (leb (length xs) (length buf))) [
    | inl h ↦
        rw (p.emits pre buf e fits, h)
          (let room = leb→le (length xs) (length buf) h in
            ground (
              arith,
              q.emits (pre ++ xs) (drop (length xs) buf) (omega (arith, length-append pre xs))
                  (omega (arith, length-append pre xs, length-drop (length xs) buf)),
              length-drop (length xs) buf,
              length-append xs ys,
              append_assoc pre xs ys,
              drop-drop (length xs) (length ys) buf,
              room,
            ))
    | inr h ↦ rw (
      p.emits pre buf e fits,
      h,
      lt→leb_false (length (xs ++ ys)) (length buf)
          (omega (arith, length-append xs ys, leb_false→lt (length xs) (length buf) h)),
    )
  ]

  pub then-Emits : Emits n f xs → Emits (n + length xs) g ys → Emits n (λ s. f s >>= g) (xs ++ ys)
  then-Emits p q = record { emits = then_lem p q }
