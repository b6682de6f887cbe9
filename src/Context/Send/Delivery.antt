-- ===== src/Context/Send/Delivery.antt =====
-- What Context::send hands to the kernel.
use nfs_client_simulator.Common.{
  ℕ, zero, suc, ◌+◌, ◌-◌, ◌%◌, ◌^◌, ◌≤◌, ◌<◌, ◌≡◌, ◌≢◌, ◌⊎◌, refl, ap, List, [], ◌∷◌, ◌++◌, none,
  Outcome, ok, ◌>>=◌, false, Bool-cases, inl, inr, leb, leb→le, le→leb, ◌==◌, length, take, drop,
  append-nil, drop-drop, arith,
}
use nfs_client_simulator.Common.Int.{ℤ, pos, minus_one, ne→eqb_false}
use nfs_client_simulator.System.{SendEvent, taken, send_failed}
use nfs_client_simulator.Xdr.{Buffer}
use nfs_client_simulator.Context.{Client}
use nfs_client_simulator.Context.Send.{Sending, kernel_read, send_loop, finish_send, send}

-- Calls that take `pending` bytes altogether, the last of them the last byte.
pub data Takes : List SendEvent → ℕ → Type 0 where
  all_taken : Takes [] 0
  part : {es : List SendEvent} {n p q : ℕ} → 0 < q → q ≡ n + p → Takes es p → Takes (taken n ∷ es) q

take-nil : (n : ℕ) → ◌≡◌ {A = List ℕ} (take n []) []
take-nil zero = refl
take-nil (suc n) = refl

take-add : (m n : ℕ) (xs : List ℕ) → take m xs ++ take n (drop m xs) ≡ take (m + n) xs
take-add zero n xs = let e : zero + n ≡ n = omega arith in rw e
take-add (suc m) n [] = let e : suc m + n ≡ suc (m + n) = omega arith in rw (e, take-nil n)
take-add (suc m) n (x ∷ xs) =
    let e : suc m + n ≡ suc (m + n) = omega arith in rw (e, take-add m n xs)

-- One round in which the kernel takes `n` bytes.
send_round :
    (es : List SendEvent) (wire : Buffer) (size n q : ℕ)
    → 0 < q
    → n ≤ q
    → size ≤ length wire
    → send_loop (taken n ∷ es) wire size q ≡ (do
      r ← send_loop es wire size (q - n)
      ok (record r { sent = take n (drop (size - q) wire) ++ r.sent }))
unfolding send_loop
send_round es wire size n zero more fits room = absurd (omega arith)
send_round es wire size n (suc p) more fits room =
    rw (le→leb size (length wire) room, le→leb n (suc p) fits)

send_loop-Takes :
    {es : List SendEvent} {pending : ℕ} (wire : Buffer) (size : ℕ) (rest : List SendEvent)
    → Takes es pending
    → pending ≤ size
    → size ≤ length wire
    → send_loop (es ++ rest) wire size pending
      ≡ ok
          (record { failure = none; sent = take pending (drop (size - pending) wire); rest = rest })
send_loop-Takes wire size rest all_taken h room = unfold send_loop in refl
send_loop-Takes wire size rest (part {es} {n} {p} {q} more split t) h room =
    let left : q - n ≡ p = omega arith in
    rw
      (
        send_round (es ++ rest) wire size n q more (omega arith) room,
        left,
        send_loop-Takes wire size rest t (omega arith) room,
      )
      (ap {B = Outcome Sending}
        (λ (bytes : List ℕ). ok (record { failure = none; sent = bytes; rest = rest })) joined)
  where
    joined :
        take n (drop (size - q) wire) ++ take p (drop (size - p) wire)
        ≡ take q (drop (size - q) wire)
    joined =
        let next : size - p ≡ size - q + n = omega arith in
        rw (next, ← drop-drop (size - q) n wire, split) (take-add n p (drop (size - (n + p)) wire))

-- With an open socket, if the kernel takes the message piece by piece, send returns 0, has handed over
-- exactly the bytes of the message, in order, and has counted them. The message is not empty and lies in
-- the array.
pub send-Takes :
    (c : Client) {es : List SendEvent} (rest : List SendEvent) (wire : Buffer) (size : ℕ)
    → c.socket_fd ≢ minus_one
    → 0 < size
    → size ≤ length wire
    → Takes es size
    → c.sends ≡ es ++ rest
    → send c wire size
      ≡ ok (
        pos 0,
        record {
          context = record c.context { total_sent = (c.total_sent + size) % 2 ^ 64 };
          system = record c.system { sends = rest; sent = c.sent ++ take size wire };
        },
      )
unfolding send finish_send
send-Takes c rest wire size fd more room t e =
    let some_bytes : (size == 0) ≡ false = ground arith in
    let all : size - size ≡ 0 = omega arith in
    rw (
      some_bytes,
      ne→eqb_false c.socket_fd minus_one fd,
      e,
      send_loop-Takes wire size rest t (omega arith) room,
      all,
    )

-- The bytes of a run of the loop are a front of the message, all of it if there was no failure.
abbrev IsFront : Buffer → ℕ → ℕ → Outcome Sending → Type 0
IsFront wire size pending (ok r) =
    (k : ℕ) × (k ≤ pending)
    × (r.sent ≡ take k (drop (size - pending) wire))
    × (r.failure ≡ none → k ≡ pending)
IsFront wire size pending Outcome.aborted = Unit
IsFront wire size pending Outcome.fault = Unit
IsFront wire size pending Outcome.blocked = Unit

module _ (es : List SendEvent) (wire : Buffer) (size p n : ℕ) (fits : n ≤ suc p)
    (inside : suc p ≤ size) where
  IsFront-grows :
      (o : Outcome Sending)
      → IsFront wire size (suc p - n) o
      → IsFront wire size
          (suc p)
          (do r ← o; ok (record r { sent = take n (drop (size - suc p) wire) ++ r.sent }))
  IsFront-grows (ok r) (k, within, front, whole) =
      let next : size - (suc p - n) ≡ size - suc p + n = omega arith in
      (
        n + k,
        omega arith,
        rw (front, next, ← drop-drop (size - suc p) n wire)
            (take-add n k (drop (size - suc p) wire)),
        λ e. omega (arith, whole e),
      )
  IsFront-grows Outcome.aborted h = tt
  IsFront-grows Outcome.fault h = tt
  IsFront-grows Outcome.blocked h = tt

send_loop-IsFront :
    (es : List SendEvent) (wire : Buffer) (size pending : ℕ)
    → pending ≤ size
    → IsFront wire size pending (send_loop es wire size pending)
unfolding send_loop kernel_read
send_loop-IsFront es wire size zero h = (0, omega arith, refl, λ e. refl)
send_loop-IsFront [] wire size (suc p) h = tt
send_loop-IsFront (taken n ∷ es) wire size (suc p) h = elim (Bool-cases (leb size (length wire))) [
  | inr outside ↦ rw (outside, kernel_read) tt
  | inl inside ↦ elim (Bool-cases (leb n (suc p))) [
    | inr above ↦ rw (inside, kernel_read, above) tt
    | inl fits ↦
        rw (inside, kernel_read, fits)
          (IsFront-grows es wire size p n (leb→le n (suc p) fits) h _
            (send_loop-IsFront es wire size (suc p - n) (omega arith)))
  ]
]
send_loop-IsFront (send_failed errno ∷ es) wire size (suc p) h = (0, omega arith, refl, λ e. cc)

-- What a call of `send` with result `r` has done.
abbrev pub Handed : Client → Client → Buffer → ℕ → ℤ → Type 0
Handed c c' wire size r =
    (k : ℕ) × (k ≤ size)
    × (c'.sent ≡ c.sent ++ take k wire)
    × (r ≡ pos 0 → k ≡ size)
    × ((r ≡ pos 0) ⊎ (r ≡ minus_one))

finish_send-Handed :
    (c c' : Client) (wire : Buffer) (size : ℕ) (r : ℤ) (o : Outcome Sending)
    → IsFront wire size size o
    → (do s ← o; ok (finish_send c size s)) ≡ ok (r, c')
    → Handed c c' wire size r
unfolding finish_send
finish_send-Handed c c' wire size r (ok s) (k, within, front, whole) e =
    let all : size - size ≡ 0 = omega arith in
    let front' : s.sent ≡ take k wire = rw all at front in
    (k, within, ground arith, ground arith, ground arith)
finish_send-Handed c c' wire size r Outcome.aborted h e = ground arith
finish_send-Handed c c' wire size r Outcome.fault h e = ground arith
finish_send-Handed c c' wire size r Outcome.blocked h e = ground arith

-- With an open socket, whatever the kernel answers, when send returns then the bytes handed over are a
-- front of the message, and where the result is 0 they are all of it. The only other result is -1.
pub send-Handed :
    (c c' : Client) (wire : Buffer) (size : ℕ) (r : ℤ)
    → c.socket_fd ≢ minus_one
    → send c wire size ≡ ok (r, c')
    → Handed c c' wire size r
unfolding send
send-Handed c c' wire size r fd e = elim (Bool-cases (size == 0)) [
  | inl empty ↦ (0, omega arith, ground (arith, append-nil c.sent), ground arith, ground arith)
  | inr more ↦
      finish_send-Handed c c' wire size r (send_loop c.sends wire size size)
        (send_loop-IsFront c.sends wire size size (omega arith))
        (rw (more, ne→eqb_false c.socket_fd minus_one fd) at e)
]
