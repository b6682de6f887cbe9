-- ===== src/Context/Receive/Failure.antt =====
-- Streams on which Context::receive overruns its array, or does not come back.
use nfs_client_simulator.Common.{
  ℕ, ◌+◌, ◌-◌, ◌%◌, ◌^◌, ◌≤◌, ◌<◌, ◌≡◌, refl, ap, ◌∙◌, List, [], ◌∷◌, ◌++◌, fault, blocked, Bool,
  true, false, not, ◌&&◌, Bool-cases, inl, inr, leb, leb→le, ◌==◌, length, drop, length-drop,
  append-nil, arith, length-append,
}
use nfs_client_simulator.Common.Int.{ℤ, pos, minus_one}
use nfs_client_simulator.System.{RecvEvent, received, recv_failed, eagain}
use nfs_client_simulator.Xdr.{memcpy}
use nfs_client_simulator.Xdr.Encode.{be32, copy_lem}
use nfs_client_simulator.Xdr.Emit.{at-append_fault}
use nfs_client_simulator.Context.Receive.{Receiving, take_bytes, recv_loop, start_receive}
use nfs_client_simulator.Context.Receive.Framing.{
  Feeds, fed, piece, retry, last_error, waiting, recv_loop-received, take_bytes-waiting,
  recv_loop-retry,
}
use nfs_client_simulator.Context.Receive.Records.{recv_header, take_header-be32}

-- A piece that does not fit is written past the end; after one that does, the rest decides.
overrun_piece :
    (front buf b tail : List ℕ) (size : ℕ) (e : ℤ) (total : ℕ) (es : List RecvEvent)
    → 0 < length (b ++ tail)
    → size ≡ length front + length (b ++ tail)
    → length buf < length (b ++ tail)
    → (length b ≤ length buf
        → recv_loop es (
            waiting
              (front ++ b)
              (drop (length b) buf)
              size
              (length tail)
              true
              (pos (length b))
              ((total + length b) % 2 ^ 64))
          ≡ fault)
    → recv_loop (received b ∷ es) (waiting front buf size (length (b ++ tail)) true e total) ≡ fault
unfolding take_bytes memcpy
overrun_piece front buf b tail size e total es more at_front short later =
    elim (Bool-cases (leb (length b) (length buf))) [
      | inl h ↦
          let room = leb→le (length b) (length buf) h in
          let left : length (b ++ tail) - length b ≡ length tail =
            omega (arith, length-append b tail) in
          rw
            (
              recv_loop-received front buf b size (length (b ++ tail)) true e total es more
                  (omega (arith, length-append b tail)),
              take_bytes-waiting front buf b size (length (b ++ tail)) true e total at_front room,
              left,
            )
            (later room)
      | inr h ↦
          let start : size - length (b ++ tail) ≡ length front = omega arith in
          let past : memcpy buf b ≡ fault = rw (copy_lem buf b, h) in
          rw (
            recv_loop-received front buf b size (length (b ++ tail)) true e total es more
                (omega (arith, length-append b tail)),
            start,
            at-append_fault front buf (λ p. memcpy p b) past,
          )
    ]

-- More bytes than the array has room for are written behind its end.
overrun :
    {es : List RecvEvent} {bytes : List ℕ} (front buf : List ℕ) (size : ℕ) (e : ℤ) (total : ℕ)
    (rest : List RecvEvent)
    → Feeds es bytes
    → size ≡ length front + length bytes
    → length buf < length bytes
    → recv_loop (es ++ rest) (waiting front buf size (length bytes) true e total) ≡ fault
overrun front buf size e total rest fed at_front short = absurd (omega arith)
overrun front buf size e total rest (retry {es} {bytes} errno again more f) at_front short =
    rw
      (recv_loop-retry (waiting front buf size (length bytes) true e total) (es ++ rest) errno more
        again)
      (overrun front buf size minus_one total rest f at_front short)
overrun front buf size e total rest (piece {es} {bytes} b tail split more f) at_front short =
    rw split (
      overrun_piece front buf b tail size e total (es ++ rest) (rw split at more)
        (rw split at at_front) (rw split at short)
        (λ h.
          overrun (front ++ b) (drop (length b) buf) size (pos (length b))
            ((total + length b) % 2 ^ 64) rest f
            (omega (
              arith,
              ap (λ (l : List ℕ). length l) split,
              length-append front b,
              length-append b tail,
            ))
            (omega (
              arith,
              ap (λ (l : List ℕ). length l) split,
              length-drop (length b) buf,
              length-append b tail,
            ))))

-- The peer has closed its side, or nothing comes until the timeout: the call yields nothing.
pub data IsIdle : RecvEvent → Type 0 where
  closed : IsIdle (received [])
  timeout : (errno : ℕ) → errno ≡ eagain → IsIdle (recv_failed errno)

abbrev pub AllIdle : List RecvEvent → Type 0
AllIdle [] = Unit
AllIdle (e ∷ es) = IsIdle e × AllIdle es

Bool-and-false : (b : Bool) → (b && false) ≡ false
Bool-and-false true = refl
Bool-and-false false = refl

idle_round :
    (ev : RecvEvent) (es : List RecvEvent) (front buf : List ℕ) (size n : ℕ) (header : Bool) (e : ℤ)
    (total : ℕ)
    → 0 < n
    → size ≡ length front + n
    → IsIdle ev
    → (e' : ℤ) × (total' : ℕ) × (recv_loop (ev ∷ es) (waiting front buf size n header e total)
        ≡ recv_loop es (waiting front buf size n header e' total'))
idle_round ev es front buf size n header e total more at_front (timeout errno again) = (
  minus_one,
  total,
  recv_loop-retry (waiting front buf size n header e total) es errno more again,
)
idle_round ev es front buf size n header e total more at_front closed = (
  pos 0,
  (total + 0) % 2 ^ 64,
  rw
      (
        recv_loop-received front buf [] size n header e total es more (omega arith),
        take_bytes-waiting front buf [] size n header e total at_front (omega arith),
        none_taken,
        append-nil front,
      )
      (rw (still_open, Bool-and-false (not header))),
)
  where
    none_taken : n - 0 ≡ n
    none_taken = omega arith

    still_open : (n == 0) ≡ false
    still_open = ground arith

-- As long as bytes are pending, the loop of receive goes on waiting however often recv yields the end of
-- the stream or a timeout: it reports neither.
pub recv_loop-AllIdle :
    (es : List RecvEvent) (front buf : List ℕ) (size n : ℕ) (header : Bool) (e : ℤ) (total : ℕ)
    → 0 < n
    → size ≡ length front + n
    → AllIdle es
    → recv_loop es (waiting front buf size n header e total) ≡ blocked
recv_loop-AllIdle [] front buf size n header e total more at_front idle =
    let still_open : (n == 0) ≡ false = ground arith in
    unfold recv_loop in rw (still_open, recv_loop)
recv_loop-AllIdle (ev ∷ es) front buf size n header e total more at_front (idle, others) =
    let (e', total', step) = idle_round ev es front buf size n header e total more at_front idle in
    step ∙ recv_loop-AllIdle es front buf size n header e' total' more at_front others

-- A record that is longer than the array of receive is written past its end, whatever the pieces in
-- which recv yields it.
pub recv_loop_overrun :
    {head_events body_events : List RecvEvent} (mark : ℕ) (body wire : List ℕ) (error : ℤ)
    (total : ℕ) (rest : List RecvEvent)
    → Feeds head_events (be32 mark)
    → Feeds body_events body
    → mark < 2 ^ 32
    → mark % 2 ^ 31 ≡ length body
    → 4 ≤ length wire
    → length wire < length body
    → total < 2 ^ 64
    → recv_loop (head_events ++ (body_events ++ rest)) (start_receive wire error total) ≡ fault
recv_loop_overrun {head_events} mark body wire error total rest f g word n four short small =
    recv_header [] wire 4 error total _ f (omega arith) refl four small
    ∙ rw (take_header-be32 complete mark (drop 4 wire) word refl, n)
        (overrun [] (be32 (length body) ++ drop 4 wire) (length body) (last_error head_events error)
          ((total + 4) % 2 ^ 64) rest g (omega arith) (omega (arith, length-drop 4 wire)))
  where
    complete : Receiving
    complete =
        waiting (be32 mark) (drop 4 wire) 4 0 false (last_error head_events error)
          ((total + 4) % 2 ^ 64)
