-- ===== src/Context/Receive/Framing.antt =====
-- Context::receive on a stream that carries one record, however the kernel cuts it.
use nfs_client_simulator.Common.{
  ℕ, ◌+◌, ◌-◌, ◌%◌, ◌^◌, ◌≤◌, ◌<◌, ◌≡◌, List, [], ◌∷◌, ◌++◌, none, ok, ◌>>=◌, Bool, false, not,
  ◌&&◌, le→leb, ◌==◌, if◌then◌else◌, length, drop, take-le, append_assoc, arith, length-append,
}
use nfs_client_simulator.Common.Int.{ℤ, pos, minus_one}
use nfs_client_simulator.System.{RecvEvent, received, recv_failed, eagain}
use nfs_client_simulator.Xdr.{Buffer, memcpy}
use nfs_client_simulator.Xdr.Encode.{copy_lem}
use nfs_client_simulator.Xdr.Emit.{at-append_ok}
use nfs_client_simulator.Context.Receive.{Receiving, take_header, take_bytes, recv_loop}

-- Calls that yield `bytes`, in pieces of any size, empty ones too, and with timeouts in between. The
-- last one yields the last byte.
pub data Feeds : List RecvEvent → List ℕ → Type 0 where
  fed : Feeds [] []
  piece :
      {es : List RecvEvent} {bytes : List ℕ} (b tail : List ℕ)
      → bytes ≡ b ++ tail
      → 0 < length bytes
      → Feeds es tail
      → Feeds (received b ∷ es) bytes
  retry :
      {es : List RecvEvent} {bytes : List ℕ} (errno : ℕ)
      → errno ≡ eagain
      → 0 < length bytes
      → Feeds es bytes
      → Feeds (recv_failed errno ∷ es) bytes

-- What the last call leaves in the member `error`.
abbrev pub last_error : List RecvEvent → ℤ → ℤ
last_error [] e = e
last_error (received b ∷ es) e = last_error es (pos (length b))
last_error (recv_failed errno ∷ es) e = last_error es minus_one

pub recv_loop_done :
    (rest : List RecvEvent) (s : Receiving)
    → s.pending ≡ 0
    → recv_loop rest s ≡ ok (record { failure = none; state = s; rest = rest })
unfolding recv_loop
recv_loop_done [] s e = rw e
recv_loop_done (received b ∷ es) s e = rw e
recv_loop_done (recv_failed errno ∷ es) s e = rw e

-- A state of the loop: `front` has been filled, `n` bytes are to come, and they go to `buf`.
abbrev pub waiting : List ℕ → Buffer → ℕ → ℕ → Bool → ℤ → ℕ → Receiving
waiting front buf size n header error total = record {
  wire = front ++ buf;
  size = size;
  pending = n;
  header_received = header;
  error = error;
  total_received = total;
}

module _ (front buf b : List ℕ) (size n : ℕ) (header : Bool) (e : ℤ) (total : ℕ) where
  -- One call yields `b`, no more than is missing, and there is room for it.
  pub take_bytes-waiting :
      size ≡ length front + n
      → length b ≤ length buf
      → take_bytes (waiting front buf size n header e total) b ≡ (
          let s =
            waiting
              (front ++ b)
              (drop (length b) buf)
              size
              (n - length b)
              header
              (pos (length b))
              ((total + length b) % 2 ^ 64) in
          if not header && (n - length b == 0) then take_header s else ok s)
  unfolding take_bytes memcpy
  take_bytes-waiting at_front room =
      let start : size - n ≡ length front = omega arith in
      let copied : memcpy buf b ≡ ok (tt, b ++ drop (length b) buf) =
        rw (copy_lem buf b, le→leb (length b) (length buf) room) in
      rw (
        start,
        at-append_ok front buf (λ p. memcpy p b) copied,
        append_assoc front b (drop (length b) buf),
      )

  pub recv_loop-received :
      (es : List RecvEvent)
      → 0 < n
      → length b ≤ n
      → recv_loop (received b ∷ es) (waiting front buf size n header e total)
        ≡ (do s ← take_bytes (waiting front buf size n header e total) b; recv_loop es s)
  unfolding recv_loop
  recv_loop-received es more fits =
      let open_ : (n == 0) ≡ false = ground arith in rw (open_, recv_loop, take-le n b fits)

pub recv_loop-retry :
    (s : Receiving) (es : List RecvEvent) (errno : ℕ)
    → 0 < s.pending
    → errno ≡ eagain
    → recv_loop (recv_failed errno ∷ es) s ≡ recv_loop es (record s { error = minus_one })
unfolding recv_loop
recv_loop-retry s es errno more again =
    let open_ : (s.pending == 0) ≡ false = ground arith in rw (open_, recv_loop, again)

-- The piece `b` has been taken; `tail` is still to come.
pub after_piece :
    (front buf b tail : List ℕ) (size : ℕ) (header : Bool) (e : ℤ) (total : ℕ) (es : List RecvEvent)
    → 0 < length (b ++ tail)
    → size ≡ length front + length (b ++ tail)
    → length (b ++ tail) ≤ length buf
    → recv_loop (received b ∷ es) (waiting front buf size (length (b ++ tail)) header e total) ≡ (do
      s ←
          let s =
            waiting
              (front ++ b)
              (drop (length b) buf)
              size
              (length tail)
              header
              (pos (length b))
              ((total + length b) % 2 ^ 64) in
          if not header && (length tail == 0) then take_header s else ok s
      recv_loop es s)
after_piece front buf b tail size header e total es more at_front room =
    let sum = length-append b tail in
    let left : length (b ++ tail) - length b ≡ length tail = omega arith in
    rw (
      recv_loop-received front buf b size (length (b ++ tail)) header e total es more (omega arith),
      take_bytes-waiting front buf b size (length (b ++ tail)) header e total at_front
          (omega arith),
      left,
    )
