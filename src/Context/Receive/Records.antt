-- ===== src/Context/Receive/Records.antt =====
-- Records that arrive in pieces, through the loop of Context::receive and the call.
use nfs_client_simulator.Common.{
  ℕ, ◌+◌, ◌%◌, ◌^◌, ◌≤◌, ◌<◌, ◌≡◌, ◌≢◌, refl, ap, ◌∙◌, List, [], ◌∷◌, ◌++◌, none, ok, ◌>>=◌, true,
  false, ◌==◌, length, drop, length-drop, append_assoc, append-nil, drop-drop, arith, length-append,
}
use nfs_client_simulator.Common.Int.{ℤ, pos, minus_one, ne→eqb_false}
use nfs_client_simulator.System.{RecvEvent}
use nfs_client_simulator.Xdr.Encode.{be32}
use nfs_client_simulator.Xdr.Decode.{xdr_decode_u32-drop}
use nfs_client_simulator.Xdr.RoundTrip.{xdr_strip_last_fragment-be32}
use nfs_client_simulator.Context.{Client}
use nfs_client_simulator.Context.Receive.{
  Receiving, take_header, recv_loop, finish_receive, receive, start_receive,
}
use nfs_client_simulator.Context.Receive.Framing.{
  Feeds, fed, piece, retry, last_error, recv_loop_done, waiting, recv_loop-retry, after_piece,
}

-- The body: all of it goes behind `front`, and nothing else changes in the array.
recv_body :
    {es : List RecvEvent} {bytes : List ℕ} (front buf : List ℕ) (size : ℕ) (e : ℤ) (total : ℕ)
    (rest : List RecvEvent)
    → Feeds es bytes
    → size ≡ length front + length bytes
    → length bytes ≤ length buf
    → total < 2 ^ 64
    → recv_loop (es ++ rest) (waiting front buf size (length bytes) true e total)
      ≡ ok (record {
        failure = none;
        state =
            waiting
              (front ++ bytes)
              (drop (length bytes) buf)
              size
              0
              true
              (last_error es e)
              ((total + length bytes) % 2 ^ 64);
        rest = rest;
      })
recv_body front buf size e total rest fed at_front room small =
    let same : (total + 0) % 2 ^ 64 ≡ total = omega arith in
    rw (same, append-nil front) (recv_loop_done rest _ refl)
recv_body front buf size e total rest (piece {es} {bytes} b tail split more f) at_front room small =
    let sum = length-append b tail in
    let size_left : size ≡ length (front ++ b) + length tail =
      omega (arith, ap (λ (l : List ℕ). length l) split, length-append front b) in
    let total_after : ((total + length b) % 2 ^ 64 + length tail) % 2 ^ 64
        ≡ (total + length (b ++ tail)) % 2 ^ 64 =
      omega arith in
    rw split (
      after_piece front buf b tail size true e total (es ++ rest) (rw split at more)
        (rw split at at_front) (rw split at room)
      ∙ recv_body (front ++ b) (drop (length b) buf) size (pos (length b))
          ((total + length b) % 2 ^ 64) rest f size_left
          (omega (arith, ap (λ (l : List ℕ). length l) split, length-drop (length b) buf))
          (omega arith)
      ∙ rw (append_assoc front b tail, drop-drop (length b) (length tail) buf, total_after, sum))
recv_body front buf size e total rest (retry {es} {bytes} errno again more f) at_front room small =
    rw
      (recv_loop-retry (waiting front buf size (length bytes) true e total) (es ++ rest) errno more
        again)
      (recv_body front buf size minus_one total rest f at_front room small)

-- The size header: when its last byte has come, it is decoded, and the loop goes on.
pub recv_header :
    {es : List RecvEvent} {bytes : List ℕ} (front buf : List ℕ) (size : ℕ) (e : ℤ) (total : ℕ)
    (rest : List RecvEvent)
    → Feeds es bytes
    → 0 < length bytes
    → size ≡ length front + length bytes
    → length bytes ≤ length buf
    → total < 2 ^ 64
    → recv_loop (es ++ rest) (waiting front buf size (length bytes) false e total) ≡ (do
      s ← take_header (
          waiting
            (front ++ bytes)
            (drop (length bytes) buf)
            size
            0
            false
            (last_error es e)
            ((total + length bytes) % 2 ^ 64))
      recv_loop rest s)
recv_header front buf size e total rest fed some_left at_front room small = absurd (omega arith)
recv_header front buf size e total rest (retry {es} {bytes} errno again more f) some_left at_front
      room small =
    rw
      (recv_loop-retry (waiting front buf size (length bytes) false e total) (es ++ rest) errno more
        again)
      (recv_header front buf size minus_one total rest f some_left at_front room small)
recv_header front buf size e total rest (piece {es} {bytes} b [] split more fed) some_left at_front
      room small =
    rw split (
      after_piece front buf b [] size false e total rest (rw split at more) (rw split at at_front)
        (rw split at room)
      ∙ rw (append-nil b))
recv_header front buf size e total rest (piece b [] split more (piece _ tail _ x12 _)) some_left
      at_front room small =
    elim x12 [ ]
recv_header front buf size e total rest (piece b [] split more (retry errno _ x13 _)) some_left
      at_front room small =
    elim x13 [ ]
recv_header front buf size e total rest (piece {es} {bytes} b (x ∷ tail) split more f) some_left
      at_front room small =
    let sum = length-append b (x ∷ tail) in
    let size_left : size ≡ length (front ++ b) + length (x ∷ tail) =
      omega (arith, ap (λ (l : List ℕ). length l) split, length-append front b) in
    let not_last : (length (x ∷ tail) == 0) ≡ false = ground arith in
    let total_after : ((total + length b) % 2 ^ 64 + length (x ∷ tail)) % 2 ^ 64
        ≡ (total + length (b ++ x ∷ tail)) % 2 ^ 64 =
      omega arith in
    rw split (
      after_piece front buf b (x ∷ tail) size false e total (es ++ rest) (rw split at more)
        (rw split at at_front) (rw split at room)
      ∙ rw not_last (
          recv_header (front ++ b) (drop (length b) buf) size (pos (length b))
            ((total + length b) % 2 ^ 64) rest f (omega arith) size_left
            (omega (arith, ap (λ (l : List ℕ). length l) split, length-drop (length b) buf))
            (omega arith)
          ∙ rw (
            append_assoc front b (x ∷ tail),
            drop-drop (length b) (length (x ∷ tail)) buf,
            total_after,
            sum,
          )))

-- A record mark and its number of bytes: 31 bits, and the bit of the last fragment.
pub take_header-be32 :
    (s : Receiving) (v : ℕ) (behind : List ℕ)
    → v < 2 ^ 32
    → s.wire ≡ be32 v ++ behind
    → take_header s
      ≡ ok (record s {
        wire = be32 (v % 2 ^ 31) ++ behind;
        size = v % 2 ^ 31;
        pending = v % 2 ^ 31;
        header_received = true;
      })
unfolding take_header
take_header-be32 s v behind small e = rw (
  e,
  xdr_strip_last_fragment-be32 v behind small,
  xdr_decode_u32-drop (be32 (v % 2 ^ 31) ++ behind) 0 (v % 2 ^ 31) behind (omega arith)
      (omega arith) refl,
)

-- The stream carries a record: a mark with or without the bit of the last fragment, and the body. Then
-- the loop ends with the body at the front of the array, its length as the size, and the events behind
-- the record left for the next call. How the kernel cuts the stream makes no difference.
pub recv_loop-record :
    {head_events body_events : List RecvEvent} (mark : ℕ) (body wire : List ℕ) (error : ℤ)
    (total : ℕ) (rest : List RecvEvent)
    → Feeds head_events (be32 mark)
    → Feeds body_events body
    → mark < 2 ^ 32
    → mark % 2 ^ 31 ≡ length body
    → 4 ≤ length wire
    → length body ≤ length wire
    → total < 2 ^ 64
    → recv_loop (head_events ++ (body_events ++ rest)) (start_receive wire error total)
      ≡ ok (record {
        failure = none;
        state = record {
          wire = body ++ drop (length body) (be32 (length body) ++ drop 4 wire);
          size = length body;
          pending = 0;
          header_received = true;
          error = last_error body_events (last_error head_events error);
          total_received = (total + 4 + length body) % 2 ^ 64;
        };
        rest = rest;
      })
recv_loop-record {head_events} {body_events} mark body wire error total rest f g word n four room
      small =
    recv_header [] wire 4 error total (body_events ++ rest) f (omega arith) refl four small
    ∙ rw (take_header-be32 complete mark (drop 4 wire) word refl, n)
        (recv_body [] (be32 (length body) ++ drop 4 wire) (length body)
            (last_error head_events error) ((total + 4) % 2 ^ 64) rest g (omega arith)
            (omega (arith, length-drop 4 wire)) (omega arith)
          ∙ rw counted)
  where
    complete : Receiving
    complete =
        waiting (be32 mark) (drop 4 wire) 4 0 false (last_error head_events error)
          ((total + 4) % 2 ^ 64)

    counted : ((total + 4) % 2 ^ 64 + length body) % 2 ^ 64 ≡ (total + 4 + length body) % 2 ^ 64
    counted = omega arith

-- With an open socket, if recv yields a record mark and then as many bytes as it says, both in pieces of
-- any size and with timeouts in between, receive returns 0, the size of the message, and the message at
-- the front of the array, and it takes no byte of what follows. The message fits the array.
pub receive-record :
    (c : Client) {head_events body_events : List RecvEvent} (mark : ℕ) (body wire : List ℕ)
    (size : ℕ) (rest : List RecvEvent) (errno : ℤ) (opts : List (ℤ × ℤ))
    → c.socket_fd ≢ minus_one
    → c.options ≡ (pos 0, errno) ∷ opts
    → c.recvs ≡ head_events ++ (body_events ++ rest)
    → Feeds head_events (be32 mark)
    → Feeds body_events body
    → mark < 2 ^ 32
    → mark % 2 ^ 31 ≡ length body
    → 4 ≤ length wire
    → length body ≤ length wire
    → c.total_received < 2 ^ 64
    → receive c wire size
      ≡ ok (
        pos 0,
        length body,
        body ++ drop (length body) (be32 (length body) ++ drop 4 wire),
        record {
          context = record c.context {
            error = last_error body_events (last_error head_events (pos 0));
            total_received = (c.total_received + 4 + length body) % 2 ^ 64;
          };
          system = record c.system { options = opts; recvs = rest };
        },
      )
unfolding receive finish_receive
receive-record c mark body wire size rest errno opts fd o r f g word n four room small = rw (
  ne→eqb_false c.socket_fd minus_one fd,
  o,
  r,
  recv_loop-record mark body wire (pos 0) c.total_received rest f g word n four room small,
)
