-- ===== src/Context/Send/Progress.antt =====
-- How soon Context::send ends.
use nfs_client_simulator.Common.{
  ℕ, zero, suc, ◌+◌, ◌-◌, ◌%◌, ◌^◌, ◌≤◌, ◌<◌, ◌≡◌, ◌≢◌, refl, ap, List, [], ◌∷◌, ◌++◌, ok, length,
  take, length-append, arith,
}
use nfs_client_simulator.Common.Int.{pos, minus_one}
use nfs_client_simulator.System.{SendEvent, taken}
use nfs_client_simulator.Xdr.{Buffer}
use nfs_client_simulator.Context.{Client}
use nfs_client_simulator.Context.Send.{send}
use nfs_client_simulator.Context.Send.Delivery.{Takes, all_taken, part, send-Takes}

-- A kernel that takes at least one byte in each call, and no more than are pending, as long as it answers.
pub data Obliges : List SendEvent → ℕ → Type 0 where
  silent : {q : ℕ} → Obliges [] q
  finished : {es : List SendEvent} → Obliges es 0
  answers :
      {es : List SendEvent} {n q : ℕ}
      → 0 < n
      → n ≤ q
      → Obliges es (q - n)
      → Obliges (taken n ∷ es) q

-- The calls that take the bytes, which are no more than the bytes, and the calls left.
record Split (es : List SendEvent) (pending : ℕ) : Type 0 where
  front : List SendEvent
  rest : List SendEvent
  is_split : es ≡ front ++ rest
  takes : Takes front pending
  short : length front ≤ pending

Obliges-Split : {es : List SendEvent} {q : ℕ} → Obliges es q → q ≤ length es → Split es q
Obliges-Split {es} finished h = record {
  front = [];
  rest = es;
  is_split = refl;
  takes = all_taken;
  short = omega arith;
}
Obliges-Split {q = zero} silent h = record {
  front = [];
  rest = [];
  is_split = refl;
  takes = all_taken;
  short = omega arith;
}
Obliges-Split {q = suc q} silent h = absurd (omega arith)
Obliges-Split (answers {es} {n} {q} more fits o) h =
    let s = Obliges-Split o (omega arith) in
    record {
      front = taken n ∷ s.front;
      rest = s.rest;
      is_split = ap (λ t. taken n ∷ t) s.is_split;
      takes = part (omega arith) (omega arith) s.takes;
      short = let k = s.short in omega arith;
    }

-- With an open socket, if the kernel takes at least one byte in each call and no more than are pending,
-- then a send of a message, not empty and in the array, returns 0 after at most as many calls as the message
-- has bytes, and has handed over the whole message.
pub send-Obliges :
    (c : Client) (wire : Buffer) (size : ℕ)
    → c.socket_fd ≢ minus_one
    → 0 < size
    → size ≤ length wire
    → Obliges c.sends size
    → size ≤ length c.sends
    → (c' : Client) × (send c wire size ≡ ok (pos 0, c'))
      × (c'.sent ≡ c.sent ++ take size wire)
      × (length c.sends ≤ length c'.sends + size)
send-Obliges c wire size fd more room o enough =
    let s = Obliges-Split o enough in
    (
      record {
        context = record c.context { total_sent = (c.total_sent + size) % 2 ^ 64 };
        system = record c.system { sends = s.rest; sent = c.sent ++ take size wire };
      },
      send-Takes c s.rest wire size fd more room s.takes s.is_split,
      refl,
      let k = s.short in omega (arith, ap length s.is_split, length-append s.front s.rest),
    )
