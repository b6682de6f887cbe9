-- ===== src/Context/Receive.antt =====
-- Context::receive.
pub mod Framing
pub mod Records
pub mod Failure
use nfs_client_simulator.Common.{
  ℕ, zero, suc, ◌+◌, ◌-◌, ◌%◌, ◌^◌, List, [], ◌∷◌, ◌++◌, Bool, true, false, not, ◌&&◌, Option, none,
  some, Outcome, ok, fault, blocked, ◌>>=◌, ◌>>◌, dassert, leb, ◌==◌, if◌then◌else◌, length, take,
  drop,
}
use nfs_client_simulator.Common.Int.{ℤ, pos, minus_one, eqb}
use nfs_client_simulator.System.{System, RecvEvent, received, recv_failed, next, eagain}
use nfs_client_simulator.Xdr.{Buffer, at, memcpy, xdr_strip_last_fragment, xdr_decode_u32}
use nfs_client_simulator.Context.{Context, Client}

-- The variables of the loop, and the two members that it writes.
pub record Receiving : Type 0 where
  pub wire : Buffer
  pub size : ℕ
  pub pending : ℕ
  pub header_received : Bool
  pub error : ℤ
  pub total_received : ℕ

-- The size header is complete: its value is what is now expected, from the front of the array on.
unfoldable pub take_header : Receiving → Outcome Receiving
take_header s = do
  wire' ← xdr_strip_last_fragment s.wire
  (size', _) ← xdr_decode_u32 (some wire') 0
  ok (record s { wire = wire'; size = size'; pending = size'; header_received = true })

-- The kernel has written `bytes` at `wireBytes[size-pending]`.
unfoldable pub take_bytes : Receiving → List ℕ → Outcome Receiving
take_bytes s bytes = do
  (_, wire') ← at s.wire (s.size - s.pending) (λ p. memcpy p bytes)
  let n = length bytes
  let s₁ = record s {
    wire = wire';
    pending = s.pending - n;
    error = pos n;
    total_received = (s.total_received + n) % 2 ^ 64;
  }
  if not s.header_received && (s₁.pending == 0) then take_header s₁ else ok s₁

-- How the loop ends: with an errno or without.
pub record Received : Type 0 where
  pub failure : Option ℕ
  pub state : Receiving
  pub rest : List RecvEvent

-- `while (pending) { … }`, one call of recv in each round.
unfoldable pub recv_loop : List RecvEvent → Receiving → Outcome Received
recv_loop [] s =
    if s.pending == 0 then ok (record { failure = none; state = s; rest = [] }) else blocked
recv_loop (received bytes ∷ events) s = elim (s.pending == 0) [
  | true ↦ ok (record { failure = none; state = s; rest = received bytes ∷ events })
  | false ↦ do s' ← take_bytes s (take s.pending bytes); recv_loop events s'
]
recv_loop (recv_failed errno ∷ events) s = elim (s.pending == 0) [
  | true ↦ ok (record { failure = none; state = s; rest = recv_failed errno ∷ events })
  | false ↦ elim (errno == eagain) [
    | true ↦ recv_loop events (record s { error = minus_one })
    | false ↦ ok (record { failure = some errno; state = s; rest = events })
  ]
]

-- The state that the loop leaves behind, in the members of the context.
unfoldable pub finish_receive : Client → Received → ℤ × ℕ × Buffer × Client
finish_receive c r =
    let sys = record c.system { recvs = r.rest } in
    let total = r.state.total_received in
    elim r.failure [
      | none ↦ (
        pos 0,
        r.state.size,
        r.state.wire,
        record {
          context = record c.context { error = r.state.error; total_received = total };
          system = sys;
        },
      )
      | some errno ↦ (
        minus_one,
        r.state.size,
        r.state.wire,
        record {
          context = record c.context { error = pos errno; total_received = total };
          system = sys;
        },
      )
    ]

-- The variables before the loop.
abbrev pub start_receive : Buffer → ℤ → ℕ → Receiving
start_receive wire_bytes error total_received = record {
  wire = wire_bytes;
  size = 4;
  pending = 4;
  header_received = false;
  error = error;
  total_received = total_received;
}

-- The result, the reference parameter `size`, the array and the client.
unfoldable pub receive : Client → Buffer → ℕ → Outcome (ℤ × ℕ × Buffer × Client)
receive c wire_bytes size =
    if eqb c.socket_fd minus_one then ok (minus_one, size, wire_bytes, c) else (do
      ((r, errno), options') ← next c.options
      let sys = record c.system { options = options' }
      if eqb r (pos 0)
          then (do
            let c₁ : Client = record { context = record c.context { error = r }; system = sys }
            r₁ ← recv_loop c.recvs (start_receive wire_bytes r c.total_received)
            ok (finish_receive c₁ r₁))
          else ok (
            minus_one,
            size,
            wire_bytes,
            record { context = record c.context { error = errno }; system = sys },
          ))
