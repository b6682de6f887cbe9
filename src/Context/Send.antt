-- ===== src/Context/Send.antt =====
-- Context::send.
pub mod Delivery
pub mod Progress
use nfs_client_simulator.Common.{
  ℕ, zero, suc, ◌+◌, ◌-◌, ◌%◌, ◌^◌, List, [], ◌∷◌, ◌++◌, Option, none, some, Outcome, ok, fault,
  blocked, ◌>>=◌, ◌>>◌, dassert, leb, ◌==◌, if◌then◌else◌, length, take, drop,
}
use nfs_client_simulator.Common.Int.{ℤ, pos, minus_one, eqb}
use nfs_client_simulator.System.{System, SendEvent, taken, send_failed}
use nfs_client_simulator.Xdr.{Buffer}
use nfs_client_simulator.Context.{Context, Client}

-- How the loop ends: the errno of a failure, the bytes that the kernel took, the calls still to come.
pub record Sending : Type 0 where
  pub failure : Option ℤ
  pub sent : List ℕ
  pub rest : List SendEvent

-- The kernel reads `pending` bytes from `wireBytes[size-pending]` on, which must lie in the array.
unfoldable pub kernel_read : Buffer → ℕ → ℕ → ℕ → Outcome (List ℕ)
kernel_read wire_bytes size pending n =
    if leb size (length wire_bytes) then ok (take n (drop (size - pending) wire_bytes)) else fault

-- `while (pending) { … }`, one call of ::send in each round.
unfoldable pub send_loop : List SendEvent → Buffer → ℕ → ℕ → Outcome Sending
unfolding kernel_read
send_loop events wire_bytes size zero = ok (record { failure = none; sent = []; rest = events })
send_loop [] wire_bytes size (suc p) = blocked
send_loop (taken n ∷ events) wire_bytes size (suc p) = do
  bytes ← kernel_read wire_bytes size (suc p) n
  dassert (leb n (suc p))
  r ← send_loop events wire_bytes size (suc p - n)
  ok (record r { sent = bytes ++ r.sent })
send_loop (send_failed errno ∷ events) wire_bytes size (suc p) =
    ok (record { failure = some errno; sent = []; rest = events })

-- What is done after the loop.
unfoldable pub finish_send : Client → ℕ → Sending → ℤ × Client
finish_send c size r =
    let sys = record c.system { sends = r.rest; sent = c.sent ++ r.sent } in
    elim r.failure [
      | none ↦ (
        pos 0,
        record {
          context = record c.context { total_sent = (c.total_sent + size) % 2 ^ 64 };
          system = sys;
        },
      )
      | some errno ↦
          (minus_one, record { context = record c.context { error = errno }; system = sys })
    ]

-- `size` is an int32_t that is not negative.
unfoldable pub send : Client → Buffer → ℕ → Outcome (ℤ × Client)
send c wire_bytes size =
    if size == 0
    then ok (pos 0, c)
    else if eqb c.socket_fd minus_one
    then ok (minus_one, c)
    else (do r ← send_loop c.sends wire_bytes size size; ok (finish_send c size r))
