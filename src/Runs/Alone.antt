-- ===== src/Runs/Alone.antt =====
-- Sending and receiving leave the descriptors alone.
use nfs_client_simulator.Common.{
  ℕ, ◌≡◌, refl, inl, inr, Ensures, Ensures-ok, Ensures-bind, Ensures-if, ◌==◌, Option-cases,
}
use nfs_client_simulator.Common.Int.{pos, minus_one, eqb}
use nfs_client_simulator.System.{next}
use nfs_client_simulator.Xdr.{Buffer}
use nfs_client_simulator.Context.{Client}
use nfs_client_simulator.Context.Connection.{set_timeout}
use nfs_client_simulator.Context.Send.{send, send_loop, finish_send, Sending}
use nfs_client_simulator.Context.Receive.{
  receive, recv_loop, start_receive, finish_receive, Received,
}

-- The descriptor, the results of socket, and the lists of what has been closed and dialed are the same.
abbrev pub Alone : Client → Client → Type 0
Alone c c' =
    (c'.socket_fd ≡ c.socket_fd)
    × (c'.closed ≡ c.closed)
    × (c'.sockets ≡ c.sockets)
    × (c'.dialed ≡ c.dialed)

pub set_timeout-Alone : (c : Client) → Ensures (λ (r, c'). Alone c c') (set_timeout c)
unfolding set_timeout
set_timeout-Alone c = Ensures-bind (next c.options) λ ((s, errno), options').
    Ensures-if (eqb s (pos 0)) (λ good. rw good (Ensures-ok (refl, refl, refl, refl)))
      (λ bad. Ensures-ok (refl, refl, refl, refl))

finish_send-Alone : (c : Client) (size : ℕ) (r : Sending) → Alone c (finish_send c size r).1
unfolding finish_send
finish_send-Alone c size r = elim (Option-cases r.failure) [
  | inl e ↦ rw (e, finish_send) (refl, refl, refl, refl)
  | inr (errno, e) ↦ rw (e, finish_send) (refl, refl, refl, refl)
]

pub send-Alone :
    (c : Client) (wire : Buffer) (size : ℕ) → Ensures (λ (r, c'). Alone c c') (send c wire size)
unfolding send
send-Alone c wire size =
    Ensures-if (size == 0) (λ nothing. Ensures-ok (refl, refl, refl, refl))
      λ something.
        Ensures-if (eqb c.socket_fd minus_one) (λ closed_one. Ensures-ok (refl, refl, refl, refl))
          λ open_one.
            Ensures-bind (send_loop c.sends wire size size)
              λ r. Ensures-ok (finish_send-Alone c size r)

finish_receive-Alone : (c : Client) (r : Received) → Alone c (finish_receive c r).3
unfolding finish_receive
finish_receive-Alone c r = elim (Option-cases r.failure) [
  | inl e ↦ rw (e, finish_receive) (refl, refl, refl, refl)
  | inr (errno, e) ↦ rw (e, finish_receive) (refl, refl, refl, refl)
]

pub receive-Alone :
    (c : Client) (wire : Buffer) (size : ℕ)
    → Ensures (λ (r, size', wire', c'). Alone c c') (receive c wire size)
unfolding receive
receive-Alone c wire size =
    Ensures-if (eqb c.socket_fd minus_one) (λ closed_one. Ensures-ok (refl, refl, refl, refl))
      λ open_one. Ensures-bind (next c.options) λ ((r, errno), options').
        let c₁ : Client = record {
          context = record c.context { error = r };
          system = record c.system { options = options' };
        } in
        Ensures-if (eqb r (pos 0))
          (λ good.
            Ensures-bind (recv_loop c.recvs (start_receive wire r c.total_received))
              λ r₁. Ensures-ok (finish_receive-Alone c₁ r₁))
          (λ bad. Ensures-ok (refl, refl, refl, refl))
