-- ===== src/Context/Connection/Totals.antt =====
-- Without a socket the totals are 0, whatever calls a context has seen.
use nfs_client_simulator.Common.{
  ℕ, ◌≡◌, refl, sym, ◌∙◌, inl, inr, List, false, ok, ◌==◌, not, Bool-cases, Option-cases, Ensures,
  Ensures-bind, Ensures-ok, Ensures-if,
}
use mathlib.Core.Bool.{false≢true}
use nfs_client_simulator.Common.Int.{ℤ, pos, minus_one, eqb, is_positive, is_negative, eqb→eq}
use nfs_client_simulator.System.{System, next}
use nfs_client_simulator.Xdr.{Buffer}
use nfs_client_simulator.Context.{Client, make_context, set_mount_port, set_nfs_port}
use nfs_client_simulator.Context.Connection.{
  set_timeout, open_socket, connect, disconnect, connect_port,
}
use nfs_client_simulator.Context.Send.{send, send_loop, finish_send, Sending}
use nfs_client_simulator.Context.Receive.{
  receive, start_receive, recv_loop, finish_receive, Received,
}

-- The invariant.
abbrev pub IsFresh : Client → Type 0
IsFresh c = c.socket_fd ≡ minus_one → (c.total_sent ≡ 0) × (c.total_received ≡ 0)

-- The totals are kept.
abbrev Same : Client → Client → Type 0
Same c c' = (c'.total_sent ≡ c.total_sent) × (c'.total_received ≡ c.total_received)

abbrev Keeps : Client → ℤ × Client → Type 0
Keeps c (r, c') = Same c c'

set_timeout-Keeps : (c : Client) → Ensures (Keeps c) (set_timeout c)
unfolding set_timeout
set_timeout-Keeps c = Ensures-bind (next c.options) λ ((s, errno), options').
    Ensures-if (eqb s (pos 0)) (λ good. rw good (Ensures-ok (refl, refl)))
      (λ bad. Ensures-ok (refl, refl))

open_socket-Keeps : (c : Client) → Ensures (Keeps c) (open_socket c)
unfolding open_socket
open_socket-Keeps c = Ensures-bind (next c.sockets) λ (fd, sockets').
    Ensures-if (is_negative fd) (λ bad. Ensures-ok (refl, refl))
      λ good. Ensures-bind (next c.connects) λ (r, connects'). set_timeout-Keeps _

connect-Keeps : (c : Client) → Ensures (Keeps c) (connect c)
unfolding connect
connect-Keeps c =
    Ensures-if (not (eqb c.socket_fd minus_one)) (λ open_one. Ensures-ok (refl, refl))
      λ closed_one. Ensures-bind (next c.lookups) λ (r, lookups').
        Ensures-if (eqb r (pos 0)) (λ good. open_socket-Keeps _) (λ bad. Ensures-ok (refl, refl))

abbrev Fresh : ℤ × Client → Type 0
Fresh (r, c) = IsFresh c

connect-IsFresh : (c : Client) → IsFresh c → Ensures Fresh (connect c)
unfolding connect
connect-IsFresh c h = elim (Bool-cases (eqb c.socket_fd minus_one)) [
  | inl closed_one ↦
      let (sent_none, received_none) = h (eqb→eq c.socket_fd minus_one closed_one) in
      record {
        of_value = λ (r, c') e e'.
            let kept = (connect-Keeps c).of_value (r, c') e in
            (kept.0 ∙ sent_none, kept.1 ∙ received_none);
      }
  | inr open_one ↦ rw (open_one, connect) (Ensures-ok h)
]

disconnect-IsFresh : (c : Client) → IsFresh c → IsFresh (disconnect c)
unfolding disconnect
disconnect-IsFresh c h = elim (Bool-cases (is_positive c.socket_fd)) [
  | inl positive ↦ rw (positive, disconnect) (λ e. (refl, refl))
  | inr other ↦ rw (other, disconnect) h
]

-- A client with a socket is fresh.
open_IsFresh :
    (c c' : Client) → eqb c.socket_fd minus_one ≡ false → c'.socket_fd ≡ c.socket_fd → IsFresh c'
open_IsFresh c c' h same e = absurd (false≢true (sym h ∙ rw (sym same ∙ e) refl))

finish_send_socket :
    (c : Client) (size : ℕ) (r : Sending) → (finish_send c size r).1.socket_fd ≡ c.socket_fd
unfolding finish_send
finish_send_socket c size r = elim (Option-cases r.failure) [
  | inl e ↦ rw (e, finish_send) refl
  | inr (errno, e) ↦ rw (e, finish_send) refl
]

finish_receive_socket : (c : Client) (r : Received) → (finish_receive c r).3.socket_fd ≡ c.socket_fd
unfolding finish_receive
finish_receive_socket c r = elim (Option-cases r.failure) [
  | inl e ↦ rw (e, finish_receive) refl
  | inr (errno, e) ↦ rw (e, finish_receive) refl
]

send-IsFresh :
    (c : Client) (wire_bytes : Buffer) (size : ℕ)
    → IsFresh c
    → Ensures Fresh (send c wire_bytes size)
unfolding send
send-IsFresh c wire_bytes size h =
    Ensures-if (size == 0) (λ nothing. Ensures-ok h)
      λ something.
        Ensures-if (eqb c.socket_fd minus_one) (λ closed_one. Ensures-ok h)
          λ open_one. Ensures-bind (send_loop c.sends wire_bytes size size) λ r.
            Ensures-ok
              (open_IsFresh c (finish_send c size r).1 open_one (finish_send_socket c size r))

receive-IsFresh :
    (c : Client) (wire_bytes : Buffer) (size : ℕ)
    → IsFresh c
    → Ensures (λ (r, size', wire', c'). IsFresh c') (receive c wire_bytes size)
unfolding receive
receive-IsFresh c wire_bytes size h =
    Ensures-if (eqb c.socket_fd minus_one) (λ closed_one. Ensures-ok h)
      λ open_one. Ensures-bind (next c.options) λ ((r, errno), options').
        Ensures-if (eqb r (pos 0))
          (λ good.
            Ensures-bind (recv_loop c.recvs (start_receive wire_bytes r c.total_received)) λ r₁.
              let c₁ : Client = record {
                context = record c.context { error = r };
                system = record c.system { options = options' };
              } in
              Ensures-ok
                (open_IsFresh c (finish_receive c₁ r₁).3 open_one (finish_receive_socket c₁ r₁)))
          (λ bad. Ensures-ok (λ e. open_IsFresh c c open_one refl e))

-- One call of a member function that returns.
pub data Call : Client → Client → Type 0 where
  connected : (c c' : Client) (r : ℤ) → connect c ≡ ok (r, c') → Call c c'
  connected_to : (c c' : Client) (port r : ℤ) → connect_port c port ≡ ok (r, c') → Call c c'
  disconnected : (c : Client) → Call c (disconnect c)
  sent :
      (c c' : Client) (wire_bytes : Buffer) (size : ℕ) (r : ℤ)
      → send c wire_bytes size ≡ ok (r, c')
      → Call c c'
  received_all :
      (c c' : Client) (wire_bytes wire' : Buffer) (size size' : ℕ) (r : ℤ)
      → receive c wire_bytes size ≡ ok (r, size', wire', c')
      → Call c c'
  mount_port_set :
      (c : Client) (port : ℕ) → Call c (record c { context = set_mount_port c.context port })
  nfs_port_set :
      (c : Client) (port : ℕ) → Call c (record c { context = set_nfs_port c.context port })

-- A context from its constructor on. Between two calls the system may change in any way.
pub data Reachable : Client → Type 0 where
  made :
      (server : List ℕ) (mapper_port : ℤ) (garbage : ℕ) (system : System)
      → Reachable (record { context = make_context server mapper_port garbage; system = system })
  called : (c c' : Client) → Reachable c → Call c c' → Reachable c'
  other : (c : Client) (system : System) → Reachable c → Reachable (record c { system = system })

Call-IsFresh : (c c' : Client) → Call c c' → IsFresh c → IsFresh c'
unfolding set_mount_port set_nfs_port connect_port
Call-IsFresh _ _ (connected c c' r e) h = (connect-IsFresh c h).of_value (r, c') e
Call-IsFresh _ _ (connected_to c c' port r e) h =
    (connect-IsFresh _ (λ e'. disconnect-IsFresh c h e')).of_value (r, c') e
Call-IsFresh _ _ (disconnected c) h = disconnect-IsFresh c h
Call-IsFresh _ _ (sent c c' wire_bytes size r e) h =
    (send-IsFresh c wire_bytes size h).of_value (r, c') e
Call-IsFresh _ _ (received_all c c' wire_bytes wire' size size' r e) h =
    (receive-IsFresh c wire_bytes size h).of_value (r, size', wire', c') e
Call-IsFresh _ _ (mount_port_set c port) h = h
Call-IsFresh _ _ (nfs_port_set c port) h = h

-- Whatever calls to connect, disconnect, send, receive and set the ports a context has seen since its
-- constructor, if it has no socket then both totals are 0.
pub Reachable-IsFresh : (c : Client) → Reachable c → IsFresh c
unfolding make_context
Reachable-IsFresh _ (made server mapper_port garbage system) = λ e. (refl, refl)
Reachable-IsFresh _ (called c c' before call) = Call-IsFresh c c' call (Reachable-IsFresh c before)
Reachable-IsFresh _ (other c system before) = Reachable-IsFresh c before
