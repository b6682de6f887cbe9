-- ===== src/Runs/Dated.antt =====
-- The time that printStatus reads through a pointer.
use nfs_client_simulator.Common.{
  ℕ, ◌≡◌, refl, sym, ap, ◌∙◌, List, not, ok, Ensures, Ensures-ok, Ensures-bind, Ensures-if,
  Ensures-weaken, ◌==◌, some, Option-cases, Bool-cases, inl, inr,
}
use mathlib.Core.Bool.{false≢true}
use nfs_client_simulator.Common.Int.{ℤ, pos, minus_one, eqb, is_negative, is_positive}
use nfs_client_simulator.System.{next}
use nfs_client_simulator.Xdr.{Buffer}
use nfs_client_simulator.Context.{Client, set_mount_port, set_nfs_port}
use nfs_client_simulator.Context.Connection.{
  set_timeout, open_socket, connect, disconnect, connect_port, print_status, Status,
}
use nfs_client_simulator.Context.Send.{send, send_loop, finish_send, Sending}
use nfs_client_simulator.Context.Receive.{
  receive, recv_loop, start_receive, finish_receive, Received,
}
use nfs_client_simulator.Call.{World}
use nfs_client_simulator.Runs.{IsKept, Run}
use nfs_client_simulator.Runs.Calls.{Run-kept}

-- There is a time to read.
abbrev HasTime : Client → Type 0
HasTime c = (t : ℕ) × (c.timem ≡ some t)

-- A time that is there is not taken away.
abbrev Dated : Client → Client → Type 0
Dated c c' = HasTime c → HasTime c'

set_timeout-Dated : (c : Client) → Ensures (λ (r, c'). Dated c c') (set_timeout c)
unfolding set_timeout
set_timeout-Dated c = Ensures-bind (next c.options) λ ((s, errno), options').
    Ensures-if (eqb s (pos 0)) (λ good. rw good (Ensures-ok (λ h. (c.now, refl))))
      (λ bad. Ensures-ok (λ h. h))

open_socket-Dated : (c : Client) → Ensures (λ (r, c'). Dated c c') (open_socket c)
unfolding open_socket
open_socket-Dated c = Ensures-bind (next c.sockets) λ (fd, sockets').
    Ensures-if (is_negative fd) (λ bad. Ensures-ok (λ h. h))
      λ good. Ensures-bind (next c.connects) λ (r, connects'). set_timeout-Dated _

connect-Dated : (c : Client) → Ensures (λ (r, c'). Dated c c') (connect c)
unfolding connect
connect-Dated c =
    Ensures-if (not (eqb c.socket_fd minus_one)) (λ open_one. Ensures-ok (λ h. h))
      λ closed_one. Ensures-bind (next c.lookups) λ (r, lookups').
        Ensures-if (eqb r (pos 0)) (λ good. open_socket-Dated _) (λ bad. Ensures-ok (λ h. h))

disconnect-Dated : (c : Client) → Dated c (disconnect c)
unfolding disconnect
disconnect-Dated c h = elim (Bool-cases (is_positive c.socket_fd)) [
  | inl positive ↦ rw (positive, disconnect) (c.now, refl)
  | inr other ↦ rw (other, disconnect) h
]

connect_port-Dated : (c : Client) (port : ℤ) → Ensures (λ (r, c'). Dated c c') (connect_port c port)
unfolding connect_port
connect_port-Dated c port =
    Ensures-weaken (connect-Dated _) λ (r, c') kept h. kept (disconnect-Dated c h)

finish_send-Dated : (c : Client) (size : ℕ) (r : Sending) → Dated c (finish_send c size r).1
unfolding finish_send
finish_send-Dated c size r h = elim (Option-cases r.failure) [
  | inl e ↦ rw (e, finish_send) h
  | inr (errno, e) ↦ rw (e, finish_send) h
]

send-Dated :
    (c : Client) (wire : Buffer) (size : ℕ) → Ensures (λ (r, c'). Dated c c') (send c wire size)
unfolding send
send-Dated c wire size =
    Ensures-if (size == 0) (λ nothing. Ensures-ok (λ h. h))
      λ something.
        Ensures-if (eqb c.socket_fd minus_one) (λ closed_one. Ensures-ok (λ h. h))
          λ open_one.
            Ensures-bind (send_loop c.sends wire size size)
              λ r. Ensures-ok (finish_send-Dated c size r)

finish_receive-Dated : (c : Client) (r : Received) → Dated c (finish_receive c r).3
unfolding finish_receive
finish_receive-Dated c r h = elim (Option-cases r.failure) [
  | inl e ↦ rw (e, finish_receive) h
  | inr (errno, e) ↦ rw (e, finish_receive) h
]

receive-Dated :
    (c : Client) (wire : Buffer) (size : ℕ)
    → Ensures (λ (r, size', wire', c'). Dated c c') (receive c wire size)
unfolding receive
receive-Dated c wire size =
    Ensures-if (eqb c.socket_fd minus_one) (λ closed_one. Ensures-ok (λ h. h))
      λ open_one. Ensures-bind (next c.options) λ ((r, errno), options').
        let c₁ : Client = record {
          context = record c.context { error = r };
          system = record c.system { options = options' };
        } in
        Ensures-if (eqb r (pos 0))
          (λ good.
            Ensures-bind (recv_loop c.recvs (start_receive wire r c.total_received))
              λ r₁. Ensures-ok (λ h. finish_receive-Dated c₁ r₁ h))
          (λ bad. Ensures-ok (λ h. h))

Dated-IsKept : IsKept Dated
unfolding set_mount_port set_nfs_port
Dated-IsKept = record {
  same = λ c h. h;
  chain = λ a b c p q h. q (p h);
  ported = λ c port h. h;
  connects = connect_port-Dated;
  sends = send-Dated;
  receives = receive-Dated;
  mount_port_set = λ c port h. h;
  nfs_port_set = λ c port h. h;
}

-- A connect that returns 0 leaves a time.
abbrev Timed : ℤ × Client → Type 0
Timed (r, c) = r ≡ pos 0 → HasTime c

set_timeout-Timed : (c : Client) → Ensures Timed (set_timeout c)
unfolding set_timeout
set_timeout-Timed c = Ensures-bind (next c.options) λ ((s, errno), options').
    Ensures-if (eqb s (pos 0)) (λ good. rw good (Ensures-ok (λ zero_returned. (c.now, refl))))
      (λ bad. Ensures-ok (λ zero_returned. cc))

open_socket-Timed : (c : Client) → Ensures Timed (open_socket c)
unfolding open_socket
open_socket-Timed c = Ensures-bind (next c.sockets) λ (fd, sockets').
    Ensures-if (is_negative fd) (λ bad. Ensures-ok (λ zero_returned. cc))
      λ good. Ensures-bind (next c.connects) λ (r, connects'). set_timeout-Timed _

connect-Timed : (c : Client) → Ensures Timed (connect c)
unfolding connect
connect-Timed c =
    Ensures-if (not (eqb c.socket_fd minus_one)) (λ open_one. Ensures-ok (λ zero_returned. cc))
      λ closed_one. Ensures-bind (next c.lookups) λ (r, lookups').
        Ensures-if (eqb r (pos 0)) (λ good. open_socket-Timed _)
          (λ bad. Ensures-ok (λ zero_returned.
            absurd (false≢true (sym bad ∙ ap (λ (n : ℤ). eqb n (pos 0)) zero_returned))))

print_status-HasTime :
    (c : Client) → HasTime c → (status : Status) × (print_status c.context ≡ ok status)
unfolding print_status
print_status-HasTime c (t, e) = elim (Bool-cases (is_negative c.socket_fd)) [
  | inl none_open ↦ (Status.not_connected, rw none_open refl)
  | inr one_open ↦ elim (Bool-cases (not (eqb c.connect_error (pos 0)))) [
    | inl refused ↦ (Status.not_connected, rw (one_open, refused) refl)
    | inr connected ↦ (Status.connected_at t, rw (one_open, connected, e) refl)
  ]
]

-- Once a connect has returned 0, printStatus has a time to read, whatever calls come after, to whatever ports and with
-- any results of the system: it does not read timem uninitialised.
pub Run-print_status :
    (c : Client) (w w' : World) (xids : List ℕ)
    → connect c ≡ ok (pos 0, w.client)
    → Run w xids w'
    → (status : Status) × (print_status w'.client.context ≡ ok status)
Run-print_status c w w' xids e run = print_status-HasTime w'.client (
    Run-kept Dated Dated-IsKept w w' xids run ((connect-Timed c).of_value (pos 0, w.client) e refl))
