-- ===== src/Runs/Zero.antt =====
-- A context that holds descriptor 0.
use nfs_client_simulator.Common.{
  ℕ, ◌≡◌, refl, ap, ◌∙◌, List, false, ok, Ensures, Ensures-ok, Ensures-weaken,
}
use nfs_client_simulator.Common.Int.{ℤ, pos, minus_one, eqb, is_positive}
use nfs_client_simulator.Context.{Client, set_mount_port, set_nfs_port}
use nfs_client_simulator.Context.Connection.{connect, disconnect, connect_port}
use nfs_client_simulator.Call.{World}
use nfs_client_simulator.Runs.{IsKept, Run}
use nfs_client_simulator.Runs.Alone.{Alone, send-Alone, receive-Alone}
use nfs_client_simulator.Runs.Calls.{Run-kept}

-- The descriptor stays, and no port is dialed and no descriptor closed.
abbrev pub IsStuck : Client → Client → Type 0
IsStuck c c' = (c'.socket_fd ≡ c.socket_fd) × (c'.dialed ≡ c.dialed) × (c'.closed ≡ c.closed)

abbrev pub StuckAtZero : Client → Client → Type 0
StuckAtZero c c' = c.socket_fd ≡ pos 0 → IsStuck c c'

StuckAtZero-chain : (a b c : Client) → StuckAtZero a b → StuckAtZero b c → StuckAtZero a c
StuckAtZero-chain a b c p q e =
    let (f, d, l) = p e in let (f', d', l') = q (f ∙ e) in (f' ∙ f, d' ∙ d, l' ∙ l)

-- disconnect takes the descriptor for a closed one, connect for an open one.
connect_port_zero :
    (c : Client) (port : ℤ)
    → c.socket_fd ≡ pos 0
    → connect_port c port ≡ ok (minus_one, record c { context = record c.context { port = port } })
unfolding connect_port connect disconnect
connect_port_zero c port e =
    let not_positive : is_positive c.socket_fd ≡ false = ap (λ fd. is_positive fd) e in
    let other : eqb c.socket_fd minus_one ≡ false = ap (λ fd. eqb fd minus_one) e in
    rw (not_positive, other, connect) refl

connect_port-StuckAtZero :
    (c : Client) (port : ℤ) → Ensures (λ (r, c'). StuckAtZero c c') (connect_port c port)
connect_port-StuckAtZero c port = record {
  of_value = λ a e zero_held.
      let stuck : Ensures (λ (r, c'). IsStuck c c') (connect_port c port) =
        rw (connect_port_zero c port zero_held) (Ensures-ok (refl, refl, refl)) in
      stuck.of_value a e;
}

Alone-StuckAtZero : (c c' : Client) → Alone c c' → StuckAtZero c c'
Alone-StuckAtZero c c' (f, l, s, d) e = (f, d, l)

StuckAtZero-IsKept : IsKept StuckAtZero
unfolding set_mount_port set_nfs_port
StuckAtZero-IsKept = record {
  same = λ c e. (refl, refl, refl);
  chain = StuckAtZero-chain;
  ported = λ c port e. (refl, refl, refl);
  connects = connect_port-StuckAtZero;
  sends =
      λ c wire size. Ensures-weaken (send-Alone c wire size) λ (r, c') a. Alone-StuckAtZero c c' a;
  receives = λ c wire size.
      Ensures-weaken (receive-Alone c wire size)
        λ (r, size', wire', c') a. Alone-StuckAtZero c c' a;
  mount_port_set = λ c port e. (refl, refl, refl);
  nfs_port_set = λ c port e. (refl, refl, refl);
}

-- If socket has returned the descriptor 0, then whatever calls come after, to whatever ports, nothing is dialed or
-- closed any more: the context goes on using that descriptor, since disconnect takes it for none and connect for one.
pub Run-zero :
    (w w' : World) (xids : List ℕ)
    → Run w xids w'
    → w.client.socket_fd ≡ pos 0
    → (w'.client.socket_fd ≡ pos 0)
      × (w'.client.dialed ≡ w.client.dialed)
      × (w'.client.closed ≡ w.client.closed)
Run-zero w w' xids r e =
    let (f, d, l) = Run-kept StuckAtZero StuckAtZero-IsKept w w' xids r e in (f ∙ e, d, l)
