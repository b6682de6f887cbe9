-- ===== src/Runs/Sockets.antt =====
-- Which descriptors are closed.
use nfs_client_simulator.Common.{
  ℕ, ◌≡◌, refl, sym, ap, ◌∙◌, inl, inr, List, [], ◌∷◌, ◌++◌, append_assoc, Bool-cases, Ensures,
  Ensures-ok, Ensures-bind, Ensures-then, Ensures-weaken, Ensures-if, if◌then◌else◌,
}
use nfs_client_simulator.Common.Int.{ℤ, pos, minus_one, eqb, is_positive, is_negative, eqb→eq}
use nfs_client_simulator.System.{next}
use nfs_client_simulator.Context.{Context, Client, make_context, set_mount_port, set_nfs_port}
use nfs_client_simulator.Context.Connection.{open_socket, connect, disconnect, connect_port}
use nfs_client_simulator.Call.{World}
use nfs_client_simulator.Runs.{IsKept, Run}
use nfs_client_simulator.Runs.Alone.{Alone, set_timeout-Alone, send-Alone, receive-Alone}
use nfs_client_simulator.Runs.Calls.{Run-kept}

-- What a descriptor adds to the list of those that are to be closed: itself, if it is positive.
abbrev pub held : ℤ → List ℤ
held fd = if is_positive fd then fd ∷ [] else []

-- The positive ones, the last one first, in front of others.
abbrev pub opened : List ℤ → List ℤ → List ℤ
opened [] old = old
opened (fd ∷ fds) old = opened fds (held fd ++ old)

opened-append : (a b old : List ℤ) → opened (a ++ b) old ≡ opened b (opened a old)
opened-append [] b old = refl
opened-append (fd ∷ a) b old = opened-append a b (held fd ++ old)

-- The descriptor that the context holds, and those that have been closed.
abbrev pub owned : Client → List ℤ
owned c = held c.socket_fd ++ c.closed

-- Between two states socket has returned `fds`, and these have become owned, and nothing else.
pub record Owns (c c' : Client) : Type 0 where
  pub fds : List ℤ
  pub returned : c.sockets ≡ fds ++ c'.sockets
  pub accounted : owned c' ≡ opened fds (owned c)

none_opened : (c c' : Client) → c'.sockets ≡ c.sockets → owned c' ≡ owned c → Owns c c'
none_opened c c' e h = record { fds = []; returned = sym e; accounted = h }

Owns-chain : (a b c : Client) → Owns a b → Owns b c → Owns a c
Owns-chain a b c p q = record {
  fds = p.fds ++ q.fds;
  returned =
      p.returned ∙ ap (λ l. p.fds ++ l) q.returned ∙ sym (append_assoc p.fds q.fds c.sockets);
  accounted =
      q.accounted
      ∙ ap (λ l. opened q.fds l) p.accounted
      ∙ sym (opened-append p.fds q.fds (owned a));
}

Alone-Owns : (c c' : Client) → Alone c c' → Owns c c'
Alone-Owns c c' (f, l, s, d) = none_opened c c' s (rw (f, l) refl)

next_returned : (l : List ℤ) → Ensures (λ (x, l'). l ≡ x ∷ l') (next l)
next_returned [] = record { of_value = λ r e. cc }
next_returned (x ∷ l) = Ensures-ok refl

-- A new descriptor, on a client that has none.
one_opened :
    (c c' : Client) (fd : ℤ)
    → c.socket_fd ≡ minus_one
    → c.sockets ≡ fd ∷ c'.sockets
    → c'.socket_fd ≡ fd
    → c'.closed ≡ c.closed
    → Owns c c'
one_opened c c' fd e s f l = record {
  fds = fd ∷ [];
  returned = s;
  accounted =
      ap (λ d. held d ++ c'.closed) f
      ∙ ap (λ old. held fd ++ old) l
      ∙ ap (λ d. held fd ++ (held d ++ c.closed)) (sym e);
}

open_socket-Owns :
    (c : Client) → c.socket_fd ≡ minus_one → Ensures (λ (r, c'). Owns c c') (open_socket c)
unfolding open_socket
open_socket-Owns c e = Ensures-then (next_returned c.sockets) λ (fd, sockets') s.
    Ensures-if (is_negative fd) (λ bad. Ensures-ok (one_opened c _ fd e s refl refl))
      λ good. Ensures-bind (next c.connects) λ (r, connects').
        Ensures-weaken (set_timeout-Alone _) λ (r', c') (kept, closed, same, dialed).
          one_opened c c' fd e (s ∙ ap (λ l. fd ∷ l) (sym same)) kept closed

connect-Owns : (c : Client) → Ensures (λ (r, c'). Owns c c') (connect c)
unfolding connect
connect-Owns c = elim (Bool-cases (eqb c.socket_fd minus_one)) [
  | inl closed_one ↦
      let none_held = eqb→eq c.socket_fd minus_one closed_one in
      rw (closed_one, connect)
        (Ensures-bind (next c.lookups) λ (r, lookups').
          let c₁ : Client = record {
            context = record c.context { error = r };
            system = record c.system { lookups = lookups'; dialed = c.port ∷ c.dialed };
          } in
          Ensures-if (eqb r (pos 0))
            (λ good.
              Ensures-weaken (open_socket-Owns c₁ none_held) λ (r', c') h. record {
                fds = h.fds;
                returned = h.returned;
                accounted = h.accounted;
              })
            (λ bad. Ensures-ok (none_opened c _ refl refl)))
  | inr open_one ↦ rw (open_one, connect) (Ensures-ok (Alone-Owns c c (refl, refl, refl, refl)))
]

disconnect-Owns : (c : Client) → Owns c (disconnect c)
unfolding disconnect
disconnect-Owns c = elim (Bool-cases (is_positive c.socket_fd)) [
  | inl positive ↦
      none_opened c (disconnect c) (rw (positive, disconnect) refl) (rw (positive, disconnect) refl)
  | inr other ↦ rw (other, disconnect) (Alone-Owns c c (refl, refl, refl, refl))
]

ported_Owns :
    (c : Client) (port : ℤ) → Owns c (record c { context = record c.context { port = port } })
ported_Owns c port = Alone-Owns c _ (refl, refl, refl, refl)

connect_port-Owns : (c : Client) (port : ℤ) → Ensures (λ (r, c'). Owns c c') (connect_port c port)
unfolding connect_port
connect_port-Owns c port =
    let c₁ : Client = disconnect c in
    let c₂ : Client = record c₁ { context = record c₁.context { port = port } } in
    let closed_first = Owns-chain c c₁ c₂ (disconnect-Owns c) (ported_Owns c₁ port) in
    Ensures-weaken (connect-Owns c₂) λ (r, c') h. Owns-chain c c₂ c' closed_first h

pub Owns-IsKept : IsKept Owns
unfolding set_mount_port set_nfs_port
Owns-IsKept = record {
  same = λ c. Alone-Owns c c (refl, refl, refl, refl);
  chain = Owns-chain;
  ported = ported_Owns;
  connects = connect_port-Owns;
  sends = λ c wire size. Ensures-weaken (send-Alone c wire size) λ (r, c') a. Alone-Owns c c' a;
  receives = λ c wire size.
      Ensures-weaken (receive-Alone c wire size) λ (r, size', wire', c') a. Alone-Owns c c' a;
  mount_port_set = λ c port. Alone-Owns c _ (refl, refl, refl, refl);
  nfs_port_set = λ c port. Alone-Owns c _ (refl, refl, refl, refl);
}

-- In a run from a context that the constructor has made: of the descriptors that socket has returned the positive
-- ones are, the last one first, the one that the context holds, if it is positive, and those that have been closed.
-- So each is closed once at most, and none is lost.
pub Run-owned :
    (server : List ℕ) (mapper_port : ℤ) (garbage : ℕ) (w w' : World) (xids : List ℕ)
    → w.client.context ≡ make_context server mapper_port garbage
    → w.client.closed ≡ []
    → Run w xids w'
    → (fds : List ℤ) × (w.client.sockets ≡ fds ++ w'.client.sockets)
      × (held w'.client.socket_fd ++ w'.client.closed ≡ opened fds [])
unfolding make_context
Run-owned server mapper_port garbage w w' xids e none_closed r =
    let o = Run-kept Owns Owns-IsKept w w' xids r in
    (
      o.fds,
      o.returned,
      o.accounted
          ∙ ap (λ l. opened o.fds (held w.client.socket_fd ++ l)) none_closed
          ∙ ap (λ (c : Context). opened o.fds (held c.socket_fd ++ [])) e,
    )
