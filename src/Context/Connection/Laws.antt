-- ===== src/Context/Connection/Laws.antt =====
-- What connect and disconnect do to the socket.
use nfs_client_simulator.Common.{ℕ, ◌≡◌, refl, ◌∷◌, Option, some, none, ok, fault}
use nfs_client_simulator.Common.Int.{ℤ, pos, minus_one}
use nfs_client_simulator.System.{System}
use nfs_client_simulator.Context.{Context, Client}
use nfs_client_simulator.Context.Connection.{
  set_timeout, open_socket, connect, print_status, shown_time, Status,
}

-- The system calls of one run of connect: getaddrinfo and setsockopt succeed, socket returns `fd`, and
-- ::connect returns `answer`.
abbrev pub answers : System → ℤ → ℤ → ℤ → System
answers s fd answer errno = record s {
  lookups = pos 0 ∷ s.lookups;
  sockets = fd ∷ s.sockets;
  connects = answer ∷ s.connects;
  options = (pos 0, errno) ∷ s.options;
}

-- The system calls of a run of connect in which setsockopt fails.
abbrev pub refuses : System → ℤ → ℤ → System
refuses s fd errno = record s {
  lookups = pos 0 ∷ s.lookups;
  sockets = fd ∷ s.sockets;
  connects = pos 0 ∷ s.connects;
  options = (minus_one, errno) ∷ s.options;
}

-- connect on a context without a socket, if everything but setsockopt succeeds: the result is -1 and `error`
-- is the errno, but the socket is kept, so that a second call of connect returns -1 at once. printStatus then takes
-- the context for a connected one: it shows the time that the context had before, and where it had none, because the
-- constructor leaves timem uninitialised and nothing has set it, it reads the uninitialised pointer.
pub connect-refuses :
    (c : Context) (s : System) (fd : ℕ) (errno : ℤ)
    → c.socket_fd ≡ minus_one
    → (c' : Client) × (connect (record { context = c; system = refuses s (pos fd) errno })
        ≡ ok (minus_one, c'))
      × (c'.context.socket_fd ≡ pos fd)
      × (c'.context.error ≡ errno)
      × (connect c' ≡ ok (minus_one, c'))
      × (print_status c'.context
          ≡ elim c.timem [ none ↦ fault | some t ↦ ok (Status.connected_at t) ])
unfolding connect open_socket set_timeout print_status
connect-refuses c s fd errno h = (
  record {
    context = record c { socket_fd = pos fd; error = errno; connect_error = pos 0 };
    system = record s { dialed = c.port ∷ s.dialed };
  },
  rw (h, connect) refl,
  refl,
  refl,
  refl,
  shown c.timem,
)
  where
    shown :
        (o : Option ℕ)
        → shown_time o ≡ elim o [ none ↦ fault | some t ↦ ok (Status.connected_at t) ]
    shown none = refl
    shown (some t) = refl
