-- ===== src/System.antt =====
-- The operating system as the program sees it, an environment that the model takes as given: for each
-- system call the results that its calls yield, in order. A call beyond the list does not return.
-- What the program hands over is kept as a record: the ports, the bytes and the closed descriptors.
use nfs_client_simulator.Common.{ℕ, List, [], ◌∷◌, Outcome, ok, blocked}
use nfs_client_simulator.Common.Int.{ℤ}

-- send(2): so many bytes were taken, or -1 with an errno.
pub data SendEvent : Type 0 where
  taken : ℕ → SendEvent
  send_failed : ℤ → SendEvent

-- recv(2): bytes, none of them at the end of the stream, or -1 with an errno. No call returns more
-- bytes than it was asked for, so of a longer list a call takes the front only.
pub data RecvEvent : Type 0 where
  received : List ℕ → RecvEvent
  recv_failed : ℕ → RecvEvent

pub record System : Type 0 where
  -- getaddrinfo, socket and connect: the return values; setsockopt: also the errno.
  pub lookups : List ℤ
  pub sockets : List ℤ
  pub connects : List ℤ
  pub options : List (ℤ × ℤ)
  pub sends : List SendEvent
  pub recvs : List RecvEvent
  -- time(2)
  pub now : ℕ
  pub dialed : List ℤ
  pub sent : List ℕ
  pub closed : List ℤ

-- The next result of a system call.
abbrev pub next {ℓ} : {A : Type ℓ} → List A → Outcome (A × List A)
next [] = blocked
next (r ∷ rs) = ok (r, rs)

-- EAGAIN, which is EWOULDBLOCK as well.
abbrev pub eagain : ℕ
eagain = 11
