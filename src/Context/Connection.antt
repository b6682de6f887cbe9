-- ===== src/Context/Connection.antt =====
-- connect and disconnect of Context.cpp.
pub mod Laws
pub mod Totals
use nfs_client_simulator.Common.{
  ℕ, List, ◌∷◌, Bool, not, Option, some, Outcome, ok, ◌>>=◌, ◌>>◌, dassert, if◌then◌else◌,
}
use nfs_client_simulator.Common.Int.{ℤ, pos, minus_one, eqb, is_positive, is_negative}
use nfs_client_simulator.System.{System, next}
use nfs_client_simulator.Context.{Context, Client}

-- The receive timeout, the last step of connect.
unfoldable pub set_timeout : Client → Outcome (ℤ × Client)
set_timeout c = do
  ((r, errno), options') ← next c.options
  let sys = record c.system { options = options' }
  if eqb r (pos 0)
      then (do
        let context' = record c.context { error = r; connect_time = c.now; timem = some c.now }
        dassert (eqb r (pos 0))
        ok (pos 0, record { context = context'; system = sys }))
      else ok (minus_one, record { context = record c.context { error = errno }; system = sys })

-- The socket, and ::connect, whose failure is only logged.
unfoldable pub open_socket : Client → Outcome (ℤ × Client)
open_socket c = do
  (fd, sockets') ← next c.sockets
  let c₁ = record c {
    context = record c.context { socket_fd = fd };
    system = record c.system { sockets = sockets' };
  }
  if is_negative fd then ok (minus_one, c₁) else (do
    (r, connects') ← next c₁.connects
    set_timeout (record c₁ {
      context = record c₁.context { error = r; connect_error = r };
      system = record c₁.system { connects = connects' };
    }))

-- Context::connect()
unfoldable pub connect : Client → Outcome (ℤ × Client)
connect c = if not (eqb c.socket_fd minus_one) then ok (minus_one, c) else (do
  (r, lookups') ← next c.lookups
  let c₁ = record c {
    context = record c.context { error = r };
    system = record c.system { lookups = lookups'; dialed = c.port ∷ c.dialed };
  }
  if eqb r (pos 0) then open_socket c₁ else ok (r, c₁))

-- Context::disconnect()
unfoldable pub disconnect : Client → Client
disconnect c =
    if is_positive c.socket_fd
    then record c {
      context = record c.context {
        socket_fd = minus_one;
        total_sent = 0;
        total_received = 0;
        disconnect_time = c.now;
        timem = some c.now;
      };
      system = record c.system { closed = c.socket_fd ∷ c.closed };
    }
    else c

-- Context::connect(int32_t)
unfoldable pub connect_port : Client → ℤ → Outcome (ℤ × Client)
connect_port c new_port =
    let c₁ = disconnect c in connect (record c₁ { context = record c₁.context { port = new_port } })

-- connectPortMapperPort, connectMountPort and connectNfsPort; the timeout is not used.
unfoldable pub connect_port_mapper_port : Client → Outcome (ℤ × Client)
connect_port_mapper_port c =
    if not (eqb c.port c.port_mapper_port)
    then (do
      let c₁ = record c { context = record c.context { port = c.port_mapper_port } }
      (_, c₂) ← connect_port c₁ c₁.port_mapper_port
      ok (pos 0, c₂))
    else ok (pos 0, c)

unfoldable pub connect_mount_port : Client → Outcome (ℤ × Client)
connect_mount_port c = do (_, c') ← connect_port c c.mount_port; ok (pos 0, c')

unfoldable pub connect_nfs_port : Client → Outcome (ℤ × Client)
connect_nfs_port c = do (_, c') ← connect_port c c.nfs_port; ok (pos 0, c')

-- What printStatus says: not connected, or connected since the time that `timem` shows.
pub data Status : Type 0 where
  not_connected : Status
  connected_at : ℕ → Status

-- What `timem` points to, which is undefined behaviour as long as nothing has been assigned to it.
abbrev pub shown_time : Option ℕ → Outcome Status
shown_time Option.none = Outcome.fault
shown_time (some t) = ok (connected_at t)

unfoldable pub print_status : Context → Outcome Status
print_status c =
    if is_negative c.socket_fd
    then ok not_connected
    else if not (eqb c.connect_error (pos 0))
    then ok not_connected
    else shown_time c.timem
