-- ===== src/Context.antt =====
-- class Context of Context.hpp: one server, its ports and its socket.
pub mod Connection
pub mod Send
pub mod Receive
use nfs_client_simulator.Common.{ℕ, List, Option, none}
use nfs_client_simulator.Common.Int.{ℤ, pos, minus_one, to_int32}
use nfs_client_simulator.System.{System}

-- The mutex is not modelled, since the program has one thread, nor is `returnString`, which is never
-- used. `timem` is the time that it points to, and `none` as long as the pointer is
-- uninitialised: then to read it is undefined behaviour.
pub record Context : Type 0 where
  pub server : List ℕ
  pub port : ℤ
  pub port_mapper_port : ℤ
  pub error : ℤ
  pub connect_error : ℤ
  pub return_value : ℤ
  pub socket_fd : ℤ
  pub total_sent : ℕ
  pub total_received : ℕ
  pub connect_time : ℕ
  pub disconnect_time : ℕ
  pub timem : Option ℕ
  pub mount_port : ℤ
  pub nfs_port : ℤ

-- A context and the system that its calls meet.
pub record Client : Type 0 where
  pub context : Context
  pub open context use *
  pub system : System
  pub open system use *

-- The constructor. `garbage` stands in the numbers that it leaves uninitialised; timem, which it leaves
-- uninitialised too, is `none`.
unfoldable pub make_context : List ℕ → ℤ → ℕ → Context
make_context server mapper_port garbage = record {
  server = server;
  port = minus_one;
  port_mapper_port = mapper_port;
  error = pos 0;
  connect_error = pos garbage;
  return_value = pos 0;
  socket_fd = minus_one;
  total_sent = 0;
  total_received = 0;
  connect_time = garbage;
  disconnect_time = garbage;
  timem = none;
  mount_port = minus_one;
  nfs_port = minus_one;
}

-- setMountPort and setNfsPort take a uint32_t.
unfoldable pub set_mount_port : Context → ℕ → Context
set_mount_port c port = record c { mount_port = to_int32 port }

unfoldable pub set_nfs_port : Context → ℕ → Context
set_nfs_port c port = record c { nfs_port = to_int32 port }
