-- ===== src/Server/Ports.antt =====
-- getPort against a port mapper that reads the request and looks the program up.
use nfs_client_simulator.Common.{
  ℕ, ◌+◌, ◌%◌, ◌^◌, ◌≤◌, ◌<◌, ◌≡◌, ◌≢◌, refl, subst, List, [], Option, some, ok, ◌==◌, ◌&&◌, arith,
  length, length-append,
}
use nfs_client_simulator.Common.Int.{ℤ, minus_one}
use nfs_client_simulator.GenericEnums.{auth_sys, rpc_version2, program_version2, portmap}
use nfs_client_simulator.Xdr.Encode.{be32}
use nfs_client_simulator.Rpc.Reply.{done, reply_bytes}
use nfs_client_simulator.Rpc.Call.{auth_sys_bytes}
use nfs_client_simulator.Context.{Client}
use nfs_client_simulator.Context.Connection.{connect_port_mapper_port}
use nfs_client_simulator.Call.{World, Memory}
use nfs_client_simulator.Call.Request.{record_of, auth_sys_small}
use nfs_client_simulator.Call.Message.{call_message, request_array}
use nfs_client_simulator.Call.Answer.{Answer, asked, answered}
use nfs_client_simulator.PortMapper.{PortMapperContext, get_port}
use nfs_client_simulator.PortMapper.Wire.{mapping, get_port-reply_bytes}
use nfs_client_simulator.Server.{◌>>=◌, require, read_record, read_mapping}
use nfs_client_simulator.Server.Requests.{read_record-record_of}
use nfs_client_simulator.Server.Sent.{read_mapping-mapping}

-- The reply of a port mapper, version 2, to a record: `ports` are the programs with their versions that have been
-- registered with it. It answers calls of GETPORT, and only for TCP.
abbrev pub serve_getport : (ℕ → ℕ → ℕ) → List ℕ → Option (List ℕ)
serve_getport ports bytes = do
  request ← read_record bytes
  (program, version, protocol, port) ← read_mapping request.arguments
  require
      ((request.rpc_version == 2)
        && (request.program == 100_000)
        && (request.version == 2)
        && (request.procedure == 3)
        && (protocol == 6))
      (some (reply_bytes request.xid 1 (done 0) (be32 (ports program version))))

-- What getPort sends.
abbrev pub getport_message : PortMapperContext → World → ℕ → ℕ → List ℕ
getport_message m w program version =
    call_message (w.sequential % 2 ^ 32) m.rpc_version portmap m.program_version 3
      ((w.sequential + 1) % 2 ^ 64 % 2 ^ 32) w.self_fqdn (mapping program version)

getport_served :
    (ports : ℕ → ℕ → ℕ) (m : PortMapperContext) (w : World) (program version : ℕ)
    → m.rpc_version ≡ rpc_version2
    → m.program_version ≡ program_version2
    → length w.self_fqdn ≤ 255
    → program < 2 ^ 32
    → version < 2 ^ 32
    → serve_getport ports (record_of (getport_message m w program version))
      ≡ some (reply_bytes (w.sequential % 2 ^ 32) 1 (done 0) (be32 (ports program version)))
getport_served ports m w program version second third short hp hv =
    let credential = auth_sys_small ((w.sequential + 1) % 2 ^ 64 % 2 ^ 32) w.self_fqdn short in
    let size =
      length-append (auth_sys_bytes ((w.sequential + 1) % 2 ^ 64 % 2 ^ 32) w.self_fqdn)
        (mapping program version) in
    rw
      (
        read_record-record_of (w.sequential % 2 ^ 32) m.rpc_version portmap m.program_version 3
            ((w.sequential + 1) % 2 ^ 64 % 2 ^ 32) w.self_fqdn (mapping program version)
            (omega arith) (omega arith) (omega arith) short (omega (arith, credential, size)),
        second,
        third,
        read_mapping-mapping program version hp hv,
      )
      refl

-- getPort with AUTH_SYS, version 2 of the port mapper, against a port mapper that answers as serve_getport does:
-- if connectPortMapperPort leaves an open socket, and the system takes the request and yields the reply that
-- serve_getport makes of it, in pieces of any size, then the result is the port that is registered for the program
-- and its version. All three are numbers below 2 ^ 32, and the host name has at most 255 bytes.
pub get_port-serve_getport :
    (ports : ℕ → ℕ → ℕ) (m : PortMapperContext) (w : World) (client : Client) (r : ℤ)
    (memory : Memory) (program version : ℕ) (body : List ℕ)
    (a : Answer (4 + length (getport_message m w program version)) body)
    → serve_getport ports (record_of (getport_message m w program version)) ≡ some body
    → m.auth_type ≡ auth_sys
    → m.rpc_version ≡ rpc_version2
    → m.program_version ≡ program_version2
    → length w.self_fqdn ≤ 255
    → program < 2 ^ 32
    → version < 2 ^ 32
    → ports program version < 2 ^ 32
    → connect_port_mapper_port w.client ≡ ok (r, asked client a)
    → client.context.socket_fd ≢ minus_one
    → client.context.total_received < 2 ^ 64
    → get_port m w memory program version
      ≡ ok (
        ports program version,
        record w {
          client =
              answered client
                (request_array (getport_message m w program version) memory.request)
                (4 + length (getport_message m w program version))
                body
                a;
          sequential = ((w.sequential + 1) % 2 ^ 64 + 1) % 2 ^ 64;
        },
      )
get_port-serve_getport ports m w client r memory program version body a served auth second third
      short hp hv hr connected fd total =
    subst
      (λ (b : List ℕ).
        (a : Answer (4 + length (getport_message m w program version)) b)
        → connect_port_mapper_port w.client ≡ ok (r, asked client a)
        → get_port m w memory program version
          ≡ ok (
            ports program version,
            record w {
              client =
                  answered client
                    (request_array (getport_message m w program version) memory.request)
                    (4 + length (getport_message m w program version)) b a;
              sequential = ((w.sequential + 1) % 2 ^ 64 + 1) % 2 ^ 64;
            },
          ))
      same
      (λ a connected.
        get_port-reply_bytes m w client r memory program version 0 (ports program version) 1 [] a
          auth short connected fd (omega arith) total (omega arith) hr (omega arith))
      a connected
  where
    same : reply_bytes (w.sequential % 2 ^ 32) 1 (done 0) (be32 (ports program version)) ≡ body
    same = let known = getport_served ports m w program version second third short hp hv in cc
