-- ===== src/PortMapper/Wire.antt =====
-- What getPort sends, and what it makes of the answer.
use nfs_client_simulator.Common.{
  ℕ, ◌+◌, ◌%◌, ◌^◌, ◌≤◌, ◌<◌, ◌≡◌, ◌≢◌, refl, ◌∙◌, List, ◌++◌, ok, ◌>>=◌, some, length,
  length-append, arith, length-tabulate, ==_refl,
}
use nfs_client_simulator.Common.Int.{ℤ, to_u32, to_int32, to_u32-to_int32, minus_one}
use nfs_client_simulator.GenericEnums.{auth_sys, portmap}
use nfs_client_simulator.Utils.{get_monotonic}
use nfs_client_simulator.Xdr.Encode.{be32}
use nfs_client_simulator.Xdr.Decode.{xdr_decode_u32-drop}
use nfs_client_simulator.Rpc.Reply.{done, reply_bytes}
use nfs_client_simulator.Call.Answer.{Answer, asked, answered, behind_reply, exchange-reply_bytes}
use nfs_client_simulator.Xdr.Emit.{Emits, then-Emits}
use nfs_client_simulator.Rpc.Call.{auth_sys_bytes, put_u32-Emits}
use nfs_client_simulator.Context.{Client}
use nfs_client_simulator.Context.Connection.{connect_port_mapper_port}
use nfs_client_simulator.Call.{World, Memory, new_array, exchange}
use nfs_client_simulator.Call.Request.{auth_sys_small}
use nfs_client_simulator.Call.Message.{
  call_message, request_array, length-request_array, build_request-call_message, make_rpc_room,
  put_procedure_room,
}
use nfs_client_simulator.PortMapper.{
  PortMapperContext, read_port, put_mapping, get_port_call, get_port,
}

-- The arguments: the program, its version, TCP, and no port.
abbrev pub mapping : ℕ → ℕ → List ℕ
mapping program version = be32 program ++ (be32 version ++ (be32 6 ++ be32 0))

put_mapping-Emits :
    {n : ℕ} (program version : ℕ) → Emits n (put_mapping program version) (mapping program version)
unfolding put_mapping
put_mapping-Emits program version =
    then-Emits (put_u32-Emits program)
      (then-Emits (put_u32-Emits version) (then-Emits (put_u32-Emits 6) (put_u32-Emits 0)))

-- getPort with AUTH_SYS, once the port mapper's port is connected: whatever the connection, it hands a
-- call of PMAPPROC_GETPORT to `exchange` in one record, with the next two sequential numbers as the
-- transaction and the stamp, and its result is the port of the payload. The host name has at most 255 bytes.
pub get_port-exchange :
    (m : PortMapperContext) (w : World) (client : Client) (r : ℤ) (memory : Memory)
    (program version : ℕ)
    → m.auth_type ≡ auth_sys
    → length w.self_fqdn ≤ 255
    → connect_port_mapper_port w.client ≡ ok (r, client)
    → let xid = w.sequential % 2 ^ 32 in
      let sequential₁ = (w.sequential + 1) % 2 ^ 64 in
      let message =
        call_message xid m.rpc_version portmap m.program_version 3
          (sequential₁ % 2 ^ 32)
          w.self_fqdn
          (mapping program version) in
      get_port m w memory program version ≡ (do
        (payload, w') ←
            exchange
              (record w { client = client; sequential = (sequential₁ + 1) % 2 ^ 64 })
              memory
              1024
              (4 + length message)
              (request_array message memory.request)
              xid
        remote_port ← read_port payload
        ok (to_u32 remote_port, w'))
unfolding get_port get_port_call get_monotonic
get_port-exchange m w client r memory program version auth short connected =
    rw
      (
        connected,
        make_rpc_room (w.sequential % 2 ^ 32) m.rpc_version portmap m.program_version 3
            (new_array 1024 memory.request) (length-tabulate memory.request 0 1024),
        put_procedure_room (w.sequential % 2 ^ 32) m.rpc_version portmap m.program_version 3
            (new_array 1024 memory.request) (length-tabulate memory.request 0 1024),
        auth,
        build_request-call_message (w.sequential % 2 ^ 32) m.rpc_version portmap m.program_version 3
            ((w.sequential + 1) % 2 ^ 64) w.self_fqdn memory {args = mapping program version} short
            (omega (
              arith,
              auth_sys_small ((w.sequential + 1) % 2 ^ 64 % 2 ^ 32) w.self_fqdn short,
              length-append (auth_sys_bytes ((w.sequential + 1) % 2 ^ 64 % 2 ^ 32) w.self_fqdn)
                  (mapping program version),
            ))
            (put_mapping-Emits program version),
        get_port,
        get_port_call,
      )
      refl

read_port-be32 :
    (port : ℕ) (post : List ℕ)
    → port < 2 ^ 32
    → read_port (some (be32 port ++ post)) ≡ ok (to_int32 port)
unfolding read_port
read_port-be32 port post h =
    rw (xdr_decode_u32-drop (be32 port ++ post) 0 port post (omega arith) h refl, read_port) refl

-- getPort against a port mapper that answers: if connectPortMapperPort leaves an open socket, and the
-- system takes the request and yields a successful reply to it, in pieces of any size, then the result
-- is the port of the reply, and the request has been sent once.
pub get_port-reply_bytes :
    (m : PortMapperContext) (w : World) (client : Client) (r : ℤ) (memory : Memory)
    (program version flavor port message_type : ℕ) (post : List ℕ)
    → let xid = w.sequential % 2 ^ 32 in
      let sequential₁ = (w.sequential + 1) % 2 ^ 64 in
      let message =
        call_message xid m.rpc_version portmap m.program_version 3
          (sequential₁ % 2 ^ 32)
          w.self_fqdn
          (mapping program version) in
      let body = reply_bytes xid message_type (done flavor) (be32 port ++ post) in
      (a : Answer (4 + length message) body)
      → m.auth_type ≡ auth_sys
      → length w.self_fqdn ≤ 255
      → connect_port_mapper_port w.client ≡ ok (r, asked client a)
      → client.context.socket_fd ≢ minus_one
      → length body ≤ 1024
      → client.context.total_received < 2 ^ 64
      → flavor < 2 ^ 32
      → port < 2 ^ 32
      → message_type < 2 ^ 32
      → get_port m w memory program version
        ≡ ok (
          port,
          record w {
            client =
                answered client (request_array message memory.request) (4 + length message) body a;
            sequential = (sequential₁ + 1) % 2 ^ 64;
          },
        )
get_port-reply_bytes m w client r memory program version flavor port message_type post a auth short
      connected fd small total hf hp ht =
    get_port-exchange m w (asked client a) r memory program version auth short connected
    ∙ rw (exchanged, read_port-be32 port more hp, to_u32-to_int32 port hp) refl
  where
    message : List ℕ
    message =
        call_message (w.sequential % 2 ^ 32) m.rpc_version portmap m.program_version 3
          ((w.sequential + 1) % 2 ^ 64 % 2 ^ 32) w.self_fqdn (mapping program version)

    more : List ℕ
    more =
        post
        ++ behind_reply memory
            (reply_bytes (w.sequential % 2 ^ 32) message_type (done flavor) (be32 port ++ post))

    exchanged :
        exchange
          (record w {
            client = asked client a;
            sequential = ((w.sequential + 1) % 2 ^ 64 + 1) % 2 ^ 64;
          })
          memory
          1024
          (4 + length message)
          (request_array message memory.request)
          (w.sequential % 2 ^ 32)
        ≡ ok (
          some (be32 port ++ more),
          record w {
            client =
                answered client
                  (request_array message memory.request)
                  (4 + length message)
                  (reply_bytes
                    (w.sequential % 2 ^ 32)
                    message_type
                    (done flavor)
                    (be32 port ++ post))
                  a;
            sequential = ((w.sequential + 1) % 2 ^ 64 + 1) % 2 ^ 64;
          },
        )
    exchanged =
        exchange-reply_bytes
          (record w { client = client; sequential = ((w.sequential + 1) % 2 ^ 64 + 1) % 2 ^ 64 })
          memory (request_array message memory.request) (4 + length message) (w.sequential % 2 ^ 32)
          (w.sequential % 2 ^ 32) message_type (done flavor) (be32 port ++ post) a fd (omega arith)
          (length-request_array message memory.request) small total hf (omega arith) ht
        ∙ rw (==_refl (w.sequential % 2 ^ 32)) refl
