-- ===== src/Examples/Calls.antt =====
-- Whole calls.
use nfs_client_simulator.Common.{
  ℕ, ◌+◌, ◌≡◌, refl, List, ◌++◌, ok, ◌==◌, ◌&&◌, if◌then◌else◌, some, arith, length,
}
use nfs_client_simulator.Common.Int.{pos}
use nfs_client_simulator.GenericEnums.{rpc_version2, program_version2, portmap}
use nfs_client_simulator.Xdr.Encode.{be32}
use nfs_client_simulator.Rpc.Reply.{done, reply_bytes}
use nfs_client_simulator.Rpc.Call.{auth_sys_bytes}
use nfs_client_simulator.Context.Connection.{connect_port_mapper_port}
use nfs_client_simulator.Call.{World, exchange}
use nfs_client_simulator.Call.Message.{call_message, request_array}
use nfs_client_simulator.Call.Answer.{Answer, asked, answered, behind_reply, exchange-reply_bytes}
use nfs_client_simulator.PortMapper.{get_port}
use nfs_client_simulator.PortMapper.Wire.{mapping}
use nfs_client_simulator.Session.{port_mapper}
use nfs_client_simulator.Server.{
  read_record, read_call, read_auth, read_opaque, read_parms, read_mapping, read_word,
}
use nfs_client_simulator.Server.Ports.{get_port-serve_getport}
use nfs_client_simulator.Examples.{open_client, memory, host, answer}

-- getPort on a context that is connected to the port mapper.
abbrev getport_message : List ℕ
getport_message = call_message 5 rpc_version2 portmap program_version2 3 6 host (mapping 100005 3)

abbrev getport_reply : List ℕ
getport_reply = reply_bytes 5 1 (done 0) (be32 635)

abbrev getport_answer : Answer (4 + length getport_message) getport_reply
getport_answer =
    answer (4 + length getport_message) getport_reply (omega arith) (omega arith) (omega arith)

abbrev getport_world : World
getport_world = record {
  client = asked open_client getport_answer;
  sequential = 5;
  self_fqdn = host;
}

exchange-reply_bytes_example :
    exchange getport_world memory 1024
      (4 + length getport_message)
      (request_array getport_message (memory.request))
      5
    ≡ ok (
      some (be32 635 ++ behind_reply memory getport_reply),
      record getport_world {
        client =
            answered open_client
              (request_array getport_message (memory.request))
              (4 + length getport_message)
              getport_reply
              getport_answer;
      },
    )
unfolding auth_sys_bytes nfs_client_simulator.Rpc.Call.payload
exchange-reply_bytes_example =
    exchange-reply_bytes (record getport_world { client = open_client }) memory
      (request_array getport_message (memory.request)) (4 + length getport_message) 5 5 1 (done 0)
      (be32 635) getport_answer (λ e. cc) (omega arith) (omega arith) (omega arith) (omega arith)
      (omega arith) (omega arith) (omega arith)

-- A port mapper with which version 3 of the mount program is registered, and nothing else.
abbrev registered : ℕ → ℕ → ℕ
registered program version = if (program == 100_005) && (version == 3) then 635 else 0

get_port-serve_getport_example :
    get_port port_mapper getport_world memory 100_005 3
    ≡ ok (
      635,
      record getport_world {
        client =
            answered open_client
              (request_array getport_message (memory.request))
              (4 + length getport_message)
              getport_reply
              getport_answer;
        sequential = 7;
      },
    )
unfolding connect_port_mapper_port read_record read_call read_auth read_opaque read_parms
    read_mapping read_word auth_sys_bytes nfs_client_simulator.Rpc.Call.payload
get_port-serve_getport_example =
    get_port-serve_getport registered port_mapper getport_world open_client (pos 0) memory 100_005 3
      getport_reply getport_answer refl refl refl refl (omega arith) (omega arith) (omega arith)
      (omega arith) refl (λ e. cc) (omega arith)
