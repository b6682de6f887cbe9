-- ===== src/Examples/Run.antt =====
-- The whole program, run against servers that answer.
use nfs_client_simulator.Common.{◌+◌, ◌^◌, ◌≡◌, [], ◌∷◌, fault}
use nfs_client_simulator.Common.Int.{ℤ, pos}
use nfs_client_simulator.System.{System, taken, received}
use nfs_client_simulator.Xdr.Encode.{be32}
use nfs_client_simulator.Rpc.Reply.{done, reply_bytes}
use nfs_client_simulator.Call.{World}
use nfs_client_simulator.Mount.Reply.{mount_reply}
use nfs_client_simulator.Context.{make_context}
use nfs_client_simulator.ServerContexts.{add_context}
use nfs_client_simulator.Text.{codes}
use nfs_client_simulator.Session.{Memories, main}
use nfs_client_simulator.Session.End.{main_session}
use nfs_client_simulator.Examples.{quiet, memory, host}

abbrev memories : Memories
memories = record {
  for_mount_port = memory;
  for_nfs_port = memory;
  for_mount = memory;
  for_lookup = memory;
  for_umount = memory;
}

abbrev success : ℤ × ℤ
success = (pos 0, pos 0)

-- The port mapper answers 635 and 2049, and the mount daemon gives a handle.
abbrev servers : System
servers = record quiet {
  lookups = pos 0 ∷ pos 0 ∷ [];
  sockets = pos 3 ∷ pos 4 ∷ [];
  connects = pos 0 ∷ pos 0 ∷ [];
  options = success ∷ success ∷ success ∷ success ∷ success ∷ [];
  sends = taken 88 ∷ taken 88 ∷ taken 84 ∷ [];
  recvs =
      received (be32 (2 ^ 31 + 28))
      ∷ received (reply_bytes 5 1 (done 0) (be32 635))
      ∷ received (be32 (2 ^ 31 + 28))
      ∷ received (reply_bytes 7 1 (done 0) (be32 2049))
      ∷ received (be32 (2 ^ 31 + 44))
      ∷ received (reply_bytes 9 1 (done 0) (mount_reply 0 (1 ∷ 2 ∷ 3 ∷ 4 ∷ []) (1 ∷ []) []))
      ∷ [];
}

-- The mount succeeds, and main reads the end iterator of the tree.
main_session_example : main ((b's', codes "h,111") ∷ []) 9 servers 5 host memories ≡ fault
unfolding nfs_client_simulator.FsTree.find nfs_client_simulator.FsTree.get_root
    nfs_client_simulator.FsTree.add_mount_handle nfs_client_simulator.ServerContexts.add_context
    nfs_client_simulator.ServerContexts.at_index nfs_client_simulator.ServerContexts.bump
    nfs_client_simulator.ServerContexts.take_one nfs_client_simulator.ServerContexts.get_context
    nfs_client_simulator.Rpc.make_rpc nfs_client_simulator.Rpc.put_payload
    nfs_client_simulator.Rpc.put_verifier nfs_client_simulator.Rpc.encode_auth_sys
    nfs_client_simulator.Rpc.add_auth_sys nfs_client_simulator.Rpc.parse_accepted
    nfs_client_simulator.Rpc.parse_and_strip_rpc nfs_client_simulator.Context.make_context
    nfs_client_simulator.Context.set_mount_port nfs_client_simulator.Context.set_nfs_port
    nfs_client_simulator.Mount.make_mount_context nfs_client_simulator.Mount.set_mount_path
    nfs_client_simulator.Mount.set_mount_prot_version nfs_client_simulator.Mount.read_auths
    nfs_client_simulator.Mount.read_mount_reply nfs_client_simulator.Mount.begin_mount_call
    nfs_client_simulator.Mount.put_path nfs_client_simulator.Mount.finish_mount_call
    nfs_client_simulator.Mount.make_mount_call nfs_client_simulator.Session.set_ports
    nfs_client_simulator.Session.mount_export nfs_client_simulator.Session.use_export
    nfs_client_simulator.PortMapper.read_port nfs_client_simulator.PortMapper.put_mapping
    nfs_client_simulator.PortMapper.get_port_call nfs_client_simulator.PortMapper.get_port
    nfs_client_simulator.PortMapper.get_mount_port nfs_client_simulator.PortMapper.get_nfs_port
    nfs_client_simulator.Call.add_credential nfs_client_simulator.Call.seal_request
    nfs_client_simulator.Call.build_request nfs_client_simulator.Call.exchange
    nfs_client_simulator.Utils.get_monotonic nfs_client_simulator.Xdr.store
    nfs_client_simulator.Xdr.load nfs_client_simulator.Xdr.at nfs_client_simulator.Xdr.copy
    nfs_client_simulator.Xdr.memcpy nfs_client_simulator.Xdr.xdr_encode_u32
    nfs_client_simulator.Xdr.xdr_encode_string nfs_client_simulator.Xdr.xdr_encode_align
    nfs_client_simulator.Xdr.xdr_encode_last_fragment
    nfs_client_simulator.Xdr.xdr_strip_last_fragment nfs_client_simulator.Xdr.not_null
    nfs_client_simulator.Xdr.xdr_decode_u32 nfs_client_simulator.Xdr.advance
    nfs_client_simulator.Xdr.read_bytes nfs_client_simulator.Xdr.xdr_decode_n_bytes
    nfs_client_simulator.Xdr.emit nfs_client_simulator.Context.Receive.take_header
    nfs_client_simulator.Context.Receive.take_bytes nfs_client_simulator.Context.Receive.recv_loop
    nfs_client_simulator.Context.Receive.finish_receive nfs_client_simulator.Context.Receive.receive
    nfs_client_simulator.Context.Connection.set_timeout
    nfs_client_simulator.Context.Connection.open_socket
    nfs_client_simulator.Context.Connection.connect
    nfs_client_simulator.Context.Connection.disconnect
    nfs_client_simulator.Context.Connection.connect_port
    nfs_client_simulator.Context.Connection.connect_port_mapper_port
    nfs_client_simulator.Context.Connection.connect_mount_port
    nfs_client_simulator.Context.Send.kernel_read nfs_client_simulator.Context.Send.send_loop
    nfs_client_simulator.Context.Send.finish_send nfs_client_simulator.Context.Send.send
    nfs_client_simulator.Arguments.leading nfs_client_simulator.Arguments.token
    nfs_client_simulator.Arguments.cut nfs_client_simulator.Arguments.strtok
    nfs_client_simulator.Arguments.c_string nfs_client_simulator.Arguments.add_server
    nfs_client_simulator.Arguments.read_server nfs_client_simulator.Arguments.use_token
    nfs_client_simulator.Arguments.parse_server nfs_client_simulator.Arguments.parse_option
    nfs_client_simulator.Arguments.parse_options nfs_client_simulator.Arguments.parse_args
    nfs_client_simulator.Text.scan nfs_client_simulator.Text.fit_int nfs_client_simulator.Text.atoi
main_session_example = main_session ((b's', codes "h,111") ∷ []) 9 servers 5 host memories
