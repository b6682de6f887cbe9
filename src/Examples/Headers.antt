-- ===== src/Examples/Headers.antt =====
-- RPC headers.
use nfs_client_simulator.Common.{ℕ, List, [], ◌∷◌, ◌++◌, ◌≡◌, refl, ok, some, arith}
use nfs_client_simulator.Xdr.Encode.{be32}
use nfs_client_simulator.Rpc.{parse_and_strip_rpc}
use nfs_client_simulator.Rpc.Reply.{
  done, reply_bytes, verified_reply, parse_and_strip_rpc-reply_bytes,
  parse_and_strip_rpc-verified_reply,
}

parse_and_strip_rpc-reply_bytes_example :
    parse_and_strip_rpc (reply_bytes 5 1 (done 0) (be32 635)) 28 5 ≡ ok (some (be32 635))
parse_and_strip_rpc-reply_bytes_example =
    parse_and_strip_rpc-reply_bytes (done 0) 5 5 1 28 (be32 635) (omega arith) (omega arith)
      (omega arith)

-- A body of six bytes, the first four of them 0.
abbrev verifier : List ℕ
verifier = 0 ∷ 0 ∷ 0 ∷ 0 ∷ 7 ∷ 9 ∷ []

parse_and_strip_rpc-verified_reply_example :
    parse_and_strip_rpc (verified_reply 5 1 verifier (be32 635)) 36 5
    ≡ ok (some (7 ∷ 9 ∷ 0 ∷ 0 ∷ (be32 0 ++ be32 635)))
parse_and_strip_rpc-verified_reply_example =
    parse_and_strip_rpc-verified_reply 5 1 0 36 verifier (7 ∷ 9 ∷ 0 ∷ 0 ∷ []) (be32 635)
      (omega arith) (omega arith) (omega arith) (omega arith) (omega arith) refl
