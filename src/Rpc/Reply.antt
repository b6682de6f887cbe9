-- ===== src/Rpc/Reply.antt =====
-- What parseAndStripRPC makes of the replies of RFC 5531.
use nfs_client_simulator.Common.{
  ℕ, ◌^◌, ◌<◌, ◌≡◌, refl, sym, ap, ◌∙◌, append_assoc, length, List, ◌++◌, ok, ◌==◌, if◌then◌else◌,
  arith, ◌≢◌, none, some,
}
use nfs_client_simulator.Xdr.{Pointer, advance}
use nfs_client_simulator.Xdr.Encode.{be32, padding}
use nfs_client_simulator.Xdr.Decode.{xdr_decode_u32-drop}
use nfs_client_simulator.Rpc.{parse_denied, parse_accepted, parse_and_strip_rpc}

-- What a server may answer. The verifier of an accepted call has a flavor and, here, no body.
pub data Reply : Type 0 where
  mismatch : ℕ → ℕ → Reply
  auth_failed : ℕ → Reply
  done : ℕ → Reply
  prog_versions : ℕ → ℕ → ℕ → Reply
  failed : ℕ → ℕ → Reply

-- The words behind the transaction and the message type.
abbrev pub reply_body : Reply → List ℕ
reply_body (mismatch low high) = be32 1 ++ (be32 0 ++ (be32 low ++ be32 high))
reply_body (auth_failed why) = be32 1 ++ (be32 1 ++ be32 why)
reply_body (done flavor) = be32 0 ++ (be32 flavor ++ (be32 0 ++ be32 0))
reply_body (prog_versions flavor low high) =
    be32 0 ++ (be32 flavor ++ (be32 0 ++ (be32 2 ++ (be32 low ++ be32 high))))
reply_body (failed flavor status) = be32 0 ++ (be32 flavor ++ (be32 0 ++ be32 status))

-- The numbers are words, and `failed` is for the statuses that have no constructor of their own.
abbrev pub IsReply : Reply → Type 0
IsReply (mismatch low high) = (low < 2 ^ 32) × (high < 2 ^ 32)
IsReply (auth_failed why) = why < 2 ^ 32
IsReply (done flavor) = flavor < 2 ^ 32
IsReply (prog_versions flavor low high) = (flavor < 2 ^ 32) × (low < 2 ^ 32) × (high < 2 ^ 32)
IsReply (failed flavor status) = (flavor < 2 ^ 32) × (status < 2 ^ 32) × (status ≢ 0) × (status ≢ 2)

-- The results of the call, where it succeeded.
abbrev pub results : Reply → List ℕ → Pointer
results (done flavor) post = some post
results r post = none

abbrev pub reply_bytes : ℕ → ℕ → Reply → List ℕ → List ℕ
reply_bytes xid message_type r post = be32 xid ++ (be32 message_type ++ (reply_body r ++ post))

-- On every reply whose verifier has no body, whatever its message type says, the parser gives the
-- results exactly if the transaction is the expected one and the call was accepted and successful.
pub parse_and_strip_rpc-reply_bytes :
    (r : Reply) (xid want message_type size : ℕ) (post : List ℕ)
    → IsReply r
    → xid < 2 ^ 32
    → message_type < 2 ^ 32
    → parse_and_strip_rpc (reply_bytes xid message_type r post) size want
      ≡ ok (if xid == want then results r post else none)
unfolding parse_and_strip_rpc parse_denied parse_accepted advance
parse_and_strip_rpc-reply_bytes (mismatch low high) xid want message_type size post h hx ht =
    let wire = reply_bytes xid message_type (mismatch low high) post in
    ground (
      arith,
      xdr_decode_u32-drop wire 0 xid _ (omega arith) hx refl,
      xdr_decode_u32-drop wire 4 message_type _ (omega arith) ht refl,
      xdr_decode_u32-drop wire 8 1 _ (omega arith) (omega arith) refl,
      xdr_decode_u32-drop wire 12 0 _ (omega arith) (omega arith) refl,
      xdr_decode_u32-drop wire 16 low _ (omega arith) h.0 refl,
      xdr_decode_u32-drop wire 20 high _ (omega arith) h.1 refl,
    )
parse_and_strip_rpc-reply_bytes (auth_failed why) xid want message_type size post h hx ht =
    let wire = reply_bytes xid message_type (auth_failed why) post in
    ground (
      arith,
      xdr_decode_u32-drop wire 0 xid _ (omega arith) hx refl,
      xdr_decode_u32-drop wire 4 message_type _ (omega arith) ht refl,
      xdr_decode_u32-drop wire 8 1 _ (omega arith) (omega arith) refl,
      xdr_decode_u32-drop wire 12 1 _ (omega arith) (omega arith) refl,
      xdr_decode_u32-drop wire 16 why _ (omega arith) h refl,
    )
parse_and_strip_rpc-reply_bytes (done flavor) xid want message_type size post h hx ht =
    let wire = reply_bytes xid message_type (done flavor) post in
    ground (
      arith,
      xdr_decode_u32-drop wire 0 xid _ (omega arith) hx refl,
      xdr_decode_u32-drop wire 4 message_type _ (omega arith) ht refl,
      xdr_decode_u32-drop wire 8 0 _ (omega arith) (omega arith) refl,
      xdr_decode_u32-drop wire 12 flavor _ (omega arith) h refl,
      xdr_decode_u32-drop wire 16 0 _ (omega arith) (omega arith) refl,
      xdr_decode_u32-drop wire 20 0 _ (omega arith) (omega arith) refl,
    )
parse_and_strip_rpc-reply_bytes (prog_versions flavor low high) xid want message_type size post h hx
      ht =
    let wire = reply_bytes xid message_type (prog_versions flavor low high) post in
    ground (
      arith,
      xdr_decode_u32-drop wire 0 xid _ (omega arith) hx refl,
      xdr_decode_u32-drop wire 4 message_type _ (omega arith) ht refl,
      xdr_decode_u32-drop wire 8 0 _ (omega arith) (omega arith) refl,
      xdr_decode_u32-drop wire 12 flavor _ (omega arith) h.0 refl,
      xdr_decode_u32-drop wire 16 0 _ (omega arith) (omega arith) refl,
      xdr_decode_u32-drop wire 20 2 _ (omega arith) (omega arith) refl,
      xdr_decode_u32-drop wire 24 low _ (omega arith) h.1 refl,
      xdr_decode_u32-drop wire 28 high _ (omega arith) h.2 refl,
    )
parse_and_strip_rpc-reply_bytes (failed flavor status) xid want message_type size post h hx ht =
    let wire = reply_bytes xid message_type (failed flavor status) post in
    ground (
      arith,
      xdr_decode_u32-drop wire 0 xid _ (omega arith) hx refl,
      xdr_decode_u32-drop wire 4 message_type _ (omega arith) ht refl,
      xdr_decode_u32-drop wire 8 0 _ (omega arith) (omega arith) refl,
      xdr_decode_u32-drop wire 12 flavor _ (omega arith) h.0 refl,
      xdr_decode_u32-drop wire 16 0 _ (omega arith) (omega arith) refl,
      xdr_decode_u32-drop wire 20 status _ (omega arith) h.1 refl,
    )

-- A successful reply whose verifier has this body: its length, the body, and the zeros that fill it up.
abbrev pub verified_reply : ℕ → ℕ → List ℕ → List ℕ → List ℕ
verified_reply xid flavor body rest =
    be32 xid
    ++ (be32 1
        ++ (be32 0
            ++ (be32 flavor
                ++ (be32 (length body)
                    ++ (body ++ (padding (length body) 4 ++ (be32 0 ++ rest)))))))

-- On a successful reply whose verifier has a body that is not empty, filled up to words, the parser takes the first
-- word `v` of the body for the status: if it is 0 then the other words of the body, `more`, and the true status
-- count as the front of the results, and otherwise, unless `v` is 2, there are none. The transaction is the
-- expected one, and the flavor and the length are words.
pub parse_and_strip_rpc-verified_reply :
    (xid flavor v size : ℕ) (body more rest : List ℕ)
    → xid < 2 ^ 32
    → flavor < 2 ^ 32
    → length body < 2 ^ 32
    → v < 2 ^ 32
    → v ≢ 2
    → body ++ padding (length body) 4 ≡ be32 v ++ more
    → parse_and_strip_rpc (verified_reply xid flavor body rest) size xid
      ≡ ok (if v == 0 then some (more ++ (be32 0 ++ rest)) else none)
unfolding parse_and_strip_rpc parse_accepted advance
parse_and_strip_rpc-verified_reply xid flavor v size body more rest hx hf hn hv ne e = rw behind (
    ground (
      arith,
      xdr_decode_u32-drop wire 0 xid _ (omega arith) hx refl,
      xdr_decode_u32-drop wire 4 1 _ (omega arith) (omega arith) refl,
      xdr_decode_u32-drop wire 8 0 _ (omega arith) (omega arith) refl,
      xdr_decode_u32-drop wire 12 flavor _ (omega arith) hf refl,
      xdr_decode_u32-drop wire 16 (length body) _ (omega arith) hn refl,
      xdr_decode_u32-drop wire 20 v _ (omega arith) hv refl,
    ))
  where
    wire : List ℕ
    wire =
        be32 xid
        ++ (be32 1
            ++ (be32 0
                ++ (be32 flavor ++ (be32 (length body) ++ (be32 v ++ (more ++ (be32 0 ++ rest)))))))

    behind :
        body ++ (padding (length body) 4 ++ (be32 0 ++ rest)) ≡ be32 v ++ (more ++ (be32 0 ++ rest))
    behind =
        sym (append_assoc body (padding (length body) 4) (be32 0 ++ rest))
        ∙ ap (λ (l : List ℕ). l ++ (be32 0 ++ rest)) e
