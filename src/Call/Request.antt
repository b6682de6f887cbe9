-- ===== src/Call/Request.antt =====
-- The bytes of a request.
use nfs_client_simulator.Common.{
  ℕ, ◌+◌, ◌-◌, ◌%◌, ◌^◌, ◌≤◌, ◌<◌, ◌≡◌, refl, ◌∙◌, List, ◌++◌, Outcome, ok, fault, leb,
  lt→leb_false, true, length, drop, arith, append_assoc, drop-drop, length-append, length-drop,
  take-append, le→leb,
}
use nfs_client_simulator.Utils.{get_monotonic}
use nfs_client_simulator.Xdr.{Buffer}
use nfs_client_simulator.Xdr.Encode.{
  be32, Written, xdr_encode_u32-Written, copy_lem, padding-aligns,
}
use nfs_client_simulator.Xdr.Emit.{Emits, emit-Emits}
use nfs_client_simulator.Xdr.RoundTrip.{xdr_encode_last_fragment-be32}
use nfs_client_simulator.Rpc.{add_auth_sys}
use nfs_client_simulator.Rpc.Call.{auth_sys_bytes, length-auth_sys_bytes, encode_auth_sys-Written}
use nfs_client_simulator.Call.{write_bytes, add_credential, seal_request, build_request}

-- The record mark of the last fragment, and the message.
abbrev pub record_of : List ℕ → List ℕ
record_of message = be32 (length message + 2 ^ 31) ++ message

-- sealing puts the mark into the place that makeRPC has left for it.
pub seal_request-record :
    (message junk : List ℕ)
    → length message < 2 ^ 31
    → seal_request (4 + length message, be32 0 ++ (message ++ junk))
      ≡ ok (record_of message ++ junk)
unfolding seal_request
seal_request-record message junk h =
    let size : (4 + length message + 2 ^ 64 - 4) % 2 ^ 64 % 2 ^ 32 ≡ length message = omega arith in
    let room : leb 4 (length (be32 0 ++ (message ++ junk))) ≡ true = ground arith in
    rw
      (
        size,
        xdr_encode_u32-Written (be32 0 ++ (message ++ junk)) (length message),
        room,
        seal_request,
      )
      (xdr_encode_last_fragment-be32 (length message) (message ++ junk) h)

-- The length of a credential for a host name of at most 255 bytes.
pub auth_sys_small :
    (stamp : ℕ) (self_fqdn : List ℕ)
    → length self_fqdn ≤ 255
    → length (auth_sys_bytes stamp self_fqdn) ≤ 298
auth_sys_small stamp self_fqdn h = omega (
  arith,
  length-auth_sys_bytes stamp self_fqdn,
  (padding-aligns (length self_fqdn) 4 (omega arith)).1,
)

module _ (sequential : ℕ) (self_fqdn : List ℕ) (cred : Buffer) (short : length self_fqdn ≤ 255)
    (c : length cred ≡ 1024) where
  bytes : List ℕ
  bytes = auth_sys_bytes (sequential % 2 ^ 32) self_fqdn

  bytes_small : length bytes ≤ 298
  unfolding bytes
  bytes_small = auth_sys_small (sequential % 2 ^ 32) self_fqdn short

  add_auth_sys_room :
      add_auth_sys sequential self_fqdn cred
      ≡ ok (length bytes, bytes ++ drop (length bytes) cred, (sequential + 1) % 2 ^ 64)
  unfolding bytes add_auth_sys get_monotonic
  add_auth_sys_room =
      rw
        (
          encode_auth_sys-Written (sequential % 2 ^ 32) self_fqdn cred (omega arith) (omega arith),
          le→leb (length bytes) (length cred) (omega (arith, bytes_small)),
          add_auth_sys,
        )
        refl

  add_credential_room :
      (pre buf : Buffer)
      → length pre + length buf < 2 ^ 32
      → length bytes ≤ length buf
      → add_credential sequential self_fqdn cred (length pre, pre ++ buf)
        ≡ ok (
          (length pre + length bytes, pre ++ bytes ++ drop (length bytes) buf),
          (sequential + 1) % 2 ^ 64,
        )
  unfolding add_credential
  add_credential_room pre buf fits room =
      let written : (b : Buffer) → write_bytes bytes (length bytes) b ≡ Written b bytes =
        λ b. rw (copy_lem b bytes) (ground arith) in
      rw
        (
          add_auth_sys_room,
          take-append bytes (drop (length bytes) cred),
          (emit-Emits (length pre) (write_bytes bytes (length bytes)) bytes written).emits pre buf
              refl fits,
          le→leb (length bytes) (length buf) room,
          add_credential,
        )
        refl

  -- The credential behind the header.
  credential_added :
      (front buf : Buffer)
      → 4 + length front + length buf < 2 ^ 31
      → length bytes ≤ length buf
      → add_credential sequential self_fqdn cred (4 + length front, be32 0 ++ (front ++ buf))
        ≡ ok (
          (4 + length front + length bytes, be32 0 ++ (front ++ bytes ++ drop (length bytes) buf)),
          (sequential + 1) % 2 ^ 64,
        )
  credential_added front buf fits room =
      let n₁ : 4 + length front ≡ length (be32 0 ++ front) = omega arith in
      rw n₁ (add_credential_room (be32 0 ++ front) buf (omega arith) room)

  -- From the credential on, if the arguments are more bytes than the array has left, they are written past its end.
  pub build_request-overrun :
      {put_args : ℕ × Buffer → Outcome (ℕ × Buffer)} {args : List ℕ} (front buf : Buffer)
      → let credential = auth_sys_bytes (sequential % 2 ^ 32) self_fqdn in
        Emits (4 + length front + length credential) put_args args
        → 4 + length front + length buf < 2 ^ 31
        → length credential ≤ length buf
        → length buf < length credential + length args
        → build_request sequential self_fqdn cred put_args
            (4 + length front, be32 0 ++ (front ++ buf))
          ≡ fault
  unfolding build_request bytes
  build_request-overrun {put_args = put_args} {args = args} front buf p fits room over =
      rw (credential_added front buf fits room, past_the_end, build_request) refl
    where
      rest_length : length (drop (length bytes) buf) ≡ length buf - length bytes
      rest_length = length-drop (length bytes) buf

      past_the_end :
          put_args
            (4 + length front + length bytes, be32 0 ++ (front ++ bytes ++ drop (length bytes) buf))
          ≡ fault
      past_the_end =
          p.emits (be32 0 ++ (front ++ bytes)) (drop (length bytes) buf)
            (omega (arith, length-append front bytes))
            (omega (arith, length-append front bytes, rest_length))
          ∙ rw
              (lt→leb_false (length args) (length (drop (length bytes) buf))
                (omega (arith, rest_length)))
              refl

  -- From the credential on, if the arguments are so many bytes that the request fits the array.
  pub build_request-record :
      {put_args : ℕ × Buffer → Outcome (ℕ × Buffer)} {args : List ℕ} (front buf : Buffer)
      → let credential = auth_sys_bytes (sequential % 2 ^ 32) self_fqdn in
        let message = front ++ (credential ++ args) in
        Emits (4 + length front + length credential) put_args args
        → 4 + length front + length buf < 2 ^ 31
        → length credential + length args ≤ length buf
        → build_request sequential self_fqdn cred put_args
            (4 + length front, be32 0 ++ (front ++ buf))
          ≡ ok (
            4 + length message,
            record_of message ++ drop (length credential + length args) buf,
            (sequential + 1) % 2 ^ 64,
          )
  unfolding build_request bytes
  build_request-record {put_args = put_args} {args = args} front buf p fits room =
      rw (credential_added front buf (omega arith) (omega arith), step₂, step₃, build_request) refl
    where
      rest : Buffer
      rest = drop (length bytes) buf

      rest_length : length rest ≡ length buf - length bytes
      rest_length = length-drop (length bytes) buf

      step₂ :
          put_args (4 + length front + length bytes, be32 0 ++ (front ++ bytes ++ rest))
          ≡ ok (
            4 + length (front ++ (bytes ++ args)),
            be32 0 ++ (front ++ (bytes ++ args) ++ drop (length bytes + length args) buf),
          )
      step₂ =
          p.emits (be32 0 ++ (front ++ bytes)) rest (omega (arith, length-append front bytes))
            (omega (arith, length-append front bytes, rest_length))
          ∙ ground (
            arith,
            rest_length,
            length-append front (bytes ++ args),
            length-append bytes args,
            drop-drop (length bytes) (length args) buf,
            append_assoc front bytes args,
          )

      step₃ :
          seal_request (
            4 + length (front ++ (bytes ++ args)),
            be32 0 ++ (front ++ (bytes ++ args) ++ drop (length bytes + length args) buf),
          )
          ≡ ok (record_of (front ++ (bytes ++ args)) ++ drop (length bytes + length args) buf)
      step₃ =
          seal_request-record (front ++ (bytes ++ args)) (drop (length bytes + length args) buf)
            (omega (arith, length-append front (bytes ++ args), length-append bytes args))
