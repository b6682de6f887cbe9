-- ===== src/Rpc/Call.antt =====
-- What makeRPC and addAuthSys write.
use nfs_client_simulator.Common.{
  ℕ, ◌+◌, ◌-◌, ◌%◌, ◌^◌, ◌≤◌, ◌<◌, ◌≡◌, refl, sym, ◌∙◌, List, [], ◌++◌, Outcome, ok, fault, ◌>>=◌,
  leb, length, drop, arith, append_assoc, drop-drop, length-append, length-drop, Bool-cases, inl,
  inr, leb→le, still_fault, leb_false→lt, le→leb, lt→leb_false,
}
use nfs_client_simulator.GenericEnums.{
  RpcType, rpc_type_u32, RpcVersion, rpc_version_u32, RpcProgram, rpc_program_u32, ProgramVersion,
  program_version_u32,
}
use nfs_client_simulator.Xdr.{Buffer, at, emit, xdr_encode_u32, xdr_encode_string, xdr_encode_align}
use nfs_client_simulator.Xdr.Encode.{
  be32, Written, padding, xdr_encode_u32-Written, xdr_encode_string-Written,
  xdr_encode_align-Written, padding-aligns,
}
use nfs_client_simulator.Xdr.Emit.{Emits, emit-Emits, emit_sized-Emits, at-append_ok, then-Emits}
use nfs_client_simulator.Rpc.{put_u32, make_rpc, put_payload, put_verifier, encode_auth_sys}

pub put_u32-Emits : {n : ℕ} (v : ℕ) → Emits n (put_u32 v) (be32 v)
put_u32-Emits {n} v =
    emit-Emits n (λ p. xdr_encode_u32 p v) (be32 v) (λ buf. xdr_encode_u32-Written buf v)

-- Six words: the place of the size, the transaction, and what is called.
abbrev pub call_header : ℕ → RpcType → RpcVersion → RpcProgram → ProgramVersion → List ℕ
call_header xid t v p pv =
    be32 0
    ++ (be32 xid
        ++ (be32 (rpc_type_u32 t)
            ++ (be32 (rpc_version_u32 v)
                ++ (be32 (rpc_program_u32 p) ++ be32 (program_version_u32 pv)))))

-- makeRPC writes the header, and faults exactly if the array is shorter than 24 bytes.
pub make_rpc-Written :
    (xid : ℕ) (t : RpcType) (v : RpcVersion) (p : RpcProgram) (pv : ProgramVersion) (buf : Buffer)
    → length buf < 2 ^ 32
    → make_rpc xid t v p pv buf ≡ Written buf (call_header xid t v p pv)
unfolding make_rpc
make_rpc-Written xid t v p pv buf fits =
    (then-Emits (put_u32-Emits 0) (
        then-Emits (put_u32-Emits xid) (
          then-Emits (put_u32-Emits (rpc_type_u32 t)) (
            then-Emits (put_u32-Emits (rpc_version_u32 v)) (
              then-Emits (put_u32-Emits (rpc_program_u32 p))
                (put_u32-Emits (program_version_u32 pv))))))).emits
      [] buf refl (omega arith)

-- The body of an AUTH_SYS credential of user 0 and group 0: the stamp, the name of the machine as an
-- XDR string with its padding, and the numbers.
unfoldable pub payload : ℕ → List ℕ → List ℕ
payload auth_stamp auth_machine =
    be32 auth_stamp
    ++ (be32 (length auth_machine)
        ++ auth_machine
        ++ (padding (length auth_machine) 4 ++ (be32 0 ++ (be32 0 ++ (be32 1 ++ be32 0)))))

pub padding_mod : (m n : ℕ) → m % 4 ≡ n % 4 → padding m 4 ≡ padding n 4
padding_mod m n e = rw e

pub string-Emits :
    {n : ℕ} (str : List ℕ)
    → length str + 4 < 2 ^ 32
    → Emits n (emit (λ p. xdr_encode_string p str)) (be32 (length str) ++ str)
string-Emits {n} str h =
    emit-Emits n (λ p. xdr_encode_string p str) (be32 (length str) ++ str)
      (λ buf. xdr_encode_string-Written buf str h)

pub align-Emits :
    {n : ℕ} (k : ℕ)
    → n % 4 ≡ k % 4
    → Emits n (λ s. emit (λ p. xdr_encode_align p s.0 4) s) (padding k 4)
align-Emits {n} k e =
    emit_sized-Emits n (λ p. xdr_encode_align p n 4) (padding k 4)
      (λ buf. rw (sym (padding_mod n k e)) (xdr_encode_align-Written buf n 4 (omega arith)))
      (λ m p. xdr_encode_align p m 4) refl

put_payload-Emits :
    (auth_stamp : ℕ) (auth_machine : List ℕ)
    → length auth_machine + 4 < 2 ^ 32
    → Emits 8 (put_payload auth_stamp auth_machine) (payload auth_stamp auth_machine)
unfolding put_payload payload
put_payload-Emits auth_stamp auth_machine h = then-Emits (put_u32-Emits auth_stamp) (
    then-Emits (string-Emits auth_machine h) (
      then-Emits (align-Emits (length auth_machine) (omega arith)) (
        then-Emits (put_u32-Emits 0)
          (then-Emits (put_u32-Emits 0) (then-Emits (put_u32-Emits 1) (put_u32-Emits 0))))))

-- A word, the length of what `body` writes, that, and the tail. The length is written afterwards.
abbrev length_prefixed :
    ℕ
    → (ℕ × Buffer → Outcome (ℕ × Buffer))
    → (ℕ × Buffer → Outcome (ℕ × Buffer))
    → Buffer
    → Outcome (ℕ × Buffer)
length_prefixed first body tail buf = do
  s₁ ← put_u32 first (0, buf)
  s₂ ← put_u32 0 s₁
  (size, wire₁) ← body s₂
  (_, wire₂) ← at wire₁ s₁.0 (λ p. xdr_encode_u32 p ((size + 2 ^ 32 - s₂.0) % 2 ^ 32))
  tail (size, wire₂)

module _ {body tail : ℕ × Buffer → Outcome (ℕ × Buffer)} {ys zs : List ℕ} (first : ℕ) (buf : Buffer)
    (p : Emits 8 body ys) (q : Emits (8 + length ys) tail zs) (small : 8 + length ys < 2 ^ 32)
    (fits : length buf < 2 ^ 32) where
  prefixed_bytes : List ℕ
  prefixed_bytes = be32 first ++ (be32 (length ys) ++ (ys ++ zs))

  length_prefixed_short : length buf < 8 + length ys → length_prefixed first body tail buf ≡ fault
  length_prefixed_short short =
      let front = then-Emits (put_u32-Emits {n = 0} first) (then-Emits (put_u32-Emits 0) p) in
      still_fault (put_u32 first (0, buf))
        (front.emits [] buf refl (omega arith)
          ∙ rw (lt→leb_false (length (be32 first ++ (be32 0 ++ ys))) (length buf) (omega arith)))
        (λ s₁ e₁. still_fault (put_u32 0 s₁) e₁ (λ s₂ e₂. rw e₂))

  length_prefixed_room :
      8 + length ys ≤ length buf → length_prefixed first body tail buf ≡ Written buf prefixed_bytes
  unfolding prefixed_bytes
  length_prefixed_room room =
      rw (e₁, e₂, e₃, patched)
        (ground (
          arith,
          q.emits (be32 first ++ (be32 (length ys) ++ ys)) behind (omega arith)
              (omega (arith, behind_length)),
          behind_length,
          length-append ys zs,
          append_assoc ys zs (drop (length zs) behind),
          drop-drop 4 4 buf,
          drop-drop 8 (length ys) buf,
          drop-drop (8 + length ys) (length zs) buf,
        ))
    where
      D : Buffer
      D = drop 4 (drop 4 buf)

      behind : Buffer
      behind = drop (length ys) D

      D_length : length D ≡ length buf - 8
      D_length = omega (arith, length-drop 4 (drop 4 buf), length-drop 4 buf)

      behind_length : length behind ≡ length buf - (8 + length ys)
      behind_length = omega (arith, D_length, length-drop (length ys) D)

      e₁ : put_u32 first (0, buf) ≡ ok (4, be32 first ++ drop 4 buf)
      e₁ =
          (put_u32-Emits {n = 0} first).emits [] buf refl (omega arith)
          ∙ rw (le→leb 4 (length buf) (omega arith))

      e₂ : put_u32 0 (4, be32 first ++ drop 4 buf) ≡ ok (8, be32 first ++ be32 0 ++ D)
      e₂ =
          (put_u32-Emits {n = 4} 0).emits (be32 first) (drop 4 buf) refl
            (omega (arith, length-drop 4 buf))
          ∙ rw (le→leb 4 (length (drop 4 buf)) (omega (arith, length-drop 4 buf)))

      e₃ :
          body (8, be32 first ++ be32 0 ++ D)
          ≡ ok (8 + length ys, be32 first ++ be32 0 ++ ys ++ behind)
      e₃ =
          p.emits (be32 first ++ be32 0) D refl (omega (arith, D_length))
          ∙ rw (le→leb (length ys) (length D) (omega (arith, D_length)))

      patched :
          at
            (be32 first ++ be32 0 ++ ys ++ behind)
            4
            (λ p. xdr_encode_u32 p ((8 + length ys + 2 ^ 32 - 8) % 2 ^ 32))
          ≡ ok (4, be32 first ++ (be32 (length ys) ++ ys ++ behind))
      patched =
          let n : (8 + length ys + 2 ^ 32 - 8) % 2 ^ 32 ≡ length ys = omega arith in
          rw n (
            at-append_ok (be32 first) (be32 0 ++ ys ++ behind) (λ p. xdr_encode_u32 p (length ys))
              (xdr_encode_u32-Written (be32 0 ++ ys ++ behind) (length ys) ∙ ground arith))

  length_prefixed-Written : length_prefixed first body tail buf ≡ Written buf prefixed_bytes
  unfolding prefixed_bytes
  length_prefixed-Written = elim (Bool-cases (leb (8 + length ys) (length buf))) [
    | inl h ↦ length_prefixed_room (leb→le (8 + length ys) (length buf) h)
    | inr h ↦
        let short = leb_false→lt (8 + length ys) (length buf) h in
        length_prefixed_short short
        ∙ rw (
            lt→leb_false (length prefixed_bytes) (length buf)
              (omega (arith, short, length-append ys zs)))
  ]

put_verifier-Emits : {n : ℕ} → Emits n put_verifier (be32 0 ++ be32 0)
unfolding put_verifier
put_verifier-Emits = then-Emits (put_u32-Emits 0) (put_u32-Emits 0)

-- A credential of flavor AUTH_SYS with the length of its payload, and a verifier of flavor AUTH_NONE.
unfoldable pub auth_sys_bytes : ℕ → List ℕ → List ℕ
auth_sys_bytes auth_stamp auth_machine =
    be32 1
    ++ (be32 (length (payload auth_stamp auth_machine))
        ++ (payload auth_stamp auth_machine ++ (be32 0 ++ be32 0)))

pub length-payload :
    (auth_stamp : ℕ) (auth_machine : List ℕ)
    → length (payload auth_stamp auth_machine)
      ≡ length auth_machine + length (padding (length auth_machine) 4) + 24
unfolding payload
length-payload auth_stamp auth_machine = omega (
  arith,
  length-append auth_machine
      (padding (length auth_machine) 4 ++ (be32 0 ++ (be32 0 ++ (be32 1 ++ be32 0)))),
  length-append (padding (length auth_machine) 4) (be32 0 ++ (be32 0 ++ (be32 1 ++ be32 0))),
)

pub length-auth_sys_bytes :
    (auth_stamp : ℕ) (auth_machine : List ℕ)
    → length (auth_sys_bytes auth_stamp auth_machine)
      ≡ length auth_machine + length (padding (length auth_machine) 4) + 40
unfolding auth_sys_bytes
length-auth_sys_bytes auth_stamp auth_machine = omega (
  arith,
  length-payload auth_stamp auth_machine,
  length-append (payload auth_stamp auth_machine) (be32 0 ++ be32 0),
)

-- addAuthSys writes the credential and the verifier, and nothing else; it faults exactly if they do
-- not fit the array. The length word counts the bytes of the payload.
pub encode_auth_sys-Written :
    (auth_stamp : ℕ) (auth_machine : List ℕ) (buf : Buffer)
    → length auth_machine + 64 < 2 ^ 32
    → length buf < 2 ^ 32
    → encode_auth_sys auth_stamp auth_machine buf
      ≡ Written buf (auth_sys_bytes auth_stamp auth_machine)
unfolding encode_auth_sys prefixed_bytes auth_sys_bytes
encode_auth_sys-Written auth_stamp auth_machine buf h fits =
    length_prefixed-Written 1 buf (put_payload-Emits auth_stamp auth_machine (omega arith))
      put_verifier-Emits
      (omega (
        arith,
        length-payload auth_stamp auth_machine,
        (padding-aligns (length auth_machine) 4 (omega arith)).1,
      ))
      fits
