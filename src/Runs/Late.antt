-- ===== src/Runs/Late.antt =====
-- Replies to earlier calls of a run.
use mathlib.Core.List.{Memᴰ}
use nfs_client_simulator.Common.{
  ℕ, ◌+◌, ◌-◌, ◌%◌, ◌^◌, ◌≤◌, ◌<◌, ◌≡◌, ◌≢◌, refl, sym, ◌∙◌, List, [], ◌∷◌, All, length, arith,
  subst, false, ok, aborted, ◌==◌, ne→==_false, none,
}
use nfs_client_simulator.Common.Int.{ℤ, minus_one}
use nfs_client_simulator.GenericEnums.{auth_sys, portmap, mountproc3_mnt}
use nfs_client_simulator.Rpc.Reply.{Reply, IsReply, reply_bytes}
use nfs_client_simulator.Context.{Client}
use nfs_client_simulator.Context.Connection.{connect_port_mapper_port, connect_mount_port}
use nfs_client_simulator.Call.{World, Memory, exchange}
use nfs_client_simulator.Call.Message.{call_message, request_array, length-request_array}
use nfs_client_simulator.Call.Answer.{Answer, asked, answered, exchange-reply_bytes}
use nfs_client_simulator.PortMapper.{PortMapperContext, get_port, read_port}
use nfs_client_simulator.PortMapper.Wire.{mapping, get_port-exchange}
use nfs_client_simulator.Mount.{
  MountContext, make_mount_call, set_mount_path, set_mount_prot_version,
}
use nfs_client_simulator.Mount.Wire.{mount_message, make_mount_call-exchange, mount_fits}
use nfs_client_simulator.Mount.Answer.{nothing_read}
use nfs_client_simulator.Runs.{Run, start, called, mount_port_told, nfs_port_told}
use nfs_client_simulator.Runs.Transactions.{Run-Distinct}

member {ℓ} : (P : ℕ → Type ℓ) {x : ℕ} (xs : List ℕ) → All P xs → Memᴰ x xs → P x
member P [] h m = elim m [ ]
member P (y ∷ ys) h (Memᴰ.head e) = subst P (sym e) h.0
member P (y ∷ ys) h (Memᴰ.tail m) = member P ys h.1 m

-- Transactions are numbers of 32 bits.
Run-words : (w w' : World) (xids : List ℕ) → Run w xids w' → All (λ x. x < 2 ^ 32) xids
Run-words _ _ _ (start w) = tt
Run-words _ _ _ (called w w₁ w' xids xids' r c e) =
    subst (All (λ x. x < 2 ^ 32)) (sym e) (omega arith, Run-words w w₁ xids r)
Run-words _ _ _ (mount_port_told w w₁ xids port r) = Run-words w w₁ xids r
Run-words _ _ _ (nfs_port_told w w₁ xids port r) = Run-words w w₁ xids r

-- A transaction of the run, and the next one after it.
module _ (w₀ w : World) (xids : List ℕ) (r : Run w₀ xids w) (few : length xids < 2 ^ 31) (late : ℕ)
    (old : Memᴰ late xids) where
  late_word : late < 2 ^ 32
  late_word = member (λ x. x < 2 ^ 32) xids (Run-words w₀ w xids r) old

  late_other : (late == w.sequential % 2 ^ 32) ≡ false
  late_other = ne→==_false late (w.sequential % 2 ^ 32) (λ e.
      member (λ x. w.sequential % 2 ^ 32 ≢ x) xids (Run-Distinct w₀ w xids few r).0 old (sym e))

  -- An exchange of the next call that is answered with a reply to the earlier one.
  late_exchange :
      (w₁ : World) (memory : Memory) (message : List ℕ) (message_type : ℕ) (reply : Reply)
      (post : List ℕ) (a : Answer (4 + length message) (reply_bytes late message_type reply post))
      → w₁.client.context.socket_fd ≢ minus_one
      → length (reply_bytes late message_type reply post) ≤ 1024
      → w₁.client.context.total_received < 2 ^ 64
      → IsReply reply
      → message_type < 2 ^ 32
      → exchange
          (record w₁ { client = asked w₁.client a })
          memory
          1024
          (4 + length message)
          (request_array message memory.request)
          (w.sequential % 2 ^ 32)
        ≡ ok (
          none,
          record w₁ {
            client =
                answered w₁.client
                  (request_array message memory.request)
                  (4 + length message)
                  (reply_bytes late message_type reply post)
                  a;
          },
        )
  late_exchange w₁ memory message message_type reply post a fd small total valid ht =
      exchange-reply_bytes w₁ memory (request_array message memory.request) (4 + length message)
        late (w.sequential % 2 ^ 32) message_type reply post a fd (omega arith)
        (length-request_array message memory.request) small total valid late_word ht
      ∙ rw late_other refl

-- A late reply is not taken: after a run of fewer than 2 ^ 31 calls, if getPort is answered with a reply to any of
-- these calls, whatever the reply says, then the result is 2 ^ 32 - 1, for -1. The request has been taken, and the
-- reply arrives, in pieces of any size; the host name has at most 255 bytes and the reply at most 1024.
pub get_port-late :
    (w₀ w : World) (xids : List ℕ) (late : ℕ) (m : PortMapperContext) (client : Client) (r : ℤ)
    (memory : Memory) (program version message_type : ℕ) (reply : Reply) (post : List ℕ)
    → let sequential₁ = (w.sequential + 1) % 2 ^ 64 in
      let message =
        call_message
          (w.sequential % 2 ^ 32)
          m.rpc_version
          portmap
          m.program_version
          3
          (sequential₁ % 2 ^ 32)
          w.self_fqdn
          (mapping program version) in
      let body = reply_bytes late message_type reply post in
      (a : Answer (4 + length message) body)
      → Run w₀ xids w
      → length xids < 2 ^ 31
      → Memᴰ late xids
      → m.auth_type ≡ auth_sys
      → length w.self_fqdn ≤ 255
      → connect_port_mapper_port w.client ≡ ok (r, asked client a)
      → client.context.socket_fd ≢ minus_one
      → length body ≤ 1024
      → client.context.total_received < 2 ^ 64
      → IsReply reply
      → message_type < 2 ^ 32
      → get_port m w memory program version
        ≡ ok (
          2 ^ 32 - 1,
          record w {
            client =
                answered client (request_array message memory.request) (4 + length message) body a;
            sequential = (sequential₁ + 1) % 2 ^ 64;
          },
        )
unfolding read_port
get_port-late w₀ w xids late m client r memory program version message_type reply post a run few old
      auth short connected fd small total valid ht =
    let message =
      call_message (w.sequential % 2 ^ 32) m.rpc_version portmap m.program_version 3
        ((w.sequential + 1) % 2 ^ 64 % 2 ^ 32) w.self_fqdn (mapping program version) in
    get_port-exchange m w (asked client a) r memory program version auth short connected
    ∙ rw
        (
          late_exchange w₀ w xids run few late old
              (record w {
                client = client;
                sequential = ((w.sequential + 1) % 2 ^ 64 + 1) % 2 ^ 64;
              })
              memory message message_type reply post a fd small total valid ht,
          read_port,
        )
        refl

-- So too makeMountCall, but there the reply that is not taken ends the program in a failed assertion.
pub make_mount_call-late :
    (w₀ w : World) (xids : List ℕ) (late : ℕ) (m : MountContext) (client : Client) (r : ℤ)
    (memory : Memory) (remote : List ℕ) (version message_type : ℕ) (reply : Reply) (post : List ℕ)
    (a : Answer
      (4 + length (mount_message w remote mountproc3_mnt))
      (reply_bytes late message_type reply post))
    → Run w₀ xids w
    → length xids < 2 ^ 31
    → Memᴰ late xids
    → length w.self_fqdn ≤ 255
    → length remote ≤ 600
    → connect_mount_port w.client ≡ ok (r, asked client a)
    → client.context.socket_fd ≢ minus_one
    → length (reply_bytes late message_type reply post) ≤ 1024
    → client.context.total_received < 2 ^ 64
    → IsReply reply
    → message_type < 2 ^ 32
    → make_mount_call m w memory remote version auth_sys ≡ aborted
make_mount_call-late w₀ w xids late m client r memory remote version message_type reply post a run
      few old short path connected fd small total valid ht =
    make_mount_call-exchange m w (asked client a) r memory remote version short
      (mount_fits w remote mountproc3_mnt short path) connected
    ∙ rw
        (
          late_exchange w₀ w xids run few late old
              (record w {
                client = client;
                sequential = ((w.sequential + 1) % 2 ^ 64 + 1) % 2 ^ 64;
              })
              memory (mount_message w remote mountproc3_mnt) message_type reply post a fd small
              total valid ht,
          nothing_read (set_mount_prot_version (set_mount_path m remote) version),
        )
        refl
