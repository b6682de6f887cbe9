-- ===== src/Inode/Results.antt =====
-- What lookup makes of a missing handle, and of the reply.
use nfs_client_simulator.Common.{
  ℕ, ◌%◌, ◌^◌, ◌≡◌, ◌≢◌, List, Outcome, ok, Option, none, Ensures, Ensures-bind, Ensures-then,
  Ensures-fault,
}
use nfs_client_simulator.GenericEnums.{auth_sys, call, rpc_version2, program_version3, nfs}
use nfs_client_simulator.Utils.{get_monotonic}
use nfs_client_simulator.Xdr.{Buffer}
use nfs_client_simulator.Rpc.{put_u32, make_rpc}
use nfs_client_simulator.Context.Connection.{connect_nfs_port}
use nfs_client_simulator.Call.{World, Memory, new_array, build_request, add_credential}
use nfs_client_simulator.Inode.{Inode, put_dirop, dereference, lookup_call, lookup}

-- The outcome has no value.
abbrev NoValue {ℓ} : {A : Type ℓ} → Outcome A → Type ℓ
NoValue m = Ensures (λ _. ⊥) m

build_request_null :
    (sequential : ℕ) (self_fqdn : List ℕ) (cred : Buffer) (parent : Inode) (child : List ℕ)
    (s₂ : ℕ × Buffer)
    → parent.self_handle ≡ none
    → NoValue (build_request sequential self_fqdn cred (put_dirop parent child) s₂)
unfolding build_request put_dirop dereference
build_request_null sequential self_fqdn cred parent child s₂ e =
    Ensures-bind (add_credential sequential self_fqdn cred s₂)
      λ (s₃, sequential'). rw e Ensures-fault

lookup_call_null :
    (w : World) (memory : Memory) (xid : ℕ) (child : List ℕ) (parent : Inode) (s₂ : ℕ × Buffer)
    → parent.self_handle ≡ none
    → NoValue (lookup_call w memory xid child parent s₂)
unfolding lookup_call
lookup_call_null w memory xid child parent s₂ e =
    Ensures-then
      (build_request_null w.sequential w.self_fqdn (new_array 1024 memory.credentials) parent child
        s₂ e)
      (λ request never. absurd never)

-- lookup with AUTH_SYS in a directory without a handle, which every inode is that the constructor makes,
-- never returns a value, whatever the network does.
pub lookup_no_handle :
    (w : World) (memory : Memory) (child : List ℕ) (parent : Inode)
    (result : Option (List ℕ) × World)
    → parent.self_handle ≡ none
    → lookup w memory child parent auth_sys ≢ ok result
unfolding lookup get_monotonic
lookup_no_handle w memory child parent result none_held e = no_value.of_value result e
  where
    no_value : NoValue (lookup w memory child parent auth_sys)
    no_value = Ensures-bind (connect_nfs_port w.client) λ (r, client₁).
        Ensures-bind
          (make_rpc (w.sequential % 2 ^ 32) call rpc_version2 nfs program_version3
            (new_array 1024 memory.request))
          λ s₁.
            Ensures-bind (put_u32 3 s₁) λ s₂. lookup_call_null _ memory _ child parent s₂ none_held
