-- ===== src/Runs/Calls.antt =====
-- The four calls, step by step.
use nfs_client_simulator.Common.{
  ℕ, ◌+◌, ◌%◌, ◌^◌, ◌≡◌, refl, List, Outcome, ◌>>=◌, Ensures, Ensures-ok, Ensures-bind,
  Ensures-then, Ensures-if, ◌==◌, not, arith,
}
use nfs_client_simulator.Common.Int.{eqb}
use nfs_client_simulator.GenericEnums.{
  AuthType, auth_type_u32, auth_sys, MountProg, mountproc3_mnt, mountproc3_umnt, call, portmap,
  mount, nfs, rpc_version2, program_version3, mount_prog_u32,
}
use nfs_client_simulator.NfsEnums.{nfs_prog_u32, nfsproc3_lookup}
use nfs_client_simulator.Utils.{get_monotonic}
use nfs_client_simulator.Xdr.{Buffer, Pointer}
use nfs_client_simulator.Rpc.{make_rpc, put_u32, parse_and_strip_rpc}
use nfs_client_simulator.Context.{Client}
use nfs_client_simulator.Context.Connection.{
  connect_port_mapper_port, connect_mount_port, connect_nfs_port,
}
use nfs_client_simulator.Call.{World, Memory, new_array, build_request, exchange}
use nfs_client_simulator.PortMapper.{
  PortMapperContext, put_mapping, read_port, get_port_call, get_port,
}
use nfs_client_simulator.Mount.{
  MountContext, put_path, read_mount_reply, begin_mount_call, finish_mount_call, make_mount_call,
  make_umount_call,
}
use nfs_client_simulator.Inode.{Inode, put_dirop, read_lookup_reply, lookup_call, lookup}
use nfs_client_simulator.Runs.{
  IsKept, Advanced, build_request-CountedLast, Call, port_asked, mounted, unmounted, looked_up, Run,
  start, called, mount_port_told, nfs_port_told,
}

module _ (R : Client → Client → Type 0) (k : IsKept R) where
  Related : {A : Type 0} → Client → A × Client → Type 0
  Related c (a, c') = R c c'

  -- One number has been taken.
  Stamped : World → World → Type 0
  Stamped w w' = R w.client w'.client × (w'.sequential ≡ (w.sequential + 1) % 2 ^ 64)

  to_port_mapper : (c : Client) → Ensures (Related c) (connect_port_mapper_port c)
  unfolding connect_port_mapper_port Related
  to_port_mapper c =
      let c₁ : Client = record c { context = record c.context { port = c.port_mapper_port } } in
      Ensures-if (not (eqb c.port c.port_mapper_port))
        (λ other.
          Ensures-then (k.connects c₁ c.port_mapper_port)
            λ (r, c₂) h. Ensures-ok (k.chain c c₁ c₂ (k.ported c c.port_mapper_port) h))
        (λ there. Ensures-ok (k.same c))

  to_mount : (c : Client) → Ensures (Related c) (connect_mount_port c)
  unfolding connect_mount_port Related
  to_mount c = Ensures-then (k.connects c c.mount_port) λ (r, c') h. Ensures-ok h

  to_nfs : (c : Client) → Ensures (Related c) (connect_nfs_port c)
  unfolding connect_nfs_port Related
  to_nfs c = Ensures-then (k.connects c c.nfs_port) λ (r, c') h. Ensures-ok h

  exchanged :
      (w : World) (memory : Memory) (space size : ℕ) (wire : Buffer) (xid counter : ℕ)
      → w.sequential ≡ counter
      → Ensures
          (λ (payload, w'). R w.client w'.client × (w'.sequential ≡ counter))
          (exchange w memory space size wire xid)
  unfolding exchange
  exchanged w memory space size wire xid counter e =
      Ensures-then (k.sends w.client wire size) λ (r, c₁) h₁.
        Ensures-then (k.receives c₁ (new_array space memory.response) 0)
          λ (r', response_size, response, c₂) h₂.
            Ensures-bind (parse_and_strip_rpc response response_size xid)
              λ payload. Ensures-ok (k.chain w.client c₁ c₂ h₁ h₂, e)

  -- A call takes its transaction, and then either ends or takes its stamp too.
  ended : (w w₁ : World) → Stamped w w₁ → Advanced R w w₁
  unfolding Stamped
  ended w w₁ h = record {
    related = h.0;
    count = 1;
    some_taken = omega arith;
    few_taken = omega arith;
    counted = h.1;
  }

  ended-Stamped : (w w₁ w' : World) → Stamped w w₁ → Stamped w₁ w' → Advanced R w w'
  unfolding Stamped
  ended-Stamped w w₁ w' h s = record {
    related = k.chain w.client w₁.client w'.client h.0 s.0;
    count = 2;
    some_taken = omega arith;
    few_taken = omega arith;
    counted = omega (arith, h.1, s.1);
  }

  -- Building the request and the exchange, with what follows them.
  stamped :
      {B : Type 0} (w : World) (memory : Memory) (xid : ℕ)
      (put_args : ℕ × Buffer → Outcome (ℕ × Buffer)) (s : ℕ × Buffer) {P : B → Type 0}
      {f : Pointer × World → Outcome B}
      → ((a : Pointer × World) → Stamped w a.1 → Ensures P (f a))
      → Ensures P (do
        (size, wire, sequential') ←
            build_request w.sequential w.self_fqdn (new_array 1024 memory.credentials) put_args s
        a ← exchange (record w { sequential = sequential' }) memory 1024 size wire xid
        f a)
  unfolding Stamped
  stamped w memory xid put_args s h =
      Ensures-then
        (build_request-CountedLast w.sequential w.self_fqdn (new_array 1024 memory.credentials)
          put_args s)
        λ (size, wire, sequential') e.
          Ensures-then
            (exchanged (record w { sequential = sequential' }) memory 1024 size wire xid
              ((w.sequential + 1) % 2 ^ 64) e)
            h

  pub get_port-Advanced :
      (m : PortMapperContext) (w : World) (memory : Memory) (program version : ℕ)
      → Ensures (λ (port, w'). Advanced R w w') (get_port m w memory program version)
  unfolding get_port get_port_call get_monotonic Related Stamped
  get_port-Advanced m w memory program version = Ensures-then (to_port_mapper w.client) λ (r, c₁) h.
      let w₁ : World = record w { client = c₁; sequential = (w.sequential + 1) % 2 ^ 64 } in
      Ensures-bind
        (make_rpc _ call m.rpc_version portmap m.program_version (new_array 1024 memory.request))
        λ s₁. Ensures-bind (put_u32 3 s₁) λ s₂.
          Ensures-if (auth_type_u32 m.auth_type == auth_type_u32 auth_sys)
            (λ sys.
              stamped w₁ memory (w.sequential % 2 ^ 32) (put_mapping program version) s₂
                λ (payload, w') e.
                  Ensures-bind (read_port payload)
                    λ port. Ensures-ok (ended-Stamped w w₁ w' (h, refl) e))
            (λ other. Ensures-ok (ended w w₁ (h, refl)))

  pub lookup-Advanced :
      (w : World) (memory : Memory) (child : List ℕ) (parent : Inode) (auth : AuthType)
      → Ensures (λ (handle, w'). Advanced R w w') (lookup w memory child parent auth)
  unfolding lookup lookup_call get_monotonic Related Stamped
  lookup-Advanced w memory child parent auth = Ensures-then (to_nfs w.client) λ (r, c₁) h.
      let w₁ : World = record w { client = c₁; sequential = (w.sequential + 1) % 2 ^ 64 } in
      Ensures-bind
        (make_rpc _ call rpc_version2 nfs program_version3 (new_array 1024 memory.request))
        λ s₁. Ensures-bind (put_u32 (nfs_prog_u32 nfsproc3_lookup) s₁) λ s₂.
          Ensures-if (auth_type_u32 auth == auth_type_u32 auth_sys)
            (λ sys.
              stamped w₁ memory (w.sequential % 2 ^ 32) (put_dirop parent child) s₂
                λ (payload, w') e.
                  Ensures-bind (read_lookup_reply payload)
                    λ handle. Ensures-ok (ended-Stamped w w₁ w' (h, refl) e))
            (λ other. Ensures-ok (ended w w₁ (h, refl)))

  begun :
      (w : World) (c₁ : Client) (memory : Memory) (procedure : MountProg)
      → R w.client c₁
      → Ensures
          (λ (s, xid, w₁). Stamped w w₁)
          (begin_mount_call (record w { client = c₁ }) memory procedure)
  unfolding begin_mount_call get_monotonic Related Stamped
  begun w c₁ memory procedure h =
      Ensures-bind
        (make_rpc _ call rpc_version2 mount program_version3 (new_array 1024 memory.request))
        λ s₁. Ensures-bind (put_u32 (mount_prog_u32 procedure) s₁) λ s₂. Ensures-ok (h, refl)

  finished :
      (w : World) (memory : Memory) (xid : ℕ) (remote : List ℕ) (s : ℕ × Buffer)
      → Ensures (λ (payload, w'). Stamped w w') (finish_mount_call w memory xid remote s)
  unfolding finish_mount_call Stamped
  finished w memory xid remote s =
      Ensures-then
        (build_request-CountedLast w.sequential w.self_fqdn (new_array 1024 memory.credentials)
          (put_path remote) s)
        λ (size, wire, sequential') e.
          exchanged (record w { sequential = sequential' }) memory 1024 size wire xid
            ((w.sequential + 1) % 2 ^ 64) e

  pub make_mount_call-Advanced :
      (m : MountContext) (w : World) (memory : Memory) (remote : List ℕ) (version : ℕ)
      (auth : AuthType)
      → Ensures (λ (m', w'). Advanced R w w') (make_mount_call m w memory remote version auth)
  unfolding make_mount_call Related
  make_mount_call-Advanced m w memory remote version auth =
      Ensures-then (to_mount w.client) λ (r, c₁) kept.
        Ensures-then (begun w c₁ memory mountproc3_mnt kept) λ (s₂, xid, w₁) h.
          Ensures-if (auth_type_u32 auth == auth_type_u32 auth_sys)
            (λ sys. Ensures-then (finished w₁ memory xid remote s₂) λ (payload, w₂) e.
              Ensures-bind (read_mount_reply _ payload)
                λ m₂. Ensures-ok (ended-Stamped w w₁ w₂ h e))
            (λ other. Ensures-ok (ended w w₁ h))

  pub make_umount_call-Advanced :
      (m : MountContext) (w : World) (memory : Memory) (remote : List ℕ) (version : ℕ)
      (auth : AuthType)
      → Ensures (λ (m', w'). Advanced R w w') (make_umount_call m w memory remote version auth)
  unfolding make_umount_call Related
  make_umount_call-Advanced m w memory remote version auth =
      Ensures-then (to_mount w.client) λ (r, c₁) kept.
        Ensures-then (begun w c₁ memory mountproc3_umnt kept) λ (s₂, xid, w₁) h.
          Ensures-if (auth_type_u32 auth == auth_type_u32 auth_sys)
            (λ sys.
              Ensures-then (finished w₁ memory xid remote s₂)
                λ (payload, w₂) e. Ensures-ok (ended-Stamped w w₁ w₂ h e))
            (λ other. Ensures-ok (ended w w₁ h))

  pub Call-Advanced : (w w' : World) → Call w w' → Advanced R w w'
  Call-Advanced _ _ (port_asked w w' m memory program version port e) =
      (get_port-Advanced m w memory program version).of_value (port, w') e
  Call-Advanced _ _ (mounted w w' m m' memory remote version auth e) =
      (make_mount_call-Advanced m w memory remote version auth).of_value (m', w') e
  Call-Advanced _ _ (unmounted w w' m m' memory remote version auth e) =
      (make_umount_call-Advanced m w memory remote version auth).of_value (m', w') e
  Call-Advanced _ _ (looked_up w w' memory child parent auth handle e) =
      (lookup-Advanced w memory child parent auth).of_value (handle, w') e

  -- What every call keeps, a run keeps.
  pub Run-kept : (w w' : World) (xids : List ℕ) → Run w xids w' → R w.client w'.client
  Run-kept _ _ _ (start w) = k.same w.client
  Run-kept _ _ _ (called w w₁ w' xids xids' r c e) =
      k.chain w.client w₁.client w'.client (Run-kept w w₁ xids r) (Call-Advanced w₁ w' c).related
  Run-kept _ _ _ (mount_port_told w w₁ xids port r) =
      k.chain w.client w₁.client _ (Run-kept w w₁ xids r) (k.mount_port_set w₁.client port)
  Run-kept _ _ _ (nfs_port_told w w₁ xids port r) =
      k.chain w.client w₁.client _ (Run-kept w w₁ xids r) (k.nfs_port_set w₁.client port)
