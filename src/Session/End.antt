-- ===== src/Session/End.antt =====
-- How the session of main.cpp ends.
use nfs_client_simulator.Common.{
  ℕ, ◌≡◌, List, [], ◌∷◌, ok, fault, Outcome, Ensures, Ensures-ok, Ensures-bind, Option, none, some,
  ◌==◌, if◌then◌else◌, ◌>>=◌, refl,
}
use nfs_client_simulator.Common.Int.{ℤ, pos, minus_one}
use nfs_client_simulator.Arguments.{parse_args}
use nfs_client_simulator.GenericEnums.{auth_sys}
use nfs_client_simulator.System.{System}
use nfs_client_simulator.Call.{World}
use nfs_client_simulator.PortMapper.{get_mount_port, get_nfs_port}
use nfs_client_simulator.Mount.{MountContext, make_mount_context, make_mount_call}
use nfs_client_simulator.FsTree.{Tree, get_root}
use nfs_client_simulator.FsTree.Roots.{add_mounts, get_root-add_mounts}
use nfs_client_simulator.ServerContexts.{ServerContexts, get_context}
use nfs_client_simulator.Session.{
  remote, port_mapper, Memories, set_ports, mount_export, use_export, run_session, main,
}

-- The tree of a session has no root.
abbrev Rootless : MountContext × Tree × World → Type 0
Rootless (mount, tree, w) = get_root tree ≡ fault

mount_export-Rootless : (w : World) (m : Memories) → Ensures Rootless (mount_export w m)
unfolding mount_export add_mounts
mount_export-Rootless w m =
    Ensures-bind (get_mount_port port_mapper w m.for_mount_port) λ (mount_port, w₁).
      Ensures-bind (get_nfs_port port_mapper w₁ m.for_nfs_port) λ (nfs_port, w₂).
        Ensures-bind
          (make_mount_call make_mount_context (set_ports w₂ mount_port nfs_port) m.for_mount remote
            3 auth_sys)
          λ (mount, w₄).
            Ensures-ok (get_root-add_mounts ((remote, mount.mount_handle) ∷ []) ((λ e. cc), tt))

-- What follows an outcome may be replaced where the outcome has a value.
bind_then :
    {A B C : Type 0} (P : A → Type 0) (o : Outcome A) (f : A → Outcome B) (g : B → Outcome C)
    (h : A → Outcome C)
    → Ensures P o
    → ((a : A) → P a → (f a >>= g) ≡ h a)
    → (o >>= f >>= g) ≡ (o >>= h)
bind_then P (ok a) f g h p same = same a (p.of_value a refl)
bind_then P Outcome.aborted f g h p same = refl
bind_then P Outcome.fault f g h p same = refl
bind_then P Outcome.blocked f g h p same = refl

same_after :
    {A B : Type 0} (o : Outcome A) {f g : A → Outcome B}
    → ((a : A) → f a ≡ g a)
    → (o >>= f) ≡ (o >>= g)
same_after (ok a) same = same a
same_after Outcome.aborted same = refl
same_after Outcome.fault same = refl
same_after Outcome.blocked same = refl

-- Until the export is mounted, and then a read of the end iterator.
abbrev pub session_until_root : ServerContexts → System → ℕ → List ℕ → Memories → Outcome ℤ
session_until_root s_contexts system sequential self_fqdn m = do
  (context, s₁) ← get_context s_contexts (pos 0)
  (mount, fs_tree, w₁) ←
      mount_export
        (record {
          client = record { context = context; system = system };
          sequential = sequential;
          self_fqdn = self_fqdn;
        })
        m
  fault

session_faults :
    (s_contexts : ServerContexts) (system : System) (sequential : ℕ) (self_fqdn : List ℕ)
    (m : Memories)
    → (run_session s_contexts system sequential self_fqdn m >>= λ _. ok (pos 0))
      ≡ session_until_root s_contexts system sequential self_fqdn m
unfolding run_session use_export
session_faults s_contexts system sequential self_fqdn m =
    bind_then (λ _. Unit {0}) (get_context s_contexts (pos 0)) _ (λ _. ok (pos 0)) _
      (record { of_value = λ a e. tt })
      λ (context, s₁) u.
        bind_then Rootless (mount_export _ m) _ (λ _. ok (pos 0)) (λ _. fault)
          (mount_export-Rootless _ m) λ (mount, tree, w₁) rootless. rw rootless refl

-- main parses the arguments, and ends with -1 if parseArgs ends the program or has made no context. Otherwise it takes
-- the first context and goes on until the export has been mounted and entered into the tree; whatever the servers
-- have answered and the system has done, what follows is a read of the end iterator of the tree.
pub main_session :
    (options : List (ℕ × List ℕ)) (garbage : ℕ) (system : System) (sequential : ℕ)
    (self_fqdn : List ℕ) (m : Memories)
    → main options garbage system sequential self_fqdn m ≡ (do
      parsed ← parse_args garbage [] options
      elim parsed [
        | none ↦ ok minus_one
        | some r ↦
            if r.0 == 0 then ok minus_one else session_until_root r.1 system sequential self_fqdn m
      ])
unfolding main
main_session options garbage system sequential self_fqdn m =
    same_after (parse_args garbage [] options) λ parsed. after parsed
  where
    after :
        (parsed : Option (ℕ × ServerContexts))
        → elim parsed [
          | none ↦ ok minus_one
          | some r ↦
              if r.0 == 0
              then ok minus_one
              else run_session r.1 system sequential self_fqdn m >>= λ _. ok (pos 0)
        ]
          ≡ elim parsed [
            | none ↦ ok minus_one
            | some r ↦
                if r.0 == 0
                then ok minus_one
                else session_until_root r.1 system sequential self_fqdn m
          ]
    after none = refl
    after (some (n, ss)) = rw (session_faults ss system sequential self_fqdn m) refl
