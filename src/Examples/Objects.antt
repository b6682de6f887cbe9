-- ===== src/Examples/Objects.antt =====
-- Names, arrays, the tree of the exports, the list of the contexts, and the session.
use nfs_client_simulator.Common.{
  ℕ, ◌+◌, ◌≡◌, ◌≢◌, refl, List, [], ◌∷◌, ok, ◌>>=◌, none, some, arith, length, inl, inr, Bool-cases,
}
use nfs_client_simulator.Common.Int.{pos}
use nfs_client_simulator.GenericEnums.{auth_sys, rpc_version2, program_version3, nfs}
use nfs_client_simulator.Rpc.Reply.{done, reply_bytes}
use nfs_client_simulator.Context.{Client}
use nfs_client_simulator.Context.Connection.Laws.{answers}
use nfs_client_simulator.Call.{World}
use nfs_client_simulator.Call.Message.{call_message}
use nfs_client_simulator.Call.Answer.{Answer, asked}
use nfs_client_simulator.Inode.{Inode, make_inode, nfs3dir, slash, rfind, strip_slash, lookup}
use nfs_client_simulator.Inode.Plain.{strip_slash-plain}
use nfs_client_simulator.Inode.Lookup.{dirop}
use nfs_client_simulator.Inode.Answer.{lookup_reply, after_lookup}
use nfs_client_simulator.Inode.Results.{lookup_no_handle}
use nfs_client_simulator.FsTree.{find, same_name}
use nfs_client_simulator.FsTree.Roots.{add_mounts}
use nfs_client_simulator.FsTree.Mounts.{Roots, is_mounted, root_after, add_mounts_lem}
use mathlib.Core.Quot
use nfs_client_simulator.ServerContexts.{
  ServerContexts, add_context, get_context, put_context, at_index, take_one, give_one, bump,
}
use nfs_client_simulator.ServerContexts.Counts.{
  IsCounted, add, get, put, added, taken, given_back, none_yet, and_then, Steps-IsCounted,
}
use nfs_client_simulator.Session.{remote}
use nfs_client_simulator.ServerContexts.Pool.{
  Pool, represent, run_pool, run_contexts, run_contexts-represent,
}
use nfs_client_simulator.Examples.{quiet, open_context, open_client, memory, host, answer}

-- "a/./b"
strip_slash-plain_example :
    (strip_slash (b'a' ∷ b'/' ∷ b'.' ∷ b'/' ∷ b'b' ∷ []) ≡ b'a' ∷ b'b' ∷ [])
    × (rfind (b'.' ∷ b'.' ∷ []) (strip_slash (b'a' ∷ b'/' ∷ b'.' ∷ b'/' ∷ b'b' ∷ [])) ≡ none)
    × (rfind (b'/' ∷ []) (strip_slash (b'a' ∷ b'/' ∷ b'.' ∷ b'/' ∷ b'b' ∷ [])) ≡ none)
strip_slash-plain_example = strip_slash-plain (b'a' ∷ b'/' ∷ b'.' ∷ b'/' ∷ b'b' ∷ [])

-- Two exports in one order, and in the other with a repetition and other handles.
abbrev backup : List ℕ
backup = slash ∷ b'b' ∷ []

abbrev mounts : List (List ℕ × List ℕ)
mounts = (remote, 1 ∷ []) ∷ (backup, 2 ∷ []) ∷ []

abbrev others : List (List ℕ × List ℕ)
others = (backup, 3 ∷ []) ∷ (remote, 1 ∷ []) ∷ (remote, []) ∷ []

same_exports : (name : List ℕ) → is_mounted name mounts ≡ is_mounted name others
same_exports name = elim (Bool-cases (same_name remote name)) [
  | inl e ↦ elim (Bool-cases (same_name backup name)) [
    | inl f ↦ rw (e, f) refl
    | inr f ↦ rw (e, f) refl
  ]
  | inr e ↦ elim (Bool-cases (same_name backup name)) [
    | inl f ↦ rw (e, f) refl
    | inr f ↦ rw (e, f) refl
  ]
]

add_mounts_lem_example :
    ((name : List ℕ)
      → find (add_mounts [] mounts) name ≡ root_after none (is_mounted name mounts) name)
    × Path Roots (Quot.mk (add_mounts [] mounts)) (Quot.mk (add_mounts [] others))
unfolding find
add_mounts_lem_example = add_mounts_lem [] mounts others same_exports

-- One context, unused and in use.
abbrev unused : ServerContexts
unused = record { context = open_context; usage_count = pos 0 } ∷ []

abbrev used : ServerContexts
used = record { context = open_context; usage_count = pos 1 } ∷ []

Steps-IsCounted_example : IsCounted unused
unfolding add_context get_context put_context at_index take_one give_one bump
Steps-IsCounted_example = Steps-IsCounted unused (
    and_then [] used unused
      (and_then [] unused used (and_then [] [] unused (none_yet []) (added [] open_context))
        (taken unused used (pos 0) open_context refl))
      (given_back used unused (pos 0) refl))

-- A lookup of "." in a directory without a handle, and in one with a handle.
abbrev bare : Inode
bare = make_inode remote (b'/' ∷ []) nfs3dir

abbrev world : Client → ℕ → World
world c n = record { client = c; sequential = n; self_fqdn = host }

lookup_no_handle_example :
    lookup (world open_client 5) memory (b'.' ∷ []) bare auth_sys ≢ ok (none, world open_client 7)
unfolding make_inode
lookup_no_handle_example =
    lookup_no_handle (world open_client 5) memory (b'.' ∷ []) bare (none, world open_client 7) refl

abbrev handle : List ℕ
handle = 1 ∷ 2 ∷ 3 ∷ 4 ∷ []

abbrev directory : Inode
directory = record {
  type = nfs3dir;
  perms = 511;
  parent_name = remote;
  self = b'/' ∷ [];
  self_dir = some remote;
  self_handle = some handle;
}

abbrev message : List ℕ
message = call_message 5 rpc_version2 nfs program_version3 3 6 host (dirop handle (b'.' ∷ []))

abbrev body : List ℕ
body = reply_bytes 5 1 (done 0) (lookup_reply 0 handle [])

abbrev served : Answer (4 + length message) body
served = answer (4 + length message) body (omega arith) (omega arith) (omega arith)

abbrev at_nfs : Client
at_nfs = record {
  context = record open_context {
    port = pos 2049;
    socket_fd = pos 4;
    connect_time = 7;
    disconnect_time = 7;
    timem = some 7;
  };
  system = record quiet { dialed = pos 2049 ∷ []; closed = pos 3 ∷ [] };
}

abbrev before : World
before =
    world
      (record {
        context = open_context;
        system = answers ((asked open_client served).system) (pos 4) (pos 0) (pos 0);
      })
      5

abbrev after : World
after = after_lookup before at_nfs memory handle (b'.' ∷ []) body served

abbrev empty : Pool
empty = record { contexts = []; in_use = λ i. 0 }

-- A context is taken, given back, and given back once more.
run_contexts-represent_example :
    run_contexts [] (add open_context ∷ get (pos 0) ∷ put (pos 0) ∷ put (pos 0) ∷ []) ≡ (
      run_pool empty (add open_context ∷ get (pos 0) ∷ put (pos 0) ∷ put (pos 0) ∷ []) >>= λ r.
      ok (r.0, represent r.1))
run_contexts-represent_example =
    run_contexts-represent empty (add open_context ∷ get (pos 0) ∷ put (pos 0) ∷ put (pos 0) ∷ [])
