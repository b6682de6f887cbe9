-- ===== src/FsTree.antt =====
-- class FSTree: the roots of the mounted exports, by the name of the export.
pub mod Roots
pub mod Mounts
use nfs_client_simulator.Common.{
  ℕ, List, [], ◌∷◌, ◌++◌, Bool, true, false, ◌&&◌, Option, none, some, Outcome, ok, fault, ◌==◌,
  if◌then◌else◌,
}
use nfs_client_simulator.Inode.{Inode, make_inode, nfs3dir, slash}

-- std::string equality.
abbrev pub same_name : List ℕ → List ℕ → Bool
same_name [] [] = true
same_name [] (d ∷ ds) = false
same_name (c ∷ cs) [] = false
same_name (c ∷ cs) (d ∷ ds) = (c == d) && same_name cs ds

-- std::map<iName, Inode_p>: no two entries have one name.
abbrev pub Tree : Type 0
Tree = List (List ℕ × Inode)

-- `tree.find(name)`; `none` is `tree.end()`.
unfoldable pub find : Tree → List ℕ → Option Inode
find [] name = none
find ((key, inode) ∷ tree) name = if same_name key name then some inode else find tree name

-- getRoot reads the entry of the empty name, and does not compare with `tree.end()`.
unfoldable pub get_root : Tree → Outcome Inode
get_root tree = elim (find tree []) [ none ↦ fault | some inode ↦ ok inode ]

-- addMountHandle. The handle is not used.
unfoldable pub add_mount_handle : Tree → List ℕ → List ℕ → Tree
add_mount_handle tree remote handle = elim (find tree remote) [
  | some inode ↦ tree
  | none ↦ (remote, make_inode remote (slash ∷ []) nfs3dir) ∷ tree
]
