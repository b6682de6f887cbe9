-- ===== src/FsTree/Roots.antt =====
-- Which roots addMountHandle enters, and which root getRoot finds.
use nfs_client_simulator.Common.{
  ℕ, ◌≡◌, ◌≢◌, refl, ◌∙◌, inl, inr, List, [], ◌∷◌, true, false, none, some, fault, Bool-cases,
  Option-cases, All, arith,
}
use nfs_client_simulator.Inode.{make_inode, nfs3dir, slash}
use nfs_client_simulator.FsTree.{same_name, Tree, find, get_root, add_mount_handle}

same_name_refl : (name : List ℕ) → same_name name name ≡ true
same_name_refl [] = refl
same_name_refl (c ∷ cs) = ground (arith, same_name_refl cs)

pub same_name→eq : (a b : List ℕ) → same_name a b ≡ true → a ≡ b
same_name→eq [] [] e = refl
same_name→eq [] (d ∷ ds) e = cc
same_name→eq (c ∷ cs) [] e = cc
same_name→eq (c ∷ cs) (d ∷ ds) e = ground (arith, same_name→eq cs ds (ground arith))

-- After addMountHandle the export has a root: the one that it had, or else a new directory. Under
-- every other name the tree has what it had.
pub find-add_mount_handle :
    (tree : Tree) (remote handle name : List ℕ)
    → find (add_mount_handle tree remote handle) name ≡ elim (same_name remote name) [
      | false ↦ find tree name
      | true ↦ elim (find tree remote) [
        | some inode ↦ some inode
        | none ↦ some (make_inode remote (slash ∷ []) nfs3dir)
      ]
    ]
unfolding find add_mount_handle
find-add_mount_handle tree remote handle name = elim (Bool-cases (same_name remote name)) [
  | inl e ↦
      let same = same_name→eq remote name e in
      elim (Option-cases (find tree remote)) [
        | inl h ↦ ground arith
        | inr (inode, h) ↦ ground arith
      ]
  | inr e ↦ elim (Option-cases (find tree remote)) [
    | inl h ↦ ground arith
    | inr (inode, h) ↦ ground arith
  ]
]

-- The tree after a number of mounts, each the name of an export and its handle.
unfoldable pub add_mounts : Tree → List (List ℕ × List ℕ) → Tree
add_mounts tree [] = tree
add_mounts tree ((remote, handle) ∷ mounts) =
    add_mounts (add_mount_handle tree remote handle) mounts

keep_none :
    (tree : Tree) (mounts : List (List ℕ × List ℕ))
    → find tree [] ≡ none
    → All (λ m. m.0 ≢ []) mounts
    → find (add_mounts tree mounts) [] ≡ none
unfolding add_mounts
keep_none tree [] e h = e
keep_none tree (([], handle) ∷ mounts) e h = absurd (h.0 refl)
keep_none tree ((c ∷ cs, handle) ∷ mounts) e h =
    keep_none (add_mount_handle tree (c ∷ cs) handle) mounts
      (find-add_mount_handle tree (c ∷ cs) handle [] ∙ e) h.1

-- Whatever exports have been entered into the empty tree, as long as each has a name, getRoot reads
-- the end iterator.
pub get_root-add_mounts :
    (mounts : List (List ℕ × List ℕ))
    → All (λ m. m.0 ≢ []) mounts
    → get_root (add_mounts [] mounts) ≡ fault
unfolding get_root find
get_root-add_mounts mounts h = rw (keep_none [] mounts refl h, get_root) refl
