-- ===== src/FsTree/Mounts.antt =====
-- The roots after a number of mounts, as a view that forgets how they were entered.
use mathlib.Core.Quot
use mathlib.Core.Quot.{Quot}
use nfs_client_simulator.Common.{
  ℕ, ◌≡◌, refl, sym, ap, ◌∙◌, inl, inr, List, [], ◌∷◌, Bool, true, false, ◌||◌, none, some, Option,
  Bool-cases, Option-cases,
}
use nfs_client_simulator.Inode.{Inode, make_inode, nfs3dir, slash}
use nfs_client_simulator.FsTree.{same_name, Tree, find, add_mount_handle}
use nfs_client_simulator.FsTree.Roots.{same_name→eq, find-add_mount_handle, add_mounts}

-- Two trees find the same roots.
abbrev pub SameRoots : Tree → Tree → Type 0
SameRoots t u = (name : List ℕ) → find t name ≡ find u name

abbrev pub Roots : Type 0
Roots = Quot SameRoots

-- Whether an export is among the mounts.
abbrev pub is_mounted : List ℕ → List (List ℕ × List ℕ) → Bool
is_mounted name [] = false
is_mounted name ((remote, handle) ∷ mounts) = same_name remote name || is_mounted name mounts

-- The root that the mounts leave under a name.
abbrev pub root_after : Option Inode → Bool → List ℕ → Option Inode
root_after (some inode) b name = some inode
root_after none true name = some (make_inode name (slash ∷ []) nfs3dir)
root_after none false name = none

root_step :
    (tree : Tree) (remote handle name : List ℕ) (b : Bool)
    → root_after (find (add_mount_handle tree remote handle) name) b name
      ≡ root_after (find tree name) (same_name remote name || b) name
root_step tree remote handle name b = elim (Bool-cases (same_name remote name)) [
  | inl e ↦
      let same = same_name→eq remote name e in
      elim (Option-cases (find tree name)) [
        | inl h ↦ rw (find-add_mount_handle tree remote handle name, e, same, h, same) refl
        | inr (inode, h) ↦ rw (find-add_mount_handle tree remote handle name, e, same, h) refl
      ]
  | inr e ↦ rw (find-add_mount_handle tree remote handle name, e) refl
]

find-add_mounts :
    (tree : Tree) (mounts : List (List ℕ × List ℕ)) (name : List ℕ)
    → find (add_mounts tree mounts) name ≡ root_after (find tree name) (is_mounted name mounts) name
unfolding add_mounts
find-add_mounts tree [] name = elim (Option-cases (find tree name)) [
  | inl e ↦ rw e refl
  | inr (inode, e) ↦ rw e refl
]
find-add_mounts tree ((remote, handle) ∷ mounts) name =
    find-add_mounts (add_mount_handle tree remote handle) mounts name
    ∙ root_step tree remote handle name (is_mounted name mounts)

-- After any mounts a name has the root that it had before, or else, if it is an export that has been mounted,
-- a new directory, or else none. So the roots that can be found depend only on the set of the exports: two
-- lists of mounts with the same exports, in whatever order, however often, and with whatever handles,
-- leave the same roots.
pub add_mounts_lem :
    (tree : Tree) (mounts others : List (List ℕ × List ℕ))
    → ((name : List ℕ) → is_mounted name mounts ≡ is_mounted name others)
    → ((name : List ℕ)
        → find (add_mounts tree mounts) name
          ≡ root_after (find tree name) (is_mounted name mounts) name)
      × Path Roots (Quot.mk (add_mounts tree mounts)) (Quot.mk (add_mounts tree others))
add_mounts_lem tree mounts others h = (
  find-add_mounts tree mounts,
  Quot.sound (λ name.
      find-add_mounts tree mounts name
      ∙ ap (λ b. root_after (find tree name) b name) (h name)
      ∙ sym (find-add_mounts tree others name)),
)
