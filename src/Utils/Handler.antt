-- ===== src/Utils/Handler.antt =====
-- How often an array in a ScopedMemoryHandler is freed.
use nfs_client_simulator.Common.{
  ℕ, zero, suc, ◌≡◌, refl, List, ◌∷◌, Option, none, some, Bool, true, false,
}
use nfs_client_simulator.Utils.{ScopedMemoryHandler, make_handler, free_memory, destroy_handler}

-- freeMemory called `n` times.
unfoldable pub free_times : ℕ → ScopedMemoryHandler → List ℕ → ScopedMemoryHandler × List ℕ
free_times zero h deleted = (h, deleted)
free_times (suc n) h deleted =
    let (h', deleted') = free_memory h deleted in free_times n h' deleted'

-- The life of a handler: `n` calls of freeMemory, and the destructor.
abbrev pub life : Option ℕ → ℕ → List ℕ → List ℕ
life memptr n deleted =
    let (h, deleted') = free_times n (make_handler memptr) deleted in destroy_handler h deleted'

-- A handler without an array.
abbrev empty : Bool → ScopedMemoryHandler
empty freed = record { raw_ptr = none; memory_freed = freed }

empty_stays :
    (n : ℕ) (freed : Bool) (deleted : List ℕ)
    → free_times n (empty freed) deleted ≡ (empty freed, deleted)
unfolding free_times free_memory
empty_stays zero freed deleted = refl
empty_stays (suc n) freed deleted = empty_stays n freed deleted

-- However often freeMemory is called in the life of a ScopedMemoryHandler, its array is deleted exactly
-- once, and nothing is if it has none.
pub life-make_handler :
    (memptr : Option ℕ) (n : ℕ) (deleted : List ℕ)
    → life memptr n deleted ≡ elim memptr [ none ↦ deleted | some p ↦ p ∷ deleted ]
unfolding free_times free_memory make_handler destroy_handler
life-make_handler none n deleted = rw (empty_stays n false deleted, free_memory) refl
life-make_handler (some p) zero deleted = refl
life-make_handler (some p) (suc n) deleted = rw (empty_stays n true (p ∷ deleted), free_memory) refl
