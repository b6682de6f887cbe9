-- ===== src/Utils.antt =====
-- Utils.cpp and Utils.hpp: the random and the sequential numbers, the name of the host, and the owner of an
-- array.
pub mod Handler
pub mod Random
use nfs_client_simulator.Common.{
  ℕ, ◌+◌, ◌*◌, ◌%◌, ◌^◌, bit_or, bit_and, List, ◌∷◌, Option, none, some, Bool, true, false, Outcome,
  ok, fault, ◌>>=◌, if◌then◌else◌,
}
use nfs_client_simulator.Common.Int.{ℤ, pos, eqb}

-- `__atomic_fetch_add(&sequential, 1)`: the value handed out, and the counter after it. The counter
-- is a static of 64 bits; its first value comes from the clock.
unfoldable pub get_monotonic : ℕ → ℕ × ℕ
get_monotonic sequential = (sequential, (sequential + 1) % 2 ^ 64)

-- getRandomNumber after a seed was set: `first` and `second` are what the two calls of random()
-- return, longs converted to 64 unsigned bits.
unfoldable pub get_random_number : ℕ → ℕ → ℕ
get_random_number first second =
    bit_and (bit_or (first * 2 ^ 32 % 2 ^ 64) second) 0x0000_0000_ffff_ffff

-- The first value of the counter: the time in nanoseconds if clock_gettime yields one, else a random number.
unfoldable pub first_sequential : Option (ℕ × ℕ) → ℕ → ℕ → ℕ
first_sequential (some (tv_sec, tv_nsec)) first second = (tv_sec * 1_000_000_000 + tv_nsec) % 2 ^ 64
first_sequential none first second = get_random_number first second

-- getLocalHostname: what getaddrinfo returns, and the canonical name that it yields on success. After a
-- failure, which is only logged, the result is read through a pointer without a value.
unfoldable pub get_local_hostname : ℤ → List ℕ → Outcome (List ℕ)
get_local_hostname gai_result ai_canonname =
    if eqb gai_result (pos 0) then ok ai_canonname else fault

-- getSelfFQDN: the static variable before and after the call.
unfoldable pub get_self_fqdn : Option (List ℕ) → ℤ → List ℕ → Outcome (List ℕ × Option (List ℕ))
get_self_fqdn (some self_name) gai_result ai_canonname = ok (self_name, some self_name)
get_self_fqdn none gai_result ai_canonname = do
  self_name ← get_local_hostname gai_result ai_canonname
  ok (self_name, some self_name)

-- class ScopedMemoryHandler: an array, named by its address, and whether it has been freed. The mutex is
-- not modelled.
pub record ScopedMemoryHandler : Type 0 where
  pub raw_ptr : Option ℕ
  pub memory_freed : Bool

-- The constructor.
unfoldable pub make_handler : Option ℕ → ScopedMemoryHandler
make_handler memptr = record { raw_ptr = memptr; memory_freed = false }

-- freeMemory; `deleted` are the arrays that `delete []` has been called on, the last one first.
unfoldable pub free_memory : ScopedMemoryHandler → List ℕ → ScopedMemoryHandler × List ℕ
free_memory h deleted = elim h.raw_ptr [
  | none ↦ (h, deleted)
  | some p ↦
      if h.memory_freed
      then (h, deleted)
      else (record { raw_ptr = none; memory_freed = true }, p ∷ deleted)
]

-- The destructor.
unfoldable pub destroy_handler : ScopedMemoryHandler → List ℕ → List ℕ
destroy_handler h deleted = (free_memory h deleted).1
