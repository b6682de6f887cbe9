-- ===== src/ServerContexts.antt =====
-- class ServerContexts of Context.hpp: the contexts with their use counts.
pub mod Counts
pub mod Pool
use nfs_client_simulator.Common.{
  ℕ, zero, suc, ◌+◌, ◌-◌, List, [], ◌∷◌, ◌++◌, Option, none, some, Outcome, ok, aborted, fault,
  ◌>>=◌, ◌>>◌, dassert, not, ◌^◌, if◌then◌else◌,
}
use nfs_client_simulator.Common.Int.{
  ℤ, pos, negsuc, increment, decrement, eqb, is_negative, is_positive,
}
use nfs_client_simulator.Context.{Context}

pub record ServerHold : Type 0 where
  pub context : Context
  pub usage_count : ℤ

abbrev pub ServerContexts : Type 0
ServerContexts = List ServerHold

unfoldable pub add_context : ServerContexts → Context → ServerContexts
add_context s_contexts context =
    s_contexts ++ record { context = context; usage_count = pos 0 } ∷ []

-- `sContexts.at(index)` and what is done to the element. An index out of range throws, which ends the
-- program: `aborted`.
unfoldable pub at_index {ℓ} :
    {A : Type ℓ}
    → ServerContexts
    → ℕ
    → (ServerHold → Outcome (A × ServerHold))
    → Outcome (A × ServerContexts)
at_index [] i f = aborted
at_index (s ∷ ss) zero f = do (a, s') ← f s; ok (a, s' ∷ ss)
at_index (s ∷ ss) (suc i) f = do (a, ss') ← at_index ss i f; ok (a, s ∷ ss')

-- An int32_t as the index: a negative one becomes a size_t above the size of every vector, so that `at` throws.
abbrev pub at_int {ℓ} :
    {A : Type ℓ}
    → ServerContexts
    → ℤ
    → (ServerHold → Outcome (A × ServerHold))
    → Outcome (A × ServerContexts)
at_int ss (pos i) f = at_index ss i f
at_int ss (negsuc i) f = aborted

-- `++usageCount` on an int32_t.
unfoldable pub bump : ℤ → Outcome ℤ
bump n = if eqb n (pos (2 ^ 31 - 1)) then fault else ok (increment n)

-- getContext, and what it does to the element.
unfoldable pub take_one : ServerHold → Outcome (Context × ServerHold)
take_one server = do
  dassert (not (is_negative server.usage_count))
  usage_count' ← bump server.usage_count
  ok (server.context, record server { usage_count = usage_count' })

unfoldable pub get_context : ServerContexts → ℤ → Outcome (Context × ServerContexts)
get_context s_contexts index = at_int s_contexts index take_one

-- putContext, and what it does to the element.
unfoldable pub give_one : ServerHold → Outcome (Unit {0} × ServerHold)
give_one server = do
  dassert (is_positive server.usage_count)
  ok (tt, record server { usage_count = decrement server.usage_count })

unfoldable pub put_context : ServerContexts → ℤ → Outcome (Unit {0} × ServerContexts)
put_context s_contexts index = at_int s_contexts index give_one
