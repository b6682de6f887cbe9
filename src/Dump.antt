-- ===== src/Dump.antt =====
-- The bytes that the program prints: printHandle of Utils.cpp, and mem_dump of xdr.cpp and xdr.hpp.
pub mod Read
use nfs_client_simulator.Common.{ℕ, zero, suc, List, [], ◌∷◌, ◌++◌, Outcome, ok, ◌>>=◌}
use nfs_client_simulator.Text.{codes, hex_byte}
use nfs_client_simulator.Logging.{Place, debug_log, critical, text}
use nfs_client_simulator.Xdr.{Buffer, load}

-- What the loop puts into the stream.
unfoldable pub dump : List ℕ → List ℕ
dump [] = []
dump (b ∷ bytes) = hex_byte b ++ codes " " ++ dump bytes

-- printHandle: two statements of the log, at two places.
unfoldable pub print_handle : ℕ → Place → Place → List ℕ → List ℕ → List ℕ
print_handle global first second comment handle =
    debug_log global first critical (text comment ∷ [])
    ++ debug_log global second critical (text (dump handle) ∷ [])

-- mem_dump_impl: `done` bytes have been read, and `left` are to come.
unfoldable pub dump_loop : Buffer → ℕ → ℕ → Outcome (List ℕ)
dump_loop dst done zero = ok []
dump_loop dst done (suc left) = do
  b ← load dst done
  rest ← dump_loop dst (suc done) left
  ok (hex_byte b ++ codes " " ++ rest)

unfoldable pub mem_dump_impl : ℕ → Place → Buffer → ℕ → Outcome (List ℕ)
mem_dump_impl global at dst size = do
  oss ← dump_loop dst 0 size
  ok (debug_log global at critical (text oss ∷ []))

-- mem_dump; `payload` as it is printed.
unfoldable pub mem_dump : ℕ → Place → Place → List ℕ → Buffer → ℕ → List ℕ → Outcome (List ℕ)
mem_dump global first second comment dst size payload = do
  bytes ← mem_dump_impl global second dst size
  ok (
      debug_log global first critical (text comment ∷ text (codes "::") ∷ text payload ∷ [])
      ++ bytes)
