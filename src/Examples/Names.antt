-- ===== src/Examples/Names.antt =====
-- Names of enumerations, lines of the log, dumps and numbers in texts.
use nfs_client_simulator.Common.{
  ℕ, ◌≡◌, ◌≢◌, refl, List, [], ◌∷◌, ◌++◌, none, some, ok, true, arith,
}
use nfs_client_simulator.Common.Int.{ℤ, pos, negsuc}
use nfs_client_simulator.Text.{codes}
use nfs_client_simulator.Logging.{
  Place, Argument, text, stream, boolean, debug_log, test_debug_log, header, trace, debug,
}
use nfs_client_simulator.Logging.Lines.{debug_log_lem}
use nfs_client_simulator.Xdr.Integer.{get_integer}
use nfs_client_simulator.Xdr.Integer.Ends.{get_integer_ends}
use nfs_client_simulator.NfsEnums.{perms_u32, xoth}
use nfs_client_simulator.DescriptiveEnum.{EnumMap, generate_enum_map, name_at, split_string}
use nfs_client_simulator.DescriptiveEnum.Names.{
  Enumerator, plain, valued, initializer, entries, last_name,
}
use nfs_client_simulator.DescriptiveEnum.Read.{AllEnumerators}
use nfs_client_simulator.DescriptiveEnum.Values.{generate_enum_map-initializer}
use nfs_client_simulator.DescriptiveEnum.Print.{print_all}
use nfs_client_simulator.DescriptiveEnum.Perms.{perms, print_perms}
use nfs_client_simulator.Dump.{mem_dump_impl, print_handle}
use nfs_client_simulator.Dump.Read.{numbers, mem_dump_impl-bytes}

-- RPCTYPE
abbrev rpc_type : List Enumerator
rpc_type =
    valued (codes "None") (negsuc 0)
    ∷ valued (codes "CALL") (pos 0)
    ∷ valued (codes "REPLY") (pos 1)
    ∷ plain (codes "UNKNOWN")
    ∷ []

are_enumerators : AllEnumerators rpc_type
are_enumerators = (
  ((refl, (refl, (refl, (refl, tt)))), omega arith),
  (
    ((refl, (refl, (refl, (refl, tt)))), omega arith),
    (
      ((refl, (refl, (refl, (refl, (refl, tt))))), omega arith),
      ((refl, (refl, (refl, (refl, (refl, (refl, (refl, tt))))))), tt),
    ),
  ),
)

generate_enum_map-initializer_example :
    (m : EnumMap) × (generate_enum_map (initializer rpc_type) ≡ ok m)
    × ((value : ℕ) → name_at m value ≡ last_name (entries 0 rpc_type) value)
generate_enum_map-initializer_example = generate_enum_map-initializer rpc_type are_enumerators

print_perms_example :
    print_all none (perms_u32 xoth ∷ []) (codes "PERMS") (initializer perms)
    ≡ ok (codes "PERMS::SUSR" ∷ [])
print_perms_example = print_perms xoth

-- A statement in main, in thread 12.
abbrev place : Place
place = record { file = codes "main.cpp"; line = 51; func_name = codes "main"; thread_id = 12 }

-- The stringstream is empty, so that the Boolean behind it is lost.
abbrev arguments : List Argument
arguments = text (codes "port") ∷ stream [] ∷ boolean true ∷ []

debug_log_lem_example :
    (debug_log trace place debug arguments ≡ header place ++ codes " port " ++ b'\n' ∷ [])
    × (test_debug_log trace place debug arguments ≡ codes " port " ++ b'\n' ∷ [])
debug_log_lem_example = debug_log_lem trace place debug arguments

mem_dump_impl-bytes_example :
    (line : List ℕ) × (mem_dump_impl trace place (10 ∷ 255 ∷ 7 ∷ []) 2
      ≡ ok (b' ' ∷ (line ++ b'\n' ∷ [])))
    × (print_handle trace place place (codes "handle") (10 ∷ 255 ∷ [])
        ≡ b' ' ∷ (codes "handle" ++ b'\n' ∷ b' ' ∷ (line ++ b'\n' ∷ [])))
    × (numbers (split_string line b' ') ≡ 10 ∷ 255 ∷ [])
mem_dump_impl-bytes_example =
    mem_dump_impl-bytes trace place place (codes "handle") (10 ∷ 255 ∷ []) (7 ∷ []) (omega arith)
      (omega arith, (omega arith, tt))

-- An int32_t whose text begins with 7.
abbrev seven : ℕ
seven = b'7'

get_integer_ends_example :
    (seven ≡ b'0'
      → (fuel : ℕ) (src : List ℕ) → get_integer fuel true 4 (some (seven ∷ src)) ≡ ok none)
    × (seven ≢ b'0'
        → (z : ℤ) × ((src : List ℕ) → get_integer 23 true 4 (some (seven ∷ src)) ≡ ok (some z)))
get_integer_ends_example = get_integer_ends true 4 seven (omega arith)
