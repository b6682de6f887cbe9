-- ===== src/DescriptiveEnum.antt =====
-- descriptiveenum/: the names of the values of an enumeration, taken from the text of its enumerators.
pub mod Names
pub mod Read
pub mod Values
pub mod Print
pub mod Perms
use nfs_client_simulator.Common.{
  ℕ, ◌+◌, ◌-◌, ◌%◌, ◌^◌, List, [], ◌∷◌, ◌++◌, Bool, true, false, ◌||◌, Option, none, some, Outcome,
  ok, fault, ◌>>=◌, ◌==◌, if◌then◌else◌,
}
use nfs_client_simulator.Common.Int.{ℤ, pos, negsuc}
use nfs_client_simulator.Text.{codes, stoll}

-- The macro removeChar.
unfoldable pub remove_char : List ℕ → ℕ → List ℕ
remove_char [] char_value = []
remove_char (c ∷ input) char_value =
    let rest = remove_char input char_value in if c == char_value then rest else c ∷ rest

-- The loop of splitString: `substr` are the bytes that getline has read behind the last separator. At the
-- end of the text getline yields them, unless there are none.
unfoldable pub split_from : ℕ → List ℕ → List ℕ → List (List ℕ)
split_from seperator [] [] = []
split_from seperator (c ∷ substr) [] = (c ∷ substr) ∷ []
split_from seperator substr (c ∷ input) = elim (c == seperator) [
  | true ↦ substr ∷ split_from seperator [] input
  | false ↦ split_from seperator (substr ++ c ∷ []) input
]

unfoldable pub split_string : List ℕ → ℕ → List (List ℕ)
split_string input seperator = split_from seperator [] input

-- std::map<size_t, std::string>: no two entries have one key.
abbrev pub EnumMap : Type 0
EnumMap = List (ℕ × List ℕ)

-- `m[key] = item`
unfoldable pub assign : EnumMap → ℕ → List ℕ → EnumMap
assign [] key item = (key, item) ∷ []
assign ((k, old) ∷ m) key item =
    let rest = assign m key item in if k == key then (k, item) ∷ m else (k, old) ∷ rest

unfoldable pub name_at : EnumMap → ℕ → Option (List ℕ)
name_at [] key = none
name_at ((k, item) ∷ m) key = let rest = name_at m key in if k == key then some item else rest

-- `item.find('=') != npos`
unfoldable pub contains : List ℕ → ℕ → Bool
contains [] char = false
contains (c ∷ cs) char = c == char || contains cs char

-- static_cast<size_t> of a long long.
abbrev pub to_size : ℤ → ℕ
to_size (pos n) = n
to_size (negsuc n) = 2 ^ 64 - 1 - n

-- nameAndValue[0] and nameAndValue[1]
unfoldable pub name_and_value : List (List ℕ) → Outcome (List ℕ × List ℕ)
name_and_value [] = fault
name_and_value (name ∷ []) = fault
name_and_value (name ∷ value ∷ more) = ok (name, value)

-- The loop of generateEnumMap.
unfoldable pub enum_loop : ℕ → EnumMap → List (List ℕ) → Outcome EnumMap
enum_loop current_value return_map [] = ok return_map
enum_loop current_value return_map (item ∷ items) = elim (contains item b'=') [
  | false ↦ enum_loop ((current_value + 1) % 2 ^ 64) (assign return_map current_value item) items
  | true ↦ do
    (name, value) ← name_and_value (split_string item b'=')
    z ← stoll value
    enum_loop ((to_size z + 1) % 2 ^ 64) (assign return_map (to_size z) name) items
]

-- The four calls of removeChar.
unfoldable pub strip_marks : List ℕ → List ℕ
strip_marks s = remove_char (remove_char (remove_char (remove_char s b' ') b'(') b')') b'"'

unfoldable pub generate_enum_map : List ℕ → Outcome EnumMap
generate_enum_map initializer = enum_loop 0 [] (split_string (strip_marks initializer) b',')

-- The static variables of an instance of printEnum.
pub record EnumImage : Type 0 where
  pub class_name : List ℕ
  pub enum_map : EnumMap

-- `enumMap[key]`: an empty name is entered if there is none.
unfoldable pub index_map : EnumMap → ℕ → List ℕ × EnumMap
index_map m key = elim (name_at m key) [ none ↦ ([], assign m key []) | some item ↦ (item, m) ]

-- The static variables are initialised by the first call.
unfoldable pub init_image : Option EnumImage → List ℕ → List ℕ → Outcome EnumImage
init_image (some image) enum_class_name initializer = ok image
init_image none enum_class_name initializer = do
  m ← generate_enum_map initializer
  ok record { class_name = enum_class_name; enum_map = m }

-- printEnum: the text, and the static variables after it.
unfoldable pub print_enum : Option EnumImage → ℕ → List ℕ → List ℕ → Outcome (List ℕ × EnumImage)
print_enum statics enum_instance enum_class_name initializer = do
  image ← init_image statics enum_class_name initializer
  let (name, m) = index_map image.enum_map enum_instance
  ok (image.class_name ++ codes "::" ++ name, record image { enum_map = m })
