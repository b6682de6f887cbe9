-- ===== src/DescriptiveEnum/Print.antt =====
-- The calls of printEnum for one enumeration, which share the map that the first of them makes.
use nfs_client_simulator.Common.{
  ℕ, ◌≡◌, refl, sym, ap, ◌∙◌, List, [], ◌∷◌, ◌++◌, Option, none, some, Outcome, ok, ◌>>=◌, ◌==◌,
  arith, Option-cases, inl, inr, Bool-cases,
}
use nfs_client_simulator.Text.{codes}
use nfs_client_simulator.DescriptiveEnum.{
  EnumMap, EnumImage, name_at, index_map, init_image, print_enum,
}
use nfs_client_simulator.DescriptiveEnum.Names.{Enumerator, initializer, entries, last_name}
use nfs_client_simulator.DescriptiveEnum.Read.{AllEnumerators}
use nfs_client_simulator.DescriptiveEnum.Values.{name_at-assign, generate_enum_map-initializer}

-- One call for each value.
unfoldable pub print_all : Option EnumImage → List ℕ → List ℕ → List ℕ → Outcome (List (List ℕ))
print_all statics [] enum_class_name initializer = ok []
print_all statics (value ∷ values) enum_class_name initializer = do
  (text, image) ← print_enum statics value enum_class_name initializer
  texts ← print_all (some image) values enum_class_name initializer
  ok (text ∷ texts)

abbrev pub or_empty : Option (List ℕ) → List ℕ
or_empty none = []
or_empty (some name) = name

abbrev pub texts : List ℕ → (ℕ → List ℕ) → List ℕ → List (List ℕ)
texts class_name name [] = []
texts class_name name (value ∷ values) =
    (class_name ++ codes "::" ++ name value) ∷ texts class_name name values

-- Reading the map yields the name and leaves all names as they are.
index_map_name : (m : EnumMap) (key : ℕ) → (index_map m key).0 ≡ or_empty (name_at m key)
unfolding index_map
index_map_name m key = elim (Option-cases (name_at m key)) [
  | inl e ↦ rw (e, index_map) refl
  | inr (name, e) ↦ rw (e, index_map) refl
]

name_at-index_map :
    (m : EnumMap) (key value : ℕ)
    → or_empty (name_at (index_map m key).1 value) ≡ or_empty (name_at m value)
unfolding index_map
name_at-index_map m key value = elim (Option-cases (name_at m key)) [
  | inl e ↦
      rw (e, index_map)
        (ap or_empty (name_at-assign m key [] value) ∙ elim (Bool-cases (key == value)) [
          | inl same ↦
              let k : key ≡ value = ground arith in rw same (ap or_empty (sym e ∙ ap (name_at m) k))
          | inr other ↦ rw other refl
        ])
  | inr (name, e) ↦ rw (e, index_map) refl
]

print_all-image :
    (m : EnumMap) (name : ℕ → List ℕ) (values enum_class_name class_name initializer : List ℕ)
    → ((value : ℕ) → or_empty (name_at m value) ≡ name value)
    → print_all
        (some record { class_name = class_name; enum_map = m })
        values
        enum_class_name
        initializer
      ≡ ok (texts class_name name values)
unfolding print_all print_enum init_image
print_all-image m name [] enum_class_name class_name initializer h = refl
print_all-image m name (value ∷ values) enum_class_name class_name initializer h =
    rw
      (
        print_all-image (index_map m value).1 name values enum_class_name class_name initializer
            (λ v. name_at-index_map m value v ∙ h v),
        index_map_name m value,
        h value,
      )
      refl

-- Take the enumerators of generate_enum_map-initializer. Calls of printEnum in a row, whatever values
-- they print, all give the name of the class, `::`, and the last of the names with the value; where no
-- name has it, nothing follows `::`.
pub print_all-initializer :
    (es : List Enumerator) (values enum_class_name : List ℕ)
    → AllEnumerators es
    → print_all none values enum_class_name (initializer es)
      ≡ ok (texts enum_class_name (λ value. or_empty (last_name (entries 0 es) value)) values)
unfolding print_all print_enum init_image
print_all-initializer es [] enum_class_name h = refl
print_all-initializer es (value ∷ values) enum_class_name h =
    let (m, e, names) = generate_enum_map-initializer es h in
    rw e (
      print_all-image m (λ v. or_empty (last_name (entries 0 es) v)) (value ∷ values)
        enum_class_name enum_class_name (initializer es) (λ v. ap or_empty (names v)))
