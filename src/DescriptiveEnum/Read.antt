-- ===== src/DescriptiveEnum/Read.antt =====
-- The text of an enumeration without its marks, and split at its commas.
use nfs_client_simulator.Common.{
  ℕ, suc, ◌≡◌, refl, sym, ap, ◌∙◌, List, [], ◌∷◌, ◌++◌, append_assoc, append-nil, false, All, ◌==◌,
  arith,
}
use nfs_client_simulator.Common.Int.{ℤ, pos, negsuc}
use nfs_client_simulator.Text.{codes, decimal, decimal_int}
use nfs_client_simulator.Text.Decimal.{decimal-IsDigit}
use nfs_client_simulator.DescriptiveEnum.{remove_char, split_from, split_string, strip_marks}
use nfs_client_simulator.DescriptiveEnum.Names.{
  Enumerator, plain, valued, shifted, written, initializer, Unmarked, IsName, IsEnumerator, bare,
  commas, strip_marks-append, All-map, strip_marks-Unmarked, split_from_cut, split_from-append,
}

pub IsName→Unmarked : (name : List ℕ) → IsName name → Unmarked name
IsName→Unmarked [] h = absurd h
IsName→Unmarked (c ∷ cs) h = h

pub Unmarked-decimal : (n : ℕ) → Unmarked (decimal n)
Unmarked-decimal n = All-map (decimal n) (λ c k. ground arith) (decimal-IsDigit n)

pub Unmarked-decimal_int : (z : ℤ) → Unmarked (decimal_int z)
unfolding decimal_int
Unmarked-decimal_int (pos n) = Unmarked-decimal n
Unmarked-decimal_int (negsuc n) = (refl, Unmarked-decimal (suc n))

abbrev NotComma : ℕ → Type 0
NotComma c = (c == b',') ≡ false

NotComma-append : (a b : List ℕ) → All NotComma a → All NotComma b → All NotComma (a ++ b)
NotComma-append [] b h k = k
NotComma-append (x ∷ a) b h k = (h.0, NotComma-append a b h.1 k)

equals : strip_marks (codes " = ") ≡ codes "="
unfolding strip_marks remove_char
equals = refl

shift : strip_marks (codes " = (1u << ") ≡ codes "=1u<<"
unfolding strip_marks remove_char
shift = refl

comma : strip_marks (codes ", ") ≡ codes ","
unfolding strip_marks remove_char
comma = refl

closing : strip_marks (codes ")") ≡ []
unfolding strip_marks remove_char
closing = refl

nothing : strip_marks [] ≡ []
unfolding strip_marks remove_char
nothing = refl

strip_marks-written : (e : Enumerator) → IsEnumerator e → strip_marks (written e) ≡ bare e
strip_marks-written (plain name) h = strip_marks-Unmarked name (IsName→Unmarked name h)
strip_marks-written (valued name value) h =
    rw
      (
        strip_marks-append,
        strip_marks-append,
        strip_marks-Unmarked name (IsName→Unmarked name h.0),
        strip_marks-Unmarked (decimal_int value) (Unmarked-decimal_int value),
        equals,
      )
      (append_assoc name (b'=' ∷ []) (decimal_int value))
strip_marks-written (shifted name bit) h =
    rw
      (
        strip_marks-append,
        strip_marks-append,
        strip_marks-append,
        strip_marks-Unmarked name (IsName→Unmarked name h),
        strip_marks-Unmarked (decimal bit) (Unmarked-decimal bit),
        shift,
        closing,
        append-nil,
      )
      (append_assoc name (codes "=1u<<") (decimal bit))

abbrev pub bares : List Enumerator → List (List ℕ)
bares [] = []
bares (e ∷ es) = bare e ∷ bares es

abbrev pub AllEnumerators : List Enumerator → Type 0
AllEnumerators es = All IsEnumerator es

strip_marks-initializer :
    (es : List Enumerator) → AllEnumerators es → strip_marks (initializer es) ≡ commas (bares es)
strip_marks-initializer [] h = nothing
strip_marks-initializer (e ∷ []) h = strip_marks-written e h.0
strip_marks-initializer (e ∷ f ∷ es) h =
    rw
      (
        strip_marks-append,
        strip_marks-append,
        strip_marks-written e h.0,
        comma,
        strip_marks-initializer (f ∷ es) h.1,
      )
      (append_assoc (bare e) (b',' ∷ []) (commas (bares (f ∷ es))))

-- A text that splitString takes for one item.
abbrev IsItem : List ℕ → Type 0
IsItem [] = ⊥
IsItem (c ∷ cs) = All NotComma (c ∷ cs)

no_comma : (text : List ℕ) → Unmarked text → All NotComma text
no_comma text h = All-map text (λ c k. ground arith) h

bare-IsItem : (e : Enumerator) → IsEnumerator e → IsItem (bare e)
bare-IsItem (plain (c ∷ cs)) h = no_comma (c ∷ cs) h
bare-IsItem (valued (c ∷ cs) value) h =
    NotComma-append (c ∷ cs) (b'=' ∷ decimal_int value) (no_comma (c ∷ cs) h.0)
      (refl, no_comma (decimal_int value) (Unmarked-decimal_int value))
bare-IsItem (shifted (c ∷ cs) bit) h =
    NotComma-append (c ∷ cs) (codes "=1u<<" ++ decimal bit) (no_comma (c ∷ cs) h)
      (refl, (refl, (refl, (refl, (refl, no_comma (decimal bit) (Unmarked-decimal bit))))))
bare-IsItem (plain []) h = absurd h
bare-IsItem (valued [] value) h = absurd h.0
bare-IsItem (shifted [] bit) h = absurd h

split_item : (item : List ℕ) → IsItem item → split_from b',' [] item ≡ item ∷ []
unfolding split_from
split_item [] h = absurd h
split_item (c ∷ cs) h =
    ap (split_from b',' []) (sym (append-nil (c ∷ cs))) ∙ split_from-append b',' [] (c ∷ cs) [] h

split_first :
    (item rest : List ℕ)
    → IsItem item
    → split_from b',' [] (item ++ b',' ∷ rest) ≡ item ∷ split_from b',' [] rest
split_first [] rest h = absurd h
split_first (c ∷ cs) rest h =
    split_from-append b',' [] (c ∷ cs) (b',' ∷ rest) h ∙ split_from_cut b',' (c ∷ cs) rest

split_items : (items : List (List ℕ)) → All IsItem items → split_from b',' [] (commas items) ≡ items
unfolding split_from
split_items [] h = refl
split_items (item ∷ []) h = split_item item h.0
split_items (item ∷ next ∷ items) h =
    split_first item (commas (next ∷ items)) h.0
    ∙ ap (λ r. item ∷ r) (split_items (next ∷ items) h.1)

bares-IsItem : (es : List Enumerator) → AllEnumerators es → All IsItem (bares es)
bares-IsItem [] h = tt
bares-IsItem (e ∷ es) h = (bare-IsItem e h.0, bares-IsItem es h.1)

-- The items are the enumerators, without spaces and parentheses.
pub split_string-initializer :
    (es : List Enumerator)
    → AllEnumerators es
    → split_string (strip_marks (initializer es)) b',' ≡ bares es
unfolding split_string
split_string-initializer es h =
    ap (split_from b',' []) (strip_marks-initializer es h)
    ∙ split_items (bares es) (bares-IsItem es h)
