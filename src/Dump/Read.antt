-- ===== src/Dump/Read.antt =====
-- The bytes can be read back from what is printed of them.
use nfs_client_simulator.Common.{
  All, ℕ, suc, ◌+◌, ◌/◌, ◌%◌, ◌≤◌, ◌<◌, ◌≡◌, refl, ap, ap₂, ◌∙◌, List, [], ◌∷◌, ◌++◌, append_assoc,
  true, false, ok, ◌>>=◌, ◌==◌, ==_iff, le→leb, drop-drop, sym, append-nil, arith, length, drop,
}
use nfs_client_simulator.Common.Bits.{all_below, all_below→true}
use nfs_client_simulator.Text.{hex_byte, hex_digit, scan}
use nfs_client_simulator.Logging.{Place, debug_log, critical, text}
use nfs_client_simulator.Logging.Lines.{debug_log_lem}
use nfs_client_simulator.DescriptiveEnum.{split_from, split_string}
use nfs_client_simulator.Xdr.{Buffer, load}
use nfs_client_simulator.Xdr.Decode.{load-drop}
use nfs_client_simulator.Dump.{dump, print_handle, dump_loop, mem_dump_impl}

-- The numbers that a text spells in hexadecimal, between spaces.
abbrev pub numbers : List (List ℕ) → List ℕ
numbers [] = []
numbers (t ∷ ts) = scan 16 0 t ∷ numbers ts

hex_table : all_below 256 (λ b. scan 16 0 (hex_byte b) == b) ≡ true
unfolding all_below scan
hex_table = refl

scan-hex_byte : (b : ℕ) → b < 256 → scan 16 0 (hex_byte b) ≡ b
scan-hex_byte b h = (==_iff _ _).0 (all_below→true 256 _ b hex_table h)

no_space : (n : ℕ) → n < 16 → (hex_digit n == b' ') ≡ false
no_space n h = ground arith

split-dump :
    (b : ℕ) (bytes : List ℕ)
    → b < 256
    → split_string (dump (b ∷ bytes)) b' ' ≡ hex_byte b ∷ split_string (dump bytes) b' '
unfolding split_string split_from dump
split-dump b bytes h =
    rw (no_space (b / 16) (omega arith), split_from, no_space (b % 16) (omega arith)) refl

-- The elements of an array of uchar_t.
abbrev pub AreBytes : List ℕ → Type 0
AreBytes bytes = All (λ b. b < 256) bytes

numbers-dump : (bytes : List ℕ) → AreBytes bytes → numbers (split_string (dump bytes) b' ') ≡ bytes
unfolding split_string split_from dump
numbers-dump [] h = refl
numbers-dump (b ∷ bytes) h =
    rw (split-dump b bytes h.0, scan-hex_byte b h.0, numbers-dump bytes h.1) refl

dump_loop-dump :
    (dst : Buffer) (done : ℕ) (bytes rest : List ℕ)
    → drop done dst ≡ bytes ++ rest
    → dump_loop dst done (length bytes) ≡ ok (dump bytes)
unfolding dump_loop dump
dump_loop-dump dst done [] rest e = refl
dump_loop-dump dst done (b ∷ bytes) rest e =
    let here : done + 0 ≡ done = omega arith in
    let first : load dst done ≡ ok b =
      ap (load dst) (sym here)
      ∙ load-drop dst done 0
      ∙ ap (λ t. load t 0) e
      ∙ load_first b (bytes ++ rest) in
    let one : done + 1 ≡ suc done = omega arith in
    let next : drop (suc done) dst ≡ bytes ++ rest =
      ap (λ n. drop n dst) (sym one) ∙ sym (drop-drop done 1 dst) ∙ ap (drop 1) e in
    rw (first, dump_loop-dump dst (suc done) bytes rest next) refl
  where
    load_first : (b : ℕ) (bs : List ℕ) → load (b ∷ bs) 0 ≡ ok b
    load_first b bs = unfold load in refl

-- mem_dump_impl at a level of the log that shows CRITICAL: from the line that it prints of the first bytes of
-- an array one can read these bytes back, as hexadecimal numbers between spaces. printHandle prints such a
-- line of a handle, behind one with the comment.
pub mem_dump_impl-bytes :
    (global : ℕ) (first second : Place) (comment bytes rest : List ℕ)
    → global ≤ critical
    → AreBytes bytes
    → (line : List ℕ) × (mem_dump_impl global second (bytes ++ rest) (length bytes)
        ≡ ok (b' ' ∷ (line ++ b'\n' ∷ [])))
      × (print_handle global first second comment bytes
          ≡ b' ' ∷ (comment ++ b'\n' ∷ b' ' ∷ (line ++ b'\n' ∷ [])))
      × (numbers (split_string line b' ') ≡ bytes)
unfolding mem_dump_impl print_handle
mem_dump_impl-bytes global first second comment bytes rest h k = (
  dump bytes,
  ap (λ o. o >>= λ oss. ok (debug_log global second critical (text oss ∷ [])))
        (dump_loop-dump (bytes ++ rest) 0 bytes rest refl)
      ∙ ap ok (line_of second (dump bytes)),
  ap₂ (λ s t. s ++ t) (line_of first comment) (line_of second (dump bytes))
      ∙ ap (λ t. b' ' ∷ t) (append_assoc comment (b'\n' ∷ []) (b' ' ∷ (dump bytes ++ b'\n' ∷ []))),
  numbers-dump bytes k,
)
  where
    line_of :
        (at : Place) (t : List ℕ)
        → debug_log global at critical (text t ∷ []) ≡ b' ' ∷ (t ++ b'\n' ∷ [])
    line_of at t =
        (debug_log_lem global at critical (text t ∷ [])).0
        ∙ rw (le→leb global critical h) (ap (λ u. b' ' ∷ (u ++ b'\n' ∷ [])) (append-nil t))
