-- ===== src/Arguments/Options.antt =====
-- What parseArgs makes of all options.
use nfs_client_simulator.Common.{
  ℕ, zero, suc, ◌+◌, ◌≡◌, refl, sym, ap, subst, ◌∙◌, List, [], ◌∷◌, ◌++◌, append_assoc, append-nil,
  Bool, true, false, ◌||◌, not, All, Option, none, some, ok, if◌then◌else◌, arith, length,
}
use nfs_client_simulator.Common.Int.{pos}
use nfs_client_simulator.Text.{atoi, decimal}
use nfs_client_simulator.Text.Decimal.{decimal_cons, atoi-decimal}
use nfs_client_simulator.Context.{make_context}
use nfs_client_simulator.ServerContexts.{ServerContexts, add_context}
use nfs_client_simulator.Arguments.{
  Parsing, add_server, read_server, parse_server, parse_option, parse_options, parse_args,
}
use nfs_client_simulator.Arguments.Servers.{
  Given, server, no_port, bad_port, other, option, NoZero, IsGiven, unused, servers, decimal-NoZero,
  parse_server-behind, parse_server-alone, parse_server-comma,
}

-- What one option changes.
abbrev parsed : ℕ → Parsing → Given → Parsing
parsed garbage p (server host port) = add_server garbage p host (pos port)
parsed garbage p (no_port host) = p
parsed garbage p (bad_port host text) = p
parsed garbage p (other opt optarg) = p

parse_option-parsed :
    (garbage : ℕ) (p : Parsing) (g : Given)
    → IsGiven g
    → parse_option garbage p (option g) ≡ ok (parsed garbage p g)
unfolding parse_option read_server
parse_option-parsed garbage p (server host (suc port)) (h, low, high) =
    let (c, cs, e) = decimal_cons (suc port) in
    let no_zero : NoZero (decimal (suc port)) = decimal-NoZero (suc port) in
    let number : atoi (decimal (suc port)) ≡ ok (pos (suc port)) =
      ap atoi (sym (append-nil (decimal (suc port)))) ∙ atoi-decimal (suc port) [] high tt in
    ap (λ t. parse_server garbage p (host ++ b',' ∷ t)) e
    ∙ parse_server-behind garbage p host c cs h (subst NoZero e no_zero)
    ∙ ap (read_server garbage p host) (sym e)
    ∙ rw (number, read_server) refl
parse_option-parsed garbage p (server host zero) (h, low, high) = absurd (omega arith)
parse_option-parsed garbage p (no_port host) h = parse_server-alone garbage p host h
parse_option-parsed garbage p (bad_port host []) h = parse_server-comma garbage p host h.0
parse_option-parsed garbage p (bad_port host (c ∷ cs)) (h, k, (z, e, n)) =
    parse_server-behind garbage p host c cs h k ∙ rw (e, read_server, n) refl
parse_option-parsed garbage p (other opt optarg) h = rw h refl

abbrev parsed_all : ℕ → Parsing → List Given → Parsing
parsed_all garbage p [] = p
parsed_all garbage p (g ∷ gs) = parsed_all garbage (parsed garbage p g) gs

abbrev pub options : List Given → List (ℕ × List ℕ)
options [] = []
options (g ∷ gs) = option g ∷ options gs

parse_options-parsed_all :
    (garbage : ℕ) (p : Parsing) (gs : List Given)
    → All IsGiven gs
    → parse_options garbage p (options gs) ≡ ok (parsed_all garbage p gs)
unfolding parse_options
parse_options-parsed_all garbage p [] h = refl
parse_options-parsed_all garbage p (g ∷ gs) h =
    rw (parse_option-parsed garbage p g h.0)
      (parse_options-parsed_all garbage (parsed garbage p g) gs h.1)

abbrev pub is_empty {ℓ} : {A : Type ℓ} → List A → Bool
is_empty [] = true
is_empty (x ∷ xs) = false

or_false : (b : Bool) → (b || false) ≡ b
or_false true = refl
or_false false = refl

or_true : (b : Bool) → (b || true) ≡ true
or_true true = refl
or_true false = refl

-- The variables after all options.
abbrev ends : Parsing → ServerContexts → Parsing
ends p ss = record {
  s_contexts = p.s_contexts ++ ss;
  num_servers = p.num_servers + length ss;
  opt_correct = p.opt_correct || not (is_empty ss);
}

parsed_all-ends :
    (garbage : ℕ) (p : Parsing) (gs : List Given)
    → parsed_all garbage p gs ≡ ends p (servers garbage gs)
unfolding add_server add_context
parsed_all-ends garbage p [] =
    let number : p.num_servers + 0 ≡ p.num_servers = omega arith in
    let correct : (p.opt_correct || false) ≡ p.opt_correct = or_false p.opt_correct in
    rw (append-nil p.s_contexts, number, correct) refl
parsed_all-ends garbage p (server host port ∷ gs) =
    let c = unused (make_context host (pos port) garbage) in
    let ss = servers garbage gs in
    let number : suc p.num_servers + length ss ≡ p.num_servers + suc (length ss) = omega arith in
    let correct : (p.opt_correct || true) ≡ true = or_true p.opt_correct in
    parsed_all-ends garbage (add_server garbage p host (pos port)) gs
    ∙ rw (append_assoc p.s_contexts (c ∷ []) ss, number, correct) refl
parsed_all-ends garbage p (no_port host ∷ gs) = parsed_all-ends garbage p gs
parsed_all-ends garbage p (bad_port host text ∷ gs) = parsed_all-ends garbage p gs
parsed_all-ends garbage p (other opt optarg ∷ gs) = parsed_all-ends garbage p gs

-- The servers named, or nothing if there are none.
abbrev pub found : ServerContexts → Option (ℕ × ServerContexts)
found [] = none
found (s ∷ ss) = some (length (s ∷ ss), s ∷ ss)

found_lem :
    (ss : ServerContexts) → (if not (is_empty ss) then some (length ss, ss) else none) ≡ found ss
found_lem [] = refl
found_lem (s ∷ ss) = refl

-- Take any options in which a host is not empty and has no comma, a port is positive and below 2^31,
-- and what is no port is a text that atoi reads as no positive number. parseArgs on an empty list of
-- contexts ignores the options that are not `-s host,port`, and yields one unused context for each of
-- the others, in their order, with their number; if there is none it exits.
pub parse_args-options :
    (garbage : ℕ) (gs : List Given)
    → All IsGiven gs
    → parse_args garbage [] (options gs) ≡ ok (found (servers garbage gs))
unfolding parse_args
parse_args-options garbage gs h =
    let start : Parsing = record { s_contexts = []; num_servers = 0; opt_correct = false } in
    let all : parse_options garbage start (options gs) ≡ ok (ends start (servers garbage gs)) =
      parse_options-parsed_all garbage start gs h ∙ ap ok (parsed_all-ends garbage start gs) in
    let number : 0 + length (servers garbage gs) ≡ length (servers garbage gs) = omega arith in
    rw (all, number) (ap ok (found_lem (servers garbage gs)))
