-- ===== src/Arguments.antt =====
-- parseArgs of Utils.cpp. What getopt(argc, argv, "s:") returns until it returns -1 is an argument: each
-- option, and the bytes of optarg, which are not 0.
pub mod Servers
pub mod Options
use nfs_client_simulator.Common.{
  ℕ, zero, suc, ◌+◌, List, [], ◌∷◌, ◌++◌, Bool, true, false, Option, none, some, Outcome, ok, fault,
  ◌>>=◌, ltb, ◌==◌, if◌then◌else◌, length, take, drop,
}
use nfs_client_simulator.Common.Int.{ℤ, is_positive}
use nfs_client_simulator.Text.{atoi}
use nfs_client_simulator.Context.{make_context}
use nfs_client_simulator.ServerContexts.{ServerContexts, add_context}

-- strtok: how many delimiters stand in front, the token behind them, and the text with a 0 in place of
-- the delimiter that ends the token.
unfoldable pub leading : ℕ → List ℕ → ℕ
leading delimiter [] = 0
leading delimiter (c ∷ cs) =
    let rest = leading delimiter cs in if c == delimiter then suc rest else 0

unfoldable pub token : ℕ → List ℕ → List ℕ
token delimiter [] = []
token delimiter (c ∷ cs) = let rest = token delimiter cs in if c == delimiter then [] else c ∷ rest

unfoldable pub cut : ℕ → List ℕ → List ℕ
cut delimiter [] = []
cut delimiter (c ∷ cs) = let rest = cut delimiter cs in if c == delimiter then 0 ∷ cs else c ∷ rest

-- `none` is nullptr.
unfoldable pub strtok : List ℕ → ℕ → Option (List ℕ) × List ℕ
strtok text delimiter =
    let n = leading delimiter text in
    elim (drop n text) [
      | [] ↦ (none, text)
      | ◌∷◌ c cs ↦ (some (token delimiter (c ∷ cs)), take n text ++ cut delimiter (c ∷ cs))
    ]

-- The C string in an array.
unfoldable pub c_string : List ℕ → List ℕ
c_string [] = []
c_string (c ∷ cs) = let rest = c_string cs in if c == 0 then [] else c ∷ rest

-- The variables of parseArgs that outlive an option. There are less than 2^31 options, as argc is an int.
pub record Parsing : Type 0 where
  pub s_contexts : ServerContexts
  pub num_servers : ℕ
  pub opt_correct : Bool

-- The new server. `garbage` is what the constructor of Context leaves uninitialised.
unfoldable pub add_server : ℕ → Parsing → List ℕ → ℤ → Parsing
add_server garbage p server port = record {
  s_contexts = add_context p.s_contexts (make_context server port garbage);
  num_servers = suc p.num_servers;
  opt_correct = true;
}

-- The text behind the token, read as a port.
unfoldable pub read_server : ℕ → Parsing → List ℕ → List ℕ → Outcome Parsing
read_server garbage p server text = do
  port ← atoi text
  ok (if is_positive port then add_server garbage p server port else p)

-- What follows strtok. The text is looked for behind as many bytes of optarg as the token has.
unfoldable pub use_token : ℕ → Parsing → ℕ → Option (List ℕ) × List ℕ → Outcome Parsing
use_token garbage p str_size (none, array) = fault
use_token garbage p str_size (some server, array) =
    if ltb (length server + 1) str_size
    then read_server garbage p server (c_string (drop (length server + 1) array))
    else ok p

-- The case of `s`.
unfoldable pub parse_server : ℕ → Parsing → List ℕ → Outcome Parsing
parse_server garbage p optarg = use_token garbage p (length optarg) (strtok optarg b',')

unfoldable pub parse_option : ℕ → Parsing → ℕ × List ℕ → Outcome Parsing
parse_option garbage p (opt, optarg) = if opt == b's' then parse_server garbage p optarg else ok p

unfoldable pub parse_options : ℕ → Parsing → List (ℕ × List ℕ) → Outcome Parsing
parse_options garbage p [] = ok p
parse_options garbage p (option ∷ options) = do
  p' ← parse_option garbage p option
  parse_options garbage p' options

-- The number of servers, and the contexts; `none` if parseArgs has called exit(-1).
unfoldable pub parse_args :
    ℕ → ServerContexts → List (ℕ × List ℕ) → Outcome (Option (ℕ × ServerContexts))
parse_args garbage s_contexts options = do
  p ←
      parse_options garbage
        (record { s_contexts = s_contexts; num_servers = 0; opt_correct = false }) options
  ok (if p.opt_correct then some (p.num_servers, p.s_contexts) else none)
