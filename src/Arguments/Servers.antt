-- ===== src/Arguments/Servers.antt =====
-- Which servers the arguments name.
use nfs_client_simulator.Common.{
  ℕ, suc, ◌+◌, ◌^◌, ◌<◌, ◌≡◌, refl, ap, ap₂, ◌∙◌, List, [], ◌∷◌, ◌++◌, true, false, All, some, ok,
  ltb, ◌==◌, arith, length, drop, length-append,
}
use nfs_client_simulator.Common.Int.{ℤ, pos, is_positive}
use nfs_client_simulator.Text.{atoi, decimal}
use nfs_client_simulator.Text.Decimal.{decimal-IsDigit}
use nfs_client_simulator.Context.{Context, make_context}
use nfs_client_simulator.ServerContexts.{ServerContexts, ServerHold}
use nfs_client_simulator.Arguments.{
  leading, token, cut, strtok, c_string, Parsing, read_server, use_token, parse_server,
}

-- What may be given: `-s host,port`, `-s host` without a port, `-s host,text` with a text that is no
-- positive number, or something that getopt reports as another option.
pub data Given : Type 0 where
  server : List ℕ → ℕ → Given
  no_port : List ℕ → Given
  bad_port : List ℕ → List ℕ → Given
  other : ℕ → List ℕ → Given

-- As getopt reports it.
abbrev pub option : Given → ℕ × List ℕ
option (server host port) = (b's', host ++ b',' ∷ decimal port)
option (no_port host) = (b's', host)
option (bad_port host text) = (b's', host ++ b',' ∷ text)
option (other opt optarg) = (opt, optarg)

abbrev pub NoZero : List ℕ → Type 0
NoZero text = All (λ c. (c == 0) ≡ false) text

-- A host has a name without a comma.
abbrev pub IsHost : List ℕ → Type 0
IsHost [] = ⊥
IsHost (c ∷ cs) = All (λ c. (c == b',') ≡ false) (c ∷ cs)

abbrev pub IsGiven : Given → Type 0
IsGiven (server host port) = IsHost host × (0 < port) × (port < 2 ^ 31)
IsGiven (no_port host) = IsHost host
IsGiven (bad_port host text) =
    IsHost host × NoZero text × ((z : ℤ) × (atoi text ≡ ok z) × (is_positive z ≡ false))
IsGiven (other opt optarg) = (opt == b's') ≡ false

abbrev pub unused : Context → ServerHold
unused c = record { context = c; usage_count = pos 0 }

-- The servers among them, in their order.
abbrev pub servers : ℕ → List Given → ServerContexts
servers garbage [] = []
servers garbage (server host port ∷ gs) =
    unused (make_context host (pos port) garbage) ∷ servers garbage gs
servers garbage (no_port host ∷ gs) = servers garbage gs
servers garbage (bad_port host text ∷ gs) = servers garbage gs
servers garbage (other opt optarg ∷ gs) = servers garbage gs

All-map : {P Q : ℕ → Type 0} (text : List ℕ) → ((c : ℕ) → P c → Q c) → All P text → All Q text
All-map [] f h = h
All-map (c ∷ text) f h = (f c h.0, All-map text f h.1)

token-append :
    (host rest : List ℕ)
    → All (λ c. (c == b',') ≡ false) host
    → token b',' (host ++ b',' ∷ rest) ≡ host
unfolding token
token-append [] rest h = refl
token-append (c ∷ host) rest h = rw (h.0, token, token-append host rest h.1)

token_whole : (host : List ℕ) → All (λ c. (c == b',') ≡ false) host → token b',' host ≡ host
unfolding token
token_whole [] h = refl
token_whole (c ∷ host) h = rw (h.0, token, token_whole host h.1)

cut-append :
    (host rest : List ℕ)
    → All (λ c. (c == b',') ≡ false) host
    → cut b',' (host ++ b',' ∷ rest) ≡ host ++ 0 ∷ rest
unfolding cut
cut-append [] rest h = refl
cut-append (c ∷ host) rest h = rw (h.0, cut, cut-append host rest h.1)

pub decimal-NoZero : (n : ℕ) → NoZero (decimal n)
decimal-NoZero n = All-map (decimal n) (λ c d. ground arith) (decimal-IsDigit n)

c_string_all : (text : List ℕ) → NoZero text → c_string text ≡ text
unfolding c_string
c_string_all [] h = refl
c_string_all (c ∷ text) h = rw (h.0, c_string, c_string_all text h.1)

strtok_front :
    (c : ℕ) (cs : List ℕ)
    → (c == b',') ≡ false
    → strtok (c ∷ cs) b',' ≡ (some (token b',' (c ∷ cs)), cut b',' (c ∷ cs))
unfolding strtok leading
strtok_front c cs h =
    let first : leading b',' (c ∷ cs) ≡ 0 = rw (h, leading) refl in rw (strtok, first, first)

strtok-host :
    (host rest : List ℕ)
    → IsHost host
    → strtok (host ++ b',' ∷ rest) b',' ≡ (some host, host ++ 0 ∷ rest)
strtok-host [] rest h = absurd h
strtok-host (c ∷ cs) rest h =
    strtok_front c (cs ++ b',' ∷ rest) h.0
    ∙ ap₂ (λ t a. (some t, a)) (token-append (c ∷ cs) rest h) (cut-append (c ∷ cs) rest h)

drop_behind : (host rest : List ℕ) (c : ℕ) → drop (length host + 1) (host ++ c ∷ rest) ≡ rest
drop_behind [] rest c = refl
drop_behind (h ∷ host) rest c =
    let n : suc (length host) + 1 ≡ suc (length host + 1) = omega arith in
    rw n (drop_behind host rest c)

-- The case of a host with something behind its comma.
pub parse_server-behind :
    (garbage : ℕ) (p : Parsing) (host : List ℕ) (c : ℕ) (cs : List ℕ)
    → IsHost host
    → NoZero (c ∷ cs)
    → parse_server garbage p (host ++ b',' ∷ c ∷ cs) ≡ read_server garbage p host (c ∷ cs)
unfolding parse_server use_token
parse_server-behind garbage p host c cs h k =
    let size = length (host ++ b',' ∷ c ∷ cs) in
    let longer : ltb (length host + 1) size ≡ true =
      ground (arith, length-append host (b',' ∷ c ∷ cs)) in
    let text : c_string (drop (length host + 1) (host ++ 0 ∷ c ∷ cs)) ≡ c ∷ cs =
      ap c_string (drop_behind host (c ∷ cs) 0) ∙ c_string_all (c ∷ cs) k in
    ap (use_token garbage p size) (strtok-host host (c ∷ cs) h)
    ∙ rw (longer, use_token) (ap (read_server garbage p host) text)

pub parse_server-alone :
    (garbage : ℕ) (p : Parsing) (host : List ℕ) → IsHost host → parse_server garbage p host ≡ ok p
unfolding parse_server use_token
parse_server-alone garbage p [] h = absurd h
parse_server-alone garbage p (c ∷ cs) h =
    let short : ltb (length (c ∷ cs) + 1) (length (c ∷ cs)) ≡ false = ground arith in
    let all : strtok (c ∷ cs) b',' ≡ (some (c ∷ cs), cut b',' (c ∷ cs)) =
      strtok_front c cs h.0 ∙ ap (λ t. (some t, cut b',' (c ∷ cs))) (token_whole (c ∷ cs) h) in
    ap (use_token garbage p (length (c ∷ cs))) all ∙ rw (short, use_token) refl

pub parse_server-comma :
    (garbage : ℕ) (p : Parsing) (host : List ℕ)
    → IsHost host
    → parse_server garbage p (host ++ b',' ∷ []) ≡ ok p
unfolding parse_server use_token
parse_server-comma garbage p host h =
    let size = length (host ++ b',' ∷ []) in
    let short : ltb (length host + 1) size ≡ false =
      ground (arith, length-append host (b',' ∷ [])) in
    ap (use_token garbage p size) (strtok-host host [] h) ∙ rw (short, use_token) refl
