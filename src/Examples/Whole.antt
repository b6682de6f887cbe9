-- ===== src/Examples/Whole.antt =====
-- Arguments.
use nfs_client_simulator.Common.{◌≡◌, refl, List, [], ◌∷◌, some, ok, arith}
use nfs_client_simulator.Common.Int.{pos}
use nfs_client_simulator.Text.{codes, atoi, fit_int, scan}
use nfs_client_simulator.Context.{make_context}
use nfs_client_simulator.Arguments.{parse_args}
use nfs_client_simulator.Arguments.Servers.{Given, server, no_port, bad_port, other, unused}
use nfs_client_simulator.Arguments.Options.{options, parse_args-options}

-- -s a,111 -s b -s c,x -? -s d,2049
abbrev arguments : List Given
arguments =
    server (codes "a") 111
    ∷ no_port (codes "b")
    ∷ bad_port (codes "c") (codes "x")
    ∷ other b'?' []
    ∷ server (codes "d") 2049
    ∷ []

parse_args-options_example :
    parse_args 9 [] (options arguments)
    ≡ ok (
        some (
          2,
          unused (make_context (codes "a") (pos 111) 9)
              ∷ unused (make_context (codes "d") (pos 2049) 9)
              ∷ [],
        ))
unfolding atoi fit_int scan
parse_args-options_example = parse_args-options 9 arguments (
  ((refl, tt), omega arith, omega arith),
  (
    (refl, tt),
    (
      ((refl, tt), (refl, tt), (pos 0, refl, refl)),
      (refl, (((refl, tt), omega arith, omega arith), tt)),
    ),
  ),
)
