-- ===== src/Utils/Random.antt =====
-- What getRandomNumber returns.
use nfs_client_simulator.Common.{ℕ, ◌+◌, ◌*◌, ◌%◌, ◌^◌, ◌<◌, ◌≡◌, ◌∙◌, bit_or, arith}
use nfs_client_simulator.Common.Bits.{or_shifted}
use nfs_client_simulator.Common.Bits.Mask.{and_mask}
use nfs_client_simulator.Utils.{get_random_number}

-- random() returns less than 2^31. Of the two numbers that getRandomNumber draws, the result is the second: the
-- mask removes the first, so that what is made as a number of 64 bits has 31.
pub get_random_number_lem :
    (first second : ℕ) → first < 2 ^ 31 → second < 2 ^ 31 → get_random_number first second ≡ second
unfolding get_random_number
get_random_number_lem first second h k =
    let fits : first * 2 ^ 32 % 2 ^ 64 ≡ first * 2 ^ 32 = omega arith in
    let sum : bit_or (first * 2 ^ 32) second ≡ first * 2 ^ 32 + second =
      or_shifted 32 first second (omega arith) in
    rw (fits, sum) (and_mask 32 (first * 2 ^ 32 + second) ∙ rest)
  where
    rest : (first * 2 ^ 32 + second) % 2 ^ 32 ≡ second
    rest = omega arith
