-- ===== src/Runs/Transactions.antt =====
-- The transactions of a run.
use nfs_client_simulator.Common.{
  ℕ, suc, ◌+◌, ◌*◌, ◌%◌, ◌^◌, ◌≤◌, ◌<◌, ◌≡◌, ◌≢◌, sym, ap, subst, List, [], ◌∷◌, All, length, arith,
}
use nfs_client_simulator.Call.{World}
use nfs_client_simulator.Runs.{Run, start, called, mount_port_told, nfs_port_told}
use nfs_client_simulator.Runs.Calls.{Call-Advanced}
use nfs_client_simulator.Runs.Sockets.{Owns, Owns-IsKept}

-- The counter is some steps behind a transaction, but no more than there are numbers of 32 bits.
abbrev IsPast : ℕ → ℕ → ℕ → Type 0
IsPast most counter xid = (j : ℕ) × (1 ≤ j) × (j ≤ most) × (counter % 2 ^ 32 ≡ (xid + j) % 2 ^ 32)

All-later :
    (xids : List ℕ) (most counter count : ℕ) {counter' : ℕ}
    → count ≤ 2
    → counter' ≡ (counter + count) % 2 ^ 64
    → All (IsPast most counter) xids
    → All (IsPast (most + 2) counter') xids
All-later [] most counter count few e h = tt
All-later (x ∷ xids) most counter count few e ((j, some_steps, few_steps, here), rest) = (
  (j + count, omega arith, omega arith, omega arith),
  All-later xids most counter count few e rest,
)

-- Every transaction of a run is behind the counter at its end.
Run-IsPast :
    (w w' : World) (xids : List ℕ)
    → Run w xids w'
    → All (IsPast (2 * length xids) w'.sequential) xids
Run-IsPast _ _ _ (start w) = tt
Run-IsPast _ _ _ (called w w₁ w' xids xids' r c e) =
    let a = Call-Advanced Owns Owns-IsKept w₁ w' c in
    let size : 2 * length xids + 2 ≡ 2 * suc (length xids) = omega arith in
    subst (λ l. All (IsPast (2 * length l) w'.sequential) l) (sym e)
      (
        (
          a.count,
          a.some_taken,
          (let f = a.few_taken in omega arith),
          (let f = a.counted in omega arith),
        ),
        subst (λ m. All (IsPast m w'.sequential) xids) size
            (All-later xids (2 * length xids) w₁.sequential a.count a.few_taken a.counted
              (Run-IsPast w w₁ xids r)),
      )
Run-IsPast _ _ _ (mount_port_told w w₁ xids port r) = Run-IsPast w w₁ xids r
Run-IsPast _ _ _ (nfs_port_told w w₁ xids port r) = Run-IsPast w w₁ xids r

All-new :
    (xids : List ℕ) (most counter : ℕ)
    → most < 2 ^ 32
    → All (IsPast most counter) xids
    → All (λ x. counter % 2 ^ 32 ≢ x) xids
All-new [] most counter h p = tt
All-new (x ∷ xids) most counter h ((j, some_steps, few_steps, here), rest) =
    (λ e. omega arith, All-new xids most counter h rest)

-- No two are equal.
abbrev pub Distinct : List ℕ → Type 0
Distinct [] = Unit {0}
Distinct (x ∷ xs) = All (λ y. x ≢ y) xs × Distinct xs

-- In a run of fewer than 2 ^ 31 calls no two have the same transaction, and a further one would have yet another,
-- wherever the counter starts.
pub Run-Distinct :
    (w w' : World) (xids : List ℕ)
    → length xids < 2 ^ 31
    → Run w xids w'
    → Distinct ((w'.sequential % 2 ^ 32) ∷ xids)
Run-Distinct _ _ _ few (start w) = (tt, tt)
Run-Distinct _ _ _ few (called w w₁ w' xids xids' r c e) = (
  All-new xids' (2 * length xids') w'.sequential (omega arith)
      (Run-IsPast w w' xids' (called w w₁ w' xids xids' r c e)),
  subst Distinct (sym e) (Run-Distinct w w₁ xids (omega (arith, ap length e)) r),
)
Run-Distinct _ _ _ few (mount_port_told w w₁ xids port r) = Run-Distinct w w₁ xids few r
Run-Distinct _ _ _ few (nfs_port_told w w₁ xids port r) = Run-Distinct w w₁ xids few r
