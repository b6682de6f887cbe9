-- ===== src/ServerContexts/Pool.antt =====
-- What ServerContexts promises: a pool of contexts and, for each, how often it is in use. The list of the
-- program implements it.
use nfs_client_simulator.Common.{
  ℕ, zero, suc, ◌-◌, ◌^◌, ◌≡◌, refl, sym, ap, ◌∙◌, List, [], ◌∷◌, ◌++◌, Option, none, some, Outcome,
  ok, aborted, fault, blocked, ◌>>=◌, ◌==◌, if◌then◌else◌, ◌⊎◌, Option-cases, Bool-cases, inl, inr,
  length,
}
use nfs_client_simulator.Common.Int.{ℤ, pos, negsuc}
use nfs_client_simulator.Context.{Context}
use nfs_client_simulator.ServerContexts.{
  ServerContexts, add_context, at_index, bump, take_one, give_one, get_context, put_context,
}
use nfs_client_simulator.ServerContexts.Counts.{Use, add, get, put}

pub record Pool : Type 0 where
  pub contexts : List Context
  pub in_use : ℕ → ℕ

abbrev pub update : (ℕ → ℕ) → ℕ → ℕ → ℕ → ℕ
update h zero v zero = v
update h zero v (suc j) = h (suc j)
update h (suc i) v zero = h zero
update h (suc i) v (suc j) = update (λ k. h (suc k)) i v j

abbrev pub nth : List Context → ℕ → Option Context
nth [] i = none
nth (c ∷ cs) zero = some c
nth (c ∷ cs) (suc i) = nth cs i

-- The operations of the pool. A context that is added is not in use; one that is not there cannot be
-- taken, nor can one be given back that is not in use.
unfoldable pub pool_add : Pool → Context → Pool
pool_add p c = record {
  contexts = p.contexts ++ c ∷ [];
  in_use = update p.in_use (length p.contexts) 0;
}

unfoldable pub pool_get : Pool → ℕ → Outcome (Context × Pool)
pool_get p i = elim (nth p.contexts i) [
  | none ↦ aborted
  | some c ↦
      if p.in_use i == 2 ^ 31 - 1
      then fault
      else ok (c, record p { in_use = update p.in_use i (suc (p.in_use i)) })
]

unfoldable pub pool_put : Pool → ℕ → Outcome Pool
pool_put p i = elim (nth p.contexts i) [
  | none ↦ aborted
  | some c ↦ elim (p.in_use i) [
    | zero ↦ aborted
    | suc n ↦ ok (record p { in_use = update p.in_use i n })
  ]
]

-- With a negative index there is nothing to take or to give back.
abbrev pub pool_take : Pool → ℤ → Outcome (Context × Pool)
pool_take p (pos i) = pool_get p i
pool_take p (negsuc i) = aborted

abbrev pub pool_give : Pool → ℤ → Outcome Pool
pool_give p (pos i) = pool_put p i
pool_give p (negsuc i) = aborted

-- A sequence of calls: the contexts that they return, and the state after them.
unfoldable pub run_pool : Pool → List Use → Outcome (List Context × Pool)
run_pool p [] = ok ([], p)
run_pool p (add c ∷ us) = run_pool (pool_add p c) us
run_pool p (get i ∷ us) = do (c, p') ← pool_take p i; (cs, p'') ← run_pool p' us; ok (c ∷ cs, p'')
run_pool p (put i ∷ us) = do p' ← pool_give p i; run_pool p' us

unfoldable pub run_contexts : ServerContexts → List Use → Outcome (List Context × ServerContexts)
run_contexts ss [] = ok ([], ss)
run_contexts ss (add c ∷ us) = run_contexts (add_context ss c) us
run_contexts ss (get i ∷ us) = do
  (c, ss') ← get_context ss i
  (cs, ss'') ← run_contexts ss' us
  ok (c ∷ cs, ss'')
run_contexts ss (put i ∷ us) = do (_, ss') ← put_context ss i; run_contexts ss' us

-- The list that implements a pool.
abbrev pub holds : List Context → (ℕ → ℕ) → ServerContexts
holds [] h = []
holds (c ∷ cs) h = record { context = c; usage_count = pos (h zero) } ∷ holds cs (λ k. h (suc k))

abbrev pub represent : Pool → ServerContexts
represent p = holds p.contexts p.in_use

holds-snoc :
    (cs : List Context) (h : ℕ → ℕ) (c : Context)
    → holds (cs ++ c ∷ []) (update h (length cs) 0)
      ≡ holds cs h ++ record { context = c; usage_count = pos 0 } ∷ []
holds-snoc [] h c = refl
holds-snoc (d ∷ cs) h c =
    ap (λ t. record { context = d; usage_count = pos (h zero) } ∷ t)
      (holds-snoc cs (λ k. h (suc k)) c)

represent-add : (p : Pool) (c : Context) → add_context (represent p) c ≡ represent (pool_add p c)
unfolding add_context pool_add
represent-add p c = sym (holds-snoc p.contexts p.in_use c)

at_index-take :
    (cs : List Context) (h : ℕ → ℕ) (i : ℕ)
    → at_index (holds cs h) i take_one
      ≡ (pool_get (record { contexts = cs; in_use = h }) i >>= λ r. ok (r.0, represent r.1))
unfolding at_index take_one bump pool_get
at_index-take [] h i = refl
at_index-take (c ∷ cs) h zero = elim (Bool-cases (h zero == 2 ^ 31 - 1)) [
  | inl e ↦ rw (e, bump) refl
  | inr e ↦ rw (e, bump) refl
]
at_index-take (c ∷ cs) h (suc i) =
    rw (at_index-take cs (λ k. h (suc k)) i) (elim (Option-cases (nth cs i)) [
      | inl e ↦ rw (pool_get, e) refl
      | inr (d, e) ↦ elim (Bool-cases (h (suc i) == 2 ^ 31 - 1)) [
        | inl b ↦ rw (pool_get, e, b) refl
        | inr b ↦ rw (pool_get, e, b) refl
      ]
    ])

ℕ-cases : (n : ℕ) → (n ≡ 0) ⊎ ((m : ℕ) × (n ≡ suc m))
ℕ-cases zero = inl refl
ℕ-cases (suc m) = inr (m, refl)

at_index-give :
    (cs : List Context) (h : ℕ → ℕ) (i : ℕ)
    → at_index (holds cs h) i give_one
      ≡ (pool_put (record { contexts = cs; in_use = h }) i >>= λ p. ok (tt, represent p))
unfolding at_index give_one pool_put
at_index-give [] h i = refl
at_index-give (c ∷ cs) h zero = elim (ℕ-cases (h zero)) [
  | inl e ↦ rw e refl
  | inr (n, e) ↦ rw e refl
]
at_index-give (c ∷ cs) h (suc i) =
    rw (at_index-give cs (λ k. h (suc k)) i) (elim (Option-cases (nth cs i)) [
      | inl e ↦ rw (pool_put, e) refl
      | inr (d, e) ↦ elim (ℕ-cases (h (suc i))) [
        | inl b ↦ rw (pool_put, e, b) refl
        | inr (n, b) ↦ rw (pool_put, e, b) refl
      ]
    ])

-- A run of the pool, seen through the lists that implement its states.
abbrev seen : Outcome (List Context × Pool) → Outcome (List Context × ServerContexts)
seen m = m >>= λ r. ok (r.0, represent r.1)

cons_seen :
    (c : Context) (m : Outcome (List Context × Pool))
    → (seen m >>= λ r. ok (c ∷ r.0, r.1)) ≡ seen (m >>= λ r. ok (c ∷ r.0, r.1))
cons_seen c (ok r) = refl
cons_seen c aborted = refl
cons_seen c fault = refl
cons_seen c blocked = refl

abbrev seen_get : Context × Pool → Outcome (Context × ServerContexts)
seen_get r = ok (r.0, represent r.1)

abbrev seen_put : Pool → Outcome (Unit {0} × ServerContexts)
seen_put p = ok (tt, represent p)

after_get :
    (o : Outcome (Context × Pool)) (us : List Use)
    → ((p : Pool) → run_contexts (represent p) us ≡ seen (run_pool p us))
    → (o >>= seen_get >>= λ r. run_contexts r.1 us >>= λ s. ok (r.0 ∷ s.0, s.1))
      ≡ seen (o >>= λ r. run_pool r.1 us >>= λ s. ok (r.0 ∷ s.0, s.1))
after_get (ok (c, p)) us h =
    ap (λ m. m >>= λ s. ok (c ∷ s.0, s.1)) (h p) ∙ cons_seen c (run_pool p us)
after_get aborted us h = refl
after_get fault us h = refl
after_get blocked us h = refl

after_put :
    (o : Outcome Pool) (us : List Use)
    → ((p : Pool) → run_contexts (represent p) us ≡ seen (run_pool p us))
    → (o >>= seen_put >>= λ r. run_contexts r.1 us) ≡ seen (o >>= λ p. run_pool p us)
after_put (ok p) us h = h p
after_put aborted us h = refl
after_put fault us h = refl
after_put blocked us h = refl

-- Any sequence of addContext, getContext and putContext on the list that implements a pool returns what
-- the pool returns and ends in the list that implements the pool's state; it fails where, and in the way in
-- which, the pool fails.
pub run_contexts-represent :
    (p : Pool) (us : List Use)
    → run_contexts (represent p) us ≡ (run_pool p us >>= λ r. ok (r.0, represent r.1))
unfolding run_contexts run_pool get_context put_context
run_contexts-represent p [] = refl
run_contexts-represent p (add c ∷ us) =
    rw (represent-add p c) (run_contexts-represent (pool_add p c) us)
run_contexts-represent p (get (pos i) ∷ us) =
    rw (at_index-take p.contexts p.in_use i)
      (after_get (pool_get p i) us λ p'. run_contexts-represent p' us)
run_contexts-represent p (get (negsuc i) ∷ us) = refl
run_contexts-represent p (put (negsuc i) ∷ us) = refl
run_contexts-represent p (put (pos i) ∷ us) =
    rw (at_index-give p.contexts p.in_use i)
      (after_put (pool_put p i) us λ p'. run_contexts-represent p' us)
