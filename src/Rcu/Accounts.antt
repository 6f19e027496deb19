-- ===== src/Rcu/Accounts.antt =====
-- Every rule set that was replaced is freed once, or waits to be freed.
use real_time_policy_authori.Common.{
  ℕ, ◌+◌, ◌≡◌, subst, inl, inr, Bool, not, ◌&&◌, List, [], ◌∷◌, ◌++◌, arith, ◌==◌, ltb,
  if◌then◌else◌, Bool-cases,
}
use real_time_policy_authori.Rcu.{
  Writer, ready, exchanged, waiting, RcuDomain, keep, exchange_ptr, reclaim, park, Step, load_epoch,
  store_epoch, load_current, leave, exchange, move, pass, time_out, finish, Reachable, start, next,
}

-- how often `p` stands in the list
abbrev pub count : ℕ → List ℕ → ℕ
count p [] = 0
count p (q ∷ ps) = (if p == q then 1 else 0) + count p ps

-- the pointer that the writer has taken out and not yet put in a list
abbrev pub in_hand : ℕ → Writer → ℕ
in_hand p ready = 0
in_hand p (exchanged old) = if not (p == 0) && (p == old) then 1 else 0
in_hand p (waiting target old i) = if not (p == 0) && (p == old) then 1 else 0

abbrev pub was_replaced : RcuDomain → ℕ → Bool
was_replaced d p = not (p == 0) && ltb p d.current

abbrev pub Balances : RcuDomain → Type 0
Balances d =
    (p : ℕ)
    → count p d.retired + count p d.freed + in_hand p d.writer ≡ (if was_replaced d p then 1 else 0)

count-++ : (p : ℕ) (xs ys : List ℕ) → count p (xs ++ ys) ≡ count p xs + count p ys
count-++ p [] ys = omega arith
count-++ p (x ∷ xs) ys = omega (arith, count-++ p xs ys)

count-keep :
    (p old : ℕ) (xs : List ℕ)
    → count p (keep old xs) ≡ (if not (p == 0) && (p == old) then 1 else 0) + count p xs
count-keep p old xs = elim (Bool-cases (old == 0)) [
  | inl z ↦ rw z (ground arith)
  | inr nz ↦ rw nz (ground arith)
]

module _ (d : RcuDomain) (inv : Balances d) where
  -- the account, with the writer at `w`
  with_writer :
      {w : Writer}
      → d.writer ≡ w
      → (p : ℕ)
      → count p d.retired + count p d.freed + in_hand p w ≡ (if was_replaced d p then 1 else 0)
  with_writer h p =
      subst
        (λ w.
          count p d.retired + count p d.freed + in_hand p w ≡ (if was_replaced d p then 1 else 0))
        h (inv p)

  exchange_ptr-Balances : d.writer ≡ ready → Balances (exchange_ptr d)
  exchange_ptr-Balances h p = ground (arith, with_writer h p)

  park-Balances : (target old i : ℕ) → d.writer ≡ waiting target old i → Balances (park d old)
  park-Balances target old i h p = omega (arith, with_writer h p, count-keep p old d.retired)

  reclaim-Balances : (target old i : ℕ) → d.writer ≡ waiting target old i → Balances (reclaim d old)
  reclaim-Balances target old i h p = omega (
    arith,
    with_writer h p,
    count-keep p old (d.retired ++ d.freed),
    count-++ p d.retired d.freed,
  )

Step-Balances : {d d' : RcuDomain} → Step d d' → Balances d → Balances d'
Step-Balances (load_epoch d i lt h) inv = inv
Step-Balances (store_epoch d i e lt h) inv = inv
Step-Balances (load_current d i lt h) inv = inv
Step-Balances (leave d i p lt h) inv = inv
Step-Balances (exchange d h) inv = exchange_ptr-Balances d inv h
Step-Balances (move d old h) inv = λ p. with_writer d inv h p
Step-Balances (pass d target old i h lt q) inv = λ p. with_writer d inv h p
Step-Balances (time_out d target old i h lt) inv = park-Balances d inv target old i h
Step-Balances (finish d target old i h all) inv = reclaim-Balances d inv target old i h

-- In every reachable state each rule set that was replaced stands exactly once in the list of parked
-- pointers, the list of freed ones, or the writer's hand, and no other pointer does: nothing leaks and
-- nothing is freed twice.
pub Reachable-Balances : {d : RcuDomain} → Reachable d → Balances d
Reachable-Balances (start n) = λ p. ground arith
Reachable-Balances (next d d' r s) = Step-Balances s (Reachable-Balances r)
