-- ===== src/FlatSet.antt =====
-- include/policy/flat_set.hpp: the open-addressing set of 64-bit keys that holds the IMEI blocklist
-- and the roaming partners. Key 0 marks an empty slot. `none` is a probe that never ends, which a
-- full table would give.
pub mod Refines
mod Tests
use real_time_policy_authori.Common.{
  ℕ, zero, ◌+◌, ◌-◌, ◌*◌, ◌/◌, ◌%◌, ◌^◌, Bool, true, false, Option, none, some, List, [], ◌∷◌,
  length, get_or, set, replicate, ◌==◌, if◌then◌else◌, bit_and, bit_xor,
}
use real_time_policy_authori.Probe.Loop.{probe}
use real_time_policy_authori.Probe.Pow2.{double_until}

pub record FlatSet64 : Type 0 where
  pub slots : List ℕ
  pub mask : ℕ
  pub size : ℕ

abbrev pub no_slots : FlatSet64
no_slots = record { slots = []; mask = 0; size = 0 }

-- `slots_.assign(cap, 0)` and the mask
abbrev pub blank : ℕ → FlatSet64
blank cap = record { slots = replicate cap 0; mask = cap - 1; size = 0 }

-- `splitmix64`, on 64-bit words
unfoldable pub hash : ℕ → ℕ
hash x =
    let a = (x + 0x9E3779B97F4A7C15) % 2 ^ 64 in
    let b = bit_xor a (a / 2 ^ 30) * 0xBF58476D1CE4E5B9 % 2 ^ 64 in
    let c = bit_xor b (b / 2 ^ 27) * 0x94D049BB133111EB % 2 ^ 64 in bit_xor c (c / 2 ^ 31)

infixl 5 ◌>>=◌
abbrev pub ◌>>=◌ {ℓ κ} : {A : Type ℓ} {B : Type κ} → Option A → (A → Option B) → Option B
none >>= f = none
some a >>= f = f a

abbrev pub slot_at : FlatSet64 → ℕ → ℕ
slot_at s j = get_or s.slots j 0

-- the loop of `contains` and `insert`, with the whole table for fuel
unfoldable pub probe_slots : FlatSet64 → ℕ → Option ℕ
unfolding probe hash
probe_slots s key = probe (slot_at s) s.mask key (length s.slots) (bit_and (hash key) s.mask)

unfoldable pub insert : FlatSet64 → ℕ → Option FlatSet64
unfolding probe_slots
insert s key =
    if key == 0
    then some s
    else (probe_slots s key >>= λ i. some (
        if slot_at s i == key
        then s
        else record s { slots = set s.slots i key; size = s.size + 1 }))

unfoldable pub insert_all : FlatSet64 → List ℕ → Option FlatSet64
unfolding insert
insert_all s [] = some s
insert_all s (k ∷ keys) = insert s k >>= λ s'. insert_all s' keys

unfoldable pub rebuild : List ℕ → Option FlatSet64
unfolding insert_all double_until
rebuild [] = some no_slots
rebuild (k ∷ keys) =
    double_until 62 8 (length (k ∷ keys) * 2 % 2 ^ 64) >>= λ cap. insert_all (blank cap) (k ∷ keys)

unfoldable pub contains : FlatSet64 → ℕ → Option Bool
unfolding probe_slots
contains s key =
    if length s.slots == 0
    then some false
    else if key == 0
    then some false
    else (probe_slots s key >>= λ i. some (slot_at s i == key))
