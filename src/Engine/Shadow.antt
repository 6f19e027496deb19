-- ===== src/Engine/Shadow.antt =====
-- A rule that the compiler warns of never decides: without it every request gets the same rule.
use real_time_policy_authori.Common.{
  ℕ, ◌^◌, ◌<◌, ◌≡◌, ◌≢◌, refl, sym, ap, inl, inr, ◌∙◌, true, false, none, some, List, [], ◌∷◌, ◌++◌,
  arith, ◌==◌, Bool-cases, Option-cases, bit_and,
}
use real_time_policy_authori.Common.Bits.{
  test_bit, bits_ext, test_bit-bit_and, test_bit-complement, test_bit-zero, high_bit,
}
use real_time_policy_authori.Rules.{CompiledRule}
use real_time_policy_authori.Rules.Order.{complement, shadows, shadow_of}
use real_time_policy_authori.Engine.{matches, first_hit}

-- a word that `b` matches shows `a` the bits it wants
masked_lem :
    (f bm bv am av : ℕ)
    → bit_and f bm ≡ bv
    → bit_and bm am ≡ am
    → bit_and bv am ≡ av
    → bit_and f am ≡ av
masked_lem f bm bv am av hb cover value = bits_ext _ _ (λ i. ground (
  arith,
  ap (λ (n : ℕ). test_bit n i) hb,
  ap (λ (n : ℕ). test_bit n i) cover,
  ap (λ (n : ℕ). test_bit n i) value,
  test_bit-bit_and f bm i,
  test_bit-bit_and bm am i,
  test_bit-bit_and bv am i,
  test_bit-bit_and f am i,
))

-- plans of `b` that are all plans of `a`
subset_lem :
    (bp ap' pb : ℕ)
    → ap' < 2 ^ 32
    → bp < 2 ^ 32
    → bit_and bp (complement ap') ≡ 0
    → bit_and ap' pb ≡ 0
    → bit_and bp pb ≡ 0
subset_lem bp a pb ha hb sub none_of = bits_ext _ _ (λ i. ground (
  arith,
  ap (λ (n : ℕ). test_bit n i) sub,
  ap (λ (n : ℕ). test_bit n i) none_of,
  test_bit-bit_and bp (complement a) i,
  test_bit-complement 32 a i ha,
  test_bit-bit_and a pb i,
  test_bit-bit_and bp pb i,
  test_bit-zero i,
  high_bit 32 bp i hb,
))

shadows-matches :
    (a b : CompiledRule) (f pb : ℕ)
    → a.plan_mask < 2 ^ 32
    → b.plan_mask < 2 ^ 32
    → shadows a b ≡ true
    → matches b f pb ≡ true
    → matches a f pb ≡ true
unfolding shadows matches
shadows-matches a b f pb ha hb h hit =
    let masked =
      masked_lem f b.match_mask b.match_value a.match_mask a.match_value (ground arith)
        (ground arith) (ground arith) in
    elim (Bool-cases (a.plan_mask == 0)) [
      | inl every ↦ ground (arith, masked)
      | inr some_plans ↦
          let sub : bit_and b.plan_mask (complement a.plan_mask) ≡ 0 = ground arith in
          let at_b : bit_and b.plan_mask pb ≢ 0 = ground arith in
          let at_a : bit_and a.plan_mask pb ≢ 0 =
            λ z. at_b (subset_lem b.plan_mask a.plan_mask pb ha hb sub z) in
          ground (arith, masked, at_a)
    ]

-- 32-bit plan masks
abbrev pub HavePlanMasks : List CompiledRule → Type 0
HavePlanMasks [] = Unit
HavePlanMasks (r ∷ rules) = (r.plan_mask < 2 ^ 32) × HavePlanMasks rules

-- once a rule before `b` shadows it, what `b` matches has been found already
found_before :
    (earlier : List CompiledRule) (a b : CompiledRule) (f pb : ℕ)
    → HavePlanMasks earlier
    → b.plan_mask < 2 ^ 32
    → shadow_of earlier b ≡ some a
    → matches b f pb ≡ true
    → first_hit earlier f pb ≢ none
unfolding shadow_of first_hit
found_before [] a b f pb masks hb h hit = cc h
found_before (q ∷ earlier) a b f pb masks hb h hit = elim (Bool-cases (shadows q b)) [
  | inl here ↦ ground (arith, shadows-matches q b f pb masks.0 hb here hit)
  | inr later ↦
      let rest = found_before earlier a b f pb masks.1 hb (rw later at h) hit in
      ground (arith, rest)
]

first_hit-++ :
    (xs ys : List CompiledRule) (f pb : ℕ)
    → first_hit (xs ++ ys) f pb
      ≡ elim (first_hit xs f pb) [ some r ↦ some r | none ↦ first_hit ys f pb ]
unfolding first_hit
first_hit-++ [] ys f pb = refl
first_hit-++ (x ∷ xs) ys f pb = elim (Bool-cases (matches x f pb)) [
  | inl hit ↦ rw hit refl
  | inr miss ↦ rw miss (first_hit-++ xs ys f pb)
]

-- A rule that the compiler reports as shadowed by a rule before it can be deleted: for every feature
-- word and plan bit the scan finds the same rule with it as without it. Plan masks are 32-bit words.
pub shadow_of-first_hit :
    (earlier later : List CompiledRule) (a b : CompiledRule)
    → HavePlanMasks earlier
    → b.plan_mask < 2 ^ 32
    → shadow_of earlier b ≡ some a
    → (f pb : ℕ) → first_hit (earlier ++ b ∷ later) f pb ≡ first_hit (earlier ++ later) f pb
unfolding first_hit
shadow_of-first_hit earlier later a b masks hb h f pb =
    elim (Option-cases (first_hit earlier f pb)) [
      | inr (r, found) ↦
          first_hit-++ earlier (b ∷ later) f pb
          ∙ rw found (sym (first_hit-++ earlier later f pb ∙ rw found refl))
      | inl none_found ↦
          let miss : matches b f pb ≡ false = elim (Bool-cases (matches b f pb)) [
            | inl hit ↦ absurd (found_before earlier a b f pb masks hb h hit none_found)
            | inr m ↦ m
          ] in
          first_hit-++ earlier (b ∷ later) f pb
          ∙ rw (none_found, miss) (sym (first_hit-++ earlier later f pb ∙ rw none_found refl))
    ]
