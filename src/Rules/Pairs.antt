-- ===== src/Rules/Pairs.antt =====
-- What a table of (mask, value) pairs tests, and that each way of adding a condition adds exactly
-- that test.
use real_time_policy_authori.Common.{
  ℕ, ◌^◌, ◌≡◌, refl, ap, ◌∙◌, inl, inr, Bool, true, false, not, ◌&&◌, ◌||◌, some, List, [], ◌∷◌,
  ◌++◌, arith, ◌==◌, ==_iff, if◌then◌else◌, bit_and, bit_or, Bool_ext, Bool-cases, subst,
}
use mathlib.Core.Option.{some-injective}
use real_time_policy_authori.Common.Bits.{
  test_bit, set_if, bits_ext, test_bit-bit_and, test_bit-bit_or, test_bit-pow, test_bit-set_if,
}
use real_time_policy_authori.Rules.Conditions.{
  Pairs, add_bit, one_each, expand, add_one_of, or_all, add_none_of,
}

-- some pair matches the word, by the test of the scan
unfoldable pub hits : Pairs → ℕ → Bool
hits [] f = false
hits ((mask, value) ∷ ms) f = bit_and f mask == value || hits ms f

-- `b` is what the condition wants
abbrev pub as_wanted : Bool → Bool → Bool
as_wanted want b = if want then b else not b

abbrev pub some_bit : ℕ → List ℕ → Bool
some_bit f [] = false
some_bit f (b ∷ bits) = test_bit f b || some_bit f bits

-- what a list of alternatives tests
abbrev pub is_empty_or : ℕ → List ℕ → Bool
is_empty_or f [] = true
is_empty_or f (b ∷ bits) = some_bit f (b ∷ bits)

module _ (pol : ℕ → Bool) where
  -- Every bit that the pair tests is wanted as `pol` says.
  abbrev pub IsPolar : ℕ → ℕ → Type 0
  IsPolar mask value = (i : ℕ) → test_bit value i ≡ (test_bit mask i && pol i)

  abbrev pub ArePolar : Pairs → Type 0
  ArePolar [] = Unit
  ArePolar ((mask, value) ∷ ms) = IsPolar mask value × ArePolar ms

  module _ (mask value b : ℕ) (polar : IsPolar mask value) where
    pub IsPolar-add : IsPolar (bit_or mask (2 ^ b)) (set_if (pol b) b value)
    IsPolar-add i = elim (Bool-cases (b == i)) [
      | inl e ↦
          let here : pol b ≡ pol i = ap pol (ground arith) in
          ground (
            arith,
            polar i,
            here,
            test_bit-set_if (pol b) b value i,
            test_bit-bit_or mask (2 ^ b) i,
            test_bit-pow b i,
          )
      | inr e ↦ ground (
        arith,
        polar i,
        test_bit-set_if (pol b) b value i,
        test_bit-bit_or mask (2 ^ b) i,
        test_bit-pow b i,
      )
    ]

    module _ (f : ℕ) where
      at_bit :
          bit_and f (bit_or mask (2 ^ b)) ≡ set_if (pol b) b value
          → (i : ℕ)
          → (test_bit f i && (test_bit mask i || b == i)) ≡ (test_bit value i || pol b && b == i)
      at_bit h i = ground (
        arith,
        ap (λ (n : ℕ). test_bit n i) h,
        test_bit-bit_and f (bit_or mask (2 ^ b)) i,
        test_bit-bit_or mask (2 ^ b) i,
        test_bit-pow b i,
        test_bit-set_if (pol b) b value i,
      )

      add_lem :
          bit_and f mask ≡ value
          → test_bit f b ≡ pol b
          → bit_and f (bit_or mask (2 ^ b)) ≡ set_if (pol b) b value
      add_lem h hb = bits_ext _ _ (λ i. elim (Bool-cases (b == i)) [
        | inl e ↦
            let here : test_bit f i ≡ pol b = ap (test_bit f) (ground arith) ∙ hb in
            ground (
              arith,
              here,
              ap (λ (n : ℕ). test_bit n i) h,
              test_bit-bit_and f mask i,
              test_bit-bit_and f (bit_or mask (2 ^ b)) i,
              test_bit-set_if (pol b) b value i,
              test_bit-bit_or mask (2 ^ b) i,
              test_bit-pow b i,
            )
        | inr e ↦ ground (
          arith,
          ap (λ (n : ℕ). test_bit n i) h,
          test_bit-bit_and f mask i,
          test_bit-bit_and f (bit_or mask (2 ^ b)) i,
          test_bit-set_if (pol b) b value i,
          test_bit-bit_or mask (2 ^ b) i,
          test_bit-pow b i,
        )
      ])

      without_lem :
          bit_and f (bit_or mask (2 ^ b)) ≡ set_if (pol b) b value → bit_and f mask ≡ value
      without_lem h = bits_ext _ _ (λ i. elim (Bool-cases (b == i)) [
        | inl e ↦
            let here : pol b ≡ pol i = ap pol (ground arith) in
            ground (arith, at_bit h i, here, polar i, test_bit-bit_and f mask i)
        | inr e ↦ ground (arith, at_bit h i, test_bit-bit_and f mask i)
      ])

      bit_lem : bit_and f (bit_or mask (2 ^ b)) ≡ set_if (pol b) b value → test_bit f b ≡ pol b
      bit_lem h = ground (arith, at_bit h b, polar b)

      pub hit_add :
          (bit_and f (bit_or mask (2 ^ b)) == set_if (pol b) b value)
          ≡ ((bit_and f mask == value) && as_wanted (pol b) (test_bit f b))
      hit_add =
          Bool_ext _ _
            (λ h.
              let e : bit_and f (bit_or mask (2 ^ b)) ≡ set_if (pol b) b value = (==_iff _ _).0 h in
              ground (arith, without_lem e, bit_lem e))
            (λ h. ground (arith, add_lem (ground arith) (ground arith)))

  pub ArePolar-add_bit : (ms : Pairs) (b : ℕ) → ArePolar ms → ArePolar (add_bit ms b (pol b))
  unfolding add_bit
  ArePolar-add_bit [] b h = tt
  ArePolar-add_bit ((mask, value) ∷ ms) b h =
      (IsPolar-add mask value b h.0, ArePolar-add_bit ms b h.1)

  -- A Boolean condition adds the test of its bit to every pair.
  pub hits-add_bit :
      (ms : Pairs) (b f : ℕ)
      → ArePolar ms
      → hits (add_bit ms b (pol b)) f ≡ (hits ms f && as_wanted (pol b) (test_bit f b))
  unfolding hits add_bit
  hits-add_bit [] b f h = refl
  hits-add_bit ((mask, value) ∷ ms) b f h =
      ground (arith, hit_add mask value b h.0 f, hits-add_bit ms b f h.1)

  hits-++ : (ms ns : Pairs) (f : ℕ) → hits (ms ++ ns) f ≡ (hits ms f || hits ns f)
  unfolding hits
  hits-++ [] ns f = refl
  hits-++ ((mask, value) ∷ ms) ns f = ground (arith, hits-++ ms ns f)

  ArePolar-++ : (ms ns : Pairs) → ArePolar ms → ArePolar ns → ArePolar (ms ++ ns)
  ArePolar-++ [] ns h k = k
  ArePolar-++ ((mask, value) ∷ ms) ns h k = (h.0, ArePolar-++ ms ns h.1 k)

  -- `pol` wants every bit of the list to be `b`
  abbrev pub AllWant : Bool → List ℕ → Type 0
  AllWant b [] = Unit
  AllWant b (bit ∷ bits) = (pol bit ≡ b) × AllWant b bits

  one_each_lem :
      (mask value : ℕ) (bits : List ℕ) (f : ℕ)
      → IsPolar mask value
      → AllWant true bits
      → (hits (one_each mask value bits) f ≡ (bit_and f mask == value && some_bit f bits))
        × ArePolar (one_each mask value bits)
  unfolding hits one_each
  one_each_lem mask value [] f h w = (ground arith, tt)
  one_each_lem mask value (b ∷ bits) f h w =
      let rest = one_each_lem mask value bits f h w.1 in
      let wanted : set_if (pol b) b value ≡ bit_or value (2 ^ b) = unfold set_if in rw w.0 refl in
      (
        ground (arith, rest.0, hit_add mask value b h f, wanted, w.0),
        (subst (IsPolar (bit_or mask (2 ^ b))) wanted (IsPolar-add mask value b h), rest.1),
      )

  expand_lem :
      (ms : Pairs) (bits : List ℕ) (f : ℕ)
      → ArePolar ms
      → AllWant true bits
      → (hits (expand ms bits) f ≡ (hits ms f && some_bit f bits)) × ArePolar (expand ms bits)
  unfolding hits expand
  expand_lem [] bits f h w = (refl, tt)
  expand_lem ((mask, value) ∷ ms) bits f h w =
      let here = one_each_lem mask value bits f h.0 w in
      let rest = expand_lem ms bits f h.1 w in
      (
        ground (arith, hits-++ (one_each mask value bits) (expand ms bits) f, here.0, rest.0),
        ArePolar-++ (one_each mask value bits) (expand ms bits) here.1 rest.1,
      )

  or_all_lem :
      (mask value : ℕ) (bits : List ℕ) (f : ℕ)
      → IsPolar mask value
      → AllWant false bits
      → ((bit_and f (or_all mask bits) == value)
          ≡ (bit_and f mask == value && not (some_bit f bits)))
        × IsPolar (or_all mask bits) value
  unfolding or_all
  or_all_lem mask value [] f h w = (ground arith, h)
  or_all_lem mask value (b ∷ bits) f h w =
      let wanted : set_if (pol b) b value ≡ value = unfold set_if in rw w.0 refl in
      let step : IsPolar (bit_or mask (2 ^ b)) value =
        subst (IsPolar (bit_or mask (2 ^ b))) wanted (IsPolar-add mask value b h) in
      let rest = or_all_lem (bit_or mask (2 ^ b)) value bits f step w.1 in
      (ground (arith, rest.0, hit_add mask value b h f, wanted, w.0), rest.1)

  pub none_of_lem :
      (ms : Pairs) (bits : List ℕ) (f : ℕ)
      → ArePolar ms
      → AllWant false bits
      → (hits (add_none_of ms bits) f ≡ (hits ms f && not (some_bit f bits)))
        × ArePolar (add_none_of ms bits)
  unfolding hits add_none_of
  none_of_lem [] bits f h w = (refl, tt)
  none_of_lem ((mask, value) ∷ ms) bits f h w =
      let here = or_all_lem mask value bits f h.0 w in
      let rest = none_of_lem ms bits f h.1 w in (ground (arith, here.0, rest.0), (here.1, rest.1))

  -- A list of alternatives adds the test that one of its bits is set, whatever the expansion; the
  -- empty list adds nothing.
  pub one_of_lem :
      (ms ms' : Pairs) (bits : List ℕ) (f : ℕ)
      → ArePolar ms
      → AllWant true bits
      → add_one_of ms bits ≡ some ms'
      → (hits ms' f ≡ (hits ms f && is_empty_or f bits)) × ArePolar ms'
  unfolding add_one_of
  one_of_lem ms ms' [] f h w e =
      subst (λ (t : Pairs). (hits t f ≡ (hits ms f && true)) × ArePolar t) (some-injective ms ms' e)
        (ground arith, h)
  one_of_lem ms ms' (b ∷ bits) f h w e =
      let same : expand ms (b ∷ bits) ≡ ms' = ground arith in
      subst (λ (t : Pairs). (hits t f ≡ (hits ms f && some_bit f (b ∷ bits))) × ArePolar t) same
        (expand_lem ms (b ∷ bits) f h w)
