-- ===== src/Rules/Meaning.antt =====
-- The pairs that `compile_when` makes match exactly the words that meet all of its conditions.
use real_time_policy_authori.Common.{
  ℕ, ◌+◌, ◌≡◌, refl, ap, sym, subst, ◌∙◌, Bool, true, false, not, ◌&&◌, Option, none, some, List,
  [], ◌∷◌, arith,
}
use mathlib.Core.Option.{some-injective}
use real_time_policy_authori.Common.Bits.{test_bit, test_bit-zero, bit_and-zero}
use real_time_policy_authori.FlatSet.{◌>>=◌}
use real_time_policy_authori.Rules.{RuleSet}
use real_time_policy_authori.Rules.Feat
use real_time_policy_authori.Rules.Conditions.{
  Condition, flag, one_of, none_of, usage, time, Pairs, threshold_at, window_at, add_bit,
  add_one_of, compile_condition, compile_when, intern_usage_threshold, intern_time_window,
}
use real_time_policy_authori.Rules.Pairs.{
  hits, as_wanted, some_bit, is_empty_or, ArePolar, AllWant, hits-add_bit, ArePolar-add_bit,
  one_of_lem, none_of_lem,
}
use real_time_policy_authori.Rules.Interning.{
  HasRoom, Extends, Extends-refl, Extends-trans, intern_usage_threshold_lem, intern_time_window_lem,
}

-- the bit of an interned entry
abbrev pub entry_bit : ℕ → ℕ → Option ℕ → Bool
entry_bit f base none = false
entry_bit f base (some i) = test_bit f (base + i)

-- What a condition asks of the feature word, where the tables are those of `rs`.
unfoldable pub meets : RuleSet → ℕ → Condition → Bool
meets rs f (flag bit want) = as_wanted want (test_bit f bit)
meets rs f (one_of bits) = is_empty_or f bits
meets rs f (none_of bits) = not (some_bit f bits)
meets rs f (usage p above) =
    as_wanted above (entry_bit f Feat.usage_threshold_base (threshold_at rs p))
meets rs f (time s e inside) =
    as_wanted inside (entry_bit f Feat.time_window_base (window_at rs s e))

unfoldable pub meets_all : RuleSet → ℕ → List Condition → Bool
meets_all rs f [] = true
meets_all rs f (c ∷ cs) = meets rs f c && meets_all rs f cs

-- the entry, where there is one, is wanted as `b`
abbrev pub EntryWants : (ℕ → Bool) → Bool → ℕ → Option ℕ → Type 0
EntryWants pol b base none = Unit
EntryWants pol b base (some i) = pol (base + i) ≡ b

-- No bit is wanted both set and clear: `pol` says how each is wanted.
abbrev pub IsConsistent : (ℕ → Bool) → RuleSet → Condition → Type 0
IsConsistent pol rs (flag bit want) = pol bit ≡ want
IsConsistent pol rs (one_of bits) = AllWant pol true bits
IsConsistent pol rs (none_of bits) = AllWant pol false bits
IsConsistent pol rs (usage p above) =
    EntryWants pol above Feat.usage_threshold_base (threshold_at rs p)
IsConsistent pol rs (time s e inside) =
    EntryWants pol inside Feat.time_window_base (window_at rs s e)

abbrev pub AreConsistent : (ℕ → Bool) → RuleSet → List Condition → Type 0
AreConsistent pol rs [] = Unit
AreConsistent pol rs (c ∷ cs) = IsConsistent pol rs c × AreConsistent pol rs cs

pub bind_inv :
    {A B : Type 0} (o : Option A) (g : A → Option B) (b : B)
    → (o >>= g) ≡ some b
    → (a : A) × (o ≡ some a) × (g a ≡ some b)
bind_inv none g b h = cc h
bind_inv (some a) g b h = (a, refl, h)

-- the tables after a step
abbrev pub Grown : RuleSet → RuleSet × Pairs → Type 0
Grown rs (rs', ms') = Extends rs rs' × HasRoom rs'

pub tables_lem :
    (rs : RuleSet) (ms : Pairs) (c : Condition) (out : RuleSet × Pairs)
    → HasRoom rs
    → compile_condition rs ms c ≡ some out
    → Grown rs out
unfolding compile_condition
tables_lem rs ms (flag bit want) out room h =
    subst (Grown rs) (some-injective _ _ h) (Extends-refl rs, room)
tables_lem rs ms (one_of bits) out room h =
    let (ms', at, e) = bind_inv (add_one_of ms bits) _ out h in
    subst (Grown rs) (some-injective _ _ e) (Extends-refl rs, room)
tables_lem rs ms (none_of bits) out room h =
    subst (Grown rs) (some-injective _ _ h) (Extends-refl rs, room)
tables_lem rs ms (usage p above) out room h =
    let (x, at, e) = bind_inv (intern_usage_threshold rs p) _ out h in
    let (i, eb, found, ext, room') = intern_usage_threshold_lem room p x at in
    subst (Grown rs) (some-injective _ _ e) (ext, room')
tables_lem rs ms (time s t inside) out room h =
    let (x, at, e) = bind_inv (intern_time_window rs s t) _ out h in
    let (i, eb, found, ext, room') = intern_time_window_lem room s t x at in
    subst (Grown rs) (some-injective _ _ e) (ext, room')

module _ (pol : ℕ → Bool) where
  -- the pairs after a step that adds the test `b`
  abbrev Adds : Pairs → ℕ → Bool → RuleSet × Pairs → Type 0
  Adds ms f b (rs', ms') = (hits ms' f ≡ (hits ms f && b)) × ArePolar pol ms'

  add_lem :
      (rs : RuleSet) (ms : Pairs) (bit f : ℕ) (want : Bool)
      → ArePolar pol ms
      → pol bit ≡ want
      → Adds ms f (as_wanted want (test_bit f bit)) (rs, add_bit ms bit want)
  add_lem rs ms bit f want polar w =
      subst (λ b. Adds ms f (as_wanted b (test_bit f bit)) (rs, add_bit ms bit b)) w
        (hits-add_bit pol ms bit f polar, ArePolar-add_bit pol ms bit polar)

  -- a step that adds the bit of an interned entry, read with the final tables
  entry_lem :
      (rs : RuleSet) (ms : Pairs) (f base i bit : ℕ) (want : Bool) (o : Option ℕ)
      → ArePolar pol ms
      → bit ≡ base + i
      → o ≡ some i
      → EntryWants pol want base o
      → Adds ms f (as_wanted want (entry_bit f base o)) (rs, add_bit ms bit want)
  entry_lem rs ms f base i bit want none polar eb eo w = cc eo
  entry_lem rs ms f base i bit want (some k) polar eb eo w =
      let same : base + k ≡ bit = ap (λ (t : ℕ). base + t) (some-injective k i eo) ∙ sym eb in
      subst (λ t. Adds ms f (as_wanted want (test_bit f t)) (rs, add_bit ms bit want)) (sym same)
        (add_lem rs ms bit f want polar (ap pol (sym same) ∙ w))

  step_lem :
      (rs : RuleSet) (ms : Pairs) (c : Condition) (out : RuleSet × Pairs) (last : RuleSet) (f : ℕ)
      → HasRoom rs
      → ArePolar pol ms
      → compile_condition rs ms c ≡ some out
      → Extends out.0 last
      → IsConsistent pol last c
      → Adds ms f (meets last f c) out
  unfolding compile_condition meets
  step_lem rs ms (flag bit want) out last f room polar h ext w =
      subst (Adds ms f _) (some-injective _ _ h) (add_lem rs ms bit f want polar w)
  step_lem rs ms (one_of bits) out last f room polar h ext w =
      let (ms', at, e) = bind_inv (add_one_of ms bits) _ out h in
      subst (Adds ms f _) (some-injective _ _ e) (one_of_lem pol ms ms' bits f polar w at)
  step_lem rs ms (none_of bits) out last f room polar h ext w =
      subst (Adds ms f _) (some-injective _ _ h) (none_of_lem pol ms bits f polar w)
  step_lem rs ms (usage p above) out last f room polar h ext w =
      let (x, at, e) = bind_inv (intern_usage_threshold rs p) _ out h in
      let (i, eb, found, ext1, room') = intern_usage_threshold_lem room p x at in
      let tables : out.0 ≡ x.1 = ap (λ (t : RuleSet × Pairs). t.0) (sym (some-injective _ _ e)) in
      subst (Adds ms f _) (some-injective _ _ e) (
        entry_lem x.1 ms f 48 i x.0 above (threshold_at last p) polar eb
          (ext.thresholds p i (subst (λ t. threshold_at t p ≡ some i) (sym tables) found)) w)
  step_lem rs ms (time s t inside) out last f room polar h ext w =
      let (x, at, e) = bind_inv (intern_time_window rs s t) _ out h in
      let (i, eb, found, ext1, room') = intern_time_window_lem room s t x at in
      let tables : out.0 ≡ x.1 = ap (λ (t : RuleSet × Pairs). t.0) (sym (some-injective _ _ e)) in
      subst (Adds ms f _) (some-injective _ _ e) (
        entry_lem x.1 ms f 40 i x.0 inside (window_at last s t) polar eb
          (ext.windows s t i (subst (λ q. window_at q s t ≡ some i) (sym tables) found)) w)

  tables_all :
      (rs : RuleSet) (ms : Pairs) (cs : List Condition) (out : RuleSet × Pairs)
      → HasRoom rs
      → compile_when rs ms cs ≡ some out
      → Grown rs out
  unfolding compile_when
  tables_all rs ms [] out room h = subst (Grown rs) (some-injective _ _ h) (Extends-refl rs, room)
  tables_all rs ms (c ∷ cs) out room h =
      let (x, at, e) = bind_inv (compile_condition rs ms c) _ out h in
      let (ext, room') = tables_lem rs ms c x room at in
      let (ext', room'') = tables_all x.0 x.1 cs out room' e in (Extends-trans ext ext', room'')

  all_lem :
      (rs : RuleSet) (ms : Pairs) (cs : List Condition) (out : RuleSet × Pairs) (f : ℕ)
      → HasRoom rs
      → ArePolar pol ms
      → compile_when rs ms cs ≡ some out
      → AreConsistent pol out.0 cs
      → hits out.1 f ≡ (hits ms f && meets_all out.0 f cs)
  unfolding compile_when meets_all
  all_lem rs ms [] out f room polar h w =
      subst (λ t. hits t.1 f ≡ (hits ms f && true)) (some-injective (rs, ms) out h) (ground arith)
  all_lem rs ms (c ∷ cs) out f room polar h w =
      let (x, at, e) = bind_inv (compile_condition rs ms c) _ out h in
      let (ext, room') = tables_lem rs ms c x room at in
      let (ext', room'') = tables_all x.0 x.1 cs out room' e in
      let (here, polar') = step_lem rs ms c x out.0 f room polar at ext' w.0 in
      ground (arith, here, all_lem x.0 x.1 cs out f room' polar' e w.1)

  -- Where the conditions of a rule do not want one bit both set and clear, the pairs that they are
  -- compiled to match exactly the words that meet every condition, read with the tables of the
  -- compiled rule set. Entries that the tables had stay where they were, and the tables stay within
  -- their eight places.
  pub compile_when-meets_all :
      (rs rs' : RuleSet) (ms : Pairs) (cs : List Condition)
      → HasRoom rs
      → compile_when rs ((0, 0) ∷ []) cs ≡ some (rs', ms)
      → AreConsistent pol rs' cs
      → ((f : ℕ) → hits ms f ≡ meets_all rs' f cs) × Extends rs rs' × HasRoom rs'
  unfolding hits
  compile_when-meets_all rs rs' ms cs room h w =
      let (ext, room') = tables_all rs ((0, 0) ∷ []) cs (rs', ms) room h in
      let polar : ArePolar pol ((0, 0) ∷ []) = ((λ i. rw (test_bit-zero i) refl), tt) in
      (
        (λ f.
            ground (arith, all_lem rs ((0, 0) ∷ []) cs (rs', ms) f room polar h w, bit_and-zero f)),
        ext,
        room',
      )
