-- ===== src/Compiler/Sound.antt =====
-- What the compiler keeps true of the rule set while it is made.
use real_time_policy_authori.Common.{
  ℕ, ◌^◌, ◌<◌, ◌≤◌, ◌≡◌, inl, inr, refl, sym, ap, subst, some, List, [], ◌∷◌, ◌++◌, length, arith,
  leb, Bool-cases, Option-cases,
}
use mathlib.Core.Option.{some-injective}
use real_time_policy_authori.FlatSet.{FlatSet64, rebuild}
use real_time_policy_authori.Rules.{Action, RuleSet, CompiledRule, PlanConfig, Text}
use real_time_policy_authori.Rules.Window.{TimeWindow}
use real_time_policy_authori.Rules.Interning.{HasRoom}
use real_time_policy_authori.Rules.Conditions.{
  Condition, flag, one_of, none_of, usage, time, Pairs, add_one_of, threshold_at, window_at,
  compile_condition, intern_usage_threshold, intern_time_window,
}
use real_time_policy_authori.Rules.Meaning.{bind_inv, tables_lem}
use real_time_policy_authori.Compiler.{Compiler, err, warn}
use real_time_policy_authori.Compiler.Outcomes.{IsQuiet}
use real_time_policy_authori.Compiler.Valid.{AreTargets, IsAction}

pub record IsRule (targets : ℕ) (r : CompiledRule) : Type 0 where
  pub numbered : (0 < r.id) × (r.id < 2 ^ 32)
  pub ranked : r.priority < 2 ^ 32
  pub action : IsAction targets r.action

abbrev pub AreRules : ℕ → List CompiledRule → Type 0
AreRules targets [] = Unit
AreRules targets (r ∷ rules) = IsRule targets r × AreRules targets rules

-- A set that `rebuild` made.
abbrev pub IsBuilt : FlatSet64 → Type 0
IsBuilt s = (keys : List ℕ) × (rebuild keys ≡ some s)

abbrev pub Room : List ℕ → ℕ → List TimeWindow → ℕ → Type 0
Room thresholds n windows k = (length thresholds ≡ 8) × (n ≤ 8) × (length windows ≡ 8) × (k ≤ 8)

abbrev pub HasPlans : List PlanConfig → ℕ → List Text → Type 0
HasPlans plans count names = (length plans ≡ 32) × (count ≡ length names) × (count ≤ 32)

-- The tables are within their bounds, the sets were built, and what refers to a target can be resolved.
pub record IsSound (rs : RuleSet) (redirect_ids : List (Text × ℕ)) : Type 0 where
  pub room :
      Room rs.usage_thresholds_permille rs.usage_threshold_count rs.time_windows
        rs.time_window_count
  pub plans : HasPlans rs.plans rs.plan_count rs.plan_names
  pub partners : IsBuilt rs.roaming_partners
  pub blocked : IsBuilt rs.imei_blocklist
  pub targets : AreTargets redirect_ids (length rs.redirect_targets)
  pub default_action : IsAction (length rs.redirect_targets) rs.default_action
  pub rules : AreRules (length rs.redirect_targets) rs.rules
  pub fit : length rs.rules ≤ 4096

abbrev pub Sound : Compiler → Type 0
Sound c = IsSound c.rs c.redirect_ids

pub Sound-quiet : IsQuiet Sound
unfolding err warn
Sound-quiet = record { on_err = λ c line h. h; on_warn = λ c w h. h }

pub IsAction-mono : {n m : ℕ} {a : Action} → n ≤ m → IsAction n a → IsAction m a
IsAction-mono le h = record { known = h.known; target = ground (arith, h.target); named = h.named }

pub AreRules-mono :
    {n m : ℕ} (rules : List CompiledRule) → n ≤ m → AreRules n rules → AreRules m rules
AreRules-mono [] le h = tt
AreRules-mono (r ∷ rules) le (h, hs) = (
  record { numbered = h.numbered; ranked = h.ranked; action = IsAction-mono le h.action },
  AreRules-mono rules le hs,
)

pub AreRules-append :
    (n : ℕ) (xs ys : List CompiledRule) → AreRules n xs → AreRules n ys → AreRules n (xs ++ ys)
AreRules-append n [] ys h k = k
AreRules-append n (x ∷ xs) ys (h, hs) k = (h, AreRules-append n xs ys hs k)

-- the tables of thresholds and windows, replaced
abbrev pub with_tables : RuleSet → List ℕ → ℕ → List TimeWindow → ℕ → RuleSet
with_tables rs thresholds n windows k = record rs {
  usage_thresholds_permille = thresholds;
  usage_threshold_count = n;
  time_windows = windows;
  time_window_count = k;
}

-- Only those tables differ.
abbrev IsOther : RuleSet → RuleSet → Type 0
IsOther rs rs' =
    (thresholds : List ℕ) × (n : ℕ) × (windows : List TimeWindow) × (k : ℕ) × (rs'
      ≡ with_tables rs thresholds n windows k)

IsOther-refl : (rs : RuleSet) → IsOther rs rs
IsOther-refl rs = (
  rs.usage_thresholds_permille, rs.usage_threshold_count, rs.time_windows, rs.time_window_count,
  refl,
)

threshold-IsOther :
    (rs : RuleSet) (p : ℕ) (out : ℕ × RuleSet)
    → intern_usage_threshold rs p ≡ some out
    → IsOther rs out.1
unfolding intern_usage_threshold
threshold-IsOther rs p out h = elim (Option-cases (threshold_at rs p)) [
  | inr (i, at) ↦
      subst (λ t. IsOther rs t.1) (some-injective _ _ (rw (intern_usage_threshold, at) at h))
        (IsOther-refl rs)
  | inl new ↦ elim (Bool-cases (leb 8 rs.usage_threshold_count)) [
    | inl full ↦ cc (rw (intern_usage_threshold, new, full) at h)
    | inr free ↦
        subst (λ t. IsOther rs t.1)
          (some-injective _ _ (rw (intern_usage_threshold, new, free) at h))
          (_, _, rs.time_windows, rs.time_window_count, refl)
  ]
]

window-IsOther :
    (rs : RuleSet) (s e : ℕ) (out : ℕ × RuleSet)
    → intern_time_window rs s e ≡ some out
    → IsOther rs out.1
unfolding intern_time_window
window-IsOther rs s e out h = elim (Option-cases (window_at rs s e)) [
  | inr (i, at) ↦
      subst (λ t. IsOther rs t.1) (some-injective _ _ (rw (intern_time_window, at) at h))
        (IsOther-refl rs)
  | inl new ↦ elim (Bool-cases (leb 8 rs.time_window_count)) [
    | inl full ↦ cc (rw (intern_time_window, new, full) at h)
    | inr free ↦
        subst (λ t. IsOther rs t.1) (some-injective _ _ (rw (intern_time_window, new, free) at h))
          (rs.usage_thresholds_permille, rs.usage_threshold_count, _, _, refl)
  ]
]

condition-IsOther :
    (rs : RuleSet) (ms : Pairs) (c : Condition) (out : RuleSet × Pairs)
    → compile_condition rs ms c ≡ some out
    → IsOther rs out.0
unfolding compile_condition
condition-IsOther rs ms (flag bit want) out h =
    subst (λ t. IsOther rs t.0) (some-injective _ _ h) (IsOther-refl rs)
condition-IsOther rs ms (one_of bits) out h =
    let (ms', at, e) = bind_inv (add_one_of ms bits) _ out h in
    subst (λ t. IsOther rs t.0) (some-injective _ _ e) (IsOther-refl rs)
condition-IsOther rs ms (none_of bits) out h =
    subst (λ t. IsOther rs t.0) (some-injective _ _ h) (IsOther-refl rs)
condition-IsOther rs ms (usage p above) out h =
    let (x, at, e) = bind_inv (intern_usage_threshold rs p) _ out h in
    subst (λ t. IsOther rs t.0) (some-injective _ _ e) (threshold-IsOther rs p x at)
condition-IsOther rs ms (time s t inside) out h =
    let (x, at, e) = bind_inv (intern_time_window rs s t) _ out h in
    subst (λ t. IsOther rs t.0) (some-injective _ _ e) (window-IsOther rs s t x at)

-- A condition keeps the rule set sound.
pub condition-IsSound :
    (rs : RuleSet) (ids : List (Text × ℕ)) (ms : Pairs) (c : Condition) (out : RuleSet × Pairs)
    → compile_condition rs ms c ≡ some out
    → IsSound rs ids
    → IsSound out.0 ids
condition-IsSound rs ids ms c out e h =
    let (thresholds, n, windows, k, same) = condition-IsOther rs ms c out e in
    let before : HasRoom rs = record {
      thresholds = h.room.0;
      windows = h.room.2;
      threshold_count = h.room.1;
      window_count = h.room.3;
    } in
    let after : HasRoom (with_tables rs thresholds n windows k) =
      subst HasRoom same (tables_lem rs ms c out before e).1 in
    subst (λ (t : RuleSet). IsSound t ids) (sym same)
      record {
        room = (after.thresholds, after.threshold_count, after.windows, after.window_count);
        plans = h.plans;
        partners = h.partners;
        blocked = h.blocked;
        targets = h.targets;
        default_action = h.default_action;
        rules = h.rules;
        fit = h.fit;
      }

-- A condition leaves the targets alone.
pub condition_targets :
    (rs : RuleSet) (ms : Pairs) (c : Condition) (out : RuleSet × Pairs)
    → compile_condition rs ms c ≡ some out
    → out.0.redirect_targets ≡ rs.redirect_targets
condition_targets rs ms c out e =
    ap (λ (t : RuleSet). t.redirect_targets) (condition-IsOther rs ms c out e).4
