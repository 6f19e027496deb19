-- ===== src/Compiler/Entries.antt =====
-- The entries of the rule list, one by one.
use real_time_policy_authori.Common.{
  ℕ, ◌-◌, ◌^◌, bit_or, ◌<◌, ◌≤◌, ◌≡◌, ◌⊎◌, ◌∙◌, inl, inr, refl, ap, Bool, true, false, Option, none,
  some, List, [], ◌∷◌, length, arith, Bool-cases, Option-cases, memb,
}
use real_time_policy_authori.FlatSet.{◌>>=◌}
use real_time_policy_authori.Rules.{Action, Text}
use real_time_policy_authori.Rules.Conditions.{Pairs, compile_condition}
use real_time_policy_authori.Yaml.{
  Node, null, scalar, sequence, mapping, Items, no_item, item, Fields, no_field, field, line_of,
  scalar_of, find, Libc, as_uint,
}
use real_time_policy_authori.Compiler.{Compiler, Outcome, err, lookup_name}
use real_time_policy_authori.Compiler.Actions.{between}
use real_time_policy_authori.Compiler.When.{
  Reading, refused, reading, read_condition, compile_field, compile_fields, compile_when,
}
use real_time_policy_authori.Compiler.Loader.{
  add_plans, resolve, resolve_plan_mask, if_present, allow_action, rules_of, read_id, read_priority,
  read_rule_action, compile_rule,
}
use real_time_policy_authori.Compiler.Outcomes.{Holds, failed, done, IsQuiet, Holds-and_then}
use real_time_policy_authori.Compiler.Valid.{IsAction, parse_action-IsAction}
use real_time_policy_authori.Compiler.Sound.{AreRules, condition-IsSound, condition_targets}
use real_time_policy_authori.Compiler.Sets.{SoundAt, SoundAt-quiet, SoundAt-targets}

Reading-cases :
    {A : Type 0} (r : Reading A) → ((line : ℕ) × (r ≡ refused line)) ⊎ ((a : A) × (r ≡ reading a))
Reading-cases (refused line) = inl (line, refl)
Reading-cases (reading a) = inr (a, refl)

between_lem :
    (least greatest : ℕ) (o : Option ℕ) (v : ℕ)
    → between least greatest o ≡ some v
    → (least ≤ v) × (v ≤ greatest)
between_lem least greatest none v h = cc h
between_lem least greatest (some w) v h = ground arith

add_plans-keeps :
    {P : Compiler → Type 0}
    → IsQuiet P
    → (items : Items) (c : Compiler) (mask : ℕ) (ok : Bool) → P c
    → P (add_plans items c mask ok).0
unfolding add_plans
add_plans-keeps quiet no_item c mask ok p = p
add_plans-keeps {P = P} quiet (item v items) c mask ok p =
    elim (Option-cases (scalar_of v >>= lookup_name c.plan_ids)) [
      | inl e ↦
          rw (add_plans, e)
            (add_plans-keeps {P = P} quiet items (err c (line_of v)) mask false
              (quiet.on_err c (line_of v) p))
      | inr (id, e) ↦
          rw (add_plans, e) (add_plans-keeps {P = P} quiet items c (bit_or mask (2 ^ id)) ok p)
    ]

abbrev Anything : {A : Type 0} → A → Type 0
Anything a = Unit

module _ (n : ℕ) where
  resolve-keeps :
      (c : Compiler) (items : Items) → SoundAt n c → Holds (SoundAt n) Anything (resolve c items)
  resolve-keeps c items h = elim (Bool-cases (add_plans items c 0 true).2) [
    | inl e ↦ rw e (done (add_plans-keeps {P = SoundAt n} (SoundAt-quiet n) items c 0 true h) tt)
    | inr e ↦ rw e (failed (add_plans-keeps {P = SoundAt n} (SoundAt-quiet n) items c 0 true h))
  ]

  resolve_plan_mask-keeps :
      (c : Compiler) (v : Node) → SoundAt n c → Holds (SoundAt n) Anything (resolve_plan_mask c v)
  unfolding resolve_plan_mask
  resolve_plan_mask-keeps c (scalar line text) h =
      resolve-keeps c (item (scalar line text) no_item) h
  resolve_plan_mask-keeps c (sequence line items) h = resolve-keeps c items h
  resolve_plan_mask-keeps c (null line) h = failed ((SoundAt-quiet n).on_err c line h)
  resolve_plan_mask-keeps c (mapping line fields) h = failed ((SoundAt-quiet n).on_err c line h)

  if_present-keeps :
      {A : Type 0} (o : Option Node) (dflt : A) (f : Compiler → Node → Outcome A) (c : Compiler)
      → SoundAt n c
      → ((v : Node) → Holds (SoundAt n) Anything (f c v))
      → Holds (SoundAt n) Anything (if_present o dflt f c)
  if_present-keeps none dflt f c h k = done h tt
  if_present-keeps (some v) dflt f c h k = k v

  rules_of-AreRules :
      (id priority mask : ℕ) (a : Action) (ms : Pairs)
      → (0 < id) × (id < 2 ^ 32)
      → priority < 2 ^ 32
      → IsAction n a
      → AreRules n (rules_of id priority mask a ms)
  unfolding rules_of
  rules_of-AreRules id priority mask a [] i p q = tt
  rules_of-AreRules id priority mask a (m ∷ ms) i p q = (
    record { numbered = i; ranked = p; action = q },
    rules_of-AreRules id priority mask a ms i p q,
  )

  module _ {D : Type 0} (lib : Libc D) where
    compile_field-keeps :
        (c : Compiler) (ms : Pairs) (key : Text) (v : Node)
        → SoundAt n c
        → Holds (SoundAt n) Anything (compile_field lib c ms key v)
    unfolding compile_field
    compile_field-keeps c ms key v h = elim (Reading-cases (read_condition lib c.rs key v)) [
      | inl (line, e) ↦ rw (compile_field, e) (failed ((SoundAt-quiet n).on_err c line h))
      | inr (condition, e) ↦ elim (Option-cases (compile_condition c.rs ms condition)) [
        | inl e' ↦ rw (compile_field, e, e') (failed ((SoundAt-quiet n).on_err c (line_of v) h))
        | inr (out, e') ↦
            rw (compile_field, e, e')
              (done
                (
                  condition-IsSound c.rs c.redirect_ids ms condition out e' h.0,
                  ap (λ (t : List Text). length t) (condition_targets c.rs ms condition out e')
                      ∙ h.1,
                )
                tt)
      ]
    ]

    compile_fields-keeps :
        (fields : Fields) (c : Compiler) (ms : Pairs)
        → SoundAt n c
        → Holds (SoundAt n) Anything (compile_fields lib c ms fields)
    unfolding compile_fields
    compile_fields-keeps no_field c ms h = done h tt
    compile_fields-keeps (field k v fields) c ms h =
        Holds-and_then (compile_field lib c ms k v) _ (compile_field-keeps c ms k v h)
          (λ c' ms' h' _. compile_fields-keeps fields c' ms' h')

    compile_when-keeps :
        (c : Compiler) (v : Node) (ms : Pairs)
        → SoundAt n c
        → Holds (SoundAt n) Anything (compile_when lib c v ms)
    unfolding compile_when
    compile_when-keeps c (mapping line fields) ms h = compile_fields-keeps fields c ms h
    compile_when-keeps c (null line) ms h = failed ((SoundAt-quiet n).on_err c line h)
    compile_when-keeps c (scalar line text) ms h = failed ((SoundAt-quiet n).on_err c line h)
    compile_when-keeps c (sequence line items) ms h = failed ((SoundAt-quiet n).on_err c line h)

    read_id-keeps :
        (c : Compiler) (v : Node)
        → SoundAt n c
        → Holds (SoundAt n) (λ id. (0 < id) × (id < 2 ^ 32)) (read_id lib c v)
    unfolding read_id
    read_id-keeps c v h =
        elim (Option-cases (between 1 (2 ^ 32 - 1) (find v "id" >>= as_uint lib))) [
          | inl e ↦ rw (read_id, e) (failed ((SoundAt-quiet n).on_err c (line_of v) h))
          | inr (id, e) ↦
              let bounds = between_lem 1 (2 ^ 32 - 1) (find v "id" >>= as_uint lib) id e in
              elim (Bool-cases (memb id c.seen_rule_ids)) [
                | inl e' ↦ rw (read_id, e, e') (failed ((SoundAt-quiet n).on_err c (line_of v) h))
                | inr e' ↦
                    rw (read_id, e, e') (done h (omega (arith, bounds.0), omega (arith, bounds.1)))
              ]
        ]

    read_priority-keeps :
        (c : Compiler) (v : Node)
        → SoundAt n c
        → Holds (SoundAt n) (λ p. p < 2 ^ 32) (read_priority lib c v)
    unfolding read_priority
    read_priority-keeps c v h =
        elim (Option-cases (between 0 (2 ^ 32 - 1) (find v "priority" >>= as_uint lib))) [
          | inl e ↦ rw (read_priority, e) (failed ((SoundAt-quiet n).on_err c (line_of v) h))
          | inr (p, e) ↦
              rw (read_priority, e)
                (done h (
                  omega (
                    arith,
                    (between_lem 0 (2 ^ 32 - 1) (find v "priority" >>= as_uint lib) p e).1,
                  )))
        ]

    read_rule_action-keeps :
        (c : Compiler) (v : Node)
        → SoundAt n c
        → Holds (SoundAt n) (IsAction n) (read_rule_action lib c v)
    unfolding read_rule_action
    read_rule_action-keeps c v h = elim (Option-cases (find v "action")) [
      | inl e ↦ rw (read_rule_action, e) (failed ((SoundAt-quiet n).on_err c (line_of v) h))
      | inr (act, e) ↦
          rw (read_rule_action, e)
            (parse_action-IsAction lib act n (SoundAt-quiet n) (SoundAt-targets n) c allow_action h
              (omega arith) refl)
    ]

    pub compile_rule-keeps :
        (c : Compiler) (v : Node)
        → SoundAt n c
        → Holds (SoundAt n) (AreRules n) (compile_rule lib c v)
    unfolding compile_rule
    compile_rule-keeps c v h = Holds-and_then (read_id lib c v) _ (read_id-keeps c v h) λ c id h i.
        Holds-and_then (read_priority lib c v) _ (read_priority-keeps c v h) λ c p h small.
          Holds-and_then (if_present (find v "plans") 0 resolve_plan_mask c) _
            (if_present-keeps (find v "plans") 0 resolve_plan_mask c h
              (λ w. resolve_plan_mask-keeps c w h))
            λ c mask h _.
              Holds-and_then
                (if_present (find v "when") ((0, 0) ∷ [])
                  (λ c w. compile_when lib c w ((0, 0) ∷ [])) c)
                _
                (if_present-keeps (find v "when") ((0, 0) ∷ []) _ c h
                  (λ w. compile_when-keeps c w ((0, 0) ∷ []) h))
                λ c ms h _.
                  Holds-and_then (read_rule_action lib c v) _ (read_rule_action-keeps c v h)
                    λ c a h q. done h (rules_of-AreRules id p mask a ms i small q)
