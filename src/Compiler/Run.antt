-- ===== src/Compiler/Run.antt =====
-- The whole run: what the service may rely on in a rule set that is handed out.
use real_time_policy_authori.Common.{
  ℕ, suc, ◌+◌, ◌≤◌, ◌≡◌, ◌∙◌, inl, inr, refl, sym, ap, subst, Option, none, some, List, [], ◌∷◌,
  ◌++◌, length, length-append, arith, ◌==◌, ltb, leb, Bool-cases, Option-cases,
}
use mathlib.Core.Option.{some-injective}
use real_time_policy_authori.FlatSet.{rebuild}
use real_time_policy_authori.Rules.{Action, RuleSet, CompiledRule, Text}
use real_time_policy_authori.Yaml.{
  Node, null, scalar, sequence, mapping, line_of, is_map, fields_of, find, Libc,
}
use real_time_policy_authori.Compiler.{
  Compiler, err, warn, check_fields, check_unknown_keys, start, empty_rule_set, default_deny_action,
  never_fires, no_rules,
}
use real_time_policy_authori.Compiler.Actions.{parse_action}
use real_time_policy_authori.Compiler.Tables.{load_roaming_partners, load_imei_blocklist}
use real_time_policy_authori.Compiler.Loader.{
  compile_rule, load_rule, load_rules, load_names, finish, load_default_action, rule_keys,
  root_keys, warn_all, sort_and_check, run,
}
use real_time_policy_authori.Compiler.Outcomes.{ForValue}
use real_time_policy_authori.Compiler.Valid.{IsAction, parse_action-IsAction, check_fields-quiet}
use real_time_policy_authori.Compiler.Sound.{
  IsRule, AreRules, AreRules-append, IsSound, Sound, Sound-quiet,
}
use real_time_policy_authori.Compiler.Runs.{each-keeps, load_dnns-Sound, load_redirects-Sound}
use real_time_policy_authori.Rules.Order.{insert_rule, stable_sort, shadow_warnings}
use real_time_policy_authori.Compiler.Sets.{SoundAt, SoundAt-quiet, SoundAt-targets}
use real_time_policy_authori.Rules.Meaning.{bind_inv}
use real_time_policy_authori.Compiler.Whole.{load_plans-Sound}
use real_time_policy_authori.Compiler.Sets.{load_roaming_partners-Sound, load_imei_blocklist-Sound}
use real_time_policy_authori.Compiler.Entries.{compile_rule-keeps}

rules_added :
    (rs : RuleSet) (ids : List (Text × ℕ)) (rules : List CompiledRule)
    → AreRules (length rs.redirect_targets) rules
    → length rs.rules + length rules ≤ 4096
    → IsSound rs ids
    → IsSound (record rs { rules = rs.rules ++ rules }) ids
rules_added rs ids rules more fit h = record {
  room = h.room;
  plans = h.plans;
  partners = h.partners;
  blocked = h.blocked;
  targets = h.targets;
  default_action = h.default_action;
  rules = AreRules-append _ rs.rules rules h.rules more;
  fit = omega (arith, length-append rs.rules rules, fit);
}

default_set :
    (rs : RuleSet) (ids : List (Text × ℕ)) (a : Action)
    → IsAction (length rs.redirect_targets) a
    → IsSound rs ids
    → IsSound (record rs { default_action = a }) ids
default_set rs ids a ok h = record {
  room = h.room;
  plans = h.plans;
  partners = h.partners;
  blocked = h.blocked;
  targets = h.targets;
  default_action = ok;
  rules = h.rules;
  fit = h.fit;
}

module _ {D : Type 0} (lib : Libc D) where
  load_rule-Sound : (c : Compiler) (v : Node) → Sound c → Sound (load_rule lib c v).0
  unfolding load_rule check_unknown_keys
  load_rule-Sound c v h = elim (Bool-cases (is_map v)) [
    | inr e ↦ rw e (Sound-quiet.on_err c (line_of v) h)
    | inl e ↦
        let n = length c.rs.redirect_targets in
        let c0 = check_fields c (fields_of v) rule_keys in
        let compiled = compile_rule-keeps n lib c0 v (
          check_fields-quiet {P = SoundAt n} (SoundAt-quiet n) c (fields_of v) rule_keys
            (h, refl)) in
        let out = compile_rule lib c0 v in
        elim (Option-cases out.1) [
          | inl e' ↦ rw (e, e') compiled.state.0
          | inr (rules, e') ↦
              let ok : AreRules n rules = subst (ForValue (AreRules n)) e' compiled.value in
              let ok' = subst (λ (k : ℕ). AreRules k rules) (sym compiled.state.1) ok in
              elim (Bool-cases (ltb 4096 (length out.0.rs.rules + length rules))) [
                | inl e'' ↦ rw (e, e', e'') (Sound-quiet.on_err out.0 (line_of v) compiled.state.0)
                | inr e'' ↦
                    rw (e, e', e'')
                      (rules_added out.0.rs out.0.redirect_ids rules ok' (ground arith)
                        compiled.state.0)
              ]
        ]
  ]

  load_rules-Sound : (c : Compiler) (n : Option Node) → Sound c → Sound (load_rules lib c n)
  unfolding load_rules err
  load_rules-Sound c (some (sequence line items)) h =
      each-keeps {P = Sound} (load_rule lib) load_rule-Sound items c h
  load_rules-Sound c (some (null line)) h = h
  load_rules-Sound c (some (scalar line text)) h = h
  load_rules-Sound c (some (mapping line fields)) h = h
  load_rules-Sound c none h = h

  load_default_action-Sound :
      (c : Compiler) (n : Option Node) → Sound c → Sound (load_default_action lib c n)
  unfolding load_default_action default_deny_action
  load_default_action-Sound c none h = h
  load_default_action-Sound c (some d) h =
      let n = length c.rs.redirect_targets in
      let out = parse_action lib c d default_deny_action in
      let parsed =
        parse_action-IsAction lib d n (SoundAt-quiet n) (SoundAt-targets n) c default_deny_action
          (h, refl) (omega arith) refl in
      elim (Option-cases out.1) [
        | inl e ↦ rw (load_default_action, e) parsed.state.0
        | inr (a, e) ↦
            let ok : IsAction n a = subst (ForValue (IsAction n)) e parsed.value in
            rw (load_default_action, e)
              (default_set out.0.rs out.0.redirect_ids a
                (subst (λ (k : ℕ). IsAction k a) (sym parsed.state.1) ok) parsed.state.0)
      ]

  warn_all-keeps : (c : Compiler) (pairs : List (ℕ × ℕ)) → Sound c → Sound (warn_all lib c pairs)
  unfolding warn_all
  warn_all-keeps c [] h = h
  warn_all-keeps c ((id, by) ∷ pairs) h =
      warn_all-keeps (warn c (never_fires id by)) pairs
        (Sound-quiet.on_warn c (never_fires id by) h)

  insert_rule-AreRules :
      (n : ℕ) (r : CompiledRule) (rules : List CompiledRule)
      → IsRule n r
      → AreRules n rules
      → AreRules n (insert_rule r rules)
  unfolding insert_rule
  insert_rule-AreRules n r [] h hs = (h, tt)
  insert_rule-AreRules n r (q ∷ rules) h (k, ks) = elim (Bool-cases (leb r.priority q.priority)) [
    | inl e ↦ rw e (h, (k, ks))
    | inr e ↦ rw e (k, insert_rule-AreRules n r rules h ks)
  ]

  stable_sort-AreRules :
      (n : ℕ) (rules : List CompiledRule) → AreRules n rules → AreRules n (stable_sort rules)
  unfolding stable_sort
  stable_sort-AreRules n [] h = tt
  stable_sort-AreRules n (r ∷ rules) (h, hs) =
      insert_rule-AreRules n r (stable_sort rules) h (stable_sort-AreRules n rules hs)

  length-insert_rule :
      (r : CompiledRule) (rules : List CompiledRule)
      → length (insert_rule r rules) ≡ suc (length rules)
  unfolding insert_rule
  length-insert_rule r [] = refl
  length-insert_rule r (q ∷ rules) = elim (Bool-cases (leb r.priority q.priority)) [
    | inl e ↦ rw e refl
    | inr e ↦ rw e (ap suc (length-insert_rule r rules))
  ]

  length-stable_sort : (rules : List CompiledRule) → length (stable_sort rules) ≡ length rules
  unfolding stable_sort
  length-stable_sort [] = refl
  length-stable_sort (r ∷ rules) =
      length-insert_rule r (stable_sort rules) ∙ ap suc (length-stable_sort rules)

  sorted_set :
      (rs : RuleSet) (ids : List (Text × ℕ))
      → IsSound rs ids
      → IsSound (record rs { rules = stable_sort rs.rules }) ids
  sorted_set rs ids h = record {
    room = h.room;
    plans = h.plans;
    partners = h.partners;
    blocked = h.blocked;
    targets = h.targets;
    default_action = h.default_action;
    rules = stable_sort-AreRules _ rs.rules h.rules;
    fit = omega (arith, length-stable_sort rs.rules, h.fit);
  }

  sort_and_check-Sound : (c : Compiler) → Sound c → Sound (sort_and_check lib c)
  unfolding sort_and_check
  sort_and_check-Sound c h =
      let rules = stable_sort c.rs.rules in
      let sorted = record c { rs = record c.rs { rules = rules } } in
      let kept =
        warn_all-keeps sorted (shadow_warnings [] rules) (sorted_set c.rs c.redirect_ids h) in
      elim (Bool-cases (length rules == 0)) [
        | inl e ↦
            rw e
              (Sound-quiet.on_warn (warn_all lib sorted (shadow_warnings [] rules)) no_rules kept)
        | inr e ↦ rw e kept
      ]

  start-Sound : (version : ℕ) → Sound (start version)
  unfolding start empty_rule_set default_deny_action rebuild
  start-Sound version = record {
    room = (refl, omega arith, refl, omega arith);
    plans = (refl, refl, omega arith);
    partners = ([], refl);
    blocked = ([], refl);
    targets = tt;
    default_action = record {
      known = omega arith;
      target = inl refl;
      named = λ two. omega (arith, two);
    };
    rules = tt;
    fit = omega arith;
  }

  load_names-Sound : (version : ℕ) (root : Node) → Sound (load_names lib version root)
  unfolding load_names check_unknown_keys
  load_names-Sound version root =
      let a =
        check_fields-quiet {P = Sound} Sound-quiet (start version) (fields_of root) (root_keys lib)
          (start-Sound version) in
      let b = load_dnns-Sound _ (find root "dnns") a in
      let c = load_redirects-Sound _ (find root "redirects") b in
      load_plans-Sound lib _ (find root "plans") c

  -- what is handed out is the rule set of a sound state
  abbrev Out : Compiler × Option RuleSet → Type 0
  Out (c, o) = Sound c × ForValue (λ (rs : RuleSet). rs ≡ c.rs) o

  finish-Out : (c : Compiler) → Sound c → Out (finish lib c)
  unfolding finish
  finish-Out c h = elim (Bool-cases (length c.errors == 0)) [
    | inl e ↦ rw e (sort_and_check-Sound c h, refl)
    | inr e ↦ rw e (h, tt)
  ]

  run-Out :
      (open_file : Text → Option (List Text)) (version : ℕ) (root : Node)
      (out : Compiler × Option RuleSet)
      → run lib open_file version root ≡ some out
      → Out out
  unfolding run err
  run-Out open_file version root out h = elim (Bool-cases (is_map root)) [
    | inr e ↦ subst Out (some-injective _ out (rw (run, e) at h)) (start-Sound version, tt)
    | inl e ↦
        let (c, e1, rest) =
          bind_inv
            (load_roaming_partners (load_names lib version root) (find root "roaming_partners")) _
            out (rw (run, e) at h) in
        let (d, e2, rest') =
          bind_inv (load_imei_blocklist open_file c (find root "imei_blocklist")) _ out rest in
        let hc =
          load_roaming_partners-Sound _ c (find root "roaming_partners") e1
            (load_names-Sound version root) in
        let hd = load_imei_blocklist-Sound open_file c d (find root "imei_blocklist") e2 hc in
        let he = load_default_action-Sound d (find root "default_action") hd in
        subst Out (some-injective _ out rest')
          (finish-Out _ (load_rules-Sound _ (find root "rules") he))
  ]

-- A rule set that is handed out is sound: the tables of thresholds, windows and plans are within their
-- bounds, both sets were made by `rebuild`, there are at most 4096 rules, each with an id that is not
-- zero, and each action, the default one too, has a known verdict and names a target where it redirects.
pub run-IsSound :
    {D : Type 0} (lib : Libc D) (open_file : Text → Option (List Text)) (version : ℕ) (root : Node)
    (c : Compiler) (rs : RuleSet)
    → run lib open_file version root ≡ some (c, some rs)
    → IsSound rs c.redirect_ids
run-IsSound lib open_file version root c rs h =
    let (sound, same) = run-Out lib open_file version root (c, some rs) h in
    subst (λ (t : RuleSet). IsSound t c.redirect_ids) (sym same) sound
