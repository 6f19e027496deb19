-- ===== src/Compiler/Whole.antt =====
-- The plans keep the rule set sound.
use Prim.Native.String.{String}
use real_time_policy_authori.Common.{
  ℕ, ◌<◌, ◌∙◌, inl, inr, refl, false, not, ◌&&◌, Option, none, some, is_some, List, [], ◌∷◌, ◌++◌,
  length, set, length-set, length-append, arith, ◌==◌, ltb, leb, Bool-cases, Option-cases,
}
use real_time_policy_authori.Rules.{RuleSet, PlanConfig, Text}
use real_time_policy_authori.Yaml.{
  Node, null, scalar, sequence, mapping, no_item, item, line_of, is_map, fields_of, find, Libc,
  as_uint,
}
use real_time_policy_authori.Compiler.{
  Compiler, err, warn, lookup_name, check_fields, check_unknown_keys, no_validity, unusual_5qi,
}
use real_time_policy_authori.Compiler.Names.{is_standardized_5qi}
use real_time_policy_authori.Compiler.Actions.{between}
use real_time_policy_authori.Compiler.Tables.{
  optional, req_5qi, req_arp, read_plan, add_plan, load_plan, load_named_plan, plan_keys,
  load_plans,
}
use real_time_policy_authori.Compiler.Outcomes.{IsQuiet}
use real_time_policy_authori.Compiler.Valid.{check_fields-quiet}
use real_time_policy_authori.Compiler.Sound.{IsSound, Sound, Sound-quiet}
use real_time_policy_authori.Compiler.Runs.{each-keeps}

-- a member with a default, in a state that no message changes
optional-keeps :
    {A : Type 0} {P : Compiler → Type 0}
    → IsQuiet P
    → (n : Node) (key : String) (read : Node → Option A) (dflt : A) (c : Compiler) → P c
    → P (optional n key read dflt c).0
optional-keeps quiet n key read dflt c p = elim (Option-cases (find n key)) [
  | inl e ↦ rw (optional, e) p
  | inr (v, e) ↦ elim (Option-cases (read v)) [
    | inl e' ↦ rw (optional, e, e') (quiet.on_err c (line_of v) p)
    | inr (x, e') ↦ rw (optional, e, e') p
  ]
]

module _ {D : Type 0} (lib : Libc D) where
  req_5qi-keeps :
      {P : Compiler → Type 0}
      → IsQuiet P
      → (n : Node) (key : String) (dflt : ℕ) (c : Compiler) → P c
      → P (req_5qi lib n key dflt c).0
  unfolding req_5qi
  req_5qi-keeps quiet n key dflt c p = elim (Option-cases (find n key)) [
    | inl e ↦ rw (req_5qi, e) p
    | inr (v, e) ↦ elim (Option-cases (between 1 255 (as_uint lib v))) [
      | inl e' ↦ rw (req_5qi, e, e') (quiet.on_err c (line_of v) p)
      | inr (q, e') ↦ elim (Bool-cases (not (is_standardized_5qi q) && ltb q 128)) [
        | inl e'' ↦ rw (req_5qi, e, e', e'') (quiet.on_warn c (unusual_5qi q) p)
        | inr e'' ↦ rw (req_5qi, e, e', e'') p
      ]
    ]
  ]

  read_plan-keeps :
      {P : Compiler → Type 0}
      → IsQuiet P
      → (c : Compiler) (n : Node) (id : ℕ) → P c
      → P (read_plan lib c n id).0
  unfolding read_plan req_arp
  read_plan-keeps {P = P} quiet c n id p =
      let p1 = req_5qi-keeps {P = P} quiet n "qos_5qi" 9 c p in
      let p2 = optional-keeps {P = P} quiet n "arp" _ 8 _ p1 in
      let p3 = optional-keeps {P = P} quiet n "ambr_ul" _ 0 _ p2 in
      let p4 = optional-keeps {P = P} quiet n "ambr_dl" _ 0 _ p3 in
      let p5 = optional-keeps {P = P} quiet n "quota" _ 0 _ p4 in
      let p6 = optional-keeps {P = P} quiet n "quota_validity" _ 0 _ p5 in
      let p7 = optional-keeps {P = P} quiet n "rating_group" _ 0 _ p6 in
      let p8 = optional-keeps {P = P} quiet n "tethering" _ false _ p7 in
      optional-keeps {P = P} quiet n "roaming" _ false _ p8

  -- one more plan, where there is a place
  plan_added :
      (rs : RuleSet) (ids : List (Text × ℕ)) (name : Text) (i : ℕ) (p : PlanConfig)
      → length rs.plan_names < 32
      → IsSound rs ids
      → IsSound
          (record rs {
            plans = set rs.plans i p;
            plan_names = rs.plan_names ++ (name ∷ []);
            plan_count = length (rs.plan_names ++ (name ∷ []));
          })
          ids
  plan_added rs ids name i p lt h = record {
    room = h.room;
    plans = (
      length-set rs.plans i p ∙ h.plans.0,
      refl,
      omega (arith, length-append rs.plan_names (name ∷ [])),
    );
    partners = h.partners;
    blocked = h.blocked;
    targets = h.targets;
    default_action = h.default_action;
    rules = h.rules;
    fit = h.fit;
  }

  -- a state with a place for a plan
  abbrev WithPlace : Compiler → Type 0
  WithPlace c = Sound c × (length c.rs.plan_names < 32)

  place_quiet : IsQuiet WithPlace
  unfolding err warn
  place_quiet = record { on_err = λ c line h. h; on_warn = λ c w h. h }

  add_plan-Sound :
      (c : Compiler) (n : Node) (name : Text) → WithPlace c → Sound (add_plan lib c n name)
  unfolding add_plan
  add_plan-Sound c n name h =
      let id = length c.rs.plan_names in
      let read = read_plan lib c n id in
      let (sound, place) = read_plan-keeps {P = WithPlace} place_quiet c n id h in
      elim (Bool-cases (not (read.1.quota_bytes == 0) && read.1.quota_validity_s == 0)) [
        | inl e ↦
            let warned = place_quiet.on_warn read.0 (no_validity name) (sound, place) in
            rw e (plan_added (warn read.0 (no_validity name)).rs _ name id read.1 warned.1 warned.0)
        | inr e ↦ rw e (plan_added read.0.rs read.0.redirect_ids name id read.1 place sound)
      ]

  load_named_plan-Sound :
      (c : Compiler) (n : Node) (o : Option Node) → Sound c → Sound (load_named_plan lib c n o).0
  unfolding load_named_plan err
  load_named_plan-Sound c n (some (scalar line (b ∷ name))) h =
      elim (Bool-cases (leb 32 (length c.rs.plan_names))) [
        | inl e ↦ rw e h
        | inr e ↦ elim (Bool-cases (is_some (lookup_name c.plan_ids (b ∷ name)))) [
          | inl e' ↦ rw (e, e') h
          | inr e' ↦ rw (e, e') (add_plan-Sound c n (b ∷ name) (h, ground arith))
        ]
      ]
  load_named_plan-Sound c n (some (scalar line [])) h = h
  load_named_plan-Sound c n (some (null line)) h = h
  load_named_plan-Sound c n (some (sequence line items)) h = h
  load_named_plan-Sound c n (some (mapping line fields)) h = h
  load_named_plan-Sound c n none h = h

  load_plan-Sound : (c : Compiler) (n : Node) → Sound c → Sound (load_plan lib c n).0
  unfolding load_plan check_unknown_keys
  load_plan-Sound c n h = elim (Bool-cases (is_map n)) [
    | inr e ↦ rw e (Sound-quiet.on_err c (line_of n) h)
    | inl e ↦ rw e (
        load_named_plan-Sound (check_fields c (fields_of n) plan_keys) n (find n "name")
          (check_fields-quiet {P = Sound} Sound-quiet c (fields_of n) plan_keys h))
  ]

  pub load_plans-Sound : (c : Compiler) (n : Option Node) → Sound c → Sound (load_plans lib c n)
  unfolding load_plans err
  load_plans-Sound c (some (sequence line (item v items))) h =
      each-keeps {P = Sound} (load_plan lib) load_plan-Sound (item v items) c h
  load_plans-Sound c (some (sequence line no_item)) h = h
  load_plans-Sound c (some (null line)) h = h
  load_plans-Sound c (some (scalar line text)) h = h
  load_plans-Sound c (some (mapping line fields)) h = h
  load_plans-Sound c none h = h
