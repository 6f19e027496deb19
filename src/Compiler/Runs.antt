-- ===== src/Compiler/Runs.antt =====
-- The names and the redirects keep the rule set sound.
use real_time_policy_authori.Common.{
  ℕ, ◌<◌, ◌≤◌, inl, inr, Bool, Option, none, some, is_some, List, [], ◌∷◌, ◌++◌, length,
  length-append, arith, leb, Bool-cases, Option-cases,
}
use real_time_policy_authori.Rules.{RuleSet, Text}
use real_time_policy_authori.Yaml.{
  Node, null, scalar, sequence, mapping, Items, no_item, item, Fields, no_field, field, scalar_of,
}
use real_time_policy_authori.Compiler.{Compiler, err}
use real_time_policy_authori.Compiler.Tables.{
  each, each_field, load_dnn, load_dnns, load_redirect, load_redirects, index_of,
}
use real_time_policy_authori.Compiler.Valid.{AreTargets-mono}
use real_time_policy_authori.Compiler.Sound.{AreRules-mono, IsAction-mono, IsSound, Sound}

-- A loop keeps what its body keeps.
pub each-keeps :
    {P : Compiler → Type 0} (body : Compiler → Node → Compiler × Bool)
    → ((c : Compiler) (v : Node) → P c → P (body c v).0)
    → (items : Items) (c : Compiler) → P c
    → P (each body items c)
unfolding each
each-keeps body keeps no_item c h = h
each-keeps {P} body keeps (item v items) c h = elim (Bool-cases (body c v).1) [
  | inl e ↦ rw (each, e) (each-keeps body keeps items (body c v).0 (keeps c v h))
  | inr e ↦ rw (each, e) (keeps c v h)
]

each_field-keeps :
    {P : Compiler → Type 0} (body : Compiler → Text → Node → Compiler × Bool)
    → ((c : Compiler) (k : Text) (v : Node) → P c → P (body c k v).0)
    → (fields : Fields) (c : Compiler) → P c
    → P (each_field body fields c)
unfolding each_field
each_field-keeps body keeps no_field c h = h
each_field-keeps {P} body keeps (field k v fields) c h = elim (Bool-cases (body c k v).1) [
  | inl e ↦ rw (each_field, e) (each_field-keeps body keeps fields (body c k v).0 (keeps c k v h))
  | inr e ↦ rw (each_field, e) (keeps c k v h)
]

-- the DNNs are not read by what is kept
load_dnn-Sound : (c : Compiler) (v : Node) → Sound c → Sound (load_dnn c v).0
unfolding load_dnn err
load_dnn-Sound c (scalar line name) h = elim (Bool-cases (leb 16 (length c.rs.dnn_names))) [
  | inl e ↦ rw e h
  | inr e ↦ elim (Bool-cases (is_some (index_of name c.rs.dnn_names))) [
    | inl e' ↦ rw (e, e') h
    | inr e' ↦ rw (e, e') (named h)
  ]
]
  where
    named :
        IsSound c.rs c.redirect_ids
        → IsSound (record c.rs { dnn_names = c.rs.dnn_names ++ (name ∷ []) }) c.redirect_ids
    named h = record {
      room = h.room;
      plans = h.plans;
      partners = h.partners;
      blocked = h.blocked;
      targets = h.targets;
      default_action = h.default_action;
      rules = h.rules;
      fit = h.fit;
    }
load_dnn-Sound c (null line) h = h
load_dnn-Sound c (sequence line items) h = h
load_dnn-Sound c (mapping line fields) h = h

pub load_dnns-Sound : (c : Compiler) (n : Option Node) → Sound c → Sound (load_dnns c n)
unfolding load_dnns err
load_dnns-Sound c none h = h
load_dnns-Sound c (some (sequence line items)) h = each-keeps load_dnn load_dnn-Sound items c h
load_dnns-Sound c (some (null line)) h = h
load_dnns-Sound c (some (scalar line text)) h = h
load_dnns-Sound c (some (mapping line fields)) h = h

-- one more target, which an id may name
target_added :
    (rs : RuleSet) (ids : List (Text × ℕ)) (text : Text)
    → IsSound rs ids
    → IsSound (record rs { redirect_targets = rs.redirect_targets ++ (text ∷ []) }) ids
target_added rs ids text h =
    let more : length rs.redirect_targets ≤ length (rs.redirect_targets ++ (text ∷ [])) =
      omega (arith, length-append rs.redirect_targets (text ∷ [])) in
    record {
      room = h.room;
      plans = h.plans;
      partners = h.partners;
      blocked = h.blocked;
      targets = AreTargets-mono ids _ _ more h.targets;
      default_action = IsAction-mono more h.default_action;
      rules = AreRules-mono rs.rules more h.rules;
      fit = h.fit;
    }

-- an id that names a target
id_added :
    (rs : RuleSet) (ids : List (Text × ℕ)) (name : Text) (id : ℕ)
    → (0 < id) × (id < length rs.redirect_targets)
    → IsSound rs ids
    → IsSound rs ((name, id) ∷ ids)
id_added rs ids name id here h = record {
  room = h.room;
  plans = h.plans;
  partners = h.partners;
  blocked = h.blocked;
  targets = (here, h.targets);
  default_action = h.default_action;
  rules = h.rules;
  fit = h.fit;
}

-- The first target is there before any other is loaded.
abbrev WithFirst : Compiler → Type 0
WithFirst c = Sound c × (0 < length c.rs.redirect_targets)

load_redirect-Sound :
    (c : Compiler) (k : Text) (v : Node) → WithFirst c → WithFirst (load_redirect c k v).0
unfolding load_redirect err
load_redirect-Sound c k v (h, first) = elim (Bool-cases (leb 16 (length c.rs.redirect_targets))) [
  | inl e ↦ rw e (h, first)
  | inr e ↦ elim (Option-cases (scalar_of v)) [
    | inl e' ↦ rw (e, e') (h, first)
    | inr (text, e') ↦
        let longer = length-append c.rs.redirect_targets (text ∷ []) in
        let small : length c.rs.redirect_targets < 16 = ground arith in
        rw (e, e')
          (
            id_added _ c.redirect_ids k _
                (omega (arith, longer, small, first), omega (arith, longer, small))
                (target_added c.rs c.redirect_ids text h),
            omega (arith, longer),
          )
  ]
]

pub load_redirects-Sound : (c : Compiler) (n : Option Node) → Sound c → Sound (load_redirects c n)
unfolding load_redirects err
load_redirects-Sound c none h = h
load_redirects-Sound c (some (mapping line fields)) h =
    (each_field-keeps {P = WithFirst} load_redirect load_redirect-Sound fields
      (record c { rs = record c.rs { redirect_targets = c.rs.redirect_targets ++ ([] ∷ []) } })
      (
        target_added c.rs c.redirect_ids [] h,
        omega (arith, length-append c.rs.redirect_targets ([] ∷ [])),
      )).0
load_redirects-Sound c (some (null line)) h = h
load_redirects-Sound c (some (scalar line text)) h = h
load_redirects-Sound c (some (sequence line items)) h = h
