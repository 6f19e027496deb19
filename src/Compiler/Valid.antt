-- ===== src/Compiler/Valid.antt =====
-- src/rules.cpp, `parse_action`: an accepted action has a known verdict, and a target that is in the table
-- where it redirects.
use Prim.Native.String.{String}
use real_time_policy_authori.Common.{
  ℕ, ◌<◌, ◌≤◌, ◌≡◌, ◌⊎◌, ◌∙◌, inl, inr, refl, sym, subst, not, ◌&&◌, Option, none, some, List, [],
  ◌∷◌, arith, ◌==◌, ltb, Bool-cases,
}
use mathlib.Core.Option.{some-injective}
use real_time_policy_authori.Common.Text.{text_eq, is_one_of}
use real_time_policy_authori.FlatSet.{◌>>=◌}
use real_time_policy_authori.Rules.{Action, Text}
use real_time_policy_authori.Yaml.{
  Node, Fields, no_field, field, fields_of, line_of, is_map, scalar_of, find, has, Libc,
}
use real_time_policy_authori.Compiler.{
  Compiler, Outcome, ◌and_then◌, warn, succeed, check_unknown_keys, check_fields, lookup_name,
  unknown_key,
}
use real_time_policy_authori.Compiler.Names.{
  parse_verdict, parse_decision_flag, parse_inherit, is_standardized_5qi,
}
use real_time_policy_authori.Compiler.Actions.{
  action_keys, set_verdict, set_reason, set_inherit, set_5qi, check_5qi, set_arp, complete_qos,
  set_ambr_ul, set_ambr_dl, check_ambr, set_quota, set_validity, set_rating_group, set_redirect,
  check_redirect, set_flags, parse_action,
}
use real_time_policy_authori.Compiler.Outcomes.{
  Holds, failed, done, IsQuiet, Holds-and_then, store_member-Holds, read_names-Holds,
}

-- every entry names one of the targets, and none names the first, which stands for no target
abbrev pub AreTargets : List (Text × ℕ) → ℕ → Type 0
AreTargets [] n = Unit
AreTargets ((name, id) ∷ ids) n = ((0 < id) × (id < n)) × AreTargets ids n

pub AreTargets-mono :
    (ids : List (Text × ℕ)) (n m : ℕ) → n ≤ m → AreTargets ids n → AreTargets ids m
AreTargets-mono [] n m le h = tt
AreTargets-mono ((name, id) ∷ ids) n m le ((pos, lt), h) =
    ((pos, omega arith), AreTargets-mono ids n m le h)

lookup_target :
    (ids : List (Text × ℕ)) (n : ℕ) (name : Text) (id : ℕ)
    → AreTargets ids n
    → lookup_name ids name ≡ some id
    → (0 < id) × (id < n)
unfolding lookup_name
lookup_target [] n name id h e = cc e
lookup_target ((k, v) ∷ ids) n name id (here, rest) e = elim (Bool-cases (text_eq k name)) [
  | inl same ↦
      let first : v ≡ id = some-injective v id (sym (rw same refl) ∙ e) in
      subst (λ (t : ℕ). (0 < t) × (t < n)) first here
  | inr other ↦ lookup_target ids n name id rest (sym (rw other refl) ∙ e)
]

-- What the decision path may rely on in an action, where there are `n` targets.
pub record IsAction (n : ℕ) (a : Action) : Type 0 where
  pub known : a.verdict ≤ 2
  pub target : (a.redirect_id ≡ 0) ⊎ (a.redirect_id < n)
  pub named : a.verdict ≡ 2 → 0 < a.redirect_id

-- without the last condition, which is checked at the end
record IsPart (n : ℕ) (a : Action) : Type 0 where
  pub known : a.verdict ≤ 2
  pub target : (a.redirect_id ≡ 0) ⊎ (a.redirect_id < n)

pub parse_verdict-le : (s : Text) (v : ℕ) → parse_verdict s ≡ some v → v ≤ 2
unfolding parse_verdict
parse_verdict-le s v h = ground arith

bind_verdict : (o : Option Text) (v : ℕ) → (o >>= parse_verdict) ≡ some v → v ≤ 2
bind_verdict none v h = cc h
bind_verdict (some s) v h = parse_verdict-le s v h

bind_target :
    (ids : List (Text × ℕ)) (n : ℕ) (o : Option Text) (id : ℕ)
    → AreTargets ids n
    → (o >>= lookup_name ids) ≡ some id
    → (0 < id) × (id < n)
bind_target ids n none id h e = cc e
bind_target ids n (some s) id h e = lookup_target ids n s id h e

pub check_fields-quiet :
    {P : Compiler → Type 0}
    → IsQuiet P
    → (c : Compiler) (fields : Fields) (known : List String) → P c
    → P (check_fields c fields known)
unfolding check_fields
check_fields-quiet quiet c no_field known p = p
check_fields-quiet {P} quiet c (field k v fields) known p = elim (Bool-cases (is_one_of k known)) [
  | inl e ↦ rw e (check_fields-quiet quiet c fields known p)
  | inr e ↦ rw e (
      check_fields-quiet quiet (warn c (unknown_key k (line_of v))) fields known
        (quiet.on_warn c _ p))
]

module _ {D : Type 0} (lib : Libc D) (n : Node) (count : ℕ) {P : Compiler → Type 0}
    (quiet : IsQuiet P) (targets : (c : Compiler) → P c → AreTargets c.redirect_ids count) where
  abbrev Keeps : (Compiler → Action → Outcome Action) → Type 0
  Keeps f = (c : Compiler) (a : Action) → P c → IsPart count a → Holds P (IsPart count) (f c a)

  keep :
      {f : Compiler → Action → Outcome Action} (x : Outcome Action)
      → Holds P (IsPart count) x
      → Keeps f
      → Holds P (IsPart count) (x and_then f)
  keep {f} x h k = Holds-and_then x f h k

  -- an action with the same verdict and the same target
  same :
      {a b : Action}
      → IsPart count a
      → b.verdict ≡ a.verdict
      → b.redirect_id ≡ a.redirect_id
      → IsPart count b
  same q e e' = record { known = omega (arith, q.known, e); target = ground (arith, q.target, e') }

  verdict-Keeps : Keeps (set_verdict n)
  unfolding set_verdict
  verdict-Keeps c a p q =
      store_member-Holds quiet _ _ (find n "verdict") c a p q
        λ v x e. record { known = bind_verdict (scalar_of v) x e; target = q.target }

  redirect-Keeps : Keeps (set_redirect n)
  unfolding set_redirect
  redirect-Keeps c a p q = store_member-Holds quiet _ _ (find n "redirect") c a p q λ v x e.
      record {
        known = q.known;
        target = inr (bind_target c.redirect_ids count (scalar_of v) x (targets c p) e).1;
      }

  inherit-Keeps : Keeps (set_inherit n)
  unfolding set_inherit
  inherit-Keeps c a p q =
      read_names-Holds quiet parse_inherit (find n "inherit") 0 _ c a p q (λ m. same q refl refl)

  flags-Keeps :
      (c : Compiler) (a : Action)
      → P c
      → IsAction count a
      → Holds P (IsAction count) (set_flags n c a)
  unfolding set_flags
  flags-Keeps c a p q =
      read_names-Holds quiet parse_decision_flag (find n "flags") a.set_flags _ c a p q
        λ m. record { known = q.known; target = q.target; named = q.named }

  check_redirect_makes :
      (c : Compiler) (a : Action)
      → P c
      → IsPart count a
      → Holds P (IsAction count) (check_redirect n c a)
  unfolding check_redirect
  check_redirect_makes c a p q = elim (Bool-cases (a.verdict == 2 && a.redirect_id == 0)) [
    | inl e ↦ rw e (failed (quiet.on_err c (line_of n) p))
    | inr e ↦
        rw e (done p record { known = q.known; target = q.target; named = λ two. ground arith })
  ]

  reason-Keeps : Keeps (set_reason n)
  unfolding set_reason
  reason-Keeps c a p q =
      store_member-Holds quiet _ _ (find n "reason") c a p q (λ v x e. same q refl refl)

  set_5qi-Keeps : Keeps (set_5qi lib n)
  unfolding set_5qi
  set_5qi-Keeps c a p q =
      store_member-Holds quiet _ _ (find n "qos_5qi") c a p q (λ v x e. same q refl refl)

  arp-Keeps : Keeps (set_arp lib n)
  unfolding set_arp
  arp-Keeps c a p q =
      store_member-Holds quiet _ _ (find n "arp") c a p q (λ v x e. same q refl refl)

  ambr_ul-Keeps : Keeps (set_ambr_ul lib n)
  unfolding set_ambr_ul
  ambr_ul-Keeps c a p q =
      store_member-Holds quiet _ _ (find n "ambr_ul") c a p q (λ v x e. same q refl refl)

  ambr_dl-Keeps : Keeps (set_ambr_dl lib n)
  unfolding set_ambr_dl
  ambr_dl-Keeps c a p q =
      store_member-Holds quiet _ _ (find n "ambr_dl") c a p q (λ v x e. same q refl refl)

  quota-Keeps : Keeps (set_quota lib n)
  unfolding set_quota
  quota-Keeps c a p q =
      store_member-Holds quiet _ _ (find n "quota") c a p q (λ v x e. same q refl refl)

  validity-Keeps : Keeps (set_validity lib n)
  unfolding set_validity
  validity-Keeps c a p q =
      store_member-Holds quiet _ _ (find n "quota_validity") c a p q (λ v x e. same q refl refl)

  rating_group-Keeps : Keeps (set_rating_group lib n)
  unfolding set_rating_group
  rating_group-Keeps c a p q =
      store_member-Holds quiet _ _ (find n "rating_group") c a p q (λ v x e. same q refl refl)

  check_5qi-Keeps : Keeps (check_5qi n)
  unfolding check_5qi
  check_5qi-Keeps c a p q =
      elim (Bool-cases
        (has n "qos_5qi" && not (is_standardized_5qi a.qos_5qi) && ltb a.qos_5qi 128)) [
          | inl e ↦ rw e (done (quiet.on_warn c _ p) q)
          | inr e ↦ rw e (done p q)
        ]

  complete_qos-Keeps : Keeps (complete_qos n)
  unfolding complete_qos
  complete_qos-Keeps c a p q = elim (Bool-cases (has n "qos_5qi")) [
    | inl e ↦ elim (Bool-cases (has n "arp")) [
      | inl e' ↦ rw (e, e') (done p q)
      | inr e' ↦ rw (e, e') (done (quiet.on_warn c _ p) (same q refl refl))
    ]
    | inr e ↦ elim (Bool-cases (has n "arp")) [
      | inl e' ↦ rw (e, e') (done (quiet.on_warn c _ p) (same q refl refl))
      | inr e' ↦ rw (e, e') (done p q)
    ]
  ]

  check_ambr-Keeps : Keeps (check_ambr n)
  unfolding check_ambr
  check_ambr-Keeps c a p q = elim (Bool-cases (has n "ambr_ul")) [
    | inl e ↦ elim (Bool-cases (has n "ambr_dl")) [
      | inl e' ↦ rw (e, e') (done p (same q refl refl))
      | inr e' ↦ rw (e, e') (failed (quiet.on_err c (line_of n) p))
    ]
    | inr e ↦ elim (Bool-cases (has n "ambr_dl")) [
      | inl e' ↦ rw (e, e') (failed (quiet.on_err c (line_of n) p))
      | inr e' ↦ rw (e, e') (done p q)
    ]
  ]

  -- the members, up to the check of the target
  all_members :
      (x0 : Outcome Action)
      → Holds P (IsPart count) x0
      → Holds P (IsAction count) (
          x0
          and_then set_verdict n
          and_then set_reason n
          and_then set_inherit n
          and_then set_5qi lib n
          and_then check_5qi n
          and_then set_arp lib n
          and_then complete_qos n
          and_then set_ambr_ul lib n
          and_then set_ambr_dl lib n
          and_then check_ambr n
          and_then set_quota lib n
          and_then set_validity lib n
          and_then set_rating_group lib n
          and_then set_redirect n
          and_then check_redirect n
          and_then set_flags n)
  all_members x0 h0 =
      let x1 = x0 and_then set_verdict n in
      let h1 = keep x0 h0 verdict-Keeps in
      let x2 = x1 and_then set_reason n in
      let h2 = keep x1 h1 reason-Keeps in
      let x3 = x2 and_then set_inherit n in
      let h3 = keep x2 h2 inherit-Keeps in
      let x4 = x3 and_then set_5qi lib n in
      let h4 = keep x3 h3 set_5qi-Keeps in
      let x5 = x4 and_then check_5qi n in
      let h5 = keep x4 h4 check_5qi-Keeps in
      let x6 = x5 and_then set_arp lib n in
      let h6 = keep x5 h5 arp-Keeps in
      let x7 = x6 and_then complete_qos n in
      let h7 = keep x6 h6 complete_qos-Keeps in
      let x8 = x7 and_then set_ambr_ul lib n in
      let h8 = keep x7 h7 ambr_ul-Keeps in
      let x9 = x8 and_then set_ambr_dl lib n in
      let h9 = keep x8 h8 ambr_dl-Keeps in
      let x10 = x9 and_then check_ambr n in
      let h10 = keep x9 h9 check_ambr-Keeps in
      let x11 = x10 and_then set_quota lib n in
      let h11 = keep x10 h10 quota-Keeps in
      let x12 = x11 and_then set_validity lib n in
      let h12 = keep x11 h11 validity-Keeps in
      let x13 = x12 and_then set_rating_group lib n in
      let h13 = keep x12 h12 rating_group-Keeps in
      let x14 = x13 and_then set_redirect n in
      let h14 = keep x13 h13 redirect-Keeps in
      Holds-and_then (x14 and_then check_redirect n) (set_flags n)
        (Holds-and_then x14 (check_redirect n) h14 check_redirect_makes) flags-Keeps

  -- An action that starts with a known verdict and without a target.
  pub parse_action-IsAction :
      (c : Compiler) (a : Action)
      → P c
      → a.verdict ≤ 2
      → a.redirect_id ≡ 0
      → Holds P (IsAction count) (parse_action lib c n a)
  unfolding parse_action check_unknown_keys
  parse_action-IsAction c a p known none_yet = elim (Bool-cases (is_map n)) [
    | inr e ↦ rw e (failed (quiet.on_err c (line_of n) p))
    | inl e ↦ rw e (
        all_members (succeed (check_unknown_keys c n action_keys) a) (
          done (check_fields-quiet quiet c (fields_of n) action_keys p)
            record { known = known; target = inl none_yet }))
  ]
