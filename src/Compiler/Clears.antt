-- ===== src/Compiler/Clears.antt =====
-- src/rules.cpp, `parse_action`: no member of an action sets a bit of the inherit mask once `inherit` is read.
use real_time_policy_authori.Common.{
  ℕ, ◌≡◌, false, not, ◌&&◌, none, some, bit_and, arith, ◌==◌, ltb, Bool-cases, inl, inr,
}
use real_time_policy_authori.Common.Bits.{test_bit, test_bit-bit_and}
use real_time_policy_authori.Rules.{Action}
use real_time_policy_authori.Yaml.{Node, find, has, Libc}
use real_time_policy_authori.Compiler.{Compiler, Outcome, ◌and_then◌}
use real_time_policy_authori.Compiler.Names.{parse_decision_flag, is_standardized_5qi}
use real_time_policy_authori.Compiler.Actions.{
  set_5qi, check_5qi, set_arp, complete_qos, set_ambr_ul, set_ambr_dl, check_ambr, set_quota,
  set_validity, set_rating_group, set_redirect, check_redirect, set_flags,
}
use real_time_policy_authori.Compiler.Outcomes.{
  Holds, failed, done, IsQuiet, Holds-and_then, store_member-Holds, read_names-Holds,
}

abbrev pub Any : Compiler → Type 0
Any c = Unit

pub any_quiet : IsQuiet Any
any_quiet = record { on_err = λ c line p. tt; on_warn = λ c w p. tt }

pub any_value : {A : Type 0} (x : Outcome A) → Holds Any (λ (a : A). Unit) x
any_value (c, none) = failed tt
any_value (c, some a) = done tt tt

pub cleared : (m i k : ℕ) → test_bit m i ≡ false → test_bit (bit_and m k) i ≡ false
cleared m i k h = ground (arith, test_bit-bit_and m k i)

pub clears : (m i k : ℕ) → test_bit k i ≡ false → test_bit (bit_and m k) i ≡ false
clears m i k h = ground (arith, test_bit-bit_and m k i)

module _ {D : Type 0} (lib : Libc D) (n : Node) (i : ℕ) where
  -- the plan does not supply it
  abbrev pub Clear : Action → Type 0
  Clear a = test_bit a.inherit_mask i ≡ false

  abbrev pub Keeps : (Compiler → Action → Outcome Action) → Type 0
  Keeps f = (c : Compiler) (a : Action) → Clear a → Holds Any Clear (f c a)

  abbrev pub Makes : (Compiler → Action → Outcome Action) → Type 0
  Makes f = (c : Compiler) (a : Action) → Holds Any Clear (f c a)

  pub keep :
      {f : Compiler → Action → Outcome Action} (x : Outcome Action)
      → Holds Any Clear x
      → Keeps f
      → Holds Any Clear (x and_then f)
  keep {f} x h k = Holds-and_then x f h (λ c a p q. k c a q)

  pub make :
      {f : Compiler → Action → Outcome Action} (x : Outcome Action)
      → Makes f
      → Holds Any Clear (x and_then f)
  make {f} x k = Holds-and_then x f (any_value x) (λ c a p q. k c a)

  pub set_5qi-Keeps : Keeps (set_5qi lib n)
  unfolding set_5qi
  set_5qi-Keeps c a h =
      store_member-Holds any_quiet _ _ (find n "qos_5qi") c a tt h
        (λ v x e. cleared a.inherit_mask i _ h)

  pub check_5qi-Keeps : Keeps (check_5qi n)
  unfolding check_5qi
  check_5qi-Keeps c a h =
      elim (Bool-cases
        (has n "qos_5qi" && not (is_standardized_5qi a.qos_5qi) && ltb a.qos_5qi 128)) [
          | inl e ↦ rw e (done tt h)
          | inr e ↦ rw e (done tt h)
        ]

  pub arp-Keeps : Keeps (set_arp lib n)
  unfolding set_arp
  arp-Keeps c a h =
      store_member-Holds any_quiet _ _ (find n "arp") c a tt h
        (λ v x e. cleared a.inherit_mask i _ h)

  pub complete_qos-Keeps : Keeps (complete_qos n)
  unfolding complete_qos
  complete_qos-Keeps c a h = elim (Bool-cases (has n "qos_5qi")) [
    | inl e ↦ elim (Bool-cases (has n "arp")) [
      | inl e' ↦ rw (e, e') (done tt h)
      | inr e' ↦ rw (e, e') (done tt h)
    ]
    | inr e ↦ elim (Bool-cases (has n "arp")) [
      | inl e' ↦ rw (e, e') (done tt h)
      | inr e' ↦ rw (e, e') (done tt h)
    ]
  ]

  pub ambr_ul-Keeps : Keeps (set_ambr_ul lib n)
  unfolding set_ambr_ul
  ambr_ul-Keeps c a h = store_member-Holds any_quiet _ _ (find n "ambr_ul") c a tt h (λ v x e. h)

  pub ambr_dl-Keeps : Keeps (set_ambr_dl lib n)
  unfolding set_ambr_dl
  ambr_dl-Keeps c a h = store_member-Holds any_quiet _ _ (find n "ambr_dl") c a tt h (λ v x e. h)

  pub check_ambr-Keeps : Keeps (check_ambr n)
  unfolding check_ambr
  check_ambr-Keeps c a h = elim (Bool-cases (has n "ambr_ul")) [
    | inl e ↦ elim (Bool-cases (has n "ambr_dl")) [
      | inl e' ↦ rw (e, e') (done tt (cleared a.inherit_mask i _ h))
      | inr e' ↦ rw (e, e') (failed tt)
    ]
    | inr e ↦ elim (Bool-cases (has n "ambr_dl")) [
      | inl e' ↦ rw (e, e') (failed tt)
      | inr e' ↦ rw (e, e') (done tt h)
    ]
  ]

  pub quota-Keeps : Keeps (set_quota lib n)
  unfolding set_quota
  quota-Keeps c a h =
      store_member-Holds any_quiet _ _ (find n "quota") c a tt h
        (λ v x e. cleared a.inherit_mask i _ h)

  pub validity-Keeps : Keeps (set_validity lib n)
  unfolding set_validity
  validity-Keeps c a h =
      store_member-Holds any_quiet _ _ (find n "quota_validity") c a tt h
        (λ v x e. cleared a.inherit_mask i _ h)

  pub rating_group-Keeps : Keeps (set_rating_group lib n)
  unfolding set_rating_group
  rating_group-Keeps c a h =
      store_member-Holds any_quiet _ _ (find n "rating_group") c a tt h
        (λ v x e. cleared a.inherit_mask i _ h)

  pub redirect-Keeps : Keeps (set_redirect n)
  unfolding set_redirect
  redirect-Keeps c a h = store_member-Holds any_quiet _ _ (find n "redirect") c a tt h (λ v x e. h)

  pub check_redirect-Keeps : Keeps (check_redirect n)
  unfolding check_redirect
  check_redirect-Keeps c a h = elim (Bool-cases (a.verdict == 2 && a.redirect_id == 0)) [
    | inl e ↦ rw e (failed tt)
    | inr e ↦ rw e (done tt h)
  ]

  pub flags-Keeps : Keeps (set_flags n)
  unfolding set_flags
  flags-Keeps c a h =
      read_names-Holds any_quiet parse_decision_flag (find n "flags") a.set_flags _ c a tt h
        (λ m. h)

  -- the members that are read after each of those that the plan may supply
  abbrev pub end_of : Outcome Action → Outcome Action
  end_of x = x and_then set_redirect n and_then check_redirect n and_then set_flags n

  pub after_rating : (x : Outcome Action) → Holds Any Clear x → Holds Any Clear (end_of x)
  after_rating x h =
      let a = keep x h redirect-Keeps in
      let b = keep (x and_then set_redirect n) a check_redirect-Keeps in
      keep (x and_then set_redirect n and_then check_redirect n) b flags-Keeps

  pub after_validity :
      (x : Outcome Action)
      → Holds Any Clear x
      → Holds Any Clear (end_of (x and_then set_rating_group lib n))
  after_validity x h =
      after_rating (x and_then set_rating_group lib n) (keep x h rating_group-Keeps)

  abbrev pub after_ambr_of : Outcome Action → Outcome Action
  after_ambr_of x = x and_then set_quota lib n and_then set_validity lib n

  pub after_ambr :
      (x : Outcome Action)
      → Holds Any Clear x
      → Holds Any Clear (end_of (after_ambr_of x and_then set_rating_group lib n))
  after_ambr x h =
      after_validity (after_ambr_of x)
        (keep (x and_then set_quota lib n) (keep x h quota-Keeps) validity-Keeps)

  abbrev pub after_qos_of : Outcome Action → Outcome Action
  after_qos_of x =
      x
      and_then complete_qos n
      and_then set_ambr_ul lib n
      and_then set_ambr_dl lib n
      and_then check_ambr n

  pub after_qos :
      (x : Outcome Action)
      → Holds Any Clear x
      → Holds Any Clear (end_of (after_ambr_of (after_qos_of x) and_then set_rating_group lib n))
  after_qos x h =
      let a = keep x h complete_qos-Keeps in
      let b = keep (x and_then complete_qos n) a ambr_ul-Keeps in
      let c = keep (x and_then complete_qos n and_then set_ambr_ul lib n) b ambr_dl-Keeps in
      after_ambr (after_qos_of x) (
        keep (x and_then complete_qos n and_then set_ambr_ul lib n and_then set_ambr_dl lib n) c
          check_ambr-Keeps)

  pub after_5qi :
      (x : Outcome Action)
      → Holds Any Clear x
      → Holds Any Clear (
          end_of (
            after_ambr_of (after_qos_of (x and_then check_5qi n and_then set_arp lib n))
            and_then set_rating_group lib n))
  after_5qi x h =
      after_qos (x and_then check_5qi n and_then set_arp lib n)
        (keep (x and_then check_5qi n) (keep x h check_5qi-Keeps) arp-Keeps)
