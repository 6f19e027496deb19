-- ===== src/Engine/Returns.antt =====
-- Over sets that `FlatSet.rebuild` made, the look-ups return, and the decision is computed.
use real_time_policy_authori.Common.{
  ℕ, ◌≤◌, ◌≡◌, ◌∙◌, Bool, false, not, ◌&&◌, Option, none, some, List, ◌==◌, if◌then◌else◌, memb,
  Bool-cases, inl, inr,
}
use real_time_policy_authori.FlatSet
use real_time_policy_authori.FlatSet.{◌>>=◌}
use real_time_policy_authori.FlatSet.Refines.{Refines}
use real_time_policy_authori.Rules.{RuleSet, CompiledRule}
use real_time_policy_authori.Store.{SubscriberRecord}
use real_time_policy_authori.Wire.Messages.{PolicyRequest}
use real_time_policy_authori.Engine.{
  request_features, subscriber_features, unknown_features, build_features, plan_bit_for, first_hit,
  granted, strip_denied, evaluate,
}

-- A rule set as the control plane publishes it: its sets were built from `blocked` and `partners`.
pub record IsReady (blocked partners : List ℕ) (rs : RuleSet) : Type 0 where
  pub blocklist : Refines blocked rs.imei_blocklist
  pub partner_table : Refines partners rs.roaming_partners
  pub windows : rs.time_window_count ≤ 8
  pub thresholds : rs.usage_threshold_count ≤ 8

module _ (blocked partners : List ℕ) (rs : RuleSet) (req : PolicyRequest) where
  abbrev pub is_blocked : Bool
  is_blocked = not (req.imei == 0) && memb req.imei blocked

  abbrev pub is_partner : SubscriberRecord → Bool
  is_partner r = not (req.plmn == r.home_plmn) && (not (req.plmn == 0) && memb req.plmn partners)

  -- the feature word, with the sets read as lists
  unfoldable pub word : Option SubscriberRecord → ℕ → ℕ
  word none now = unknown_features (request_features rs req is_blocked)
  word (some r) now =
      subscriber_features rs req r now (is_partner r) (request_features rs req is_blocked)

  abbrev pub hit_of : Option SubscriberRecord → ℕ → Option CompiledRule
  hit_of rec now = first_hit rs.rules (word rec now) (plan_bit_for rec)

module _ {blocked partners : List ℕ} {rs : RuleSet} (ready : IsReady blocked partners rs)
    (req : PolicyRequest) (now : ℕ) where
  blocked_lem :
      (if req.imei == 0 then some false else FlatSet.contains rs.imei_blocklist req.imei)
      ≡ some (is_blocked blocked partners rs req)
  blocked_lem = elim (Bool-cases (req.imei == 0)) [
    | inl z ↦ rw z
    | inr nz ↦ rw nz (ready.blocklist.members req.imei ∙ rw nz)
  ]

  partner_lem :
      (r : SubscriberRecord)
      → (if req.plmn == r.home_plmn
          then some false
          else FlatSet.contains rs.roaming_partners req.plmn)
        ≡ some (is_partner blocked partners rs req r)
  partner_lem r = elim (Bool-cases (req.plmn == r.home_plmn)) [
    | inl home ↦ rw home
    | inr away ↦ rw away (ready.partner_table.members req.plmn)
  ]

  pub build_features-word :
      (rec : Option SubscriberRecord)
      → build_features rs req rec now ≡ some (word blocked partners rs req rec now)
  unfolding build_features word
  build_features-word none = rw (blocked_lem, ◌>>=◌)
  build_features-word (some r) = rw (blocked_lem, ◌>>=◌, partner_lem r, ◌>>=◌)

  pub evaluate_lem :
      (rec : Option SubscriberRecord)
      → evaluate rs req rec now
        ≡ some (strip_denied (granted rs req rec (hit_of blocked partners rs req rec now)))
  unfolding evaluate
  evaluate_lem rec = rw (build_features-word rec, ◌>>=◌)
