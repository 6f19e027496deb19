-- ===== src/Engine/Word.antt =====
-- The groups of bits of the word that src/engine.cpp builds, from what Bits says of each place.
use real_time_policy_authori.Common.{
  ℕ, ◌+◌, ◌-◌, ◌*◌, ◌%◌, ◌^◌, ◌≤◌, ◌<◌, ◌≡◌, ◌≢◌, ◌↔◌, inl, inr, refl, sym, ap, ◌∙◌, Bool, true,
  false, not, ◌&&◌, ◌||◌, Option, none, some, List, arith, get_or, ◌==◌, ltb, leb, Option-cases,
  Bool-cases, subst,
}
use mathlib.Core.Option.{some-injective}
use mathlib.Core.Bool.{and-false, or-false}
use real_time_policy_authori.Common.Bits.{test_bit, bit_and-pow}
use real_time_policy_authori.Rules.{RuleSet, PlanConfig, plan}
use real_time_policy_authori.Rules.Window
use real_time_policy_authori.Rules.Window.{TimeWindow}
use real_time_policy_authori.Store.{SubscriberRecord}
use real_time_policy_authori.Wire.Messages.{PolicyRequest}
use real_time_policy_authori.Engine.{midnight, status_bit, usage_of, quota_of, request_features}
use real_time_policy_authori.Engine.Usage.{usage_at_least_permille, usage_at_least_permille-exact}
use real_time_policy_authori.Engine.Returns.{IsReady, is_blocked, is_partner, word}
use real_time_policy_authori.Engine.Bits.{
  request_bit, known_bit, test_bit-request_features, test_bit-subscriber_features,
  test_bit-unknown_features,
}
use real_time_policy_authori.Engine.Facts.{IsPlaced, usage_due, HasUsed, AreWords}

status_bit_range : (s : ℕ) → (24 ≤ status_bit s) × (status_bit s < 28)
unfolding status_bit
status_bit_range s = ground arith

status_active : (r : SubscriberRecord) → (status_bit r.status == 24) ≡ (r.status == 0)
unfolding status_bit
status_active r = ground arith

status_suspended : (r : SubscriberRecord) → (status_bit r.status == 25) ≡ (r.status == 1)
unfolding status_bit
status_suspended r = ground arith

status_barred : (r : SubscriberRecord) → (status_bit r.status == 26) ≡ (r.status == 2)
unfolding status_bit
status_barred r = ground arith

status_unknown : (r : SubscriberRecord) → (status_bit r.status == 27) ≡ ltb 2 r.status
unfolding status_bit
status_unknown r = ground arith

pub usage_of-due :
    (req : PolicyRequest) (r : SubscriberRecord) → usage_of req (some r) ≡ usage_due req r
unfolding usage_of
usage_of-due req r = ground (arith, bit_and-pow 2 req.flags)

no_quota : (usage permille : ℕ) → usage_at_least_permille usage 0 permille ≢ true
unfolding usage_at_least_permille
no_quota usage permille h = cc

quota_reached :
    (rs : RuleSet) (req : PolicyRequest) (r : SubscriberRecord) (permille : ℕ)
    → AreWords rs req (some r)
    → permille < 2 ^ 32
    → (usage_at_least_permille (usage_of req (some r)) (quota_of (plan rs r.plan_id)) permille
        ≡ true)
      ↔ HasUsed rs req (some r) permille
quota_reached rs req r permille (h, k, q) small =
    rw (usage_of-due req r) (elim (Option-cases (plan rs r.plan_id)) [
      | inl no_plan ↦
          rw no_plan
            (λ u. absurd (no_quota (usage_due req r) permille u), λ has_plan. cc has_plan.1)
      | inr (p, at_plan) ↦
          let exact =
            usage_at_least_permille-exact (usage_due req r) p.quota_bytes permille (ground arith)
              (q p at_plan) small in
          rw at_plan (
            λ u. (p, refl, (exact.0 u).0, (exact.0 u).1),
            λ due. exact.1 (
                subst
                  (λ (t : PlanConfig).
                    (t.quota_bytes ≢ 0) × (t.quota_bytes * permille ≤ usage_due req r * 1000))
                  (sym (some-injective _ _ due.1)) (due.2, due.3)),
          )
    ])

apart : (n i : ℕ) → n < 48 → (n == 48 + i) ≡ false
apart n i h = ground arith

module _ {blocked partners : List ℕ} {rs : RuleSet} (ready : IsReady blocked partners rs)
    (req : PolicyRequest) (now : ℕ) where
  known_lem :
      (r : SubscriberRecord) (j : ℕ)
      → test_bit (word blocked partners rs req (some r) now) j ≡ (
          request_bit rs req (is_blocked blocked partners rs req) j
          || known_bit rs req r now (is_partner blocked partners rs req r) j)
  unfolding word
  known_lem r j =
      test_bit-subscriber_features rs req r now (is_partner blocked partners rs req r)
        (request_features rs req (is_blocked blocked partners rs req)) j
      ∙ ap (λ (b : Bool). b || known_bit rs req r now (is_partner blocked partners rs req r) j)
          (test_bit-request_features rs req (is_blocked blocked partners rs req) j)

  unknown_lem :
      (j : ℕ)
      → test_bit (word blocked partners rs req none now) j
        ≡ (request_bit rs req (is_blocked blocked partners rs req) j || 27 == j || 29 == j)
  unfolding word
  unknown_lem j =
      test_bit-unknown_features (request_features rs req (is_blocked blocked partners rs req)) j
      ∙ ap (λ (b : Bool). b || 27 == j || 29 == j)
          (test_bit-request_features rs req (is_blocked blocked partners rs req) j)

  request_none :
      (j : ℕ) → 24 ≤ j → j < 32 → request_bit rs req (is_blocked blocked partners rs req) j ≡ false
  request_none j h k = ground arith

  place28 :
      (r : SubscriberRecord)
      → known_bit rs req r now (is_partner blocked partners rs req r) 28 ≡ (req.plmn == r.home_plmn)
  place28 r = ground (arith, status_bit_range r.status)

  place29 :
      (r : SubscriberRecord)
      → known_bit rs req r now (is_partner blocked partners rs req r) 29
        ≡ not (req.plmn == r.home_plmn)
  place29 r = ground (arith, status_bit_range r.status)

  place30 :
      (r : SubscriberRecord)
      → known_bit rs req r now (is_partner blocked partners rs req r) 30
        ≡ is_partner blocked partners rs req r
  place30 r = ground (arith, status_bit_range r.status)

  known_status :
      (r : SubscriberRecord) (j : ℕ)
      → 24 ≤ j
      → j < 28
      → known_bit rs req r now (is_partner blocked partners rs req r) j ≡ (status_bit r.status == j)
  known_status r j h k = ground arith

  status_at :
      (r : SubscriberRecord) (j : ℕ)
      → 24 ≤ j
      → j < 28
      → test_bit (word blocked partners rs req (some r) now) j ≡ (status_bit r.status == j)
  status_at r j h k = known_lem r j ∙ rw (request_none j h (omega arith), known_status r j h k) refl

  pub word_known :
      (r : SubscriberRecord)
      → IsPlaced partners req (some r) (word blocked partners rs req (some r) now)
  word_known r =
      let status = λ (j : ℕ) (h : 24 ≤ j) (k : j < 28). status_at r j h k in
      (
        status 24 (omega arith) (omega arith) ∙ status_active r,
        status 25 (omega arith) (omega arith) ∙ status_suspended r,
        status 26 (omega arith) (omega arith) ∙ status_barred r,
        status 27 (omega arith) (omega arith) ∙ status_unknown r,
        known_lem r 28 ∙ rw (request_none 28 (omega arith) (omega arith)) (place28 r),
        known_lem r 29 ∙ rw (request_none 29 (omega arith) (omega arith)) (place29 r),
        known_lem r 30 ∙ rw (request_none 30 (omega arith) (omega arith)) (place30 r),
      )

  window_known :
      (r : SubscriberRecord) (j : ℕ)
      → 40 ≤ j
      → j < 48
      → known_bit rs req r now (is_partner blocked partners rs req r) j ≡ false
  window_known r j h k = ground (arith, status_bit_range r.status)

  window_request :
      (i : ℕ)
      → i < 8
      → request_bit rs req (is_blocked blocked partners rs req) (40 + i) ≡ (
          ltb i rs.time_window_count
          && Window.contains (get_or rs.time_windows i midnight) (req.local_minute % 1440))
  window_request i h =
      let entry : (40 + i) - 40 ≡ i = omega arith in
      rw entry (elim (Bool-cases (ltb i rs.time_window_count)) [
        | inl low ↦ let below : i < rs.time_window_count = ground arith in rw low (ground arith)
        | inr high ↦ let above : rs.time_window_count ≤ i = ground arith in rw high (ground arith)
      ])

  usage_request : (i : ℕ) → request_bit rs req (is_blocked blocked partners rs req) (48 + i) ≡ false
  usage_request i = ground (arith, ready.windows)

  usage_known :
      (r : SubscriberRecord) (i : ℕ)
      → known_bit rs req r now (is_partner blocked partners rs req r) (48 + i) ≡ (
          ltb i rs.usage_threshold_count
          && usage_at_least_permille
              (usage_of req (some r))
              (quota_of (plan rs r.plan_id))
              (get_or rs.usage_thresholds_permille i 0))
  usage_known r i =
      let entry : (48 + i) - 48 ≡ i = omega arith in
      let low : leb 48 (48 + i) ≡ true = ground arith in
      let high : ltb (48 + i) (48 + rs.usage_threshold_count) ≡ ltb i rs.usage_threshold_count =
        ground arith in
      let far = λ (n : ℕ) (h : n < 48). apart n i h in
      rw
        (
          entry,
          low,
          high,
          far (status_bit r.status) (omega (arith, status_bit_range r.status)),
          far 28 (omega arith),
          far 29 (omega arith),
          far 30 (omega arith),
          far 31 (omega arith),
          far 35 (omega arith),
          far 37 (omega arith),
          far 38 (omega arith),
        )
        (simp (and-false, or-false))

  pub word_window :
      (rec : Option SubscriberRecord) (i : ℕ)
      → i < 8
      → test_bit (word blocked partners rs req rec now) (40 + i) ≡ (
          ltb i rs.time_window_count
          && Window.contains (get_or rs.time_windows i midnight) (req.local_minute % 1440))
  word_window none i h = unknown_lem (40 + i) ∙ rw (window_request i h) (ground arith)
  word_window (some r) i h =
      known_lem r (40 + i)
      ∙ rw (window_known r (40 + i) (omega arith) (omega arith), window_request i h) (or-false _)

  pub word_threshold :
      (rec : Option SubscriberRecord) (i : ℕ)
      → AreWords rs req rec
      → get_or rs.usage_thresholds_permille i 0 < 2 ^ 32
      → (test_bit (word blocked partners rs req rec now) (48 + i) ≡ true) ↔ (
          (i < rs.usage_threshold_count)
          × HasUsed rs req rec (get_or rs.usage_thresholds_permille i 0))
  word_threshold none i words small = rw (unknown_lem (48 + i), usage_request i) (ground arith)
  word_threshold (some r) i words small =
      let reached = quota_reached rs req r (get_or rs.usage_thresholds_permille i 0) words small in
      rw (known_lem r (48 + i), usage_request i, usage_known r i)
        (elim (Bool-cases (ltb i rs.usage_threshold_count)) [
          | inl low ↦ rw low (λ u. (ground arith, reached.0 u), λ both. reached.1 both.1)
          | inr high ↦ rw high (λ u. cc, λ both. absurd (ground (arith, both.0)))
        ])

  pub word_unknown : IsPlaced partners req none (word blocked partners rs req none now)
  word_unknown =
      let none_at = λ (j : ℕ) (h : 24 ≤ j) (k : j < 32). request_none j h k in
      (
        rw (unknown_lem 24, none_at 24 (omega arith) (omega arith)) refl,
        rw (unknown_lem 25, none_at 25 (omega arith) (omega arith)) refl,
        rw (unknown_lem 26, none_at 26 (omega arith) (omega arith)) refl,
        rw (unknown_lem 27, none_at 27 (omega arith) (omega arith)) refl,
        rw (unknown_lem 28, none_at 28 (omega arith) (omega arith)) refl,
        rw (unknown_lem 29, none_at 29 (omega arith) (omega arith)) refl,
        rw (unknown_lem 30, none_at 30 (omega arith) (omega arith)) refl,
      )
