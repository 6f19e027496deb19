-- ===== src/Store/Usage.antt =====
-- The constructor, `add_usage` and `reset_period`, as changes of the map.
use mathlib.Core.Path.{fun_ext}
use mathlib.Core.Option
use real_time_policy_authori.Common.{
  ℕ, ◌+◌, ◌%◌, ◌^◌, ◌≤◌, ◌≡◌, refl, subst, none, some, ◌==◌, ==_iff, if◌then◌else◌, Bool-cases, inl,
  inr, is_some,
}
use mathlib.Core.Option.{Option}
use real_time_policy_authori.FlatSet.{◌>>=◌}
use real_time_policy_authori.Probe.Pow2.{next_pow2, next_pow2-Rounds}
use real_time_policy_authori.Store.{
  SubscriberRecord, SubscriberStore, LoadLimit, blank, add_usage, reset_period,
}
use real_time_policy_authori.Store.Slots.{Directory}
use real_time_policy_authori.Store.Writes.{assign}
use real_time_policy_authori.Store.Grow.{nowhere, blank-Holds}
use real_time_policy_authori.Store.Refines.{IsStore, find_mutable_lem, changed}

-- the constructor, after `needed` is computed from the number of subscribers and the load factor
unfoldable pub create : ℕ → Option SubscriberStore
create needed = next_pow2 needed >>= λ cap. some (blank cap)

-- the view in which one record is changed, if it is there
abbrev pub amend : Directory → ℕ → (SubscriberRecord → SubscriberRecord) → Directory
amend f imsi change q = if q == imsi then Option.map change (f q) else f q

abbrev pub bump : ℕ → SubscriberRecord → SubscriberRecord
bump bytes r = record r { bytes_used_period = (r.bytes_used_period + bytes) % 2 ^ 64 }

abbrev pub restart : ℕ → SubscriberRecord → SubscriberRecord
restart ts r = record r { bytes_used_period = 0; period_reset_ts = ts }

amend_absent :
    (f : Directory) (imsi : ℕ) (change : SubscriberRecord → SubscriberRecord)
    → f imsi ≡ none
    → f ≡ amend f imsi change
amend_absent f imsi change e = fun_ext (λ q. elim (Bool-cases (q == imsi)) [
  | inl same ↦ let key : q ≡ imsi = (==_iff _ _).0 same in rw (same, key, e)
  | inr other ↦ rw other
])

amend_present :
    (f : Directory) (imsi : ℕ) (change : SubscriberRecord → SubscriberRecord) {r : SubscriberRecord}
    → f imsi ≡ some r
    → assign f imsi (change r) ≡ amend f imsi change
amend_present f imsi change e = fun_ext (λ q. elim (Bool-cases (q == imsi)) [
  | inl same ↦ let key : q ≡ imsi = (==_iff _ _).0 same in rw (same, key, e)
  | inr other ↦ rw other
])

module _ (limit : LoadLimit) where
  -- The constructor makes an empty store, for every capacity that a 64-bit size can round up to.
  pub create-IsStore :
      (needed : ℕ)
      → needed ≤ 2 ^ 63
      → (s : SubscriberStore) × (create needed ≡ some s) × IsStore limit nowhere s
  unfolding create
  create-IsStore needed fits =
      let (cap, run, r) = next_pow2-Rounds needed fits in
      (
        blank cap,
        rw (run, ◌>>=◌) refl,
        record {
          exponent = r.exponent;
          holds = blank-Holds limit r.exponent cap r.at_least r.is_pow;
        },
      )

  module _ {f : Directory} {s : SubscriberStore} (is : IsStore limit f s) (imsi : ℕ) where
    -- `add_usage` returns; it adds to the counter of that subscriber, modulo 2 ^ 64, and changes
    -- nothing else; for an unknown IMSI it changes nothing.
    pub add_usage-refines :
        (bytes : ℕ)
        → (s' : SubscriberStore) × (add_usage s imsi bytes ≡ some s')
          × IsStore limit (amend f imsi (bump bytes)) s'
    unfolding add_usage
    add_usage-refines bytes = elim (find_mutable_lem limit is imsi (bump bytes) (λ r. refl)) [
      | inl (run, absent) ↦ (
        s,
        rw (run, ◌>>=◌) refl,
        subst (λ g. IsStore limit g s) (amend_absent f imsi (bump bytes) absent) is,
      )
      | inr (p, run, there, is') ↦ (
        _,
        rw (run, ◌>>=◌) refl,
        subst (λ g. IsStore limit g (changed limit is imsi (bump bytes) (λ r. refl) p))
            (amend_present f imsi (bump bytes) there) is',
      )
    ]

    -- `reset_period` returns true exactly for a known IMSI; it sets that subscriber's counter to 0
    -- and the time of the next reset, and changes nothing else.
    pub reset_period-refines :
        (ts : ℕ)
        → (s' : SubscriberStore) × (reset_period s imsi ts ≡ some (is_some (f imsi), s'))
          × IsStore limit (amend f imsi (restart ts)) s'
    unfolding reset_period
    reset_period-refines ts = elim (find_mutable_lem limit is imsi (restart ts) (λ r. refl)) [
      | inl (run, absent) ↦ (
        s,
        rw (run, absent, ◌>>=◌) refl,
        subst (λ g. IsStore limit g s) (amend_absent f imsi (restart ts) absent) is,
      )
      | inr (p, run, there, is') ↦ (
        _,
        rw (run, there, ◌>>=◌) refl,
        subst (λ g. IsStore limit g (changed limit is imsi (restart ts) (λ r. refl) p))
            (amend_present f imsi (restart ts) there) is',
      )
    ]
