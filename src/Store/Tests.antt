-- ===== src/Store/Tests.antt =====
-- A store of half load that holds one subscriber, and the theorems on it.
use real_time_policy_authori.Common.{
  ◌-◌, ◌*◌, ◌^◌, ◌≤◌, ◌≡◌, ◌≢◌, refl, some, length, arith, ltb, is_some,
}
use real_time_policy_authori.Store.{
  SubscriberRecord, SubscriberStore, LoadLimit, no_record, blank, upsert, find, add_usage,
  reset_period,
}
use real_time_policy_authori.Store.Slots.{Directory}
use real_time_policy_authori.Store.Writes.{assign}
use real_time_policy_authori.Store.Grow.{nowhere, blank-Holds}
use real_time_policy_authori.Store.Refines.{IsStore, Upserts, upsert-refines, find-refines}
use real_time_policy_authori.Store.Usage.{
  amend, bump, restart, add_usage-refines, reset_period-refines,
}

-- the load factor 0.5
abbrev half : LoadLimit
half = record {
  over = λ n cap. ltb cap (n * 2);
  over-lt = λ n cap pos h. ground arith;
  over-zero = λ cap. ground arith;
  over_mono = λ m n cap cap' le le' h. ground arith;
  over_double = λ n cap wide h. ground arith;
}

empty-IsStore : IsStore half nowhere (blank 8)
empty-IsStore = record { exponent = 3; holds = blank-Holds half 3 8 (omega arith) refl }

abbrev somebody : SubscriberRecord
somebody = record no_record { imsi = 310260000000001; bytes_used_period = 5; home_plmn = 310260 }

empty_small : length (blank 8).slots ≤ 2 ^ 56
empty_small = omega arith

somebody_known : somebody.imsi ≢ 0
somebody_known = omega arith

upsert-refines_example : Upserts half nowhere somebody (upsert half 1 (blank 8) somebody)
upsert-refines_example = upsert-refines half empty-IsStore empty_small 0 somebody somebody_known

abbrev stored : Upserts half nowhere somebody (upsert half 1 (blank 8) somebody)
stored = upsert-refines half empty-IsStore empty_small 0 somebody somebody_known

abbrev one_subscriber : Directory
one_subscriber = assign nowhere 310260000000001 somebody

find-refines_example : find stored.0 310260000000001 ≡ some (one_subscriber 310260000000001)
find-refines_example = find-refines half stored.2 310260000000001

add_usage-refines_example :
    (s : SubscriberStore) × (add_usage stored.0 310260000000001 (2 ^ 64 - 1) ≡ some s)
    × IsStore half (amend one_subscriber 310260000000001 (bump (2 ^ 64 - 1))) s
add_usage-refines_example = add_usage-refines half stored.2 310260000000001 (2 ^ 64 - 1)

reset_period-refines_example :
    (s : SubscriberStore) × (reset_period stored.0 310260000000001 9
      ≡ some (is_some (one_subscriber 310260000000001), s))
    × IsStore half (amend one_subscriber 310260000000001 (restart 9)) s
reset_period-refines_example = reset_period-refines half stored.2 310260000000001 9
