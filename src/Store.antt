-- ===== src/Store.antt =====
-- include/policy/subscriber_store.hpp and src/subscriber_store.cpp: the open-addressing table of
-- subscriber records. Key 0 marks an empty slot. `none` is a probe that never ends, or growth that
-- is nested deeper than `depth`; the memory that `grow` asks for is taken to be there.
--
-- The load factor is a `double` in [0.25, 0.9]. Its only use is the comparison of `upsert`, which is
-- the parameter `LoadLimit.over`.
pub mod Slots
pub mod Writes
pub mod Grow
pub mod Refines
pub mod Usage
mod Tests
use real_time_policy_authori.Common.{
  ℕ, zero, suc, ◌+◌, ◌-◌, ◌*◌, ◌/◌, ◌%◌, ◌^◌, ◌≤◌, ◌<◌, ◌≡◌, Bool, true, false, Option, none, some,
  List, [], ◌∷◌, length, get_or, set, replicate, ◌==◌, if◌then◌else◌, bit_and, bit_xor,
}
use real_time_policy_authori.FlatSet.{◌>>=◌}
use real_time_policy_authori.Probe.Loop.{probe}

pub record SubscriberRecord : Type 0 where
  pub imsi : ℕ
  pub imei : ℕ
  pub plan_id : ℕ
  pub status : ℕ
  pub bytes_used_period : ℕ
  pub period_reset_ts : ℕ
  pub home_plmn : ℕ
  pub flags : ℕ

-- `SubscriberRecord{}`
abbrev pub no_record : SubscriberRecord
no_record = record {
  imsi = 0;
  imei = 0;
  plan_id = 0;
  status = 0;
  bytes_used_period = 0;
  period_reset_ts = 0;
  home_plmn = 0;
  flags = 0;
}

-- `over n cap` is `n > cap * max_load_factor`. The laws hold for every factor in [0.25, 0.9].
pub record LoadLimit : Type 0 where
  pub over : ℕ → ℕ → Bool
  pub over-lt : (n cap : ℕ) → 0 < cap → over n cap ≡ false → n < cap
  pub over-zero : (cap : ℕ) → over 0 cap ≡ false
  pub over_mono : (m n cap cap' : ℕ) → m ≤ n → cap ≤ cap' → over n cap ≡ false → over m cap' ≡ false
  pub over_double : (n cap : ℕ) → 8 ≤ cap → over n cap ≡ false → over (n + 1) (cap * 2) ≡ false

pub record SubscriberStore : Type 0 where
  pub slots : List SubscriberRecord
  pub mask : ℕ
  pub size : ℕ

-- `slots_.assign(cap, SubscriberRecord{})` and the mask
abbrev pub blank : ℕ → SubscriberStore
blank cap = record { slots = replicate cap no_record; mask = cap - 1; size = 0 }

unfoldable pub hash : ℕ → ℕ
hash x =
    let a = (x + 0x9E3779B97F4A7C15) % 2 ^ 64 in
    let b = bit_xor a (a / 2 ^ 30) * 0xBF58476D1CE4E5B9 % 2 ^ 64 in
    let c = bit_xor b (b / 2 ^ 27) * 0x94D049BB133111EB % 2 ^ 64 in bit_xor c (c / 2 ^ 31)

abbrev pub slot : SubscriberStore → ℕ → SubscriberRecord
slot s j = get_or s.slots j no_record

abbrev pub imsi_at : SubscriberStore → ℕ → ℕ
imsi_at s j = (slot s j).imsi

-- the loop of `find`, `find_mutable` and `upsert`
unfoldable pub probe_slots : SubscriberStore → ℕ → Option ℕ
unfolding probe hash
probe_slots s key = probe (imsi_at s) s.mask key (length s.slots) (bit_and (hash key) s.mask)

-- `find_mutable`: the index of the record, `some none` for the null pointer
unfoldable pub find_mutable : SubscriberStore → ℕ → Option (Option ℕ)
unfolding probe_slots
find_mutable s imsi =
    if imsi == 0
    then some none
    else (probe_slots s imsi >>= λ i. some (if imsi_at s i == imsi then some i else none))

unfoldable pub find : SubscriberStore → ℕ → Option (Option SubscriberRecord)
unfolding probe_slots
find s imsi =
    if imsi == 0
    then some none
    else (probe_slots s imsi >>= λ i. some (if imsi_at s i == imsi then some (slot s i) else none))

-- the second half of `upsert`
unfoldable pub place : SubscriberStore → SubscriberRecord → Option SubscriberStore
unfolding probe_slots
place s rec = probe_slots s rec.imsi >>= λ i. some (
    if imsi_at s i == rec.imsi
    then record s { slots = set s.slots i rec }
    else record s { slots = set s.slots i rec; size = s.size + 1 })

-- the loop of `grow` over the old slots
unfoldable pub reinsert :
    (SubscriberStore → SubscriberRecord → Option (Bool × SubscriberStore))
    → SubscriberStore
    → List SubscriberRecord
    → Option SubscriberStore
reinsert up s [] = some s
reinsert up s (r ∷ old) =
    let next : Option SubscriberStore =
      if r.imsi == 0 then some s else (up s r >>= λ t. some t.1) in
    next >>= λ s'. reinsert up s' old

module _ (limit : LoadLimit) where
  -- `upsert`, with `grow` for its growth
  unfoldable pub upsert_with :
      (SubscriberStore → ℕ → Option SubscriberStore)
      → SubscriberStore
      → SubscriberRecord
      → Option (Bool × SubscriberStore)
  unfolding place
  upsert_with grow s rec =
      if rec.imsi == 0
      then some (false, s)
      else ((if limit.over (s.size + 1) (length s.slots)
            then grow s (length s.slots * 2 % 2 ^ 64)
            else some s)
          >>= λ s'. place s' rec >>= λ s''. some (true, s''))

  -- `grow`, with `up` for its calls of `upsert`
  unfoldable pub grow :
      (SubscriberStore → SubscriberRecord → Option (Bool × SubscriberStore))
      → SubscriberStore
      → ℕ
      → Option SubscriberStore
  unfolding reinsert
  grow up s new_capacity = reinsert up (blank new_capacity) s.slots

  -- `upsert` calls `grow`, which calls `upsert`: nested at most `depth` times
  unfoldable pub upsert : ℕ → SubscriberStore → SubscriberRecord → Option (Bool × SubscriberStore)
  unfolding upsert_with grow
  upsert zero s rec = upsert_with (λ _ _. none) s rec
  upsert (suc depth) s rec = upsert_with (grow (upsert depth)) s rec

-- a relaxed fetch-add on a 64-bit counter
unfoldable pub add_usage : SubscriberStore → ℕ → ℕ → Option SubscriberStore
unfolding find_mutable
add_usage s imsi bytes = find_mutable s imsi >>= elim [
  | none ↦ some s
  | some i ↦
      let r = slot s i in
      some (record s {
        slots =
            set s.slots i (record r { bytes_used_period = (r.bytes_used_period + bytes) % 2 ^ 64 });
      })
]

unfoldable pub reset_period : SubscriberStore → ℕ → ℕ → Option (Bool × SubscriberStore)
unfolding find_mutable
reset_period s imsi new_reset_ts = find_mutable s imsi >>= elim [
  | none ↦ some (false, s)
  | some i ↦
      let r = slot s i in
      some (
        true,
        record s {
          slots =
              set s.slots i (record r { bytes_used_period = 0; period_reset_ts = new_reset_ts });
        },
      )
]
