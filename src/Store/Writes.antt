-- ===== src/Store/Writes.antt =====
-- A write of a record to the slot where the probe for its IMSI stopped.
use mathlib.Core.Path.{fun_ext}
use real_time_policy_authori.Common.{
  ℕ, ◌+◌, ◌-◌, ◌^◌, ◌<◌, ◌≤◌, ◌≡◌, ◌≢◌, refl, sym, ◌∙◌, subst, false, some, get_or, set, ◌==◌,
  ==_iff, ==_refl, if◌then◌else◌, arith, Bool-cases, inl, inr, get_or-set, length-set, List, ◌⊎◌,
}
use real_time_policy_authori.FlatSet.{◌>>=◌}
use real_time_policy_authori.Probe.Loop.{update, probe-stop}
use real_time_policy_authori.Probe.Table.{IsTable, Stops, Present, update-IsTable}
use real_time_policy_authori.Store.{
  SubscriberRecord, SubscriberStore, LoadLimit, no_record, hash, slot, imsi_at, place,
}
use real_time_policy_authori.Store.Slots.{Directory, Holds, Probed, probed}

-- the view after a write
abbrev pub assign : Directory → ℕ → SubscriberRecord → Directory
assign f key r q = if q == key then some r else f q

module _ {limit : LoadLimit} {k : ℕ} {f : Directory} {s : SubscriberStore} (h : Holds limit k f s)
    (rec : SubscriberRecord) (p : ℕ) (nz : rec.imsi ≢ 0) (t : Probed h rec.imsi p) where
  abbrev pub written : List SubscriberRecord
  written = set s.slots p rec

  cell : (j : ℕ) → get_or written j no_record ≡ (if j == p then rec else slot s j)
  cell j = get_or-set s.slots p j rec no_record t.inside

  keys : update (imsi_at s) p rec.imsi ≡ (λ j. (get_or written j no_record).imsi)
  keys = fun_ext (λ j. ground (arith, cell j))

  -- no other slot holds the key
  alone : (j : ℕ) → j < 2 ^ k → imsi_at s j ≡ rec.imsi → j ≡ p
  alone j lt e =
      let here =
        subst (λ q. Stops hash (imsi_at s) k q j) e (h.table.placed j lt (λ z. nz (sym e ∙ z))) in
      cc (t.stop, here)

  stopped : (imsi_at s p ≡ rec.imsi) ⊎ (imsi_at s p ≡ 0)
  stopped = probe-stop (imsi_at s) (2 ^ k - 1) rec.imsi (2 ^ k) _ t.stop

  inside : p < 2 ^ k
  inside = omega (arith, h.width, t.inside)

  abbrev pub Next : ℕ → SubscriberStore
  Next n = record { slots = written; mask = s.mask; size = n }

  next_lists :
      (j : ℕ)
      → j < 2 ^ k
      → (get_or written j no_record).imsi ≢ 0
      → assign f rec.imsi rec (get_or written j no_record).imsi ≡ some (get_or written j no_record)
  next_lists j lt full = elim (Bool-cases (j == p)) [
    | inl here ↦ rw (cell j, here, ==_refl rec.imsi)
    | inr other ↦
        let old : get_or written j no_record ≡ slot s j = cell j ∙ rw other refl in
        let kept : imsi_at s j ≢ 0 = rw old at full in
        let apart : imsi_at s j == rec.imsi ≡ false = ground (arith, alone j lt) in
        rw (old, apart) (h.lists j lt kept)
  ]

  next_covers :
      (q : ℕ) {r : SubscriberRecord}
      → assign f rec.imsi rec q ≡ some r
      → q ≢ 0 × Present hash (λ j. (get_or written j no_record).imsi) k q
  next_covers q e = elim (Bool-cases (q == rec.imsi)) [
    | inl same ↦
        let key : q ≡ rec.imsi = (==_iff _ _).0 same in
        ((λ z. nz (sym key ∙ z)), (p, inside, rw (cell p, ==_refl p) (sym key)))
    | inr other ↦
        let (qz, (j, lt, at_j)) = h.covers q (rw other at e) in
        (qz, (j, lt, ground (arith, cell j, at_j, stopped)))
  ]

  place_over :
      (n : ℕ)
      → IsTable hash (λ j. (get_or written j no_record).imsi) k n
      → limit.over n (2 ^ k) ≡ false
      → Holds limit k (assign f rec.imsi rec) (Next n)
  place_over n table light = record {
    at_least = h.at_least;
    width = (length-set s.slots p rec ∙ h.width);
    masked = h.masked;
    table = table;
    light = light;
    lists = next_lists;
    covers = next_covers;
  }

  -- Over a record with the same key the size stays.
  pub rewrite-Holds : imsi_at s p ≡ rec.imsi → Holds limit k (assign f rec.imsi rec) (Next s.size)
  rewrite-Holds same =
      let kept : imsi_at s ≡ update (imsi_at s) p rec.imsi = fun_ext (λ j. ground (arith, same)) in
      place_over s.size (subst (λ g. IsTable hash g k s.size) (kept ∙ keys) h.table) h.light

  -- In an empty slot the size grows by one, which the load factor has to allow.
  pub fill-Holds :
      imsi_at s p ≡ 0
      → limit.over (s.size + 1) (2 ^ k) ≡ false
      → Holds limit k (assign f rec.imsi rec) (Next (s.size + 1))
  fill-Holds empty light =
      let room = limit.over-lt (s.size + 1) (2 ^ k) (omega (arith, h.table.room)) light in
      place_over (s.size + 1)
        (subst (λ g. IsTable hash g k (s.size + 1)) keys
          (update-IsTable h.table rec.imsi p nz t.stop inside empty room))
        light

-- `place` returns, and assigns the record to its IMSI, if the load factor allows one record more.
pub place-Holds :
    {limit : LoadLimit} {k : ℕ} {f : Directory} {s : SubscriberStore}
    → Holds limit k f s
    → (rec : SubscriberRecord) → rec.imsi ≢ 0
    → limit.over (s.size + 1) (2 ^ k) ≡ false
    → (s' : SubscriberStore) × (place s rec ≡ some s')
      × Holds limit k (assign f rec.imsi rec) s'
      × (s'.size ≤ s.size + 1)
unfolding place
place-Holds {limit} {k} {f} {s} h rec nz light =
    let (p, t) = probed h rec.imsi nz in
    elim (Bool-cases (imsi_at s p == rec.imsi)) [
      | inl hit ↦ (
        _,
        rw (t.run, ◌>>=◌, hit) refl,
        rewrite-Holds h rec p nz t ((==_iff _ _).0 hit),
        omega arith,
      )
      | inr miss ↦
          let empty : imsi_at s p ≡ 0 = ground (arith, stopped h rec p nz t) in
          (_, rw (t.run, ◌>>=◌, miss) refl, fill-Holds h rec p nz t empty light, omega arith)
    ]
