-- ===== src/Store/Slots.antt =====
-- A well-formed store, the map from IMSIs to records that it stands for, and `find`.
use real_time_policy_authori.Common.{
  ℕ, ◌-◌, ◌^◌, ◌<◌, ◌≤◌, ◌≡◌, ◌≢◌, refl, sym, ◌∙◌, false, Option, none, some, length, ◌==◌, ==_iff,
  if◌then◌else◌, arith, Bool-cases, Option-cases, inl, inr,
}
use real_time_policy_authori.FlatSet.{◌>>=◌}
use real_time_policy_authori.Probe.Table.{IsTable, Stops, Present, stops, Stops-Present}
use real_time_policy_authori.Store.{
  SubscriberRecord, SubscriberStore, LoadLimit, hash, slot, imsi_at, probe_slots, find,
}

-- the abstract view of a store
abbrev pub Directory : Type 0
Directory = ℕ → Option SubscriberRecord

-- A table of `2 ^ k` slots, at most as full as the load factor allows, that stands for `f`.
pub record Holds (limit : LoadLimit) (k : ℕ) (f : Directory) (s : SubscriberStore) : Type 0 where
  pub at_least : 3 ≤ k
  pub width : length s.slots ≡ 2 ^ k
  pub masked : s.mask ≡ 2 ^ k - 1
  pub table : IsTable hash (imsi_at s) k s.size
  pub light : limit.over s.size (2 ^ k) ≡ false
  pub lists : (j : ℕ) → j < 2 ^ k → imsi_at s j ≢ 0 → f (imsi_at s j) ≡ some (slot s j)
  pub covers : (q : ℕ) {r : SubscriberRecord} → f q ≡ some r → q ≢ 0 × Present hash (imsi_at s) k q

module _ {limit : LoadLimit} {k : ℕ} {f : Directory} {s : SubscriberStore}
    (h : Holds limit k f s) where
  -- where the probe for an IMSI stops, and what that says of the view
  pub record Probed (key p : ℕ) : Type 0 where
    pub run : probe_slots s key ≡ some p
    pub stop : Stops hash (imsi_at s) k key p
    pub inside : p < length s.slots
    pub sees : f key ≡ (if imsi_at s p == key then some (slot s p) else none)

  pub probed : (key : ℕ) → key ≢ 0 → (p : ℕ) × Probed key p
  unfolding probe_slots
  probed key nz =
      let (p, run, lt) = stops h.table key in
      let found = Stops-Present h.table key p nz run lt in
      (
        p,
        record {
          run = rw (h.width, h.masked) run;
          stop = run;
          inside = omega (arith, h.width);
          sees = elim (Bool-cases (imsi_at s p == key)) [
            | inl hit ↦
                let same : imsi_at s p ≡ key = (==_iff _ _).0 hit in
                rw hit (rw same at (h.lists p lt (λ z. nz (sym same ∙ z))))
            | inr miss ↦ rw miss (elim (Option-cases (f key)) [
              | inl absent ↦ absent
              | inr (r, e) ↦ cc (sym miss ∙ (==_iff _ _).1 (found.1 (h.covers key e).1))
            ])
          ];
        },
      )

  pub absent_zero : f 0 ≡ none
  absent_zero = elim (Option-cases (f 0)) [
    | inl e ↦ e
    | inr (r, e) ↦ absurd ((h.covers 0 e).0 refl)
  ]

  -- `find` returns, and reads the view.
  pub find_lem : (q : ℕ) → find s q ≡ some (f q)
  unfolding find
  find_lem q = elim (Bool-cases (q == 0)) [
    | inl z ↦ let zero_key : q ≡ 0 = (==_iff _ _).0 z in rw (z, zero_key, absent_zero)
    | inr z ↦ let (p, t) = probed q (ground arith) in rw (z, t.run, ◌>>=◌, t.sees)
  ]
