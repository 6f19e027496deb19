-- ===== src/Store/Refines.antt =====
-- The operations of the store refine a map from IMSIs to records.
use native.Mathlib.Nat.{pow-suc, pow-le-pow_right}
use real_time_policy_authori.Common.{
  ℕ, zero, suc, ◌+◌, ◌*◌, ◌%◌, ◌^◌, ◌<◌, ◌≤◌, ◌≡◌, ◌≢◌, refl, sym, ◌∙◌, subst, Bool, true, false,
  Option, none, some, length, ◌==◌, ==_iff, arith, Bool-cases, inl, inr, set, ◌⊎◌, dec_lt,
}
use real_time_policy_authori.FlatSet.{◌>>=◌}
use real_time_policy_authori.Store.{
  SubscriberRecord, SubscriberStore, LoadLimit, slot, imsi_at, place, upsert_with, grow, upsert,
  find, find_mutable,
}
use real_time_policy_authori.Store.Slots.{Directory, Holds, Probed, probed, find_lem, absent_zero}
use real_time_policy_authori.Store.Writes.{assign, place-Holds, rewrite-Holds}
use real_time_policy_authori.Store.Grow.{Inserts, grow-Holds}

-- A well-formed store with the view `f`: `find` reads it.
pub record IsStore (limit : LoadLimit) (f : Directory) (s : SubscriberStore) : Type 0 where
  pub exponent : ℕ
  pub holds : Holds limit exponent f s

abbrev pub Upserts :
    LoadLimit → Directory → SubscriberRecord → Option (Bool × SubscriberStore) → Type 0
Upserts limit f rec result =
    (s' : SubscriberStore) × (result ≡ some (true, s')) × IsStore limit (assign f rec.imsi rec) s'

module _ (limit : LoadLimit) where
  upsert_with-place :
      (grow : SubscriberStore → ℕ → Option SubscriberStore) (k : ℕ)
      → Inserts limit k (upsert_with limit grow)
  unfolding upsert_with
  upsert_with-place grow k f s h rec nz light =
      let (t, run, ht, st) = place-Holds h rec nz light in
      let present : rec.imsi == 0 ≡ false = ground arith in
      (t, rw (present, h.width, light, ◌>>=◌, run) refl, ht, st)

  upsert-Inserts : (depth k : ℕ) → Inserts limit k (upsert limit depth)
  upsert-Inserts zero k = unfold upsert in upsert_with-place (λ _ _. none) k
  upsert-Inserts (suc depth) k =
      unfold upsert in upsert_with-place (grow limit (upsert limit depth)) k

  upsert_with_grown :
      (grow : SubscriberStore → ℕ → Option SubscriberStore) (s : SubscriberStore)
      (rec : SubscriberRecord) {t u : SubscriberStore}
      → rec.imsi == 0 ≡ false
      → limit.over (s.size + 1) (length s.slots) ≡ true
      → grow s (length s.slots * 2 % 2 ^ 64) ≡ some t
      → place t rec ≡ some u
      → upsert_with limit grow s rec ≡ some (true, u)
  unfolding upsert_with
  upsert_with_grown grow s rec present full grown placed = rw (present, full, grown, ◌>>=◌, placed)

  upsert_grown :
      {k : ℕ} {f : Directory} {s : SubscriberStore}
      → Holds limit k f s
      → k < 57
      → (depth : ℕ) (rec : SubscriberRecord) → rec.imsi ≢ 0
      → limit.over (s.size + 1) (2 ^ k) ≡ true
      → (s' : SubscriberStore) × (upsert limit (suc depth) s rec ≡ some (true, s'))
        × Holds limit (suc k) (assign f rec.imsi rec) s'
  unfolding upsert upsert_with
  upsert_grown {k} {f} {s} h small depth rec nz full =
      let bound = pow-le-pow_right {n = 2} (omega arith) {i = k} {j = 57} (omega arith) in
      let cap : length s.slots * 2 % 2 ^ 64 ≡ 2 ^ suc k = omega (arith, h.width, pow-suc 2 k) in
      let (t, run, ht, st) =
        grow-Holds h (upsert limit depth) (upsert-Inserts depth (suc k)) _ cap in
      let low = pow-le-pow_right {n = 2} (omega arith) {i = 3} {j = k} h.at_least in
      let light : limit.over (t.size + 1) (2 ^ suc k) ≡ false =
        limit.over_mono _ _ _ _ (omega arith) (omega (arith, pow-suc 2 k))
          (limit.over_double s.size (2 ^ k) (omega arith) h.light) in
      let (u, done, hu, su) = place-Holds ht rec nz light in
      let present : rec.imsi == 0 ≡ false = ground arith in
      (
        u,
        upsert_with_grown (grow limit (upsert limit depth)) s rec present (rw h.width full) run
            done,
        hu,
      )

  -- `upsert` of a record with an IMSI returns true, and assigns the record to its IMSI and nothing
  -- else, whether it updates, fills a slot or grows the table; the nesting of `grow` and `upsert`
  -- never goes below the first level. The store has at most 2 ^ 56 slots.
  pub upsert-refines :
      {f : Directory} {s : SubscriberStore}
      → IsStore limit f s
      → length s.slots ≤ 2 ^ 56
      → (depth : ℕ) (rec : SubscriberRecord) → rec.imsi ≢ 0
      → Upserts limit f rec (upsert limit (suc depth) s rec)
  upsert-refines {f} {s} is fits depth rec nz =
      let k = is.exponent in
      let h = is.holds in
      elim (Bool-cases (limit.over (s.size + 1) (2 ^ k))) [
        | inl full ↦
            let small : k < 57 = elim (dec_lt k 57) [
              | yes lt ↦ lt
              | no ge ↦
                  let bound =
                    pow-le-pow_right {n = 2} (omega arith) {i = 57} {j = k} (omega arith) in
                  absurd (omega (arith, h.width))
            ] in
            let (t, run, ht) = upsert_grown h small depth rec nz full in
            (t, run, record { exponent = suc k; holds = ht })
        | inr light ↦
            let (t, run, ht, st) = upsert-Inserts (suc depth) k f s h rec nz light in
            (t, run, record { exponent = k; holds = ht })
      ]

  -- `find` returns for every IMSI, and reads the view.
  pub find-refines :
      {f : Directory} {s : SubscriberStore} → IsStore limit f s → (q : ℕ) → find s q ≡ some (f q)
  find-refines is q = find_lem is.holds q

  -- What `find_mutable` finds, and the write of a changed record through the pointer.
  module _ {f : Directory} {s : SubscriberStore} (is : IsStore limit f s) (imsi : ℕ)
      (change : SubscriberRecord → SubscriberRecord)
      (keeps : (r : SubscriberRecord) → (change r).imsi ≡ r.imsi) where
    abbrev pub changed : ℕ → SubscriberStore
    changed p = record s { slots = set s.slots p (change (slot s p)) }

    pub find_mutable_lem :
        ((find_mutable s imsi ≡ some none) × (f imsi ≡ none))
        ⊎ ((p : ℕ) × (find_mutable s imsi ≡ some (some p))
            × (f imsi ≡ some (slot s p))
            × IsStore limit (assign f imsi (change (slot s p))) (changed p))
    unfolding find_mutable
    find_mutable_lem = elim (Bool-cases (imsi == 0)) [
      | inl z ↦
          let zero_key : imsi ≡ 0 = (==_iff _ _).0 z in
          inl (rw z refl, rw zero_key (absent_zero is.holds))
      | inr z ↦
          let nz : imsi ≢ 0 = ground arith in
          let (p, t) = probed is.holds imsi nz in
          elim (Bool-cases (imsi_at s p == imsi)) [
            | inr miss ↦ inl (rw (z, t.run, ◌>>=◌, miss) refl, t.sees ∙ rw miss refl)
            | inl hit ↦
                let key : imsi_at s p ≡ imsi = (==_iff _ _).0 hit in
                let same : imsi ≡ (change (slot s p)).imsi = sym (keeps (slot s p) ∙ key) in
                let t' = subst (λ q. Probed is.holds q p) same t in
                let nz' : (change (slot s p)).imsi ≢ 0 = rw (← same) nz in
                let kept : imsi_at s p ≡ (change (slot s p)).imsi = sym (keeps (slot s p)) in
                inr (
                  p,
                  rw (z, t.run, ◌>>=◌, hit) refl,
                  t.sees ∙ rw hit refl,
                  record {
                    exponent = is.exponent;
                    holds =
                        subst
                          (λ q.
                            Holds limit is.exponent (assign f q (change (slot s p))) (changed p))
                          (sym same) (rewrite-Holds is.holds (change (slot s p)) p nz' t' kept);
                  },
                )
          ]
    ]
