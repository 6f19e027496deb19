-- ===== src/Store/Grow.antt =====
-- `grow` keeps the view, and its calls of `upsert` never grow the table again.
use mathlib.Core.Path.{fun_ext}
use native.Mathlib.Nat.{pow-suc}
use real_time_policy_authori.Common.{
  ℕ, zero, suc, ◌+◌, ◌-◌, ◌^◌, ◌<◌, ◌≤◌, ◌≡◌, ◌≢◌, refl, sym, ◌∙◌, subst, Bool, true, false, Option,
  none, some, length, get_or, List, [], ◌∷◌, ◌==◌, ==_iff, if◌then◌else◌, arith, Bool-cases,
  Option-cases, inl, inr, ap, length-replicate, get_or-replicate, replicate, get_or_beyond, dec_lt,
}
use real_time_policy_authori.FlatSet.{◌>>=◌}
use real_time_policy_authori.Probe.Count.{occupied, occupied-suc}
use real_time_policy_authori.Probe.Table.{empty-IsTable}
use real_time_policy_authori.Store.{
  SubscriberRecord, SubscriberStore, LoadLimit, no_record, blank, hash, imsi_at, reinsert, grow,
}
use real_time_policy_authori.Store.Slots.{Directory, Holds}
use real_time_policy_authori.Store.Writes.{assign}

abbrev pub nowhere : Directory
nowhere q = none

pub blank-Holds :
    (limit : LoadLimit) (k cap : ℕ) → 3 ≤ k → cap ≡ 2 ^ k → Holds limit k nowhere (blank cap)
blank-Holds limit k cap lo e =
    let empty : (j : ℕ) → (get_or (replicate cap no_record) j no_record).imsi ≡ 0 =
      λ j. ap (λ (r : SubscriberRecord). r.imsi) (get_or-replicate cap j no_record) in
    record {
      at_least = lo;
      width = length-replicate cap no_record ∙ e;
      masked = ap (λ (t : ℕ). t - 1) e;
      table = empty-IsTable hash _ k empty;
      light = limit.over-zero (2 ^ k);
      lists = λ j lt full. absurd (full (empty j));
      covers = λ q e. cc e;
    }

-- the records of a list that stand in slots
live : List SubscriberRecord → ℕ
live [] = 0
live (r ∷ rs) = (if r.imsi == 0 then 0 else 1) + live rs

live-occupied :
    (rs : List SubscriberRecord)
    → live rs ≡ occupied (λ j. (get_or rs j no_record).imsi) (length rs)
unfolding live
live-occupied [] = unfold occupied in refl
live-occupied (r ∷ rs) =
    rw (occupied-suc (λ j. (get_or (r ∷ rs) j no_record).imsi) (length rs), live-occupied rs)

-- the view after the records of a list are assigned in turn
abbrev overlay : Directory → List SubscriberRecord → Directory
overlay f [] = f
overlay f (r ∷ rs) = overlay (if r.imsi == 0 then f else assign f r.imsi r) rs

module _ (g : Directory) where
  -- every record of the list is what `g` says of its IMSI
  abbrev Agrees : List SubscriberRecord → Type 0
  Agrees rs =
      (j : ℕ)
      → (get_or rs j no_record).imsi ≢ 0
      → g (get_or rs j no_record).imsi ≡ some (get_or rs j no_record)

  overlay_same :
      (q : ℕ) (rs : List SubscriberRecord) (f : Directory)
      → Agrees rs
      → f q ≡ g q
      → overlay f rs q ≡ g q
  overlay_same q [] f a e = e
  overlay_same q (r ∷ rs) f a e =
      overlay_same q rs _ (λ j. a (suc j))
        (elim (Bool-cases (r.imsi == 0)) [
          | inl z ↦ rw z e
          | inr nz ↦ rw nz (elim (Bool-cases (q == r.imsi)) [
            | inl same ↦ rw (same, (==_iff _ _).0 same) (sym (a 0 (ground arith)))
            | inr other ↦ rw other e
          ])
        ])

  overlay_listed :
      (q j : ℕ) (rs : List SubscriberRecord) (f : Directory)
      → Agrees rs
      → j < length rs
      → (get_or rs j no_record).imsi ≡ q
      → q ≢ 0
      → overlay f rs q ≡ g q
  overlay_listed q j [] f a lt e nz = absurd (omega arith)
  overlay_listed q zero (r ∷ rs) f a lt e nz =
      overlay_same q rs _ (λ j. a (suc j))
        (let apart : r.imsi == 0 ≡ false = ground arith in
          let hit : q == r.imsi ≡ true = (==_iff _ _).1 (sym e) in
          rw (apart, hit, ← e) (sym (a 0 (ground arith))))
  overlay_listed q (suc j) (r ∷ rs) f a lt e nz =
      overlay_listed q j rs _ (λ i. a (suc i)) (omega arith) e nz

-- `up` inserts into a table with room for one record more
abbrev pub Inserts :
    LoadLimit → ℕ → (SubscriberStore → SubscriberRecord → Option (Bool × SubscriberStore)) → Type 0
Inserts limit k up =
    (f : Directory) (s : SubscriberStore)
    → Holds limit k f s
    → (rec : SubscriberRecord) → rec.imsi ≢ 0
    → limit.over (s.size + 1) (2 ^ k) ≡ false
    → (s' : SubscriberStore) × (up s rec ≡ some (true, s'))
      × Holds limit k (assign f rec.imsi rec) s'
      × (s'.size ≤ s.size + 1)

module _ (limit : LoadLimit) (k : ℕ)
    (up : SubscriberStore → SubscriberRecord → Option (Bool × SubscriberStore))
    (inserts : Inserts limit k up) where
  reinsert-Holds :
      (rs : List SubscriberRecord) (f : Directory) (s : SubscriberStore)
      → Holds limit k f s
      → limit.over (s.size + live rs) (2 ^ k) ≡ false
      → (s' : SubscriberStore) × (reinsert up s rs ≡ some s')
        × Holds limit k (overlay f rs) s'
        × (s'.size ≤ s.size + live rs)
  unfolding reinsert live
  reinsert-Holds [] f s h room = (s, refl, h, omega arith)
  reinsert-Holds (r ∷ rs) f s h room = elim (Bool-cases (r.imsi == 0)) [
    | inl z ↦
        let light : limit.over (s.size + live rs) (2 ^ k) ≡ false =
          limit.over_mono _ _ _ _ (omega arith) (omega arith) room in
        let (t, run, ht, st) = reinsert-Holds rs f s h light in
        (t, rw (z, ◌>>=◌) run, rw z ht, ground arith)
    | inr nz ↦
        let one : live (r ∷ rs) ≡ suc (live rs) = unfold live in rw nz (omega arith) in
        let light = limit.over_mono (s.size + 1) _ _ (2 ^ k) (omega arith) (omega arith) room in
        let (u, ins, hu, su) = inserts f s h r (ground arith) light in
        let light' =
          limit.over_mono (u.size + live rs) _ _ (2 ^ k) (omega arith) (omega arith) room in
        let (t, run, ht, st) = reinsert-Holds rs _ u hu light' in
        (t, rw (nz, ins, ◌>>=◌) run, rw nz ht, omega arith)
  ]

-- `grow` to twice the capacity returns a table with the same view, one level less full.
pub grow-Holds :
    {limit : LoadLimit} {k : ℕ} {f : Directory} {s : SubscriberStore}
    → Holds limit k f s
    → (up : SubscriberStore → SubscriberRecord → Option (Bool × SubscriberStore))
    → Inserts limit (suc k) up
    → (cap : ℕ) → cap ≡ 2 ^ suc k
    → (s' : SubscriberStore) × (grow limit up s cap ≡ some s')
      × Holds limit (suc k) f s'
      × (s'.size ≤ s.size)
unfolding grow
grow-Holds {limit} {k} {f} {s} h up inserts cap e =
    let count : live s.slots ≡ s.size =
      live-occupied s.slots ∙ ap (occupied (imsi_at s)) h.width ∙ sym h.table.counted in
    let start = blank-Holds limit (suc k) cap (omega (arith, h.at_least)) e in
    let room : limit.over (0 + live s.slots) (2 ^ suc k) ≡ false =
      limit.over_mono _ _ _ _ (omega arith) (omega (arith, pow-suc 2 k)) h.light in
    let (t, run, ht, st) =
      reinsert-Holds limit (suc k) up inserts s.slots nowhere (blank cap) start room in
    let agrees : Agrees f s.slots = λ j full. elim (dec_lt j (length s.slots)) [
      | yes lt ↦ h.lists j (omega (arith, h.width)) full
      | no out ↦
          let beyond = get_or_beyond s.slots j no_record (omega arith) in
          absurd (full (ap (λ (r : SubscriberRecord). r.imsi) beyond))
    ] in
    let same : overlay nowhere s.slots ≡ f = fun_ext (λ q. elim (Option-cases (f q)) [
      | inl absent ↦ overlay_same f q s.slots nowhere agrees (sym absent)
      | inr (r, there) ↦
          let (nz, (j, lt, at_j)) = h.covers q there in
          overlay_listed f q j s.slots nowhere agrees (omega (arith, h.width)) at_j nz
    ]) in
    (t, run, subst (λ g. Holds limit (suc k) g t) same ht, omega arith)
