-- ===== src/FlatSet/Refines.antt =====
-- The table refines a finite set of keys.
use mathlib.Core.Path.{fun_ext}
use native.Mathlib.Nat.{one-le-pow, zero-add}
use mathlib.Core.Bool.{or-false}
use real_time_policy_authori.Common.{
  ℕ, ◌+◌, ◌-◌, ◌*◌, ◌%◌, ◌^◌, ◌<◌, ◌≤◌, ◌≡◌, ◌≢◌, ◌↔◌, ◌⊎◌, refl, sym, ap, subst, ◌∙◌, true, false,
  not, ◌&&◌, ◌||◌, some, List, [], ◌∷◌, length, get_or, set, ◌==◌, ==_iff, if◌then◌else◌, arith,
  memb, get_or-set, get_or-replicate, length-set, length-replicate, Bool-cases, Bool_ext, inl, inr,
}
use real_time_policy_authori.Probe.Loop.{update, probe-stop}
use real_time_policy_authori.Probe.Pow2.{double_until, double_until_ends}
use real_time_policy_authori.Probe.Table.{
  IsTable, Stops, Present, stops, Stops-Present, update-Present, update-IsTable, empty-IsTable,
}
use real_time_policy_authori.FlatSet.{
  FlatSet64, hash, slot_at, probe_slots, insert, insert_all, rebuild, contains, no_slots, blank,
  ◌>>=◌,
}

-- `s` is a table of `2 ^ k` slots that holds the keys of `seen` but 0
pub record Holds (k : ℕ) (seen : List ℕ) (s : FlatSet64) : Type 0 where
  pub width : length s.slots ≡ 2 ^ k
  pub masked : s.mask ≡ 2 ^ k - 1
  pub table : IsTable hash (slot_at s) k s.size
  pub reads : (q : ℕ) → q ≢ 0 → Present hash (slot_at s) k q ↔ (memb q seen ≡ true)

-- how much the size grows
abbrev pub added : List ℕ → ℕ → ℕ
added seen key = if key == 0 || memb key seen then 0 else 1

memb_again :
    (seen : List ℕ) (key q : ℕ) → q ≢ 0 → added seen key ≡ 0 → memb q (key ∷ seen) ≡ memb q seen
memb_again seen key q hq h = elim (Bool-cases (key == q)) [
  | inl e ↦
      let same : key ≡ q = (==_iff _ _).0 e in
      let again : added seen q ≡ 0 = subst (λ x. added seen x ≡ 0) same h in rw e (ground arith)
  | inr e ↦ rw e
]

memb-cons_of :
    {P : Type 0} (q key : ℕ) (seen : List ℕ)
    → (q ≡ key) ⊎ P
    → (P → memb q seen ≡ true)
    → memb q (key ∷ seen) ≡ true
memb-cons_of q key seen (inl e) f = ground arith
memb-cons_of q key seen (inr p) f = ground (arith, f p)

of_memb-cons :
    {P : Type 0} (q key : ℕ) (seen : List ℕ)
    → memb q (key ∷ seen) ≡ true
    → (memb q seen ≡ true → P)
    → (q ≡ key) ⊎ P
of_memb-cons q key seen m f = elim (Bool-cases (key == q)) [
  | inl e ↦ inl (sym ((==_iff _ _).0 e))
  | inr e ↦ inr (f (rw e at m))
]

module _ {k : ℕ} {seen : List ℕ} {s : FlatSet64} (h : Holds k seen s) where
  probe_slots_total :
      (key : ℕ)
      → key ≢ 0
      → (p : ℕ) × (probe_slots s key ≡ some p)
        × (p < length s.slots)
        × (slot_at s p == key ≡ memb key seen)
        × Stops hash (slot_at s) k key p
  unfolding probe_slots
  probe_slots_total key nz =
      let (p, run, lt) = stops h.table key in
      let found = Stops-Present h.table key p nz run lt in
      let view = h.reads key nz in
      (
        p,
        rw (h.width, h.masked) run,
        omega (arith, h.width),
        Bool_ext _ _ (λ e. view.0 (found.0 ((==_iff _ _).0 e)))
            (λ m. (==_iff _ _).1 (found.1 (view.1 m))),
        run,
      )

  -- 0 and a key that is there already change nothing
  seen_again : (key : ℕ) → added seen key ≡ 0 → Holds k (key ∷ seen) s
  seen_again key none_new = record {
    width = h.width;
    masked = h.masked;
    table = h.table;
    reads = λ q hq. rw (memb_again seen key q hq none_new) (h.reads q hq);
  }

  written : ℕ → ℕ → FlatSet64
  written p key = record s { slots = set s.slots p key; size = s.size + 1 }

  written-Holds :
      (key p : ℕ)
      → key ≢ 0
      → p < length s.slots
      → slot_at s p ≡ 0
      → Stops hash (slot_at s) k key p
      → s.size + 1 < 2 ^ k
      → Holds k (key ∷ seen) (written p key)
  unfolding written
  written-Holds key p nz lt empty stop room =
      let cells : update (slot_at s) p key ≡ (λ j. get_or (set s.slots p key) j 0) =
        fun_ext (λ j. sym (get_or-set s.slots p j key 0 lt)) in
      let inside : p < 2 ^ k = omega (arith, h.width) in
      record {
        width = length-set s.slots p key ∙ h.width;
        masked = h.masked;
        table =
            subst (λ f. IsTable hash f k (s.size + 1)) cells
              (update-IsTable h.table key p nz stop inside empty room);
        reads = λ q hq.
            let there = update-Present h.table key p nz stop inside empty q hq in
            let view = h.reads q hq in
            subst (λ f. Present hash f k q ↔ (memb q (key ∷ seen) ≡ true)) cells
              (
                (λ x. memb-cons_of q key seen (there.0 x) view.0),
                (λ m. there.1 (of_memb-cons q key seen m view.1)),
              );
      }

  -- `insert` returns, and adds exactly its key; the size counts a new key that is not 0.
  pub insert-Holds :
      (key : ℕ)
      → s.size + 1 < 2 ^ k
      → (s' : FlatSet64) × (insert s key ≡ some s')
        × Holds k (key ∷ seen) s'
        × (s'.size ≡ s.size + added seen key)
  unfolding insert
  insert-Holds key room = elim (Bool-cases (key == 0)) [
    | inl z ↦ (s, rw z refl, seen_again key (rw z refl), rw z (omega arith))
    | inr z ↦
        let nz : key ≢ 0 = ground arith in
        let (p, run, lt, hit, stop) = probe_slots_total key nz in
        elim (Bool-cases (memb key seen)) [
          | inl old ↦ (
            s,
            rw (z, run, ◌>>=◌, hit, old) refl,
            seen_again key (rw (z, old) refl),
            rw (z, old) (omega arith),
          )
          | inr new ↦
              let miss : slot_at s p == key ≡ false = hit ∙ new in
              let empty : slot_at s p ≡ 0 =
                ground (arith, probe-stop (slot_at s) (2 ^ k - 1) key (2 ^ k) _ stop) in
              (
                written p key,
                rw (z, run, ◌>>=◌, miss) (unfold written in refl),
                written-Holds key p nz lt empty stop room,
                rw (z, new) (unfold written in refl),
              )
        ]
  ]

-- Every key that `seen` holds counts once.
abbrev pub distinct : List ℕ → List ℕ → ℕ
distinct seen [] = 0
distinct seen (key ∷ keys) = added seen key + distinct (key ∷ seen) keys

abbrev pub reverse_onto : List ℕ → List ℕ → List ℕ
reverse_onto [] seen = seen
reverse_onto (key ∷ keys) seen = reverse_onto keys (key ∷ seen)

memb-reverse_onto :
    (q : ℕ) (keys seen : List ℕ) → memb q (reverse_onto keys seen) ≡ (memb q keys || memb q seen)
memb-reverse_onto q [] seen = refl
memb-reverse_onto q (key ∷ keys) seen = ground (arith, memb-reverse_onto q keys (key ∷ seen))

insert_all-Holds :
    (k : ℕ) (keys seen : List ℕ) (s : FlatSet64)
    → Holds k seen s
    → s.size + length keys < 2 ^ k
    → (s' : FlatSet64) × (insert_all s keys ≡ some s')
      × Holds k (reverse_onto keys seen) s'
      × (s'.size ≡ s.size + distinct seen keys)
unfolding insert_all
insert_all-Holds k [] seen s h room = (s, refl, h, omega arith)
insert_all-Holds k (key ∷ keys) seen s h room =
    let (t, run, ht, st) = insert-Holds h key (omega arith) in
    let few : added seen key ≤ 1 = ground arith in
    let (u, run', hu, su) = insert_all-Holds k keys (key ∷ seen) t ht (omega arith) in
    (u, rw (run, ◌>>=◌) run', hu, omega arith)

distinct-le-length : (seen keys : List ℕ) → distinct seen keys ≤ length keys
distinct-le-length seen [] = omega arith
distinct-le-length seen (key ∷ keys) = ground (arith, distinct-le-length (key ∷ seen) keys)

contains_lem :
    {k : ℕ} {seen : List ℕ} {s : FlatSet64}
    → Holds k seen s
    → (q : ℕ) → contains s q ≡ some (not (q == 0) && memb q seen)
unfolding contains
contains_lem {k} {seen} {s} h q =
    let wide : length s.slots == 0 ≡ false =
      ground (arith, h.width, one-le-pow k 2 (omega arith)) in
    elim (Bool-cases (q == 0)) [
      | inl z ↦ rw (wide, z)
      | inr z ↦
          let (p, run, lt, hit, stop) = probe_slots_total h q (ground arith) in
          rw (wide, z, run, ◌>>=◌, hit)
    ]

blank-Holds : (k cap : ℕ) → cap ≡ 2 ^ k → Holds k [] (blank cap)
blank-Holds k cap e = record {
  width = length-replicate cap 0 ∙ e;
  masked = ap (λ (t : ℕ). t - 1) e;
  table = empty-IsTable hash _ k (λ j. get_or-replicate cap j 0);
  reads = λ q hq. ((λ (j, hj, e). absurd (hq (sym e ∙ get_or-replicate cap j 0))), (λ m. cc m));
}

-- what `rebuild` promises of the set that it makes of `keys`
pub record Refines (keys : List ℕ) (s : FlatSet64) : Type 0 where
  pub members : (q : ℕ) → contains s q ≡ some (not (q == 0) && memb q keys)
  pub counts : s.size ≡ distinct [] keys
  pub half_full : 2 * s.size ≤ length s.slots

fill :
    (k cap : ℕ) (keys : List ℕ)
    → cap ≡ 2 ^ k
    → length keys * 2 ≤ cap
    → (s : FlatSet64) × (insert_all (blank cap) keys ≡ some s) × Refines keys s
fill k cap keys e wide =
    let pos = one-le-pow k 2 (omega arith) in
    let (s, run, h, size) =
      insert_all-Holds k keys [] (blank cap) (blank-Holds k cap e) (omega arith) in
    (
      s,
      run,
      record {
        members = λ q.
            contains_lem h q
            ∙ ap (λ b. some (not (q == 0) && b))
                (memb-reverse_onto q keys [] ∙ or-false (memb q keys));
        counts = size ∙ zero-add (distinct [] keys);
        half_full = omega (arith, h.width, size, distinct-le-length [] keys);
      },
    )

rebuild_step :
    (key cap : ℕ) (rest : List ℕ)
    → double_until 62 8 (length (key ∷ rest) * 2 % 2 ^ 64) ≡ some cap
    → rebuild (key ∷ rest) ≡ insert_all (blank cap) (key ∷ rest)
unfolding rebuild
rebuild_step key cap rest run = rw (run, ◌>>=◌)

-- For any list of at most 2 ^ 60 keys `rebuild` returns a set whose `contains` returns for every
-- key, true exactly for the keys of the list that are not 0; its size is the number of distinct
-- keys that are not 0, and the table is at most half full.
pub rebuild-Refines :
    (keys : List ℕ)
    → length keys ≤ 2 ^ 60
    → (s : FlatSet64) × (rebuild keys ≡ some s) × Refines keys s
rebuild-Refines [] few = (
  no_slots,
  unfold rebuild in refl,
  record { members = λ q. unfold contains in ground arith; counts = refl; half_full = omega arith },
)
rebuild-Refines (key ∷ rest) few =
    let keys = key ∷ rest in
    let wanted : length keys * 2 % 2 ^ 64 ≡ length keys * 2 = omega arith in
    let (cap, run, r) = double_until_ends (length keys * 2) (omega arith) in
    let (s, run', spec) = fill r.exponent cap keys r.is_pow r.covers in
    (s, rebuild_step key cap rest (ap (double_until 62 8) wanted ∙ run) ∙ run', spec)
