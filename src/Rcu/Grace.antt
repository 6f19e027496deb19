-- ===== src/Rcu/Grace.antt =====
-- No reader holds a rule set that has been freed.
use real_time_policy_authori.Common.{
  ℕ, ◌+◌, ◌≤◌, ◌<◌, ◌≡◌, ◌⊎◌, inl, inr, refl, sym, subst, false, List, [], ◌∷◌, ◌++◌, arith, ◌==◌,
  ==_iff, if◌then◌else◌, memb, Bool-cases, dec_lt,
}
use real_time_policy_authori.Rcu.{
  Phase, idle, loaded, entered, holding, ReaderSlot, Writer, ready, exchanged, waiting, RcuDomain,
  quiescent, new_domain, with_slot, keep, exchange_ptr, move_epoch, reclaim, park, Step, load_epoch,
  store_epoch, load_current, leave, exchange, move, pass, time_out, finish, Reachable, start, next,
}

-- published before `n`
abbrev pub AllBelow : ℕ → List ℕ → Type 0
AllBelow n [] = Unit
AllBelow n (p ∷ ps) = (p < n) × AllBelow n ps

AllBelow-weaken : (m n : ℕ) (ps : List ℕ) → m ≤ n → AllBelow m ps → AllBelow n ps
AllBelow-weaken m n [] h k = tt
AllBelow-weaken m n (p ∷ ps) h k = (omega (arith, k.0), AllBelow-weaken m n ps h k.1)

keep-AllBelow : (n p : ℕ) (ps : List ℕ) → p < n → AllBelow n ps → AllBelow n (keep p ps)
keep-AllBelow n p ps h k = elim (Bool-cases (p == 0)) [ inl z ↦ rw z k | inr nz ↦ rw nz (h, k) ]

AllBelow-++ : (n : ℕ) (ps qs : List ℕ) → AllBelow n ps → AllBelow n qs → AllBelow n (ps ++ qs)
AllBelow-++ n [] qs h k = k
AllBelow-++ n (p ∷ ps) qs h k = (h.0, AllBelow-++ n ps qs h.1 k)

memb-AllBelow : (n p : ℕ) (ps : List ℕ) → AllBelow n ps → n ≤ p → memb p ps ≡ false
memb-AllBelow n p [] h k = refl
memb-AllBelow n p (q ∷ ps) h k = ground (arith, memb-AllBelow n p ps h.1 k, h.0)

-- What holds of a slot: the epoch `e` it shows is not ahead of the pointer that its reader holds, and
-- that pointer is not freed. `g`, `c` and `freed` are the domain's.
abbrev pub IsGuarded : ℕ → ℕ → List ℕ → ℕ → Phase → Type 0
IsGuarded g c freed e idle = Unit
IsGuarded g c freed e (loaded x) = (1 ≤ x) × (x ≤ g)
IsGuarded g c freed e entered = (1 ≤ e) × (e ≤ g)
IsGuarded g c freed e (holding p) = (1 ≤ e) × (e ≤ p + 1) × (p ≤ c) × (memb p freed ≡ false)

-- A slot that the writer has passed holds the current pointer, if any.
abbrev pub IsPassed : ℕ → Phase → Type 0
IsPassed c (holding p) = p ≡ c
IsPassed c _ = Unit

abbrev pub WriterOk : ℕ → ℕ → (ℕ → ReaderSlot) → Writer → Type 0
WriterOk g c slots ready = g ≡ c + 1
WriterOk g c slots (exchanged old) = (g ≡ c) × (old + 1 ≡ c)
WriterOk g c slots (waiting target old k) =
    (g ≡ c + 1) × (target ≡ c + 1) × (old + 1 ≡ c) × ((j : ℕ) → j < k → IsPassed c (slots j).phase)

pub record Inv (d : RcuDomain) : Type 0 where
  pub retired : AllBelow d.current d.retired
  pub freed : AllBelow d.current d.freed
  pub positive : 1 ≤ d.global_epoch
  pub bounded : d.global_epoch ≤ d.current + 1
  pub slots :
      (j : ℕ) → IsGuarded d.global_epoch d.current d.freed (d.slots j).epoch (d.slots j).phase
  pub outside : (j : ℕ) → d.max_readers ≤ j → (d.slots j).phase ≡ idle
  pub writer : WriterOk d.global_epoch d.current d.slots d.writer

new_domain-Inv : (n : ℕ) → Inv (new_domain n)
new_domain-Inv n = record {
  retired = tt;
  freed = tt;
  positive = omega arith;
  bounded = omega arith;
  slots = λ j. tt;
  outside = λ j h. refl;
  writer = refl;
}

-- a property of every slot, after one slot is changed
changed_lem :
    (P : ℕ → ReaderSlot → Type 0) (slots : ℕ → ReaderSlot) (i : ℕ) (s : ReaderSlot)
    → P i s
    → ((j : ℕ) → P j (slots j))
    → (j : ℕ) → P j (if j == i then s else slots j)
changed_lem P slots i s new old j = elim (Bool-cases (j == i)) [
  | inl here ↦ let same : i ≡ j = sym ((==_iff _ _).0 here) in rw here (subst (λ k. P k s) same new)
  | inr other ↦ rw other (old j)
]

writer_lem :
    (g c : ℕ) (slots : ℕ → ReaderSlot) (i : ℕ) (s : ReaderSlot) (w : Writer)
    → IsPassed c s.phase
    → WriterOk g c slots w
    → WriterOk g c (λ j. if j == i then s else slots j) w
writer_lem g c slots i s ready p h = h
writer_lem g c slots i s (exchanged old) p h = h
writer_lem g c slots i s (waiting target old k) p h =
    (h.0, h.1, h.2, changed_lem (λ j t. j < k → IsPassed c t.phase) slots i s (λ lt. p) h.3)

module _ {d : RcuDomain} (inv : Inv d) where
  -- a step of a reader
  with_slot-Inv :
      (i : ℕ) (s : ReaderSlot)
      → i < d.max_readers
      → IsGuarded d.global_epoch d.current d.freed s.epoch s.phase
      → IsPassed d.current s.phase
      → Inv (with_slot d i s)
  with_slot-Inv i s lt guarded passed = record {
    retired = inv.retired;
    freed = inv.freed;
    positive = inv.positive;
    bounded = inv.bounded;
    slots =
        changed_lem (λ j t. IsGuarded d.global_epoch d.current d.freed t.epoch t.phase) d.slots i s
          guarded inv.slots;
    outside =
        changed_lem (λ j t. d.max_readers ≤ j → t.phase ≡ idle) d.slots i s
          (λ le. absurd (omega arith)) inv.outside;
    writer = writer_lem d.global_epoch d.current d.slots i s d.writer passed inv.writer;
  }

  -- the slot of a reader that stands at `p`
  at_phase :
      (i : ℕ) {p : Phase}
      → (d.slots i).phase ≡ p
      → IsGuarded d.global_epoch d.current d.freed (d.slots i).epoch p
  at_phase i h =
      subst (IsGuarded d.global_epoch d.current d.freed (d.slots i).epoch) h (inv.slots i)

  at_writer : {w : Writer} → d.writer ≡ w → WriterOk d.global_epoch d.current d.slots w
  at_writer h = subst (WriterOk d.global_epoch d.current d.slots) h inv.writer

  exchanged_slot :
      (e : ℕ) (p : Phase)
      → IsGuarded d.global_epoch d.current d.freed e p
      → IsGuarded d.global_epoch (d.current + 1) d.freed e p
  exchanged_slot e idle h = tt
  exchanged_slot e (loaded x) h = h
  exchanged_slot e entered h = h
  exchanged_slot e (holding p) h = (h.0, h.1, omega (arith, h.2), h.3)

  exchange_ptr-Inv : d.writer ≡ ready → Inv (exchange_ptr d)
  exchange_ptr-Inv h =
      let even = at_writer h in
      record {
        retired = AllBelow-weaken d.current (d.current + 1) d.retired (omega arith) inv.retired;
        freed = AllBelow-weaken d.current (d.current + 1) d.freed (omega arith) inv.freed;
        positive = inv.positive;
        bounded = omega (arith, inv.bounded);
        slots = λ j. exchanged_slot (d.slots j).epoch (d.slots j).phase (inv.slots j);
        outside = inv.outside;
        writer = (even, refl);
      }

  moved_slot :
      (e : ℕ) (p : Phase)
      → IsGuarded d.global_epoch d.current d.freed e p
      → IsGuarded (d.global_epoch + 1) d.current d.freed e p
  moved_slot e idle h = tt
  moved_slot e (loaded x) h = (h.0, omega (arith, h.1))
  moved_slot e entered h = (h.0, omega (arith, h.1))
  moved_slot e (holding p) h = h

  move_epoch-Inv : (old : ℕ) → d.writer ≡ exchanged old → Inv (move_epoch d old)
  move_epoch-Inv old h =
      let (even, behind) = at_writer h in
      record {
        retired = inv.retired;
        freed = inv.freed;
        positive = omega arith;
        bounded = omega (arith, even);
        slots = λ j. moved_slot (d.slots j).epoch (d.slots j).phase (inv.slots j);
        outside = inv.outside;
        writer = (omega (arith, even), omega (arith, even), behind, λ j lt. absurd (omega arith));
      }

  -- a slot that is quiescent, or shows the new epoch, holds no old pointer
  passed_lem :
      (e target : ℕ) (p : Phase)
      → target ≡ d.current + 1
      → IsGuarded d.global_epoch d.current d.freed e p
      → (e ≡ quiescent) ⊎ (target ≤ e)
      → IsPassed d.current p
  passed_lem e target idle t h q = tt
  passed_lem e target (loaded x) t h q = tt
  passed_lem e target entered t h q = tt
  passed_lem e target (holding p) t h (inl z) = absurd (omega (arith, h.0))
  passed_lem e target (holding p) t h (inr le) = omega (arith, h.1, h.2)

  pass-Inv :
      (target old i : ℕ)
      → d.writer ≡ waiting target old i
      → ((d.slots i).epoch ≡ quiescent) ⊎ (target ≤ (d.slots i).epoch)
      → Inv (record d { writer = waiting target old (i + 1) })
  pass-Inv target old i h q =
      let (even, t, behind, passed) = at_writer h in
      let here = passed_lem (d.slots i).epoch target (d.slots i).phase t (inv.slots i) q in
      record {
        retired = inv.retired;
        freed = inv.freed;
        positive = inv.positive;
        bounded = inv.bounded;
        slots = inv.slots;
        outside = inv.outside;
        writer = (
          even,
          t,
          behind,
          (λ j lt. elim (dec_lt j i) [
            | yes below ↦ passed j below
            | no above ↦
                let same : i ≡ j = omega arith in
                subst (λ k. IsPassed d.current (d.slots k).phase) same here
          ]),
        );
      }

  park-Inv : (target old i : ℕ) → d.writer ≡ waiting target old i → Inv (park d old)
  park-Inv target old i h =
      let (even, t, behind, passed) = at_writer h in
      record {
        retired = keep-AllBelow d.current old d.retired (omega (arith, behind)) inv.retired;
        freed = inv.freed;
        positive = inv.positive;
        bounded = inv.bounded;
        slots = inv.slots;
        outside = inv.outside;
        writer = even;
      }

  reclaimed_slot :
      (freed : List ℕ) (e : ℕ) (p : Phase)
      → AllBelow d.current freed
      → IsPassed d.current p
      → IsGuarded d.global_epoch d.current d.freed e p
      → IsGuarded d.global_epoch d.current freed e p
  reclaimed_slot freed e idle b q h = tt
  reclaimed_slot freed e (loaded x) b q h = h
  reclaimed_slot freed e entered b q h = h
  reclaimed_slot freed e (holding p) b q h =
      (h.0, h.1, h.2, memb-AllBelow d.current p freed b (omega (arith, q)))

  reclaim-Inv :
      (target old i : ℕ) → d.writer ≡ waiting target old i → d.max_readers ≤ i → Inv (reclaim d old)
  reclaim-Inv target old i h all =
      let (even, t, behind, passed) = at_writer h in
      let gone = keep old (d.retired ++ d.freed) in
      let below : AllBelow d.current gone =
        keep-AllBelow d.current old (d.retired ++ d.freed) (omega (arith, behind))
          (AllBelow-++ d.current d.retired d.freed inv.retired inv.freed) in
      record {
        retired = tt;
        freed = below;
        positive = inv.positive;
        bounded = inv.bounded;
        slots = (λ j. elim (dec_lt j i) [
          | yes lt ↦
              reclaimed_slot gone (d.slots j).epoch (d.slots j).phase below (passed j lt)
                (inv.slots j)
          | no ge ↦
              let still = inv.outside j (omega arith) in
              subst (IsGuarded d.global_epoch d.current gone (d.slots j).epoch) (sym still) tt
        ]);
        outside = inv.outside;
        writer = even;
      }

Step-Inv : {d d' : RcuDomain} → Step d d' → Inv d → Inv d'
Step-Inv (load_epoch d i lt h) inv = with_slot-Inv inv i _ lt (inv.positive, omega arith) tt
Step-Inv (store_epoch d i e lt h) inv = with_slot-Inv inv i _ lt (at_phase inv i h) tt
Step-Inv (load_current d i lt h) inv =
    let (some_epoch, le) = at_phase inv i h in
    with_slot-Inv inv i _ lt
      (
        some_epoch,
        omega (arith, le, inv.bounded),
        omega arith,
        memb-AllBelow d.current d.current d.freed inv.freed (omega arith),
      )
      refl
Step-Inv (leave d i p lt h) inv = with_slot-Inv inv i _ lt tt tt
Step-Inv (exchange d h) inv = exchange_ptr-Inv inv h
Step-Inv (move d old h) inv = move_epoch-Inv inv old h
Step-Inv (pass d target old i h lt q) inv = pass-Inv inv target old i h q
Step-Inv (time_out d target old i h lt) inv = park-Inv inv target old i h
Step-Inv (finish d target old i h all) inv = reclaim-Inv inv target old i h all

pub Reachable-Inv : {d : RcuDomain} → Reachable d → Inv d
Reachable-Inv (start n) = new_domain-Inv n
Reachable-Inv (next d d' r s) = Step-Inv s (Reachable-Inv r)

-- Whatever the interleaving of readers and the writer, time-outs included, a pointer that a reader
-- holds has not been freed, and neither has the current one; the pointers that wait to be freed and
-- those that are freed were all published before it.
pub Reachable-not_freed :
    (d : RcuDomain) (i p : ℕ)
    → Reachable d
    → (d.slots i).phase ≡ holding p
    → (memb p d.freed ≡ false) × (memb d.current d.freed ≡ false) × AllBelow d.current d.retired
Reachable-not_freed d i p r h =
    let inv = Reachable-Inv r in
    let (some_epoch, ahead, published, alive) = at_phase inv i h in
    (alive, memb-AllBelow d.current d.current d.freed inv.freed (omega arith), inv.retired)
