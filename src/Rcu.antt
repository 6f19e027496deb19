-- ===== src/Rcu.antt =====
-- include/policy/rcu.hpp: publication of rule sets to readers that take no lock, as a step relation.
-- A step is one access to shared memory by one thread, in a sequentially consistent order. A pointer
-- is the number of its publication, 0 is the null pointer, and one thread publishes, as the control
-- plane does. A reader is the index of its slot.
pub mod Grace
pub mod Accounts
mod Tests
use real_time_policy_authori.Common.{
  ℕ, zero, suc, ◌+◌, ◌≤◌, ◌<◌, ◌≡◌, ◌⊎◌, List, [], ◌∷◌, ◌++◌, ◌==◌, if◌then◌else◌,
}

abbrev pub quiescent : ℕ
quiescent = 0

-- where a reader stands in `read` and in the life of its guard
pub data Phase : Type 0 where
  idle : Phase
  -- the global epoch has been loaded
  loaded : (epoch : ℕ) → Phase
  -- and stored in the slot
  entered : Phase
  -- the guard holds the pointer
  holding : (ptr : ℕ) → Phase

pub record ReaderSlot : Type 0 where
  pub epoch : ℕ
  pub phase : Phase

-- where the writer stands in `swap_and_reclaim`
pub data Writer : Type 0 where
  ready : Writer
  -- `publish` has exchanged the pointer, and not yet moved the epoch
  exchanged : (old : ℕ) → Writer
  -- `synchronize` looks at the slot
  waiting : (target old slot : ℕ) → Writer

pub record RcuDomain : Type 0 where
  pub current : ℕ
  pub global_epoch : ℕ
  pub max_readers : ℕ
  pub slots : ℕ → ReaderSlot
  pub retired : List ℕ
  pub freed : List ℕ
  pub writer : Writer

-- the constructor
abbrev pub new_domain : ℕ → RcuDomain
new_domain max_readers = record {
  current = 0;
  global_epoch = 1;
  max_readers = max_readers;
  slots = λ i. record { epoch = quiescent; phase = idle };
  retired = [];
  freed = [];
  writer = ready;
}

abbrev pub with_slot : RcuDomain → ℕ → ReaderSlot → RcuDomain
with_slot d i s = record d { slots = λ j. if j == i then s else d.slots j }

-- the null pointer is neither parked nor freed
abbrev pub keep : ℕ → List ℕ → List ℕ
keep p ps = if p == 0 then ps else p ∷ ps

-- after the exchange of `publish`
abbrev pub exchange_ptr : RcuDomain → RcuDomain
exchange_ptr d = record d { current = d.current + 1; writer = exchanged d.current }

-- after the epoch moves, when `synchronize` has loaded its target
abbrev pub move_epoch : RcuDomain → ℕ → RcuDomain
move_epoch d old = record d {
  global_epoch = d.global_epoch + 1;
  writer = waiting (d.global_epoch + 1) old 0;
}

-- the grace period is over
abbrev pub reclaim : RcuDomain → ℕ → RcuDomain
reclaim d old = record d { retired = []; freed = keep old (d.retired ++ d.freed); writer = ready }

-- it is not, and the pointer is parked
abbrev pub park : RcuDomain → ℕ → RcuDomain
park d old = record d { retired = keep old d.retired; writer = ready }

pub data Step : RcuDomain → RcuDomain → Type 0 where
  -- `read` loads the global epoch
  load_epoch :
      (d : RcuDomain) (i : ℕ)
      → i < d.max_readers
      → (d.slots i).phase ≡ idle
      → Step d (with_slot d i (record { epoch = (d.slots i).epoch; phase = loaded d.global_epoch }))
  -- and stores it in the slot
  store_epoch :
      (d : RcuDomain) (i e : ℕ)
      → i < d.max_readers
      → (d.slots i).phase ≡ loaded e
      → Step d (with_slot d i (record { epoch = e; phase = entered }))
  -- and loads the pointer
  load_current :
      (d : RcuDomain) (i : ℕ)
      → i < d.max_readers
      → (d.slots i).phase ≡ entered
      → Step d (with_slot d i (record { epoch = (d.slots i).epoch; phase = holding d.current }))
  -- the guard is destroyed
  leave :
      (d : RcuDomain) (i p : ℕ)
      → i < d.max_readers
      → (d.slots i).phase ≡ holding p
      → Step d (with_slot d i (record { epoch = quiescent; phase = idle }))
  -- `publish` exchanges the pointer
  exchange : (d : RcuDomain) → d.writer ≡ ready → Step d (exchange_ptr d)
  -- and moves the epoch
  move : (d : RcuDomain) (old : ℕ) → d.writer ≡ exchanged old → Step d (move_epoch d old)
  -- `synchronize` finds a slot quiescent, or at the new epoch
  pass :
      (d : RcuDomain) (target old i : ℕ)
      → d.writer ≡ waiting target old i
      → i < d.max_readers
      → ((d.slots i).epoch ≡ quiescent) ⊎ (target ≤ (d.slots i).epoch)
      → Step d (record d { writer = waiting target old (i + 1) })
  -- the deadline passes at any slot
  time_out :
      (d : RcuDomain) (target old i : ℕ)
      → d.writer ≡ waiting target old i
      → i < d.max_readers
      → Step d (park d old)
  -- every slot has been passed
  finish :
      (d : RcuDomain) (target old i : ℕ)
      → d.writer ≡ waiting target old i
      → d.max_readers ≤ i
      → Step d (reclaim d old)

pub data Reachable : RcuDomain → Type 0 where
  start : (max_readers : ℕ) → Reachable (new_domain max_readers)
  next : (d d' : RcuDomain) → Reachable d → Step d d' → Reachable d'
