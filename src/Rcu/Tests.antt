-- ===== src/Rcu/Tests.antt =====
-- A publication with one reader, which still holds the first rule set when the second is published.
use real_time_policy_authori.Common.{◌+◌, ◌≡◌, refl, inl, false, arith, memb, if◌then◌else◌}
use real_time_policy_authori.Rcu.{
  holding, waiting, RcuDomain, new_domain, with_slot, exchange_ptr, move_epoch, reclaim, park,
  load_epoch, store_epoch, load_current, exchange, move, pass, time_out, finish, Reachable, start,
  next, loaded, entered,
}
use real_time_policy_authori.Rcu.Grace.{AllBelow, Reachable-not_freed}
use real_time_policy_authori.Rcu.Accounts.{count, in_hand, was_replaced, Reachable-Balances}

-- the first rule set is published
abbrev d1 : RcuDomain
d1 = exchange_ptr (new_domain 1)

abbrev d2 : RcuDomain
d2 = move_epoch d1 0

abbrev d3 : RcuDomain
d3 = record d2 { writer = waiting 2 0 1 }

abbrev d4 : RcuDomain
d4 = reclaim d3 0

-- the reader takes it
abbrev d5 : RcuDomain
d5 = with_slot d4 0 (record { epoch = 0; phase = loaded 2 })

abbrev d6 : RcuDomain
d6 = with_slot d5 0 (record { epoch = 2; phase = entered })

abbrev d7 : RcuDomain
d7 = with_slot d6 0 (record { epoch = 2; phase = holding 1 })

-- the second is published, and the writer does not wait long enough
abbrev d8 : RcuDomain
d8 = exchange_ptr d7

abbrev d9 : RcuDomain
d9 = move_epoch d8 1

abbrev d10 : RcuDomain
d10 = park d9 1

reached7 : Reachable d7
reached7 =
    next d6 d7
      (next d5 d6
        (next d4 d5
          (next d3 d4
            (next d2 d3
              (next d1 d2 (next (new_domain 1) d1 (start 1) (exchange (new_domain 1) refl))
                (move d1 0 refl))
              (pass d2 2 0 0 refl (omega arith) (inl refl)))
            (finish d3 2 0 1 refl (omega arith)))
          (load_epoch d4 0 (omega arith) refl))
        (store_epoch d5 0 2 (omega arith) refl))
      (load_current d6 0 (omega arith) refl)

reached10 : Reachable d10
reached10 =
    next d9 d10 (next d8 d9 (next d7 d8 reached7 (exchange d7 refl)) (move d8 1 refl))
      (time_out d9 3 1 0 refl (omega arith))

Reachable-not_freed_example :
    (memb 1 d10.freed ≡ false)
    × (memb d10.current d10.freed ≡ false)
    × AllBelow d10.current d10.retired
Reachable-not_freed_example = Reachable-not_freed d10 0 1 reached10 refl

Reachable-Balances_example :
    count 1 d10.retired + count 1 d10.freed + in_hand 1 d10.writer
    ≡ (if was_replaced d10 1 then 1 else 0)
Reachable-Balances_example = Reachable-Balances reached10 1
