-- ===== src/Probe.antt =====
-- The linear probing that `FlatSet64` (include/policy/flat_set.hpp) and `SubscriberStore`
-- (include/policy/subscriber_store.hpp) share. A table is seen as the function `at` from an index
-- to the key that stands there, 0 where the slot is empty.
pub mod Loop
pub mod Pow2
pub mod Count
pub mod Table
