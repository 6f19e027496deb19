-- ===== src/Lib.antt =====
-- Real-Time Policy Authorization Service: a model of its decision path, and what is proved of it.
--
-- The service answers 64-byte requests. A datagram is decoded (include/policy/wire.hpp), the
-- subscriber is looked up by IMSI (include/policy/subscriber_store.hpp), the facts of the request
-- and the subscriber are packed in a 64-bit feature word, the first compiled rule that matches the
-- word decides (src/engine.cpp), and the decision is encoded. The rules are compiled from the tree of a
-- YAML file (src/rules.cpp) into (mask, value) pairs over the same word. Latencies are counted in a
-- histogram (include/policy/hdr_histogram.hpp).
--
-- Files:
--   Common      shared names, lists, Boolean tests, and the bits of native numbers
--   Wire        include/policy/wire.hpp: fields in memory on a host of either byte order (Bytes), the two
--               messages and their byte swaps (Messages), encode and decode (Codec). `Message` is
--               what the two templates need of a message type; both messages are instances.
--   Probe       the probe loop that the set and the store share (Loop), the sizing loop (Pow2), and what
--               makes a table of linear probing well formed (Count, Table)
--   FlatSet     include/policy/flat_set.hpp
--   Store       include/policy/subscriber_store.hpp and src/subscriber_store.cpp
--   Imsi        include/policy/imsi.hpp
--   Rules       include/policy/rules.hpp, and from src/rules.cpp the compilation of conditions
--               (Conditions, with the proofs in Pairs, Interning and Meaning) and the order of the
--               table (Order)
--   Engine      src/engine.cpp: feature word, scan and decision; Gbr and Usage are its two tests,
--               Bits, Word and Features say which bits are set, Facts what they should say; Returns
--               that the look-ups end; Fires which rule fires, Answer what the decision owes to it, Grant
--               that it is filled in so, Decision what it says and never says, Order and Shadow how the scan
--               meets the sorted table
--   Rcu         include/policy/rcu.hpp: how rule sets are published to readers and freed, as a step
--               relation over the shared variables (Grace and Accounts hold the invariants)
--   Yaml        include/policy/yaml.hpp and src/yaml.cpp: the tree, and the readings of its
--               scalars; Scalars is about blanks, comments and quotes
--   Compiler    src/rules.cpp, the class Compiler: the names (Names), the tables (Tables), the actions
--               (Actions), the conditions (When), the rules and the run (Loader). Outcomes says what holds
--               after a step that may fail, Clears, Inherits and Valid are about actions, Sound is
--               what the compiler keeps true, by Runs (names and redirects), Whole (plans), Sets,
--               Entries (rules) and Run, and Returns that it ends
--   Hdr         include/policy/hdr_histogram.hpp: Magnitude, Buckets, Order and Capacity are about the place
--               of a value, History and Counts about what the counters stand for, Merge about `add`, Rank and
--               Percentile about `value_at_percentile`
--
-- Machine integers are natural numbers below their bound, with `% 2 ^ w` where the source can wrap
-- around. `none` of a look-up is a loop that does not end. The fuel of a probe is the number of
-- slots: a table that is not full stops the probe before it has gone round. 62 rounds of the sizing
-- loop take 8 to 2^63 and past it. 20 rounds of the Luhn loop consume any 64-bit number. `upsert` and
-- `grow` call each other: `depth` bounds the nesting, and depth 1 is enough.
--
-- Parameters: the load factor of the store is a `double`; its one use, the comparison in `upsert`, is
-- `LoadLimit.over`, with the laws that hold for every factor from 0.25 to 0.9, and the number of slots
-- that the constructor asks for is an argument. The coarse clock is an argument of the decision.
--
-- The C library functions that read numbers, and `double`, are the parameter `Libc` of the compiler;
-- the content of a blocklist file is a function of its path. The rank that a percentile stands for is
-- an argument of `value_at_percentile`; `std::log2` and `std::pow` are exact on the arguments that the
-- histogram gives them. 64 rounds find the highest bit of a 64-bit number and count the buckets.
--
-- Not modelled: the lines and blocks of the YAML parser, the provenance of a rule set, the words of its
-- messages, other text output, the CSV loader, sockets, threads, the control plane, metrics, the mean and
-- the deviation of the histogram, and failing allocation.
pub mod Common
pub mod Wire
pub mod Probe
pub mod FlatSet
pub mod Store
pub mod Imsi
pub mod Rules
pub mod Engine
pub mod Rcu
pub mod Hdr
pub mod Yaml
pub mod Compiler
