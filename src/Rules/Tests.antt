-- ===== src/Rules/Tests.antt =====
-- The compiler on the conditions of one rule, and the window theorem.
use real_time_policy_authori.Common.{
  ℕ, ◌+◌, ◌-◌, ◌%◌, ◌^◌, ◌<◌, ◌≡◌, ◌↔◌, refl, Bool, true, false, some, List, [], ◌∷◌, arith,
  replicate, ◌==◌, leb, ◌||◌,
}
use real_time_policy_authori.Common.Bits.{set_if}
use real_time_policy_authori.FlatSet.{no_slots}
use real_time_policy_authori.Rules.{Action, RuleSet}
use real_time_policy_authori.Rules.Window.{contains, contains-elapsed}
use real_time_policy_authori.Rules.Conditions.{
  Condition, flag, one_of, none_of, usage, time, Pairs, add_bit, add_one_of, one_each, expand,
  or_all, add_none_of, first_index, intern_usage_threshold, intern_time_window, compile_condition,
  compile_when,
}
use real_time_policy_authori.Rules.Pairs.{hits}
use real_time_policy_authori.Rules.Interning.{HasRoom, Extends}
use real_time_policy_authori.Rules.Meaning.{AreConsistent, meets_all, compile_when-meets_all}

contains-elapsed_example :
    (contains (record { start_minute = 1320; end_minute = 360 }) 30 ≡ true)
    ↔ ((30 + 1440 - 1320) % 1440 < (360 + 1440 - 1320) % 1440)
contains-elapsed_example =
    contains-elapsed (record { start_minute = 1320; end_minute = 360 }) 30 (omega arith)
      (omega arith) (omega arith)

abbrev no_action : Action
no_action = record {
  quota_bytes = 0;
  ambr_ul_kbps = 0;
  ambr_dl_kbps = 0;
  rating_group = 0;
  quota_validity_s = 0;
  verdict = 0;
  reason = 0;
  qos_5qi = 0;
  arp = 0;
  set_flags = 0;
  redirect_id = 0;
  inherit_mask = 0;
}

-- the tables before the first rule
abbrev fresh : RuleSet
fresh = record {
  version = 1;
  rules = [];
  plans = [];
  plan_count = 0;
  time_windows = replicate 8 (record { start_minute = 0; end_minute = 0 });
  time_window_count = 0;
  usage_thresholds_permille = replicate 8 0;
  usage_threshold_count = 0;
  roaming_partners = no_slots;
  imei_blocklist = no_slots;
  plan_names = [];
  dnn_names = [];
  redirect_targets = [];
  default_action = no_action;
}

fresh-HasRoom : HasRoom fresh
fresh-HasRoom = record {
  thresholds = refl;
  windows = refl;
  threshold_count = omega arith;
  window_count = omega arith;
}

-- `status: ACTIVE`, `rat: [LTE, NR]`, `roaming: false`, `usage_above: 80%`, outside 22:00 to 06:00
abbrev conditions : List Condition
conditions =
    one_of (24 ∷ [])
    ∷ one_of (1 ∷ 2 ∷ [])
    ∷ flag 29 false
    ∷ usage 800 true
    ∷ time 1320 360 false
    ∷ []

abbrev compiled : RuleSet
compiled = record fresh {
  time_windows =
      record { start_minute = 1320; end_minute = 360 }
      ∷ replicate 7 (record { start_minute = 0; end_minute = 0 });
  time_window_count = 1;
  usage_thresholds_permille = 800 ∷ replicate 7 0;
  usage_threshold_count = 1;
}

abbrev tested : ℕ
tested = 2 ^ 24 + 2 ^ 29 + 2 ^ 40 + 2 ^ 48

abbrev pairs : Pairs
pairs = (tested + 2, 2 ^ 24 + 2 ^ 48 + 2) ∷ (tested + 4, 2 ^ 24 + 2 ^ 48 + 4) ∷ []

compiles : compile_when fresh ((0, 0) ∷ []) conditions ≡ some (compiled, pairs)
unfolding compile_when compile_condition add_one_of expand one_each add_bit set_if
    intern_usage_threshold intern_time_window first_index
compiles = refl

-- the bits that the conditions want set
abbrev wanted : ℕ → Bool
wanted i = leb i 2 || i == 24 || i == 48

conditions-AreConsistent : AreConsistent wanted compiled conditions
unfolding first_index
conditions-AreConsistent = ((refl, tt), ((refl, (refl, tt)), (refl, (refl, (refl, tt)))))

compile_when-meets_all_example :
    ((f : ℕ) → hits pairs f ≡ meets_all compiled f conditions)
    × Extends fresh compiled
    × HasRoom compiled
compile_when-meets_all_example =
    compile_when-meets_all wanted fresh compiled pairs conditions fresh-HasRoom compiles
      conditions-AreConsistent

new_bit :
    intern_usage_threshold fresh 800
    ≡ some (
      48,
      record fresh { usage_threshold_count = 1; usage_thresholds_permille = 800 ∷ replicate 7 0 },
    )
unfolding intern_usage_threshold first_index
new_bit = refl

-- `rat: LTE` beside `not_rat: LTE` is a rule for LTE: the second condition is lost
contradiction :
    compile_when fresh ((0, 0) ∷ []) (one_of (1 ∷ []) ∷ none_of (1 ∷ []) ∷ [])
    ≡ some (fresh, (2, 2) ∷ [])
unfolding compile_when compile_condition add_one_of expand one_each add_none_of or_all
contradiction = refl
