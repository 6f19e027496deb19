-- ===== src/Compiler/Names.antt =====
-- src/rules.cpp: the tables of names, which are read without regard to case.
use Prim.Native.String.{String}
use real_time_policy_authori.Common.{
  ℕ, ◌+◌, ◌^◌, Bool, Option, none, some, List, [], ◌∷◌, memb, if◌then◌else◌,
}
use real_time_policy_authori.Common.Text.{codes, text_eq, is_one_of, to_upper}
use real_time_policy_authori.Rules.{Text}
use real_time_policy_authori.Rules.Feat

unfoldable pub parse_verdict : Text → Option ℕ
unfolding to_upper is_one_of
parse_verdict s =
    let u = to_upper s in
    if is_one_of u ("ALLOW" ∷ "PERMIT" ∷ [])
    then some 0
    else if is_one_of u ("DENY" ∷ "REJECT" ∷ "BLOCK" ∷ [])
    then some 1
    else if is_one_of u ("REDIRECT" ∷ [])
    then some 2
    else none

-- `reason_name`, in the order of the reasons
abbrev pub reason_names : List String
reason_names =
    "OK" ∷ "UNKNOWN_SUBSCRIBER" ∷ "SUBSCRIBER_SUSPENDED" ∷ "SUBSCRIBER_BARRED" ∷ "IMEI_BLOCKED"
    ∷ "ROAMING_NOT_ALLOWED" ∷ "PLMN_NOT_PARTNER" ∷ "DNN_NOT_ALLOWED" ∷ "RAT_NOT_ALLOWED"
    ∷ "QUOTA_EXHAUSTED" ∷ "QUOTA_EXHAUSTED_THROTTLED" ∷ "TETHERING_BLOCKED" ∷ "NO_MATCHING_RULE"
    ∷ "POLICY_DEFAULT_DENY" ∷ "OFF_PEAK_BONUS" ∷ "PLAN_DEFAULT" ∷ "MALFORMED_REQUEST" ∷ []

-- the loop of `parse_reason`, from reason `i`
unfoldable pub find_reason : Text → List String → ℕ → Option ℕ
unfolding text_eq
find_reason u [] i = none
find_reason u (n ∷ names) i =
    let rest = find_reason u names (i + 1) in if text_eq u (codes n) then some i else rest

unfoldable pub parse_reason : Text → Option ℕ
unfolding to_upper find_reason
parse_reason s = find_reason (to_upper s) reason_names 0

unfoldable pub parse_rat : Text → Option ℕ
unfolding to_upper is_one_of
parse_rat s =
    let u = to_upper s in
    if is_one_of u ("LTE" ∷ "EUTRAN" ∷ "4G" ∷ [])
    then some 0
    else if is_one_of u ("NR" ∷ "5G" ∷ "NGRAN" ∷ [])
    then some 1
    else if is_one_of u ("WLAN" ∷ "WIFI" ∷ "WI-FI" ∷ [])
    then some 2
    else none

unfoldable pub parse_decision_flag : Text → Option ℕ
unfolding to_upper is_one_of
parse_decision_flag s =
    let u = to_upper s in
    if is_one_of u ("THROTTLED" ∷ [])
    then some (2 ^ 0)
    else if is_one_of u ("ROAMING_RESTRICTED" ∷ [])
    then some (2 ^ 1)
    else if is_one_of u ("TETHERING_BLOCKED" ∷ [])
    then some (2 ^ 2)
    else if is_one_of u ("QUOTA_WARNING" ∷ [])
    then some (2 ^ 3)
    else if is_one_of u ("OFF_PEAK_BONUS" ∷ [])
    then some (2 ^ 4)
    else none

unfoldable pub parse_inherit : Text → Option ℕ
unfolding to_upper is_one_of
parse_inherit s =
    let u = to_upper s in
    if is_one_of u ("ALL" ∷ [])
    then some 15
    else if is_one_of u ("QOS" ∷ [])
    then some Feat.inherit_qos
    else if is_one_of u ("AMBR" ∷ [])
    then some Feat.inherit_ambr
    else if is_one_of u ("QUOTA" ∷ [])
    then some Feat.inherit_quota
    else if is_one_of u ("RATING_GROUP" ∷ [])
    then some Feat.inherit_rating_group
    else none

unfoldable pub parse_status : Text → Option ℕ
unfolding to_upper is_one_of
parse_status s =
    let u = to_upper s in
    if is_one_of u ("ACTIVE" ∷ [])
    then some Feat.status_active
    else if is_one_of u ("SUSPENDED" ∷ [])
    then some Feat.status_suspended
    else if is_one_of u ("BARRED" ∷ [])
    then some Feat.status_barred
    else if is_one_of u ("UNKNOWN" ∷ [])
    then some Feat.status_unknown
    else none

abbrev standardized_5qis : List ℕ
standardized_5qis =
    1 ∷ 2 ∷ 3 ∷ 4 ∷ 5 ∷ 6 ∷ 7 ∷ 8 ∷ 9 ∷ 65 ∷ 66 ∷ 67 ∷ 69 ∷ 70 ∷ 71 ∷ 72 ∷ 73 ∷ 74 ∷ 75 ∷ 76 ∷ 79
    ∷ 80 ∷ 82 ∷ 83 ∷ 84 ∷ 85 ∷ 86 ∷ []

unfoldable pub is_standardized_5qi : ℕ → Bool
is_standardized_5qi q = memb q standardized_5qis
