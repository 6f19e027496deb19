-- ===== src/Rules/Feat.antt =====
-- The layout of the feature word, and the capacity limits.
use real_time_policy_authori.Common.{ℕ, ◌^◌}

abbrev pub max_plans : ℕ
max_plans = 32

abbrev pub max_dnns : ℕ
max_dnns = 16

abbrev pub max_time_windows : ℕ
max_time_windows = 8

abbrev pub max_usage_thresholds : ℕ
max_usage_thresholds = 8

abbrev pub rat_base : ℕ
rat_base = 0

abbrev pub rat_bits : ℕ
rat_bits = 8

abbrev pub dnn_base : ℕ
dnn_base = 8

abbrev pub dnn_bits : ℕ
dnn_bits = 16

abbrev pub status_active : ℕ
status_active = 24

abbrev pub status_suspended : ℕ
status_suspended = 25

abbrev pub status_barred : ℕ
status_barred = 26

abbrev pub status_unknown : ℕ
status_unknown = 27

abbrev pub home_plmn : ℕ
home_plmn = 28

abbrev pub roaming : ℕ
roaming = 29

abbrev pub roaming_partner : ℕ
roaming_partner = 30

abbrev pub roaming_allowed : ℕ
roaming_allowed = 31

abbrev pub imei_known : ℕ
imei_known = 32

abbrev pub imei_blocked : ℕ
imei_blocked = 33

abbrev pub tethering_detected : ℕ
tethering_detected = 34

abbrev pub tethering_allowed : ℕ
tethering_allowed = 35

abbrev pub emergency : ℕ
emergency = 36

abbrev pub quota_exhausted : ℕ
quota_exhausted = 37

abbrev pub period_expired : ℕ
period_expired = 38

abbrev pub requested_gbr : ℕ
requested_gbr = 39

abbrev pub time_window_base : ℕ
time_window_base = 40

abbrev pub usage_threshold_base : ℕ
usage_threshold_base = 48

abbrev pub inherit_qos : ℕ
inherit_qos = 2 ^ 0

abbrev pub inherit_ambr : ℕ
inherit_ambr = 2 ^ 1

abbrev pub inherit_quota : ℕ
inherit_quota = 2 ^ 2

abbrev pub inherit_rating_group : ℕ
inherit_rating_group = 2 ^ 3

abbrev pub plan_tethering_allowed : ℕ
plan_tethering_allowed = 2 ^ 0
