-- ===== src/Wire/Messages.antt =====
-- The two messages, `swap_endianness`, and the enumerations that they carry.
use real_time_policy_authori.Common.{ℕ, ◌^◌, ◌≡◌, refl, List, [], ◌∷◌, get_or, take, bit_or}
use real_time_policy_authori.Wire.Bytes.{
  Host, little, Width, u8, u16, u32, u64, total, load_all, of_le, to_le, swap_all,
}

abbrev pub magic_version : ℕ
magic_version = bit_or 0x504C4300 1

abbrev pub wire_msg_size : ℕ
wire_msg_size = 64

-- `Verdict`, `Reason` and the flag enumerations, as the bytes that they are on the wire
abbrev pub verdict_allow : ℕ
verdict_allow = 0

abbrev pub verdict_deny : ℕ
verdict_deny = 1

abbrev pub verdict_redirect : ℕ
verdict_redirect = 2

abbrev pub reason_ok : ℕ
reason_ok = 0

abbrev pub reason_no_matching_rule : ℕ
reason_no_matching_rule = 12

abbrev pub reason_policy_default_deny : ℕ
reason_policy_default_deny = 13

abbrev pub reason_malformed_request : ℕ
reason_malformed_request = 16

abbrev pub flag_usage_from_request : ℕ
flag_usage_from_request = 2 ^ 5

abbrev pub req_flag_tethering_detected : ℕ
req_flag_tethering_detected = 2 ^ 0

abbrev pub req_flag_emergency : ℕ
req_flag_emergency = 2 ^ 1

abbrev pub req_flag_usage_valid : ℕ
req_flag_usage_valid = 2 ^ 2

pub record PolicyRequest : Type 0 where
  pub magic_version : ℕ
  pub seq : ℕ
  pub imsi : ℕ
  pub imei : ℕ
  pub client_ts_ns : ℕ
  pub bytes_used_period : ℕ
  pub plmn : ℕ
  pub tac : ℕ
  pub rat_type : ℕ
  pub dnn_id : ℕ
  pub requested_5qi : ℕ
  pub flags : ℕ
  pub local_minute : ℕ
  pub req_ambr_ul_kbps : ℕ
  pub req_ambr_dl_kbps : ℕ
  pub reserved : ℕ

pub record PolicyDecision : Type 0 where
  pub magic_version : ℕ
  pub seq : ℕ
  pub client_ts_ns : ℕ
  pub quota_bytes : ℕ
  pub ambr_ul_kbps : ℕ
  pub ambr_dl_kbps : ℕ
  pub rating_group : ℕ
  pub quota_validity_s : ℕ
  pub rule_id : ℕ
  pub policy_version : ℕ
  pub verdict : ℕ
  pub reason : ℕ
  pub qos_5qi : ℕ
  pub arp : ℕ
  pub flags : ℕ
  pub redirect_id : ℕ
  pub reserved : ℕ
  pub server_ts_ns : ℕ

-- the overloads of `swap_endianness`
unfoldable pub swap_request : Host → PolicyRequest → PolicyRequest
unfolding to_le
swap_request h r = record r {
  magic_version = to_le h u32 r.magic_version;
  seq = to_le h u32 r.seq;
  imsi = to_le h u64 r.imsi;
  imei = to_le h u64 r.imei;
  client_ts_ns = to_le h u64 r.client_ts_ns;
  bytes_used_period = to_le h u64 r.bytes_used_period;
  plmn = to_le h u32 r.plmn;
  tac = to_le h u16 r.tac;
  local_minute = to_le h u16 r.local_minute;
  req_ambr_ul_kbps = to_le h u32 r.req_ambr_ul_kbps;
  req_ambr_dl_kbps = to_le h u32 r.req_ambr_dl_kbps;
  reserved = to_le h u32 r.reserved;
}

unfoldable pub swap_decision : Host → PolicyDecision → PolicyDecision
unfolding to_le
swap_decision h d = record d {
  magic_version = to_le h u32 d.magic_version;
  seq = to_le h u32 d.seq;
  client_ts_ns = to_le h u64 d.client_ts_ns;
  quota_bytes = to_le h u64 d.quota_bytes;
  ambr_ul_kbps = to_le h u32 d.ambr_ul_kbps;
  ambr_dl_kbps = to_le h u32 d.ambr_dl_kbps;
  rating_group = to_le h u32 d.rating_group;
  quota_validity_s = to_le h u32 d.quota_validity_s;
  rule_id = to_le h u32 d.rule_id;
  policy_version = to_le h u32 d.policy_version;
  reserved = to_le h u16 d.reserved;
  server_ts_ns = to_le h u64 d.server_ts_ns;
}

-- What `encode` and `decode` need of the message type that they are instantiated at.
pub record Message (M : Type 0) : Type 0 where
  pub layout : List Width
  pub fields : M → List ℕ
  pub build : List ℕ → M
  pub magic : M → ℕ
  pub swap : Host → M → M
  pub build-fields : (m : M) → build (fields m) ≡ m
  pub total-layout : total layout ≡ wire_msg_size
  pub fields-load :
      (h : Host) (bytes : List ℕ)
      → fields (build (load_all h layout bytes)) ≡ load_all h layout bytes
  pub magic-load :
      (bytes : List ℕ) → magic (build (load_all little layout bytes)) ≡ of_le (take 4 bytes)
  pub fields-swap : (h : Host) (m : M) → fields (swap h m) ≡ swap_all h layout (fields m)

abbrev pub request_layout : List Width
request_layout =
    u32 ∷ u32 ∷ u64 ∷ u64 ∷ u64 ∷ u64 ∷ u32 ∷ u16 ∷ u8 ∷ u8 ∷ u8 ∷ u8 ∷ u16 ∷ u32 ∷ u32 ∷ u32 ∷ []

abbrev pub request_fields : PolicyRequest → List ℕ
request_fields r =
    r.magic_version ∷ r.seq ∷ r.imsi ∷ r.imei ∷ r.client_ts_ns ∷ r.bytes_used_period ∷ r.plmn
    ∷ r.tac ∷ r.rat_type ∷ r.dnn_id ∷ r.requested_5qi ∷ r.flags ∷ r.local_minute
    ∷ r.req_ambr_ul_kbps ∷ r.req_ambr_dl_kbps ∷ r.reserved ∷ []

abbrev pub request_build : List ℕ → PolicyRequest
request_build vs = record {
  magic_version = get_or vs 0 0;
  seq = get_or vs 1 0;
  imsi = get_or vs 2 0;
  imei = get_or vs 3 0;
  client_ts_ns = get_or vs 4 0;
  bytes_used_period = get_or vs 5 0;
  plmn = get_or vs 6 0;
  tac = get_or vs 7 0;
  rat_type = get_or vs 8 0;
  dnn_id = get_or vs 9 0;
  requested_5qi = get_or vs 10 0;
  flags = get_or vs 11 0;
  local_minute = get_or vs 12 0;
  req_ambr_ul_kbps = get_or vs 13 0;
  req_ambr_dl_kbps = get_or vs 14 0;
  reserved = get_or vs 15 0;
}

pub request_fields-swap :
    (h : Host) (r : PolicyRequest)
    → request_fields (swap_request h r) ≡ swap_all h request_layout (request_fields r)
unfolding swap_request swap_all
request_fields-swap Host.little r = refl
request_fields-swap Host.big r = refl

pub request_fields-load :
    (h : Host) (bytes : List ℕ)
    → request_fields (request_build (load_all h request_layout bytes))
      ≡ load_all h request_layout bytes
unfolding load_all
request_fields-load h bytes = refl

pub request_magic-load :
    (bytes : List ℕ)
    → (request_build (load_all little request_layout bytes)).magic_version ≡ of_le (take 4 bytes)
unfolding load_all
request_magic-load bytes = refl

instance abbrev pub request_message : Message PolicyRequest
request_message = record {
  layout = request_layout;
  fields = request_fields;
  build = request_build;
  magic = λ r. r.magic_version;
  swap = swap_request;
  build-fields = λ r. refl;
  total-layout = refl;
  fields-load = request_fields-load;
  magic-load = request_magic-load;
  fields-swap = request_fields-swap;
}

abbrev pub decision_layout : List Width
decision_layout =
    u32 ∷ u32 ∷ u64 ∷ u64 ∷ u32 ∷ u32 ∷ u32 ∷ u32 ∷ u32 ∷ u32 ∷ u8 ∷ u8 ∷ u8 ∷ u8 ∷ u8 ∷ u8 ∷ u16
    ∷ u64 ∷ []

abbrev pub decision_fields : PolicyDecision → List ℕ
decision_fields d =
    d.magic_version ∷ d.seq ∷ d.client_ts_ns ∷ d.quota_bytes ∷ d.ambr_ul_kbps ∷ d.ambr_dl_kbps
    ∷ d.rating_group ∷ d.quota_validity_s ∷ d.rule_id ∷ d.policy_version ∷ d.verdict ∷ d.reason
    ∷ d.qos_5qi ∷ d.arp ∷ d.flags ∷ d.redirect_id ∷ d.reserved ∷ d.server_ts_ns ∷ []

abbrev pub decision_build : List ℕ → PolicyDecision
decision_build vs = record {
  magic_version = get_or vs 0 0;
  seq = get_or vs 1 0;
  client_ts_ns = get_or vs 2 0;
  quota_bytes = get_or vs 3 0;
  ambr_ul_kbps = get_or vs 4 0;
  ambr_dl_kbps = get_or vs 5 0;
  rating_group = get_or vs 6 0;
  quota_validity_s = get_or vs 7 0;
  rule_id = get_or vs 8 0;
  policy_version = get_or vs 9 0;
  verdict = get_or vs 10 0;
  reason = get_or vs 11 0;
  qos_5qi = get_or vs 12 0;
  arp = get_or vs 13 0;
  flags = get_or vs 14 0;
  redirect_id = get_or vs 15 0;
  reserved = get_or vs 16 0;
  server_ts_ns = get_or vs 17 0;
}

pub decision_fields-swap :
    (h : Host) (d : PolicyDecision)
    → decision_fields (swap_decision h d) ≡ swap_all h decision_layout (decision_fields d)
unfolding swap_decision swap_all
decision_fields-swap Host.little d = refl
decision_fields-swap Host.big d = refl

pub decision_fields-load :
    (h : Host) (bytes : List ℕ)
    → decision_fields (decision_build (load_all h decision_layout bytes))
      ≡ load_all h decision_layout bytes
unfolding load_all
decision_fields-load h bytes = refl

pub decision_magic-load :
    (bytes : List ℕ)
    → (decision_build (load_all little decision_layout bytes)).magic_version ≡ of_le (take 4 bytes)
unfolding load_all
decision_magic-load bytes = refl

instance abbrev pub decision_message : Message PolicyDecision
decision_message = record {
  layout = decision_layout;
  fields = decision_fields;
  build = decision_build;
  magic = λ d. d.magic_version;
  swap = swap_decision;
  build-fields = λ d. refl;
  total-layout = refl;
  fields-load = decision_fields-load;
  magic-load = decision_magic-load;
  fields-swap = decision_fields-swap;
}
