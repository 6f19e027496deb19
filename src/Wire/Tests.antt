-- ===== src/Wire/Tests.antt =====
-- Runs of the codec, and its theorems at a request of a roaming subscriber.
use real_time_policy_authori.Common.{
  ℕ, ◌≡◌, ◌↔◌, ◌⊎◌, refl, true, false, List, ◌∷◌, arith, length, replicate, take,
}
use real_time_policy_authori.Wire.Bytes.{little, big, of_le, load_all, Fits}
use real_time_policy_authori.Wire.Messages.{
  PolicyRequest, request_layout, request_fields, request_message, swap_request,
}
use real_time_policy_authori.Wire.Codec.{
  encode, decode, decode-encode, encode-decode, decode_accepts,
}

abbrev sample : PolicyRequest
sample = record {
  magic_version = 0x504C4301;
  seq = 7;
  imsi = 310260000000001;
  imei = 490154203237518;
  client_ts_ns = 1000000;
  bytes_used_period = 5;
  plmn = 208001;
  tac = 0x1234;
  rat_type = 1;
  dnn_id = 2;
  requested_5qi = 9;
  flags = 4;
  local_minute = 1439;
  req_ambr_ul_kbps = 1000;
  req_ambr_dl_kbps = 2000;
  reserved = 0;
}

abbrev blank : PolicyRequest
blank = record {
  magic_version = 0;
  seq = 0;
  imsi = 0;
  imei = 0;
  client_ts_ns = 0;
  bytes_used_period = 0;
  plmn = 0;
  tac = 0;
  rat_type = 0;
  dnn_id = 0;
  requested_5qi = 0;
  flags = 0;
  local_minute = 0;
  req_ambr_ul_kbps = 0;
  req_ambr_dl_kbps = 0;
  reserved = 0;
}

sample-Fits : Fits request_layout (request_fields sample)
sample-Fits = omega arith

decode-encode_example : decode little (encode big sample) blank ≡ (true, sample)
decode-encode_example = decode-encode big little sample blank sample-Fits refl

abbrev datagram : List ℕ
datagram = 0x01 ∷ 0x43 ∷ 0x4C ∷ 0x50 ∷ replicate 60 7

encode-decode_example : encode little (decode big datagram blank).1 ≡ datagram
unfolding decode swap_request load_all
encode-decode_example = encode-decode big little datagram blank (omega arith) refl

decode_accepts_example :
    (((decode big datagram blank).0 ≡ true)
      ↔ ((length datagram ≡ 64) × (of_le (take 4 datagram) ≡ 0x504C4301)))
    × ((length datagram ≡ 64) ⊎ (decode big datagram blank ≡ (false, blank)))
decode_accepts_example = decode_accepts big datagram blank (omega arith)
