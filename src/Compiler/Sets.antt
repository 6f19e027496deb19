-- ===== src/Compiler/Sets.antt =====
-- The two sets keep the rule set sound.
use real_time_policy_authori.Common.{
  ℕ, ◌≡◌, inl, inr, subst, Option, none, some, List, [], ◌∷◌, ◌++◌, length, ◌==◌, Bool-cases,
  Option-cases,
}
use mathlib.Core.Option.{some-injective}
use real_time_policy_authori.FlatSet.{FlatSet64, ◌>>=◌, rebuild}
use real_time_policy_authori.Rules.{Text}
use real_time_policy_authori.Imsi.{parse_plmn}
use real_time_policy_authori.Yaml.{
  Node, null, scalar, sequence, mapping, Items, no_item, item, line_of, scalar_of,
}
use real_time_policy_authori.Compiler.{Compiler, err, warn, malformed_lines}
use real_time_policy_authori.Compiler.Tables.{
  collect, load_roaming_partners, load_imei_file, load_imei_blocklist, read_imei_lines, some_imei,
}
use real_time_policy_authori.Compiler.Outcomes.{IsQuiet}
use real_time_policy_authori.Compiler.Valid.{AreTargets}
use real_time_policy_authori.Compiler.Sound.{IsBuilt, Sound, Sound-quiet}
use real_time_policy_authori.Rules.Meaning.{bind_inv}

collect-keeps :
    {P : Compiler → Type 0}
    → IsQuiet P
    → (parse : Text → Option ℕ) (items : Items) (keys : List ℕ) (c : Compiler) → P c
    → P (collect parse items keys c).0
unfolding collect
collect-keeps quiet parse no_item keys c p = p
collect-keeps {P = P} quiet parse (item v items) keys c p =
    elim (Option-cases (scalar_of v >>= parse)) [
      | inl e ↦
          rw (collect, e)
            (collect-keeps {P = P} quiet parse items keys (err c (line_of v))
              (quiet.on_err c (line_of v) p))
      | inr (key, e) ↦
          rw (collect, e) (collect-keeps {P = P} quiet parse items (keys ++ (key ∷ [])) c p)
    ]

partners_set :
    (c : Compiler) {s : FlatSet64}
    → IsBuilt s
    → Sound c
    → Sound (record c { rs = record c.rs { roaming_partners = s } })
partners_set c built h = record {
  room = h.room;
  plans = h.plans;
  partners = built;
  blocked = h.blocked;
  targets = h.targets;
  default_action = h.default_action;
  rules = h.rules;
  fit = h.fit;
}

blocklist_set :
    (c : Compiler) {s : FlatSet64}
    → IsBuilt s
    → Sound c
    → Sound (record c { rs = record c.rs { imei_blocklist = s } })
blocklist_set c built h = record {
  room = h.room;
  plans = h.plans;
  partners = h.partners;
  blocked = built;
  targets = h.targets;
  default_action = h.default_action;
  rules = h.rules;
  fit = h.fit;
}

pub load_roaming_partners-Sound :
    (c c' : Compiler) (n : Option Node) → load_roaming_partners c n ≡ some c' → Sound c → Sound c'
unfolding load_roaming_partners err
load_roaming_partners-Sound c c' none e h = subst Sound (some-injective c c' e) h
load_roaming_partners-Sound c c' (some (sequence line items)) e h =
    let got = collect parse_plmn items [] c in
    let (s, built, e') = bind_inv (rebuild got.1) _ c' e in
    subst Sound (some-injective _ c' e') (
      partners_set got.0 (got.1, built)
        (collect-keeps {P = Sound} Sound-quiet parse_plmn items [] c h))
load_roaming_partners-Sound c c' (some (null line)) e h = subst Sound (some-injective _ c' e) h
load_roaming_partners-Sound c c' (some (scalar line text)) e h =
    subst Sound (some-injective _ c' e) h
load_roaming_partners-Sound c c' (some (mapping line fields)) e h =
    subst Sound (some-injective _ c' e) h

load_imei_file-Sound :
    (open_file : Text → Option (List Text)) (path : Text) (line : ℕ) (c : Compiler)
    → Sound c
    → Sound (load_imei_file open_file path line c).0
unfolding load_imei_file
load_imei_file-Sound open_file path line c h = elim (Option-cases (open_file path)) [
  | inl e ↦ rw (load_imei_file, e) (Sound-quiet.on_err c line h)
  | inr (lines, e) ↦ elim (Bool-cases ((read_imei_lines lines 0 []).0 == 0)) [
    | inl e' ↦ rw (load_imei_file, e, e') h
    | inr e' ↦
        rw (load_imei_file, e, e')
          (Sound-quiet.on_warn c (malformed_lines (read_imei_lines lines 0 []).0) h)
  ]
]

pub load_imei_blocklist-Sound :
    (open_file : Text → Option (List Text)) (c c' : Compiler) (n : Option Node)
    → load_imei_blocklist open_file c n ≡ some c'
    → Sound c
    → Sound c'
unfolding load_imei_blocklist err
load_imei_blocklist-Sound open_file c c' none e h = subst Sound (some-injective c c' e) h
load_imei_blocklist-Sound open_file c c' (some (sequence line items)) e h =
    let got = collect some_imei items [] c in
    let (s, built, e') = bind_inv (rebuild got.1) _ c' e in
    subst Sound (some-injective _ c' e') (
      blocklist_set got.0 (got.1, built)
        (collect-keeps {P = Sound} Sound-quiet some_imei items [] c h))
load_imei_blocklist-Sound open_file c c' (some (scalar line path)) e h =
    let got = load_imei_file open_file path line c in
    let (s, built, e') = bind_inv (rebuild got.1) _ c' e in
    subst Sound (some-injective _ c' e')
      (blocklist_set got.0 (got.1, built) (load_imei_file-Sound open_file path line c h))
load_imei_blocklist-Sound open_file c c' (some (null line)) e h =
    subst Sound (some-injective _ c' e) h
load_imei_blocklist-Sound open_file c c' (some (mapping line fields)) e h =
    subst Sound (some-injective _ c' e) h

-- Sound, with `n` targets.
abbrev pub SoundAt : ℕ → Compiler → Type 0
SoundAt n c = Sound c × (length c.rs.redirect_targets ≡ n)

pub SoundAt-quiet : (n : ℕ) → IsQuiet (SoundAt n)
unfolding err warn
SoundAt-quiet n = record { on_err = λ c line h. h; on_warn = λ c w h. h }

pub SoundAt-targets : (n : ℕ) (c : Compiler) → SoundAt n c → AreTargets c.redirect_ids n
SoundAt-targets n c (h, e) = subst (AreTargets c.redirect_ids) e h.targets
