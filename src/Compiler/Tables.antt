-- ===== src/Compiler/Tables.antt =====
-- src/rules.cpp: the tables of a rule file (`load_dnns`, `load_redirects`, `load_plans`,
-- `load_roaming_partners`, `load_imei_blocklist`). A body of a loop says whether the loop goes on. A file
-- is the list of the lines that `std::getline` gives; `none` for a table is a `rebuild` that never ends.
use Prim.Native.String.{String}
use real_time_policy_authori.Common.{
  ℕ, ◌+◌, ◌%◌, ◌^◌, Bool, true, false, not, ◌&&◌, ◌||◌, Option, none, some, is_some, List, [], ◌∷◌,
  ◌++◌, length, set, ltb, leb, ◌==◌, if◌then◌else◌, bit_or,
}
use real_time_policy_authori.Common.Text.{text_eq}
use real_time_policy_authori.FlatSet.{◌>>=◌, rebuild}
use real_time_policy_authori.Imsi.{parse_imei, parse_plmn}
use real_time_policy_authori.Rules.{PlanConfig, Text}
use real_time_policy_authori.Rules.Feat
use real_time_policy_authori.Yaml.{
  Node, scalar, sequence, mapping, Items, no_item, item, Fields, no_field, field, line_of, is_map,
  scalar_of, find, Libc, as_uint, as_kbps, as_bytes, as_seconds, as_bool,
}
use real_time_policy_authori.Compiler.{
  Compiler, err, warn, unusual_5qi, no_validity, malformed_lines, lookup_name, check_unknown_keys,
}
use real_time_policy_authori.Compiler.Names.{is_standardized_5qi}
use real_time_policy_authori.Compiler.Actions.{between}

-- a loop over a sequence, and one over a mapping
unfoldable pub each : (Compiler → Node → Compiler × Bool) → Items → Compiler → Compiler
each body no_item c = c
each body (item v items) c =
    let (c', more) = body c v in elim more [ true ↦ each body items c' | false ↦ c' ]

unfoldable pub each_field :
    (Compiler → Text → Node → Compiler × Bool) → Fields → Compiler → Compiler
each_field body no_field c = c
each_field body (field k v fields) c =
    let (c', more) = body c k v in elim more [ true ↦ each_field body fields c' | false ↦ c' ]

-- `n ? n->line() : 0`
abbrev pub line_or_zero : Option Node → ℕ
line_or_zero none = 0
line_or_zero (some n) = line_of n

-- `std::find`
unfoldable pub index_of : Text → List Text → Option ℕ
unfolding text_eq
index_of s [] = none
index_of s (t ∷ names) =
    let rest = index_of s names in if text_eq t s then some 0 else (rest >>= λ i. some (i + 1))

unfoldable pub load_dnn : Compiler → Node → Compiler × Bool
unfolding err index_of
load_dnn c (scalar line name) =
    if leb Feat.max_dnns (length c.rs.dnn_names)
    then (err c line, false)
    else if is_some (index_of name c.rs.dnn_names)
    then (err c line, true)
    else (record c { rs = record c.rs { dnn_names = c.rs.dnn_names ++ (name ∷ []) } }, true)
load_dnn c n = (err c (line_of n), true)

unfoldable pub load_dnns : Compiler → Option Node → Compiler
unfolding each load_dnn err
load_dnns c (some (sequence line items)) = each load_dnn items c
load_dnns c n = err c (line_or_zero n)

abbrev pub max_redirects : ℕ
max_redirects = 16

unfoldable pub load_redirect : Compiler → Text → Node → Compiler × Bool
unfolding err
load_redirect c name target =
    if leb max_redirects (length c.rs.redirect_targets)
    then (err c (line_of target), false)
    else elim (scalar_of target) [
      | none ↦ (err c (line_of target), true)
      | some text ↦ (
        record c {
          redirect_ids = (name, length c.rs.redirect_targets % 2 ^ 8) ∷ c.redirect_ids;
          rs = record c.rs { redirect_targets = c.rs.redirect_targets ++ (text ∷ []) };
        },
        true,
      )
    ]

-- index 0 stands for no redirect
unfoldable pub load_redirects : Compiler → Option Node → Compiler
unfolding each_field load_redirect err
load_redirects c none = c
load_redirects c (some (mapping line fields)) =
    each_field load_redirect fields
      (record c { rs = record c.rs { redirect_targets = c.rs.redirect_targets ++ ([] ∷ []) } })
load_redirects c (some n) = err c (line_of n)

-- `opt_kbps`, `opt_bytes`, `opt_seconds`, `opt_uint` and `opt_bool`, which differ in the reading
abbrev pub optional : {A : Type 0} → Node → String → (Node → Option A) → A → Compiler → Compiler × A
optional n key read dflt c = elim (find n key) [
  | none ↦ (c, dflt)
  | some v ↦ elim (read v) [ none ↦ (err c (line_of v), dflt) | some x ↦ (c, x) ]
]

abbrev pub plan_keys : List String
plan_keys =
    "name" ∷ "qos_5qi" ∷ "arp" ∷ "ambr_ul" ∷ "ambr_dl" ∷ "quota" ∷ "quota_validity" ∷ "rating_group"
    ∷ "tethering" ∷ "roaming" ∷ []

module _ {D : Type 0} (lib : Libc D) where
  unfoldable pub req_5qi : Node → String → ℕ → Compiler → Compiler × ℕ
  unfolding find as_uint err warn is_standardized_5qi
  req_5qi n key dflt c = elim (find n key) [
    | none ↦ (c, dflt)
    | some v ↦ elim (between 1 255 (as_uint lib v)) [
      | none ↦ (err c (line_of v), dflt)
      | some q ↦
          if not (is_standardized_5qi q) && ltb q 128 then (warn c (unusual_5qi q), q) else (c, q)
    ]
  ]

  unfoldable pub req_arp : Node → String → ℕ → Compiler → Compiler × ℕ
  unfolding find as_uint err
  req_arp n key dflt c = optional n key (λ v. between 1 15 (as_uint lib v)) dflt c

  -- the members of a plan, in the order in which they are read; a rating group is cut to 32 bits
  unfoldable pub read_plan : Compiler → Node → ℕ → Compiler × PlanConfig
  unfolding req_5qi req_arp find as_uint as_kbps as_bytes as_seconds as_bool err
  read_plan c n id =
      let (c, qos_5qi) = req_5qi n "qos_5qi" 9 c in
      let (c, arp) = req_arp n "arp" 8 c in
      let (c, ambr_ul_kbps) = optional n "ambr_ul" (as_kbps lib) 0 c in
      let (c, ambr_dl_kbps) = optional n "ambr_dl" (as_kbps lib) 0 c in
      let (c, quota_bytes) = optional n "quota" (as_bytes lib) 0 c in
      let (c, quota_validity_s) = optional n "quota_validity" (as_seconds lib) 0 c in
      let (c, rating_group) = optional n "rating_group" (as_uint lib) 0 c in
      let (c, tethering) = optional n "tethering" as_bool false c in
      let (c, roaming) = optional n "roaming" as_bool false c in
      (
        c,
        record {
          quota_bytes = quota_bytes;
          quota_validity_s = quota_validity_s;
          rating_group = rating_group % 2 ^ 32;
          ambr_ul_kbps = ambr_ul_kbps;
          ambr_dl_kbps = ambr_dl_kbps;
          id = id;
          qos_5qi = qos_5qi;
          arp = arp;
          flags = bit_or (if tethering then 1 else 0) (if roaming then 2 else 0);
        },
      )

  -- a plan whose name is new, and has a place
  unfoldable pub add_plan : Compiler → Node → Text → Compiler
  unfolding read_plan warn
  add_plan c n name =
      let id = length c.rs.plan_names in
      let (c, p) = read_plan c n id in
      let c =
        if not (p.quota_bytes == 0) && p.quota_validity_s == 0
        then warn c (no_validity name)
        else c in
      record c {
        plan_ids = (name, id) ∷ c.plan_ids;
        rs = record c.rs {
          plans = set c.rs.plans id p;
          plan_names = c.rs.plan_names ++ (name ∷ []);
          plan_count = length (c.rs.plan_names ++ (name ∷ []));
        };
      }

  -- the plan of that name, if the node is a name
  unfoldable pub load_named_plan : Compiler → Node → Option Node → Compiler × Bool
  unfolding err lookup_name add_plan
  load_named_plan c n (some (scalar line (b ∷ name))) =
      if leb Feat.max_plans (length c.rs.plan_names)
      then (err c (line_of n), false)
      else if is_some (lookup_name c.plan_ids (b ∷ name))
      then (err c line, true)
      else (add_plan c n (b ∷ name), true)
  load_named_plan c n _ = (err c (line_of n), true)

  unfoldable pub load_plan : Compiler → Node → Compiler × Bool
  unfolding err check_unknown_keys find load_named_plan
  load_plan c n =
      if not (is_map n)
      then (err c (line_of n), true)
      else load_named_plan (check_unknown_keys c n plan_keys) n (find n "name")

  unfoldable pub load_plans : Compiler → Option Node → Compiler
  unfolding each load_plan err
  load_plans c (some (sequence line (item v items))) = each load_plan (item v items) c
  load_plans c n = err c (line_or_zero n)

-- the loops of `load_roaming_partners` and `load_imei_blocklist`: the keys that can be read
unfoldable pub collect : (Text → Option ℕ) → Items → List ℕ → Compiler → Compiler × List ℕ
unfolding err
collect parse no_item keys c = (c, keys)
collect parse (item v items) keys c = elim (scalar_of v >>= parse) [
  | none ↦ collect parse items keys (err c (line_of v))
  | some key ↦ collect parse items (keys ++ (key ∷ [])) c
]

unfoldable pub load_roaming_partners : Compiler → Option Node → Option Compiler
unfolding collect parse_plmn rebuild err
load_roaming_partners c none = some c
load_roaming_partners c (some (sequence line items)) =
    let (c, keys) = collect parse_plmn items [] c in
    rebuild keys >>= λ s. some (record c { rs = record c.rs { roaming_partners = s } })
load_roaming_partners c (some n) = some (err c (line_of n))

-- an IMEI that is not empty, and not zero
unfoldable pub some_imei : Text → Option ℕ
unfolding parse_imei
some_imei s = parse_imei s >>= λ imei. if imei == 0 then none else some imei

-- without the `\r` and the blanks at the end
unfoldable pub strip_end : Text → Text
strip_end [] = []
strip_end (b ∷ s) = elim (strip_end s) [
  | [] ↦ if b == 13 || b == 32 then [] else b ∷ []
  | d ∷ t ↦ b ∷ d ∷ t
]

-- the loop of `load_imei_file`, with the count of the bad lines
unfoldable pub read_imei_lines : List Text → ℕ → List ℕ → ℕ × List ℕ
unfolding strip_end some_imei
read_imei_lines [] bad keys = (bad, keys)
read_imei_lines (l ∷ lines) bad keys = elim (strip_end l) [
  | [] ↦ read_imei_lines lines bad keys
  | b ∷ s ↦
      let skipped = read_imei_lines lines bad keys in
      let failed = read_imei_lines lines (bad + 1) keys in
      if b == 35 then skipped else elim (some_imei (b ∷ s)) [
        | none ↦ failed
        | some imei ↦ read_imei_lines lines bad (keys ++ (imei ∷ []))
      ]
]

unfoldable pub load_imei_file :
    (Text → Option (List Text)) → Text → ℕ → Compiler → Compiler × List ℕ
unfolding read_imei_lines err warn
load_imei_file open_file path line c = elim (open_file path) [
  | none ↦ (err c line, [])
  | some lines ↦
      let (bad, keys) = read_imei_lines lines 0 [] in
      (if bad == 0 then c else warn c (malformed_lines bad), keys)
]

unfoldable pub load_imei_blocklist :
    (Text → Option (List Text)) → Compiler → Option Node → Option Compiler
unfolding collect some_imei load_imei_file rebuild err
load_imei_blocklist open_file c none = some c
load_imei_blocklist open_file c (some (scalar line path)) =
    let (c, keys) = load_imei_file open_file path line c in
    rebuild keys >>= λ s. some (record c { rs = record c.rs { imei_blocklist = s } })
load_imei_blocklist open_file c (some (sequence line items)) =
    let (c, keys) = collect some_imei items [] c in
    rebuild keys >>= λ s. some (record c { rs = record c.rs { imei_blocklist = s } })
load_imei_blocklist open_file c (some n) = some (err c (line_of n))
