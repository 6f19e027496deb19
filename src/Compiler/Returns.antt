-- ===== src/Compiler/Returns.antt =====
-- The run ends, and it hands a rule set out exactly where there is no error.
use real_time_policy_authori.Common.{
  ℕ, suc, ◌+◌, ◌^◌, ◌≤◌, ◌≡◌, ◌⊎◌, ◌∙◌, inl, inr, refl, sym, ap, subst, true, false, Option, none,
  some, is_some, List, [], ◌∷◌, ◌++◌, length, length-append, arith, ◌==◌, Bool-cases, Option-cases,
}
use mathlib.Core.Option.{some-injective}
use real_time_policy_authori.FlatSet.{◌>>=◌, rebuild}
use real_time_policy_authori.Rules.{RuleSet, Text}
use real_time_policy_authori.Imsi.{parse_plmn}
use real_time_policy_authori.Yaml.{
  Node, null, scalar, sequence, mapping, Items, no_item, item, line_of, is_map, scalar_of, find,
  Libc,
}
use real_time_policy_authori.Compiler.{Compiler, err, warn, start, never_fires}
use real_time_policy_authori.Compiler.Tables.{
  collect, load_roaming_partners, load_imei_file, load_imei_blocklist, read_imei_lines, some_imei,
  strip_end,
}
use real_time_policy_authori.Compiler.Loader.{
  load_rules, load_names, finish, load_default_action, warn_all, sort_and_check, run,
}
use real_time_policy_authori.Rules.Order.{stable_sort, shadow_warnings}
use real_time_policy_authori.Rules.Meaning.{bind_inv}
use real_time_policy_authori.FlatSet.Refines.{rebuild-Refines}

pub count_items : Items → ℕ
count_items no_item = 0
count_items (item v items) = suc (count_items items)

-- how many keys a member may list
unfoldable pub listed_in : Option Node → ℕ
unfolding count_items
listed_in (some (sequence line items)) = count_items items
listed_in _ = 0

collect-length :
    (parse : Text → Option ℕ) (items : Items) (keys : List ℕ) (c : Compiler)
    → length (collect parse items keys c).1 ≤ length keys + count_items items
unfolding collect count_items
collect-length parse no_item keys c = omega arith
collect-length parse (item v items) keys c = elim (Option-cases (scalar_of v >>= parse)) [
  | inl e ↦ rw (collect, e) (omega (arith, collect-length parse items keys (err c (line_of v))))
  | inr (key, e) ↦
      rw (collect, e)
        (omega
          (arith, collect-length parse items (keys ++ (key ∷ [])) c, length-append keys (key ∷ [])))
]

Text-cases : (s : Text) → (s ≡ []) ⊎ ((b : ℕ) × (t : Text) × (s ≡ b ∷ t))
Text-cases [] = inl refl
Text-cases (b ∷ t) = inr (b, t, refl)

read_imei_lines-length :
    (lines : List Text) (bad : ℕ) (keys : List ℕ)
    → length (read_imei_lines lines bad keys).1 ≤ length keys + length lines
unfolding read_imei_lines
read_imei_lines-length [] bad keys = omega arith
read_imei_lines-length (l ∷ lines) bad keys = elim (Text-cases (strip_end l)) [
  | inl e ↦ rw (read_imei_lines, e) (omega (arith, read_imei_lines-length lines bad keys))
  | inr (b, s, e) ↦ elim (Bool-cases (b == 35)) [
    | inl e' ↦ rw (read_imei_lines, e, e') (omega (arith, read_imei_lines-length lines bad keys))
    | inr e' ↦ elim (Option-cases (some_imei (b ∷ s))) [
      | inl e'' ↦
          rw (read_imei_lines, e, e', e'')
            (omega (arith, read_imei_lines-length lines (bad + 1) keys))
      | inr (imei, e'') ↦
          rw (read_imei_lines, e, e', e'')
            (omega (
              arith,
              read_imei_lines-length lines bad (keys ++ (imei ∷ [])),
              length-append keys (imei ∷ []),
            ))
    ]
  ]
]

-- a chain returns where both of its parts do
bind-returns :
    {A B : Type 0} (o : Option A) (f : A → Option B) (a : A)
    → o ≡ some a
    → (b : B) × (f a ≡ some b)
    → (b : B) × ((o >>= f) ≡ some b)
bind-returns none f a e r = cc e
bind-returns (some x) f a e (b, r) = (b, ap f (some-injective x a e) ∙ r)

load_roaming_partners-returns :
    (c : Compiler) (n : Option Node)
    → listed_in n ≤ 2 ^ 60
    → (c' : Compiler) × (load_roaming_partners c n ≡ some c')
unfolding load_roaming_partners listed_in
load_roaming_partners-returns c none h = (c, refl)
load_roaming_partners-returns c (some (sequence line items)) h =
    let got = collect parse_plmn items [] c in
    let (s, e, r) =
      rebuild-Refines got.1 (omega (arith, collect-length parse_plmn items [] c, h)) in
    bind-returns (rebuild got.1) _ s e (_, refl)
load_roaming_partners-returns c (some (null line)) h = (_, refl)
load_roaming_partners-returns c (some (scalar line text)) h = (_, refl)
load_roaming_partners-returns c (some (mapping line fields)) h = (_, refl)

-- no file has more lines than a set may have keys
abbrev pub AreShort : (Text → Option (List Text)) → Type 0
AreShort open_file =
    (path : Text) (lines : List Text) → open_file path ≡ some lines → length lines ≤ 2 ^ 60

file_keys :
    (open_file : Text → Option (List Text)) (path : Text) (line : ℕ) (c : Compiler)
    → AreShort open_file
    → length (load_imei_file open_file path line c).1 ≤ 2 ^ 60
unfolding load_imei_file
file_keys open_file path line c short = elim (Option-cases (open_file path)) [
  | inl e ↦ rw (load_imei_file, e) (omega arith)
  | inr (lines, e) ↦
      rw (load_imei_file, e) (omega (arith, read_imei_lines-length lines 0 [], short path lines e))
]

load_imei_blocklist-returns :
    (open_file : Text → Option (List Text)) (c : Compiler) (n : Option Node)
    → AreShort open_file
    → listed_in n ≤ 2 ^ 60
    → (c' : Compiler) × (load_imei_blocklist open_file c n ≡ some c')
unfolding load_imei_blocklist listed_in
load_imei_blocklist-returns open_file c none short h = (c, refl)
load_imei_blocklist-returns open_file c (some (sequence line items)) short h =
    let got = collect some_imei items [] c in
    let (s, e, r) = rebuild-Refines got.1 (omega (arith, collect-length some_imei items [] c, h)) in
    bind-returns (rebuild got.1) _ s e (_, refl)
load_imei_blocklist-returns open_file c (some (scalar line path)) short h =
    let got = load_imei_file open_file path line c in
    let (s, e, r) = rebuild-Refines got.1 (file_keys open_file path line c short) in
    bind-returns (rebuild got.1) _ s e (_, refl)
load_imei_blocklist-returns open_file c (some (null line)) short h = (_, refl)
load_imei_blocklist-returns open_file c (some (mapping line fields)) short h = (_, refl)

module _ {D : Type 0} (lib : Libc D) (open_file : Text → Option (List Text)) (version : ℕ)
    (root : Node) (short : AreShort open_file)
    (partners : listed_in (find root "roaming_partners") ≤ 2 ^ 60)
    (blocked : listed_in (find root "imei_blocklist") ≤ 2 ^ 60) where
  mapping-returns :
      is_map root ≡ true
      → (out : Compiler × Option RuleSet) × (run lib open_file version root ≡ some out)
  unfolding run
  mapping-returns e =
      let names = load_names lib version root in
      let (c, e1) = load_roaming_partners-returns names (find root "roaming_partners") partners in
      let (d, e2) =
        load_imei_blocklist-returns open_file c (find root "imei_blocklist") short blocked in
      rw (run, e)
        (bind-returns (load_roaming_partners names (find root "roaming_partners")) _ c e1 (
          bind-returns (load_imei_blocklist open_file c (find root "imei_blocklist")) _ d e2
            (_, refl)))

-- The run returns for every tree, where neither of the two lists nor a file has more than 2^60 entries.
pub run-returns :
    {D : Type 0} (lib : Libc D) (open_file : Text → Option (List Text)) (version : ℕ) (root : Node)
    → AreShort open_file
    → listed_in (find root "roaming_partners") ≤ 2 ^ 60
    → listed_in (find root "imei_blocklist") ≤ 2 ^ 60
    → (out : Compiler × Option RuleSet) × (run lib open_file version root ≡ some out)
unfolding run
run-returns lib open_file version root short partners blocked = elim (Bool-cases (is_map root)) [
  | inr e ↦ refused_root e
  | inl e ↦ mapping-returns lib open_file version root short partners blocked e
]
  where
    refused_root :
        is_map root ≡ false
        → (out : Compiler × Option RuleSet) × (run lib open_file version root ≡ some out)
    refused_root e = ((err (start version) (line_of root), none), rw (run, e) refl)

module _ {D : Type 0} (lib : Libc D) where
  warn_all-errors : (c : Compiler) (pairs : List (ℕ × ℕ)) → (warn_all lib c pairs).errors ≡ c.errors
  unfolding warn_all warn
  warn_all-errors c [] = refl
  warn_all-errors c ((id, by) ∷ pairs) = warn_all-errors (warn c (never_fires id by)) pairs

  sort_and_check-errors : (c : Compiler) → (sort_and_check lib c).errors ≡ c.errors
  unfolding sort_and_check warn
  sort_and_check-errors c =
      let rules = stable_sort c.rs.rules in
      let kept =
        warn_all-errors (record c { rs = record c.rs { rules = rules } })
          (shadow_warnings [] rules) in
      elim (Bool-cases (length rules == 0)) [ inl e ↦ rw e kept | inr e ↦ rw e kept ]

  abbrev Told : Compiler × Option RuleSet → Type 0
  Told (c, o) = is_some o ≡ (length c.errors == 0)

  finish-Told : (c : Compiler) → Told (finish lib c)
  unfolding finish
  finish-Told c = elim (Bool-cases (length c.errors == 0)) [
    | inl e ↦ rw e (sym e ∙ ap (λ (t : List ℕ). length t == 0) (sym (sort_and_check-errors c)))
    | inr e ↦ rw e (sym e)
  ]

-- The rule set is handed out exactly where the run has recorded no error.
pub run-errors :
    {D : Type 0} (lib : Libc D) (open_file : Text → Option (List Text)) (version : ℕ) (root : Node)
    (c : Compiler) (o : Option RuleSet)
    → run lib open_file version root ≡ some (c, o)
    → is_some o ≡ (length c.errors == 0)
unfolding run err start
run-errors lib open_file version root c o h = elim (Bool-cases (is_map root)) [
  | inr e ↦ subst (Told lib) (some-injective _ (c, o) (rw (run, e) at h)) (ground arith)
  | inl e ↦
      let (d, e1, rest) =
        bind_inv
          (load_roaming_partners (load_names lib version root) (find root "roaming_partners")) _
          (c, o) (rw (run, e) at h) in
      let (d', e2, rest') =
        bind_inv (load_imei_blocklist open_file d (find root "imei_blocklist")) _ (c, o) rest in
      subst (Told lib) (some-injective _ (c, o) rest') (
        finish-Told lib (
          load_rules lib (load_default_action lib d' (find root "default_action"))
            (find root "rules")))
]
