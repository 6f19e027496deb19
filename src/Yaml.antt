-- ===== src/Yaml.antt =====
-- include/policy/yaml.hpp and src/yaml.cpp: the tree that the parser of the YAML subset makes, and the
-- typed readings of its scalars. A `double` is a value of a type `D`; what the readings use of it and of
-- the C library (`strtoll`, `strtol`, `strtod`) is the parameter `Libc D`.
pub mod Scalars
mod Tests
use Prim.Native.String.{String}
use real_time_policy_authori.Common.{
  ℕ, zero, suc, ◌+◌, ◌*◌, ◌^◌, Bool, true, false, not, ◌&&◌, ◌||◌, Option, none, some, List, [],
  ◌∷◌, ltb, leb, ◌==◌, if◌then◌else◌, is_some,
}
use real_time_policy_authori.Common.Text.{codes, text_eq, to_lower, is_one_of}
use real_time_policy_authori.FlatSet.{◌>>=◌}
use real_time_policy_authori.Hdr.{ℤ, pos, negsuc}
use real_time_policy_authori.Rules.{Text}

mutual
  pub data Node : Type 0 where
    null : (line : ℕ) → Node
    scalar : (line : ℕ) (text : Text) → Node
    sequence : (line : ℕ) (items : Items) → Node
    mapping : (line : ℕ) (fields : Fields) → Node

  pub data Items : Type 0 where
    no_item : Items
    item : Node → Items → Items

  pub data Fields : Type 0 where
    no_field : Fields
    field : (key : Text) → Node → Fields → Fields

abbrev pub line_of : Node → ℕ
line_of (null line) = line
line_of (scalar line text) = line
line_of (sequence line items) = line
line_of (mapping line fields) = line

-- `is_scalar` and `scalar`; the text of any other node is empty
abbrev pub scalar_of : Node → Option Text
scalar_of (scalar line text) = some text
scalar_of _ = none

abbrev pub is_map : Node → Bool
is_map (mapping line fields) = true
is_map _ = false

-- the members of a node that is no mapping are none
abbrev pub fields_of : Node → Fields
fields_of (mapping line fields) = fields
fields_of _ = no_field

-- the first member of that name
unfoldable pub find_field : Fields → Text → Option Node
unfolding text_eq
find_field no_field key = none
find_field (field k v fields) key =
    let rest = find_field fields key in if text_eq k key then some v else rest

unfoldable pub find : Node → String → Option Node
unfolding find_field
find n key = find_field (fields_of n) (codes key)

unfoldable pub has : Node → String → Bool
unfolding find
has n key = is_some (find n key)

unfoldable pub iequals : Text → String → Bool
unfolding text_eq to_lower
iequals s name = text_eq (to_lower s) (to_lower (codes name))

-- without the separators `_` and the blank
unfoldable pub despace : Text → Text
despace [] = []
despace (c ∷ s) = let rest = despace s in if c == 95 || c == 32 then rest else c ∷ rest

-- What the readings use of the C library. The number functions give the text that is left, and
-- `none` where nothing was converted; `strtol` does not say where it stopped, since nothing asks.
pub record Libc (D : Type 0) : Type 0 where
  pub strtoll : Text → Option (ℤ × Text)
  pub strtol : Text → ℤ
  pub strtod : Text → Option (D × Text)
  pub is_finite : D → Bool
  pub is_negative : D → Bool
  pub times : D → ℕ → D
  pub over : D → ℕ → D
  pub exceeds : D → ℕ → Bool
  pub plus_half : D → D
  pub truncate : D → ℕ

module _ {D : Type 0} (c : Libc D) where
  -- of a negative number, or a text that has something after the number, there is no reading
  unfoldable pub as_uint : Node → Option ℕ
  unfolding despace
  as_uint n = scalar_of n >>= λ text. elim (despace text) [
    | [] ↦ none
    | b ∷ t ↦ c.strtoll (b ∷ t) >>= λ (v, rest). elim rest [
      | _ ∷ _ ↦ none
      | [] ↦ elim v [ pos k ↦ some k | negsuc k ↦ none ]
    ]
  ]

  unfoldable pub parse_number : Text → Option (D × Text)
  unfolding despace
  parse_number s = elim (despace s) [
    | [] ↦ none
    | b ∷ t ↦ c.strtod (b ∷ t) >>= λ (v, suffix). if c.is_finite v then some (v, suffix) else none
  ]

  -- the number of a scalar that is not negative, with its suffix
  abbrev pub measured : Node → Option (D × Text)
  measured n = scalar_of n >>= λ text.
      parse_number text >>= λ (v, suffix). if c.is_negative v then none else some (v, suffix)

  -- a value that is cut to an integer, if it does not exceed the limit
  abbrev pub bounded : ℕ → D → Option ℕ
  bounded limit v = if c.exceeds v limit then none else some (c.truncate v)

  unfoldable pub byte_unit : Text → Option ℕ
  unfolding iequals text_eq
  byte_unit suffix =
      if text_eq suffix [] || iequals suffix "B"
      then some 1
      else if iequals suffix "KB"
      then some (10 ^ 3)
      else if iequals suffix "MB"
      then some (10 ^ 6)
      else if iequals suffix "GB"
      then some (10 ^ 9)
      else if iequals suffix "TB"
      then some (10 ^ 12)
      else if iequals suffix "KiB"
      then some 1024
      else if iequals suffix "MiB"
      then some (1024 * 1024)
      else if iequals suffix "GiB"
      then some (1024 * 1024 * 1024)
      else if iequals suffix "TiB"
      then some (1024 * 1024 * 1024 * 1024)
      else none

  unfoldable pub as_bytes : Node → Option ℕ
  unfolding parse_number byte_unit
  as_bytes n = measured n >>= λ (v, suffix).
      byte_unit suffix >>= λ mult. bounded (18 * 10 ^ 18) (c.times v mult)

  unfoldable pub as_kbps : Node → Option ℕ
  unfolding parse_number iequals text_eq
  as_kbps n = measured n >>= λ (v, suffix).
      if text_eq suffix [] || iequals suffix "kbps" || iequals suffix "kb/s"
      then bounded (429 * 10 ^ 7) v
      else if iequals suffix "bps"
      then bounded (429 * 10 ^ 7) (c.over v 1000)
      else if iequals suffix "Mbps" || iequals suffix "Mb/s"
      then bounded (429 * 10 ^ 7) (c.times v 1000)
      else if iequals suffix "Gbps" || iequals suffix "Gb/s"
      then bounded (429 * 10 ^ 7) (c.times v (10 ^ 6))
      else none

  unfoldable pub as_seconds : Node → Option ℕ
  unfolding parse_number iequals text_eq
  as_seconds n = measured n >>= λ (v, suffix).
      if text_eq suffix [] || text_eq suffix (codes "s") || iequals suffix "sec"
      then bounded (429 * 10 ^ 7) v
      else if text_eq suffix (codes "m") || iequals suffix "min"
      then bounded (429 * 10 ^ 7) (c.times v 60)
      else if text_eq suffix (codes "h") || iequals suffix "hr"
      then bounded (429 * 10 ^ 7) (c.times v 3600)
      else if text_eq suffix (codes "d") || iequals suffix "day"
      then bounded (429 * 10 ^ 7) (c.times v 86400)
      else none

  unfoldable pub as_permille : Node → Option ℕ
  unfolding parse_number text_eq
  as_permille n = measured n >>= λ (v, suffix).
      let scaled =
        if text_eq suffix (codes "%")
        then some (c.times v 10)
        else if text_eq suffix []
        then some (if c.exceeds v 1 then c.times v 10 else c.times v 1000)
        else none in
      scaled >>= λ permille.
      if c.exceeds permille 100000 then none else some (c.truncate (c.plus_half permille))

  -- a number from 0 to `limit`
  abbrev pub clock_part : ℕ → ℤ → Option ℕ
  clock_part limit (pos k) = if ltb limit k then none else some k
  clock_part limit (negsuc k) = none

  -- the text before the first colon, and the text after it
  unfoldable pub split_colon : Text → Option (Text × Text)
  split_colon [] = none
  split_colon (b ∷ s) =
      let rest = split_colon s in
      if b == 58 then some ([], s) else (rest >>= λ (before, after). some (b ∷ before, after))

  unfoldable pub as_time_of_day : Node → Option ℕ
  unfolding split_colon
  as_time_of_day n = scalar_of n >>= λ text. split_colon text >>= λ (before, after).
      clock_part 23 (c.strtol before) >>= λ h.
      clock_part 59 (c.strtol after) >>= λ m. some (h * 60 + m)

unfoldable pub as_bool : Node → Option Bool
unfolding iequals text_eq
as_bool n = scalar_of n >>= λ s.
    if iequals s "true" || iequals s "yes" || iequals s "on" || text_eq s (codes "1")
    then some true
    else if iequals s "false" || iequals s "no" || iequals s "off" || text_eq s (codes "0")
    then some false
    else none
