-- ===== src/Yaml/Scalars.antt =====
-- src/yaml.cpp: blanks, comments and quotes. A `std::string_view` that is cut is the part of the text.
use real_time_policy_authori.Common.{
  ℕ, ◌≡◌, ◌∙◌, inl, inr, refl, ap, Bool, true, false, not, ◌&&◌, ◌||◌, [], ◌∷◌, ◌++◌, ◌==◌,
  if◌then◌else◌, arith, Bool-cases,
}
use real_time_policy_authori.Common.Text.{text_eq, is_one_of}
use real_time_policy_authori.Rules.{Text}
use real_time_policy_authori.Yaml.{Node, null, scalar}

-- a blank, a tab or a carriage return
abbrev is_end_blank : ℕ → Bool
is_end_blank c = c == 32 || c == 9 || c == 13

unfoldable rtrim : Text → Text
rtrim [] = []
rtrim (c ∷ s) = elim (rtrim s) [ [] ↦ if is_end_blank c then [] else c ∷ [] | d ∷ t ↦ c ∷ d ∷ t ]

unfoldable trim : Text → Text
unfolding rtrim
trim [] = []
trim (c ∷ s) = let rest = trim s in if c == 32 || c == 9 then rest else rtrim (c ∷ s)

-- the text from a character on, where `before` says that a comment may start here
unfoldable strip : Bool → Bool → Bool → Text → Text
strip in_single in_double before [] = []
strip in_single in_double before (c ∷ s) =
    let blank = c == 32 || c == 9 in
    let single = strip (not in_single) in_double blank s in
    let double = strip in_single (not in_double) blank s in
    let rest = strip in_single in_double blank s in
    if c == 39 && not in_double
    then c ∷ single
    else if c == 34 && not in_single
    then c ∷ double
    else if c == 35 && not in_single && not in_double && before
    then []
    else c ∷ rest

unfoldable pub strip_comment : Text → Text
unfolding strip
strip_comment line = strip false false true line

-- `front`, `back` and what lies before the back, of a text that is not empty
abbrev back : ℕ → Text → ℕ
back c [] = c
back c (d ∷ s) = back d s

abbrev but_back : ℕ → Text → Text
but_back c [] = []
but_back c (d ∷ s) = c ∷ but_back d s

-- the loop over a text in single quotes: a quote is written twice
unfoldable single_quoted : Text → Text
single_quoted [] = []
single_quoted (c ∷ []) = c ∷ []
single_quoted (c ∷ d ∷ s) = elim (c == 39 && d == 39) [
  | true ↦ d ∷ single_quoted s
  | false ↦ c ∷ single_quoted (d ∷ s)
]

-- what stands for the character after a backslash
abbrev escaped : ℕ → ℕ
escaped c =
    if c == 110
    then 10
    else if c == 116
    then 9
    else if c == 114
    then 13
    else if c == 48
    then 0
    else c

-- the loop over a text in double quotes
unfoldable double_quoted : Text → Text
double_quoted [] = []
double_quoted (c ∷ []) = c ∷ []
double_quoted (c ∷ d ∷ s) = elim (c == 92) [
  | true ↦ escaped d ∷ double_quoted s
  | false ↦ c ∷ double_quoted (d ∷ s)
]

-- the text between its first and its last character, if both are the quote
abbrev unquote_trimmed : Text → Text
unquote_trimmed [] = []
unquote_trimmed (c ∷ []) = c ∷ []
unquote_trimmed (c ∷ d ∷ s) =
    if c == 39 && back d s == 39
    then single_quoted (but_back d s)
    else if c == 34 && back d s == 34
    then double_quoted (but_back d s)
    else c ∷ d ∷ s

unfoldable pub unquote : Text → Text
unfolding trim single_quoted double_quoted
unquote s = unquote_trimmed (trim s)

-- a text in single quotes, as YAML writes it
abbrev pub twice : Text → Text
twice [] = []
twice (c ∷ s) = if c == 39 then 39 ∷ 39 ∷ twice s else c ∷ twice s

abbrev pub quote : Text → Text
quote s = 39 ∷ (twice s ++ (39 ∷ []))

single_quoted-twice : (s : Text) → single_quoted (twice s) ≡ s
unfolding single_quoted
single_quoted-twice [] = refl
single_quoted-twice (c ∷ s) = elim (Bool-cases (c == 39)) [
  | inl e ↦
      let same : 39 ≡ c = ground arith in
      rw e (
        ap (λ (t : ℕ). t ∷ single_quoted (twice s)) same
        ∙ ap (λ (t : Text). c ∷ t) (single_quoted-twice s))
  | inr e ↦ rw e (plain (twice s) (single_quoted-twice s) e)
]
  where
    plain : (t : Text) → single_quoted t ≡ s → (c == 39) ≡ false → single_quoted (c ∷ t) ≡ c ∷ s
    plain [] h e = ap (λ (t : Text). c ∷ t) h
    plain (d ∷ t) h e = rw (single_quoted, e) (ap (λ (t : Text). c ∷ t) h)

back_last : (c : ℕ) (s : Text) (q : ℕ) → back c (s ++ (q ∷ [])) ≡ q
back_last c [] q = refl
back_last c (d ∷ s) q = back_last d s q

but_back_last : (c : ℕ) (s : Text) (q : ℕ) → but_back c (s ++ (q ∷ [])) ≡ c ∷ s
but_back_last c [] q = refl
but_back_last c (d ∷ s) q = ap (λ (t : Text). c ∷ t) (but_back_last d s q)

-- a text that ends in no blank has none to cut
rtrim_last : (s : Text) (q : ℕ) → is_end_blank q ≡ false → rtrim (s ++ (q ∷ [])) ≡ s ++ (q ∷ [])
unfolding rtrim
rtrim_last [] q h = rw h refl
rtrim_last (c ∷ s) q h = shown s (rtrim_last s q h)
  where
    shown :
        (s : Text)
        → rtrim (s ++ (q ∷ [])) ≡ s ++ (q ∷ [])
        → rtrim (c ∷ (s ++ (q ∷ []))) ≡ c ∷ (s ++ (q ∷ []))
    shown [] e = rw (rtrim, e) refl
    shown (d ∷ s) e = rw (rtrim, e) refl

trim-quote : (s : Text) → trim (quote s) ≡ quote s
unfolding trim
trim-quote s = rtrim_last (39 ∷ twice s) 39 refl

unquoted : (t s : Text) → single_quoted t ≡ s → unquote_trimmed (39 ∷ (t ++ (39 ∷ []))) ≡ s
unfolding single_quoted
unquoted [] s h = h
unquoted (d ∷ t) s h = rw (back_last d t 39, but_back_last d t 39) h

-- the tests of `strip` inside single quotes
within :
    (is_quote is_double is_sign before : Bool) (x y rest : Text)
    → is_quote ≡ false
    → (if is_quote && not false
        then x
        else if is_double && not true
        then y
        else if is_sign && not true && not false && before
        then []
        else rest)
      ≡ rest
within is_quote true true before x y rest e = rw e refl
within is_quote true false before x y rest e = rw e refl
within is_quote false true before x y rest e = rw e refl
within is_quote false false before x y rest e = rw e refl

-- inside single quotes, a comment sign and a double quote are characters like any other
strip-twice :
    (before : Bool) (s : Text)
    → strip true false before (twice s ++ (39 ∷ [])) ≡ twice s ++ (39 ∷ [])
unfolding strip
strip-twice before [] = refl
strip-twice before (c ∷ s) = elim (Bool-cases (c == 39)) [
  | inl e ↦ rw e (ap (λ (t : Text). 39 ∷ 39 ∷ t) (strip-twice false s))
  | inr e ↦ rw (strip, e) (inside c s e (strip-twice (c == 32 || c == 9) s))
]
  where
    inside :
        (c : ℕ) (s : Text)
        → (c == 39) ≡ false
        → strip true false (c == 32 || c == 9) (twice s ++ (39 ∷ [])) ≡ twice s ++ (39 ∷ [])
        → strip true false before (c ∷ (twice s ++ (39 ∷ []))) ≡ c ∷ (twice s ++ (39 ∷ []))
    inside c s e h =
        within (c == 39) (c == 34) (c == 35) before _ _ _ e ∙ ap (λ (t : Text). c ∷ t) h

-- `make_scalar`, on a text without blanks around it; the flag says that the parser fails
abbrev scalar_of_trimmed : ℕ → Text → Node × Bool
scalar_of_trimmed line [] = (null line, false)
scalar_of_trimmed line (c ∷ s) =
    if is_one_of (c ∷ s) ("~" ∷ "null" ∷ "Null" ∷ "NULL" ∷ [])
    then (null line, false)
    else if c == 124 || c == 62
    then (null line, true)
    else if c == 38 || c == 42 || c == 33
    then (null line, true)
    else (scalar line (unquote (c ∷ s)), false)

unfoldable pub make_scalar : ℕ → Text → Node × Bool
unfolding trim is_one_of unquote
make_scalar line s = scalar_of_trimmed line (trim s)

unquote_lem : (s : Text) → unquote (quote s) ≡ s
unfolding unquote
unquote_lem s = ap unquote_trimmed (trim-quote s) ∙ unquoted (twice s) s (single_quoted-twice s)

make_scalar_lem : (line : ℕ) (s : Text) → make_scalar line (quote s) ≡ (scalar line s, false)
unfolding make_scalar is_one_of text_eq
make_scalar_lem line s =
    ap (scalar_of_trimmed line) (trim-quote s)
    ∙ ap (λ (t : Text). (scalar line t, false)) (unquote_lem s)

-- Every text can be written as a scalar in single quotes, whatever it holds: the comment sign in it
-- starts no comment, and the scalar that is read is the text.
pub make_scalar-quote :
    (line : ℕ) (s : Text)
    → (strip_comment (quote s) ≡ quote s) × (make_scalar line (quote s) ≡ (scalar line s, false))
unfolding strip_comment strip
make_scalar-quote line s = (ap (λ (t : Text). 39 ∷ t) (strip-twice false s), make_scalar_lem line s)
