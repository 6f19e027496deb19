-- ===== src/Yaml/Tests.antt =====
-- Readings of scalars on concrete texts.
use real_time_policy_authori.Common.{◌≡◌, refl, true, false, none, some}
use real_time_policy_authori.Common.Text.{codes}
use real_time_policy_authori.Yaml.Scalars.{
  strip_comment, unquote, quote, make_scalar, make_scalar-quote,
}
use real_time_policy_authori.Yaml.{scalar, as_bool, iequals, despace}

on_is_true : as_bool (scalar 1 (codes "On")) ≡ some true
unfolding as_bool
on_is_true = refl

two_is_neither : as_bool (scalar 1 (codes "2")) ≡ none
unfolding as_bool
two_is_neither = refl

separators : despace (codes "1_000 000") ≡ codes "1000000"
unfolding despace
separators = refl

suffixes : iequals (codes "gIb") "GiB" ≡ true
unfolding iequals
suffixes = refl

make_scalar-quote_example :
    (strip_comment (quote (codes "it's # 1")) ≡ quote (codes "it's # 1"))
    × (make_scalar 4 (quote (codes "it's # 1")) ≡ (scalar 4 (codes "it's # 1"), false))
make_scalar-quote_example = make_scalar-quote 4 (codes "it's # 1")

comment_cut : strip_comment (codes "a#b #c") ≡ codes "a#b "
unfolding strip_comment
comment_cut = refl

escapes : unquote (codes " \"a\\tb\" ") ≡ codes "a\tb"
unfolding unquote
escapes = refl

-- An apostrophe in a bare scalar keeps the comment after it.
comment_kept : strip_comment (codes "it's 5 # five") ≡ codes "it's 5 # five"
unfolding strip_comment
comment_kept = refl
