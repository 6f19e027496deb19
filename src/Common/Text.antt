-- ===== src/Common/Text.antt =====
-- Texts, as the lists of their bytes, in the "C" locale.
use Prim.Native.Char.{code}
use Prim.Native.String.{String}
use Prim.Native.Nat.{ℕ, ◌+◌, ◌-◌}
use mathlib.Core.Path.{◌≡◌, refl}
use mathlib.Core.Bool.{Bool, true, false, ◌&&◌, ◌||◌}
use mathlib.Core.List.{List, [], ◌∷◌, map}
use native.Mathlib.Omega.{arith}
use real_time_policy_authori.Common.Tests.{◌==◌, leb, if◌then◌else◌}

-- The bytes of a literal: it is ASCII. `String` has its own `[]` and `∷`.
abbrev pub codes : String → List ℕ
codes String.[] = []
codes (String.◌∷◌ c s) = code c ∷ codes s

unfoldable pub text_eq : List ℕ → List ℕ → Bool
text_eq [] [] = true
text_eq [] (d ∷ t) = false
text_eq (c ∷ s) [] = false
text_eq (c ∷ s) (d ∷ t) = c == d && text_eq s t

pub text_eq_sound : (s t : List ℕ) → text_eq s t ≡ true → s ≡ t
unfolding text_eq
text_eq_sound [] [] h = refl
text_eq_sound [] (d ∷ t) h = cc h
text_eq_sound (c ∷ s) [] h = cc h
text_eq_sound (c ∷ s) (d ∷ t) h =
    let head : c ≡ d = ground arith in
    let rest : text_eq s t ≡ true = ground arith in cc (head, text_eq_sound s t rest)

pub text_eq_refl : (s : List ℕ) → text_eq s s ≡ true
unfolding text_eq
text_eq_refl [] = refl
text_eq_refl (c ∷ s) = ground (arith, text_eq_refl s)

-- `std::toupper` and `std::tolower`, on every byte
abbrev upper_byte : ℕ → ℕ
upper_byte c = if leb 97 c && leb c 122 then c - 32 else c

abbrev lower_byte : ℕ → ℕ
lower_byte c = if leb 65 c && leb c 90 then c + 32 else c

unfoldable pub to_upper : List ℕ → List ℕ
to_upper s = map upper_byte s

unfoldable pub to_lower : List ℕ → List ℕ
to_lower s = map lower_byte s

-- a text is one of the names
unfoldable pub is_one_of : List ℕ → List String → Bool
unfolding text_eq
is_one_of s [] = false
is_one_of s (n ∷ names) = text_eq s (codes n) || is_one_of s names
