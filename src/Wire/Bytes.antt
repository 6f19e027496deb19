-- ===== src/Wire/Bytes.antt =====
-- Fields in memory, on a machine of either byte order, and `detail::to_le`.
use mathlib.Core.List.{reverse}
use native.Mathlib.Nat.{pow-suc}
use real_time_policy_authori.Common.{
  ℕ, zero, suc, ◌+◌, ◌*◌, ◌/◌, ◌%◌, ◌^◌, ◌<◌, ◌≡◌, refl, ap, List, [], ◌∷◌, ◌++◌, arith, length,
  take, drop, bit_or,
}

pub data Host : Type 0 where
  little big : Host

-- the unsigned integer types
pub data Width : Type 0 where
  u8 u16 u32 u64 : Width

abbrev pub size_of : Width → ℕ
size_of u8 = 1
size_of u16 = 2
size_of u32 = 4
size_of u64 = 8

-- the `w` bytes of a value, lowest first
unfoldable pub le_bytes : ℕ → ℕ → List ℕ
le_bytes zero v = []
le_bytes (suc w) v = v % 256 ∷ le_bytes w (v / 256)

unfoldable pub of_le : List ℕ → ℕ
of_le [] = 0
of_le (b ∷ bs) = b + 256 * of_le bs

abbrev pub All {ℓ κ} : {A : Type ℓ} → (A → Type κ) → List A → Type κ
All P [] = Unit
All P (x ∷ xs) = P x × All P xs

abbrev pub IsBytes : List ℕ → Type 0
IsBytes = All (λ b. b < 256)

-- `bswap16`, `bswap32` and `bswap64`: the last two are the compiler's
unfoldable pub bswap16 : ℕ → ℕ
bswap16 v = bit_or (v * 2 ^ 8) (v / 2 ^ 8) % 2 ^ 16

unfoldable pub bswap : ℕ → ℕ → ℕ
unfolding le_bytes of_le
bswap w v = of_le (reverse (le_bytes w v))

-- `to_le<T>`
unfoldable pub to_le : Host → Width → ℕ → ℕ
unfolding bswap16 bswap
to_le little w v = v
to_le big u8 v = v
to_le big u16 v = bswap16 v
to_le big u32 v = bswap 4 v
to_le big u64 v = bswap 8 v

-- the bytes of a field as they stand in memory, and a field read back from them
unfoldable pub store_field : Host → Width → ℕ → List ℕ
unfolding le_bytes
store_field little w v = le_bytes (size_of w) v
store_field big w v = reverse (le_bytes (size_of w) v)

unfoldable pub load_field : Host → List ℕ → ℕ
unfolding of_le
load_field little bs = of_le bs
load_field big bs = of_le (reverse bs)

-- a whole struct
unfoldable pub store_all : Host → List Width → List ℕ → List ℕ
unfolding store_field
store_all h [] vs = []
store_all h (w ∷ ws) [] = []
store_all h (w ∷ ws) (v ∷ vs) = store_field h w v ++ store_all h ws vs

unfoldable pub load_all : Host → List Width → List ℕ → List ℕ
unfolding load_field
load_all h [] bs = []
load_all h (w ∷ ws) bs = load_field h (take (size_of w) bs) ∷ load_all h ws (drop (size_of w) bs)

-- `to_le` of each field
unfoldable pub swap_all : Host → List Width → List ℕ → List ℕ
unfolding to_le
swap_all h [] vs = []
swap_all h (w ∷ ws) [] = []
swap_all h (w ∷ ws) (v ∷ vs) = to_le h w v ∷ swap_all h ws vs

-- `sizeof` of an unpadded struct
abbrev pub total : List Width → ℕ
total [] = 0
total (w ∷ ws) = size_of w + total ws

-- every value fits its field
abbrev pub Fits : List Width → List ℕ → Type 0
Fits [] [] = Unit
Fits [] (v ∷ vs) = ⊥
Fits (w ∷ ws) [] = ⊥
Fits (w ∷ ws) (v ∷ vs) = (v < 256 ^ size_of w) × Fits ws vs

pub length-le_bytes : (w v : ℕ) → length (le_bytes w v) ≡ w
unfolding le_bytes
length-le_bytes zero v = refl
length-le_bytes (suc w) v = ap suc (length-le_bytes w (v / 256))

pub le_bytes-IsBytes : (w v : ℕ) → IsBytes (le_bytes w v)
unfolding le_bytes
le_bytes-IsBytes zero v = tt
le_bytes-IsBytes (suc w) v = (omega arith, le_bytes-IsBytes w (v / 256))

pub of_le-le_bytes : (w v : ℕ) → v < 256 ^ w → of_le (le_bytes w v) ≡ v
unfolding le_bytes of_le
of_le-le_bytes zero v h = omega arith
of_le-le_bytes (suc w) v h =
    let e = pow-suc 256 w in omega (arith, of_le-le_bytes w (v / 256) (omega arith))

pub le_bytes-of_le : (bs : List ℕ) → IsBytes bs → le_bytes (length bs) (of_le bs) ≡ bs
unfolding le_bytes of_le
le_bytes-of_le [] h = refl
le_bytes-of_le (b ∷ bs) h =
    let low : (b + 256 * of_le bs) % 256 ≡ b = omega arith in
    let high : (b + 256 * of_le bs) / 256 ≡ of_le bs = omega arith in
    rw (low, high, le_bytes-of_le bs h.1)

pub of_le-lt : (bs : List ℕ) → IsBytes bs → of_le bs < 256 ^ length bs
unfolding of_le
of_le-lt [] h = omega arith
of_le-lt (b ∷ bs) h = let e = pow-suc 256 (length bs) in omega (arith, of_le-lt bs h.1)
