-- ===== src/Wire/Fields.antt =====
-- Storing and loading are inverse, and a field that is swapped is stored as on a little-endian host.
use mathlib.Core.List.{reverse, reverse_aux, reverse-reverse}
use real_time_policy_authori.Common.{
  ℕ, zero, suc, ◌+◌, ◌*◌, ◌/◌, ◌%◌, ◌^◌, ◌<◌, ◌≡◌, refl, ap, ◌∙◌, subst, List, [], ◌∷◌, ◌++◌, arith,
  length, take, drop, length-append, take-append-drop, length-take, length-drop,
}
use real_time_policy_authori.Common.Bits.{bit_or_shifted}
use real_time_policy_authori.Wire.Bytes.{
  Host, little, big, Width, u8, u16, u32, u64, size_of, total, le_bytes, of_le, IsBytes, to_le,
  bswap, bswap16, store_field, load_field, store_all, load_all, swap_all, Fits, length-le_bytes,
  le_bytes-IsBytes, of_le-le_bytes, le_bytes-of_le, of_le-lt,
}

module _ {ℓ} {A : Type ℓ} where
  take-append : (n : ℕ) (xs ys : List A) → length xs ≡ n → take n (xs ++ ys) ≡ xs
  take-append zero [] ys h = refl
  take-append zero (x ∷ xs) ys h = absurd (omega arith)
  take-append (suc n) [] ys h = absurd (omega arith)
  take-append (suc n) (x ∷ xs) ys h = ap (λ t. x ∷ t) (take-append n xs ys (omega arith))

  drop-append : (n : ℕ) (xs ys : List A) → length xs ≡ n → drop n (xs ++ ys) ≡ ys
  drop-append zero [] ys h = refl
  drop-append zero (x ∷ xs) ys h = absurd (omega arith)
  drop-append (suc n) [] ys h = absurd (omega arith)
  drop-append (suc n) (x ∷ xs) ys h = drop-append n xs ys (omega arith)

take-IsBytes : (n : ℕ) (bs : List ℕ) → IsBytes bs → IsBytes (take n bs)
take-IsBytes zero bs h = tt
take-IsBytes (suc n) [] h = tt
take-IsBytes (suc n) (b ∷ bs) h = (h.0, take-IsBytes n bs h.1)

drop-IsBytes : (n : ℕ) (bs : List ℕ) → IsBytes bs → IsBytes (drop n bs)
drop-IsBytes zero bs h = h
drop-IsBytes (suc n) [] h = tt
drop-IsBytes (suc n) (b ∷ bs) h = drop-IsBytes n bs h.1

bswap16_sum : (v : ℕ) → v < 2 ^ 16 → bswap16 v ≡ (v * 256 + v / 256) % 65536
unfolding bswap16
bswap16_sum v h = ap (λ (t : ℕ). t % 65536) (bit_or_shifted 8 v (v / 256) (omega arith))

pub store_field-to_le :
    (h : Host) (w : Width) (v : ℕ)
    → v < 256 ^ size_of w
    → store_field h w (to_le h w v) ≡ le_bytes (size_of w) v
unfolding store_field to_le
store_field-to_le little w v fits = refl
store_field-to_le big u8 v fits = unfold le_bytes in refl
store_field-to_le big u16 v fits = unfold le_bytes in (rw (bswap16_sum v fits) (ground arith))
store_field-to_le big u32 v fits =
    unfold bswap le_bytes in ap reverse (le_bytes-of_le (reverse (le_bytes 4 v)) (omega arith))
store_field-to_le big u64 v fits =
    unfold bswap le_bytes in ap reverse (le_bytes-of_le (reverse (le_bytes 8 v)) (omega arith))

reverse_aux-IsBytes : (bs acc : List ℕ) → IsBytes bs → IsBytes acc → IsBytes (reverse_aux bs acc)
reverse_aux-IsBytes [] acc h k = k
reverse_aux-IsBytes (b ∷ bs) acc h k = reverse_aux-IsBytes bs (b ∷ acc) h.1 (h.0, k)

length-reverse_aux : (bs acc : List ℕ) → length (reverse_aux bs acc) ≡ length bs + length acc
length-reverse_aux [] acc = omega arith
length-reverse_aux (b ∷ bs) acc = omega (arith, length-reverse_aux bs (b ∷ acc))

-- the built-in swaps undo a read in the wrong order
bswap-reverse :
    (w : ℕ) (bs : List ℕ) → length bs ≡ w → IsBytes bs → bswap w (of_le (reverse bs)) ≡ of_le bs
unfolding bswap
bswap-reverse w bs n b =
    let flipped : length (reverse bs) ≡ w = omega (arith, length-reverse_aux bs []) in
    let bytes = le_bytes-of_le (reverse bs) (reverse_aux-IsBytes bs [] b tt) in
    rw (← flipped, bytes, reverse-reverse)

bswap16-bswap : (v : ℕ) → v < 2 ^ 16 → bswap16 v ≡ bswap 2 v
bswap16-bswap v h = unfold bswap le_bytes of_le in (rw (bswap16_sum v h) (omega arith))

-- Reading on a big-endian host and swapping reads what a little-endian host reads.
pub to_le-load_field :
    (h : Host) (w : Width) (bs : List ℕ)
    → length bs ≡ size_of w
    → IsBytes bs
    → to_le h w (load_field h bs) ≡ of_le bs
to_le-load_field little w bs n b = unfold load_field to_le in refl
to_le-load_field big u8 (x ∷ []) n b = unfold load_field to_le in refl
to_le-load_field big u8 [] n b = absurd (omega arith)
to_le-load_field big u8 (x ∷ y ∷ bs) n b = absurd (omega arith)
to_le-load_field big u16 bs n b =
    let small : of_le (reverse bs) < 2 ^ 16 =
      rw (length-reverse_aux bs [], n) at
        (of_le-lt (reverse bs) (reverse_aux-IsBytes bs [] b tt)) in
    unfold load_field to_le in (bswap16-bswap (of_le (reverse bs)) small ∙ bswap-reverse 2 bs n b)
to_le-load_field big u32 bs n b = unfold load_field to_le in bswap-reverse 4 bs n b
to_le-load_field big u64 bs n b = unfold load_field to_le in bswap-reverse 8 bs n b

-- The same for whole structs.
pub store_all-swap_all :
    (h : Host) (ws : List Width) (vs : List ℕ)
    → Fits ws vs
    → store_all h ws (swap_all h ws vs) ≡ store_all little ws vs
unfolding store_all swap_all
store_all-swap_all h [] vs fits = refl
store_all-swap_all h (w ∷ ws) [] fits = refl
store_all-swap_all h (w ∷ ws) (v ∷ vs) fits =
    rw (store_field-to_le h w v fits.0, store_all-swap_all h ws vs fits.1)

pub swap_all-load_all :
    (h : Host) (ws : List Width) (bs : List ℕ)
    → length bs ≡ total ws
    → IsBytes bs
    → swap_all h ws (load_all h ws bs) ≡ load_all little ws bs
unfolding load_all swap_all
swap_all-load_all h [] bs n b = refl
swap_all-load_all h (w ∷ ws) bs n b =
    let k = size_of w in
    rw (
      to_le-load_field h w (take k bs) (omega (arith, length-take k bs)) (take-IsBytes k bs b),
      swap_all-load_all h ws (drop k bs) (omega (arith, length-drop k bs)) (drop-IsBytes k bs b),
    )

pub length-store_all :
    (ws : List Width) (vs : List ℕ) → Fits ws vs → length (store_all little ws vs) ≡ total ws
unfolding store_all store_field
length-store_all [] vs fits = refl
length-store_all (w ∷ ws) [] fits = elim fits [ ]
length-store_all (w ∷ ws) (v ∷ vs) fits = omega (
  arith,
  length-append (le_bytes (size_of w) v) (store_all little ws vs),
  length-le_bytes (size_of w) v,
  length-store_all ws vs fits.1,
)

All-append : (xs ys : List ℕ) → IsBytes xs → IsBytes ys → IsBytes (xs ++ ys)
All-append [] ys h k = k
All-append (x ∷ xs) ys h k = (h.0, All-append xs ys h.1 k)

pub store_all-IsBytes : (ws : List Width) (vs : List ℕ) → IsBytes (store_all little ws vs)
unfolding store_all store_field
store_all-IsBytes [] vs = tt
store_all-IsBytes (w ∷ ws) [] = tt
store_all-IsBytes (w ∷ ws) (v ∷ vs) =
    All-append (le_bytes (size_of w) v) _ (le_bytes-IsBytes (size_of w) v) (store_all-IsBytes ws vs)

pub load_all-store_all :
    (ws : List Width) (vs : List ℕ) → Fits ws vs → load_all little ws (store_all little ws vs) ≡ vs
unfolding load_all store_all load_field store_field
load_all-store_all [] [] fits = refl
load_all-store_all [] (v ∷ vs) fits = elim fits [ ]
load_all-store_all (w ∷ ws) [] fits = elim fits [ ]
load_all-store_all (w ∷ ws) (v ∷ vs) fits =
    let k = size_of w in
    let n = length-le_bytes k v in
    rw (
      take-append k (le_bytes k v) (store_all little ws vs) n,
      drop-append k (le_bytes k v) (store_all little ws vs) n,
      of_le-le_bytes k v fits.0,
      load_all-store_all ws vs fits.1,
    )

pub store_all-load_all :
    (ws : List Width) (bs : List ℕ)
    → length bs ≡ total ws
    → IsBytes bs
    → store_all little ws (load_all little ws bs) ≡ bs
unfolding load_all store_all load_field store_field
store_all-load_all [] [] n b = refl
store_all-load_all [] (x ∷ bs) n b = absurd (omega arith)
store_all-load_all (w ∷ ws) bs n b =
    let k = size_of w in
    let first : length (take k bs) ≡ k = omega (arith, length-take k bs) in
    let whole = le_bytes-of_le (take k bs) (take-IsBytes k bs b) in
    let back : le_bytes k (of_le (take k bs)) ≡ take k bs =
      subst (λ (n : ℕ). le_bytes n (of_le (take k bs)) ≡ take k bs) first whole in
    rw (
      back,
      store_all-load_all ws (drop k bs) (omega (arith, length-drop k bs)) (drop-IsBytes k bs b),
      take-append-drop k bs,
    )

pub load_all-Fits :
    (ws : List Width) (bs : List ℕ)
    → length bs ≡ total ws
    → IsBytes bs
    → Fits ws (load_all little ws bs)
unfolding load_all load_field
load_all-Fits [] bs n b = tt
load_all-Fits (w ∷ ws) bs n b =
    let k = size_of w in
    let first : length (take k bs) ≡ k = omega (arith, length-take k bs) in
    (
      rw first at (of_le-lt (take k bs) (take-IsBytes k bs b)),
      load_all-Fits ws (drop k bs) (omega (arith, length-drop k bs)) (drop-IsBytes k bs b),
    )
