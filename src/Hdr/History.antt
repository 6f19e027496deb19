-- ===== src/Hdr/History.antt =====
-- A history of recorded values, the newest first, and what the histogram keeps of it.
use real_time_policy_authori.Common.{
  ℕ, zero, suc, ◌+◌, min, max, ◌≡◌, refl, ap, ◌∙◌, arith, List, [], ◌∷◌, ◌++◌, length,
  length-append, replicate, ◌==◌, ltb, if◌then◌else◌,
}
use real_time_policy_authori.Hdr.{ℤ, pos, negsuc, Layout, counts_index_for}

-- the values that are counted: none below zero, and none above the highest one
unfoldable pub kept : ℕ → List ℤ → List ℕ
kept highest [] = []
kept highest (negsuc k ∷ vs) = kept highest vs
kept highest (pos v ∷ vs) = min v highest ∷ kept highest vs

unfoldable pub negatives : List ℤ → ℕ
negatives [] = 0
negatives (negsuc k ∷ vs) = suc (negatives vs)
negatives (pos v ∷ vs) = negatives vs

unfoldable pub overflows : ℕ → List ℤ → ℕ
overflows highest [] = 0
overflows highest (negsuc k ∷ vs) = overflows highest vs
overflows highest (pos v ∷ vs) =
    let rest = overflows highest vs in if ltb highest v then suc rest else rest

-- how many values are counted at an index
unfoldable pub occurrences : Layout → ℕ → List ℕ → ℕ
occurrences l i [] = 0
occurrences l i (v ∷ vs) =
    let rest = occurrences l i vs in if i == counts_index_for l v then suc rest else rest

unfoldable pub greatest : List ℕ → ℕ
greatest [] = 0
greatest (v ∷ vs) = max v (greatest vs)

unfoldable pub least : List ℕ → ℕ
least [] = 0
least (v ∷ []) = v
least (v ∷ w ∷ vs) = min v (least (w ∷ vs))

pub occurrences-replicate :
    (l : Layout) (i n v : ℕ) (ws : List ℕ)
    → occurrences l i (replicate n v ++ ws)
      ≡ (if i == counts_index_for l v then n + occurrences l i ws else occurrences l i ws)
unfolding occurrences
occurrences-replicate l i zero v ws = ground arith
occurrences-replicate l i (suc n) v ws = ground (arith, occurrences-replicate l i n v ws)

pub greatest-replicate :
    (n v : ℕ) (ws : List ℕ) → greatest (replicate (suc n) v ++ ws) ≡ max v (greatest ws)
unfolding greatest
greatest-replicate zero v ws = refl
greatest-replicate (suc n) v ws = ap (max v) (greatest-replicate n v ws) ∙ omega arith

pub greatest_none : (ws : List ℕ) → length ws ≡ 0 → greatest ws ≡ 0
unfolding greatest
greatest_none [] h = refl
greatest_none (w ∷ ws) h = absurd (omega arith)

pub least_cons :
    (v : ℕ) (ws : List ℕ) → least (v ∷ ws) ≡ (if length ws == 0 then v else min v (least ws))
unfolding least
least_cons v [] = refl
least_cons v (w ∷ ws) = ground arith

pub least-replicate :
    (n v : ℕ) (ws : List ℕ)
    → least (replicate (suc n) v ++ ws) ≡ (if length ws == 0 then v else min v (least ws))
unfolding least
least-replicate zero v ws = least_cons v ws
least-replicate (suc n) v ws = ap (min v) (least-replicate n v ws) ∙ ground arith

pub kept-replicate :
    (highest : ℕ) (n v : ℕ) (vs : List ℤ)
    → kept highest (replicate n (pos v) ++ vs) ≡ replicate n (min v highest) ++ kept highest vs
unfolding kept
kept-replicate highest zero v vs = refl
kept-replicate highest (suc n) v vs = ap (◌∷◌ (min v highest)) (kept-replicate highest n v vs)

pub kept-replicate_negsuc :
    (highest : ℕ) (n k : ℕ) (vs : List ℤ)
    → kept highest (replicate n (negsuc k) ++ vs) ≡ kept highest vs
unfolding kept
kept-replicate_negsuc highest zero k vs = refl
kept-replicate_negsuc highest (suc n) k vs = kept-replicate_negsuc highest n k vs

pub negatives-replicate :
    (n v : ℕ) (vs : List ℤ) → negatives (replicate n (pos v) ++ vs) ≡ negatives vs
unfolding negatives
negatives-replicate zero v vs = refl
negatives-replicate (suc n) v vs = negatives-replicate n v vs

pub negatives-replicate_negsuc :
    (n k : ℕ) (vs : List ℤ) → negatives (replicate n (negsuc k) ++ vs) ≡ n + negatives vs
unfolding negatives
negatives-replicate_negsuc zero k vs = omega arith
negatives-replicate_negsuc (suc n) k vs = omega (arith, negatives-replicate_negsuc n k vs)

pub overflows-replicate :
    (highest n v : ℕ) (vs : List ℤ)
    → overflows highest (replicate n (pos v) ++ vs)
      ≡ (if ltb highest v then n + overflows highest vs else overflows highest vs)
unfolding overflows
overflows-replicate highest zero v vs = ground arith
overflows-replicate highest (suc n) v vs = ground (arith, overflows-replicate highest n v vs)

pub overflows-replicate_negsuc :
    (highest n k : ℕ) (vs : List ℤ)
    → overflows highest (replicate n (negsuc k) ++ vs) ≡ overflows highest vs
unfolding overflows
overflows-replicate_negsuc highest zero k vs = refl
overflows-replicate_negsuc highest (suc n) k vs = overflows-replicate_negsuc highest n k vs

pub occurrences_append :
    (l : Layout) (i : ℕ) (xs ys : List ℕ)
    → occurrences l i (xs ++ ys) ≡ occurrences l i xs + occurrences l i ys
unfolding occurrences
occurrences_append l i [] ys = omega arith
occurrences_append l i (v ∷ xs) ys = ground (arith, occurrences_append l i xs ys)

pub greatest_append : (xs ys : List ℕ) → greatest (xs ++ ys) ≡ max (greatest xs) (greatest ys)
unfolding greatest
greatest_append [] ys = omega arith
greatest_append (v ∷ xs) ys = omega (arith, greatest_append xs ys)

-- The least of two lists, the second of which is not empty.
pub least_append :
    (xs : List ℕ) (y : ℕ) (ys : List ℕ)
    → least (xs ++ (y ∷ ys))
      ≡ (if length xs == 0 then least (y ∷ ys) else min (least xs) (least (y ∷ ys)))
least_append [] y ys = refl
least_append (v ∷ xs) y ys =
    least_cons v (xs ++ (y ∷ ys))
    ∙ combine v (length (xs ++ (y ∷ ys))) (length xs) (length ys) (least xs) (least (y ∷ ys))
        (least (v ∷ xs)) (least (xs ++ (y ∷ ys))) (length-append xs (y ∷ ys)) (least_append xs y ys)
        (least_cons v xs)
    ∙ ground arith
  where
    combine :
        (v n k j a b c d : ℕ)
        → n ≡ k + suc j
        → d ≡ (if k == 0 then b else min a b)
        → c ≡ (if k == 0 then v else min v a)
        → (if n == 0 then v else min v d) ≡ min c b
    combine v n k j a b c d en ed ec = ground arith

pub kept_append :
    (highest : ℕ) (xs ys : List ℤ) → kept highest (xs ++ ys) ≡ kept highest xs ++ kept highest ys
unfolding kept
kept_append highest [] ys = refl
kept_append highest (pos v ∷ xs) ys = ap (◌∷◌ (min v highest)) (kept_append highest xs ys)
kept_append highest (negsuc k ∷ xs) ys = kept_append highest xs ys

pub negatives_append : (xs ys : List ℤ) → negatives (xs ++ ys) ≡ negatives xs + negatives ys
unfolding negatives
negatives_append [] ys = omega arith
negatives_append (pos v ∷ xs) ys = negatives_append xs ys
negatives_append (negsuc k ∷ xs) ys = omega (arith, negatives_append xs ys)

pub overflows_append :
    (highest : ℕ) (xs ys : List ℤ)
    → overflows highest (xs ++ ys) ≡ overflows highest xs + overflows highest ys
unfolding overflows
overflows_append highest [] ys = omega arith
overflows_append highest (pos v ∷ xs) ys = ground (arith, overflows_append highest xs ys)
overflows_append highest (negsuc k ∷ xs) ys = overflows_append highest xs ys
