-- ===== src/Compiler/Outcomes.antt =====
-- Steps that may fail, with what holds of the state after each, and of the value after one that succeeds.
use real_time_policy_authori.Common.{ℕ, ◌≡◌, refl, Option, none, some, is_some, true, subst, bit_or}
use real_time_policy_authori.FlatSet.{◌>>=◌}
use real_time_policy_authori.Rules.{Action, Text}
use real_time_policy_authori.Yaml.{Node, Items, no_item, item, line_of, scalar_of}
use real_time_policy_authori.Compiler.{
  Compiler, Warning, Outcome, ◌and_then◌, err, warn, fail, as_list,
}
use real_time_policy_authori.Compiler.Actions.{store_read, store_member, or_names, read_names}

abbrev pub ForValue : {A : Type 0} → (A → Type 0) → Option A → Type 0
ForValue Q none = Unit
ForValue Q (some a) = Q a

-- what holds after a step
pub record Holds {A : Type 0} (P : Compiler → Type 0) (Q : A → Type 0) (x : Outcome A)
    : Type 0 where
  pub state : P x.0
  pub value : ForValue Q x.1

abbrev pub failed :
    {A : Type 0} {P : Compiler → Type 0} {Q : A → Type 0} {c : Compiler} → P c → Holds P Q (c, none)
failed p = record { state = p; value = tt }

abbrev pub done :
    {A : Type 0} {P : Compiler → Type 0} {Q : A → Type 0} {c : Compiler} {a : A}
    → P c
    → Q a
    → Holds P Q (c, some a)
done p q = record { state = p; value = q }

-- A predicate that no message changes.
pub record IsQuiet (P : Compiler → Type 0) : Type 0 where
  pub on_err : (c : Compiler) (line : ℕ) → P c → P (err c line)
  pub on_warn : (c : Compiler) (w : Warning) → P c → P (warn c w)

pub Holds-and_then :
    {A B : Type 0} {P : Compiler → Type 0} {Q : A → Type 0} {R : B → Type 0} (x : Outcome A)
    (f : Compiler → A → Outcome B)
    → Holds P Q x
    → ((c : Compiler) (a : A) → P c → Q a → Holds P R (f c a))
    → Holds P R (x and_then f)
Holds-and_then (c, none) f h g = failed h.state
Holds-and_then (c, some a) f h g = g c a h.state h.value

-- the value of a step that succeeds
pub Holds-value :
    {A : Type 0} {P : Compiler → Type 0} {Q : A → Type 0} {x : Outcome A}
    → Holds P Q x
    → (c : Compiler) (a : A) → x ≡ (c, some a)
    → Q a
Holds-value {Q = Q} h c a e = subst (λ t. ForValue Q t.1) e h.value

-- A member keeps what its store keeps.
pub store_member-Holds :
    {A B : Type 0} {P : Compiler → Type 0} {Q : A → Type 0}
    → IsQuiet P
    → (read : Node → Option B) (store : B → A → A) (o : Option Node) (c : Compiler) (a : A) → P c
    → Q a
    → ((v : Node) (x : B) → read v ≡ some x → Q (store x a))
    → Holds P Q (store_member read store o c a)
store_member-Holds quiet read store none c a p q keeps = done p q
store_member-Holds {B = B} {P = P} {Q = Q} quiet read store (some v) c a p q keeps =
    at (read v) refl
  where
    at : (o : Option B) → read v ≡ o → Holds P Q (store_read store (line_of v) o c a)
    at none e = failed (quiet.on_err c (line_of v) p)
    at (some x) e = done p (keeps v x e)

-- A member that is there makes what its store makes.
pub store_member-makes :
    {A B : Type 0} {P : Compiler → Type 0} {Q : A → Type 0}
    → IsQuiet P
    → (read : Node → Option B) (store : B → A → A) (o : Option Node) (c : Compiler) (a : A)
    → is_some o ≡ true
    → P c
    → ((v : Node) (x : B) → read v ≡ some x → Q (store x a))
    → Holds P Q (store_member read store o c a)
store_member-makes quiet read store none c a h p makes = cc h
store_member-makes {B = B} {P = P} {Q = Q} quiet read store (some v) c a h p makes =
    at (read v) refl
  where
    at : (o : Option B) → read v ≡ o → Holds P Q (store_read store (line_of v) o c a)
    at none e = failed (quiet.on_err c (line_of v) p)
    at (some x) e = done p (makes v x e)

pub or_names-Holds :
    {P : Compiler → Type 0}
    → IsQuiet P
    → (parse : Text → Option ℕ) (items : Items) (mask : ℕ) (c : Compiler) → P c
    → Holds P (λ (m : ℕ). Unit) (or_names parse items mask c)
unfolding or_names
or_names-Holds quiet parse no_item mask c p = done p tt
or_names-Holds {P = P} quiet parse (item v items) mask c p =
    elim (scalar_of v >>= parse)
      as (λ (o : Option ℕ).
        Holds P (λ (m : ℕ). Unit)
          (elim o [
            | none ↦ fail c (line_of v)
            | some bit ↦ or_names parse items (bit_or mask bit) c
          ])) [
            | none ↦ failed (quiet.on_err c (line_of v) p)
            | some bit ↦ or_names-Holds quiet parse items (bit_or mask bit) c p
          ]

pub read_names-Holds :
    {P : Compiler → Type 0} {Q : Action → Type 0}
    → IsQuiet P
    → (parse : Text → Option ℕ) (o : Option Node) (mask : ℕ) (store : ℕ → Action → Action)
      (c : Compiler) (a : Action)
    → P c
    → Q a
    → ((m : ℕ) → Q (store m a))
    → Holds P Q (read_names parse o mask store c a)
read_names-Holds quiet parse none mask store c a p q keeps = done p q
read_names-Holds quiet parse (some v) mask store c a p q keeps =
    Holds-and_then (or_names parse (as_list v) mask c) _
      (or_names-Holds quiet parse (as_list v) mask c p) (λ c' m p' _. done p' (keeps m))
