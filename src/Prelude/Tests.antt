-- ===== src/Prelude/Tests.antt =====
-- Boolean tests on the native numbers and on optional values, and the conditional.
use Prim.Native.Nat.{ℕ, ◌≤◌, ◌<◌, compare, Ordering}
use Prim.Native.String.{String}
use mathlib.Core.Path.{◌≡◌, refl, ap}
use mathlib.Core.Logic.{◌≢◌, ◌↔◌, ◌⊎◌, inl, inr}
use mathlib.Core.Bool.{Bool, true, false}
use mathlib.Core.Option.{Option, none, some}
use native.Mathlib.Omega.{arith}
use text.Mathlib.Text.{◌==◌ as str_eq}
use text.Mathlib.TextEquality.{eq_iff}

abbrev pub ltb : ℕ → ℕ → Bool
ltb a b = elim (compare a b) [ Ordering.lt ↦ true | _ ↦ false ]

abbrev pub leb : ℕ → ℕ → Bool
leb a b = elim (compare a b) [ Ordering.gt ↦ false | _ ↦ true ]

infix 50 ◌==◌
abbrev pub ◌==◌ : ℕ → ℕ → Bool
a == b = elim (compare a b) [ Ordering.eq ↦ true | _ ↦ false ]

infix 1 if◌then◌else◌
abbrev pub if◌then◌else◌ {ℓ} : {A : Type ℓ} → Bool → A → A → A
if true then x else y = x
if false then x else y = y

pub ltb→lt : (a b : ℕ) → ltb a b ≡ true → a < b
ltb→lt a b h = ground arith

pub lt→ltb : (a b : ℕ) → a < b → ltb a b ≡ true
lt→ltb a b h = ground arith

pub leb→le : (a b : ℕ) → leb a b ≡ true → a ≤ b
leb→le a b h = ground arith

pub ==_iff : (a b : ℕ) → ((a == b) ≡ true) ↔ (a ≡ b)
==_iff a b = ground arith

-- To split on a computed value and keep the equation.
pub Bool-cases : (b : Bool) → (b ≡ true) ⊎ (b ≡ false)
Bool-cases true = inl refl
Bool-cases false = inr refl

pub Option-cases {ℓ} : {A : Type ℓ} (o : Option A) → (o ≡ none) ⊎ ((a : A) × (o ≡ some a))
Option-cases none = inl refl
Option-cases (some a) = inr (a, refl)

-- Two texts are compared by one function with one law, kept shut.
unfoldable pub same_text : String → String → Bool
same_text s t = str_eq s t

pub same_text_iff : (s t : String) → (same_text s t ≡ true) ↔ (s ≡ t)
unfolding same_text
same_text_iff s t = eq_iff s t

-- `===` between two texts that may be `null`.
unfoldable pub same_nullable : Option String → Option String → Bool
same_nullable none none = true
same_nullable (some s) (some t) = same_text s t
same_nullable none (some t) = false
same_nullable (some s) none = false

pub same_nullable_iff : (s t : Option String) → (same_nullable s t ≡ true) ↔ (s ≡ t)
unfolding same_nullable
same_nullable_iff none none = (λ h. refl, λ h. refl)
same_nullable_iff (some s) (some t) =
    (λ h. ap some ((same_text_iff s t).0 h), λ e. (same_text_iff s t).1 (cc e))
same_nullable_iff none (some t) = (λ h. cc, λ e. cc)
same_nullable_iff (some s) none = (λ h. cc, λ e. cc)

-- What holds of both branches, each under its test, holds of the conditional.
pub if_elim {ℓ κ} :
    {A : Type ℓ} (P : A → Type κ) (b : Bool) (x y : A)
    → (b ≡ true → P x)
    → (b ≡ false → P y)
    → P (if b then x else y)
if_elim P true x y t f = t refl
if_elim P false x y t f = f refl

pub texts_differ : (s t : String) → same_text s t ≡ false → s ≢ t
texts_differ s t h e = ground (arith, same_text_iff s t)
