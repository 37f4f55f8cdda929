-- ===== src/Prelude/Tests.antt =====
-- Boolean tests, `if`, equality as an interface, and JavaScript's truth of an optional text.
use Prim.Native.Nat.{ℕ, compare, Ordering}
use Prim.Native.String.{String}
use mathlib.Core.Path.{◌≡◌, refl, ap}
use mathlib.Core.Logic.{◌↔◌, ◌⊎◌, inl, inr}
use mathlib.Core.Bool.{Bool, true, false, not}
use mathlib.Core.Option.{Option, none, some}
use native.Mathlib.Omega.{arith}
use text.Mathlib.Text.{◌==◌ as str_eq}
use text.Mathlib.TextEquality.{eq_iff}

abbrev pub ltb : ℕ → ℕ → Bool
ltb a b = elim (compare a b) [ Ordering.lt ↦ true | _ ↦ false ]

abbrev pub leb : ℕ → ℕ → Bool
leb a b = elim (compare a b) [ Ordering.gt ↦ false | _ ↦ true ]

abbrev pub nat_beq : ℕ → ℕ → Bool
nat_beq a b = elim (compare a b) [ Ordering.eq ↦ true | _ ↦ false ]

infix 1 if◌then◌else◌
abbrev pub if◌then◌else◌ {ℓ} : {A : Type ℓ} → Bool → A → A → A
if true then x else y = x
if false then x else y = y

pub nat_beq_iff : (a b : ℕ) → (nat_beq a b ≡ true) ↔ (a ≡ b)
nat_beq_iff a b = (λ h. ground arith, λ h. ground arith)

-- `===` at a type whose values are texts, numbers or enum members: a test that decides the equation.
pub record Comparable {ℓ} (A : Type ℓ) : Type ℓ where
  pub same : A → A → Bool
  pub same_iff : (x y : A) → (same x y ≡ true) ↔ (x ≡ y)

infix 50 ◌==◌
abbrev pub ◌==◌ {ℓ} : {A : Type ℓ} ⦃test : Comparable A⦄ → A → A → Bool
◌==◌ ⦃test⦄ x y = test.same x y

pub ordinal_beq_iff :
    {A : Type 0} (ordinal : A → ℕ)
    → ((a b : A) → ordinal a ≡ ordinal b → a ≡ b)
    → (a b : A) → (nat_beq (ordinal a) (ordinal b) ≡ true) ↔ (a ≡ b)
ordinal_beq_iff ordinal injective a b = (
  λ h. injective a b ((nat_beq_iff (ordinal a) (ordinal b)).0 h),
  λ p. (nat_beq_iff (ordinal a) (ordinal b)).1 (ap ordinal p),
)

-- `===` of an enum, by the place of each member in its declaration.
abbrev pub ordinal_eq :
    {A : Type 0} (ordinal : A → ℕ) → ((a b : A) → ordinal a ≡ ordinal b → a ≡ b) → Comparable A
ordinal_eq ordinal injective = record {
  same = λ a b. nat_beq (ordinal a) (ordinal b);
  same_iff = ordinal_beq_iff ordinal injective;
}

-- Texts are compared by their code units, numbers by their value.
instance abbrev pub string_eq : Comparable String
string_eq = record { same = str_eq; same_iff = λ x y. eq_iff x y }

instance abbrev pub nat_eq : Comparable ℕ
nat_eq = record { same = nat_beq; same_iff = λ x y. nat_beq_iff x y }

pub Bool-cases : (b : Bool) → (b ≡ true) ⊎ (b ≡ false)
Bool-cases true = inl refl
Bool-cases false = inr refl

-- `!!s` for a text that may be null or undefined: the empty text is falsy too.
abbrev pub is_truthy : Option String → Bool
is_truthy none = false
is_truthy (some s) = not (str_eq s "")
