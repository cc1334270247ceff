-- ===== src/Prelude/Tests.antt =====
-- Boolean tests on the native numbers and on optional names, and the conditional.
use Prim.Native.Nat.{ℕ, compare, Ordering}
use mathlib.Core.Path.{◌≡◌, refl}
use mathlib.Core.Logic.{◌⊎◌, inl, inr}
use mathlib.Core.Bool.{Bool, true, false, not}
use mathlib.Core.Option.{Option, none, some}
use native.Mathlib.Omega.{arith}

abbrev pub ltb : ℕ → ℕ → Bool
ltb a b = elim (compare a b) [ Ordering.lt ↦ true | _ ↦ false ]

abbrev pub leb : ℕ → ℕ → Bool
leb a b = elim (compare a b) [ Ordering.gt ↦ false | _ ↦ true ]

infix 50 ◌==◌
abbrev pub ◌==◌ : ℕ → ℕ → Bool
a == b = elim (compare a b) [ Ordering.eq ↦ true | _ ↦ false ]

infix 1 if◌then◌else◌
abbrev pub if◌then◌else◌ {ℓ} : {A : Type ℓ} → Bool → A → A → A
if true then x else y = x
if false then x else y = y

-- A text or link field: `none` is None or the empty text, which the code does not tell apart.
abbrev pub Ref : Type 0
Ref = Option ℕ

abbrev pub is_set : {A : Type 0} → Option A → Bool
is_set none = false
is_set (some _) = true

infix 50 ◌=?◌
abbrev pub ◌=?◌ : Ref → Ref → Bool
none =? none = true
none =? some _ = false
some _ =? none = false
some a =? some b = a == b

-- `a or b`
abbrev pub or_else : {A : Type 0} → Option A → Option A → Option A
or_else none b = b
or_else (some a) _ = some a

pub ==-eq : (a b : ℕ) → (a == b) ≡ true → a ≡ b
==-eq a b h = ground arith

pub ==-refl : (a : ℕ) → (a == a) ≡ true
==-refl a = ground arith

pub not-false : (b : Bool) → not b ≡ false → b ≡ true
not-false true h = refl
not-false false h = cc

pub =?-eq : (a b : Ref) → (a =? b) ≡ true → a ≡ b
=?-eq none none h = refl
=?-eq none (some b) h = cc
=?-eq (some a) none h = cc
=?-eq (some a) (some b) h = ground arith

-- To split on a computed value and keep the equation.
pub Bool-cases : (b : Bool) → (b ≡ true) ⊎ (b ≡ false)
Bool-cases true = inl refl
Bool-cases false = inr refl

pub Option-cases {ℓ} : {A : Type ℓ} (o : Option A) → (o ≡ none) ⊎ ((a : A) × (o ≡ some a))
Option-cases none = inl refl
Option-cases (some a) = inr (a, refl)

pub =?-sym : (a b : Ref) → (a =? b) ≡ (b =? a)
=?-sym none none = refl
=?-sym none (some b) = refl
=?-sym (some a) none = refl
=?-sym (some a) (some b) = ground arith

pub =?-refl : (a : Ref) → (a =? a) ≡ true
=?-refl none = refl
=?-refl (some a) = ==-refl a
