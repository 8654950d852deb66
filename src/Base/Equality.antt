-- ===== src/Base/Equality.antt =====
-- Python's `==`, for every type whose values can be compared.
use Prim.Native.Nat.{ℕ}
use Prim.Native.String.{String}
use mathlib.Core.Path.{◌≡◌, refl}
use mathlib.Core.Logic.{◌↔◌}
use mathlib.Core.Bool.{Bool, true, false, ◌&&◌}
use mathlib.Core.Option.{Option, none, some}
use mathlib.Core.List.{List, [], ◌∷◌}
use native.Mathlib.Omega.{arith}
use text.Mathlib.Text.{◌==◌ as str_eq}
use text.Mathlib.TextEquality.{eq_iff}
use irrd.Base.Tests.{eqb}

-- What `__eq__` answers, and that it answers `True` for equal values alone.
pub record PyEq {ℓ} (A : Type ℓ) : Type ℓ where
  pub same : A → A → Bool
  pub agrees : (x y : A) → (same x y ≡ true) ↔ (x ≡ y)

module _ {ℓ} {A : Type ℓ} ⦃e : PyEq A⦄ where
  infix 50 ◌==◌
  abbrev pub ◌==◌ : A → A → Bool
  x == y = e.same x y

instance abbrev pub string_eq : PyEq String
string_eq = record { same = str_eq; agrees = eq_iff }

pub eqb_iff : (m n : ℕ) → (eqb m n ≡ true) ↔ (m ≡ n)
eqb_iff m n = ground arith

instance abbrev pub nat_eq : PyEq ℕ
nat_eq = record { same = eqb; agrees = eqb_iff }

abbrev pub bool_beq : Bool → Bool → Bool
bool_beq true b = b
bool_beq false true = false
bool_beq false false = true

pub bool_beq_iff : (a b : Bool) → (bool_beq a b ≡ true) ↔ (a ≡ b)
bool_beq_iff a b = ground arith

instance abbrev pub bool_eq : PyEq Bool
bool_eq = record { same = bool_beq; agrees = bool_beq_iff }

module _ {ℓ} {A : Type ℓ} ⦃e : PyEq A⦄ where
  abbrev pub option_beq : Option A → Option A → Bool
  option_beq none none = true
  option_beq none (some b) = false
  option_beq (some a) none = false
  option_beq (some a) (some b) = a == b

  pub option_beq_iff : (a b : Option A) → (option_beq a b ≡ true) ↔ (a ≡ b)
  option_beq_iff none none = ground arith
  option_beq_iff none (some b) = ground arith
  option_beq_iff (some a) none = ground arith
  option_beq_iff (some a) (some b) = ground (arith, e.agrees a b)

  abbrev pub list_beq : List A → List A → Bool
  list_beq [] [] = true
  list_beq [] (y ∷ ys) = false
  list_beq (x ∷ xs) [] = false
  list_beq (x ∷ xs) (y ∷ ys) = x == y && list_beq xs ys

  pub list_beq_iff : (a b : List A) → (list_beq a b ≡ true) ↔ (a ≡ b)
  list_beq_iff [] [] = ground arith
  list_beq_iff [] (y ∷ ys) = ground arith
  list_beq_iff (x ∷ xs) [] = ground arith
  list_beq_iff (x ∷ xs) (y ∷ ys) = ground (arith, e.agrees x y, list_beq_iff xs ys)

  instance abbrev pub option_eq : PyEq (Option A)
  option_eq = record { same = option_beq; agrees = option_beq_iff }

  instance abbrev pub list_eq : PyEq (List A)
  list_eq = record { same = list_beq; agrees = list_beq_iff }

  -- `e.agrees` at the instance in scope
  pub beq_iff : (a b : A) → ((a == b) ≡ true) ↔ (a ≡ b)
  beq_iff a b = e.agrees a b

  pub beq_refl : (a : A) → (a == a) ≡ true
  beq_refl a = (e.agrees a a).1 refl
