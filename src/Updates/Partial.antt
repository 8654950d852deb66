-- ===== src/Updates/Partial.antt =====
-- Checks of irrd/updates/ that can end in an exception: chaining, and what holds of their results.
use irrd.Base.{Bool, true, false, ◌≡◌, refl, subst, Option, none, some, is_some, if◌then◌else◌}

module _ {A B : Type 0} where
  abbrev pub chain : Option A → (A → Option B) → Option B
  chain none f = none
  chain (some a) f = f a

  pub chain-some :
      (o : Option A) (f : A → Option B) (b : B)
      → chain o f ≡ some b
      → (a : A) × (o ≡ some a) × (f a ≡ some b)
  chain-some none f b e = cc
  chain-some (some a) f b e = (a, refl, e)

module _ {A : Type 0} where
  -- `P` holds of the result, if there is one.
  abbrev pub OnSome : (A → Type 0) → Option A → Type 0
  OnSome P none = Unit
  OnSome P (some a) = P a

  pub OnSome-some : (P : A → Type 0) (o : Option A) (a : A) → OnSome P o → o ≡ some a → P a
  OnSome-some P o a h e = subst (λ x. OnSome P x) e h

  pub OnSome-if :
      (P : A → Type 0) (b : Bool) (x y : Option A)
      → (b ≡ true → OnSome P x)
      → (b ≡ false → OnSome P y)
      → OnSome P (if b then x else y)
  OnSome-if P true x y h k = h refl
  OnSome-if P false x y h k = k refl

  pub OnSome-mono :
      (P Q : A → Type 0) (o : Option A) → OnSome P o → ((a : A) → P a → Q a) → OnSome Q o
  OnSome-mono P Q none h k = tt
  OnSome-mono P Q (some a) h k = k a h

  pub OnSome-both :
      (P Q : A → Type 0) (o : Option A) → OnSome P o → OnSome Q o → OnSome (λ a. P a × Q a) o
  OnSome-both P Q none h k = tt
  OnSome-both P Q (some a) h k = (h, k)

  pub OnSome-unit : (o : Option A) → OnSome (λ a. Unit) o
  OnSome-unit none = tt
  OnSome-unit (some a) = tt

  pub some_of : (o : Option A) → is_some o ≡ true → (a : A) × (o ≡ some a)
  some_of none e = cc
  some_of (some a) e = (a, refl)

module _ {A B : Type 0} where
  pub OnSome-chain :
      (P : A → Type 0) (Q : B → Type 0) (o : Option A) (f : A → Option B)
      → OnSome P o
      → ((a : A) → P a → OnSome Q (f a))
      → OnSome Q (chain o f)
  OnSome-chain P Q none f h k = tt
  OnSome-chain P Q (some a) f h k = k a h

  -- A chain has a result where its parts have.
  pub chain-is_some :
      (o : Option A) (f : A → Option B) (P : A → Type 0)
      → OnSome P o
      → is_some o ≡ true
      → ((a : A) → P a → is_some (f a) ≡ true)
      → is_some (chain o f) ≡ true
  chain-is_some none f P h e k = cc
  chain-is_some (some a) f P h e k = k a h
