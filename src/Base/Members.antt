-- ===== src/Base/Members.antt =====
-- Membership in a list as a position, not truncated, and what the Boolean tests say of it.
use mathlib.Core.Path.{◌≡◌, refl, ap}
use mathlib.Core.Logic.{◌⊎◌, inl, inr}
use mathlib.Core.Bool.{Bool, true, false}
use mathlib.Core.List.{List, [], ◌∷◌, ◌++◌, map}
use native.Mathlib.Omega.{arith}
use irrd.Base.Tests.{if◌then◌else◌, Bool-cases}
use irrd.Base.Equality.{PyEq, ◌==◌}
use irrd.Base.Lists.{any, all, filter, contains, is_nil}

module _ {A : Type 0} where
  abbrev pub In : A → List A → Type 0
  In a [] = ⊥
  In a (x ∷ xs) = (x ≡ a) ⊎ In a xs

  pub In-append_left : (a : A) (xs ys : List A) → In a xs → In a (xs ++ ys)
  In-append_left a [] ys h = absurd h
  In-append_left a (x ∷ xs) ys (inl e) = inl e
  In-append_left a (x ∷ xs) ys (inr h) = inr (In-append_left a xs ys h)

  pub In-append_right : (a : A) (xs ys : List A) → In a ys → In a (xs ++ ys)
  In-append_right a [] ys h = h
  In-append_right a (x ∷ xs) ys h = inr (In-append_right a xs ys h)

  pub In-append : (a : A) (xs ys : List A) → In a (xs ++ ys) → In a xs ⊎ In a ys
  In-append a [] ys h = inr h
  In-append a (x ∷ xs) ys (inl e) = inl (inl e)
  In-append a (x ∷ xs) ys (inr h) = elim (In-append a xs ys h) [
    | inl k ↦ inl (inr k)
    | inr k ↦ inr k
  ]

  pub any-In : (p : A → Bool) (xs : List A) → any p xs ≡ true → (a : A) × In a xs × (p a ≡ true)
  any-In p [] h = cc
  any-In p (x ∷ xs) h = elim (Bool-cases (p x)) [
    | inl e ↦ (x, inl refl, e)
    | inr e ↦ let (a, m, q) = any-In p xs (ground arith) in (a, inr m, q)
  ]

  pub In-any : (p : A → Bool) (a : A) (xs : List A) → In a xs → p a ≡ true → any p xs ≡ true
  In-any p a [] h q = absurd h
  In-any p a (x ∷ xs) (inl e) q = ground arith
  In-any p a (x ∷ xs) (inr m) q = ground (arith, In-any p a xs m q)

  pub all-In : (p : A → Bool) (a : A) (xs : List A) → all p xs ≡ true → In a xs → p a ≡ true
  all-In p a [] h m = absurd m
  all-In p a (x ∷ xs) h (inl e) = ground arith
  all-In p a (x ∷ xs) h (inr m) = all-In p a xs (ground arith) m

  In-if :
      (b : Bool) (a x : A) (r : List A)
      → In a (if b then x ∷ r else r)
      → ((b ≡ true) × (x ≡ a)) ⊎ In a r
  In-if true a x r (inl e) = inl (refl, e)
  In-if true a x r (inr m) = inr m
  In-if false a x r m = inr m

  if-In :
      (b : Bool) (a x : A) (r : List A)
      → ((b ≡ true) × (x ≡ a)) ⊎ In a r
      → In a (if b then x ∷ r else r)
  if-In true a x r (inl (_, e)) = inl e
  if-In true a x r (inr m) = inr m
  if-In false a x r (inl (e, _)) = cc
  if-In false a x r (inr m) = m

  pub filter-In : (p : A → Bool) (a : A) (xs : List A) → In a (filter p xs) → In a xs × (p a ≡ true)
  filter-In p a [] h = absurd h
  filter-In p a (x ∷ xs) h = elim (In-if (p x) a x (filter p xs) h) [
    | inl (q, same) ↦ (inl same, ground arith)
    | inr m ↦ let (k, q) = filter-In p a xs m in (inr k, q)
  ]

  pub In-filter : (p : A → Bool) (a : A) (xs : List A) → In a xs → p a ≡ true → In a (filter p xs)
  In-filter p a [] h q = absurd h
  In-filter p a (x ∷ xs) (inl e) q = if-In (p x) a x (filter p xs) (inl (ground arith, e))
  In-filter p a (x ∷ xs) (inr m) q = if-In (p x) a x (filter p xs) (inr (In-filter p a xs m q))

  pub is_nil-In : (a : A) (xs : List A) → In a xs → is_nil xs ≡ false
  is_nil-In a [] h = absurd h
  is_nil-In a (x ∷ xs) h = refl

  pub is_nil_head : (xs : List A) → is_nil xs ≡ false → (a : A) × In a xs
  is_nil_head [] h = cc
  is_nil_head (x ∷ xs) h = (x, inl refl)

module _ {A B : Type 0} where
  pub In-map : (f : A → B) (a : A) (xs : List A) → In a xs → In (f a) (map f xs)
  In-map f a [] h = absurd h
  In-map f a (x ∷ xs) (inl e) = inl (ap f e)
  In-map f a (x ∷ xs) (inr m) = inr (In-map f a xs m)

  pub map-In : (f : A → B) (b : B) (xs : List A) → In b (map f xs) → (a : A) × In a xs × (f a ≡ b)
  map-In f b [] h = absurd h
  map-In f b (x ∷ xs) (inl e) = (x, inl refl, e)
  map-In f b (x ∷ xs) (inr m) = let (a, k, e) = map-In f b xs m in (a, inr k, e)

module _ {A : Type 0} ⦃e : PyEq A⦄ where
  pub contains-In : (a : A) (xs : List A) → contains xs a ≡ true → In a xs
  contains-In a [] h = cc
  contains-In a (x ∷ xs) h = elim (Bool-cases (x == a)) [
    | inl same ↦ inl ((e.agrees x a).0 same)
    | inr other ↦ inr (contains-In a xs (ground arith))
  ]

  pub In-contains : (a : A) (xs : List A) → In a xs → contains xs a ≡ true
  In-contains a [] h = absurd h
  In-contains a (x ∷ xs) (inl same) = ground (arith, e.agrees x a)
  In-contains a (x ∷ xs) (inr m) = ground (arith, In-contains a xs m)
