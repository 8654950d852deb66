-- ===== src/Base/OrderedSet.antt =====
-- Python's sets as lists without repetition, in the order in which the elements came in.
use Prim.Native.Nat.{ℕ, ◌≤◌, ◌<◌}
use mathlib.Core.Path.{◌≡◌, refl, subst}
use mathlib.Core.Logic.{◌⊎◌, inl, inr}
use mathlib.Core.Bool.{Bool, true, false, not, ◌&&◌, ◌||◌}
use mathlib.Core.List.{List, [], ◌∷◌, ◌++◌}
use native.Mathlib.Omega.{arith}
use irrd.Base.Tests.{if◌then◌else◌}
use irrd.Base.Equality.{PyEq, ◌==◌}
use irrd.Base.Lists.{contains, length, filter}
use irrd.Base.Members.{In, In-append, In-append_left, In-append_right, contains-In}

module _ {A : Type 0} ⦃e : PyEq A⦄ where
  -- `s.add(a)`
  abbrev pub add : A → List A → List A
  add a s = if contains s a then s else s ++ a ∷ []

  -- `s.update(xs)`
  abbrev pub update : List A → List A → List A
  update s [] = s
  update s (x ∷ xs) = update (add x s) xs

  In-if_same : (b : Bool) (a : A) (s t : List A) → In a s → In a t → In a (if b then s else t)
  In-if_same true a s t h k = h
  In-if_same false a s t h k = k

  pub In-add_old : (x a : A) (s : List A) → In x s → In x (add a s)
  In-add_old x a s h = In-if_same (contains s a) x s (s ++ a ∷ []) h (In-append_left x s (a ∷ []) h)

  In-add_split :
      (b : Bool) (a : A) (s : List A) → (b ≡ true → In a s) → In a (if b then s else s ++ a ∷ [])
  In-add_split true a s h = h refl
  In-add_split false a s h = In-append_right a s (a ∷ []) (inl refl)

  pub In-add_new : (a : A) (s : List A) → In a (add a s)
  In-add_new a s = In-add_split (contains s a) a s (contains-In a s)

  add-In_split :
      (b : Bool) (x a : A) (s : List A) → In x (if b then s else s ++ a ∷ []) → In x s ⊎ (a ≡ x)
  add-In_split true x a s h = inl h
  add-In_split false x a s h = elim (In-append x s (a ∷ []) h) [
    | inl k ↦ inl k
    | inr (inl same) ↦ inr same
    | inr (inr none) ↦ absurd none
  ]

  pub add-In : (x a : A) (s : List A) → In x (add a s) → In x s ⊎ (a ≡ x)
  add-In x a s h = add-In_split (contains s a) x a s h

  pub In-update_old : (x : A) (s xs : List A) → In x s → In x (update s xs)
  In-update_old x s [] h = h
  In-update_old x s (y ∷ ys) h = In-update_old x (add y s) ys (In-add_old x y s h)

  pub In-update_new : (x : A) (s xs : List A) → In x xs → In x (update s xs)
  In-update_new x s [] h = absurd h
  In-update_new x s (y ∷ ys) (inl same) =
      In-update_old x (add y s) ys (subst (λ z. In z (add y s)) same (In-add_new y s))
  In-update_new x s (y ∷ ys) (inr h) = In-update_new x (add y s) ys h

  pub update-In : (x : A) (s xs : List A) → In x (update s xs) → In x s ⊎ In x xs
  update-In x s [] h = inl h
  update-In x s (y ∷ ys) h = elim (update-In x (add y s) ys h) [
    | inl k ↦ elim (add-In x y s k) [ inl old ↦ inl old | inr same ↦ inr (inl same) ]
    | inr k ↦ inr (inr k)
  ]

  -- No element stands twice
  abbrev pub distinct : List A → Bool
  distinct [] = true
  distinct (x ∷ xs) = not (contains xs x) && distinct xs

  contains-append_one : (x a : A) (s : List A) → contains (s ++ a ∷ []) x ≡ (contains s x || a == x)
  contains-append_one x a [] = ground arith
  contains-append_one x a (y ∷ s) = ground (arith, contains-append_one x a s)

  distinct-append_one :
      (a : A) (s : List A)
      → distinct s ≡ true
      → contains s a ≡ false
      → distinct (s ++ a ∷ []) ≡ true
  distinct-append_one a [] h k = refl
  distinct-append_one a (y ∷ s) h k =
      ground (arith, contains-append_one y a s, e.agrees a y, e.agrees y a, distinct-append_one a s)

  pub distinct-add : (a : A) (s : List A) → distinct s ≡ true → distinct (add a s) ≡ true
  distinct-add a s h = ground (arith, distinct-append_one a s h)

  pub distinct-update : (s xs : List A) → distinct s ≡ true → distinct (update s xs) ≡ true
  distinct-update s [] h = h
  distinct-update s (y ∷ ys) h = distinct-update (add y s) ys (distinct-add y s h)

  -- How many elements of `u` are not in `s`
  abbrev pub missing : List A → List A → ℕ
  missing u s = length (filter (λ x. not (contains s x)) u)

  pub missing_mono :
      (u s t : List A)
      → ((x : A) → contains s x ≡ true → contains t x ≡ true)
      → missing u t ≤ missing u s
  missing_mono [] s t h = omega arith
  missing_mono (x ∷ u) s t h = ground (arith, h x, missing_mono u s t h)

  pub missing-lt :
      (m : A) (u s t : List A)
      → ((x : A) → contains s x ≡ true → contains t x ≡ true)
      → In m u
      → contains s m ≡ false
      → contains t m ≡ true
      → missing u t < missing u s
  missing-lt m [] s t h i k l = absurd i
  missing-lt m (x ∷ u) s t h (inl same) k l = ground (arith, h x, missing_mono u s t h, same)
  missing-lt m (x ∷ u) s t h (inr i) k l = ground (arith, h x, missing-lt m u s t h i k l)

  pub missing-length : (u s : List A) → missing u s ≤ length u
  missing-length [] s = omega arith
  missing-length (x ∷ u) s = ground (arith, missing-length u s)
