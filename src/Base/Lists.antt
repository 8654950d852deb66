-- ===== src/Base/Lists.antt =====
-- Lists measured by native numbers under the library's names, Python's `any`, `all` and slices.
use Prim.Native.Nat.{ℕ, zero, suc, ◌+◌}
use mathlib.Core.Path.{◌≡◌, refl}
use mathlib.Core.Bool.{Bool, true, false, ◌&&◌, ◌||◌}
use mathlib.Core.List.{List, [], ◌∷◌, ◌++◌}
use mathlib.Core.Option.{Option, none, some}
use native.Mathlib.Omega.{arith}
use irrd.Base.Tests.{if◌then◌else◌}
use irrd.Base.Equality.{PyEq, ◌==◌}

module _ {ℓ} {A : Type ℓ} where
  abbrev pub length : List A → ℕ
  length [] = 0
  length (x ∷ xs) = suc (length xs)

  -- `xs[:n]`
  abbrev pub take : ℕ → List A → List A
  take zero xs = []
  take (suc n) [] = []
  take (suc n) (x ∷ xs) = x ∷ take n xs

  abbrev pub drop : ℕ → List A → List A
  drop zero xs = xs
  drop (suc n) [] = []
  drop (suc n) (x ∷ xs) = drop n xs

  -- `any(p(x) for x in xs)`
  abbrev pub any : (A → Bool) → List A → Bool
  any p [] = false
  any p (x ∷ xs) = p x || any p xs

  -- `all(p(x) for x in xs)`
  abbrev pub all : (A → Bool) → List A → Bool
  all p [] = true
  all p (x ∷ xs) = p x && all p xs

  -- `[x for x in xs if p(x)]`
  abbrev pub filter : (A → Bool) → List A → List A
  filter p [] = []
  filter p (x ∷ xs) = let rest = filter p xs in if p x then x ∷ rest else rest

  abbrev pub is_nil : List A → Bool
  is_nil [] = true
  is_nil (x ∷ xs) = false

  pub length-append : (xs ys : List A) → length (xs ++ ys) ≡ length xs + length ys
  length-append [] ys = omega arith
  length-append (x ∷ xs) ys = omega (arith, length-append xs ys)

  pub any-append : (p : A → Bool) (xs ys : List A) → any p (xs ++ ys) ≡ (any p xs || any p ys)
  any-append p [] ys = refl
  any-append p (x ∷ xs) ys = ground (arith, any-append p xs ys)

module _ {ℓ} {A : Type ℓ} ⦃e : PyEq A⦄ where
  -- `x in xs`
  abbrev pub contains : List A → A → Bool
  contains [] a = false
  contains (x ∷ xs) a = x == a || contains xs a

-- An association list as a Python `dict`.
module _ {ℓ κ} {K : Type ℓ} {V : Type κ} ⦃e : PyEq K⦄ where
  -- `d.get(k)`
  abbrev pub lookup : K → List (K × V) → Option V
  lookup k [] = none
  lookup k ((j, v) ∷ d) = if j == k then some v else lookup k d

  -- `d[k] = v`
  abbrev pub insert : K → V → List (K × V) → List (K × V)
  insert k v [] = (k, v) ∷ []
  insert k v ((j, w) ∷ d) = if j == k then (k, v) ∷ d else (j, w) ∷ insert k v d

  -- `del d[k]`
  abbrev pub remove : K → List (K × V) → List (K × V)
  remove k [] = []
  remove k ((j, w) ∷ d) = let rest = remove k d in if j == k then rest else (j, w) ∷ rest

  pub lookup-insert :
      (k j : K) (v : V) (d : List (K × V))
      → lookup j (insert k v d) ≡ (if k == j then some v else lookup j d)
  lookup-insert k j v [] = refl
  lookup-insert k j v ((i, w) ∷ d) =
      ground (arith, e.agrees k j, e.agrees i k, e.agrees i j, lookup-insert k j v d)

  pub lookup-remove :
      (k j : K) (d : List (K × V)) → lookup j (remove k d) ≡ (if k == j then none else lookup j d)
  lookup-remove k j [] = ground arith
  lookup-remove k j ((i, w) ∷ d) =
      ground (arith, e.agrees k j, e.agrees i k, e.agrees i j, lookup-remove k j d)
