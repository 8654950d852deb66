-- ===== src/Storage/Chunks.antt =====
-- irrd/utils/misc.py: `chunked_iterable`, in which irrd/storage/database_handler.py updates the route preference.
use irrd.Base.{
  ℕ, zero, suc, ◌≤◌, ◌≡◌, refl, ap, ◌∙◌, subst, List, [], ◌∷◌, ◌++◌, length, take, drop, In, inl,
  inr, arith,
}
use irrd.Storage.Statuses.{chunks, chunked_iterable}

module _ {A : Type 0} where
  abbrev pub join : List (List A) → List A
  join [] = []
  join (xs ∷ rest) = xs ++ join rest

  take-drop : (n : ℕ) (xs : List A) → take n xs ++ drop n xs ≡ xs
  take-drop zero xs = refl
  take-drop (suc n) [] = refl
  take-drop (suc n) (x ∷ xs) = ap (λ r. x ∷ r) (take-drop n xs)

  length-take : (n : ℕ) (xs : List A) → length (take n xs) ≤ n
  length-take zero xs = omega arith
  length-take (suc n) [] = omega arith
  length-take (suc n) (x ∷ xs) = ground (arith, length-take n xs)

  length-drop : (n : ℕ) (xs : List A) → length (drop n xs) ≤ length xs
  length-drop zero xs = omega arith
  length-drop (suc n) [] = omega arith
  length-drop (suc n) (x ∷ xs) = ground (arith, length-drop n xs)

  chunks-join : (fuel n : ℕ) (xs : List A) → length xs ≤ fuel → join (chunks fuel (suc n) xs) ≡ xs
  unfolding chunks
  chunks-join zero n [] l = refl
  chunks-join zero n (x ∷ xs) l = absurd (ground arith)
  chunks-join (suc fuel) n [] l = refl
  chunks-join (suc fuel) n (x ∷ xs) l =
      ap (λ r. x ∷ (take n xs ++ r))
        (chunks-join fuel n (drop n xs) (ground (arith, length-drop n xs)))
      ∙ take-drop (suc n) (x ∷ xs)

  chunks-length :
      (fuel n : ℕ) (xs c : List A)
      → In c (chunks fuel (suc n) xs)
      → (1 ≤ length c) × (length c ≤ suc n)
  unfolding chunks
  chunks-length zero n xs c m = absurd m
  chunks-length (suc fuel) n [] c m = absurd m
  chunks-length (suc fuel) n (x ∷ xs) c (inl e) =
      subst (λ d. (1 ≤ length d) × (length d ≤ suc n)) e (ground (arith, length-take n xs))
  chunks-length (suc fuel) n (x ∷ xs) c (inr m) = chunks-length fuel n (drop n xs) c m

  -- For a size above zero, the chunks of a list joined together are the list, and none of them is empty or has more
  -- elements than the size.
  pub chunked_iterable-join :
      (xs : List A) (size : ℕ)
      → 1 ≤ size
      → (join (chunked_iterable xs size) ≡ xs)
        × ((c : List A) → In c (chunked_iterable xs size) → (1 ≤ length c) × (length c ≤ size))
  chunked_iterable-join xs zero l = absurd (ground arith)
  chunked_iterable-join xs (suc n) l =
      (chunks-join (length xs) n xs (omega arith), chunks-length (length xs) n xs)
