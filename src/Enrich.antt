-- ===== src/Enrich.antt =====
-- The second query of the bulk validators: rows with a changed status are read again by their keys
-- for the columns that were left out at first, and `update` joins these to the rows.
use irrd.Base.{String, ◌≡◌, refl, Option, none, some, List, [], ◌∷◌, map}

module _ {R E : Type 0} (key : R → String) where
  -- `rpsl_obj.update(rows_per_pk[rpsl_obj["pk"]])` for each row; `none` stands for the `KeyError` of a
  -- row that is gone from the database by then.
  unfoldable pub enrich : (String → Option E) → List R → Option (List (R × E))
  enrich rows_per_pk [] = some []
  enrich rows_per_pk (r ∷ rows) =
      let rest = enrich rows_per_pk rows in
      elim (rows_per_pk (key r)) [
        | none ↦ none
        | some extra ↦ elim rest [ none ↦ none | some es ↦ some ((r, extra) ∷ es) ]
      ]

  abbrev pub with_extra : (String → E) → List R → List (R × E)
  with_extra extra rows = map (λ r. (r, extra (key r))) rows

  pub enrich-found :
      (extra : String → E) (rows : List R)
      → enrich (λ pk. some (extra pk)) rows ≡ some (with_extra extra rows)
  unfolding enrich
  enrich-found extra [] = refl
  enrich-found extra (r ∷ rows) = rw (enrich-found extra rows)

-- The tuple of the three lists
abbrev pub three {ℓ} : {A : Type ℓ} → Option A → Option A → Option A → Option (A × A × A)
three (some a) (some b) (some c) = some (a, b, c)
three _ _ _ = none
