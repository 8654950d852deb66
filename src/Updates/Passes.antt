-- ===== src/Updates/Passes.antt =====
-- irrd/updates/handler.py: the passes over the change requests come to an end.
use irrd.Base.{
  In, ℕ, zero, suc, ◌≤◌, ◌<◌, String, Bool, true, false, ◌≡◌, refl, sym, ap, subst, ◌∙◌, Option,
  none, some, List, [], ◌∷◌, length, ◌==◌, nat_eq, list_eq, if◌then◌else◌, ◌⊎◌, inl, inr, arith,
  beq_refl,
}
use irrd.Updates.{World}
use irrd.Updates.References.{ReferenceValidator}
use irrd.Updates.Request.{ChangeRequest, is_valid}
use irrd.Updates.Handler.{
  valid_positions, validate_valid, one_pass, validity_loop, valid_potential_new_mntners, preload,
  validate_if_valid,
}
use irrd.Updates.Partial.{chain, OnSome, OnSome-some, OnSome-chain, some_of}
use irrd.Updates.Asserted.{OriginGiven, Later-OriginGiven, validate_valid-is_some}
use irrd.Updates.Later.{First, Later-valid, step-Later, true-false}

same-test : (xs ys : List ℕ) → xs ≡ ys → (xs == ys) ≡ true
same-test xs ys e = subst (λ zs. (xs == zs) ≡ true) e (beq_refl xs)

stop_settled :
    (b : Bool) (requests : List ChangeRequest) (rest : Option (List ChangeRequest))
    → b ≡ true
    → (settled : List ChangeRequest) × ((if b then some requests else rest) ≡ some settled)
stop_settled true requests rest e = (requests, refl)
stop_settled false requests rest e = cc

choose_settled :
    (b : Bool) (requests : List ChangeRequest) (rest : Option (List ChangeRequest))
    → (settled : List ChangeRequest) × (rest ≡ some settled)
    → (settled : List ChangeRequest) × ((if b then some requests else rest) ≡ some settled)
choose_settled true requests rest again = (requests, refl)
choose_settled false requests rest again = again

-- After a pass the same requests are valid, or fewer.
abbrev pub Fewer : List ℕ → List ℕ → Type 0
Fewer after before = (after ≡ before) ⊎ (length after < length before)

module _ (W : World) where
  keep-Fewer :
      (b b' : Bool) (n : ℕ) (after before : List ℕ)
      → (b' ≡ true → b ≡ true)
      → Fewer after before
      → Fewer (if b' then n ∷ after else after) (if b then n ∷ before else before)
  keep-Fewer true true n after before h (inl e) = inl (ap (λ xs. n ∷ xs) e)
  keep-Fewer true true n after before h (inr l) = inr (omega arith)
  keep-Fewer true false n after before h (inl e) = inr (ground (arith, ap length e))
  keep-Fewer true false n after before h (inr l) = inr (omega arith)
  keep-Fewer false true n after before h f = absurd (true-false true refl (sym (h refl)))
  keep-Fewer false false n after before h f = f

  pub validate_valid-Fewer :
      (n : ℕ) (approved : List String) (requests : List ChangeRequest) (v : ReferenceValidator)
      → OnSome
          (λ (requests', v'). Fewer (valid_positions n requests') (valid_positions n requests))
          (validate_valid W approved requests v)
  validate_valid-Fewer n approved [] v = inl refl
  validate_valid-Fewer n approved (r ∷ requests) v =
      let P : List ChangeRequest × ReferenceValidator → Type 0 = (λ (requests', v').
        Fewer (valid_positions n requests') (valid_positions n (r ∷ requests))) in
      OnSome-chain (First W r) P (validate_if_valid W approved r v) _ (step-Later W approved r v)
        (λ (r', v') l.
          OnSome-chain
            (λ (requests', v'').
              Fewer (valid_positions (suc n) requests') (valid_positions (suc n) requests))
            P (validate_valid W approved requests v') _
            (validate_valid-Fewer (suc n) approved requests v')
            (λ (requests', v'') f.
              keep-Fewer (is_valid r) (is_valid r') n _ _ (Later-valid W r r' l) f))

  -- A pass that changes nothing is the last one.
  loop-same :
      (left : ℕ) (previous : List ℕ) (requests : List ChangeRequest) (v : ReferenceValidator)
      → valid_positions 0 requests ≡ previous
      → (settled : List ChangeRequest) × (validity_loop W left previous requests v ≡ some settled)
  unfolding validity_loop
  loop-same zero previous requests v e = stop_settled _ requests none (same-test _ _ e)
  loop-same (suc left) previous requests v e = stop_settled _ requests _ (same-test _ _ e)

  -- The requests keep their AS numbers.
  validate_valid-OriginGiven :
      (approved : List String) (requests : List ChangeRequest) (v : ReferenceValidator)
      → ((r : ChangeRequest) → In r requests → OriginGiven W r)
      → OnSome
          (λ (requests', v'). (r : ChangeRequest) → In r requests' → OriginGiven W r)
          (validate_valid W approved requests v)
  validate_valid-OriginGiven approved [] v g = g
  validate_valid-OriginGiven approved (r ∷ requests) v g =
      let P : List ChangeRequest × ReferenceValidator → Type 0 =
        (λ (requests', v'). (q : ChangeRequest) → In q requests' → OriginGiven W q) in
      OnSome-chain (First W r) P (validate_if_valid W approved r v) _ (step-Later W approved r v)
        (λ (r', v') l.
          OnSome-chain P P (validate_valid W approved requests v') _
            (validate_valid-OriginGiven approved requests v' (λ q m. g q (inr m)))
            (λ (requests', v'') h q m. elim m [
              | inl same ↦ subst (OriginGiven W) same (Later-OriginGiven W r r' l (g r (inl refl)))
              | inr later ↦ h q later
            ]))

  pub loop-settles :
      (left : ℕ) (previous : List ℕ) (requests : List ChangeRequest) (v : ReferenceValidator)
      → ((r : ChangeRequest) → In r requests → OriginGiven W r)
      → length (valid_positions 0 requests) < left
      → (settled : List ChangeRequest) × (validity_loop W left previous requests v ≡ some settled)
  unfolding validity_loop one_pass
  loop-settles zero previous requests v g l = absurd (ground arith)
  loop-settles (suc left) previous requests v g l =
      let valid : List ℕ = valid_positions 0 requests in
      let approved : List String = valid_potential_new_mntners requests in
      let after : ReferenceValidator = preload requests v in
      let ((requests', v'), e) =
        some_of (validate_valid W approved requests after)
          (validate_valid-is_some W approved requests after g) in
      let fewer : Fewer (valid_positions 0 requests') valid =
        OnSome-some (λ (rs, w). Fewer (valid_positions 0 rs) (valid_positions 0 requests)) _
          (requests', v') (validate_valid-Fewer 0 approved requests after) e in
      let given : (r : ChangeRequest) → In r requests' → OriginGiven W r =
        OnSome-some (λ (rs, w). (r : ChangeRequest) → In r rs → OriginGiven W r) _ (requests', v')
          (validate_valid-OriginGiven approved requests after g) e in
      let (settled, f) =
        elim fewer
          as (λ f.
            (settled : List ChangeRequest) × (validity_loop W left valid requests' v'
              ≡ some settled)) [
                | inl same ↦ loop-same left valid requests' v' same
                | inr less ↦ loop-settles left valid requests' v' given (omega arith)
              ] in
      choose_settled (valid == previous) requests _
        (settled, ap (λ x. chain x (λ (rs, w). validity_loop W left valid rs w)) e ∙ f)

  pub positions-length :
      (n : ℕ) (requests : List ChangeRequest)
      → length (valid_positions n requests) ≤ length requests
  positions-length n [] = omega arith
  positions-length n (r ∷ requests) = ground (arith, positions-length (suc n) requests)
