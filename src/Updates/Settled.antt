-- ===== src/Updates/Settled.antt =====
-- irrd/updates/handler.py: once the passes over the change requests have settled, the valid ones are checked against each other.
use irrd.Base.{
  ℕ, zero, suc, String, Bool, true, false, ◌≡◌, refl, sym, ap, ◌∙◌, subst, Option, none, some, List,
  [], ◌∷◌, ◌++◌, length, ◌==◌, nat_eq, list_eq, if◌then◌else◌, inl, inr, In, In-append,
  In-append_left, In-append_right, arith, beq_iff,
}
use irrd.Updates.{ObjectKey, Row, World}
use irrd.Updates.References.{ReferenceValidator, new_validator}
use irrd.Updates.Request.{ChangeRequest, is_valid}
use irrd.Updates.Handler.{
  valid_positions, validate_valid, one_pass, validity_loop, valid_potential_new_mntners, preload,
  new_key, deleted_key, new_keys, deleted_keys, collect, validate_if_valid,
}
use irrd.Updates.Partial.{chain, chain-some, OnSome, OnSome-some, OnSome-both, OnSome-chain}
use irrd.Updates.Later.{First, Later, Later-valid, step-Later, true-false}
use irrd.Updates.Passes.{Fewer, validate_valid-Fewer}
use irrd.Updates.Resolved.{Preloaded, Sound}
use irrd.Updates.Told.{Checked, validate_valid-Checked}

abbrev key_if : Bool → List ObjectKey → List ObjectKey → List ObjectKey
key_if b keys rest = if b then keys ++ rest else rest

tail_same : (n : ℕ) (xs ys : List ℕ) → ◌≡◌ {A = List ℕ} (n ∷ xs) (n ∷ ys) → xs ≡ ys
tail_same n xs ys e = cc

shorter : (n : ℕ) (after before : List ℕ) → Fewer after before → after ≡ n ∷ before → ⊥
shorter n after before f e = ground (arith, f, ap length e)

-- Two lists of positions are equal only where the heads agree.
heads_agree :
    (b b' : Bool) (n : ℕ) (after before : List ℕ) (keys keys' new new' : List ObjectKey)
    → (b' ≡ true → b ≡ true)
    → Fewer after before
    → (if b' then n ∷ after else after) ≡ (if b then n ∷ before else before)
    → keys' ≡ keys
    → (after ≡ before → new' ≡ new)
    → key_if b' keys' new' ≡ key_if b keys new
heads_agree true true n after before keys keys' new new' h f e k i =
    ap (λ ks. ks ++ new') k ∙ ap (λ ks. keys ++ ks) (i (tail_same n after before e))
heads_agree true false n after before keys keys' new new' h f e k i =
    absurd (shorter n after before f e)
heads_agree false true n after before keys keys' new new' h f e k i =
    absurd (true-false true refl (sym (h refl)))
heads_agree false false n after before keys keys' new new' h f e k i = i e

pub none_is_some : {A : Type 0} {a : A} → ◌≡◌ {A = Option A} none (some a) → ⊥
none_is_some e = cc

pub some_same : {A : Type 0} (a b : A) → some a ≡ some b → a ≡ b
some_same a b e = cc

pub choice :
    (P : List ChangeRequest → Type 0) (b : Bool) (requests settled : List ChangeRequest)
    (rest : Option (List ChangeRequest))
    → (if b then some requests else rest) ≡ some settled
    → (b ≡ true → P requests)
    → (b ≡ false → rest ≡ some settled → P settled)
    → P settled
choice P true requests settled rest e h k = subst P (some_same requests settled e) (h refl)
choice P false requests settled rest e h k = k refl e

nil_if :
    (b : Bool) (n : ℕ) (xs : List ℕ) → (if b then n ∷ xs else xs) ≡ [] → (b ≡ false) × (xs ≡ [])
nil_if true n xs e = cc
nil_if false n xs e = (refl, e)

-- What a request adds to a set of keys depends on its object and its type alone.
abbrev Stable : (ChangeRequest → List ObjectKey) → Type 0
Stable f = (r r' : ChangeRequest) → Later r r' → f r' ≡ f r

abbrev new_of : ChangeRequest → List ObjectKey
new_of r = new_key r.rpsl_obj_new r.request_type

abbrev deleted_of : ChangeRequest → List ObjectKey
deleted_of r = deleted_key r.rpsl_obj_new r.request_type

new_of-Stable : Stable new_of
new_of-Stable r r' l =
    ap (λ o. new_key o r'.request_type) l.same_new ∙ ap (λ t. new_key r.rpsl_obj_new t) l.same_type

deleted_of-Stable : Stable deleted_of
deleted_of-Stable r r' l =
    ap (λ o. deleted_key o r'.request_type) l.same_new
    ∙ ap (λ t. deleted_key r.rpsl_obj_new t) l.same_type

-- The keys that the valid ones of some requests make and delete
abbrev pub keys_of : List ChangeRequest → Preloaded
keys_of requests = record { new = new_keys requests; deleted = deleted_keys requests }

pub keys_eq : (a b : Preloaded) → a.new ≡ b.new → a.deleted ≡ b.deleted → a ≡ b
keys_eq a b e f = cc

-- Fewer requests have fewer keys.
key_if-In :
    (b b' : Bool) (k : ObjectKey) (keys keys' rest rest' : List ObjectKey)
    → (b' ≡ true → b ≡ true)
    → keys' ≡ keys
    → (In k rest' → In k rest)
    → In k (key_if b' keys' rest')
    → In k (key_if b keys rest)
key_if-In true true k keys keys' rest rest' h e f m = elim (In-append k keys' rest' m) [
  | inl here ↦ In-append_left k keys rest (subst (In k) e here)
  | inr later ↦ In-append_right k keys rest (f later)
]
key_if-In true false k keys keys' rest rest' h e f m = In-append_right k keys rest (f m)
key_if-In false true k keys keys' rest rest' h e f m = absurd (true-false true refl (sym (h refl)))
key_if-In false false k keys keys' rest rest' h e f m = f m

module _ (W : World) where
  -- Where a pass leaves the same requests valid, the same keys are collected.
  SameKeys :
      (ChangeRequest → List ObjectKey)
      → ℕ
      → List ChangeRequest
      → List ChangeRequest × ReferenceValidator
      → Type 0
  SameKeys f n requests (requests', v') =
      valid_positions n requests' ≡ valid_positions n requests
      → collect f requests' ≡ collect f requests

  collect-validated :
      (f : ChangeRequest → List ObjectKey)
      → Stable f
      → (n : ℕ) (approved : List String) (requests : List ChangeRequest) (v : ReferenceValidator)
      → OnSome (SameKeys f n requests) (validate_valid W approved requests v)
  unfolding SameKeys
  collect-validated f stable n approved [] v = λ e. refl
  collect-validated f stable n approved (r ∷ requests) v =
      let FewerValid : List ChangeRequest × ReferenceValidator → Type 0 =
        (λ (rs, w). Fewer (valid_positions (suc n) rs) (valid_positions (suc n) requests)) in
      OnSome-chain (First W r) (SameKeys f n (r ∷ requests)) (validate_if_valid W approved r v) _
        (step-Later W approved r v)
        (λ (r', v') l.
          OnSome-chain (λ out. SameKeys f (suc n) requests out × FewerValid out)
            (SameKeys f n (r ∷ requests)) (validate_valid W approved requests v') _
            (OnSome-both (SameKeys f (suc n) requests) FewerValid
              (validate_valid W approved requests v')
              (collect-validated f stable (suc n) approved requests v')
              (validate_valid-Fewer W (suc n) approved requests v'))
            (λ (requests', v'') (same, fewer) e.
              heads_agree (is_valid r) (is_valid r') n _ _ (f r) (f r') _ _ (Later-valid W r r' l)
                fewer e (stable r r' l) same))

  NoNewKeys :
      (ChangeRequest → List ObjectKey)
      → List ChangeRequest
      → List ChangeRequest × ReferenceValidator
      → Type 0
  NoNewKeys f requests (requests', v') =
      (k : ObjectKey) → In k (collect f requests') → In k (collect f requests)

  collect-In :
      (f : ChangeRequest → List ObjectKey)
      → Stable f
      → (approved : List String) (requests : List ChangeRequest) (v : ReferenceValidator)
      → OnSome (NoNewKeys f requests) (validate_valid W approved requests v)
  unfolding NoNewKeys
  collect-In f stable approved [] v = λ k m. m
  collect-In f stable approved (r ∷ requests) v =
      OnSome-chain (First W r) (NoNewKeys f (r ∷ requests)) (validate_if_valid W approved r v) _
        (step-Later W approved r v)
        (λ (r', v') l.
          OnSome-chain (NoNewKeys f requests) (NoNewKeys f (r ∷ requests))
            (validate_valid W approved requests v') _ (collect-In f stable approved requests v')
            (λ (requests', v'') fewer k m.
              key_if-In (is_valid r) (is_valid r') k (f r) (f r') _ _ (Later-valid W r r' l)
                (stable r r' l) (fewer k) m))

  nothing_valid :
      (n : ℕ) (requests : List ChangeRequest) (r : ChangeRequest)
      → valid_positions n requests ≡ []
      → In r requests
      → is_valid r ≡ false
  nothing_valid n [] r e m = absurd m
  nothing_valid n (q ∷ requests) r e (inl same) =
      ap is_valid (sym same) ∙ (nil_if (is_valid q) n (valid_positions (suc n) requests) e).0
  nothing_valid n (q ∷ requests) r e (inr m) =
      nothing_valid (suc n) requests r
        (nil_if (is_valid q) n (valid_positions (suc n) requests) e).1 m

  module _
      (answers : (source : String) (classes : List String) (pk : String) (row : Row)
        → In row (W.find_objects source classes pk)
        → In row.object_class classes) where
    -- Every valid request is checked against the keys of the valid requests.
    abbrev pub Settled : List ChangeRequest → Type 0
    Settled requests =
        (r : ChangeRequest)
        → In r requests
        → is_valid r ≡ true
        → Checked W answers (keys_of requests) r

    pass-Settled :
        (requests requests' : List ChangeRequest) (v v' : ReferenceValidator)
        → Sound W (keys_of requests) v
        → one_pass W requests v ≡ some (requests', v')
        → Sound W (keys_of requests') v'
          × (valid_positions 0 requests' ≡ valid_positions 0 requests → Settled requests')
    unfolding one_pass preload SameKeys NoNewKeys
    pass-Settled requests requests' v v' sound ran =
        let approved = valid_potential_new_mntners requests in
        let before = preload requests v in
        let ((sound', same, gone), checked) =
          validate_valid-Checked W answers (keys_of requests) approved requests before
            (sound, refl, refl) requests' v' ran in
        let fewer =
          OnSome-some (NoNewKeys deleted_of requests) _ (requests', v')
            (collect-In deleted_of deleted_of-Stable approved requests before) ran in
        let same_new =
          OnSome-some (SameKeys new_of 0 requests) _ (requests', v')
            (collect-validated new_of new_of-Stable 0 approved requests before) ran in
        let same_deleted =
          OnSome-some (SameKeys deleted_of 0 requests) _ (requests', v')
            (collect-validated deleted_of deleted_of-Stable 0 approved requests before) ran in
        (
          λ k m.
              let (kept, classes, row, found, same_class) = sound' k m in
              (λ n. kept (fewer k n), classes, row, found, same_class),
          λ e r m ok.
              subst (λ keys. Checked W answers keys r)
                (sym (keys_eq _ (keys_of requests) (same_new e) (same_deleted e))) (checked r m ok),
        )

    loop-Settled :
        (left : ℕ) (previous : List ℕ) (requests settled : List ChangeRequest)
        (v : ReferenceValidator)
        → Sound W (keys_of requests) v
        → (valid_positions 0 requests ≡ previous → Settled requests)
        → validity_loop W left previous requests v ≡ some settled
        → Settled settled
    unfolding validity_loop
    loop-Settled zero previous requests settled v sound done e =
        choice Settled (valid_positions 0 requests == previous) requests settled none e
          (λ same. done ((beq_iff (valid_positions 0 requests) previous).0 same))
          (λ other f. absurd (none_is_some f))
    loop-Settled (suc left) previous requests settled v sound done e =
        let valid = valid_positions 0 requests in
        choice Settled (valid == previous) requests settled
          (chain (one_pass W requests v) (λ (rs, w). validity_loop W left valid rs w)) e
          (λ same. done ((beq_iff valid previous).0 same))
          (λ other f.
            let ((requests', v'), ran, g) = chain-some (one_pass W requests v) _ settled f in
            let (sound', done') = pass-Settled requests requests' v v' sound ran in
            loop-Settled left valid requests' settled v' sound' done' g)

    -- The first pass is skipped only where nothing is valid.
    pub handled-Settled :
        (left : ℕ) (requests settled : List ChangeRequest)
        → validity_loop W left [] requests new_validator ≡ some settled
        → Settled settled
    handled-Settled left requests settled e =
        loop-Settled left [] requests settled new_validator (λ k m. absurd m)
          (λ nothing r m ok.
            absurd (true-false (is_valid r) ok (nothing_valid 0 requests r nothing m)))
          e
