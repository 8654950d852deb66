-- ===== src/Updates/Auth/Passed.antt =====
-- irrd/updates/validators.py: what has authenticated a change that `AuthValidator.process_auth` finds no error in.
use irrd.Base.{
  String, Bool, true, false, ◌≡◌, refl, sym, ap, ◌∙◌, subst, Option, none, some, List, [], ◌∷◌,
  is_some, ◌==◌, string_eq, if◌then◌else◌, ◌↔◌, In, In-add_new, arith,
}
use irrd.Updates.Auth.{
  RpslMntner, NewObject, Environment, AuthValidator, no_method, MntnerCheckResult, RelatedObject,
  check_override, check_mntners, RpslSetAutnumAuthenticationMode, disabled, opportunistic, required,
}
use irrd.Updates.Auth.Process.{
  ValidatorResult, new_result, is_override, add_error, require_check, failure_message,
  aut_num_or_error, is_disabled, for_set_name, related_set, related_route, find_related_mntners,
  check_related, check_existing, replace_dummy, verifies_itself, check_new_mntner, finish_auth,
  process_auth,
}
use irrd.Updates.Auth.Mntners.{CacheOk, Passes, check_mntners-valid_iff}

abbrev NoErrors : ValidatorResult → Type 0
NoErrors r = r.error_messages ≡ []

add_error-NoErrors : (message : String) (r : ValidatorResult) → NoErrors (add_error message r) → ⊥
add_error-NoErrors message r e = subst (λ xs. In message xs) e (In-add_new message r.error_messages)

require_check-NoErrors :
    (b : Bool) (message : String) (r : ValidatorResult)
    → NoErrors (require_check b message r)
    → (b ≡ true) × NoErrors r
require_check-NoErrors true message r e = (refl, e)
require_check-NoErrors false message r e = absurd (add_error-NoErrors message r e)

notified-NoErrors :
    (b : Bool) (message : String) (notify : List RpslMntner) (r : ValidatorResult)
    → NoErrors (if b then r else record (add_error message r) { mntners_notify = notify })
    → (b ≡ true) × NoErrors r
notified-NoErrors true message notify r e = (refl, e)
notified-NoErrors false message notify r e = absurd (add_error-NoErrors message r e)

replace_dummy-NoErrors :
    (E : Environment) (passwords : List String) (r : ValidatorResult)
    → NoErrors (replace_dummy E passwords r)
    → NoErrors r
replace_dummy-NoErrors E [] r e = absurd (add_error-NoErrors _ r e)
replace_dummy-NoErrors E (p ∷ []) r e = e
replace_dummy-NoErrors E (p ∷ q ∷ ps) r e = absurd (add_error-NoErrors _ r e)

check_new_mntner-NoErrors :
    (E : Environment) (m : Bool × RpslMntner) (o : NewObject) (v : AuthValidator)
    (r : ValidatorResult)
    → NoErrors (check_new_mntner E m o v r)
    → NoErrors r
check_new_mntner-NoErrors E (true, m) o v r e = replace_dummy-NoErrors E v.passwords r e
check_new_mntner-NoErrors E (false, m) o v r e =
    (require_check-NoErrors (verifies_itself E m o v) _ r e).1

finish_auth-NoErrors :
    (E : Environment) (m : Option (Bool × RpslMntner)) (current : Option (List String))
    (o : NewObject) (check : MntnerCheckResult) (v : AuthValidator) (r : ValidatorResult)
    → NoErrors (finish_auth E m current o check v r)
    → NoErrors r × (is_some m ≡ true → is_some current ≡ true)
finish_auth-NoErrors E none current o check v r e = (e, λ h. cc)
finish_auth-NoErrors E (some m) none o check v r e = absurd (add_error-NoErrors _ r e)
finish_auth-NoErrors E (some m) (some names) o check v r e =
    (check_new_mntner-NoErrors E m o v r e, λ h. refl)

-- The related object does not depend on the messages so far, and these stay.
abbrev Finds :
    ValidatorResult
    → Option RelatedObject × ValidatorResult
    → Option RelatedObject × ValidatorResult
    → Type 0
Finds r (a, r') (b, r'') = (a ≡ b) × (NoErrors r' → NoErrors r)

if-Finds :
    (r : ValidatorResult) (b : Bool) (p q p' q' : Option RelatedObject × ValidatorResult)
    → Finds r p p'
    → Finds r q q'
    → Finds r (if b then p else q) (if b then p' else q')
if-Finds r true p q p' q' h k = h
if-Finds r false p q p' q' h k = k

aut_num-Finds :
    (E : Environment) (found : Option RelatedObject) (mode : RpslSetAutnumAuthenticationMode)
    (segment : String) (r r0 : ValidatorResult)
    → Finds r (aut_num_or_error E found mode segment r) (aut_num_or_error E found mode segment r0)
aut_num-Finds E (some a) mode segment r r0 = (refl, λ e. e)
aut_num-Finds E none required segment r r0 = (refl, λ e. absurd (add_error-NoErrors _ r e))
aut_num-Finds E none disabled segment r r0 = (refl, λ e. e)
aut_num-Finds E none opportunistic segment r r0 = (refl, λ e. e)

related_set-Finds :
    (E : Environment) (segment : Option String) (o : NewObject) (r r0 : ValidatorResult)
    → Finds r (related_set E segment o r) (related_set E segment o r0)
related_set-Finds E none o r r0 = (refl, λ e. e)
related_set-Finds E (some segment) o r r0 =
    let mode = for_set_name E (E.autnum_authentication o.rpsl_object_class) in
    if-Finds r (is_disabled E mode) (none, r) _ (none, r0) _ (refl, λ e. e)
      (aut_num-Finds E (E.find_aut_num segment o) mode segment r r0)

find_related-Finds :
    (E : Environment) (o : NewObject) (r r0 : ValidatorResult)
    → Finds r (find_related_mntners E o r) (find_related_mntners E o r0)
unfolding find_related_mntners
find_related-Finds E o r r0 =
    if-Finds r o.is_set (related_set E o.pk_asn_segment o r) _ (related_set E o.pk_asn_segment o r0)
      _ (related_set-Finds E o.pk_asn_segment o r r0)
      (if-Finds r (o.rpsl_object_class == "route") (related_route E "inetnum" o, r) _
        (related_route E "inetnum" o, r0) _ (refl, λ e. e)
        (if-Finds r (o.rpsl_object_class == "route6") (related_route E "inet6num" o, r) (none, r)
          (related_route E "inet6num" o, r0) (none, r0) (refl, λ e. e) (refl, λ e. e)))

no_some : {A : Type 0} {a : A} → ◌≡◌ {A = Option A} none (some a) → ⊥
no_some e = cc

some_same : {A : Type 0} (a b : A) → some a ≡ some b → a ≡ b
some_same a b e = cc

module _ (E : Environment) (table : List RpslMntner)
    (answers : (source : String) (names : List String) (m : RpslMntner)
      → In m (E.find_mntners source names)
        ↔ (In m table × (m.source ≡ source) × In m.pk names)) where
  -- One of the names authenticates.
  abbrev pub Authenticated : NewObject → AuthValidator → List String → Type 0
  Authenticated o v names =
      (name : String) × In name names × Passes E table answers o o.new_source v name

  -- Who has to agree to a change
  pub record Authorised (o : NewObject) (current : Option (List String)) (v : AuthValidator)
      : Type 0 where
    pub by_new : Authenticated o v o.mnt_by
    pub by_current : (names : List String) → current ≡ some names → Authenticated o v names
    pub by_related :
        (related : RelatedObject)
        → current ≡ none
        → (find_related_mntners E o new_result).0 ≡ some related
        → Authenticated o v related.related_mnt_by
    pub no_new_mntner : is_some o.as_mntner ≡ true → is_some current ≡ true

  -- The check passed, and so the names are authenticated, also from before a change of the cache.
  checked :
      (o : NewObject) (names : List String) (v : AuthValidator)
      → CacheOk E table answers v
      → (check_mntners E o names o.new_source v).0.valid ≡ true
      → Authenticated o v names
  checked o names v ok e = (check_mntners-valid_iff E table answers o names o.new_source v ok).0.0 e

  related-Authenticated :
      (related : Option RelatedObject) (o : NewObject) (shown : MntnerCheckResult)
      (v : AuthValidator) (r : ValidatorResult)
      → CacheOk E table answers v
      → NoErrors ((check_related E related o shown v r).0)
      → NoErrors r × ((q : RelatedObject) → related ≡ some q → Authenticated o v q.related_mnt_by)
  related-Authenticated none o shown v r ok e = (e, λ q f. absurd (no_some f))
  related-Authenticated (some p) o shown v r ok e =
      let (passed, clear) =
        notified-NoErrors ((check_mntners E o p.related_mnt_by o.new_source v).0.valid) _ _ r e in
      (
        clear,
        λ q f.
            subst (λ x. Authenticated o v x.related_mnt_by) (some_same p q f)
              (checked o p.related_mnt_by v ok passed),
      )

  -- What the checks beside that of the new object tell
  Agreed : NewObject → Option (List String) → AuthValidator → Type 0
  Agreed o current v =
      ((names : List String) → current ≡ some names → Authenticated o v names)
      × ((related : RelatedObject)
          → current ≡ none
          → (find_related_mntners E o new_result).0 ≡ some related
          → Authenticated o v related.related_mnt_by)

  existing-Agreed :
      (current : Option (List String)) (o : NewObject) (new : MntnerCheckResult) (v : AuthValidator)
      (r : ValidatorResult)
      → CacheOk E table answers v
      → NoErrors ((check_existing E current o new v r).0)
      → NoErrors r × Agreed o current v
  unfolding Agreed
  existing-Agreed (some names) o new v r ok e =
      let (passed, clear) =
        require_check-NoErrors ((check_mntners E o names o.new_source v).0.valid) _ r e in
      (
        clear,
        (
          λ ms f.
              subst (λ x. Authenticated o v x) (some_same names ms f) (checked o names v ok passed),
          λ related f. absurd (no_some (sym f)),
        ),
      )
  existing-Agreed none o new v r ok e =
      let r1 : ValidatorResult = record r { mntners_notify = new.associated_mntners } in
      let found = find_related_mntners E o r1 in
      let (same, clear) = find_related-Finds E o r1 new_result in
      let (e', agreed) = related-Authenticated found.0 o new v found.1 ok e in
      (clear e', (λ names f. absurd (no_some f), λ related f g. agreed related (same ∙ g)))

  if-NoErrors :
      (b : Bool) (p q : ValidatorResult × AuthValidator)
      → b ≡ false
      → NoErrors ((if b then p else q).0)
      → NoErrors (q.0)
  if-NoErrors true p q h e = absurd (ground (arith))
  if-NoErrors false p q h e = e

  -- Given that the cache has maintainers of the database, and all of a name and source that it has one of: a change that is authenticated without an override has, in the source of the new object, one of the maintainers that the new object names, one of those that the current object names, and where there is no current object, one of those of the related object if there is one; and it is no new maintainer.
  pub process_auth-Authorised :
      (o : NewObject) (current : Option (List String)) (v : AuthValidator)
      → CacheOk E table answers v
      → check_override E v ≡ no_method
      → (process_auth E o current v).0.error_messages ≡ []
      → Authorised o current v
  unfolding process_auth check_mntners Agreed
  process_auth-Authorised o current v ok none_given e =
      let (new, v1) = check_mntners E o o.mnt_by o.new_source v in
      let r1 = require_check new.valid (failure_message o.mnt_by o none) new_result in
      let (r2, (v2, shown)) = check_existing E current o new v1 r1 in
      let e' : NoErrors (finish_auth E o.as_mntner current o shown v2 r2) =
        if-NoErrors (is_override (check_override E v)) _
          (finish_auth E o.as_mntner current o shown v2 r2, v2) (ap is_override none_given) e in
      let (clear, old) = finish_auth-NoErrors E o.as_mntner current o shown v2 r2 e' in
      let ok1 = (check_mntners-valid_iff E table answers o o.mnt_by o.new_source v ok).1 in
      let (clear', (by_current, by_related)) = existing-Agreed current o new v1 r1 ok1 clear in
      let (passed, _) = require_check-NoErrors new.valid _ new_result clear' in
      record {
        by_new = checked o o.mnt_by v ok passed;
        by_current = by_current;
        by_related = by_related;
        no_new_mntner = old;
      }
