-- ===== src/NrtmOperation/Laws.antt =====
-- What `NRTMOperation.save` lets into the database.
use irrd.Base.{
  ℕ, zero, suc, ◌⊎◌, if◌then◌else◌, arith, String, ◌≡◌, refl, subst, Option-cases, inl, inr, Bool,
  true, false, Option, none, some, List, [], ◌∷◌, In, is_nil, ◌==◌, string_eq, Bool-cases,
}
use irrd.Rpki.{RpkiStatus}
use irrd.ScopeFilter.{ScopeFilterStatus}
use irrd.NrtmOperation.{
  DatabaseOperation, add_or_update, delete, RpslObject, Parsed, unknown_class, object,
  NrtmOperation, SaveCall, record_mirror_error, upsert_rpsl_object, delete_rpsl_object, Saved,
  filtered_out, other_source, parse_again, is_set, rpki_status_of, default_source, save_object,
  save_key, save_parsed, save_text, save,
}
use irrd.Text.{lower}

module _ (parse : Bool → Option String → String → Parsed) (rpki : RpslObject → RpkiStatus)
    (scope : RpslObject → ScopeFilterStatus) (op : NrtmOperation) where
  -- The status is that of the validator, or the object gets none: where RPKI is not in use, or it is no route, or it has
  -- no prefix, or it has no AS number or AS 0.
  abbrev pub Checks : RpslObject → Option RpkiStatus → Type 0
  Checks o (some status) =
      (op.rpki_aware ≡ true)
      × (o.is_route ≡ true)
      × (o.has_prefix ≡ true)
      × ((n : ℕ) × (o.asn_first ≡ some (suc n)))
      × (status ≡ rpki o)
  Checks o none =
      (op.rpki_aware ≡ false)
      ⊎ ((o.is_route ≡ false)
          ⊎ ((o.has_prefix ≡ false) ⊎ ((o.asn_first ≡ none) ⊎ (o.asn_first ≡ some 0))))

  is_set-cases :
      (n : Option ℕ)
      → ((m : ℕ) × (n ≡ some (suc m)) × (is_set n ≡ true))
        ⊎ (((n ≡ none) ⊎ (n ≡ some 0)) × (is_set n ≡ false))
  is_set-cases none = inr (inl refl, refl)
  is_set-cases (some zero) = inr (inr refl, refl)
  is_set-cases (some (suc m)) = inl (m, refl, ground arith)

  if-Checks :
      (b : Bool) (o : RpslObject)
      → (b ≡ true → Checks o (some (rpki o)))
      → (b ≡ false → Checks o none)
      → Checks o (if b then some (rpki o) else none)
  if-Checks true o h k = h refl
  if-Checks false o h k = k refl

  rpki_status_of-Checks : (o : RpslObject) → Checks o (rpki_status_of parse rpki scope op o)
  rpki_status_of-Checks o =
      if-Checks _ o
        (λ e. elim (is_set-cases o.asn_first) [
          | inl (m, given, set) ↦ (ground (arith), ground (arith), ground (arith), (m, given), refl)
          | inr (absent, unset) ↦ absurd (ground (arith))
        ])
        (λ e. elim (Bool-cases op.rpki_aware) [
          | inr unaware ↦ inl unaware
          | inl aware ↦ elim (Bool-cases o.is_route) [
            | inr other ↦ inr (inl other)
            | inl route ↦ elim (Bool-cases o.has_prefix) [
              | inr bare ↦ inr (inr (inl bare))
              | inl prefixed ↦ elim (is_set-cases o.asn_first) [
                | inl (m, given, set) ↦ absurd (ground (arith))
                | inr (absent, unset) ↦ inr (inr (inr absent))
              ]
            ]
          ]
        ])

  -- What a call may rest on
  abbrev pub Permitted : SaveCall → Type 0
  Permitted record_mirror_error = Unit
  Permitted (upsert_rpsl_object o status scope_status) =
      (op.operation ≡ add_or_update)
      × (filtered_out op (lower o.rpsl_object_class) ≡ false)
      × (o.errors ≡ [])
      × (other_source op o ≡ false)
      × Checks o status
      × (scope_status ≡ scope o)
  Permitted (delete_rpsl_object pk c) = (op.operation ≡ delete) × (filtered_out op c ≡ false)

  -- The calls of a result that claims success or not
  abbrev pub Sound : Saved → Type 0
  Sound (calls, result) = (call : SaveCall) → In call calls → Permitted call

  one-Sound : (call : SaveCall) (r : Option Bool) → Permitted call → Sound (call ∷ [], r)
  one-Sound call r p other (inl same) = subst Permitted same p
  one-Sound call r p other (inr none_left) = absurd none_left

  no_calls-Sound : (r : Option Bool) → Sound ([], r)
  no_calls-Sound r call i = absurd i

  is_nil_eq : (xs : List String) → is_nil xs ≡ true → xs ≡ []
  is_nil_eq [] h = refl
  is_nil_eq (x ∷ xs) h = cc

  abbrev accept : RpslObject → DatabaseOperation → Saved
  accept o add_or_update =
      (upsert_rpsl_object o (rpki_status_of parse rpki scope op o) (scope o) ∷ [], some true)
  accept o delete = (delete_rpsl_object (some o.pk) (lower o.rpsl_object_class) ∷ [], some true)

  accept-Sound :
      (o : RpslObject) (k : DatabaseOperation)
      → op.operation ≡ k
      → filtered_out op (lower o.rpsl_object_class) ≡ false
      → is_nil o.errors ≡ true
      → other_source op o ≡ false
      → Sound (accept o k)
  accept-Sound o add_or_update e f n s =
      one-Sound (upsert_rpsl_object o (rpki_status_of parse rpki scope op o) (scope o)) (some true)
        (e, f, is_nil_eq o.errors n, s, rpki_status_of-Checks o, refl)
  accept-Sound o delete e f n s =
      one-Sound (delete_rpsl_object (some o.pk) (lower o.rpsl_object_class)) (some true) (e, f)

  save_object-Sound : (o : RpslObject) → Sound (save_object parse rpki scope op o)
  unfolding save_object
  save_object-Sound o = elim (Bool-cases (filtered_out op (lower o.rpsl_object_class))) [
    | inl f ↦ rw (f) (no_calls-Sound (some false))
    | inr f ↦ elim (Bool-cases (is_nil o.errors)) [
      | inr n ↦ rw (f, n) (one-Sound record_mirror_error (some false) tt)
      | inl n ↦ elim (Bool-cases (other_source op o)) [
        | inl s ↦ rw (f, n, s) (one-Sound record_mirror_error (some false) tt)
        | inr s ↦ rw (f, n, s) (accept-Sound o op.operation refl f n s)
      ]
    ]
  ]

  abbrev accept_key : String → DatabaseOperation → Saved
  accept_key c add_or_update = ([], some true)
  accept_key c delete = (delete_rpsl_object op.rpsl_pk c ∷ [], some true)

  accept_key-Sound :
      (c : String) (k : DatabaseOperation)
      → op.operation ≡ k
      → filtered_out op c ≡ false
      → Sound (accept_key c k)
  accept_key-Sound c add_or_update e f = no_calls-Sound (some true)
  accept_key-Sound c delete e f = one-Sound (delete_rpsl_object op.rpsl_pk c) (some true) (e, f)

  save_key-Sound : Sound (save_key parse rpki scope op)
  unfolding save_key
  save_key-Sound = elim (Option-cases op.object_class) [
    | inl o ↦ rw (o, save_key) (no_calls-Sound none)
    | inr (c, o) ↦ elim (Bool-cases (c == "")) [
      | inl e ↦ rw (o, save_key, e) (no_calls-Sound none)
      | inr e ↦ elim (Bool-cases (filtered_out op c)) [
        | inl f ↦ rw (o, save_key, e, f) (no_calls-Sound (some false))
        | inr f ↦ rw (o, save_key, e, f) (accept_key-Sound c op.operation refl f)
      ]
    ]
  ]

  save_parsed-Sound : (p : Parsed) → Sound (save_parsed parse rpki scope op p)
  save_parsed-Sound (unknown_class c) = no_calls-Sound (some false)
  save_parsed-Sound (object o) = save_object-Sound o

  save_text-Sound : (text : Option String) → Sound (save_text parse rpki scope op text)
  save_text-Sound none = save_key-Sound
  save_text-Sound (some text) = elim (Bool-cases (text == "")) [
    | inl e ↦ rw (e) save_key-Sound
    | inr e ↦ rw (e) (
        save_parsed-Sound (
          parse_again parse rpki scope op text
            (parse false (default_source parse rpki scope op) text)))
  ]

  -- Whatever the operation and the text: an object is only upserted for an addition, with no errors of the parser,
  -- of a class that the filter lets through, and of the mirrored source if it names one; it carries the
  -- status of the scope filter and, exactly where RPKI is in use and it is a route with a prefix and an AS number other than
  -- 0, the status of the RPKI validator. An object is only deleted for a deletion of a class that the filter lets through.
  pub save-Sound : Sound (save parse rpki scope op)
  unfolding save
  save-Sound = save_text-Sound op.object_text
