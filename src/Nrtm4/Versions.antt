-- ===== src/Nrtm4/Versions.antt =====
-- Which delta files `NRTM4Client` loads, and what it records when there are none.
use irrd.Base.{
  ℕ, zero, suc, ◌+◌, ◌-◌, ◌≤◌, ◌<◌, String, ◌≡◌, refl, sym, ap, ◌∙◌, subst, inl, inr, Bool, true,
  false, not, Option, none, some, List, [], ◌∷◌, map, filter, ltb, leb, ◌==◌, beq_iff, list_eq,
  nat_eq, option_eq, string_eq, arith, Bool-cases, Option-cases, beq_refl,
}
use irrd.Nrtm4.{
  FileReference, UpdateNotificationFile, version_of, first_version, last_version_of,
  min_delta_version, max_delta_version, count_from, range, contiguous, check_version_consistency,
}
use irrd.Nrtm4.Client.{
  Run, then_run, Remote, load_delta, load_deltas, retrieve_unf, finish, run_client,
  record_nrtm4_client_status, new_status,
}
use irrd.Nrtm4.Status.{
  ClientStatus, ok, next_after, find_next_version, Hashes, aggregate_previous_file_hashes,
}

abbrev pub wanted : ℕ → FileReference → Bool
wanted next_version d = not (ltb d.version next_version)

-- The files from the next version on
abbrev pub to_load : ℕ → List FileReference → List FileReference
to_load next_version ds = filter (wanted next_version) ds

head-eq : (a b : ℕ) (xs ys : List ℕ) → (a ∷ xs) ≡ (b ∷ ys) → a ≡ b
head-eq a b xs ys h = ground arith

tail-eq : (a b : ℕ) (xs ys : List ℕ) → (a ∷ xs) ≡ (b ∷ ys) → xs ≡ ys
tail-eq a b xs ys h = ground arith

to_load-all :
    (ds : List FileReference) (start n next : ℕ)
    → map version_of ds ≡ count_from start n
    → next ≤ start
    → to_load next ds ≡ ds
to_load-all [] start n next h k = refl
to_load-all (d ∷ ds) start zero next h k = cc
to_load-all (d ∷ ds) start (suc n) next h k = ground (
  arith,
  head-eq d.version start _ _ h,
  to_load-all ds (suc start) n next (tail-eq d.version start _ _ h) (omega (arith, k)),
)

to_load-count :
    (ds : List FileReference) (start n next : ℕ)
    → map version_of ds ≡ count_from start n
    → start ≤ next
    → map version_of (to_load next ds) ≡ count_from next ((start + n) - next)
to_load-count [] start zero next h k =
    let none_left : 0 ≡ (start + 0) - next = omega (arith, k) in ap (count_from next) none_left
to_load-count [] start (suc n) next h k = cc
to_load-count (d ∷ ds) start zero next h k = cc
to_load-count (d ∷ ds) start (suc n) next h k = elim (Bool-cases (ltb start next)) [
  | inl e ↦
      let rest =
        to_load-count ds (suc start) n next (tail-eq d.version start _ _ h) (ground arith) in
      let same : (suc start + n) - next ≡ (start + suc n) - next = omega arith in
      ground (arith, e, head-eq d.version start _ _ h, rest, ap (count_from next) same)
  | inr e ↦
      let all_of = to_load-all (d ∷ ds) start (suc n) next h (ground arith) in
      let same : start ≡ next = ground arith in
      let left : suc n ≡ (start + suc n) - start = omega arith in
      ap (map version_of) all_of
      ∙ h
      ∙ subst (λ z. count_from start (suc n) ≡ count_from z ((start + suc n) - z)) same
          (ap (count_from start) left)
]

find_next_version-known :
    (force : Bool) (status : ClientStatus) (u : UpdateNotificationFile) (next : ℕ)
    → find_next_version force status u none ≡ ok (some next)
    → (last : ℕ) × (status.version ≡ some last) × (next_after u last ≡ ok (some next))
unfolding find_next_version
find_next_version-known force status u next h = elim (Option-cases status.version) [
  | inl e ↦ ground arith
  | inr (last, e) ↦ (last, e, ground arith)
]

next_after-some :
    (u : UpdateNotificationFile) (last next first : ℕ)
    → next_after u last ≡ ok (some next)
    → min_delta_version u ≡ some first
    → (next ≡ suc last) × (first ≤ suc last)
next_after-some u last next first h e = (ground arith, ground arith)

-- In a checked file whose first and last deltas are known
deltas-range :
    (u : UpdateNotificationFile) (first top : ℕ)
    → check_version_consistency u ≡ true
    → min_delta_version u ≡ some first
    → max_delta_version u ≡ some top
    → map version_of u.deltas ≡ range first (suc top)
unfolding check_version_consistency
deltas-range u first top c f t = contiguous-range u.deltas first top (ground arith) f t
  where
    contiguous-range :
        (ds : List FileReference) (first top : ℕ)
        → contiguous ds ≡ true
        → first_version ds ≡ some first
        → last_version_of ds ≡ some top
        → map version_of ds ≡ range first (suc top)
    contiguous-range [] first top c f t = cc
    contiguous-range (d ∷ ds) first top c f t =
        ground (arith, beq_iff (map version_of (d ∷ ds)) (range d.version (suc top)))

has_first :
    (u : UpdateNotificationFile) (top : ℕ)
    → max_delta_version u ≡ some top
    → (first : ℕ) × (min_delta_version u ≡ some first)
has_first u top h = first_of u.deltas top h
  where
    first_of :
        (ds : List FileReference) (top : ℕ)
        → last_version_of ds ≡ some top
        → (first : ℕ) × (first_version ds ≡ some first)
    first_of [] top h = cc
    first_of (d ∷ ds) top h = (d.version, refl)

in_order :
    (ds : List FileReference) (first top : ℕ)
    → map version_of ds ≡ range first (suc top)
    → first_version ds ≡ some first
    → first ≤ top
in_order [] first top h f = cc
in_order (d ∷ ds) first top h f = elim (Bool-cases (leb first top)) [
  | inl e ↦ ground arith
  | inr e ↦
      let empty : suc top - first ≡ 0 = ground arith in ground (arith, ap (count_from first) empty)
]

consistent-version :
    (u : UpdateNotificationFile) (top : ℕ)
    → check_version_consistency u ≡ true
    → max_delta_version u ≡ some top
    → u.snapshot.version ≤ top
    → u.version ≡ top
unfolding check_version_consistency
consistent-version u top c t le = ground arith

loaded-range :
    (u : UpdateNotificationFile) (first top last : ℕ)
    → map version_of u.deltas ≡ range first (suc top)
    → first ≤ top
    → first ≤ suc last
    → map version_of (to_load (suc last) u.deltas) ≡ range (suc last) (suc top)
loaded-range u first top last h le k =
    let stop : (first + (suc top - first)) - suc last ≡ suc top - suc last = omega arith in
    to_load-count u.deltas first (suc top - first) (suc last) h k ∙ ap (count_from (suc last)) stop

find_next_version-no_deltas :
    (status : ClientStatus) (u : UpdateNotificationFile) (last : ℕ)
    → u.deltas ≡ []
    → status.session_id ≡ some u.session_id
    → (u.session_id == "") ≡ false
    → status.version ≡ some last
    → 0 < last
    → last ≤ u.version
    → find_next_version false status u none ≡ ok (some (suc last))
unfolding find_next_version
find_next_version-no_deltas status u last d s q v pos le =
    ground (arith, d, s, v, beq_refl (some u.session_id))

no_deltas : (u : UpdateNotificationFile) → u.deltas ≡ [] → max_delta_version u ≡ none
no_deltas u d = ap last_version_of d

module _ {O C P : Type 0} (R : Remote O C P) (source : String) where
  -- The loading of a list of files, each in full, until one fails
  abbrev pub load_each : UpdateNotificationFile → List FileReference → Run O Unit
  load_each u [] = ([], ok tt)
  load_each u (d ∷ ds) = then_run (load_delta R source u d) (λ _. load_each u ds)

  load_deltas-to_load :
      (u : UpdateNotificationFile) (next : ℕ) (ds : List FileReference)
      → load_deltas R source u next ds ≡ load_each u (to_load next ds)
  unfolding load_deltas
  load_deltas-to_load u next [] = refl
  load_deltas-to_load u next (d ∷ ds) = elim (Bool-cases (ltb d.version next)) [
    | inl e ↦ rw (e, load_deltas-to_load u next ds) refl
    | inr e ↦ rw (e, load_deltas-to_load u next ds) refl
  ]

  -- For a notification file whose versions are consistent and whose deltas reach its version, a client that
  -- goes on from a known version loads, in order, exactly the delta files of the versions after the one
  -- it has recorded, up to the version of the file: it skips none, and loads
  -- none twice.
  pub load_deltas-find_next_version :
      (force : Bool) (status : ClientStatus) (u : UpdateNotificationFile) (next top : ℕ)
      → check_version_consistency u ≡ true
      → find_next_version force status u none ≡ ok (some next)
      → max_delta_version u ≡ some top
      → u.snapshot.version ≤ top
      → (last : ℕ) × (status.version ≡ some last)
        × (load_deltas R source u next u.deltas ≡ load_each u (to_load next u.deltas))
        × (map version_of (to_load next u.deltas) ≡ range (suc last) (suc u.version))
  load_deltas-find_next_version force status u next top c h t le =
      let (last, e, k) = find_next_version-known force status u next h in
      let (first, f) = has_first u top t in
      let (n, within) = next_after-some u last next first k f in
      let every = deltas-range u first top c f t in
      (
        last,
        e,
        load_deltas-to_load u next u.deltas,
        subst (λ z. map version_of (to_load z u.deltas) ≡ range (suc last) (suc u.version)) (sym n)
            (subst (λ z. map version_of (to_load (suc last) u.deltas) ≡ range (suc last) (suc z))
              (sym (consistent-version u top c t le))
              (loaded-range u first top last every (in_order u.deltas first top every f) within)),
      )

  -- A client without a forced reload that knows the session of a notification file and no newer version, where
  -- that file names no delta files and keeps its history, loads nothing at all and still records
  -- the version of the file as its own, also where that version is newer.
  pub run_client-no_deltas :
      (status : ClientStatus) (config_key : Option String) (load_delta_too : Bool)
      (u : UpdateNotificationFile) (key : String) (last : ℕ) (hashes : Hashes)
      → retrieve_unf R source status config_key ≡ ok (u, key)
      → u.deltas ≡ []
      → status.session_id ≡ some u.session_id
      → (u.session_id == "") ≡ false
      → status.version ≡ some last
      → 0 < last
      → last ≤ u.version
      → aggregate_previous_file_hashes status u ≡ ok hashes
      → run_client R source false status config_key load_delta_too
        ≡ (record_nrtm4_client_status (new_status R source u key false hashes) ∷ [], ok false)
  unfolding run_client finish find_next_version
  run_client-no_deltas status config_key load_delta_too u key last hashes r d s q v pos le a =
      rw (r, run_client, find_next_version-no_deltas status u last d s q v pos le)
        (simp (no_deltas u d, a))
