-- ===== src/Scheduler/Laws.antt =====
-- What one call of `MirrorScheduler.run` starts.
use irrd.Base.{
  ℕ, String, ◌≡◌, refl, sym, ap, ◌∙◌, subst, ◌⊎◌, inl, inr, Bool, true, false, not, ◌&&◌, ◌||◌,
  Option, some, List, [], ◌∷◌, ◌++◌, In, In-append, In-add_old, In-contains, contains, append-nil,
  append_assoc, arith, Bool-cases, option_eq, string_eq,
}
use irrd.Conf.{SourceSettings}
use irrd.Scheduler.{
  RunnerClass, rpsl_mirror_import_update, source_export, nrtm4_server, ProcessName, name_eq,
  Scheduler, has_expired, run_if_relevant, run_if, run_source, or_default, default_import_timer,
}

-- The second state comes from the first one by starting processes with the property, each of which was not
-- listed in the first one or is an NRTMv4 server; no process is forgotten.
abbrev pub Grows : (ProcessName → Type 0) → Scheduler → Scheduler → Type 0
Grows Q s s' =
    (new : List ProcessName) × (s'.started ≡ s.started ++ new)
    × ((n : ProcessName) → In n new → Q n × ((n.0 ≡ nrtm4_server) ⊎ (In n s.processes → ⊥)))
    × ((n : ProcessName) → In n s.processes → In n s'.processes)

module _ (Q : ProcessName → Type 0) where
  pub Grows-same : (s : Scheduler) → Grows Q s s
  Grows-same s = ([], sym (append-nil s.started), (λ n i. absurd i), (λ n i. i))

  pub Grows-trans : (s t u : Scheduler) → Grows Q s t → Grows Q t u → Grows Q s u
  Grows-trans s t u (new, e, q, keep) (more, e', q', keep') = (
    new ++ more,
    e' ∙ ap (λ xs. xs ++ more) e ∙ append_assoc s.started new more,
    (λ n i. elim (In-append n new more i) [
      | inl j ↦ q n j
      | inr j ↦
          let (p, k) = q' n j in
          (p, elim k [ inl server ↦ inl server | inr fresh ↦ inr (λ l. fresh (keep n l)) ])
    ]),
    (λ n i. keep' n (keep n i)),
  )

  pub Grows-run_if_relevant :
      (source : Option String) (c : RunnerClass) (timer : ℕ) (multiple : Bool) (now : ℕ)
      (s : Scheduler)
      → Q (c, source)
      → (multiple ≡ true → c ≡ nrtm4_server)
      → Grows Q s (run_if_relevant source c timer multiple now s).0
  unfolding run_if_relevant
  Grows-run_if_relevant source c timer multiple now s q only =
      elim (Bool-cases (
        not (has_expired s (c, source) timer now)
        || (contains s.processes (c, source) && not multiple))) [
          | inl e ↦ rw (e) (Grows-same s)
          | inr e ↦ rw (e) (
            (c, source) ∷ [],
            refl,
            (λ n i. elim i [
              | inl same ↦ (subst Q same q, started same e)
              | inr other ↦ absurd other
            ]),
            (λ n i. In-add_old n (c, source) s.processes i),
          )
        ]
    where
      clash :
          contains s.processes (c, source) ≡ true
          → multiple ≡ false
          → (not (has_expired s (c, source) timer now)
              || (contains s.processes (c, source) && not multiple))
            ≡ false
          → ⊥
      clash i m e = absurd (ground arith)

      started :
          {n : ProcessName}
          → (c, source) ≡ n
          → (not (has_expired s (c, source) timer now)
              || (contains s.processes (c, source) && not multiple))
            ≡ false
          → (n.0 ≡ nrtm4_server) ⊎ (In n s.processes → ⊥)
      started {n} same e =
          subst (λ m. (m.0 ≡ nrtm4_server) ⊎ (In m s.processes → ⊥)) same
            (elim (Bool-cases multiple) [
              | inl m ↦ inl (only m)
              | inr m ↦ inr (λ i. clash (In-contains (c, source) s.processes i) m e)
            ])

  pub Grows-run_if :
      (asked : Bool) (source : Option String) (c : RunnerClass) (timer : ℕ) (multiple : Bool)
      (now : ℕ) (s : Scheduler) (otherwise : Bool)
      → Q (c, source)
      → (multiple ≡ true → c ≡ nrtm4_server)
      → Grows Q s (run_if asked source c timer multiple now s otherwise).0
  Grows-run_if true source c timer multiple now s otherwise q only =
      Grows-run_if_relevant source c timer multiple now s q only
  Grows-run_if false source c timer multiple now s otherwise q only = Grows-same s

pub false_only : {A : Type 0} → false ≡ true → A
false_only h = cc

abbrev after_import : ℕ → String → SourceSettings → Scheduler → Scheduler × Bool
after_import now source c s =
    run_if c.is_mirror (some source) rpsl_mirror_import_update
      (or_default c.import_timer (default_import_timer c)) false now s false

abbrev after_export : ℕ → String → SourceSettings → Scheduler → Scheduler × Bool
after_export now source c s =
    run_if c.runs_rpsl_export (some source) source_export (or_default c.export_timer 3600) false now
      s false

abbrev after_server : ℕ → String → SourceSettings → Scheduler → Bool → Scheduler × Bool
after_server now source c s exported =
    run_if c.runs_nrtm4_server (some source) nrtm4_server 60 true now s exported

pub Grows-run_source :
    (Q : ProcessName → Type 0) (now : ℕ) (source : String) (c : SourceSettings) (s : Scheduler)
    → ((k : RunnerClass) → Q (k, some source))
    → Grows Q s (run_source now source c s).0
unfolding run_source
Grows-run_source Q now source c s q =
    let s1 : Scheduler = (after_import now source c s).0 in
    let s2 : Scheduler = (after_export now source c s1).0 in
    let exported : Bool = (after_export now source c s1).1 in
    let s3 : Scheduler = (after_server now source c s2 exported).0 in
    Grows-trans Q s s2 s3
      (Grows-trans Q s s1 s2
        (Grows-run_if Q c.is_mirror (some source) rpsl_mirror_import_update _ false now s false
          (q rpsl_mirror_import_update) false_only)
        (Grows-run_if Q c.runs_rpsl_export (some source) source_export _ false now s1 false
          (q source_export) false_only))
      (Grows-run_if Q c.runs_nrtm4_server (some source) nrtm4_server 60 true now s2 exported
        (q nrtm4_server) (λ _. refl))

run_if_relevant-false :
    (source : Option String) (c : RunnerClass) (timer : ℕ) (multiple : Bool) (now : ℕ)
    (s : Scheduler)
    → (run_if_relevant source c timer multiple now s).1 ≡ false
    → (run_if_relevant source c timer multiple now s).0 ≡ s
unfolding run_if_relevant
run_if_relevant-false source c timer multiple now s h =
    elim (Bool-cases (
      not (has_expired s (c, source) timer now)
      || (contains s.processes (c, source) && not multiple))) [
        | inl e ↦ rw (e) refl
        | inr e ↦ ground (arith, e)
      ]

run_if-false :
    (asked : Bool) (source : Option String) (c : RunnerClass) (timer : ℕ) (multiple : Bool)
    (now : ℕ) (s : Scheduler)
    → (run_if asked source c timer multiple now s false).1 ≡ false
    → (run_if asked source c timer multiple now s false).0 ≡ s
run_if-false true source c timer multiple now s h =
    run_if_relevant-false source c timer multiple now s h
run_if-false false source c timer multiple now s h = refl

-- No source both exports RPSL and serves NRTMv4.
abbrev pub one_export : SourceSettings → Bool
one_export c = not (c.runs_rpsl_export && c.runs_nrtm4_server)

after_server-false :
    (now : ℕ) (source : String) (c : SourceSettings) (s : Scheduler)
    → one_export c ≡ true
    → (after_server now source c (after_export now source c s).0 (after_export now source c s).1).1
      ≡ false
    → (after_server now source c (after_export now source c s).0 (after_export now source c s).1).0
      ≡ s
after_server-false now source c s one h = elim (Bool-cases c.runs_nrtm4_server) [
  | inl n ↦ let quiet : c.runs_rpsl_export ≡ false = ground arith in serves now source c s quiet h
  | inr n ↦ exports now source c s n h
]
  where
    serves :
        (now : ℕ) (source : String) (c : SourceSettings) (s : Scheduler)
        → c.runs_rpsl_export ≡ false
        → (after_server now source c
            (after_export now source c s).0
            (after_export now source c s).1).1
          ≡ false
        → (after_server now source c
            (after_export now source c s).0
            (after_export now source c s).1).0
          ≡ s
    serves now source c s quiet h =
        let e : after_export now source c s ≡ (s, false) = rw (quiet) refl in
        subst
          (λ p.
            (after_server now source c p.0 p.1).1 ≡ false
            → (after_server now source c p.0 p.1).0 ≡ s)
          (sym e) (run_if-false c.runs_nrtm4_server (some source) nrtm4_server 60 true now s) h

    exports :
        (now : ℕ) (source : String) (c : SourceSettings) (s : Scheduler)
        → c.runs_nrtm4_server ≡ false
        → (after_server now source c
            (after_export now source c s).0
            (after_export now source c s).1).1
          ≡ false
        → (after_server now source c
            (after_export now source c s).0
            (after_export now source c s).1).0
          ≡ s
    exports now source c s n h =
        let p : Scheduler × Bool = after_export now source c s in
        let e : after_server now source c p.0 p.1 ≡ p = rw (n) refl in
        ap (λ q. q.0) e
        ∙ run_if-false c.runs_rpsl_export (some source) source_export
            (or_default c.export_timer 3600) false now s (sym (ap (λ q. q.1) e) ∙ h)

pub run_source-false :
    (now : ℕ) (source : String) (c : SourceSettings) (s : Scheduler)
    → one_export c ≡ true
    → (run_source now source c s).1 ≡ false
    → (run_source now source c s).0 ≡ s
unfolding run_source
run_source-false now source c s one h =
    let s1 : Scheduler = (after_import now source c s).0 in
    let imported : Bool = (after_import now source c s).1 in
    let served : Bool =
      (after_server now source c (after_export now source c s1).0
        (after_export now source c s1).1).1 in
    let (i, e) = both_false imported served h in
    after_server-false now source c s1 one e
    ∙ run_if-false c.is_mirror (some source) rpsl_mirror_import_update
        (or_default c.import_timer (default_import_timer c)) false now s i
  where
    both_false : (a b : Bool) → (a || b) ≡ false → (a ≡ false) × (b ≡ false)
    both_false a b h = (ground arith, ground arith)
