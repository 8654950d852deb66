-- ===== src/Scheduler/Run.antt =====
-- One call of `MirrorScheduler.run` from its start to its end.
use irrd.Base.{
  ℕ, suc, String, ◌≡◌, refl, ◌⊎◌, inl, inr, Bool, true, false, Option, none, some, [], ◌∷◌, all,
  any, Bool-cases, Option-cases, arith, if◌then◌else◌, option_eq, list_eq, string_eq,
}
use irrd.Conf.{SourceSettings, Sources}
use irrd.Scheduler.{
  roa_import, route_preference_update, scope_filter_update, ProcessName, Scheduler,
  SchedulerSettings, check_scopefilter_change, run_source, run_sources, run_scope_filter,
  run_roa_import, run_if, run, same_settings, ScopeFilterSettings, has_preference,
}
use irrd.Scheduler.Laws.{
  Grows, Grows-same, Grows-trans, Grows-run_if_relevant, Grows-run_if, Grows-run_source, one_export,
  run_source-false, false_only,
}

abbrev pub one_export_of : String × SourceSettings → Bool
one_export_of (name, c) = one_export c

-- A process for no source, or for the given one
abbrev pub AtMost : String → ProcessName → Type 0
AtMost source n = (n.1 ≡ none) ⊎ (n.1 ≡ some source)

run_sources-stopped :
    (now : ℕ) (n : ℕ) (sources : Sources) (s : Scheduler) → run_sources now (suc n) sources s ≡ s
unfolding run_sources
run_sources-stopped now n [] s = refl
run_sources-stopped now n ((source, c) ∷ sources) s = ground arith

Grows-if :
    (Q : ProcessName → Type 0) (s t u : Scheduler) (b : Bool)
    → Grows Q s t
    → Grows Q s u
    → Grows Q s (if b then t else u)
Grows-if Q s t u true h k = h
Grows-if Q s t u false h k = k

module _ (now : ℕ) where
  abbrev OneSource : Scheduler → Scheduler → Type 0
  OneSource s s' = (source : String) × Grows (AtMost source) s s'

  run_sources_one :
      (sources : Sources) (s : Scheduler)
      → all one_export_of sources ≡ true
      → OneSource s (run_sources now 0 sources s)
  unfolding run_sources
  run_sources_one [] s h = ("", Grows-same (AtMost "") s)
  run_sources_one ((source, c) ∷ sources) s h = elim (Bool-cases (run_source now source c s).1) [
    | inl e ↦ (
      source,
      rw (e, run_sources-stopped now 0 sources (run_source now source c s).0)
          (Grows-run_source (AtMost source) now source c s (λ k. inr refl)),
    )
    | inr e ↦
        let one : one_export c ≡ true = ground arith in
        let rest : all one_export_of sources ≡ true = ground arith in
        let same : (run_source now source c s).0 ≡ s = run_source-false now source c s one e in
        let (found, grows) = run_sources_one sources s rest in (found, rw (e, same) grows)
  ]

  Grows-scope_filter :
      (source : String) (c : SchedulerSettings) (s : Scheduler)
      → Grows (AtMost source) s (run_scope_filter now (check_scopefilter_change c s))
  unfolding check_scopefilter_change
  Grows-scope_filter source c s = elim (Option-cases c.scope_filter) [
    | inl e ↦ rw (e, check_scopefilter_change) (Grows-same (AtMost source) s)
    | inr ((prefixes, asns), e) ↦ rw (e, check_scopefilter_change) (changed _)
  ]
    where
      decided :
          (b : Bool) (t : Scheduler)
          → Grows (AtMost source) s (run_scope_filter now (t, true))
          → Grows (AtMost source) s (run_scope_filter now (if b then (s, false) else (t, true)))
      decided true t h = Grows-same (AtMost source) s
      decided false t h = h

      changed :
          (current : ScopeFilterSettings)
          → Grows (AtMost source) s (
              run_scope_filter now (
                if same_settings s.previous_scopefilter current
                then (s, false)
                else (record s { previous_scopefilter = some current }, true)))
      changed current =
          decided (same_settings s.previous_scopefilter current)
            (record s { previous_scopefilter = some current })
            (Grows-run_if_relevant (AtMost source) none scope_filter_update 0 false now
              (record s { previous_scopefilter = some current }) (inl refl) false_only)

  Grows-roa_import :
      (source : String) (timer : Option ℕ) (s : Scheduler)
      → Grows (AtMost source) s (run_roa_import timer now s)
  Grows-roa_import source none s = Grows-same (AtMost source) s
  Grows-roa_import source (some timer) s =
      Grows-run_if_relevant (AtMost source) none roa_import timer false now s (inl refl) false_only

  -- Where no source both exports RPSL and serves NRTMv4, one run of the scheduler starts processes for one source
  -- at most, next to those for no source. Whatever it starts was not listed as a process before, unless it is an
  -- NRTMv4 server, and it forgets no process.
  pub run-Grows :
      (c : SchedulerSettings) (s : Scheduler)
      → all one_export_of c.sources ≡ true
      → (source : String) × Grows (AtMost source) s (run c now s)
  unfolding run
  run-Grows c s h =
      let s1 : Scheduler = run_roa_import c.roa_import_timer now s in
      let s2 : Scheduler =
        (run_if (any has_preference c.sources) none route_preference_update c.route_preference_timer
          false now s1 false).0 in
      let s3 : Scheduler = run_scope_filter now (check_scopefilter_change c s2) in
      let s4 : Scheduler = run_sources now 0 c.sources s3 in
      let (source, grows) = run_sources_one c.sources s3 h in
      (
        source,
        Grows-if (AtMost source) s s s4 c.readonly_standby (Grows-same (AtMost source) s) (
            Grows-trans (AtMost source) s s3 s4
              (Grows-trans (AtMost source) s s2 s3
                (Grows-trans (AtMost source) s s1 s2 (Grows-roa_import source c.roa_import_timer s)
                  (Grows-run_if (AtMost source) (any has_preference c.sources) none
                    route_preference_update c.route_preference_timer false now s1 false (inl refl)
                    false_only))
                (Grows-scope_filter source c s2))
              grows),
      )
