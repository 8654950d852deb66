-- ===== src/Scheduler/Examples.antt =====
-- Tests of the scheduler, and its theorem at concrete data.
use irrd.Base.{ℕ, String, ◌≡◌, ◌+◌, refl, true, false, none, some, [], ◌∷◌}
use irrd.Conf.{SourceSettings, bare_source}
use irrd.Scheduler.{
  Scheduler, SchedulerSettings, scope_filter_update, rpsl_mirror_import_update, source_export,
  nrtm4_server, roa_import, run_if_relevant, check_scopefilter_change, run_source, run_sources, run,
  update_process_state,
}
use irrd.Scheduler.Laws.{Grows}
use irrd.Scheduler.Run.{AtMost, run-Grows}

abbrev fresh : Scheduler
fresh = record { processes = []; last_started_time = []; previous_scopefilter = none; started = [] }

abbrev mirror : SourceSettings
mirror = record bare_source { is_mirror = true }

abbrev settings : SchedulerSettings
settings = record {
  readonly_standby = false;
  roa_import_timer = some 3600;
  route_preference_timer = 3600;
  scope_filter = some ([], []);
  sources = ("RIPE", mirror) ∷ ("ARIN", mirror) ∷ [];
}

-- 5000 seconds after the epoch
abbrev now : ℕ
now = 5000000000

abbrev first_run : Scheduler
first_run = run settings now fresh

one_mirror :
    first_run.started
    ≡ (roa_import, none)
      ∷ (scope_filter_update, none)
      ∷ (rpsl_mirror_import_update, some "RIPE")
      ∷ []
unfolding run run_if_relevant check_scopefilter_change run_sources run_source
one_mirror = refl

second_mirror :
    (run settings (now + 1000000) first_run).started
    ≡ (roa_import, none)
      ∷ (scope_filter_update, none)
      ∷ (rpsl_mirror_import_update, some "RIPE")
      ∷ (rpsl_mirror_import_update, some "ARIN")
      ∷ []
unfolding one_mirror
second_mirror = refl

-- A source whose NRTMv4 server has just been started exports, and this does not count.
abbrev busy : SourceSettings
busy = record bare_source { runs_rpsl_export = true; runs_nrtm4_server = true }

abbrev both : SchedulerSettings
both = record settings {
  roa_import_timer = none;
  scope_filter = none;
  sources = ("RIPE", busy) ∷ ("ARIN", mirror) ∷ [];
}

two_sources :
    (run both now
      (record fresh { last_started_time = ((nrtm4_server, some "RIPE"), 4990) ∷ [] })).started
    ≡ (source_export, some "RIPE") ∷ (rpsl_mirror_import_update, some "ARIN") ∷ []
unfolding one_mirror
two_sources = refl

gone : (update_process_state (λ n. false) first_run).processes ≡ []
unfolding update_process_state one_mirror
gone = refl

run-Grows_example : (source : String) × Grows (AtMost source) fresh (run settings now fresh)
run-Grows_example = run-Grows now settings fresh refl
