-- ===== src/Scheduler.antt =====
-- irrd/mirroring/scheduler.py: `MirrorScheduler`, which starts the periodic processes.
pub mod Laws
pub mod Run
mod Examples
use irrd.Base.{
  ℕ, zero, suc, ◌+◌, ◌*◌, ◌/◌, String, Bool, true, false, not, ◌&&◌, ◌||◌, Option, none, some, List,
  [], ◌∷◌, ◌++◌, all, any, is_nil, contains, filter, map, lookup, insert, add, remove, ltb, leb,
  eqb, ◌==◌, string_eq, option_eq, list_eq, nat_eq, PyEq, beq_iff, ◌↔◌, ◌≡◌, arith, if◌then◌else◌,
}
use irrd.Conf.{SourceSettings, Sources}

pub data RunnerClass : Type 0 where
  roa_import route_preference_update scope_filter_update rpsl_mirror_import_update : RunnerClass
  source_export nrtm4_server : RunnerClass

abbrev pub runner_number : RunnerClass → ℕ
runner_number roa_import = 0
runner_number route_preference_update = 1
runner_number scope_filter_update = 2
runner_number rpsl_mirror_import_update = 3
runner_number source_export = 4
runner_number nrtm4_server = 5

-- `f"{runner_class.__name__}-{source}"`, or the name of the class alone
abbrev pub ProcessName : Type 0
ProcessName = RunnerClass × Option String

abbrev pub name_beq : ProcessName → ProcessName → Bool
name_beq (c, s) (d, t) = eqb (runner_number c) (runner_number d) && s == t

pub runner_number-inj : (c d : RunnerClass) → runner_number c ≡ runner_number d → c ≡ d
runner_number-inj c d h = ground arith

pub name_beq_iff : (a b : ProcessName) → (name_beq a b ≡ true) ↔ (a ≡ b)
name_beq_iff (c, s) (d, t) = ground (arith, runner_number-inj c d, beq_iff s t)

instance abbrev pub name_eq : PyEq ProcessName
name_eq = record { same = name_beq; agrees = name_beq_iff }

-- `previous_scopefilter_*`: the prefixes, the AS numbers and the names of the excluded sources, the last as a set
pub record ScopeFilterSettings : Type 0 where
  pub prefixes : List String
  pub asns : List String
  pub excluded : List String

pub record Scheduler : Type 0 where
  pub processes : List ProcessName
  pub last_started_time : List (ProcessName × ℕ)
  pub previous_scopefilter : Option ScopeFilterSettings
  -- What `process.start()` was called for, in this order
  pub started : List ProcessName

-- Times are in microseconds since the epoch; timers and the recorded times are in seconds.
abbrev pub second : ℕ
second = 1000000

abbrev pub last_time : Scheduler → ProcessName → ℕ
last_time s name = elim (lookup name s.last_started_time) [ none ↦ 0 | some t ↦ t ]

abbrev pub has_expired : Scheduler → ProcessName → ℕ → ℕ → Bool
has_expired s name timer now = ltb ((last_time s name + timer) * second) now

abbrev pub start : ProcessName → ℕ → Scheduler → Scheduler
start name now s = record s {
  processes = add name s.processes;
  last_started_time = insert name (now / second) s.last_started_time;
  started = s.started ++ name ∷ [];
}

unfoldable pub run_if_relevant :
    Option String → RunnerClass → ℕ → Bool → ℕ → Scheduler → Scheduler × Bool
run_if_relevant source runner_class timer allow_multiple now s =
    let name : ProcessName = (runner_class, source) in
    if not (has_expired s name timer now) || (contains s.processes name && not allow_multiple)
    then (s, false)
    else (start name now s, true)

-- Sets are compared by their elements.
abbrev pub same_set : List String → List String → Bool
same_set xs ys = all (contains ys) xs && all (contains xs) ys

abbrev pub same_settings : Option ScopeFilterSettings → ScopeFilterSettings → Bool
same_settings none current = false
same_settings (some previous) current =
    (previous.prefixes == current.prefixes && previous.asns == current.asns)
    && same_set previous.excluded current.excluded

-- The settings that a run reads; `scope_filter` is `none` where the setting `scopefilter` is not set.
pub record SchedulerSettings : Type 0 where
  pub readonly_standby : Bool
  pub roa_import_timer : Option ℕ
  pub route_preference_timer : ℕ
  pub scope_filter : Option (List String × List String)
  pub sources : Sources

abbrev pub name_of : String × SourceSettings → String
name_of (name, _) = name

abbrev pub is_excluded : String × SourceSettings → Bool
is_excluded (_, settings) = settings.scopefilter_excluded

unfoldable pub check_scopefilter_change : SchedulerSettings → Scheduler → Scheduler × Bool
check_scopefilter_change c s = elim c.scope_filter [
  | none ↦ (s, false)
  | some (prefixes, asns) ↦
      let current : ScopeFilterSettings = record {
        prefixes = prefixes;
        asns = asns;
        excluded = map name_of (filter is_excluded c.sources);
      } in
      if same_settings s.previous_scopefilter current
      then (s, false)
      else (record s { previous_scopefilter = some current }, true)
]

abbrev pub or_default : Option ℕ → ℕ → ℕ
or_default none default = default
or_default (some timer) default = timer

abbrev pub default_import_timer : SourceSettings → ℕ
default_import_timer c = if c.has_nrtm4_initial_public_key then 60 else 300

abbrev pub run_if :
    Bool → Option String → RunnerClass → ℕ → Bool → ℕ → Scheduler → Bool → Scheduler × Bool
run_if asked source runner_class timer allow_multiple now s otherwise =
    if asked then run_if_relevant source runner_class timer allow_multiple now s else (s, otherwise)

-- The body of the loop over the sources. The start of the NRTMv4 server replaces what is known of the export.
unfoldable pub run_source : ℕ → String → SourceSettings → Scheduler → Scheduler × Bool
run_source now source c s =
    let import_timer = or_default c.import_timer (default_import_timer c) in
    let (s1, started_import) =
      run_if c.is_mirror (some source) rpsl_mirror_import_update import_timer false now s false in
    let (s2, started_export) =
      run_if c.runs_rpsl_export (some source) source_export (or_default c.export_timer 3600) false
        now s1 false in
    let (s3, started_server) =
      run_if c.runs_nrtm4_server (some source) nrtm4_server 60 true now s2 started_export in
    (s3, started_import || started_server)

abbrev pub max_simultaneous_runs : ℕ
max_simultaneous_runs = 1

unfoldable pub run_sources : ℕ → ℕ → Sources → Scheduler → Scheduler
run_sources now sources_started [] s = s
run_sources now sources_started ((source, c) ∷ sources) s =
    let (s', started) = run_source now source c s in
    let rest =
      run_sources now (if started then suc sources_started else sources_started) sources s' in
    if leb max_simultaneous_runs sources_started then s else rest

abbrev pub has_preference : String × SourceSettings → Bool
has_preference (_, c) = not (eqb (or_default c.route_object_preference 0) 0)

abbrev pub run_scope_filter : ℕ → Scheduler × Bool → Scheduler
run_scope_filter now (s, false) = s
run_scope_filter now (s, true) = (run_if_relevant none scope_filter_update 0 false now s).0

abbrev pub run_roa_import : Option ℕ → ℕ → Scheduler → Scheduler
run_roa_import none now s = s
run_roa_import (some timer) now s = (run_if_relevant none roa_import timer false now s).0

-- On a read-only standby, only the signal of a reload is sent, which keeps no state here.
unfoldable pub run : SchedulerSettings → ℕ → Scheduler → Scheduler
run c now s =
    if c.readonly_standby
    then s
    else let s1 = run_roa_import c.roa_import_timer now s in
      let s2 =
        (run_if (any has_preference c.sources) none route_preference_update c.route_preference_timer
          false now s1 false).0 in
      run_sources now 0 c.sources (run_scope_filter now (check_scopefilter_change c s2))

-- The processes that are not alive any more are closed and forgotten.
unfoldable pub update_process_state : (ProcessName → Bool) → Scheduler → Scheduler
update_process_state is_alive s = record s { processes = filter is_alive s.processes }
