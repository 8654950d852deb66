-- ===== src/NrtmGenerator.antt =====
-- irrd/mirroring/nrtm_generator.py: the answer to a query for the changes of a source in NRTM version 1 or 3.
pub mod Laws
mod Examples
use irrd.Base.{
  ℕ, suc, ◌+◌, ◌-◌, ◌*◌, String, Bool, true, false, not, ◌&&◌, ◌||◌, Option, none, some, List, [],
  ◌∷◌, filter, map, leb, ltb, eqb, ◌==◌, string_eq, if◌then◌else◌,
}
use irrd.Conf.{SourceSettings}

-- The times are in microseconds.
pub record JournalEntry : Type 0 where
  pub serial_nrtm : ℕ
  pub operation : String
  pub object_class : String
  pub rpsl_pk : String
  pub object_text : String
  pub timestamp : ℕ

pub record DatabaseStatus : Type 0 where
  pub serial_oldest_journal : Option ℕ
  pub serial_newest_journal : Option ℕ

-- The cases of `NRTMGeneratorException`
pub data GeneratorError : Type 0 where
  no_journal_kept no_journal_entries start_after_end range_too_large no_entries_from
        days_limit_exceeded :
      GeneratorError
  serials_do_not_exist : ℕ → ℕ → GeneratorError

-- One operation of the answer; the serial is shown in version 3 only.
pub record Update : Type 0 where
  pub operation : String
  pub shown_serial : Option ℕ
  pub text : String

-- An answer by its parts, which the source joins to one text: a warning, or the optional header of the
-- settings, the serials of the `%START` line, and the operations.
pub data Answer : Type 0 where
  failed : GeneratorError → Answer
  no_updates no_newer_updates : Answer
  updates : Option String → ℕ → ℕ → List Update → Answer

-- `serial_nrtm_range(start, end)`
abbrev pub in_serial_range : ℕ → Option ℕ → JournalEntry → Bool
in_serial_range start none e = leb start e.serial_nrtm
in_serial_range start (some end) e = leb start e.serial_nrtm && leb e.serial_nrtm end

abbrev pub set_and : Option ℕ → (ℕ → Bool) → Bool
set_and none p = false
set_and (some n) p = not (eqb n 0) && p n

abbrev pub microseconds_per_day : ℕ
microseconds_per_day = 86400000000

abbrev pub or_newest : Option ℕ → ℕ → ℕ
or_newest none newest = newest
or_newest (some end) newest = end

module _ (remove_auth_hashes : String → String) (dummify : JournalEntry → String → String) where
  abbrev pub update_of : Bool → Bool → Bool → JournalEntry → Update
  update_of version3 remove exempt e =
      let text = if remove then remove_auth_hashes e.object_text else e.object_text in
      record {
        operation = e.operation;
        shown_serial = if version3 then some e.serial_nrtm else none;
        text = if exempt then text else dummify e text;
      }

  -- The journal is the rows of the source in the order of their serials.
  unfoldable pub answer_range :
      SourceSettings → String → ℕ → Option ℕ → ℕ → List JournalEntry → Bool → Bool → Answer
  answer_range c version start end newest journal remove exempt =
      updates c.nrtm_response_header start (or_newest end newest) (
        map (update_of (version == "3") remove exempt) (filter (in_serial_range start end) journal))

  -- The check of the age of the first change that was asked for
  unfoldable pub check_days : SourceSettings → ℕ → List JournalEntry → ℕ → Option GeneratorError
  check_days c start journal now =
      if not (set_and c.nrtm_query_serial_days_limit (λ _. true))
      then none
      else (elim (filter (in_serial_range start none) journal) [
        | [] ↦ some no_entries_from
        | e ∷ _ ↦
            if set_and c.nrtm_query_serial_days_limit
              (λ d. ltb (d * microseconds_per_day) (now - e.timestamp))
            then some days_limit_exceeded
            else none
      ])

  -- Whether the requested end is available: an error, or the warning that there is nothing newer
  abbrev pub check_end : ℕ → Option ℕ → ℕ → Option Answer
  check_end start (some end) newest =
      if ltb newest end then some (failed (serials_do_not_exist newest end)) else none
  check_end start none newest =
      if eqb start (suc newest)
      then some no_newer_updates
      else if ltb newest start
      then some (failed (serials_do_not_exist newest start))
      else none

  abbrev pub check_range : SourceSettings → ℕ → ℕ → Bool
  check_range c start display =
      set_and c.nrtm_query_serial_range_limit (λ limit. ltb limit (display - start))

  abbrev pub answer_limited :
      SourceSettings → String → ℕ → Option ℕ → ℕ → List JournalEntry → ℕ → Bool → Bool → Answer
  answer_limited c version start end newest journal now remove exempt =
      if check_range c start (or_newest end newest)
      then failed range_too_large
      else (elim (check_days c start journal now) [
        | some e ↦ failed e
        | none ↦ answer_range c version start end newest journal remove exempt
      ])

  abbrev pub answer_available :
      SourceSettings
      → String
      → ℕ
      → Option ℕ
      → DatabaseStatus
      → List JournalEntry
      → ℕ
      → Bool
      → Bool
      → Answer
  answer_available c version start end status journal now remove exempt =
      elim status.serial_oldest_journal [
        | none ↦ no_updates
        | some oldest ↦ elim status.serial_newest_journal [
          | none ↦ no_updates
          | some newest ↦
              if ltb start oldest
              then failed (serials_do_not_exist start oldest)
              else (elim (check_end start end newest) [
                | some answer ↦ answer
                | none ↦ answer_limited c version start end newest journal now remove exempt
              ])
        ]
      ]

  unfoldable pub generate :
      SourceSettings
      → String
      → ℕ
      → Option ℕ
      → Option DatabaseStatus
      → List JournalEntry
      → ℕ
      → Bool
      → Bool
      → Answer
  generate c version start end status journal now remove exempt =
      if not c.keep_journal then failed no_journal_kept else (elim status [
        | none ↦ failed no_journal_entries
        | some s ↦
            if set_and end (λ e. ltb e start)
            then failed start_after_end
            else answer_available c version start end s journal now remove exempt
      ])
