-- ===== src/NrtmGenerator/Laws.antt =====
-- Which operations an answer of `NRTMGenerator.generate` holds.
use irrd.Base.{
  ℕ, suc, ◌≤◌, String, ◌≡◌, refl, ap, inl, inr, Bool, true, ◌&&◌, Option, none, some, List, [], ◌∷◌,
  all, filter, map, leb, ltb, eqb, ◌==◌, string_eq, arith, Bool-cases, Option-cases,
}
use irrd.Conf.{SourceSettings}
use irrd.NrtmGenerator.{
  JournalEntry, DatabaseStatus, Update, Answer, updates, failed, no_updates, no_newer_updates,
  in_serial_range, set_and, or_newest, update_of, answer_range, check_days, check_range,
  answer_limited, answer_available, generate,
}

abbrev pub up_to : ℕ → JournalEntry → Bool
up_to newest e = leb e.serial_nrtm newest

abbrev pub within : ℕ → ℕ → JournalEntry → Bool
within start end e = leb start e.serial_nrtm && leb e.serial_nrtm end

filter-within :
    (start : ℕ) (end : Option ℕ) (newest : ℕ) (journal : List JournalEntry)
    → all (up_to newest) journal ≡ true
    → filter (in_serial_range start end) journal
      ≡ filter (within start (or_newest end newest)) journal
filter-within start end newest [] h = refl
filter-within start none newest (e ∷ journal) h =
    ground (arith, filter-within start none newest journal)
filter-within start (some end) newest (e ∷ journal) h =
    ground (arith, filter-within start (some end) newest journal)

module _ (remove_auth_hashes : String → String) (dummify : JournalEntry → String → String) where
  abbrev pub render : String → Bool → Bool → JournalEntry → Update
  render version remove exempt e =
      update_of remove_auth_hashes dummify (version == "3") remove exempt e

  abbrev pub available : ℕ → ℕ → DatabaseStatus
  available oldest newest = record {
    serial_oldest_journal = some oldest;
    serial_newest_journal = some newest;
  }

  -- What an answer with operations says of the query and the journal
  abbrev pub Answers :
      String → ℕ → Option ℕ → ℕ → ℕ → List JournalEntry → Bool → Bool → Answer → Type 0
  Answers version start end oldest newest journal remove exempt (failed e) = Unit
  Answers version start end oldest newest journal remove exempt no_updates = Unit
  Answers version start end oldest newest journal remove exempt no_newer_updates =
      (end ≡ none) × (start ≡ suc newest)
  Answers version start end oldest newest journal remove exempt (updates header from to ops) =
      (oldest ≤ start)
      × (to ≤ newest)
      × (from ≡ start)
      × (to ≡ or_newest end newest)
      × (ops ≡ map (render version remove exempt) (filter (within from to) journal))

  limited-Answers :
      (c : SourceSettings) (version : String) (start : ℕ) (end : Option ℕ) (oldest newest : ℕ)
      (journal : List JournalEntry) (now : ℕ) (remove exempt : Bool)
      → all (up_to newest) journal ≡ true
      → oldest ≤ start
      → or_newest end newest ≤ newest
      → Answers version start end oldest newest journal remove exempt (
          answer_limited remove_auth_hashes dummify c version start end newest journal now remove
            exempt)
  unfolding answer_range
  limited-Answers c version start end oldest newest journal now remove exempt h low high =
      elim (Bool-cases (check_range remove_auth_hashes dummify c start (or_newest end newest))) [
        | inl e ↦ rw (e) tt
        | inr e ↦ elim (Option-cases (check_days remove_auth_hashes dummify c start journal now)) [
          | inl d ↦
              rw (e, d)
                (
                  low,
                  high,
                  refl,
                  refl,
                  ap (map (render version remove exempt))
                      (filter-within start end newest journal h),
                )
          | inr (err, d) ↦ rw (e, d) tt
        ]
      ]

  available-Answers :
      (c : SourceSettings) (version : String) (start : ℕ) (end : Option ℕ) (oldest newest : ℕ)
      (journal : List JournalEntry) (now : ℕ) (remove exempt : Bool)
      → all (up_to newest) journal ≡ true
      → Answers version start end oldest newest journal remove exempt (
          answer_available remove_auth_hashes dummify c version start end
            (available oldest newest)
            journal
            now
            remove
            exempt)
  available-Answers c version start none oldest newest journal now remove exempt h =
      elim (Bool-cases (ltb start oldest)) [
        | inl e ↦ rw (e) tt
        | inr e ↦ elim (Bool-cases (eqb start (suc newest))) [
          | inl k ↦ rw (e, k) (refl, ground arith)
          | inr k ↦ elim (Bool-cases (ltb newest start)) [
            | inl l ↦ rw (e, k, l) tt
            | inr l ↦
                rw (e, k, l)
                  (limited-Answers c version start none oldest newest journal now remove exempt h
                    (ground arith) (ground arith))
          ]
        ]
      ]
  available-Answers c version start (some end) oldest newest journal now remove exempt h =
      elim (Bool-cases (ltb start oldest)) [
        | inl e ↦ rw (e) tt
        | inr e ↦ elim (Bool-cases (ltb newest end)) [
          | inl k ↦ rw (e, k) tt
          | inr k ↦
              rw (e, k)
                (limited-Answers c version start (some end) oldest newest journal now remove exempt
                  h (ground arith) (ground arith))
        ]
      ]

  -- Where the journal holds no serial above the newest one of the status, an answer with operations is for serials that
  -- are available, from the requested start to the requested end, or to the newest serial if none was
  -- requested, and holds, in the order of the journal, exactly the operations whose serials lie
  -- between these two. The answer that there is nothing newer is for a query without an end that starts right after
  -- the newest serial.
  pub generate-Answers :
      (c : SourceSettings) (version : String) (start : ℕ) (end : Option ℕ) (oldest newest : ℕ)
      (journal : List JournalEntry) (now : ℕ) (remove exempt : Bool)
      → all (up_to newest) journal ≡ true
      → Answers version start end oldest newest journal remove exempt (
          generate remove_auth_hashes dummify c version start end
            (some (available oldest newest))
            journal
            now
            remove
            exempt)
  unfolding generate
  generate-Answers c version start end oldest newest journal now remove exempt h =
      elim (Bool-cases c.keep_journal) [
        | inl k ↦ elim (Bool-cases (set_and end (λ e. ltb e start))) [
          | inl e ↦ rw (k, e) tt
          | inr e ↦
              rw (k, e)
                (available-Answers c version start end oldest newest journal now remove exempt h)
        ]
        | inr k ↦ rw (k) tt
      ]
