-- ===== src/NrtmGenerator/Examples.antt =====
-- Tests of the NRTM generator, and its theorem at concrete data.
use irrd.Base.{ℕ, String, ◌≡◌, refl, true, Option, none, some, List, [], ◌∷◌}
use irrd.Conf.{SourceSettings, bare_source}
use irrd.NrtmGenerator.{
  JournalEntry, Update, Answer, updates, failed, no_newer_updates, start_after_end,
  days_limit_exceeded, answer_range, check_days, generate,
}
use irrd.NrtmGenerator.Laws.{Answers, available, generate-Answers}

abbrev entry : ℕ → String → JournalEntry
entry serial operation = record {
  serial_nrtm = serial;
  operation = operation;
  object_class = "route";
  rpsl_pk = "192.0.2.0/24AS64496";
  object_text = "route: 192.0.2.0/24";
  timestamp = 0;
}

abbrev journal : List JournalEntry
journal = entry 11 "ADD" ∷ entry 12 "DEL" ∷ entry 13 "ADD" ∷ []

abbrev settings : SourceSettings
settings = record bare_source {
  keep_journal = true;
  nrtm_query_serial_range_limit = some 5;
  nrtm_query_serial_days_limit = some 1;
}

abbrev keep : String → String
keep text = text

abbrev plain : JournalEntry → String → String
plain e text = text

abbrev asked : ℕ → Option ℕ → ℕ → Answer
asked start end now =
    generate keep plain settings "3" start end (some (available keep plain 11 13)) journal now true
      true

abbrev shown : ℕ → String → Update
shown serial operation = record {
  operation = operation;
  shown_serial = some serial;
  text = "route: 192.0.2.0/24";
}

last_two : asked 12 none 0 ≡ updates none 12 13 (shown 12 "DEL" ∷ shown 13 "ADD" ∷ [])
unfolding generate answer_range check_days
last_two = refl

up_to_date : asked 14 none 0 ≡ no_newer_updates
unfolding last_two
up_to_date = refl

too_old : asked 12 none 86400000001 ≡ failed days_limit_exceeded
unfolding last_two
too_old = refl

wrong_order : asked 12 (some 11) 0 ≡ failed start_after_end
unfolding last_two
wrong_order = refl

generate-Answers_example : Answers keep plain "3" 12 none 11 13 journal true true (asked 12 none 0)
generate-Answers_example =
    generate-Answers keep plain settings "3" 12 none 11 13 journal 0 true true refl

-- An end of 0 is taken for no end by the check of the order, and the answer is for an empty range.
end_zero : asked 12 (some 0) 0 ≡ updates none 12 0 []
unfolding last_two
end_zero = refl
