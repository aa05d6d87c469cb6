-- ===== src/Tests/Series.antt =====
-- The occurrences of a series.
use seraphim.Common.{◌≡◌, refl, none, some, List, [], ◌∷◌, ◌++◌, arith, count, any}
use seraphim.Common.Table.{Table, find}
use seraphim.Common.Text.{codes, text_eq}
use seraphim.Events.{
  Event, EventSeries, Occurrence, new_event, generate_sessions, generate_series_occurrence,
}
use seraphim.Events.Slots.{
  Slots, generate_series_occurrence-twice, generate_series_occurrence-Slots,
}

abbrev sunday : EventSeries
sunday = record {
  title = codes "Sunday";
  event_type = codes "Sunday Celebration";
  default_location = none;
}

abbrev series_table : Table EventSeries
series_table = (4, sunday) ∷ []

-- The 10AM session exists.
abbrev before : List Event
before = new_event 4 sunday 9 2 (codes "10AM") ∷ []

abbrev first_run : Occurrence
first_run = record {
  created = 2;
  skipped = 1;
  events =
      before ++ new_event 4 sunday 9 0 (codes "8AM") ∷ new_event 4 sunday 9 7 (codes "3PM") ∷ [];
}

runs : generate_series_occurrence series_table 4 9 before ≡ some first_run
unfolding generate_series_occurrence generate_sessions text_eq any find
runs = refl

missing_series : generate_series_occurrence series_table 5 9 before ≡ none
unfolding generate_series_occurrence find
missing_series = refl

generate_series_occurrence-twice_example :
    generate_series_occurrence series_table 4 9 first_run.events
    ≡ some (record { created = 0; skipped = 3; events = first_run.events })
generate_series_occurrence-twice_example =
    generate_series_occurrence-twice series_table 4 9 before first_run runs

before-Slots : Slots before
unfolding count
before-Slots = record { once = λ d t s i. ground arith }

generate_series_occurrence-Slots_example : Slots first_run.events
generate_series_occurrence-Slots_example =
    generate_series_occurrence-Slots series_table 4 9 before first_run before-Slots runs
