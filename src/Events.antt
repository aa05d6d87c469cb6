-- ===== src/Events.antt =====
-- backend/app/services/event_generator.py: the occurrences of an event series on a date. Dates are days,
-- times hours since day 0; an error is `none`. The caller
-- commits. `events` are all rows of the table, the old and the new; `is_active` is always set and left out.
pub mod Slots
use seraphim.Common.{
  ℕ, ◌+◌, ◌-◌, ◌*◌, Bool, true, false, ◌&&◌, Option, none, some, List, [], ◌∷◌, ◌++◌, ◌==◌, any,
  length, if◌then◌else◌,
}
use seraphim.Common.Table.{Table, find}
use seraphim.Common.Text.{Text, codes, text_eq}

pub record EventSeries : Type 0 where
  pub title : Text
  pub event_type : Text
  pub default_location : Option Text

pub record Event : Type 0 where
  pub title : Text
  pub event_type : Text
  pub session_time : Text
  pub occurrence_date : ℕ
  pub recurring_series_id : ℕ
  pub start_at : ℕ
  pub location : Option Text

-- What `_check_existing_event` compares.
abbrev pub same_slot : ℕ → Text → Text → ℕ → Event → Bool
same_slot date event_type session series_id e =
    e.occurrence_date == date
    && text_eq e.event_type event_type
    && text_eq e.session_time session
    && e.recurring_series_id == series_id

abbrev pub check_existing_event : List Event → ℕ → Text → Text → ℕ → Bool
check_existing_event events date event_type session series_id =
    any (same_slot date event_type session series_id) events

abbrev pub new_event : ℕ → EventSeries → ℕ → ℕ → Text → Event
new_event series_id series date offset session = record {
  title = series.title ++ codes " — " ++ session;
  event_type = series.event_type;
  session_time = session;
  occurrence_date = date;
  recurring_series_id = series_id;
  start_at = date * 24 + offset;
  location = series.default_location;
}

-- The loop over the sessions, whose names differ, and its number of new events. Powerhouse has one session.
unfoldable pub generate_sessions :
    ℕ → EventSeries → ℕ → List (ℕ × Text) → List Event → ℕ × List Event
generate_sessions series_id series date [] events = (0, events)
generate_sessions series_id series date ((offset, session) ∷ rest) events =
    let exists = check_existing_event events date series.event_type session series_id in
    let (skipping, same) = generate_sessions series_id series date rest events in
    let (creating, more) =
      generate_sessions series_id series date rest
        (events ++ new_event series_id series date offset session ∷ []) in
    if exists then (skipping, same) else (creating + 1, more)

-- _SUNDAY_SESSIONS.
abbrev pub sunday_sessions : List (ℕ × Text)
sunday_sessions = (0, codes "8AM") ∷ (2, codes "10AM") ∷ (7, codes "3PM") ∷ []

abbrev pub powerhouse_sessions : List (ℕ × Text)
powerhouse_sessions = (13, codes "9PM") ∷ []

pub record Occurrence : Type 0 where
  pub created : ℕ
  pub skipped : ℕ
  pub events : List Event

abbrev pub occurrence : ℕ → EventSeries → ℕ → List (ℕ × Text) → List Event → Occurrence
occurrence series_id series date sessions events =
    let (created, after) = generate_sessions series_id series date sessions events in
    record { created = created; skipped = length sessions - created; events = after }

abbrev pub sessions_of : Text → Option (List (ℕ × Text))
sessions_of event_type =
    if text_eq event_type (codes "Sunday Celebration")
    then some sunday_sessions
    else if text_eq event_type (codes "Powerhouse")
    then some powerhouse_sessions
    else none

-- An event type without sessions is unsupported.
abbrev pub generate :
    ℕ → EventSeries → ℕ → Option (List (ℕ × Text)) → List Event → Option Occurrence
generate series_id series date none events = none
generate series_id series date (some sessions) events =
    some (occurrence series_id series date sessions events)

abbrev pub dispatch : ℕ → Option EventSeries → ℕ → List Event → Option Occurrence
dispatch series_id none date events = none
dispatch series_id (some series) date events =
    generate series_id series date (sessions_of series.event_type) events

unfoldable pub generate_series_occurrence :
    Table EventSeries → ℕ → ℕ → List Event → Option Occurrence
unfolding generate_sessions
generate_series_occurrence series series_id date events =
    dispatch series_id (find series_id series) date events
