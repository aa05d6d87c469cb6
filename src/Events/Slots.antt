-- ===== src/Events/Slots.antt =====
-- backend/app/services/event_generator.py: the slots that a generation fills.
use seraphim.Common.{
  ℕ, ◌+◌, ◌-◌, ◌≤◌, ◌≡◌, refl, sym, ap, subst, ◌∙◌, Bool, true, false, ◌&&◌, Option, none, some,
  List, [], ◌∷◌, ◌++◌, arith, any, any-append, count, count-snoc, length, Bool-cases, inl, inr,
}
use seraphim.Common.Table.{Table, find}
use seraphim.Common.Text.{Text, text_eq_refl, eq_of_text_eq}
use seraphim.Events.{
  EventSeries, Event, Occurrence, same_slot, check_existing_event, new_event, generate_sessions,
  occurrence, sessions_of, generate, dispatch, generate_series_occurrence,
}

-- No two events in one slot: a date, a type, a session and a series.
pub record Slots (events : List Event) : Type 0 where
  pub once : (d : ℕ) (t s : Text) (i : ℕ) → count (same_slot d t s i) events ≤ 1

module _ (series_id : ℕ) (series : EventSeries) (date : ℕ) where
  abbrev is_filled : List Event → Text → Bool
  is_filled events session = check_existing_event events date series.event_type session series_id

  abbrev all_filled : List (ℕ × Text) → List Event → Bool
  all_filled [] events = true
  all_filled ((offset, session) ∷ rest) events = is_filled events session && all_filled rest events

  fills :
      (offset : ℕ) (session : Text)
      → same_slot date series.event_type session series_id
          (new_event series_id series date offset session)
        ≡ true
  fills offset session = ground (arith, text_eq_refl series.event_type, text_eq_refl session)

  -- A filled slot stays filled.
  stays_filled :
      (sessions : List (ℕ × Text)) (events : List Event) (session : Text)
      → is_filled events session ≡ true
      → is_filled (generate_sessions series_id series date sessions events).1 session ≡ true
  unfolding generate_sessions
  stays_filled [] events session h = h
  stays_filled ((offset, s) ∷ rest) events session h =
      let e = new_event series_id series date offset s in
      let longer : is_filled (events ++ e ∷ []) session ≡ true = ground (
        arith,
        any-append (same_slot date series.event_type session series_id) events (e ∷ []),
        h,
      ) in
      elim (Bool-cases (is_filled events s)) [
        | inl there ↦ rw there (stays_filled rest events session h)
        | inr absent ↦ rw absent (stays_filled rest (events ++ e ∷ []) session longer)
      ]

  now_filled :
      (offset : ℕ) (session : Text) (events : List Event)
      → is_filled (events ++ new_event series_id series date offset session ∷ []) session ≡ true
  unfolding any
  now_filled offset session events =
      let e = new_event series_id series date offset session in
      ground (
        arith,
        any-append (same_slot date series.event_type session series_id) events (e ∷ []),
        fills offset session,
      )

  generate_sessions-all_filled :
      (sessions : List (ℕ × Text)) (events : List Event)
      → all_filled sessions (generate_sessions series_id series date sessions events).1 ≡ true
  unfolding generate_sessions
  generate_sessions-all_filled [] events = refl
  generate_sessions-all_filled ((offset, s) ∷ rest) events =
      let longer = events ++ new_event series_id series date offset s ∷ [] in
      elim (Bool-cases (is_filled events s)) [
        | inl there ↦
            rw there
              (rw (stays_filled rest events s there) (generate_sessions-all_filled rest events))
        | inr absent ↦ rw absent (
            rw (stays_filled rest longer s (now_filled offset s events))
              (generate_sessions-all_filled rest longer))
      ]

  nothing_to_fill :
      (sessions : List (ℕ × Text)) (events : List Event)
      → all_filled sessions events ≡ true
      → generate_sessions series_id series date sessions events ≡ (0, events)
  unfolding generate_sessions
  nothing_to_fill [] events h = refl
  nothing_to_fill ((offset, s) ∷ rest) events h =
      let there : is_filled events s ≡ true = ground (arith, h) in
      let others : all_filled rest events ≡ true = ground (arith, h) in
      rw there (rw (nothing_to_fill rest events others) refl)

  created_le :
      (sessions : List (ℕ × Text)) (events : List Event)
      → (generate_sessions series_id series date sessions events).0 ≤ length sessions
  unfolding generate_sessions
  created_le [] events = omega arith
  created_le ((offset, s) ∷ rest) events =
      let e = new_event series_id series date offset s in
      elim (Bool-cases (is_filled events s)) [
        | inl there ↦ rw there (omega (arith, created_le rest events))
        | inr absent ↦ rw absent (omega (arith, created_le rest (events ++ e ∷ [])))
      ]

  none_counted :
      (d : ℕ) (t s : Text) (i : ℕ) (events : List Event)
      → any (same_slot d t s i) events ≡ false
      → count (same_slot d t s i) events ≡ 0
  unfolding any count
  none_counted d t s i [] h = refl
  none_counted d t s i (e ∷ events) h = ground (arith, none_counted d t s i events)

  Slots-add :
      (offset : ℕ) (session : Text) (events : List Event)
      → is_filled events session ≡ false
      → Slots events
      → Slots (events ++ new_event series_id series date offset session ∷ [])
  Slots-add offset session events free h = record {
    once = λ d t s i.
        let e = new_event series_id series date offset session in
        elim (Bool-cases (same_slot d t s i e)) [
          | inr other ↦
              ground (arith, count-snoc (same_slot d t s i) events e, other, h.once d t s i)
          | inl same ↦
              (let same_type : series.event_type ≡ t =
                  eq_of_text_eq series.event_type t (ground (arith, same)) in
                let same_session : session ≡ s = eq_of_text_eq session s (ground (arith, same)) in
                let empty_slot =
                  none_counted date series.event_type session series_id events free in
                ground (
                  arith,
                  count-snoc (same_slot d t s i) events e,
                  same,
                  same_type,
                  same_session,
                  empty_slot,
                ))
        ];
  }

  generate_sessions-Slots :
      (sessions : List (ℕ × Text)) (events : List Event)
      → Slots events
      → Slots (generate_sessions series_id series date sessions events).1
  unfolding generate_sessions
  generate_sessions-Slots [] events h = h
  generate_sessions-Slots ((offset, s) ∷ rest) events h = elim (Bool-cases (is_filled events s)) [
    | inl there ↦ rw there (generate_sessions-Slots rest events h)
    | inr absent ↦ rw absent (generate_sessions-Slots rest _ (Slots-add offset s events absent h))
  ]

  again_nothing :
      (sessions : List (ℕ × Text)) (events : List Event) (o : Occurrence)
      → occurrence series_id series date sessions events ≡ o
      → occurrence series_id series date sessions o.events
        ≡ record { created = 0; skipped = o.created + o.skipped; events = o.events }
  again_nothing sessions events o same =
      let after = (generate_sessions series_id series date sessions events).1 in
      let settled = nothing_to_fill sessions after (generate_sessions-all_filled sessions events) in
      let created = (generate_sessions series_id series date sessions events).0 in
      let rerun : ℕ → Occurrence = λ n. record { created = 0; skipped = n; events = after } in
      let bound : created ≤ length sessions = created_le sessions events in
      let counted : length sessions - 0 ≡ created + (length sessions - created) =
        omega (arith, bound) in
      subst
        (λ p.
          occurrence series_id series date sessions p.events
          ≡ record { created = 0; skipped = p.created + p.skipped; events = p.events })
        same (rw settled (ap rerun counted))

abbrev Run : ℕ → EventSeries → ℕ → Option (List (ℕ × Text)) → List Event → Occurrence → Type 0
Run series_id series date planned events o =
    (sessions : List (ℕ × Text)) × (planned ≡ some sessions)
    × (occurrence series_id series date sessions events ≡ o)

ran :
    (series_id : ℕ) (series : EventSeries) (date : ℕ) (planned : Option (List (ℕ × Text)))
    (events : List Event) (o : Occurrence)
    → generate series_id series date planned events ≡ some o
    → Run series_id series date planned events o
ran series_id series date none events o h = absurd (cc h)
ran series_id series date (some sessions) events o h = (sessions, refl, cc h)

-- The series and the sessions of a successful run.
dispatched :
    (series_id date : ℕ) (row : Option EventSeries) (events : List Event) (o : Occurrence)
    → dispatch series_id row date events ≡ some o
    → (series : EventSeries) × (row ≡ some series)
      × Run series_id series date (sessions_of series.event_type) events o
dispatched series_id date none events o h = absurd (cc h)
dispatched series_id date (some series) events o h =
    (series, refl, ran series_id series date (sessions_of series.event_type) events o h)

again :
    (series_id date : ℕ) (row : Option EventSeries) (series : EventSeries)
    (sessions : List (ℕ × Text)) (events : List Event)
    → row ≡ some series
    → sessions_of series.event_type ≡ some sessions
    → dispatch series_id row date events ≡ some (occurrence series_id series date sessions events)
again series_id date row series sessions events found supported =
    rw found (ap (λ planned. generate series_id series date planned events) supported)

module _ (table : Table EventSeries) (series_id date : ℕ) (events : List Event)
    (o : Occurrence) where
  -- Running a generation again creates nothing: it skips the slots that the first run created or skipped.
  pub generate_series_occurrence-twice :
      generate_series_occurrence table series_id date events ≡ some o
      → generate_series_occurrence table series_id date o.events
        ≡ some (record { created = 0; skipped = o.created + o.skipped; events = o.events })
  unfolding generate_series_occurrence
  generate_series_occurrence-twice h =
      let (series, found, run) = dispatched series_id date (find series_id table) events o h in
      let (sessions, supported, same) = run in
      again series_id date (find series_id table) series sessions o.events found supported
      ∙ ap some (again_nothing series_id series date sessions events o same)

  -- A generation keeps at most one event in each slot of a date, a type, a session and a series.
  pub generate_series_occurrence-Slots :
      Slots events
      → generate_series_occurrence table series_id date events ≡ some o
      → Slots o.events
  unfolding generate_series_occurrence
  generate_series_occurrence-Slots free h =
      let (series, found, run) = dispatched series_id date (find series_id table) events o h in
      let (sessions, supported, same) = run in
      rw (sym same) (generate_sessions-Slots series_id series date sessions events free)
