-- ===== src/Tests/People.antt =====
-- Names and the status of members.
use seraphim.Common.{
  ℕ, ◌≡◌, ◌≤◌, refl, true, false, none, List, [], ◌∷◌, count, any, where_, if◌then◌else◌,
}
use seraphim.Common.Table.{Table}
use seraphim.Common.Text.{Text, codes, text_eq, starts_with, split}
use seraphim.Models.{Participant, ParticipantStatus, Source}
use seraphim.NameMatch.{
  Method, NamedContact, MatchCandidate, sort, insert, decide, score_rows, best_score,
}
use seraphim.NameMatch.Lookup.{Queueing, min_score, fetched, lookup_deterministic, match_name}
use seraphim.NameMatch.Ambiguity.{is_close, lookup_deterministic-ahead}
use seraphim.NameMatch.Outcomes.{is_right, match_name-right}
use seraphim.Members.{Member}

abbrev same_text : Text → Text → ℕ
same_text s t = if text_eq s t then 1000000 else 0

abbrev named : ℕ → Text → Text → NamedContact
named id first last = record {
  contact_id = id;
  first_name = first;
  last_name = last;
  nickname = none;
  is_deleted = false;
}

abbrev contacts : List NamedContact
contacts = named 7 (codes "grace") (codes "cruz") ∷ named 8 (codes "ana") (codes "cruz") ∷ []

abbrev grace_cruz : MatchCandidate
grace_cruz = record { contact_id = 7; score = 1000000; method = Method.fuzzy_forward }

only_grace : lookup_deterministic same_text (codes "grace cruz") contacts ≡ grace_cruz ∷ []
unfolding lookup_deterministic fetched score_rows best_score sort insert decide text_eq where_ split
    starts_with any
only_grace = refl

lookup_deterministic-ahead_example :
    (min_score ≤ 1000000)
    × (count (is_close 1000000) (
          score_rows same_text min_score
            (codes "grace cruz")
            (fetched (codes "grace cruz") contacts))
        ≡ 1)
lookup_deterministic-ahead_example =
    lookup_deterministic-ahead same_text (codes "grace cruz") contacts grace_cruz only_grace

abbrev queueing : Queueing
queueing = record { auto_enqueue = true; insert_works = false }

match_name-right_example :
    is_right contacts queueing (match_name same_text none queueing (codes "bea") [] contacts) ≡ true
match_name-right_example = match_name-right same_text none queueing (codes "bea") [] contacts

abbrev fields : List Text
fields = codes "community" ∷ []

abbrev ana : Member
ana = record {
  is_individual = true;
  is_deleted = false;
  custom_data = (codes "community", true) ∷ [];
  status = record {
    last_attended_at = none;
    attendance_count = 0;
    weeks_absent = none;
    tier = none;
    is_active = none;
    is_regular = false;
    is_connected = false;
  };
}

abbrev came : Participant
came = record {
  contact_id = 8;
  event_id = 5;
  detection_id = none;
  status = ParticipantStatus.attended;
  source = Source.manual;
}

abbrev services : Table ℕ
services = (5, 1000000) ∷ []
