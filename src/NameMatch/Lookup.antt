-- ===== src/NameMatch/Lookup.antt =====
-- The stages of name_match.py: alias, fuzzy, Claude, and `match_name`, which runs them in order.
use seraphim.Common.{
  ℕ, Bool, not, ◌&&◌, Option, none, some, List, [], ◌∷◌, ◌==◌, take, where_, any, if◌then◌else◌,
}
use seraphim.Common.Text.{Text, text_eq, is_empty, starts_with}
use seraphim.NameMatch.{
  Method, Outcome, NamedContact, MatchCandidate, NameAlias, QueueRow, NameMatchResult, tokens,
  score_rows, sort, decide,
}

-- WHERE NOT is_deleted AND LOWER(name) LIKE 'prefix%' LIMIT 200, for a prefix without wildcards.
abbrev pub prefix_rows : (NamedContact → Text) → Text → List NamedContact → List NamedContact
prefix_rows name prefix contacts =
    take 200
      (where_ (λ (c : NamedContact). not c.is_deleted && starts_with prefix (name c)) contacts)

abbrev pub last_token : Text → List Text → Text
last_token first [] = first
last_token first (t ∷ rest) = last_token t rest

abbrev pub unless_found : List NamedContact → List NamedContact → List NamedContact
unless_found [] more = more
unless_found (c ∷ found) more = c ∷ found

-- By the last token as surname, then by the first one, then by the first one as first name. With one
-- token the second query asks for the prefix of the first.
abbrev pub fetch : List Text → List NamedContact → List NamedContact
fetch [] contacts = []
fetch (first ∷ rest) contacts =
    let prefix = take 3 (last_token first rest) in
    let first_prefix = take 3 first in
    let by_last = prefix_rows (λ c. c.last_name) prefix contacts in
    if text_eq first_prefix prefix
    then by_last
    else unless_found by_last (
        unless_found (prefix_rows (λ c. c.last_name) first_prefix contacts)
          (prefix_rows (λ c. c.first_name) first_prefix contacts))

abbrev pub min_score : ℕ
min_score = 880000

unfoldable pub fetched : Text → List NamedContact → List NamedContact
fetched normalized contacts = fetch (tokens normalized) contacts

unfoldable pub lookup_deterministic :
    (Text → Text → ℕ) → Text → List NamedContact → List MatchCandidate
unfolding fetched
lookup_deterministic similarity normalized contacts =
    decide min_score
      (sort (score_rows similarity min_score normalized (fetched normalized contacts)))

abbrev pub live_contact : ℕ → NamedContact → Bool
live_contact id c = c.contact_id == id && not c.is_deleted

-- The alias with a contact that is not deleted. No alias is empty.
unfoldable pub lookup_alias : Text → List NameAlias → List NamedContact → Option MatchCandidate
lookup_alias normalized [] contacts = none
lookup_alias normalized (a ∷ aliases) contacts =
    let rest = lookup_alias normalized aliases contacts in
    if not (is_empty normalized)
      && text_eq a.alias_text normalized
      && any (live_contact a.contact_id) contacts
    then some (record { contact_id = a.contact_id; score = 1000000; method = Method.alias })
    else rest

-- `answer`: the contact id in Claude's answer, `none` where the gate is shut, the call or the parse
-- failed, or the answer has none. An id that is no candidate's is dropped.
unfoldable pub lookup_claude : Option ℕ → List MatchCandidate → Option MatchCandidate
lookup_claude none candidates = none
lookup_claude (some id) [] = none
lookup_claude (some id) (c ∷ candidates) =
    let rest = lookup_claude (some id) candidates in
    if c.contact_id == id then some (record c { method = Method.claude }) else rest

abbrev pub found : MatchCandidate → List MatchCandidate → NameMatchResult
found c candidates = record {
  outcome = Outcome.single;
  contact_id = some c.contact_id;
  score = some c.score;
  method = some c.method;
  candidates = candidates;
}

abbrev pub not_found : Outcome → Option ℕ → List MatchCandidate → NameMatchResult
not_found outcome score candidates = record {
  outcome = outcome;
  contact_id = none;
  score = score;
  method = none;
  candidates = candidates;
}

-- Whether the caller asks for a row in the review queue, and whether the database takes the insert.
pub record Queueing : Type 0 where
  pub auto_enqueue : Bool
  pub insert_works : Bool

-- The row of `_enqueue_review` carries the first candidate.
abbrev queue_row : List MatchCandidate → QueueRow
queue_row [] = record { candidate_contact_id = none; score = none }
queue_row (c ∷ candidates) = record {
  candidate_contact_id = some c.contact_id;
  score = some c.score;
}

-- `_enqueue_review`, if `auto_enqueue` is set. An insert that fails is rolled back, and gives `none`.
unfoldable pub enqueue : Queueing → List MatchCandidate → Option QueueRow
enqueue q candidates =
    if q.auto_enqueue && q.insert_works then some (queue_row candidates) else none

unfoldable pub after_claude :
    Queueing
    → List MatchCandidate
    → Option ℕ
    → Option MatchCandidate
    → NameMatchResult × Option QueueRow
unfolding enqueue
after_claude q candidates top_score (some hit) = (found hit candidates, none)
after_claude q candidates top_score none =
    (not_found Outcome.ambiguous top_score candidates, enqueue q candidates)

unfoldable pub after_fuzzy :
    Queueing → Option ℕ → List MatchCandidate → NameMatchResult × Option QueueRow
unfolding after_claude enqueue
after_fuzzy q answer [] = (not_found Outcome.unmatched none [], enqueue q [])
after_fuzzy q answer (c ∷ []) = (found c (c ∷ []), none)
after_fuzzy q answer (c ∷ d ∷ rest) =
    after_claude q (c ∷ d ∷ rest) (some c.score) (lookup_claude answer (c ∷ d ∷ rest))

unfoldable pub after_alias :
    (Text → Text → ℕ)
    → Option ℕ
    → Queueing
    → Text
    → List NamedContact
    → Option MatchCandidate
    → NameMatchResult × Option QueueRow
unfolding after_fuzzy
after_alias similarity answer q normalized contacts (some hit) = (found hit (hit ∷ []), none)
after_alias similarity answer q normalized contacts none =
    after_fuzzy q answer (lookup_deterministic similarity normalized contacts)

-- The result, and the row that the review queue gets.
unfoldable pub match_name :
    (Text → Text → ℕ)
    → Option ℕ
    → Queueing
    → Text
    → List NameAlias
    → List NamedContact
    → NameMatchResult × Option QueueRow
unfolding after_alias
match_name similarity answer q normalized aliases contacts =
    after_alias similarity answer q normalized contacts (lookup_alias normalized aliases contacts)
