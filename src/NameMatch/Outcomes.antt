-- ===== src/NameMatch/Outcomes.antt =====
-- What `match_name` answers.
use seraphim.Common.{
  if◌then◌else◌, ℕ, ◌≡◌, inl, inr, refl, ◌∙◌, Bool, true, false, not, ◌&&◌, ◌||◌, Option, none,
  some, List, [], ◌∷◌, arith, where_, any, take, is_some, suc, zero, Bool-cases,
}
use seraphim.Common.Text.{Text, text_eq, starts_with}
use seraphim.NameMatch.{
  Outcome, NamedContact, MatchCandidate, NameAlias, QueueRow, NameMatchResult, insert, sort, decide,
  score_rows, tokens,
}
use seraphim.NameMatch.Lookup.{
  min_score, live_contact, prefix_rows, unless_found, last_token, fetch, fetched, Queueing, enqueue,
  not_found, lookup_deterministic, lookup_alias, lookup_claude, after_claude, after_fuzzy,
  after_alias, match_name,
}

-- The contact is there and not deleted.
abbrev pub is_live : List NamedContact → ℕ → Bool
is_live contacts id = any (live_contact id) contacts

-- Every candidate is a live contact.
abbrev all_live : List NamedContact → List MatchCandidate → Bool
all_live contacts [] = true
all_live contacts (c ∷ cs) = is_live contacts c.contact_id && all_live contacts cs

-- Every row that is not deleted is a live contact.
abbrev rows_live : List NamedContact → List NamedContact → Bool
rows_live contacts [] = true
rows_live contacts (c ∷ rows) =
    (c.is_deleted || is_live contacts c.contact_id) && rows_live contacts rows

-- Every row is a live contact.
abbrev only_live : List NamedContact → List NamedContact → Bool
only_live contacts [] = true
only_live contacts (c ∷ rows) = is_live contacts c.contact_id && only_live contacts rows

rows_live-more :
    (x : NamedContact) (contacts rows : List NamedContact)
    → rows_live contacts rows ≡ true
    → rows_live (x ∷ contacts) rows ≡ true
unfolding any
rows_live-more x contacts [] h = refl
rows_live-more x contacts (c ∷ rows) h = ground (arith, rows_live-more x contacts rows)

rows_live_self : (contacts : List NamedContact) → rows_live contacts contacts ≡ true
unfolding any
rows_live_self [] = refl
rows_live_self (c ∷ contacts) =
    ground (arith, rows_live-more c contacts contacts, rows_live_self contacts)

only_live-where_ :
    (contacts rows : List NamedContact) (p : NamedContact → Bool)
    → rows_live contacts rows ≡ true
    → only_live contacts (where_ (λ (c : NamedContact). not c.is_deleted && p c) rows) ≡ true
unfolding where_
only_live-where_ contacts [] p h = refl
only_live-where_ contacts (c ∷ rows) p h = ground (arith, only_live-where_ contacts rows p)

only_live-take :
    (contacts rows : List NamedContact) (n : ℕ)
    → only_live contacts rows ≡ true
    → only_live contacts (take n rows) ≡ true
only_live-take contacts rows zero h = refl
only_live-take contacts [] (suc n) h = refl
only_live-take contacts (c ∷ rows) (suc n) h = ground (arith, only_live-take contacts rows n)

prefix_rows-live :
    (name : NamedContact → Text) (prefix : Text) (contacts : List NamedContact)
    → only_live contacts (prefix_rows name prefix contacts) ≡ true
prefix_rows-live name prefix contacts = only_live-take contacts _ 200 (
    only_live-where_ contacts contacts (λ c. starts_with prefix (name c)) (rows_live_self contacts))

unless_found-live :
    (contacts a b : List NamedContact)
    → only_live contacts a ≡ true
    → only_live contacts b ≡ true
    → only_live contacts (unless_found a b) ≡ true
unless_found-live contacts [] b h k = k
unless_found-live contacts (c ∷ a) b h k = h

fetch-live :
    (ts : List Text) (contacts : List NamedContact) → only_live contacts (fetch ts contacts) ≡ true
fetch-live [] contacts = refl
fetch-live (first ∷ rest) contacts =
    elim (Bool-cases (text_eq (take 3 first) (take 3 (last_token first rest)))) [
      | inl same ↦ rw same (prefix_rows-live (λ c. c.last_name) _ contacts)
      | inr other ↦ rw other (
          unless_found-live contacts _ _ (prefix_rows-live (λ c. c.last_name) _ contacts) (
            unless_found-live contacts _ _ (prefix_rows-live (λ c. c.last_name) _ contacts)
              (prefix_rows-live (λ c. c.first_name) _ contacts)))
    ]

score_rows-live :
    (similarity : Text → Text → ℕ) (m : ℕ) (normalized : Text) (contacts rows : List NamedContact)
    → only_live contacts rows ≡ true
    → all_live contacts (score_rows similarity m normalized rows) ≡ true
unfolding score_rows
score_rows-live similarity m normalized contacts [] h = refl
score_rows-live similarity m normalized contacts (c ∷ rows) h =
    ground (arith, score_rows-live similarity m normalized contacts rows)

insert-live :
    (contacts : List NamedContact) (c : MatchCandidate) (cs : List MatchCandidate)
    → all_live contacts (insert c cs) ≡ all_live contacts (c ∷ cs)
unfolding insert
insert-live contacts c [] = refl
insert-live contacts c (d ∷ cs) = ground (arith, insert-live contacts c cs)

sort-live :
    (contacts : List NamedContact) (cs : List MatchCandidate)
    → all_live contacts (sort cs) ≡ all_live contacts cs
unfolding sort
sort-live contacts [] = refl
sort-live contacts (c ∷ cs) =
    ground (arith, insert-live contacts c (sort cs), sort-live contacts cs)

decide-live :
    (contacts : List NamedContact) (m : ℕ) (cs : List MatchCandidate)
    → all_live contacts cs ≡ true
    → all_live contacts (decide m cs) ≡ true
unfolding decide
decide-live contacts m [] h = refl
decide-live contacts m (c ∷ []) h = h
decide-live contacts m (c ∷ d ∷ cs) h = ground (arith, h)

lookup_deterministic-live :
    (similarity : Text → Text → ℕ) (normalized : Text) (contacts : List NamedContact)
    → all_live contacts (lookup_deterministic similarity normalized contacts) ≡ true
unfolding lookup_deterministic fetched
lookup_deterministic-live similarity normalized contacts =
    let rows = fetch (tokens normalized) contacts in
    let scored = score_rows similarity min_score normalized rows in
    decide-live contacts min_score (sort scored) (
      sort-live contacts scored
      ∙ score_rows-live similarity min_score normalized contacts rows
          (fetch-live (tokens normalized) contacts))

abbrev is_single : Outcome → Bool
is_single Outcome.single = true
is_single _ = false

-- A result names a live contact, or it names none and there is a row for the review, exactly if the
-- caller asks for one and the insert works.
abbrev pub is_right : List NamedContact → Queueing → NameMatchResult × Option QueueRow → Bool
is_right contacts q (r, row) = elim r.contact_id [
  | some id ↦ is_live contacts id && is_single r.outcome && not (is_some row)
  | none ↦
      not (is_single r.outcome)
      && (if is_some row
          then q.auto_enqueue && q.insert_works
          else not (q.auto_enqueue && q.insert_works))
]

enqueue-right :
    (contacts : List NamedContact) (q : Queueing) (outcome : Outcome) (top : Option ℕ)
    (cs : List MatchCandidate)
    → is_single outcome ≡ false
    → is_right contacts q (not_found outcome top cs, enqueue q cs) ≡ true
unfolding enqueue
enqueue-right contacts q outcome top cs h = elim (Bool-cases (q.auto_enqueue && q.insert_works)) [
  | inl given ↦ ground (arith, given, h)
  | inr missing ↦ ground (arith, missing, h)
]

lookup_claude-live :
    (contacts : List NamedContact) (answer : Option ℕ) (cs : List MatchCandidate)
    (hit : MatchCandidate)
    → all_live contacts cs ≡ true
    → lookup_claude answer cs ≡ some hit
    → is_live contacts hit.contact_id ≡ true
unfolding lookup_claude
lookup_claude-live contacts none cs hit h e = cc
lookup_claude-live contacts (some id) [] hit h e = cc
lookup_claude-live contacts (some id) (c ∷ cs) hit h e =
    ground (arith, h, e, lookup_claude-live contacts (some id) cs hit)

lookup_alias-live :
    (normalized : Text) (aliases : List NameAlias) (contacts : List NamedContact)
    (hit : MatchCandidate)
    → lookup_alias normalized aliases contacts ≡ some hit
    → is_live contacts hit.contact_id ≡ true
unfolding lookup_alias
lookup_alias-live normalized [] contacts hit e = cc
lookup_alias-live normalized (a ∷ aliases) contacts hit e =
    ground (arith, e, lookup_alias-live normalized aliases contacts hit)

after_claude-right :
    (contacts : List NamedContact) (q : Queueing) (cs : List MatchCandidate) (top : Option ℕ)
    (o : Option MatchCandidate)
    → ((hit : MatchCandidate) → o ≡ some hit → is_live contacts hit.contact_id ≡ true)
    → is_right contacts q (after_claude q cs top o) ≡ true
unfolding after_claude
after_claude-right contacts q cs top (some hit) h = ground (arith, h hit refl)
after_claude-right contacts q cs top none h = enqueue-right contacts q Outcome.ambiguous top cs refl

after_fuzzy-right :
    (contacts : List NamedContact) (q : Queueing) (answer : Option ℕ) (cs : List MatchCandidate)
    → all_live contacts cs ≡ true
    → is_right contacts q (after_fuzzy q answer cs) ≡ true
unfolding after_fuzzy
after_fuzzy-right contacts q answer [] h = enqueue-right contacts q Outcome.unmatched none [] refl
after_fuzzy-right contacts q answer (c ∷ []) h = ground (arith, h)
after_fuzzy-right contacts q answer (c ∷ d ∷ cs) h =
    after_claude-right contacts q (c ∷ d ∷ cs) (some c.score) (lookup_claude answer (c ∷ d ∷ cs))
      (λ hit e. lookup_claude-live contacts answer (c ∷ d ∷ cs) hit h e)

after_alias-right :
    (similarity : Text → Text → ℕ) (answer : Option ℕ) (q : Queueing) (normalized : Text)
    (contacts : List NamedContact) (o : Option MatchCandidate)
    → ((hit : MatchCandidate) → o ≡ some hit → is_live contacts hit.contact_id ≡ true)
    → is_right contacts q (after_alias similarity answer q normalized contacts o) ≡ true
unfolding after_alias
after_alias-right similarity answer q normalized contacts (some hit) h = ground (arith, h hit refl)
after_alias-right similarity answer q normalized contacts none h =
    after_fuzzy-right contacts q answer (lookup_deterministic similarity normalized contacts)
      (lookup_deterministic-live similarity normalized contacts)

-- Whatever the similarity and Claude's answer are: `match_name` names a contact that is there and not
-- deleted, with the outcome single and no row for the review; or it names none, its outcome is
-- ambiguous or unmatched, and the review queue gets a row exactly if `auto_enqueue` is set and the
-- insert does not fail.
pub match_name-right :
    (similarity : Text → Text → ℕ) (answer : Option ℕ) (q : Queueing) (normalized : Text)
    (aliases : List NameAlias) (contacts : List NamedContact)
    → is_right contacts q (match_name similarity answer q normalized aliases contacts) ≡ true
unfolding match_name
match_name-right similarity answer q normalized aliases contacts =
    after_alias-right similarity answer q normalized contacts
      (lookup_alias normalized aliases contacts)
      (λ hit e. lookup_alias-live normalized aliases contacts hit e)
