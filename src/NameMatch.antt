-- ===== src/NameMatch.antt =====
-- backend/app/services/name_match.py: from a normalized name to a contact. Names are in lower case,
-- as the code lowers them; scores are millionths. jellyfish's Jaro-Winkler similarity is an
-- argument, and so is the contact that Claude's answer names. `normalize_name` is left out.
pub mod Lookup
pub mod Ambiguity
pub mod Outcomes
use seraphim.Common.{
  ℕ, ◌+◌, ◌-◌, suc, Bool, true, false, not, ◌&&◌, ◌||◌, Option, none, some, List, [], ◌∷◌, ◌++◌,
  map, ltb, leb, ◌==◌, take, where_, any, is_some, if◌then◌else◌,
}
use seraphim.Common.Text.{Text, codes, text_eq, is_empty, starts_with, split}

pub data Method : Type 0 where
  alias fuzzy_forward fuzzy_reversed fuzzy_nickname claude : Method

pub data Outcome : Type 0 where
  single ambiguous unmatched : Outcome

pub record NamedContact : Type 0 where
  pub contact_id : ℕ
  pub first_name : Text
  pub last_name : Text
  pub nickname : Option Text
  pub is_deleted : Bool

pub record MatchCandidate : Type 0 where
  pub contact_id : ℕ
  pub score : ℕ
  pub method : Method

pub record NameAlias : Type 0 where
  pub alias_text : Text
  pub contact_id : ℕ

pub record QueueRow : Type 0 where
  pub candidate_contact_id : Option ℕ
  pub score : Option ℕ

pub record NameMatchResult : Type 0 where
  pub outcome : Outcome
  pub contact_id : Option ℕ
  pub score : Option ℕ
  pub method : Option Method
  pub candidates : List MatchCandidate

-- `normalized.split()`, for names whose blanks are spaces.
abbrev pub tokens : Text → List Text
tokens normalized = where_ (λ s. not (is_empty s)) (split b' ' normalized)

abbrev pub join : List Text → Text
join [] = []
join (s ∷ []) = s
join (s ∷ t ∷ rest) = s ++ b' ' ∷ join (t ∷ rest)

-- f"{a} {b}".strip(), for names without blanks at their ends.
abbrev full_name : Text → Text → Text
full_name [] b = b
full_name (c ∷ a) [] = c ∷ a
full_name (c ∷ a) (d ∷ b) = (c ∷ a) ++ b' ' ∷ d ∷ b

abbrev nicknames : List (Text × List Text)
nicknames =
    (codes "elizabeth", codes "liz" ∷ codes "beth" ∷ codes "eliza" ∷ codes "eli" ∷ [])
    ∷ (codes "grace", codes "gracie" ∷ [])
    ∷ (codes "maria", codes "mary" ∷ codes "marites" ∷ codes "mario" ∷ codes "mar" ∷ [])
    ∷ (codes "josefina", codes "josie" ∷ codes "joey" ∷ [])
    ∷ (codes "jose", codes "joe" ∷ codes "joey" ∷ codes "pepe" ∷ [])
    ∷ (codes "rodolfo", codes "rodel" ∷ codes "rudy" ∷ codes "dolfo" ∷ [])
    ∷ (codes "rodel", codes "rodolfo" ∷ codes "rudy" ∷ [])
    ∷ (codes "nino", codes "nino" ∷ codes "ninyo" ∷ [])
    ∷ (codes "angelina", codes "angel" ∷ codes "geline" ∷ [])
    ∷ (codes "marichu", codes "chu" ∷ codes "marichu" ∷ [])
    ∷ []

-- `_NICKNAMES.get(token, [])` before `_REVERSE_NICK.get(token, [])`.
abbrev own_nicks : Text → List (Text × List Text) → List Text
own_nicks token [] = []
own_nicks token ((name, nicks) ∷ rest) = if text_eq name token then nicks else own_nicks token rest

abbrev reverse_nicks : Text → List (Text × List Text) → List Text
reverse_nicks token [] = []
reverse_nicks token ((name, nicks) ∷ rest) =
    let more = reverse_nicks token rest in if any (text_eq token) nicks then name ∷ more else more

unfoldable expansions : Text → List Text
expansions token = own_nicks token nicknames ++ reverse_nicks token nicknames

-- The better of the best score so far and one more.
abbrev better : ℕ × Method → Method → ℕ → ℕ × Method
better best method score = if ltb best.0 score then (score, method) else best

abbrev with_nickname : (Text → ℕ) → Option Text → Text → ℕ × Method → ℕ × Method
with_nickname close none last best = best
with_nickname close (some nick) last best =
    if is_empty nick then best else better best Method.fuzzy_nickname (close (full_name nick last))

with_expansions : (Text → ℕ) → List Text → List Text → ℕ × Method → ℕ × Method
with_expansions close [] rest best = best
with_expansions close (nick ∷ nicks) rest best =
    with_expansions close nicks rest
      (better best Method.fuzzy_nickname (close (join (nick ∷ rest))))

expanded : (Text → ℕ) → List Text → ℕ × Method → ℕ × Method
unfolding with_expansions expansions
expanded close [] best = best
expanded close (first ∷ rest) best = with_expansions close (expansions first) rest best

-- The score of a contact and how it was reached.
unfoldable pub best_score : (Text → Text → ℕ) → Text → NamedContact → ℕ × Method
unfolding expanded
best_score similarity normalized c =
    let forward = full_name c.first_name c.last_name in
    let reversed = full_name c.last_name c.first_name in
    let b1 =
      better (0, Method.fuzzy_forward) Method.fuzzy_forward (similarity normalized forward) in
    let b2 = better b1 Method.fuzzy_reversed (similarity normalized reversed) in
    let b3 = with_nickname (similarity normalized) c.nickname c.last_name b2 in
    expanded (similarity forward) (tokens normalized) b3

abbrev candidate : NamedContact → ℕ × Method → MatchCandidate
candidate c best = record { contact_id = c.contact_id; score = best.0; method = best.1 }

unfoldable pub score_rows : (Text → Text → ℕ) → ℕ → Text → List NamedContact → List MatchCandidate
unfolding best_score
score_rows similarity min_score normalized [] = []
score_rows similarity min_score normalized (c ∷ rows) =
    let rest = score_rows similarity min_score normalized rows in
    let best = best_score similarity normalized c in
    if leb min_score best.0 then candidate c best ∷ rest else rest

-- `sort(key=score, reverse=True)`, which is stable.
unfoldable pub insert : MatchCandidate → List MatchCandidate → List MatchCandidate
insert c [] = c ∷ []
insert c (d ∷ rest) = if leb d.score c.score then c ∷ d ∷ rest else d ∷ insert c rest

unfoldable pub sort : List MatchCandidate → List MatchCandidate
unfolding insert
sort [] = []
sort (c ∷ rest) = insert c (sort rest)

abbrev pub min_gap : ℕ
min_gap = 20000

-- The ambiguity rules, on the sorted candidates.
unfoldable pub decide : ℕ → List MatchCandidate → List MatchCandidate
decide min_score [] = []
decide min_score (top ∷ []) = top ∷ []
decide min_score (top ∷ second ∷ rest) =
    if leb min_score top.score
      && (ltb second.score min_score || leb (second.score + min_gap) top.score)
    then top ∷ []
    else top ∷ second ∷ rest
