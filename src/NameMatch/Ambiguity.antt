-- ===== src/NameMatch/Ambiguity.antt =====
-- When the fuzzy stage decides.
use seraphim.Common.{
  ℕ, ◌+◌, ◌≤◌, ◌≡◌, refl, Bool, true, ◌&&◌, ◌||◌, List, [], ◌∷◌, arith, sym, subst, ◌∙◌, Bool-cases,
  inl, inr, ltb, leb, count, if◌then◌else◌,
}
use seraphim.Common.Text.{Text}
use seraphim.NameMatch.{MatchCandidate, NamedContact, insert, sort, decide, min_gap, score_rows}
use seraphim.NameMatch.Lookup.{min_score, fetched, lookup_deterministic}

-- Within the gap below a score, or above it.
abbrev pub is_close : ℕ → MatchCandidate → Bool
is_close score c = ltb score (c.score + min_gap)

abbrev is_below : ℕ → List MatchCandidate → Bool
is_below score [] = true
is_below score (c ∷ rest) = leb c.score score && is_below score rest

abbrev is_sorted : List MatchCandidate → Bool
is_sorted [] = true
is_sorted (c ∷ rest) = is_below c.score rest && is_sorted rest

is_below-weaken :
    (a b : ℕ) (cs : List MatchCandidate) → a ≤ b → is_below a cs ≡ true → is_below b cs ≡ true
is_below-weaken a b [] le h = refl
is_below-weaken a b (c ∷ cs) le h = ground (arith, is_below-weaken a b cs, le)

is_below-insert :
    (a : ℕ) (c : MatchCandidate) (cs : List MatchCandidate)
    → is_below a (insert c cs) ≡ (leb c.score a && is_below a cs)
unfolding insert
is_below-insert a c [] = ground arith
is_below-insert a c (d ∷ cs) = ground (arith, is_below-insert a c cs)

is_sorted-insert :
    (c : MatchCandidate) (cs : List MatchCandidate)
    → is_sorted cs ≡ true
    → is_sorted (insert c cs) ≡ true
unfolding insert
is_sorted-insert c [] h = refl
is_sorted-insert c (d ∷ cs) h =
    ground (
      arith,
      is_sorted-insert c cs,
      is_below-insert d.score c cs,
      is_below-weaken d.score c.score cs,
    )

is_sorted-sort : (cs : List MatchCandidate) → is_sorted (sort cs) ≡ true
unfolding sort
is_sorted-sort [] = refl
is_sorted-sort (c ∷ cs) = is_sorted-insert c (sort cs) (is_sorted-sort cs)

count-insert :
    (p : MatchCandidate → Bool) (c : MatchCandidate) (cs : List MatchCandidate)
    → count p (insert c cs) ≡ count p (c ∷ cs)
unfolding insert count
count-insert p c [] = refl
count-insert p c (d ∷ cs) = ground (arith, count-insert p c cs)

count-sort : (p : MatchCandidate → Bool) (cs : List MatchCandidate) → count p (sort cs) ≡ count p cs
unfolding sort count
count-sort p [] = refl
count-sort p (c ∷ cs) = ground (arith, count-insert p c (sort cs), count-sort p cs)

far_below :
    (score a : ℕ) (cs : List MatchCandidate)
    → a + min_gap ≤ score
    → is_below a cs ≡ true
    → count (is_close score) cs ≡ 0
unfolding count
far_below score a [] gap h = refl
far_below score a (c ∷ cs) gap h = ground (arith, far_below score a cs, gap)

abbrev is_low : ℕ → MatchCandidate → Bool
is_low m c = ltb c.score m

score_rows-none_low :
    (similarity : Text → Text → ℕ) (m : ℕ) (normalized : Text) (rows : List NamedContact)
    → count (is_low m) (score_rows similarity m normalized rows) ≡ 0
unfolding score_rows count
score_rows-none_low similarity m normalized [] = refl
score_rows-none_low similarity m normalized (c ∷ rows) =
    ground (arith, score_rows-none_low similarity m normalized rows)

decide-ahead :
    (m : ℕ) (cs : List MatchCandidate) (c : MatchCandidate)
    → is_sorted cs ≡ true
    → count (is_low m) cs ≡ 0
    → decide m cs ≡ c ∷ []
    → (m ≤ c.score) × (count (is_close c.score) cs ≡ 1)
unfolding decide count
decide-ahead m [] c sorted high one = cc
decide-ahead m (a ∷ []) c sorted high one =
    let same : a ≡ c = cc in rw (sym same) (ground (arith, high), ground arith)
decide-ahead m (a ∷ b ∷ rest) c sorted high one =
    elim (Bool-cases (leb m a.score && (ltb b.score m || leb (b.score + min_gap) a.score))) [
      | inr no_winner ↦
          absurd (two (subst (λ x. (if x then a ∷ [] else a ∷ b ∷ rest) ≡ c ∷ []) no_winner one))
      | inl ahead ↦
          (let same : a ≡ c =
              first (subst (λ x. (if x then a ∷ [] else a ∷ b ∷ rest) ≡ c ∷ []) ahead one) in
            let gap : b.score + min_gap ≤ a.score = ground (arith, ahead, high) in
            let others : count (is_close a.score) (b ∷ rest) ≡ 0 =
              far_below a.score b.score (b ∷ rest) gap (ground (arith, sorted)) in
            let alone : count (is_close a.score) (a ∷ b ∷ rest) ≡ 1 = ground (arith, others) in
            let enough : m ≤ a.score = ground (arith, ahead) in
            subst
              (λ (x : MatchCandidate).
                (m ≤ x.score) × (count (is_close x.score) (a ∷ b ∷ rest) ≡ 1))
              same (enough, alone))
    ]
  where
    two : a ∷ b ∷ rest ≡ c ∷ [] → ⊥
    two e = cc

    first : a ∷ [] ≡ c ∷ [] → a ≡ c
    first e = cc

-- If the fuzzy stage returns one candidate, the candidate's score is at least the minimum, and of
-- all scored contacts it is the only one with a score that is not behind its score by the gap.
pub lookup_deterministic-ahead :
    (similarity : Text → Text → ℕ) (normalized : Text) (contacts : List NamedContact)
    (c : MatchCandidate)
    → lookup_deterministic similarity normalized contacts ≡ c ∷ []
    → (min_score ≤ c.score)
      × (count
            (is_close c.score)
            (score_rows similarity min_score normalized (fetched normalized contacts))
          ≡ 1)
unfolding lookup_deterministic
lookup_deterministic-ahead similarity normalized contacts c one =
    let scored = score_rows similarity min_score normalized (fetched normalized contacts) in
    let ahead =
      decide-ahead min_score (sort scored) c (is_sorted-sort scored)
        (count-sort (is_low min_score) scored
          ∙ score_rows-none_low similarity min_score normalized (fetched normalized contacts))
        one in
    (ahead.0, sym (count-sort (is_close c.score) scored) ∙ ahead.1)
