-- ===== src/Merge/Aliases.antt =====
-- The aliases of the loser where each text stands once: none collides.
use seraphim.Common.{
  ℕ, ◌+◌, ◌≡◌, ◌≤◌, ◌<◌, refl, Bool, true, false, not, ◌&&◌, List, [], ◌∷◌, any, length, map,
  where_, count, update_rows, length-where_, arith, Bool-cases, inl, inr,
}
use seraphim.Common.Text.{Text, text_eq, text_eq_refl, eq_of_text_eq}
use seraphim.Merge.Preview.{alias_texts, collides, count_aliases, is_alias_of}
use seraphim.Merge.Reassign.{is_alias, is_taken, move_aliases, reassign_aliases, updated}
use seraphim.NameMatch.{NameAlias}

abbrev has_text : Text → NameAlias → Bool
has_text s b = text_eq b.alias_text s

-- uq_name_alias_text.
pub record UniqueTexts (rows : List NameAlias) : Type 0 where
  pub once : (s : Text) → count (has_text s) rows ≤ 1

text_eq_sym : (s t : Text) → text_eq s t ≡ true → text_eq t s ≡ true
text_eq_sym s t h = rw (eq_of_text_eq s t h) (text_eq_refl t)

any_of_count :
    (p : NameAlias → Bool) (rows : List NameAlias) → count p rows ≡ 0 → any p rows ≡ false
unfolding any count
any_of_count p [] h = refl
any_of_count p (b ∷ rows) h = ground (arith, h, any_of_count p rows)

module _ (sid lid : ℕ) where
  abbrev same_texts : Text → List NameAlias → Bool
  same_texts s losers = any (λ b. text_eq s b.alias_text) losers

  -- No loser's alias is taken, and their texts differ.
  free : List NameAlias → List NameAlias → Bool
  free [] rows = true
  free (a ∷ losers) rows =
      (not (any (is_taken lid a.alias_text) rows) && not (same_texts a.alias_text losers))
      && free losers rows

  abbrev moved_to : Text → List NameAlias → List NameAlias
  moved_to s rows = update_rows (is_alias lid s) (λ b. record b { contact_id = sid }) rows

  taken_kept :
      (s name : Text) (rows : List NameAlias)
      → text_eq s name ≡ false
      → any (is_taken lid name) (moved_to s rows) ≡ any (is_taken lid name) rows
  unfolding any update_rows
  taken_kept s name [] h = refl
  taken_kept s name (b ∷ rows) h = elim (Bool-cases (text_eq b.alias_text s)) [
    | inl same ↦
        (let e : b.alias_text ≡ s = eq_of_text_eq b.alias_text s same in
          ground (arith, same, e, h, taken_kept s name rows h))
    | inr other ↦ ground (arith, other, taken_kept s name rows h)
  ]

  free_kept :
      (s : Text) (losers rows : List NameAlias)
      → same_texts s losers ≡ false
      → free losers rows ≡ true
      → free losers (moved_to s rows) ≡ true
  unfolding free any
  free_kept s [] rows h f = refl
  free_kept s (a ∷ losers) rows h f =
      ground (arith, h, f, taken_kept s a.alias_text rows, free_kept s losers rows)

  all_moved :
      (losers rows : List NameAlias)
      → free losers rows ≡ true
      → (move_aliases sid lid losers rows).0 ≡ updated (length losers)
  unfolding free move_aliases
  all_moved [] rows f = refl
  all_moved (a ∷ losers) rows f =
      let open_ : any (is_taken lid a.alias_text) rows ≡ false = ground (arith, f) in
      let apart : same_texts a.alias_text losers ≡ false = ground (arith, f) in
      let rest : free losers rows ≡ true = ground (arith, f) in
      let later =
        all_moved losers (moved_to a.alias_text rows)
          (free_kept a.alias_text losers rows apart rest) in
      rw open_ (ground (arith, later))

  count-has_text :
      (s : Text) (rows : List NameAlias)
      → count (has_text s) rows ≡ count (is_taken lid s) rows + count (is_alias lid s) rows
  unfolding count
  count-has_text s [] = refl
  count-has_text s (b ∷ rows) = ground (arith, count-has_text s rows)

  same_texts-count :
      (s : Text) (rows : List NameAlias)
      → same_texts s (where_ (is_alias_of lid) rows) ≡ true
      → 0 < count (is_alias lid s) rows
  unfolding any count where_
  same_texts-count s [] h = cc
  same_texts-count s (b ∷ rows) h =
      ground (arith, h, text_eq_sym s b.alias_text, same_texts-count s rows)

  any_texts :
      (s : Text) (rows : List NameAlias)
      → any (text_eq s) (map (λ b. b.alias_text) rows) ≡ same_texts s rows
  unfolding any
  any_texts s [] = refl
  any_texts s (b ∷ rows) = ground (arith, any_texts s rows)

  module _ (all : List NameAlias) (unique : UniqueTexts all) where
    all_free :
        (rows : List NameAlias)
        → ((s : Text) → count (is_alias lid s) rows ≤ count (is_alias lid s) all)
        → free (where_ (is_alias_of lid) rows) all ≡ true
    unfolding free count where_
    all_free [] h = refl
    all_free (b ∷ rows) h =
        let rest : (s : Text) → count (is_alias lid s) rows ≤ count (is_alias lid s) all =
          λ s. omega (arith, h s) in
        let s = b.alias_text in
        ground (
          arith,
          h s,
          text_eq_refl s,
          unique.once s,
          count-has_text s all,
          any_of_count (is_taken lid s) all,
          same_texts-count s rows,
          all_free rows rest,
        )

    none_collides :
        (rows : List NameAlias)
        → ((s : Text) → count (is_taken lid s) rows ≤ count (is_taken lid s) all)
        → count (collides lid (alias_texts lid all)) rows ≡ 0
    unfolding count
    none_collides [] h = refl
    none_collides (b ∷ rows) h =
        let rest : (s : Text) → count (is_taken lid s) rows ≤ count (is_taken lid s) all =
          λ s. omega (arith, h s) in
        let s = b.alias_text in
        ground (
          arith,
          h s,
          text_eq_refl s,
          unique.once s,
          count-has_text s all,
          any_texts s (where_ (is_alias_of lid) all),
          same_texts-count s all,
          none_collides rows rest,
        )

    pub count_aliases-reassign : (reassign_aliases sid lid all).0 ≡ count_aliases lid all
    count_aliases-reassign =
        let losers = where_ (is_alias_of lid) all in
        ground (
          arith,
          all_moved losers all (all_free all (λ s. omega arith)),
          length-where_ (is_alias_of lid) all,
          none_collides all (λ s. omega arith),
        )
