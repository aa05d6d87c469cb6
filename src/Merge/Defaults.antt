-- ===== src/Merge/Defaults.antt =====
-- The default rule set.
use seraphim.Common.{
  ℕ, ◌+◌, ◌≡◌, ◌≤◌, refl, Bool, true, not, ◌&&◌, some, List, [], ◌∷◌, ◌==◌, count, map, update_rows,
  if◌then◌else◌, arith, Bool-cases, Option-cases, inl, inr,
}
use seraphim.Common.Table.{Table, find, put, remove, fresh}
use seraphim.Merge.RuleSets.{
  RuleSet, create_rule_set, delete_rule_set, is_other_active, update_rule_set, undefault,
}
use seraphim.Session.{Result, ok, err}

abbrev is_default_row : ℕ × RuleSet → Bool
is_default_row (id, s) = s.is_default

abbrev is_row : ℕ → ℕ × RuleSet → Bool
is_row j (id, s) = id == j

-- At most one rule set is the default, and a primary key occurs once.
pub record OneDefault (rows : Table RuleSet) : Type 0 where
  pub unique : (j : ℕ) → count (is_row j) rows ≤ 1
  pub one : count is_default_row rows ≤ 1

-- The requests on rule sets.
pub data RuleSetRequest : Type 0 where
  create : RuleSet → RuleSetRequest
  update : ℕ → RuleSet → RuleSetRequest
  delete : ℕ → RuleSetRequest

abbrev kept : Table RuleSet → Result (Table RuleSet) → Table RuleSet
kept rows (ok new) = new
kept rows (err e) = rows

unfoldable pub serve_rule_set : RuleSetRequest → Table RuleSet → Table RuleSet
serve_rule_set (create new) rows = create_rule_set new rows
serve_rule_set (update id new) rows = kept rows (update_rule_set id new rows)
serve_rule_set (delete id) rows = kept rows (delete_rule_set id rows)

none_default : (rows : Table RuleSet) → count is_default_row (map undefault rows) ≡ 0
unfolding count
none_default [] = refl
none_default ((id, s) ∷ rows) = omega (arith, none_default rows)

defaults-put :
    (id : ℕ) (new : RuleSet) (rows : Table RuleSet)
    → count is_default_row (put id new rows)
      ≤ (if new.is_default then 1 else 0) + count is_default_row rows
unfolding count put
defaults-put id new [] = ground arith
defaults-put id new ((k, s) ∷ rows) = ground (arith, defaults-put id new rows)

defaults-remove :
    (id : ℕ) (rows : Table RuleSet)
    → count is_default_row (remove id rows) ≤ count is_default_row rows
unfolding count remove
defaults-remove id [] = omega arith
defaults-remove id ((k, s) ∷ rows) = ground (arith, defaults-remove id rows)

abbrev cleared : ℕ → Table RuleSet → Table RuleSet
cleared id rows = update_rows (λ (row : ℕ × RuleSet). not (row.0 == id)) undefault rows

-- Replacing the default row keeps the number, and clearing the others leaves none but it.
put_default :
    (id : ℕ) (old new : RuleSet) (rows : Table RuleSet)
    → find id rows ≡ some old
    → old.is_default ≡ true
    → count is_default_row (put id new rows) ≤ count is_default_row rows
unfolding count put find
put_default id old new [] h d = absurd (cc h)
put_default id old new ((k, s) ∷ rows) h d = ground (arith, h, d, put_default id old new rows)

all_cleared :
    (id : ℕ) (rows : Table RuleSet)
    → count (is_row id) rows ≡ 0
    → count is_default_row (cleared id rows) ≡ 0
unfolding count update_rows
all_cleared id [] h = refl
all_cleared id ((k, s) ∷ rows) h = ground (arith, h, all_cleared id rows)

put-cleared :
    (id : ℕ) (old new : RuleSet) (rows : Table RuleSet)
    → count (is_row id) rows ≤ 1
    → find id rows ≡ some old
    → count is_default_row (put id new (cleared id rows)) ≤ 1
unfolding count put find update_rows
put-cleared id old new [] u h = absurd (cc h)
put-cleared id old new ((k, s) ∷ rows) u h = elim (Bool-cases (k == id)) [
  | inl here ↦ rw here (ground (arith, here, u, all_cleared id rows))
  | inr elsewhere ↦ rw elsewhere (ground (arith, elsewhere, u, h, put-cleared id old new rows))
]

ids_cleared :
    (id j : ℕ) (rows : Table RuleSet) → count (is_row j) (cleared id rows) ≡ count (is_row j) rows
unfolding count update_rows
ids_cleared id j [] = refl
ids_cleared id j ((k, s) ∷ rows) = ground (arith, ids_cleared id j rows)

ids_undefault :
    (j : ℕ) (rows : Table RuleSet) → count (is_row j) (map undefault rows) ≡ count (is_row j) rows
unfolding count
ids_undefault j [] = refl
ids_undefault j ((k, s) ∷ rows) = ground (arith, ids_undefault j rows)

ids_put :
    (id j : ℕ) (new : RuleSet) (rows : Table RuleSet)
    → count (is_row j) (put id new rows)
      ≡ (if id == j && count (is_row id) rows == 0 then 1 else count (is_row j) rows)
unfolding count put
ids_put id j new [] = ground arith
ids_put id j new ((k, s) ∷ rows) = ground (arith, ids_put id j new rows)

ids_remove :
    (id j : ℕ) (rows : Table RuleSet) → count (is_row j) (remove id rows) ≤ count (is_row j) rows
unfolding count remove
ids_remove id j [] = omega arith
ids_remove id j ((k, s) ∷ rows) = ground (arith, ids_remove id j rows)

create-OneDefault :
    (new : RuleSet) (rows : Table RuleSet) → OneDefault rows → OneDefault (create_rule_set new rows)
unfolding create_rule_set
create-OneDefault new rows h = elim (Bool-cases new.is_default) [
  | inl default ↦ rw default (record {
    unique = λ j. ground (
      arith,
      ids_put (fresh (map undefault rows)) j new (map undefault rows),
      ids_undefault j rows,
      h.unique j,
    );
    one = ground (
      arith,
      default,
      defaults-put (fresh (map undefault rows)) new (map undefault rows),
      none_default rows,
    );
  })
  | inr ordinary ↦ rw ordinary (record {
    unique = λ j. ground (arith, ids_put (fresh rows) j new rows, h.unique j);
    one = ground (arith, ordinary, defaults-put (fresh rows) new rows, h.one);
  })
]

update-OneDefault :
    (id : ℕ) (new : RuleSet) (rows : Table RuleSet)
    → OneDefault rows
    → OneDefault (kept rows (update_rule_set id new rows))
unfolding update_rule_set
update-OneDefault id new rows h = elim (Option-cases (find id rows)) [
  | inl missing ↦ rw missing h
  | inr (old, found) ↦ rw found (elim (Bool-cases (new.is_default && not old.is_default)) [
    | inl becomes ↦ rw becomes (record {
      unique = λ j.
          ground (arith, ids_put id j new (cleared id rows), ids_cleared id j rows, h.unique j);
      one = put-cleared id old new rows (h.unique id) found;
    })
    | inr stays ↦ rw stays (record {
      unique = λ j. ground (arith, ids_put id j new rows, h.unique j);
      one =
          ground (arith, stays, h.one, defaults-put id new rows, put_default id old new rows found);
    })
  ])
]

delete-OneDefault :
    (id : ℕ) (rows : Table RuleSet)
    → OneDefault rows
    → OneDefault (kept rows (delete_rule_set id rows))
unfolding delete_rule_set
delete-OneDefault id rows h =
    let removed : OneDefault (remove id rows) = record {
      unique = λ j. omega (arith, ids_remove id j rows, h.unique j);
      one = omega (arith, defaults-remove id rows, h.one);
    } in
    elim (Option-cases (find id rows)) [
      | inl missing ↦ rw missing h
      | inr (s, found) ↦ rw found (elim (Bool-cases s.is_default) [
        | inl default ↦ rw default h
        | inr ordinary ↦
            rw ordinary (elim (Bool-cases (s.is_active && count (is_other_active id) rows == 0)) [
              | inl only ↦ rw only h
              | inr others ↦ rw others removed
            ])
      ])
    ]

unfoldable pub serve_rule_sets : List RuleSetRequest → Table RuleSet → Table RuleSet
unfolding serve_rule_set
serve_rule_sets [] rows = rows
serve_rule_sets (request ∷ requests) rows = serve_rule_sets requests (serve_rule_set request rows)

serve_rule_set-OneDefault :
    (request : RuleSetRequest) (rows : Table RuleSet)
    → OneDefault rows
    → OneDefault (serve_rule_set request rows)
unfolding serve_rule_set
serve_rule_set-OneDefault (create new) rows h = create-OneDefault new rows h
serve_rule_set-OneDefault (update id new) rows h = update-OneDefault id new rows h
serve_rule_set-OneDefault (delete id) rows h = delete-OneDefault id rows h

-- Whatever requests on rule sets were served: if before them at most one rule set was the default and
-- no primary key occurred twice, then so it is afterwards.
pub serve_rule_sets-OneDefault :
    (requests : List RuleSetRequest) (rows : Table RuleSet)
    → OneDefault rows
    → OneDefault (serve_rule_sets requests rows)
unfolding serve_rule_sets
serve_rule_sets-OneDefault [] rows h = h
serve_rule_sets-OneDefault (request ∷ requests) rows h =
    serve_rule_sets-OneDefault requests _ (serve_rule_set-OneDefault request rows h)
