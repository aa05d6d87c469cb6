-- ===== src/Merge/RuleSets.antt =====
-- The rule sets of dedupe_service.py. The caller commits at once; the name stands for itself.
use seraphim.Common.{
  ℕ, Bool, false, not, ◌&&◌, Option, none, some, List, [], ◌∷◌, ◌==◌, count, map, update_rows,
  if◌then◌else◌,
}
use seraphim.Common.Table.{Table, find, put, remove, fresh}
use seraphim.Common.Text.{Text}
use seraphim.Session.{Fault, Result, ok, err}

pub record Rule : Type 0 where
  pub field : Text
  pub weight : ℕ

pub record RuleSet : Type 0 where
  pub name : Text
  pub is_default : Bool
  pub is_active : Bool
  pub threshold : ℕ
  pub rules : List Rule

-- The first row of a query with `limit(1)`.
unfoldable pub first_row : (RuleSet → Bool) → Table RuleSet → Option (ℕ × RuleSet)
first_row p [] = none
first_row p ((id, s) ∷ rows) = let rest = first_row p rows in if p s then some (id, s) else rest

abbrev or_not_found : Option (ℕ × RuleSet) → Result (ℕ × RuleSet)
or_not_found none = err Fault.rule_set_not_found
or_not_found (some row) = ok row

abbrev with_id : ℕ → Option RuleSet → Result (ℕ × RuleSet)
with_id id none = err Fault.rule_set_not_found
with_id id (some s) = ok (id, s)

abbrev or_first : Table RuleSet → Option (ℕ × RuleSet) → Result (ℕ × RuleSet)
or_first rows (some row) = ok row
or_first rows none = or_not_found (first_row (λ s. s.is_active) rows)

abbrev pub choose_rule_set : Table RuleSet → Option ℕ → Result (ℕ × RuleSet)
choose_rule_set rows (some id) = with_id id (find id rows)
choose_rule_set rows none = or_first rows (first_row (λ s. s.is_default && s.is_active) rows)

unfoldable pub get_active_rule_set : Table RuleSet → Option ℕ → Result (ℕ × RuleSet)
unfolding first_row
get_active_rule_set rows id = choose_rule_set rows id

abbrev pub undefault : ℕ × RuleSet → ℕ × RuleSet
undefault (id, s) = (id, record s { is_default = false })

unfoldable pub create_rule_set : RuleSet → Table RuleSet → Table RuleSet
create_rule_set new rows =
    let cleared = if new.is_default then map undefault rows else rows in
    put (fresh cleared) new cleared

abbrev clear_others : ℕ → Table RuleSet → Table RuleSet
clear_others id rows = update_rows (λ (row : ℕ × RuleSet). not (row.0 == id)) undefault rows

abbrev update_row : ℕ → RuleSet → Option RuleSet → Table RuleSet → Result (Table RuleSet)
update_row id new none rows = err Fault.rule_set_not_found
update_row id new (some old) rows =
    ok (put id new (if new.is_default && not old.is_default then clear_others id rows else rows))

unfoldable pub update_rule_set : ℕ → RuleSet → Table RuleSet → Result (Table RuleSet)
update_rule_set id new rows = update_row id new (find id rows) rows

abbrev pub is_other_active : ℕ → ℕ × RuleSet → Bool
is_other_active id (k, s) = not (k == id) && s.is_active

abbrev delete_row : ℕ → Option RuleSet → Table RuleSet → Result (Table RuleSet)
delete_row id none rows = err Fault.rule_set_not_found
delete_row id (some s) rows =
    if s.is_default
    then err Fault.default_rule_set
    else if s.is_active && count (is_other_active id) rows == 0
    then err Fault.only_active_rule_set
    else ok (remove id rows)

unfoldable pub delete_rule_set : ℕ → Table RuleSet → Result (Table RuleSet)
delete_rule_set id rows = delete_row id (find id rows) rows
