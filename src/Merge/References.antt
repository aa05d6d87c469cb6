-- ===== src/Merge/References.antt =====
-- The fields of `custom_data` that refer to contacts.
use seraphim.Common.{
  ℕ, Bool, true, false, not, ◌&&◌, ◌||◌, Option, none, some, List, [], ◌∷◌, map, ◌==◌, any, count,
  if◌then◌else◌,
}
use seraphim.Common.Int.{pos}
use seraphim.Common.Table.{Table}
use seraphim.Common.Text.{Text}
use seraphim.CustomData.{
  CustomData, Scalar, Value, one, many, int, scalar_eq, list_eq, distinct, get, set,
}
use seraphim.Merge.{ContactRow, CustomFieldDef, DataType}

abbrev pub is_reference : CustomFieldDef → Bool
is_reference d = elim d.data_type [ DataType.contact_reference ↦ true | _ ↦ false ]

unfoldable pub reference_names : List CustomFieldDef → List Text
reference_names [] = []
reference_names (d ∷ defs) =
    let rest = reference_names defs in if is_reference d then d.name ∷ rest else rest

-- `item == lid`.
abbrev pub is_id : ℕ → Scalar → Bool
is_id id item = scalar_eq item (int (pos id))

abbrev pub replace : ℕ → ℕ → Scalar → Scalar
replace sid lid item = if is_id lid item then int (pos sid) else item

-- The new value of a field, and whether it is written.
abbrev pub replace_value : ℕ → ℕ → Value → Bool × Value
replace_value sid lid (one item) = (is_id lid item, one (int (pos sid)))
replace_value sid lid (many items) =
    let new = distinct (map (replace sid lid) items) in (not (list_eq new items), many new)

abbrev pub store_value : Text → Bool × Value → Bool × CustomData → Bool × CustomData
store_value name (changed, value) (modified, entries) =
    if changed then (true, set name value entries) else (modified, entries)

abbrev pub rewrite_field : ℕ → ℕ → Text → Option Value → Bool × CustomData → Bool × CustomData
rewrite_field sid lid name none state = state
rewrite_field sid lid name (some value) state = store_value name (replace_value sid lid value) state

-- The loop over the names: `modified` and `cd`.
unfoldable pub rewrite_data : ℕ → ℕ → List Text → Bool × CustomData → Bool × CustomData
rewrite_data sid lid [] state = state
rewrite_data sid lid (name ∷ names) state =
    rewrite_data sid lid names (rewrite_field sid lid name (get name state.1) state)

abbrev pub is_scanned : ℕ → ℕ × ContactRow → Bool
is_scanned lid (id, c) = not c.is_deleted && not (id == lid)

abbrev pub rewrite_row : ℕ → ℕ → List Text → ℕ × ContactRow → ℕ × ContactRow
rewrite_row sid lid names (id, c) =
    if is_scanned lid (id, c)
    then (id, record c { custom_data = (rewrite_data sid lid names (false, c.custom_data)).1 })
    else (id, c)

abbrev pub is_rewritten : ℕ → ℕ → List Text → ℕ × ContactRow → Bool
is_rewritten sid lid names (id, c) =
    is_scanned lid (id, c) && (rewrite_data sid lid names (false, c.custom_data)).0

unfoldable pub rewrite_references :
    ℕ → ℕ → List CustomFieldDef → Table ContactRow → ℕ × Table ContactRow
rewrite_references sid lid defs rows =
    let names = reference_names defs in
    (count (is_rewritten sid lid names) rows, map (rewrite_row sid lid names) rows)

-- A value refers to a contact.
abbrev pub refers : ℕ → Option Value → Bool
refers id none = false
refers id (some (one item)) = is_id id item
refers id (some (many items)) = any (is_id id) items

-- A contact that is not deleted refers to `id` in one of the fields.
unfoldable pub refers_in : ℕ → List Text → CustomData → Bool
refers_in id [] entries = false
refers_in id (name ∷ names) entries = refers id (get name entries) || refers_in id names entries

abbrev pub still_refers : ℕ → List Text → ℕ × ContactRow → Bool
still_refers id names (key, c) = not c.is_deleted && refers_in id names c.custom_data
