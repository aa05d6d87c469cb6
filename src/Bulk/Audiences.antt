-- ===== src/Bulk/Audiences.antt =====
-- `resolve_audience` of audience.py: the ids of the contacts, in the order of the table. There is no
-- module criteria_compiler in the repository: its import fails.
use seraphim.Common.{
  ℕ, Bool, not, ◌&&◌, ◌||◌, Option, none, some, List, ◌==◌, any, where_, map, if◌then◌else◌,
}
use seraphim.Common.Table.{Table, find}
use seraphim.Merge.{GroupMember}
use seraphim.Session.{Fault, Result, ok, err}

pub data AudienceMode : Type 0 where
  all ids group saved_search : AudienceMode

pub data GroupType : Type 0 where
  static smart : GroupType

-- `AudienceSelector` has no `group_type`; another object that is passed for it may.
pub record Audience : Type 0 where
  pub mode : AudienceMode
  pub contact_ids : List ℕ
  pub group_id : Option ℕ
  pub group_type : Option GroupType
  pub saved_search_id : Option ℕ
  pub include_deleted : Bool

-- Whether each contact is deleted, the groups and the saved searches.
pub record Contacts : Type 0 where
  pub contacts : Table Bool
  pub groups : Table GroupType
  pub group_members : List GroupMember
  pub saved_searches : List ℕ

abbrev pub contact_ids : (ℕ × Bool → Bool) → Table Bool → List ℕ
contact_ids p rows = map (λ (row : ℕ × Bool). row.0) (where_ p rows)

-- `_base_select`.
abbrev pub is_base : Bool → ℕ × Bool → Bool
is_base include_deleted (id, deleted) = include_deleted || not deleted

abbrev is_chosen : Audience → ℕ × Bool → Bool
is_chosen a (id, deleted) =
    is_base a.include_deleted (id, deleted) && any (λ j. j == id) a.contact_ids

abbrev is_member : Audience → List GroupMember → ℕ → ℕ × Bool → Bool
is_member a members g (id, deleted) =
    is_base a.include_deleted (id, deleted)
    && any (λ m. m.group_id == g && m.contact_id == id) members

-- The type that the selector gives comes before the group's.
abbrev pub type_of : Option GroupType → GroupType → GroupType
type_of none own = own
type_of (some given_) own = given_

abbrev pub of_type : Contacts → Audience → ℕ → GroupType → Result (List ℕ)
of_type db a id GroupType.static = ok (contact_ids (is_member a db.group_members id) db.contacts)
of_type db a id GroupType.smart = err Fault.criteria_unavailable

abbrev pub of_group : Contacts → Audience → ℕ → Option GroupType → Result (List ℕ)
of_group db a id none = err Fault.group_not_found
of_group db a id (some own) = of_type db a id (type_of a.group_type own)

abbrev pub with_group : Contacts → Audience → Option ℕ → Result (List ℕ)
with_group db a none = err Fault.group_required
with_group db a (some id) = of_group db a id (find id db.groups)

abbrev pub with_search : Contacts → Option ℕ → Result (List ℕ)
with_search db none = err Fault.search_required
with_search db (some id) =
    if any (λ j. j == id) db.saved_searches
    then err Fault.criteria_unavailable
    else err Fault.search_not_found

abbrev pub by_mode : Contacts → Audience → AudienceMode → Result (List ℕ)
by_mode db a AudienceMode.all = ok (contact_ids (is_base a.include_deleted) db.contacts)
by_mode db a AudienceMode.ids = ok (contact_ids (is_chosen a) db.contacts)
by_mode db a AudienceMode.group = with_group db a a.group_id
by_mode db a AudienceMode.saved_search = with_search db a.saved_search_id

unfoldable pub resolve_audience : Contacts → Audience → Result (List ℕ)
resolve_audience db a = by_mode db a a.mode
