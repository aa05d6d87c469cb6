-- ===== src/Merge/Merging.antt =====
-- `merge_contacts` of dedupe_service.py. `pre` are the contacts that the first checks read, the store
-- is what the row locks then find. CompreFace's answers and the recomputation's are a `World`. An error
-- rolls back, and the store stays.
use seraphim.Common.{
  ℕ, ◌+◌, Bool, true, not, ◌&&◌, ◌||◌, Option, none, some, List, [], ◌∷◌, ◌++◌, leb, ◌==◌, map,
  if◌then◌else◌,
}
use seraphim.Common.Table.{Table, find, put}
use seraphim.Common.Text.{Text, text_eq}
use seraphim.Consent.{BiometricConsent}
use seraphim.Merge.{ContactRow, CustomFieldDef, Rows, Stats}
use seraphim.Merge.Contacts.{Reassigned, apply_choices, reassign_all}
use seraphim.Merge.RuleSets.{RuleSet, get_active_rule_set}
use seraphim.NameMatch.{join, tokens}
use seraphim.Session.{Fault, Result, ok, err}

-- A blank of ASCII becomes a space, a capital its small letter.
abbrev blank : ℕ → ℕ
blank c = if (leb 9 c && leb c 13) || (leb 28 c && leb c 31) then b' ' else c

abbrev lower : ℕ → ℕ
lower c = if leb b'A' c && leb c b'Z' then c + 32 else c

-- normalize.py, for texts in ASCII: the words with one space between.
unfoldable pub name_key : Text → Text → Text
name_key first last = map lower (join (tokens (map blank (first ++ b' ' ∷ last))))

abbrev text_or_empty : Option Text → Text
text_or_empty none = []
text_or_empty (some s) = s

unfoldable pub contact_key : ContactRow → Text
unfolding name_key
contact_key c = name_key (text_or_empty c.first_name) (text_or_empty c.last_name)

abbrev pub is_same_name : ContactRow → ContactRow → Bool
is_same_name a b = text_eq (contact_key a) (contact_key b)

pub record MergeRequest : Type 0 where
  pub survivor_id : ℕ
  pub loser_id : ℕ
  pub actor_id : Option ℕ
  pub confirm_same_name : Bool
  pub field_choices : List (Text × Text)

pub record MergeAudit : Type 0 where
  pub actor_id : Option ℕ
  pub entity_id : ℕ
  pub before : ContactRow
  pub loser : ContactRow
  pub loser_consent : Option BiometricConsent
  pub after : ContactRow
  pub stats : Stats
  pub rule_set_id : Option ℕ
  pub same_name : Bool
  pub loser_id : ℕ

pub record Store : Type 0 where
  pub contacts : Table ContactRow
  pub rows : Rows
  pub field_defs : List CustomFieldDef
  pub rule_sets : Table RuleSet
  pub audit : List MergeAudit

pub record World : Type 0 where
  pub client_starts : Bool
  pub deletes : Text → Bool
  pub recomputes : Bool

pub data Warning : Type 0 where
  cleanup_incomplete cleanup_skipped recompute_failed : Warning

pub record MergeOutcome : Type 0 where
  pub survivor_id : ℕ
  pub reassignments : Stats
  pub warnings : List Warning

-- Phase 1.
abbrev pub check_pair : Bool → Option ContactRow → Option ContactRow → Result Bool
check_pair confirmed none l = err Fault.contact_not_found
check_pair confirmed (some s) none = err Fault.contact_not_found
check_pair confirmed (some s) (some l) =
    if s.is_deleted || l.is_deleted
    then err Fault.contact_deleted
    else if is_same_name s l && not confirmed
    then err Fault.same_name_unconfirmed
    else ok (is_same_name s l)

abbrev pub check_request : MergeRequest → Table ContactRow → Result Bool
check_request q pre =
    if q.survivor_id == q.loser_id
    then err Fault.same_contact
    else check_pair q.confirm_same_name (find q.survivor_id pre) (find q.loser_id pre)

-- Phase 2: the locked rows, which `scalar_one` wants to be there.
abbrev pub check_locked : Option ContactRow → Option ContactRow → Result (ContactRow × ContactRow)
check_locked none l = err Fault.no_row
check_locked (some s) none = err Fault.no_row
check_locked (some s) (some l) =
    if s.is_deleted || l.is_deleted then err Fault.contact_deleted else ok (s, l)

abbrev lost_consent : Option BiometricConsent → Option BiometricConsent → Option BiometricConsent
lost_consent (some loser) (some survivor) = some loser
lost_consent (some loser) none = none
lost_consent none survivor = none

abbrev rule_set_id : Result (ℕ × RuleSet) → Option ℕ
rule_set_id (ok (id, s)) = some id
rule_set_id (err e) = none

abbrev row_or : ContactRow → Option ContactRow → ContactRow
row_or old none = old
row_or old (some c) = c

-- The survivor when its fields are chosen.
abbrev pub chosen : MergeRequest → ContactRow → ContactRow → Table ContactRow → ContactRow
chosen q s l contacts = apply_choices l q.field_choices (row_or s (find q.survivor_id contacts))

-- Phases 4b to 7.
abbrev pub settle : MergeRequest → Bool → Store → ContactRow → ContactRow → Reassigned → Store
settle q same st s l done = record {
  contacts =
      put q.loser_id (record l { is_deleted = true })
        (put q.survivor_id (chosen q s l done.contacts) done.contacts);
  rows = done.rows;
  field_defs = st.field_defs;
  rule_sets = st.rule_sets;
  audit =
      st.audit
      ++ record {
        actor_id = q.actor_id;
        entity_id = q.survivor_id;
        before = s;
        loser = l;
        loser_consent =
            lost_consent (find q.loser_id st.rows.consents) (find q.survivor_id st.rows.consents);
        after = chosen q s l done.contacts;
        stats = done.stats;
        rule_set_id = rule_set_id (get_active_rule_set st.rule_sets none);
        same_name = same;
        loser_id = q.loser_id;
      }
        ∷ [];
}

-- Phase 8.
unfoldable pub purge_warnings : (Text → Bool) → List Text → List Warning
purge_warnings deletes [] = []
purge_warnings deletes (id ∷ ids) =
    let rest = purge_warnings deletes ids in
    if deletes id then rest else Warning.cleanup_incomplete ∷ rest

abbrev clean_up : World → List Text → List Warning
clean_up w [] = []
clean_up w (id ∷ ids) =
    if w.client_starts then purge_warnings w.deletes (id ∷ ids) else Warning.cleanup_skipped ∷ []

abbrev recompute_warnings : World → List Warning
recompute_warnings w = if w.recomputes then [] else Warning.recompute_failed ∷ []

abbrev pub finish_merge :
    World
    → MergeRequest
    → Bool
    → Store
    → ContactRow
    → ContactRow
    → Result Reassigned
    → Result MergeOutcome × Store
finish_merge w q same st s l (err e) = (err Fault.merge_failed, st)
finish_merge w q same st s l (ok done) = (
  ok (record {
    survivor_id = q.survivor_id;
    reassignments = done.stats;
    warnings = clean_up w done.purge ++ recompute_warnings w;
  }),
  settle q same st s l done,
)

abbrev pub merge_locked :
    World
    → MergeRequest
    → Bool
    → Store
    → Result (ContactRow × ContactRow)
    → Result MergeOutcome × Store
merge_locked w q same st (err e) = (err e, st)
merge_locked w q same st (ok (s, l)) =
    finish_merge w q same st s l
      (reassign_all q.survivor_id q.loser_id st.field_defs st.contacts st.rows)

abbrev pub merge_checked : World → MergeRequest → Store → Result Bool → Result MergeOutcome × Store
merge_checked w q st (err e) = (err e, st)
merge_checked w q st (ok same) =
    merge_locked w q same st
      (check_locked (find q.survivor_id st.contacts) (find q.loser_id st.contacts))

unfoldable pub merge_contacts :
    World → MergeRequest → Table ContactRow → Store → Result MergeOutcome × Store
unfolding contact_key purge_warnings
merge_contacts w q pre st = merge_checked w q st (check_request q pre)
