-- ===== src/Invariants/Dual.antt =====
-- Dual approval, from an empty database.
use seraphim.Common.{ℕ, ◌≤◌, ◌≡◌, refl, none, some, List, count, arith, true}
use seraphim.Common.Table.{find}
use seraphim.Models.{Task}
use seraphim.Review.{approval_on, approval_by}
use seraphim.Requests.{Surroundings, Request, serve, empty}
use seraphim.Invariants.Approvals.{Counted, serve-Counted}
use seraphim.Invariants.Resolutions.{Settled, serve-Settled, is_resolved, override_on}

pub empty-Counted : Counted empty.tasks empty.actions
unfolding count find
empty-Counted = record { counted = λ i t e. cc; unknown = λ i e. refl; once = λ i v. omega arith }

pub empty-Settled : Settled empty.tasks empty.actions
unfolding find
empty-Settled = record { settled = λ i t e r. cc }

-- Whatever requests were served from an empty database: a resolved task that no admin overrode and
-- no admin answered in the pit has at least as many approvals as it requires, each by a volunteer
-- of its own.
pub serve-approved :
    (requests : List (Surroundings × Request)) (i : ℕ) (t : Task)
    → find i (serve requests empty).tasks ≡ some t
    → is_resolved t.status ≡ true
    → t.pit_status ≡ none
    → count (override_on i) (serve requests empty).actions ≡ 0
    → (t.required_approvals ≤ count (approval_on i) (serve requests empty).actions)
      × ((v : ℕ) → count (approval_by i v) (serve requests empty).actions ≤ 1)
serve-approved requests i t row resolved no_pit no_override =
    let counted = serve-Counted requests empty empty-Counted in
    let settled = serve-Settled requests empty empty-Settled in
    (ground (arith, counted.counted i t row, settled.settled i t row resolved), counted.once i)
