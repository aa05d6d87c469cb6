-- ===== src/Attendance/Names.antt =====
-- The names "member:<id>" that task_service.py writes and parses.
use mathlib.Core.List.{◌++◌}
use seraphim.Common.{ℕ, ◌≡◌, some, [], ◌∷◌, arith}
use seraphim.Common.Text.{
  codes, show, split, split_lone, contains-show, parse_int-show, starts_with-append,
}
use seraphim.Attendance.{member_name, member_id}

split_member : (n : ℕ) → split b':' (codes "member:" ++ show n) ≡ codes "member" ∷ show n ∷ []
unfolding split
split_member n = rw (split_lone b':' (show n) (contains-show b':' n (omega arith)))

-- Parsing the synthetic name of a member gives the member's id back.
pub member_id-member_name : (n : ℕ) → member_id (some (member_name n)) ≡ some n
unfolding member_id member_name
member_id-member_name n =
    rw (starts_with-append (codes "member:") (show n)) (rw split_member (parse_int-show n))
