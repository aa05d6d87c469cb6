-- ===== src/Dedup.antt =====
-- backend/app/services/dedup.py: the cache of the faces seen in the last minute. A text key or hash
-- stands with the second at which it was seen.
pub mod Window
use seraphim.Common.{
  ℕ, ◌+◌, ◌*◌, Bool, true, false, ◌&&◌, Option, none, some, List, [], ◌∷◌, ◌++◌, map, ltb, length,
  where_, any, is_some, if◌then◌else◌,
}
use seraphim.Common.Text.{Text, text_eq, is_empty}

abbrev pub window_seconds : ℕ
window_seconds = 60

abbrev pub max_hashes : ℕ
max_hashes = 100

pub record DedupCache : Type 0 where
  pub seen : List (Text × ℕ)
  pub unknown_hashes : List (Text × ℕ)

-- `(now - seen_at).total_seconds() < WINDOW_SECONDS`.
abbrev pub in_window : ℕ → ℕ → Bool
in_window now seen_at = ltb now (seen_at + window_seconds)

unfoldable pub last_seen : Text → List (Text × ℕ) → Option ℕ
last_seen key [] = none
last_seen key ((k, t) ∷ entries) = if text_eq k key then some t else last_seen key entries

unfoldable pub mark_seen : Text → ℕ → List (Text × ℕ) → List (Text × ℕ)
mark_seen key now [] = (key, now) ∷ []
mark_seen key now ((k, t) ∷ entries) =
    if text_eq k key then (k, now) ∷ entries else (k, t) ∷ mark_seen key now entries

abbrev pub drop_oldest : List (Text × ℕ) → List (Text × ℕ)
drop_oldest [] = []
drop_oldest (x ∷ xs) = xs

-- `deque(maxlen=100).append`.
unfoldable pub append_hash : Text × ℕ → List (Text × ℕ) → List (Text × ℕ)
append_hash entry hashes =
    let longer = hashes ++ entry ∷ [] in
    if ltb max_hashes (length longer) then drop_oldest longer else longer

abbrev pub recent : Option ℕ → ℕ → Bool
recent none now = false
recent (some t) now = in_window now t

-- A known subject is a duplicate within the window of its last sighting that was none.
unfoldable pub seen_subject : Text → ℕ → DedupCache → Bool × DedupCache
seen_subject subject_id now c =
    if recent (last_seen subject_id c.seen) now
    then (true, c)
    else (false, record c { seen = mark_seen subject_id now c.seen })

abbrev pub same_hash : Text → ℕ → Text × ℕ → Bool
same_hash hash now (h, t) = text_eq h hash && in_window now t

unfoldable pub seen_hash : Text → ℕ → DedupCache → Bool × DedupCache
seen_hash hash now c =
    if any (same_hash hash now) c.unknown_hashes
    then (true, c)
    else (false, record c { unknown_hashes = append_hash (hash, now) c.unknown_hashes })

unfoldable pub seen_crop : Option Text → ℕ → DedupCache → Bool × DedupCache
unfolding seen_hash
seen_crop none now c = (false, c)
seen_crop (some hash) now c = seen_hash hash now c

-- `is_duplicate`; an empty subject id counts as none. `hash` is the hash of the crop, if there is
-- a crop.
unfoldable pub is_duplicate : Option Text → Option Text → ℕ → DedupCache → Bool × DedupCache
unfolding seen_subject seen_crop
is_duplicate none hash now c = seen_crop hash now c
is_duplicate (some subject_id) hash now c =
    if is_empty subject_id then seen_crop hash now c else seen_subject subject_id now c

unfoldable pub sum : List ℕ → ℕ
sum [] = 0
sum (g ∷ grays) = g + sum grays

-- `_hash_face` from the 64 gray values that OpenCV resizes the crop to: which exceed their mean.
unfoldable pub hash_face : List ℕ → Text
unfolding sum
hash_face grays = map (λ g. if ltb (sum grays) (g * length grays) then b'1' else b'0') grays

unfoldable pub cleanup : ℕ → DedupCache → DedupCache
cleanup now c = record {
  seen = where_ (λ (e : Text × ℕ). in_window now e.1) c.seen;
  unknown_hashes = where_ (λ (e : Text × ℕ). in_window now e.1) c.unknown_hashes;
}
