-- ===== src/Dedup/Window.antt =====
-- When the cache calls a face a duplicate.
use seraphim.Common.{Bool, true, false, Option, none, some, ◌∷◌}
use seraphim.Common.Text.{Text}

-- The subject id is not empty, or there is a crop.
abbrev pub is_identified : Option Text → Option Text → Bool
is_identified (some (c ∷ subject)) hash = true
is_identified _ (some hash) = true
is_identified _ none = false
