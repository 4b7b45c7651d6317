-- ===== src/Tests/Glist.antt =====
-- Runs of the generic list.
use pocketsphinx.Base.{ℕ, pos, List, [], ◌∷◌}
use pocketsphinx.Util.Glist.{Value, int, uint}

abbrev mixed : List (Value ℕ)
mixed = int (pos 3) ∷ uint 4 ∷ []
