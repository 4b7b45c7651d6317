-- ===== src/Fsg/Model/Start.antt =====
-- A new grammar.
use pocketsphinx.Base.{ℕ, false, ◌≤◌, ◌≡◌, refl, none}
use pocketsphinx.Util.HashTable.{hash_table_new}
use pocketsphinx.Util.HashTable.Start.{hash_table_new_lem}
use pocketsphinx.Fsg.Model.{fsg_model_init, fsg_model_null_trans}
use pocketsphinx.Fsg.Model.Nulls.{IsModel, prob}

nocase-new : (size : ℕ) → (hash_table_new size false).nocase ≡ false
unfolding hash_table_new
nocase-new size = refl

-- A new grammar is well formed and has no null transition, for as many states as an int32 can count.
pub fsg_model_init_lem :
    (n : ℕ)
    → n ≤ 2147483648
    → IsModel (fsg_model_init n) × ((i j : ℕ) → prob (fsg_model_init n) i j ≡ none)
unfolding fsg_model_init fsg_model_null_trans
fsg_model_init_lem n small = (
  record {
    small = small;
    tables = λ i. ((hash_table_new_lem 5 false).0, nocase-new 5);
    found = λ i j p l e. cc;
    listed = λ i e mem. elim mem [ ];
  },
  λ i j. refl,
)
