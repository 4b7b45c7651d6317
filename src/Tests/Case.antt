-- ===== src/Tests/Case.antt =====
-- Runs of the comparisons without regard to case.
use pocketsphinx.Base.{◌≡◌, ◌↔◌, ℤ, List, none, some, [], ◌∷◌, pos, false, refl}
use pocketsphinx.Util.HashTable.{is_zero}
use pocketsphinx.Util.Case.{strcmp_nocase, ucase}
use pocketsphinx.Util.Case.Laws.{strcmp_nocase_lem}

abbrev one : List ℤ
one = pos b'O' ∷ pos b'n' ∷ pos b'e' ∷ []

abbrev one_more : List ℤ
one_more = pos b'o' ∷ pos b'N' ∷ pos b'e' ∷ pos b'!' ∷ []

strcmp_nocase_lem_example :
    ((strcmp_nocase (some one) (some one_more) ≡ pos 0)
      ↔ (ucase (some one) ≡ ucase (some one_more)))
    × (strcmp_nocase none none ≡ pos 0)
    × (is_zero (strcmp_nocase none (some one_more)) ≡ false)
    × (is_zero (strcmp_nocase (some one) none) ≡ false)
strcmp_nocase_lem_example = strcmp_nocase_lem one one_more refl refl
