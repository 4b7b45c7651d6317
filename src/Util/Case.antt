-- ===== src/Util/Case.antt =====
-- src/util/case.c and the macros of src/util/case.h: letter case of strings. A string is its chars
-- before the NUL, past which `char_of` reads the NUL; `none` is NULL.
pub mod Laws
use pocketsphinx.Base.{
  ℕ, zero, suc, ◌+◌, Bool, ◌&&◌, Option, none, some, List, [], ◌∷◌, ℤ, pos, negsuc, ◌-ℤ◌, map, leb,
  if◌then◌else◌,
}
use pocketsphinx.Util.HashTable.{upper_char, char_of, after, is_zero}

-- `LOWER_CASE`
unfoldable pub lower_char : ℤ → ℤ
lower_char (pos c) = pos (if leb b'A' c && leb c b'Z' then c + 32 else c)
lower_char (negsuc c) = negsuc c

unfoldable pub lcase : Option (List ℤ) → Option (List ℤ)
lcase none = none
lcase (some cp) = some (map lower_char cp)

unfoldable pub ucase : Option (List ℤ) → Option (List ℤ)
ucase none = none
ucase (some cp) = some (map upper_char cp)

-- The loop of `strcmp_nocase`; in the first clause `c1` is the NUL.
unfoldable pub strcmp_loop : List ℤ → List ℤ → ℤ
strcmp_loop [] str2 = upper_char (pos 0) -ℤ upper_char (char_of str2)
strcmp_loop (c ∷ str1) str2 =
    let c1 = upper_char c in
    let d = c1 -ℤ upper_char (char_of str2) in
    let rest = strcmp_loop str1 (after str2) in
    if is_zero d then if is_zero c1 then pos 0 else rest else d

-- Two NULLs are one pointer; a string compared with itself goes through the loop here.
unfoldable pub strcmp_nocase : Option (List ℤ) → Option (List ℤ) → ℤ
unfolding strcmp_loop
strcmp_nocase none none = pos 0
strcmp_nocase none (some str2) = negsuc 0
strcmp_nocase (some str1) none = pos 1
strcmp_nocase (some str1) (some str2) = strcmp_loop str1 str2

-- The loop of `strncmp_nocase`.
unfoldable pub strncmp_loop : ℕ → List ℤ → List ℤ → ℤ
strncmp_loop zero str1 str2 = pos 0
strncmp_loop (suc n) str1 str2 =
    let c1 = upper_char (char_of str1) in
    let d = c1 -ℤ upper_char (char_of str2) in
    let rest = strncmp_loop n (after str1) (after str2) in
    if is_zero d then if is_zero c1 then pos 0 else rest else d

unfoldable pub strncmp_nocase : Option (List ℤ) → Option (List ℤ) → ℕ → ℤ
unfolding strncmp_loop
strncmp_nocase none str2 len = negsuc 0
strncmp_nocase (some str1) none len = pos 1
strncmp_nocase (some str1) (some str2) len = strncmp_loop len str1 str2
