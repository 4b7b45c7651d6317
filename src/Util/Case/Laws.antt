-- ===== src/Util/Case/Laws.antt =====
-- The comparisons without regard to case decide equality of the strings in upper case.
use pocketsphinx.Base.{
  ℕ, zero, suc, ◌≡◌, ◌↔◌, refl, sym, ap, Bool, true, false, not, ◌&&◌, none, some, List, [], ◌∷◌, ℤ,
  pos, map, length, ◌<◌, arith, Bool-cases, inl, inr, ◌-ℤ◌,
}
use pocketsphinx.Util.HashTable.{upper_char, char_of, after, is_zero}
use pocketsphinx.Util.HashTable.Keys.{is_zero-sub, is_zero-sub_self}
use pocketsphinx.Util.Case.{strcmp_loop, strncmp_loop, strcmp_nocase, strncmp_nocase, ucase}

-- No char is the NUL.
abbrev pub nul_free : List ℤ → Bool
nul_free [] = true
nul_free (c ∷ cs) = not (is_zero c) && nul_free cs

is_zero-upper : (c : ℤ) → is_zero (upper_char c) ≡ is_zero c
unfolding upper_char
is_zero-upper c = ground arith

zero_of : (c : ℤ) → is_zero c ≡ true → c ≡ pos 0
zero_of c h = ground arith

upper_zero : upper_char (pos 0) ≡ pos 0
unfolding upper_char
upper_zero = refl

is_zero-diff : (c : ℤ) → is_zero c ≡ false → is_zero (upper_char (pos 0) -ℤ upper_char c) ≡ false
unfolding ◌-ℤ◌ upper_char
is_zero-diff c h = ground arith

is_zero-diff' : (c : ℤ) → is_zero c ≡ false → is_zero (upper_char c -ℤ upper_char (pos 0)) ≡ false
unfolding ◌-ℤ◌ upper_char
is_zero-diff' c h = ground arith

equal_of :
    (s t : List ℤ)
    → nul_free s ≡ true
    → nul_free t ≡ true
    → is_zero (strcmp_loop s t) ≡ true
    → map upper_char s ≡ map upper_char t
unfolding strcmp_loop
equal_of [] [] hs ht e = refl
equal_of [] (y ∷ t) hs ht e = absurd (ground (arith, is_zero-diff y))
equal_of (x ∷ s) [] hs ht e = absurd (ground (arith, is_zero-diff' x))
equal_of (x ∷ s) (y ∷ t) hs ht e =
    ground (arith, is_zero-sub (upper_char x) (upper_char y), is_zero-upper x, equal_of s t)

zero_if :
    (s t : List ℤ)
    → nul_free s ≡ true
    → map upper_char s ≡ map upper_char t
    → is_zero (strcmp_loop s t) ≡ true
unfolding strcmp_loop
zero_if [] [] hs e = is_zero-sub_self (upper_char (pos 0))
zero_if [] (y ∷ t) hs e = cc
zero_if (x ∷ s) [] hs e = cc
zero_if (x ∷ s) (y ∷ t) hs e =
    let heads : upper_char x ≡ upper_char y = cc in
    let tails : map upper_char s ≡ map upper_char t = cc in
    let d : is_zero (upper_char x -ℤ upper_char y) ≡ true =
      rw heads (is_zero-sub_self (upper_char y)) in
    ground (arith, d, zero_if s t, tails)

-- Strings compare as equal exactly if they are equal in upper case; NULL is equal to NULL alone.
pub strcmp_nocase_lem :
    (s t : List ℤ)
    → nul_free s ≡ true
    → nul_free t ≡ true
    → ((strcmp_nocase (some s) (some t) ≡ pos 0) ↔ (ucase (some s) ≡ ucase (some t)))
      × (strcmp_nocase none none ≡ pos 0)
      × (is_zero (strcmp_nocase none (some t)) ≡ false)
      × (is_zero (strcmp_nocase (some s) none) ≡ false)
unfolding strcmp_nocase ucase
strcmp_nocase_lem s t hs ht = (
  (
    λ e. ap some (equal_of s t hs ht (ap is_zero e)),
    λ e. zero_of (strcmp_loop s t) (zero_if s t hs cc),
  ),
  refl,
  refl,
  refl,
)

bounded : (s t : List ℤ) (n : ℕ) → length s < n → strncmp_loop n s t ≡ strcmp_loop s t
unfolding strncmp_loop strcmp_loop
bounded s t zero h = absurd (omega arith)
bounded [] t (suc n) h = elim (Bool-cases (is_zero (pos 0 -ℤ upper_char (char_of t)))) [
  | inl e ↦ rw (upper_zero, e) (sym (zero_of (pos 0 -ℤ upper_char (char_of t)) e))
  | inr e ↦ rw (upper_zero, e)
]
bounded (x ∷ s) t (suc n) h = rw (bounded s (after t) n (omega arith))

-- The bounded comparison is the unbounded one when the bound exceeds the length of the first string.
pub strncmp-strcmp :
    (s t : List ℤ) (n : ℕ)
    → length s < n
    → strncmp_nocase (some s) (some t) n ≡ strcmp_nocase (some s) (some t)
unfolding strncmp_nocase strcmp_nocase
strncmp-strcmp s t n h = bounded s t n h
