-- ===== src/Util/HashTable/Keys.antt =====
-- When a key matches an entry, and why keys that match have one hash.
use pocketsphinx.Base.{
  ℕ, zero, suc, ◌%◌, ◌≡◌, ◌↔◌, refl, sym, ap, ◌∙◌, Bool, true, false, List, [], ◌∷◌, ℤ, ◌-ℤ◌,
  if◌then◌else◌, length, length-map, map, arith, Bool-cases, inl, inr,
}
use pocketsphinx.Util.HashTable.{
  Entry, HashTable, upper_char, upper_word, to_u32, hash_loop, key2hash, char_of, after, is_zero,
  keycmp_case, keycmp_nocase, matches,
}

-- The key as far as the table tells keys apart.
abbrev pub norm : Bool → List ℤ → List ℤ
norm nocase key = if nocase then map upper_char key else key

pub is_zero-sub : (x y : ℤ) → is_zero (x -ℤ y) ≡ true → x ≡ y
unfolding ◌-ℤ◌
is_zero-sub x y h = ground arith

pub is_zero-sub_self : (x : ℤ) → is_zero (x -ℤ x) ≡ true
unfolding ◌-ℤ◌
is_zero-sub_self x = ground arith

char_of-map : (a : List ℤ) → char_of (map upper_char a) ≡ upper_char (char_of a)
unfolding upper_char
char_of-map [] = refl
char_of-map (x ∷ a) = refl

after-map : (a : List ℤ) → after (map upper_char a) ≡ map upper_char (after a)
after-map [] = refl
after-map (x ∷ a) = refl

keycmp_nocase-map :
    (n : ℕ) (a b : List ℤ)
    → keycmp_nocase n a b ≡ keycmp_case n (map upper_char a) (map upper_char b)
unfolding keycmp_nocase keycmp_case
keycmp_nocase-map zero a b = refl
keycmp_nocase-map (suc n) a b = rw (
  char_of-map a,
  char_of-map b,
  after-map a,
  after-map b,
  keycmp_nocase-map n (after a) (after b),
)

keycmp_eq :
    (n : ℕ) (a b : List ℤ)
    → length a ≡ n
    → length b ≡ n
    → is_zero (keycmp_case n a b) ≡ true
    → a ≡ b
unfolding keycmp_case
keycmp_eq zero [] [] la lb h = refl
keycmp_eq zero (x ∷ a) b la lb h = absurd (omega arith)
keycmp_eq zero [] (y ∷ b) la lb h = absurd (omega arith)
keycmp_eq (suc n) [] b la lb h = absurd (omega arith)
keycmp_eq (suc n) (x ∷ a) [] la lb h = absurd (omega arith)
keycmp_eq (suc n) (x ∷ a) (y ∷ b) la lb h = ground (arith, is_zero-sub x y, keycmp_eq n a b)

keycmp_self : (n : ℕ) (a : List ℤ) → is_zero (keycmp_case n a a) ≡ true
unfolding keycmp_case
keycmp_self zero a = refl
keycmp_self (suc n) a = rw (is_zero-sub_self (char_of a)) (keycmp_self n (after a))

hash_loop_congr :
    (word : ℤ → ℕ) (a b : List ℤ) (s hash : ℕ)
    → ((x y : ℤ) → upper_char x ≡ upper_char y → word x ≡ word y)
    → map upper_char a ≡ map upper_char b
    → hash_loop word a s hash ≡ hash_loop word b s hash
unfolding hash_loop
hash_loop_congr word [] [] s hash w e = refl
hash_loop_congr word [] (y ∷ b) s hash w e = cc
hash_loop_congr word (x ∷ a) [] s hash w e = cc
hash_loop_congr word (x ∷ a) (y ∷ b) s hash w e =
    let heads : upper_char x ≡ upper_char y = cc in
    let tails : map upper_char a ≡ map upper_char b = cc in
    rw (w x y heads) (hash_loop_congr word a b _ _ w tails)

upper_word_congr : (x y : ℤ) → upper_char x ≡ upper_char y → upper_word x ≡ upper_word y
unfolding upper_char
upper_word_congr x y h = ground arith

sum_congr :
    (nocase : Bool) (a b : List ℤ)
    → norm nocase a ≡ norm nocase b
    → (if nocase then hash_loop upper_word a 0 0 else hash_loop to_u32 a 0 0)
      ≡ (if nocase then hash_loop upper_word b 0 0 else hash_loop to_u32 b 0 0)
sum_congr true a b e = hash_loop_congr upper_word a b 0 0 upper_word_congr e
sum_congr false a b e = ap (λ (k : List ℤ). hash_loop to_u32 k 0 0) e

pub key2hash_congr :
    (h : HashTable) (a b : List ℤ) → norm h.nocase a ≡ norm h.nocase b → key2hash h a ≡ key2hash h b
unfolding key2hash
key2hash_congr h a b e = ap (λ (x : ℕ). x % h.size) (sum_congr h.nocase a b e)

length-norm : (nocase : Bool) (a : List ℤ) → length (norm nocase a) ≡ length a
length-norm true a = length-map a upper_char
length-norm false a = refl

abbrev keycmp : Bool → ℕ → List ℤ → List ℤ → ℤ
keycmp nocase n a b = if nocase then keycmp_nocase n a b else keycmp_case n a b

keycmp-norm :
    (nocase : Bool) (n : ℕ) (a b : List ℤ)
    → length a ≡ n
    → length b ≡ n
    → (is_zero (keycmp nocase n a b) ≡ true) ↔ (norm nocase a ≡ norm nocase b)
keycmp-norm true n a b la lb = rw (keycmp_nocase-map n a b) (
  keycmp_eq n (map upper_char a) (map upper_char b) (length-map a upper_char ∙ la)
      (length-map b upper_char ∙ lb),
  λ e. rw e (keycmp_self n (map upper_char b)),
)
keycmp-norm false n a b la lb = (keycmp_eq n a b la lb, λ e. rw e (keycmp_self n b))

-- An entry that knows the length of its key matches a key exactly if the two keys are equal char by
-- char, in upper case if the table ignores case.
pub matches-norm :
    (nocase : Bool) (e : Entry) (key : List ℤ)
    → e.len ≡ length e.key
    → (matches nocase e key (length key) ≡ true) ↔ (norm nocase e.key ≡ norm nocase key)
unfolding matches
matches-norm nocase e key wf = (
  λ m.
      let same : e.len ≡ length key = ground arith in
      (keycmp-norm nocase e.len e.key key (sym wf) (sym same)).0 (ground arith),
  λ q.
      let same : length key ≡ e.len =
        sym (length-norm nocase key) ∙ ap length (sym q) ∙ length-norm nocase e.key ∙ sym wf in
      ground (arith, (keycmp-norm nocase e.len e.key key (sym wf) same).1 q),
)

pub matches_congr :
    (nocase : Bool) (e : Entry) (a b : List ℤ)
    → e.len ≡ length e.key
    → norm nocase a ≡ norm nocase b
    → matches nocase e a (length a) ≡ matches nocase e b (length b)
matches_congr nocase e a b wf same =
    let (a₀, a₁) = matches-norm nocase e a wf in
    let (b₀, b₁) = matches-norm nocase e b wf in
    elim (Bool-cases (matches nocase e a (length a))) [
      | inl t ↦ t ∙ sym (b₁ (a₀ t ∙ same))
      | inr t ↦ elim (Bool-cases (matches nocase e b (length b))) [
        | inl u ↦ a₁ (b₀ u ∙ sym same) ∙ sym u
        | inr u ↦ t ∙ sym u
      ]
    ]
