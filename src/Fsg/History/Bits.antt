-- ===== src/Fsg/History/Bits.antt =====
-- Set subtraction on context sets, bit by bit.
use pocketsphinx.Base.{
  ℕ, zero, suc, ◌≡◌, refl, Bool, true, false, ◌&&◌, not, [], ◌∷◌, get_or, arith,
}
use pocketsphinx.Fsg.History.{
  Word, Context, sub_word, or_word, ctxt_sub, fsg_pnode_ctxt_sub, is_zero_word,
}

-- Whether context `b` of word `w` is in the set.
abbrev pub bit : Context → ℕ → ℕ → Bool
bit c w b = get_or (get_or c w []) b false

sub_word_bit :
    (s t : Word) (b : ℕ)
    → get_or (sub_word s t) b false ≡ (get_or s b false && not (get_or t b false))
unfolding sub_word
sub_word_bit [] t b = refl
sub_word_bit (x ∷ s) [] zero = ground arith
sub_word_bit (x ∷ s) [] (suc b) = ground arith
sub_word_bit (x ∷ s) (y ∷ t) zero = ground arith
sub_word_bit (x ∷ s) (y ∷ t) (suc b) = sub_word_bit s t b

bit-ctxt_sub :
    (src sub : Context) (res : Word) (w b : ℕ)
    → bit (ctxt_sub src sub res).0 w b ≡ (bit src w b && not (bit sub w b))
unfolding ctxt_sub
bit-ctxt_sub [] sub res w b = refl
bit-ctxt_sub (x ∷ src) [] res zero b = ground arith
bit-ctxt_sub (x ∷ src) [] res (suc w) b = bit-ctxt_sub src [] (or_word res x) w b
bit-ctxt_sub (x ∷ src) (y ∷ sub) res zero b = sub_word_bit x y b
bit-ctxt_sub (x ∷ src) (y ∷ sub) res (suc w) b =
    bit-ctxt_sub src sub (or_word res (sub_word x y)) w b

is_zero-or : (s t : Word) → is_zero_word (or_word s t) ≡ (is_zero_word s && is_zero_word t)
unfolding or_word is_zero_word
is_zero-or [] t = refl
is_zero-or (x ∷ s) [] = ground arith
is_zero-or (x ∷ s) (y ∷ t) = ground (arith, is_zero-or s t)

zero_word_bit : (s : Word) (b : ℕ) → is_zero_word s ≡ true → get_or s b false ≡ false
unfolding is_zero_word
zero_word_bit [] b h = refl
zero_word_bit (x ∷ s) zero h = ground arith
zero_word_bit (x ∷ s) (suc b) h = zero_word_bit s b (ground arith)

-- A union that is 0 has only empty words, the words before it included.
ctxt_sub_zero :
    (src sub : Context) (res : Word) (w b : ℕ)
    → is_zero_word (ctxt_sub src sub res).1 ≡ true
    → (is_zero_word res ≡ true) × (bit (ctxt_sub src sub res).0 w b ≡ false)
unfolding ctxt_sub
ctxt_sub_zero [] sub res w b h = (h, refl)
ctxt_sub_zero (x ∷ src) [] res zero b h =
    let r = ctxt_sub_zero src [] (or_word res x) zero b h in
    (ground (arith, is_zero-or res x), zero_word_bit x b (ground (arith, is_zero-or res x)))
ctxt_sub_zero (x ∷ src) [] res (suc w) b h =
    let r = ctxt_sub_zero src [] (or_word res x) w b h in (ground (arith, is_zero-or res x), r.1)
ctxt_sub_zero (x ∷ src) (y ∷ sub) res zero b h =
    let z = sub_word x y in
    let r = ctxt_sub_zero src sub (or_word res z) zero b h in
    (ground (arith, is_zero-or res z), zero_word_bit z b (ground (arith, is_zero-or res z)))
ctxt_sub_zero (x ∷ src) (y ∷ sub) res (suc w) b h =
    let z = sub_word x y in
    let r = ctxt_sub_zero src sub (or_word res z) w b h in (ground (arith, is_zero-or res z), r.1)

pub sub_bit :
    (src sub : Context) (w b : ℕ)
    → bit (fsg_pnode_ctxt_sub src sub).0 w b ≡ (bit src w b && not (bit sub w b))
unfolding fsg_pnode_ctxt_sub
sub_bit src sub w b = bit-ctxt_sub src sub [] w b

pub sub_zero :
    (src sub : Context) (w b : ℕ)
    → is_zero_word (fsg_pnode_ctxt_sub src sub).1 ≡ true
    → bit (fsg_pnode_ctxt_sub src sub).0 w b ≡ false
unfolding fsg_pnode_ctxt_sub
sub_zero src sub w b h = (ctxt_sub_zero src sub [] w b h).1
