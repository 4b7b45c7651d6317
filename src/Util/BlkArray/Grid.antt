-- ===== src/Util/BlkArray/Grid.antt =====
-- Rows and columns: where an id stands, and what a write to one cell of a grid does.
use pocketsphinx.Base.{
  ℕ, zero, suc, ◌+◌, ◌-◌, ◌*◌, ◌/◌, ◌≡◌, ◌<◌, ◌≤◌, refl, ap, ◌∙◌, ◌&&◌, ◌==◌, List, [], ◌∷◌, ◌++◌,
  if◌then◌else◌, length, get_or, set, arith, Bool-cases, inl, inr, get_or-set_self, get_or-set_ne,
}
use native.Mathlib.Nat.{div-add-mod', mul-add-div_right, div-eq_of_lt}
use native.Mathlib.Decide.{dec_lt}

-- Where `n` stands.
pub div_unique : (n b q c : ℕ) → n ≡ q * b + c → c < b → n / b ≡ q
div_unique n b q c e lt =
    rw e (mul-add-div_right {m = b} (omega arith) q c ∙ rw (div-eq_of_lt lt) (omega arith))

-- The rows and the free cell say where the next id stands.
pub next_cell :
    (n blk rows free : ℕ)
    → n + blk ≡ rows * blk + free
    → free < blk
    → (0 < rows) × (n ≡ (rows - 1) * blk + free)
next_cell n blk zero free e lt = absurd (omega arith)
next_cell n blk (suc rows) free e lt = (omega arith, grind arith)

module _ {ℓ} {A : Type ℓ} (g : List (List A)) (i j : ℕ) (x d : A) (li : i < length g)
    (lj : j < length (get_or g i [])) where
  -- Writing one cell of a grid.
  pub grid-set :
      (r c : ℕ)
      → get_or (get_or (set g i (set (get_or g i []) j x)) r []) c d
        ≡ (if r == i && c == j then x else get_or (get_or g r []) c d)
  grid-set r c = elim (Bool-cases (r == i)) [
    | inr ne ↦ rw (ne, get_or-set_ne g i r (set (get_or g i []) j x) [] (ground arith))
    | inl eq ↦
        let e : r ≡ i = ground arith in
        elim (Bool-cases (c == j)) [
          | inl eq' ↦
              let e' : c ≡ j = ground arith in
              rw (eq, eq', e, e', get_or-set_self g i (set (get_or g i []) j x) [] li)
                (get_or-set_self (get_or g i []) j x d lj)
          | inr ne ↦
              rw (eq, ne, e, get_or-set_self g i (set (get_or g i []) j x) [] li)
                (get_or-set_ne (get_or g i []) j c x d (ground arith))
        ]
  ]

pub next_filled :
    (n blk rows free : ℕ)
    → n + blk ≡ rows * blk + free
    → free ≡ blk
    → n + blk ≡ (rows + 1) * blk + 0
next_filled n blk rows free e f =
    let split : (rows + 1) * blk ≡ rows * blk + blk = grind arith in omega arith

pub row_of :
    (k n blk rows free : ℕ) → n + blk ≡ rows * blk + free → free ≡ blk → k < n → k / blk < rows
row_of k n blk rows free e f lt =
    let under : k < rows * blk = omega arith in
    let d = div-add-mod' k blk in
    elim (dec_lt (k / blk) rows) [
      | yes p ↦ p
      | no p ↦ let up : rows * blk ≤ k / blk * blk = grind arith in absurd (omega arith)
    ]

module _ {ℓ} {A : Type ℓ} where
  pub get_or-append :
      (xs ys : List A) (i : ℕ) (d : A) → i < length xs → get_or (xs ++ ys) i d ≡ get_or xs i d
  get_or-append [] ys i d h = absurd (omega arith)
  get_or-append (x ∷ xs) ys zero d h = refl
  get_or-append (x ∷ xs) ys (suc i) d h = get_or-append xs ys i d (omega arith)

  pub get_or-append_end :
      (xs : List A) (y : A) (i : ℕ) (d : A) → i ≡ length xs → get_or (xs ++ y ∷ []) i d ≡ y
  get_or-append_end [] y zero d h = refl
  get_or-append_end [] y (suc i) d h = absurd (omega arith)
  get_or-append_end (x ∷ xs) y zero d h = absurd (omega arith)
  get_or-append_end (x ∷ xs) y (suc i) d h = get_or-append_end xs y i d (omega arith)

module _ {ℓ} {A : Type ℓ} where
  -- The rows all keep their length when one is added.
  pub row_case :
      (g : List (List A)) (new : List A) (rows blk r : ℕ)
      → length g ≡ rows
      → length new ≡ blk
      → ((i : ℕ) → i < rows → length (get_or g i []) ≡ blk)
      → r < rows + 1
      → length (get_or (g ++ new ∷ []) r []) ≡ blk
  row_case g new rows blk r lg ln h lt = elim (dec_lt r rows) [
    | yes p ↦ rw (get_or-append g (new ∷ []) r [] (omega arith)) (h r p)
    | no p ↦ rw (get_or-append_end g new r [] (omega arith)) ln
  ]

-- An array with every id taken has its last row full.
pub last_row :
    (n rows blk maxblks free : ℕ)
    → n + blk ≡ rows * blk + free
    → n ≡ maxblks * blk
    → rows ≤ maxblks
    → free ≤ blk
    → 0 < blk
    → (rows ≡ maxblks) × (free ≡ blk)
last_row n rows blk maxblks free e full le lf pos = elim (dec_lt rows maxblks) [
  | yes p ↦ let up : rows * blk + blk ≤ maxblks * blk = grind arith in absurd (omega arith)
  | no p ↦
      let eq : rows ≡ maxblks = omega arith in
      let up : rows * blk ≡ maxblks * blk = grind arith in (eq, omega arith)
]

-- The rows that a list of `n` ids with no free cell fills.
pub more_rows :
    (n rows blk maxblks : ℕ) → n + blk ≡ rows * blk + blk → n < maxblks * blk → rows < maxblks
more_rows n rows blk maxblks e lt = elim (dec_lt rows maxblks) [
  | yes p ↦ p
  | no p ↦ let up : maxblks * blk ≤ rows * blk = grind arith in absurd (omega arith)
]

-- Two ids with one row and one column are one.
pub same_place : (n m blk : ℕ) → n / blk ≡ m / blk → n - n / blk * blk ≡ m - m / blk * blk → n ≡ m
same_place n m blk e e' =
    let q = ap (λ k. k * blk) e in
    let dn = div-add-mod' n blk in let dm = div-add-mod' m blk in omega arith
