-- ===== src/PhoneLoop/Window.antt =====
-- The penalties are the greatest of the last frames.
use pocketsphinx.Base.{
  update, update_self, update_ne, ℕ, zero, suc, ◌+◌, ◌-◌, ◌*◌, ◌%◌, ◌≤◌, ◌<◌, ◌≡◌, ◌≢◌, refl, sym,
  subst, ap, ◌∙◌, ◌⊎◌, inl, inr, ℤ, ◌-ℤ◌, ◌≤ℤ◌, ltb_ℤ, ltb, arith, if◌then◌else◌, Bool-cases,
}
use native.Mathlib.Decide.{ℕ_discrete}
use native.Mathlib.Nat.{mod-add-mod, add-mul-mod_self_left, mod-eq_of_lt, mod-lt}
use pocketsphinx.Hmm.{worst_score}
use pocketsphinx.PhoneLoop.{PhoneLoop, each, greatest, store_scores}

-- The loop changes the elements in its range once, and no others.
pub each-outside {ℓ} :
    {A : Type ℓ} (f : ℕ → A → A) (m i k : ℕ) (a : ℕ → A)
    → (k < i) ⊎ (i + m ≤ k)
    → each f m i a k ≡ a k
unfolding each
each-outside f zero i k a h = refl
each-outside f (suc m) i k a h =
    let ne : (k < i + 1) ⊎ (i + 1 + m ≤ k) = elim h [
      | inl l ↦ inl (omega arith)
      | inr l ↦ inr (omega arith)
    ] in
    each-outside f m (i + 1) k (update a i (f i (a i))) ne
    ∙ elim h [ inl l ↦ ground arith | inr l ↦ ground arith ]

pub each-inside {ℓ} :
    {A : Type ℓ} (f : ℕ → A → A) (m i k : ℕ) (a : ℕ → A)
    → i ≤ k
    → k < i + m
    → each f m i a k ≡ f k (a k)
unfolding each
each-inside f zero i k a h h' = absurd (omega arith)
each-inside f (suc m) i k a h h' = elim (ℕ_discrete k i) [
  | yes e ↦
      each-outside f m (i + 1) k (update a i (f i (a i))) (inl (omega arith))
      ∙ subst (λ x. update a i (f i (a i)) x ≡ f x (a x)) (sym e) (update_self a i (f i (a i)))
  | no ne ↦
      each-inside f m (i + 1) k (update a i (f i (a i))) (omega arith) (omega arith)
      ∙ ap (f k) (update_ne a i k (f i (a i)) ne)
]

-- Enough steps around the buffer come to every row.
around : (w itr r : ℕ) → r < w → (j : ℕ) × (j < w) × ((itr + j) % w ≡ r)
around w itr r lt =
    let q = itr % w in
    let small : q < w = mod-lt itr (omega arith) in
    elim (Bool-cases (ltb r q)) [
      | inl before ↦
          let b : r < q = ground arith in
          let j = r + w - q in
          let sum : q + j ≡ r + w * 1 = omega arith in
          (
            j,
            omega arith,
            sym (mod-add-mod itr w j)
                ∙ ap (λ x. x % w) sum
                ∙ add-mul-mod_self_left r w 1
                ∙ mod-eq_of_lt lt,
          )
      | inr after ↦
          let b : q ≤ r = ground arith in
          let j = r - q in
          let sum : q + j ≡ r = omega arith in
          (j, omega arith, sym (mod-add-mod itr w j) ∙ ap (λ x. x % w) sum ∙ mod-eq_of_lt lt)
    ]

-- The greatest of a value and `m` entries.
record Tops (value : ℕ → ℤ) (m : ℕ) (best top : ℤ) : Type 0 where
  start : best ≤ℤ top
  above : (j : ℕ) → j < m → value j ≤ℤ top
  attained : (top ≡ best) ⊎ ((j : ℕ) × (j < m) × (top ≡ value j))

larger :
    (best first : ℤ)
    → let best' = if ltb_ℤ best first then first else best in
      (best ≤ℤ best') × (first ≤ℤ best') × ((best' ≡ best) ⊎ (best' ≡ first))
larger best first = ground arith

at_most : (a b c : ℤ) → a ≤ℤ b → b ≤ℤ c → a ≤ℤ c
at_most a b c h h' = omega arith

module _ (buf : ℕ → ℕ → ℤ) (w i : ℕ) where
  abbrev entry : ℕ → ℕ → ℤ
  entry itr j = buf ((itr + j) % w) i

  entry_next : (itr j : ℕ) → entry (itr % w + 1) j ≡ entry itr (suc j)
  entry_next itr j =
      let e : itr % w + 1 + j ≡ itr % w + suc j = omega arith in
      ap (λ x. buf x i) (ap (λ x. x % w) e ∙ mod-add-mod itr w (suc j))

  entry_first : (itr : ℕ) → entry itr 0 ≡ buf (itr % w) i
  entry_first itr = let e : itr + 0 ≡ itr = omega arith in ap (λ x. buf (x % w) i) e

  above_next :
      (itr m : ℕ) (top : ℤ)
      → entry itr 0 ≤ℤ top
      → ((k : ℕ) → k < m → entry itr (suc k) ≤ℤ top)
      → (j : ℕ) → j < suc m
      → entry itr j ≤ℤ top
  above_next itr m top first rest zero lt = first
  above_next itr m top first rest (suc k) lt = rest k (omega arith)

  greatest-Tops : (m itr : ℕ) (best : ℤ) → Tops (entry itr) m best (greatest buf w i m itr best)
  unfolding greatest
  greatest-Tops zero itr best = record {
    start = omega arith;
    above = λ j lt. absurd (omega arith);
    attained = inl refl;
  }
  greatest-Tops (suc m) itr best =
      let first = buf (itr % w) i in
      let best' : ℤ = if ltb_ℤ best first then first else best in
      let t = greatest-Tops m (itr % w + 1) best' in
      let ge : (best ≤ℤ best') × (first ≤ℤ best') × ((best' ≡ best) ⊎ (best' ≡ first)) =
        larger best first in
      let top = greatest buf w i m (itr % w + 1) best' in
      record {
        start = let s = t.start in let g = ge.0 in omega arith;
        above =
            above_next itr m top
              (subst (λ x. x ≤ℤ top) (sym (entry_first itr)) (at_most first best' top ge.1 t.start))
              (λ k lt. subst (λ x. x ≤ℤ top) (entry_next itr k) (t.above k lt));
        attained = elim t.attained [
          | inl e ↦ elim ge.2 [
            | inl e' ↦ inl (e ∙ e')
            | inr e' ↦ inr (0, omega arith, e ∙ e' ∙ sym (entry_first itr))
          ]
          | inr (j, lt, e) ↦ inr (suc j, omega arith, e ∙ entry_next itr j)
        ];
      }

-- The greatest of the worst score and a phone's entries in all rows of the buffer.
pub record IsPenalty (p : PhoneLoop) (i : ℕ) : Type 0 where
  pub above : (r : ℕ) → r < p.window → p.pen_buf r i ≤ℤ p.penalties i
  pub attained :
      (p.penalties i ≡ worst_score) ⊎ ((r : ℕ) × (r < p.window) × (p.penalties i ≡ p.pen_buf r i))

greatest-all :
    (buf : ℕ → ℕ → ℤ) (w i itr : ℕ)
    → 0 < w
    → let top = greatest buf w i w itr worst_score in
      ((r : ℕ) → r < w → buf r i ≤ℤ top)
      × ((top ≡ worst_score) ⊎ ((r : ℕ) × (r < w) × (top ≡ buf r i)))
greatest-all buf w i itr some_rows =
    let t = greatest-Tops buf w i w itr worst_score in
    let top = greatest buf w i w itr worst_score in
    (
      λ r lt. let (j, lt', e) = around w itr r lt in subst (λ x. buf x i ≤ℤ top) e (t.above j lt'),
      elim t.attained [
        | inl e ↦ inl e
        | inr (j, lt, e) ↦ inr ((itr + j) % w, mod-lt (itr + j) some_rows, e)
      ],
    )

-- With a window of at least one frame: the weighted distances of the phones from the best score
-- replace the oldest row of the buffer, the other rows stay, the pointer moves on by one and stays in
-- the buffer, and every phone's penalty becomes the greatest of the worst score and its entries in the
-- buffer.
pub store_scores_lem :
    (weigh : ℤ → ℤ) (p : PhoneLoop)
    → p.pen_buf_ptr < p.window
    → let q = store_scores weigh p in
      ((i : ℕ)
        → i < p.n_phones
        → q.pen_buf p.pen_buf_ptr i ≡ weigh ((p.hmms i).bestscore -ℤ p.best_score))
      × ((r : ℕ) → r ≢ p.pen_buf_ptr → q.pen_buf r ≡ p.pen_buf r)
      × (q.pen_buf_ptr ≡ (p.pen_buf_ptr + 1) % p.window)
      × (q.pen_buf_ptr < q.window)
      × ((i : ℕ) → i < p.n_phones → IsPenalty q i)
unfolding store_scores
store_scores_lem weigh p lt =
    let row =
      each (λ i x. weigh ((p.hmms i).bestscore -ℤ p.best_score)) p.n_phones 0
        (p.pen_buf p.pen_buf_ptr) in
    let buf = update p.pen_buf p.pen_buf_ptr row in
    let ptr = (p.pen_buf_ptr + 1) % p.window in
    let some_rows : 0 < p.window = omega arith in
    let top = λ (i : ℕ). greatest buf p.window i p.window (ptr + 1) worst_score in
    (
      λ i h.
          ap (λ x. x i) (update_self p.pen_buf p.pen_buf_ptr row)
          ∙ each-inside (λ i x. weigh ((p.hmms i).bestscore -ℤ p.best_score)) p.n_phones 0 i
              (p.pen_buf p.pen_buf_ptr) (omega arith) (omega arith),
      λ r ne. update_ne p.pen_buf p.pen_buf_ptr r row ne,
      refl,
      mod-lt (p.pen_buf_ptr + 1) some_rows,
      λ i h.
          let e =
            each-inside (λ i x. top i) p.n_phones 0 i p.penalties (omega arith) (omega arith) in
          let (above, attained) = greatest-all buf p.window i (ptr + 1) some_rows in
          record {
            above = λ r l. subst (λ x. buf r i ≤ℤ x) (sym e) (above r l);
            attained = elim attained [ inl q ↦ inl (e ∙ q) | inr (r, l, q) ↦ inr (r, l, e ∙ q) ];
          },
    )
