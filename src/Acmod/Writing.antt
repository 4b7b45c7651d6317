-- ===== src/Acmod/Writing.antt =====
-- A list of differences while it is written.
use pocketsphinx.Base.{
  update, ℕ, zero, suc, ◌+◌, ◌-◌, ◌%◌, ◌≤◌, ◌<◌, ◌≡◌, refl, sym, subst, ap, ◌∙◌, ◌⊎◌, inl, inr,
  Bool, true, false, ltb, arith, if◌then◌else◌, Bool-cases,
}
use native.Mathlib.Decide.{ℕ_discrete}
use pocketsphinx.Acmod.{Deltas, put, put_delta, put_senone}

-- The sum of the first n entries: after entry i the pointer stands at `cursor a (i + 1)`.
abbrev pub cursor : (ℕ → ℕ) → ℕ → ℕ
cursor a zero = 0
cursor a (suc n) = cursor a n + a n

cursor-update : (a : ℕ → ℕ) (n v m : ℕ) → m ≤ n → cursor (update a n v) m ≡ cursor a m
cursor-update a n v zero h = refl
cursor-update a n v (suc m) h = let ih = cursor-update a n v m (omega arith) in ground arith

-- Entries for flags below `hi`, where all flags below `lo` have one. An entry that no flag asks for is
-- a step of 255.
pub record Lists (set : ℕ → Bool) (lo hi : ℕ) (d : Deltas) : Type 0 where
  pub small : (i : ℕ) → i < d.n → d.senone_active i ≤ 255
  pub inside : (i : ℕ) → i < d.n → cursor d.senone_active (suc i) < hi
  pub wanted :
      (i : ℕ) → i < d.n → (set (cursor d.senone_active (suc i)) ≡ true) ⊎ (d.senone_active i ≡ 255)
  pub found :
      (j : ℕ) → j < lo → set j ≡ true → (i : ℕ) × (i < d.n) × (cursor d.senone_active (suc i) ≡ j)
  pub fits : d.n ≤ cursor d.senone_active d.n + 1
  pub rising : (i : ℕ) → 0 < i → i < d.n → 0 < d.senone_active i

cursor-put :
    (d : Deltas) (delta rest : ℕ)
    → cursor (put d delta).senone_active (put d delta).n + rest
      ≡ cursor (put d delta).senone_active (suc d.n) + rest
unfolding put
cursor-put d delta rest = refl

module _ (set : ℕ → Bool) where
  put-Lists :
      (lo hi : ℕ) (d : Deltas) (delta : ℕ)
      → Lists set lo hi d
      → delta ≤ 255
      → cursor d.senone_active d.n + delta < hi
      → (set (cursor d.senone_active d.n + delta) ≡ true) ⊎ (delta ≡ 255)
      → (d.n ≡ 0) ⊎ (0 < delta)
      → Lists set lo hi (put d delta)
        × (cursor (put d delta).senone_active (suc d.n) ≡ cursor d.senone_active d.n + delta)
  unfolding put
  put-Lists lo hi d delta l small under want grows =
      let a = d.senone_active in
      let a' = update a d.n (delta % 256) in
      let keep = λ (i : ℕ) (h : i ≤ d.n). cursor-update a d.n (delta % 256) i h in
      let top : cursor a' (suc d.n) ≡ cursor a d.n + delta =
        let k = keep d.n (omega arith) in ground arith in
      (
        record {
          small = λ i h. elim (ℕ_discrete i d.n) [
            | yes e ↦ ground arith
            | no ne ↦ let s = l.small i (omega arith) in ground arith
          ];
          inside = λ i h. elim (ℕ_discrete i d.n) [
            | yes e ↦ subst (λ x. cursor a' (suc x) < hi) (sym e) (omega arith)
            | no ne ↦
                let s = l.inside i (omega arith) in
                let k = keep (suc i) (omega arith) in omega arith
          ];
          wanted = λ i h. elim (ℕ_discrete i d.n) [
            | yes e ↦
                subst (λ x. (set (cursor a' (suc x)) ≡ true) ⊎ (a' x ≡ 255)) (sym e)
                  (elim want [ inl w ↦ inl (ap set top ∙ w) | inr w ↦ inr (ground arith) ])
            | no ne ↦
                let k = keep (suc i) (omega arith) in
                elim (l.wanted i (omega arith)) [
                  | inl w ↦ inl (ap set k ∙ w)
                  | inr w ↦ inr (ground arith)
                ]
          ];
          found = λ j h s.
              let (i, lt, e) = l.found j h s in (i, omega arith, keep (suc i) (omega arith) ∙ e);
          fits = let f = l.fits in omega arith;
          rising = λ i h h'. elim (ℕ_discrete i d.n) [
            | yes e ↦ ground arith
            | no ne ↦ let s = l.rising i h (omega arith) in ground arith
          ];
        },
        top,
      )

  -- What a run of the inner loop and the write after it leave: the last entry is that of `sen`.
  Reaches : (lo hi sen : ℕ) → Deltas → Type 0
  Reaches lo hi sen d =
      Lists set lo hi d × ((n : ℕ) × (d.n ≡ suc n) × (cursor d.senone_active (suc n) ≡ sen))

  put-Reaches :
      (lo hi sen : ℕ) (d : Deltas) (delta : ℕ)
      → Lists set lo hi d
      → delta ≤ 255
      → cursor d.senone_active d.n + delta ≡ sen
      → sen < hi
      → set sen ≡ true
      → (d.n ≡ 0) ⊎ (0 < delta)
      → Reaches lo hi sen (put d delta)
  unfolding Reaches put
  put-Reaches lo hi sen d delta l small sum lt s grows =
      let (l', top) = put-Lists lo hi d delta l small (omega arith) (inl (ap set sum ∙ s)) grows in
      (l', (d.n, refl, top ∙ sum))

  put_delta-Reaches :
      (fuel lo hi sen : ℕ) (d : Deltas) (delta : ℕ)
      → Lists set lo hi d
      → delta ≤ fuel
      → cursor d.senone_active d.n + delta ≡ sen
      → sen < hi
      → set sen ≡ true
      → (d.n ≡ 0) ⊎ (0 < delta)
      → Reaches lo hi sen (put_delta fuel d delta)
  unfolding put_delta
  put_delta-Reaches zero lo hi sen d delta l h sum lt s grows =
      put-Reaches lo hi sen d delta l (omega arith) sum lt s grows
  put_delta-Reaches (suc fuel) lo hi sen d delta l h sum lt s grows =
      elim (Bool-cases (ltb 255 delta)) [
        | inl far ↦
            let (l', top) =
              put-Lists lo hi d 255 l (omega arith) (ground arith) (inr refl) (inr (omega arith)) in
            let over : 255 < delta = ground arith in
            let sum' : cursor (put d 255).senone_active (suc d.n) + (delta - 255) ≡ sen =
              omega arith in
            rw far (
              put_delta-Reaches fuel lo hi sen (put d 255) (delta - 255) l' (omega arith)
                (cursor-put d 255 (delta - 255) ∙ sum') lt s (inr (omega arith)))
        | inr near ↦ rw near (put-Reaches lo hi sen d delta l (ground arith) sum lt s grows)
      ]

  -- The flags below k are done.
  pub record At (k : ℕ) (d : Deltas) : Type 0 where
    pub lists : Lists set k k d
    pub last : cursor d.senone_active d.n ≡ d.l
    pub behind : ((d.n ≡ 0) × (d.l ≡ 0)) ⊎ (d.l < k)

  pub skip-At : (k : ℕ) (d : Deltas) → set k ≡ false → At k d → At (suc k) d
  skip-At k d s at =
      let l = at.lists in
      record {
        lists = record {
          small = l.small;
          inside = λ i h. let b = l.inside i h in omega arith;
          wanted = l.wanted;
          found = λ j h t. elim (ℕ_discrete j k) [
            | yes e ↦ absurd (ground (arith, ap set e))
            | no ne ↦ l.found j (omega arith) t
          ];
          fits = l.fits;
          rising = l.rising;
        };
        last = at.last;
        behind = elim at.behind [ inl z ↦ inl z | inr b ↦ inr (omega arith) ];
      }

  reached-At : (k : ℕ) (d : Deltas) → Reaches k (suc k) k d → At (suc k) (record d { l = k })
  unfolding Reaches
  reached-At k d (l, (n, size, top)) =
      let end : cursor d.senone_active d.n ≡ k = ap (cursor d.senone_active) size ∙ top in
      record {
        lists = record {
          small = l.small;
          inside = l.inside;
          wanted = l.wanted;
          found = λ j h t. elim (ℕ_discrete j k) [
            | yes e ↦ (n, omega arith, top ∙ sym e)
            | no ne ↦ l.found j (omega arith) t
          ];
          fits = l.fits;
          rising = l.rising;
        };
        last = end;
        behind = inr (omega arith);
      }

  widen : (k : ℕ) (d : Deltas) → Lists set k k d → Lists set k (suc k) d
  widen k d l = record {
    small = l.small;
    inside = λ i h. let b = l.inside i h in omega arith;
    wanted = l.wanted;
    found = l.found;
    fits = l.fits;
    rising = l.rising;
  }

  put_senone-At : (k : ℕ) (d : Deltas) → set k ≡ true → At k d → At (suc k) (put_senone d k)
  unfolding put_senone
  put_senone-At k d s at =
      let grows : (d.n ≡ 0) ⊎ (0 < k - d.l) = elim at.behind [
        | inl z ↦ inl z.0
        | inr b ↦ inr (omega arith)
      ] in
      let sum : cursor d.senone_active d.n + (k - d.l) ≡ k =
        let e = at.last in elim at.behind [ inl z ↦ omega arith | inr b ↦ omega arith ] in
      reached-At k (put_delta (k - d.l) d (k - d.l)) (
        put_delta-Reaches (k - d.l) k (suc k) k d (k - d.l) (widen k d at.lists) (omega arith) sum
          (omega arith) s grows)

  pub step-At :
      (k : ℕ) (d : Deltas) (b : Bool)
      → set k ≡ b
      → At k d
      → At (suc k) (if b then put_senone d k else d)
  step-At k d true s at = put_senone-At k d s at
  step-At k d false s at = skip-At k d s at
