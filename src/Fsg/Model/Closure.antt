-- ===== src/Fsg/Model/Closure.antt =====
-- The closure of the null transitions.
use pocketsphinx.Base.{
  ℕ, ◌≡◌, refl, sym, subst, ap, ap₂, ◌∙◌, inl, inr, true, some, List, [], ◌∷◌, ℤ, ◌+ℤ◌,
}
use mathlib.Core.List.{Memᴰ}
use mathlib.Core.List.Memᴰ
use pocketsphinx.Util.HashTable.{Entry}
use pocketsphinx.Util.HashTable.Members.{get-flat}
use pocketsphinx.Fsg.Model.{
  FsgModel, Closing, link_at, bytes, table_or_new, entries, fsg_model_null_trans_add, note,
  extend_link, sweep,
}
use pocketsphinx.Fsg.Model.Nulls.{IsNullLink, null_trans-get, entries-table}
use pocketsphinx.Fsg.Model.Cases.{Kept}
use pocketsphinx.Fsg.Model.Measure.{Less, Less-trans}
use pocketsphinx.Fsg.Model.Grow.{Grows, Lists, Progress, Steps, step_lem}

-- Past two links there is nothing to add.
abbrev pub Passed : FsgModel → ℕ → ℕ → ℕ → ℕ → Type 0
Passed m i k p q = Kept m i k ((link_at m p).logs2prob +ℤ (link_at m q).logs2prob)

-- Two steps, of which the second starts at the end of the first.
compose :
    (s s' s'' : Closing) (P R : Type 0) (Q : Closing → Type 0)
    → (P → Q s → R)
    → Progress s s' P
    → Progress s' s'' (Q s')
    → Progress s s'' R
compose s s' s'' P R Q both (inl (e, p)) (inl (e', q)) = inl (e' ∙ e, both p (subst Q e q))
compose s s' s'' P R Q both (inl (e, p)) (inr (u, l)) =
    inr (u, subst (λ (x : Closing). Less s''.model x.model) e l)
compose s s' s'' P R Q both (inr (u, l)) (inl (e', q)) = inr (
  ap (λ (x : Closing). x.updated) e' ∙ u,
  subst (λ (x : Closing). Less x.model s.model) (sym e') l,
)
compose s s' s'' P R Q both (inr (u, l)) (inr (u', l')) =
    inr (u', Less-trans s''.model s'.model s.model l' l)

extend_link_step :
    (e : Entry) (es : List Entry) (p : ℕ) (s : Closing) (r : ℤ × FsgModel)
    → let l₁ = link_at s.model p in
      let l₂ = link_at s.model e.val in
      fsg_model_null_trans_add s.model l₁.from_state l₂.to_state (l₁.logs2prob +ℤ l₂.logs2prob)
        ≡ some r
      → extend_link (e ∷ es) p s ≡ extend_link es p (note s l₁.from_state l₂.to_state r)
unfolding extend_link
extend_link_step e es p s r added = rw (extend_link, added) refl

extend_link_cons :
    (e : Entry) (es : List Entry) (p i k : ℕ) (s : Closing) (r : ℤ × FsgModel)
    → (link_at s.model p).from_state ≡ i
    → (link_at s.model e.val).to_state ≡ k
    → fsg_model_null_trans_add s.model i k
        ((link_at s.model p).logs2prob +ℤ (link_at s.model e.val).logs2prob)
      ≡ some r
    → extend_link (e ∷ es) p s ≡ extend_link es p (note s i k r)
extend_link_cons e es p i k s r f t added =
    let a = (link_at s.model p).logs2prob +ℤ (link_at s.model e.val).logs2prob in
    extend_link_step e es p s r (ap₂ (λ x y. fsg_model_null_trans_add s.model x y a) f t ∙ added)
    ∙ ap₂ (λ x y. extend_link es p (note s x y r)) f t

-- The entries past which the link has been extended.
abbrev AllPassed : List Entry → ℕ → ℕ → ℕ → Closing → Type 0
AllPassed es p i j s =
    (e : Entry) → Memᴰ e es → (k : ℕ) → IsNullLink s.model j k e.val → Passed s.model i k p e.val

-- Every link among some, with any after it, has been passed.
abbrev pub AllDone : List ℕ → Closing → Type 0
AllDone ps s =
    (p : ℕ)
    → Memᴰ p ps
    → (i j k q : ℕ) → IsNullLink s.model i j p
    → IsNullLink s.model j k q
    → Passed s.model i k p q

-- A link out of `j` is the value of an entry of the table of `j`.
pub entry_of :
    (m : FsgModel) (j k q : ℕ)
    → IsNullLink m j k q
    → (e : Entry) × Memᴰ e (entries (m.trans j).null_trans) × (e.val ≡ q)
entry_of m j k q l =
    let o = (m.trans j).null_trans in
    let (e, mem, v) =
      get-flat true (table_or_new o) (bytes k) q (sym (null_trans-get m j k) ∙ l.at) in
    (e, subst (λ (x : List Entry). Memᴰ e x) (sym (entries-table o)) mem, v)

module _ (m₀ : FsgModel) where
  abbrev Steps-trans : (s s' s'' : Closing) → Steps m₀ s s' → Steps m₀ s' s'' → Steps m₀ s s''
  Steps-trans s s' s'' a b = record {
    grows = b.grows;
    lists = b.lists;
    stays = λ i j q l. b.stays i j q (a.stays i j q l);
  }

  -- The links of some entries all start at `j`.
  abbrev From : FsgModel → ℕ → List Entry → Type 0
  From m j es = (e : Entry) → Memᴰ e es → (k : ℕ) × IsNullLink m j k e.val

  extend_link_lem :
      (es : List Entry) (p i j : ℕ) (s : Closing)
      → Grows m₀ s.model
      → Lists s.model s.nulls
      → IsNullLink s.model i j p
      → From s.model j es
      → (s' : Closing) × (extend_link es p s ≡ some s')
        × Steps m₀ s s'
        × Progress s s' (AllPassed es p i j s)
  unfolding extend_link
  extend_link_lem [] p i j s g ls lp from = (
    s,
    refl,
    record { grows = g; lists = ls; stays = λ a b c l. l },
    inl (refl, λ e mem. elim mem [ ]),
  )
  extend_link_lem (e ∷ es) p i j s g ls lp from =
      let (k, lq) = from e (Memᴰ.head refl) in
      let (r, added, steps, progress) = step_lem m₀ s i j k p e.val g ls lp lq in
      let s' = note s i k r in
      let (s'', rest, steps', progress') =
        extend_link_lem es p i j s' steps.grows steps.lists (steps.stays i j p lp)
          (λ x mem. let (k', l) = from x (Memᴰ.tail mem) in (k', steps.stays j k' x.val l)) in
      (
        s'',
        extend_link_cons e es p i k s r lp.from lq.to added ∙ rest,
        Steps-trans s s' s'' steps steps',
        compose s s' s'' _ (AllPassed (e ∷ es) p i j s) (AllPassed es p i j)
            (λ first others x mem k' l. elim (Memᴰ.cases_cons mem) [
              | inl q ↦
                  let kk : k' ≡ k =
                    sym l.to ∙ ap (λ (y : Entry). (link_at s.model y.val).to_state) q ∙ lq.to in
                  rw (q, kk) first
              | inr m ↦ others x m k' l
            ])
            progress progress',
      )

  pub sweep_lem :
      (ps : List ℕ) (s : Closing)
      → Grows m₀ s.model
      → Lists s.model s.nulls
      → ((p : ℕ) → Memᴰ p ps → (i : ℕ) × (j : ℕ) × IsNullLink s.model i j p)
      → (s' : Closing) × (sweep ps s ≡ some s') × Steps m₀ s s' × Progress s s' (AllDone ps s)
  unfolding sweep
  sweep_lem [] s g ls known = (
    s,
    refl,
    record { grows = g; lists = ls; stays = λ a b c l. l },
    inl (refl, λ p mem. elim mem [ ]),
  )
  sweep_lem (p ∷ ps) s g ls known =
      let (i, j, lp) = known p (Memᴰ.head refl) in
      let es = entries (s.model.trans j).null_trans in
      let (s', done, steps, progress) = extend_link_lem es p i j s g ls lp (g.model.listed j) in
      let (s'', rest, steps', progress') =
        sweep_lem ps s' steps.grows steps.lists
          (λ q mem. let (a, b, l) = known q (Memᴰ.tail mem) in (a, b, steps.stays a b q l)) in
      (
        s'',
        rw (sweep, lp.to, done) rest,
        Steps-trans s s' s'' steps steps',
        compose s s' s'' (AllPassed es p i j s) (AllDone (p ∷ ps) s) (AllDone ps)
            (λ first others x mem a b c q l l'. elim (Memᴰ.cases_cons mem) [
              | inl e ↦
                  let qa : a ≡ i =
                    sym l.from ∙ ap (λ y. (link_at s.model y).from_state) e ∙ lp.from in
                  let qb : b ≡ j = sym l.to ∙ ap (λ y. (link_at s.model y).to_state) e ∙ lp.to in
                  let out = subst (λ z. IsNullLink s.model z c q) qb l' in
                  let (en, m, v) = entry_of s.model j c q out in
                  let f = first en m c (subst (λ z. IsNullLink s.model j c z) (sym v) out) in
                  rw (qa, e) (subst (λ z. Passed s.model i c p z) v f)
              | inr m ↦ others x m a b c q l l'
            ])
            progress progress',
      )
