-- ===== src/Fsg/Model/Best.antt =====
-- The closure ends, and gives every pair of states the best path of null transitions between them.
use pocketsphinx.Base.{
  ℕ, zero, suc, ◌≤◌, ◌<◌, ◌≡◌, ◌≢◌, refl, sym, subst, ap, ◌∙◌, ◌⊎◌, inl, inr, false, none, some,
  List, [], ◌∷◌, ℤ, pos, ◌≤ℤ◌, if◌then◌else◌, arith, int_laws, Option-cases,
}
use pocketsphinx.Fsg.Model.{
  FsgModel, Closing, link_at, fsg_model_null_trans, sweep, close, list_nulls,
  fsg_model_null_trans_closure,
}
use pocketsphinx.Fsg.Model.Nulls.{IsNullLink, IsModel, prob, prob_at}
use pocketsphinx.Fsg.Model.Measure.{Less, missing, deficit}
use pocketsphinx.Fsg.Model.Grow.{NullPath, Grows, Lists}
use pocketsphinx.Fsg.Model.ListNulls.{list_nulls-Lists}
use pocketsphinx.Fsg.Model.Closure.{Passed, sweep_lem}

abbrev IsClosed : FsgModel → Type 0
IsClosed m = (i j k p q : ℕ) → IsNullLink m i j p → IsNullLink m j k q → Passed m i k p q

abbrev start : Closing → Closing
start s = record s { updated = false }

close_step :
    (fuel : ℕ) (s s' : Closing)
    → sweep s.nulls (start s) ≡ some s'
    → close (suc fuel) s ≡ (if s'.updated then close fuel s' else some s')
unfolding close
close_step fuel s s' e = rw (close, e) refl

module _ (m₀ : FsgModel) where
  abbrev IsReady : Closing → Type 0
  IsReady s = Grows m₀ s.model × Lists s.model s.nulls

  abbrev Ends : Closing → Type 0
  Ends s = (fuel : ℕ) × (s' : Closing) × (close fuel s ≡ some s') × IsReady s' × IsClosed s'.model

  -- One sweep, where a sweep that updates leaves a state from which the closure ends.
  once :
      (s : Closing)
      → IsReady s
      → ((s' : Closing) → IsReady s' → Less s'.model s.model → Ends s')
      → Ends s
  once s (g, ls) next =
      let (s', done, steps, progress) = sweep_lem m₀ s.nulls (start s) g ls ls.known in
      elim progress [
        | inl (e, all) ↦
            let u : s'.updated ≡ false = ap (λ (x : Closing). x.updated) e in
            let closed : IsClosed s.model =
              λ i j k p q l l'. all p (ls.complete i j p l) i j k q l l' in
            (
              1,
              s',
              close_step 0 s s' done ∙ ap (λ b. if b then close 0 s' else some s') u,
              (steps.grows, steps.lists),
              subst (λ (x : Closing). IsClosed x.model) (sym e) closed,
            )
        | inr (u, less) ↦
            let (fuel, s'', rest, ready, closed) = next s' (steps.grows, steps.lists) less in
            (
              suc fuel,
              s'',
              close_step fuel s s' done ∙ ap (λ b. if b then close fuel s' else some s') u ∙ rest,
              ready,
              closed,
            )
      ]

  within :
      (a : ℕ) (fewer : (s : Closing) → IsReady s → missing s.model < a → Ends s) (b : ℕ)
      (s : Closing)
      → IsReady s
      → missing s.model ≤ a
      → deficit s.model < b
      → Ends s
  within a fewer zero s r ma db = absurd (omega arith)
  within a fewer (suc b) s r ma db = once s r (λ s' r' less. elim less [
    | inl l ↦ fewer s' r' (omega arith)
    | inr (l, l') ↦ within a fewer b s' r' (omega arith) (omega arith)
  ])

  closes : (a : ℕ) (s : Closing) → IsReady s → missing s.model < a → Ends s
  closes zero s r l = absurd (omega arith)
  closes (suc a) s r l = within a (closes a) (suc (deficit s.model)) s r (omega arith) (omega arith)

  start-Grows : IsModel m₀ → Grows m₀ m₀
  start-Grows v = record {
    model = v;
    states = refl;
    sound = λ i j c l e. NullPath.edge l e;
    above = λ i j a l e. (a, e, omega arith);
  }

link_of :
    (m : FsgModel) (i j : ℕ) (d : ℤ)
    → IsModel m
    → j < m.n_state
    → prob m i j ≡ some d
    → (p : ℕ) × IsNullLink m i j p × ((link_at m p).logs2prob ≡ d)
link_of m i j d v l e = elim (Option-cases (fsg_model_null_trans m i j)) [
  | inl n ↦ let q : none ≡ some d = sym (ap (prob_at m) n) ∙ e in cc
  | inr (p, f) ↦
      let q : some (link_at m p).logs2prob ≡ some d = sym (ap (prob_at m) f) ∙ e in
      (p, v.found i j p l f, cc)
]

-- In a closed model no path is better than the link between its ends.
path_below :
    (m₀ m : FsgModel) (i j : ℕ) (c : ℤ)
    → Grows m₀ m
    → IsClosed m
    → NullPath m₀ i j c
    → (j < m.n_state) × (((i ≡ j) × (c ≤ℤ pos 0)) ⊎ ((d : ℤ) × (prob m i j ≡ some d) × (c ≤ℤ d)))
path_below m₀ m i j c g closed (NullPath.edge l e) =
    let l' : j < m.n_state = subst (λ n. j < n) (sym g.states) l in (l', inr (g.above i j c l' e))
path_below m₀ m i k c g closed (NullPath.join {j = j} {a = a} {b = b} first second) =
    let (lj, one) = path_below m₀ m i j a g closed first in
    let (lk, two) = path_below m₀ m j k b g closed second in
    (
      lk,
      elim one [
        | inl (e, na) ↦ elim two [
          | inl (e', nb) ↦ inl (e ∙ e', omega int_laws)
          | inr (d, f, le) ↦ inr (d, rw e f, omega int_laws)
        ]
        | inr (d, f, le) ↦ elim two [
          | inl (e', nb) ↦ inr (d, rw (sym e') f, omega int_laws)
          | inr (d', f', le') ↦
              let (p, lp, ep) = link_of m i j d g.model lj f in
              let (q, lq, eq) = link_of m j k d' g.model lk f' in
              let np = lp.certain in
              let nq = lq.certain in
              let la : a ≤ℤ (link_at m p).logs2prob = subst (λ x. a ≤ℤ x) (sym ep) le in
              let lb : b ≤ℤ (link_at m q).logs2prob = subst (λ x. b ≤ℤ x) (sym eq) le' in
              elim (closed i j k p q lp lq) [
                | inl e ↦ inl (e, omega int_laws)
                | inr (x, fx, lx) ↦ inr (x, fx, omega int_laws)
              ]
        ]
      ],
    )

-- The link between two states is as probable as some path of null transitions before the closure, and
-- no such path is more probable.
abbrev pub IsBestPath : FsgModel → FsgModel → ℕ → ℕ → Type 0
IsBestPath m m' i j =
    ((c : ℤ) → prob m' i j ≡ some c → NullPath m i j c)
    × ((c : ℤ) → NullPath m i j c → (d : ℤ) × (prob m' i j ≡ some d) × (c ≤ℤ d))

-- What the closure is given: NULL, or a list of all null transitions and of nothing else.
abbrev pub IsInput : FsgModel → List ℕ → Type 0
IsInput m nulls = (nulls ≡ []) ⊎ Lists m nulls

abbrev all_nulls : FsgModel → List ℕ → List ℕ
all_nulls m [] = list_nulls m m.n_state
all_nulls m (p ∷ ps) = p ∷ ps

all_nulls-Lists :
    (m : FsgModel) (nulls : List ℕ) → IsModel m → IsInput m nulls → Lists m (all_nulls m nulls)
all_nulls-Lists m [] v input = list_nulls-Lists m v
all_nulls-Lists m (p ∷ ps) v (inr ls) = ls
all_nulls-Lists m (p ∷ ps) v (inl e) = cc

run_closure :
    (fuel : ℕ) (m : FsgModel) (nulls : List ℕ) (s : Closing)
    → close fuel (record { model = m; nulls = all_nulls m nulls; updated = false }) ≡ some s
    → fsg_model_null_trans_closure fuel m nulls ≡ some (s.model, s.nulls)
unfolding fsg_model_null_trans_closure
run_closure fuel m [] s e = rw (fsg_model_null_trans_closure, e) refl
run_closure fuel m (p ∷ ps) s e = rw (fsg_model_null_trans_closure, e) refl

-- The closure of the null transitions of a well-formed grammar, given all of them or NULL, ends, and
-- does not exit for a probability over 1. It leaves a well-formed grammar with a list of all null
-- transitions, in which two different states are linked exactly if a path of null transitions led
-- from one to the other, with the probability of the best such path.
pub null_trans_closure_lem :
    (m : FsgModel) (nulls : List ℕ)
    → IsModel m
    → IsInput m nulls
    → (fuel : ℕ) × (m' : FsgModel) × (nulls' : List ℕ) × (fsg_model_null_trans_closure fuel m nulls
        ≡ some (m', nulls'))
      × IsModel m'
      × Lists m' nulls'
      × ((i j : ℕ) → i ≢ j → j < m.n_state → IsBestPath m m' i j)
null_trans_closure_lem m nulls v input =
    let s : Closing = record { model = m; nulls = all_nulls m nulls; updated = false } in
    let (fuel, s', done, (g, ls), closed) =
      closes m (suc (missing m)) s (start-Grows m v, all_nulls-Lists m nulls v input)
        (omega arith) in
    (
      fuel,
      s'.model,
      s'.nulls,
      run_closure fuel m nulls s' done,
      g.model,
      ls,
      λ i j ne l. (
        λ c e. g.sound i j c (subst (λ n. j < n) (sym g.states) l) e,
        λ c path. elim (path_below m s'.model i j c g closed path).1 [
          | inl (e, n) ↦ absurd (ne e)
          | inr found ↦ found
        ],
      ),
    )
