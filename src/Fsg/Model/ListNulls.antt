-- ===== src/Fsg/Model/ListNulls.antt =====
-- The list of all null transitions that the closure makes where it is given NULL.
use pocketsphinx.Base.{ℕ, zero, suc, ◌<◌, refl, sym, subst, ap, inl, inr, List, [], ◌∷◌, arith}
use mathlib.Core.List.{Memᴰ}
use mathlib.Core.List.Memᴰ
use native.Mathlib.Decide.{ℕ_discrete}
use pocketsphinx.Util.HashTable.{Entry}
use pocketsphinx.Fsg.Model.{FsgModel, entries, push_vals, list_nulls}
use pocketsphinx.Fsg.Model.Nulls.{IsNullLink, IsModel}
use pocketsphinx.Fsg.Model.Grow.{Lists}
use pocketsphinx.Fsg.Model.Closure.{entry_of}

push_known :
    (P : ℕ → Type 0) (es : List Entry) (nulls : List ℕ)
    → ((e : Entry) → Memᴰ e es → P e.val)
    → ((p : ℕ) → Memᴰ p nulls → P p)
    → (p : ℕ) → Memᴰ p (push_vals es nulls)
    → P p
push_known P [] nulls a b p mem = b p mem
push_known P (e ∷ es) nulls a b p mem =
    push_known P es (e.val ∷ nulls) (λ x m. a x (Memᴰ.tail m))
      (λ q m. elim (Memᴰ.cases_cons m) [
        | inl t ↦ subst P (sym t) (a e (Memᴰ.head refl))
        | inr t ↦ b q t
      ])
      p mem

push_keeps : (es : List Entry) (nulls : List ℕ) (p : ℕ) → Memᴰ p nulls → Memᴰ p (push_vals es nulls)
push_keeps [] nulls p mem = mem
push_keeps (e ∷ es) nulls p mem = push_keeps es (e.val ∷ nulls) p (Memᴰ.tail mem)

push_all :
    (es : List Entry) (nulls : List ℕ) (e : Entry) → Memᴰ e es → Memᴰ e.val (push_vals es nulls)
push_all [] nulls e mem = elim mem [ ]
push_all (x ∷ es) nulls e (Memᴰ.head q) =
    push_keeps es (x.val ∷ nulls) e.val (Memᴰ.head (ap (λ (y : Entry). y.val) q))
push_all (x ∷ es) nulls e (Memᴰ.tail m) = push_all es (x.val ∷ nulls) e m

module _ (m : FsgModel) (v : IsModel m) where
  list_known : (k p : ℕ) → Memᴰ p (list_nulls m k) → (i : ℕ) × (j : ℕ) × IsNullLink m i j p
  unfolding list_nulls
  list_known zero p mem = elim mem [ ]
  list_known (suc k) p mem =
      push_known (λ q. (i : ℕ) × (j : ℕ) × IsNullLink m i j q) (entries (m.trans k).null_trans)
        (list_nulls m k) (λ e me. let (j, l) = v.listed k e me in (k, j, l)) (list_known k) p mem

  list_complete : (k i j p : ℕ) → i < k → IsNullLink m i j p → Memᴰ p (list_nulls m k)
  unfolding list_nulls
  list_complete zero i j p lt l = absurd (omega arith)
  list_complete (suc k) i j p lt l = elim (ℕ_discrete i k) [
    | yes q ↦
        let l' = subst (λ x. IsNullLink m x j p) q l in
        let (e, mem, val) = entry_of m k j p l' in
        subst (λ x. Memᴰ x (list_nulls m (suc k))) val
          (push_all (entries (m.trans k).null_trans) (list_nulls m k) e mem)
    | no q ↦
        push_keeps (entries (m.trans k).null_trans) (list_nulls m k) p
          (list_complete k i j p (omega arith) l)
  ]

  pub list_nulls-Lists : Lists m (list_nulls m m.n_state)
  list_nulls-Lists = record {
    known = list_known m.n_state;
    complete = λ i j p l. list_complete m.n_state i j p l.from_lt l;
  }
