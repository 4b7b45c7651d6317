-- ===== src/Fsg/Model/Add.antt =====
-- Adding a null transition.
use pocketsphinx.Base.{
  ℕ, ◌<◌, ◌≡◌, ◌≢◌, refl, sym, subst, ap, ◌∙◌, ◌⊎◌, inl, inr, true, false, ◌&&◌, none, some, List,
  [], ◌∷◌, ℤ, pos, negsuc, ◌≤ℤ◌, ◌==◌, if◌then◌else◌, length, arith, Bool-cases, Option-cases,
  get_or-append, get_or-append_end, length-append,
}
use mathlib.Core.List.{Memᴰ}
use pocketsphinx.Util.HashTable.{Entry, HashTable, hash_table_enter_bkey, enter}
use pocketsphinx.Util.HashTable.Slots.{get}
use pocketsphinx.Util.HashTable.Binary.{hash_table_enter_bkey_lem}
use pocketsphinx.Util.HashTable.Members.{flat-enter}
use pocketsphinx.Util.HashTable.Walk.{flat}
use pocketsphinx.Fsg.History.{Link}
use pocketsphinx.Fsg.Model.Nulls.{
  IsNullLink, IsModel, prob, prob_at, with_link, null_trans-get, null_trans-with_link,
  entries-table,
}
use pocketsphinx.Fsg.Model.{FsgModel, bytes, link_at, no_link, table_or_new, fsg_model_null_trans}

abbrev pub null_link : ℕ → ℕ → ℤ → Link
null_link from to logp = record {
  from_state = from;
  to_state = to;
  logs2prob = logp;
  wid = negsuc 0;
}

nocase-enter :
    (h : HashTable) (k : List ℤ) (x : ℕ) → (hash_table_enter_bkey h k x).1.nocase ≡ h.nocase
unfolding hash_table_enter_bkey enter
nocase-enter h k x = ground arith

flat-enter_bkey :
    (h : HashTable) (key : List ℤ) (x : ℕ) (e : Entry)
    → get true h key ≡ none
    → Memᴰ e (flat (hash_table_enter_bkey h key x).1.table)
    → Memᴰ e (flat h.table) ⊎ (e.val ≡ x)
unfolding hash_table_enter_bkey
flat-enter_bkey h key x e free mem = flat-enter true h key x e free mem

module _ (m : FsgModel) (from to : ℕ) (logp : ℤ) where
  link_at-with_link :
      (p : ℕ) → p < length m.links → link_at (with_link m from to logp) p ≡ link_at m p
  link_at-with_link p l = get_or-append m.links (null_link from to logp ∷ []) p no_link l

  link_at-new : link_at (with_link m from to logp) (length m.links) ≡ null_link from to logp
  link_at-new = get_or-append_end m.links (null_link from to logp) no_link

  module _ (v : IsModel m) (lf : from < m.n_state) (lt : to < m.n_state) (ne : from ≢ to)
      (neg : logp ≤ℤ pos 0) (missing : fsg_model_null_trans m from to ≡ none) where
    other : (i j p : ℕ) → fsg_model_null_trans m i j ≡ some p → ((i == from) && (to == j)) ≡ false
    other i j p e = elim (Bool-cases ((i == from) && (to == j))) [
      | inl t ↦
          let qi : i ≡ from = ground arith in
          let qj : j ≡ to = ground arith in
          let e' : fsg_model_null_trans m from to ≡ some p = rw (qi, qj) at e in
          let e'' : none ≡ some p = sym missing ∙ e' in cc
      | inr t ↦ t
    ]

    -- A link stays one.
    pub link_stays : (i j p : ℕ) → IsNullLink m i j p → IsNullLink (with_link m from to logp) i j p
    link_stays i j p l =
        let same = link_at-with_link p l.stored in
        record {
          at =
              null_trans-with_link m from to logp v lt missing i j l.to_lt
              ∙ rw (other i j p l.at) l.at;
          stored =
              let s = l.stored in
              omega (arith, length-append m.links (null_link from to logp ∷ []));
          from = ap (λ (x : Link). x.from_state) same ∙ l.from;
          to = ap (λ (x : Link). x.to_state) same ∙ l.to;
          certain = subst (λ (x : Link). x.logs2prob ≤ℤ pos 0) (sym same) l.certain;
          apart = l.apart;
          from_lt = l.from_lt;
          to_lt = l.to_lt;
        }

    pub link_new : IsNullLink (with_link m from to logp) from to (length m.links)
    link_new =
        let t₀ : (from == from) ≡ true = ground arith in
        let t₁ : (to == to) ≡ true = ground arith in
        record {
          at = null_trans-with_link m from to logp v lt missing from to lt ∙ rw (t₀, t₁) refl;
          stored = omega (arith, length-append m.links (null_link from to logp ∷ []));
          from = ap (λ (x : Link). x.from_state) link_at-new;
          to = ap (λ (x : Link). x.to_state) link_at-new;
          certain = subst (λ (x : Link). x.logs2prob ≤ℤ pos 0) (sym link_at-new) neg;
          apart = ne;
          from_lt = lf;
          to_lt = lt;
        }

    pub with_link-IsModel : IsModel (with_link m from to logp)
    with_link-IsModel =
        let h = table_or_new (m.trans from).null_trans in
        let (t, ok) = v.tables from in
        let free : get true h (bytes to) ≡ none = sym (null_trans-get m from to) ∙ missing in
        let (r, t', all) = hash_table_enter_bkey_lem h (bytes to) (length m.links) t ok in
        record {
          small = v.small;
          tables = λ i. elim (Bool-cases (i == from)) [
            | inl q ↦ rw q (t', nocase-enter h (bytes to) (length m.links) ∙ ok)
            | inr q ↦ rw q (v.tables i)
          ];
          found = λ i j p l e.
              let e' = sym (null_trans-with_link m from to logp v lt missing i j l) ∙ e in
              elim (Bool-cases ((i == from) && (to == j))) [
                | inl q ↦
                    let qi : i ≡ from = ground arith in
                    let qj : j ≡ to = ground arith in
                    let e'' : some (length m.links) ≡ some p = rw q at e' in
                    let qp : p ≡ length m.links = cc in rw (qi, qj, qp) link_new
                | inr q ↦
                    let e'' : fsg_model_null_trans m i j ≡ some p = rw q at e' in
                    link_stays i j p (v.found i j p l e'')
              ];
          listed = λ i e. elim (Bool-cases (i == from)) [
            | inl q ↦
                let qi : i ≡ from = ground arith in
                rw (q, qi)
                  (λ mem. elim (flat-enter_bkey h (bytes to) (length m.links) e free mem) [
                    | inl old ↦
                        let (j, l) = v.listed from e (
                          subst (λ (x : List Entry). Memᴰ e x)
                            (sym (entries-table (m.trans from).null_trans)) old) in
                        (j, link_stays from j e.val l)
                    | inr new ↦ (
                      to,
                      subst (λ x. IsNullLink (with_link m from to logp) from to x) (sym new)
                          link_new,
                    )
                  ])
            | inr q ↦ rw q (λ mem. let (j, l) = v.listed i e mem in (j, link_stays i j e.val l))
          ];
        }

    pub prob-with_link :
        (i j : ℕ)
        → j < m.n_state
        → prob (with_link m from to logp) i j
          ≡ (if (i == from) && (to == j) then some logp else prob m i j)
    prob-with_link i j l =
        ap (prob_at (with_link m from to logp))
          (null_trans-with_link m from to logp v lt missing i j l)
        ∙ (elim (Bool-cases ((i == from) && (to == j))) [
          | inl q ↦ rw q (ap (λ (x : Link). some x.logs2prob) link_at-new)
          | inr q ↦ rw q (elim (Option-cases (fsg_model_null_trans m i j)) [
            | inl n ↦ rw n refl
            | inr (p, e) ↦ rw e (
                ap (λ (x : Link). some x.logs2prob)
                  (link_at-with_link p (v.found i j p l e).stored))
          ])
        ])
