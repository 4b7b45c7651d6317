-- ===== src/Fsg/Model/Nulls.antt =====
-- The null transitions as a matrix of probabilities, and what adding one does to it.
use pocketsphinx.Base.{
  update, ℕ, ◌≤◌, ◌<◌, ◌≡◌, ◌≢◌, refl, sym, ap, ◌∙◌, inl, inr, true, false, ◌&&◌, Option, none,
  some, List, [], ◌∷◌, ◌++◌, ℤ, pos, negsuc, ◌≤ℤ◌, ◌==◌, if◌then◌else◌, length, arith, Bool-cases,
}
use mathlib.Core.List.{Memᴰ}
use pocketsphinx.Util.HashTable.{
  Entry, HashTable, hash_table_lookup_bkey, hash_table_enter_bkey, lookup, bucket,
}
use pocketsphinx.Util.HashTable.Slots.{IsTable, get, value_or}
use pocketsphinx.Util.HashTable.Binary.{hash_table_enter_bkey_lem}
use pocketsphinx.Util.HashTable.Start.{get-new, flat-new}
use pocketsphinx.Util.HashTable.Walk.{flat}
use pocketsphinx.Fsg.Model.Bytes.{same-bytes}
use pocketsphinx.Fsg.Model.{FsgModel, bytes, link_at, table_or_new, entries, fsg_model_null_trans}

abbrev pub prob_at : FsgModel → Option ℕ → Option ℤ
prob_at m none = none
prob_at m (some p) = some (link_at m p).logs2prob

-- The log probability of the null transition between two states.
abbrev pub prob : FsgModel → ℕ → ℕ → Option ℤ
prob m i j = prob_at m (fsg_model_null_trans m i j)

pub record IsNullLink (m : FsgModel) (i j p : ℕ) : Type 0 where
  pub at : fsg_model_null_trans m i j ≡ some p
  pub stored : p < length m.links
  pub from : (link_at m p).from_state ≡ i
  pub to : (link_at m p).to_state ≡ j
  pub certain : (link_at m p).logs2prob ≤ℤ pos 0
  pub apart : i ≢ j
  pub from_lt : i < m.n_state
  pub to_lt : j < m.n_state

-- State numbers are int32, the tables are well formed, and what they hold are links of their states.
pub record IsModel (m : FsgModel) : Type 0 where
  pub small : m.n_state ≤ 2147483648
  pub tables :
      (i : ℕ) → let h = table_or_new (m.trans i).null_trans in IsTable h × (h.nocase ≡ false)
  pub found : (i j p : ℕ) → j < m.n_state → fsg_model_null_trans m i j ≡ some p → IsNullLink m i j p
  pub listed :
      (i : ℕ) (e : Entry)
      → Memᴰ e (entries (m.trans i).null_trans)
      → (j : ℕ) × IsNullLink m i j e.val

-- Looking in a table that is not there is looking in a new one.
get-table :
    (o : Option HashTable) (key : List ℤ)
    → (elim o as (λ x. Option ℕ) [ none ↦ none | some h ↦ hash_table_lookup_bkey h key ])
      ≡ get true (table_or_new o) key
unfolding hash_table_lookup_bkey lookup bucket
get-table none key = sym (get-new true 5 false key)
get-table (some h) key = refl

pub entries-table : (o : Option HashTable) → entries o ≡ flat (table_or_new o).table
entries-table none = sym (flat-new 5 false)
entries-table (some h) = refl

pub null_trans-get :
    (m : FsgModel) (i j : ℕ)
    → fsg_model_null_trans m i j ≡ get true (table_or_new (m.trans i).null_trans) (bytes j)
unfolding fsg_model_null_trans
null_trans-get m i j = get-table (m.trans i).null_trans (bytes j)

-- The model with a new link and its table entry.
abbrev pub with_link : FsgModel → ℕ → ℕ → ℤ → FsgModel
with_link m from to logp = record m {
  trans = update m.trans from (record (m.trans from) {
    null_trans =
        some
          (hash_table_enter_bkey (table_or_new (m.trans from).null_trans) (bytes to)
            (length m.links)).1;
  });
  links =
      m.links
      ++ (record { from_state = from; to_state = to; logs2prob = logp; wid = negsuc 0 } ∷ []);
}

module _ (m : FsgModel) (from to : ℕ) (logp : ℤ) (v : IsModel m) (lt : to < m.n_state)
    (missing : fsg_model_null_trans m from to ≡ none) where
  enters :
      (j : ℕ)
      → j < m.n_state
      → get true
          (hash_table_enter_bkey
            (table_or_new (m.trans from).null_trans)
            (bytes to)
            (length m.links)).1
          (bytes j)
        ≡ (if to == j then some (length m.links) else fsg_model_null_trans m from j)
  unfolding hash_table_lookup_bkey lookup bucket
  enters j l =
      let h = table_or_new (m.trans from).null_trans in
      let (t, ok) = v.tables from in
      let (r, t', all) = hash_table_enter_bkey_lem h (bytes to) (length m.links) t ok in
      let free : get true h (bytes to) ≡ none = sym (null_trans-get m from to) ∙ missing in
      let r' : (hash_table_enter_bkey h (bytes to) (length m.links)).0 ≡ length m.links =
        r ∙ ap (λ (o : Option ℕ). value_or o (length m.links)) free in
      let keys =
        same-bytes h.nocase to j ok (let s = v.small in omega arith)
          (let s = v.small in omega arith) in
      all (bytes j) ∙ rw (keys, r', null_trans-get m from j) refl

  pub null_trans-with_link :
      (i j : ℕ)
      → j < m.n_state
      → fsg_model_null_trans (with_link m from to logp) i j
        ≡ (if (i == from) && (to == j) then some (length m.links) else fsg_model_null_trans m i j)
  null_trans-with_link i j l = elim (Bool-cases (i == from)) [
    | inl t ↦
        let q : i ≡ from = ground arith in
        null_trans-get (with_link m from to logp) i j ∙ rw (t, q) (enters j l)
    | inr t ↦ null_trans-get (with_link m from to logp) i j ∙ rw t (sym (null_trans-get m i j))
  ]
