-- ===== src/Util/HashTable/Buckets.antt =====
-- One bucket as a list of entries: what finding, adding, overwriting and unlinking do to it.
use pocketsphinx.Base.{
  ℕ, ◌≡◌, ◌≢◌, ◌↔◌, refl, sym, ◌∙◌, Bool, true, none, some, List, [], ◌∷◌, ℤ, if◌then◌else◌, length,
  arith, Bool-cases, inl, inr,
}
use pocketsphinx.Util.HashTable.{Entry, matches, find, value_of, overwrite, add_entry, unlink}
use pocketsphinx.Util.HashTable.Keys.{norm, matches-norm, matches_congr}

-- Every entry knows the length of its key.
abbrev pub AllSized : List Entry → Type 0
AllSized [] = Unit
AllSized (e ∷ es) = (e.len ≡ length e.key) × AllSized es

module _ (nocase : Bool) where
  abbrev pub hits : Entry → List ℤ → Bool
  hits e key = matches nocase e key (length key)

  -- Two keys are one key of the table.
  abbrev pub same : List ℤ → List ℤ → Bool
  same a b = hits (record { key = a; len = length a; val = 0 }) b

  pub same-norm : (a b : List ℤ) → (same a b ≡ true) ↔ (norm nocase a ≡ norm nocase b)
  same-norm a b = matches-norm nocase (record { key = a; len = length a; val = 0 }) b refl

  pub hits_same :
      (e : Entry) (a b : List ℤ) → e.len ≡ length e.key → same a b ≡ true → hits e a ≡ hits e b
  hits_same e a b wf s = matches_congr nocase e a b wf ((same-norm a b).0 s)

  pub hits_hit :
      (e : Entry) (a b : List ℤ) → e.len ≡ length e.key → hits e a ≡ true → hits e b ≡ same a b
  hits_hit e a b wf t =
      let ea = (matches-norm nocase e a wf).0 t in
      elim (Bool-cases (same a b)) [
        | inl s ↦ sym (hits_same e a b wf s) ∙ t ∙ sym s
        | inr s ↦ elim (Bool-cases (hits e b)) [
          | inl u ↦ u ∙ sym ((same-norm a b).1 (sym ea ∙ (matches-norm nocase e b wf).0 u))
          | inr u ↦ u ∙ sym s
        ]
      ]

  pub hits_own : (e : Entry) (key : List ℤ) → e.len ≡ length e.key → hits e key ≡ same e.key key
  hits_own e key wf =
      let (e₀, e₁) = matches-norm nocase e key wf in
      let (s₀, s₁) = same-norm e.key key in
      elim (Bool-cases (hits e key)) [
        | inl t ↦ t ∙ sym (s₁ (e₀ t))
        | inr t ↦ elim (Bool-cases (same e.key key)) [
          | inl u ↦ e₁ (s₀ u) ∙ sym u
          | inr u ↦ t ∙ sym u
        ]
      ]

  -- No entry is found under the key of another.
  abbrev pub IsUnique : List Entry → Type 0
  IsUnique [] = Unit
  IsUnique (e ∷ es) =
      ((key : List ℤ) → hits e key ≡ true → find nocase es key (length key) ≡ none) × IsUnique es

  pub find_same :
      (es : List Entry) (a b : List ℤ)
      → AllSized es
      → same a b ≡ true
      → find nocase es a (length a) ≡ find nocase es b (length b)
  unfolding find
  find_same [] a b wf s = refl
  find_same (e ∷ es) a b wf s = rw (hits_same e a b wf.0 s, find_same es a b wf.1 s)

  -- A new entry is found under its key, and nothing else changes.
  pub find-add_entry :
      (es : List Entry) (new : Entry) (key : List ℤ)
      → AllSized es
      → new.len ≡ length new.key
      → find nocase es new.key (length new.key) ≡ none
      → find nocase (add_entry es new) key (length key)
        ≡ (if hits new key then some new else find nocase es key (length key))
  unfolding find add_entry
  find-add_entry [] new key wf n f = refl
  find-add_entry (e ∷ es) new key wf n f =
      ground (arith, hits_same e new.key key wf.0, hits_own new key n)

  pub find-unlink :
      (es : List Entry) (k key : List ℤ)
      → AllSized es
      → IsUnique es
      → find nocase es k (length k) ≢ none
      → find nocase (unlink nocase es k (length k)) key (length key)
        ≡ (if same k key then none else find nocase es key (length key))
  unfolding find unlink
  find-unlink [] k key wf u f = absurd (f refl)
  find-unlink (e ∷ es) k key wf u f = ground (
    arith,
    hits_hit e k key wf.0,
    hits_same e k key wf.0,
    find_same es k key wf.1,
    u.0 k,
    find-unlink es k key wf.1 u.1,
  )

  pub len_of_hit : (e : Entry) (key : List ℤ) → hits e key ≡ true → e.len ≡ length key
  unfolding matches
  len_of_hit e key h = ground arith

  -- An entry written over is found under its key with the new value.
  pub find-overwrite :
      (es : List Entry) (k key : List ℤ) (v : ℕ)
      → AllSized es
      → find nocase es k (length k) ≢ none
      → value_of (find nocase (overwrite nocase es k (length k) v) key (length key))
        ≡ (if same k key then some v else value_of (find nocase es key (length key)))
  unfolding find overwrite
  find-overwrite [] k key v wf f = absurd (f refl)
  find-overwrite (e ∷ es) k key v wf f =
      let e' = record e { key = k; val = v } in
      ground (
        arith,
        hits_hit e k key wf.0,
        hits_same e k key wf.0,
        hits_own e' key,
        len_of_hit e k,
        find-overwrite es k key v wf.1,
      )

  pub AllSized-add_entry :
      (es : List Entry) (new : Entry)
      → AllSized es
      → new.len ≡ length new.key
      → AllSized (add_entry es new)
  unfolding add_entry
  AllSized-add_entry [] new wf n = (n, tt)
  AllSized-add_entry (e ∷ es) new wf n = (wf.0, (n, wf.1))

  pub AllSized-unlink :
      (es : List Entry) (k : List ℤ) → AllSized es → AllSized (unlink nocase es k (length k))
  unfolding unlink
  AllSized-unlink [] k wf = tt
  AllSized-unlink (e ∷ es) k wf = ground (arith, AllSized-unlink es k wf.1)

  pub unlink-none :
      (es : List Entry) (k key : List ℤ)
      → find nocase es key (length key) ≡ none
      → find nocase (unlink nocase es k (length k)) key (length key) ≡ none
  unfolding find unlink
  unlink-none [] k key f = refl
  unlink-none (e ∷ es) k key f = ground (arith, unlink-none es k key)

  pub IsUnique-add_entry :
      (es : List Entry) (new : Entry)
      → AllSized es
      → IsUnique es
      → new.len ≡ length new.key
      → find nocase es new.key (length new.key) ≡ none
      → IsUnique (add_entry es new)
  unfolding add_entry find
  IsUnique-add_entry [] new wf u n f = (λ key t. refl, tt)
  IsUnique-add_entry (e ∷ es) new wf u n f = (
    λ key t. ground (arith, u.0 key t, hits_same e new.key key wf.0, hits_own new key n),
    (λ key t. ground (arith, find_same es new.key key wf.1, hits_own new key n), u.1),
  )

  pub IsUnique-unlink :
      (es : List Entry) (k : List ℤ) → IsUnique es → IsUnique (unlink nocase es k (length k))
  unfolding unlink
  IsUnique-unlink [] k u = tt
  IsUnique-unlink (e ∷ es) k u = elim (Bool-cases (hits e k)) [
    | inl t ↦ rw t u.1
    | inr t ↦ rw t (λ key h. unlink-none es k key (u.0 key h), IsUnique-unlink es k u.1)
  ]
