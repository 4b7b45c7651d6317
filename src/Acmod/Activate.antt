-- ===== src/Acmod/Activate.antt =====
-- Which senones are flagged after an HMM is activated.
use pocketsphinx.Base.{
  ℕ, zero, suc, ◌+◌, ◌<◌, ◌≤◌, ◌≡◌, refl, sym, subst, ap, ◌∙◌, ◌⊎◌, inl, inr, true, false, Option,
  none, some, ◌==◌, arith, if◌then◌else◌, Bool-cases,
}
use native.Mathlib.Decide.{ℕ_discrete}
use pocketsphinx.Hmm.{Context, Hmm, bad_ssid}
use pocketsphinx.Util.Bitvec.{bitvec_set, bitvec_is_set}
use pocketsphinx.Util.Bitvec.Laws.{is_set-set_lem}
use pocketsphinx.Acmod.{Acmod, set_state, set_states, set_last_three, acmod_activate_hmm}

-- The senone of a state, if it has one.
abbrev pub senone_of : Context → Hmm → ℕ → Option ℕ
senone_of c h i =
    if h.mpx
    then if h.senid i == bad_ssid then none else some (c.sseq (h.senid i) i)
    else some (h.senid i)

-- From the flags of `v` to those of `v'`, the senones of the states in `P` were added.
pub record Adds (c : Context) (h : Hmm) (P : ℕ → Type 0) (v v' : ℕ → ℕ) : Type 0 where
  pub kept : (s : ℕ) → bitvec_is_set v s ≡ true → bitvec_is_set v' s ≡ true
  pub added : (i s : ℕ) → P i → senone_of c h i ≡ some s → bitvec_is_set v' s ≡ true
  pub only :
      (s : ℕ)
      → bitvec_is_set v' s ≡ true
      → (bitvec_is_set v s ≡ true) ⊎ ((i : ℕ) × P i × (senone_of c h i ≡ some s))

below_three : (i : ℕ) → i < 3 → (i ≡ 2) ⊎ ((i ≡ 1) ⊎ (i ≡ 0))
below_three i h = ground arith

below_five : (i : ℕ) → i < 5 → (i ≡ 4) ⊎ ((i ≡ 3) ⊎ (i < 3))
below_five i h = ground arith

module _ (c : Context) (h : Hmm) where
  set_senone-Adds :
      (i s : ℕ) (v : ℕ → ℕ) → senone_of c h i ≡ some s → Adds c h (λ k. k ≡ i) v (bitvec_set v s)
  set_senone-Adds i s v e = record {
    kept = λ t q. let l = is_set-set_lem v s t in ground arith;
    added = λ k t p q.
        let same : some s ≡ some t = sym e ∙ ap (senone_of c h) (sym p) ∙ q in
        let l = is_set-set_lem v s t in ground arith;
    only = λ t q.
        let l = is_set-set_lem v s t in
        elim (ℕ_discrete t s) [
          | yes same ↦ inr (i, refl, e ∙ ap some (sym same))
          | no ne ↦ inl (ground arith)
        ];
  }

  set_none-Adds : (i : ℕ) (v : ℕ → ℕ) → senone_of c h i ≡ none → Adds c h (λ k. k ≡ i) v v
  set_none-Adds i v e = record {
    kept = λ t q. q;
    added = λ k t p q.
        let same : none ≡ some t = sym e ∙ ap (senone_of c h) (sym p) ∙ q in absurd (ground arith);
    only = λ t q. inl q;
  }

  set_state_cases :
      (i : ℕ) (v : ℕ → ℕ)
      → ((senone_of c h i ≡ none) × (set_state c h i v ≡ v))
        ⊎ ((s : ℕ) × (senone_of c h i ≡ some s) × (set_state c h i v ≡ bitvec_set v s))
  unfolding set_state
  set_state_cases i v = elim (Bool-cases h.mpx) [
    | inl m ↦ elim (Bool-cases (h.senid i == bad_ssid)) [
      | inl b ↦ inl (simp (m, b), simp (m, b))
      | inr b ↦ inr (c.sseq (h.senid i) i, simp (m, b), simp (m, b))
    ]
    | inr m ↦ inr (h.senid i, simp m, simp m)
  ]

  set_state-Adds : (i : ℕ) (v : ℕ → ℕ) → Adds c h (λ k. k ≡ i) v (set_state c h i v)
  set_state-Adds i v = elim (set_state_cases i v) [
    | inl (e, q) ↦ subst (Adds c h (λ k. k ≡ i) v) (sym q) (set_none-Adds i v e)
    | inr (s, e, q) ↦ subst (Adds c h (λ k. k ≡ i) v) (sym q) (set_senone-Adds i s v e)
  ]

  then_Adds :
      {P Q : ℕ → Type 0} {v v' v'' : ℕ → ℕ}
      → Adds c h P v v'
      → Adds c h Q v' v''
      → Adds c h (λ k. P k ⊎ Q k) v v''
  then_Adds f g = record {
    kept = λ s q. g.kept s (f.kept s q);
    added = λ i s p q. elim p [ inl p' ↦ g.kept s (f.added i s p' q) | inr p' ↦ g.added i s p' q ];
    only = λ s q. elim (g.only s q) [
      | inl q' ↦ elim (f.only s q') [ inl q'' ↦ inl q'' | inr (i, p, e) ↦ inr (i, inl p, e) ]
      | inr (i, p, e) ↦ inr (i, inr p, e)
    ];
  }

  -- The same states, described in another way.
  as_Adds :
      {P Q : ℕ → Type 0} {v v' : ℕ → ℕ}
      → ((i : ℕ) → P i → Q i)
      → ((i : ℕ) → Q i → P i)
      → Adds c h P v v'
      → Adds c h Q v v'
  as_Adds to from a = record {
    kept = a.kept;
    added = λ i s p q. a.added i s (from i p) q;
    only = λ s q. elim (a.only s q) [ inl q' ↦ inl q' | inr (i, p, e) ↦ inr (i, to i p, e) ];
  }

  set_states-Adds :
      (m k : ℕ) (v : ℕ → ℕ) → Adds c h (λ i. (k ≤ i) × (i < k + m)) v (set_states c h m k v)
  unfolding set_states
  set_states-Adds zero k v = record {
    kept = λ s q. q;
    added = λ i s p q. absurd (omega arith);
    only = λ s q. inl q;
  }
  set_states-Adds (suc m) k v =
      let here = set_state-Adds k v in
      let rest = set_states-Adds m (k + 1) (set_state c h k v) in
      as_Adds
        (λ i p. elim p [ inl e ↦ (omega arith, omega arith) | inr q ↦ (omega arith, omega arith) ])
        (λ i p. elim (ℕ_discrete i k) [ yes e ↦ inl e | no ne ↦ inr (omega arith, omega arith) ])
        (then_Adds here rest)

  last_three-Adds : (v : ℕ → ℕ) → Adds c h (λ i. i < 3) v (set_last_three c h v)
  last_three-Adds v =
      let v₂ = set_state c h 2 v in
      let v₁ = set_state c h 1 v₂ in
      as_Adds (λ i p. ground arith) (λ i p. below_three i p)
        (then_Adds (set_state-Adds 2 v) (then_Adds (set_state-Adds 1 v₂) (set_state-Adds 0 v₁)))

  vector-Adds :
      (n : ℕ) (v : ℕ → ℕ)
      → Adds c h
          (λ i. i < n)
          v
          (if n == 5
            then set_last_three c h (set_state c h 3 (set_state c h 4 v))
            else if n == 3
            then set_last_three c h v
            else set_states c h n 0 v)
  vector-Adds n v = elim (ℕ_discrete n 5) [
    | yes five ↦
        let v₄ = set_state c h 4 v in
        let v₃ = set_state c h 3 v₄ in
        let all =
          then_Adds (set_state-Adds 4 v) (then_Adds (set_state-Adds 3 v₄) (last_three-Adds v₃)) in
        rw five (as_Adds (λ i p. ground arith) (λ i p. below_five i p) all)
    | no ne ↦ elim (ℕ_discrete n 3) [
      | yes three ↦ rw three (last_three-Adds v)
      | no ne' ↦
          let q₅ : (n == 5) ≡ false = ground arith in
          let q₃ : (n == 3) ≡ false = ground arith in
          rw (q₅, q₃)
            (as_Adds (λ i p. omega arith) (λ i p. (omega arith, omega arith))
              (set_states-Adds n 0 v))
    ]
  ]

pub flags-Adds :
    (c : Context) (a : Acmod) (h : Hmm)
    → a.compallsen ≡ false
    → Adds c h
        (λ i. i < h.n_emit_state)
        a.senone_active_vec
        (acmod_activate_hmm c a h).senone_active_vec
unfolding acmod_activate_hmm
flags-Adds c a h e = simp e (vector-Adds c h h.n_emit_state a.senone_active_vec)

all_computed :
    (c : Context) (a : Acmod) (h : Hmm) → a.compallsen ≡ true → acmod_activate_hmm c a h ≡ a
unfolding acmod_activate_hmm
all_computed c a h e = rw e refl

-- Where not all senones are computed (`compallsen` is false), activating an HMM flags the senones of
-- its states, keeps the flags that were set and sets no others, whether its loop over the states is
-- unrolled or not and whether it is multiplex or not. A state of a multiplex HMM without a senone
-- sequence has no senone. Where all senones are computed nothing is flagged and nothing changes.
pub activate_hmm_lem :
    (c : Context) (a : Acmod) (h : Hmm)
    → let a' = acmod_activate_hmm c a h in
      ((a.compallsen ≡ false)
        × Adds c h (λ i. i < h.n_emit_state) a.senone_active_vec a'.senone_active_vec)
      ⊎ ((a.compallsen ≡ true) × (a' ≡ a))
activate_hmm_lem c a h = elim (Bool-cases a.compallsen) [
  | inl e ↦ inr (e, all_computed c a h e)
  | inr e ↦ inl (e, flags-Adds c a h e)
]
