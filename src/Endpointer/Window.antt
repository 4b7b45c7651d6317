-- ===== src/Endpointer/Window.antt =====
-- The entries of an array of `cap` slots seen from index `h` on, going round at `cap`.
use pocketsphinx.Base.{
  ℕ, zero, suc, ◌+◌, ◌-◌, ◌%◌, ◌<◌, ◌≡◌, ◌≢◌, refl, sym, ap, ap₂, ◌∙◌, List, [], ◌∷◌, ◌++◌, length,
  arith,
}
use native.Mathlib.Nat.{mod-add-mod, add-zero, mod-mod, mod-lt}

mod_step : (cap h h' k : ℕ) → h % cap ≡ h' % cap → (h + k) % cap ≡ (h' + k) % cap
mod_step cap h h' k e = sym (mod-add-mod h cap k) ∙ ap (λ x. (x + k) % cap) e ∙ mod-add-mod h' cap k

module _ {ℓ} {E : Type ℓ} (cap : ℕ) where
  -- `f` reads a slot.
  abbrev pub window : (ℕ → E) → ℕ → ℕ → List E
  window f h zero = []
  window f h (suc n) = f (h % cap) ∷ window f (h + 1) n

  pub length-window : (f : ℕ → E) (h n : ℕ) → length (window f h n) ≡ n
  length-window f h zero = refl
  length-window f h (suc n) = ap suc (length-window f (h + 1) n)

  -- The start counts modulo `cap`.
  pub window_start : (f : ℕ → E) (h h' n : ℕ) → h % cap ≡ h' % cap → window f h n ≡ window f h' n
  window_start f h h' zero e = refl
  window_start f h h' (suc n) e =
      ap₂ (λ a b. f a ∷ b) e (window_start f (h + 1) (h' + 1) n (mod_step cap h h' 1 e))

  pub window_mod : (f : ℕ → E) (h n : ℕ) → window f (h % cap) n ≡ window f h n
  window_mod f h n = window_start f (h % cap) h n (mod-mod h cap)

  pub window_snoc :
      (f : ℕ → E) (h n : ℕ) → window f h (suc n) ≡ window f h n ++ f ((h + n) % cap) ∷ []
  window_snoc f h zero = rw add-zero
  window_snoc f h (suc n) =
      let e : h + 1 + n ≡ h + suc n = omega arith in
      ap (◌∷◌ (f (h % cap))) (window_snoc f (h + 1) n ∙ rw e)

  pub window_congr :
      (f g : ℕ → E) (h n : ℕ)
      → ((k : ℕ) → k < n → f ((h + k) % cap) ≡ g ((h + k) % cap))
      → window f h n ≡ window g h n
  window_congr f g h zero e = refl
  window_congr f g h (suc n) e =
      let first : f (h % cap) ≡ g (h % cap) = rw add-zero at (e 0 (omega arith)) in
      let rest = λ (k : ℕ) (lt : k < n).
        let same : h + suc k ≡ h + 1 + k = omega arith in rw same at (e (suc k) (omega arith)) in
      ap₂ ◌∷◌ first (window_congr f g (h + 1) n rest)

-- Fewer than `cap` steps from a slot do not come back to it.
step_ne : (cap r d : ℕ) → r < cap → 0 < d → d < cap → (r + d) % cap ≢ r
step_ne cap r d p q t = grind arith

-- Slots fewer than `cap` steps apart are different.
pub slot_ne : (cap h k n : ℕ) → k < n → n < k + cap → (h + k) % cap ≢ (h + n) % cap
slot_ne cap h k n p q e =
    let split : h + k + (n - k) ≡ h + n = omega arith in
    let r = (h + k) % cap in
    let moved : (r + (n - k)) % cap ≡ (h + n) % cap =
      mod-add-mod (h + k) cap (n - k) ∙ ap (λ x. x % cap) split in
    step_ne cap r (n - k) (mod-lt (h + k) (omega arith)) (omega arith) (omega arith) (moved ∙ sym e)

module _ {ℓ} {E : Type ℓ} (cap : ℕ) where
  -- Writing the slot just past a window that is not the whole ring extends the window.
  pub window_store :
      (f g : ℕ → E) (h n : ℕ) (v : E)
      → n < cap
      → g ((h + n) % cap) ≡ v
      → ((j : ℕ) → j ≢ (h + n) % cap → g j ≡ f j)
      → window cap g h (suc n) ≡ window cap f h n ++ v ∷ []
  window_store f g h n v p new old =
      window_snoc cap g h n
      ∙ ap₂ (λ xs x. xs ++ x ∷ [])
          (window_congr cap g f h n (λ k lt. old _ (slot_ne cap h k n lt (omega arith)))) new
