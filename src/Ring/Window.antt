-- ===== src/Ring/Window.antt =====
-- What a circular array of 128 slots holds, for counters that run past the end of the array and
-- wrap at 2^32.
use cs6210proj.Prelude.{
  ℕ, zero, suc, ◌+◌, ◌-◌, ◌%◌, ◌≤◌, ◌<◌, ◌≡◌, refl, ap, ap₂, List, [], ◌∷◌, ◌++◌, arith, length,
  get_or, set, get_or-set_self, get_or-set_ne,
}

module _ {ℓ} {A : Type ℓ} (blank : A) where
  -- the `n` entries from count `h` on
  abbrev pub window : List A → ℕ → ℕ → List A
  window buf h zero = []
  window buf h (suc n) = get_or buf (h % 128) blank ∷ window buf (h + 1) n

  pub length-window : (buf : List A) (h n : ℕ) → length (window buf h n) ≡ n
  length-window buf h zero = refl
  length-window buf h (suc n) = ap suc (length-window buf (h + 1) n)

  -- Only the slot that a count falls on matters.
  pub window-mod : (buf : List A) (h k n : ℕ) → h % 128 ≡ k % 128 → window buf h n ≡ window buf k n
  window-mod buf h k zero e = refl
  window-mod buf h k (suc n) e =
      ap₂ ◌∷◌ (ap (λ i. get_or buf i blank) e) (window-mod buf (h + 1) (k + 1) n (omega arith))

  -- A write just past the window extends it.
  pub window-set :
      (buf : List A) (h n i : ℕ) (v : A)
      → length buf ≡ 128
      → n < 128
      → i ≡ (h + n) % 128
      → window (set buf i v) h (suc n) ≡ window buf h n ++ v ∷ []
  window-set buf h zero i v l b e =
      let e' : h % 128 ≡ i = omega arith in
      ap (λ w. w ∷ []) (rw e' (get_or-set_self buf i v blank (omega arith)))
  window-set buf h (suc n) i v l b e =
      ap₂ ◌∷◌ (get_or-set_ne buf v blank (λ (q : i ≡ h % 128). omega arith))
        (window-set buf (h + 1) n i v l (omega arith) (omega arith))

  -- A write outside the window leaves it.
  pub window-set_outside :
      (buf : List A) (h n m i : ℕ) (v : A)
      → n ≤ m
      → m < 128
      → i ≡ (h + m) % 128
      → window (set buf i v) h n ≡ window buf h n
  window-set_outside buf h zero m i v l b e = refl
  window-set_outside buf h (suc n) m i v l b e =
      ap₂ ◌∷◌ (get_or-set_ne buf v blank (λ (q : i ≡ h % 128). omega arith))
        (window-set_outside buf (h + 1) n (m - 1) i v (omega arith) (omega arith) (omega arith))
