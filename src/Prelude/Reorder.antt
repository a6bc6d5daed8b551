-- ===== src/Prelude/Reorder.antt =====
-- A loop over a list does not depend on the list's order where its steps commute.
use mathlib.Core.Path.{◌≡◌, refl, ◌∙◌}
use mathlib.Core.List.{List, [], ◌∷◌, Permᴰ}

-- Every entry of the list satisfies the predicate.
abbrev pub All {ℓ κ} : {A : Type ℓ} → (A → Type κ) → List A → Type κ
All P [] = Unit
All P (x ∷ xs) = P x × All P xs

pub All-imp {ℓ κ μ} :
    {A : Type ℓ} {P : A → Type κ} {Q : A → Type μ}
    → ((x : A) → P x → Q x)
    → (xs : List A) → All P xs
    → All Q xs
All-imp f [] h = tt
All-imp f (x ∷ xs) h = (f x h.0, All-imp f xs h.1)

-- `for x in xs { s = step(x, s) }`
unfoldable pub fold_steps {ℓ κ} : {A : Type ℓ} {S : Type κ} → (A → S → S) → List A → S → S
fold_steps step [] s = s
fold_steps step (x ∷ xs) s = fold_steps step xs (step x s)

module _ {ℓ κ μ} {A : Type ℓ} {S : Type κ} (Inv : S → Type μ) (step : A → S → S) where
  module _ (keep : (x : A) (s : S) → Inv s → Inv (step x s))
      (comm : (x y : A) (s : S) → Inv s → step y (step x s) ≡ step x (step y s)) where
    pub fold_steps-Inv : (xs : List A) (s : S) → Inv s → Inv (fold_steps step xs s)
    unfolding fold_steps
    fold_steps-Inv [] s h = h
    fold_steps-Inv (x ∷ xs) s h = fold_steps-Inv xs (step x s) (keep x s h)

    -- Steps that commute where the invariant holds lead to one state from any order of the list.
    pub fold_steps-perm :
        {xs ys : List A}
        → Permᴰ xs ys
        → (s : S) → Inv s
        → fold_steps step xs s ≡ fold_steps step ys s
    unfolding fold_steps
    fold_steps-perm Permᴰ.nil s h = refl
    fold_steps-perm (Permᴰ.cons {a = a} {l₁ = l} e p) s h =
        fold_steps-perm p (step a s) (keep a s h) ∙ (rw e)
    fold_steps-perm (Permᴰ.swap {a = a} {b = b} {l = l} e f) s h = rw (comm a b s h) (rw (e, f))
    fold_steps-perm (Permᴰ.trans p q) s h = fold_steps-perm p s h ∙ fold_steps-perm q s h
