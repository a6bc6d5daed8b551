-- ===== src/Prelude/Occurs.antt =====
-- How often a value stands in a list, and loops that append what is put out for each element.
use kyosync.Prelude.Order.{Ord, same}
use Prim.Native.Nat.{ℕ, zero, suc, ◌+◌, ◌<◌}
use mathlib.Core.Path.{◌≡◌, refl}
use mathlib.Core.Bool.{Bool, true, false}
use mathlib.Core.List.{List, [], ◌∷◌, ◌++◌}
use mathlib.Core.Option.{some}
use kyosync.Prelude.Lists.{get_elem?}
use native.Mathlib.Omega.{arith}

pub append-nil {ℓ} : {A : Type ℓ} (xs : List A) → xs ++ [] ≡ xs
append-nil [] = refl
append-nil (x ∷ xs) = cc (append-nil xs)

pub append_assoc {ℓ} : {A : Type ℓ} (xs ys zs : List A) → (xs ++ ys) ++ zs ≡ xs ++ (ys ++ zs)
append_assoc [] ys zs = refl
append_assoc (x ∷ xs) ys zs = cc (append_assoc xs ys zs)

abbrev pub flat_map {ℓ κ} : {A : Type ℓ} {B : Type κ} → (A → List B) → List A → List B
flat_map f [] = []
flat_map f (x ∷ xs) = f x ++ flat_map f xs

pub flat_map-append {ℓ κ} :
    {A : Type ℓ} {B : Type κ} (f : A → List B) (xs ys : List A)
    → flat_map f (xs ++ ys) ≡ flat_map f xs ++ flat_map f ys
flat_map-append f [] ys = refl
flat_map-append f (x ∷ xs) ys =
    cc (flat_map-append f xs ys, append_assoc (f x) (flat_map f xs) (flat_map f ys))

abbrev pub one_if : Bool → ℕ
one_if true = 1
one_if false = 0

module _ {ℓ} {K : Type ℓ} ⦃o : Ord K⦄ where
  abbrev pub occurrences : K → List K → ℕ
  occurrences x [] = 0
  occurrences x (y ∷ ys) = one_if (same x y) + occurrences x ys

  pub occurrences-append :
      (x : K) (ys zs : List K) → occurrences x (ys ++ zs) ≡ occurrences x ys + occurrences x zs
  occurrences-append x [] zs = omega arith
  occurrences-append x (y ∷ ys) zs = omega (arith, occurrences-append x ys zs)

  pub occurs_first : (x : K) (ys : List K) → 0 < occurrences x (x ∷ ys)
  occurs_first x ys = ground (arith, o.cmp_refl x)

  pub occurs_get_elem? :
      (x : K) (ys : List K) (i : ℕ) → get_elem? ys i ≡ some x → 0 < occurrences x ys
  occurs_get_elem? x [] i h = absurd (ground arith)
  occurs_get_elem? x (y ∷ ys) zero h = ground (arith, o.cmp_refl x)
  occurs_get_elem? x (y ∷ ys) (suc i) h = ground (arith, occurs_get_elem? x ys i h)

  -- Loops whose bodies put out the same for every element of the list put out the same.
  pub flat_map-cong {κ} :
      {B : Type κ} (f g : K → List B) (xs : List K)
      → ((x : K) → 0 < occurrences x xs → f x ≡ g x)
      → flat_map f xs ≡ flat_map g xs
  flat_map-cong f g [] h = refl
  flat_map-cong f g (x ∷ xs) h =
      cc (h x (occurs_first x xs), flat_map-cong f g xs (λ y p. h y (omega (arith, p))))
