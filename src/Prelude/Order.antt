-- ===== src/Prelude/Order.antt =====
-- Rust's `Ord` with the laws that the trait asks of `cmp` (its `==` is read as `≡`), and the
-- derived orders of numbers, of byte strings and of records with two fields.
use Prim.Native.Nat.{ℕ, compare, Ordering}
use Prim.Native.Nat.Ordering.{lt, eq, gt}
use mathlib.Core.Path.{◌≡◌, refl}
use mathlib.Core.Bool.{Bool, true, false}
use mathlib.Core.List.{List, [], ◌∷◌}
use native.Mathlib.Omega.{arith}

pub record IsLawful {ℓ} {K : Type ℓ} (cmp : K → K → Ordering) : Type ℓ where
  pub cmp_trans : (x y z : K) → cmp x y ≡ lt → cmp y z ≡ lt → cmp x z ≡ lt
  pub gt_of_lt : (x y : K) → cmp x y ≡ lt → cmp y x ≡ gt
  pub lt_of_gt : (x y : K) → cmp x y ≡ gt → cmp y x ≡ lt
  pub eq_of_cmp : (x y : K) → cmp x y ≡ eq → x ≡ y
  pub cmp_refl : (x : K) → cmp x x ≡ eq

pub record Ord {ℓ} (K : Type ℓ) : Type ℓ where
  pub cmp : K → K → Ordering
  pub lawful : IsLawful cmp
  pub open lawful use *

-- The test `a == b`.
abbrev pub same {ℓ} : {K : Type ℓ} ⦃o : Ord K⦄ → K → K → Bool
same ⦃o⦄ a b = elim (o.cmp a b) [ eq ↦ true | _ ↦ false ]

module _ {ℓ} {K : Type ℓ} ⦃o : Ord K⦄ where
  pub same_refl : (a : K) → same a a ≡ true
  same_refl a = ground (arith, o.cmp_refl a)

  pub eq_of_same : (a b : K) → same a b ≡ true → a ≡ b
  eq_of_same a b h = o.eq_of_cmp a b (ground arith)

  pub cmp_irrefl : (a : K) → o.cmp a a ≡ lt → ⊥
  cmp_irrefl a h = ground (arith, o.cmp_refl a)

pub compare-IsLawful : IsLawful compare
compare-IsLawful = ground arith

instance abbrev pub nat_ord : Ord ℕ
nat_ord = record { cmp = compare; lawful = compare-IsLawful }

-- `derive(Ord)`: the first difference decides.
abbrev pub then_with : Ordering → Ordering → Ordering
then_with eq second = second
then_with first _ = first

module _ {ℓ} {A : Type ℓ} ⦃a : Ord A⦄ where
  -- Vectors and strings compare lexicographically.
  unfoldable pub lex : List A → List A → Ordering
  lex [] [] = eq
  lex [] (y ∷ ys) = lt
  lex (x ∷ xs) [] = gt
  lex (x ∷ xs) (y ∷ ys) = then_with (a.cmp x y) (lex xs ys)

  lex_refl : (xs : List A) → lex xs xs ≡ eq
  unfolding lex
  lex_refl [] = refl
  lex_refl (x ∷ xs) = ground (arith, a.cmp_refl x, lex_refl xs)

  lex-eq : (xs ys : List A) → lex xs ys ≡ eq → xs ≡ ys
  unfolding lex
  lex-eq [] [] h = refl
  lex-eq [] (y ∷ ys) h = ground arith
  lex-eq (x ∷ xs) [] h = ground arith
  lex-eq (x ∷ xs) (y ∷ ys) h = ground (arith, a.eq_of_cmp x y, lex-eq xs ys)

  lex-gt : (xs ys : List A) → lex xs ys ≡ gt → lex ys xs ≡ lt
  unfolding lex
  lex-gt [] [] h = ground arith
  lex-gt [] (y ∷ ys) h = ground arith
  lex-gt (x ∷ xs) [] h = refl
  lex-gt (x ∷ xs) (y ∷ ys) h =
      ground (arith, a.eq_of_cmp x y, a.lt_of_gt x y, a.cmp_refl x, lex-gt xs ys)

  lex-lt : (xs ys : List A) → lex xs ys ≡ lt → lex ys xs ≡ gt
  unfolding lex
  lex-lt [] [] h = ground arith
  lex-lt [] (y ∷ ys) h = refl
  lex-lt (x ∷ xs) [] h = ground arith
  lex-lt (x ∷ xs) (y ∷ ys) h =
      ground (arith, a.eq_of_cmp x y, a.gt_of_lt x y, a.cmp_refl x, lex-lt xs ys)

  lex_trans : (xs ys zs : List A) → lex xs ys ≡ lt → lex ys zs ≡ lt → lex xs zs ≡ lt
  unfolding lex
  lex_trans [] [] zs h k = k
  lex_trans [] (y ∷ ys) [] h k = ground arith
  lex_trans [] (y ∷ ys) (z ∷ zs) h k = refl
  lex_trans (x ∷ xs) [] zs h k = ground arith
  lex_trans (x ∷ xs) (y ∷ ys) [] h k = ground arith
  lex_trans (x ∷ xs) (y ∷ ys) (z ∷ zs) h k = ground (
    arith,
    a.eq_of_cmp x y,
    a.eq_of_cmp y z,
    a.cmp_trans x y z,
    a.cmp_refl x,
    a.cmp_refl y,
    lex_trans xs ys zs,
  )

  pub lex-IsLawful : IsLawful lex
  lex-IsLawful = record {
    cmp_refl = lex_refl;
    eq_of_cmp = lex-eq;
    lt_of_gt = lex-gt;
    gt_of_lt = lex-lt;
    cmp_trans = lex_trans;
  }

  instance unfoldable pub list_ord : Ord (List A)
  unfolding lex
  list_ord = record { cmp = lex; lawful = lex-IsLawful }
