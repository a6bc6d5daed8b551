-- ===== src/Server/Store/Log.antt =====
-- What the table of ops of a room holds, as a part of the list of all ops that were appended.
use kyosync.Prelude.{
  ℕ, suc, ◌+◌, ◌-◌, ◌≤◌, ◌≡◌, refl, ap, sym, List, [], ◌∷◌, ◌++◌, ◌&&◌, ltb, leb, length, drop,
  arith, drop_all, inl, inr, Bool-cases,
}
use kyosync.Prelude.Order.{nat_ord}
use kyosync.Table.{Table, insert, retain, values}

module _ {A : Type 0} where
  -- The entries with the numbers `n + 1`, `n + 2`, ….
  unfoldable pub numbered_from : ℕ → List A → Table ℕ A
  numbered_from n [] = []
  numbered_from n (x ∷ xs) = (suc n, x) ∷ numbered_from (suc n) xs

  pub insert-numbered_from :
      (n h : ℕ) (x : A) (xs : List A)
      → h ≡ suc (n + length xs)
      → insert h x (numbered_from n xs) ≡ numbered_from n (xs ++ x ∷ [])
  unfolding insert numbered_from
  insert-numbered_from n h x [] e = ground arith
  insert-numbered_from n h x (y ∷ ys) e = ground (arith, insert-numbered_from (suc n) h x ys)

  -- Where all numbers are beyond the bound, all stay.
  pub retain_all :
      (n u : ℕ) (xs : List A)
      → u ≤ n
      → retain (λ k _. ltb u k) (numbered_from n xs) ≡ numbered_from n xs
  unfolding retain numbered_from
  retain_all n u [] h = refl
  retain_all n u (y ∷ ys) h = ground (arith, retain_all (suc n) u ys)

  -- Dropping the numbers up to a bound among them.
  pub retain_beyond :
      (n u : ℕ) (xs : List A)
      → n ≤ u
      → u ≤ n + length xs
      → retain (λ k _. ltb u k) (numbered_from n xs) ≡ numbered_from u (drop (u - n) xs)
  unfolding retain numbered_from
  retain_beyond n u [] h k = let none_left : u - n ≡ 0 = ground arith in rw none_left refl
  retain_beyond n u (y ∷ ys) h k = elim (Bool-cases (ltb n u)) [
    | inl more ↦
        let step : u - n ≡ suc (u - suc n) = ground arith in
        rw step (ground (arith, retain_beyond (suc n) u ys))
    | inr done ↦
        let here : u ≡ n = ground arith in
        let none_left : u - n ≡ 0 = ground arith in
        rw none_left
          (ground (arith, retain_all (suc n) u ys, ap (λ v. numbered_from v (y ∷ ys)) here))
  ]

  -- The values with a number in a range that ends at or after the last.
  pub values-range :
      (n from to : ℕ) (xs : List A)
      → n ≤ from
      → n + length xs ≤ to
      → values (retain (λ k _. ltb from k && leb k to) (numbered_from n xs)) ≡ drop (from - n) xs
  unfolding retain numbered_from values
  values-range n from to [] h k = sym (drop_all (from - n) [] (omega arith))
  values-range n from to (y ∷ ys) h k = elim (Bool-cases (ltb n from)) [
    | inl more ↦
        let step : from - n ≡ suc (from - suc n) = ground arith in
        rw step (ground (arith, values-range (suc n) from to ys))
    | inr done ↦
        let none_left : from - n ≡ 0 = ground arith in
        rw none_left (ground (arith, values-range_all (suc n) from to ys))
  ]
    where
      values-range_all :
          (m f t : ℕ) (zs : List A)
          → f ≤ m
          → m + length zs ≤ t
          → values (retain (λ k _. ltb f k && leb k t) (numbered_from m zs)) ≡ zs
      values-range_all m f t [] h k = refl
      values-range_all m f t (z ∷ zs) h k = ground (arith, values-range_all (suc m) f t zs)
