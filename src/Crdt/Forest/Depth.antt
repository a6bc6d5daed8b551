-- ===== src/Crdt/Forest/Depth.antt =====
-- How long a walk up the parents is, for the loops of move_tree.rs and view.rs.
use kyosync.Prelude.{
  ℕ, zero, suc, ◌≤◌, ◌<◌, ◌≡◌, ◌≢◌, refl, ap, sym, subst, ◌⊎◌, inl, inr, Option, none, some, List,
  [], ◌∷◌, true, false, if◌then◌else◌, Bool-cases, length, arith, ◌==◌,
}
use kyosync.Prelude.Order.{Ord, same, same_refl, eq_of_same}
use kyosync.Table.Set.{listed}
use kyosync.Crdt.Forest.{walk, Steps, Reaches, root, up, here, above}

module _ {ℓ} {K : Type ℓ} (parent : K → Option K) where
  pub Steps-unique : {n m : ℕ} {k : K} → Steps parent n k → Steps parent m k → n ≡ m
  Steps-unique (root e) (root f) = refl
  Steps-unique (root e) (up f s) = absurd (ground arith)
  Steps-unique (up e s) (root f) = absurd (ground arith)
  Steps-unique (up {p = p} e s) (up {n = m} {p = q} f t) =
      let same_parent : q ≡ p = ground arith in
      ap suc (Steps-unique s (subst (Steps parent m) same_parent t))

  -- Some node of the walk stands at each depth up to the first.
  at_depth : {n : ℕ} {k : K} → Steps parent n k → (d : ℕ) → d ≤ n → (x : K) × Steps parent d x
  at_depth {k = k} (root e) d h =
      let top : d ≡ 0 = omega arith in (k, subst (λ j. Steps parent j k) (sym top) (root e))
  at_depth {k = k} (up {n = n} e s) d h = elim (Bool-cases (d == suc n)) [
    | inl first ↦
        let this : d ≡ suc n = ground arith in
        (k, subst (λ j. Steps parent j k) (sym this) (up e s))
    | inr later ↦ at_depth s d (ground arith)
  ]

  has_parent : {d : ℕ} {x : K} → Steps parent d x → 0 < d → (p : K) × (parent x ≡ some p)
  has_parent (root e) h = absurd (omega arith)
  has_parent (up {p = p} e s) h = (p, e)

module _ {ℓ} {K : Type ℓ} ⦃o : Ord K⦄ where
  erase_key : K → List K → List K
  erase_key x [] = []
  erase_key x (y ∷ ys) = let rest = erase_key x ys in if same x y then ys else y ∷ rest

  length-erase_key :
      (x : K) (ys : List K) → listed x ys ≡ true → suc (length (erase_key x ys)) ≡ length ys
  unfolding erase_key
  length-erase_key x [] h = absurd (ground arith)
  length-erase_key x (y ∷ ys) h = ground (arith, length-erase_key x ys)

  listed-erase_key :
      (x z : K) (ys : List K) → z ≢ x → listed z ys ≡ true → listed z (erase_key x ys) ≡ true
  unfolding erase_key
  listed-erase_key x z [] n h = h
  listed-erase_key x z (y ∷ ys) n h =
      ground (arith, listed-erase_key x z ys n, o.eq_of_cmp x y, o.eq_of_cmp z y)

module _ {ℓ} {K : Type ℓ} ⦃o : Ord K⦄ (parent : K → Option K) where
  -- A list that holds a node of each depth from 1 to `n` has at least `n` entries.
  depth_bound :
      (n : ℕ) (ks : List K)
      → ((d : ℕ) → 0 < d → d ≤ n → (x : K) × Steps parent d x × (listed x ks ≡ true))
      → n ≤ length ks
  depth_bound zero ks f = omega arith
  depth_bound (suc n) ks f =
      let (x, s, h) = f (suc n) (omega arith) (omega arith) in
      let rest = depth_bound n (erase_key x ks) (λ d pos le.
        let (y, t, k) = f d pos (omega arith) in
        (
          y,
          t,
          listed-erase_key x y ks
              (λ e.
                absurd
                  (omega (arith, Steps-unique parent t (subst (Steps parent (suc n)) (sym e) s))))
              k,
        )) in
      omega (arith, length-erase_key x ks h)

  -- Where every node with a parent is listed, a walk has no more steps than the list has entries.
  pub Steps-bound :
      (ks : List K)
      → ((k p : K) → parent k ≡ some p → listed k ks ≡ true)
      → {n : ℕ} {k : K} → Steps parent n k
      → n ≤ length ks
  Steps-bound ks all {n} s = depth_bound n ks λ d pos le.
      let (x, t) = at_depth parent s d le in
      let (p, e) = has_parent parent t pos in (x, t, all x p e)

  only_root : {k target : K} → parent k ≡ none → same k target ≡ false → ¬ Reaches parent target k
  only_root {k} e miss here = ground (arith, same_refl k)
  only_root e miss (above f r) = absurd (ground arith)

  not_above :
      {k p target : K}
      → parent k ≡ some p
      → same k target ≡ false
      → ¬ Reaches parent target p
      → ¬ Reaches parent target k
  not_above {k} e miss n here = ground (arith, same_refl k)
  not_above {k} {p} {target} e miss n (above {p = q} f r) =
      let same_parent : q ≡ p = ground arith in n (subst (Reaches parent target) same_parent r)

  -- With fuel beyond the number of steps the walk ends, and its answer says whether the target is
  -- among the node and its ancestors.
  pub walk_decides :
      (fuel : ℕ) {n : ℕ} {k : K} (target : K)
      → Steps parent n k
      → suc n < fuel
      → ((walk parent fuel target (some k) ≡ some true) × Reaches parent target k)
        ⊎ ((walk parent fuel target (some k) ≡ some false) × ¬ Reaches parent target k)
  unfolding walk
  walk_decides zero target s h = absurd (omega arith)
  walk_decides (suc zero) target s h = absurd (omega arith)
  walk_decides (suc (suc f)) {k = k} target (root e) h = elim (Bool-cases (same k target)) [
    | inl hit ↦ inl (rw hit, subst (Reaches parent target) (sym (eq_of_same k target hit)) here)
    | inr miss ↦ inr (rw (miss, e), only_root e miss)
  ]
  walk_decides (suc (suc f)) {k = k} target (up {p = p} e s) h = elim (Bool-cases (same k target)) [
    | inl hit ↦ inl (rw hit, subst (Reaches parent target) (sym (eq_of_same k target hit)) here)
    | inr miss ↦ elim (walk_decides (suc f) target s (omega arith)) [
      | inl (w, r) ↦ inl (rw (miss, e) w, above e r)
      | inr (w, r) ↦ inr (rw (miss, e) w, not_above e miss r)
    ]
  ]
