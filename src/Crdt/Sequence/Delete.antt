-- ===== src/Crdt/Sequence/Delete.antt =====
-- What a deletion in crates/kyoso_crdt/src/types/sequence.rs leaves to be shown.
use kyosync.Prelude.{
  ℕ, zero, suc, ◌+◌, ◌≤◌, ◌<◌, ◌≡◌, refl, ap, sym, ◌∙◌, List, [], ◌∷◌, ◌++◌, none, arith, inl, inr,
  Bool-cases, length, true, take, drop, min, take-nil, drop_all, if◌then◌else◌, u64_mod,
}
use kyosync.Prelude.Occurs.{occurrences, flat_map, flat_map-cong}
use kyosync.Table.{Table}
use kyosync.Table.Set.{listed}
use kyosync.Table.Sorted.{IsSorted}
use kyosync.Crdt.Context.{SubDot, CausalContext, dot_ord, cmp_dot-IsLawful}
use kyosync.Crdt.Sequence.{
  Element, Sequence, emit_live, emit_value, to_vec, live_ids, mutate, delete_at, entomb_all,
  targets_at,
}
use kyosync.Crdt.Sequence.Walk.{order}
use kyosync.Crdt.Sequence.Once.{met_once}
use kyosync.Crdt.Sequence.Insert.{length-live_ids}
use kyosync.Crdt.Sequence.Visible.{whole, to_vec-eq, live_ids-eq, emits, live-occurs}
use kyosync.Crdt.Sequence.Entomb.{
  SameTree, order-SameTree, entomb_all-SameTree, emit_value-entomb_all,
}

listed-take :
    (x : SubDot) (count : ℕ) (xs : List SubDot)
    → listed x (take count xs) ≡ true
    → 0 < occurrences x xs
listed-take x zero xs h = absurd (ground arith)
listed-take x (suc count) [] h = absurd (ground arith)
listed-take x (suc count) (y ∷ ys) h = ground (arith, listed-take x count ys)

listed-take-drop :
    (x : SubDot) (count pos : ℕ) (xs : List SubDot)
    → listed x (take count (drop pos xs)) ≡ true
    → 0 < occurrences x xs
listed-take-drop x count zero xs h = listed-take x count xs h
listed-take-drop x count (suc pos) [] h = listed-take x count [] h
listed-take-drop x count (suc pos) (y ∷ ys) h = omega (arith, listed-take-drop x count pos ys h)

-- A range whose bounds are cut to the length is what there is of the range.
slice_clamped {ℓ} :
    {A : Type ℓ} (pos count a b : ℕ) (xs : List A)
    → a ≡ min pos (length xs)
    → b ≡ min (pos + count) (length xs)
    → drop a (take b xs) ≡ take count (drop pos xs)
slice_clamped {A} pos count a b [] h k =
    rw (drop_all {A = A} pos [] (omega arith), take-nil {A = A} count, take-nil {A = A} b)
      (drop_all {A = A} a [] (omega arith))
slice_clamped zero count (suc a) b (x ∷ xs) h k = absurd (omega arith)
slice_clamped zero zero zero zero (x ∷ xs) h k = refl
slice_clamped zero zero zero (suc b) (x ∷ xs) h k = absurd (omega arith)
slice_clamped zero (suc count) zero zero (x ∷ xs) h k = absurd (omega arith)
slice_clamped zero (suc count) zero (suc b) (x ∷ xs) h k =
    ap (λ ys. x ∷ ys) (slice_clamped zero count zero b xs (omega arith) (omega arith))
slice_clamped (suc pos) count zero b (x ∷ xs) h k = absurd (omega arith)
slice_clamped (suc pos) count (suc a) zero (x ∷ xs) h k = absurd (omega arith)
slice_clamped (suc pos) count (suc a) (suc b) (x ∷ xs) h k =
    slice_clamped pos count a b xs (omega arith) (omega arith)

module _ {ℓ} {T : Type ℓ} where
  -- The elements shown when those of a list are not.
  without : Table SubDot (Element T) → List SubDot → SubDot → List T
  without m ts x = if listed x ts then [] else emit_value m x

  without-dead :
      (m : Table SubDot (Element T)) (ts : List SubDot) (x : SubDot)
      → emit_value m x ≡ []
      → without m ts x ≡ []
  unfolding without
  without-dead m ts x h = ground arith

  without-live :
      (m : Table SubDot (Element T)) (ts : List SubDot) (x : SubDot) (v : T)
      → emit_value m x ≡ v ∷ []
      → (listed x ts ≡ true → ⊥)
      → without m ts x ≡ v ∷ []
  unfolding without
  without-live m ts x v h n = elim (Bool-cases (listed x ts)) [
    | inl y ↦ absurd (n y)
    | inr n ↦ rw (n, h) refl
  ]

  without-first :
      (m : Table SubDot (Element T)) (x : SubDot) (ts : List SubDot) → without m (x ∷ ts) x ≡ []
  unfolding without dot_ord
  without-first m x ts = ground (arith, cmp_dot-IsLawful.cmp_refl x)

  -- An id that does not occur makes no difference to what is left.
  without-other :
      (m : Table SubDot (Element T)) (ts : List SubDot) (x : SubDot) (xs : List SubDot)
      → occurrences x xs ≡ 0
      → flat_map (without m (x ∷ ts)) xs ≡ flat_map (without m ts) xs
  unfolding without dot_ord
  without-other m ts x xs h =
      flat_map-cong (without m (x ∷ ts)) (without m ts) xs
        λ y p. ground (arith, cmp_dot-IsLawful.eq_of_cmp y x)

  range_lost_live :
      (m : Table SubDot (Element T)) (x : SubDot) (v : T) (xs : List SubDot) (pos count end : ℕ)
      → end ≡ pos + count
      → occurrences x xs ≡ 0
      → emit_value m x ≡ v ∷ []
      → ((p c d : ℕ)
          → d ≡ p + c
          → flat_map (without m (take c (drop p (flat_map (emit_live m) xs)))) xs
            ≡ take p (flat_map (emit_value m) xs) ++ drop d (flat_map (emit_value m) xs))
      → without m (take count (drop pos (x ∷ flat_map (emit_live m) xs))) x
          ++ flat_map (without m (take count (drop pos (x ∷ flat_map (emit_live m) xs)))) xs
        ≡ take pos (v ∷ flat_map (emit_value m) xs) ++ drop end (v ∷ flat_map (emit_value m) xs)
  range_lost_live m x v xs zero zero zero h gone b rest =
      rw (without-live m [] x v b (λ l. absurd (ground arith)))
        (ap (λ ys. v ∷ ys) (rest 0 0 0 refl))
  range_lost_live m x v xs zero zero (suc end) h gone b rest = absurd (omega arith)
  range_lost_live m x v xs zero (suc count) zero h gone b rest = absurd (omega arith)
  range_lost_live m x v xs zero (suc count) (suc end) h gone b rest =
      rw
        (
          without-first m x (take count (flat_map (emit_live m) xs)),
          without-other m (take count (flat_map (emit_live m) xs)) x xs gone,
        )
        (rest zero count end (omega arith))
  range_lost_live m x v xs (suc pos) count zero h gone b rest = absurd (omega arith)
  range_lost_live m x v xs (suc pos) count (suc end) h gone b rest =
      let kept : without m (take count (drop pos (flat_map (emit_live m) xs))) x ≡ v ∷ [] =
        without-live m (take count (drop pos (flat_map (emit_live m) xs))) x v b λ l. absurd (
          omega (
            arith,
            live-occurs m x xs (listed-take-drop x count pos (flat_map (emit_live m) xs) l),
          )) in
      rw kept (ap (λ ys. v ∷ ys) (rest pos count end (omega arith)))

  range_lost_dead :
      (m : Table SubDot (Element T)) (x : SubDot) (xs : List SubDot) (pos count end : ℕ)
      → emit_value m x ≡ []
      → flat_map (without m (take count (drop pos (flat_map (emit_live m) xs)))) xs
        ≡ take pos (flat_map (emit_value m) xs) ++ drop end (flat_map (emit_value m) xs)
      → without m (take count (drop pos (flat_map (emit_live m) xs))) x
          ++ flat_map (without m (take count (drop pos (flat_map (emit_live m) xs)))) xs
        ≡ take pos (flat_map (emit_value m) xs) ++ drop end (flat_map (emit_value m) xs)
  range_lost_dead m x xs pos count end b rest =
      rw (without-dead m (take count (drop pos (flat_map (emit_live m) xs))) x b) rest

  -- The same for what an element puts out and what it is known to put out.
  same_range :
      (m : Table SubDot (Element T)) (x : SubDot) (xs : List SubDot) (pos count end : ℕ)
      {ids ids' : List SubDot} {vs vs' : List T}
      → ids' ≡ ids
      → vs' ≡ vs
      → flat_map (without m (take count (drop pos ids))) (x ∷ xs) ≡ take pos vs ++ drop end vs
      → flat_map (without m (take count (drop pos ids'))) (x ∷ xs) ≡ take pos vs' ++ drop end vs'
  same_range m x xs pos count end p q h =
      ap (λ l. flat_map (without m (take count (drop pos l))) (x ∷ xs)) p
      ∙ h
      ∙ ap (λ l. take pos l ++ drop end l) (sym q)

  -- Of live elements without repetition, the loss of a range is the loss of that range of values.
  range_lost :
      (m : Table SubDot (Element T)) (xs : List SubDot) (pos count end : ℕ)
      → end ≡ pos + count
      → ((x : SubDot) → occurrences x xs ≤ 1)
      → flat_map (without m (take count (drop pos (flat_map (emit_live m) xs)))) xs
        ≡ take pos (flat_map (emit_value m) xs) ++ drop end (flat_map (emit_value m) xs)
  unfolding dot_ord
  range_lost m [] pos count end h once =
      rw (take-nil {A = T} pos, drop_all {A = T} end [] (omega arith)) refl
  range_lost m (x ∷ xs) pos count end h once =
      let fewer : (y : SubDot) → occurrences y xs ≤ 1 = λ y. omega (arith, once y) in
      elim (emits m x) [
        | inl (a, b) ↦
            same_range m x xs pos count end (rw a refl) (rw b refl)
              (range_lost_dead m x xs pos count end b (range_lost m xs pos count end h fewer))
        | inr (v, a, b) ↦
            let gone : occurrences x xs ≡ 0 = ground (arith, once x, cmp_dot-IsLawful.cmp_refl x) in
            same_range m x xs pos count end (rw a refl) (rw b refl) (
              range_lost_live m x v xs pos count end h gone b
                (λ p c d q. range_lost m xs p c d q fewer))
      ]

  -- What is shown once the elements of a list are entombed.
  deleted :
      (ts : List SubDot) (s : Sequence T)
      → IsSorted s.elements
      → to_vec (record { elements = entomb_all ts s.elements })
        ≡ flat_map (without s.elements ts) (whole s.elements)
  unfolding without SameTree
  deleted ts s sorted =
      let (tree, kept) = entomb_all-SameTree ts s.elements sorted in
      let m = entomb_all ts s.elements in
      to_vec-eq (record { elements = m })
      ∙ ap (flat_map (emit_value m)) (
          order-SameTree m s.elements (suc (length m)) none tree
          ∙ ap (λ n. order s.elements (suc n) none) tree.1)
      ∙ flat_map-cong (emit_value m) (without s.elements ts) (whole s.elements)
          (λ x p. emit_value-entomb_all x ts s.elements)

  -- Deleting a number of elements from a visible position shows what was shown before that
  -- position and what was shown after the range, whatever the position and the number. Asked is
  -- that the elements are sorted by id and that fewer than 2^64 are shown.
  pub delete_shows :
      (pos count : ℕ) (ctx : CausalContext) (s : Sequence T)
      → IsSorted s.elements
      → length (to_vec s) < u64_mod
      → to_vec (mutate (delete_at pos count) ctx s).0
        ≡ take pos (to_vec s) ++ drop (pos + count) (to_vec s)
  unfolding mutate targets_at u64_mod
  delete_shows pos count ctx s sorted h =
      deleted (targets_at pos count (live_ids s)) s sorted
      ∙ ap (λ ts. flat_map (without s.elements ts) (whole s.elements))
          (targets-eq (live_ids s) (omega (arith, length-live_ids s))
            ∙ ap (λ l. take count (drop pos l)) (live_ids-eq s))
      ∙ range_lost s.elements (whole s.elements) pos count (pos + count) refl
          (λ x. met_once s.elements sorted x (suc (length s.elements)))
      ∙ ap (λ vs. take pos vs ++ drop (pos + count) vs) (sym (to_vec-eq s))
    where
      targets-eq :
          (live : List SubDot)
          → length live < u64_mod
          → targets_at pos count live ≡ take count (drop pos live)
      targets-eq live small = slice_clamped pos count _ _ live refl (omega (arith, small))
