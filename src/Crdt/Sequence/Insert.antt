-- ===== src/Crdt/Sequence/Insert.antt =====
-- Where a value that crates/kyoso_crdt/src/types/sequence.rs inserts at a visible position shows.
use kyosync.Prelude.{
  ℕ, zero, suc, ◌≤◌, ◌<◌, ◌≡◌, refl, ap, sym, ◌∙◌, List, [], ◌∷◌, ◌++◌, none, some, arith, inl, inr,
  Option-cases, Bool-cases, length, true, false, get_elem?, take, drop, leb, get_elem?-length,
  length-get_elem?, if◌then◌else◌,
}
use kyosync.Prelude.Order.{same}
use kyosync.Prelude.Occurs.{occurrences, flat_map, flat_map-cong, occurs_get_elem?}
use kyosync.Table.{Table, get, insert}
use kyosync.Table.Laws.{get-insert, length-insert}
use kyosync.Table.Sorted.{IsSorted}
use kyosync.Crdt.Context.{SubDot, CausalContext, dot_ord, cmp_dot-IsLawful}
use kyosync.Crdt.Sequence.{
  Element, Sequence, emit_live, emit_value, to_vec, live_ids, tag_of, fresh_element, mutate,
  insert_at, predecessor_at, id_at_visible_pos, same_place,
}
use kyosync.Crdt.Sequence.Ends.{start}
use kyosync.Crdt.Sequence.Walk.{order}
use kyosync.Crdt.Sequence.Once.{met_once, met_is_there, never_absent}
use kyosync.Crdt.Sequence.Place.{IsNewest, IsUnknown, at_front, after_all, order-insert}
use kyosync.Crdt.Sequence.Visible.{whole, to_vec-eq, live_ids-eq, emits, length-live, live-occurs}

module _ {ℓ} {T : Type ℓ} (m : Table SubDot (Element T)) (id : SubDot) (e : Element T)
    (alive : e.tombstoned ≡ false) where
  abbrev shown : SubDot → List T
  shown x = emit_value (insert id e m) x

  shown_new : shown id ≡ e.value ∷ []
  unfolding dot_ord emit_value
  shown_new = rw (get-insert id id e m, cmp_dot-IsLawful.cmp_refl id, alive, emit_value) refl

  shown_other : (x : SubDot) → same x id ≡ false → shown x ≡ emit_value m x
  unfolding emit_value
  shown_other x h = rw (get-insert x id e m, h, emit_value) refl

  shown_others :
      (xs : List SubDot) → occurrences id xs ≡ 0 → flat_map shown xs ≡ flat_map (emit_value m) xs
  unfolding dot_ord
  shown_others xs h = flat_map-cong shown (emit_value m) xs λ x p. shown_other x (differ x p)
    where
      differ : (x : SubDot) → 0 < occurrences x xs → same x id ≡ false
      differ x p = elim (Bool-cases (same x id)) [
        | inl equal ↦ absurd (ground (arith, cmp_dot-IsLawful.eq_of_cmp x id))
        | inr other ↦ other
      ]

  -- After nothing that occurs, nothing is put.
  after_all-absent :
      (k : SubDot) (xs : List SubDot)
      → e.predecessor ≡ some k
      → occurrences k xs ≡ 0
      → after_all id e xs ≡ xs
  unfolding after_all at_front dot_ord
  after_all-absent k [] h n = refl
  after_all-absent k (x ∷ xs) h n = rw h (ground (arith, after_all-absent k xs h))

  -- What is put after the live element at a position shows after that position.
  abbrev ShowsAfter : SubDot → List SubDot → ℕ → Type ℓ
  ShowsAfter k xs j =
      get_elem? (flat_map (emit_live m) xs) j ≡ some k
      → flat_map shown (after_all id e xs)
        ≡ take (suc j) (flat_map (emit_value m) xs)
          ++ e.value ∷ drop (suc j) (flat_map (emit_value m) xs)

  shows_live :
      (k x : SubDot) (v : T) (xs : List SubDot) (j : ℕ)
      → e.predecessor ≡ some k
      → occurrences id (x ∷ xs) ≡ 0
      → occurrences x (x ∷ xs) ≤ 1
      → emit_live m x ≡ x ∷ []
      → emit_value m x ≡ v ∷ []
      → shown x ≡ v ∷ []
      → ((i : ℕ) → ShowsAfter k xs i)
      → ShowsAfter k (x ∷ xs) j
  unfolding after_all at_front dot_ord
  shows_live k x v xs zero q n once a b c rest h =
      let h' : some x ≡ some k = rw a at h in
      let this : x ≡ k = ground arith in
      let at_k : e.predecessor ≡ some x = q ∙ ap some (sym this) in
      let here : same_place e.predecessor (some x) ≡ true =
        rw at_k (ground (arith, cmp_dot-IsLawful.cmp_refl x)) in
      let no_more : occurrences x xs ≡ 0 = ground (arith, cmp_dot-IsLawful.cmp_refl x) in
      rw
        (
          here,
          c,
          b,
          after_all-absent x xs at_k no_more,
          shown_new,
          shown_others xs (omega (arith, n)),
        )
        refl
  shows_live k x v xs (suc j) q n once a b c rest h =
      let h' : get_elem? (flat_map (emit_live m) xs) j ≡ some k = rw a at h in
      let met = live-occurs m k xs (occurs_get_elem? k (flat_map (emit_live m) xs) j h') in
      let unlike : same k x ≡ false =
        ground (arith, cmp_dot-IsLawful.cmp_refl x, cmp_dot-IsLawful.eq_of_cmp k x) in
      let gap : same_place e.predecessor (some x) ≡ false = rw q unlike in
      rw (gap, c, b) (ap (λ ys. v ∷ ys) (rest j h'))

  placed_shows :
      (k : SubDot) (xs : List SubDot) (j : ℕ)
      → e.predecessor ≡ some k
      → occurrences id xs ≡ 0
      → ((x : SubDot) → occurrences x xs ≤ 1)
      → ShowsAfter k xs j
  unfolding after_all at_front dot_ord
  placed_shows k [] j q n once h = absurd (ground arith)
  placed_shows k (x ∷ xs) j q n once h =
      let unlike_new : same x id ≡ false =
        ground (arith, cmp_dot-IsLawful.eq_of_cmp x id, cmp_dot-IsLawful.cmp_refl id) in
      let fewer : (y : SubDot) → occurrences y xs ≤ 1 = λ y. omega (arith, once y) in
      elim (emits m x) [
        | inl (a, b) ↦
            let h' : get_elem? (flat_map (emit_live m) xs) j ≡ some k = rw a at h in
            let met = live-occurs m k xs (occurs_get_elem? k (flat_map (emit_live m) xs) j h') in
            let unlike : same k x ≡ false = ground (arith, once k) in
            let gap : same_place e.predecessor (some x) ≡ false = rw q unlike in
            rw (gap, shown_other x unlike_new, b)
              (placed_shows k xs j q (omega (arith, n)) fewer h')
        | inr (v, a, b) ↦
            shows_live k x v xs j q n (once x) a b (shown_other x unlike_new ∙ b)
              (λ i. placed_shows k xs i q (omega (arith, n)) fewer) h
      ]

module _ {ℓ} {T : Type ℓ} (m : Table SubDot (Element T)) (id : SubDot) (e : Element T) where
  after_all-none : (xs : List SubDot) → e.predecessor ≡ none → after_all id e xs ≡ xs
  unfolding after_all at_front
  after_all-none [] h = refl
  after_all-none (x ∷ xs) h =
      let gap : same_place e.predecessor (some x) ≡ false = rw h refl in
      rw gap (ap (λ ys. x ∷ ys) (after_all-none xs h))

  -- The order of the elements with the new one.
  whole-insert :
      IsSorted m
      → IsNewest id e m
      → IsUnknown id e m
      → same_place e.predecessor (some id) ≡ false
      → whole (insert id e m) ≡ at_front id e none ++ after_all id e (whole m)
  unfolding IsUnknown
  whole-insert s new u other =
      ap (λ n. order (insert id e m) (suc n) none) (length-insert id e m u.0)
      ∙ order-insert id e m s new u other (suc (length m)) start (omega arith)

  never_new : IsSorted m → get id m ≡ none → occurrences id (whole m) ≡ 0
  never_new s a = never_absent m s id (suc (length m)) none a

  -- A new element without a predecessor shows first.
  head_shows :
      IsSorted m
      → IsNewest id e m
      → IsUnknown id e m
      → e.tombstoned ≡ false
      → e.predecessor ≡ none
      → to_vec (record { elements = insert id e m }) ≡ e.value ∷ to_vec (record { elements = m })
  unfolding at_front IsUnknown
  head_shows s new u alive q =
      let other : same_place e.predecessor (some id) ≡ false = rw q refl in
      let here : same_place e.predecessor none ≡ true = rw q refl in
      rw
        (
          to_vec-eq (record { elements = insert id e m }),
          to_vec-eq (record { elements = m }),
          whole-insert s new u other,
          here,
          after_all-none (whole m) q,
          shown_new m id e alive,
          shown_others m id e alive (whole m) (never_new s u.0),
        )
        refl

  -- A new element shows after the live element that it follows.
  after_shows :
      (k : SubDot) (j : ℕ)
      → IsSorted m
      → IsNewest id e m
      → IsUnknown id e m
      → e.tombstoned ≡ false
      → e.predecessor ≡ some k
      → get_elem? (live_ids (record { elements = m })) j ≡ some k
      → to_vec (record { elements = insert id e m })
        ≡ take (suc j) (to_vec (record { elements = m }))
          ++ e.value ∷ drop (suc j) (to_vec (record { elements = m }))
  unfolding at_front IsUnknown dot_ord
  after_shows k j s new u alive q h =
      let h' : get_elem? (flat_map (emit_live m) (whole m)) j ≡ some k =
        rw (live_ids-eq (record { elements = m })) at h in
      let met = live-occurs m k (whole m) (occurs_get_elem? k _ j h') in
      let (w, there) = met_is_there m s k (suc (length m)) none met in
      let unlike : same k id ≡ false =
        ground (arith, cmp_dot-IsLawful.eq_of_cmp k id, never_new s u.0) in
      let other : same_place e.predecessor (some id) ≡ false = rw q unlike in
      let later : same_place e.predecessor none ≡ false = rw q refl in
      rw
        (
          to_vec-eq (record { elements = insert id e m }),
          to_vec-eq (record { elements = m }),
          whole-insert s new u other,
          later,
        )
        (placed_shows m id e alive k (whole m) j q (never_new s u.0)
          (λ x. met_once m s x (suc (length m))) h')

module _ {ℓ} {T : Type ℓ} where
  pub length-live_ids : (s : Sequence T) → length (live_ids s) ≡ length (to_vec s)
  length-live_ids s = rw (live_ids-eq s, to_vec-eq s) (length-live s.elements (whole s.elements))

  -- Inserting a value at a visible position up to the length shows it there and everything else as
  -- before; at a position beyond the length it shows it first. Asked is that the elements are
  -- sorted by id, that none has or follows the new id, and that the new id is above those of the
  -- elements with the same predecessor.
  pub insert_shows :
      (pos : ℕ) (v : T) (ctx : CausalContext) (s : Sequence T)
      → IsSorted s.elements
      → IsNewest (tag_of ctx) (fresh_element (predecessor_at pos s) v) s.elements
      → IsUnknown (tag_of ctx) (fresh_element (predecessor_at pos s) v) s.elements
      → to_vec (mutate (insert_at pos v) ctx s).0 ≡ (
          if leb pos (length (to_vec s))
          then take pos (to_vec s) ++ v ∷ drop pos (to_vec s)
          else (v ∷ to_vec s))
  unfolding mutate predecessor_at id_at_visible_pos
  insert_shows zero v ctx s sorted new u =
      let fits : leb 0 (length (to_vec s)) ≡ true = ground arith in
      rw fits (head_shows s.elements (tag_of ctx) (fresh_element none v) sorted new u refl refl)
  insert_shows (suc j) v ctx s sorted new u = elim (Option-cases (get_elem? (live_ids s) j)) [
    | inl beyond ↦
        let misfit : leb (suc j) (length (to_vec s)) ≡ false =
          ground (arith, length-get_elem? (live_ids s) j beyond, length-live_ids s) in
        rw misfit (
          head_shows s.elements (tag_of ctx) (fresh_element (get_elem? (live_ids s) j) v) sorted new
            u refl beyond)
    | inr (k, at_k) ↦
        let fits : leb (suc j) (length (to_vec s)) ≡ true =
          ground (arith, get_elem?-length (live_ids s) j k at_k, length-live_ids s) in
        rw fits (
          after_shows s.elements (tag_of ctx) (fresh_element (get_elem? (live_ids s) j) v) k j
            sorted new u refl at_k at_k)
  ]
