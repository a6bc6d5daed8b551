-- ===== src/Crdt/Sequence/Visible.antt =====
-- What crates/kyoso_crdt/src/types/sequence.rs shows: the live elements of the order, by id and by
-- value.
use kyosync.Prelude.{
  suc, ◌<◌, ◌≡◌, refl, ap, ◌⊎◌, List, [], ◌∷◌, none, arith, inl, inr, Option-cases, Bool-cases,
  length,
}
use kyosync.Prelude.Occurs.{occurrences, flat_map}
use kyosync.Table.{Table, get}
use kyosync.Crdt.Context.{SubDot, dot_ord}
use kyosync.Crdt.Sequence.{Element, Sequence, emit_live, emit_value, to_vec, live_ids}
use kyosync.Crdt.Sequence.Walk.{order, walk-flat_map}

module _ {ℓ} {T : Type ℓ} where
  -- Fuel for the whole walk.
  abbrev pub whole : Table SubDot (Element T) → List SubDot
  whole m = order m (suc (length m)) none

  pub to_vec-eq : (s : Sequence T) → to_vec s ≡ flat_map (emit_value s.elements) (whole s.elements)
  unfolding to_vec
  to_vec-eq s = walk-flat_map (emit_value s.elements) s.elements (suc (length s.elements)) none

  pub live_ids-eq :
      (s : Sequence T) → live_ids s ≡ flat_map (emit_live s.elements) (whole s.elements)
  unfolding live_ids
  live_ids-eq s = walk-flat_map (emit_live s.elements) s.elements (suc (length s.elements)) none

module _ {ℓ} {T : Type ℓ} (m : Table SubDot (Element T)) where
  -- An element puts out its id and its value, or neither.
  pub emits :
      (x : SubDot)
      → ((emit_live m x ≡ []) × (emit_value m x ≡ []))
        ⊎ ((v : T) × (emit_live m x ≡ x ∷ []) × (emit_value m x ≡ v ∷ []))
  unfolding emit_live emit_value
  emits x = elim (Option-cases (get x m)) [
    | inl absent ↦ inl (rw (absent, emit_live) refl, rw (absent, emit_value) refl)
    | inr (e, there) ↦ elim (Bool-cases e.tombstoned) [
      | inl dead ↦ inl (rw (there, dead, emit_live) refl, rw (there, dead, emit_value) refl)
      | inr live ↦
          inr (e.value, rw (there, live, emit_live) refl, rw (there, live, emit_value) refl)
    ]
  ]

  pub length-live :
      (xs : List SubDot) → length (flat_map (emit_live m) xs) ≡ length (flat_map (emit_value m) xs)
  length-live [] = refl
  length-live (x ∷ xs) = elim (emits x) [
    | inl (a, b) ↦ rw (a, b) (length-live xs)
    | inr (v, a, b) ↦ rw (a, b) (ap suc (length-live xs))
  ]

  pub live-occurs :
      (x : SubDot) (xs : List SubDot)
      → 0 < occurrences x (flat_map (emit_live m) xs)
      → 0 < occurrences x xs
  live-occurs x [] h = h
  live-occurs x (y ∷ ys) h = elim (emits y) [
    | inl (a, b) ↦ omega (arith, live-occurs x ys (rw a at h))
    | inr (v, a, b) ↦
        let h' : 0 < occurrences x (y ∷ flat_map (emit_live m) ys) = rw a at h in
        ground (arith, live-occurs x ys)
  ]
