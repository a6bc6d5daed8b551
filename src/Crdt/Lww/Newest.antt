-- ===== src/Crdt/Lww/Newest.antt =====
-- What the register of crates/kyoso_crdt/src/types/lww.rs holds after a run of writes.
use kyosync.Prelude.{
  ℕ, suc, ◌≡◌, refl, sym, subst, ◌∙◌, List, [], ◌∷◌, ◌⊎◌, inl, inr, Option, none, some, false,
  arith, get_elem?, Option-cases, Bool-cases,
}
use kyosync.Prelude.Reorder.{fold_steps, All}
use kyosync.Crdt.Context.{CausalContext}
use kyosync.Crdt.Lww.{Stamp, LwwRegister, LwwDelta, stamp_of, apply, newer}

-- A value, and the op that carries it.
abbrev pub Write {ℓ} : Type ℓ → Type ℓ
Write T = LwwDelta T × CausalContext

module _ {ℓ} {T : Type ℓ} where
  abbrev pub take_write : Write T → LwwRegister T → LwwRegister T
  take_write w r = (apply w.0 w.1 r).0

  -- The register holds the stamp and the value of the write.
  abbrev pub Holds : LwwRegister T → Write T → Type ℓ
  Holds r w = r.inner ≡ some (stamp_of w.1, w.0.value)

  -- The register holds a write at least as new as the stamp.
  abbrev pub Covers : LwwRegister T → Stamp → Type 0
  Covers r s = elim r.inner [ none ↦ ⊥ | some p ↦ newer s p.0 ≡ false ]

  -- The register holds what the other holds, or a write of the list.
  abbrev pub HeldFrom : LwwRegister T → List (Write T) → LwwRegister T → Type ℓ
  HeldFrom r ws last =
      (last.inner ≡ r.inner) ⊎ ((i : ℕ) × (w : Write T) × (get_elem? ws i ≡ some w) × Holds last w)

  -- What the other holds is not newer.
  abbrev pub CoversHeld : LwwRegister T → LwwRegister T → Type 0
  CoversHeld last r = elim r.inner [ none ↦ Unit | some p ↦ Covers last p.0 ]

  take_write-Holds :
      (w : Write T) (r : LwwRegister T)
      → ((take_write w r).inner ≡ r.inner) ⊎ Holds (take_write w r) w
  unfolding apply
  take_write-Holds w r = elim (Option-cases r.inner) [
    | inl e ↦ inr (ground arith)
    | inr (p, e) ↦ elim (Bool-cases (newer (stamp_of w.1) p.0)) [
      | inl later ↦ inr (ground arith)
      | inr stale ↦ inl (ground arith)
    ]
  ]

  take_write-Covers :
      (w : Write T) (s : Stamp) (r : LwwRegister T) → Covers r s → Covers (take_write w r) s
  unfolding apply
  take_write-Covers w s r h = elim (Option-cases r.inner) [
    | inl e ↦ absurd (rw e at h)
    | inr (p, e) ↦ ground arith
  ]

  take_write-Covers_own : (w : Write T) (r : LwwRegister T) → Covers (take_write w r) (stamp_of w.1)
  unfolding apply
  take_write-Covers_own w r = elim (Option-cases r.inner) [
    | inl e ↦ ground arith
    | inr (p, e) ↦ ground arith
  ]

  run-Covers :
      (ws : List (Write T)) (s : Stamp) (r : LwwRegister T)
      → Covers r s
      → Covers (fold_steps take_write ws r) s
  unfolding fold_steps
  run-Covers [] s r h = h
  run-Covers (w ∷ ws) s r h = run-Covers ws s (take_write w r) (take_write-Covers w s r h)

  run-Covers_each :
      (ws : List (Write T)) (r : LwwRegister T)
      → All (λ w. Covers (fold_steps take_write ws r) (stamp_of w.1)) ws
  unfolding fold_steps
  run-Covers_each [] r = tt
  run-Covers_each (w ∷ ws) r = (
    run-Covers ws (stamp_of w.1) (take_write w r) (take_write-Covers_own w r),
    run-Covers_each ws (take_write w r),
  )

  run-CoversHeld :
      (ws : List (Write T)) (r : LwwRegister T) → CoversHeld (fold_steps take_write ws r) r
  run-CoversHeld ws r = elim (Option-cases r.inner) [
    | inl e ↦ subst CoversAt (sym e) tt
    | inr (p, e) ↦ subst CoversAt (sym e) (run-Covers ws p.0 r (ground arith))
  ]
    where
      CoversAt : Option (Stamp × T) → Type 0
      CoversAt o = elim o [ none ↦ Unit | some p ↦ Covers (fold_steps take_write ws r) p.0 ]

  run-HeldFrom :
      (ws : List (Write T)) (r : LwwRegister T) → HeldFrom r ws (fold_steps take_write ws r)
  unfolding fold_steps
  run-HeldFrom [] r = inl refl
  run-HeldFrom (w ∷ ws) r = elim (run-HeldFrom ws (take_write w r)) [
    | inr (i, v, e, h) ↦ inr (suc i, v, e, h)
    | inl e ↦ elim (take_write-Holds w r) [ inl k ↦ inl (e ∙ k) | inr k ↦ inr (0, w, refl, e ∙ k) ]
  ]

  -- After any list of writes a register holds, stamp and value together, either one of these
  -- writes or what it held before; and neither one of these writes nor what it held before has a
  -- newer stamp than what it holds.
  pub lww_newest :
      (ws : List (Write T)) (r : LwwRegister T)
      → HeldFrom r ws (fold_steps take_write ws r)
        × All (λ w. Covers (fold_steps take_write ws r) (stamp_of w.1)) ws
        × CoversHeld (fold_steps take_write ws r) r
  lww_newest ws r = (run-HeldFrom ws r, run-Covers_each ws r, run-CoversHeld ws r)
