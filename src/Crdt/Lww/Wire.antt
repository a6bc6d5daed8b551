-- ===== src/Crdt/Lww/Wire.antt =====
-- The delta of the register of crates/kyoso_crdt/src/types/lww.rs on the wire, and `apply_wire` of a
-- register that sits at a path.
use kyosync.Prelude.{◌≡◌, none, some, [], ◌∷◌}
use kyosync.Crdt.Context.{CausalContext}
use kyosync.Crdt.Delta.{
  Applied, err, Codec, DeltaError, FieldPath, WireDelta, lww_replace, invalid, type_mismatch,
}
use kyosync.Crdt.Lww.{LwwRegister, LwwDelta, apply}

-- `Result<Delta, DeltaError>`
pub data Read {ℓ} (D : Type ℓ) : Type ℓ where
  read : D → Read D
  bad : DeltaError → Read D

module _ {ℓ} {T : Type ℓ} (codec : Codec T) where
  -- `From<LwwDelta<T>> for WireDelta`
  unfoldable pub to_wire : LwwDelta T → WireDelta
  to_wire d = lww_replace (codec.encode d.value)

  -- `TryFrom<WireDelta> for LwwDelta<T>`
  unfoldable pub of_wire : WireDelta → Read (LwwDelta T)
  of_wire (lww_replace value) = elim (codec.decode value) [
    | none ↦ bad invalid
    | some v ↦ read (record { value = v })
  ]
  of_wire other = bad type_mismatch

  unfoldable pub into_wire_op : LwwDelta T → FieldPath × WireDelta
  unfolding to_wire
  into_wire_op d = ([], to_wire d)

  -- `SchemaApply::apply_wire`
  unfoldable pub apply_wire :
      FieldPath → WireDelta → CausalContext → LwwRegister T → LwwRegister T × Applied
  unfolding of_wire
  apply_wire [] delta ctx r = elim (of_wire delta) [ bad e ↦ (r, err e) | read d ↦ apply d ctx r ]
  apply_wire (s ∷ p) delta ctx r = (r, err invalid)

  -- A write that is put on the wire is read back as it was, and applying it at the end of its path
  -- is applying the write itself, where decoding undoes encoding for values.
  pub lww_wire_roundtrip :
      (d : LwwDelta T) (ctx : CausalContext) (r : LwwRegister T)
      → (of_wire (to_wire d) ≡ read d) × (apply_wire [] (to_wire d) ctx r ≡ apply d ctx r)
  unfolding apply_wire to_wire
  lww_wire_roundtrip d ctx r =
      (rw (codec.decode-encode d.value, of_wire), rw (codec.decode-encode d.value, of_wire))
