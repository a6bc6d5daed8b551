-- ===== src/Crdt/OrSet/Wire.antt =====
-- The deltas of crates/kyoso_crdt/src/types/or_set.rs on the wire, and `apply_wire`.
use kyosync.Prelude.{◌≡◌, refl, none, some, [], ◌∷◌}
use kyosync.Prelude.Order.{Ord}
use kyosync.Crdt.Context.{CausalContext}
use kyosync.Crdt.Delta.{
  Applied, err, Codec, FieldPath, WireDelta, or_set_add, or_set_remove, invalid, type_mismatch,
}
use kyosync.Crdt.Lww.Wire.{Read, read, bad}
use kyosync.Crdt.OrSet.{OrSet, OrSetDelta, apply}

module _ {ℓ} {T : Type ℓ} ⦃o : Ord T⦄ (codec : Codec T) where
  -- `From<OrSetDelta<T>> for WireDelta`
  unfoldable pub to_wire : OrSetDelta T → WireDelta
  to_wire (OrSetDelta.add value) = or_set_add (codec.encode value)
  to_wire (OrSetDelta.remove observed) = or_set_remove observed

  -- `TryFrom<WireDelta> for OrSetDelta<T>`
  unfoldable pub of_wire : WireDelta → Read (OrSetDelta T)
  of_wire (or_set_add value) = elim (codec.decode value) [
    | none ↦ bad invalid
    | some v ↦ read (OrSetDelta.add v)
  ]
  of_wire (or_set_remove observed) = read (OrSetDelta.remove observed)
  of_wire other = bad type_mismatch

  unfoldable pub into_wire_op : OrSetDelta T → FieldPath × WireDelta
  unfolding to_wire
  into_wire_op d = ([], to_wire d)

  -- `SchemaApply::apply_wire`
  unfoldable pub apply_wire : FieldPath → WireDelta → CausalContext → OrSet T → OrSet T × Applied
  unfolding of_wire
  apply_wire [] delta ctx s = elim (of_wire delta) [ bad e ↦ (s, err e) | read d ↦ apply d ctx s ]
  apply_wire (p ∷ ps) delta ctx s = (s, err invalid)

  pub of_wire-to_wire : (d : OrSetDelta T) → of_wire (to_wire d) ≡ read d
  unfolding of_wire to_wire
  of_wire-to_wire (OrSetDelta.add v) = rw (codec.decode-encode v, of_wire) refl
  of_wire-to_wire (OrSetDelta.remove observed) = refl
