-- ===== src/Crdt/Sequence/Wire.antt =====
-- The deltas of crates/kyoso_crdt/src/types/sequence.rs on the wire, and `apply_wire`.
use kyosync.Prelude.{◌≡◌, refl, none, some, [], ◌∷◌}
use kyosync.Crdt.Context.{CausalContext}
use kyosync.Crdt.Delta.{
  Applied, err, Codec, FieldPath, WireDelta, sequence_insert, sequence_delete, invalid,
  type_mismatch,
}
use kyosync.Crdt.Lww.Wire.{Read, read, bad}
use kyosync.Crdt.Sequence.{Sequence, SequenceDelta, insertion, deletion, apply}

module _ {ℓ} {T : Type ℓ} (codec : Codec T) where
  -- `From<SequenceDelta<T>> for WireDelta`
  unfoldable pub to_wire : SequenceDelta T → WireDelta
  to_wire (insertion predecessor value) = sequence_insert predecessor (codec.encode value)
  to_wire (deletion targets) = sequence_delete targets

  -- `TryFrom<WireDelta> for SequenceDelta<T>`
  unfoldable pub of_wire : WireDelta → Read (SequenceDelta T)
  of_wire (sequence_insert predecessor value) = elim (codec.decode value) [
    | none ↦ bad invalid
    | some v ↦ read (insertion predecessor v)
  ]
  of_wire (sequence_delete targets) = read (deletion targets)
  of_wire other = bad type_mismatch

  unfoldable pub into_wire_op : SequenceDelta T → FieldPath × WireDelta
  unfolding to_wire
  into_wire_op d = ([], to_wire d)

  -- `SchemaApply::apply_wire`
  unfoldable pub apply_wire :
      FieldPath → WireDelta → CausalContext → Sequence T → Sequence T × Applied
  unfolding of_wire
  apply_wire [] delta ctx s = elim (of_wire delta) [ bad e ↦ (s, err e) | read d ↦ apply d ctx s ]
  apply_wire (p ∷ ps) delta ctx s = (s, err invalid)

  of_wire-to_wire : (d : SequenceDelta T) → of_wire (to_wire d) ≡ read d
  unfolding of_wire to_wire
  of_wire-to_wire (insertion predecessor v) = rw (codec.decode-encode v, of_wire) refl
  of_wire-to_wire (deletion targets) = refl

  -- A delta that is put on the wire is read back as it was, and applying it at the end of its path
  -- is applying the delta itself, where decoding undoes encoding for values.
  pub sequence_wire_roundtrip :
      (d : SequenceDelta T) (ctx : CausalContext) (s : Sequence T)
      → (of_wire (to_wire d) ≡ read d) × (apply_wire [] (to_wire d) ctx s ≡ apply d ctx s)
  unfolding apply_wire
  sequence_wire_roundtrip d ctx s = (of_wire-to_wire d, rw (of_wire-to_wire d, apply_wire) refl)
