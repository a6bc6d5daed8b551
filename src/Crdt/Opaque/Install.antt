-- ===== src/Crdt/Opaque/Install.antt =====
-- `install_state` of the types in crates/kyoso_crdt/src/types: how a client takes over the value
-- that the server kept of a field.
use kyosync.Prelude.{Option, none, some, [], ◌∷◌}
use kyosync.Prelude.Order.{Ord}
use kyosync.Table.{Table, insert}
use kyosync.Table.Set.{TreeSet}
use kyosync.Crdt.Context.{SubDot, dot_ord}
use kyosync.Crdt.Delta.{Applied, ok, err, Bytes, Codec, FieldPath, invalid, type_mismatch}
use kyosync.Crdt.Lww.{LwwRegister}
use kyosync.Crdt.OrSet.{OrSet}
use kyosync.Crdt.PnCounter.{PnCounter}
use kyosync.Crdt.Sequence.{Element, Sequence}
use kyosync.Crdt.Opaque.{OpaqueValue, lww, or_set, pn_counter, sequence}

module _ {T : Type 0} (codec : Codec T) where
  unfoldable pub install_lww : FieldPath → OpaqueValue → LwwRegister T → LwwRegister T × Applied
  install_lww [] (lww byte_reg) r = elim byte_reg.inner [
    | none ↦ (record { inner = none }, ok)
    | some (stamp, bytes) ↦ elim (codec.decode bytes) [
      | none ↦ (r, err invalid)
      | some value ↦ (record { inner = some (stamp, value) }, ok)
    ]
  ]
  install_lww [] other r = (r, err type_mismatch)
  install_lww (s ∷ p) v r = (r, err invalid)

  -- `elements.insert(id, Element { value, … })` for each decoded element, `none` where one does not
  -- decode
  unfoldable pub decode_elements :
      Table SubDot (Element T) → Table SubDot (Element Bytes) → Option (Table SubDot (Element T))
  decode_elements elements [] = some elements
  decode_elements elements ((id, byte_elem) ∷ m) = elim (codec.decode byte_elem.value) [
    | none ↦ none
    | some value ↦
        decode_elements
          (insert id
            (record {
              value = value;
              tombstoned = byte_elem.tombstoned;
              predecessor = byte_elem.predecessor;
            })
            elements)
          m
  ]

  unfoldable pub install_sequence : FieldPath → OpaqueValue → Sequence T → Sequence T × Applied
  unfolding decode_elements
  install_sequence [] (sequence byte_seq) s = elim (decode_elements [] byte_seq.elements) [
    | none ↦ (s, err invalid)
    | some elements ↦ (record { elements = elements }, ok)
  ]
  install_sequence [] other s = (s, err type_mismatch)
  install_sequence (seg ∷ p) v s = (s, err invalid)

module _ {T : Type 0} ⦃o : Ord T⦄ (codec : Codec T) where
  -- `adds.insert(value, tags)` for each decoded item
  unfoldable pub decode_items :
      Table T (TreeSet SubDot) → Table Bytes (TreeSet SubDot) → Option (Table T (TreeSet SubDot))
  decode_items adds [] = some adds
  decode_items adds ((bytes, tags) ∷ m) = elim (codec.decode bytes) [
    | none ↦ none
    | some value ↦ decode_items (insert value tags adds) m
  ]

  unfoldable pub install_or_set : FieldPath → OpaqueValue → OrSet T → OrSet T × Applied
  unfolding decode_items
  install_or_set [] (or_set byte_set) s = elim (decode_items [] byte_set.adds) [
    | none ↦ (s, err invalid)
    | some adds ↦ (record { adds = adds; removes = byte_set.removes }, ok)
  ]
  install_or_set [] other s = (s, err type_mismatch)
  install_or_set (seg ∷ p) v s = (s, err invalid)

unfoldable pub install_pn_counter : FieldPath → OpaqueValue → PnCounter → PnCounter × Applied
install_pn_counter [] (pn_counter byte_counter) c =
    (record { increments = byte_counter.increments; decrements = byte_counter.decrements }, ok)
install_pn_counter [] other c = (c, err type_mismatch)
install_pn_counter (seg ∷ p) v c = (c, err invalid)
