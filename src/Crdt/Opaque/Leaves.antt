-- ===== src/Crdt/Opaque/Leaves.antt =====
-- The types of crates/kyoso_crdt/src/types whose values a server keeps by
-- crates/kyoso_crdt/src/opaque.rs.
use kyosync.Prelude.{
  ◌≡◌, refl, ap, ◌∙◌, List, [], ◌∷◌, Option, none, some, inl, inr, Option-cases, Bool-cases,
}
use kyosync.Table.{Table, insert, modify, map_values}
use kyosync.Table.Laws.{insert_all, map_values-insert, map_values-modify}
use kyosync.Table.Sorted.{IsSorted, insert-IsSorted, insert_all-empty}
use kyosync.Crdt.Context.{CausalContext, SubDot, dot_ord}
use kyosync.Crdt.Delta.{ok, Bytes, Codec, FieldPath}
use kyosync.Crdt.Lww.{LwwRegister, LwwDelta, Stamp, stamp_of, newer}
use kyosync.Crdt.Lww
use kyosync.Crdt.Lww.Wire as LwwWire
use kyosync.Crdt.PnCounter.{PnCounter, PnDelta}
use kyosync.Crdt.PnCounter
use kyosync.Crdt.Sequence.{
  Element, Sequence, SequenceDelta, insertion, deletion, entomb, entomb_all, fresh_element, tag_of,
}
use kyosync.Crdt.Sequence
use kyosync.Crdt.Sequence.Entomb.{entomb_all-SameTree}
use kyosync.Crdt.Sequence.Wire as SequenceWire
use kyosync.Crdt.Opaque.{
  OpaqueRecord, OpaqueValue, apply_wire, step_value, update_field, lww, pn_counter, sequence,
}
use kyosync.Crdt.Opaque.Install.{install_lww, install_pn_counter, install_sequence, decode_elements}
use kyosync.Crdt.Opaque.Mirror.{Leaf}

pub pn_counter_follows :
    (d : PnDelta) (ctx : CausalContext) (c : PnCounter) (v : OpaqueValue)
    → v ≡ pn_counter c
    → (w : OpaqueValue) × (step_value (PnCounter.to_wire d) ctx v ≡ some (w, ok))
      × (w ≡ pn_counter (PnCounter.apply d ctx c).0)
unfolding step_value PnCounter.to_wire PnCounter.apply
pn_counter_follows d ctx c v h = (pn_counter (PnCounter.apply d ctx c).0, rw h refl, refl)

pub pn_counter_installs :
    (c : PnCounter) (v : OpaqueValue)
    → v ≡ pn_counter c
    → (old : PnCounter) → install_pn_counter [] v old ≡ (c, ok)
unfolding install_pn_counter
pn_counter_installs c v h old = rw h refl

pub pn_counter_applies :
    (path : FieldPath) (d : PnDelta) (ctx : CausalContext) (r : OpaqueRecord)
    → apply_wire path (PnCounter.to_wire d) ctx r
      ≡ update_field path (pn_counter PnCounter.new) (step_value (PnCounter.to_wire d) ctx) r
unfolding apply_wire PnCounter.to_wire
pn_counter_applies path d ctx r = refl

abbrev pub pn_counter_leaf : Leaf
pn_counter_leaf = record {
  State = PnCounter;
  Delta = PnDelta;
  initial = PnCounter.new;
  apply = PnCounter.apply;
  to_wire = PnCounter.to_wire;
  install_state = install_pn_counter;
  fresh = pn_counter PnCounter.new;
  Mirrors = λ c v. v ≡ pn_counter c;
  mirrors_fresh = refl;
  applies = pn_counter_applies;
  follows = pn_counter_follows;
  installs = pn_counter_installs;
}

module _ {T : Type 0} (codec : Codec T) where
  unfoldable pub encode_inner : Option (Stamp × T) → Option (Stamp × Bytes)
  encode_inner none = none
  encode_inner (some (stamp, v)) = some (stamp, codec.encode v)

  unfoldable pub encode_lww : LwwRegister T → LwwRegister Bytes
  unfolding encode_inner
  encode_lww r = record { inner = encode_inner r.inner }

  encode_lww-apply :
      (d : LwwDelta T) (ctx : CausalContext) (r : LwwRegister T)
      → Lww.apply (record { value = codec.encode d.value }) ctx (encode_lww r)
        ≡ (encode_lww (Lww.apply d ctx r).0, ok)
  unfolding encode_lww encode_inner Lww.apply
  encode_lww-apply d ctx r = elim (Option-cases r.inner) [
    | inl e ↦ rw e refl
    | inr (x, e) ↦ elim (Bool-cases (newer (stamp_of ctx) x.0)) [
      | inl fresh ↦ rw (e, fresh) refl
      | inr stale ↦ rw (e, stale) refl
    ]
  ]

  pub lww_follows :
      (d : LwwDelta T) (ctx : CausalContext) (r : LwwRegister T) (v : OpaqueValue)
      → v ≡ lww (encode_lww r)
      → (w : OpaqueValue) × (step_value (LwwWire.to_wire codec d) ctx v ≡ some (w, ok))
        × (w ≡ lww (encode_lww (Lww.apply d ctx r).0))
  unfolding step_value LwwWire.to_wire
  lww_follows d ctx r v h =
      (lww (encode_lww (Lww.apply d ctx r).0), rw (h, encode_lww-apply d ctx r) refl, refl)

  pub lww_installs :
      (r : LwwRegister T) (v : OpaqueValue)
      → v ≡ lww (encode_lww r)
      → (old : LwwRegister T) → install_lww codec [] v old ≡ (r, ok)
  unfolding install_lww encode_lww encode_inner
  lww_installs r v h old = elim (Option-cases r.inner) [
    | inl e ↦ rw (h, e) refl
    | inr (x, e) ↦ rw (h, e, codec.decode-encode x.1) refl
  ]

  pub lww_applies :
      (path : FieldPath) (d : LwwDelta T) (ctx : CausalContext) (r : OpaqueRecord)
      → apply_wire path (LwwWire.to_wire codec d) ctx r
        ≡ update_field path (lww Lww.empty) (step_value (LwwWire.to_wire codec d) ctx) r
  unfolding apply_wire LwwWire.to_wire
  lww_applies path d ctx r = refl

  pub empty_lww_mirrors : lww Lww.empty ≡ lww (encode_lww Lww.empty)
  unfolding encode_lww encode_inner
  empty_lww_mirrors = refl

  abbrev pub lww_leaf : Leaf
  lww_leaf = record {
    State = LwwRegister T;
    Delta = LwwDelta T;
    initial = Lww.empty;
    apply = Lww.apply;
    to_wire = LwwWire.to_wire codec;
    install_state = install_lww codec;
    fresh = lww Lww.empty;
    Mirrors = λ r v. v ≡ lww (encode_lww r);
    mirrors_fresh = empty_lww_mirrors;
    applies = lww_applies;
    follows = lww_follows;
    installs = lww_installs;
  }

  abbrev encode_element : Element T → Element Bytes
  encode_element e = record {
    value = codec.encode e.value;
    tombstoned = e.tombstoned;
    predecessor = e.predecessor;
  }

  unfoldable pub encode_sequence : Sequence T → Sequence Bytes
  encode_sequence s = record { elements = map_values encode_element s.elements }

  map_values-entomb_all :
      (ts : List SubDot) (m : Table SubDot (Element T))
      → entomb_all ts (map_values encode_element m) ≡ map_values encode_element (entomb_all ts m)
  unfolding entomb_all
  map_values-entomb_all [] m = refl
  map_values-entomb_all (t ∷ ts) m =
      ap (entomb_all ts) (map_values-modify t encode_element entomb entomb m (λ e. refl))
      ∙ map_values-entomb_all ts (modify t entomb m)

  encode_sequence-apply :
      (d : SequenceDelta T) (ctx : CausalContext) (s : Sequence T) (v : OpaqueValue)
      → v ≡ sequence (encode_sequence s)
      → (w : OpaqueValue) × (step_value (SequenceWire.to_wire codec d) ctx v ≡ some (w, ok))
        × (w ≡ sequence (encode_sequence (Sequence.apply d ctx s).0))
  unfolding step_value SequenceWire.to_wire Sequence.apply encode_sequence
  encode_sequence-apply (insertion p x) ctx s v h =
      let put = map_values-insert (tag_of ctx) encode_element (fresh_element p x) s.elements in
      (sequence (encode_sequence (Sequence.apply (insertion p x) ctx s).0), rw (h, put) refl, refl)
  encode_sequence-apply (deletion ts) ctx s v h =
      let dead = map_values-entomb_all ts s.elements in
      (sequence (encode_sequence (Sequence.apply (deletion ts) ctx s).0), rw (h, dead) refl, refl)

  decode_elements-eq :
      (m acc : Table SubDot (Element T))
      → decode_elements codec acc (map_values encode_element m) ≡ some (insert_all acc m)
  unfolding decode_elements map_values insert_all
  decode_elements-eq [] acc = refl
  decode_elements-eq ((id, e) ∷ m) acc =
      rw (codec.decode-encode e.value) (decode_elements-eq m (insert id e acc))

  pub sequence_installs :
      (s : Sequence T) (v : OpaqueValue)
      → IsSorted s.elements × (v ≡ sequence (encode_sequence s))
      → (old : Sequence T) → install_sequence codec [] v old ≡ (s, ok)
  unfolding install_sequence encode_sequence
  sequence_installs s v (sorted, h) old =
      let read : decode_elements codec [] (map_values encode_element s.elements) ≡ some s.elements =
        decode_elements-eq s.elements [] ∙ ap some (insert_all-empty s.elements sorted) in
      rw (h, read, install_sequence) refl

  apply-IsSorted :
      (d : SequenceDelta T) (ctx : CausalContext) (s : Sequence T)
      → IsSorted s.elements
      → IsSorted (Sequence.apply d ctx s).0.elements
  unfolding Sequence.apply
  apply-IsSorted (insertion p x) ctx s h =
      insert-IsSorted (tag_of ctx) (fresh_element p x) s.elements h
  apply-IsSorted (deletion ts) ctx s h = (entomb_all-SameTree ts s.elements h).1

  pub sequence_follows :
      (d : SequenceDelta T) (ctx : CausalContext) (s : Sequence T) (v : OpaqueValue)
      → IsSorted s.elements × (v ≡ sequence (encode_sequence s))
      → (w : OpaqueValue) × (step_value (SequenceWire.to_wire codec d) ctx v ≡ some (w, ok))
        × (IsSorted (Sequence.apply d ctx s).0.elements
            × (w ≡ sequence (encode_sequence (Sequence.apply d ctx s).0)))
  sequence_follows d ctx s v (sorted, h) =
      let (w, step, same_w) = encode_sequence-apply d ctx s v h in
      (w, step, (apply-IsSorted d ctx s sorted, same_w))

  pub sequence_applies :
      (path : FieldPath) (d : SequenceDelta T) (ctx : CausalContext) (r : OpaqueRecord)
      → apply_wire path (SequenceWire.to_wire codec d) ctx r
        ≡ update_field path
            (sequence Sequence.new)
            (step_value (SequenceWire.to_wire codec d) ctx)
            r
  unfolding apply_wire SequenceWire.to_wire
  sequence_applies path (insertion p x) ctx r = refl
  sequence_applies path (deletion ts) ctx r = refl

  pub empty_sequence_mirrors :
      IsSorted {K = SubDot} {V = Element T} []
      × (sequence Sequence.new ≡ sequence (encode_sequence Sequence.new))
  unfolding encode_sequence map_values
  empty_sequence_mirrors = (tt, refl)

  abbrev pub sequence_leaf : Leaf
  sequence_leaf = record {
    State = Sequence T;
    Delta = SequenceDelta T;
    initial = Sequence.new;
    apply = Sequence.apply;
    to_wire = SequenceWire.to_wire codec;
    install_state = install_sequence codec;
    fresh = sequence Sequence.new;
    Mirrors = λ s v. IsSorted s.elements × (v ≡ sequence (encode_sequence s));
    mirrors_fresh = empty_sequence_mirrors;
    applies = sequence_applies;
    follows = sequence_follows;
    installs = sequence_installs;
  }
