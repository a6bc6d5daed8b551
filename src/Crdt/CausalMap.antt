-- ===== src/Crdt/CausalMap.antt =====
-- crates/kyoso_crdt/src/types/causal_map.rs: a map from strings to replicated values of one type.
pub mod Wired
use kyosync.Prelude.{ℕ, ◌≡◌, Option, none, some, List, [], ◌∷◌, Bool, true, false, length}
use mathlib.Core.Option
use kyosync.Prelude.Order.{Ord, list_ord, nat_ord}
use kyosync.Table.{Table, get, insert, remove, upsert}
use kyosync.Table.Merge.{merge}
use kyosync.Crdt.Context.{CausalContext, SubDot}
use kyosync.Crdt.Delta.{
  Applied, ok, err, FieldPath, Text, PathSegment, key, WireDelta, map_put, map_remove, invalid,
  type_mismatch, text_of,
}
use kyosync.Crdt.Lww.Wire.{Read, read, bad}
use kyosync.Crdt.Opaque.{OpaqueValue}

instance abbrev pub text_ord : Ord Text
text_ord = list_ord

-- What the traits `Crdt`, `SchemaApply` and `IntoWireOp` ask of a type of values.
pub record Replicated : Type 1 where
  pub State : Type 0
  pub Mutation : Type 0
  pub Delta : Type 0
  pub bottom : State
  pub join : State → State → State
  pub apply : Delta → CausalContext → State → State × Applied
  pub mutate : Mutation → CausalContext → State → State × Delta × CausalContext
  pub to_wire : Delta → WireDelta
  pub of_wire : WireDelta → Read Delta
  pub into_wire_op : Delta → FieldPath × WireDelta
  pub apply_wire : FieldPath → WireDelta → CausalContext → State → State × Applied
  pub install_state : FieldPath → OpaqueValue → State → State × Applied

module _ (V : Replicated) where
  pub record CausalMap : Type 0 where
    pub values : Table Text V.State

  pub data MapDelta : Type 0 where
    put : Text → V.Delta → MapDelta
    remove_key : Text → List SubDot → MapDelta

  pub data MapMut : Type 0 where
    apply_at : Text → V.Mutation → MapMut
    remove_key : Text → MapMut

  abbrev pub new : CausalMap
  new = record { values = [] }

  unfoldable pub get_value : Text → CausalMap → Option V.State
  get_value k m = get k m.values

  unfoldable pub len : CausalMap → ℕ
  len m = length m.values

  unfoldable pub is_empty : CausalMap → Bool
  is_empty m = elim m.values [ [] ↦ true | x ∷ xs ↦ false ]

  unfoldable pub join : CausalMap → CausalMap → CausalMap
  join m other = record { values = merge V.join m.values other.values }

  -- `entry(key).or_insert_with(V::bottom)`, which a step then changes
  unfoldable pub at_key : Text → (V.State → V.State × Applied) → CausalMap → CausalMap × Applied
  at_key k step m =
      let (v, done) = step (Option.get_or (get k m.values) V.bottom) in
      (record { values = insert k v m.values }, done)

  unfoldable pub apply : MapDelta → CausalContext → CausalMap → CausalMap × Applied
  unfolding at_key
  apply (put k inner) ctx m = at_key k (V.apply inner ctx) m
  apply (MapDelta.remove_key k observed) ctx m = (record { values = remove k m.values }, ok)

  unfoldable pub mutate : MapMut → CausalContext → CausalMap → CausalMap × MapDelta × CausalContext
  mutate (apply_at k mutation) ctx m =
      let (v, inner, ctx') = V.mutate mutation ctx (Option.get_or (get k m.values) V.bottom) in
      (record { values = insert k v m.values }, put k inner, ctx')
  mutate (MapMut.remove_key k) ctx m =
      (record { values = remove k m.values }, MapDelta.remove_key k [], ctx)

  unfoldable pub to_wire : MapDelta → WireDelta
  to_wire (put k inner) = map_put (key k) (V.to_wire inner)
  to_wire (MapDelta.remove_key k observed) = map_remove (key k) observed

  unfoldable pub of_wire : WireDelta → Read MapDelta
  of_wire (map_put k inner) = elim (V.of_wire inner) [
    | bad e ↦ bad e
    | read d ↦ read (put (text_of k) d)
  ]
  of_wire (map_remove k observed) = read (MapDelta.remove_key (text_of k) observed)
  of_wire other = bad type_mismatch

  unfoldable pub into_wire_op : MapDelta → FieldPath × WireDelta
  into_wire_op (put k inner) =
      let (inner_path, wire) = V.into_wire_op inner in (key k ∷ inner_path, wire)
  into_wire_op (MapDelta.remove_key k observed) = (key k ∷ [], map_remove (key []) observed)

  abbrev pub is_map_remove : WireDelta → Bool
  is_map_remove (map_remove k observed) = true
  is_map_remove other = false

  -- `tail.0.is_empty()` and a `MapRemove`
  abbrev pub drops_entry : FieldPath → WireDelta → Bool
  drops_entry [] delta = is_map_remove delta
  drops_entry (s ∷ tail) delta = false

  unfoldable pub apply_wire :
      FieldPath → WireDelta → CausalContext → CausalMap → CausalMap × Applied
  unfolding at_key
  apply_wire [] delta ctx m = (m, err invalid)
  apply_wire (head ∷ tail) delta ctx m = elim (drops_entry tail delta) [
    | true ↦ (record { values = remove (text_of head) m.values }, ok)
    | false ↦ at_key (text_of head) (V.apply_wire tail delta ctx) m
  ]

  unfoldable pub install_state : FieldPath → OpaqueValue → CausalMap → CausalMap × Applied
  unfolding at_key
  install_state [] v m = (m, err invalid)
  install_state (head ∷ tail) v m = at_key (text_of head) (V.install_state tail v) m
