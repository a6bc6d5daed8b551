-- ===== src/Crdt/Opaque/Mirror.antt =====
-- The field that a server keeps of a replicated value by crates/kyoso_crdt/src/opaque.rs, from which
-- a client takes the value over.
use kyosync.Prelude.{◌≡◌, refl, ap, sym, subst, ◌∙◌, List, [], ◌∷◌, none, some, false}
use mathlib.Core.Option
use kyosync.Prelude.Order.{same_refl}
use kyosync.Table.{get, insert}
use kyosync.Table.Laws.{get-insert}
use kyosync.Table.Sorted.{IsSorted}
use kyosync.Crdt.Context.{CausalContext}
use kyosync.Crdt.Delta.{Applied, ok, FieldPath, WireDelta}
use kyosync.Crdt.Opaque.{
  OpaqueRecord, OpaqueValue, apply_wire, update_field, step_value, path_starts_with, path_ord,
}
use kyosync.Crdt.Opaque.Paths.{apply_wire_isolated, apply_wire-IsSorted, update_field-some}

-- A replicated type with values, as a client has it, and how the bytes of a server follow it.
pub record Leaf : Type 1 where
  pub State : Type 0
  pub Delta : Type 0
  pub initial : State
  pub apply : Delta → CausalContext → State → State × Applied
  pub to_wire : Delta → WireDelta
  pub install_state : FieldPath → OpaqueValue → State → State × Applied
  pub fresh : OpaqueValue
  pub Mirrors : State → OpaqueValue → Type 0
  pub mirrors_fresh : Mirrors initial fresh
  pub applies :
      (path : FieldPath) (d : Delta) (ctx : CausalContext) (r : OpaqueRecord)
      → apply_wire path (to_wire d) ctx r ≡ update_field path fresh (step_value (to_wire d) ctx) r
  pub follows :
      (d : Delta) (ctx : CausalContext) (s : State) (v : OpaqueValue)
      → Mirrors s v
      → (w : OpaqueValue) × (step_value (to_wire d) ctx v ≡ some (w, ok))
        × Mirrors (apply d ctx s).0 w
  pub installs :
      (s : State) (v : OpaqueValue) → Mirrors s v → (old : State) → install_state [] v old ≡ (s, ok)

module _ (L : Leaf) (path : FieldPath) where
  -- What the server receives: a delta of the value at the path, or any delta at a path that the
  -- path does not start with.
  pub data Event : Type 0 where
    own : L.Delta → CausalContext → Event
    other : (p : FieldPath) → WireDelta → CausalContext → path_starts_with path p ≡ false → Event

  unfoldable pub receive : List Event → OpaqueRecord → OpaqueRecord
  receive [] r = r
  receive (own d ctx ∷ events) r = receive events (apply_wire path (L.to_wire d) ctx r).0
  receive (other p d ctx h ∷ events) r = receive events (apply_wire p d ctx r).0

  -- The client that applies the deltas itself.
  unfoldable pub apply_own : List Event → L.State → L.State
  apply_own [] s = s
  apply_own (own d ctx ∷ events) s = apply_own events (L.apply d ctx s).0
  apply_own (other p d ctx h ∷ events) s = apply_own events s

  -- The field is there and mirrors the value, or neither has been written.
  abbrev Follows : L.State → OpaqueRecord → Type 0
  Follows s r = L.Mirrors s (Option.get_or (get path r.fields) L.fresh)

  own-Follows :
      (d : L.Delta) (ctx : CausalContext) (s : L.State) (r : OpaqueRecord)
      → Follows s r
      → Follows (L.apply d ctx s).0 (apply_wire path (L.to_wire d) ctx r).0
  own-Follows d ctx s r f =
      let (w, step, mirrors) = L.follows d ctx s _ f in
      let after : apply_wire path (L.to_wire d) ctx r
          ≡ (record { fields = insert path w r.fields }, ok) =
        L.applies path d ctx r
        ∙ update_field-some path L.fresh w ok (step_value (L.to_wire d) ctx) r step in
      let read : get path (apply_wire path (L.to_wire d) ctx r).0.fields ≡ some w =
        ap (λ (x : OpaqueRecord × Applied). get path x.0.fields) after
        ∙ get-insert path path w r.fields
        ∙ rw (same_refl path) refl in
      subst (λ o. L.Mirrors (L.apply d ctx s).0 (Option.get_or o L.fresh)) (sym read) mirrors

  all-Follows :
      (events : List Event) (s : L.State) (r : OpaqueRecord)
      → IsSorted r.fields
      → Follows s r
      → Follows (apply_own events s) (receive events r)
  unfolding receive apply_own
  all-Follows [] s r sorted f = f
  all-Follows (own d ctx ∷ events) s r sorted f =
      all-Follows events (L.apply d ctx s).0 (apply_wire path (L.to_wire d) ctx r).0
        (apply_wire-IsSorted (L.to_wire d) path ctx r sorted) (own-Follows d ctx s r f)
  all-Follows (other p d ctx h ∷ events) s r sorted f =
      all-Follows events s (apply_wire p d ctx r).0 (apply_wire-IsSorted d p ctx r sorted) (
        subst (λ o. L.Mirrors s (Option.get_or o L.fresh))
          (sym (apply_wire_isolated d path p ctx r sorted h)) f)

  -- Whatever a server has received from the start of a path on, deltas of the value at the path and
  -- deltas at other paths in any order, a client that takes over the field it keeps there has the
  -- state of one that applied the value's deltas itself.
  pub hydrate_agrees :
      (events : List Event) (r : OpaqueRecord) (old : L.State)
      → IsSorted r.fields
      → get path r.fields ≡ none
      → L.install_state [] (Option.get_or (get path (receive events r).fields) L.fresh) old
        ≡ (apply_own events L.initial, ok)
  hydrate_agrees events r old sorted absent =
      L.installs (apply_own events L.initial) _
        (all-Follows events L.initial r sorted
          (subst (λ o. L.Mirrors L.initial (Option.get_or o L.fresh)) (sym absent) L.mirrors_fresh))
        old
