-- ===== src/Crdt/Opaque/Paths.antt =====
-- Which fields a delta to the record of crates/kyoso_crdt/src/opaque.rs can change.
use kyosync.Prelude.{
  ◌≡◌, refl, ap, ◌∙◌, [], ◌∷◌, ◌++◌, Option, none, some, true, false, not, arith, inl, inr,
  Option-cases, Bool-cases, if◌then◌else◌,
}
use mathlib.Core.Option
use kyosync.Prelude.Order.{same, same_refl, eq_of_same}
use kyosync.Table.{Table, insert, or_insert, get, retain}
use kyosync.Table.Laws.{get-insert, get-or_insert}
use kyosync.Table.Sorted.{
  IsSorted, get-retain, insert-IsSorted, or_insert-IsSorted, retain-IsSorted,
}
use kyosync.Crdt.Context.{CausalContext}
use kyosync.Crdt.Delta.{
  Applied, err, type_mismatch, FieldPath, PathSegment, WireDelta, push, segment_ord, lww_replace,
  or_set_add, or_set_remove, pn_counter_delta, sequence_insert, sequence_delete, map_put,
  map_remove, tree_move, field, key,
}
use kyosync.Crdt.Lww
use kyosync.Crdt.OrSet
use kyosync.Crdt.PnCounter
use kyosync.Crdt.Sequence
use kyosync.Crdt.MoveTree
use kyosync.Crdt.Opaque.{
  OpaqueRecord, OpaqueValue, apply_wire, update_field, step_value, path_starts_with, dropped_below,
  path_ord, lww, or_set, pn_counter, sequence, move_tree,
}

starts_with_itself : (p : FieldPath) → path_starts_with p p ≡ true
unfolding path_starts_with
starts_with_itself [] = refl
starts_with_itself (a ∷ p) = ground (arith, same_refl a, starts_with_itself p)

-- What lies below a longer path lies below the path.
starts_with_longer :
    (p q s : FieldPath) → path_starts_with p (q ++ s) ≡ true → path_starts_with p q ≡ true
unfolding path_starts_with
starts_with_longer p [] s h = refl
starts_with_longer [] (b ∷ q) s h = h
starts_with_longer (a ∷ p) (b ∷ q) s h = ground (arith, starts_with_longer p q s)

not_longer :
    (p q s : FieldPath) → path_starts_with p q ≡ false → path_starts_with p (q ++ s) ≡ false
not_longer p q s h = elim (Bool-cases (path_starts_with p (q ++ s))) [
  | inl hit ↦ absurd (ground (arith, starts_with_longer p q s))
  | inr miss ↦ miss
]

other_path : (p q : FieldPath) → path_starts_with p q ≡ false → same p q ≡ false
other_path p q h = elim (Bool-cases (same p q)) [
  | inl hit ↦
      let this : p ≡ q = eq_of_same p q hit in
      absurd (ground (arith, starts_with_itself q, ap (λ x. path_starts_with x q) this))
  | inr miss ↦ miss
]

get-update_field :
    (p path : FieldPath) (fresh : OpaqueValue) (step : OpaqueValue → Option (OpaqueValue × Applied))
    (r : OpaqueRecord)
    → path_starts_with p path ≡ false
    → get p (update_field path fresh step r).0.fields ≡ get p r.fields
unfolding update_field
get-update_field p path fresh step r h =
    let apart = other_path p path h in
    elim (Option-cases (step (Option.get_or (get path r.fields) fresh))) [
      | inl e ↦ rw (e, update_field) (rw (get-or_insert p path fresh r.fields, apart) refl)
      | inr (x, e) ↦ rw (e, update_field) (rw (get-insert p path x.0 r.fields, apart) refl)
    ]

dropped_miss :
    (p path : FieldPath) (k : PathSegment)
    → path_starts_with p path ≡ false
    → path_starts_with p (dropped_below path k) ≡ false
unfolding dropped_below
dropped_miss p path (field []) h = h
dropped_miss p path (field (c ∷ cs)) h = not_longer p path (field (c ∷ cs) ∷ []) h
dropped_miss p path (key []) h = h
dropped_miss p path (key (c ∷ cs)) h = not_longer p path (key (c ∷ cs) ∷ []) h

get-dropped :
    (p : FieldPath) (drop_prefix : FieldPath) (m : Table FieldPath OpaqueValue)
    → IsSorted m
    → path_starts_with p drop_prefix ≡ false
    → get p (retain (λ p v. not (path_starts_with p drop_prefix)) m) ≡ get p m
get-dropped p drop_prefix m s h =
    get-retain p (λ p v. not (path_starts_with p drop_prefix)) m s ∙ kept (get p m)
  where
    kept :
        (o : Option OpaqueValue)
        → elim o [
          | none ↦ none
          | some v ↦ if not (path_starts_with p drop_prefix) then some v else none
        ]
          ≡ o
    kept none = refl
    kept (some v) = rw h refl

-- A delta of any kind, also one inside others for keys of maps, changes no field of the record but
-- those at its path or below it, where the fields are sorted by path.
pub apply_wire_isolated :
    (d : WireDelta) (p path : FieldPath) (ctx : CausalContext) (r : OpaqueRecord)
    → IsSorted r.fields
    → path_starts_with p path ≡ false
    → get p (apply_wire path d ctx r).0.fields ≡ get p r.fields
unfolding apply_wire
apply_wire_isolated (lww_replace v) p path ctx r s h =
    get-update_field p path (lww Lww.empty) (step_value (lww_replace v) ctx) r h
apply_wire_isolated (or_set_add v) p path ctx r s h =
    get-update_field p path (or_set OrSet.new) (step_value (or_set_add v) ctx) r h
apply_wire_isolated (or_set_remove v) p path ctx r s h =
    get-update_field p path (or_set OrSet.new) (step_value (or_set_remove v) ctx) r h
apply_wire_isolated (pn_counter_delta v) p path ctx r s h =
    get-update_field p path (pn_counter PnCounter.new) (step_value (pn_counter_delta v) ctx) r h
apply_wire_isolated (sequence_insert v w) p path ctx r s h =
    get-update_field p path (sequence Sequence.new) (step_value (sequence_insert v w) ctx) r h
apply_wire_isolated (sequence_delete v) p path ctx r s h =
    get-update_field p path (sequence Sequence.new) (step_value (sequence_delete v) ctx) r h
apply_wire_isolated (tree_move c n q) p path ctx r s h =
    get-update_field p path (move_tree MoveTree.new) (step_value (tree_move c n q) ctx) r h
apply_wire_isolated (map_put k inner) p path ctx r s h =
    apply_wire_isolated inner p (push path k) ctx r s (not_longer p path (k ∷ []) h)
apply_wire_isolated (map_remove k observed) p path ctx r s h =
    get-dropped p (dropped_below path k) r.fields s (dropped_miss p path k h)

pub update_field-some :
    (path : FieldPath) (fresh v : OpaqueValue) (done : Applied)
    (step : OpaqueValue → Option (OpaqueValue × Applied)) (r : OpaqueRecord)
    → step (Option.get_or (get path r.fields) fresh) ≡ some (v, done)
    → update_field path fresh step r ≡ (record { fields = insert path v r.fields }, done)
unfolding update_field
update_field-some path fresh v done step r e = rw (e, update_field) refl

update_field-none :
    (path : FieldPath) (fresh : OpaqueValue) (step : OpaqueValue → Option (OpaqueValue × Applied))
    (r : OpaqueRecord)
    → step (Option.get_or (get path r.fields) fresh) ≡ none
    → update_field path fresh step r
      ≡ (record { fields = or_insert path fresh r.fields }, err type_mismatch)
unfolding update_field
update_field-none path fresh step r e = rw (e, update_field) refl

update_field-IsSorted :
    (path : FieldPath) (fresh : OpaqueValue) (step : OpaqueValue → Option (OpaqueValue × Applied))
    (r : OpaqueRecord)
    → IsSorted r.fields
    → IsSorted (update_field path fresh step r).0.fields
update_field-IsSorted path fresh step r s =
    elim (Option-cases (step (Option.get_or (get path r.fields) fresh))) [
      | inl e ↦
          rw (update_field-none path fresh step r e) (or_insert-IsSorted path fresh r.fields s)
      | inr (x, e) ↦
          rw (update_field-some path fresh x.0 x.1 step r e) (insert-IsSorted path x.0 r.fields s)
    ]

pub apply_wire-IsSorted :
    (d : WireDelta) (path : FieldPath) (ctx : CausalContext) (r : OpaqueRecord)
    → IsSorted r.fields
    → IsSorted (apply_wire path d ctx r).0.fields
unfolding apply_wire
apply_wire-IsSorted (lww_replace v) path ctx r s =
    update_field-IsSorted path (lww Lww.empty) (step_value (lww_replace v) ctx) r s
apply_wire-IsSorted (or_set_add v) path ctx r s =
    update_field-IsSorted path (or_set OrSet.new) (step_value (or_set_add v) ctx) r s
apply_wire-IsSorted (or_set_remove v) path ctx r s =
    update_field-IsSorted path (or_set OrSet.new) (step_value (or_set_remove v) ctx) r s
apply_wire-IsSorted (pn_counter_delta v) path ctx r s =
    update_field-IsSorted path (pn_counter PnCounter.new) (step_value (pn_counter_delta v) ctx) r s
apply_wire-IsSorted (sequence_insert v w) path ctx r s =
    update_field-IsSorted path (sequence Sequence.new) (step_value (sequence_insert v w) ctx) r s
apply_wire-IsSorted (sequence_delete v) path ctx r s =
    update_field-IsSorted path (sequence Sequence.new) (step_value (sequence_delete v) ctx) r s
apply_wire-IsSorted (tree_move c n q) path ctx r s =
    update_field-IsSorted path (move_tree MoveTree.new) (step_value (tree_move c n q) ctx) r s
apply_wire-IsSorted (map_put k inner) path ctx r s = apply_wire-IsSorted inner (push path k) ctx r s
apply_wire-IsSorted (map_remove k observed) path ctx r s =
    retain-IsSorted (λ p v. not (path_starts_with p (dropped_below path k))) r.fields s
