-- ===== src/Crdt/Sequence.antt =====
-- crates/kyoso_crdt/src/types/sequence.rs: the list, with its elements under their ids. Fuel bounds
-- the depth of the walk, one more than there are elements.
pub mod Walk
pub mod Once
pub mod Ends
pub mod Place
pub mod Visible
pub mod Insert
pub mod Entomb
pub mod Delete
pub mod Join
pub mod Wire
pub mod Under
use kyosync.Prelude.{
  ℕ, zero, suc, ◌+◌, ◌-◌, min, List, [], ◌∷◌, ◌++◌, Option, none, some, Bool, true, false, lt,
  if◌then◌else◌, length, get_elem?, take, drop, u64_mod,
}
use kyosync.Prelude.Order.{same}
use kyosync.Table.{Table, get, insert, modify}
use kyosync.Table.Merge.{merge}
use kyosync.Crdt.Context.{SubDot, CausalContext, cmp_dot, dot_ord}
use kyosync.Crdt.Delta.{Applied, ok}

pub record Element {ℓ} (T : Type ℓ) : Type ℓ where
  pub value : T
  pub tombstoned : Bool
  pub predecessor : Option SubDot

pub record Sequence {ℓ} (T : Type ℓ) : Type ℓ where
  pub elements : Table SubDot (Element T)

-- `Option<SubDot>::eq`
abbrev pub same_place : Option SubDot → Option SubDot → Bool
same_place none none = true
same_place none (some b) = false
same_place (some a) none = false
same_place (some a) (some b) = same a b

-- `sort_by(|a, b| b.cmp(a))`
unfoldable pub insert_desc : SubDot → List SubDot → List SubDot
insert_desc a [] = a ∷ []
insert_desc a (b ∷ bs) =
    let rest = insert_desc a bs in elim (cmp_dot a b) [ lt ↦ b ∷ rest | _ ↦ a ∷ b ∷ bs ]

unfoldable pub sort_desc : List SubDot → List SubDot
unfolding insert_desc
sort_desc [] = []
sort_desc (a ∷ bs) = insert_desc a (sort_desc bs)

abbrev pub tag_of : CausalContext → SubDot
tag_of ctx = record { op = ctx.op_id; sub = 0 }

-- `for child_id in children { … }`: what is put out for a child, then what its walk puts out.
unfoldable pub visit_each {ℓ} :
    {X : Type ℓ} → (SubDot → List X) → (SubDot → List X) → List SubDot → List X
visit_each emit below [] = []
visit_each emit below (c ∷ cs) = emit c ++ (below c ++ visit_each emit below cs)

module _ {ℓ} {T : Type ℓ} where
  abbrev pub new : Sequence T
  new = record { elements = [] }

  -- `elements.iter().filter(|(_, e)| e.predecessor == parent).map(|(id, _)| *id)`
  unfoldable pub children_of : Option SubDot → Table SubDot (Element T) → List SubDot
  children_of parent [] = []
  children_of parent ((id, e) ∷ m) =
      let rest = children_of parent m in if same_place e.predecessor parent then id ∷ rest else rest

  unfoldable pub children : Table SubDot (Element T) → Option SubDot → List SubDot
  unfolding children_of sort_desc
  children m parent = sort_desc (children_of parent m)

  -- The walk of `walk_collect` and of `walk_ids`, with what is put out for an element.
  unfoldable pub walk {κ} :
      {X : Type κ} → (SubDot → List X) → Table SubDot (Element T) → ℕ → Option SubDot → List X
  unfolding children visit_each
  walk emit m zero parent = []
  walk emit m (suc fuel) parent =
      visit_each emit (λ c. walk emit m fuel (some c)) (children m parent)

  -- `if !child.tombstoned { out.push(&child.value) }`
  unfoldable pub emit_value : Table SubDot (Element T) → SubDot → List T
  emit_value m id = elim (get id m) [
    | none ↦ []
    | some e ↦ if e.tombstoned then [] else e.value ∷ []
  ]

  -- `if !elem.tombstoned { out.push(id) }`
  unfoldable pub emit_live : Table SubDot (Element T) → SubDot → List SubDot
  emit_live m id = elim (get id m) [ none ↦ [] | some e ↦ if e.tombstoned then [] else id ∷ [] ]

  -- `iter`, and `to_vec`, which copies it
  unfoldable pub to_vec : Sequence T → List T
  unfolding walk emit_value
  to_vec s = walk (emit_value s.elements) s.elements (suc (length s.elements)) none

  unfoldable pub live_ids : Sequence T → List SubDot
  unfolding walk emit_live
  live_ids s = walk (emit_live s.elements) s.elements (suc (length s.elements)) none

  unfoldable pub count_live : Table SubDot (Element T) → ℕ
  count_live [] = 0
  count_live ((id, e) ∷ m) = let rest = count_live m in if e.tombstoned then rest else suc rest

  -- `len`
  unfoldable pub len : Sequence T → ℕ
  unfolding count_live
  len s = count_live s.elements

  -- `!values().any(|e| !e.tombstoned)`
  unfoldable pub none_live : Table SubDot (Element T) → Bool
  none_live [] = true
  none_live ((id, e) ∷ m) = let rest = none_live m in if e.tombstoned then rest else false

  unfoldable pub is_empty : Sequence T → Bool
  unfolding none_live
  is_empty s = none_live s.elements

  unfoldable pub id_at_visible_pos : ℕ → Sequence T → Option SubDot
  unfolding live_ids
  id_at_visible_pos pos s = get_elem? (live_ids s) pos

  -- `if elem.tombstoned { existing.tombstoned = true }`
  abbrev pub absorb : Element T → Element T → Element T
  absorb existing elem = if elem.tombstoned then record existing { tombstoned = true } else existing

  unfoldable pub join : Sequence T → Sequence T → Sequence T
  join s other = record { elements = merge absorb s.elements other.elements }

pub data SequenceDelta {ℓ} (T : Type ℓ) : Type ℓ where
  insertion : Option SubDot → T → SequenceDelta T
  deletion : List SubDot → SequenceDelta T

pub data SequenceMut {ℓ} (T : Type ℓ) : Type ℓ where
  insert_at : ℕ → T → SequenceMut T
  delete_at : ℕ → ℕ → SequenceMut T

-- `usize::saturating_add`
abbrev pub saturating_add : ℕ → ℕ → ℕ
saturating_add a b = min (a + b) (u64_mod - 1)

-- `live[pos.min(live.len())..end].to_vec()`
unfoldable pub targets_at : ℕ → ℕ → List SubDot → List SubDot
targets_at pos count live =
    let end = min (saturating_add pos count) (length live) in
    drop (min pos (length live)) (take end live)

module _ {ℓ} {T : Type ℓ} where
  abbrev pub entomb : Element T → Element T
  entomb e = record e { tombstoned = true }

  -- `for target in targets { if let Some(elem) = get_mut(target) { elem.tombstoned = true } }`
  unfoldable pub entomb_all : List SubDot → Table SubDot (Element T) → Table SubDot (Element T)
  entomb_all [] m = m
  entomb_all (t ∷ ts) m = entomb_all ts (modify t entomb m)

  abbrev pub fresh_element : Option SubDot → T → Element T
  fresh_element predecessor value = record {
    value = value;
    tombstoned = false;
    predecessor = predecessor;
  }

  unfoldable pub apply : SequenceDelta T → CausalContext → Sequence T → Sequence T × Applied
  unfolding entomb_all
  apply (insertion predecessor value) ctx s =
      (record { elements = insert (tag_of ctx) (fresh_element predecessor value) s.elements }, ok)
  apply (deletion targets) ctx s = (record { elements = entomb_all targets s.elements }, ok)

  -- The predecessor of what is inserted at a visible position.
  unfoldable pub predecessor_at : ℕ → Sequence T → Option SubDot
  unfolding id_at_visible_pos
  predecessor_at zero s = none
  predecessor_at (suc pos) s = id_at_visible_pos pos s

  unfoldable pub mutate : SequenceMut T → CausalContext → Sequence T → Sequence T × SequenceDelta T
  unfolding predecessor_at entomb_all targets_at live_ids
  mutate (insert_at pos value) ctx s =
      let predecessor = predecessor_at pos s in
      (
        record { elements = insert (tag_of ctx) (fresh_element predecessor value) s.elements },
        insertion predecessor value,
      )
  mutate (delete_at pos count) ctx s =
      let targets = targets_at pos count (live_ids s) in
      (record { elements = entomb_all targets s.elements }, deletion targets)
