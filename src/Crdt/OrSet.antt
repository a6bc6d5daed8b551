-- ===== src/Crdt/OrSet.antt =====
-- crates/kyoso_crdt/src/types/or_set.rs: the observed-remove set.
pub mod Join
pub mod Live
pub mod Wire
use kyosync.Prelude.{
  ℕ, List, [], ◌∷◌, Option, none, some, Bool, true, false, not, ◌&&◌, ◌||◌, if◌then◌else◌, arith,
  length,
}
use mathlib.Core.Option
use kyosync.Prelude.Order.{Ord}
use kyosync.Table.{Table, get, upsert, keys}
use kyosync.Table.Set.{TreeSet, has, put, extend, union}
use kyosync.Table.Merge.{merge}
use kyosync.Crdt.Context.{SubDot, CausalContext, dot_ord}
use kyosync.Crdt.Delta.{Applied, ok}

pub record OrSet {ℓ} (T : Type ℓ) : Type ℓ where
  pub adds : Table T (TreeSet SubDot)
  pub removes : TreeSet SubDot

pub data OrSetDelta {ℓ} (T : Type ℓ) : Type ℓ where
  add : T → OrSetDelta T
  remove : List SubDot → OrSetDelta T

pub data OrSetMut {ℓ} (T : Type ℓ) : Type ℓ where
  add : T → OrSetMut T
  remove : T → OrSetMut T

-- `tags.iter().any(|t| !removes.contains(t))`
pub any_live : TreeSet SubDot → List SubDot → Bool
any_live removes [] = false
any_live removes (t ∷ ts) = not (has t removes) || any_live removes ts

-- `tags.iter().filter(|t| !removes.contains(t))`
pub unremoved : TreeSet SubDot → List SubDot → List SubDot
unremoved removes [] = []
unremoved removes (t ∷ ts) =
    let rest = unremoved removes ts in if has t removes then rest else t ∷ rest

pub live_tags : TreeSet SubDot → Option (TreeSet SubDot) → List SubDot
unfolding keys unremoved
live_tags removes none = []
live_tags removes (some tags) = unremoved removes (keys tags)

abbrev pub tag_of : CausalContext → SubDot
tag_of ctx = record { op = ctx.op_id; sub = 0 }

-- `entry(value).or_default().insert(tag)`
abbrev pub with_tag : SubDot → Option (TreeSet SubDot) → TreeSet SubDot
with_tag tag tags = put tag (Option.get_or tags [])

module _ {ℓ} {T : Type ℓ} where
  abbrev pub new : OrSet T
  new = record { adds = []; removes = [] }

module _ {ℓ} {T : Type ℓ} ⦃o : Ord T⦄ where
  unfoldable pub contains : T → OrSet T → Bool
  unfolding any_live keys
  contains item s = elim (get item s.adds) [
    | none ↦ false
    | some tags ↦ any_live s.removes (keys tags)
  ]

  abbrev live_items : TreeSet SubDot → Table T (TreeSet SubDot) → List T
  live_items removes [] = []
  live_items removes ((item, tags) ∷ m) =
      let rest = live_items removes m in if any_live removes (keys tags) then item ∷ rest else rest

  -- The items that the set shows, in their order.
  pub iter : OrSet T → List T
  iter s = live_items s.removes s.adds

  -- `len`
  pub len : OrSet T → ℕ
  unfolding iter
  len s = length (iter s)

  -- `is_empty`
  pub is_empty : OrSet T → Bool
  unfolding iter
  is_empty s = elim (iter s) [ [] ↦ true | x ∷ xs ↦ false ]

  unfoldable pub join : OrSet T → OrSet T → OrSet T
  join s other = record {
    adds = merge union s.adds other.adds;
    removes = union s.removes other.removes;
  }

  unfoldable pub apply : OrSetDelta T → CausalContext → OrSet T → OrSet T × Applied
  apply (OrSetDelta.add value) ctx s =
      (record s { adds = upsert value (with_tag (tag_of ctx)) s.adds }, ok)
  apply (OrSetDelta.remove observed) ctx s = (record s { removes = extend observed s.removes }, ok)

  unfoldable pub mutate : OrSetMut T → CausalContext → OrSet T → OrSet T × OrSetDelta T
  unfolding live_tags
  mutate (OrSetMut.add value) ctx s =
      (record s { adds = upsert value (with_tag (tag_of ctx)) s.adds }, OrSetDelta.add value)
  mutate (OrSetMut.remove value) ctx s =
      let observed = live_tags s.removes (get value s.adds) in
      (record s { removes = extend observed s.removes }, OrSetDelta.remove observed)
