-- ===== src/Crdt/Context.antt =====
-- crates/kyoso_crdt/src/context.rs: sub-dots, and the context that an apply or a mutate is given.
-- The `&mut CausalState` inside a `CausalContext` is the field `state`, handed back by what
-- changes it.
use kyosync.Prelude.{ℕ, ◌+◌, ◌%◌, ◌^◌, ◌≡◌, Ordering, lt, eq, gt, Option, [], arith}
use mathlib.Core.Option
use kyosync.Prelude.Order.{Ord, IsLawful, then_with, nat_ord}
use kyosync.Table.{Table, get, insert}
use kyosync.Crdt.Ident.{CrdtId, GlobalSeq, cmp_id, cmp_id-IsLawful, id_ord}

abbrev pub Dot : Type 0
Dot = CrdtId

pub record SubDot : Type 0 where
  pub op : Dot
  pub sub : ℕ

-- The derived order: by op, then by sub-counter.
abbrev pub cmp_dot : SubDot → SubDot → Ordering
cmp_dot a b = then_with (cmp_id a.op b.op) (nat_ord.cmp a.sub b.sub)

dot_refl : (a : SubDot) → cmp_dot a a ≡ eq
dot_refl a = ground arith

dot_eq : (a b : SubDot) → cmp_dot a b ≡ eq → a ≡ b
dot_eq a b h = ground (arith, cmp_id-IsLawful.eq_of_cmp a.op b.op)

dot_gt : (a b : SubDot) → cmp_dot a b ≡ gt → cmp_dot b a ≡ lt
dot_gt a b h = ground arith

dot_lt : (a b : SubDot) → cmp_dot a b ≡ lt → cmp_dot b a ≡ gt
dot_lt a b h = ground arith

dot_trans : (a b c : SubDot) → cmp_dot a b ≡ lt → cmp_dot b c ≡ lt → cmp_dot a c ≡ lt
dot_trans a b c h k = ground arith

pub cmp_dot-IsLawful : IsLawful cmp_dot
cmp_dot-IsLawful = record {
  cmp_refl = dot_refl;
  eq_of_cmp = dot_eq;
  lt_of_gt = dot_gt;
  gt_of_lt = dot_lt;
  cmp_trans = dot_trans;
}

instance unfoldable pub dot_ord : Ord SubDot
dot_ord = record { cmp = cmp_dot; lawful = cmp_dot-IsLawful }

pub record CausalState : Type 0 where
  pub sub_counters : Table Dot ℕ

pub new_state : CausalState
new_state = record { sub_counters = [] }

-- The counter is a `u32` whose `+= 1` wraps.
pub next_sub : Dot → CausalState → ℕ × CausalState
next_sub op s =
    let v = Option.get_or (get op s.sub_counters) 0 in
    (v, record { sub_counters = insert op ((v + 1) % 2 ^ 32) s.sub_counters })

pub record CausalContext : Type 0 where
  pub op_id : Dot
  pub seq : Option GlobalSeq
  pub state : CausalState

pub fresh_sub_dot : CausalContext → SubDot × CausalContext
unfolding next_sub
fresh_sub_dot ctx =
    let (sub, state) = next_sub ctx.op_id ctx.state in
    (record { op = ctx.op_id; sub = sub }, record ctx { state = state })
