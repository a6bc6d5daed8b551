-- ===== src/Crdt/PnCounter.antt =====
-- crates/kyoso_crdt/src/types/pn_counter.rs: the counter. An amount is an `i64`, a contribution a
-- `u64` whose additions wrap.
pub mod Join
use kyosync.Prelude.{
  ℕ, zero, suc, ◌+◌, ◌-◌, ◌^◌, max, min, Option, none, some, List, [], ◌∷◌, leb, ltb, if◌then◌else◌,
  wrap64,
}
use mathlib.Core.Option
use kyosync.Prelude.Order.{nat_ord}
use kyosync.Table.{Table, upsert, values}
use kyosync.Table.Merge.{merge}
use kyosync.Crdt.Ident.{PeerId}
use kyosync.Crdt.Context.{CausalContext}
use kyosync.Crdt.Delta.{
  Applied, ok, err, ℤ, pos, negsuc, FieldPath, WireDelta, pn_counter_delta, invalid, type_mismatch,
}
use kyosync.Crdt.Lww.Wire.{Read, read, bad}

pub record PnCounter : Type 0 where
  pub increments : Table PeerId ℕ
  pub decrements : Table PeerId ℕ

unfoldable pub new : PnCounter
new = record { increments = []; decrements = [] }

-- `i64::MAX`
unfoldable pub i64_max : ℕ
i64_max = 2 ^ 63 - 1

-- The sum of `u64`s in a build whose arithmetic wraps.
unfoldable pub sum : List ℕ → ℕ
sum [] = 0
sum (v ∷ vs) = wrap64 (v + sum vs)

-- `i64::try_from(n).unwrap_or(i64::MAX)`
unfoldable pub to_i64 : ℕ → ℕ
to_i64 n = min n i64_max

-- The difference of two numbers that are at most `i64::MAX`, which no `i64` saturates at.
abbrev pub difference : ℕ → ℕ → ℤ
difference p n = if leb n p then pos (p - n) else negsuc (n - p - 1)

unfoldable pub value : PnCounter → ℤ
unfolding sum to_i64
value c = difference (to_i64 (sum (values c.increments))) (to_i64 (sum (values c.decrements)))

unfoldable pub join : PnCounter → PnCounter → PnCounter
join c other = record {
  increments = merge max c.increments other.increments;
  decrements = merge max c.decrements other.decrements;
}

-- `PnDelta`
pub record PnDelta : Type 0 where
  pub by : ℤ

pub data PnMut : Type 0 where
  inc dec : ℕ → PnMut

-- `*entry(peer).or_insert(0) += n`
abbrev pub plus : ℕ → Option ℕ → ℕ
plus n old = wrap64 (Option.get_or old 0 + n)

unfoldable pub contribute : ℤ → PeerId → PnCounter → PnCounter
contribute (pos n) peer c = record c { increments = upsert peer (plus n) c.increments }
contribute (negsuc n) peer c = record c { decrements = upsert peer (plus (suc n)) c.decrements }

unfoldable pub apply : PnDelta → CausalContext → PnCounter → PnCounter × Applied
unfolding contribute
apply delta ctx c = (contribute delta.by ctx.op_id.peer c, ok)

-- The minus of a number.
abbrev pub minus : ℕ → ℤ
minus zero = pos zero
minus (suc n) = negsuc n

unfoldable pub amount : PnMut → ℤ
unfolding to_i64
amount (inc n) = pos (to_i64 n)
amount (dec n) = minus (to_i64 n)

unfoldable pub mutate : PnMut → CausalContext → PnCounter → PnCounter × PnDelta
unfolding amount contribute
mutate m ctx c = (contribute (amount m) ctx.op_id.peer c, record { by = amount m })

unfoldable pub to_wire : PnDelta → WireDelta
to_wire d = pn_counter_delta d.by

unfoldable pub of_wire : WireDelta → Read PnDelta
of_wire (pn_counter_delta by) = read (record { by = by })
of_wire other = bad type_mismatch

unfoldable pub into_wire_op : PnDelta → FieldPath × WireDelta
unfolding to_wire
into_wire_op d = ([], to_wire d)

unfoldable pub apply_wire : FieldPath → WireDelta → CausalContext → PnCounter → PnCounter × Applied
unfolding of_wire
apply_wire [] delta ctx c = elim (of_wire delta) [ bad e ↦ (c, err e) | read d ↦ apply d ctx c ]
apply_wire (s ∷ p) delta ctx c = (c, err invalid)
