-- ===== src/Crdt/Lww.antt =====
-- crates/kyoso_crdt/src/types/lww.rs: the last-writer-wins register.
pub mod Join
pub mod Newest
pub mod Wire
use kyosync.Prelude.{
  ℕ, ◌≡◌, Ordering, lt, eq, gt, Bool, true, false, Option, none, some, arith, if◌then◌else◌,
}
use mathlib.Core.Option
use kyosync.Prelude.Order.{Ord, IsLawful, then_with, nat_ord}
use kyosync.Crdt.Ident.{PeerId, GlobalSeq}
use kyosync.Crdt.Context.{CausalContext}
use kyosync.Crdt.Delta.{Applied, ok}

pub record Stamp : Type 0 where
  pub seq : Option GlobalSeq
  pub peer : PeerId

-- `None < Some(_)`, as `Option` derives it.
abbrev pub cmp_seq : Option GlobalSeq → Option GlobalSeq → Ordering
cmp_seq none none = eq
cmp_seq none (some b) = lt
cmp_seq (some a) none = gt
cmp_seq (some a) (some b) = nat_ord.cmp a b

-- The derived order: by sequence number, then by peer.
abbrev pub cmp_stamp : Stamp → Stamp → Ordering
cmp_stamp a b = then_with (cmp_seq a.seq b.seq) (nat_ord.cmp a.peer b.peer)

stamp_refl : (a : Stamp) → cmp_stamp a a ≡ eq
stamp_refl a = ground arith

stamp_eq : (a b : Stamp) → cmp_stamp a b ≡ eq → a ≡ b
stamp_eq a b h = ground arith

stamp_gt : (a b : Stamp) → cmp_stamp a b ≡ gt → cmp_stamp b a ≡ lt
stamp_gt a b h = ground arith

stamp_lt : (a b : Stamp) → cmp_stamp a b ≡ lt → cmp_stamp b a ≡ gt
stamp_lt a b h = ground arith

stamp_trans : (a b c : Stamp) → cmp_stamp a b ≡ lt → cmp_stamp b c ≡ lt → cmp_stamp a c ≡ lt
stamp_trans a b c h k = ground arith

pub cmp_stamp-IsLawful : IsLawful cmp_stamp
cmp_stamp-IsLawful = record {
  cmp_refl = stamp_refl;
  eq_of_cmp = stamp_eq;
  lt_of_gt = stamp_gt;
  gt_of_lt = stamp_lt;
  cmp_trans = stamp_trans;
}

instance abbrev pub stamp_ord : Ord Stamp
stamp_ord = record { cmp = cmp_stamp; lawful = cmp_stamp-IsLawful }

pub record LwwRegister {ℓ} (T : Type ℓ) : Type ℓ where
  pub inner : Option (Stamp × T)

-- `a > b`
abbrev pub newer : Stamp → Stamp → Bool
newer a b = elim (stamp_ord.cmp a b) [ gt ↦ true | _ ↦ false ]

module _ {ℓ} {T : Type ℓ} where
  abbrev pub empty : LwwRegister T
  empty = record { inner = none }

  unfoldable pub get : LwwRegister T → Option T
  get r = Option.map (λ (p : Stamp × T). p.1) r.inner

  abbrev take_other : Option (Stamp × T) → Option (Stamp × T) → Bool
  take_other none b = true
  take_other (some a) none = false
  take_other (some a) (some b) = newer b.0 a.0

  unfoldable pub join : LwwRegister T → LwwRegister T → LwwRegister T
  join r other = if take_other r.inner other.inner then other else r

-- `LwwDelta` is the value alone.
pub record LwwDelta {ℓ} (T : Type ℓ) : Type ℓ where
  pub value : T

pub data LwwMut {ℓ} (T : Type ℓ) : Type ℓ where
  set : T → LwwMut T

-- The stamp of the op that is being processed.
abbrev pub stamp_of : CausalContext → Stamp
stamp_of ctx = record { seq = ctx.seq; peer = ctx.op_id.peer }

module _ {ℓ} {T : Type ℓ} where
  abbrev take_stamp : Stamp → Option (Stamp × T) → Bool
  take_stamp s none = true
  take_stamp s (some current) = newer s current.0

  unfoldable pub apply : LwwDelta T → CausalContext → LwwRegister T → LwwRegister T × Applied
  apply delta ctx r = (
    if take_stamp (stamp_of ctx) r.inner
        then record { inner = some (stamp_of ctx, delta.value) }
        else r,
    ok,
  )

  unfoldable pub mutate : LwwMut T → CausalContext → LwwRegister T → LwwRegister T × LwwDelta T
  mutate (set value) ctx r =
      (record { inner = some (stamp_of ctx, value) }, record { value = value })
