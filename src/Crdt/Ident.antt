-- ===== src/Crdt/Ident.antt =====
-- crates/kyoso_crdt/src/id.rs: identifiers, and the per-peer counter that mints them. Every clone
-- of an `IdGen` handle shares one `IdGenerator`, so an operation on a handle is one on it.
pub mod Fresh
use kyosync.Prelude.{
  ℕ, ◌+◌, ◌≡◌, refl, ap₂, Ordering, lt, eq, gt, arith, ltb, if◌then◌else◌, wrap64,
}
use kyosync.Prelude.{List, [], ◌∷◌, zero, suc}
use kyosync.Prelude.Order.{Ord, IsLawful, then_with, compare-IsLawful, nat_ord}

-- `u32`
abbrev pub PeerId : Type 0
PeerId = ℕ

-- `u64`
abbrev pub LocalSeq : Type 0
LocalSeq = ℕ

-- `u64`
abbrev pub GlobalSeq : Type 0
GlobalSeq = ℕ

pub record CrdtId : Type 0 where
  pub peer : PeerId
  pub seq : LocalSeq

-- The derived order: by peer, then by sequence number.
abbrev pub cmp_id : CrdtId → CrdtId → Ordering
cmp_id a b = then_with (nat_ord.cmp a.peer b.peer) (nat_ord.cmp a.seq b.seq)

id_refl : (a : CrdtId) → cmp_id a a ≡ eq
id_refl a = ground arith

id_eq : (a b : CrdtId) → cmp_id a b ≡ eq → a ≡ b
id_eq a b h = ground arith

id_gt : (a b : CrdtId) → cmp_id a b ≡ gt → cmp_id b a ≡ lt
id_gt a b h = ground arith

id_lt : (a b : CrdtId) → cmp_id a b ≡ lt → cmp_id b a ≡ gt
id_lt a b h = ground arith

id_trans : (a b c : CrdtId) → cmp_id a b ≡ lt → cmp_id b c ≡ lt → cmp_id a c ≡ lt
id_trans a b c h k = ground arith

pub cmp_id-IsLawful : IsLawful cmp_id
cmp_id-IsLawful = record {
  cmp_refl = id_refl;
  eq_of_cmp = id_eq;
  lt_of_gt = id_gt;
  gt_of_lt = id_lt;
  cmp_trans = id_trans;
}

instance unfoldable pub id_ord : Ord CrdtId
id_ord = record { cmp = cmp_id; lawful = cmp_id-IsLawful }

pub record IdGenerator : Type 0 where
  pub peer : PeerId
  pub next : LocalSeq

pub new : PeerId → IdGenerator
new peer = record { peer = peer; next = 0 }

pub resume : PeerId → LocalSeq → IdGenerator
resume peer next = record { peer = peer; next = next }

-- `next`: mint an id. The counter is a `u64` whose `+= 1` wraps.
unfoldable pub mint : IdGenerator → CrdtId × IdGenerator
mint g = (record { peer = g.peer; seq = g.next }, record g { next = wrap64 (g.next + 1) })

-- `IdGen::set_peer`
pub set_peer : PeerId → IdGenerator → IdGenerator
unfolding new
set_peer peer g = new peer

-- `IdGen::bump_to`
unfoldable pub bump_to : LocalSeq → IdGenerator → IdGenerator
unfolding resume
bump_to seq g = if ltb g.next seq then resume g.peer seq else g

-- A run of `n` calls of `next`, the ids in the order they were minted.
pub mint_many : ℕ → IdGenerator → List CrdtId × IdGenerator
mint_many zero g = ([], g)
mint_many (suc n) g = let (id, g') = mint g in let (ids, last) = mint_many n g' in (id ∷ ids, last)
