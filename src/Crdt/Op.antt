-- ===== src/Crdt/Op.antt =====
-- crates/kyoso_crdt/src/op.rs: the op envelope and the slice of a log.
use kyosync.Prelude.{Option, none, some, List, []}
use kyosync.Crdt.Ident.{CrdtId, GlobalSeq}

pub record Op {ℓ} (K : Type ℓ) : Type ℓ where
  pub id : CrdtId
  pub seq : Option GlobalSeq
  pub kind : K

pub record Diff {ℓ} (K : Type ℓ) : Type ℓ where
  pub from_seq : GlobalSeq
  pub to_seq : GlobalSeq
  pub ops : List (Op K)

module _ {ℓ} {K : Type ℓ} where
  abbrev pub new : CrdtId → K → Op K
  new id kind = record { id = id; seq = none; kind = kind }

  abbrev pub with_seq : GlobalSeq → Op K → Op K
  with_seq seq op = record op { seq = some seq }

  -- `Diff::empty`
  abbrev pub empty_diff : GlobalSeq → Diff K
  empty_diff at_seq = record { from_seq = at_seq; to_seq = at_seq; ops = [] }
