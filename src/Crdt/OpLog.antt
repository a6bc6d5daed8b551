-- ===== src/Crdt/OpLog.antt =====
-- crates/kyoso_crdt/src/log.rs: the in-memory op log. Index `i` holds the op with number `i + 1`.
pub mod Slices
use kyosync.Prelude.{
  ℕ, ◌+◌, ◌-◌, min, List, [], ◌∷◌, ◌++◌, leb, if◌then◌else◌, length, take, drop, wrap64,
}
use kyosync.Crdt.Ident.{GlobalSeq}
use kyosync.Crdt.Op.{Op, Diff, with_seq}

pub record InMemoryOpLog {ℓ} (K : Type ℓ) : Type ℓ where
  pub ops : List (Op K)

module _ {ℓ} {K : Type ℓ} where
  abbrev pub new : InMemoryOpLog K
  new = record { ops = [] }

  abbrev pub head : InMemoryOpLog K → GlobalSeq
  head log = length log.ops

  -- The ops with `from_seq < seq <= to_seq`.
  unfoldable pub slice : GlobalSeq → GlobalSeq → InMemoryOpLog K → List (Op K)
  slice from_seq to_seq log =
      if leb to_seq from_seq
      then []
      else let end = min to_seq (length log.ops) in
        if leb end from_seq then [] else take (end - from_seq) (drop from_seq log.ops)

  unfoldable pub diff_since : GlobalSeq → InMemoryOpLog K → Diff K
  unfolding slice
  diff_since since log = record {
    from_seq = since;
    to_seq = head log;
    ops = slice since (head log) log;
  }

  unfoldable pub append : Op K → InMemoryOpLog K → Op K × InMemoryOpLog K
  append op log =
      let stamped = with_seq (wrap64 (head log + 1)) op in
      (stamped, record { ops = log.ops ++ stamped ∷ [] })
