-- ===== src/Tests/Fixtures.antt =====
-- The data of the tests: ids, contexts, a schema with one register, and a log of two ops.
use kyosync.Prelude.{ℕ, Option, none, some, List, [], ◌∷◌, refl}
use kyosync.Crdt.Ident.{CrdtId}
use kyosync.Crdt.Context.{CausalContext, SubDot}
use kyosync.Crdt.Delta.{Bytes, Codec}
use kyosync.Crdt.Topology.{Schema}
use kyosync.Crdt.Op.{Op}
use kyosync.Crdt.Lww.{LwwRegister, LwwMut, LwwDelta, empty, mutate}
use kyosync.Crdt.Lww.Wire.{apply_wire, to_wire}
use kyosync.Graph.Op.{OpKind, add_node}

abbrev pub id_of : ℕ → ℕ → CrdtId
id_of peer seq = record { peer = peer; seq = seq }

abbrev pub at : CrdtId → Option ℕ → CausalContext
at id seq = record { op_id = id; seq = seq; state = record { sub_counters = [] } }

abbrev pub tag : CrdtId → SubDot
tag id = record { op = id; sub = 0 }

abbrev first_byte : Bytes → Option ℕ
first_byte [] = none
first_byte (v ∷ rest) = some v

abbrev pub number_codec : Codec ℕ
number_codec = record { encode = λ v. v ∷ []; decode = first_byte; decode-encode = λ v. refl }

abbrev note_mutate :
    LwwMut ℕ → CausalContext → LwwRegister ℕ → LwwRegister ℕ × LwwDelta ℕ × CausalContext
note_mutate m ctx r = let (r', d) = mutate m ctx r in (r', d, ctx)

-- An entity with one register.
abbrev pub note_schema : Schema
note_schema = record {
  State = LwwRegister ℕ;
  Mutation = LwwMut ℕ;
  Delta = LwwDelta ℕ;
  default = empty;
  mutate = note_mutate;
  apply_wire = apply_wire number_codec;
  into_wire_op = λ d. ([], to_wire number_codec d);
}

abbrev pub first_op : Op OpKind
first_op = record { id = id_of 1 0; seq = some 1; kind = add_node }

abbrev pub second_op : Op OpKind
second_op = record { id = id_of 2 0; seq = some 2; kind = add_node }

abbrev pub two_ops : List (Op OpKind)
two_ops = first_op ∷ second_op ∷ []
