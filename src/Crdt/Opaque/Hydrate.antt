-- ===== src/Crdt/Opaque/Hydrate.antt =====
-- What a client takes over from a server, by crates/kyoso_crdt/src/opaque.rs and `install_state` of
-- the types.
use kyosync.Prelude.{◌≡◌, List, [], none}
use mathlib.Core.Option
use kyosync.Prelude.Order.{Ord}
use kyosync.Table.{get}
use kyosync.Table.Sorted.{IsSorted}
use kyosync.Crdt.Delta.{ok, Codec, FieldPath}
use kyosync.Crdt.OrSet.{OrSet}
use kyosync.Crdt.OrSet
use kyosync.Crdt.Sequence.{Sequence}
use kyosync.Crdt.Sequence
use kyosync.Crdt.Opaque.{OpaqueRecord, or_set, sequence, path_ord}
use kyosync.Crdt.Opaque.Install.{install_or_set, install_sequence}
use kyosync.Crdt.Opaque.Mirror.{Event, receive, apply_own, hydrate_agrees}
use kyosync.Crdt.Opaque.Leaves.{sequence_leaf}
use kyosync.Crdt.Opaque.SetLeaf.{or_set_leaf}

module _ {T : Type 0} (codec : Codec T) (path : FieldPath) where
  -- Whatever a server receives from the start of a path on, deltas of a sequence at the path and
  -- any deltas at paths that it does not start with, in any order, a client that takes over the
  -- field kept there has the sequence of one that applied the deltas itself; where the record is
  -- sorted by path and decoding undoes encoding for values.
  pub sequence_hydrates :
      (events : List (Event (sequence_leaf codec) path)) (r : OpaqueRecord) (old : Sequence T)
      → IsSorted r.fields
      → get path r.fields ≡ none
      → install_sequence codec []
          (Option.get_or
            (get path (receive (sequence_leaf codec) path events r).fields)
            (sequence Sequence.new))
          old
        ≡ (apply_own (sequence_leaf codec) path events Sequence.new, ok)
  sequence_hydrates events r old sorted absent =
      hydrate_agrees (sequence_leaf codec) path events r old sorted absent

module _ {T : Type 0} ⦃o : Ord T⦄ (codec : Codec T) (path : FieldPath) where
  -- Whatever a server receives from the start of a path on, deltas of a set at the path and any
  -- deltas at paths that it does not start with, in any order, a client that takes over the field
  -- kept there has the set of one that applied the deltas itself, although the server keeps the
  -- items in the order of their bytes; where the record is sorted by path and decoding undoes
  -- encoding for values.
  pub or_set_hydrates :
      (events : List (Event (or_set_leaf codec) path)) (r : OpaqueRecord) (old : OrSet T)
      → IsSorted r.fields
      → get path r.fields ≡ none
      → install_or_set codec []
          (Option.get_or
            (get path (receive (or_set_leaf codec) path events r).fields)
            (or_set OrSet.new))
          old
        ≡ (apply_own (or_set_leaf codec) path events OrSet.new, ok)
  or_set_hydrates events r old sorted absent =
      hydrate_agrees (or_set_leaf codec) path events r old sorted absent
