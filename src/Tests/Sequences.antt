-- ===== src/Tests/Sequences.antt =====
-- The sequence, the diff that drives it, and the fields of the server on small inputs.
use kyosync.Prelude.{
  ℕ, some, none, [], ◌∷◌, ◌+◌, ◌≡◌, ◌<◌, refl, true, false, u64_mod, arith, length, take, drop,
  ◌++◌, List, ◌==◌, leb, if◌then◌else◌,
}
use mathlib.Core.Option
use kyosync.Prelude.Order.{nat_ord}
use kyosync.Table.{get, insert}
use kyosync.Table.Sorted.{IsSorted}
use kyosync.Crdt.Context.{CausalContext, SubDot, dot_ord}
use kyosync.Crdt.Delta.{ok, FieldPath, field, lww_replace, segment_ord}
use kyosync.Crdt.OrSet.{OrSet, OrSetDelta}
use kyosync.Crdt.OrSet
use kyosync.Crdt.Sequence.{
  Element, Sequence, SequenceMut, insert_at, delete_at, insertion, deletion, mutate, to_vec, tag_of,
  fresh_element, predecessor_at, children, visit_each, walk, emit_value, live_ids,
}
use kyosync.Crdt.Sequence
use kyosync.Crdt.Sequence.Ends.{walk_ends, start}
use kyosync.Crdt.Sequence.Insert.{insert_shows}
use kyosync.Crdt.Sequence.Delete.{delete_shows}
use kyosync.Crdt.Sequence.Join.{sequence-IsSemilattice}
use kyosync.Crdt.Sequence.Under.{IsUnder, under-IsNewest, under-IsUnknown}
use kyosync.Crdt.Opaque.{OpaqueRecord, apply_wire, path_ord, lww, or_set, sequence}
use kyosync.Crdt.Opaque
use kyosync.Crdt.Opaque.Paths.{apply_wire_isolated}
use kyosync.Crdt.Opaque.Install.{install_sequence, install_or_set}
use kyosync.Crdt.Opaque.Mirror.{Event, own, other, receive, apply_own}
use kyosync.Crdt.Opaque.Leaves.{sequence_leaf}
use kyosync.Crdt.Opaque.SetLeaf.{or_set_leaf}
use kyosync.Crdt.Opaque.Hydrate.{sequence_hydrates, or_set_hydrates}
use kyosync.Sync.SequenceDiff.{PartialEq, sequence_diff}
use kyosync.Sync.SequenceDiff.Edits.{AllInRange, edit_all}
use kyosync.Sync.SequenceDiff.Reach.{sequence_diff-AllInRange}
use kyosync.Sync.SequenceDiff.Agree.{mutate_each, sequence_refines, sequence_sync}
use kyosync.Tests.Fixtures.{id_of, at, tag, number_codec}

abbrev first : SubDot
first = tag (id_of 1 0)

-- 10, then 20.
abbrev pair : Sequence ℕ
pair = record {
  elements =
      (first, record { value = 10; tombstoned = false; predecessor = none })
      ∷ (tag (id_of 1 1), record { value = 20; tombstoned = false; predecessor = some first })
      ∷ [];
}

abbrev next : CausalContext
next = at (id_of 1 2) none

abbrev after_next : CausalContext
after_next = at (id_of 1 3) none

pair_shows : to_vec pair ≡ 10 ∷ 20 ∷ []
unfolding to_vec dot_ord get
pair_shows = refl

pair_sorted : IsSorted pair.elements
unfolding dot_ord
pair_sorted = ((refl, tt), (tt, tt))

pair-IsUnder : IsUnder (tag (id_of 1 2)) pair
unfolding IsUnder dot_ord get
pair-IsUnder k e there = ground arith

insert_shows_example : to_vec (mutate (insert_at 1 15) next pair).0 ≡ (
    if leb 1 (length (to_vec pair))
    then take 1 (to_vec pair) ++ 15 ∷ drop 1 (to_vec pair)
    else (15 ∷ to_vec pair))
insert_shows_example =
    insert_shows 1 15 next pair pair_sorted
      (under-IsNewest (tag (id_of 1 2)) pair (fresh_element (predecessor_at 1 pair) 15)
        pair-IsUnder)
      (under-IsUnknown (tag (id_of 1 2)) pair (fresh_element (predecessor_at 1 pair) 15)
        pair-IsUnder)

-- An insert at the start by a peer whose number is below that of the first element's peer does not
-- show first, although it has seen that element.
lower_peer_shows_later :
    to_vec (mutate (insert_at 0 5) (at (id_of 0 7) none) pair).0 ≡ 10 ∷ 20 ∷ 5 ∷ []
unfolding to_vec mutate dot_ord insert get
lower_peer_shows_later = refl

pair_small : length (to_vec pair) < u64_mod
unfolding u64_mod to_vec dot_ord get
pair_small = omega arith

delete_shows_example :
    to_vec (mutate (delete_at 1 5) next pair).0 ≡ take 1 (to_vec pair) ++ drop (1 + 5) (to_vec pair)
delete_shows_example = delete_shows 1 5 next pair pair_sorted pair_small

walk_ends_example :
    (walk (emit_value pair.elements) pair.elements 3 none
      ≡ visit_each
          (emit_value pair.elements)
          (λ c. walk (emit_value pair.elements) pair.elements 3 (some c))
          (children pair.elements none))
    × (walk (emit_value pair.elements) pair.elements (3 + 4) none
        ≡ walk (emit_value pair.elements) pair.elements 3 none)
walk_ends_example = walk_ends pair.elements pair_sorted (emit_value pair.elements) 4 start

sequence-IsSemilattice_example : Sequence.join pair pair ≡ pair
unfolding Sequence.Join.Wf
sequence-IsSemilattice_example = (sequence-IsSemilattice {T = ℕ}).idem pair pair_sorted

eq_of_test : (a b : ℕ) → (a == b) ≡ true → a ≡ b
eq_of_test a b h = ground arith

instance abbrev number_eq : PartialEq ℕ
number_eq = record { eq_test = λ a b. a == b; eq_of_test = eq_of_test }

abbrev old : List ℕ
old = 1 ∷ 2 ∷ 3 ∷ []

abbrev changed : List ℕ
changed = 1 ∷ 7 ∷ 3 ∷ []

sequence_diff-AllInRange_example : AllInRange (sequence_diff old changed) old
sequence_diff-AllInRange_example = sequence_diff-AllInRange old changed

abbrev two_edits : List (SequenceMut ℕ)
two_edits = delete_at 0 1 ∷ insert_at 1 30 ∷ []

sum_small : length (to_vec pair) + 2 < u64_mod
unfolding u64_mod to_vec dot_ord get
sum_small = omega arith

two_edits_fit : AllInRange two_edits (to_vec pair)
unfolding AllInRange to_vec dot_ord get
two_edits_fit = ((omega arith, omega arith), (omega arith, tt))

sequence_refines_example :
    to_vec (mutate_each two_edits (next ∷ after_next ∷ []) pair) ≡ edit_all two_edits (to_vec pair)
unfolding dot_ord
sequence_refines_example =
    sequence_refines two_edits (next ∷ after_next ∷ []) pair pair_sorted pair-IsUnder (refl, tt)
      (omega arith) sum_small two_edits_fit

abbrev wanted : List ℕ
wanted = 10 ∷ 15 ∷ 20 ∷ []

diff_is_one : length (sequence_diff (to_vec pair) wanted) ≡ 1
unfolding sequence_diff to_vec dot_ord get
diff_is_one = refl

sequence_sync_example :
    to_vec (mutate_each (sequence_diff (to_vec pair) wanted) (next ∷ after_next ∷ []) pair) ≡ wanted
sequence_sync_example =
    sequence_sync wanted (next ∷ after_next ∷ []) pair pair_sorted pair-IsUnder (refl, tt)
      (omega (arith, diff_is_one)) (omega (arith, diff_is_one, sum_small))

abbrev nowhere : OpaqueRecord
nowhere = Opaque.new

abbrev list_path : FieldPath
list_path = field (1 ∷ []) ∷ []

abbrev note_path : FieldPath
note_path = field (2 ∷ []) ∷ []

apart : Opaque.path_starts_with list_path note_path ≡ false
unfolding Opaque.path_starts_with segment_ord
apart = refl

apply_wire_isolated_example :
    get list_path (apply_wire note_path (lww_replace (4 ∷ [])) next nowhere).0.fields
    ≡ get list_path nowhere.fields
apply_wire_isolated_example =
    apply_wire_isolated (lww_replace (4 ∷ [])) list_path note_path next nowhere tt apart

abbrev list_events : List (Event (sequence_leaf number_codec) list_path)
list_events =
    own (insertion none 10) next
    ∷ other note_path (lww_replace (4 ∷ [])) next apart
    ∷ own (insertion (some (tag_of next)) 20) after_next
    ∷ own (deletion (tag_of next ∷ [])) after_next
    ∷ []

nothing_there : get list_path nowhere.fields ≡ none
unfolding get
nothing_there = refl

sequence_hydrates_example :
    install_sequence number_codec []
      (Option.get_or
        (get list_path (receive (sequence_leaf number_codec) list_path list_events nowhere).fields)
        (sequence Sequence.new))
      pair
    ≡ (apply_own (sequence_leaf number_codec) list_path list_events Sequence.new, ok)
sequence_hydrates_example =
    sequence_hydrates number_codec list_path list_events nowhere pair tt nothing_there

abbrev set_events : List (Event (or_set_leaf number_codec) list_path)
set_events =
    own (OrSetDelta.add 10) next ∷ own (OrSetDelta.remove (tag_of next ∷ [])) after_next ∷ []

or_set_hydrates_example :
    install_or_set number_codec []
      (Option.get_or
        (get list_path (receive (or_set_leaf number_codec) list_path set_events nowhere).fields)
        (or_set OrSet.new))
      OrSet.new
    ≡ (apply_own (or_set_leaf number_codec) list_path set_events OrSet.new, ok)
or_set_hydrates_example =
    or_set_hydrates number_codec list_path set_events nowhere OrSet.new tt nothing_there
