-- ===== src/Tests/Types.antt =====
-- The replicated types, ids and the log on small inputs.
use kyosync.Prelude.{
  ℕ, some, none, List, [], ◌∷◌, ◌+◌, ◌≡◌, ◌<◌, ◌≤◌, refl, true, false, u64_mod, arith,
}
use mathlib.Core.List.{Permᴰ}
use kyosync.Prelude.Order.{nat_ord}
use kyosync.Prelude.Reorder.{All, fold_steps}
use kyosync.Table.{get, contains_key}
use kyosync.Table.Set.{has}
use kyosync.Crdt.Ident.{IdGenerator, mint_many}
use kyosync.Crdt.Ident.Fresh.{Distinct, mint_many-Distinct}
use kyosync.Crdt.Context.{CausalContext, SubDot, dot_ord}
use kyosync.Crdt.Delta.{ok}
use kyosync.Crdt.Lww.{LwwRegister, Stamp, stamp_of}
use kyosync.Crdt.Lww
use kyosync.Crdt.Lww.Join.{write, lww-IsSemilattice, lww_converges}
use kyosync.Crdt.Lww.Newest.{Write, take_write, HeldFrom, Covers, CoversHeld, lww_newest}
use kyosync.Crdt.Delta.{pos, negsuc}
use kyosync.Crdt.PnCounter.{PnCounter}
use kyosync.Crdt.PnCounter.Join.{receive, pn_counter_converges}
use kyosync.Crdt.OrSet.{OrSet, OrSetDelta, OrSetMut}
use kyosync.Crdt.OrSet
use kyosync.Crdt.OrSet.Join.{or_set-IsSemilattice}
use kyosync.Crdt.OrSet.Live.{live, or_set_remove, or_set_add_wins}
use kyosync.Tests.Fixtures.{id_of, at, tag}

abbrev counter : IdGenerator
counter = record { peer = 7; next = 5 }

three_fit : counter.next + 3 < u64_mod
unfolding u64_mod
three_fit = omega arith

mint_many-Distinct_example :
    Distinct (mint_many 3 counter).0
    × All (λ id. (id.peer ≡ counter.peer) × (counter.next ≤ id.seq)) (mint_many 3 counter).0
mint_many-Distinct_example = mint_many-Distinct 3 counter three_fit

-- The value that each stamp carries: its own number.
abbrev value_of : Stamp → ℕ
value_of s = elim s.seq [ none ↦ 0 | some n ↦ n ]

abbrev early : CausalContext
early = at (id_of 1 0) (some 3)

abbrev late : CausalContext
late = at (id_of 2 0) (some 8)

abbrev nothing : LwwRegister ℕ
nothing = Lww.empty

lww_converges_example :
    fold_steps (write value_of) (early ∷ late ∷ []) nothing
    ≡ fold_steps (write value_of) (late ∷ early ∷ []) nothing
lww_converges_example = lww_converges value_of (Permᴰ.swap refl refl) nothing

abbrev two_writes : List (Write ℕ)
two_writes = (record { value = 8 }, late) ∷ (record { value = 3 }, early) ∷ []

-- The older write comes last and does not show.
older_last : Lww.get (fold_steps take_write two_writes nothing) ≡ some 8
unfolding fold_steps Lww.apply Lww.get
older_last = refl

lww_newest_example :
    HeldFrom nothing two_writes (fold_steps take_write two_writes nothing)
    × All (λ w. Covers (fold_steps take_write two_writes nothing) (stamp_of w.1)) two_writes
    × CoversHeld (fold_steps take_write two_writes nothing) nothing
lww_newest_example = lww_newest two_writes nothing

abbrev eight : LwwRegister ℕ
eight = record { inner = some (stamp_of late, 8) }

abbrev three : LwwRegister ℕ
three = record { inner = some (stamp_of early, 3) }

lww-IsSemilattice_example : Lww.join eight three ≡ Lww.join three eight
lww-IsSemilattice_example =
    (lww-IsSemilattice {T = ℕ}).comm eight three tt tt (λ s x y p q. absurd (ground arith))

abbrev empty_set : OrSet ℕ
empty_set = OrSet.new

abbrev with_five : OrSet ℕ
with_five = record { adds = (5, ((tag (id_of 2 0), tt) ∷ [])) ∷ []; removes = [] }

or_set-IsSemilattice_example : OrSet.join empty_set empty_set ≡ empty_set
or_set-IsSemilattice_example =
    (or_set-IsSemilattice {T = ℕ}).idem empty_set (or_set-IsSemilattice {T = ℕ}).bottom_wf

or_set_remove_example :
    (OrSet.contains 5 (OrSet.mutate (OrSetMut.remove 5) late with_five).0 ≡ false)
    × ((x : ℕ) (t : SubDot)
        → live 5 t with_five ≡ false
        → live x t (OrSet.mutate (OrSetMut.remove 5) late with_five).0 ≡ live x t with_five)
    × (OrSet.apply (OrSet.mutate (OrSetMut.remove 5) late with_five).1 late with_five
        ≡ ((OrSet.mutate (OrSetMut.remove 5) late with_five).0, ok))
or_set_remove_example = or_set_remove 5 late with_five

five_live : live 5 (tag (id_of 2 0)) with_five ≡ true
unfolding live get has contains_key dot_ord
five_live = refl

or_set_add_wins_example :
    OrSet.contains 5 (OrSet.apply (OrSetDelta.remove (tag (id_of 1 0) ∷ [])) late with_five).0
    ≡ true
unfolding dot_ord
or_set_add_wins_example =
    or_set_add_wins 5 (tag (id_of 2 0)) (tag (id_of 1 0) ∷ []) late with_five five_live refl

abbrev counted : PnCounter
counted = record { increments = (1, 4) ∷ []; decrements = [] }

pn_counter_converges_example :
    fold_steps receive ((early, pos 3) ∷ (late, negsuc 1) ∷ []) counted
    ≡ fold_steps receive ((late, negsuc 1) ∷ (early, pos 3) ∷ []) counted
pn_counter_converges_example = pn_counter_converges (Permᴰ.swap refl refl) counted ((tt, tt), tt)
