-- ===== src/Sync/SequenceDiff/Agree.antt =====
-- The mutations of crates/kyoso_sync/src/sequence_diff.rs carried out on the sequence of
-- crates/kyoso_crdt/src/types/sequence.rs.
use kyosync.Prelude.{
  suc, ◌+◌, ◌≤◌, ◌<◌, ◌≡◌, refl, ap, sym, subst, ◌∙◌, List, [], ◌∷◌, arith, length, true, lt, take,
  drop, leb, length-take, length-drop, length-append, u64_mod,
}
use kyosync.Table.Sorted.{IsSorted}
use kyosync.Crdt.Context.{CausalContext, cmp_dot, dot_ord}
use kyosync.Crdt.Sequence.{
  Sequence, SequenceMut, insert_at, delete_at, mutate, to_vec, tag_of, fresh_element,
  predecessor_at,
}
use kyosync.Crdt.Sequence.Insert.{insert_shows}
use kyosync.Crdt.Sequence.Delete.{delete_shows}
use kyosync.Sync.SequenceDiff.{PartialEq, sequence_diff}
use kyosync.Sync.SequenceDiff.Edits.{edit, edit_all, InRange, AllInRange}
use kyosync.Sync.SequenceDiff.Reach.{sequence_diff_reaches, sequence_diff-AllInRange}
use kyosync.Crdt.Sequence.Under.{
  IsUnder, under-IsNewest, under-IsUnknown, mutate-IsSorted, mutate-IsUnder,
}

-- The ids of the contexts rise.
abbrev pub IsRising : List CausalContext → Type 0
IsRising [] = Unit
IsRising (c ∷ []) = Unit
IsRising (c ∷ d ∷ cs) = (cmp_dot (tag_of c) (tag_of d) ≡ lt) × IsRising (d ∷ cs)

module _ {ℓ} {T : Type ℓ} where
  -- One mutation after the other, each under its context.
  unfoldable pub mutate_each : List (SequenceMut T) → List CausalContext → Sequence T → Sequence T
  unfolding mutate
  mutate_each [] ctxs s = s
  mutate_each (m ∷ ms) [] s = s
  mutate_each (m ∷ ms) (c ∷ cs) s = mutate_each ms cs (mutate m c s).0

  abbrev pub IsFirst : List CausalContext → Sequence T → Type ℓ
  IsFirst [] s = Unit
  IsFirst (c ∷ cs) s = IsUnder (tag_of c) s

  -- A mutation in range does to the visible values what it says.
  mutate_shows :
      (m : SequenceMut T) (c : CausalContext) (s : Sequence T)
      → IsSorted s.elements
      → IsUnder (tag_of c) s
      → length (to_vec s) < u64_mod
      → InRange m (to_vec s)
      → to_vec (mutate m c s).0 ≡ edit m (to_vec s)
  mutate_shows (insert_at pos v) c s sorted u small fits =
      let new = fresh_element (predecessor_at pos s) v in
      let in_range : leb pos (length (to_vec s)) ≡ true = ground (arith, fits) in
      insert_shows pos v c s sorted (under-IsNewest (tag_of c) s new u)
        (under-IsUnknown (tag_of c) s new u)
      ∙ rw in_range refl
  mutate_shows (delete_at pos count) c s sorted u small fits =
      delete_shows pos count c s sorted small

  length-edit : (m : SequenceMut T) (xs : List T) → length (edit m xs) ≤ suc (length xs)
  length-edit (insert_at pos v) xs =
      omega (
        arith,
        length-append (take pos xs) (v ∷ drop pos xs),
        length-take pos xs,
        length-drop pos xs,
      )
  length-edit (delete_at pos count) xs = omega (
    arith,
    length-append (take pos xs) (drop (pos + count) xs),
    length-take pos xs,
    length-drop (pos + count) xs,
  )

  -- A run of mutations shows what the same inserts and deletes make of the list of values shown
  -- before. Asked is that each is within the list that it meets and a delete is not empty, that
  -- the elements are sorted by id, that there is a context for each mutation, that their ids rise
  -- and the first is above every id that the sequence knows, and that the length shown and the
  -- number of mutations are together below 2^64.
  pub sequence_refines :
      (ms : List (SequenceMut T)) (cs : List CausalContext) (s : Sequence T)
      → IsSorted s.elements
      → IsFirst cs s
      → IsRising cs
      → length ms ≤ length cs
      → length (to_vec s) + length ms < u64_mod
      → AllInRange ms (to_vec s)
      → to_vec (mutate_each ms cs s) ≡ edit_all ms (to_vec s)
  unfolding mutate_each edit_all AllInRange
  sequence_refines [] cs s sorted first rising enough small fits = refl
  sequence_refines (m ∷ ms) [] s sorted first rising enough small fits = absurd (omega arith)
  sequence_refines (m ∷ ms) (c ∷ cs) s sorted first rising enough small fits =
      let shows = mutate_shows m c s sorted first (omega arith) fits.0 in
      sequence_refines ms cs (mutate m c s).0 (mutate-IsSorted m c s sorted) (next cs rising)
        (later cs rising) (omega (arith, enough))
        (omega (arith, small, length-edit m (to_vec s), ap length shows))
        (subst (AllInRange ms) (sym shows) fits.1)
      ∙ ap (edit_all ms) shows
    where
      next : (ds : List CausalContext) → IsRising (c ∷ ds) → IsFirst ds (mutate m c s).0
      next [] r = tt
      next (d ∷ ds) r = mutate-IsUnder m c s (tag_of d) sorted first r.0

      later : (ds : List CausalContext) → IsRising (c ∷ ds) → IsRising ds
      later [] r = tt
      later (d ∷ ds) r = r.1

module _ {ℓ} {T : Type ℓ} ⦃q : PartialEq T⦄ where
  -- Carrying out the difference between what a sequence shows and a component makes it show the
  -- component. Asked is that the elements are sorted by id, that there is a context for each
  -- mutation, that their ids rise and the first is above every id that the sequence knows, and
  -- that the length shown and the number of mutations are together below 2^64.
  pub sequence_sync :
      (component : List T) (cs : List CausalContext) (s : Sequence T)
      → IsSorted s.elements
      → IsFirst cs s
      → IsRising cs
      → length (sequence_diff (to_vec s) component) ≤ length cs
      → length (to_vec s) + length (sequence_diff (to_vec s) component) < u64_mod
      → to_vec (mutate_each (sequence_diff (to_vec s) component) cs s) ≡ component
  sequence_sync component cs s sorted first rising enough small =
      sequence_refines (sequence_diff (to_vec s) component) cs s sorted first rising enough small
        (sequence_diff-AllInRange (to_vec s) component)
      ∙ sequence_diff_reaches (to_vec s) component
