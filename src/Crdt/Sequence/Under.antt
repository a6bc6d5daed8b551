-- ===== src/Crdt/Sequence/Under.antt =====
-- Ids above all that a sequence of crates/kyoso_crdt/src/types/sequence.rs knows.
use kyosync.Prelude.{
  ℕ, zero, suc, ◌≡◌, refl, ap, sym, subst, ◌∙◌, List, [], ◌∷◌, none, some, arith, inl, inr,
  Option-cases, Bool-cases, length, false, lt, if◌then◌else◌, get_elem?,
}
use kyosync.Prelude.Order.{same, eq_of_same}
use kyosync.Prelude.Occurs.{occurs_get_elem?, flat_map}
use kyosync.Table.{Table, get, modify}
use kyosync.Table.Laws.{get-insert, modify-absent, modify-there}
use kyosync.Table.Sorted.{IsSorted, insert-IsSorted}
use kyosync.Crdt.Context.{SubDot, CausalContext, cmp_dot, dot_ord, cmp_dot-IsLawful}
use kyosync.Crdt.Sequence.{
  Element, Sequence, SequenceMut, insert_at, delete_at, mutate, live_ids, tag_of, fresh_element,
  predecessor_at, id_at_visible_pos, entomb, entomb_all, targets_at, emit_live, same_place,
}
use kyosync.Crdt.Sequence.Walk.{eq_of_same_place}
use kyosync.Crdt.Sequence.Once.{met_is_there}
use kyosync.Crdt.Sequence.Place.{IsNewest, IsUnknown}
use kyosync.Crdt.Sequence.Visible.{whole, live_ids-eq, live-occurs}
use kyosync.Crdt.Sequence.Entomb.{entomb_all-SameTree}

module _ {ℓ} {T : Type ℓ} where
  -- Every id in the sequence is below this one, and so is every id that an element follows.
  unfoldable pub IsUnder : SubDot → Sequence T → Type ℓ
  IsUnder t s =
      (k : SubDot) (e : Element T)
      → get k s.elements ≡ some e
      → (cmp_dot k t ≡ lt) × ((p : SubDot) → e.predecessor ≡ some p → cmp_dot p t ≡ lt)

  pub under-IsNewest :
      (t : SubDot) (s : Sequence T) (e : Element T) → IsUnder t s → IsNewest t e s.elements
  unfolding IsUnder IsNewest
  under-IsNewest t s e u k w there h = (u k w there).0

  pub under-IsUnknown :
      (t : SubDot) (s : Sequence T) (e : Element T) → IsUnder t s → IsUnknown t e s.elements
  unfolding IsUnder IsUnknown dot_ord
  under-IsUnknown t s e u = (absent, not_followed)
    where
      absent : get t s.elements ≡ none
      absent = elim (Option-cases (get t s.elements)) [
        | inl a ↦ a
        | inr (w, there) ↦ absurd (ground (arith, (u t w there).0, cmp_dot-IsLawful.cmp_refl t))
      ]

      not_followed :
          (k : SubDot) (w : Element T)
          → get k s.elements ≡ some w
          → same_place w.predecessor (some t) ≡ false
      not_followed k w there = elim (Bool-cases (same_place w.predecessor (some t))) [
        | inl hit ↦
            let at_t : w.predecessor ≡ some t = eq_of_same_place w.predecessor (some t) hit in
            absurd (ground (arith, (u k w there).1 t at_t, cmp_dot-IsLawful.cmp_refl t))
        | inr miss ↦ miss
      ]

  -- What a new element follows is in the sequence.
  predecessor_there :
      (pos : ℕ) (s : Sequence T) (p : SubDot)
      → IsSorted s.elements
      → predecessor_at pos s ≡ some p
      → (e : Element T) × (get p s.elements ≡ some e)
  unfolding predecessor_at id_at_visible_pos
  predecessor_there zero s p sorted h = absurd (ground arith)
  predecessor_there (suc j) s p sorted h =
      let h' : get_elem? (flat_map (emit_live s.elements) (whole s.elements)) j ≡ some p =
        ap (λ l. get_elem? l j) (sym (live_ids-eq s)) ∙ h in
      met_is_there s.elements sorted p (suc (length s.elements)) none
        (live-occurs s.elements p (whole s.elements) (occurs_get_elem? p _ j h'))

  modified_was :
      (t k : SubDot) (e : Element T) (m : Table SubDot (Element T))
      → get k (modify t entomb m) ≡ some e
      → (x : Element T) × (get k m ≡ some x) × (x.predecessor ≡ e.predecessor)
  modified_was t k e m h = elim (Option-cases (get t m)) [
    | inl absent ↦ (e, ap (get k) (sym (modify-absent t entomb m absent)) ∙ h, refl)
    | inr (w, there) ↦
        let read : (if same k t then some (entomb w) else get k m) ≡ some e =
          sym (get-insert k t (entomb w) m)
          ∙ ap (get k) (sym (modify-there t entomb w m there))
          ∙ h in
        elim (Bool-cases (same k t)) [
          | inl hit ↦
              let this : some (entomb w) ≡ some e = rw hit at read in
              let same_predecessor : w.predecessor ≡ e.predecessor = ground arith in
              (w, ap (λ j. get j m) (eq_of_same k t hit) ∙ there, same_predecessor)
          | inr miss ↦ (e, rw miss at read, refl)
        ]
  ]

  entombed_was :
      (ts : List SubDot) (k : SubDot) (w : Element T) (m : Table SubDot (Element T))
      → get k (entomb_all ts m) ≡ some w
      → (e : Element T) × (get k m ≡ some e) × (e.predecessor ≡ w.predecessor)
  unfolding entomb_all
  entombed_was [] k w m h = (w, h, refl)
  entombed_was (t ∷ ts) k w m h =
      let (e, there, same_p) = entombed_was ts k w (modify t entomb m) h in
      let (x, was, same_x) = modified_was t k e m there in (x, was, same_x ∙ same_p)

  pub mutate-IsSorted :
      (m : SequenceMut T) (c : CausalContext) (s : Sequence T)
      → IsSorted s.elements
      → IsSorted (mutate m c s).0.elements
  unfolding mutate
  mutate-IsSorted (insert_at pos v) c s sorted =
      insert-IsSorted (tag_of c) (fresh_element (predecessor_at pos s) v) s.elements sorted
  mutate-IsSorted (delete_at pos count) c s sorted =
      (entomb_all-SameTree (targets_at pos count (live_ids s)) s.elements sorted).1

  -- A mutation leaves the sequence under every id above its own.
  pub mutate-IsUnder :
      (m : SequenceMut T) (c : CausalContext) (s : Sequence T) (t : SubDot)
      → IsSorted s.elements
      → IsUnder (tag_of c) s
      → cmp_dot (tag_of c) t ≡ lt
      → IsUnder t (mutate m c s).0
  unfolding mutate IsUnder
  mutate-IsUnder (insert_at pos v) c s t sorted u h k e there =
      let new = fresh_element (predecessor_at pos s) v in
      let read : (if same k (tag_of c) then some new else get k s.elements) ≡ some e =
        sym (get-insert k (tag_of c) new s.elements) ∙ there in
      elim (Bool-cases (same k (tag_of c))) [
        | inl hit ↦
            let this : some new ≡ some e = rw hit at read in
            let same_predecessor : predecessor_at pos s ≡ e.predecessor = ground arith in
            (
              subst (λ j. cmp_dot j t ≡ lt) (sym (eq_of_same k (tag_of c) hit)) h,
              λ p at_p.
                  let (w, present) = predecessor_there pos s p sorted (same_predecessor ∙ at_p) in
                  cmp_dot-IsLawful.cmp_trans p (tag_of c) t (u p w present).0 h,
            )
        | inr miss ↦
            let old : get k s.elements ≡ some e = rw miss at read in
            (
              cmp_dot-IsLawful.cmp_trans k (tag_of c) t (u k e old).0 h,
              λ p at_p. cmp_dot-IsLawful.cmp_trans p (tag_of c) t ((u k e old).1 p at_p) h,
            )
      ]
  mutate-IsUnder (delete_at pos count) c s t sorted u h k e there =
      let (w, old, same_predecessor) =
        entombed_was (targets_at pos count (live_ids s)) k e s.elements there in
      (
        cmp_dot-IsLawful.cmp_trans k (tag_of c) t (u k w old).0 h,
        λ p at_p.
            cmp_dot-IsLawful.cmp_trans p (tag_of c) t ((u k w old).1 p (same_predecessor ∙ at_p)) h,
      )
