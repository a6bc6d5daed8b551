-- ===== src/Sync/SequenceDiff/Reach.antt =====
-- That the mutations of crates/kyoso_sync/src/sequence_diff.rs lead from the document to the
-- component.
use kyosync.Prelude.{
  ℕ, zero, suc, ◌+◌, ◌-◌, ◌≤◌, ◌≡◌, refl, ap, ap₂, sym, ◌∙◌, List, [], ◌∷◌, ◌++◌, some, arith, inl,
  inr, subst, Option-cases, Bool-cases, length, true, false, take, drop, if◌then◌else◌, length-take,
  get_elem?, take-suc, drop_all, take-append-drop, ltb, length-get_elem?, get_elem?-length,
}
use kyosync.Crdt.Sequence.{SequenceMut, delete_at}
use kyosync.Sync.SequenceDiff.{
  PartialEq, same_at, prefix_goes_on, prefix_loop, suffix_goes_on, suffix_loop, inserts,
  prefix_length, suffix_length, sequence_diff,
}
use kyosync.Sync.SequenceDiff.Edits.{edit_all, AllInRange, drop_last, in_three, inserts_lem}

module _ {ℓ} {T : Type ℓ} ⦃q : PartialEq T⦄ (doc component : List T) where
  same_at-eq :
      (i j : ℕ)
      → same_at doc component i j ≡ true
      → (a : T) × (get_elem? doc i ≡ some a) × (get_elem? component j ≡ some a)
  same_at-eq i j h = elim (Option-cases (get_elem? doc i)) [
    | inl e ↦ absurd (ground arith)
    | inr (a, e) ↦ elim (Option-cases (get_elem? component j)) [
      | inl f ↦ absurd (ground arith)
      | inr (b, f) ↦
          let equal : a ≡ b = q.eq_of_test a b (ground arith) in (a, e, f ∙ ap some (sym equal))
    ]
  ]

  abbrev Matches : ℕ → Type ℓ
  Matches p = (take p doc ≡ take p component) × (p ≤ length doc) × (p ≤ length component)

  Matches-suc : (p : ℕ) → Matches p → prefix_goes_on doc component p ≡ true → Matches (suc p)
  Matches-suc p (eq_p, in_doc, in_component) h =
      let test : same_at doc component p p ≡ true = ground (arith, h) in
      let (a, e, f) = same_at-eq p p test in
      (
        take-suc p doc a e ∙ ap (λ xs. xs ++ a ∷ []) eq_p ∙ sym (take-suc p component a f),
        ground (arith, h),
        ground (arith, h),
      )

  -- The prefix that is counted is common.
  prefix_loop-Matches : (fuel p : ℕ) → Matches p → Matches (prefix_loop doc component fuel p)
  unfolding prefix_loop
  prefix_loop-Matches zero p m = m
  prefix_loop-Matches (suc fuel) p m = elim (Bool-cases (prefix_goes_on doc component p)) [
    | inl more ↦ rw more (prefix_loop-Matches fuel (suc p) (Matches-suc p m more))
    | inr stop ↦ rw stop m
  ]

  -- The loop over the prefix stops because its test fails.
  prefix_loop-stops :
      (fuel p : ℕ)
      → length doc ≤ p + fuel
      → prefix_goes_on doc component (prefix_loop doc component fuel p) ≡ false
  unfolding prefix_loop
  prefix_loop-stops zero p h = ground (arith, h)
  prefix_loop-stops (suc fuel) p h = elim (Bool-cases (prefix_goes_on doc component p)) [
    | inl more ↦ rw more (prefix_loop-stops fuel (suc p) (omega arith))
    | inr stop ↦ rw stop stop
  ]

  abbrev MatchesBack : ℕ → ℕ → Type ℓ
  MatchesBack p s =
      (drop (length doc - s) doc ≡ drop (length component - s) component)
      × (s ≤ length doc - p)
      × (s ≤ length component - p)

  MatchesBack-suc :
      (p s : ℕ) → MatchesBack p s → suffix_goes_on doc component p s ≡ true → MatchesBack p (suc s)
  MatchesBack-suc p s (eq_s, in_doc, in_component) h =
      let test : same_at doc component (length doc - 1 - s) (length component - 1 - s) ≡ true =
        ground (arith, h) in
      let (a, e, f) = same_at-eq (length doc - 1 - s) (length component - 1 - s) test in
      let in_doc' : suc s ≤ length doc - p = ground (arith, h) in
      let in_component' : suc s ≤ length component - p = ground (arith, h) in
      (
        drop_last doc s a (omega (arith, in_doc')) e
            ∙ ap (λ xs. a ∷ xs) eq_s
            ∙ sym (drop_last component s a (omega (arith, in_component')) f),
        in_doc',
        in_component',
      )

  suffix_loop-MatchesBack :
      (p fuel s : ℕ) → MatchesBack p s → MatchesBack p (suffix_loop doc component p fuel s)
  unfolding suffix_loop
  suffix_loop-MatchesBack p zero s m = m
  suffix_loop-MatchesBack p (suc fuel) s m = elim (Bool-cases (suffix_goes_on doc component p s)) [
    | inl more ↦ rw more (suffix_loop-MatchesBack p fuel (suc s) (MatchesBack-suc p s m more))
    | inr stop ↦ rw stop m
  ]

  -- The range that is deleted, where there is one.
  abbrev deletes : ℕ → ℕ → List (SequenceMut T)
  deletes p d = if ltb 0 d then delete_at p d ∷ [] else []

  deletes_lem :
      (p s d : ℕ) (ms : List (SequenceMut T))
      → p + s ≤ length doc
      → d ≡ length doc - p - s
      → AllInRange ms (take p doc ++ drop (length doc - s) doc)
      → (edit_all (deletes p d ++ ms) doc ≡ edit_all ms (take p doc ++ drop (length doc - s) doc))
        × AllInRange (deletes p d ++ ms) doc
  unfolding edit_all AllInRange
  deletes_lem p s zero ms h k fits =
      let meet : length doc - s ≡ p = omega arith in
      let whole : take p doc ++ drop (length doc - s) doc ≡ doc =
        ap (λ i. take p doc ++ drop i doc) meet ∙ take-append-drop p doc in
      (ap (edit_all ms) (sym whole), subst (AllInRange ms) whole fits)
  deletes_lem p s (suc d) ms h k fits =
      let meet : length doc - s ≡ p + suc d = omega arith in
      let left : take p doc ++ drop (length doc - s) doc ≡ take p doc ++ drop (p + suc d) doc =
        ap (λ i. take p doc ++ drop i doc) meet in
      let some_left : ltb 0 (suc d) ≡ true = ground arith in
      rw some_left
        (ap (edit_all ms) (sym left), ((omega arith, omega arith), subst (AllInRange ms) left fits))

  prefix-Matches : Matches (prefix_length doc component)
  unfolding prefix_length
  prefix-Matches = prefix_loop-Matches (length doc) 0 (refl, omega arith, omega arith)

  suffix-MatchesBack : MatchesBack (prefix_length doc component) (suffix_length doc component)
  unfolding suffix_length
  suffix-MatchesBack = suffix_loop-MatchesBack (prefix_length doc component) (length doc) 0 (
    drop_all (length doc - 0) doc (omega arith)
        ∙ sym (drop_all (length component - 0) component (omega arith)),
    omega arith,
    omega arith,
  )

module _ {ℓ} {T : Type ℓ} ⦃q : PartialEq T⦄ where
  diff_lem :
      (doc component : List T)
      → (edit_all (sequence_diff doc component) doc ≡ component)
        × AllInRange (sequence_diff doc component) doc
  unfolding sequence_diff
  diff_lem doc component =
      let p = prefix_length doc component in
      let s = suffix_length doc component in
      let (same_front, front_doc, front_component) = prefix-Matches doc component in
      let (same_back, back_doc, back_component) = suffix-MatchesBack doc component in
      let middle = drop p (take (length component - s) component) in
      let back = drop (length doc - s) doc in
      let (reached, fits) =
        inserts_lem p 0 (take p doc) middle back (omega (arith, length-take p doc, front_doc)) in
      let (first, all_fit) =
        deletes_lem doc component p s (length doc - p - s) (inserts p 0 middle)
          (omega (arith, front_doc, back_doc)) refl fits in
      (
        first
            ∙ reached
            ∙ ap₂ (λ xs ys. xs ++ (middle ++ ys)) same_front same_back
            ∙ in_three p (length component - s) component
                (omega (arith, front_component, back_component)),
        all_fit,
      )

  -- Carried out one after the other on the document, the mutations give the component.
  pub sequence_diff_reaches :
      (doc component : List T) → edit_all (sequence_diff doc component) doc ≡ component
  sequence_diff_reaches doc component = (diff_lem doc component).0

  -- Each mutation of the difference is within the list that the ones before it leave: an insert at
  -- most at its end, and the delete a range of it that is not empty.
  pub sequence_diff-AllInRange :
      (doc component : List T) → AllInRange (sequence_diff doc component) doc
  sequence_diff-AllInRange doc component = (diff_lem doc component).1

  prefix_whole : (xs : List T) → ((a : T) → q.eq_test a a ≡ true) → prefix_length xs xs ≡ length xs
  unfolding prefix_length
  prefix_whole xs refl_test =
      let p = prefix_loop xs xs (length xs) 0 in
      let stops = prefix_loop-stops xs xs (length xs) 0 (omega arith) in
      let (_, bound, _) =
        prefix_loop-Matches xs xs (length xs) 0 (refl, omega arith, omega arith) in
      elim (Option-cases (get_elem? xs p)) [
        | inl beyond ↦ omega (arith, bound, length-get_elem? xs p beyond)
        | inr (a, e) ↦ absurd (ground (arith, stops, e, refl_test a, get_elem?-length xs p a e))
      ]

  nothing_same : (xs : List T) → ((a : T) → q.eq_test a a ≡ true) → sequence_diff xs xs ≡ []
  unfolding sequence_diff inserts
  nothing_same xs refl_test =
      let p = prefix_length xs xs in
      let s = suffix_length xs xs in
      let all_common : p ≡ length xs = prefix_whole xs refl_test in
      let none_deleted : ltb 0 (length xs - p - s) ≡ false = ground (arith, all_common) in
      let none_inserted : drop p (take (length xs - s) xs) ≡ [] =
        drop_all p (take (length xs - s) xs)
          (omega (arith, all_common, length-take (length xs - s) xs)) in
      rw (none_deleted, none_inserted) refl

  -- Where every value compares equal to itself, there is nothing to do exactly if the component is
  -- the document.
  sequence_diff_nothing :
      (doc component : List T)
      → ((a : T) → q.eq_test a a ≡ true)
      → (sequence_diff doc component ≡ [] → doc ≡ component)
        × (doc ≡ component → sequence_diff doc component ≡ [])
  unfolding edit_all
  sequence_diff_nothing doc component refl_test = (
    λ h. ap (λ ms. edit_all ms doc) (sym h) ∙ sequence_diff_reaches doc component,
    λ h. ap (sequence_diff doc) (sym h) ∙ nothing_same doc refl_test,
  )
