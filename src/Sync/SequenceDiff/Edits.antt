-- ===== src/Sync/SequenceDiff/Edits.antt =====
-- What the mutations of crates/kyoso_sync/src/sequence_diff.rs do to a list of values.
use kyosync.Prelude.{
  ℕ, zero, suc, ◌+◌, ◌-◌, ◌≤◌, ◌<◌, ◌≡◌, refl, ap, sym, ◌∙◌, List, [], ◌∷◌, ◌++◌, some, arith,
  subst, length, take, drop, get_elem?, take-append-drop, length-append,
}
use kyosync.Prelude.Occurs.{append_assoc}
use kyosync.Crdt.Sequence.{SequenceMut, insert_at, delete_at}
use kyosync.Sync.SequenceDiff.{inserts}

module _ {ℓ} {T : Type ℓ} where
  -- `Vec::insert` and `Vec::drain` of a range.
  abbrev pub edit : SequenceMut T → List T → List T
  edit (insert_at pos v) xs = take pos xs ++ v ∷ drop pos xs
  edit (delete_at pos count) xs = take pos xs ++ drop (pos + count) xs

  unfoldable pub edit_all : List (SequenceMut T) → List T → List T
  edit_all [] xs = xs
  edit_all (m ∷ ms) xs = edit_all ms (edit m xs)

  abbrev pub InRange : SequenceMut T → List T → Type 0
  InRange (insert_at pos v) xs = pos ≤ length xs
  InRange (delete_at pos count) xs = (0 < count) × (pos + count ≤ length xs)

  -- Every mutation of a run is within the list that it meets.
  unfoldable pub AllInRange : List (SequenceMut T) → List T → Type 0
  AllInRange [] xs = Unit
  AllInRange (m ∷ ms) xs = InRange m xs × AllInRange ms (edit m xs)

  pub take-append : (n : ℕ) (xs ys : List T) → length xs ≡ n → take n (xs ++ ys) ≡ xs
  take-append zero [] ys h = refl
  take-append zero (x ∷ xs) ys h = absurd (omega arith)
  take-append (suc n) [] ys h = absurd (omega arith)
  take-append (suc n) (x ∷ xs) ys h = ap (λ t. x ∷ t) (take-append n xs ys (omega arith))

  pub drop-append : (n : ℕ) (xs ys : List T) → length xs ≡ n → drop n (xs ++ ys) ≡ ys
  drop-append zero [] ys h = refl
  drop-append zero (x ∷ xs) ys h = absurd (omega arith)
  drop-append (suc n) [] ys h = absurd (omega arith)
  drop-append (suc n) (x ∷ xs) ys h = drop-append n xs ys (omega arith)

  drop_first :
      (xs : List T) (i : ℕ) (a : T) → get_elem? xs i ≡ some a → drop i xs ≡ a ∷ drop (suc i) xs
  drop_first [] i a h = absurd (ground arith)
  drop_first (x ∷ xs) zero a h = ground arith
  drop_first (x ∷ xs) (suc i) a h = drop_first xs i a h

  -- One more element of the suffix.
  pub drop_last :
      (xs : List T) (s : ℕ) (a : T)
      → suc s ≤ length xs
      → get_elem? xs (length xs - 1 - s) ≡ some a
      → drop (length xs - suc s) xs ≡ a ∷ drop (length xs - s) xs
  drop_last xs s a h e =
      let before : length xs - suc s ≡ length xs - 1 - s = omega arith in
      let after : suc (length xs - 1 - s) ≡ length xs - s = omega (arith, h) in
      ap (λ i. drop i xs) before
      ∙ drop_first xs (length xs - 1 - s) a e
      ∙ ap (λ i. a ∷ drop i xs) after

  take-take : (n k : ℕ) (xs : List T) → n ≤ k → take n (take k xs) ≡ take n xs
  take-take zero k xs h = refl
  take-take (suc n) zero xs h = absurd (omega arith)
  take-take (suc n) (suc k) [] h = refl
  take-take (suc n) (suc k) (x ∷ xs) h = ap (λ t. x ∷ t) (take-take n k xs (omega arith))

  -- A list is a prefix, a middle and a suffix.
  pub in_three :
      (p e : ℕ) (xs : List T) → p ≤ e → take p xs ++ (drop p (take e xs) ++ drop e xs) ≡ xs
  in_three p e xs h =
      sym (append_assoc (take p xs) (drop p (take e xs)) (drop e xs))
      ∙ ap (λ ys. (ys ++ drop p (take e xs)) ++ drop e xs) (sym (take-take p e xs h))
      ∙ ap (λ ys. ys ++ drop e xs) (take-append-drop p (take e xs))
      ∙ take-append-drop e xs

  -- A run of inserts puts its values one after the other.
  pub inserts_lem :
      (prefix i : ℕ) (front vs back : List T)
      → length front ≡ prefix + i
      → (edit_all (inserts prefix i vs) (front ++ back) ≡ front ++ (vs ++ back))
        × AllInRange (inserts prefix i vs) (front ++ back)
  unfolding inserts edit_all AllInRange
  inserts_lem prefix i front [] back h = (refl, tt)
  inserts_lem prefix i front (v ∷ vs) back h =
      let (rest, fits) =
        inserts_lem prefix (suc i) (front ++ v ∷ []) vs back
          (omega (arith, length-append front (v ∷ []))) in
      let step : edit (insert_at (prefix + i) v) (front ++ back) ≡ (front ++ v ∷ []) ++ back =
        rw
          (
            take-append (prefix + i) front back h,
            drop-append (prefix + i) front back h,
            append_assoc front (v ∷ []) back,
          )
          refl in
      (
        ap (edit_all (inserts prefix (suc i) vs)) step
            ∙ rest
            ∙ append_assoc front (v ∷ []) (vs ++ back),
        (
          omega (arith, length-append front back),
          subst (AllInRange (inserts prefix (suc i) vs)) (sym step) fits,
        ),
      )
