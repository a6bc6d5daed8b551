-- ===== src/Sync/SequenceDiff.antt =====
-- crates/kyoso_sync/src/sequence_diff.rs: the mutations that bring a sequence into agreement with a
-- list. The fuel of both loops is the length of the document, which bounds their counters.
pub mod Edits
pub mod Reach
pub mod Agree
use kyosync.Prelude.{
  ℕ, zero, suc, ◌+◌, ◌-◌, ◌≡◌, List, [], ◌∷◌, ◌++◌, Option, none, some, Bool, true, false, ◌&&◌,
  ltb, if◌then◌else◌, length, get_elem?, take, drop,
}
use kyosync.Crdt.Sequence.{SequenceMut, insert_at, delete_at}

-- `PartialEq`: values that compare equal are equal.
pub record PartialEq {ℓ} (T : Type ℓ) : Type ℓ where
  pub eq_test : T → T → Bool
  pub eq_of_test : (a b : T) → eq_test a b ≡ true → a ≡ b

module _ {ℓ} {T : Type ℓ} ⦃q : PartialEq T⦄ where
  -- `doc[i] == component[j]`, where both are in range
  abbrev pub same_at : List T → List T → ℕ → ℕ → Bool
  same_at doc component i j = elim (get_elem? doc i) [
    | none ↦ false
    | some a ↦ elim (get_elem? component j) [ none ↦ false | some b ↦ q.eq_test a b ]
  ]

  abbrev pub prefix_goes_on : List T → List T → ℕ → Bool
  prefix_goes_on doc component prefix =
      ltb prefix (length doc)
      && (ltb prefix (length component) && same_at doc component prefix prefix)

  unfoldable pub prefix_loop : List T → List T → ℕ → ℕ → ℕ
  prefix_loop doc component zero prefix = prefix
  prefix_loop doc component (suc fuel) prefix =
      let next = prefix_loop doc component fuel (suc prefix) in
      if prefix_goes_on doc component prefix then next else prefix

  abbrev pub suffix_goes_on : List T → List T → ℕ → ℕ → Bool
  suffix_goes_on doc component prefix suffix =
      ltb suffix (length doc - prefix)
      && (ltb suffix (length component - prefix)
          && same_at doc component (length doc - 1 - suffix) (length component - 1 - suffix))

  unfoldable pub suffix_loop : List T → List T → ℕ → ℕ → ℕ → ℕ
  suffix_loop doc component prefix zero suffix = suffix
  suffix_loop doc component prefix (suc fuel) suffix =
      let next = suffix_loop doc component prefix fuel (suc suffix) in
      if suffix_goes_on doc component prefix suffix then next else suffix

-- `for (i, value) in component_middle.iter().enumerate()`
unfoldable pub inserts {ℓ} : {T : Type ℓ} → ℕ → ℕ → List T → List (SequenceMut T)
inserts prefix i [] = []
inserts prefix i (v ∷ vs) = insert_at (prefix + i) v ∷ inserts prefix (suc i) vs

module _ {ℓ} {T : Type ℓ} ⦃q : PartialEq T⦄ where
  unfoldable pub prefix_length : List T → List T → ℕ
  unfolding prefix_loop
  prefix_length doc component = prefix_loop doc component (length doc) 0

  unfoldable pub suffix_length : List T → List T → ℕ
  unfolding suffix_loop prefix_length
  suffix_length doc component =
      suffix_loop doc component (prefix_length doc component) (length doc) 0

  unfoldable pub sequence_diff : List T → List T → List (SequenceMut T)
  unfolding prefix_length suffix_length inserts
  sequence_diff doc component =
      let prefix = prefix_length doc component in
      let suffix = suffix_length doc component in
      let doc_middle_len = length doc - prefix - suffix in
      let component_middle = drop prefix (take (length component - suffix) component) in
      let deletes = if ltb 0 doc_middle_len then delete_at prefix doc_middle_len ∷ [] else [] in
      deletes ++ inserts prefix 0 component_middle
