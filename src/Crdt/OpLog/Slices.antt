-- ===== src/Crdt/OpLog/Slices.antt =====
-- The ranges of the log of crates/kyoso_crdt/src/log.rs.
use kyosync.Prelude.{
  ℕ, zero, suc, ◌+◌, ◌-◌, ◌≤◌, ◌<◌, min, ◌≡◌, refl, ap, sym, ◌∙◌, none, some, List, [], ◌∷◌, ◌++◌,
  Bool, false, ◌&&◌, leb, ltb, if◌then◌else◌, length, take, drop, arith, take-nil, take-zero,
  drop_all, take_all, take-append-drop, length-drop, Bool-cases, u64_mod, inl, inr, ◌⊎◌,
  wrap64_small,
}
use kyosync.Crdt.Ident.{GlobalSeq}
use kyosync.Crdt.Op.{Op, with_seq}
use kyosync.Crdt.OpLog.{InMemoryOpLog, head, slice, append, diff_since}

Zero-cases : (n : ℕ) → (n ≡ 0) ⊎ ((m : ℕ) × (n ≡ suc m))
Zero-cases zero = inl refl
Zero-cases (suc m) = inr (m, refl)

module _ {ℓ} {K : Type ℓ} where
  -- The ops carry the numbers `n + 1`, `n + 2`, ….
  abbrev pub Numbered : ℕ → List (Op K) → Type 0
  Numbered n [] = Unit
  Numbered n (op ∷ ops) = (op.seq ≡ some (suc n)) × Numbered (suc n) ops

  abbrev in_range : GlobalSeq → GlobalSeq → Op K → Bool
  in_range from to op = elim op.seq [ none ↦ false | some s ↦ ltb from s && leb s to ]

  -- The ops with `from < seq <= to`, one by one.
  pub between : GlobalSeq → GlobalSeq → List (Op K) → List (Op K)
  between from to [] = []
  between from to (op ∷ ops) =
      let rest = between from to ops in if in_range from to op then op ∷ rest else rest

  Numbered-append :
      (n : ℕ) (xs : List (Op K)) (op : Op K)
      → Numbered n xs
      → op.seq ≡ some (suc (n + length xs))
      → Numbered n (xs ++ op ∷ [])
  Numbered-append n [] op h e = (e ∙ ap some (omega arith), tt)
  Numbered-append n (x ∷ xs) op h e =
      (h.0, Numbered-append (suc n) xs op h.1 (e ∙ ap some (omega arith)))

  -- While the head stays below 2^64 - 1, an append keeps the numbering from 1, gives the op the
  -- next number and changes nothing else of it, and leaves the earlier ops as they were.
  append-Numbered :
      (op : Op K) (log : InMemoryOpLog K)
      → Numbered 0 log.ops
      → head log + 1 < u64_mod
      → Numbered 0 (append op log).1.ops
        × ((append op log).0 ≡ with_seq (head log + 1) op)
        × ((append op log).1.ops ≡ log.ops ++ (append op log).0 ∷ [])
  unfolding append
  append-Numbered op log h b =
      let next = wrap64_small (head log + 1) b in
      (
        Numbered-append 0 log.ops _ h (ap some (next ∙ omega arith)),
        ap (λ s. with_seq s op) next,
        refl,
      )

  between-take :
      (n from to : ℕ) (xs : List (Op K))
      → Numbered n xs
      → from ≤ n
      → between from to xs ≡ take (to - n) xs
  unfolding between
  between-take n from to [] h l = elim (Zero-cases (to - n)) [ inl e ↦ rw e | inr (m, e) ↦ rw e ]
  between-take n from to (x ∷ xs) h l = elim (Zero-cases (to - n)) [
    | inl e ↦
        let past : to - suc n ≡ 0 = omega arith in
        rw e (ground (arith, h.0, between-take (suc n) from to xs h.1, ap (λ k. take k xs) past))
    | inr (m, e) ↦
        let left : to - suc n ≡ m = omega arith in
        rw e (ground (arith, h.0, between-take (suc n) from to xs h.1, ap (λ k. take k xs) left))
  ]

  slice-eq-take :
      (from to : GlobalSeq) (log : InMemoryOpLog K)
      → slice from to log ≡ take (to - from) (drop from log.ops)
  unfolding slice
  slice-eq-take from to log = elim (Bool-cases (leb to from)) [
    | inl e ↦ rw e (sym (take-zero (to - from) (drop from log.ops) (ground arith)))
    | inr e ↦ rw e (elim (Bool-cases (leb (min to (length log.ops)) from)) [
      | inl f ↦ rw f (
          sym (
            ap (λ t. take (to - from) t) (drop_all from log.ops (ground arith))
            ∙ take-nil (to - from)))
      | inr f ↦ rw f (elim (Bool-cases (leb to (length log.ops))) [
        | inl g ↦ let same_end : min to (length log.ops) ≡ to = ground arith in rw same_end
        | inr g ↦
            let same_end : min to (length log.ops) ≡ length log.ops = ground arith in
            rw same_end (
              take_all (length log.ops - from) (drop from log.ops)
                (omega (arith, length-drop from log.ops))
              ∙ sym (
                  take_all (to - from) (drop from log.ops)
                    (ground (arith, length-drop from log.ops))))
      ])
    ])
  ]

  between-drop :
      (m n to : ℕ) (xs : List (Op K))
      → Numbered n xs
      → between (n + m) to xs ≡ take (to - (n + m)) (drop m xs)
  unfolding between
  between-drop zero n to xs h =
      let start : n + 0 ≡ n = omega arith in rw start (between-take n n to xs h (omega arith))
  between-drop (suc m) n to [] h = sym (take-nil (to - (n + suc m)))
  between-drop (suc m) n to (x ∷ xs) h =
      let start : n + suc m ≡ suc n + m = omega arith in
      ground (
        arith,
        h.0,
        between-drop m (suc n) to xs h.1,
        ap (λ k. between k to xs) start,
        ap (λ k. take (to - k) (drop m xs)) start,
      )

  -- On a log that is numbered from 1, slice returns exactly the ops with from < seq <= to in the
  -- order of the log, whatever the bounds.
  pub slice-eq-between :
      (from to : GlobalSeq) (log : InMemoryOpLog K)
      → Numbered 0 log.ops
      → slice from to log ≡ between from to log.ops
  slice-eq-between from to log h =
      let start : 0 + from ≡ from = omega arith in
      slice-eq-take from to log ∙ sym (rw start at (between-drop from 0 to log.ops h))

  -- For a since that is at most the head, the prefix up to since followed by the ops of diff_since
  -- is the whole log, and the diff reaches the head.
  pub diff_since_complete :
      (since : GlobalSeq) (log : InMemoryOpLog K)
      → since ≤ head log
      → ((diff_since since log).to_seq ≡ head log)
        × (take since log.ops ++ (diff_since since log).ops ≡ log.ops)
  unfolding diff_since
  diff_since_complete since log h = (
    refl,
    ap (λ t. take since log.ops ++ t)
          (slice-eq-take since (head log) log
            ∙ take_all (head log - since) (drop since log.ops)
                (omega (arith, length-drop since log.ops)))
        ∙ take-append-drop since log.ops,
  )
