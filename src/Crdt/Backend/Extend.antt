-- ===== src/Crdt/Backend/Extend.antt =====
-- A log of crates/kyoso_crdt/src/log.rs that grows at its end, seen from a replica.
use kyosync.Prelude.{
  ℕ, zero, suc, ◌+◌, ◌≤◌, ◌<◌, List, [], ◌∷◌, ◌++◌, some, ◌≡◌, refl, ap, sym, ◌∙◌, arith, length,
  take, get_elem?, u64_mod, length-append, ◌⊎◌, inl, inr,
}
use kyosync.Crdt.Op.{Op, with_seq}
use kyosync.Crdt.Topology.{Topology, Schema}
use kyosync.Crdt.Backend.Defs.{Backend}
use kyosync.Crdt.Backend.Replica.{IsLog, Synced, core, replay}

get_elem?-append {ℓ} :
    {A : Type ℓ} (xs : List A) (x y : A) (i : ℕ)
    → get_elem? (xs ++ x ∷ []) i ≡ some y
    → (get_elem? xs i ≡ some y) ⊎ ((i ≡ length xs) × (x ≡ y))
get_elem?-append [] x y zero h = inr (refl, ground arith)
get_elem?-append [] x y (suc i) h = absurd (ground arith)
get_elem?-append (z ∷ zs) x y zero h = inl h
get_elem?-append (z ∷ zs) x y (suc i) h = elim (get_elem?-append zs x y i h) [
  | inl e ↦ inl e
  | inr (e, f) ↦ inr (ap suc e, f)
]

pub get_elem?-last {ℓ} :
    {A : Type ℓ} (xs : List A) (x : A) → get_elem? (xs ++ x ∷ []) (length xs) ≡ some x
get_elem?-last [] x = refl
get_elem?-last (y ∷ ys) x = get_elem?-last ys x

pub take-append {ℓ} :
    {A : Type ℓ} (n : ℕ) (xs ys : List A) → n ≤ length xs → take n (xs ++ ys) ≡ take n xs
take-append zero xs ys h = refl
take-append (suc n) [] ys h = absurd (omega arith)
take-append (suc n) (x ∷ xs) ys h = ap (λ t. x ∷ t) (take-append n xs ys (omega arith))

pub IsLog-append {ℓ} :
    {K : Type ℓ} (log : List (Op K)) (op : Op K)
    → IsLog log
    → length log + 2 < u64_mod
    → IsLog (log ++ with_seq (length log + 1) op ∷ [])
IsLog-append {K = K} log op l b = record {
  numbered = numbers;
  bounded = omega (arith, length-append log (with_seq (length log + 1) op ∷ []));
}
  where
    numbers :
        (i : ℕ) (o : Op K)
        → get_elem? (log ++ with_seq (length log + 1) op ∷ []) i ≡ some o
        → o.seq ≡ some (suc i)
    numbers i o h = elim (get_elem?-append log (with_seq (length log + 1) op) o i h) [
      | inl e ↦ l.numbered i o e
      | inr (e, f) ↦
          let number : length log + 1 ≡ suc i = omega arith in
          sym (ap (λ (x : Op K). x.seq) f) ∙ ap some number
    ]

module _ (T : Topology) (S : Schema) where
  pub Synced-append :
      (log more : List (Op T.OpKind)) (b : Backend T S)
      → Synced T S log b
      → Synced T S (log ++ more) b
  Synced-append log more b s = record {
    within = omega (arith, s.within, length-append log more);
    folded =
        s.folded
        ∙ ap (λ ops. core T S (replay T S ops)) (sym (take-append b.applied_seq log more s.within));
  }
