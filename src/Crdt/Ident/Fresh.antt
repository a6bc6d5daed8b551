-- ===== src/Crdt/Ident/Fresh.antt =====
-- Runs of minted ids of crates/kyoso_crdt/src/id.rs.
use kyosync.Prelude.{
  ℕ, zero, suc, ◌+◌, ◌≤◌, ◌<◌, ◌≡◌, ◌≢◌, refl, ap, ◌∙◌, List, [], ◌∷◌, arith, u64_mod, wrap64_small,
}
use kyosync.Prelude.Reorder.{All, All-imp}
use kyosync.Crdt.Ident.{CrdtId, IdGenerator, mint, mint_many, bump_to}

-- No two entries of the list are equal.
abbrev pub Distinct {ℓ} : {A : Type ℓ} → List A → Type ℓ
Distinct [] = Unit
Distinct (x ∷ xs) = All (λ y. x ≢ y) xs × Distinct xs

mint_next : (g : IdGenerator) → g.next + 1 < u64_mod → (mint g).1.next ≡ g.next + 1
unfolding mint
mint_next g h = wrap64_small (g.next + 1) h

-- The ids of a run carry the peer and lie at or above the counter that the run started from.
mint_many_above :
    (n : ℕ) (g : IdGenerator)
    → g.next + n < u64_mod
    → All (λ id. (id.peer ≡ g.peer) × (g.next ≤ id.seq)) (mint_many n g).0
unfolding mint_many mint
mint_many_above zero g h = tt
mint_many_above (suc n) g h =
    let next = mint_next g (omega arith) in
    (
      (refl, omega arith),
      All-imp (λ id q. (q.0, omega arith)) _ (mint_many_above n (mint g).1 (omega arith)),
    )

-- While the counter does not reach 2^64, the ids of a run of next are pairwise different, carry
-- the peer of the generator, and lie at or above the counter that the run started from.
pub mint_many-Distinct :
    (n : ℕ) (g : IdGenerator)
    → g.next + n < u64_mod
    → Distinct (mint_many n g).0
      × All (λ id. (id.peer ≡ g.peer) × (g.next ≤ id.seq)) (mint_many n g).0
unfolding mint_many mint
mint_many-Distinct zero g h = (tt, tt)
mint_many-Distinct (suc n) g h =
    let next = mint_next g (omega arith) in
    let above = mint_many_above n (mint g).1 (omega arith) in
    (
      (
        All-imp (λ id q e. absurd (omega (arith, ap (λ (i : CrdtId). i.seq) e))) _ above,
        (mint_many-Distinct n (mint g).1 (omega arith)).0,
      ),
      mint_many_above (suc n) g h,
    )

bump_next : (s : ℕ) (g : IdGenerator) → (g.next ≤ (bump_to s g).next) × (s ≤ (bump_to s g).next)
unfolding bump_to
bump_next s g = ground arith

bump_peer : (s : ℕ) (g : IdGenerator) → (bump_to s g).peer ≡ g.peer
unfolding bump_to
bump_peer s g = ground arith

-- After bump_to every id that a run of next mints carries the peer, lies at or above the bound and
-- at or above the old counter, while the counter does not reach 2^64.
pub bump_to-above :
    (n s : ℕ) (g : IdGenerator)
    → (bump_to s g).next + n < u64_mod
    → All
        (λ id. (id.peer ≡ g.peer) × (g.next ≤ id.seq) × (s ≤ id.seq))
        (mint_many n (bump_to s g)).0
bump_to-above n s g h =
    All-imp
      (λ id q. (q.0 ∙ bump_peer s g, omega (arith, bump_next s g), omega (arith, bump_next s g))) _
      (mint_many_above n (bump_to s g) h)
