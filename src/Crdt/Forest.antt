-- ===== src/Crdt/Forest.antt =====
-- Walks along parent pointers: the loops of `MoveTree::is_ancestor_or_self` and of
-- `would_create_cycle`, and why they end.
pub mod Depth
pub mod Reparent
use kyosync.Prelude.{ℕ, zero, suc, Option, none, some, Bool, true, false, if◌then◌else◌, ◌≡◌}
use kyosync.Prelude.Order.{Ord, same}

module _ {ℓ} {K : Type ℓ} ⦃o : Ord K⦄ where
  -- `while let Some(id) = cursor { if id == target { return true } cursor = parent(id) } false`,
  -- with `none` where the fuel runs out.
  unfoldable pub walk : (K → Option K) → ℕ → K → Option K → Option Bool
  walk parent zero target cursor = none
  walk parent (suc fuel) target none = some false
  walk parent (suc fuel) target (some id) =
      let rest = walk parent fuel target (parent id) in if same id target then some true else rest

module _ {ℓ} {K : Type ℓ} (parent : K → Option K) where
  -- From `k` a root is reached after exactly this many steps.
  pub data Steps : ℕ → K → Type ℓ where
    root : {k : K} → parent k ≡ none → Steps zero k
    up : {n : ℕ} {k p : K} → parent k ≡ some p → Steps n p → Steps (suc n) k

  -- The ancestor `a` is `k` or above it.
  pub data Reaches (a : K) : K → Type ℓ where
    here : Reaches a a
    above : {k p : K} → parent k ≡ some p → Reaches a p → Reaches a k

  -- Every walk ends at a root.
  unfoldable pub IsAcyclic : Type ℓ
  IsAcyclic = (k : K) → (n : ℕ) × Steps n k
