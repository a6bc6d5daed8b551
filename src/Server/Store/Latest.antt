-- ===== src/Server/Store/Latest.antt =====
-- The latest snapshot of a room of apps/kyoso_server/src/services/store.rs.
use kyosync.Prelude.{ℕ, ◌≤◌, ◌<◌, some, List, [], ◌∷◌, ◌≡◌, refl, arith, inl, inr, Option-cases}
use kyosync.Prelude.Order.{nat_ord}
use kyosync.Table.{Table, get, values}
use kyosync.Table.Sorted.{IsSorted, Above}
use kyosync.Server.Store.{last_of, max_at_most}

module _ {V : Type 0} where
  -- The last value of a sorted table stands at a key that no key exceeds.
  pub latest_at :
      (k : ℕ) (v : V) (m : Table ℕ V)
      → IsSorted m
      → get k m ≡ some v
      → (j : ℕ) × (w : V) × (last_of (values m) ≡ some w) × (get j m ≡ some w) × (k ≤ j)
  unfolding last_of values get
  latest_at k v [] s h = absurd (ground arith)
  latest_at k v ((i, u) ∷ []) s h = (i, u, refl, ground arith, ground arith)
  latest_at k v ((i, u) ∷ (i', u') ∷ m) s h =
      let (j, w, e, f, le) = latest_at i' u' ((i', u') ∷ m) s.1 (ground arith) in
      let first : i < i' = ground (arith, s.0.0) in
      elim (Option-cases (get k ((i', u') ∷ m))) [
        | inl gone ↦ (j, w, e, ground arith, ground arith)
        | inr (x, there) ↦
            let (j', w', e', f', le') = latest_at k x ((i', u') ∷ m) s.1 there in
            let beyond : i < j' = below i j' w' ((i', u') ∷ m) s.0 f' in
            (j', w', e', ground arith, le')
      ]
    where
      below : (i j : ℕ) (w : V) (m : Table ℕ V) → Above i m → get j m ≡ some w → i < j
      below i j w [] a f = absurd (ground arith)
      below i j w ((i', u) ∷ m) a f = ground (arith, a.0, below i j w m a.1)

  -- What is last in a table is in it.
  pub latest_in :
      (w : V) (m : Table ℕ V)
      → IsSorted m
      → last_of (values m) ≡ some w
      → (j : ℕ) × (get j m ≡ some w)
  unfolding last_of values get
  latest_in w [] s h = absurd (ground arith)
  latest_in w ((i, u) ∷ m) s h =
      let (j, x, e, f, le) = latest_at i u ((i, u) ∷ m) s (ground arith) in (j, ground arith)

pub max_at_most-bound : (u : ℕ) (ks : List ℕ) → max_at_most u ks ≤ u
unfolding max_at_most
max_at_most-bound u [] = omega arith
max_at_most-bound u (k ∷ ks) = ground (arith, max_at_most-bound u ks)
