-- ===== src/Crdt/Lattice.antt =====
-- crates/kyoso_crdt/src/lattice.rs: what the trait `Lattice` asks of `join` and `bottom`. `Wf` says
-- which states occur (the representation's invariant), and `Agree` which two states can be
-- replicas of one value: the identifiers that both hold stand for the same operation.
use kyosync.Prelude.{◌≡◌}

pub record IsSemilattice {ℓ μ ν} {S : Type ℓ} (Wf : S → Type μ) (Agree : S → S → Type ν)
    (join : S → S → S) (bottom : S) : Type (ℓ ⊔ μ ⊔ ν) where
  pub bottom_wf : Wf bottom
  pub join_wf : (a b : S) → Wf a → Wf b → Wf (join a b)
  pub idem : (a : S) → Wf a → join a a ≡ a
  pub bottom_join : (a : S) → Wf a → join bottom a ≡ a
  pub comm : (a b : S) → Wf a → Wf b → Agree a b → join a b ≡ join b a
  pub assoc : (a b c : S) → Wf a → Wf b → Wf c → join (join a b) c ≡ join a (join b c)
