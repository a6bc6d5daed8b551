-- ===== src/Crdt/Lww/Join.antt =====
-- The join of the register of crates/kyoso_crdt/src/types/lww.rs, and runs of writes.
use kyosync.Prelude.{◌≡◌, refl, ap, Option, none, some, arith}
use mathlib.Core.List.{Permᴰ}
use kyosync.Prelude.{List, sym, ◌∙◌}
use kyosync.Prelude.Reorder.{fold_steps, fold_steps-perm}
use kyosync.Crdt.Lattice.{IsSemilattice}
use kyosync.Crdt.Context.{CausalContext}
use kyosync.Crdt.Delta.{ok, Applied}
use kyosync.Crdt.Lww.{
  Stamp, LwwRegister, LwwDelta, cmp_stamp-IsLawful, stamp_of, empty, join, apply,
}

module _ {ℓ} {T : Type ℓ} where
  -- Where both registers hold a write with one stamp, they hold one value. The server stamps each
  -- op once, so registers of one field agree.
  abbrev pub Agree : LwwRegister T → LwwRegister T → Type ℓ
  Agree a b = (s : Stamp) (x y : T) → a.inner ≡ some (s, x) → b.inner ≡ some (s, y) → x ≡ y

  -- The join is idempotent.
  pub join_idem : (a : LwwRegister T) → join a a ≡ a
  unfolding join
  join_idem a = ground arith

  -- The empty register is the bottom, on both sides.
  pub join_bottom : (a : LwwRegister T) → (join empty a ≡ a) × (join a empty ≡ a)
  unfolding join
  join_bottom a = (refl, ground arith)

  join_comm_cases :
      (p q : Option (Stamp × T))
      → ((s : Stamp) (x y : T) → p ≡ some (s, x) → q ≡ some (s, y) → x ≡ y)
      → join (record { inner = p }) (record { inner = q })
        ≡ join (record { inner = q }) (record { inner = p })
  unfolding join
  join_comm_cases none none h = refl
  join_comm_cases none (some b) h = refl
  join_comm_cases (some a) none h = refl
  join_comm_cases (some (s, x)) (some (t, y)) h = ground (
    arith,
    cmp_stamp-IsLawful.eq_of_cmp s t,
    cmp_stamp-IsLawful.lt_of_gt s t,
    cmp_stamp-IsLawful.gt_of_lt s t,
    λ (e : t ≡ s). h s x y refl (ap {B = Option (Stamp × T)} (λ u. some (u, y)) e),
  )

  -- Registers that agree join to the same register in either order.
  pub join_comm : (a b : LwwRegister T) → Agree a b → join a b ≡ join b a
  join_comm a b h = join_comm_cases a.inner b.inner h

  join_assoc_cases :
      (p q r : Option (Stamp × T))
      → join (join (record { inner = p }) (record { inner = q })) (record { inner = r })
        ≡ join (record { inner = p }) (join (record { inner = q }) (record { inner = r }))
  unfolding join
  join_assoc_cases none q r = ground arith
  join_assoc_cases (some a) none r = ground arith
  join_assoc_cases (some a) (some b) none = ground arith
  join_assoc_cases (some a) (some b) (some c) = ground arith

  -- The join is associative.
  pub join_assoc : (a b c : LwwRegister T) → join (join a b) c ≡ join a (join b c)
  join_assoc a b c = join_assoc_cases a.inner b.inner c.inner

  abbrev AnyRegister : LwwRegister T → Type 0
  AnyRegister _ = Unit

  -- The join of registers is idempotent and associative, has the empty register as its bottom, and
  -- is commutative where two registers with one stamp hold one value.
  pub lww-IsSemilattice : IsSemilattice AnyRegister Agree join empty
  lww-IsSemilattice = record {
    bottom_wf = tt;
    join_wf = λ a b _ _. tt;
    idem = λ a _. join_idem a;
    bottom_join = λ a _. (join_bottom a).0;
    comm = λ a b _ _. join_comm a b;
    assoc = λ a b c _ _ _. join_assoc a b c;
  }

  -- Applying a write to a register is joining it with the register that holds that one write, and
  -- always succeeds.
  pub apply-eq-join :
      (d : LwwDelta T) (ctx : CausalContext) (r : LwwRegister T)
      → apply d ctx r ≡ (join r (record { inner = some (stamp_of ctx, d.value) }), ok)
  unfolding join apply
  apply-eq-join d ctx r = ground arith

  -- The register that a single op writes.
  abbrev pub write : (Stamp → T) → CausalContext → LwwRegister T → LwwRegister T
  write value ctx r = (apply (record { value = value (stamp_of ctx) }) ctx r).0

  abbrev one_write : (Stamp → T) → CausalContext → LwwRegister T
  one_write value ctx = record { inner = some (stamp_of ctx, value (stamp_of ctx)) }

  write-eq-join :
      (value : Stamp → T) (c : CausalContext) (r : LwwRegister T)
      → write value c r ≡ join r (one_write value c)
  write-eq-join value c r =
      ap (λ (p : LwwRegister T × Applied). p.0)
        (apply-eq-join (record { value = value (stamp_of c) }) c r)

  writes-Agree :
      (value : Stamp → T) (c d : CausalContext) → Agree (one_write value c) (one_write value d)
  writes-Agree value c d s x y p q = cc

  write_comm :
      (value : Stamp → T) (c d : CausalContext) (r : LwwRegister T)
      → write value d (write value c r) ≡ write value c (write value d r)
  write_comm value c d r =
      let one = one_write value in
      write-eq-join value d (write value c r)
      ∙ ap (λ s. join s (one d)) (write-eq-join value c r)
      ∙ join_assoc r (one c) (one d)
      ∙ ap (join r) (join_comm (one c) (one d) (writes-Agree value c d))
      ∙ sym (join_assoc r (one d) (one c))
      ∙ sym (ap (λ s. join s (one c)) (write-eq-join value d r))
      ∙ sym (write-eq-join value c (write value d r))

  -- Where each stamp carries one value, a register ends in one state whatever the order in which a
  -- list of writes is applied to it.
  pub lww_converges :
      (value : Stamp → T) {xs ys : List CausalContext}
      → Permᴰ xs ys
      → (r : LwwRegister T) → fold_steps (write value) xs r ≡ fold_steps (write value) ys r
  lww_converges value p r =
      fold_steps-perm AnyRegister (write value) (λ _ _ _. tt) (λ c d s _. write_comm value c d s) p
        r tt
