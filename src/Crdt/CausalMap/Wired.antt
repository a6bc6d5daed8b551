-- ===== src/Crdt/CausalMap/Wired.antt =====
-- The path and the delta that crates/kyoso_crdt/src/types/causal_map.rs makes of a change, and what
-- they do where they arrive.
use kyosync.Prelude.{◌≡◌, ◌∙◌, refl, ap, fun_ext, ◌∷◌, false}
use kyosync.Crdt.Context.{CausalContext}
use kyosync.Crdt.Delta.{Codec, FieldPath, PathSegment, WireDelta, key, text_of}
use kyosync.Crdt.Lww.{LwwRegister, LwwDelta, LwwMut}
use kyosync.Crdt.Lww
use kyosync.Crdt.Lww.Wire as LwwWire
use kyosync.Crdt.Opaque.Install.{install_lww}
use kyosync.Crdt.CausalMap.{
  Replicated, CausalMap, MapDelta, MapMut, put, new, join, apply, mutate, to_wire, of_wire,
  into_wire_op, apply_wire, install_state, drops_entry, at_key,
}

-- A type whose deltas arrive as they were sent, and are not taken for the removal of a key.
pub record IsWired (V : Replicated) : Type 0 where
  pub lands :
      (d : V.Delta) (ctx : CausalContext) (s : V.State)
      → V.apply_wire (V.into_wire_op d).0 (V.into_wire_op d).1 ctx s ≡ V.apply d ctx s
  pub keeps_entry : (d : V.Delta) → drops_entry V (V.into_wire_op d).0 (V.into_wire_op d).1 ≡ false

module _ (V : Replicated) where
  -- `impl Crdt for CausalMap<V>`
  abbrev pub map_of : Replicated
  map_of = record {
    State = CausalMap V;
    Mutation = MapMut V;
    Delta = MapDelta V;
    bottom = new V;
    join = join V;
    apply = apply V;
    mutate = mutate V;
    to_wire = to_wire V;
    of_wire = of_wire V;
    into_wire_op = into_wire_op V;
    apply_wire = apply_wire V;
    install_state = install_state V;
  }

  apply_wire-at_key :
      (head : PathSegment) (tail : FieldPath) (wire : WireDelta) (ctx : CausalContext)
      (m : CausalMap V)
      → drops_entry V tail wire ≡ false
      → apply_wire V (head ∷ tail) wire ctx m
        ≡ at_key V (text_of head) (V.apply_wire tail wire ctx) m
  unfolding apply_wire
  apply_wire-at_key head tail wire ctx m h = rw (h, apply_wire) refl

  -- The path and the delta that a change of a map is sent as do to a map at the other end what the
  -- change itself does, a put as well as a removal. Asked is that the same holds of its values,
  -- and that no change of a value without a path of its own is sent as a removal of a key.
  pub map_lands :
      (d : MapDelta V) (ctx : CausalContext) (m : CausalMap V)
      → IsWired V
      → apply_wire V (into_wire_op V d).0 (into_wire_op V d).1 ctx m ≡ apply V d ctx m
  unfolding apply_wire into_wire_op apply
  map_lands (put k inner) ctx m w =
      let (path, wire) = V.into_wire_op inner in
      apply_wire-at_key (key k) path wire ctx m (w.keeps_entry inner)
      ∙ ap (λ step. at_key V k step m) (fun_ext (w.lands inner ctx))
  map_lands (MapDelta.remove_key k observed) ctx m w = refl

  -- Maps of such values are such values, so that maps may be nested.
  pub map-IsWired : IsWired V → IsWired map_of
  unfolding into_wire_op
  map-IsWired w = record { lands = λ d ctx m. map_lands d ctx m w; keeps_entry = λ d. kept d }
    where
      kept : (d : MapDelta V) → drops_entry map_of (into_wire_op V d).0 (into_wire_op V d).1 ≡ false
      kept (put k inner) = refl
      kept (MapDelta.remove_key k observed) = refl

module _ {T : Type 0} (codec : Codec T) where
  abbrev mutate_register :
      LwwMut T → CausalContext → LwwRegister T → LwwRegister T × LwwDelta T × CausalContext
  mutate_register m ctx r = let (r', d) = Lww.mutate m ctx r in (r', d, ctx)

  -- `impl Crdt for LwwRegister<T>`
  abbrev pub register_of : Replicated
  register_of = record {
    State = LwwRegister T;
    Mutation = LwwMut T;
    Delta = LwwDelta T;
    bottom = Lww.empty;
    join = Lww.join;
    apply = Lww.apply;
    mutate = mutate_register;
    to_wire = LwwWire.to_wire codec;
    of_wire = LwwWire.of_wire codec;
    into_wire_op = LwwWire.into_wire_op codec;
    apply_wire = LwwWire.apply_wire codec;
    install_state = install_lww codec;
  }

  pub register-IsWired : IsWired register_of
  unfolding LwwWire.into_wire_op LwwWire.to_wire
  register-IsWired = record {
    lands = λ d ctx r. (LwwWire.lww_wire_roundtrip codec d ctx r).1;
    keeps_entry = λ d. refl;
  }
