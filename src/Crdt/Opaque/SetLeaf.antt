-- ===== src/Crdt/Opaque/SetLeaf.antt =====
-- The set of crates/kyoso_crdt/src/types/or_set.rs, whose values a server keeps by
-- crates/kyoso_crdt/src/opaque.rs under their bytes: its items lie there in the order of the bytes.
use kyosync.Prelude.{
  ◌≡◌, refl, ap, sym, ◌∙◌, List, [], ◌∷◌, Option, none, some, arith, inl, inr, Bool-cases,
}
use kyosync.Prelude.Order.{Ord, same, same_refl, eq_of_same}
use kyosync.Table.{Table, get, insert}
use kyosync.Table.Laws.{get-insert, get-upsert}
use kyosync.Table.Sorted.{IsSorted, Above, ext, insert-IsSorted, upsert-IsSorted, get-Above}
use kyosync.Table.Set.{TreeSet, extend}
use kyosync.Crdt.Context.{CausalContext, SubDot, dot_ord}
use kyosync.Crdt.Delta.{ok, Bytes, Codec, FieldPath}
use kyosync.Crdt.OrSet.{OrSet, OrSetDelta, tag_of, with_tag}
use kyosync.Crdt.OrSet
use kyosync.Crdt.OrSet.Wire as OrSetWire
use kyosync.Crdt.Opaque.{
  OpaqueRecord, OpaqueValue, apply_wire, step_value, update_field, or_set, bytes_ord,
}
use kyosync.Crdt.Opaque.Install.{install_or_set, decode_items}
use kyosync.Crdt.Opaque.Mirror.{Leaf}

module _ {T : Type 0} ⦃o : Ord T⦄ (codec : Codec T) where
  encode_injective : (x y : T) → codec.encode x ≡ codec.encode y → x ≡ y
  encode_injective x y h =
      let read : some x ≡ some y =
        sym (codec.decode-encode x) ∙ ap codec.decode h ∙ codec.decode-encode y in
      ground arith

  same-encode : (x y : T) → same (codec.encode x) (codec.encode y) ≡ same x y
  same-encode x y = elim (Bool-cases (same x y)) [
    | inl hit ↦ rw hit (
        ap (λ z. same (codec.encode x) (codec.encode z)) (sym (eq_of_same x y hit))
        ∙ same_refl (codec.encode x))
    | inr miss ↦ elim (Bool-cases (same (codec.encode x) (codec.encode y))) [
      | inl hit ↦
          let equal : x ≡ y =
            encode_injective x y (eq_of_same (codec.encode x) (codec.encode y) hit) in
          absurd (ground (arith, same_refl x, ap (same x) equal))
      | inr other ↦ other ∙ sym miss
    ]
  ]

  -- The bytes hold the items of the set, and nothing else, with their tags and the removed tags.
  pub record Holds (s : OrSet T) (b : OrSet Bytes) : Type 0 where
    pub items_sorted : IsSorted s.adds
    pub bytes_sorted : IsSorted b.adds
    pub same_tags : (x : T) → get (codec.encode x) b.adds ≡ get x s.adds
    pub are_items :
        (k : Bytes) (t : TreeSet SubDot) → get k b.adds ≡ some t → (x : T) × (codec.encode x ≡ k)
    pub same_removes : b.removes ≡ s.removes

  Holds-add :
      (value : T) (ctx : CausalContext) (s : OrSet T) (b : OrSet Bytes)
      → Holds s b
      → Holds
          (OrSet.apply (OrSetDelta.add value) ctx s).0
          (OrSet.apply (OrSetDelta.add (codec.encode value)) ctx b).0
  unfolding OrSet.apply
  Holds-add value ctx s b h = record {
    items_sorted = upsert-IsSorted value (with_tag (tag_of ctx)) s.adds h.items_sorted;
    bytes_sorted =
        upsert-IsSorted (codec.encode value) (with_tag (tag_of ctx)) b.adds h.bytes_sorted;
    same_tags = λ x.
        rw
          (
            get-upsert (codec.encode x) (codec.encode value) (with_tag (tag_of ctx)) b.adds,
            get-upsert x value (with_tag (tag_of ctx)) s.adds,
            same-encode x value,
            h.same_tags x,
            h.same_tags value,
          )
          refl;
    are_items = λ k t there. elim (Bool-cases (same k (codec.encode value))) [
      | inl hit ↦ (value, sym (eq_of_same k (codec.encode value) hit))
      | inr miss ↦ h.are_items k t (
          sym (get-upsert k (codec.encode value) (with_tag (tag_of ctx)) b.adds ∙ rw miss refl)
          ∙ there)
    ];
    same_removes = h.same_removes;
  }

  Holds-remove :
      (observed : List SubDot) (ctx : CausalContext) (s : OrSet T) (b : OrSet Bytes)
      → Holds s b
      → Holds
          (OrSet.apply (OrSetDelta.remove observed) ctx s).0
          (OrSet.apply (OrSetDelta.remove observed) ctx b).0
  unfolding OrSet.apply
  Holds-remove observed ctx s b h = record {
    items_sorted = h.items_sorted;
    bytes_sorted = h.bytes_sorted;
    same_tags = h.same_tags;
    are_items = h.are_items;
    same_removes = ap (extend observed) h.same_removes;
  }

  -- A value that holds a set.
  abbrev pub MirrorsSet : OrSet T → OpaqueValue → Type 0
  MirrorsSet s v = (b : OrSet Bytes) × (v ≡ or_set b) × Holds s b

  pub or_set_follows :
      (d : OrSetDelta T) (ctx : CausalContext) (s : OrSet T) (v : OpaqueValue)
      → MirrorsSet s v
      → (w : OpaqueValue) × (step_value (OrSetWire.to_wire codec d) ctx v ≡ some (w, ok))
        × MirrorsSet (OrSet.apply d ctx s).0 w
  unfolding step_value OrSetWire.to_wire OrSet.apply
  or_set_follows (OrSetDelta.add value) ctx s v (b, h, holds) =
      (_, rw h refl, (_, refl, Holds-add value ctx s b holds))
  or_set_follows (OrSetDelta.remove observed) ctx s v (b, h, holds) =
      (_, rw h refl, (_, refl, Holds-remove observed ctx s b holds))

  pub or_set_applies :
      (path : FieldPath) (d : OrSetDelta T) (ctx : CausalContext) (r : OpaqueRecord)
      → apply_wire path (OrSetWire.to_wire codec d) ctx r
        ≡ update_field path (or_set OrSet.new) (step_value (OrSetWire.to_wire codec d) ctx) r
  unfolding apply_wire OrSetWire.to_wire
  or_set_applies path (OrSetDelta.add value) ctx r = refl
  or_set_applies path (OrSetDelta.remove observed) ctx r = refl

  get_head :
      (k : Bytes) (t : TreeSet SubDot) (m : Table Bytes (TreeSet SubDot))
      → get k ((k, t) ∷ m) ≡ some t
  unfolding get
  get_head k t m = ground (arith, bytes_ord.cmp_refl k)

  get_later :
      (j k : Bytes) (u t : TreeSet SubDot) (m : Table Bytes (TreeSet SubDot))
      → Above k m
      → get j m ≡ some u
      → get j ((k, t) ∷ m) ≡ some u
  unfolding get
  get_later j k u t m above h = ground (arith, h, bytes_ord.eq_of_cmp j k, get-Above k m above)

  -- Reading an item of a table whose first item is `y`.
  at_item :
      (x : T) (k : Bytes) (y : T) (t : TreeSet SubDot) (m : Table Bytes (TreeSet SubDot))
      (acc : Table T (TreeSet SubDot))
      → Above k m
      → codec.encode y ≡ k
      → elim (get (codec.encode x) m) [ none ↦ get x (insert y t acc) | some u ↦ some u ]
        ≡ elim (get (codec.encode x) ((k, t) ∷ m)) [ none ↦ get x acc | some u ↦ some u ]
  unfolding get
  at_item x k y t m acc above e =
      let at_k : same (codec.encode x) k ≡ same x y =
        ap (same (codec.encode x)) (sym e) ∙ same-encode x y in
      ground (
        arith,
        at_k,
        get-insert x y t acc,
        bytes_ord.eq_of_cmp (codec.encode x) k,
        get-Above k m above,
      )

  decode_items-cons :
      (k : Bytes) (y : T) (t : TreeSet SubDot) (m : Table Bytes (TreeSet SubDot))
      (acc : Table T (TreeSet SubDot))
      → codec.decode k ≡ some y
      → decode_items codec acc ((k, t) ∷ m) ≡ decode_items codec (insert y t acc) m
  unfolding decode_items
  decode_items-cons k y t m acc h = rw (h, decode_items) refl

  -- Decoding the items of a sorted table one by one.
  decode_items-eq :
      (m : Table Bytes (TreeSet SubDot)) (acc : Table T (TreeSet SubDot))
      → IsSorted m
      → IsSorted acc
      → ((k : Bytes) (t : TreeSet SubDot) → get k m ≡ some t → (x : T) × (codec.encode x ≡ k))
      → (r : Table T (TreeSet SubDot)) × (decode_items codec acc m ≡ some r)
        × IsSorted r
        × ((x : T) → get x r ≡ elim (get (codec.encode x) m) [ none ↦ get x acc | some t ↦ some t ])
  unfolding decode_items get
  decode_items-eq [] acc s a items = (acc, refl, a, λ x. refl)
  decode_items-eq ((k, t) ∷ m) acc s a items =
      let (y, e) = items k t (get_head k t m) in
      let decoded : codec.decode k ≡ some y = ap codec.decode (sym e) ∙ codec.decode-encode y in
      let (r, read, sorted, gets) =
        decode_items-eq m (insert y t acc) s.1 (insert-IsSorted y t acc a)
          (λ j u there. items j u (get_later j k u t m s.0 there)) in
      (
        r,
        decode_items-cons k y t m acc decoded ∙ read,
        sorted,
        λ x. gets x ∙ at_item x k y t m acc s.0 e,
      )

  decode_all :
      (s : OrSet T) (b : OrSet Bytes) → Holds s b → decode_items codec [] b.adds ≡ some s.adds
  unfolding get
  decode_all s b h =
      let (r, read, sorted, gets) = decode_items-eq b.adds [] h.bytes_sorted tt h.are_items in
      let equal : r ≡ s.adds =
        ext r s.adds sorted h.items_sorted
          λ x. gets x ∙ kept (get (codec.encode x) b.adds) ∙ h.same_tags x in
      read ∙ ap some equal
    where
      kept : (p : Option (TreeSet SubDot)) → elim p [ none ↦ none | some t ↦ some t ] ≡ p
      kept none = refl
      kept (some t) = refl

  pub or_set_installs :
      (s : OrSet T) (v : OpaqueValue)
      → MirrorsSet s v
      → (old : OrSet T) → install_or_set codec [] v old ≡ (s, ok)
  unfolding install_or_set
  or_set_installs s v (b, h, holds) old =
      rw (h, decode_all s b holds, holds.same_removes, install_or_set) refl

  pub empty_mirrors : MirrorsSet OrSet.new (or_set OrSet.new)
  unfolding get
  empty_mirrors = (
    OrSet.new,
    refl,
    record {
      items_sorted = tt;
      bytes_sorted = tt;
      same_tags = λ x. refl;
      are_items = λ k t h. absurd (ground arith);
      same_removes = refl;
    },
  )

  abbrev pub or_set_leaf : Leaf
  or_set_leaf = record {
    State = OrSet T;
    Delta = OrSetDelta T;
    initial = OrSet.new;
    apply = OrSet.apply;
    to_wire = OrSetWire.to_wire codec;
    install_state = install_or_set codec;
    fresh = or_set OrSet.new;
    Mirrors = MirrorsSet;
    mirrors_fresh = empty_mirrors;
    applies = or_set_applies;
    follows = or_set_follows;
    installs = or_set_installs;
  }
