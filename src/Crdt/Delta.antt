-- ===== src/Crdt/Delta.antt =====
-- crates/kyoso_crdt/src/delta.rs and the errors of lattice.rs: paths, the deltas on the wire, and
-- the ways in which an apply fails. Strings are their UTF-8 bytes. The text of an error is not
-- modelled, nor are the encodings of postcard, a third-party library: a `Codec` is a parameter.
use kyosync.Prelude.{
  ℕ, ◌≡◌, Ordering, lt, eq, gt, Bool, true, false, Option, none, some, List, [], ◌∷◌, ◌++◌,
}
use kyosync.Prelude.Order.{Ord, IsLawful, lex, lex-IsLawful, list_ord, nat_ord}
use kyosync.Crdt.Ident.{CrdtId}
use kyosync.Crdt.Context.{SubDot}

-- `Vec<u8>`
abbrev pub Bytes : Type 0
Bytes = List ℕ

-- `String`
abbrev pub Text : Type 0
Text = List ℕ

pub data PathSegment : Type 0 where
  field : Text → PathSegment
  key : Text → PathSegment

abbrev pub text_of : PathSegment → Text
text_of (field s) = s
text_of (key s) = s

-- The derived order: every `Field` before every `Key`, then by text.
abbrev pub cmp_segment : PathSegment → PathSegment → Ordering
cmp_segment (field s) (field t) = lex s t
cmp_segment (field s) (key t) = lt
cmp_segment (key s) (field t) = gt
cmp_segment (key s) (key t) = lex s t

abbrev text_laws : IsLawful {K = Text} lex
text_laws = lex-IsLawful

segment_refl : (a : PathSegment) → cmp_segment a a ≡ eq
segment_refl (field s) = text_laws.cmp_refl s
segment_refl (key s) = text_laws.cmp_refl s

segment_eq : (a b : PathSegment) → cmp_segment a b ≡ eq → a ≡ b
segment_eq (field s) (field t) h = cc (text_laws.eq_of_cmp s t h)
segment_eq (field s) (key t) h = cc
segment_eq (key s) (field t) h = cc
segment_eq (key s) (key t) h = cc (text_laws.eq_of_cmp s t h)

segment_gt : (a b : PathSegment) → cmp_segment a b ≡ gt → cmp_segment b a ≡ lt
segment_gt (field s) (field t) h = text_laws.lt_of_gt s t h
segment_gt (field s) (key t) h = cc
segment_gt (key s) (field t) h = cc
segment_gt (key s) (key t) h = text_laws.lt_of_gt s t h

segment_lt : (a b : PathSegment) → cmp_segment a b ≡ lt → cmp_segment b a ≡ gt
segment_lt (field s) (field t) h = text_laws.gt_of_lt s t h
segment_lt (field s) (key t) h = cc
segment_lt (key s) (field t) h = cc
segment_lt (key s) (key t) h = text_laws.gt_of_lt s t h

segment_trans :
    (a b c : PathSegment) → cmp_segment a b ≡ lt → cmp_segment b c ≡ lt → cmp_segment a c ≡ lt
segment_trans (field s) (field t) (field u) h k = text_laws.cmp_trans s t u h k
segment_trans (field s) (field t) (key u) h k = cc
segment_trans (field s) (key t) (field u) h k = cc
segment_trans (field s) (key t) (key u) h k = cc
segment_trans (key s) (field t) c h k = cc
segment_trans (key s) (key t) (field u) h k = cc
segment_trans (key s) (key t) (key u) h k = text_laws.cmp_trans s t u h k

pub cmp_segment-IsLawful : IsLawful cmp_segment
cmp_segment-IsLawful = record {
  cmp_refl = segment_refl;
  eq_of_cmp = segment_eq;
  lt_of_gt = segment_gt;
  gt_of_lt = segment_lt;
  cmp_trans = segment_trans;
}

instance unfoldable pub segment_ord : Ord PathSegment
unfolding lex
segment_ord = record { cmp = cmp_segment; lawful = cmp_segment-IsLawful }

-- `Path`
abbrev pub FieldPath : Type 0
FieldPath = List PathSegment

-- `Path::push`
abbrev pub push : FieldPath → PathSegment → FieldPath
push p s = p ++ s ∷ []

abbrev pub is_empty : FieldPath → Bool
is_empty [] = true
is_empty (s ∷ p) = false

abbrev pub split_first : FieldPath → Option (PathSegment × FieldPath)
split_first [] = none
split_first (s ∷ p) = some (s, p)

-- `i64`: `negsuc n` is -(n + 1).
pub data ℤ : Type 0 where
  pos : ℕ → ℤ
  negsuc : ℕ → ℤ

pub data WireDelta : Type 0 where
  lww_replace : Bytes → WireDelta
  or_set_add : Bytes → WireDelta
  or_set_remove : List SubDot → WireDelta
  pn_counter_delta : ℤ → WireDelta
  sequence_insert : Option SubDot → Bytes → WireDelta
  sequence_delete : List SubDot → WireDelta
  map_put : PathSegment → WireDelta → WireDelta
  map_remove : PathSegment → List SubDot → WireDelta
  tree_move : CrdtId → Option CrdtId → Text → WireDelta

pub data DeltaError : Type 0 where
  type_mismatch unknown_path invalid missing_predecessor : DeltaError

-- `Result<(), DeltaError>`
pub data Applied : Type 0 where
  ok : Applied
  err : DeltaError → Applied

-- How postcard writes and reads the values of a type.
pub record Codec {ℓ} (T : Type ℓ) : Type ℓ where
  pub encode : T → Bytes
  pub decode : Bytes → Option T
  pub decode-encode : (v : T) → decode (encode v) ≡ some v
