-- ===== src/Crdt/OrSet/Live.antt =====
-- The live tags of the set of crates/kyoso_crdt/src/types/or_set.rs.
use kyosync.Prelude.{
  List, [], ◌∷◌, Option, none, some, Bool, true, false, not, ◌&&◌, ◌||◌, ◌≡◌, refl, arith, inl, inr,
  Bool-cases, Option-cases,
}
use mathlib.Core.Option
use kyosync.Prelude.Order.{Ord, same, same_refl}
use kyosync.Table.{get, keys}
use kyosync.Table.Set.{TreeSet, has, listed, has-put, has-extend}
use kyosync.Table.Laws.{get-upsert}
use kyosync.Crdt.Context.{SubDot, CausalContext, dot_ord}
use kyosync.Crdt.Delta.{ok}
use kyosync.Crdt.OrSet.{
  OrSet, OrSetDelta, OrSetMut, any_live, unremoved, tag_of, with_tag, contains, apply, mutate,
  live_tags,
}

abbrev tagged : SubDot → Option (TreeSet SubDot) → Bool
tagged t none = false
tagged t (some tags) = has t tags

tagged_or :
    (t : SubDot) (tags : Option (TreeSet SubDot)) → has t (Option.get_or tags []) ≡ tagged t tags
unfolding has get
tagged_or t none = refl
tagged_or t (some tags) = refl

listed-keys : (t : SubDot) (tags : TreeSet SubDot) → listed t (keys tags) ≡ has t tags
unfolding has keys get
listed-keys t [] = refl
listed-keys t ((u, v) ∷ tags) = ground (arith, listed-keys t tags)

any_live_of :
    (r : TreeSet SubDot) (ts : List SubDot) (t : SubDot)
    → listed t ts ≡ true
    → has t r ≡ false
    → any_live r ts ≡ true
unfolding any_live
any_live_of r [] t h k = cc
any_live_of r (u ∷ ts) t h k = ground (arith, any_live_of r ts t, dot_ord.eq_of_cmp t u)

of_any_live :
    (r : TreeSet SubDot) (ts : List SubDot)
    → any_live r ts ≡ true
    → (t : SubDot) × (listed t ts ≡ true) × (has t r ≡ false)
unfolding any_live
of_any_live r [] h = absurd (ground arith)
of_any_live r (u ∷ ts) h = elim (Bool-cases (has u r)) [
  | inl gone ↦ let (t, p, q) = of_any_live r ts (ground arith) in (t, ground (arith, p), q)
  | inr there ↦ (u, ground (arith, same_refl u), there)
]

listed-unremoved :
    (r : TreeSet SubDot) (ts : List SubDot) (t : SubDot)
    → listed t (unremoved r ts) ≡ (listed t ts && not (has t r))
unfolding unremoved
listed-unremoved r [] t = refl
listed-unremoved r (u ∷ ts) t = ground (arith, listed-unremoved r ts t, dot_ord.eq_of_cmp t u)

listed-live_tags :
    (r : TreeSet SubDot) (tags : Option (TreeSet SubDot)) (t : SubDot)
    → listed t (live_tags r tags) ≡ (tagged t tags && not (has t r))
unfolding live_tags
listed-live_tags r none t = refl
listed-live_tags r (some tags) t = rw (listed-unremoved, listed-keys)

module _ {ℓ} {T : Type ℓ} ⦃o : Ord T⦄ where
  -- The tag `t` was given to the item and is not removed.
  unfoldable pub live : T → SubDot → OrSet T → Bool
  live x t s = tagged t (get x s.adds) && not (has t s.removes)

  -- Which tags are live after a delta: an add makes its own tag live for its item unless that tag
  -- was removed before and changes no other tag; a remove ends exactly the tags that it lists.
  pub live-apply :
      (d : OrSetDelta T) (ctx : CausalContext) (s : OrSet T) (x : T) (t : SubDot)
      → live x t (apply d ctx s).0 ≡ elim d [
        | OrSetDelta.add v ↦
            live x t s || (same x v && same t (tag_of ctx) && not (has t s.removes))
        | OrSetDelta.remove observed ↦ live x t s && not (listed t observed)
      ]
  unfolding live apply
  live-apply (OrSetDelta.add v) ctx s x t = ground (
    arith,
    get-upsert x v (with_tag (tag_of ctx)) s.adds,
    has-put t (tag_of ctx) (Option.get_or (get v s.adds) []),
    tagged_or t (get v s.adds),
    o.eq_of_cmp x v,
  )
  live-apply (OrSetDelta.remove observed) ctx s x t =
      ground (arith, has-extend t observed s.removes)

  -- An item is in the set exactly when one of the tags that were given to it is not among the
  -- removed tags.
  pub contains_iff_live :
      (x : T) (s : OrSet T)
      → (contains x s ≡ true → (t : SubDot) × (live x t s ≡ true))
        × ((t : SubDot) → live x t s ≡ true → contains x s ≡ true)
  unfolding contains live
  contains_iff_live x s = elim (Option-cases (get x s.adds)) [
    | inl e ↦ (λ h. absurd (ground arith), λ t h. absurd (ground arith))
    | inr (tags, e) ↦ (
      λ h.
          let (t, p, q) = of_any_live s.removes (keys tags) (ground arith) in
          (t, ground (arith, listed-keys t tags)),
      λ t h.
          let seen : any_live s.removes (keys tags) ≡ true =
            any_live_of s.removes (keys tags) t (ground (arith, listed-keys t tags))
              (ground arith) in
          ground arith,
    )
  ]

  live-mutate :
      (v x : T) (t : SubDot) (ctx : CausalContext) (s : OrSet T)
      → live x t (mutate (OrSetMut.remove v) ctx s).0 ≡ (live x t s && not (live v t s))
  unfolding live mutate
  live-mutate v x t ctx s = ground (
    arith,
    has-extend t (live_tags s.removes (get v s.adds)) s.removes,
    listed-live_tags s.removes (get v s.adds) t,
  )

  -- A local remove takes the item out of the set, keeps for every item each tag that is not live
  -- for the removed one as it was, and yields a delta whose application to the same set has the
  -- same result.
  pub or_set_remove :
      (v : T) (ctx : CausalContext) (s : OrSet T)
      → (contains v (mutate (OrSetMut.remove v) ctx s).0 ≡ false)
        × ((x : T) (t : SubDot)
            → live v t s ≡ false
            → live x t (mutate (OrSetMut.remove v) ctx s).0 ≡ live x t s)
        × (apply (mutate (OrSetMut.remove v) ctx s).1 ctx s
            ≡ ((mutate (OrSetMut.remove v) ctx s).0, ok))
  unfolding mutate apply
  or_set_remove v ctx s =
      let s' = (mutate (OrSetMut.remove v) ctx s).0 in
      (
        elim (Bool-cases (contains v s')) [
          | inl there ↦
              let (t, h) = (contains_iff_live v s').0 there in
              absurd (ground (arith, live-mutate v v t ctx s))
          | inr gone ↦ gone
        ],
        (λ x t h. ground (arith, live-mutate v x t ctx s)),
        refl,
      )

  -- An item with a live tag that a remove did not observe is still in the set after the remove is
  -- applied.
  pub or_set_add_wins :
      (x : T) (t : SubDot) (observed : List SubDot) (ctx : CausalContext) (s : OrSet T)
      → live x t s ≡ true
      → listed t observed ≡ false
      → contains x (apply (OrSetDelta.remove observed) ctx s).0 ≡ true
  or_set_add_wins x t observed ctx s h k =
      (contains_iff_live x (apply (OrSetDelta.remove observed) ctx s).0).1 t
        (ground (arith, live-apply (OrSetDelta.remove observed) ctx s x t))
