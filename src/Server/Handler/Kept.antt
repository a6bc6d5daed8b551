-- ===== src/Server/Handler/Kept.antt =====
-- The room of a handler of apps/kyoso_server/src/services/handlers/graph.rs, as a part of the list of
-- all ops that were appended to it.
use kyosync.Prelude.{
  ℕ, zero, suc, ◌+◌, ◌-◌, ◌≤◌, ◌<◌, max, none, some, List, [], ◌∷◌, ◌++◌, ◌≡◌, refl, ap, sym, ◌∙◌,
  arith, inl, inr, Option-cases, Bool-cases, ltb, leb, ◌⊎◌, length, take, drop, drop_all,
  length-append, length-drop, wrap64_small, u64_mod, subst,
}
use kyosync.Prelude.Order.{nat_ord}
use kyosync.Table.{get, insert, retain, values, keys}
use kyosync.Table.Laws.{get-insert}
use kyosync.Table.Sorted.{IsSorted, insert-IsSorted, retain-IsSorted, get-retain}
use kyosync.Crdt.Ident.{GlobalSeq}
use kyosync.Crdt.Op.{Op, with_seq}
use kyosync.Server.Store.{InMemoryRoom, append_op, save, latest, compact, max_at_most, last_of}
use kyosync.Server.Store.Log.{numbered_from, insert-numbered_from, retain_all, retain_beyond}
use kyosync.Server.Store.Latest.{latest_at, latest_in, max_at_most-bound}

take-append {ℓ} :
    {A : Type ℓ} (n : ℕ) (xs ys : List A) → n ≤ length xs → take n (xs ++ ys) ≡ take n xs
take-append zero xs ys h = refl
take-append (suc n) [] ys h = absurd (omega arith)
take-append (suc n) (x ∷ xs) ys h = ap (λ t. x ∷ t) (take-append n xs ys (omega arith))

drop-append {ℓ} :
    {A : Type ℓ} (n : ℕ) (xs ys : List A) → n ≤ length xs → drop n (xs ++ ys) ≡ drop n xs ++ ys
drop-append zero xs ys h = refl
drop-append (suc n) [] ys h = absurd (omega arith)
drop-append (suc n) (x ∷ xs) ys h = drop-append n xs ys (omega arith)

pub drop-drop {ℓ} :
    {A : Type ℓ} (m n : ℕ) (xs : List A) → m ≤ n → drop (n - m) (drop m xs) ≡ drop n xs
drop-drop zero n xs h = let same_count : n - 0 ≡ n = omega arith in ap (λ k. drop k xs) same_count
drop-drop (suc m) zero xs h = absurd (omega arith)
drop-drop (suc m) (suc n) [] h = drop_all (suc n - suc m) [] (omega arith)
drop-drop (suc m) (suc n) (x ∷ xs) h =
    let same_count : suc n - suc m ≡ n - m = omega arith in
    ap (λ k. drop k (drop m xs)) same_count ∙ drop-drop m n xs (omega arith)

module _ (K St : Type 0) (at_seq_of : St → GlobalSeq) (snap_of : List (Op K) → St) where
  abbrev pub Room : Type 0
  Room = InMemoryRoom K St at_seq_of

  -- The number of the latest snapshot, or 0.
  unfoldable pub anchor : Room → GlobalSeq
  unfolding latest
  anchor r = elim (latest K St at_seq_of r) [ none ↦ 0 | some s ↦ at_seq_of s ]

  -- The room holds the ops beyond what was compacted, what was compacted is covered by the latest
  -- snapshot, and each snapshot is that of the prefix of its number.
  pub record Kept (log : List (Op K)) (r : Room) : Type 0 where
    pub head_is : r.head ≡ length log
    pub ops_are : r.ops ≡ numbered_from r.compacted_below (drop r.compacted_below log)
    pub within : r.compacted_below ≤ length log
    pub low : r.compacted_below ≤ anchor r
    pub sorted : IsSorted r.snapshots
    pub keyed :
        (k : ℕ) (s : St)
        → get k r.snapshots ≡ some s
        → (at_seq_of s ≡ k) × (k ≤ length log) × (s ≡ snap_of (take k log))

  -- No snapshot has a number beyond the anchor.
  anchor_above :
      (log : List (Op K)) (r : Room)
      → Kept log r
      → (k : ℕ) (s : St) → get k r.snapshots ≡ some s
      → k ≤ anchor r
  unfolding anchor latest
  anchor_above log r kept k s h =
      let (j, w, e, f, le) = latest_at k s r.snapshots kept.sorted h in
      ground (arith, kept.keyed j w f)

  -- The anchor is 0 or the number of a snapshot.
  anchor_at :
      (log : List (Op K)) (r : Room)
      → Kept log r
      → 0 < anchor r
      → (s : St) × (get (anchor r) r.snapshots ≡ some s)
  unfolding anchor latest
  anchor_at log r kept h = elim (Option-cases (last_of (values r.snapshots))) [
    | inl e ↦ absurd (ground arith)
    | inr (s, e) ↦
        let (j, f) = latest_in s r.snapshots kept.sorted e in
        let same_seq = (kept.keyed j s f).0 in
        let here : anchor r ≡ j = ground arith in
        (s, subst (λ a. get a r.snapshots ≡ some s) (sym here) f)
  ]

  -- Snapshots that include one with a number at or beyond a bound have an anchor beyond it.
  anchor_from :
      (r : Room)
      → IsSorted r.snapshots
      → ((k : ℕ) (s : St) → get k r.snapshots ≡ some s → at_seq_of s ≡ k)
      → (k : ℕ) (s : St) → get k r.snapshots ≡ some s
      → k ≤ anchor r
  unfolding anchor latest
  anchor_from r sorted keyed k s h =
      let (j, w, e, f, le) = latest_at k s r.snapshots sorted h in ground (arith, keyed j w f)

  pub append-Kept :
      (op : Op K) (log : List (Op K)) (r : Room)
      → Kept log r
      → length log + 1 < u64_mod
      → ((append_op K St at_seq_of op r).0 ≡ with_seq (length log + 1) op)
        × Kept (log ++ with_seq (length log + 1) op ∷ []) (append_op K St at_seq_of op r).1
  unfolding append_op anchor latest
  append-Kept op log r kept b =
      let number = ap (λ h. h + 1) kept.head_is in
      let fits = wrap64_small (r.head + 1) (omega (arith, kept.head_is)) ∙ number in
      let x = with_seq (length log + 1) op in
      let c = r.compacted_below in
      (
        ap (λ s. with_seq s op) fits,
        record {
          head_is = fits ∙ sym (length-append log (x ∷ []));
          ops_are =
              rw (fits, kept.ops_are)
                (insert-numbered_from c (length log + 1) x (drop c log)
                    (omega (arith, length-drop c log, kept.within))
                  ∙ ap (numbered_from c) (sym (drop-append c log (x ∷ []) kept.within)));
          within = omega (arith, kept.within, length-append log (x ∷ []));
          low = kept.low;
          sorted = kept.sorted;
          keyed = λ k s h.
              let (e, le, same_snap) = kept.keyed k s h in
              (
                e,
                omega (arith, length-append log (x ∷ [])),
                same_snap ∙ ap snap_of (sym (take-append k log (x ∷ []) le)),
              );
        },
      )

  pub save-Kept :
      (snap : St) (log : List (Op K)) (r : Room)
      → Kept log r
      → at_seq_of snap ≡ length log
      → snap ≡ snap_of (take (length log) log)
      → Kept log (save K St at_seq_of snap r)
  unfolding save
  save-Kept snap log r kept e same_snap =
      let keyed' : (k : ℕ) (s : St)
          → get k (insert (at_seq_of snap) snap r.snapshots) ≡ some s
          → (at_seq_of s ≡ k) × (k ≤ length log) × (s ≡ snap_of (take k log)) =
        λ k s h. saved k s (ground (arith, get-insert k (at_seq_of snap) snap r.snapshots)) in
      let sorted' = insert-IsSorted (at_seq_of snap) snap r.snapshots kept.sorted in
      record {
        head_is = kept.head_is;
        ops_are = kept.ops_are;
        within = kept.within;
        low = omega (
          arith,
          kept.within,
          anchor_from (save K St at_seq_of snap r) sorted' (λ k s h. (keyed' k s h).0)
              (at_seq_of snap) snap
              (ground (arith, get-insert (at_seq_of snap) (at_seq_of snap) snap r.snapshots)),
        );
        sorted = sorted';
        keyed = keyed';
      }
    where
      saved :
          (k : ℕ) (s : St)
          → ((k ≡ at_seq_of snap) × (s ≡ snap)) ⊎ (get k r.snapshots ≡ some s)
          → (at_seq_of s ≡ k) × (k ≤ length log) × (s ≡ snap_of (take k log))
      saved k s (inl (p, q)) = (
        ap at_seq_of q ∙ sym p,
        omega (arith, p, e),
        q ∙ same_snap ∙ ap (λ n. snap_of (take n log)) (sym e ∙ sym p),
      )
      saved k s (inr h) = kept.keyed k s h

  pub compact-Kept :
      (u : GlobalSeq) (log : List (Op K)) (r : Room)
      → Kept log r
      → 0 < u
      → u ≤ anchor r
      → Kept log (compact K St at_seq_of u r).1
  unfolding compact
  compact-Kept u log r kept pos le =
      let keep = max_at_most u (keys r.snapshots) in
      let (s, at_anchor) = anchor_at log r kept (omega arith) in
      let low_enough = max_at_most-bound u (keys r.snapshots) in
      let there : get (anchor r) (retain (λ k _. leb keep k) r.snapshots) ≡ some s =
        ground (arith, get-retain (anchor r) (λ k _. leb keep k) r.snapshots kept.sorted) in
      let keyed' : (k : ℕ) (t : St)
          → get k (retain (λ k _. leb keep k) r.snapshots) ≡ some t
          → (at_seq_of t ≡ k) × (k ≤ length log) × (t ≡ snap_of (take k log)) =
        λ k t h.
          kept.keyed k t
            (ground (arith, get-retain k (λ k _. leb keep k) r.snapshots kept.sorted)) in
      let sorted' = retain-IsSorted (λ k _. leb keep k) r.snapshots kept.sorted in
      record {
        head_is = kept.head_is;
        ops_are = ops_left;
        within = ground (arith, kept.within, short);
        low = ground (
          arith,
          kept.low,
          anchor_from (compact K St at_seq_of u r).1 sorted' (λ k t h. (keyed' k t h).0) (anchor r)
              s there,
        );
        sorted = sorted';
        keyed = keyed';
      }
    where
      short : u ≤ length log
      short =
          let (s, at_anchor) = anchor_at log r kept (omega arith) in
          omega (arith, (kept.keyed (anchor r) s at_anchor).1)

      ops_left :
          retain (λ seq _. ltb u seq) r.ops
          ≡ numbered_from (max r.compacted_below u) (drop (max r.compacted_below u) log)
      ops_left = elim (Bool-cases (ltb r.compacted_below u)) [
        | inl more ↦
            let bound : max r.compacted_below u ≡ u = ground arith in
            rw (kept.ops_are, bound)
              (retain_beyond r.compacted_below u (drop r.compacted_below log) (ground arith)
                  (omega (arith, length-drop r.compacted_below log, kept.within, short))
                ∙ ap (numbered_from u) (drop-drop r.compacted_below u log (ground arith)))
        | inr less ↦
            let bound : max r.compacted_below u ≡ r.compacted_below = ground arith in
            rw (kept.ops_are, bound)
              (retain_all r.compacted_below u (drop r.compacted_below log) (ground arith))
      ]
