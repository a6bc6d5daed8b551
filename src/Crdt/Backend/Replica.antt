-- ===== src/Crdt/Backend/Replica.antt =====
-- Replicas of one log, for the backend of crates/kyoso_crdt/src/backend.rs.
use kyosync.Prelude.{
  ℕ, zero, suc, ◌+◌, ◌≤◌, ◌<◌, List, [], ◌∷◌, ◌++◌, none, some, leb, ◌==◌, if◌then◌else◌,
  wrap64_small, u64_mod, ◌≡◌, refl, ap, sym, ◌∙◌, arith, length, take, take-suc, get_elem?, subst,
  drop, length-drop, Bool-cases, Option-cases, inl, inr,
}
use kyosync.Prelude.Reorder.{fold_steps}
use kyosync.Table.{Table}
use kyosync.Crdt.Ident.{PeerId, CrdtId}
use kyosync.Crdt.Context.{CausalState}
use kyosync.Crdt.Op.{Op}
use kyosync.Crdt.Topology.{Topology, Schema}
use kyosync.Crdt.Backend.Defs.{
  Backend, ok, err, unconfirmed, out_of_order, with_peer, set_peer, queue_op, drain_pending, route,
  apply_remote,
}

-- The op at index `i` carries the number `i + 1`, as the log's `append` gives it.
pub record IsLog {ℓ} {K : Type ℓ} (log : List (Op K)) : Type ℓ where
  pub numbered : (i : ℕ) (op : Op K) → get_elem? log i ≡ some op → op.seq ≡ some (suc i)
  pub bounded : length log + 1 < u64_mod

get_elem?-bound {ℓ} :
    {A : Type ℓ} (xs : List A) (i : ℕ) (x : A) → get_elem? xs i ≡ some x → i < length xs
get_elem?-bound [] i x h = absurd (ground arith)
get_elem?-bound (y ∷ ys) zero x h = omega arith
get_elem?-bound (y ∷ ys) (suc i) x h = omega (arith, get_elem?-bound ys i x h)

fold_steps-append {ℓ κ} :
    {A : Type ℓ} {S : Type κ} (step : A → S → S) (xs : List A) (x : A) (s : S)
    → fold_steps step (xs ++ x ∷ []) s ≡ step x (fold_steps step xs s)
unfolding fold_steps
fold_steps-append step [] x s = refl
fold_steps-append step (y ∷ ys) x s = fold_steps-append step ys x (step y s)

drop-head {ℓ} :
    {A : Type ℓ} (n : ℕ) (xs : List A) (x : A) (rest : List A)
    → drop n xs ≡ x ∷ rest
    → (get_elem? xs n ≡ some x) × (drop (suc n) xs ≡ rest)
drop-head zero [] x rest h = absurd (ground arith)
drop-head zero (y ∷ ys) x rest h = (ground arith, ground arith)
drop-head (suc n) [] x rest h = absurd (ground arith)
drop-head (suc n) (y ∷ ys) x rest h = drop-head n ys x rest h

module _ (T : Topology) (S : Schema) where
  -- What a replica shares with the others: all but its ids and its queue.
  pub record Core : Type 0 where
    pub topology : T.State
    pub schemas : Table CrdtId S.State
    pub causal : CausalState
    pub applied_seq : ℕ

  unfoldable pub core : Backend T S → Core
  core b = record {
    topology = b.topology;
    schemas = b.schemas;
    causal = b.causal;
    applied_seq = b.applied_seq;
  }

  abbrev pub deliver : Op T.OpKind → Backend T S → Backend T S
  deliver op b = (apply_remote T S op b).0

  -- The replica that has applied the ops of the list and nothing else.
  unfoldable pub replay : List (Op T.OpKind) → Backend T S
  replay ops = fold_steps deliver ops (with_peer T S 0)

  -- The replica with this shared part, no queue and the ids of peer 0.
  rebuild : Core → Backend T S
  rebuild c = record (with_peer T S 0) {
    topology = c.topology;
    schemas = c.schemas;
    causal = c.causal;
    applied_seq = c.applied_seq;
  }

  core-route :
      (op : Op T.OpKind) (b : Backend T S)
      → core (route T S op b) ≡ core (route T S op (rebuild (core b)))
  unfolding core route rebuild
  core-route op b = elim (Option-cases (T.extract_property_op op.kind)) [
    | inl e ↦ rw (e, route)
    | inr (p, e) ↦ rw (e, route)
  ]

  core-rebuild :
      (op : Op T.OpKind) (b : Backend T S)
      → core (deliver op b) ≡ core (deliver op (rebuild (core b)))
  unfolding core apply_remote rebuild
  core-rebuild op b = ground (arith, core-route op b)

  -- What `apply_remote` does to the shared part depends on the shared part alone.
  core-deliver :
      (op : Op T.OpKind) (b c : Backend T S)
      → core b ≡ core c
      → core (deliver op b) ≡ core (deliver op c)
  core-deliver op b c h =
      core-rebuild op b ∙ ap (λ x. core (deliver op (rebuild x))) h ∙ sym (core-rebuild op c)

  -- While the applied number stays below 2^64 - 1: an op without a number is refused, one at or
  -- below the applied number is accepted and changes nothing, the next is applied, and one beyond
  -- it is refused with the number that was expected; a refusal changes nothing.
  pub apply_remote_outcome :
      (op : Op T.OpKind) (b : Backend T S)
      → b.applied_seq + 1 < u64_mod
      → apply_remote T S op b ≡ elim op.seq [
        | none ↦ (b, err unconfirmed)
        | some seq ↦
            if leb seq b.applied_seq
            then (b, ok)
            else if seq == b.applied_seq + 1
            then (record (route T S op b) { applied_seq = b.applied_seq + 1 }, ok)
            else (b, err (out_of_order (b.applied_seq + 1) seq))
      ]
  unfolding apply_remote
  apply_remote_outcome op b h = ground (arith, wrap64_small (b.applied_seq + 1) h)

  -- What can happen to a replica of the log: any op of the log arrives, at any time and any number
  -- of times, or one that the server has not numbered; and local work queues ops and sends them.
  pub data Event (log : List (Op T.OpKind)) (b : Backend T S) : Backend T S → Type 0 where
    arrive :
        (i : ℕ) (op : Op T.OpKind)
        → get_elem? log i ≡ some op
        → Event log b (apply_remote T S op b).0
    early : (op : Op T.OpKind) → op.seq ≡ none → Event log b (apply_remote T S op b).0
    queue : (kind : T.OpKind) → Event log b (queue_op T S kind b).1
    drain : Event log b (drain_pending T S b).1
    rekey : (peer : PeerId) → Event log b (set_peer T S peer b)

  pub data Run (log : List (Op T.OpKind)) (peer : PeerId) : Backend T S → Type 0 where
    start : Run log peer (with_peer T S peer)
    next : {b c : Backend T S} → Run log peer b → Event log b c → Run log peer c

  -- The replica has applied a prefix of the log, and its shared part is the fold of that prefix.
  pub record Synced (log : List (Op T.OpKind)) (b : Backend T S) : Type 0 where
    pub within : b.applied_seq ≤ length log
    pub folded : core b ≡ core (replay (take b.applied_seq log))

  -- The prefix that a delivery of the next op leaves applied.
  replay-take :
      (log : List (Op T.OpKind)) (i : ℕ) (op : Op T.OpKind)
      → get_elem? log i ≡ some op
      → replay (take (suc i) log) ≡ deliver op (replay (take i log))
  unfolding replay
  replay-take log i op e =
      ap (λ ops. fold_steps deliver ops (with_peer T S 0)) (take-suc i log op e)
      ∙ fold_steps-append deliver (take i log) op (with_peer T S 0)

  Synced-same :
      (log : List (Op T.OpKind)) (b c : Backend T S) → core b ≡ core c → Synced log b → Synced log c
  unfolding core
  Synced-same log b c e s =
      let seq : b.applied_seq ≡ c.applied_seq = ap (λ (x : Core). x.applied_seq) e in
      record {
        within = omega arith;
        folded = sym e ∙ s.folded ∙ ap (λ n. core (replay (take n log))) seq;
      }

  Synced-next :
      (log : List (Op T.OpKind)) (b : Backend T S) (op : Op T.OpKind)
      → get_elem? log b.applied_seq ≡ some op
      → Synced log b
      → (deliver op b).applied_seq ≡ suc b.applied_seq
      → Synced log (deliver op b)
  Synced-next log b op e s rises = record {
    within = omega (arith, rises, get_elem?-bound log b.applied_seq op e);
    folded =
        core-deliver op b (replay (take b.applied_seq log)) s.folded
        ∙ ap core (sym (replay-take log b.applied_seq op e))
        ∙ ap (λ n. core (replay (take n log))) (sym rises);
  }

  pub Synced-arrive :
      (log : List (Op T.OpKind)) (b : Backend T S) (i : ℕ) (op : Op T.OpKind)
      → IsLog log
      → get_elem? log i ≡ some op
      → Synced log b
      → Synced log (deliver op b)
  Synced-arrive log b i op l e s =
      let outcome = apply_remote_outcome op b (omega (arith, l.bounded, s.within)) in
      let number = l.numbered i op e in
      elim (Bool-cases (i == b.applied_seq)) [
        | inl here ↦
            let same_place : i ≡ b.applied_seq = ground arith in
            Synced-next log b op (subst (λ j. get_elem? log j ≡ some op) same_place e) s
              (ground (arith, outcome, number))
        | inr elsewhere ↦
            let unchanged : deliver op b ≡ b = ground (arith, outcome, number) in rw unchanged s
      ]

  Synced-Event :
      (log : List (Op T.OpKind)) {b c : Backend T S}
      → IsLog log
      → Event log b c
      → Synced log b
      → Synced log c
  unfolding core queue_op drain_pending set_peer apply_remote
  Synced-Event log {b} l (arrive i op e) s = Synced-arrive log b i op l e s
  Synced-Event log {b} l (early op e) s = Synced-same log b _ (rw (e, apply_remote)) s
  Synced-Event log {b} l (queue kind) s = Synced-same log b _ refl s
  Synced-Event log {b} l drain s = Synced-same log b _ refl s
  Synced-Event log {b} l (rekey peer) s = Synced-same log b _ refl s

  pub start-Synced : (log : List (Op T.OpKind)) (peer : PeerId) → Synced log (with_peer T S peer)
  unfolding core replay with_peer fold_steps
  start-Synced log peer = record { within = omega arith; folded = refl }

  -- At the end of any run of deliveries, queueing, draining and re-keying, a replica has applied
  -- exactly a prefix of the log, and its topology, schemas and causal state are the fold of that
  -- prefix; the log is numbered from 1 and shorter than 2^64 - 1.
  pub run-Synced :
      (log : List (Op T.OpKind)) (peer : PeerId) {b : Backend T S}
      → IsLog log
      → Run log peer b
      → Synced log b
  run-Synced log peer l start = start-Synced log peer
  run-Synced log peer l (next r e) = Synced-Event log l e (run-Synced log peer l r)

  -- Two replicas that have applied the same number of ops of one log have equal topologies and
  -- equal schemas, however each received the log (ops lost, repeated, out of order or not yet
  -- numbered) and whatever it queued, sent or re-keyed meanwhile; the log is numbered from 1 and
  -- shorter than 2^64 - 1.
  pub replicas_converge :
      (log : List (Op T.OpKind)) (p q : PeerId) {b c : Backend T S}
      → IsLog log
      → Run log p b
      → Run log q c
      → b.applied_seq ≡ c.applied_seq
      → (b.topology ≡ c.topology) × (b.schemas ≡ c.schemas)
  unfolding core
  replicas_converge log p q {b} {c} l r r' e =
      let s = run-Synced log p l r in
      let s' = run-Synced log q l r' in
      let same_core : core b ≡ core c =
        s.folded ∙ ap (λ n. core (replay (take n log))) e ∙ sym s'.folded in
      (ap (λ (x : Core). x.topology) same_core, ap (λ (x : Core). x.schemas) same_core)

  catch_up_rest :
      (log rest : List (Op T.OpKind)) (b : Backend T S)
      → IsLog log
      → Synced log b
      → drop b.applied_seq log ≡ rest
      → Synced log (fold_steps deliver rest b)
        × ((fold_steps deliver rest b).applied_seq ≡ length log)
  unfolding fold_steps
  catch_up_rest log [] b l s e = (
    s,
    omega (
      arith,
      s.within,
      length-drop b.applied_seq log,
      ap (λ (t : List (Op T.OpKind)). length t) e,
    ),
  )
  catch_up_rest log (op ∷ rest) b l s e =
      let (first, after) = drop-head b.applied_seq log op rest e in
      let number = l.numbered b.applied_seq op first in
      let bound = get_elem?-bound log b.applied_seq op first in
      let outcome = apply_remote_outcome op b (omega (arith, l.bounded)) in
      let rises : (deliver op b).applied_seq ≡ suc b.applied_seq =
        ground (arith, outcome, number) in
      catch_up_rest log rest (deliver op b) l (Synced-arrive log b b.applied_seq op l first s)
        (ap (λ n. drop n log) rises ∙ after)

  -- A synced replica that is sent the rest of the log, in order, stays synced and ends with all of
  -- it applied; the log is numbered from 1 and shorter than 2^64 - 1.
  pub catch_up_complete :
      (log : List (Op T.OpKind)) (b : Backend T S)
      → IsLog log
      → Synced log b
      → Synced log (fold_steps deliver (drop b.applied_seq log) b)
        × ((fold_steps deliver (drop b.applied_seq log) b).applied_seq ≡ length log)
  catch_up_complete log b l s = catch_up_rest log (drop b.applied_seq log) b l s refl
