-- ===== src/Queue/Order.antt =====
-- gateway/src/agents/queue.rs: what each operation leaves in the queues, and the order of delivery.
use ilink_gateway.Prelude.{
  ◌≡◌, inl, inr, refl, ap, List, [], ◌∷◌, ◌++◌, append_assoc, append-nil, arith, if◌then◌else◌,
  Bool-cases,
}
use ilink_gateway.Text.{Text, ◌==◌, eq_iff}
use ilink_gateway.Map.Laws.{lookup-insert, lookup-modify}
use ilink_gateway.Types.{QueuedMessage, MediaItem}
use ilink_gateway.Queue.{
  MessageQueue, queue_of, enqueue, dequeue_all, set_last_media, update_last_media,
}

-- After an enqueue the agent's queue ends with the message, and no other queue has changed.
pub queue_of-enqueue :
    (k j : Text) (msg : QueuedMessage) (q : MessageQueue)
    → queue_of j (enqueue k msg q) ≡ (if k == j then queue_of j q ++ (msg ∷ []) else queue_of j q)
unfolding enqueue
queue_of-enqueue k j msg q =
    ground (arith, lookup-insert k j (queue_of k q ++ (msg ∷ [])) q.queues, eq_iff k j)

-- After a drain the agent's queue is empty, and no other queue has changed.
pub queue_of-dequeue_all :
    (k j : Text) (q : MessageQueue)
    → queue_of j (dequeue_all k q).1 ≡ (if k == j then [] else queue_of j q)
unfolding dequeue_all
queue_of-dequeue_all k j q =
    ground (arith, lookup-modify k j (λ (ms : List QueuedMessage). []) q.queues)

pub queue_of-update_last_media :
    (k j : Text) (media : List MediaItem) (q : MessageQueue)
    → queue_of j (update_last_media k media q)
      ≡ (if k == j then set_last_media media (queue_of j q) else queue_of j q)
unfolding update_last_media queue_of
queue_of-update_last_media k j media q =
    ground (arith, lookup-modify k j (set_last_media media) q.queues)

set_last_media-append :
    (media : List MediaItem) (ms : List QueuedMessage) (m : QueuedMessage)
    → set_last_media media (ms ++ (m ∷ [])) ≡ ms ++ (record m { media = media } ∷ [])
unfolding set_last_media
set_last_media-append media [] m = refl
set_last_media-append media (n ∷ []) m = refl
set_last_media-append media (n ∷ o ∷ ms) m = ap (◌∷◌ n) (set_last_media-append media (o ∷ ms) m)

-- Setting the media right after an enqueue changes the new message alone: it is the same as an
-- enqueue of the message with that media, for every agent's queue.
pub update_last_media-enqueue :
    (k j : Text) (msg : QueuedMessage) (media : List MediaItem) (q : MessageQueue)
    → queue_of j (update_last_media k media (enqueue k msg q))
      ≡ queue_of j (enqueue k (record msg { media = media }) q)
update_last_media-enqueue k j msg media q = ground (
  arith,
  queue_of-update_last_media k j media (enqueue k msg q),
  queue_of-enqueue k j msg q,
  queue_of-enqueue k j (record msg { media = media }) q,
  set_last_media-append media (queue_of j q) msg,
)

-- The calls of the router and of the polling agents, in the order in which they take the lock.
pub data Call : Type 0 where
  push : Text → QueuedMessage → Call
  drain : Text → Call

-- What a run of calls hands to one agent, in order, and the queues that it leaves.
unfoldable pub run : Text → List Call → MessageQueue → List QueuedMessage × MessageQueue
run a [] q = ([], q)
run a (push k m ∷ calls) q = run a calls (enqueue k m q)
run a (drain k ∷ calls) q =
    let (taken, q') = dequeue_all k q in
    let (later, q'') = run a calls q' in if k == a then (taken ++ later, q'') else (later, q'')

-- The messages that the calls push for one agent, in order.
unfoldable pub pushed : Text → List Call → List QueuedMessage
pushed a [] = []
pushed a (push k m ∷ calls) = let rest = pushed a calls in if k == a then m ∷ rest else rest
pushed a (drain k ∷ calls) = pushed a calls

dequeue_all-queue_of : (k : Text) (q : MessageQueue) → (dequeue_all k q).0 ≡ queue_of k q
unfolding dequeue_all
dequeue_all-queue_of k q = refl

-- Whatever the interleaving of pushes and drains, what an agent was handed, followed by what is
-- still queued for it, is what was queued at first followed by what was pushed: each message is
-- delivered once, in order, to its own agent.
pub delivery_exact :
    (a : Text) (calls : List Call) (q : MessageQueue)
    → (run a calls q).0 ++ queue_of a (run a calls q).1 ≡ queue_of a q ++ pushed a calls
unfolding run pushed
delivery_exact a [] q = rw append-nil
delivery_exact a (push k m ∷ calls) q = elim (Bool-cases (k == a)) [
  | inl same ↦
      rw (same, delivery_exact a calls (enqueue k m q), queue_of-enqueue, same, append_assoc)
  | inr other ↦ rw (other, delivery_exact a calls (enqueue k m q), queue_of-enqueue, other)
]
delivery_exact a (drain k ∷ calls) q = elim (Bool-cases (k == a)) [
  | inl same ↦ rw (
    same,
    append_assoc,
    delivery_exact a calls (dequeue_all k q).1,
    queue_of-dequeue_all,
    same,
    dequeue_all-queue_of,
    (eq_iff k a).0 same,
  )
  | inr other ↦ rw (other, delivery_exact a calls (dequeue_all k q).1, queue_of-dequeue_all, other)
]
