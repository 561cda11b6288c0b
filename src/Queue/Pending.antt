-- ===== src/Queue/Pending.antt =====
-- gateway/src/agents/queue.rs: the counts of pending messages.
use ilink_gateway.Prelude.{
  ℕ, ◌+◌, ◌≡◌, sym, ap, not, Option, none, some, List, [], ◌∷◌, ◌++◌, map, arith, length, sum,
  length-append,
}
use ilink_gateway.Text.{Text}
use ilink_gateway.Map.{Map, lookup, insert, modify, values}
use ilink_gateway.Types.{QueuedMessage}
use ilink_gateway.Queue.{
  MessageQueue, queue_of, enqueue, dequeue_all, clear, len, is_empty, has_pending, total_pending,
}

pub len-eq-length : (a : Text) (q : MessageQueue) → len a q ≡ length (queue_of a q)
unfolding len
len-eq-length a q = ground arith

abbrev found : Option (List QueuedMessage) → List QueuedMessage
found none = []
found (some ms) = ms

abbrev total : Map (List QueuedMessage) → ℕ
total m = sum (map length (values m))

total-insert :
    (k : Text) (ms : List QueuedMessage) (m : Map (List QueuedMessage))
    → total (insert k ms m) + length (found (lookup k m)) ≡ total m + length ms
unfolding insert lookup values
total-insert k ms [] = omega arith
total-insert k ms ((j, w) ∷ m) = ground (arith, total-insert k ms m)

total-modify :
    (k : Text) (m : Map (List QueuedMessage))
    → total (modify k (λ ms. []) m) + length (found (lookup k m)) ≡ total m
unfolding modify lookup values
total-modify k [] = omega arith
total-modify k ((j, w) ∷ m) = ground (arith, total-modify k m)

queue_of-found : (k : Text) (q : MessageQueue) → queue_of k q ≡ found (lookup k q.queues)
unfolding queue_of
queue_of-found k q = ground arith

total_pending-enqueue_lem :
    (k : Text) (msg : QueuedMessage) (q : MessageQueue)
    → total_pending (enqueue k msg q) ≡ total_pending q + 1
unfolding total_pending enqueue
total_pending-enqueue_lem k msg q = omega (
  arith,
  total-insert k (queue_of k q ++ (msg ∷ [])) q.queues,
  length-append {0} (queue_of k q) (msg ∷ []),
  ap length (queue_of-found k q),
)

total_pending-dequeue_lem :
    (k : Text) (q : MessageQueue) → total_pending (dequeue_all k q).1 + len k q ≡ total_pending q
unfolding total_pending dequeue_all
total_pending-dequeue_lem k q =
    omega (arith, total-modify k q.queues, len-eq-length k q, ap length (queue_of-found k q))

-- The total grows by one with each enqueue, and a drain or a clear takes off exactly the agent's own
-- count; an agent has pending messages exactly when it is not empty.
pub total_pending_counts :
    (k : Text) (msg : QueuedMessage) (q : MessageQueue)
    → (total_pending (enqueue k msg q) ≡ total_pending q + 1)
      × (total_pending (dequeue_all k q).1 + len k q ≡ total_pending q)
      × (total_pending (clear k q) + len k q ≡ total_pending q)
      × (length (dequeue_all k q).0 ≡ len k q)
      × (has_pending k q ≡ not (is_empty k q))
unfolding clear is_empty has_pending
total_pending_counts k msg q = (
  total_pending-enqueue_lem k msg q,
  total_pending-dequeue_lem k q,
  unfold dequeue_all in total_pending-dequeue_lem k q,
  unfold dequeue_all in sym (len-eq-length k q),
  ground arith,
)
