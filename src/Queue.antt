-- ===== src/Queue.antt =====
-- gateway/src/agents/queue.rs: a FIFO queue of messages for each agent.
pub mod Order
pub mod Pending
use ilink_gateway.Prelude.{ℕ, Bool, none, some, List, [], ◌∷◌, ◌++◌, map, ltb, nat_eq, length, sum}
use ilink_gateway.Text.{Text}
use ilink_gateway.Map.{Map, lookup, insert, modify, values}
use ilink_gateway.Types.{QueuedMessage, MediaItem}

pub record MessageQueue : Type 0 where
  pub queues : Map (List QueuedMessage)

unfoldable pub new : MessageQueue
new = record { queues = [] }

-- The queue of an agent, empty if there is none.
unfoldable pub queue_of : Text → MessageQueue → List QueuedMessage
queue_of agent q = elim (lookup agent q.queues) [ none ↦ [] | some ms ↦ ms ]

-- `queues.entry(agent).or_default().push(msg)`
unfoldable pub enqueue : Text → QueuedMessage → MessageQueue → MessageQueue
unfolding queue_of
enqueue agent msg q = record { queues = insert agent (queue_of agent q ++ (msg ∷ [])) q.queues }

-- `queues.get_mut(agent).map_or_else(Vec::new, |q| std::mem::take(q))`
unfoldable pub dequeue_all : Text → MessageQueue → List QueuedMessage × MessageQueue
unfolding queue_of
dequeue_all agent q = (queue_of agent q, record { queues = modify agent (λ ms. []) q.queues })

unfoldable pub len : Text → MessageQueue → ℕ
unfolding queue_of
len agent q = elim (lookup agent q.queues) [ none ↦ 0 | some ms ↦ length ms ]

unfoldable pub is_empty : Text → MessageQueue → Bool
unfolding len
is_empty agent q = nat_eq (len agent q) 0

unfoldable pub has_pending : Text → MessageQueue → Bool
unfolding len
has_pending agent q = ltb 0 (len agent q)

unfoldable pub total_pending : MessageQueue → ℕ
total_pending q = sum (map length (values q.queues))

unfoldable pub clear : Text → MessageQueue → MessageQueue
clear agent q = record { queues = modify agent (λ ms. []) q.queues }

-- A write through `queue.last_mut()`.
unfoldable pub set_last_media : List MediaItem → List QueuedMessage → List QueuedMessage
set_last_media media [] = []
set_last_media media (m ∷ []) = record m { media = media } ∷ []
set_last_media media (m ∷ n ∷ ms) = m ∷ set_last_media media (n ∷ ms)

unfoldable pub update_last_media : Text → List MediaItem → MessageQueue → MessageQueue
unfolding set_last_media
update_last_media agent media q = record { queues = modify agent (set_last_media media) q.queues }
