-- ===== src/Tests/Agents.antt =====
-- The queues and the registry at concrete inputs.
use ilink_gateway.Prelude.{◌≡◌, ◌≢◌, refl, none, List, [], ◌∷◌, ◌++◌, map, keep}
use ilink_gateway.Text.{Text, ◌==◌, codes}
use ilink_gateway.Map.{lookup, contains, Distinct}
use ilink_gateway.Types.{MediaItem}
use ilink_gateway.Queue.{queue_of, enqueue, dequeue_all}
use ilink_gateway.Queue.Order
use ilink_gateway.Queue.Order.{Call, push, drain, pushed, delivery_exact, update_last_media-enqueue}
use ilink_gateway.Registry.{get, list, is_stale, check_heartbeat}
use ilink_gateway.Registry.Heartbeat.{after_check, check_heartbeat_exact}
use ilink_gateway.Tests.{hermes, zeus, queued, two_queues, two_agents}
use mathlib.Core.Option

abbrev calls : List Call
calls =
    push hermes (queued (codes "x"))
    ∷ drain hermes
    ∷ push zeus (queued (codes "y"))
    ∷ push hermes (queued (codes "z"))
    ∷ []

-- One message was queued, one came and both were taken; the last is still queued.
run-calls : (Order.run hermes calls two_queues).0 ≡ queued (codes "a") ∷ queued (codes "x") ∷ []
unfolding Order.run enqueue dequeue_all lookup ◌==◌ ilink_gateway.Map.insert
    ilink_gateway.Map.modify
run-calls = refl

delivery_exact_example :
    (Order.run hermes calls two_queues).0 ++ queue_of hermes (Order.run hermes calls two_queues).1
    ≡ queue_of hermes two_queues ++ pushed hermes calls
delivery_exact_example = delivery_exact hermes calls two_queues

abbrev image : List MediaItem
image =
    record { media_type = codes "image"; local_path = codes "/tmp/7"; original_name = none } ∷ []

check_heartbeat_exact_example :
    ((j : Text)
      → get j (check_heartbeat 100000 60 two_agents).1
        ≡ Option.map (after_check 100000 60) (get j two_agents))
    × ((check_heartbeat 100000 60 two_agents).0
        ≡ map (λ a. a.name) (keep (is_stale 100000 60) (list two_agents)))
check_heartbeat_exact_example = check_heartbeat_exact 100000 60 two_agents

-- Only the agent that was last seen at 5 s has been silent for more than 60 s.
stale_agents : (check_heartbeat 100000 60 two_agents).0 ≡ hermes ∷ []
unfolding check_heartbeat is_stale
stale_agents = refl

hermes_named : hermes ≢ []
hermes_named e = cc
