-- ===== src/Queue/Transport.antt =====
-- `RuntimeQueue.publish_job`, `dequeue` and `_local_pop` (queue/jobs.py): job ids travel through a
-- Redis list, or through a list in the process where Redis is missing or fails. The encoding of an
-- id as JSON (pydantic) is not modelled: the lists hold the ids. Closing the client after a call is
-- taken not to raise.
pub mod Order
use agent_v.Prelude.{ℕ, ◌+◌, Bool, true, false, Option, none, some, List, [], ◌∷◌, ◌++◌}
use agent_v.World.{World}
use agent_v.World.Rows.{QueueJobRecord}
use agent_v.Exec.{Exec, queue_disabled_error, return, require, modify, ◌>>=◌, ◌>>◌}
use agent_v.Queue.Settings.{QueueSettings}

-- what `rpush` does: there is no transport, the server takes the item, or the client raises, before
-- the server has taken the item or after it
pub data RedisPush : Type 0 where
  unavailable accepts fails fails_late : RedisPush

-- what `blpop` does: there is no transport, the server answers, the wait times out, or the client
-- raises before the server has given an item away
pub data RedisCall : Type 0 where
  unavailable answers times_out errors : RedisCall

push_local : ℕ → World → World
push_local id world = record world { local_items = world.local_items ++ id ∷ [] }

push_redis : ℕ → World → World
push_redis id world = record world { redis_items = world.redis_items ++ id ∷ [] }

-- An `rpush` that raises leaves the id to the fallback list, also where the server has taken it.
push : RedisPush → ℕ → World → World
unfolding push_local push_redis
push accepts id world = push_redis id world
push unavailable id world = push_local id world
push fails id world = push_local id world
push fails_late id world = push_local id (push_redis id world)

unfoldable pub publish_job : QueueSettings → RedisPush → QueueJobRecord → Exec World Unit
unfolding push
publish_job settings redis job = do
  require settings.enabled queue_disabled_error
  modify (push redis job.id)

take_first : List ℕ → Option ℕ × List ℕ
take_first [] = (none, [])
take_first (id ∷ ids) = (some id, ids)

unfoldable pub local_pop : Exec World (Option ℕ)
unfolding take_first
local_pop world =
    let (item, rest) = take_first world.local_items in
    return item (record world { local_items = rest })

redis_pop : Exec World (Option ℕ)
unfolding take_first
redis_pop world =
    let (item, rest) = take_first world.redis_items in
    return item (record world { redis_items = rest })

-- the `blpop` and its handlers
receive : RedisCall → Exec World (Option ℕ)
unfolding local_pop redis_pop
receive unavailable = local_pop
receive answers = redis_pop
receive times_out = return none
receive errors = local_pop

-- `if item is None: item = self._local_pop(…)`
or_local : Option ℕ → Exec World (Option ℕ)
unfolding local_pop
or_local none = local_pop
or_local (some id) = return (some id)

unfoldable pub dequeue : QueueSettings → RedisCall → Exec World (Option ℕ)
unfolding receive or_local
dequeue settings redis = do
  require settings.enabled queue_disabled_error
  item ← receive redis
  or_local item
