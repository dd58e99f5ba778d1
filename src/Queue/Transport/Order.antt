-- ===== src/Queue/Transport/Order.antt =====
-- The job ids that wait in the lists of `publish_job` and `dequeue` (queue/jobs.py).
use agent_v.Prelude.{
  ℕ, suc, ◌+◌, ◌*◌, true, ◌≡◌, Option, none, some, List, [], ◌∷◌, ◌++◌, arith, ◌==◌, if◌then◌else◌,
}
use agent_v.World.{World}
use agent_v.World.Rows.{QueueJobRecord}
use agent_v.Exec.{ok}
use agent_v.Queue.Settings.{QueueSettings}
use agent_v.Queue.Transport.{RedisCall, RedisPush, fails_late, publish_job, dequeue}

-- how often an id is waiting in a list
abbrev pub count : ℕ → List ℕ → ℕ
count id [] = 0
count id (x ∷ xs) = if x == id then suc (count id xs) else count id xs

unfoldable pub waiting : ℕ → World → ℕ
waiting id world = count id world.redis_items + count id world.local_items

count-append : (id : ℕ) (xs ys : List ℕ) → count id (xs ++ ys) ≡ count id xs + count id ys
count-append id [] ys = omega arith
count-append id (x ∷ xs) ys = ground (arith, count-append id xs ys)

abbrev one_if : ℕ → Option ℕ → ℕ
one_if id none = 0
one_if id (some x) = if x == id then 1 else 0

-- how many lists a publication reaches
abbrev pub copies : RedisPush → ℕ
copies fails_late = 2
copies _ = 1

-- With the queue enabled, publishing returns. The job's own id then waits once more, or twice more
-- if the server took it and the client raised all the same; every other id waits as often as before.
pub waiting-publish_job :
    (settings : QueueSettings) (redis : RedisPush) (job : QueueJobRecord) (world : World) (id : ℕ)
    → settings.enabled ≡ true
    → ((publish_job settings redis job world).0 ≡ ok tt)
      × (waiting id (publish_job settings redis job world).1
          ≡ waiting id world + copies redis * one_if id (some job.id))
unfolding publish_job waiting
waiting-publish_job settings RedisPush.accepts job world id on =
    ground (arith, count-append id world.redis_items (job.id ∷ []))
waiting-publish_job settings RedisPush.unavailable job world id on =
    ground (arith, count-append id world.local_items (job.id ∷ []))
waiting-publish_job settings RedisPush.fails job world id on =
    ground (arith, count-append id world.local_items (job.id ∷ []))
waiting-publish_job settings RedisPush.fails_late job world id on = ground (
  arith,
  count-append id world.redis_items (job.id ∷ []),
  count-append id world.local_items (job.id ∷ []),
)

abbrev pub received : (settings : QueueSettings) (redis : RedisCall) → World → Option ℕ
received settings redis world = elim (dequeue settings redis world).0 [ ok item ↦ item | _ ↦ none ]
