-- ===== src/ProxyQueue/Steps.antt =====
-- The interleavings of the scripts of internal/jobs/queue/proxy: each script is one step of Redis, taken at
-- a time of the clock that the workers share, which does not go back.
use magpie_backend.Prelude.{ℕ, ◌+◌, ◌≤◌, Option, List, [], none, arith, find}
use magpie_backend.ProxyQueue.{
  Store, set_payload, drop_member, processing_lease, pop, complete, renew, remove, refresh_heads,
}
use magpie_backend.ProxyQueue.Bulk.{add, requeue_batch}
use magpie_backend.ProxyQueue.Migration.{migrate}
use magpie_backend.ProxyQueue.Migrating.{migrate-IsIndexed}
use magpie_backend.ProxyQueue.Heads.{IsIndexed}
use magpie_backend.ProxyQueue.Popping.{drop-IsIndexed, pop-IsIndexed}
use magpie_backend.ProxyQueue.Index.{
  complete-IsIndexed, renew-IsIndexed, remove-IsIndexed, set_payload-IsIndexed,
  refresh_heads-IsIndexed,
}
use magpie_backend.ProxyQueue.BulkIndex.{add-IsIndexed, requeue_batch-IsIndexed}

-- The margin of `RenewLeaseIfNeeded`, two minutes.
abbrev pub renewal_margin : ℕ
renewal_margin = 120000

-- One script, or one command of the pipeline of RemoveFromQueue; a lease is renewed as `RenewLeaseIfNeeded` does, when it ends within the margin.
pub data Step (now : ℕ) : Store → Store → Type 0 where
  popped : (st : Store) → Step now st (pop now processing_lease st).1
  completed :
      (merge : ℕ → ℕ → ℕ → ℕ) (queue old_queue m expected next : ℕ) (payload snapshot : Option ℕ)
      (st : Store)
      → Step now st (complete merge queue old_queue m expected next payload snapshot st).1
  renewed :
      (queue m expected : ℕ) (st : Store)
      → expected ≤ now + renewal_margin
      → Step now st (renew queue m expected now (now + processing_lease) st).1
  removed :
      (queue m expected snapshot : ℕ) (st : Store)
      → Step now st (remove queue m expected snapshot st).1
  added :
      (keys : List ℕ) (target m due payload : ℕ) (st : Store)
      → Step now st (add keys target m due payload st)
  requeued :
      (queue : ℕ) (args : List (ℕ × ℕ)) (st : Store) → Step now st (requeue_batch queue args st).1
  moved :
      (merge : Option ℕ → Option ℕ) (keys : List ℕ)
      (old_queue target old_member m expected normalized source : ℕ) (st : Store)
      → Step now st
          (migrate merge keys old_queue target old_member m expected now normalized source st).1
  unqueued : (queue m : ℕ) (st : Store) → Step now st (drop_member queue m st)
  deleted : (m : ℕ) (st : Store) → Step now st (set_payload m none st)
  refreshed : (queues : List ℕ) (st : Store) → Step now st (refresh_heads queues st)

-- The steps from one time to a later one.
pub data Run (start : ℕ) (first : Store) : ℕ → Store → Type 0 where
  stay : Run start first start first
  next :
      {now later : ℕ} {st st' : Store}
      → Run start first now st
      → now ≤ later
      → Step later st st'
      → Run start first later st'

Step-IsIndexed : (now : ℕ) {st st' : Store} → Step now st st' → IsIndexed st → IsIndexed st'
Step-IsIndexed now (popped st) h = pop-IsIndexed now processing_lease st h
Step-IsIndexed now (completed merge queue old_queue m expected n payload snapshot st) h =
    complete-IsIndexed merge queue old_queue m expected n payload snapshot st h
Step-IsIndexed now (renewed queue m expected st soon) h =
    renew-IsIndexed queue m expected now (now + processing_lease) st (omega arith) h
Step-IsIndexed now (removed queue m expected snapshot st) h =
    remove-IsIndexed queue m expected snapshot st h
Step-IsIndexed now (added keys target m due payload st) h =
    add-IsIndexed keys target m due payload st h
Step-IsIndexed now (requeued queue args st) h = requeue_batch-IsIndexed queue args st h
Step-IsIndexed now (moved merge keys old_queue target old_member m expected normalized source st)
      h =
    migrate-IsIndexed merge keys old_queue target old_member m expected now normalized source st h
Step-IsIndexed now (unqueued queue m st) h = drop-IsIndexed queue m st h
Step-IsIndexed now (deleted m st) h = set_payload-IsIndexed m none st h
Step-IsIndexed now (refreshed queues st) h = refresh_heads-IsIndexed queues st h

-- However the scripts of any number of workers interleave, a store whose queues are indexed stays so: each
-- queue that has a member has an entry in the heads, no later than its earliest member, and no set has
-- two entries for a member.
pub Run-IsIndexed :
    (start : ℕ) (first : Store) {now : ℕ} {st : Store}
    → IsIndexed first
    → Run start first now st
    → IsIndexed st
Run-IsIndexed start first h stay = h
Run-IsIndexed start first h (next {now} {later} {st} {st'} run after step) =
    Step-IsIndexed later step (Run-IsIndexed start first h run)

abbrev pub empty_store : Store
empty_store = record { heads = []; queues = λ k. []; payloads = λ k. none }

pub empty_store-IsIndexed : IsIndexed empty_store
unfolding IsIndexed find
empty_store-IsIndexed = ((tt, λ k. tt), λ k m s e. absurd (ground arith))
