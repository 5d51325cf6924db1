-- ===== src/TaskQueue/Local.antt =====
-- task_queue/local_task_queue.go. A channel has a capacity and the arguments that it buffers, and the
-- database is threaded through. The consumers of a queue are steps: one call of consume_task is one
-- turn of the loop of listenForTasks, with what the worker function returned.
pub mod Invariant
pub mod Storage
pub mod Examples
use newrr.Common.{
  ℕ, Bool, true, false, not, ltb, List, [], ◌∷◌, ◌++◌, length, Option, none, some, Result, ok, err,
  Error, failure, external, Text, text, text_eq, Map, lookup, insert, if◌then◌else◌, map, ◌>>=◌,
}
use newrr.Common.Integers.{ℤ, pos, negsuc, is_zero, same_int}
use newrr.Common.Run.{Run, Outcome, returns, panics, blocks, continue}
use newrr.Core.Database.{Table}
use newrr.TaskQueue.Inspect.{FunctionValue, FunctionMetadata, inspect_function}
use newrr.TaskQueue.Persist.{
  EnqueuedTask, add_task_to_db, remove_task_from_db, remote_tasks_from_db, get_tasks_from_db,
}

-- A channel with its capacity.
pub record Channel (A : Type 0) : Type 0 where
  pub capacity : ℕ
  pub buffer : List A

-- make(chan ArgumentType, size), which panics at a negative size
abbrev pub make_channel : {A : Type 0} → ℤ → Option (Channel A)
make_channel (pos n) = some (record { capacity = n; buffer = [] })
make_channel (negsuc n) = none

-- localTaskQueue and the database
pub record TaskQueue (D A : Type 0) : Type 0 where
  pub functions : Map FunctionMetadata
  pub channels : Map (Channel A)
  pub max_messages_per_queue : ℤ
  pub no_of_workers_per_queue : ℤ
  pub db : D

-- Arguments of tasks: their type's name, and their JSON.
pub record Codec (A : Type 0) : Type 0 where
  pub type_name : A → Text
  pub marshal : A → Result Text
  pub unmarshal : Text → Text → Result A

-- len(l.queueToChannelMapping[queueName]), which is 0 for a missing key
abbrev pub buffered : {A : Type 0} → Option (Channel A) → ℕ
buffered none = 0
buffered (some c) = length c.buffer

-- A call whose error is only logged.
abbrev pub forget : {S A : Type 0} → Outcome S A → Outcome S (Unit {0})
forget (returns _ p) = returns tt p
forget (panics p) = panics p
forget (blocks p) = blocks p

module _ {D A : Type 0} where
  -- createLocalTaskQueueClient
  unfoldable pub create_local_task_queue_client : ℤ → ℤ → D → Result (TaskQueue D A)
  create_local_task_queue_client workers messages d =
      if is_zero messages
      then err (failure "max messages per queue cannot be zero")
      else ok (record {
        functions = [];
        channels = [];
        max_messages_per_queue = messages;
        no_of_workers_per_queue = workers;
        db = d;
      })

  -- getFunction, getChannel
  unfoldable pub get_function : Text → TaskQueue D A → Result FunctionMetadata
  get_function queue q = elim (lookup queue q.functions) [
    | none ↦ err (failure "no function registered for this queue")
    | some f ↦ ok f
  ]

  unfoldable pub get_channel : Text → TaskQueue D A → Result (Channel A)
  get_channel queue q = elim (lookup queue q.channels) [
    | none ↦ err (failure "no channel registered for this queue")
    | some c ↦ ok c
  ]

  -- l.queueToChannelMapping[queueName] <- argument: a send waits on a full channel for room, and on
  -- a nil channel for ever.
  abbrev pub send : Text → A → Option (Channel A) → Run (TaskQueue D A) (Result (Unit {0}))
  send queue argument none q = blocks q
  send queue argument (some c) q =
      if ltb (length c.buffer) c.capacity
      then returns (ok tt) (record q {
        channels = insert queue (record c { buffer = c.buffer ++ argument ∷ [] }) q.channels;
      })
      else blocks q

module _ {D A : Type 0} (tasks : Table D EnqueuedTask) (hash_of : Text → Text)
    (codec : Codec A) where
  -- What follows the insertion in the database.
  abbrev pub enqueue_added :
      Text → A → D × Result (Unit {0}) → Run (TaskQueue D A) (Result (Unit {0}))
  enqueue_added queue argument (e, err c) q = returns (err c) (record q { db = e })
  enqueue_added queue argument (e, ok _) q =
      let p = record q { db = e } in
      if same_int (pos (buffered (lookup queue q.channels))) q.max_messages_per_queue
      then returns (err (failure "queue is full, cannot enqueue task")) p
      else send queue argument (lookup queue q.channels) p

  abbrev pub enqueue_json : Text → A → Result Text → Run (TaskQueue D A) (Result (Unit {0}))
  enqueue_json queue argument (err c) q = returns (err c) q
  enqueue_json queue argument (ok body) q =
      enqueue_added queue argument (add_task_to_db tasks hash_of queue body q.db) q

  abbrev pub enqueue_for :
      Text → A → Result FunctionMetadata → Run (TaskQueue D A) (Result (Unit {0}))
  enqueue_for queue argument (err c) q = returns (err c) q
  enqueue_for queue argument (ok f) q =
      if not (text_eq f.argument_type_name (codec.type_name argument))
      then returns
          (err (
            external (
              text "invalid argument type for this queue, expected ["
              ++ f.argument_type_name
              ++ text "]")))
          q
      else enqueue_json queue argument (codec.marshal argument) q

  -- EnqueueTask
  unfoldable pub enqueue_task : Text → A → Run (TaskQueue D A) (Result (Unit {0}))
  unfolding get_function
  enqueue_task queue argument q = enqueue_for queue argument (get_function queue q) q

  -- The body of the inner loop of EnqueueProcessingQueueExpiredTask: errors are only logged.
  abbrev pub enqueue_parsed : Text → Result A → Run (TaskQueue D A) (Unit {0})
  enqueue_parsed queue (err e) q = returns tt q
  enqueue_parsed queue (ok argument) q = forget (enqueue_task queue argument q)

  abbrev pub enqueue_stored :
      Text → EnqueuedTask → Result FunctionMetadata → Run (TaskQueue D A) (Unit {0})
  enqueue_stored queue task (err e) q = returns tt q
  enqueue_stored queue task (ok f) q =
      enqueue_parsed queue (codec.unmarshal f.argument_type_name task.body) q

  abbrev pub enqueue_tasks : Text → List EnqueuedTask → Run (TaskQueue D A) (Unit {0})
  enqueue_tasks queue [] q = returns tt q
  enqueue_tasks queue (task ∷ rest) q =
      continue (enqueue_stored queue task (get_function queue q) q) (λ _. enqueue_tasks queue rest)

  abbrev pub enqueue_found : Text → D × Result (List EnqueuedTask) → Run (TaskQueue D A) (Unit {0})
  enqueue_found queue (e, err c) q = returns tt (record q { db = e })
  enqueue_found queue (e, ok ts) q = enqueue_tasks queue ts (record q { db = e })

  abbrev pub enqueue_expired : Map (Channel A) → Run (TaskQueue D A) (Unit {0})
  enqueue_expired [] q = returns tt q
  enqueue_expired ((queue, _) ∷ rest) q =
      continue (enqueue_found queue (get_tasks_from_db tasks queue true q.db) q)
        (λ _. enqueue_expired rest)

  -- EnqueueProcessingQueueExpiredTask, over the queues in the order of the list
  unfoldable pub enqueue_processing_queue_expired_task : Run (TaskQueue D A) (Result (Unit {0}))
  unfolding enqueue_task
  enqueue_processing_queue_expired_task q =
      continue (enqueue_expired q.channels q) (λ _ p. returns (ok tt) p)

  abbrev pub body_of : Result Text → Text
  body_of (ok body) = body
  body_of (err e) = []

  -- The turn of the loop of listenForTasks that takes the first argument of a channel.
  abbrev pub consume_from :
      Text → ℕ → List A → Result (Unit {0}) → TaskQueue D A → Option (TaskQueue D A)
  consume_from queue size [] result q = none
  consume_from queue size (argument ∷ rest) (err e) q =
      some (record q {
        channels = insert queue (record { capacity = size; buffer = rest }) q.channels;
      })
  consume_from queue size (argument ∷ rest) (ok _) q = some (record q {
    channels = insert queue (record { capacity = size; buffer = rest }) q.channels;
    db = (remove_task_from_db tasks hash_of queue (body_of (codec.marshal argument)) q.db).0;
  })

  -- One turn, or none where the channel has nothing to take.
  unfoldable pub consume_task : Text → Result (Unit {0}) → TaskQueue D A → Option (TaskQueue D A)
  unfolding get_channel
  consume_task queue result q = elim (get_channel queue q) [
    | err e ↦ none
    | ok c ↦ consume_from queue c.capacity c.buffer result q
  ]

  -- PurgeQueue
  unfoldable pub purge_queue : Text → TaskQueue D A → TaskQueue D A × Result (Unit {0})
  purge_queue queue q =
      let (e, result) = remote_tasks_from_db tasks queue q.db in (record q { db = e }, result)

  -- ListMessages
  unfoldable pub list_messages : Text → TaskQueue D A → Result (List Text)
  list_messages queue q =
      (get_tasks_from_db tasks queue false q.db).1 >>= λ ts. ok (map (λ t. t.body) ts)

module _ {D A : Type 0} where
  -- Where make panics, the function is registered already, and the queue has no channel.
  abbrev pub register_made :
      Text → FunctionMetadata → Option (Channel A) → Run (TaskQueue D A) (Result (Unit {0}))
  register_made queue f none q = panics (record q { functions = insert queue f q.functions })
  register_made queue f (some c) q =
      returns (ok tt)
        (record q { functions = insert queue f q.functions; channels = insert queue c q.channels })

  abbrev pub register_inspected :
      Text → Option (Result FunctionMetadata) → Run (TaskQueue D A) (Result (Unit {0}))
  register_inspected queue none q = panics q
  register_inspected queue (some (err e)) q = returns (err e) q
  register_inspected queue (some (ok f)) q =
      register_made queue f (make_channel q.max_messages_per_queue) q

  abbrev pub register_new :
      Text
      → Option FunctionValue
      → Option FunctionMetadata
      → Run (TaskQueue D A) (Result (Unit {0}))
  register_new queue function (some f) q =
      returns
        (err (
          external
            (text "already a function [" ++ f.function_name ++ text "] registered for this queue")))
        q
  register_new queue function none q = register_inspected queue (inspect_function function) q

  -- RegisterFunction; the deferred unlocks run also when it panics.
  unfoldable pub register_function :
      Text → Option FunctionValue → Run (TaskQueue D A) (Result (Unit {0}))
  register_function queue function q = register_new queue function (lookup queue q.functions) q
