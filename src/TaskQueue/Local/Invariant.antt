-- ===== src/TaskQueue/Local/Invariant.antt =====
-- What the calls of the local queue keep: they never wait for ever.
use newrr.Common.{
  arith, ℕ, true, ltb, sym, ◌∙◌, subst, ◌≤◌, ◌<◌, ◌≡◌, ◌≢◌, refl, List, [], ◌∷◌, ◌++◌, length,
  length-append, Option, none, some, Result, ok, err, failure, Text, text_eq, Map, lookup, insert,
  lookup-insert, Option-cases, Bool-cases, inl, inr, ap,
}
use newrr.Common.Integers.{pos, same_int}
use newrr.Common.Run.{Run, Outcome, returns, continue}
use newrr.Core.Database.{Table}
use newrr.TaskQueue.Inspect.{FunctionValue, FunctionMetadata, inspect_function}
use newrr.TaskQueue.Persist.{EnqueuedTask, add_task_to_db, get_tasks_from_db}
use newrr.TaskQueue.Local.{
  TaskQueue, Channel, Codec, enqueue_task, enqueue_for, enqueue_json, enqueue_added, get_function,
  get_channel, consume_task, consume_from, register_function, register_new, register_inspected,
  enqueue_processing_queue_expired_task, enqueue_expired, enqueue_found, enqueue_tasks,
  enqueue_stored, enqueue_parsed, forget, purge_queue, make_channel,
}

module _ {D A : Type 0} where
  -- A queue has a channel if it has a function, and every channel has the capacity that the client
  -- allows, which is not zero, and buffers no more than that.
  pub record WellFormed (q : TaskQueue D A) : Type 0 where
    pub size : ℕ
    pub is_size : q.max_messages_per_queue ≡ pos size
    pub room : 0 < size
    pub channel_of :
        (queue : Text) → lookup queue q.channels ≡ none → lookup queue q.functions ≡ none
    pub fits :
        (queue : Text) (c : Channel A)
        → lookup queue q.channels ≡ some c
        → (c.capacity ≡ size) × (length c.buffer ≤ size)

  -- The database apart.
  with_db-WellFormed : (e : D) (q : TaskQueue D A) → WellFormed q → WellFormed (record q { db = e })
  with_db-WellFormed e q w = record {
    size = w.size;
    is_size = w.is_size;
    room = w.room;
    channel_of = w.channel_of;
    fits = w.fits;
  }

  -- A channel that fits, in the place of another.
  replaced_fits :
      (queue : Text) (c : Channel A) (q : TaskQueue D A) (w : WellFormed q)
      → c.capacity ≡ w.size
      → length c.buffer ≤ w.size
      → (k : Text) (b : Channel A) → lookup k (insert queue c q.channels) ≡ some b
      → (b.capacity ≡ w.size) × (length b.buffer ≤ w.size)
  replaced_fits queue c q w h l k b e =
      let f = sym (lookup-insert queue k c q.channels) ∙ e in
      elim (Bool-cases (text_eq queue k)) [
        | inl t ↦
            let g = (rw t at f) in
            subst (λ z. (z.capacity ≡ w.size) × (length z.buffer ≤ w.size)) (some_inj c b g) (h, l)
        | inr t ↦ w.fits k b (rw t at f)
      ]
    where
      some_inj : (x y : Channel A) → some x ≡ some y → x ≡ y
      some_inj x y z = cc

  with_channel-WellFormed :
      (queue : Text) (c : Channel A) (q : TaskQueue D A) (w : WellFormed q)
      → c.capacity ≡ w.size
      → length c.buffer ≤ w.size
      → WellFormed (record q { channels = insert queue c q.channels })
  with_channel-WellFormed queue c q w h l = record {
    size = w.size;
    is_size = w.is_size;
    room = w.room;
    channel_of = λ k e. ground (arith, w.channel_of k, lookup-insert queue k c q.channels);
    fits = replaced_fits queue c q w h l;
  }

  -- A call that returns, and to a state that satisfies `P`.
  pub data Returns {B : Type 0} (P : TaskQueue D A → Type 0)
      : Outcome (TaskQueue D A) B → Type 0 where
    returned : (b : B) (q : TaskQueue D A) → P q → Returns P (returns b q)

module _ {D A : Type 0} (tasks : Table D EnqueuedTask) (hash_of : Text → Text)
    (codec : Codec A) where
  added-WellFormed :
      (queue : Text) (argument : A) (z : D × Result (Unit {0})) (q : TaskQueue D A)
      (f : FunctionMetadata)
      → lookup queue q.functions ≡ some f
      → WellFormed q
      → Returns WellFormed (enqueue_added tasks hash_of codec queue argument z q)
  added-WellFormed queue argument (e, err c) q f k w =
      returned (err c) (record q { db = e }) (with_db-WellFormed e q w)
  added-WellFormed queue argument (e, ok _) q f k w =
      elim (Option-cases (lookup queue q.channels)) [
        | inl n ↦ absurd (ground (arith, w.channel_of queue n))
        | inr (c, n) ↦
            let g = w.fits queue c n in
            elim (Bool-cases (same_int (pos (length c.buffer)) q.max_messages_per_queue)) [
              | inl t ↦
                  rw (n, t)
                    (returned (err (failure "queue is full, cannot enqueue task"))
                      (record q { db = e }) (with_db-WellFormed e q w))
              | inr t ↦
                  let longer = record c { buffer = c.buffer ++ argument ∷ [] } in
                  let other = (rw w.is_size at t) in
                  let short : ltb (length c.buffer) c.capacity ≡ true = ground (arith, g, other) in
                  rw (n, t, short)
                    (returned (ok tt)
                      (record q { db = e; channels = insert queue longer q.channels })
                      (with_db-WellFormed e (record q { channels = insert queue longer q.channels })
                        (with_channel-WellFormed queue longer q w g.0
                          (ground (arith, g, other, length-append c.buffer (argument ∷ []))))))
            ]
      ]

  json-WellFormed :
      (queue : Text) (argument : A) (z : Result Text) (q : TaskQueue D A) (f : FunctionMetadata)
      → lookup queue q.functions ≡ some f
      → WellFormed q
      → Returns WellFormed (enqueue_json tasks hash_of codec queue argument z q)
  json-WellFormed queue argument (err c) q f k w = returned (err c) q w
  json-WellFormed queue argument (ok body) q f k w =
      added-WellFormed queue argument (add_task_to_db tasks hash_of queue body q.db) q f k w

  get_function-ok :
      (queue : Text) (q : TaskQueue D A) (f : FunctionMetadata)
      → get_function queue q ≡ ok f
      → lookup queue q.functions ≡ some f
  unfolding get_function
  get_function-ok queue q f h = elim (Option-cases (lookup queue q.functions)) [
    | inl n ↦ cc (rw (n, get_function) at h)
    | inr (g, n) ↦ ok_inj g f (rw (n, get_function) at h) n
  ]
    where
      ok_inj :
          (g h : FunctionMetadata)
          → ok g ≡ ok h
          → lookup queue q.functions ≡ some g
          → lookup queue q.functions ≡ some h
      ok_inj g h e n = ground (arith, e, n)

  for-WellFormed :
      (queue : Text) (argument : A) (z : Result FunctionMetadata) (q : TaskQueue D A)
      → get_function queue q ≡ z
      → WellFormed q
      → Returns WellFormed (enqueue_for tasks hash_of codec queue argument z q)
  for-WellFormed queue argument (err c) q h w = returned (err c) q w
  for-WellFormed queue argument (ok f) q h w =
      elim (Bool-cases (text_eq f.argument_type_name (codec.type_name argument))) [
        | inl t ↦ rw t (
            json-WellFormed queue argument (codec.marshal argument) q f
              (get_function-ok queue q f h) w)
        | inr t ↦ rw t (returned _ q w)
      ]

  -- EnqueueTask of a well-formed client returns, with or without an error, and never waits for room
  -- in a channel, and the client is well formed after it.
  enqueue_task-Returns :
      (queue : Text) (argument : A) (q : TaskQueue D A)
      → WellFormed q
      → Returns WellFormed (enqueue_task tasks hash_of codec queue argument q)
  unfolding enqueue_task
  enqueue_task-Returns queue argument q w =
      for-WellFormed queue argument (get_function queue q) q refl w

  forgotten :
      (z : Outcome (TaskQueue D A) (Result (Unit {0})))
      → Returns WellFormed z
      → Returns WellFormed (forget z)
  forgotten z (returned b q w) = returned tt q w

  parsed-Returns :
      (queue : Text) (z : Result A) (q : TaskQueue D A)
      → WellFormed q
      → Returns WellFormed (enqueue_parsed tasks hash_of codec queue z q)
  parsed-Returns queue (err e) q w = returned tt q w
  parsed-Returns queue (ok argument) q w =
      forgotten (enqueue_task tasks hash_of codec queue argument q)
        (enqueue_task-Returns queue argument q w)

  stored-Returns :
      (queue : Text) (task : EnqueuedTask) (z : Result FunctionMetadata) (q : TaskQueue D A)
      → WellFormed q
      → Returns WellFormed (enqueue_stored tasks hash_of codec queue task z q)
  stored-Returns queue task (err e) q w = returned tt q w
  stored-Returns queue task (ok f) q w =
      parsed-Returns queue (codec.unmarshal f.argument_type_name task.body) q w

  -- One call after another.
  continue-Returns :
      (z : Outcome (TaskQueue D A) (Unit {0})) (next : Run (TaskQueue D A) (Unit {0}))
      → Returns WellFormed z
      → ((q : TaskQueue D A) → WellFormed q → Returns WellFormed (next q))
      → Returns WellFormed (continue z (λ _. next))
  continue-Returns z next (returned b q w) h = h q w

  tasks-Returns :
      (queue : Text) (ts : List EnqueuedTask) (q : TaskQueue D A)
      → WellFormed q
      → Returns WellFormed (enqueue_tasks tasks hash_of codec queue ts q)
  tasks-Returns queue [] q w = returned tt q w
  tasks-Returns queue (task ∷ rest) q w =
      continue-Returns (enqueue_stored tasks hash_of codec queue task (get_function queue q) q)
        (enqueue_tasks tasks hash_of codec queue rest)
        (stored-Returns queue task (get_function queue q) q w) (tasks-Returns queue rest)

  found-Returns :
      (queue : Text) (z : D × Result (List EnqueuedTask)) (q : TaskQueue D A)
      → WellFormed q
      → Returns WellFormed (enqueue_found tasks hash_of codec queue z q)
  found-Returns queue (e, err c) q w = returned tt (record q { db = e }) (with_db-WellFormed e q w)
  found-Returns queue (e, ok ts) q w =
      tasks-Returns queue ts (record q { db = e }) (with_db-WellFormed e q w)

  expired-Returns :
      (m : Map (Channel A)) (q : TaskQueue D A)
      → WellFormed q
      → Returns WellFormed (enqueue_expired tasks hash_of codec m q)
  expired-Returns [] q w = returned tt q w
  expired-Returns ((queue, _) ∷ rest) q w =
      continue-Returns
        (enqueue_found tasks hash_of codec queue (get_tasks_from_db tasks queue true q.db) q)
        (enqueue_expired tasks hash_of codec rest)
        (found-Returns queue (get_tasks_from_db tasks queue true q.db) q w) (expired-Returns rest)

  -- The state before a turn that finds nothing to take stays.
  abbrev pub or_same : Option (TaskQueue D A) → TaskQueue D A → TaskQueue D A
  or_same none q = q
  or_same (some p) q = p

  finished :
      (z : Outcome (TaskQueue D A) (Unit {0}))
      → Returns WellFormed z
      → Returns WellFormed (forget (continue z (λ _ p. returns (ok (tt {0})) p)))
  finished z (returned b q w) = returned tt q w

  consumed_from-WellFormed :
      (queue : Text) (n : ℕ) (c : List A) (result : Result (Unit {0})) (q : TaskQueue D A)
      (w : WellFormed q)
      → n ≡ w.size
      → length c ≤ w.size
      → WellFormed (or_same (consume_from tasks hash_of codec queue n c result q) q)
  consumed_from-WellFormed queue n [] result q w h l = w
  consumed_from-WellFormed queue n (argument ∷ rest) (err e) q w h l =
      with_channel-WellFormed queue (record { capacity = n; buffer = rest }) q w h (omega arith)
  consumed_from-WellFormed queue n (argument ∷ rest) (ok _) q w h l =
      let c : Channel A = record { capacity = n; buffer = rest } in
      with_db-WellFormed _ (record q { channels = insert queue c q.channels })
        (with_channel-WellFormed queue c q w h (omega arith))

  consumed-WellFormed :
      (queue : Text) (result : Result (Unit {0})) (q : TaskQueue D A)
      → WellFormed q
      → WellFormed (or_same (consume_task tasks hash_of codec queue result q) q)
  unfolding consume_task
  consumed-WellFormed queue result q w = elim (Option-cases (lookup queue q.channels)) [
    | inl n ↦ rw (n, or_same, get_channel) w
    | inr (c, n) ↦
        let g = w.fits queue c n in
        rw (n, or_same, get_channel)
          (consumed_from-WellFormed queue c.capacity c.buffer result q w g.0 g.1)
  ]

  -- The calls of the client, with what a worker function returned for a consumer's turn.
  pub data Call : Type 0 where
    enqueues : Text → A → Call
    consumes : Text → Result (Unit {0}) → Call
    registers : Text → Option FunctionValue → Call
    purges : Text → Call
    requeues : Call

  inspected-Returns :
      (queue : Text) (z : Option (Result FunctionMetadata)) (q : TaskQueue D A)
      → z ≢ none
      → WellFormed q
      → Returns WellFormed (register_inspected queue z q)
  inspected-Returns queue none q n w = absurd (n refl)
  inspected-Returns queue (some (err e)) q n w = returned (err e) q w
  inspected-Returns queue (some (ok f)) q n w =
      let c : Channel A = record { capacity = w.size; buffer = [] } in
      let made : make_channel q.max_messages_per_queue ≡ some c = ap make_channel w.is_size in
      rw made (
        returned (ok tt) _ (record {
          size = w.size;
          is_size = w.is_size;
          room = w.room;
          channel_of = λ k e. ground (
            arith,
            w.channel_of k,
            lookup-insert queue k c q.channels,
            lookup-insert queue k f q.functions,
          );
          fits = replaced_fits queue c q w refl (omega arith);
        }))

  new-Returns :
      (queue : Text) (function : Option FunctionValue) (o : Option FunctionMetadata)
      (q : TaskQueue D A)
      → inspect_function function ≢ none
      → WellFormed q
      → Returns WellFormed (register_new queue function o q)
  new-Returns queue function (some f) q n w = returned _ q w
  new-Returns queue function none q n w = inspected-Returns queue (inspect_function function) q n w

  registered-Returns :
      (queue : Text) (function : Option FunctionValue) (q : TaskQueue D A)
      → inspect_function function ≢ none
      → WellFormed q
      → Returns WellFormed (register_function queue function q)
  unfolding register_function
  registered-Returns queue function q n w =
      new-Returns queue function (lookup queue q.functions) q n w

  -- Functions whose names the inspection can look at: it panics at an empty one.
  abbrev pub Inspectable : Call → Type 0
  Inspectable (registers queue function) = inspect_function function ≢ none
  Inspectable _ = Unit

  abbrev pub call : Call → Run (TaskQueue D A) (Unit {0})
  call (enqueues queue argument) q = forget (enqueue_task tasks hash_of codec queue argument q)
  call (consumes queue result) q =
      returns tt (or_same (consume_task tasks hash_of codec queue result q) q)
  call (registers queue function) q = forget (register_function queue function q)
  call (purges queue) q = returns tt (purge_queue tasks hash_of codec queue q).0
  call requeues q = forget (enqueue_processing_queue_expired_task tasks hash_of codec q)

  -- Every call of a well-formed client returns, with or without an error, and never waits for room
  -- in a channel; the client is well formed after it: a queue with a function has a channel, every
  -- channel has the capacity that the client allows, which is above zero, and no channel buffers
  -- more. A function to register has names that are not empty.
  pub task_call-Returns :
      (c : Call) (q : TaskQueue D A) → Inspectable c → WellFormed q → Returns WellFormed (call c q)
  unfolding enqueue_processing_queue_expired_task purge_queue
  task_call-Returns (enqueues queue argument) q n w =
      forgotten (enqueue_task tasks hash_of codec queue argument q)
        (enqueue_task-Returns queue argument q w)
  task_call-Returns (consumes queue result) q n w =
      returned tt _ (consumed-WellFormed queue result q w)
  task_call-Returns (registers queue function) q n w =
      forgotten (register_function queue function q) (registered-Returns queue function q n w)
  task_call-Returns (purges queue) q n w = returned tt _ (with_db-WellFormed _ q w)
  task_call-Returns requeues q n w =
      finished (enqueue_expired tasks hash_of codec q.channels q) (expired-Returns q.channels q w)
