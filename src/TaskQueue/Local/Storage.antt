-- ===== src/TaskQueue/Local/Storage.antt =====
-- What EnqueueTask leaves in the database and in the channel.
use newrr.Common.{
  arith, ℕ, Bool, true, false, ltb, ◌&&◌, ◌≤◌, ◌≡◌, refl, sym, subst, [], ◌∷◌, ◌++◌, length, Option,
  some, Result, ok, err, Error, failure, external, record_not_found, Text, text_eq, text_eq_refl,
  lookup, lookup-insert, Result-cases, Bool-cases, inl, inr, count,
}
use newrr.Common.Integers.{pos, same_int}
use newrr.Common.Run.{Outcome, returns}
use newrr.Core.Database.{Table, IsTable, how_many, First, Created}
use newrr.TaskQueue.Inspect.{FunctionMetadata}
use newrr.TaskQueue.Persist.{
  EnqueuedTask, is_task, add_task_to_db, exists_task_in_db, create_unless, set_aside,
}
use newrr.TaskQueue.Local.{
  TaskQueue, Channel, Codec, enqueue_task, enqueue_for, enqueue_json, enqueue_added, get_function,
}

-- How many rows of the database stand for the task.
abbrev pub stored : {D : Type 0} → Table D EnqueuedTask → (Text → Text) → Text → Text → D → ℕ
stored tasks hash_of queue body d = how_many tasks (is_task queue (hash_of body)) d

module _ {D A : Type 0} (tasks : Table D EnqueuedTask) (hash_of : Text → Text) (codec : Codec A)
    (lawful : IsTable tasks)
    (tasks_with_id : (i : ℕ) (x : EnqueuedTask) → tasks.with_id i x ≡ record x { id = i }) where
  abbrev new_task : Text → Text → EnqueuedTask
  new_task queue body = record { id = 0; queue_name = queue; body = body; hash = hash_of body }

  new_task-stored :
      (queue body : Text) (d e : D) (y : EnqueuedTask)
      → Created tasks (new_task queue body) d (e, ok y)
      → 1 ≤ stored tasks hash_of queue body e
  new_task-stored queue body d e y (i, k, c) = omega (
    arith,
    c (is_task queue (hash_of body)),
    counted y (
        subst (λ z. is_task queue (hash_of body) z ≡ true) (sym k)
          (rw (tasks_with_id i (new_task queue body)) here)),
  )
    where
      here : (text_eq queue queue && text_eq (hash_of body) (hash_of body)) ≡ true
      here = ground (arith, text_eq_refl queue, text_eq_refl (hash_of body))

      counted :
          (z : EnqueuedTask)
          → is_task queue (hash_of body) z ≡ true
          → count (is_task queue (hash_of body)) (z ∷ []) ≡ 1
      counted z h = ground arith

  exists-stored :
      (queue body : Text) (d : D)
      → exists_task_in_db tasks queue (hash_of body) d ≡ ok true
      → 1 ≤ stored tasks hash_of queue body d
  unfolding exists_task_in_db
  exists-stored queue body d h =
      elim (Result-cases (tasks.first (is_task queue (hash_of body)) d)) [
        | inl (t, n) ↦ of_first t (
            subst (First tasks (is_task queue (hash_of body)) d) n
              (lawful.first-First (is_task queue (hash_of body)) d))
        | inr (record_not_found, n) ↦ cc (rw (n, exists_task_in_db) at h)
        | inr (failure s, n) ↦ cc (rw (n, exists_task_in_db) at h)
        | inr (external s, n) ↦ cc (rw (n, exists_task_in_db) at h)
      ]
    where
      of_first :
          (t : EnqueuedTask)
          → First tasks (is_task queue (hash_of body)) d (ok t)
          → 1 ≤ stored tasks hash_of queue body d
      of_first t (a, b) = b (is_task queue (hash_of body)) a

  -- The task is stored, unless there is an error.
  abbrev Kept : Text → Text → D × Result (Unit {0}) → Type 0
  Kept queue body (e, ok _) = 1 ≤ stored tasks hash_of queue body e
  Kept queue body (e, err _) = Unit

  set_aside-Kept :
      (queue body : Text) (d : D) (z : D × Result EnqueuedTask)
      → Created tasks (new_task queue body) d z
      → Kept queue body (set_aside z)
  set_aside-Kept queue body d (e, ok y) c = new_task-stored queue body d e y c
  set_aside-Kept queue body d (e, err _) c = tt

  unless-Kept :
      (queue body : Text) (z : Result Bool) (d : D)
      → exists_task_in_db tasks queue (hash_of body) d ≡ z
      → Kept queue body (create_unless tasks hash_of queue body z d)
  unless-Kept queue body (err c) d h = tt
  unless-Kept queue body (ok true) d h = exists-stored queue body d h
  unless-Kept queue body (ok false) d h =
      set_aside-Kept queue body d (tasks.create (new_task queue body) d)
        (lawful.create-Created (new_task queue body) d)

  add_task-Kept :
      (queue body : Text) (d : D) → Kept queue body (add_task_to_db tasks hash_of queue body d)
  unfolding add_task_to_db
  add_task-Kept queue body d =
      unless-Kept queue body (exists_task_in_db tasks queue (hash_of body) d) d refl

  -- A call that reports success has stored the task and sent the argument to the channel.
  abbrev Sent :
      Text
      → A
      → Result Text
      → Option (Channel A)
      → Outcome (TaskQueue D A) (Result (Unit {0}))
      → Type 0
  Sent queue argument (ok body) (some c) (returns (ok _) p) =
      (1 ≤ stored tasks hash_of queue body p.db)
      × (lookup queue p.channels ≡ some (record c { buffer = c.buffer ++ argument ∷ [] }))
  Sent queue argument _ _ _ = Unit

  added-Sent :
      (queue body : Text) (argument : A) (c : Channel A) (z : D × Result (Unit {0}))
      (q : TaskQueue D A)
      → lookup queue q.channels ≡ some c
      → Kept queue body z
      → Sent queue argument
          (ok body)
          (some c)
          (enqueue_added tasks hash_of codec queue argument z q)
  added-Sent queue body argument c (e, err x) q n h = tt
  added-Sent queue body argument c (e, ok _) q n h =
      let longer = record c { buffer = c.buffer ++ argument ∷ [] } in
      elim (Bool-cases (same_int (pos (length c.buffer)) q.max_messages_per_queue)) [
        | inl t ↦ rw (n, t) tt
        | inr t ↦ elim (Bool-cases (ltb (length c.buffer) c.capacity)) [
          | inl r ↦
              rw (n, t, r)
                (h, ground (arith, lookup-insert queue queue longer q.channels, text_eq_refl queue))
          | inr r ↦ rw (n, t, r) tt
        ]
      ]

  json-Sent :
      (queue : Text) (argument : A) (c : Channel A) (z : Result Text) (q : TaskQueue D A)
      → lookup queue q.channels ≡ some c
      → Sent queue argument z (some c) (enqueue_json tasks hash_of codec queue argument z q)
  json-Sent queue argument c (err e) q n = tt
  json-Sent queue argument c (ok body) q n =
      added-Sent queue body argument c (add_task_to_db tasks hash_of queue body q.db) q n
        (add_task-Kept queue body q.db)

  refused-Sent :
      (queue : Text) (argument : A) (c : Channel A) (z : Result Text) (e : Error)
      (q : TaskQueue D A)
      → Sent queue argument z (some c) (returns (err e) q)
  refused-Sent queue argument c (ok body) e q = tt
  refused-Sent queue argument c (err x) e q = tt

  for-Sent :
      (queue : Text) (argument : A) (c : Channel A) (z : Result FunctionMetadata)
      (q : TaskQueue D A)
      → lookup queue q.channels ≡ some c
      → Sent queue argument
          (codec.marshal argument)
          (some c)
          (enqueue_for tasks hash_of codec queue argument z q)
  for-Sent queue argument c (err e) q n = refused-Sent queue argument c (codec.marshal argument) e q
  for-Sent queue argument c (ok f) q n =
      elim (Bool-cases (text_eq f.argument_type_name (codec.type_name argument))) [
        | inl t ↦ rw t (json-Sent queue argument c (codec.marshal argument) q n)
        | inr t ↦ rw t (refused-Sent queue argument c (codec.marshal argument) _ q)
      ]

  -- An EnqueueTask that returns nil for a queue with a channel has stored the task in the database,
  -- under its queue and the hash of its JSON, and the argument is the last one in the channel,
  -- behind those that were there.
  pub enqueue_task-stored :
      (queue body : Text) (argument : A) (c : Channel A) (q p : TaskQueue D A)
      → lookup queue q.channels ≡ some c
      → codec.marshal argument ≡ ok body
      → enqueue_task tasks hash_of codec queue argument q ≡ returns (ok tt) p
      → (1 ≤ stored tasks hash_of queue body p.db)
        × (lookup queue p.channels ≡ some (record c { buffer = c.buffer ++ argument ∷ [] }))
  unfolding enqueue_task
  enqueue_task-stored queue body argument c q p n m h =
      subst (λ z. Sent queue argument (ok body) (some c) z) h
        (subst
          (λ z.
            Sent queue argument z (some c)
              (enqueue_for tasks hash_of codec queue argument (get_function queue q) q))
          m (for-Sent queue argument c (get_function queue q) q n))

  -- On a full channel EnqueueTask reports that the queue is full, and has stored the task all the
  -- same, where the queue takes such arguments and the database fails neither query.
  pub full_queue-stored :
      (queue body : Text) (argument : A) (f : FunctionMetadata) (c : Channel A) (q : TaskQueue D A)
      (e : D)
      → get_function queue q ≡ ok f
      → text_eq f.argument_type_name (codec.type_name argument) ≡ true
      → codec.marshal argument ≡ ok body
      → add_task_to_db tasks hash_of queue body q.db ≡ (e, ok tt)
      → lookup queue q.channels ≡ some c
      → q.max_messages_per_queue ≡ pos (length c.buffer)
      → (enqueue_task tasks hash_of codec queue argument q
          ≡ returns (err (failure "queue is full, cannot enqueue task")) (record q { db = e }))
        × (1 ≤ stored tasks hash_of queue body e)
  unfolding enqueue_task
  full_queue-stored queue body argument f c q e g t m a n l = (
    rw (g, t, m, a, n) (ground (arith, l)),
    subst (Kept queue body) a (add_task-Kept queue body q.db),
  )
