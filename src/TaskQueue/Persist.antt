-- ===== src/TaskQueue/Persist.antt =====
-- task_queue/local_task_queue_persist.go: the tasks of the local queue in the database. The SHA-256
-- sum of a text, written in hexadecimal, is a parameter.
use newrr.Common.{
  ℕ, Bool, true, false, ◌&&◌, List, Result, ok, err, failure, external, record_not_found, Text,
  text_eq,
}
use newrr.Core.Database.{Table}

pub record EnqueuedTask : Type 0 where
  pub id : ℕ
  pub queue_name : Text
  pub body : Text
  pub hash : Text

-- queue_name = ? AND hash = ?
abbrev pub is_task : Text → Text → EnqueuedTask → Bool
is_task queue hash t = text_eq t.queue_name queue && text_eq t.hash hash

abbrev pub is_queued : Text → EnqueuedTask → Bool
is_queued queue t = text_eq t.queue_name queue

-- The result of db.Create, its row set aside.
abbrev pub set_aside : {D R : Type 0} → D × Result R → D × Result (Unit {0})
set_aside (e, ok t) = (e, ok tt)
set_aside (e, err c) = (e, err c)

module _ {D : Type 0} (tasks : Table D EnqueuedTask) where
  -- existsTaskInDb
  unfoldable pub exists_task_in_db : Text → Text → D → Result Bool
  exists_task_in_db queue hash d = elim (tasks.first (is_task queue hash) d) [
    | ok t ↦ ok true
    | err record_not_found ↦ ok false
    | err (failure s) ↦ err (failure s)
    | err (external s) ↦ err (external s)
  ]

  -- remoteTasksFromDb
  unfoldable pub remote_tasks_from_db : Text → D → D × Result (Unit {0})
  remote_tasks_from_db queue d = tasks.delete_where (is_queued queue) d

  abbrev pub purge_if : Bool → Text → D → D
  purge_if true queue d = (remote_tasks_from_db queue d).0
  purge_if false queue d = d

  -- getTasksFromDb; the error of the removal is dropped.
  unfoldable pub get_tasks_from_db : Text → Bool → D → D × Result (List EnqueuedTask)
  get_tasks_from_db queue remove_tasks d = elim (tasks.find (is_queued queue) d) [
    | err e ↦ (d, err e)
    | ok ts ↦ (purge_if remove_tasks queue d, ok ts)
  ]

  module _ (hash_of : Text → Text) where
    abbrev pub create_unless : Text → Text → Result Bool → D → D × Result (Unit {0})
    create_unless queue body (err e) d = (d, err e)
    create_unless queue body (ok true) d = (d, ok tt)
    create_unless queue body (ok false) d =
        set_aside
          (tasks.create (record { id = 0; queue_name = queue; body = body; hash = hash_of body }) d)

    -- addTaskToDb
    unfoldable pub add_task_to_db : Text → Text → D → D × Result (Unit {0})
    unfolding exists_task_in_db
    add_task_to_db queue body d =
        create_unless queue body (exists_task_in_db queue (hash_of body) d) d

    -- removeTaskFromDb
    unfoldable pub remove_task_from_db : Text → Text → D → D × Result (Unit {0})
    remove_task_from_db queue content d = tasks.delete_where (is_task queue (hash_of content)) d
