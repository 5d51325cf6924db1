-- ===== src/TaskQueue/Local/Examples.antt =====
-- Runs of the local queue on a database in memory, with texts for arguments.
use newrr.Common.{
  arith, ◌≤◌, ◌≡◌, refl, List, [], ◌∷◌, some, ok, err, failure, Text, text, lookup, insert, text_eq,
}
use newrr.Common.Integers.{pos}
use newrr.Common.Run.{returns}
use newrr.Core.Database.{Table}
use newrr.Core.Memory.{table, table-IsTable}
use newrr.TaskQueue.Inspect.{FunctionMetadata}
use newrr.TaskQueue.Persist.{EnqueuedTask, add_task_to_db, exists_task_in_db}
use newrr.TaskQueue.Local.{TaskQueue, Channel, Codec, enqueue_task, get_function}
use newrr.TaskQueue.Local.Invariant.{WellFormed, Returns, enqueues, call, task_call-Returns}
use newrr.TaskQueue.Local.Storage.{stored, enqueue_task-stored, full_queue-stored}

abbrev tasks : Table (List EnqueuedTask) EnqueuedTask
tasks = table (λ d. d) (λ xs d. xs) (λ x. x.id) (λ i x. record x { id = i })

abbrev same_text : Text → Text
same_text t = t

abbrev codec : Codec Text
codec = record { type_name = λ t. text "Job"; marshal = λ t. ok t; unmarshal = λ name t. ok t }

abbrev worker : FunctionMetadata
worker = record { function_name = text "Deploy"; argument_type_name = text "Job" }

abbrev no_message : Channel Text
no_message = record { capacity = 1; buffer = [] }

abbrev one_message : Channel Text
one_message = record { capacity = 1; buffer = text "a" ∷ [] }

abbrev empty_queue : TaskQueue (List EnqueuedTask) Text
empty_queue = record {
  functions = (text "deploy", worker) ∷ [];
  channels = (text "deploy", no_message) ∷ [];
  max_messages_per_queue = pos 1;
  no_of_workers_per_queue = pos 1;
  db = [];
}

abbrev stored_task : EnqueuedTask
stored_task = record { id = 1; queue_name = text "deploy"; body = text "a"; hash = text "a" }

abbrev full_queue : TaskQueue (List EnqueuedTask) Text
full_queue = record empty_queue {
  channels = (text "deploy", one_message) ∷ [];
  db = stored_task ∷ [];
}

full_queue-WellFormed : WellFormed full_queue
unfolding lookup
full_queue-WellFormed = record {
  size = 1;
  is_size = refl;
  room = omega arith;
  channel_of = λ queue e. ground arith;
  fits = λ queue c e. ground arith;
}

task_call-Returns_example :
    Returns WellFormed (call tasks same_text codec (enqueues (text "deploy") (text "b")) full_queue)
task_call-Returns_example =
    task_call-Returns tasks same_text codec (enqueues (text "deploy") (text "b")) full_queue tt
      full_queue-WellFormed

enqueue_task-stored_example :
    (1 ≤ stored tasks same_text (text "deploy") (text "a") (stored_task ∷ []))
    × (lookup (text "deploy") full_queue.channels ≡ some one_message)
unfolding enqueue_task add_task_to_db exists_task_in_db get_function lookup insert text_eq
enqueue_task-stored_example =
    enqueue_task-stored tasks same_text codec
      (table-IsTable (λ d. d) (λ xs d. xs) (λ x. x.id) (λ i x. record x { id = i }) (λ xs d. refl))
      (λ i x. refl) (text "deploy") (text "a") (text "a") no_message empty_queue full_queue refl
      refl refl

full_queue-stored_example :
    (enqueue_task tasks same_text codec (text "deploy") (text "a") full_queue
      ≡ returns (err (failure "queue is full, cannot enqueue task")) full_queue)
    × (1 ≤ stored tasks same_text (text "deploy") (text "a") (stored_task ∷ []))
unfolding enqueue_task add_task_to_db exists_task_in_db get_function lookup insert text_eq
full_queue-stored_example =
    full_queue-stored tasks same_text codec
      (table-IsTable (λ d. d) (λ xs d. xs) (λ x. x.id) (λ i x. record x { id = i }) (λ xs d. refl))
      (λ i x. refl) (text "deploy") (text "a") (text "a") worker one_message full_queue
      (stored_task ∷ []) refl refl refl refl refl refl
