-- ===== src/Fleet/Queue.antt =====
-- The task queue of an AMR: the current task's id, and first in, first out.
use agvscheduling.Prelude.{
  ◌≡◌, refl, ℤ, leb_ℤ, String, List, [], ◌∷◌, ◌++◌, inl, inr, arith, Bool-cases, if◌then◌else◌,
  ◌==◌, length,
}
use agvscheduling.Fleet.{
  Task, Amr, add_task, complete_current_task, clear_task_queue, steal_all_queued_tasks,
  steal_queued_tasks_except_first,
}

-- A waiting AMR names the first task of its queue as the current one.
abbrev pub NamesFront : List Task → String → Type 0
NamesFront [] id = Unit
NamesFront (task ∷ rest) id = id ≡ task.message_id

pub data Call : Type 0 where
  adds : Task → Call
  completes clears steals_all steals_except_first : Call

-- The tasks that the calls hand in and that reach the priority threshold.
pub accepted_tasks : ℤ → List Call → List Task
accepted_tasks threshold [] = []
accepted_tasks threshold (adds task ∷ cs) =
    let rest = accepted_tasks threshold cs in
    if leb_ℤ threshold task.priority then task ∷ rest else rest
accepted_tasks threshold (completes ∷ cs) = accepted_tasks threshold cs
accepted_tasks threshold (clears ∷ cs) = accepted_tasks threshold cs
accepted_tasks threshold (steals_all ∷ cs) = accepted_tasks threshold cs
accepted_tasks threshold (steals_except_first ∷ cs) = accepted_tasks threshold cs

-- The calls that keep the order: all but `clearTaskQueue`, which drops the queue, and
-- `stealQueuedTasksExceptFirst`, which hands out the back of it first.
abbrev pub KeepsOrder : List Call → Type 0
KeepsOrder [] = Unit
KeepsOrder (adds task ∷ cs) = KeepsOrder cs
KeepsOrder (completes ∷ cs) = KeepsOrder cs
KeepsOrder (clears ∷ cs) = ⊥
KeepsOrder (steals_all ∷ cs) = KeepsOrder cs
KeepsOrder (steals_except_first ∷ cs) = ⊥

abbrev pub NamesCurrent : {W : Type 0} → Amr W → Type 0
NamesCurrent a = NamesFront a.task_queue a.task_id

module _ {W : Type 0} (nought : W) where
  -- The tasks that a call hands out.
  pub handed : Amr W → Call → List Task
  handed a (adds task) = []
  handed a completes = elim a.task_queue [
    | [] ↦ []
    | _ ∷ _ ↦ (complete_current_task nought a).1 ∷ []
  ]
  handed a clears = []
  handed a steals_all = (steal_all_queued_tasks a).1
  handed a steals_except_first = (steal_queued_tasks_except_first a).1

  pub step : Amr W → Call → Amr W
  step a (adds task) = add_task a task
  step a completes = (complete_current_task nought a).0
  step a clears = clear_task_queue nought a
  step a steals_all = (steal_all_queued_tasks a).0
  step a steals_except_first = (steal_queued_tasks_except_first a).0

  pub run : Amr W → List Call → Amr W
  run a [] = a
  run a (c ∷ cs) = run (step a c) cs

  add-NamesFront :
      (q : List Task) (id : String) (task : Task)
      → NamesFront q id
      → NamesFront (q ++ task ∷ []) (if length (q ++ task ∷ []) == 1 then task.message_id else id)
  add-NamesFront [] id task h = refl
  add-NamesFront (x ∷ []) id task h = h
  add-NamesFront (x ∷ y ∷ q) id task h = ground arith

  complete-NamesCurrent :
      (a : Amr W) (q : List Task)
      → a.task_queue ≡ q
      → NamesCurrent a
      → NamesCurrent (complete_current_task nought a).0
  unfolding complete_current_task
  complete-NamesCurrent a [] e h = rw e (rw e at h)
  complete-NamesCurrent a (x ∷ []) e h = rw e tt
  complete-NamesCurrent a (x ∷ y ∷ q) e h = rw e refl

  keep-NamesCurrent :
      (a : Amr W) (q : List Task)
      → a.task_queue ≡ q
      → NamesCurrent a
      → NamesCurrent (steal_queued_tasks_except_first a).0
  unfolding steal_queued_tasks_except_first
  keep-NamesCurrent a [] e h = rw e (rw e at h)
  keep-NamesCurrent a (x ∷ q) e h = rw e (rw e at h)

  step-NamesCurrent : (a : Amr W) (c : Call) → NamesCurrent a → NamesCurrent (step a c)
  unfolding step add_task clear_task_queue steal_all_queued_tasks
  step-NamesCurrent a (adds task) h = elim (Bool-cases (leb_ℤ a.priority_threshold task.priority)) [
    | inl accepted ↦ rw accepted (add-NamesFront a.task_queue a.task_id task h)
    | inr refused ↦ rw refused h
  ]
  step-NamesCurrent a completes h = complete-NamesCurrent a a.task_queue refl h
  step-NamesCurrent a clears h = tt
  step-NamesCurrent a steals_all h = tt
  step-NamesCurrent a steals_except_first h = keep-NamesCurrent a a.task_queue refl h

  -- Through any calls of the queue's methods, an AMR with a task waiting has the id of the first
  -- waiting task for its current task's.
  pub run-NamesCurrent : (a : Amr W) (cs : List Call) → NamesCurrent a → NamesCurrent (run a cs)
  unfolding run
  run-NamesCurrent a [] h = h
  run-NamesCurrent a (c ∷ cs) h = run-NamesCurrent (step a c) cs (step-NamesCurrent a c h)

  pub handed_out : Amr W → List Call → List Task
  unfolding handed
  handed_out a [] = []
  handed_out a (c ∷ cs) = handed a c ++ handed_out (step a c) cs
