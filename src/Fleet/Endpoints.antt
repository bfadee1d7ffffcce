-- ===== src/Fleet/Endpoints.antt =====
-- The nodes that a task starts and ends at: `getStartId` and `getEndId` of include/data/Task.h,
-- `CollectTaskNodes` and `ResolveEndpoints` of src/common/TaskReachabilityFilter.cpp, and
-- `ExtractTaskEndpoints` of src/common/AllocationReachability.cpp.
use agvscheduling.Prelude.{
  ◌≡◌, refl, true, false, ℤ, minus_one, ℤ_discrete, is_negative, List, [], ◌∷◌, ite, inl, inr,
  arith, if◌then◌else◌, Bool-cases, All,
}
use agvscheduling.Fleet.{
  SubTask, Task, front_node, first_valid_node, last_valid_node, get_start_id, get_end_id,
}

abbrev pub keep_node : ℤ → List ℤ → List ℤ
keep_node n ns = if is_negative n then ns else n ∷ ns

-- The loop of `CollectTaskNodes` over the sub-tasks.
pub valid_nodes : List SubTask → List ℤ
valid_nodes [] = []
valid_nodes (s ∷ subs) = keep_node s.point.node_id (valid_nodes subs)

-- `end >= 0 && end != start`
abbrev pub end_nodes : ℤ → ℤ → List ℤ
end_nodes start stop = ite (ℤ_discrete stop start) [] (keep_node stop [])

-- What `CollectTaskNodes` falls back on where the sub-tasks name no node.
abbrev pub or_endpoints : List ℤ → ℤ → ℤ → List ℤ
or_endpoints [] start stop = keep_node start (end_nodes start stop)
or_endpoints (n ∷ ns) start stop = n ∷ ns

unfoldable pub collect_task_nodes : Task → List ℤ
unfolding valid_nodes get_start_id get_end_id
collect_task_nodes task =
    or_endpoints (valid_nodes task.sub_tasks) (get_start_id task) (get_end_id task)

-- `nodes.front()` and `nodes.back()`
abbrev pub front_or : List ℤ → ℤ → ℤ
front_or [] d = d
front_or (n ∷ ns) d = n

abbrev pub back_or : List ℤ → ℤ → ℤ
back_or [] d = d
back_or (n ∷ ns) d = back_or ns n

valid_nodes-first :
    (subs : List SubTask) (d : ℤ) → front_or (valid_nodes subs) d ≡ first_valid_node subs d
unfolding valid_nodes first_valid_node
valid_nodes-first [] d = refl
valid_nodes-first (s ∷ subs) d = elim (Bool-cases (is_negative s.point.node_id)) [
  | inl yes_negative ↦ rw yes_negative (valid_nodes-first subs d)
  | inr not_negative ↦ rw not_negative refl
]

valid_nodes-last :
    (subs : List SubTask) (d : ℤ) → back_or (valid_nodes subs) d ≡ last_valid_node subs d
unfolding valid_nodes last_valid_node
valid_nodes-last [] d = refl
valid_nodes-last (s ∷ subs) d = elim (Bool-cases (is_negative s.point.node_id)) [
  | inl yes_negative ↦ rw yes_negative (valid_nodes-last subs d)
  | inr not_negative ↦ rw not_negative (valid_nodes-last subs s.point.node_id)
]

-- The loop of `ResolveEndpoints` from the front, and the one from the back.
pub first_node : List SubTask → ℤ → ℤ
first_node [] d = d
first_node (s ∷ subs) d = if is_negative s.point.node_id then first_node subs d else s.point.node_id

pub last_node : List SubTask → ℤ → ℤ
last_node [] d = d
last_node (s ∷ subs) d = last_node subs (if is_negative s.point.node_id then d else s.point.node_id)

pub record TaskEndpoints : Type 0 where
  pub start : ℤ
  pub stop : ℤ

-- `if (ep.end < 0) ep.end = ep.start;`
abbrev pub or_start : TaskEndpoints → TaskEndpoints
or_start ep = if is_negative ep.stop then record ep { stop = ep.start } else ep

abbrev pub endpoints_of : Task → List SubTask → TaskEndpoints
endpoints_of task [] = record { start = get_start_id task; stop = get_end_id task }
endpoints_of task (s ∷ subs) = record {
  start = first_node (s ∷ subs) minus_one;
  stop = last_node (s ∷ subs) minus_one;
}

unfoldable pub resolve_endpoints : Task → TaskEndpoints
unfolding get_start_id get_end_id first_node last_node
resolve_endpoints task = or_start (endpoints_of task task.sub_tasks)

-- `ExtractTaskEndpoints`: the first and the last sub-task's nodes, valid or not.
abbrev pub back_node : List SubTask → ℤ → ℤ
back_node [] d = d
back_node (s ∷ subs) d = back_node subs s.point.node_id

abbrev pub extracted : Task → List SubTask → ℤ × ℤ
extracted task [] = (get_start_id task, get_end_id task)
extracted task (s ∷ subs) = (s.point.node_id, back_node subs s.point.node_id)

unfoldable pub extract_task_endpoints : Task → ℤ × ℤ
unfolding get_start_id get_end_id
extract_task_endpoints task = extracted task task.sub_tasks

first_node_lem : (subs : List SubTask) (d : ℤ) → first_node subs d ≡ front_or (valid_nodes subs) d
unfolding first_node valid_nodes
first_node_lem [] d = refl
first_node_lem (s ∷ subs) d = elim (Bool-cases (is_negative s.point.node_id)) [
  | inl yes_negative ↦ rw yes_negative (first_node_lem subs d)
  | inr not_negative ↦ rw not_negative refl
]

last_node_lem : (subs : List SubTask) (d : ℤ) → last_node subs d ≡ back_or (valid_nodes subs) d
unfolding last_node valid_nodes
last_node_lem [] d = refl
last_node_lem (s ∷ subs) d = elim (Bool-cases (is_negative s.point.node_id)) [
  | inl yes_negative ↦ rw yes_negative (last_node_lem subs d)
  | inr not_negative ↦ rw not_negative (last_node_lem subs s.point.node_id)
]

keep_node-nonempty : (n : ℤ) (ns : List ℤ) → keep_node n ns ≡ [] → is_negative n ≡ true
keep_node-nonempty n ns e = elim (Bool-cases (is_negative n)) [
  | inl yes_negative ↦ yes_negative
  | inr not_negative ↦ ground arith
]

front_node-IsNegative :
    (subs : List SubTask) → valid_nodes subs ≡ [] → is_negative (front_node subs) ≡ true
unfolding valid_nodes
front_node-IsNegative [] e = refl
front_node-IsNegative (s ∷ subs) e = keep_node-nonempty s.point.node_id (valid_nodes subs) e

or_endpoints_lem :
    (ns : List ℤ) (start stop : ℤ)
    → (ns ≡ [] → is_negative start ≡ true)
    → (ns ≡ [] → is_negative stop ≡ true)
    → or_endpoints ns start stop ≡ ns
or_endpoints_lem [] start stop hs ht = rw (hs refl) (ground (arith, hs refl, ht refl))
or_endpoints_lem (n ∷ ns) start stop hs ht = refl

-- The start of a task with no valid node is negative, and so is its end.
start-IsNegative :
    (subs : List SubTask)
    → valid_nodes subs ≡ []
    → is_negative (first_valid_node subs (front_node subs)) ≡ true
start-IsNegative subs e =
    rw (← valid_nodes-first subs (front_node subs), e) (front_node-IsNegative subs e)

end-IsNegative :
    (subs : List SubTask)
    → valid_nodes subs ≡ []
    → is_negative (last_valid_node subs (front_node subs)) ≡ true
end-IsNegative subs e =
    rw (← valid_nodes-last subs (front_node subs), e) (front_node-IsNegative subs e)

-- The nodes that `CollectTaskNodes` returns are the sub-tasks' nodes that are not negative: its
-- fallback on the task's start and end never adds one.
pub collect_task_nodes_lem : (task : Task) → collect_task_nodes task ≡ valid_nodes task.sub_tasks
unfolding collect_task_nodes get_start_id get_end_id
collect_task_nodes_lem task =
    or_endpoints_lem (valid_nodes task.sub_tasks) (get_start_id task) (get_end_id task)
      (start-IsNegative task.sub_tasks) (end-IsNegative task.sub_tasks)

valid_nodes-AllValid : (subs : List SubTask) → All (λ n. is_negative n ≡ false) (valid_nodes subs)
unfolding valid_nodes
valid_nodes-AllValid [] = tt
valid_nodes-AllValid (s ∷ subs) = elim (Bool-cases (is_negative s.point.node_id)) [
  | inl yes_negative ↦ rw yes_negative (valid_nodes-AllValid subs)
  | inr not_negative ↦ rw not_negative (not_negative, valid_nodes-AllValid subs)
]

back_or-valid :
    (ns : List ℤ) (n : ℤ)
    → is_negative n ≡ false
    → All (λ m. is_negative m ≡ false) ns
    → is_negative (back_or ns n) ≡ false
back_or-valid [] n h hs = h
back_or-valid (m ∷ ns) n h (hm, hs) = back_or-valid ns m hm hs

-- The first and the last of the given nodes, and -1 where there is none.
abbrev pub ends : List ℤ → TaskEndpoints
ends ns = record { start = front_or ns minus_one; stop = back_or ns minus_one }

or_start_lem : (ns : List ℤ) → All (λ n. is_negative n ≡ false) ns → or_start (ends ns) ≡ ends ns
or_start_lem [] h = refl
or_start_lem (n ∷ ns) (h, hs) = rw (back_or-valid ns n h hs) refl

endpoints_of_lem :
    (task : Task) (subs : List SubTask)
    → task.sub_tasks ≡ subs
    → endpoints_of task subs ≡ ends (valid_nodes subs)
unfolding get_start_id get_end_id first_valid_node last_valid_node valid_nodes
endpoints_of_lem task [] e = rw e refl
endpoints_of_lem task (s ∷ subs) e =
    rw (first_node_lem (s ∷ subs) minus_one, last_node_lem (s ∷ subs) minus_one) refl

-- `ResolveEndpoints` returns the first and the last of the nodes that `CollectTaskNodes` returns,
-- and -1 for both where there is none.
pub resolve_endpoints-collect_task_nodes :
    (task : Task) → resolve_endpoints task ≡ ends (collect_task_nodes task)
unfolding resolve_endpoints
resolve_endpoints-collect_task_nodes task =
    rw (collect_task_nodes_lem task, endpoints_of_lem task task.sub_tasks refl)
      (or_start_lem (valid_nodes task.sub_tasks) (valid_nodes-AllValid task.sub_tasks))

abbrev pub AllNamed : List SubTask → Type 0
AllNamed subs = All (λ s. is_negative s.point.node_id ≡ false) subs

last_node-back_node :
    (subs : List SubTask) (d : ℤ) → AllNamed subs → last_node subs d ≡ back_node subs d
unfolding last_node
last_node-back_node [] d h = refl
last_node-back_node (s ∷ subs) d (h, hs) = rw h (last_node-back_node subs s.point.node_id hs)

back_node-valid :
    (subs : List SubTask) (d : ℤ)
    → is_negative d ≡ false
    → AllNamed subs
    → is_negative (back_node subs d) ≡ false
back_node-valid [] d hd h = hd
back_node-valid (s ∷ subs) d hd (h, hs) = back_node-valid subs s.point.node_id h hs

extracted-endpoints_of :
    (task : Task) (subs : List SubTask)
    → task.sub_tasks ≡ subs
    → AllNamed subs
    → extracted task subs
      ≡ ((or_start (endpoints_of task subs)).start, (or_start (endpoints_of task subs)).stop)
unfolding get_start_id get_end_id first_valid_node last_valid_node first_node
extracted-endpoints_of task [] e h = rw e refl
extracted-endpoints_of task (s ∷ subs) e (h, hs) =
    rw
      (
        last_node-back_node (s ∷ subs) minus_one (h, hs),
        h,
        back_node-valid subs s.point.node_id h hs,
      )
      refl

-- Where no sub-task's node is negative, `ExtractTaskEndpoints` of the allocation's filter and
-- `ResolveEndpoints` of the tasks' filter return the same two nodes.
pub extract_task_endpoints-resolve_endpoints :
    (task : Task)
    → AllNamed task.sub_tasks
    → extract_task_endpoints task ≡ ((resolve_endpoints task).start, (resolve_endpoints task).stop)
unfolding extract_task_endpoints resolve_endpoints
extract_task_endpoints-resolve_endpoints task h = extracted-endpoints_of task task.sub_tasks refl h
