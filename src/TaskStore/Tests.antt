-- ===== src/TaskStore/Tests.antt =====
-- A task that is cancelled twice and then completed.
use multi_agent_agent_hub.Prelude.{◌≡◌, ◌≤◌, refl, none, some, List, [], ◌∷◌}
use multi_agent_agent_hub.Prelude.Dict.{lookup, insert}
use multi_agent_agent_hub.TaskStore.{
  cancelled, Task, TaskStore, new_task_store, Call, creating, completing, cancelling, perform,
  perform_all, create, complete, transition, cancel,
}
use multi_agent_agent_hub.TaskStore.Lifecycle.{terminal_is_final}
use multi_agent_agent_hub.TaskStore.Cancels.{times, cancels_bounded}

abbrev calls : List Call
calls = creating "t" "s" (some 7) 1 ∷ cancelling "t" 2 ∷ cancelling "t" 3 ∷ completing "t" 4 ∷ []

abbrev stopped : Task
stopped = record {
  task_id = "t";
  status = cancelled;
  session_id = "s";
  error = "";
  created_at = 1;
  updated_at = 2;
  cancel_func = none;
}

abbrev store : TaskStore
store = record { tasks = ("t", stopped) ∷ []; called = 7 ∷ [] }

cancelled_once : perform_all new_task_store calls ≡ store
unfolding perform_all perform create complete transition cancel new_task_store lookup insert
cancelled_once = refl

terminal_is_final_example :
    lookup "t" (perform_all store (cancelling "t" 3 ∷ completing "t" 4 ∷ [])).tasks ≡ some stopped
unfolding lookup
terminal_is_final_example =
    terminal_is_final "t" stopped refl store (cancelling "t" 3 ∷ completing "t" 4 ∷ []) refl

cancels_bounded_example : times 7 (perform_all new_task_store calls).called ≤ 1
cancels_bounded_example = cancels_bounded 7 calls
