-- ===== src/RunTasks/Tests.antt =====
-- A run with a reference that is registered twice, cancelled, and another run that is removed.
use multi_agent_agent_hub.Prelude.{◌≡◌, refl, true, none, some, List, [], ◌∷◌}
use multi_agent_agent_hub.RunTasks.{
  TaskRef, Call, register_run_call, register_task_call, cancel_run_call, remove_run_call, replay,
  get_tasks, cancel_run, is_cancelled,
}
use multi_agent_agent_hub.RunTasks.History.{known, replay-known}

abbrev ref : TaskRef
ref = record { task_id = "t1"; agent_name = "writer"; agent_url = "http://writer" }

-- The same task id under another agent, which is kept.
abbrev other_ref : TaskRef
other_ref = record { task_id = "t1"; agent_name = "reviewer"; agent_url = "http://reviewer" }

-- The latest first.
abbrev calls : List Call
calls =
    remove_run_call "r2"
    ∷ cancel_run_call "r1"
    ∷ register_task_call "r1" ref
    ∷ register_task_call "r1" other_ref
    ∷ register_run_call "r1" (some 3)
    ∷ register_task_call "r1" ref
    ∷ register_run_call "r2" none
    ∷ []

known_refs : known "r1" calls ≡ some (true, ref ∷ other_ref ∷ [])
known_refs = refl

replay-known_example :
    (get_tasks "r1" (replay calls) ≡ some (ref ∷ other_ref ∷ []))
    × ((cancel_run "r1" (replay calls)).0 ≡ some (ref ∷ other_ref ∷ []))
    × (is_cancelled "r1" (replay calls) ≡ true)
replay-known_example = replay-known "r1" calls
