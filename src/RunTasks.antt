-- ===== src/RunTasks.antt =====
-- services/orchestrator/registry/run_task_registry.go: the tasks that a run gave to agents, and its
-- cancellation. A cancel function is known by a number, and the state notes which were called. A nil
-- registry, which does nothing, is left out. Each method holds the registry's lock throughout.
pub mod History
mod Tests
use multi_agent_agent_hub.Prelude.{
  ℕ, String, Bool, true, false, not, ◌||◌, ◌&&◌, Option, none, some, List, [], ◌∷◌, ◌++◌, str_eq,
  any, if◌then◌else◌,
}
use multi_agent_agent_hub.Prelude.Dict.{Dict, empty, lookup, insert, erase}

pub record TaskRef : Type 0 where
  pub task_id : String
  pub agent_name : String
  pub agent_url : String

pub record RunTaskState : Type 0 where
  pub cancel_func : Option ℕ
  pub task_refs : List TaskRef
  pub cancelled : Bool

pub record RunTaskRegistry : Type 0 where
  pub runs : Dict RunTaskState
  pub called : List ℕ

unfoldable pub new_run_task_registry : RunTaskRegistry
new_run_task_registry = record { runs = empty; called = [] }

abbrev pub new_state : RunTaskState
new_state = record { cancel_func = none; task_refs = []; cancelled = false }

abbrev pub state_or_new : Option RunTaskState → RunTaskState
state_or_new none = new_state
state_or_new (some s) = s

abbrev pub put : String → RunTaskState → RunTaskRegistry → RunTaskRegistry
put run_id s r = record r { runs = insert run_id s r.runs }

abbrev pub with_cancel : Option ℕ → RunTaskState → RunTaskState
with_cancel none s = s
with_cancel (some f) s = record s { cancel_func = some f }

unfoldable pub register_run : String → Option ℕ → RunTaskRegistry → RunTaskRegistry
register_run run_id cancel r =
    if str_eq run_id ""
    then r
    else put run_id (with_cancel cancel (state_or_new (lookup run_id r.runs))) r

abbrev pub same_ref : TaskRef → TaskRef → Bool
same_ref ref existing =
    str_eq existing.task_id ref.task_id && str_eq existing.agent_name ref.agent_name

unfoldable pub add_ref : TaskRef → List TaskRef → List TaskRef
add_ref ref refs = if any (same_ref ref) refs then refs else refs ++ ref ∷ []

-- The state is new or changed also where the reference is a duplicate: a new state has none.
unfoldable pub register_task : String → TaskRef → RunTaskRegistry → RunTaskRegistry
unfolding add_ref
register_task run_id ref r =
    let s = state_or_new (lookup run_id r.runs) in
    if str_eq run_id "" || str_eq ref.task_id ""
    then r
    else put run_id (record s { task_refs = add_ref ref s.task_refs }) r

abbrev pub refs_of : Option RunTaskState → Option (List TaskRef)
refs_of none = none
refs_of (some s) = some s.task_refs

unfoldable pub get_tasks : String → RunTaskRegistry → Option (List TaskRef)
get_tasks run_id r = refs_of (lookup run_id r.runs)

abbrev pub call : Option ℕ → RunTaskRegistry → RunTaskRegistry
call none r = r
call (some f) r = record r { called = f ∷ r.called }

abbrev pub cancel_on :
    Option RunTaskState → String → RunTaskRegistry → Option (List TaskRef) × RunTaskRegistry
cancel_on none run_id r = (none, r)
cancel_on (some s) run_id r = (
  some s.task_refs,
  call s.cancel_func (put run_id (record s { cancelled = true; cancel_func = none }) r),
)

unfoldable pub cancel_run : String → RunTaskRegistry → Option (List TaskRef) × RunTaskRegistry
cancel_run run_id r = cancel_on (lookup run_id r.runs) run_id r

abbrev pub cancelled_of : Option RunTaskState → Bool
cancelled_of none = false
cancelled_of (some s) = s.cancelled

unfoldable pub is_cancelled : String → RunTaskRegistry → Bool
is_cancelled run_id r = cancelled_of (lookup run_id r.runs)

unfoldable pub remove_run : String → RunTaskRegistry → RunTaskRegistry
remove_run run_id r = record r { runs = erase run_id r.runs }

-- The calls that change the registry, in the order in which they take its lock.
pub data Call : Type 0 where
  register_run_call : String → Option ℕ → Call
  register_task_call : String → TaskRef → Call
  cancel_run_call remove_run_call : String → Call

unfoldable pub perform : RunTaskRegistry → Call → RunTaskRegistry
unfolding register_run register_task cancel_run remove_run
perform r (register_run_call run_id f) = register_run run_id f r
perform r (register_task_call run_id ref) = register_task run_id ref r
perform r (cancel_run_call run_id) = (cancel_run run_id r).1
perform r (remove_run_call run_id) = remove_run run_id r

-- The registry after the calls, the latest first.
unfoldable pub replay : List Call → RunTaskRegistry
unfolding perform new_run_task_registry
replay [] = new_run_task_registry
replay (c ∷ calls) = perform (replay calls) c
