-- ===== src/TaskStore.antt =====
-- pkg/adk/a2a/task_store.go: the tasks that an agent's server runs. A cancel function is known by a
-- number, and the store's state notes which of them it called; a nil store, which answers every
-- call with nil and false, is left out. Each method holds the store's lock throughout.
pub mod Lifecycle
pub mod Cancels
mod Tests
use multi_agent_agent_hub.Prelude.{
  ℕ, String, Bool, true, false, ◌||◌, Option, none, some, List, [], ◌∷◌, if◌then◌else◌,
}
use multi_agent_agent_hub.Prelude.Dict.{Dict, empty, lookup, insert}

pub data TaskStatus : Type 0 where
  running completed failed cancelled : TaskStatus

pub record Task : Type 0 where
  pub task_id : String
  pub status : TaskStatus
  pub session_id : String
  pub error : String
  pub created_at : ℕ
  pub updated_at : ℕ
  pub cancel_func : Option ℕ

pub record TaskStore : Type 0 where
  pub tasks : Dict Task
  pub called : List ℕ

unfoldable pub new_task_store : TaskStore
new_task_store = record { tasks = empty; called = [] }

abbrev pub is_terminal_task_status : TaskStatus → Bool
is_terminal_task_status running = false
is_terminal_task_status completed = true
is_terminal_task_status failed = true
is_terminal_task_status cancelled = true

-- What callers get to see: the cancel function is not exposed.
abbrev pub exposed : Task → Task
exposed t = record t { cancel_func = none }

abbrev pub created : String → String → Option ℕ → ℕ → Task
created task_id session_id cancel now = record {
  task_id = task_id;
  status = running;
  session_id = session_id;
  error = "";
  created_at = now;
  updated_at = now;
  cancel_func = cancel;
}

abbrev pub put : String → Task → TaskStore → TaskStore
put id t s = record s { tasks = insert id t s.tasks }

-- Each operation with the task that it found.
abbrev pub create_on : Option Task → String → String → Option ℕ → ℕ → TaskStore → Task × TaskStore
create_on (some existing) task_id session_id cancel now s = (existing, s)
create_on none task_id session_id cancel now s =
    let t = created task_id session_id cancel now in (t, put task_id t s)

-- The task is the stored one itself, with its cancel function.
unfoldable pub create : String → String → Option ℕ → ℕ → TaskStore → Task × TaskStore
create task_id session_id cancel now s =
    create_on (lookup task_id s.tasks) task_id session_id cancel now s

abbrev pub exposed_or_none : Option Task → Option Task
exposed_or_none none = none
exposed_or_none (some t) = some (exposed t)

unfoldable pub get : String → TaskStore → Option Task
get task_id s = exposed_or_none (lookup task_id s.tasks)

abbrev pub transition_on :
    Option Task → String → TaskStatus → ℕ → TaskStore → Option Task × TaskStore
transition_on none id target now s = (none, s)
transition_on (some t) id target now s =
    let t' = record t { status = target; updated_at = now } in
    if is_terminal_task_status t.status then (none, s) else (some (exposed t'), put id t' s)

unfoldable pub transition : String → TaskStatus → ℕ → TaskStore → Option Task × TaskStore
transition id target now s = transition_on (lookup id s.tasks) id target now s

unfoldable pub complete : String → ℕ → TaskStore → Option Task × TaskStore
unfolding transition
complete id now s = transition id completed now s

abbrev pub error_or : Option String → String → String
error_or none old = old
error_or (some e) old = e

abbrev pub fail_on : Option Task → String → Option String → ℕ → TaskStore → Option Task × TaskStore
fail_on none id err now s = (none, s)
fail_on (some t) id err now s =
    let t' = record t { status = failed; error = error_or err t.error; updated_at = now } in
    if is_terminal_task_status t.status then (none, s) else (some (exposed t'), put id t' s)

-- `err` is the error's text, `none` where it is nil.
unfoldable pub fail : String → Option String → ℕ → TaskStore → Option Task × TaskStore
fail id err now s = fail_on (lookup id s.tasks) id err now s

abbrev pub call : Option ℕ → TaskStore → TaskStore
call none s = s
call (some f) s = record s { called = f ∷ s.called }

abbrev pub cancel_on : Option Task → String → ℕ → TaskStore → Option Task × TaskStore
cancel_on none id now s = (none, s)
cancel_on (some t) id now s =
    let t' = record t { status = cancelled; updated_at = now; cancel_func = none } in
    if is_terminal_task_status t.status
    then (some (exposed t), s)
    else (some (exposed t'), call t.cancel_func (put id t' s))

unfoldable pub cancel : String → ℕ → TaskStore → Option Task × TaskStore
cancel id now s = cancel_on (lookup id s.tasks) id now s

-- The calls of the store in the order in which they take its lock, each with the time it reads.
pub data Call : Type 0 where
  creating : String → String → Option ℕ → ℕ → Call
  completing : String → ℕ → Call
  failing : String → Option String → ℕ → Call
  cancelling : String → ℕ → Call

abbrev pub target_of : Call → String
target_of (creating id session f now) = id
target_of (completing id now) = id
target_of (failing id err now) = id
target_of (cancelling id now) = id

unfoldable pub perform : TaskStore → Call → TaskStore
unfolding create complete fail cancel
perform s (creating id session f now) = (create id session f now s).1
perform s (completing id now) = (complete id now s).1
perform s (failing id err now) = (fail id err now s).1
perform s (cancelling id now) = (cancel id now s).1

unfoldable pub perform_all : TaskStore → List Call → TaskStore
unfolding perform
perform_all s [] = s
perform_all s (c ∷ calls) = perform_all (perform s c) calls
