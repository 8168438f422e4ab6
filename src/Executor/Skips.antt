-- ===== src/Executor/Skips.antt =====
-- Which tasks services/orchestrator/executor/dag_executor.go skips.
use multi_agent_agent_hub.Prelude.{
  ◌≡◌, refl, ap, ◌∙◌, sym, String, Bool, true, false, Option, none, some, List, [], ◌∷◌, str_eq,
  any, Bool-cases, inl, inr, if-both, eq_refl, arith,
}
use multi_agent_agent_hub.Prelude.Dict.{empty}
use multi_agent_agent_hub.Dag.{TaskPlan}
use multi_agent_agent_hub.Executor.Run.{
  is_failed, mark_failed, set_text, Event, succeeded, failed, skipped, State, first, Agents,
  answered, run_task, run_wave, run_waves,
}

abbrev pub task_of : Event → TaskPlan
task_of (succeeded t text) = t
task_of (failed t) = t
task_of (skipped t) = t

abbrev failure_of : String → Event → Bool
failure_of id (failed t) = str_eq t.task_id id
failure_of id (succeeded t text) = false
failure_of id (skipped t) = false

-- Whether the agent of one of these tasks was called and failed.
abbrev pub some_failed : List String → List Event → Bool
some_failed deps log = any (λ dep. any (failure_of dep) log) deps

abbrev was_skipped : Event → Bool
was_skipped (skipped t) = true
was_skipped (failed t) = false
was_skipped (succeeded t text) = false

-- In a log, the latest event first, a task is skipped just if a dependency of its own failed before.
abbrev pub Skips : List Event → Type 0
Skips [] = Unit
Skips (e ∷ log) = (was_skipped e ≡ some_failed (task_of e).depends_on log) × Skips log

-- Tasks in reverse order before others.
abbrev pub reversed_onto : List TaskPlan → List TaskPlan → List TaskPlan
reversed_onto [] done = done
reversed_onto (t ∷ tasks) done = reversed_onto tasks (t ∷ done)

abbrev pub waves_onto : List (List TaskPlan) → List TaskPlan → List TaskPlan
waves_onto [] done = done
waves_onto (wave ∷ waves) done = waves_onto waves (reversed_onto wave done)

abbrev pub tasks_of : List Event → List TaskPlan
tasks_of [] = []
tasks_of (e ∷ log) = task_of e ∷ tasks_of log

-- The store knows the failures of the log.
record Agrees (s : State) : Type 0 where
  known : (id : String) → is_failed id s.upstream ≡ any (failure_of id) s.log
  skips : Skips s.log

any-same {ℓ} :
    {A : Type ℓ} (p q : A → Bool) (xs : List A) → ((x : A) → p x ≡ q x) → any p xs ≡ any q xs
any-same p q [] h = refl
any-same p q (x ∷ xs) h =
    ap (λ b. elim b [ true ↦ true | false ↦ any p xs ]) (h x)
    ∙ ap (λ r. elim (q x) [ true ↦ true | false ↦ r ]) (any-same p q xs h)

answered-Agrees :
    (o : Option String) (t : TaskPlan) (s : State)
    → some_failed t.depends_on s.log ≡ false
    → Agrees s
    → Agrees (answered o t s)
unfolding is_failed mark_failed set_text
answered-Agrees none t s h k = record {
  known = λ id. ap (λ r. elim (str_eq t.task_id id) [ true ↦ true | false ↦ r ]) (k.known id);
  skips = (sym h, k.skips);
}
answered-Agrees (some text) t s h k = record { known = λ id. k.known id; skips = (sym h, k.skips) }

run_task-Agrees :
    (agents : Agents) (t : TaskPlan) (s : State) → Agrees s → Agrees (run_task agents t s)
unfolding run_task
run_task-Agrees agents t s k =
    let same =
      any-same (λ dep. is_failed dep s.upstream) (λ dep. any (failure_of dep) s.log) t.depends_on
        k.known in
    elim (Bool-cases (any (λ dep. is_failed dep s.upstream) t.depends_on)) [
      | inl bad ↦ rw bad (record { known = k.known; skips = (sym bad ∙ same, k.skips) })
      | inr good ↦ rw good (answered-Agrees (agents t s.upstream.m) t s (sym same ∙ good) k)
    ]

run_wave-Agrees :
    (agents : Agents) (wave : List TaskPlan) (s : State)
    → Agrees s
    → Agrees (run_wave agents wave s)
unfolding run_wave
run_wave-Agrees agents [] s k = k
run_wave-Agrees agents (t ∷ wave) s k =
    run_wave-Agrees agents wave (run_task agents t s) (run_task-Agrees agents t s k)

run_waves-Agrees :
    (agents : Agents) (waves : List (List TaskPlan)) (s : State)
    → Agrees s
    → Agrees (run_waves agents waves s)
unfolding run_waves
run_waves-Agrees agents [] s k = k
run_waves-Agrees agents (wave ∷ waves) s k =
    run_waves-Agrees agents waves (run_wave agents wave s) (run_wave-Agrees agents wave s k)

tasks_of-answered :
    (o : Option String) (t : TaskPlan) (s : State)
    → tasks_of (answered o t s).log ≡ t ∷ tasks_of s.log
tasks_of-answered none t s = refl
tasks_of-answered (some text) t s = refl

tasks_of-run_task :
    (agents : Agents) (t : TaskPlan) (s : State)
    → tasks_of (run_task agents t s).log ≡ t ∷ tasks_of s.log
unfolding run_task
tasks_of-run_task agents t s =
    if-both (λ r. tasks_of r.log ≡ t ∷ tasks_of s.log)
      (any (λ dep. is_failed dep s.upstream) t.depends_on) (record s { log = skipped t ∷ s.log })
      (answered (agents t s.upstream.m) t s) refl (tasks_of-answered (agents t s.upstream.m) t s)

tasks_of-run_wave :
    (agents : Agents) (wave : List TaskPlan) (s : State)
    → tasks_of (run_wave agents wave s).log ≡ reversed_onto wave (tasks_of s.log)
unfolding run_wave
tasks_of-run_wave agents [] s = refl
tasks_of-run_wave agents (t ∷ wave) s =
    tasks_of-run_wave agents wave (run_task agents t s)
    ∙ ap (reversed_onto wave) (tasks_of-run_task agents t s)

tasks_of-run_waves :
    (agents : Agents) (waves : List (List TaskPlan)) (s : State)
    → tasks_of (run_waves agents waves s).log ≡ waves_onto waves (tasks_of s.log)
unfolding run_waves
tasks_of-run_waves agents [] s = refl
tasks_of-run_waves agents (wave ∷ waves) s =
    tasks_of-run_waves agents waves (run_wave agents wave s)
    ∙ ap (waves_onto waves) (tasks_of-run_wave agents wave s)

-- For any agents and waves, each task is handled once, wave by wave and in the order of its wave; it
-- is skipped if an agent failed before on a task that it depends on directly, and else its agent
-- is called.
pub run_waves-Skips :
    (agents : Agents) (waves : List (List TaskPlan))
    → Skips (run_waves agents waves first).log
      × (tasks_of (run_waves agents waves first).log ≡ waves_onto waves [])
unfolding is_failed
run_waves-Skips agents waves =
    let k = run_waves-Agrees agents waves first (record { known = λ id. refl; skips = tt }) in
    (k.skips, tasks_of-run_waves agents waves first)

run_task_skips :
    (agents : Agents) (t : TaskPlan) (s : State)
    → any (λ dep. is_failed dep s.upstream) t.depends_on ≡ true
    → run_task agents t s ≡ record s { log = skipped t ∷ s.log }
unfolding run_task
run_task_skips agents t s bad = rw bad refl

run_task_calls :
    (agents : Agents) (t : TaskPlan) (s : State) (o : Option String)
    → any (λ dep. is_failed dep s.upstream) t.depends_on ≡ false
    → agents t s.upstream.m ≡ o
    → run_task agents t s ≡ answered o t s
unfolding run_task
run_task_calls agents t s o good e = rw good (ap (λ r. answered r t s) e)

-- Three tasks in a chain, where the last depends on the second alone and the second on the first
-- alone, which has another id than the second. If the agent of the first fails and that of the last
-- would answer, the second task is skipped, but the agent of the last is called, without any text.
pub skip_is_not_passed_on :
    (agents : Agents) (a b c : TaskPlan) (text : String)
    → a.depends_on ≡ []
    → b.depends_on ≡ a.task_id ∷ []
    → c.depends_on ≡ b.task_id ∷ []
    → str_eq a.task_id b.task_id ≡ false
    → agents a empty ≡ none
    → agents c empty ≡ some text
    → (run_waves agents ((a ∷ []) ∷ (b ∷ []) ∷ (c ∷ []) ∷ []) first).log
      ≡ succeeded c text ∷ skipped b ∷ failed a ∷ []
unfolding run_waves run_wave run_task is_failed mark_failed set_text
skip_is_not_passed_on agents a b c text da db dc ne fa fc =
    let s1 = answered none a first in
    let s2 = record s1 { log = skipped b ∷ s1.log } in
    let bad = λ (dep : String). is_failed dep s1.upstream in
    let one =
      run_task_calls agents a first none (ap (any (λ dep. is_failed dep first.upstream)) da) fa in
    let two = run_task_skips agents b s1 (ap (any bad) db ∙ ground (arith, eq_refl a.task_id)) in
    let three = run_task_calls agents c s2 (some text) (ap (any bad) dc ∙ ground (arith, ne)) fc in
    ap (λ s. (run_task agents c (run_task agents b s)).log) one
    ∙ (ap (λ s. (run_task agents c s).log) two ∙ ap (λ s. s.log) three)
