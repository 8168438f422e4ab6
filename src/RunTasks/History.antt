-- ===== src/RunTasks/History.antt =====
-- What services/orchestrator/registry/run_task_registry.go knows of a run, by the calls made so far.
use multi_agent_agent_hub.Prelude.{
  ℕ, ◌≡◌, refl, ap, ◌∙◌, sym, String, Bool, true, false, not, ◌||◌, ◌&&◌, Option, none, some, List,
  [], ◌∷◌, ◌++◌, str_eq, eq_iff, any, if◌then◌else◌, Bool-cases, inl, inr, arith,
}
use multi_agent_agent_hub.Prelude.Dict.{lookup, lookup-insert, lookup-erase}
use multi_agent_agent_hub.RunTasks.{
  TaskRef, RunTaskState, RunTaskRegistry, new_run_task_registry, state_or_new, with_cancel, put,
  same_ref, add_ref, register_run, register_task, get_tasks, refs_of, call, cancel_on, cancel_run,
  is_cancelled, cancelled_of, remove_run, Call, register_run_call, register_task_call,
  cancel_run_call, remove_run_call, perform, replay,
}

-- What is known of a run: whether it is cancelled, and its references, oldest first.
abbrev pub Known : Type 0
Known = Option (Bool × List TaskRef)

abbrev known_or_new : Known → Bool × List TaskRef
known_or_new none = (false, [])
known_or_new (some k) = k

-- The references count as the same where both the task and the agent are.
abbrev is_pair : TaskRef → TaskRef → Bool
is_pair a b = str_eq a.agent_name b.agent_name && str_eq a.task_id b.task_id

abbrev with_ref : TaskRef → Bool × List TaskRef → Bool × List TaskRef
with_ref ref (c, refs) = (c, if any (is_pair ref) refs then refs else refs ++ ref ∷ [])

abbrev cancelled_known : Known → Known
cancelled_known none = none
cancelled_known (some (c, refs)) = some (true, refs)

-- What a call changes for the run that it is about.
abbrev change : Call → Known → Known
change (register_run_call run_id f) k = some (known_or_new k)
change (register_task_call run_id ref) k = some (with_ref ref (known_or_new k))
change (cancel_run_call run_id) k = cancelled_known k
change (remove_run_call run_id) k = none

-- Whether a call is about a run; a call with an empty run id or task id registers nothing.
abbrev concerns : String → Call → Bool
concerns run_id (register_run_call r f) = not (str_eq r "") && str_eq r run_id
concerns run_id (register_task_call r ref) =
    not (str_eq r "" || str_eq ref.task_id "") && str_eq r run_id
concerns run_id (cancel_run_call r) = str_eq r run_id
concerns run_id (remove_run_call r) = str_eq r run_id

abbrev pub known : String → List Call → Known
known run_id [] = none
known run_id (c ∷ calls) =
    let before = known run_id calls in if concerns run_id c then change c before else before

abbrev view : Option RunTaskState → Known
view none = none
view (some s) = some (s.cancelled, s.task_refs)

view-if :
    (c : Bool) (x y : Option RunTaskState)
    → view (if c then x else y) ≡ (if c then view x else view y)
view-if true x y = refl
view-if false x y = refl

-- A registry's state of a run.
View : String → RunTaskRegistry → Known
View run_id r = view (lookup run_id r.runs)

put-view :
    (j run_id : String) (s : RunTaskState) (r : RunTaskRegistry)
    → View run_id (put j s r)
      ≡ (if str_eq j run_id then some (s.cancelled, s.task_refs) else View run_id r)
unfolding View
put-view j run_id s r =
    rw (lookup-insert j run_id s r.runs) (view-if (str_eq j run_id) (some s) (lookup run_id r.runs))

new-view :
    (f : Option ℕ) (o : Option RunTaskState)
    → view (some (with_cancel f (state_or_new o))) ≡ some (known_or_new (view o))
new-view none none = refl
new-view none (some s) = refl
new-view (some g) none = refl
new-view (some g) (some s) = refl

any-is_pair :
    (ref : TaskRef) (refs : List TaskRef) → any (same_ref ref) refs ≡ any (is_pair ref) refs
any-is_pair ref [] = refl
any-is_pair ref (e ∷ refs) = ground (
  arith,
  any-is_pair ref refs,
  eq_iff e.task_id ref.task_id,
  eq_iff ref.task_id e.task_id,
  eq_iff e.agent_name ref.agent_name,
  eq_iff ref.agent_name e.agent_name,
)

ref-view :
    (ref : TaskRef) (o : Option RunTaskState)
    → view (some (record (state_or_new o) { task_refs = add_ref ref (state_or_new o).task_refs }))
      ≡ some (with_ref ref (known_or_new (view o)))
unfolding add_ref
ref-view ref none = refl
ref-view ref (some s) =
    ap (λ b. some (s.cancelled, if b then s.task_refs else s.task_refs ++ ref ∷ []))
      (any-is_pair ref s.task_refs)

call-view :
    (run_id : String) (f : Option ℕ) (r : RunTaskRegistry) → View run_id (call f r) ≡ View run_id r
unfolding View
call-view run_id none r = refl
call-view run_id (some f) r = refl

module _ (run_id : String) where
  put_change :
      (j : String) (s : RunTaskState) (r : RunTaskRegistry) (ch : Known → Known)
      → view (some s) ≡ ch (View j r)
      → View run_id (put j s r) ≡ (if str_eq j run_id then ch (View run_id r) else View run_id r)
  put_change j s r ch e = put-view j run_id s r ∙ elim (Bool-cases (str_eq j run_id)) [
    | inl eq ↦ rw eq (e ∙ ap (λ k. ch (View k r)) ((eq_iff j run_id).0 eq))
    | inr ne ↦ rw ne refl
  ]

  register_run-view :
      (j : String) (f : Option ℕ) (r : RunTaskRegistry)
      → View run_id (register_run j f r) ≡ (
          if concerns run_id (register_run_call j f)
          then change (register_run_call j f) (View run_id r)
          else View run_id r)
  unfolding register_run
  register_run-view j f r = elim (Bool-cases (str_eq j "")) [
    | inl blank ↦ rw blank refl
    | inr good ↦ rw good (
        put_change j (with_cancel f (state_or_new (lookup j r.runs))) r (λ k. some (known_or_new k))
          (unfold View in new-view f (lookup j r.runs)))
  ]

  register_task-view :
      (j : String) (ref : TaskRef) (r : RunTaskRegistry)
      → View run_id (register_task j ref r) ≡ (
          if concerns run_id (register_task_call j ref)
          then change (register_task_call j ref) (View run_id r)
          else View run_id r)
  unfolding register_task
  register_task-view j ref r =
      let s = state_or_new (lookup j r.runs) in
      elim (Bool-cases (str_eq j "" || str_eq ref.task_id "")) [
        | inl blank ↦ rw blank refl
        | inr good ↦ rw good (
            put_change j (record s { task_refs = add_ref ref s.task_refs }) r
              (λ k. some (with_ref ref (known_or_new k)))
              (unfold View in ref-view ref (lookup j r.runs)))
      ]

  cancel_on-view :
      (found : Option RunTaskState) (j : String) (r : RunTaskRegistry)
      → lookup j r.runs ≡ found
      → View run_id (cancel_on found j r).1
        ≡ (if str_eq j run_id then cancelled_known (View run_id r) else View run_id r)
  unfolding View
  cancel_on-view none j r e = elim (Bool-cases (str_eq j run_id)) [
    | inl eq ↦
        let missing : lookup run_id r.runs ≡ none =
          ap (λ k. lookup k r.runs) (sym ((eq_iff j run_id).0 eq)) ∙ e in
        rw (eq, missing) refl
    | inr ne ↦ rw ne refl
  ]
  cancel_on-view (some s) j r e =
      call-view run_id s.cancel_func (put j (record s { cancelled = true; cancel_func = none }) r)
      ∙ put_change j (record s { cancelled = true; cancel_func = none }) r cancelled_known
          (sym (ap (λ o. cancelled_known (view o)) e))

  remove_run-view :
      (j : String) (r : RunTaskRegistry)
      → View run_id (remove_run j r) ≡ (if str_eq j run_id then none else View run_id r)
  unfolding remove_run View
  remove_run-view j r =
      rw (lookup-erase j run_id r.runs) (view-if (str_eq j run_id) none (lookup run_id r.runs))

  perform-view :
      (c : Call) (r : RunTaskRegistry)
      → View run_id (perform r c)
        ≡ (if concerns run_id c then change c (View run_id r) else View run_id r)
  unfolding perform
  perform-view (register_run_call j f) r = register_run-view j f r
  perform-view (register_task_call j ref) r = register_task-view j ref r
  perform-view (cancel_run_call j) r =
      unfold cancel_run in cancel_on-view (lookup j r.runs) j r refl
  perform-view (remove_run_call j) r = remove_run-view j r

  replay-view : (calls : List Call) → View run_id (replay calls) ≡ known run_id calls
  unfolding replay
  replay-view [] = unfold View new_run_task_registry lookup in refl
  replay-view (c ∷ calls) =
      perform-view c (replay calls)
      ∙ ap (λ k. if concerns run_id c then change c k else k) (replay-view calls)

abbrev pub refs_known : Known → Option (List TaskRef)
refs_known none = none
refs_known (some (c, refs)) = some refs

abbrev pub is_known_cancelled : Known → Bool
is_known_cancelled none = false
is_known_cancelled (some (c, refs)) = c

refs-view : (o : Option RunTaskState) → refs_of o ≡ refs_known (view o)
refs-view none = refl
refs-view (some s) = refl

cancelled-view : (o : Option RunTaskState) → cancelled_of o ≡ is_known_cancelled (view o)
cancelled-view none = refl
cancelled-view (some s) = refl

cancelled_refs-view :
    (o : Option RunTaskState) (run_id : String) (r : RunTaskRegistry)
    → (cancel_on o run_id r).0 ≡ refs_known (view o)
cancelled_refs-view none run_id r = refl
cancelled_refs-view (some s) run_id r = refl

-- After any calls, what GetTasks and CancelRun report of a run are its references, without a
-- duplicate pair of task and agent, in the order of their first registration since the last
-- RemoveRun, and IsCancelled reports whether CancelRun found the run since then. Calls about
-- other runs, or with an empty run or task id, change none of this.
pub replay-known :
    (run_id : String) (calls : List Call)
    → (get_tasks run_id (replay calls) ≡ refs_known (known run_id calls))
      × ((cancel_run run_id (replay calls)).0 ≡ refs_known (known run_id calls))
      × (is_cancelled run_id (replay calls) ≡ is_known_cancelled (known run_id calls))
unfolding get_tasks cancel_run is_cancelled View
replay-known run_id calls =
    let o = lookup run_id (replay calls).runs in
    let e = replay-view run_id calls in
    (
      refs-view o ∙ ap refs_known e,
      cancelled_refs-view o run_id (replay calls) ∙ ap refs_known e,
      cancelled-view o ∙ ap is_known_cancelled e,
    )
