-- ===== src/TaskStore/Lifecycle.antt =====
-- The states of a task of pkg/adk/a2a/task_store.go over any calls, and the calls of cancel functions.
use multi_agent_agent_hub.Prelude.{
  ℕ, ◌≡◌, refl, ap, ◌∙◌, String, Bool, true, false, Option, none, some, List, [], ◌∷◌, str_eq,
  eq_iff, arith, Bool-cases, inl, inr,
}
use multi_agent_agent_hub.Prelude.Dict.{lookup, lookup-insert}
use multi_agent_agent_hub.TaskStore.{
  TaskStatus, completed, Task, TaskStore, is_terminal_task_status, put, create, create_on,
  transition, transition_on, complete, fail, fail_on, cancel, cancel_on, call, Call, creating,
  completing, failing, cancelling, perform, perform_all,
}

-- Whether a slot of the store takes no further transition.
abbrev is_ended : Option Task → Bool
is_ended none = false
is_ended (some t) = is_terminal_task_status t.status

module _ (id : String) (t : Task) (end : is_terminal_task_status t.status ≡ true) where
  Kept : TaskStore → Type 0
  Kept s = lookup id s.tasks ≡ some t

  put-Kept :
      (j : String) (u : Task) (s : TaskStore)
      → is_ended (lookup j s.tasks) ≡ false
      → Kept s
      → Kept (put j u s)
  unfolding Kept
  put-Kept j u s alive h = elim (Bool-cases (str_eq j id)) [
    | inl eq ↦
        let at_id : is_ended (lookup j s.tasks) ≡ true =
          ap (λ k. is_ended (lookup k s.tasks)) ((eq_iff j id).0 eq) ∙ (ap is_ended h ∙ end) in
        ground (arith, alive, at_id)
    | inr ne ↦ lookup-insert j id u s.tasks ∙ (rw ne h)
  ]

  create_on-Kept :
      (found : Option Task) (j session : String) (f : Option ℕ) (now : ℕ) (s : TaskStore)
      → lookup j s.tasks ≡ found
      → Kept s
      → Kept (create_on found j session f now s).1
  create_on-Kept (some u) j session f now s e h = h
  create_on-Kept none j session f now s e h = put-Kept j _ s (ap is_ended e) h

  transition_on-Kept :
      (found : Option Task) (j : String) (target : TaskStatus) (now : ℕ) (s : TaskStore)
      → lookup j s.tasks ≡ found
      → Kept s
      → Kept (transition_on found j target now s).1
  transition_on-Kept none j target now s e h = h
  transition_on-Kept (some u) j target now s e h =
      elim (Bool-cases (is_terminal_task_status u.status)) [
        | inl done ↦ rw done h
        | inr alive ↦ rw alive (put-Kept j _ s (ap is_ended e ∙ alive) h)
      ]

  fail_on-Kept :
      (found : Option Task) (j : String) (err : Option String) (now : ℕ) (s : TaskStore)
      → lookup j s.tasks ≡ found
      → Kept s
      → Kept (fail_on found j err now s).1
  fail_on-Kept none j err now s e h = h
  fail_on-Kept (some u) j err now s e h = elim (Bool-cases (is_terminal_task_status u.status)) [
    | inl done ↦ rw done h
    | inr alive ↦ rw alive (put-Kept j _ s (ap is_ended e ∙ alive) h)
  ]

  call-Kept : (f : Option ℕ) (s : TaskStore) → Kept s → Kept (call f s)
  unfolding Kept
  call-Kept none s h = h
  call-Kept (some f) s h = h

  cancel_on-Kept :
      (found : Option Task) (j : String) (now : ℕ) (s : TaskStore)
      → lookup j s.tasks ≡ found
      → Kept s
      → Kept (cancel_on found j now s).1
  cancel_on-Kept none j now s e h = h
  cancel_on-Kept (some u) j now s e h = elim (Bool-cases (is_terminal_task_status u.status)) [
    | inl done ↦ rw done h
    | inr alive ↦ rw alive (call-Kept u.cancel_func _ (put-Kept j _ s (ap is_ended e ∙ alive) h))
  ]

  perform-Kept : (c : Call) (s : TaskStore) → Kept s → Kept (perform s c)
  unfolding perform create complete transition fail cancel
  perform-Kept (creating j session f now) s h =
      create_on-Kept (lookup j s.tasks) j session f now s refl h
  perform-Kept (completing j now) s h =
      transition_on-Kept (lookup j s.tasks) j completed now s refl h
  perform-Kept (failing j err now) s h = fail_on-Kept (lookup j s.tasks) j err now s refl h
  perform-Kept (cancelling j now) s h = cancel_on-Kept (lookup j s.tasks) j now s refl h

  -- A task that is completed, failed or cancelled stays exactly as it is, over any later calls.
  pub terminal_is_final :
      (s : TaskStore) (calls : List Call)
      → lookup id s.tasks ≡ some t
      → lookup id (perform_all s calls).tasks ≡ some t
  unfolding perform_all Kept
  terminal_is_final s [] h = h
  terminal_is_final s (c ∷ calls) h = terminal_is_final (perform s c) calls (perform-Kept c s h)
