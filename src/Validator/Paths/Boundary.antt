-- ===== src/Validator/Paths/Boundary.antt =====
-- services/orchestrator/validator/path_validator.go lets no agent outside the boundary into a plan.
use multi_agent_agent_hub.Prelude.{
  ℕ, suc, ◌≤◌, ◌≡◌, ◌↔◌, refl, inl, inr, String, Bool, true, false, not, ◌&&◌, some, List, [], ◌∷◌,
  map, length, ltb, ◌==◌, str_eq, if◌then◌else◌, Bool-cases, arith, All,
}
use multi_agent_agent_hub.Validator.{OrchestrationPlan, report, reports, strategy_conversational}
use multi_agent_agent_hub.Validator.Rules.Checks.{
  append-eq-nil, report-eq-nil, reports-eq-nil, cons-ne-nil, cons_if-nil,
}
use multi_agent_agent_hub.Validator.Paths.{
  NameError, PathError, in_task, in_participant, single_chat_too_many, PathAwareValidator, key,
  allowed_set, in_set, is_empty, name_checks, name_errors, task_names, participant_names,
  wrong_agents, participant_errors, validate_participants, validate_path, missing_steps,
  group_chat_no_participants, auto_no_participants,
}

-- A name that is not blank and, where there is a boundary, stands in it.
abbrev pub IsInside : PathAwareValidator → String → Type 0
IsInside v name =
    (str_eq (key v name) "" ≡ false) × (is_empty (allowed_set v) ≡ false → in_set v name ≡ true)

-- What the validator asks of a plan.
pub record KeepsBoundary (v : PathAwareValidator) (p : OrchestrationPlan) : Type 0 where
  pub some_tasks : str_eq p.strategy strategy_conversational ≡ false → 1 ≤ length p.tasks
  pub some_participants :
      str_eq p.strategy strategy_conversational ≡ false → 1 ≤ length p.participants
  pub tasks : All (IsInside v) (task_names p)
  pub participants : All (IsInside v) (participant_names p)
  pub one : str_eq v.execution_path "single_chat" ≡ true → length p.participants ≤ 1

map-eq-nil {ℓ κ} : {A : Type ℓ} {B : Type κ} (f : A → B) (xs : List A) → (map f xs ≡ []) ↔ (xs ≡ [])
map-eq-nil f [] = (λ h. refl, λ h. refl)
map-eq-nil f (x ∷ xs) = (λ h. absurd (cons-ne-nil h), λ h. absurd (cons-ne-nil h))

module _ (v : PathAwareValidator) where
  name_checks-IsInside :
      (name : String) → All (λ c. c.0 ≡ false) (name_checks v name) ↔ IsInside v name
  name_checks-IsInside name = (λ h. ground arith, λ h. ground (arith, h.1))

  name_errors-All :
      (place : ℕ → NameError → PathError) (i : ℕ) (names : List String)
      → (name_errors v place i names ≡ []) ↔ All (IsInside v) names
  unfolding name_errors
  name_errors-All place i [] = (λ h. tt, λ h. refl)
  name_errors-All place i (name ∷ names) =
      let found = map-eq-nil (place i) (reports (name_checks v name)) in
      let clear = reports-eq-nil (name_checks v name) in
      let inside = name_checks-IsInside name in
      let split = append-eq-nil (map (place i) (reports (name_checks v name))) _ in
      let rest = name_errors-All place (suc i) names in
      (
        λ h. (inside.0 (clear.0 (found.0 (split.0 h).0)), rest.0 (split.0 h).1),
        λ h. split.1 (found.1 (clear.1 (inside.1 h.0)), rest.1 h.1),
      )

  -- Of names inside the boundary none is wrong.
  wrong_agents-eq-nil :
      (names : List String)
      → is_empty (allowed_set v) ≡ false
      → All (IsInside v) names
      → wrong_agents v names ≡ []
  unfolding wrong_agents
  wrong_agents-eq-nil [] some_allowed h = refl
  wrong_agents-eq-nil (name ∷ names) some_allowed h =
      ground (arith, wrong_agents-eq-nil names some_allowed h.1, h.0.1 some_allowed)

one_allowed :
    (v : PathAwareValidator) → length v.allowed_agents ≡ 1 → is_empty (allowed_set v) ≡ false
one_allowed v h =
    elim v.allowed_agents as (λ agents. length agents ≡ 1 → is_empty (map (key v) agents) ≡ false) [
      | [] ↦ λ e. absurd (omega (arith, e))
      | a ∷ agents ↦ λ e. refl
    ]
      h

module _ (v : PathAwareValidator) (p : OrchestrationPlan) where
  abbrev wrong_ones : Bool → List PathError
  wrong_ones b = if b then wrong_agents v (participant_names p) else []

  no_wrong_ones :
      (single : Bool)
      → All (IsInside v) (participant_names p)
      → wrong_ones (single && length v.allowed_agents == 1) ≡ []
  no_wrong_ones single inside = elim (Bool-cases (single && length v.allowed_agents == 1)) [
    | inl sole ↦
        let exactly : length v.allowed_agents ≡ 1 = ground (arith, sole) in
        rw sole (wrong_agents-eq-nil v (participant_names p) (one_allowed v exactly) inside)
    | inr other ↦ rw other refl
  ]

  abbrev Permitted : Type 0
  Permitted =
      All (IsInside v) (participant_names p)
      × (str_eq v.execution_path "single_chat" ≡ true → length p.participants ≤ 1)

  -- The last two rules never apply: a plan with no participants that is not conversational has been
  -- refused before.
  participant_errors-Permitted :
      (not (str_eq p.strategy strategy_conversational) && length p.participants == 0) ≡ false
      → (participant_errors v p ≡ []) ↔ Permitted
  participant_errors-Permitted some_one =
      let n = length p.participants in
      let single = str_eq v.execution_path "single_chat" in
      let names = append-eq-nil (name_errors v in_participant 0 (participant_names p)) _ in
      let many = append-eq-nil (report (single && ltb 1 n) (single_chat_too_many n)) _ in
      let sole = append-eq-nil (wrong_ones (single && length v.allowed_agents == 1)) _ in
      let group =
        append-eq-nil
          (report
            (str_eq v.execution_path "group_chat"
              && not (str_eq p.strategy strategy_conversational)
              && n == 0)
            group_chat_no_participants)
          _ in
      let inside = name_errors-All v in_participant 0 (participant_names p) in
      let few = report-eq-nil (single && ltb 1 n) (single_chat_too_many n) in
      (
        λ h.
            let (a, rest) = names.0 h in
            let b = few.0 (many.0 rest).0 in (inside.0 a, λ s. ground (arith, b, s)),
        λ h. names.1 (
          inside.1 h.0,
          many.1 (
            few.1 (ground (arith, h.1)),
            sole.1 (
              no_wrong_ones single h.0,
              group.1 (
                (report-eq-nil _ group_chat_no_participants).1 (ground (arith, some_one)),
                (report-eq-nil _ auto_no_participants).1 (ground (arith, some_one)),
              ),
            ),
          ),
        ),
      )

  validate_participants-Permitted : (validate_participants v p ≡ []) ↔ (
      ((not (str_eq p.strategy strategy_conversational) && length p.participants == 0) ≡ false)
      × Permitted)
  unfolding validate_participants
  validate_participants-Permitted =
      let branch =
        cons_if-nil (not (str_eq p.strategy strategy_conversational) && length p.participants == 0)
          _ (participant_errors v p) in
      (
        λ h. ((branch.0 h).0, (participant_errors-Permitted (branch.0 h).0).0 (branch.0 h).1),
        λ h. branch.1 (h.0, (participant_errors-Permitted h.0).1 h.1),
      )

  -- For any path, boundary and plan, the validator finds no error exactly if every task and every
  -- participant has an agent's name inside the boundary, any name where no boundary is given; a plan that
  -- is not conversational has a task and a participant; and a single chat has one participant at most.
  pub validate_path-KeepsBoundary : (validate_path v (some p) ≡ []) ↔ KeepsBoundary v p
  unfolding validate_path
  validate_path-KeepsBoundary =
      let none_missing =
        report-eq-nil (not (str_eq p.strategy strategy_conversational) && length p.tasks == 0)
          missing_steps in
      let steps = append-eq-nil (report _ missing_steps) _ in
      let names = append-eq-nil (name_errors v in_task 0 (task_names p)) _ in
      let tasks = name_errors-All v in_task 0 (task_names p) in
      let people = validate_participants-Permitted in
      (
        λ h.
            let (a, rest) = steps.0 h in
            let (b, c) = names.0 rest in
            let some_task = none_missing.0 a in
            let (some_one, permitted) = people.0 c in
            record {
              some_tasks = λ talk. ground (arith, some_task, talk);
              some_participants = λ talk. ground (arith, some_one, talk);
              tasks = tasks.0 b;
              participants = permitted.0;
              one = permitted.1;
            },
        λ k. steps.1 (
          none_missing.1 (ground (arith, k.some_tasks)),
          names.1 (
            tasks.1 k.tasks,
            people.1 (ground (arith, k.some_participants), (k.participants, k.one)),
          ),
        ),
      )
