-- ===== src/Validator/Rules/Ids.antt =====
-- The ids of the tasks in services/orchestrator/validator/validator.go.
use multi_agent_agent_hub.Prelude.{
  ◌≡◌, ◌↔◌, refl, sym, ◌∙◌, subst, String, false, not, ◌&&◌, ◌||◌, List, [], ◌∷◌, any, str_eq,
  arith, All,
}
use multi_agent_agent_hub.Prelude.Text.{trim_space}
use multi_agent_agent_hub.Dag.{TaskPlan}
use multi_agent_agent_hub.Validator.{
  is_blank, report, contains_id, task_ids, duplicate_errors, add_id, duplicate_task_id,
}
use multi_agent_agent_hub.Validator.Rules.{has_task, Distinct}
use multi_agent_agent_hub.Validator.Rules.Checks.{append-eq-nil, report-eq-nil}

-- The set holds the ids of the tasks and those it held before.
pub contains_id-task_ids :
    (id : String) (seen : List String) (tasks : List TaskPlan)
    → contains_id id (task_ids seen tasks) ≡ (contains_id id seen || has_task tasks id)
unfolding task_ids
contains_id-task_ids id seen [] = ground arith
contains_id-task_ids id seen (t ∷ tasks) =
    let rest = contains_id-task_ids id (add_id t seen) tasks in rest ∙ ground arith

apart_from :
    (id : String) (seen : List String) (tasks : List TaskPlan)
    → All (λ t. contains_id (trim_space t.task_id) (id ∷ seen) ≡ false) tasks ↔ (
        All (λ t. contains_id (trim_space t.task_id) seen ≡ false) tasks
        × (any (λ u. str_eq (trim_space u.task_id) id) tasks ≡ false))
apart_from id seen [] = (λ h. (tt, refl), λ h. tt)
apart_from id seen (t ∷ tasks) =
    let ih = apart_from id seen tasks in
    (
      λ h. let r = ih.0 h.1 in ((ground (arith, h.0), r.0), ground (arith, h.0, r.1)),
      λ h. (ground (arith, h.0, h.1), ih.1 (h.0.1, ground (arith, h.1))),
    )

pub duplicate_errors-Distinct :
    (seen : List String) (tasks : List TaskPlan)
    → All (λ t. is_blank t.task_id ≡ false) tasks
    → (duplicate_errors seen tasks ≡ [])
      ↔ (All (λ t. contains_id (trim_space t.task_id) seen ≡ false) tasks × Distinct tasks)
unfolding duplicate_errors
duplicate_errors-Distinct seen [] named = (λ h. (tt, tt), λ h. refl)
duplicate_errors-Distinct seen (t ∷ tasks) named =
    let id = trim_space t.task_id in
    let split =
      append-eq-nil
        (report (not (is_blank t.task_id) && contains_id id seen) (duplicate_task_id id)) _ in
    let here =
      report-eq-nil (not (is_blank t.task_id) && contains_id id seen) (duplicate_task_id id) in
    let ih = duplicate_errors-Distinct (add_id t seen) tasks named.1 in
    let apart = apart_from id seen tasks in
    let adds : add_id t seen ≡ id ∷ seen = rw named.0 refl in
    let Fresh =
      λ (ids : List String). All (λ u. contains_id (trim_space u.task_id) ids ≡ false) tasks in
    (
      λ h.
          let (a, b) = split.0 h in
          let (fresh, distinct) = ih.0 b in
          let (old, alone) = apart.0 (subst Fresh adds fresh) in
          ((ground (arith, here.0 a, named.0), old), (alone, distinct)),
      λ h. split.1 (
        here.1 (ground (arith, h.0, named.0)),
        ih.1 (subst Fresh (sym adds) (apart.1 (h.0.1, h.1.0)), h.1.1),
      ),
    )
