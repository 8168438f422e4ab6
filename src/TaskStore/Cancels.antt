-- ===== src/TaskStore/Cancels.antt =====
-- How often pkg/adk/a2a/task_store.go calls a cancel function that it was given.
use multi_agent_agent_hub.Prelude.{
  ℕ, ◌+◌, ◌≤◌, ◌≡◌, refl, ap, ◌∙◌, sym, String, Option, none, some, List, [], ◌∷◌, str_eq, ◌==◌,
  if◌then◌else◌, arith, Bool-cases, inl, inr,
}
use multi_agent_agent_hub.Prelude.Dict.{Dict, lookup, insert}
use multi_agent_agent_hub.TaskStore.{
  TaskStatus, completed, cancelled, Task, TaskStore, new_task_store, created,
  is_terminal_task_status, put, create, create_on, transition, transition_on, complete, fail,
  fail_on, cancel, cancel_on, call, Call, creating, completing, failing, cancelling, perform,
  perform_all,
}

abbrev is_func : ℕ → Option ℕ → ℕ
is_func f none = 0
is_func f (some g) = if f == g then 1 else 0

-- How often `f` stands in a list of calls.
abbrev pub times : ℕ → List ℕ → ℕ
times f [] = 0
times f (g ∷ gs) = is_func f (some g) + times f gs

-- How many tasks of a store hold `f`.
holders : ℕ → Dict Task → ℕ
holders f [] = 0
holders f ((k, t) ∷ m) = is_func f t.cancel_func + holders f m

held : ℕ → Option Task → ℕ
held f none = 0
held f (some t) = is_func f t.cancel_func

-- How often `f` is given to the store.
abbrev given_by : ℕ → Call → ℕ
given_by f (creating id session g now) = is_func f g
given_by f (completing id now) = 0
given_by f (failing id err now) = 0
given_by f (cancelling id now) = 0

abbrev pub given : ℕ → List Call → ℕ
given f [] = 0
given f (c ∷ calls) = given_by f c + given f calls

holders-insert :
    (f : ℕ) (k : String) (t : Task) (m : Dict Task)
    → holders f (insert k t m) + held f (lookup k m) ≡ holders f m + is_func f t.cancel_func
unfolding holders held insert lookup
holders-insert f k t [] = omega arith
holders-insert f k t ((j, u) ∷ m) = elim (Bool-cases (str_eq j k)) [
  | inl eq ↦ rw eq (omega arith)
  | inr ne ↦ rw ne (omega (arith, holders-insert f k t m))
]

-- The calls of `f` so far and those that the store may still make.
total : ℕ → TaskStore → ℕ
total f s = times f s.called + holders f s.tasks

module _ (f : ℕ) where
  put-total :
      (k : String) (t u : Task) (s : TaskStore)
      → lookup k s.tasks ≡ some u
      → t.cancel_func ≡ u.cancel_func
      → total f (put k t s) ≡ total f s
  unfolding total held
  put-total k t u s e same =
      let p = holders-insert f k t s.tasks in
      let q : held f (lookup k s.tasks) ≡ is_func f t.cancel_func =
        ap (held f) e ∙ ap (is_func f) (sym same) in
      omega (arith, p, q)

  create_on-total :
      (found : Option Task) (k session : String) (g : Option ℕ) (now : ℕ) (s : TaskStore)
      → lookup k s.tasks ≡ found
      → total f (create_on found k session g now s).1 ≤ total f s + is_func f g
  create_on-total (some u) k session g now s e = omega arith
  create_on-total none k session g now s e =
      unfold total in omega (arith, holders-insert f k (created k session g now) s.tasks)

  transition_on-total :
      (found : Option Task) (k : String) (target : TaskStatus) (now : ℕ) (s : TaskStore)
      → lookup k s.tasks ≡ found
      → total f (transition_on found k target now s).1 ≡ total f s
  transition_on-total none k target now s e = refl
  transition_on-total (some u) k target now s e =
      elim (Bool-cases (is_terminal_task_status u.status)) [
        | inl done ↦ rw done refl
        | inr alive ↦ rw alive (put-total k _ u s e refl)
      ]

  fail_on-total :
      (found : Option Task) (k : String) (err : Option String) (now : ℕ) (s : TaskStore)
      → lookup k s.tasks ≡ found
      → total f (fail_on found k err now s).1 ≡ total f s
  fail_on-total none k err now s e = refl
  fail_on-total (some u) k err now s e = elim (Bool-cases (is_terminal_task_status u.status)) [
    | inl done ↦ rw done refl
    | inr alive ↦ rw alive (put-total k _ u s e refl)
  ]

  call-total : (g : Option ℕ) (s : TaskStore) → total f (call g s) ≡ total f s + is_func f g
  unfolding total
  call-total none s = omega arith
  call-total (some g) s = omega arith

  cleared-total :
      (k : String) (t u : Task) (s : TaskStore)
      → lookup k s.tasks ≡ some u
      → t.cancel_func ≡ none
      → total f (put k t s) + is_func f u.cancel_func ≡ total f s
  unfolding total held
  cleared-total k t u s e gone =
      let p = holders-insert f k t s.tasks in
      let q : held f (lookup k s.tasks) ≡ is_func f u.cancel_func = ap (held f) e in
      let r : is_func f t.cancel_func ≡ 0 = ap (is_func f) gone in omega (arith, p, q, r)

  cancel_on-total :
      (found : Option Task) (k : String) (now : ℕ) (s : TaskStore)
      → lookup k s.tasks ≡ found
      → total f (cancel_on found k now s).1 ≡ total f s
  cancel_on-total none k now s e = refl
  cancel_on-total (some u) k now s e = elim (Bool-cases (is_terminal_task_status u.status)) [
    | inl done ↦ rw done refl
    | inr alive ↦
        let t = record u { status = cancelled; updated_at = now; cancel_func = none } in
        rw alive (call-total u.cancel_func (put k t s) ∙ cleared-total k t u s e refl)
  ]

  perform-total : (c : Call) (s : TaskStore) → total f (perform s c) ≤ total f s + given_by f c
  unfolding perform create complete transition fail cancel
  perform-total (creating k session g now) s =
      create_on-total (lookup k s.tasks) k session g now s refl
  perform-total (completing k now) s =
      omega (arith, transition_on-total (lookup k s.tasks) k completed now s refl)
  perform-total (failing k err now) s =
      omega (arith, fail_on-total (lookup k s.tasks) k err now s refl)
  perform-total (cancelling k now) s =
      omega (arith, cancel_on-total (lookup k s.tasks) k now s refl)

  perform_all-total :
      (calls : List Call) (s : TaskStore)
      → total f (perform_all s calls) ≤ total f s + given f calls
  unfolding perform_all
  perform_all-total [] s = omega arith
  perform_all-total (c ∷ calls) s =
      omega (arith, perform-total c s, perform_all-total calls (perform s c))

-- Over any calls of an empty store, a cancel function is called at most as often as it was given to
-- Create: one that is given once is called at most once.
pub cancels_bounded :
    (f : ℕ) (calls : List Call) → times f (perform_all new_task_store calls).called ≤ given f calls
unfolding total new_task_store holders
cancels_bounded f calls = omega (arith, perform_all-total f calls new_task_store)
