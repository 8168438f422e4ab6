-- ===== src/Pruning/Pairs.antt =====
-- EnsurePairedFunctionCalls of pkg/runtime/pruning/pruner.go.
use multi_agent_agent_hub.Prelude.{
  ◌≡◌, refl, ap, ◌∙◌, subst, ◌⊎◌, if-both, String, Bool, true, false, Option, none, some, List, [],
  ◌∷◌, any, str_eq, eq_refl, if◌then◌else◌, Bool-cases, inl, inr, arith, All,
}
use multi_agent_agent_hub.Pruning.{
  answers, Part, text, thinking, tool_call, tool_result, tool, Content, Contents, has_answer,
  has_tool_result_after, missing_result, missing_part, missing_parts, missing_of, added,
  is_assistant_role, ensure_paired_function_calls,
}

-- A call has its result in what follows.
abbrev pub IsAnswered : Contents → Part → Type 0
IsAnswered later (text s) = Unit
IsAnswered later (thinking s) = Unit
IsAnswered later (tool_result r) = Unit
IsAnswered later (tool_call c) = has_tool_result_after later c.id ≡ true

abbrev AnsweredParts : Bool → Contents → List Part → Type 0
AnsweredParts true later parts = All (IsAnswered later) parts
AnsweredParts false later parts = Unit

-- Each call of an assistant's content.
abbrev pub CallsAnswered : Contents → Option Content → Type 0
CallsAnswered later none = Unit
CallsAnswered later (some c) = AnsweredParts (is_assistant_role c.role) later c.parts

abbrev pub Paired : Contents → Type 0
Paired [] = Unit
Paired (c ∷ later) = CallsAnswered later c × Paired later

-- The search through the contents stops at the first result.
abbrev first_or : Bool → Bool → Bool
first_or b later = elim b [ true ↦ true | false ↦ later ]

later_answer :
    (id : String) (c : Option Content) (later : Contents)
    → has_tool_result_after later id ≡ true
    → has_tool_result_after (c ∷ later) id ≡ true
later_answer id c later h = elim (Bool-cases (has_answer id c)) [
  | inl here ↦ ap (λ b. first_or b (has_tool_result_after later id)) here
  | inr there ↦ ap (λ b. first_or b (has_tool_result_after later id)) there ∙ h
]

answer_past_added :
    (id : String) (parts : List Part) (rest : Contents)
    → has_tool_result_after rest id ≡ true
    → has_tool_result_after (added parts rest) id ≡ true
answer_past_added id [] rest h = h
answer_past_added id (p ∷ parts) rest h =
    later_answer id (some (record { role = tool; parts = p ∷ parts })) rest h

-- What has a result before has it after the results are added.
still_answered :
    (id : String) (contents : Contents)
    → has_tool_result_after contents id ≡ true
    → has_tool_result_after (ensure_paired_function_calls contents) id ≡ true
unfolding ensure_paired_function_calls
still_answered id [] h = h
still_answered id (c ∷ later) h =
    let ih = still_answered id later in
    elim (Bool-cases (has_answer id c)) [
      | inl here ↦
          ap
            (λ b. first_or b (
              has_tool_result_after
                (added (missing_of later c) (ensure_paired_function_calls later)) id))
            here
      | inr there ↦
          let before : has_tool_result_after later id ≡ true =
            subst (λ b. elim b [ true ↦ true | false ↦ has_tool_result_after later id ] ≡ true)
              there h in
          ap
            (λ b. first_or b (
              has_tool_result_after
                (added (missing_of later c) (ensure_paired_function_calls later)) id))
            there
          ∙ answer_past_added id (missing_of later c) (ensure_paired_function_calls later)
              (ih before)
    ]

-- A call has its result later, or among the results that are added.
abbrev Found : Contents → List Part → Part → Type 0
Found later ms (text s) = Unit
Found later ms (thinking s) = Unit
Found later ms (tool_result r) = Unit
Found later ms (tool_call c) =
    (has_tool_result_after later c.id ≡ true) ⊎ (any (answers c.id) ms ≡ true)

module _ (later : Contents) where
  answer_in_more :
      (id : String) (q : Part) (ms : List Part)
      → any (answers id) ms ≡ true
      → any (answers id) (missing_part later q ms) ≡ true
  answer_in_more id (text s) ms h = h
  answer_in_more id (thinking s) ms h = h
  answer_in_more id (tool_result r) ms h = h
  answer_in_more id (tool_call c) ms h =
      if-both (λ l. any (answers id) l ≡ true) (has_tool_result_after later c.id) ms
        (missing_result c ∷ ms) h
        (ap (λ r. elim (str_eq c.id id) [ true ↦ true | false ↦ r ]) h ∙ or_true (str_eq c.id id))
    where
      or_true : (b : Bool) → (elim b [ true ↦ true | false ↦ true ]) ≡ true
      or_true true = refl
      or_true false = refl

  Found-more :
      (p q : Part) (ms : List Part) → Found later ms p → Found later (missing_part later q ms) p
  Found-more (text s) q ms f = tt
  Found-more (thinking s) q ms f = tt
  Found-more (tool_result r) q ms f = tt
  Found-more (tool_call c) q ms (inl h) = inl h
  Found-more (tool_call c) q ms (inr h) = inr (answer_in_more c.id q ms h)

  Found-own : (p : Part) (ms : List Part) → Found later (missing_part later p ms) p
  Found-own (text s) ms = tt
  Found-own (thinking s) ms = tt
  Found-own (tool_result r) ms = tt
  Found-own (tool_call c) ms = elim (Bool-cases (has_tool_result_after later c.id)) [
    | inl h ↦ inl h
    | inr none_later ↦ inr (
        ap (λ b. any (answers c.id) (if b then ms else missing_result c ∷ ms)) none_later
        ∙ ap (λ b. first_or b (any (answers c.id) ms)) (eq_refl c.id))
  ]

  All-more :
      (q : Part) (ms ps : List Part)
      → All (Found later ms) ps
      → All (Found later (missing_part later q ms)) ps
  All-more q ms [] h = tt
  All-more q ms (p ∷ ps) h = (Found-more p q ms h.0, All-more q ms ps h.1)

  each_part : (ps : List Part) → All (Found later (missing_parts later ps)) ps
  unfolding missing_parts
  each_part [] = tt
  each_part (p ∷ ps) =
      (Found-own p (missing_parts later ps), All-more p (missing_parts later ps) ps (each_part ps))

  module _ (rest : Contents)
      (carried : (id : String)
        → has_tool_result_after later id ≡ true
        → has_tool_result_after rest id ≡ true) where
    from_added :
        (id : String) (ms : List Part)
        → any (answers id) ms ≡ true
        → has_tool_result_after (added ms rest) id ≡ true
    from_added id [] h = ground (arith, h)
    from_added id (m ∷ ms) h =
        ap (λ b. elim b [ true ↦ true | false ↦ has_tool_result_after rest id ]) h

    Found-IsAnswered : (ms : List Part) (p : Part) → Found later ms p → IsAnswered (added ms rest) p
    Found-IsAnswered ms (text s) f = tt
    Found-IsAnswered ms (thinking s) f = tt
    Found-IsAnswered ms (tool_result r) f = tt
    Found-IsAnswered ms (tool_call c) (inl h) = answer_past_added c.id ms rest (carried c.id h)
    Found-IsAnswered ms (tool_call c) (inr h) = from_added c.id ms h

    All-IsAnswered :
        (ms ps : List Part) → All (Found later ms) ps → All (IsAnswered (added ms rest)) ps
    All-IsAnswered ms [] h = tt
    All-IsAnswered ms (p ∷ ps) h = (Found-IsAnswered ms p h.0, All-IsAnswered ms ps h.1)

    calls_answered : (c : Option Content) → CallsAnswered (added (missing_of later c) rest) c
    calls_answered none = tt
    calls_answered (some c) = go (is_assistant_role c.role)
      where
        go :
            (b : Bool)
            → AnsweredParts b (added (if b then missing_parts later c.parts else []) rest) c.parts
        go true = All-IsAnswered (missing_parts later c.parts) c.parts (each_part c.parts)
        go false = tt

Paired-added : (ps : List Part) (rest : Contents) → Paired rest → Paired (added ps rest)
Paired-added [] rest h = h
Paired-added (p ∷ ps) rest h = (tt, h)

ensure-Paired : (contents : Contents) → Paired (ensure_paired_function_calls contents)
unfolding ensure_paired_function_calls
ensure-Paired [] = tt
ensure-Paired (c ∷ later) =
    let rest = ensure_paired_function_calls later in
    (
      calls_answered later rest (λ id. still_answered id later) c,
      Paired-added (missing_of later c) rest (ensure-Paired later),
    )

missing_none :
    (later : Contents) (ps : List Part) → All (IsAnswered later) ps → missing_parts later ps ≡ []
unfolding missing_parts
missing_none later [] h = refl
missing_none later (text s ∷ ps) h = missing_none later ps h.1
missing_none later (thinking s ∷ ps) h = missing_none later ps h.1
missing_none later (tool_result r ∷ ps) h = missing_none later ps h.1
missing_none later (tool_call c ∷ ps) h =
    ap (λ b. if b then missing_parts later ps else missing_result c ∷ missing_parts later ps) h.0
    ∙ missing_none later ps h.1

missing_of_none :
    (later : Contents) (c : Option Content) → CallsAnswered later c → missing_of later c ≡ []
missing_of_none later none h = refl
missing_of_none later (some c) h = go (is_assistant_role c.role) h
  where
    go :
        (b : Bool)
        → AnsweredParts b later c.parts
        → (if b then missing_parts later c.parts else []) ≡ []
    go true k = missing_none later c.parts k
    go false k = refl

Paired-ensure :
    (contents : Contents) → Paired contents → ensure_paired_function_calls contents ≡ contents
unfolding ensure_paired_function_calls
Paired-ensure [] h = refl
Paired-ensure (c ∷ later) h =
    ap (λ ps. c ∷ added ps (ensure_paired_function_calls later)) (missing_of_none later c h.0)
    ∙ ap (λ l. c ∷ l) (Paired-ensure later h.1)

-- For any contents, after the call each tool call of an assistant has a result in a later content of a
-- tool, and a second call changes nothing.
pub ensure_paired_function_calls-Paired :
    (contents : Contents)
    → Paired (ensure_paired_function_calls contents)
      × (ensure_paired_function_calls (ensure_paired_function_calls contents)
          ≡ ensure_paired_function_calls contents)
ensure_paired_function_calls-Paired contents = (
  ensure-Paired contents,
  Paired-ensure (ensure_paired_function_calls contents) (ensure-Paired contents),
)
