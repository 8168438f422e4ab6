-- ===== src/Pruning/Tests.antt =====
-- A conversation with a call that has a result and one that has none.
use multi_agent_agent_hub.Prelude.{
  ◌+◌, ◌≤◌, ◌≡◌, refl, false, ◌⊎◌, Option, some, [], ◌∷◌, ◌++◌, length, take, arith, ◌==◌,
}
use multi_agent_agent_hub.Prelude.Int.{pos, ◌≤ℤ◌}
use multi_agent_agent_hub.Pruning.{
  text, tool_call, tool_result, missing_result, system, user, assistant, tool, Content, Contents,
  over_hard_limit, refused, kept, prune_ends, prune_pinned, KeepPinnedWindowPruner, first_runes,
  rune_count, truncate_with_suffix, ensure_paired_function_calls, missing_parts,
}
use multi_agent_agent_hub.Pruning.Window.{instructions, spoken, prune_ends-window}
use multi_agent_agent_hub.Pruning.Pins.{Holds, prune_pinned-Holds}
use multi_agent_agent_hub.Pruning.Pairs.{Paired, ensure_paired_function_calls-Paired}
use multi_agent_agent_hub.Pruning.Truncation.{Truncates, truncate_with_suffix_bound}

abbrev rules : Option Content
rules = some (record { role = system; parts = text "rules" ∷ [] })

abbrev hello : Option Content
hello = some (record { role = user; parts = text "hello" ∷ [] })

abbrev calls : Option Content
calls = some (record {
  role = assistant;
  parts =
      tool_call (record { id = "1"; name = "read"; arguments = "" })
      ∷ tool_call (record { id = "2"; name = "list"; arguments = "" })
      ∷ [];
})

abbrev results : Option Content
results = some (record {
  role = tool;
  parts =
      tool_result (record { call_id = "1"; name = "read"; content = "a"; is_error = false }) ∷ [];
})

abbrev conversation : Contents
conversation = hello ∷ calls ∷ rules ∷ results ∷ hello ∷ []

second_missing :
    ensure_paired_function_calls conversation
    ≡ hello
      ∷ calls
      ∷ some (record {
        role = tool;
        parts = missing_result (record { id = "2"; name = "list"; arguments = "" }) ∷ [];
      })
      ∷ rules
      ∷ results
      ∷ hello
      ∷ []
unfolding ensure_paired_function_calls missing_parts
second_missing = refl

ensure_paired_function_calls-Paired_example :
    Paired (ensure_paired_function_calls conversation)
    × (ensure_paired_function_calls (ensure_paired_function_calls conversation)
        ≡ ensure_paired_function_calls conversation)
ensure_paired_function_calls-Paired_example = ensure_paired_function_calls-Paired conversation

prune_ends-window_example :
    (instructions (prune_ends (pos 1) (pos 2) conversation) ≡ rules ∷ [])
    × (take 1 (prune_ends (pos 1) (pos 2) conversation) ≡ hello ∷ [])
    × ((front : Contents) × (prune_ends (pos 1) (pos 2) conversation
          ≡ front ++ results ∷ hello ∷ []))
    × (length (spoken (prune_ends (pos 1) (pos 2) conversation)) ≤ 3)
prune_ends-window_example =
    prune_ends-window 1 2 conversation (ground arith) (ground arith) (ground arith)

abbrev pinning : KeepPinnedWindowPruner
pinning = record { head = pos 1; tail = pos 1; pinned_indexes = λ i. i == 1; hard_limit = pos 4 }

prune_pinned-Holds_example :
    (prune_pinned (some pinning) false (some conversation) ≡ refused over_hard_limit)
    ⊎ ((out : Contents) × (prune_pinned (some pinning) false (some conversation) ≡ kept out)
        × Holds calls out
        × ((pos 4 ≤ℤ pos 0) ⊎ (pos (length out) ≤ℤ pos 4)))
prune_pinned-Holds_example = prune_pinned-Holds pinning conversation 1 calls refl refl

truncate_with_suffix_bound_example :
    Truncates 3 "abcdef" (truncate_with_suffix "abcdef" (pos 3))
    × (rune_count (truncate_with_suffix "abcdef" (pos 3)) ≤ 3 + 14)
    × (first_runes 3 (truncate_with_suffix "abcdef" (pos 3)) ≡ first_runes 3 "abcdef")
    × (truncate_with_suffix (truncate_with_suffix "abcdef" (pos 3)) (pos 3)
        ≡ truncate_with_suffix "abcdef" (pos 3))
truncate_with_suffix_bound_example = truncate_with_suffix_bound "abcdef" 3 (ground arith)
