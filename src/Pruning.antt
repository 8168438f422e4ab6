-- ===== src/Pruning.antt =====
-- pkg/runtime/pruning/pruner.go: what is kept of a conversation before a model is asked. A request is
-- its contents, as its tools and its configuration are copied. A part that is given by a pointer is
-- copied to a value first, so all parts are values here; a nil content is `none`.
pub mod Window
pub mod Pins
pub mod Pairs
pub mod Truncation
mod Tests
use Prim.Native.Char.{Char}
use Prim.Native.String.{String, ◌++◌ as text_append}
use multi_agent_agent_hub.Prelude.{
  ℕ, zero, suc, ◌+◌, Bool, true, false, ◌&&◌, ◌||◌, Option, none, some, List, [], ◌∷◌, ◌++◌, map,
  length, any, str_eq, ltb, leb, if◌then◌else◌,
}
use multi_agent_agent_hub.Prelude.Int.{ℤ, pos, pos_part, leb_ℤ, ltb_ℤ, add64, sub64}

pub record ToolCallPart : Type 0 where
  pub id : String
  pub name : String
  pub arguments : String

pub record ToolResultPart : Type 0 where
  pub call_id : String
  pub name : String
  pub content : String
  pub is_error : Bool

pub data Part : Type 0 where
  text thinking : String → Part
  tool_call : ToolCallPart → Part
  tool_result : ToolResultPart → Part

pub data Role : Type 0 where
  system user assistant tool : Role

pub record Content : Type 0 where
  pub role : Role
  pub parts : List Part

abbrev pub Contents : Type 0
Contents = List (Option Content)

pub data PruneError : Type 0 where
  context_done nil_request over_hard_limit : PruneError

pub data Pruned : Type 0 where
  refused : PruneError → Pruned
  kept : Contents → Pruned

-- The checks that each pruner starts with; `done` is whether the context has an error.
abbrev pub checked : Bool → Option Contents → (Contents → Pruned) → Pruned
checked true request prune = refused context_done
checked false none prune = refused nil_request
checked false (some contents) prune = prune contents

abbrev pub is_system_role : Role → Bool
is_system_role system = true
is_system_role user = false
is_system_role assistant = false
is_system_role tool = false

abbrev pub is_system : Option Content → Bool
is_system none = false
is_system (some c) = is_system_role c.role

-- keep[i] for the first `head` and the last `tail` of `total` contents.
unfoldable pub in_window : ℤ → ℤ → ℕ → ℕ → Bool
unfolding sub64
in_window head tail total i = ltb_ℤ (pos i) head || leb_ℤ (sub64 (pos total) tail) (pos i)

-- The contents that a test on the index and the content keeps, from index `i` on.
unfoldable pub keep_from : (ℕ → Option Content → Bool) → ℕ → Contents → Contents
keep_from keep i [] = []
keep_from keep i (c ∷ contents) =
    let rest = keep_from keep (suc i) contents in if keep i c then c ∷ rest else rest

abbrev pub ends : ℤ → ℤ → ℕ → ℕ → Option Content → Bool
ends head tail total i c = in_window head tail total i || is_system c

unfoldable pub prune_ends : ℤ → ℤ → Contents → Contents
unfolding in_window keep_from add64
prune_ends head tail contents =
    let total = length contents in
    if leb_ℤ head (pos 0) && leb_ℤ tail (pos 0)
    then contents
    else if leb_ℤ (pos total) (add64 head tail)
    then contents
    else keep_from (ends head tail total) 0 contents

pub record KeepEndsWindowPruner : Type 0 where
  pub head : ℤ
  pub tail : ℤ

-- A nil pruner has a window of size zero.
abbrev ends_of : Option KeepEndsWindowPruner → Contents → Contents
ends_of none contents = prune_ends (pos 0) (pos 0) contents
ends_of (some p) contents = prune_ends p.head p.tail contents

unfoldable pub prune_window : Option KeepEndsWindowPruner → Bool → Option Contents → Pruned
unfolding prune_ends
prune_window p done request = checked done request (λ contents. kept (ends_of p contents))

abbrev pub truncated_suffix : String
truncated_suffix = "...[truncated]"

-- The first characters.
unfoldable pub first_runes : ℕ → String → String
first_runes zero s = String.[]
first_runes (suc n) String.[] = String.[]
first_runes (suc n) (String.◌∷◌ c s) = String.◌∷◌ c (first_runes n s)

unfoldable pub rune_count : String → ℕ
rune_count String.[] = 0
rune_count (String.◌∷◌ c s) = suc (rune_count s)

unfoldable pub truncate_with_suffix : String → ℤ → String
unfolding first_runes rune_count
truncate_with_suffix s max_chars =
    if leb_ℤ max_chars (pos 0)
    then s
    else if leb_ℤ (pos (rune_count s)) max_chars
    then s
    else text_append (first_runes (pos_part max_chars) s) truncated_suffix

abbrev pub truncate_part : ℤ → Part → Part
truncate_part n (text s) = text s
truncate_part n (thinking s) = thinking s
truncate_part n (tool_call c) = tool_call c
truncate_part n (tool_result r) =
    tool_result (record r { content = truncate_with_suffix r.content n })

abbrev pub truncate_content : ℤ → Option Content → Option Content
truncate_content n none = none
truncate_content n (some c) = some (record c { parts = map (truncate_part n) c.parts })

unfoldable pub truncate_results : ℤ → Bool → Option Contents → Pruned
unfolding truncate_with_suffix
truncate_results max_chars done request = checked done request (λ contents.
    kept (if leb_ℤ max_chars (pos 0) then contents else map (truncate_content max_chars) contents))

abbrev pub answers : String → Part → Bool
answers id (text s) = false
answers id (thinking s) = false
answers id (tool_call c) = false
answers id (tool_result r) = str_eq r.call_id id

abbrev pub is_tool_role : Role → Bool
is_tool_role system = false
is_tool_role user = false
is_tool_role assistant = false
is_tool_role tool = true

abbrev pub has_answer : String → Option Content → Bool
has_answer id none = false
has_answer id (some c) = is_tool_role c.role && any (answers id) c.parts

-- The contents after the call's own.
abbrev pub has_tool_result_after : Contents → String → Bool
has_tool_result_after later id = any (has_answer id) later

abbrev pub missing_reason : String
missing_reason = "tool result missing after pruning"

abbrev pub missing_result : ToolCallPart → Part
missing_result c =
    tool_result
      (record { call_id = c.id; name = c.name; content = missing_reason; is_error = true })

abbrev pub missing_part : Contents → Part → List Part → List Part
missing_part later (text s) rest = rest
missing_part later (thinking s) rest = rest
missing_part later (tool_result r) rest = rest
missing_part later (tool_call c) rest =
    if has_tool_result_after later c.id then rest else missing_result c ∷ rest

unfoldable pub missing_parts : Contents → List Part → List Part
missing_parts later [] = []
missing_parts later (p ∷ parts) = missing_part later p (missing_parts later parts)

abbrev pub is_assistant_role : Role → Bool
is_assistant_role system = false
is_assistant_role user = false
is_assistant_role assistant = true
is_assistant_role tool = false

abbrev pub missing_of : Contents → Option Content → List Part
missing_of later none = []
missing_of later (some c) = if is_assistant_role c.role then missing_parts later c.parts else []

abbrev pub added : List Part → Contents → Contents
added [] rest = rest
added (p ∷ parts) rest = some (record { role = tool; parts = p ∷ parts }) ∷ rest

unfoldable pub ensure_paired_function_calls : Contents → Contents
unfolding missing_parts
ensure_paired_function_calls [] = []
ensure_paired_function_calls (c ∷ later) =
    c ∷ added (missing_of later c) (ensure_paired_function_calls later)

pub record KeepPinnedWindowPruner : Type 0 where
  pub head : ℤ
  pub tail : ℤ
  pub pinned_indexes : ℕ → Bool
  pub hard_limit : ℤ

abbrev pub pinned_ends : KeepPinnedWindowPruner → ℕ → ℕ → Option Content → Bool
pinned_ends p total i c = ends p.head p.tail total i c || p.pinned_indexes i

abbrev pub within_limit : ℤ → Contents → Pruned
within_limit hard_limit contents =
    if ltb_ℤ (pos 0) hard_limit && ltb_ℤ hard_limit (pos (length contents))
    then refused over_hard_limit
    else kept contents

abbrev pub pinned_of : Option KeepPinnedWindowPruner → Contents → Pruned
pinned_of none contents = kept (keep_from (ends (pos 0) (pos 0) (length contents)) 0 contents)
pinned_of (some p) contents =
    within_limit p.hard_limit (keep_from (pinned_ends p (length contents)) 0 contents)

unfoldable pub prune_pinned : Option KeepPinnedWindowPruner → Bool → Option Contents → Pruned
unfolding in_window keep_from
prune_pinned p done request = checked done request (pinned_of p)
