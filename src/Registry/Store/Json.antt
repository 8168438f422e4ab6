-- ===== src/Registry/Store/Json.antt =====
-- JSONStore of services/orchestrator/registry/store_json.go: the store in one file. The file is missing,
-- holds agents, or cannot be read; whether a write succeeds is part of the state, since a file that is
-- replaced by a rename is written as a whole or left alone. The context is not cancelled.
pub mod Lawful
use multi_agent_agent_hub.Prelude.{
  ℕ, ◌+◌, ◌≡◌, refl, sym, ap, ◌∙◌, String, Bool, true, false, not, Option, none, some, List, [],
  ◌∷◌, ◌++◌, length, filter, str_eq, eq_iff, ◌==◌, if◌then◌else◌, Bool-cases, inl, inr, arith,
  subst,
}
use multi_agent_agent_hub.Registry.Store.{
  RegisteredAgent, AgentSource, static, dynamic, unset, AgentStore, find_agent, IsLawful,
}

pub data File : Type 0 where
  missing unreadable : File
  agents : List RegisteredAgent → File

pub record Disk : Type 0 where
  pub file : File
  pub writable : Bool

abbrev pub is_dynamic : RegisteredAgent → Bool
is_dynamic a = elim a.source [ dynamic ↦ true | _ ↦ false ]

unfoldable pub load_file : File → Option (List RegisteredAgent)
load_file missing = some []
load_file unreadable = none
load_file (agents all) = some (filter is_dynamic all)

-- Only the dynamic agents are written back.
unfoldable pub write : List RegisteredAgent → Disk → Option Disk
write all d = if d.writable then some (record d { file = agents (filter is_dynamic all) }) else none

abbrev pub or_else : ℕ → ℕ → ℕ
or_else at other = if at == 0 then other else at

-- The first entry of the name is replaced and keeps the time of its creation; a new name is added.
unfoldable pub put : RegisteredAgent → List RegisteredAgent → List RegisteredAgent
put a [] = a ∷ []
put a (b ∷ all) =
    let later = put a all in
    if str_eq b.name a.name
    then record a { created_at = or_else b.created_at a.created_at } ∷ all
    else b ∷ later

abbrev pub as_dynamic : AgentSource → AgentSource
as_dynamic static = static
as_dynamic dynamic = dynamic
as_dynamic unset = dynamic

abbrev pub put_in : RegisteredAgent → Disk → File → Option Disk
put_in a d missing = write (put a []) d
put_in a d unreadable = none
put_in a d (agents all) = write (put a all) d

abbrev pub is_static : RegisteredAgent → Bool
is_static a = elim a.source [ static ↦ true | _ ↦ false ]

unfoldable pub upsert : ℕ → RegisteredAgent → Disk → Option Disk
unfolding put write
upsert now a d =
    let stamped = record a {
      source = as_dynamic a.source;
      created_at = or_else a.created_at now;
      updated_at = now;
    } in
    if str_eq a.name "" then none else if is_static a then none else put_in stamped d d.file

-- A file that holds no entry of the name is not written.
abbrev pub remove_from : String → Disk → File → Option Disk
remove_from name d missing = some d
remove_from name d unreadable = none
remove_from name d (agents all) =
    let kept = filter (λ a. not (str_eq a.name name)) all in
    if length kept == length all then some d else write kept d

unfoldable pub delete : String → Disk → Option Disk
unfolding write
delete name d = if str_eq name "" then none else remove_from name d d.file

abbrev pub json_store : AgentStore
json_store = record { State = Disk; load = λ d. load_file d.file; upsert = upsert; delete = delete }
