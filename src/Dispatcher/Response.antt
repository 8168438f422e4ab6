-- ===== src/Dispatcher/Response.antt =====
-- What services/orchestrator/dispatcher/a2a_dispatcher.go takes out of an agent's response: the text,
-- and the metadata of artifacts. json.Unmarshal of an artifact's fields is a parameter.
use Prim.Native.String.{◌++◌ as text_append}
use multi_agent_agent_hub.Prelude.{
  String, Option, none, some, List, [], ◌∷◌, str_eq, not, ◌&&◌, ◌||◌, if◌then◌else◌,
}
use multi_agent_agent_hub.Prelude.Int.{ℤ}
use multi_agent_agent_hub.Prelude.Text.{trim_space}

pub record Part : Type 0 where
  pub kind : String
  pub text : String
  pub name : String
  pub content : String

pub record Response : Type 0 where
  pub task_id : String
  pub events : List (List Part)

-- The fields that the JSON of an artifact part is decoded into.
pub record DecodedMeta : Type 0 where
  pub id : String
  pub artifact_id : String
  pub name : String
  pub kind : String
  pub mime_type : String
  pub size : ℤ
  pub source_agent : String

pub record ArtifactMeta : Type 0 where
  pub id : String
  pub name : String
  pub kind : String
  pub mime_type : String
  pub size : ℤ
  pub source_agent : String

pub record DispatchResult : Type 0 where
  pub text : String
  pub task_id : String
  pub artifacts : List ArtifactMeta

abbrev or_default : String → String → String
or_default s d = if str_eq s "" then d else s

abbrev filled : String → DecodedMeta → Option ArtifactMeta
filled agent m =
    let id = or_default (trim_space m.id) (trim_space m.artifact_id) in
    let name = trim_space m.name in
    if str_eq id "" || str_eq name ""
    then none
    else some (record {
      id = id;
      name = name;
      kind = or_default (trim_space m.kind) "file";
      mime_type = or_default (trim_space m.mime_type) "application/octet-stream";
      size = m.size;
      source_agent = or_default (trim_space m.source_agent) agent;
    })

abbrev decoded : String → Option DecodedMeta → Option ArtifactMeta
decoded agent none = none
decoded agent (some m) = filled agent m

module _ (unmarshal : String → Option DecodedMeta) where
  unfoldable pub extract_artifact_from_part : Part → String → Option ArtifactMeta
  extract_artifact_from_part part agent =
      let content = trim_space part.content in
      if not (str_eq part.kind "tool_result")
      then none
      else if not (str_eq (trim_space part.name) "artifact_metadata")
      then none
      else if str_eq content ""
      then none
      else decoded agent (unmarshal content)

  -- The texts and the artifacts of the parts, in order, before those of what follows.
  abbrev collect_part :
      String → Part → List String × List ArtifactMeta → List String × List ArtifactMeta
  collect_part agent part (texts, artifacts) = (
    if str_eq part.kind "text" && not (str_eq (trim_space part.text) "")
        then part.text ∷ texts
        else texts,
    elim (extract_artifact_from_part part agent) [ none ↦ artifacts | some a ↦ a ∷ artifacts ],
  )

  abbrev collect_parts :
      String → List Part → List String × List ArtifactMeta → List String × List ArtifactMeta
  collect_parts agent [] rest = rest
  collect_parts agent (part ∷ parts) rest = collect_part agent part (collect_parts agent parts rest)

  unfoldable pub collect_events : String → List (List Part) → List String × List ArtifactMeta
  unfolding extract_artifact_from_part
  collect_events agent [] = ([], [])
  collect_events agent (event ∷ events) = collect_parts agent event (collect_events agent events)

-- strings.Join(texts, "\n").
unfoldable pub join_lines : List String → String
join_lines [] = ""
join_lines (s ∷ []) = s
join_lines (s ∷ t ∷ rest) = text_append s (text_append "\n" (join_lines (t ∷ rest)))
