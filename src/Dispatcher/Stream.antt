-- ===== src/Dispatcher/Stream.antt =====
-- DispatchStream of services/orchestrator/dispatcher/a2a_dispatcher.go: the chunks of the A2A client's
-- stream, one callback each, become chunks for the consumer. The consumer's answer to a chunk may
-- depend on all that it was given (the newest first); the checks and the timeout before the first
-- chunk are those of Dispatch.
pub mod Forwarding
mod Tests
use Prim.Native.Char.{code}
use Prim.Native.String.{◌++◌ as text_append}
use multi_agent_agent_hub.Prelude.{
  String, Bool, true, false, Option, none, some, List, [], ◌∷◌, str_eq, not, ◌&&◌, ◌==◌,
  if◌then◌else◌,
}
use multi_agent_agent_hub.Prelude.Text.{trim_space}
use multi_agent_agent_hub.Dispatcher.Retry.{CallError}
use multi_agent_agent_hub.Dispatcher.Response.{
  Part, DecodedMeta, ArtifactMeta, extract_artifact_from_part,
}

pub record StreamChunk : Type 0 where
  pub task_id : String
  pub parts : List Part
  pub err : Option CallError

pub data DispatchChunk : Type 0 where
  task : String → DispatchChunk
  text : String → DispatchChunk
  artifact : ArtifactMeta → DispatchChunk
  failure : CallError → DispatchChunk

-- strings.TrimPrefix and strings.HasPrefix at once: `none` if there is no such prefix.
unfoldable pub strip_prefix : String → String → Option String
strip_prefix String.[] s = some s
strip_prefix (String.◌∷◌ c p) String.[] = none
strip_prefix (String.◌∷◌ c p) (String.◌∷◌ d s) = if code c == code d then strip_prefix p s else none

-- What was given to the consumer, the newest first; the text forwarded; and whether it goes on.
pub record Progress : Type 0 where
  pub emitted : List DispatchChunk
  pub sent_text : String
  pub going : Bool

module _ (unmarshal : String → Option DecodedMeta) (accepts : List DispatchChunk → Bool)
    (agent : String) where
  abbrev pub yield_chunk : DispatchChunk → Progress → Progress
  yield_chunk c p = record p { emitted = c ∷ p.emitted; going = accepts (c ∷ p.emitted) }

  -- The text of a chunk, joined by line ends, after the artifacts of its parts were yielded.
  abbrev add_text : String → String → String
  add_text sb t = if str_eq sb "" then t else text_append sb (text_append "\n" t)

  pub text_of_part : Part → String → String
  text_of_part part sb =
      if str_eq part.kind "text" && not (str_eq (trim_space part.text) "")
      then add_text sb part.text
      else sb

  pub artifact_of_part : Option ArtifactMeta → Progress → Progress
  artifact_of_part none p = p
  artifact_of_part (some a) p = yield_chunk (artifact a) p

  -- Stops where the consumer refused an artifact.
  pub on_parts : List Part → String → Progress → String × Progress
  on_parts [] sb p = (sb, p)
  on_parts (part ∷ parts) sb p =
      let p' = artifact_of_part (extract_artifact_from_part unmarshal part agent) p in
      let sb' = text_of_part part sb in
      let rest = on_parts parts sb' p' in if p'.going then rest else (sb', p')

  -- The text that is new against what was forwarded.
  abbrev pub fresh_text : String → String → String
  fresh_text sent chunk =
      if str_eq sent ""
      then chunk
      else elim (strip_prefix sent chunk) [ none ↦ chunk | some rest ↦ rest ]

  pub on_text : String → Progress → Progress
  on_text chunk p =
      let fresh = fresh_text p.sent_text chunk in
      if not p.going
      then p
      else if str_eq chunk ""
      then p
      else if str_eq fresh ""
      then p
      else yield_chunk (text fresh) (record p { sent_text = text_append p.sent_text fresh })

  pub on_task : String → Progress → Progress
  on_task id p = if str_eq id "" then p else yield_chunk (task id) p

  pub on_event : List Part → Progress → Progress
  on_event parts p =
      let (sb, p') = on_parts parts "" p in let rest = on_text sb p' in if p.going then rest else p

  abbrev pub on_chunk_err : Option CallError → StreamChunk → Progress → Progress
  on_chunk_err (some e) c p = yield_chunk (failure e) p
  on_chunk_err none c p = on_event c.parts (on_task (trim_space c.task_id) p)

  unfoldable pub on_chunk : StreamChunk → Progress → Progress
  unfolding extract_artifact_from_part artifact_of_part on_parts on_text on_task on_event
      text_of_part
  on_chunk c p = on_chunk_err c.err c p

  -- The client stops when the callback returns false.
  unfoldable pub stream_from : Progress → List StreamChunk → Progress
  stream_from p [] = p
  stream_from p (c ∷ cs) = let next = stream_from (on_chunk c p) cs in if p.going then next else p

abbrev pub start : Progress
start = record { emitted = []; sent_text = ""; going = true }
