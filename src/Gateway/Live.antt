-- ===== src/Gateway/Live.antt =====
-- The turns of a run while it streams: services/gateway/httpapi/turn_projection.go. An event has the
-- fields that are read here. A store without ProjectAssistantMessage, the time-out and the switch that
-- turns the live projection off are not modelled.
use Prim.Native.String.{◌++◌ as append_text}
use multi_agent_agent_hub.Prelude.{
  ℕ, String, Bool, not, ◌||◌, Option, none, some, List, [], ◌∷◌, ◌++◌, str_eq, if◌then◌else◌,
}
use multi_agent_agent_hub.Prelude.Int.{ℤ, pos}
use multi_agent_agent_hub.Prelude.Dict.{Dict, empty, lookup, insert, erase}
use multi_agent_agent_hub.Prelude.Text.{trim_space, print_ℤ}
use multi_agent_agent_hub.Gateway.Store.{MemoryStore, Reply, ok, err, project_message}
use multi_agent_agent_hub.Gateway.Projection.{Sender}

pub record Event : Type 0 where
  pub type : String
  pub message_id : String
  pub turn_index : ℤ
  pub agent_name : String
  pub sender : Option Sender
  pub author : String
  pub delta : String
  pub text : String

pub record LiveTurn : Type 0 where
  pub key : String
  pub author : String
  pub text : String

pub record TurnAccumulator : Type 0 where
  pub order : List String
  pub turns : Dict LiveTurn

abbrev pub new_turn_accumulator : TurnAccumulator
new_turn_accumulator = record { order = []; turns = empty }

unfoldable pub live_turn_key : Event → String
live_turn_key event =
    if str_eq event.type "AGENT_TURN_STARTED"
      || str_eq event.type "AGENT_TURN_CONTENT"
      || str_eq event.type "AGENT_TURN_FINISHED"
    then append_text "turn:" (print_ℤ event.turn_index)
    else if str_eq event.message_id ""
    then "default"
    else event.message_id

abbrev named_sender : Option Sender → String
named_sender none = ""
named_sender (some sender) = if str_eq sender.type "user" then "" else trim_space sender.name

unfoldable pub event_author : Event → String → String
event_author event fallback =
    let author = trim_space event.author in
    if not (str_eq (trim_space event.agent_name) "")
    then trim_space event.agent_name
    else if not (str_eq (named_sender event.sender) "")
    then named_sender event.sender
    else if str_eq author "" || str_eq author "assistant" || str_eq author "user"
    then fallback
    else author

-- The turn of the key, which is new when there is none, and the accumulator that has it.
abbrev ensured : String → Option LiveTurn → TurnAccumulator → LiveTurn × TurnAccumulator
ensured key (some turn) a = (turn, a)
ensured key none a =
    let turn : LiveTurn = record { key = key; author = ""; text = "" } in
    (turn, record { order = a.order ++ key ∷ []; turns = insert key turn a.turns })

unfoldable pub ensure : String → TurnAccumulator → LiveTurn × TurnAccumulator
ensure key a = ensured key (lookup key a.turns) a

-- Writes the turn, which the source changes in place.
abbrev put : LiveTurn → TurnAccumulator → TurnAccumulator
put turn a = record a { turns = insert turn.key turn a.turns }

abbrev or_author : String → String → String
or_author author old = if str_eq author "" then old else author

unfoldable pub started : Event → TurnAccumulator → TurnAccumulator
unfolding ensure
started event a =
    let (turn, b) = ensure (live_turn_key event) a in
    put (record turn { author = or_author (event_author event "") turn.author }) b

unfoldable pub content : Event → String → TurnAccumulator → TurnAccumulator
unfolding ensure
content event fallback_author a =
    let delta = if str_eq event.delta "" then event.text else event.delta in
    let (turn, b) = ensure (live_turn_key event) a in
    let author =
      if str_eq turn.author "" then event_author event fallback_author else turn.author in
    if str_eq delta ""
    then a
    else put (record turn { author = author; text = append_text turn.text delta }) b

abbrev finish :
    Event → String → Option LiveTurn → TurnAccumulator → Option LiveTurn × TurnAccumulator
finish event key none a = (none, a)
finish event key (some turn) a =
    let author = or_author (event_author event turn.author) turn.author in
    (some (record turn { author = author }), record a { turns = erase key a.turns })

unfoldable pub finished : Event → TurnAccumulator → Option LiveTurn × TurnAccumulator
finished event a = let key = live_turn_key event in finish event key (lookup key a.turns) a

abbrev take_turn :
    String → Option LiveTurn → (Dict LiveTurn → List LiveTurn) → Dict LiveTurn → List LiveTurn
take_turn key none rest turns = rest turns
take_turn key (some turn) rest turns = turn ∷ rest (erase key turns)

-- The turns of the keys that are left, each once.
unfoldable pub drain : List String → Dict LiveTurn → List LiveTurn
drain [] turns = []
drain (key ∷ keys) turns = let rest = drain keys in take_turn key (lookup key turns) rest turns

unfoldable pub project_turn :
    String → ℕ → String → String → LiveTurn → ℤ → MemoryStore → Reply (Option Bool)
project_turn new_id now conversation_id run_id turn seq s =
    let text = trim_space turn.text in
    let author = trim_space turn.author in
    if str_eq text ""
    then ok s none
    else answered (
        project_message new_id now
          (record {
            id = "";
            conversation_id = conversation_id;
            author = if str_eq author "" then "assistant" else author;
            role = "assistant";
            text = text;
            run_id = run_id;
            created_at = 0;
          })
          run_id (seq, pos 0) s)
  where
    answered : Reply Bool → Reply (Option Bool)
    answered (ok t new) = ok t (some new)
    answered (err e) = err e
