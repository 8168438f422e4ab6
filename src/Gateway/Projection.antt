-- ===== src/Gateway/Projection.antt =====
-- services/gateway/projection/worker.go: recovery of the assistant messages of a run from the public
-- events of the database. JSON decoding, fresh ids and the time of the clock are parameters, and so are
-- the queries, which may fail; `list_public_events_after` is what the query of
-- services/gateway/store/mysql.go asks for. The messages go to the MemoryStore.
pub mod Pages
pub mod Ends
pub mod Recovery
use Prim.Native.String.{◌++◌ as append_text}
use multi_agent_agent_hub.Prelude.{
  ℕ, zero, suc, ◌+◌, String, Bool, true, false, not, ◌&&◌, ◌||◌, Option, none, some, List, [], ◌∷◌,
  ◌++◌, map, length, take, filter, ◌==◌, ltb, str_eq, if◌then◌else◌,
}
use multi_agent_agent_hub.Prelude.Int.{ℤ, pos, ltb_ℤ, leb_ℤ}
use multi_agent_agent_hub.Prelude.Dict.{lookup}
use multi_agent_agent_hub.Prelude.Text.{trim_space, print_ℤ}
use multi_agent_agent_hub.Gateway.Store.{
  Message, StoreError, Position, MemoryStore, Reply, ok, err, offset_key, project_message,
}

pub record PublicEvent : Type 0 where
  pub seq : ℤ
  pub sub_index : ℤ
  pub type : String
  pub payload : String

abbrev pub position_of : PublicEvent → Position
position_of event = (event.seq, event.sub_index)

pub record Sender : Type 0 where
  pub type : String
  pub name : String

pub record JournalItem : Type 0 where
  pub type : String
  pub message_id : String
  pub turn_index : Option ℤ
  pub agent_name : String
  pub author : String
  pub role : String
  pub delta : String
  pub text : String
  pub sender : Option Sender

pub record TurnState : Type 0 where
  pub key : String
  pub author : String
  pub text : String
  pub end_seq : ℤ
  pub end_sub : ℤ
  pub is_open : Bool
  pub position : ℕ

abbrev pub end_of : TurnState → Position
end_of turn = (turn.end_seq, turn.end_sub)

-- Whether the second position is after the first.
unfoldable pub later : Position → Position → Bool
later (a, i) (b, j) = ltb_ℤ a b || (leb_ℤ a b && leb_ℤ b a && ltb_ℤ i j)

abbrev index_key : Option ℤ → String
index_key none = "default"
index_key (some n) = append_text "turn:" (print_ℤ n)

unfoldable pub turn_key : JournalItem → String
turn_key item = if str_eq item.message_id "" then index_key item.turn_index else item.message_id

-- The sender's name, when it has one and is not the user.
abbrev sender_name : Option Sender → String
sender_name none = ""
sender_name (some sender) = if str_eq sender.type "user" then "" else sender.name

unfoldable pub turn_author : JournalItem → String
turn_author item =
    if not (str_eq item.agent_name "")
    then item.agent_name
    else if not (str_eq (sender_name item.sender) "")
    then sender_name item.sender
    else if str_eq item.author "assistant" || str_eq item.author "user"
    then ""
    else item.author

abbrev sender_is_user : Option Sender → Bool
sender_is_user none = false
sender_is_user (some sender) = str_eq sender.type "user"

abbrev is_user : JournalItem → Bool
is_user item = str_eq item.role "user" || sender_is_user item.sender

abbrev is_content : String → Bool
is_content type =
    str_eq type "TEXT_MESSAGE_CONTENT"
    || str_eq type "AGENT_TURN_CONTENT"
    || str_eq type "message"
    || str_eq type "message.delta"

-- The map `turns` and the list `order` are one list: the turns in the order of their keys' creation.
unfoldable pub ensure : ℕ → String → List TurnState → List TurnState
ensure n key [] =
    record {
      key = key;
      author = "";
      text = "";
      end_seq = pos 0;
      end_sub = pos 0;
      is_open = true;
      position = n;
    }
    ∷ []
ensure n key (turn ∷ turns) =
    let rest = ensure (suc n) key turns in if str_eq turn.key key then turn ∷ turns else turn ∷ rest

-- Changes the turn of the key, where there is one.
unfoldable pub update_turn : String → (TurnState → TurnState) → List TurnState → List TurnState
update_turn key change [] = []
update_turn key change (turn ∷ turns) =
    let rest = update_turn key change turns in
    if str_eq turn.key key then change turn ∷ turns else turn ∷ rest

abbrev pub write : String → String → TurnState → TurnState
write author delta turn = record turn {
  author = if str_eq author "" then turn.author else author;
  text = append_text turn.text delta;
}

abbrev pub close : Position → TurnState → TurnState
close (seq, sub) turn =
    if turn.is_open then (record turn { end_seq = seq; end_sub = sub; is_open = false }) else turn

abbrev pub delta_of : JournalItem → String
delta_of item = if str_eq item.delta "" then item.text else item.delta

unfoldable pub add_content : JournalItem → List TurnState → List TurnState
unfolding ensure update_turn
add_content item turns =
    if is_user item || str_eq (delta_of item) ""
    then turns
    else update_turn (turn_key item) (write (turn_author item) (delta_of item))
        (ensure 0 (turn_key item) turns)

unfoldable pub on_type : String → PublicEvent → JournalItem → List TurnState → List TurnState
unfolding add_content
on_type type event item turns =
    if is_content type
    then add_content item turns
    else if str_eq type "AGENT_TURN_FINISHED"
    then update_turn (turn_key item) (close (position_of event)) turns
    else if str_eq type "RUN_FINISHED"
    then map (close (position_of event)) turns
    else turns

unfoldable pub on_item : PublicEvent → Option JournalItem → List TurnState → List TurnState
unfolding on_type
on_item event none turns = turns
on_item event (some item) turns =
    on_type (if str_eq item.type "" then event.type else item.type) event item turns

abbrev Decoder : Type 0
Decoder = String → Option JournalItem

unfoldable pub read_turns :
    (String → Option JournalItem) → List PublicEvent → List TurnState → List TurnState
unfolding on_item
read_turns decode [] turns = turns
read_turns decode (event ∷ events) turns =
    read_turns decode events (on_item event (decode event.payload) turns)

unfoldable pub collect_turns : (String → Option JournalItem) → List PublicEvent → List TurnState
collect_turns decode events =
    filter (λ turn. not turn.is_open && ltb_ℤ (pos 0) turn.end_seq) (read_turns decode events [])

-- A stable sort by the ends.
unfoldable pub insert_turn : TurnState → List TurnState → List TurnState
unfolding later
insert_turn turn [] = turn ∷ []
insert_turn turn (first ∷ turns) =
    let rest = insert_turn turn turns in
    if later (end_of first) (end_of turn) then first ∷ rest else turn ∷ first ∷ turns

unfoldable pub sort_turns : List TurnState → List TurnState
sort_turns [] = []
sort_turns (turn ∷ turns) = insert_turn turn (sort_turns turns)

-- One page of the events of a run in their order.
unfoldable pub list_public_events_after : List PublicEvent → Position → ℕ → List PublicEvent
list_public_events_after journal at limit =
    let size = if limit == 0 || ltb 1000 limit then 200 else limit in
    take size (filter (λ event. later at (position_of event)) journal)

pub data ConversationOfRun : Type 0 where
  found : String → ConversationOfRun
  no_conversation query_failed : ConversationOfRun

pub data WorkerError : Type 0 where
  database out_of_fuel : WorkerError
  store_error : StoreError → WorkerError

-- The worker with what it calls. The turn of a position gets the id of that number.
pub record Worker : Type 0 where
  pub page_size : ℕ
  pub decode : String → Option JournalItem
  pub conversation_id_for_run : String → ConversationOfRun
  pub list_page : String → Position → ℕ → Option (List PublicEvent)
  pub new_id : ℕ → String
  pub now : ℕ

pub data Read : Type 0 where
  events : List PublicEvent → Read
  failed : WorkerError → Read

abbrev pub last_position : Position → List PublicEvent → Position
last_position at [] = at
last_position at (event ∷ page) = last_position (position_of event) page

abbrev pub prepend : List PublicEvent → Read → Read
prepend page (events rest) = events (page ++ rest)
prepend page (failed e) = failed e

abbrev pub next_page : ℕ → List PublicEvent → Read → Read
next_page size page rest =
    if length page == 0
    then events []
    else if ltb (length page) size
    then events page
    else prepend page rest

abbrev pub with_page : Option (List PublicEvent) → (List PublicEvent → Read) → Read
with_page none body = failed database
with_page (some page) body = body page

-- The loop over the pages, one unit of fuel for a page.
unfoldable pub read_pages : Worker → String → ℕ → Position → Read
read_pages w run_id zero at = failed out_of_fuel
read_pages w run_id (suc fuel) at =
    let rest = read_pages w run_id fuel in
    with_page (w.list_page run_id at w.page_size)
      (λ page. next_page w.page_size page (rest (last_position at page)))

-- The answer of RecoverRun with the store after it: the count stands beside an error.
pub record Recovered : Type 0 where
  pub store : MemoryStore
  pub projected : ℕ
  pub error : Option WorkerError

abbrev author_of : TurnState → String
author_of turn =
    let author = trim_space turn.author in if str_eq author "" then "assistant" else author

abbrev pub turn_message : String → String → TurnState → Message
turn_message conversation_id run_id turn = record {
  id = "";
  conversation_id = conversation_id;
  author = author_of turn;
  role = "assistant";
  text = trim_space turn.text;
  run_id = run_id;
  created_at = 0;
}

-- Turns with a text and an end are stored, the others are passed over.
unfoldable pub is_storable : TurnState → Bool
is_storable turn =
    not (str_eq (trim_space turn.text) "")
    && not (leb_ℤ turn.end_seq (pos 0) && leb_ℤ (pos 0) turn.end_seq)

-- Goes on after a message, or stops with the error.
abbrev pub after_message : Reply Bool → ℕ → MemoryStore → (ℕ → MemoryStore → Recovered) → Recovered
after_message (err e) projected s next = record {
  store = s;
  projected = projected;
  error = some (store_error e);
}
after_message (ok t inserted) projected s next =
    next (if inserted then suc projected else projected) t

unfoldable pub project_turns :
    Worker → String → String → List TurnState → ℕ → MemoryStore → Recovered
unfolding is_storable
project_turns w conversation_id run_id [] projected s = record {
  store = s;
  projected = projected;
  error = none;
}
project_turns w conversation_id run_id (turn ∷ turns) projected s =
    let next = project_turns w conversation_id run_id turns in
    if is_storable turn
    then after_message
        (project_message (w.new_id turn.position) w.now (turn_message conversation_id run_id turn)
          run_id (end_of turn) s)
        projected s next
    else next projected s

abbrev pub offset_or_zero : Option Position → Position
offset_or_zero none = (pos 0, pos 0)
offset_or_zero (some at) = at

abbrev pub start_of : String → MemoryStore → Position
start_of run_id s = offset_or_zero (lookup (offset_key run_id) s.projection_offsets)

abbrev pub recover_read : Worker → String → String → MemoryStore → Read → Recovered
recover_read w conversation_id run_id s (failed e) = record {
  store = s;
  projected = 0;
  error = some e;
}
recover_read w conversation_id run_id s (events all) =
    project_turns w conversation_id run_id (sort_turns (collect_turns w.decode all)) 0 s

abbrev pub recover_found : Worker → String → MemoryStore → Read → ConversationOfRun → Recovered
recover_found w run_id s read no_conversation = record { store = s; projected = 0; error = none }
recover_found w run_id s read query_failed = record {
  store = s;
  projected = 0;
  error = some database;
}
recover_found w run_id s read (found conversation_id) = recover_read w conversation_id run_id s read

unfoldable pub recover_run : Worker → ℕ → String → MemoryStore → Recovered
recover_run w fuel run_id s =
    recover_found w run_id s (read_pages w run_id fuel (start_of run_id s))
      (w.conversation_id_for_run run_id)

abbrev add_count : ℕ → Recovered → ℕ
add_count total result = elim result.error [ none ↦ total + result.projected | some e ↦ total ]

-- The runs in turn: a run that fails is logged and passed over, with what it stored before the error.
unfoldable pub recover_runs : Worker → ℕ → List String → ℕ → MemoryStore → ℕ × MemoryStore
recover_runs w fuel [] total s = (total, s)
recover_runs w fuel (run_id ∷ runs) total s =
    let result = recover_run w fuel run_id s in
    recover_runs w fuel runs (add_count total result) result.store
