-- ===== src/Gateway/Tests.antt =====
-- A conversation, a run with two turns, and the runs whose turns end together.
use multi_agent_agent_hub.Prelude.{
  ℕ, ◌≡◌, ◌<◌, arith, length, filter, take, refl, String, false, none, some, Option, List, [], ◌∷◌,
  map, inr, str_eq, if◌then◌else◌,
}
use multi_agent_agent_hub.Prelude.Int.{ℤ, pos}
use multi_agent_agent_hub.Prelude.Dict.{lookup, insert, erase}
use multi_agent_agent_hub.Prelude.Text.{trim_space, print_ℤ}
use multi_agent_agent_hub.Gateway.Store.{
  Conversation, Message, Position, MemoryStore, after, or_empty, new_store, create_conversation,
  append_message, project_message, delete_conversation, offset_key,
}
use multi_agent_agent_hub.Gateway.Live.{
  Event, LiveTurn, new_turn_accumulator, live_turn_key, event_author, content, drain, project_turn,
}
use multi_agent_agent_hub.Gateway.Store.Once.{
  Call, create, append, project, delete, step, stored, all_stored, all_answered, Ascending,
  all_stored-Ascending,
}
use multi_agent_agent_hub.Gateway.Projection.{
  PublicEvent, JournalItem, Worker, found, list_public_events_after, collect_turns, sort_turns,
  recover_run, is_storable, start_of, read_pages, later, project_turns, read_turns, turn_key,
  insert_turn,
}
use multi_agent_agent_hub.Gateway.Projection.Pages.{Journal, after as events_after}
use multi_agent_agent_hub.Gateway.Projection.Ends.{Distinct}
use multi_agent_agent_hub.Gateway.Projection.Recovery.{AllStored, recover_run-AllStored}

abbrev message : String → Message
message text = record {
  id = "";
  conversation_id = "c";
  author = "assistant";
  role = "assistant";
  text = text;
  run_id = "";
  created_at = 0;
}

-- The store with one conversation, `c`.
unfoldable store_c : MemoryStore
unfolding step create_conversation insert
store_c = step (create "c" 1 "user" "code-agent") new_store

abbrev calls : List Call
calls =
    project "m1" 2 (message "one") "r" (pos 1, pos 0)
    ∷ project "m2" 3 (message "again") "r" (pos 1, pos 0)
    ∷ append "m3" 4 (message "hello")
    ∷ project "m4" 5 (message "other run") "q" (pos 1, pos 0)
    ∷ project "m5" 6 (message "two") "r" (pos 1, pos 2)
    ∷ project "m6" 7 (message "  ") "r" (pos 5, pos 0)
    ∷ delete "c"
    ∷ create "c" 8 "user" "code-agent"
    ∷ project "m7" 9 (message "late") "r" (pos 1, pos 1)
    ∷ []

unfoldable positions : List Position
unfolding all_stored store_c stored project_message trim_space lookup append_message
    delete_conversation erase
positions = all_stored "r" calls store_c

stored_positions : positions ≡ (pos 1, pos 0) ∷ (pos 1, pos 2) ∷ []
unfolding positions
stored_positions = refl

all_stored-Ascending_example :
    Ascending (lookup (offset_key "r") store_c.projection_offsets) (all_stored "r" calls store_c)
    × (all_answered "r" calls store_c ≡ all_stored "r" calls store_c)
all_stored-Ascending_example = all_stored-Ascending "r" calls store_c

-- A payload is `<key><kind>`: a turn's key, and `+` for content or `.` for its end.
abbrev item : String → String → String → JournalItem
item type key delta = record {
  type = type;
  message_id = key;
  turn_index = none;
  agent_name = "code-agent";
  author = "";
  role = "";
  delta = delta;
  text = "";
  sender = none;
}

unfoldable decode : String → Option JournalItem
decode payload =
    if str_eq payload "a+"
    then some (item "AGENT_TURN_CONTENT" "a" "one")
    else if str_eq payload "a."
    then some (item "AGENT_TURN_FINISHED" "a" "")
    else if str_eq payload "b+"
    then some (item "AGENT_TURN_CONTENT" "b" "two ")
    else if str_eq payload "b."
    then some (item "AGENT_TURN_FINISHED" "b" "")
    else if str_eq payload "end"
    then some (item "RUN_FINISHED" "" "")
    else none

abbrev event : ℕ → String → PublicEvent
event seq payload = record { seq = pos seq; sub_index = pos 0; type = "event"; payload = payload }

-- Two turns that end in the other order than they start.
abbrev journal : List PublicEvent
journal =
    event 1 "a+"
    ∷ event 2 "b+"
    ∷ event 3 "b."
    ∷ event 4 "broken"
    ∷ event 5 "a+"
    ∷ event 6 "a."
    ∷ event 7 "end"
    ∷ []

-- Two turns that are open when the run ends.
abbrev open_turns : List PublicEvent
open_turns = event 1 "a+" ∷ event 2 "b+" ∷ event 3 "end" ∷ []

abbrev worker : List PublicEvent → Worker
worker events = record {
  page_size = 3;
  decode = decode;
  conversation_id_for_run = λ run_id. found "c";
  list_page = λ run_id at limit. some (list_public_events_after events at limit);
  new_id = λ n. if str_eq "" "" then "id" else "";
  now = 9;
}

texts : MemoryStore → List String
texts s = map (λ (m : Message). m.text) (or_empty (lookup "c" s.messages))

-- The texts of the conversation and the count after the recovery.
unfoldable recovered : List PublicEvent → List String × ℕ
unfolding texts recover_run store_c decode list_public_events_after lookup read_pages later
    project_turns sort_turns collect_turns read_turns turn_key insert_turn trim_space
    project_message
recovered events =
    let result = recover_run (worker events) 8 "r" store_c in (texts result.store, result.projected)

both_turns : recovered journal ≡ ("two" ∷ "oneone" ∷ [], 2)
unfolding recovered
both_turns = refl

-- The second turn ends at the position of the first, so its text is not stored.
one_of_two_turns : recovered open_turns ≡ ("one" ∷ [], 1)
unfolding recovered
one_of_two_turns = refl

-- The turn `a` is open when the recovery passes its first event, so only its later text is stored.
unfoldable recovered_twice : List String
unfolding texts recover_run store_c decode list_public_events_after lookup read_pages later
    project_turns sort_turns collect_turns read_turns turn_key insert_turn trim_space
    project_message
recovered_twice =
    let first = recover_run (worker (take 3 journal)) 8 "r" store_c in
    texts (recover_run (worker journal) 8 "r" first.store).store

half_a_turn : recovered_twice ≡ "two" ∷ "one" ∷ []
unfolding recovered_twice
half_a_turn = refl

-- Turns of the live stream: two that are open when it ends.
abbrev live : ℤ → String → Event
live index delta = record {
  type = "AGENT_TURN_CONTENT";
  message_id = "";
  turn_index = index;
  agent_name = "code-agent";
  sender = none;
  author = "";
  delta = delta;
  text = "";
}

unfoldable open_at_end : List LiveTurn
unfolding content live_turn_key event_author trim_space lookup insert drain
open_at_end =
    let one = content (live (pos 0) "one") "" new_turn_accumulator in
    let two = content (live (pos 1) "two") "" one in drain two.order two.turns

drained : map (λ (t : LiveTurn). t.text) open_at_end ≡ "one" ∷ "two" ∷ []
unfolding open_at_end print_ℤ erase
drained = refl

-- Both are projected with the number of the last event: the second text is not stored.
unfoldable projected_at_end : List LiveTurn → MemoryStore → List String
unfolding texts project_turn project_message trim_space lookup insert
projected_at_end [] s = texts s
projected_at_end (turn ∷ turns) s =
    projected_at_end turns (after s (project_turn "id" 9 "c" "r" turn (pos 4) s))

one_of_two_drained : projected_at_end open_at_end store_c ≡ "one" ∷ []
unfolding projected_at_end open_at_end store_c print_ℤ erase
one_of_two_drained = refl

abbrev conversation_c : Conversation
conversation_c = record {
  id = "c";
  title = "";
  type = "single";
  user_id = "user";
  agent_name = "code-agent";
  pinned = false;
  pinned_at = none;
  participants = [];
  created_at = 1;
  updated_at = 1;
}

has_conversation : lookup "c" store_c.conversations ≡ some conversation_c
unfolding store_c lookup
has_conversation = refl

journal-Journal : Journal (pos 0, pos 0) journal
unfolding Journal later
journal-Journal = (refl, (refl, (refl, (refl, (refl, (refl, (refl, tt)))))))

enough_fuel : length (events_after (start_of "r" store_c) journal) < 8
unfolding store_c lookup later
enough_fuel = omega arith

turns-Distinct : Distinct (collect_turns decode (events_after (start_of "r" store_c) journal))
unfolding Distinct collect_turns read_turns store_c lookup later decode turn_key
turns-Distinct = ((inr refl, tt), (tt, tt))

recover_run-AllStored_example :
    AllStored
      (worker journal)
      "c"
      "r"
      (or_empty (lookup "c" store_c.messages))
      0
      (filter is_storable
        (sort_turns (collect_turns decode (events_after (start_of "r" store_c) journal))))
      (recover_run (worker journal) 8 "r" store_c)
recover_run-AllStored_example =
    recover_run-AllStored (worker journal) "c" "r" conversation_c store_c 8 (pos 0, pos 0) journal
      refl refl has_conversation (omega arith) (omega arith) journal-Journal (λ at. refl)
      enough_fuel turns-Distinct
