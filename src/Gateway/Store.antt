-- ===== src/Gateway/Store.antt =====
-- MemoryStore of services/gateway/store/store.go. A method takes the lock for its whole body, so it is a
-- function to the new store. The fresh id and the time of the clock are arguments, and the context is
-- not cancelled. Lists are copied where the source copies them.
pub mod Once
use Prim.Native.String.{◌++◌ as append_text}
use multi_agent_agent_hub.Prelude.{
  ℕ, String, Bool, true, false, ◌&&◌, ◌||◌, not, Option, none, some, List, [], ◌∷◌, ◌++◌, ◌==◌,
  str_eq, if◌then◌else◌,
}
use multi_agent_agent_hub.Prelude.Int.{ℤ, ltb_ℤ, leb_ℤ}
use multi_agent_agent_hub.Prelude.Dict.{Dict, empty, lookup, insert, erase}
use multi_agent_agent_hub.Prelude.Text.{trim_space}

pub record Participant : Type 0 where
  pub agent_name : String
  pub role : String
  pub selected : Bool
  pub required : Bool

pub record Conversation : Type 0 where
  pub id : String
  pub title : String
  pub type : String
  pub user_id : String
  pub agent_name : String
  pub pinned : Bool
  pub pinned_at : Option ℕ
  pub participants : List Participant
  pub created_at : ℕ
  pub updated_at : ℕ

-- A time of zero is Go's zero time.
pub record Message : Type 0 where
  pub id : String
  pub conversation_id : String
  pub author : String
  pub role : String
  pub text : String
  pub run_id : String
  pub created_at : ℕ

pub data StoreError : Type 0 where
  conversation_not_found empty_message : StoreError

-- The sequence number and the index below it of a projected event.
abbrev pub Position : Type 0
Position = ℤ × ℤ

pub record MemoryStore : Type 0 where
  pub conversations : Dict Conversation
  pub messages : Dict (List Message)
  pub participants : Dict (List Participant)
  pub projection_offsets : Dict Position

abbrev pub new_store : MemoryStore
new_store = record {
  conversations = empty;
  messages = empty;
  participants = empty;
  projection_offsets = empty;
}

-- A method's answer and the store after it, or its error, which leaves the store as it was.
pub data Reply {ℓ} (A : Type ℓ) : Type ℓ where
  ok : MemoryStore → A → Reply A
  err : StoreError → Reply A

abbrev pub after {ℓ} : {A : Type ℓ} → MemoryStore → Reply A → MemoryStore
after s (ok t a) = t
after s (err e) = s

abbrev pub or_empty {ℓ} : {A : Type ℓ} → Option (List A) → List A
or_empty none = []
or_empty (some xs) = xs

-- Reads a conversation, or fails.
abbrev pub with_conversation {ℓ} :
    {A : Type ℓ} → Option Conversation → (Conversation → Reply A) → Reply A
with_conversation none body = err conversation_not_found
with_conversation (some conv) body = body conv

unfoldable pub create_conversation : String → ℕ → String → String → MemoryStore → Reply Conversation
create_conversation new_id now user_id agent_name s =
    let conv : Conversation = record {
      id = new_id;
      title = "";
      type = "single";
      user_id = user_id;
      agent_name = agent_name;
      pinned = false;
      pinned_at = none;
      participants = [];
      created_at = now;
      updated_at = now;
    } in
    ok
      (record s {
        conversations = insert new_id conv s.conversations;
        messages = insert new_id [] s.messages;
      })
      conv

unfoldable pub get_conversation : String → MemoryStore → Reply Conversation
get_conversation id s =
    with_conversation (lookup id s.conversations)
      (λ conv. ok s (record conv { participants = or_empty (lookup id s.participants) }))

pub record ConversationPatch : Type 0 where
  pub title : Option String
  pub pinned : Option Bool

abbrev pin_at : ℕ → Option Bool → Conversation → Conversation
pin_at now none conv = conv
pin_at now (some pinned) conv = record conv {
  pinned = pinned;
  pinned_at = if pinned then some now else none;
}

abbrev retitle : Option String → Conversation → Conversation
retitle none conv = conv
retitle (some title) conv = record conv { title = title }

unfoldable pub update_conversation :
    ℕ → String → ConversationPatch → MemoryStore → Reply Conversation
update_conversation now id patch s = with_conversation (lookup id s.conversations) (λ old.
    let conv = record (retitle patch.title (pin_at now patch.pinned old)) { updated_at = now } in
    ok (record s { conversations = insert id conv s.conversations }) conv)

abbrev first_agent : List Participant → String → String
first_agent [] old = old
first_agent (p ∷ rest) old = p.agent_name

unfoldable pub set_participants :
    ℕ → String → String → List Participant → MemoryStore → Reply Conversation
set_participants now id type participants s = with_conversation (lookup id s.conversations) (λ old.
    let conv = record old {
      type = if str_eq type "" then "group" else type;
      participants = participants;
      agent_name = first_agent participants old.agent_name;
      updated_at = now;
    } in
    ok
      (record s {
        conversations = insert id conv s.conversations;
        participants = insert id participants s.participants;
      })
      conv)

-- A message without an id or a time gets one.
abbrev pub stamp : String → ℕ → Message → Message
stamp new_id now m = record m {
  id = if str_eq m.id "" then new_id else m.id;
  created_at = if m.created_at == 0 then now else m.created_at;
}

-- The message goes to the end of its conversation, whose time it sets.
abbrev pub add_message : Message → Conversation → MemoryStore → MemoryStore
add_message m conv s = record s {
  messages =
      insert m.conversation_id (or_empty (lookup m.conversation_id s.messages) ++ m ∷ [])
        s.messages;
  conversations =
      insert m.conversation_id (record conv { updated_at = m.created_at }) s.conversations;
}

unfoldable pub append_message : String → ℕ → Message → MemoryStore → Reply Message
append_message new_id now m s =
    if str_eq m.conversation_id ""
    then err conversation_not_found
    else with_conversation (lookup m.conversation_id s.conversations)
        (λ conv. ok (add_message (stamp new_id now m) conv s) (stamp new_id now m))

-- Whether an event at the position was projected: the offset is not before it.
abbrev pub is_projected : Option Position → Position → Bool
is_projected none at = false
is_projected (some (last, sub)) (seq, index) =
    ltb_ℤ seq last || (leb_ℤ seq last && leb_ℤ last seq && leb_ℤ index sub)

abbrev pub offset_key : String → String
offset_key run_id = append_text run_id "\0assistant_message.v1"

-- Answers whether the message is new.
abbrev pub store_once : String → Position → Message → Conversation → MemoryStore → Reply Bool
store_once key at m conv s =
    if is_projected (lookup key s.projection_offsets) at
    then ok s false
    else ok
        (record (add_message m conv s) { projection_offsets = insert key at s.projection_offsets })
        true

abbrev pub run_message : String → ℕ → String → Message → Message
run_message new_id now run_id m = record (stamp new_id now m) {
  run_id = if str_eq m.run_id "" then run_id else m.run_id;
}

unfoldable pub project_message : String → ℕ → Message → String → Position → MemoryStore → Reply Bool
project_message new_id now m run_id at s =
    if str_eq m.conversation_id ""
    then err conversation_not_found
    else if str_eq (trim_space m.text) ""
    then err empty_message
    else with_conversation (lookup m.conversation_id s.conversations)
        (λ conv. store_once (offset_key run_id) at (run_message new_id now run_id m) conv s)

unfoldable pub list_messages : String → MemoryStore → Reply (List Message)
list_messages id s =
    with_conversation (lookup id s.conversations) (λ conv. ok s (or_empty (lookup id s.messages)))

unfoldable pub list_participants : String → MemoryStore → Reply (List Participant)
list_participants id s =
    with_conversation (lookup id s.conversations)
      (λ conv. ok s (or_empty (lookup id s.participants)))

-- The offsets of the runs stay.
unfoldable pub delete_conversation : String → MemoryStore → Reply (Unit {0})
delete_conversation id s = with_conversation (lookup id s.conversations) (λ conv.
    ok
      (record s {
        conversations = erase id s.conversations;
        messages = erase id s.messages;
        participants = erase id s.participants;
      })
      tt)
