-- ===== src/Gateway/Store/Once.antt =====
-- What ProjectAssistantMessage of services/gateway/store/store.go promises a run, whatever the other calls
-- of the store do in between.
use text.Mathlib.TextLemmas.{append_cancel_right}
use multi_agent_agent_hub.Prelude.{
  ℕ, suc, ◌+◌, ◌-◌, length, length-append, replicate, String, Bool, true, false, Option, none, some,
  List, [], ◌∷◌, ◌++◌, ◌&&◌, ◌≡◌, refl, sym, ap, ◌∙◌, subst, ◌⊎◌, inl, inr, str_eq, if◌then◌else◌,
  eq_iff, arith, Bool-cases, if-both, if-cases,
}
use multi_agent_agent_hub.Prelude.Int.{◌<ℤ◌, leb_ℤ, equal_ℤ}
use multi_agent_agent_hub.Prelude.Dict.{Dict, lookup, insert, lookup-insert}
use multi_agent_agent_hub.Gateway.Store.{
  Participant, Conversation, Message, Position, MemoryStore, Reply, ok, err, conversation_not_found,
  empty_message, StoreError, after, with_conversation, ConversationPatch, create_conversation,
  update_conversation, set_participants, append_message, project_message, delete_conversation,
  is_projected, offset_key, store_once, or_empty, add_message,
}

-- A call that may change the store, with the fresh id and the time it reads.
pub data Call : Type 0 where
  create : String → ℕ → String → String → Call
  update : ℕ → String → ConversationPatch → Call
  set_roster : ℕ → String → String → List Participant → Call
  append : String → ℕ → Message → Call
  project : String → ℕ → Message → String → Position → Call
  delete : String → Call

unfoldable pub step : Call → MemoryStore → MemoryStore
step (create id now user agent) s = after s (create_conversation id now user agent s)
step (update now id patch) s = after s (update_conversation now id patch s)
step (set_roster now id type roster) s = after s (set_participants now id type roster s)
step (append id now m) s = after s (append_message id now m s)
step (project id now m run_id at) s = after s (project_message id now m run_id at s)
step (delete id) s = after s (delete_conversation id s)

abbrev is_new : Reply Bool → Bool
is_new (ok s new) = new
is_new (err e) = false

-- How many messages there are, in all conversations.
abbrev pub total : Dict (List Message) → ℕ
total [] = 0
total ((id, messages) ∷ entries) = length messages + total entries

-- The position of the call as often as the call adds a message to the store, if it is of the run.
unfoldable pub stored : String → Call → MemoryStore → List Position
unfolding step
stored run_id (project id now m other at) s =
    let added = total (step (project id now m other at) s).messages - total s.messages in
    if str_eq other run_id then replicate added at else []
stored run_id call s = []

-- The position of the call if it is of the run and its answer is that the message is new.
unfoldable pub answered : String → Call → MemoryStore → List Position
answered run_id (project id now m other at) s =
    if is_new (project_message id now m other at s) && str_eq other run_id then at ∷ [] else []
answered run_id call s = []

-- The positions that the calls store messages of the run for, in the order of the calls.
unfoldable pub all_stored : String → List Call → MemoryStore → List Position
all_stored run_id [] s = []
all_stored run_id (call ∷ calls) s =
    let rest = all_stored run_id calls (step call s) in stored run_id call s ++ rest

-- The positions that the calls answer true for.
unfoldable pub all_answered : String → List Call → MemoryStore → List Position
all_answered run_id [] s = []
all_answered run_id (call ∷ calls) s =
    let rest = all_answered run_id calls (step call s) in answered run_id call s ++ rest

-- Positions are ordered by the sequence number and then by the index.
abbrev pub Before : Position → Position → Type 0
Before (a, i) (b, j) = (a <ℤ b) ⊎ ((a ≡ b) × (i <ℤ j))

abbrev pub After : Option Position → Position → Type 0
After none at = Unit
After (some last) at = Before last at

-- Each position is after the one before it, and the first after the given one.
abbrev pub Ascending : Option Position → List Position → Type 0
Ascending last [] = Unit
Ascending last (at ∷ rest) = After last at × Ascending (some at) rest

not_projected-After : (o : Option Position) (at : Position) → is_projected o at ≡ false → After o at
not_projected-After none at h = tt
not_projected-After (some (a, i)) (b, j) h = elim (Bool-cases (leb_ℤ b a && leb_ℤ a b)) [
  | inl same ↦ inr (sym (equal_ℤ b a same), ground arith)
  | inr other ↦ inl (ground arith)
]

total-insert :
    (id : String) (messages : List Message) (entries : Dict (List Message))
    → total (insert id messages entries) + length (or_empty (lookup id entries))
      ≡ total entries + length messages
unfolding insert lookup
total-insert id messages [] = omega arith
total-insert id messages ((at, old) ∷ entries) =
    let rest = total-insert id messages entries in ground (arith, rest)

total-add_message :
    (m : Message) (conv : Conversation) (s : MemoryStore)
    → total (add_message m conv s).messages ≡ suc (total s.messages)
total-add_message m conv s =
    let old = or_empty (lookup m.conversation_id s.messages) in
    omega
      (arith, total-insert m.conversation_id (old ++ m ∷ []) s.messages, length-append old (m ∷ []))

-- What a call of ProjectAssistantMessage does to the offsets and the number of messages.
Kept : String → Position → MemoryStore → Reply Bool → Type 0
Kept key at s r =
    ((is_new r ≡ false)
      × (total (after s r).messages ≡ total s.messages)
      × ((after s r).projection_offsets ≡ s.projection_offsets))
    ⊎ ((is_new r ≡ true)
        × (total (after s r).messages ≡ suc (total s.messages))
        × (is_projected (lookup key s.projection_offsets) at ≡ false)
        × ((after s r).projection_offsets ≡ insert key at s.projection_offsets))

with_conversation-both {ℓ κ} :
    {A : Type ℓ} (P : Reply A → Type κ) (o : Option Conversation) (body : Conversation → Reply A)
    → P (err conversation_not_found)
    → ((conv : Conversation) → P (body conv))
    → P (with_conversation o body)
with_conversation-both P none body h hs = h
with_conversation-both P (some conv) body h hs = hs conv

module _ (key : String) (at : Position) (s : MemoryStore) where
  err-Kept : (e : StoreError) → Kept key at s (err e)
  unfolding Kept
  err-Kept e = inl (refl, refl, refl)

  store_once-Kept : (m : Message) (conv : Conversation) → Kept key at s (store_once key at m conv s)
  unfolding Kept
  store_once-Kept m conv =
      if-cases P (is_projected (lookup key s.projection_offsets) at) _ _
        (λ old. inl (refl, refl, refl)) (λ new. inr (refl, total-add_message m conv s, new, refl))
    where
      P : Reply Bool → Type 0
      P r =
          ((is_new r ≡ false)
            × (total (after s r).messages ≡ total s.messages)
            × ((after s r).projection_offsets ≡ s.projection_offsets))
          ⊎ ((is_new r ≡ true)
              × (total (after s r).messages ≡ suc (total s.messages))
              × (is_projected (lookup key s.projection_offsets) at ≡ false)
              × ((after s r).projection_offsets ≡ insert key at s.projection_offsets))

project_message-Kept :
    (id : String) (now : ℕ) (m : Message) (run_id : String) (at : Position) (s : MemoryStore)
    → Kept (offset_key run_id) at s (project_message id now m run_id at s)
unfolding project_message
project_message-Kept id now m run_id at s =
    let key = offset_key run_id in
    let P = Kept key at s in
    if-both P _ _ _ (err-Kept key at s conversation_not_found) (
      if-both P _ _ _ (err-Kept key at s empty_message) (
        with_conversation-both P _ _ (err-Kept key at s conversation_not_found)
          (λ conv. store_once-Kept key at s _ conv)))

-- A call's effect on the offset of one run.
Moved : String → Call → MemoryStore → Type 0
unfolding stored answered step
Moved run_id call s =
    let old = lookup (offset_key run_id) s.projection_offsets in
    let new = lookup (offset_key run_id) (step call s).projection_offsets in
    ((stored run_id call s ≡ []) × (answered run_id call s ≡ []) × (new ≡ old))
    ⊎ ((at : Position) × (stored run_id call s ≡ at ∷ [])
        × (answered run_id call s ≡ at ∷ [])
        × (is_projected old at ≡ false)
        × (new ≡ some at))

-- A reply that keeps every offset.
SameOffsets {ℓ} : {A : Type ℓ} → MemoryStore → Reply A → Type 0
SameOffsets s r = (after s r).projection_offsets ≡ s.projection_offsets

err-SameOffsets {ℓ} :
    (A : Type ℓ) (s : MemoryStore) (e : StoreError) → SameOffsets {A = A} s (err e)
unfolding SameOffsets
err-SameOffsets A s e = refl

ok-SameOffsets {ℓ} :
    {A : Type ℓ} (s t : MemoryStore) (a : A)
    → t.projection_offsets ≡ s.projection_offsets
    → SameOffsets s (ok t a)
unfolding SameOffsets
ok-SameOffsets s t a h = h

with_conversation-SameOffsets {ℓ} :
    {A : Type ℓ} (s : MemoryStore) (o : Option Conversation) (body : Conversation → Reply A)
    → ((conv : Conversation) → SameOffsets s (body conv))
    → SameOffsets s (with_conversation o body)
with_conversation-SameOffsets s o body =
    with_conversation-both (SameOffsets s) o body (err-SameOffsets _ s conversation_not_found)

append_message-SameOffsets :
    (id : String) (now : ℕ) (m : Message) (s : MemoryStore)
    → SameOffsets s (append_message id now m s)
unfolding append_message
append_message-SameOffsets id now m s =
    if-both (SameOffsets s) _ _ _ (err-SameOffsets _ s conversation_not_found)
      (with_conversation-SameOffsets s _ _ (λ conv. ok-SameOffsets s _ _ refl))

update_conversation-SameOffsets :
    (now : ℕ) (id : String) (patch : ConversationPatch) (s : MemoryStore)
    → SameOffsets s (update_conversation now id patch s)
unfolding update_conversation
update_conversation-SameOffsets now id patch s =
    with_conversation-SameOffsets s _ _ (λ conv. ok-SameOffsets s _ _ refl)

set_participants-SameOffsets :
    (now : ℕ) (id type : String) (roster : List Participant) (s : MemoryStore)
    → SameOffsets s (set_participants now id type roster s)
unfolding set_participants
set_participants-SameOffsets now id type roster s =
    with_conversation-SameOffsets s _ _ (λ conv. ok-SameOffsets s _ _ refl)

delete_conversation-SameOffsets :
    (id : String) (s : MemoryStore) → SameOffsets s (delete_conversation id s)
unfolding delete_conversation
delete_conversation-SameOffsets id s =
    with_conversation-SameOffsets s _ _ (λ conv. ok-SameOffsets s _ _ refl)

offset_key_eq : (a b : String) → str_eq (offset_key a) (offset_key b) ≡ str_eq a b
offset_key_eq a b =
    let cancel = append_cancel_right a b "\0assistant_message.v1" in
    ground (arith, eq_iff a b, eq_iff (offset_key a) (offset_key b), cancel)

lookup_offset :
    (a b : String) (at : Position) (o : Dict Position)
    → lookup (offset_key b) (insert (offset_key a) at o)
      ≡ (if str_eq a b then some at else lookup (offset_key b) o)
lookup_offset a b at o =
    lookup-insert (offset_key a) (offset_key b) at o
    ∙ ap (λ t. if t then some at else lookup (offset_key b) o) (offset_key_eq a b)

none_added :
    (run_id other : String) (at : Position) (new old : ℕ)
    → new ≡ old
    → (if str_eq other run_id then replicate (new - old) at else []) ≡ []
none_added run_id other at new old h =
    let nothing : new - old ≡ 0 = omega (arith, h) in
    ap (λ n. if str_eq other run_id then replicate n at else []) nothing
    ∙ if-both (λ l. l ≡ []) (str_eq other run_id) [] [] refl refl

one_added :
    (run_id other : String) (at : Position) (new old : ℕ)
    → new ≡ suc old
    → (if str_eq other run_id then replicate (new - old) at else [])
      ≡ (if str_eq other run_id then at ∷ [] else [])
one_added run_id other at new old h =
    let one : new - old ≡ 1 = omega (arith, h) in
    ap (λ n. if str_eq other run_id then replicate n at else []) one

project-Moved :
    (run_id id : String) (now : ℕ) (m : Message) (other : String) (at : Position) (s : MemoryStore)
    → Moved run_id (project id now m other at) s
unfolding Moved stored answered step Kept
project-Moved run_id id now m other at s = elim (project_message-Kept id now m other at s) [
  | inl (old, same, kept) ↦ inl (
    none_added run_id other at _ _ same,
    ap (λ b. if b && str_eq other run_id then at ∷ [] else []) old,
    ap (lookup (offset_key run_id)) kept,
  )
  | inr (new, one, fresh, put) ↦
      let before = lookup (offset_key run_id) s.projection_offsets in
      let at_run = ap (lookup (offset_key run_id)) put ∙ lookup_offset other run_id at _ in
      let answer = ap (λ b. if b && str_eq other run_id then at ∷ [] else []) new in
      let added = one_added run_id other at _ _ one in
      elim (Bool-cases (str_eq other run_id)) [
        | inl same ↦
            let key = ap offset_key ((eq_iff other run_id).0 same) in
            let this = ap (λ b. if b then at ∷ [] else []) same in
            inr (
              at,
              added ∙ this,
              answer ∙ this,
              subst (λ k. is_projected (lookup k s.projection_offsets) at ≡ false) key fresh,
              at_run ∙ ap (λ t. if t then some at else before) same,
            )
        | inr different ↦
            let other_run = ap (λ b. if b then at ∷ [] else []) different in
            inl (
              added ∙ other_run,
              answer ∙ other_run,
              at_run ∙ ap (λ t. if t then some at else before) different,
            )
      ]
]

step-Moved : (run_id : String) (call : Call) (s : MemoryStore) → Moved run_id call s
unfolding Moved stored answered step create_conversation SameOffsets
step-Moved run_id (create id now user agent) s = inl (refl, refl, refl)
step-Moved run_id (update now id patch) s =
    inl
      (refl, refl, ap (lookup (offset_key run_id)) (update_conversation-SameOffsets now id patch s))
step-Moved run_id (set_roster now id type roster) s = inl (
  refl,
  refl,
  ap (lookup (offset_key run_id)) (set_participants-SameOffsets now id type roster s),
)
step-Moved run_id (append id now m) s =
    inl (refl, refl, ap (lookup (offset_key run_id)) (append_message-SameOffsets id now m s))
step-Moved run_id (project id now m other at) s = project-Moved run_id id now m other at s
step-Moved run_id (delete id) s =
    inl (refl, refl, ap (lookup (offset_key run_id)) (delete_conversation-SameOffsets id s))

-- Whatever calls of the store run in whatever order, each ProjectAssistantMessage adds at most one message
-- to the store, the positions for which one of a run is added strictly ascend from the run's offset
-- before the calls on, and they are the positions that the calls answer true for: no event is stored
-- twice, not even after its conversation is deleted.
pub all_stored-Ascending :
    (run_id : String) (calls : List Call) (s : MemoryStore)
    → Ascending (lookup (offset_key run_id) s.projection_offsets) (all_stored run_id calls s)
      × (all_answered run_id calls s ≡ all_stored run_id calls s)
unfolding all_stored all_answered Moved
all_stored-Ascending run_id [] s = (tt, refl)
all_stored-Ascending run_id (call ∷ calls) s =
    let old = lookup (offset_key run_id) s.projection_offsets in
    let more = all_stored run_id calls (step call s) in
    let (rest, same) = all_stored-Ascending run_id calls (step call s) in
    elim (step-Moved run_id call s) [
      | inl (nothing, no_answer, kept) ↦ (
        subst (λ l. Ascending old (l ++ more)) (sym nothing)
            (subst (λ o. Ascending o more) kept rest),
        rw (nothing, no_answer) same,
      )
      | inr (at, one, answer, fresh, put) ↦ (
        subst (λ l. Ascending old (l ++ more)) (sym one)
            (not_projected-After old at fresh, subst (λ o. Ascending o more) put rest),
        rw (one, answer) (ap (λ l. at ∷ l) same),
      )
    ]
