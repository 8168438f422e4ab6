-- ===== src/Gateway/Projection/Recovery.antt =====
-- What RecoverRun of services/gateway/projection/worker.go stores.
use multi_agent_agent_hub.Prelude.{
  ℕ, suc, ◌<◌, ◌≤◌, ◌+◌, String, Bool, true, false, not, ◌&&◌, Option, none, some, List, [], ◌∷◌,
  ◌++◌, map, ◌≡◌, refl, sym, ap, ◌∙◌, subst, inl, inr, length, filter, filter-keeps, filter-skips,
  arith, Bool-cases, str_eq, if◌then◌else◌, append_assoc, append-nil, eq_refl,
}
use multi_agent_agent_hub.Prelude.Dict.{lookup, insert, lookup-insert}
use multi_agent_agent_hub.Prelude.Text.{trim_space-again}
use multi_agent_agent_hub.Gateway.Store.{
  Message, Conversation, Position, MemoryStore, ok, with_conversation, or_empty, project_message,
  store_once, run_message, add_message, is_projected, offset_key,
}
use multi_agent_agent_hub.Gateway.Projection.{
  PublicEvent, TurnState, Worker, Recovered, events, after_message, end_of, later,
  list_public_events_after, collect_turns, sort_turns, read_pages, project_turns, recover_run,
  turn_message, is_storable, recover_found, recover_read, offset_or_zero, start_of, found,
}
use multi_agent_agent_hub.Gateway.Projection.Pages.{Journal, after, read_pages-enough}
use multi_agent_agent_hub.Gateway.Projection.Ends.{
  Ascends, Distinct, Ascends-uncons, Ascends-filter, sort_turns-Ascends, collect_turns-ends,
}

-- The message that is stored for a turn.
abbrev pub message_of : Worker → String → String → TurnState → Message
message_of w conversation_id run_id turn =
    run_message (w.new_id turn.position) w.now run_id (turn_message conversation_id run_id turn)

later-is_projected :
    (o : Option Position) (at : Position)
    → later (offset_or_zero o) at ≡ true
    → is_projected o at ≡ false
unfolding later
later-is_projected none at h = refl
later-is_projected (some (a, i)) (b, j) h = ground arith

if-false {ℓ} : {A : Type ℓ} (b : Bool) (x y : A) → b ≡ false → (if b then x else y) ≡ y
if-false true x y h = ground arith
if-false false x y h = refl

if-true {ℓ} : {A : Type ℓ} (b : Bool) (x y : A) → b ≡ true → (if b then x else y) ≡ x
if-true true x y h = refl
if-true false x y h = ground arith

not-first : (a b : Bool) → not a && b ≡ true → a ≡ false
not-first a b h = ground arith

-- A store of conversation `id` whose run has the offset, after the old messages of the conversation.
record Ready (id run_id : String) (at : Position) (old : List Message) (s : MemoryStore)
    : Type 0 where
  conv : Conversation
  has_conv : lookup id s.conversations ≡ some conv
  has_messages : or_empty (lookup id s.messages) ≡ old
  has_offset : offset_or_zero (lookup (offset_key run_id) s.projection_offsets) ≡ at

-- The recovery ended without an error, counted the turns and stored their messages after the old ones.
pub AllStored : Worker → String → String → List Message → ℕ → List TurnState → Recovered → Type 0
AllStored w id run_id old n turns result =
    (result.error ≡ none)
    × (result.projected ≡ n + length turns)
    × (or_empty (lookup id result.store.messages) ≡ old ++ map (message_of w id run_id) turns)

module _ (w : Worker) (id run_id : String) (named : str_eq id "" ≡ false) where
  stored : Position → TurnState → Conversation → MemoryStore → MemoryStore
  stored at turn conv s = record (add_message (message_of w id run_id turn) conv s) {
    projection_offsets = insert (offset_key run_id) at s.projection_offsets;
  }

  project_message-ok :
      (at : Position) (old : List Message) (s : MemoryStore) (turn : TurnState)
      (r : Ready id run_id at old s)
      → later at (end_of turn) ≡ true
      → is_storable turn ≡ true
      → project_message
          (w.new_id turn.position)
          w.now
          (turn_message id run_id turn)
          run_id
          (end_of turn)
          s
        ≡ ok (stored (end_of turn) turn r.conv s) true
  unfolding project_message stored is_storable
  project_message-ok at old s turn r beyond storable =
      let message = message_of w id run_id turn in
      let key = offset_key run_id in
      let has_text = ap (λ t. str_eq t "") (trim_space-again turn.text) ∙ not-first _ _ storable in
      let after_offset = subst (λ a. later a (end_of turn) ≡ true) (sym r.has_offset) beyond in
      if-false _ _ _ named
      ∙ if-false _ _ _ has_text
      ∙ ap (λ o. with_conversation o (λ conv. store_once key (end_of turn) message conv s))
          r.has_conv
      ∙ if-false _ _ _ (later-is_projected _ (end_of turn) after_offset)

  Ready-stored :
      (at : Position) (old : List Message) (s : MemoryStore) (turn : TurnState)
      (r : Ready id run_id at old s)
      → Ready id run_id
          (end_of turn)
          (old ++ message_of w id run_id turn ∷ [])
          (stored (end_of turn) turn r.conv s)
  unfolding stored
  Ready-stored at old s turn r = record {
    conv = record r.conv { updated_at = w.now };
    has_conv = lookup-insert id id _ s.conversations ∙ if-true _ _ _ (eq_refl id);
    has_messages =
        ap or_empty (lookup-insert id id _ s.messages ∙ if-true _ _ _ (eq_refl id))
        ∙ ap (λ l. l ++ message_of w id run_id turn ∷ []) r.has_messages;
    has_offset = ap offset_or_zero (
        lookup-insert (offset_key run_id) (offset_key run_id) (end_of turn) s.projection_offsets
        ∙ if-true _ _ _ (eq_refl (offset_key run_id)));
  }

  AllStored-cons :
      (old : List Message) (n : ℕ) (turn : TurnState) (turns : List TurnState) (result : Recovered)
      → AllStored w id run_id (old ++ message_of w id run_id turn ∷ []) (suc n) turns result
      → AllStored w id run_id old n (turn ∷ turns) result
  unfolding AllStored
  AllStored-cons old n turn turns result (fine, count, messages) =
      (fine, omega (arith, count), messages ∙ append_assoc old _ _)

  project_turns-step :
      (at : Position) (old : List Message) (n : ℕ) (s : MemoryStore) (turn : TurnState)
      (turns : List TurnState) (r : Ready id run_id at old s)
      → later at (end_of turn) ≡ true
      → is_storable turn ≡ true
      → project_turns w id run_id (turn ∷ turns) n s
        ≡ project_turns w id run_id turns (suc n) (stored (end_of turn) turn r.conv s)
  unfolding project_turns
  project_turns-step at old n s turn turns r beyond storable =
      let next = project_turns w id run_id turns in
      if-true _ _ _ storable
      ∙ ap (λ reply. after_message reply n s next)
          (project_message-ok at old s turn r beyond storable)

  project_turns-skip :
      (n : ℕ) (s : MemoryStore) (turn : TurnState) (turns : List TurnState)
      → is_storable turn ≡ false
      → project_turns w id run_id (turn ∷ turns) n s ≡ project_turns w id run_id turns n s
  unfolding project_turns
  project_turns-skip n s turn turns blank = if-false _ _ _ blank

  project_turns-nil :
      (at : Position) (old : List Message) (n : ℕ) (s : MemoryStore)
      → Ready id run_id at old s
      → AllStored w id run_id old n [] (project_turns w id run_id [] n s)
  unfolding project_turns AllStored
  project_turns-nil at old n s r = (refl, omega arith, r.has_messages ∙ sym (append-nil old))

  -- All storable turns are stored, in their order.
  project_turns-all :
      (turns : List TurnState) (at : Position) (old : List Message) (n : ℕ) (s : MemoryStore)
      → Ready id run_id at old s
      → Ascends at (filter is_storable turns)
      → AllStored w id run_id old n (filter is_storable turns) (project_turns w id run_id turns n s)
  project_turns-all [] at old n s r sorted = project_turns-nil at old n s r
  project_turns-all (turn ∷ turns) at old n s r sorted =
      let rest = filter is_storable turns in
      elim (Bool-cases (is_storable turn)) [
        | inl storable ↦
            let keeps = filter-keeps is_storable turn turns storable in
            let (beyond, later_ones) =
              Ascends-uncons at turn rest (subst (Ascends at) keeps sorted) in
            let all =
              project_turns-all turns (end_of turn) _ (suc n) _ (Ready-stored at old s turn r)
                later_ones in
            subst
              (λ l. AllStored w id run_id old n l (project_turns w id run_id (turn ∷ turns) n s))
              (sym keeps)
              (subst (AllStored w id run_id old n (turn ∷ rest))
                (sym (project_turns-step at old n s turn turns r beyond storable))
                (AllStored-cons old n turn rest _ all))
        | inr blank ↦
            let skips = filter-skips is_storable turn turns blank in
            let all = project_turns-all turns at old n s r (subst (Ascends at) skips sorted) in
            subst
              (λ l. AllStored w id run_id old n l (project_turns w id run_id (turn ∷ turns) n s))
              (sym skips)
              (subst (AllStored w id run_id old n rest)
                (sym (project_turns-skip n s turn turns blank)) all)
      ]

recover_run-eq :
    (w : Worker) (id run_id : String) (s : MemoryStore) (fuel : ℕ) (left : List PublicEvent)
    → w.conversation_id_for_run run_id ≡ found id
    → read_pages w run_id fuel (start_of run_id s) ≡ events left
    → recover_run w fuel run_id s
      ≡ project_turns w id run_id (sort_turns (collect_turns w.decode left)) 0 s
unfolding recover_run
recover_run-eq w id run_id s fuel left owner read =
    ap (λ o. recover_found w run_id s (read_pages w run_id fuel (start_of run_id s)) o) owner
    ∙ ap (recover_read w id run_id s) read

-- RecoverRun stores every turn that ended after the run's offset, once and in the order of the ends. For a
-- run of a known conversation, whose events the database reads in pages of 1 to 1000 in ascending order,
-- with fuel for one more page than there are events after the offset and no two of the turns ending at
-- one event: it ends without an error, counts the turns that have a text, and adds exactly their
-- messages, sorted by their ends, after those of the conversation.
pub recover_run-AllStored :
    (w : Worker) (id run_id : String) (conv : Conversation) (s : MemoryStore) (fuel : ℕ)
    (start : Position) (journal : List PublicEvent)
    → str_eq id "" ≡ false
    → w.conversation_id_for_run run_id ≡ found id
    → lookup id s.conversations ≡ some conv
    → 1 ≤ w.page_size
    → w.page_size ≤ 1000
    → Journal start journal
    → ((at : Position)
        → w.list_page run_id at w.page_size
          ≡ some (list_public_events_after journal at w.page_size))
    → length (after (start_of run_id s) journal) < fuel
    → Distinct (collect_turns w.decode (after (start_of run_id s) journal))
    → AllStored w id run_id
        (or_empty (lookup id s.messages))
        0
        (filter is_storable
          (sort_turns (collect_turns w.decode (after (start_of run_id s) journal))))
        (recover_run w fuel run_id s)
recover_run-AllStored w id run_id conv s fuel start journal named owner has h g sorted reads enough
      distinct =
    let at = start_of run_id s in
    let left = after at journal in
    let turns = collect_turns w.decode left in
    let read = read_pages-enough w run_id start journal h g sorted reads fuel at enough in
    let ends = sort_turns-Ascends at turns (collect_turns-ends at w.decode journal) distinct in
    let ready : Ready id run_id at (or_empty (lookup id s.messages)) s = record {
      conv = conv;
      has_conv = has;
      has_messages = refl;
      has_offset = refl;
    } in
    subst
      (AllStored w id run_id (or_empty (lookup id s.messages)) 0
        (filter is_storable (sort_turns turns)))
      (sym (recover_run-eq w id run_id s fuel left owner read))
      (project_turns-all w id run_id named (sort_turns turns) at _ 0 s ready
        (Ascends-filter is_storable at (sort_turns turns) ends))
