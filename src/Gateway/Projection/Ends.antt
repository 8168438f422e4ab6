-- ===== src/Gateway/Projection/Ends.antt =====
-- The ends of the turns that collectTurns of services/gateway/projection/worker.go gathers, and their order.
use multi_agent_agent_hub.Prelude.{
  ℕ, suc, String, Bool, true, false, not, ◌&&◌, Option, none, some, List, [], ◌∷◌, map, ◌≡◌, refl,
  sym, subst, ◌⊎◌, inl, inr, filter, filter-keeps, filter-skips, All, arith, Bool-cases, if-both,
  if-cases, if◌then◌else◌, str_eq,
}
use multi_agent_agent_hub.Prelude.Int.{pos, ltb_ℤ}
use multi_agent_agent_hub.Gateway.Store.{Position}
use multi_agent_agent_hub.Gateway.Projection.{
  PublicEvent, JournalItem, TurnState, position_of, end_of, later, ensure, update_turn, close,
  write, turn_key, turn_author, delta_of, add_content, on_type, on_item, read_turns, collect_turns,
  insert_turn, sort_turns,
}
use multi_agent_agent_hub.Gateway.Projection.Pages.{later_trans}

-- The ends of the turns ascend, from after the position on.
pub Ascends : Position → List TurnState → Type 0
Ascends at [] = Unit
Ascends at (turn ∷ turns) = (later at (end_of turn) ≡ true) × Ascends (end_of turn) turns

-- The two turns do not end at one event.
abbrev pub Differs : TurnState → TurnState → Type 0
Differs t u = (later (end_of t) (end_of u) ≡ true) ⊎ (later (end_of u) (end_of t) ≡ true)

unfoldable pub Distinct : List TurnState → Type 0
Distinct [] = Unit
Distinct (turn ∷ turns) = All (Differs turn) turns × Distinct turns

pub Ascends-uncons :
    (at : Position) (turn : TurnState) (turns : List TurnState)
    → Ascends at (turn ∷ turns)
    → (later at (end_of turn) ≡ true) × Ascends (end_of turn) turns
unfolding Ascends
Ascends-uncons at turn turns h = h

Ascends-weaken :
    (a b : Position) (turns : List TurnState) → later a b ≡ true → Ascends b turns → Ascends a turns
unfolding Ascends
Ascends-weaken a b [] h j = tt
Ascends-weaken a b (t ∷ ts) h (first, rest) = (later_trans a b (end_of t) h first, rest)

pub Ascends-filter :
    (p : TurnState → Bool) (a : Position) (turns : List TurnState)
    → Ascends a turns
    → Ascends a (filter p turns)
unfolding Ascends
Ascends-filter p a [] h = tt
Ascends-filter p a (t ∷ ts) (first, rest) =
    let kept = Ascends-filter p (end_of t) ts rest in
    elim (Bool-cases (p t)) [
      | inl keep ↦ subst (Ascends a) (sym (filter-keeps p t ts keep)) (first, kept)
      | inr skip ↦
          subst (Ascends a) (sym (filter-skips p t ts skip))
            (Ascends-weaken a (end_of t) (filter p ts) first kept)
    ]

All-insert_turn {ℓ} :
    (P : TurnState → Type ℓ) (t : TurnState) (ts : List TurnState)
    → P t
    → All P ts
    → All P (insert_turn t ts)
unfolding insert_turn
All-insert_turn P t [] h hs = (h, tt)
All-insert_turn P t (u ∷ us) h (first, rest) =
    if-both (All P) (later (end_of u) (end_of t)) (u ∷ insert_turn t us) (t ∷ u ∷ us)
      (first, All-insert_turn P t us h rest) (h, (first, rest))

All-sort_turns {ℓ} :
    (P : TurnState → Type ℓ) (ts : List TurnState) → All P ts → All P (sort_turns ts)
unfolding sort_turns
All-sort_turns P [] h = tt
All-sort_turns P (t ∷ ts) (first, rest) =
    All-insert_turn P t (sort_turns ts) first (All-sort_turns P ts rest)

insert_turn-Ascends :
    (at : Position) (t : TurnState) (ts : List TurnState)
    → later at (end_of t) ≡ true
    → All (Differs t) ts
    → Ascends at ts
    → Ascends at (insert_turn t ts)
unfolding insert_turn Ascends
insert_turn-Ascends at t [] h differs sorted = (h, tt)
insert_turn-Ascends at t (u ∷ us) h (differ, differs) (first, rest) =
    if-cases (Ascends at) (later (end_of u) (end_of t)) (u ∷ insert_turn t us) (t ∷ u ∷ us)
      (λ before. (first, insert_turn-Ascends (end_of u) t us before differs rest))
      (λ after. (h, (elim differ [ inl x ↦ x | inr y ↦ ground (arith, y, after) ], rest)))

-- Turns that end at different events after the position are sorted by them.
pub sort_turns-Ascends :
    (at : Position) (ts : List TurnState)
    → All (λ t. later at (end_of t) ≡ true) ts
    → Distinct ts
    → Ascends at (sort_turns ts)
unfolding sort_turns Distinct Ascends
sort_turns-Ascends at [] h d = tt
sort_turns-Ascends at (t ∷ ts) (first, rest) (differs, d) =
    insert_turn-Ascends at t (sort_turns ts) first (All-sort_turns (Differs t) ts differs)
      (sort_turns-Ascends at ts rest d)

-- An open turn, or one that ends after the position.
EndsAfter : Position → TurnState → Type 0
EndsAfter at t = (t.is_open ≡ true) ⊎ (later at (end_of t) ≡ true)

AllEndAfter : Position → List TurnState → Type 0
AllEndAfter at ts = All (EndsAfter at) ts

module _ (at : Position) where
  ensure-EndsAfter :
      (n : ℕ) (key : String) (ts : List TurnState)
      → AllEndAfter at ts
      → AllEndAfter at (ensure n key ts)
  unfolding ensure EndsAfter AllEndAfter
  ensure-EndsAfter n key [] h = (inl refl, tt)
  ensure-EndsAfter n key (t ∷ ts) (first, rest) =
      if-both (AllEndAfter at) (str_eq t.key key) (t ∷ ts) (t ∷ ensure (suc n) key ts) (first, rest)
        (first, ensure-EndsAfter (suc n) key ts rest)

  update_turn-EndsAfter :
      (key : String) (change : TurnState → TurnState)
      → ((t : TurnState) → EndsAfter at t → EndsAfter at (change t))
      → (ts : List TurnState) → AllEndAfter at ts
      → AllEndAfter at (update_turn key change ts)
  unfolding update_turn AllEndAfter
  update_turn-EndsAfter key change keeps [] h = tt
  update_turn-EndsAfter key change keeps (t ∷ ts) (first, rest) =
      if-both (AllEndAfter at) (str_eq t.key key) (change t ∷ ts) (t ∷ update_turn key change ts)
        (keeps t first, rest) (first, update_turn-EndsAfter key change keeps ts rest)

  closed-EndsAfter :
      (end : Position)
      → later at end ≡ true
      → (t : TurnState)
      → EndsAfter at (record t { end_seq = end.0; end_sub = end.1; is_open = false })
  unfolding EndsAfter
  closed-EndsAfter end h t = inr h

  close-EndsAfter :
      (end : Position)
      → later at end ≡ true
      → (t : TurnState) → EndsAfter at t
      → EndsAfter at (close end t)
  close-EndsAfter end h t e = if-both (EndsAfter at) t.is_open _ t (closed-EndsAfter end h t) e

  write-EndsAfter :
      (author delta : String) (t : TurnState) → EndsAfter at t → EndsAfter at (write author delta t)
  unfolding EndsAfter
  write-EndsAfter author delta t e = e

  map-EndsAfter :
      (change : TurnState → TurnState)
      → ((t : TurnState) → EndsAfter at t → EndsAfter at (change t))
      → (ts : List TurnState) → AllEndAfter at ts
      → AllEndAfter at (map change ts)
  unfolding AllEndAfter
  map-EndsAfter change keeps [] h = tt
  map-EndsAfter change keeps (t ∷ ts) (first, rest) =
      (keeps t first, map-EndsAfter change keeps ts rest)

  add_content-EndsAfter :
      (item : JournalItem) (ts : List TurnState)
      → AllEndAfter at ts
      → AllEndAfter at (add_content item ts)
  unfolding add_content
  add_content-EndsAfter item ts h = if-both (AllEndAfter at) _ _ _ h (
      update_turn-EndsAfter (turn_key item) (write (turn_author item) (delta_of item))
        (write-EndsAfter (turn_author item) (delta_of item)) _
        (ensure-EndsAfter 0 (turn_key item) ts h))

  on_type-EndsAfter :
      (type : String) (event : PublicEvent) (item : JournalItem) (ts : List TurnState)
      → later at (position_of event) ≡ true
      → AllEndAfter at ts
      → AllEndAfter at (on_type type event item ts)
  unfolding on_type
  on_type-EndsAfter type event item ts beyond h =
      let closes = close-EndsAfter (position_of event) beyond in
      if-both (AllEndAfter at) _ _ _ (add_content-EndsAfter item ts h) (
        if-both (AllEndAfter at) _ _ _ (update_turn-EndsAfter (turn_key item) _ closes ts h) (
          if-both (AllEndAfter at) (str_eq type "RUN_FINISHED") _ _ (map-EndsAfter _ closes ts h)
            h))

  on_item-EndsAfter :
      (event : PublicEvent) (o : Option JournalItem) (ts : List TurnState)
      → later at (position_of event) ≡ true
      → AllEndAfter at ts
      → AllEndAfter at (on_item event o ts)
  unfolding on_item
  on_item-EndsAfter event none ts beyond h = h
  on_item-EndsAfter event (some item) ts beyond h =
      on_type-EndsAfter (if str_eq item.type "" then event.type else item.type) event item ts beyond
        h

  read_turns-EndsAfter :
      (decode : String → Option JournalItem) (events : List PublicEvent) (ts : List TurnState)
      → AllEndAfter at ts
      → AllEndAfter at
          (read_turns decode (filter (λ event. later at (position_of event)) events) ts)
  unfolding read_turns
  read_turns-EndsAfter decode [] ts h = h
  read_turns-EndsAfter decode (event ∷ events) ts h =
      elim (Bool-cases (later at (position_of event))) [
        | inl keep ↦
            subst (λ es. AllEndAfter at (read_turns decode es ts))
              (sym (filter-keeps (λ e. later at (position_of e)) event events keep))
              (read_turns-EndsAfter decode events _
                (on_item-EndsAfter event (decode event.payload) ts keep h))
        | inr skip ↦
            subst (λ es. AllEndAfter at (read_turns decode es ts))
              (sym (filter-skips (λ e. later at (position_of e)) event events skip))
              (read_turns-EndsAfter decode events ts h)
      ]

  closed-ends :
      (ts : List TurnState)
      → AllEndAfter at ts
      → All
          (λ t. later at (end_of t) ≡ true)
          (filter (λ t. not t.is_open && ltb_ℤ (pos 0) t.end_seq) ts)
  unfolding AllEndAfter EndsAfter
  closed-ends [] h = tt
  closed-ends (t ∷ ts) (first, rest) =
      let closed = λ (u : TurnState). not u.is_open && ltb_ℤ (pos 0) u.end_seq in
      let Q = All (λ u. later at (end_of u) ≡ true) in
      elim (Bool-cases (closed t)) [
        | inl keep ↦ subst Q (sym (filter-keeps closed t ts keep)) (
          elim first [ inl is_open ↦ ground (arith, is_open, keep) | inr beyond ↦ beyond ],
          closed-ends ts rest,
        )
        | inr skip ↦ subst Q (sym (filter-skips closed t ts skip)) (closed-ends ts rest)
      ]

  -- A turn that is gathered from the events after the position ends after it.
  pub collect_turns-ends :
      (decode : String → Option JournalItem) (events : List PublicEvent)
      → All
          (λ t. later at (end_of t) ≡ true)
          (collect_turns decode (filter (λ event. later at (position_of event)) events))
  unfolding collect_turns AllEndAfter
  collect_turns-ends decode events = closed-ends _ (read_turns-EndsAfter decode events [] tt)
