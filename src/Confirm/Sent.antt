-- ===== src/Confirm/Sent.antt =====
-- What handleHITLConfirmWithPendingPlan of services/orchestrator/httpapi/handler_hitl.go sends to a run.
use multi_agent_agent_hub.Prelude.{
  ℕ, ◌≤◌, String, Bool, true, false, not, ◌&&◌, Option, none, some, List, [], ◌∷◌, ◌++◌, length,
  ◌≡◌, refl, sym, ap, ◌∙◌, subst, ◌⊎◌, inl, inr, All, arith, eq_iff, if◌then◌else◌,
}
use multi_agent_agent_hub.Prelude.Int.{equal_ℤ}
use multi_agent_agent_hub.Prelude.Text.{Cases, trim_space}
use multi_agent_agent_hub.Confirm.{
  IdempotencyRecord, PendingPlan, HitlConfirmRequest, HitlConfirmResult, Action, approve, revise,
  cancel, Channel, missing, full, open_channel, Outcome, Failure, Check, conflict, cached,
  in_progress, is_awaiting, guard, and_then, same_plan, all, is_in_boundary, is_participant_valid,
  is_empty, selected_of, validate_business_approve, validate_business, send, result_of,
  confirm_plan, resolve_action, Resolved, resolved, unresolved, with_action, confirm,
  confirm_approve, refuse, checked, after_check, handle_confirm, validate_and_send, mark_failed,
  validate_basic_fields, check_idempotency,
}

-- An approval names participants of the plan inside its boundary.
pub Within : Action → PendingPlan → List String → Type 0
Within approve pp names =
    All (λ name. is_participant_valid pp name && is_in_boundary pp name ≡ true) names
Within revise pp names = Unit
Within cancel pp names = Unit

-- The plan waits, the result is about it in its revision, and an approval names participants of the plan
-- that lie inside its boundary.
pub IsValidFor : PendingPlan → HitlConfirmResult → Type 0
IsValidFor pp r =
    (is_awaiting pp.status ≡ true)
    × (r.plan_id ≡ pp.plan_id)
    × (r.revision ≡ pp.revision)
    × Within r.action pp r.selected_participants

and_then-none : (a b : Option Failure) → and_then a b ≡ none → (a ≡ none) × (b ≡ none)
and_then-none none b h = (refl, h)
and_then-none (some e) b h = ground arith

guard-none : (ok : Bool) (code : String) (status : ℕ) → guard ok code status ≡ none → ok ≡ true
guard-none true code status h = refl
guard-none false code status h = ground arith

same_plan-none :
    (pp : PendingPlan) (req : HitlConfirmRequest)
    → same_plan pp req ≡ none
    → (is_awaiting pp.status ≡ true) × (req.plan_id ≡ pp.plan_id) × (req.revision ≡ pp.revision)
unfolding same_plan
same_plan-none pp req h =
    let (first, rest) = and_then-none _ _ h in
    let (second, third) = and_then-none _ _ rest in
    (
      guard-none _ _ _ first,
      sym ((eq_iff pp.plan_id req.plan_id).0 (guard-none _ _ _ second)),
      sym (equal_ℤ pp.revision req.revision (guard-none _ _ _ third)),
    )

All-all :
    (p q : String → Bool) (names : List String)
    → all p names ≡ true
    → all q names ≡ true
    → All (λ name. p name && q name ≡ true) names
All-all p q [] h g = tt
All-all p q (x ∷ xs) h g = (ground arith, All-all p q xs (ground arith) (ground arith))

All-of-chosen :
    (P : String → Type 0) (names others : List String)
    → All P (if not (is_empty names) then names else others)
    → All P names
All-of-chosen P [] others h = tt
All-of-chosen P (x ∷ xs) others h = h

All-of-selected :
    (P : String → Type 0) (pp : PendingPlan) (req : HitlConfirmRequest)
    → All P (selected_of pp req)
    → All P req.selected_participants
unfolding selected_of
All-of-selected P pp req h = All-of-chosen P req.selected_participants _ h

business-IsValidFor :
    (cases : Cases) (action : Action) (pp : PendingPlan) (req : HitlConfirmRequest)
    → validate_business cases action pp req ≡ none
    → IsValidFor pp (result_of action req)
unfolding validate_business validate_business_approve IsValidFor Within
business-IsValidFor cases approve pp req h =
    let (same, rest) = and_then-none _ _ h in
    let (known, rest2) = and_then-none _ _ rest in
    let (required, rest3) = and_then-none _ _ rest2 in
    let (inside, path) = and_then-none _ _ rest3 in
    let (waits, id, revision) = same_plan-none pp req same in
    let within =
      All-all (is_participant_valid pp) (is_in_boundary pp) (selected_of pp req)
        (guard-none _ _ _ known) (guard-none _ _ _ inside) in
    (waits, id, revision, All-of-selected _ pp req within)
business-IsValidFor cases revise pp req h =
    let (waits, id, revision) = same_plan-none pp req h in (waits, id, revision, tt)
business-IsValidFor cases cancel pp req h =
    let (waits, id, revision) = same_plan-none pp req h in (waits, id, revision, tt)

-- Either nothing is sent and only the records change, or a valid result is sent and the plan waits no more.
Effect : PendingPlan → Outcome → Type 0
Effect pp o =
    ((o.sent ≡ none)
      × ((records : List IdempotencyRecord) × (o.plan
            ≡ record pp { idempotency_records = records })))
    ⊎ ((r : HitlConfirmResult) × (o.sent ≡ some r)
        × IsValidFor pp r
        × (is_awaiting o.plan.status ≡ false))

checked-both :
    (P : Outcome → Type 0) (o : Option Failure) (failing : Failure → Outcome) (next : Outcome)
    → ((e : Failure) → P (failing e))
    → (o ≡ none → P next)
    → P (checked o failing next)
checked-both P none failing next f g = g refl
checked-both P (some e) failing next f g = f e

confirm_plan-status :
    (action : Action) (selected : List String) (pp : PendingPlan)
    → is_awaiting (confirm_plan action selected pp).status ≡ false
unfolding confirm_plan confirm_approve
confirm_plan-status approve selected pp = refl
confirm_plan-status revise selected pp = refl
confirm_plan-status cancel selected pp = refl

-- Other records do not change what is valid.
recorded-Within :
    (pp : PendingPlan) (action : Action) (records : List IdempotencyRecord) (names : List String)
    → Within action (record pp { idempotency_records = records }) names
    → Within action pp names
unfolding Within is_participant_valid is_in_boundary
recorded-Within pp approve records names h = h
recorded-Within pp revise records names h = tt
recorded-Within pp cancel records names h = tt

recorded-IsValidFor :
    (pp : PendingPlan) (records : List IdempotencyRecord) (r : HitlConfirmResult)
    → IsValidFor (record pp { idempotency_records = records }) r
    → IsValidFor pp r
unfolding IsValidFor
recorded-IsValidFor pp records r (waits, id, revision, within) =
    (waits, id, revision, recorded-Within pp r.action records r.selected_participants within)

module _ (cases : Cases) (sha256 : String → String) (channel : Channel) (action : Action)
    (req : HitlConfirmRequest) (pp : PendingPlan) where
  after_check-Effect :
      (check : Check) (next : PendingPlan → Outcome)
      → ((records : List IdempotencyRecord)
          → Effect pp (next (record pp { idempotency_records = records })))
      → Effect pp (after_check check pp next)
  unfolding Effect
  after_check-Effect (conflict code) next f = inl (refl, (pp.idempotency_records, refl))
  after_check-Effect (cached body status) next f = inl (refl, (pp.idempotency_records, refl))
  after_check-Effect (in_progress records) next f = f records

  send-Effect :
      (channel : Channel) (records : List IdempotencyRecord)
      → IsValidFor pp (result_of action req)
      → Effect pp (send channel action req (record pp { idempotency_records = records }))
  unfolding Effect send
  send-Effect missing records valid = inl (refl, (_, refl))
  send-Effect full records valid = inl (refl, (_, refl))
  send-Effect open_channel records valid =
      inr (result_of action req, refl, valid, confirm_plan-status action _ _)

  refuse-Effect :
      (e : Failure) (records : List IdempotencyRecord)
      → Effect pp (refuse (record pp { idempotency_records = records }) e)
  unfolding Effect
  refuse-Effect e records = inl (refl, (records, refl))

  validate_and_send-Effect :
      (records : List IdempotencyRecord)
      → Effect pp
          (validate_and_send cases channel action req (record pp { idempotency_records = records }))
  unfolding validate_and_send
  validate_and_send-Effect records =
      let recorded = record pp { idempotency_records = records } in
      checked-both (Effect pp) (validate_business cases action recorded req)
        (refuse (mark_failed (trim_space req.idempotency_key) recorded))
        (send channel action req recorded)
        (λ e.
          refuse-Effect e
            (mark_failed (trim_space req.idempotency_key) recorded).idempotency_records)
        (λ valid.
          send-Effect channel records (
            recorded-IsValidFor pp records _ (business-IsValidFor cases action recorded req valid)))

  handle_confirm-Effect : Effect pp (handle_confirm cases sha256 channel action req pp)
  unfolding handle_confirm
  handle_confirm-Effect =
      let next = validate_and_send cases channel action req in
      checked-both (Effect pp) (validate_basic_fields req action) (refuse pp)
        (after_check (check_idempotency sha256 req pp) pp next)
        (λ e. refuse-Effect e pp.idempotency_records)
        (λ basic.
          after_check-Effect (check_idempotency sha256 req pp) next validate_and_send-Effect)

abbrev or_nothing : Option HitlConfirmResult → List HitlConfirmResult
or_nothing none = []
or_nothing (some r) = r ∷ []

with_action-Effect :
    (pp : PendingPlan) (action : Resolved) (next : Action → Outcome)
    → ((a : Action) → Effect pp (next a))
    → Effect pp (with_action pp action next)
unfolding Effect
with_action-Effect pp (resolved a) next f = f a
with_action-Effect pp (unresolved message) next f = inl (refl, (pp.idempotency_records, refl))

confirm-Effect :
    (cases : Cases) (sha256 : String → String) (channel : Channel) (req : HitlConfirmRequest)
    (pp : PendingPlan)
    → Effect pp (confirm cases sha256 channel req pp)
unfolding confirm
confirm-Effect cases sha256 channel req pp =
    with_action-Effect pp (resolve_action req) _
      (λ a. handle_confirm-Effect cases sha256 channel a req pp)

-- One request and whether the run's channel takes a result then.
pub record Confirmation : Type 0 where
  pub channel : Channel
  pub request : HitlConfirmRequest

-- At most one result, and a valid one.
pub SentOnce : PendingPlan → List HitlConfirmResult → Type 0
SentOnce pp results = (length results ≤ 1) × All (IsValidFor pp) results

All-recorded :
    (pp : PendingPlan) (records : List IdempotencyRecord) (results : List HitlConfirmResult)
    → All (IsValidFor (record pp { idempotency_records = records })) results
    → All (IsValidFor pp) results
All-recorded pp records [] h = tt
All-recorded pp records (r ∷ rs) (first, rest) =
    (recorded-IsValidFor pp records r first, All-recorded pp records rs rest)

recorded-SentOnce :
    (pp qq : PendingPlan) (records : List IdempotencyRecord) (results : List HitlConfirmResult)
    → qq ≡ record pp { idempotency_records = records }
    → SentOnce qq results
    → SentOnce pp results
unfolding SentOnce
recorded-SentOnce pp qq records results same (few, valid) =
    (few, All-recorded pp records results (subst (λ q. All (IsValidFor q) results) same valid))

one-SentOnce : (pp : PendingPlan) (r : HitlConfirmResult) → IsValidFor pp r → SentOnce pp (r ∷ [])
unfolding SentOnce
one-SentOnce pp r h = (omega arith, (h, tt))

none-SentOnce : (pp : PendingPlan) → SentOnce pp []
unfolding SentOnce
none-SentOnce pp = (omega arith, tt)

module _ (cases : Cases) (sha256 : String → String) where
  unfoldable pub outcome : Confirmation → PendingPlan → Outcome
  outcome c pp = confirm cases sha256 c.channel c.request pp

  -- The results that are sent to the run, in the order of the requests.
  unfoldable pub all_sent : List Confirmation → PendingPlan → List HitlConfirmResult
  unfolding outcome
  all_sent [] pp = []
  all_sent (c ∷ cs) pp =
      let rest = all_sent cs (outcome c pp).plan in or_nothing (outcome c pp).sent ++ rest

  -- No result is sent for a plan that does not wait.
  all_sent-nil :
      (cs : List Confirmation) (pp : PendingPlan)
      → is_awaiting pp.status ≡ false
      → all_sent cs pp ≡ []
  unfolding all_sent outcome Effect IsValidFor
  all_sent-nil [] pp h = refl
  all_sent-nil (c ∷ cs) pp h = elim (confirm-Effect cases sha256 c.channel c.request pp) [
    | inl (nothing, (records, same)) ↦
        ap (λ o. or_nothing o ++ all_sent cs (outcome c pp).plan) nothing
        ∙ all_sent-nil cs (outcome c pp).plan
            (ap (λ (q : PendingPlan). is_awaiting q.status) same ∙ h)
    | inr (r, one, (waits, id, revision, within), gone) ↦ ground (arith, waits, h)
  ]

  -- Over any sequence of confirmations, with any idempotency keys and whether or not the channel takes a
  -- result, at most one result is sent for a plan: none unless the plan waits, and one with the id and
  -- the revision of the plan, which for an approval names only participants of the plan inside its
  -- boundary.
  pub all_sent-SentOnce : (cs : List Confirmation) (pp : PendingPlan) → SentOnce pp (all_sent cs pp)
  unfolding all_sent outcome Effect
  all_sent-SentOnce [] pp = none-SentOnce pp
  all_sent-SentOnce (c ∷ cs) pp =
      let next = (outcome c pp).plan in
      elim (confirm-Effect cases sha256 c.channel c.request pp) [
        | inl (nothing, (records, same)) ↦
            subst (λ o. SentOnce pp (or_nothing o ++ all_sent cs next)) (sym nothing)
              (recorded-SentOnce pp next records (all_sent cs next) same
                (all_sent-SentOnce cs next))
        | inr (r, one, valid, gone) ↦
            subst (λ o. SentOnce pp (or_nothing o ++ all_sent cs next)) (sym one)
              (subst (λ l. SentOnce pp (r ∷ l)) (sym (all_sent-nil cs next gone))
                (one-SentOnce pp r valid))
      ]
