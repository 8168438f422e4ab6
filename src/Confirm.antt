-- ===== src/Confirm.antt =====
-- The confirmation of a plan by the user, in services/orchestrator/httpapi: PendingPlan of
-- pending_plan.go, the checks of confirm_validation.go, and handleHITLConfirmWithPendingPlan of
-- handler_hitl.go, which does its work behind one lock. Left out are the times, the owner of a plan, the
-- history of feedback and the older map of states, none of which the handler reads, and the database of
-- the execution store. SHA-256 is an argument. The record of a request that fails its checks is marked in
-- the same step, which the source does just after the lock is released.
pub mod Sent
mod Tests
use Prim.Native.String.{◌++◌ as append_text}
use multi_agent_agent_hub.Prelude.{
  ℕ, String, Bool, true, false, not, ◌&&◌, ◌||◌, Option, none, some, List, [], ◌∷◌, ◌++◌, map,
  length, filter, any, ◌==◌, str_eq, if◌then◌else◌,
}
use multi_agent_agent_hub.Prelude.Int.{ℤ, pos, ltb_ℤ, leb_ℤ}
use multi_agent_agent_hub.Prelude.Text.{trim_space, Cases, to_lower, equal_fold, print_ℤ}
use multi_agent_agent_hub.Validator.{PlanParticipant}

pub data PlanStatus : Type 0 where
  awaiting_confirmation revising_plan executing completed cancelled expired failed : PlanStatus

unfoldable pub is_terminal : PlanStatus → Bool
is_terminal awaiting_confirmation = false
is_terminal revising_plan = false
is_terminal executing = false
is_terminal completed = true
is_terminal cancelled = true
is_terminal expired = true
is_terminal failed = true

abbrev pub is_awaiting : PlanStatus → Bool
is_awaiting awaiting_confirmation = true
is_awaiting revising_plan = false
is_awaiting executing = false
is_awaiting completed = false
is_awaiting cancelled = false
is_awaiting expired = false
is_awaiting failed = false

-- Its status is one of the texts "processing", "completed" and "failed".
pub record IdempotencyRecord : Type 0 where
  pub key : String
  pub action : String
  pub request_hash : String
  pub status : String
  pub status_code : ℕ
  pub response_body : String

-- The fields of an orchestration plan that a pending plan takes over.
pub record Plan : Type 0 where
  pub run_id : String
  pub plan_id : String
  pub revision : ℤ
  pub execution_path : String
  pub participants : List PlanParticipant
  pub default_selected_participants : List PlanParticipant
  pub confirmed_participant_names : List String

-- `confirmed_participant_names` is the field of that name of the full plan.
pub record PendingPlan : Type 0 where
  pub run_id : String
  pub plan_id : String
  pub revision : ℤ
  pub execution_path : String
  pub status : PlanStatus
  pub participants : List PlanParticipant
  pub default_selected_participants : List PlanParticipant
  pub required_participants : List String
  pub selected_participants : List String
  pub available_boundary : List String
  pub idempotency_records : List IdempotencyRecord
  pub confirmed_participant_names : List String

pub record HitlConfirmRequest : Type 0 where
  pub run_id : String
  pub action_id : String
  pub plan_id : String
  pub confirmed : Option Bool
  pub action : String
  pub revision : ℤ
  pub feedback : String
  pub reject_reason : String
  pub selected_participants : List String
  pub idempotency_key : String

pub data Action : Type 0 where
  approve revise cancel : Action

pub data Resolved : Type 0 where
  resolved : Action → Resolved
  unresolved : String → Resolved

abbrev by_confirmed : Option Bool → Resolved
by_confirmed none = unresolved "INVALID_PLAN_ACTION: action is required"
by_confirmed (some true) = resolved approve
by_confirmed (some false) = resolved cancel

unfoldable pub resolve_action : HitlConfirmRequest → Resolved
resolve_action req =
    let a = trim_space req.action in
    if str_eq a ""
    then by_confirmed req.confirmed
    else if str_eq a "approve"
    then resolved approve
    else if str_eq a "cancel"
    then resolved cancel
    else if str_eq a "revise"
    then resolved revise
    else unresolved (append_text "INVALID_PLAN_ACTION: unknown action " a)

abbrev is_approve : Action → Bool
is_approve approve = true
is_approve revise = false
is_approve cancel = false

abbrev required_names : List PlanParticipant → List String
required_names participants =
    map (λ (p : PlanParticipant). p.agent_name)
      (filter (λ (p : PlanParticipant). p.required) participants)

unfoldable pub new_pending_plan : Plan → List String → PendingPlan
new_pending_plan p boundary = record {
  run_id = p.run_id;
  plan_id = p.plan_id;
  revision = if ltb_ℤ p.revision (pos 1) then pos 1 else p.revision;
  execution_path = p.execution_path;
  status = awaiting_confirmation;
  participants = p.participants;
  default_selected_participants = p.default_selected_participants;
  required_participants = required_names p.participants;
  selected_participants = [];
  available_boundary = boundary;
  idempotency_records = [];
  confirmed_participant_names = p.confirmed_participant_names;
}

unfoldable pub finish_revise : Plan → PendingPlan → PendingPlan
finish_revise revised pp = record pp {
  plan_id = revised.plan_id;
  revision = revised.revision;
  participants = revised.participants;
  default_selected_participants = revised.default_selected_participants;
  required_participants = required_names revised.participants;
  status = awaiting_confirmation;
  confirmed_participant_names = revised.confirmed_participant_names;
}

unfoldable pub confirm_approve : List String → PendingPlan → PendingPlan
confirm_approve selected pp = record pp {
  selected_participants = selected;
  status = executing;
  confirmed_participant_names = selected;
}

-- ConfirmApprove, StartRevise and Cancel.
unfoldable pub confirm_plan : Action → List String → PendingPlan → PendingPlan
unfolding confirm_approve
confirm_plan approve selected pp = confirm_approve selected pp
confirm_plan revise selected pp = record pp { status = revising_plan }
confirm_plan cancel selected pp = record pp { status = cancelled }

-- The latest record of the key.
unfoldable pub find_record : String → List IdempotencyRecord → Option IdempotencyRecord
find_record key [] = none
find_record key (r ∷ records) = or_here (find_record key records)
  where
    or_here : Option IdempotencyRecord → Option IdempotencyRecord
    or_here (some found) = some found
    or_here none = if str_eq r.key key then some r else none

abbrev has_key : String → List IdempotencyRecord → Bool
has_key key records = any (λ r. str_eq r.key key) records

-- Changes the latest record of the key, to which the source holds a pointer.
unfoldable pub update_record :
    String
    → (IdempotencyRecord → IdempotencyRecord)
    → List IdempotencyRecord
    → List IdempotencyRecord
update_record key change [] = []
update_record key change (r ∷ records) =
    let rest = update_record key change records in
    if has_key key records
    then r ∷ rest
    else if str_eq r.key key
    then change r ∷ records
    else r ∷ records

-- An error code and the status of the answer.
pub record Failure : Type 0 where
  pub error_code : String
  pub http_status : ℕ

-- A check that fails with the code unless the test holds.
abbrev pub guard : Bool → String → ℕ → Option Failure
guard ok code status =
    if ok then none else some (record { error_code = code; http_status = status })

-- The first failure of two checks.
abbrev pub and_then : Option Failure → Option Failure → Option Failure
and_then (some e) next = some e
and_then none next = next

unfoldable pub validate_basic_fields : HitlConfirmRequest → Action → Option Failure
validate_basic_fields req action =
    and_then (guard (not (str_eq (trim_space req.plan_id) "")) "PLAN_ID_REQUIRED" 400) (
      and_then (guard (ltb_ℤ (pos 0) req.revision) "PLAN_REVISION_REQUIRED" 400) (
        and_then
          (guard (not (str_eq (trim_space req.idempotency_key) "")) "IDEMPOTENCY_KEY_REQUIRED" 400)
          (feedback_given action)))
  where
    feedback_given : Action → Option Failure
    feedback_given approve = none
    feedback_given revise =
        guard (not (str_eq (trim_space req.feedback) "")) "REVISION_INPUT_REQUIRED" 400
    feedback_given cancel = none

abbrev same_int : ℤ → ℤ → Bool
same_int a b = leb_ℤ a b && leb_ℤ b a

-- The checks that all three actions start with; revise and cancel have no others.
unfoldable pub same_plan : PendingPlan → HitlConfirmRequest → Option Failure
same_plan pp req = and_then (guard (is_awaiting pp.status) "INVALID_RUN_STATE" 409) (
    and_then (guard (str_eq pp.plan_id req.plan_id) "PLAN_NOT_FOUND" 409)
      (guard (same_int pp.revision req.revision) "PLAN_REVISION_MISMATCH" 409))

abbrev pub all : (String → Bool) → List String → Bool
all p [] = true
all p (x ∷ xs) = p x && all p xs

unfoldable pub is_participant_valid : PendingPlan → String → Bool
is_participant_valid pp name =
    any (λ (p : PlanParticipant). str_eq p.agent_name name) pp.participants

unfoldable pub is_in_boundary : PendingPlan → String → Bool
is_in_boundary pp name = any (λ b. str_eq b name) pp.available_boundary

abbrev is_empty : List String → Bool
is_empty [] = true
is_empty (x ∷ xs) = false

unfoldable pub selected_of : PendingPlan → HitlConfirmRequest → List String
selected_of pp req =
    if not (is_empty req.selected_participants)
    then req.selected_participants
    else if not (is_empty pp.required_participants)
    then pp.required_participants
    else if length pp.available_boundary == 1
    then pp.available_boundary
    else []

unfoldable pub default_selected_participant_names : PendingPlan → List String
default_selected_participant_names pp =
    filter (λ name. not (str_eq name ""))
      (map (λ (p : PlanParticipant). trim_space p.agent_name) pp.default_selected_participants)

unfoldable pub string_sets_equal : Cases → List String → List String → Bool
string_sets_equal cases a b =
    let key = λ (s : String). to_lower cases (trim_space s) in
    length a == length b && all (λ s. any (λ t. str_eq (key t) (key s)) a) b

unfoldable pub path_checks : Cases → PendingPlan → HitlConfirmRequest → List String → Option Failure
path_checks cases pp req selected =
    if str_eq pp.execution_path "single_chat"
    then guard (length selected == 1 && all (is_in_boundary pp) selected) "AGENT_BOUNDARY_VIOLATION"
        409
    else if str_eq pp.execution_path "group_chat"
    then guard (all (is_in_boundary pp) selected) "AGENT_BOUNDARY_VIOLATION" 409
    else if str_eq pp.execution_path "main_agent_orchestration"
    then guard
        (is_empty req.selected_participants
          || string_sets_equal cases selected (default_selected_participant_names pp))
        "PARTICIPANT_CHANGE_REQUIRES_REVISION" 409
    else none

unfoldable pub validate_business_approve : Cases → PendingPlan → HitlConfirmRequest → Option Failure
validate_business_approve cases pp req =
    let selected = selected_of pp req in
    and_then (same_plan pp req) (
      and_then (guard (all (is_participant_valid pp) selected) "AGENT_BOUNDARY_VIOLATION" 409) (
        and_then
          (guard
            (all (λ name. any (λ s. equal_fold cases s name) selected) pp.required_participants)
            "REQUIRED_PARTICIPANT_MISSING" 400)
          (and_then (guard (all (is_in_boundary pp) selected) "AGENT_BOUNDARY_VIOLATION" 409)
            (path_checks cases pp req selected))))

unfoldable pub validate_business :
    Cases → Action → PendingPlan → HitlConfirmRequest → Option Failure
validate_business cases approve pp req = validate_business_approve cases pp req
validate_business cases revise pp req = same_plan pp req
validate_business cases cancel pp req = same_plan pp req

-- The writes to the hash go one after the other, with nothing between them.
abbrev concat : List String → String
concat [] = ""
concat (x ∷ xs) = append_text x (concat xs)

unfoldable pub hash_confirm_payload : (String → String) → HitlConfirmRequest → String
hash_confirm_payload sha256 req = sha256 (
    append_text req.run_id (
      append_text req.plan_id (
        append_text req.action (
          append_text (print_ℤ req.revision)
            (append_text (concat req.selected_participants) req.feedback)))))

-- What CheckIdempotency answers: an error code, a stored answer, or the records with the one of the key
-- in progress.
pub data Check : Type 0 where
  conflict : String → Check
  cached : String → ℕ → Check
  in_progress : List IdempotencyRecord → Check

abbrev check_existing :
    String → String → HitlConfirmRequest → List IdempotencyRecord → Option IdempotencyRecord → Check
check_existing key hash req records none = in_progress (
    records
    ++ record {
      key = key;
      action = req.action;
      request_hash = hash;
      status = "processing";
      status_code = 0;
      response_body = "";
    }
      ∷ [])
check_existing key hash req records (some existing) =
    if not (str_eq existing.request_hash hash)
    then conflict "IDEMPOTENCY_CONFLICT"
    else if str_eq existing.status "processing"
    then conflict "CONFIRMATION_IN_PROGRESS"
    else if str_eq existing.status "completed"
    then cached existing.response_body existing.status_code
    else in_progress (
        update_record key
          (λ (r : IdempotencyRecord). record r { status = "processing"; request_hash = hash })
          records)

-- The key is not blank here: ValidateBasicFields comes first.
unfoldable pub check_idempotency : (String → String) → HitlConfirmRequest → PendingPlan → Check
check_idempotency sha256 req pp =
    let key = trim_space req.idempotency_key in
    check_existing key (hash_confirm_payload sha256 req) req pp.idempotency_records
      (find_record key pp.idempotency_records)

-- What goes to the channel of the run.
pub record HitlConfirmResult : Type 0 where
  pub run_id : String
  pub action_id : String
  pub plan_id : String
  pub confirmed : Bool
  pub action : Action
  pub feedback : String
  pub revision : ℤ
  pub reject_reason : String
  pub idempotency_key : String
  pub selected_participants : List String

pub data Answer : Type 0 where
  error : String → ℕ → Answer
  stored : String → ℕ → Answer
  acknowledged : Answer

pub record Outcome : Type 0 where
  pub plan : PendingPlan
  pub sent : Option HitlConfirmResult
  pub answer : Answer

-- The channel of the run: there is none, it is full, or it takes a result.
pub data Channel : Type 0 where
  missing full open_channel : Channel

abbrev mark : String → String → ℕ → String → PendingPlan → PendingPlan
mark key status code body pp = record pp {
  idempotency_records =
      update_record key
        (λ (r : IdempotencyRecord). record r {
          status = status;
          status_code = code;
          response_body = body;
        })
        pp.idempotency_records;
}

abbrev pub mark_failed : String → PendingPlan → PendingPlan
mark_failed key pp = record pp {
  idempotency_records =
      update_record key (λ (r : IdempotencyRecord). record r { status = "failed" })
        pp.idempotency_records;
}

abbrev pub result_of : Action → HitlConfirmRequest → HitlConfirmResult
result_of action req = record {
  run_id = req.run_id;
  action_id = req.action_id;
  plan_id = req.plan_id;
  confirmed = is_approve action;
  action = action;
  feedback = trim_space req.feedback;
  revision = req.revision;
  reject_reason = req.reject_reason;
  idempotency_key = req.idempotency_key;
  selected_participants = req.selected_participants;
}

unfoldable pub send : Channel → Action → HitlConfirmRequest → PendingPlan → Outcome
send missing action req pp = record {
  plan = mark_failed (trim_space req.idempotency_key) pp;
  sent = none;
  answer = error "PLAN_NOT_FOUND" 404;
}
send full action req pp = record {
  plan = mark_failed (trim_space req.idempotency_key) pp;
  sent = none;
  answer = error "confirmation in progress, please wait" 409;
}
send open_channel action req pp = record {
  plan =
      mark (trim_space req.idempotency_key) "completed" 200 "{\"status\":\"acknowledged\"}"
        (confirm_plan action req.selected_participants pp);
  sent = some (result_of action req);
  answer = acknowledged;
}

abbrev pub refuse : PendingPlan → Failure → Outcome
refuse pp e = record { plan = pp; sent = none; answer = error e.error_code e.http_status }

abbrev pub checked : Option Failure → (Failure → Outcome) → Outcome → Outcome
checked none failing going_on = going_on
checked (some e) failing going_on = failing e

abbrev pub after_check : Check → PendingPlan → (PendingPlan → Outcome) → Outcome
after_check (conflict code) pp next = record { plan = pp; sent = none; answer = error code 409 }
after_check (cached body status) pp next = record {
  plan = pp;
  sent = none;
  answer = stored body status;
}
after_check (in_progress records) pp next = next (record pp { idempotency_records = records })

-- The work after the idempotency check, on the plan with the record of the key in progress.
unfoldable pub validate_and_send :
    Cases → Channel → Action → HitlConfirmRequest → PendingPlan → Outcome
unfolding validate_business send
validate_and_send cases channel action req pp =
    checked (validate_business cases action pp req)
      (refuse (mark_failed (trim_space req.idempotency_key) pp)) (send channel action req pp)

unfoldable pub handle_confirm :
    Cases → (String → String) → Channel → Action → HitlConfirmRequest → PendingPlan → Outcome
unfolding check_idempotency
handle_confirm cases sha256 channel action req pp =
    checked (validate_basic_fields req action) (refuse pp) (
      after_check (check_idempotency sha256 req pp) pp (validate_and_send cases channel action req))

abbrev pub with_action : PendingPlan → Resolved → (Action → Outcome) → Outcome
with_action pp (resolved action) next = next action
with_action pp (unresolved message) next =
    refuse pp (record { error_code = message; http_status = 400 })

-- The handler of requests for a run with a pending plan.
unfoldable pub confirm :
    Cases → (String → String) → Channel → HitlConfirmRequest → PendingPlan → Outcome
unfolding handle_confirm resolve_action
confirm cases sha256 channel req pp =
    with_action pp (resolve_action req)
      (λ action. handle_confirm cases sha256 channel action req pp)
