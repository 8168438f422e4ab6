-- ===== src/Confirm/Tests.antt =====
-- A plan of two participants and the requests about it.
use multi_agent_agent_hub.Prelude.{none, ◌≡◌, refl, String, Bool, true, false, List, [], ◌∷◌}
use multi_agent_agent_hub.Prelude.Int.{pos}
use multi_agent_agent_hub.Prelude.Text.{trim_space, ascii_cases, print_ℤ, map_text}
use multi_agent_agent_hub.Validator.{PlanParticipant}
use multi_agent_agent_hub.Confirm.{
  confirm, resolve_action, Plan, PendingPlan, HitlConfirmRequest, Channel, open_channel, full,
  Answer, error, stored, acknowledged, new_pending_plan, handle_confirm, validate_and_send,
  validate_basic_fields, validate_business, validate_business_approve, same_plan, selected_of,
  is_participant_valid, is_in_boundary, path_checks, check_idempotency, find_record, update_record,
  hash_confirm_payload, send, confirm_plan,
}
use multi_agent_agent_hub.Confirm.Sent.{
  Confirmation, SentOnce, outcome, all_sent, all_sent-SentOnce,
}

abbrev participant : String → Bool → PlanParticipant
participant name required = record {
  agent_name = name;
  role = "";
  required = required;
  selected = true;
  reason = "";
}

abbrev plan : Plan
plan = record {
  run_id = "r";
  plan_id = "p";
  revision = pos 0;
  execution_path = "group_chat";
  participants = participant "code" true ∷ participant "review" false ∷ [];
  default_selected_participants = [];
  confirmed_participant_names = [];
}

unfoldable pending : PendingPlan
unfolding new_pending_plan
pending = new_pending_plan plan ("code" ∷ "review" ∷ [])

abbrev request : String → List String → String → HitlConfirmRequest
request action selected key = record {
  run_id = "r";
  action_id = "a";
  plan_id = "p";
  confirmed = none;
  action = action;
  revision = pos 1;
  feedback = "more tests";
  reject_reason = "";
  selected_participants = selected;
  idempotency_key = key;
}

abbrev confirmation : Channel → HitlConfirmRequest → Confirmation
confirmation channel request = record { channel = channel; request = request }

-- A stranger, a full channel, the retry with its key, the same again, and a late change.
abbrev confirmations : List Confirmation
confirmations =
    confirmation open_channel (request "approve" ("stranger" ∷ []) "k1")
    ∷ confirmation full (request "approve" ("code" ∷ []) "k2")
    ∷ confirmation open_channel (request "approve" ("code" ∷ []) "k2")
    ∷ confirmation open_channel (request "approve" ("code" ∷ []) "k2")
    ∷ confirmation open_channel (request "revise" [] "k3")
    ∷ []

-- The answers in turn, with a hash that is the text itself.
unfoldable answers : List Confirmation → PendingPlan → List Answer
unfolding outcome confirm resolve_action handle_confirm validate_and_send validate_basic_fields
    validate_business validate_business_approve same_plan selected_of is_participant_valid
    is_in_boundary path_checks check_idempotency find_record update_record hash_confirm_payload send
    confirm_plan trim_space print_ℤ map_text
answers [] pp = []
answers (c ∷ cs) pp = let o = outcome ascii_cases (λ s. s) c pp in o.answer ∷ answers cs o.plan

abbrev acknowledged_text : String
acknowledged_text = "{\"status\":\"acknowledged\"}"

answers_in_turn :
    answers confirmations pending
    ≡ error "AGENT_BOUNDARY_VIOLATION" 409
      ∷ error "confirmation in progress, please wait" 409
      ∷ acknowledged
      ∷ stored acknowledged_text 200
      ∷ error "INVALID_RUN_STATE" 409
      ∷ []
unfolding answers pending map_text
answers_in_turn = refl

-- Other participants under the same key: the texts run together to the same hash, so the answer to the
-- first request is given for the second.
other_participants :
    answers
      (confirmation open_channel (request "revise" ("co" ∷ "de" ∷ []) "k")
        ∷ confirmation open_channel (request "revise" ("code" ∷ []) "k")
        ∷ [])
      pending
    ≡ acknowledged ∷ stored acknowledged_text 200 ∷ []
unfolding answers pending
other_participants = refl

all_sent-SentOnce_example : SentOnce pending (all_sent ascii_cases (λ s. s) confirmations pending)
all_sent-SentOnce_example = all_sent-SentOnce ascii_cases (λ s. s) confirmations pending
