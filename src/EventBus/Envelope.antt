-- ===== src/EventBus/Envelope.antt =====
-- The envelope, the classes of errors and the dead-letter entry of pkg/runtime/eventbus/eventbus.go.
-- The payload and the fields that no transport reads are left out, and so is the text of time stamps.
use multi_agent_agent_hub.Prelude.{String, Option, none, some, if◌then◌else◌, str_eq}
use multi_agent_agent_hub.Prelude.Int.{ℤ, pos, ltb_ℤ}

pub record Envelope : Type 0 where
  pub event_id : String
  pub kind : String
  pub run_id : String
  pub seq : ℤ
  pub occurred_at : String

pub data ErrorClass : Type 0 where
  decode unknown_schema_version type_not_allowed size_exceeded security_redaction_required
        handler_error store_error idempotency_conflict timeout unknown :
      ErrorClass

-- An error by what errors.As and errors.Is find in its chain.
pub data Cause : Type 0 where
  envelope : ErrorClass → Cause
  handler_panicked deadline_exceeded closed_bus canceled plain : Cause

-- `none` is the nil error.
unfoldable pub error_class_for_delivery : Option Cause → ErrorClass
error_class_for_delivery none = handler_error
error_class_for_delivery (some (envelope class)) = class
error_class_for_delivery (some handler_panicked) = unknown
error_class_for_delivery (some deadline_exceeded) = timeout
error_class_for_delivery (some closed_bus) = store_error
error_class_for_delivery (some canceled) = timeout
error_class_for_delivery (some plain) = handler_error

abbrev pub default_max_attempts : ℤ
default_max_attempts = pos 5

abbrev pub max_attempts_cap : ℤ
max_attempts_cap = pos 32

pub record DlqEntry : Type 0 where
  pub event_id : String
  pub consumer_key : String
  pub run_id : String
  pub seq : ℤ
  pub kind : String
  pub attempts : ℤ
  pub error_class : ErrorClass
  pub first_seen : String
  pub last_seen : String

abbrev clamp_attempts : ℤ → ℤ
clamp_attempts attempts =
    if ltb_ℤ attempts (pos 1)
    then pos 1
    else if ltb_ℤ max_attempts_cap attempts
    then max_attempts_cap
    else attempts

-- `stamp` is the formatted time. A class is one of the closed enumeration by its type. The memory
-- transport has no stream key and no transport id, so the entry carries neither.
unfoldable pub new_dlq_entry : Envelope → String → ℤ → ErrorClass → String → DlqEntry
new_dlq_entry env consumer_key attempts class stamp = record {
  event_id = env.event_id;
  consumer_key = consumer_key;
  run_id = env.run_id;
  seq = env.seq;
  kind = env.kind;
  attempts = clamp_attempts attempts;
  error_class = class;
  first_seen = if str_eq env.occurred_at "" then stamp else env.occurred_at;
  last_seen = stamp;
}
