-- ===== src/Dispatcher/Stream/Tests.antt =====
-- Streams with a consolidated event at the end, and with a repeated delta.
use multi_agent_agent_hub.Prelude.{String, Bool, true, Option, none, List, [], ◌∷◌, ◌≡◌, refl}
use multi_agent_agent_hub.Prelude.Text.{trim_space}
use multi_agent_agent_hub.Dispatcher.Response.{DecodedMeta}
use multi_agent_agent_hub.Dispatcher.Stream.{
  StreamChunk, DispatchChunk, text, strip_prefix, on_chunk, stream_from, start,
}
use multi_agent_agent_hub.Dispatcher.Stream.Forwarding.{
  IsInStep, stream_from-IsInStep, delta, repeated_delta_lost,
}

abbrev no_json : String → Option DecodedMeta
no_json s = none

abbrev takes_all : List DispatchChunk → Bool
takes_all cs = true

abbrev consolidated : List StreamChunk
consolidated = delta "Hel" ∷ delta "lo" ∷ delta "Hello" ∷ []

consolidated_once :
    (stream_from no_json takes_all "a" start consolidated).emitted ≡ text "lo" ∷ text "Hel" ∷ []
unfolding stream_from on_chunk strip_prefix trim_space
consolidated_once = refl

stream_from-IsInStep_example : IsInStep (stream_from no_json takes_all "a" start consolidated)
stream_from-IsInStep_example = stream_from-IsInStep no_json takes_all "a" consolidated start refl

repeated_delta_lost_example :
    stream_from no_json takes_all "a" start (delta "ha" ∷ delta "ha" ∷ [])
    ≡ record { emitted = text "ha" ∷ []; sent_text = "ha"; going = true }
unfolding trim_space
repeated_delta_lost_example = repeated_delta_lost no_json takes_all "a" "ha" refl refl refl
