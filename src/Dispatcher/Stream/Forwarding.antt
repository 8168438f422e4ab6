-- ===== src/Dispatcher/Stream/Forwarding.antt =====
-- What DispatchStream forwards of the text that it receives.
use Prim.Native.String.{◌++◌ as text_append}
use Prim.Native.Char.{code}
use Prim.Native.String.append
use package.text.Mathlib.TextLemmas.{append-nil}
use multi_agent_agent_hub.Prelude.{
  String, Bool, true, false, Option, none, some, List, [], ◌∷◌, str_eq, ◌≡◌, refl, arith, if-both,
  ==_refl, ap, sym, ◌∙◌,
}
use multi_agent_agent_hub.Prelude.Text.{trim_space}
use multi_agent_agent_hub.Dispatcher.Response.{
  Part, DecodedMeta, ArtifactMeta, extract_artifact_from_part,
}
use multi_agent_agent_hub.Dispatcher.Retry.{CallError}
use multi_agent_agent_hub.Dispatcher.Stream.{
  StreamChunk, DispatchChunk, task, text, artifact, failure, Progress, strip_prefix, on_chunk,
  stream_from, start, on_parts, on_text, on_event, on_task, artifact_of_part, text_of_part,
  on_chunk_err,
}

-- All the text that the consumer was given, in order.
abbrev pub text_given : List DispatchChunk → String
text_given [] = ""
text_given (text s ∷ rest) = text_append (text_given rest) s
text_given (task s ∷ rest) = text_given rest
text_given (artifact a ∷ rest) = text_given rest
text_given (failure e ∷ rest) = text_given rest

abbrev pub IsInStep : Progress → Type 0
IsInStep p = text_given p.emitted ≡ p.sent_text

module _ (unmarshal : String → Option DecodedMeta) (accepts : List DispatchChunk → Bool)
    (agent : String) where
  artifact_of_part-IsInStep :
      (a : Option ArtifactMeta) (p : Progress)
      → IsInStep p
      → IsInStep (artifact_of_part unmarshal accepts agent a p)
  unfolding artifact_of_part
  artifact_of_part-IsInStep none p h = h
  artifact_of_part-IsInStep (some a) p h = h

  on_parts-IsInStep :
      (parts : List Part) (sb : String) (p : Progress)
      → IsInStep p
      → IsInStep (on_parts unmarshal accepts agent parts sb p).1
  unfolding on_parts
  on_parts-IsInStep [] sb p h = h
  on_parts-IsInStep (part ∷ parts) sb p h =
      let a = extract_artifact_from_part unmarshal part agent in
      let p' = artifact_of_part unmarshal accepts agent a p in
      let sb' = text_of_part unmarshal accepts agent part sb in
      let h' = artifact_of_part-IsInStep a p h in
      if-both (λ (r : String × Progress). IsInStep r.1) p'.going
        (on_parts unmarshal accepts agent parts sb' p') (sb', p')
        (on_parts-IsInStep parts sb' p' h') h'

  on_text-IsInStep :
      (chunk : String) (p : Progress)
      → IsInStep p
      → IsInStep (on_text unmarshal accepts agent chunk p)
  unfolding on_text
  on_text-IsInStep chunk p h = ground arith

  on_task-IsInStep :
      (id : String) (p : Progress) → IsInStep p → IsInStep (on_task unmarshal accepts agent id p)
  unfolding on_task
  on_task-IsInStep id p h = ground arith

  on_event-IsInStep :
      (parts : List Part) (p : Progress)
      → IsInStep p
      → IsInStep (on_event unmarshal accepts agent parts p)
  unfolding on_event
  on_event-IsInStep parts p h =
      let r = on_parts unmarshal accepts agent parts "" p in
      if-both IsInStep p.going (on_text unmarshal accepts agent r.0 r.1) p
        (on_text-IsInStep r.0 r.1 (on_parts-IsInStep parts "" p h)) h

  on_chunk-IsInStep :
      (c : StreamChunk) (p : Progress)
      → IsInStep p
      → IsInStep (on_chunk_err unmarshal accepts agent c.err c p)
  on_chunk-IsInStep c p h = go c.err
    where
      go : (e : Option CallError) → IsInStep (on_chunk_err unmarshal accepts agent e c p)
      go (some e) = h
      go none = on_event-IsInStep c.parts _ (on_task-IsInStep (trim_space c.task_id) p h)

  -- Of any stream, whatever the consumer accepts and wherever it stops, the texts that it was given
  -- are together the text that the dispatcher took for sent, if they were so at the start.
  pub stream_from-IsInStep :
      (cs : List StreamChunk) (p : Progress)
      → IsInStep p
      → IsInStep (stream_from unmarshal accepts agent p cs)
  unfolding stream_from
  stream_from-IsInStep [] p h = h
  stream_from-IsInStep (c ∷ cs) p h =
      let next = on_chunk unmarshal accepts agent c p in
      if-both IsInStep p.going (stream_from unmarshal accepts agent next cs) p
        (stream_from-IsInStep cs next (unfold on_chunk in on_chunk-IsInStep c p h)) h

strip_prefix-append : (p s : String) → strip_prefix p (text_append p s) ≡ some s
unfolding strip_prefix
strip_prefix-append String.[] s = rw (append.nil)
strip_prefix-append (String.◌∷◌ c p) s =
    rw append.cons (rw (==_refl (code c)) (strip_prefix-append p s))

-- A stream event with one text part.
abbrev pub delta : String → StreamChunk
delta s = record {
  task_id = "";
  parts = record { kind = "text"; text = s; name = ""; content = "" } ∷ [];
  err = none;
}

module _ (unmarshal : String → Option DecodedMeta) (accepts : List DispatchChunk → Bool)
    (agent : String) where
  -- The first text of a stream, if it is not blank, is forwarded as it came.
  first_delta :
      (x : String)
      → str_eq x "" ≡ false
      → str_eq (trim_space x) "" ≡ false
      → on_chunk unmarshal accepts agent (delta x) start ≡ record {
        emitted = text x ∷ [];
        sent_text = text_append "" x;
        going = accepts (text x ∷ []);
      }
  unfolding on_chunk trim_space extract_artifact_from_part
  first_delta x e b = rw (b, e) refl

  second_delta :
      (x : String)
      → str_eq x "" ≡ false
      → str_eq (trim_space x) "" ≡ false
      → let p : Progress = record { emitted = text x ∷ []; sent_text = x; going = true } in
        on_chunk unmarshal accepts agent (delta x) p ≡ p
  unfolding on_chunk trim_space extract_artifact_from_part
  second_delta x e b =
      let same : strip_prefix x x ≡ some "" =
        ap (strip_prefix x) (sym (append-nil x)) ∙ strip_prefix-append x "" in
      rw (b, e, same) refl

  -- Where an agent streams the same non-blank text twice at the start, the consumer gets it once: the
  -- second delta is taken for a consolidated repetition of the first.
  pub repeated_delta_lost :
      (x : String)
      → str_eq x "" ≡ false
      → str_eq (trim_space x) "" ≡ false
      → accepts (text x ∷ []) ≡ true
      → stream_from unmarshal accepts agent start (delta x ∷ delta x ∷ [])
        ≡ record { emitted = text x ∷ []; sent_text = x; going = true }
  unfolding stream_from
  repeated_delta_lost x e b g = rw (first_delta x e b) (rw (g, append.nil) (second_delta x e b))
