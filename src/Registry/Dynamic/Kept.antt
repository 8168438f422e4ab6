-- ===== src/Registry/Dynamic/Kept.antt =====
-- What the methods of services/orchestrator/registry/dynamic_registry.go keep of an agent: its name, and
-- that it is dynamic.
use multi_agent_agent_hub.Prelude.{
  ℕ, ◌≡◌, refl, sym, ap, ◌∙◌, String, Bool, true, false, Option, none, some,
}
use multi_agent_agent_hub.Registry.Store.{AgentCard, AgentSource, RegisteredAgent}
use multi_agent_agent_hub.Registry.Agents.{
  ok, Upstream, UpdateAgentRequest, required, invalid, new_agent, patch_agent, refresh_agent,
  check_agent,
}
use multi_agent_agent_hub.Registry.Agents.{with_url, checked, card_of, fetched, fetch_failed}
use multi_agent_agent_hub.Registry.Dynamic.Effects.{bind-eq-ok, ok_injective}

with_url-keeps :
    (up : Upstream) (name : String) (url : Option String) (old a : RegisteredAgent)
    → with_url up name url old ≡ ok a
    → (a.name ≡ old.name) × (a.source ≡ old.source)
with_url-keeps up name none old a h =
    let same = ok_injective h in (sym (ap (λ x. x.name) same), sym (ap (λ x. x.source) same))
with_url-keeps up name (some url) old a h =
    let (n, h1, rest) = bind-eq-ok (required invalid (up.normalize_agent_url url)) _ h in
    let (c, h2, rest2) = bind-eq-ok (card_of name (up.fetch_agent_card n)) _ rest in
    let same = ok_injective rest2 in (sym (ap (λ x. x.name) same), sym (ap (λ x. x.source) same))

module _ (up : Upstream) (now : ℕ) (name : String) (old a : RegisteredAgent) where
  pub patch_agent-keeps :
      (patch : UpdateAgentRequest)
      → patch_agent up now name patch old ≡ ok a
      → (a.name ≡ old.name) × (a.source ≡ old.source)
  unfolding patch_agent
  patch_agent-keeps patch h =
      let (b, h1, rest) = bind-eq-ok (with_url up name patch.url old) _ h in
      let same = ok_injective rest in
      let keeps = with_url-keeps up name patch.url old b h1 in
      (sym (ap (λ x. x.name) same) ∙ keeps.0, sym (ap (λ x. x.source) same) ∙ keeps.1)

  pub refresh_agent-keeps :
      refresh_agent up now name old ≡ ok a → (a.name ≡ old.name) × (a.source ≡ old.source)
  unfolding refresh_agent
  refresh_agent-keeps h =
      let (c, h1, rest) = bind-eq-ok (card_of name (up.fetch_agent_card old.base_url)) _ h in
      let same = ok_injective rest in (sym (ap (λ x. x.name) same), sym (ap (λ x. x.source) same))

pub check_agent-keeps :
    (up : Upstream) (now : ℕ) (name : String) (old : RegisteredAgent)
    → ((check_agent up now name old).name ≡ old.name)
      × ((check_agent up now name old).source ≡ old.source)
unfolding check_agent
check_agent-keeps up now name old =
    elim (up.fetch_agent_card old.base_url)
      as (λ f.
        ((checked up now name f old).name ≡ old.name)
        × ((checked up now name f old).source ≡ old.source)) [
          | fetched card ↦ (refl, refl)
          | fetch_failed e ↦ (refl, refl)
        ]

pub new_agent-keeps :
    (now : ℕ) (name url : String) (card : AgentCard) (replace : Bool) (o : Option RegisteredAgent)
    (a : RegisteredAgent)
    → ((e : RegisteredAgent) → o ≡ some e → e.name ≡ name)
    → new_agent now name url card replace o ≡ ok a
    → (a.name ≡ name) × (a.source ≡ AgentSource.dynamic)
unfolding new_agent
new_agent-keeps now name url card replace none a named h =
    let same = ok_injective h in (sym (ap (λ x. x.name) same), sym (ap (λ x. x.source) same))
new_agent-keeps now name url card true (some e) a named h =
    let same = ok_injective h in
    (sym (ap (λ x. x.name) same) ∙ named e refl, sym (ap (λ x. x.source) same))
new_agent-keeps now name url card false (some e) a named h = absurd (cc)
