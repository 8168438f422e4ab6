-- ===== src/Registry/Resolver/Urls.antt =====
-- Whether services/orchestrator/registry/dispatch_resolver.go resolves a name.
use multi_agent_agent_hub.Prelude.{
  ◌≡◌, refl, sym, ap, ◌∙◌, subst, String, Bool, true, false, Option, none, some, List, [], str_eq,
  if◌then◌else◌,
}
use multi_agent_agent_hub.Prelude.Dict.{Dict, lookup}
use multi_agent_agent_hub.Prelude.Text.{trim_space}
use multi_agent_agent_hub.Registry.{AgentEndpoint}
use multi_agent_agent_hub.Registry.Static.{StaticAgentRegistry, get}
use multi_agent_agent_hub.Registry.Store.{RegisteredAgent, AgentStore, find_agent}
use multi_agent_agent_hub.Registry.Agents.{ok, required, store_failed, ◌>>=◌}
use multi_agent_agent_hub.Registry.Dynamic.{
  DynamicAgentRegistry, in_static, loaded, get_any, from_store,
}
use multi_agent_agent_hub.Registry.Resolver.{
  DispatchResolver, healthy_static, url_of, is_available, resolve_url, has_url, static_url,
}
use multi_agent_agent_hub.Registry.Resolver.Members.{holds}

-- The resolver of the orchestrator: both registries have the same static part.
abbrev pub wired :
    {S : AgentStore} → Option StaticAgentRegistry → Option S.State → DispatchResolver S
wired st store = record { static = st; dynamic = some (record { static = st; store = store }) }

abbrev pub agents_of : Option StaticAgentRegistry → Dict AgentEndpoint
agents_of none = []
agents_of (some s) = s.agents

-- Whether a task of this name has somewhere to go.
abbrev pub available :
    Option StaticAgentRegistry → List RegisteredAgent → String → Option AgentEndpoint → Bool
available st agents name (some ep) = healthy_static st name
available st agents name none = holds is_available (find_agent name agents)

-- Where a task of this name goes: to the static agent if there is one, which must be healthy, else to the
-- dynamic agent, which must be enabled and healthy.
abbrev pub url_at :
    Option StaticAgentRegistry
    → List RegisteredAgent
    → String
    → Option AgentEndpoint
    → Option String
url_at st agents name (some ep) = if healthy_static st name then some ep.url else none
url_at st agents name none = url_of (find_agent name agents)

healthy_url : (b : Bool) (url : String) → has_url (ok (if b then some url else none)) ≡ b
healthy_url true url = refl
healthy_url false url = refl

agent_url : (o : Option RegisteredAgent) → has_url (ok (url_of o)) ≡ holds is_available o
agent_url none = refl
agent_url (some a) = healthy_url (is_available a) a.base_url

module _ (st : Option StaticAgentRegistry) (n : String) (trimmed : trim_space n ≡ n)
    (named : str_eq n "" ≡ false) where
  in_static-lookup : in_static st n ≡ lookup n (agents_of st)
  unfolding get lookup
  in_static-lookup = elim st as (λ o. in_static o n ≡ lookup n (agents_of o)) [
    | none ↦ refl
    | some s ↦
        subst (λ k. (if str_eq k "" then none else lookup k s.agents) ≡ lookup n s.agents)
          (sym trimmed) (ap (λ b. if b then none else lookup n s.agents) named)
  ]

  -- A name that is trimmed already is taken as it is.
  as_it_is {ℓ} :
      {B : Type ℓ} (blank : B) (f : String → B)
      → (if str_eq (trim_space n) "" then blank else f (trim_space n)) ≡ f n
  as_it_is blank f =
      subst (λ k. (if str_eq k "" then blank else f k) ≡ f n) (sym trimmed)
        (ap (λ b. if b then blank else f n) named)

  module _ (S : AgentStore) (store : Option S.State) (agents : List RegisteredAgent)
      (reads : loaded S store ≡ some agents) where
    abbrev here : DynamicAgentRegistry S
    here = record { static = st; store = store }

    get_any-find_agent : in_static st n ≡ none → get_any here n ≡ ok (find_agent n agents)
    unfolding get_any
    get_any-find_agent absent =
        as_it_is (ok none) (λ k. from_store k (in_static st k) here)
        ∙ (ap (λ o. from_store n o here) absent
            ∙ ap (λ o. required store_failed o >>= λ l. ok (find_agent n l)) reads)

    found_url :
        (o : Option AgentEndpoint)
        → in_static st n ≡ o
        → static_url (wired {S = S} st store) n o ≡ ok (url_at st agents n o)
    found_url (some ep) found = refl
    found_url none absent = ap (λ m. m >>= λ a. ok (url_of a)) (get_any-find_agent absent)

    pub resolve_url-url_at :
        resolve_url (wired {S = S} st store) n ≡ ok (url_at st agents n (lookup n (agents_of st)))
    unfolding resolve_url
    resolve_url-url_at =
        let w = wired {S = S} st store in
        as_it_is (ok none) (λ k. static_url w k (in_static st k))
        ∙ (found_url (in_static st n) refl ∙ ap (λ o. ok (url_at st agents n o)) in_static-lookup)

    has_url-url_at :
        (o : Option AgentEndpoint) → has_url (ok (url_at st agents n o)) ≡ available st agents n o
    has_url-url_at (some ep) = healthy_url (healthy_static st n) ep.url
    has_url-url_at none = agent_url (find_agent n agents)

    pub resolve-available :
        has_url (resolve_url (wired {S = S} st store) n)
        ≡ available st agents n (lookup n (agents_of st))
    resolve-available = ap has_url resolve_url-url_at ∙ has_url-url_at (lookup n (agents_of st))
