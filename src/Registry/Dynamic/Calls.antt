-- ===== src/Registry/Dynamic/Calls.antt =====
-- The calls of services/orchestrator/registry/dynamic_registry.go and what each changes.
use multi_agent_agent_hub.Prelude.{
  ℕ, ◌≡◌, refl, ap, ◌∙◌, subst, String, Bool, not, Option, none, some, str_eq,
}
use multi_agent_agent_hub.Prelude.Text.{trim_space}
use multi_agent_agent_hub.Registry.Store.{RegisteredAgent, AgentStore, find_agent, IsLawful}
use multi_agent_agent_hub.Registry.Agents.{
  Result, ok, err, Upstream, RegisterAgentRequest, UpdateAgentRequest, required, check_that,
  invalid, conflict, store_unavailable, store_failed, any_card, new_agent, patch_agent,
  refresh_agent, check_agent,
}
use multi_agent_agent_hub.Registry.Dynamic
use multi_agent_agent_hub.Registry.Dynamic.{
  DynamicAgentRegistry, dynamics, in_static, is_none, existing, save,
}
use multi_agent_agent_hub.Registry.Dynamic.Effects.{
  Effect, bind-eq-ok, required-eq-ok, check_that-eq-ok, not-eq-true, is_none-eq, find_agent-name,
  ok_injective, existing-Existing, save-Effect, replace-Effect,
}
use multi_agent_agent_hub.Registry.Dynamic.Kept.{
  patch_agent-keeps, refresh_agent-keeps, check_agent-keeps, new_agent-keeps,
}

pub data Call : Type 0 where
  register : RegisterAgentRequest → Call
  update : String → UpdateAgentRequest → Call
  enable : String → Bool → Call
  refresh check unregister : String → Call

-- The agent that a call answers, if any, and the registry after it.
abbrev pub Answer : AgentStore → Type 0
Answer S = Result (Option RegisteredAgent × DynamicAgentRegistry S)

abbrev answer : {S : AgentStore} → Result (RegisteredAgent × DynamicAgentRegistry S) → Answer S
answer (ok (a, r)) = ok (some a, r)
answer (err e) = err e

abbrev no_agent : {S : AgentStore} → Result (DynamicAgentRegistry S) → Answer S
no_agent (ok r) = ok (none, r)
no_agent (err e) = err e

unfoldable pub run : {S : AgentStore} → Upstream → ℕ → ℕ → Call → DynamicAgentRegistry S → Answer S
run up now later (register req) r = answer (Dynamic.register up now later req r)
run up now later (update name patch) r = answer (Dynamic.update up now later name patch r)
run up now later (enable name on) r = answer (Dynamic.enable up now later name on r)
run up now later (refresh name) r = answer (Dynamic.refresh up now later name r)
run up now later (check name) r = answer (Dynamic.check up now later name r)
run up now later (unregister name) r = no_agent (Dynamic.unregister name r)

abbrev name_of : Option RegisteredAgent → String
name_of none = ""
name_of (some a) = a.name

-- The name that a call is about, with the agent that it answers.
abbrev pub target : Call → Option RegisteredAgent → String
target (register req) o = name_of o
target (update name patch) o = trim_space name
target (enable name on) o = trim_space name
target (refresh name) o = trim_space name
target (check name) o = trim_space name
target (unregister name) o = trim_space name

module _ {S : AgentStore} (L : IsLawful S) (up : Upstream) (now later : ℕ)
    (r t : DynamicAgentRegistry S) (b : RegisteredAgent) where
  update-Effect :
      (name : String) (patch : UpdateAgentRequest)
      → Dynamic.update up now later name patch r ≡ ok (b, t)
      → Effect later (trim_space name) (some b) r t
  unfolding Dynamic.update
  update-Effect name patch h =
      let (x, h1, rest) = bind-eq-ok (existing r (trim_space name)) _ h in
      let (a, h2, rest2) = bind-eq-ok (patch_agent up now (trim_space name) patch x.0) _ rest in
      let keeps = patch_agent-keeps up now (trim_space name) x.0 a patch h2 in
      replace-Effect L later r t (trim_space name) x a b (existing-Existing r _ x h1) keeps.0
        keeps.1 rest2

  enable-Effect :
      (name : String) (on : Bool)
      → Dynamic.enable up now later name on r ≡ ok (b, t)
      → Effect later (trim_space name) (some b) r t
  unfolding Dynamic.enable
  enable-Effect name on h =
      let (x, h1, rest) = bind-eq-ok (existing r (trim_space name)) _ h in
      replace-Effect L later r t (trim_space name) x (record x.0 { enabled = on; updated_at = now })
        b (existing-Existing r _ x h1) refl refl rest

  refresh-Effect :
      (name : String)
      → Dynamic.refresh up now later name r ≡ ok (b, t)
      → Effect later (trim_space name) (some b) r t
  unfolding Dynamic.refresh
  refresh-Effect name h =
      let (x, h1, rest) = bind-eq-ok (existing r (trim_space name)) _ h in
      let (a, h2, rest2) = bind-eq-ok (refresh_agent up now (trim_space name) x.0) _ rest in
      let keeps = refresh_agent-keeps up now (trim_space name) x.0 a h2 in
      replace-Effect L later r t (trim_space name) x a b (existing-Existing r _ x h1) keeps.0
        keeps.1 rest2

  check-Effect :
      (name : String)
      → Dynamic.check up now later name r ≡ ok (b, t)
      → Effect later (trim_space name) (some b) r t
  unfolding Dynamic.check
  check-Effect name h =
      let (x, h1, rest) = bind-eq-ok (existing r (trim_space name)) _ h in
      let keeps = check_agent-keeps up now (trim_space name) x.0 in
      replace-Effect L later r t (trim_space name) x (check_agent up now (trim_space name) x.0) b
        (existing-Existing r _ x h1) keeps.0 keeps.1 rest

  register-Effect :
      (req : RegisterAgentRequest)
      → Dynamic.register up now later req r ≡ ok (b, t)
      → Effect later b.name (some b) r t
  unfolding Dynamic.register
  register-Effect req h =
      let (s, h1, rest1) = bind-eq-ok (required store_unavailable r.store) _ h in
      let (u, h2, rest2) =
        bind-eq-ok (check_that (not (str_eq (trim_space req.url) "")) invalid) _ rest1 in
      let (url, h3, rest3) =
        bind-eq-ok (required invalid (up.normalize_agent_url req.url)) _ rest2 in
      let (card, h4, rest4) = bind-eq-ok (any_card (up.fetch_agent_card url)) _ rest3 in
      let name = trim_space card.name in
      let (w, h5, rest5) = bind-eq-ok (check_that (not (str_eq name "")) invalid) _ rest4 in
      let (z, h6, rest6) =
        bind-eq-ok (check_that (is_none (in_static r.static name)) conflict) _ rest5 in
      let (l, h7, rest7) = bind-eq-ok (required store_failed (S.load s)) _ rest6 in
      let (a, h8, rest8) =
        bind-eq-ok (new_agent now name url card req.replace (find_agent name l)) _ rest7 in
      let keeps = new_agent-keeps now name url card req.replace _ a (find_agent-name name l) h8 in
      save-Effect L later r t s a b l
        (ap (λ n. str_eq n "") keeps.0 ∙ not-eq-true _ (check_that-eq-ok _ invalid h5))
        (ap (in_static r.static) keeps.0 ∙ is_none-eq _ (check_that-eq-ok _ conflict h6))
        (required-eq-ok store_unavailable r.store h1) (required-eq-ok store_failed (S.load s) h7)
        keeps.1 rest8

answer-eq-ok :
    {S : AgentStore} (m : Result (RegisteredAgent × DynamicAgentRegistry S))
    (o : Option RegisteredAgent) (t : DynamicAgentRegistry S)
    → answer m ≡ ok (o, t)
    → (b : RegisteredAgent) × (m ≡ ok (b, t)) × (some b ≡ o)
answer-eq-ok (ok (b, t')) o t h =
    let same = ok_injective h in (b, ap (λ x. ok (b, x.1)) same, ap (λ x. x.0) same)
answer-eq-ok (err e) o t h = absurd (cc)

no_agent-eq-ok :
    {S : AgentStore} (m : Result (DynamicAgentRegistry S)) (o : Option RegisteredAgent)
    (t : DynamicAgentRegistry S)
    → no_agent m ≡ ok (o, t)
    → (m ≡ ok t) × (none ≡ o)
no_agent-eq-ok (ok t') o t h =
    let same = ok_injective h in (ap (λ x. ok x.1) same, ap (λ x. x.0) same)
no_agent-eq-ok (err e) o t h = absurd (cc)

module _ {S : AgentStore} (L : IsLawful S) (up : Upstream) (now later : ℕ)
    (r t : DynamicAgentRegistry S) where
  unregister-Effect :
      (name : String) → Dynamic.unregister name r ≡ ok t → Effect later (trim_space name) none r t
  unfolding Dynamic.unregister
  unregister-Effect name h =
      let key = trim_space name in
      let (x, h1, rest) = bind-eq-ok (existing r key) _ h in
      let (s, h2, rest2) = bind-eq-ok (required store_failed (S.delete key x.1)) _ rest in
      let e = existing-Existing r key x h1 in
      let removed = required-eq-ok store_failed (S.delete key x.1) h2 in
      let (after, read, found) = L.load-delete key x.1 s e.agents e.loaded removed in
      let known : Effect later key none r (record r { store = some s }) = record {
        named = e.named;
        not_static = e.not_static;
        same_static = refl;
        before = e.agents;
        after = after;
        created = 0;
        loaded_before = ap (Dynamic.loaded S) e.opened ∙ e.loaded;
        loaded_after = read;
        found = found;
      } in
      subst (Effect later key none r) (ok_injective rest2) known

  -- For any lawful store: a call that succeeds changes one name, which is not blank and which no
  -- static agent has: the trimmed name that it is given or, for Register, that of the agent it answers.
  -- The name then stands for the agent of the answer, its time of creation aside, or for none after
  -- Unregister; the agents of all other names and the static registry are as before.
  pub run-Effect :
      (c : Call) (o : Option RegisteredAgent)
      → run up now later c r ≡ ok (o, t)
      → Effect later (target c o) o r t
  unfolding run
  run-Effect (register req) o h =
      let (b, e, same) = answer-eq-ok (Dynamic.register up now later req r) o t h in
      subst (λ x. Effect later (target (register req) x) x r t) same
        (register-Effect L up now later r t b req e)
  run-Effect (update name patch) o h =
      let (b, e, same) = answer-eq-ok (Dynamic.update up now later name patch r) o t h in
      subst (λ x. Effect later (trim_space name) x r t) same
        (update-Effect L up now later r t b name patch e)
  run-Effect (enable name on) o h =
      let (b, e, same) = answer-eq-ok (Dynamic.enable up now later name on r) o t h in
      subst (λ x. Effect later (trim_space name) x r t) same
        (enable-Effect L up now later r t b name on e)
  run-Effect (refresh name) o h =
      let (b, e, same) = answer-eq-ok (Dynamic.refresh up now later name r) o t h in
      subst (λ x. Effect later (trim_space name) x r t) same
        (refresh-Effect L up now later r t b name e)
  run-Effect (check name) o h =
      let (b, e, same) = answer-eq-ok (Dynamic.check up now later name r) o t h in
      subst (λ x. Effect later (trim_space name) x r t) same
        (check-Effect L up now later r t b name e)
  run-Effect (unregister name) o h =
      let (e, same) = no_agent-eq-ok (Dynamic.unregister name r) o t h in
      subst (λ x. Effect later (trim_space name) x r t) same (unregister-Effect name e)
