-- ===== src/Registry/Dynamic/Effects.antt =====
-- What a call of services/orchestrator/registry/dynamic_registry.go changes.
use multi_agent_agent_hub.Prelude.{
  ℕ, ◌≡◌, refl, sym, ap, ◌∙◌, subst, String, Bool, true, false, not, Option, none, some, List, [],
  ◌∷◌, str_eq, eq_iff, if◌then◌else◌, arith,
}
use multi_agent_agent_hub.Registry.{AgentEndpoint}
use multi_agent_agent_hub.Registry.Store.{
  AgentSource, RegisteredAgent, AgentStore, find_agent, IsLawful,
}
use multi_agent_agent_hub.Registry.Agents.{
  Result, ok, err, RegistryError, required, check_that, ◌>>=◌, invalid, not_found, static_agent,
  store_unavailable, store_failed,
}
use multi_agent_agent_hub.Registry.Dynamic
use multi_agent_agent_hub.Registry.Dynamic.{
  DynamicAgentRegistry, dynamics, in_static, is_none, existing, save,
}

-- The agent as it is stored at a time.
abbrev pub stored : ℕ → ℕ → Option RegisteredAgent → Option RegisteredAgent
stored created later none = none
stored created later (some a) = some (record a { created_at = created; updated_at = later })

-- The name, which no static agent has, now stands for the agent of the answer, or for none; the
-- agents of all other names are found as before.
pub record Effect {S : AgentStore} (later : ℕ) (name : String) (a : Option RegisteredAgent)
    (r t : DynamicAgentRegistry S) : Type 0 where
  pub named : str_eq name "" ≡ false
  pub not_static : in_static r.static name ≡ none
  pub same_static : t.static ≡ r.static
  pub before : List RegisteredAgent
  pub after : List RegisteredAgent
  pub created : ℕ
  pub loaded_before : dynamics r ≡ some before
  pub loaded_after : dynamics t ≡ some after
  pub found :
      (other : String)
      → find_agent other after
        ≡ (if str_eq name other then stored created later a else find_agent other before)

pub bind-eq-ok {ℓ κ} :
    {A : Type ℓ} {B : Type κ} (m : Result A) (next : A → Result B) {b : B}
    → (m >>= next) ≡ ok b
    → (a : A) × (m ≡ ok a) × (next a ≡ ok b)
bind-eq-ok (ok a) next h = (a, refl, h)
bind-eq-ok (err e) next h = cc

pub required-eq-ok {ℓ} :
    {A : Type ℓ} (e : RegistryError) (o : Option A) {a : A} → required e o ≡ ok a → o ≡ some a
required-eq-ok e none h = cc
required-eq-ok e (some x) h = cc

pub check_that-eq-ok :
    (b : Bool) (e : RegistryError) {u : Unit {0}} → check_that b e ≡ ok u → b ≡ true
check_that-eq-ok true e h = refl
check_that-eq-ok false e h = cc

pub not-eq-true : (b : Bool) → not b ≡ true → b ≡ false
not-eq-true true h = absurd (cc)
not-eq-true false h = refl

pub is_none-eq : (o : Option AgentEndpoint) → is_none o ≡ true → o ≡ none
is_none-eq none h = refl
is_none-eq (some ep) h = absurd (cc)

pub find_agent-name :
    (name : String) (agents : List RegisteredAgent) (a : RegisteredAgent)
    → find_agent name agents ≡ some a
    → a.name ≡ name
unfolding find_agent
find_agent-name name [] a h = absurd (cc)
find_agent-name name (b ∷ agents) a h =
    ground (arith, h, eq_iff b.name name, find_agent-name name agents a)

pub ok_injective {ℓ} : {A : Type ℓ} {x y : A} → ok x ≡ ok y → x ≡ y
ok_injective h = cc

some_injective {ℓ} : {A : Type ℓ} {x y : A} → some x ≡ some y → x ≡ y
some_injective h = cc

-- What `existing` has found.
pub record Existing {S : AgentStore} (r : DynamicAgentRegistry S) (name : String)
    (x : RegisteredAgent × S.State) : Type 0 where
  pub named : str_eq name "" ≡ false
  pub opened : r.store ≡ some x.1
  pub not_static : in_static r.static name ≡ none
  pub agents : List RegisteredAgent
  pub loaded : S.load x.1 ≡ some agents
  pub found : find_agent name agents ≡ some x.0

module _ {S : AgentStore} where
  pub existing-Existing :
      (r : DynamicAgentRegistry S) (name : String) (x : RegisteredAgent × S.State)
      → existing r name ≡ ok x
      → Existing r name x
  unfolding existing
  existing-Existing r name x h =
      let (u, h1, rest1) = bind-eq-ok (check_that (not (str_eq name "")) invalid) _ h in
      let (s, h2, rest2) = bind-eq-ok (required store_unavailable r.store) _ rest1 in
      let (w, h3, rest3) =
        bind-eq-ok (check_that (is_none (in_static r.static name)) static_agent) _ rest2 in
      let (l, h4, rest4) = bind-eq-ok (required store_failed (S.load s)) _ rest3 in
      let (a, h5, rest5) = bind-eq-ok (required not_found (find_agent name l)) _ rest4 in
      let known : Existing r name (a, s) = record {
        named = (not-eq-true (str_eq name "")) (check_that-eq-ok _ invalid h1);
        opened = required-eq-ok store_unavailable r.store h2;
        not_static = is_none-eq _ (check_that-eq-ok _ static_agent h3);
        agents = l;
        loaded = required-eq-ok store_failed (S.load s) h4;
        found = required-eq-ok not_found (find_agent name l) h5;
      } in
      subst (Existing r name) (ok_injective rest5) known

module _ {S : AgentStore} (L : IsLawful S) where
  pub save-Effect :
      (later : ℕ) (r t : DynamicAgentRegistry S) (s : S.State) (a b : RegisteredAgent)
      (before : List RegisteredAgent)
      → str_eq a.name "" ≡ false
      → in_static r.static a.name ≡ none
      → r.store ≡ some s
      → S.load s ≡ some before
      → a.source ≡ AgentSource.dynamic
      → save later a s r ≡ ok (b, t)
      → Effect later b.name (some b) r t
  unfolding save
  save-Effect later r t s a b before named not_static opened loaded dyn h =
      let (s', h1, rest) = bind-eq-ok (required store_failed (S.upsert later a s)) _ h in
      let written = required-eq-ok store_failed (S.upsert later a s) h1 in
      let (after, created, read, found) = L.load-upsert later a s s' before dyn loaded written in
      let known : Effect later a.name (some a) r (record r { store = some s' }) = record {
        named = named;
        not_static = not_static;
        same_static = refl;
        before = before;
        after = after;
        created = created;
        loaded_before = ap (Dynamic.loaded S) opened ∙ loaded;
        loaded_after = read;
        found = found;
      } in
      subst (λ x. Effect later x.0.name (some x.0) r x.1) (ok_injective rest) known

  saved_name :
      (later : ℕ) (r t : DynamicAgentRegistry S) (s : S.State) (a b : RegisteredAgent)
      → save later a s r ≡ ok (b, t)
      → a.name ≡ b.name
  unfolding save
  saved_name later r t s a b h =
      let (s', h1, rest) = bind-eq-ok (required store_failed (S.upsert later a s)) _ h in
      ap (λ x. x.0.name) (ok_injective rest)

  -- The agent that takes the place of one that exists keeps its name and its source.
  pub replace-Effect :
      (later : ℕ) (r t : DynamicAgentRegistry S) (name : String) (x : RegisteredAgent × S.State)
      (a b : RegisteredAgent)
      → Existing r name x
      → a.name ≡ x.0.name
      → a.source ≡ x.0.source
      → save later a x.1 r ≡ ok (b, t)
      → Effect later name (some b) r t
  replace-Effect later r t name x a b e same_name same_source h =
      let is_name = same_name ∙ find_agent-name name e.agents x.0 e.found in
      let known =
        save-Effect later r t x.1 a b e.agents (ap (λ n. str_eq n "") is_name ∙ e.named)
          (ap (in_static r.static) is_name ∙ e.not_static) e.opened e.loaded
          (same_source ∙ L.load-IsDynamic x.1 e.agents name x.0 e.loaded e.found) h in
      subst (λ n. Effect later n (some b) r t) (sym (saved_name later r t x.1 a b h) ∙ is_name)
        known
