-- ===== src/Registry/Resolver/Agreement.antt =====
-- services/orchestrator/registry/dispatch_resolver.go: the names that are listed are those that resolve.
use multi_agent_agent_hub.Prelude.{
  ◌≡◌, refl, sym, ap, ◌∙◌, String, Bool, true, false, not, ◌&&◌, ◌||◌, Option, none, some, List,
  ◌++◌, map, filter, any, str_eq, eq_iff, Bool-cases, inl, inr,
}
use multi_agent_agent_hub.Prelude.Dict.{lookup}
use multi_agent_agent_hub.Prelude.Text.{trim_space}
use multi_agent_agent_hub.Registry.{AgentEndpoint}
use multi_agent_agent_hub.Registry.Static.{StaticAgentRegistry, list, sort_by}
use multi_agent_agent_hub.Registry.Store.{RegisteredAgent, AgentStore, find_agent}
use multi_agent_agent_hub.Registry.Agents.{ok, static_to_registered, required, store_failed, ◌>>=◌}
use multi_agent_agent_hub.Registry.Dynamic.{loaded, list_all, has_name, static_list}
use multi_agent_agent_hub.Registry.Resolver.{
  healthy_static, entries, is_available, static_names, dynamic_names, resolve_url, names, has_url,
}
use multi_agent_agent_hub.Registry.Resolver.Members.{
  any-append, any-filter, any-sort_by, any-map, Keyed, holds, any-lookup, any-same, any-never,
  DistinctNames, any-find_agent,
}
use multi_agent_agent_hub.Registry.Resolver.Urls.{
  wired, agents_of, available, url_at, resolve-available, resolve_url-url_at,
}

abbrev has {ℓ} : {A : Type ℓ} → (A → String) → String → List A → Bool
has name n xs = any (λ x. str_eq (name x) n) xs

-- Where a name is the one that is looked for, it can take its place in a test.
at_name : (p : String → Bool) (m n : String) → (p m && str_eq m n) ≡ (p n && str_eq m n)
at_name p m n = elim (Bool-cases (str_eq m n)) [
  | inl same ↦ ap (λ k. p k && str_eq m n) ((eq_iff m n).0 same)
  | inr other ↦ rw other (never (p m) ∙ sym (never (p n)))
]
  where
    never : (b : Bool) → (b && false) ≡ false
    never true = refl
    never false = refl

and_assoc : (a b c : Bool) → ((a && b) && c) ≡ (a && (b && c))
and_assoc true b c = refl
and_assoc false b c = refl

no_health : (b c : Bool) → ((b && false) && c) ≡ false
no_health true c = refl
no_health false c = refl

static_list-entries :
    (st : Option StaticAgentRegistry) → static_list st ≡ map static_to_registered (entries st)
static_list-entries none = refl
static_list-entries (some s) = refl

-- The two parts of the list, by what the static registry holds.
abbrev in_either : Option StaticAgentRegistry → String → List RegisteredAgent → Bool → Bool → Bool
in_either st n agents taken shown =
    shown || holds (λ a. not taken && (not shown && is_available a)) (find_agent n agents)

holds-never : (o : Option RegisteredAgent) → holds (λ a. false) o ≡ false
holds-never none = refl
holds-never (some a) = refl

either-available :
    (st : Option StaticAgentRegistry) (n : String) (agents : List RegisteredAgent)
    (o : Option AgentEndpoint)
    → in_either st n agents (holds (λ ep. true) o) (holds (λ ep. healthy_static st n) o)
      ≡ available st agents n o
either-available st n agents none = refl
either-available st n agents (some ep) =
    ap (λ b. healthy_static st n || b) (holds-never (find_agent n agents))
    ∙ or_false (healthy_static st n)
  where
    or_false : (b : Bool) → (b || false) ≡ b
    or_false true = refl
    or_false false = refl

module _ (st : Option StaticAgentRegistry) (keyed : Keyed (agents_of st)) (n : String) where
  any-entries :
      (p : AgentEndpoint → Bool)
      → any (λ ep. p ep && str_eq ep.name n) (entries st) ≡ holds p (lookup n (agents_of st))
  unfolding list lookup
  any-entries p =
      elim st
          as (λ o.
            Keyed (agents_of o)
            → any (λ ep. p ep && str_eq ep.name n) (entries o) ≡ holds p (lookup n (agents_of o))) [
              | none ↦ λ k. refl
              | some s ↦ λ k.
                  any-sort_by _ (λ ep. ep.name) (map (λ e. e.1) s.agents)
                  ∙ any-lookup p n s.agents k
            ]
        keyed

  has-static_names :
      has (λ m. m) n (static_names st) ≡ holds (λ ep. healthy_static st n) (lookup n (agents_of st))
  has-static_names =
      any-map (λ m. str_eq m n) (λ ep. ep.name)
        (filter (λ ep. healthy_static st ep.name) (entries st))
      ∙ (any-filter (λ ep. str_eq ep.name n) (λ ep. healthy_static st ep.name) (entries st)
          ∙ (any-same _ (λ ep. healthy_static st n && str_eq ep.name n) (entries st)
                (λ ep. at_name (healthy_static st) ep.name n)
              ∙ any-entries (λ ep. healthy_static st n)))

  has_name-static_list : has_name n (static_list st) ≡ holds (λ ep. true) (lookup n (agents_of st))
  has_name-static_list =
      ap (has_name n) (static_list-entries st)
      ∙ (any-map (λ a. str_eq a.name n) static_to_registered (entries st)
          ∙ any-entries (λ ep. true))

  module _ (agents : List RegisteredAgent) (distinct : DistinctNames agents) where
    no_static_agent :
        (shown : List String)
        → any
            (λ a. (not (has (λ m. m) a.name shown) && is_available a) && str_eq a.name n)
            (static_list st)
          ≡ false
    no_static_agent shown =
        let test = λ (a : RegisteredAgent).
          (not (has (λ m. m) a.name shown) && is_available a) && str_eq a.name n in
        ap (any test) (static_list-entries st)
        ∙ (any-map test static_to_registered (entries st)
            ∙ any-never (λ ep. test (static_to_registered ep)) (entries st)
                (λ ep. no_health (not (has (λ m. m) ep.name shown)) (str_eq ep.name n)))

    abbrev listed : List RegisteredAgent
    listed =
        sort_by (λ a. a.name)
          (static_list st ++ filter (λ a. not (has_name a.name (static_list st))) agents)

    has-dynamic_names :
        has (λ m. m) n (dynamic_names (static_names st) listed)
        ≡ holds
            (λ a.
              not (has_name n (static_list st))
              && (not (has (λ m. m) n (static_names st)) && is_available a))
            (find_agent n agents)
    has-dynamic_names =
        let fixed = static_list st in
        let shown = static_names st in
        let Q = λ (a : RegisteredAgent). not (has (λ m. m) a.name shown) && is_available a in
        let F = λ (a : RegisteredAgent). not (has_name a.name fixed) in
        let test = λ (a : RegisteredAgent). Q a && str_eq a.name n in
        any-map (λ m. str_eq m n) (λ a. a.name) (filter Q listed)
        ∙ (any-filter (λ a. str_eq a.name n) Q listed
            ∙ (any-sort_by test (λ a. a.name) (fixed ++ filter F agents)
                ∙ (any-append test fixed (filter F agents)
                    ∙ (ap (λ b. b || any test (filter F agents)) (no_static_agent shown)
                        ∙ (any-filter test F agents
                            ∙ (any-same (λ a. F a && test a) _ agents
                                  (λ a.
                                    sym (and_assoc (F a) (Q a) (str_eq a.name n))
                                    ∙ at_name
                                        (λ m.
                                          not (has_name m fixed)
                                          && (not (has (λ k. k) m shown) && is_available a))
                                        a.name n)
                                ∙ any-find_agent
                                    (λ a.
                                      not (has_name n fixed)
                                      && (not (has (λ m. m) n shown) && is_available a))
                                    n agents distinct))))))

    module _ (S : AgentStore) (store : Option S.State) (reads : loaded S store ≡ some agents)
        (trimmed : trim_space n ≡ n) (named : str_eq n "" ≡ false) where
      -- With the resolver as the orchestrator wires it, a static registry whose entries stand under their
      -- own names, and a store that can be read and holds no name twice: the names of the available
      -- agents are listed, a trimmed name that is not blank is listed exactly if it resolves to a
      -- URL, and it resolves to the URL of the static agent of that name if there is one and it is
      -- healthy, to none if that agent is not healthy, and else to the URL of the dynamic agent of
      -- the name if that one is enabled and healthy.
      pub names-resolve :
          (ns : List String) × (names (wired {S = S} st store) ≡ ok ns)
          × (has (λ m. m) n ns ≡ has_url (resolve_url (wired {S = S} st store) n))
          × (resolve_url (wired {S = S} st store) n
              ≡ ok (url_at st agents n (lookup n (agents_of st))))
      unfolding names list_all
      names-resolve =
          let shown = static_names st in
          let o = lookup n (agents_of st) in
          (
            sort_by (λ m. m) (shown ++ dynamic_names shown listed),
            ap
                (λ l.
                  (required store_failed l >>= λ stored. ok (
                    sort_by (λ a. a.name)
                      (static_list st
                        ++ filter (λ a. not (has_name a.name (static_list st))) stored)))
                  >>= λ all. ok (sort_by (λ m. m) (shown ++ dynamic_names shown all)))
                reads,
            any-sort_by (λ m. str_eq m n) (λ m. m) (shown ++ dynamic_names shown listed)
                ∙ (any-append (λ m. str_eq m n) shown (dynamic_names shown listed)
                    ∙ (ap (λ b. has (λ m. m) n shown || b) has-dynamic_names
                        ∙ (ap (λ b. in_either st n agents (has_name n (static_list st)) b)
                              has-static_names
                            ∙ (ap
                                  (λ b.
                                    in_either st n agents b (holds (λ ep. healthy_static st n) o))
                                  has_name-static_list
                                ∙ (either-available st n agents o
                                    ∙ sym (
                                        resolve-available st n trimmed named S store agents
                                          reads)))))),
            resolve_url-url_at st n trimmed named S store agents reads,
          )
