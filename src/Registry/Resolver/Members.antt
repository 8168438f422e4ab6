-- ===== src/Registry/Resolver/Members.antt =====
-- Tests on the lists of services/orchestrator/registry: mapped, filtered, sorted, and read by name.
use multi_agent_agent_hub.Prelude.{
  ◌≡◌, ◌≢◌, refl, sym, ◌∙◌, subst, String, Bool, true, false, ◌&&◌, ◌||◌, Option, none, some, List,
  [], ◌∷◌, ◌++◌, map, filter, any, str_eq, eq_iff, if◌then◌else◌, Bool-cases, inl, inr, arith,
}
use multi_agent_agent_hub.Prelude.Dict.{Dict, empty, lookup, insert, lookup-insert}
use multi_agent_agent_hub.Registry.{AgentEndpoint}
use multi_agent_agent_hub.Registry.Static.{
  insert_sorted, sort_by, StaticError, add_new, clean, Built, built, refused, add_endpoint,
  add_endpoints, new_static,
}
use multi_agent_agent_hub.Registry.Store.{RegisteredAgent, find_agent}

module _ {ℓ} {A : Type ℓ} where
  pub any-append : (p : A → Bool) (xs ys : List A) → any p (xs ++ ys) ≡ (any p xs || any p ys)
  any-append p [] ys = refl
  any-append p (x ∷ xs) ys = ground (arith, any-append p xs ys)

  pub any-filter : (p q : A → Bool) (xs : List A) → any p (filter q xs) ≡ any (λ x. q x && p x) xs
  any-filter p q [] = refl
  any-filter p q (x ∷ xs) = ground (arith, any-filter p q xs)

  any-insert_sorted :
      (p : A → Bool) (name : A → String) (a : A) (xs : List A)
      → any p (insert_sorted name a xs) ≡ (p a || any p xs)
  unfolding insert_sorted
  any-insert_sorted p name a [] = ground arith
  any-insert_sorted p name a (x ∷ xs) = ground (arith, any-insert_sorted p name a xs)

  pub any-sort_by :
      (p : A → Bool) (name : A → String) (xs : List A) → any p (sort_by name xs) ≡ any p xs
  unfolding sort_by
  any-sort_by p name [] = refl
  any-sort_by p name (x ∷ xs) =
      ground (arith, any-insert_sorted p name x (sort_by name xs), any-sort_by p name xs)

pub any-same {ℓ} :
    {A : Type ℓ} (p q : A → Bool) (xs : List A) → ((x : A) → p x ≡ q x) → any p xs ≡ any q xs
any-same p q [] same = refl
any-same p q (x ∷ xs) same = ground (arith, same x, any-same p q xs same)

pub any-never {ℓ} :
    {A : Type ℓ} (p : A → Bool) (xs : List A) → ((x : A) → p x ≡ false) → any p xs ≡ false
any-never p [] never = refl
any-never p (x ∷ xs) never = ground (arith, never x, any-never p xs never)

pub any-map {ℓ κ} :
    {A : Type ℓ} {B : Type κ} (p : B → Bool) (f : A → B) (xs : List A)
    → any p (map f xs) ≡ any (λ x. p (f x)) xs
any-map p f [] = refl
any-map p f (x ∷ xs) = ground (arith, any-map p f xs)

-- A map from names to endpoints of these names, each name once.
abbrev pub Keyed : Dict AgentEndpoint → Type 0
Keyed [] = Unit {0}
Keyed ((key, ep) ∷ agents) = (ep.name ≡ key) × (lookup key agents ≡ none) × Keyed agents

abbrev pub holds {ℓ} : {A : Type ℓ} → (A → Bool) → Option A → Bool
holds p none = false
holds p (some a) = p a

pub any-lookup :
    (p : AgentEndpoint → Bool) (name : String) (agents : Dict AgentEndpoint)
    → Keyed agents
    → any (λ ep. p ep && str_eq ep.name name) (map (λ e. e.1) agents) ≡ holds p (lookup name agents)
unfolding lookup
any-lookup p name [] keyed = refl
any-lookup p name ((key, ep) ∷ agents) (same, fresh, keyed) =
    ground
      (arith, same, fresh, any-lookup p name agents keyed, eq_iff key name, eq_iff ep.name name)

-- No two agents have one name.
abbrev pub DistinctNames : List RegisteredAgent → Type 0
DistinctNames [] = Unit {0}
DistinctNames (a ∷ agents) = (find_agent a.name agents ≡ none) × DistinctNames agents

pub any-find_agent :
    (p : RegisteredAgent → Bool) (name : String) (agents : List RegisteredAgent)
    → DistinctNames agents
    → any (λ a. p a && str_eq a.name name) agents ≡ holds p (find_agent name agents)
unfolding find_agent
any-find_agent p name [] distinct = refl
any-find_agent p name (a ∷ agents) (fresh, distinct) =
    ground (arith, fresh, any-find_agent p name agents distinct, eq_iff a.name name)

some-ne-none {ℓ} : {A : Type ℓ} {x : A} → some x ≢ none
some-ne-none h = cc

built_injective : {a b : Dict AgentEndpoint} → built a ≡ built b → a ≡ b
built_injective h = cc

insert-Keyed :
    (ep : AgentEndpoint) (agents : Dict AgentEndpoint)
    → lookup ep.name agents ≡ none
    → Keyed agents
    → Keyed (insert ep.name ep agents)
unfolding insert lookup
insert-Keyed ep [] fresh keyed = (refl, refl, tt)
insert-Keyed ep ((key, old) ∷ agents) fresh (same, once, keyed) =
    elim (Bool-cases (str_eq key ep.name)) [
      | inl at ↦ absurd (
          some-ne-none
            (subst (λ b. (if b then some old else lookup ep.name agents) ≡ none) at fresh))
      | inr away ↦
          let rest =
            subst (λ b. (if b then some old else lookup ep.name agents) ≡ none) away fresh in
          let apart : str_eq ep.name key ≡ false =
            ground (arith, away, eq_iff key ep.name, eq_iff ep.name key) in
          let still : lookup key (insert ep.name ep agents) ≡ none =
            lookup-insert ep.name key ep agents
            ∙ subst (λ b. (if b then some ep else lookup key agents) ≡ none) (sym apart) once in
          subst
            (λ b.
              Keyed (if b then (ep.name, ep) ∷ agents else (key, old) ∷ insert ep.name ep agents))
            (sym away) (same, still, insert-Keyed ep agents rest keyed)
    ]

not_refused :
    (b c : Bool) (e f : StaticError) (x : Built) (more : Dict AgentEndpoint)
    → (if b then refused e else if c then refused f else x) ≡ built more
    → x ≡ built more
not_refused true c e f x more h = absurd (cc)
not_refused false true e f x more h = absurd (cc)
not_refused false false e f x more h = h

add_new-Keyed :
    (ep : AgentEndpoint) (agents more : Dict AgentEndpoint) (o : Option AgentEndpoint)
    → lookup ep.name agents ≡ o
    → Keyed agents
    → add_new ep agents o ≡ built more
    → Keyed more
add_new-Keyed ep agents more (some old) found keyed h = absurd (cc)
add_new-Keyed ep agents more none found keyed h =
    subst Keyed (built_injective h) (insert-Keyed ep agents found keyed)

add_endpoint-Keyed :
    (ep : AgentEndpoint) (agents more : Dict AgentEndpoint)
    → Keyed agents
    → add_endpoint ep agents ≡ built more
    → Keyed more
unfolding add_endpoint
add_endpoint-Keyed ep agents more keyed h =
    add_new-Keyed ep agents more (lookup ep.name agents) refl keyed
      (not_refused (str_eq ep.name "") (str_eq ep.url "") _ _ _ more h)

abbrev and_then : List AgentEndpoint → Built → Built
and_then eps m = elim m [ built more ↦ add_endpoints eps more | refused e ↦ refused e ]

then_rest :
    (eps : List AgentEndpoint) (m : Built) (more : Dict AgentEndpoint)
    → ((agents : Dict AgentEndpoint)
        → Keyed agents
        → add_endpoints eps agents ≡ built more
        → Keyed more)
    → ((agents : Dict AgentEndpoint) → m ≡ built agents → Keyed agents)
    → and_then eps m ≡ built more
    → Keyed more
then_rest eps (built agents) more rest first h = rest agents (first agents refl) h
then_rest eps (refused e) more rest first h = absurd (cc)

add_endpoints-Keyed :
    (eps : List AgentEndpoint) (agents more : Dict AgentEndpoint)
    → Keyed agents
    → add_endpoints eps agents ≡ built more
    → Keyed more
unfolding add_endpoints
add_endpoints-Keyed [] agents more keyed h = subst Keyed (built_injective h) keyed
add_endpoints-Keyed (ep ∷ eps) agents more keyed h =
    then_rest eps (add_endpoint (clean ep) agents) more
      (λ next k. add_endpoints-Keyed eps next more k)
      (λ next. add_endpoint-Keyed (clean ep) agents next keyed) h

-- The registry that is built from a configuration.
pub new_static-Keyed :
    (eps : List AgentEndpoint) (agents : Dict AgentEndpoint)
    → new_static eps ≡ built agents
    → Keyed agents
unfolding new_static
new_static-Keyed eps agents h = add_endpoints-Keyed eps empty agents tt h
