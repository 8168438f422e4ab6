-- ===== src/Registry/Store/Json/Lawful.antt =====
-- services/orchestrator/registry/store_json.go keeps the laws of a store.
use multi_agent_agent_hub.Prelude.{
  ℕ, ◌≤◌, ◌≡◌, ◌≢◌, refl, sym, ap, ◌∙◌, String, Bool, true, false, not, Option, none, some, List,
  [], ◌∷◌, length, filter, str_eq, eq_iff, ◌==◌, ==_iff, if◌then◌else◌, Bool-cases, inl, inr, arith,
  subst,
}
use multi_agent_agent_hub.Registry.Store.{RegisteredAgent, AgentSource, find_agent, IsLawful}
use multi_agent_agent_hub.Registry.Store.Json.{
  File, missing, unreadable, agents, Disk, is_dynamic, load_file, write, or_else, put, upsert,
  delete, json_store, put_in, remove_from, is_static, as_dynamic,
}

some_injective {ℓ} : {A : Type ℓ} {x y : A} → some x ≡ some y → x ≡ y
some_injective h = cc

none-ne-some {ℓ} : {A : Type ℓ} {x : A} → none ≢ some x
none-ne-some h = cc

-- The time of creation that is kept.
created_for : RegisteredAgent → List RegisteredAgent → ℕ
created_for a [] = a.created_at
created_for a (b ∷ all) =
    if str_eq b.name a.name then or_else b.created_at a.created_at else created_for a all

module _ (a : RegisteredAgent) (is_dyn : is_dynamic a ≡ true) where
  find-put :
      (name : String) (all : List RegisteredAgent)
      → find_agent name (filter is_dynamic (put a all)) ≡ (
          if str_eq a.name name
          then some (record a { created_at = created_for a all })
          else find_agent name (filter is_dynamic all))
  unfolding find_agent put created_for
  find-put name [] = ground (arith, is_dyn)
  find-put name (b ∷ all) = ground (
    arith,
    is_dyn,
    find-put name all,
    eq_iff b.name a.name,
    eq_iff b.name name,
    eq_iff a.name name,
  )

find-filter :
    (gone name : String) (all : List RegisteredAgent)
    → find_agent name (filter is_dynamic (filter (λ a. not (str_eq a.name gone)) all))
      ≡ (if str_eq gone name then none else find_agent name (filter is_dynamic all))
unfolding find_agent
find-filter gone name [] = ground arith
find-filter gone name (b ∷ all) =
    ground
      (arith, find-filter gone name all, eq_iff b.name gone, eq_iff b.name name, eq_iff gone name)

filter-again :
    (all : List RegisteredAgent) → filter is_dynamic (filter is_dynamic all) ≡ filter is_dynamic all
filter-again [] = refl
filter-again (a ∷ all) = ground (arith, filter-again all)

-- Written agents are read back.
write-load :
    (all : List RegisteredAgent) (d e : Disk)
    → write all d ≡ some e
    → load_file e.file ≡ some (filter is_dynamic all)
unfolding write load_file
write-load all d e h = ground (arith, filter-again all, h)

abbrev Found : RegisteredAgent → List RegisteredAgent → Disk → Type 0
Found a before t =
    (after : List RegisteredAgent) × (created : ℕ) × (load_file t.file ≡ some after)
    × ((name : String)
        → find_agent name after ≡ (
            if str_eq a.name name
            then some (record a { created_at = created })
            else find_agent name before))

put_in-Found :
    (a : RegisteredAgent) (d t : Disk) (file : File) (before : List RegisteredAgent)
    → is_dynamic a ≡ true
    → load_file file ≡ some before
    → put_in a d file ≡ some t
    → Found a before t
unfolding load_file
put_in-Found a d t missing before dyn loaded h = (
  filter is_dynamic (put a []),
  created_for a [],
  write-load (put a []) d t h,
  λ name.
      subst
        (λ old. find_agent name (filter is_dynamic (put a [])) ≡ (
          if str_eq a.name name
          then some (record a { created_at = created_for a [] })
          else find_agent name old))
        (some_injective loaded) (find-put a dyn name []),
)
put_in-Found a d t unreadable before dyn loaded h = absurd (cc)
put_in-Found a d t (agents all) before dyn loaded h = (
  filter is_dynamic (put a all),
  created_for a all,
  write-load (put a all) d t h,
  λ name.
      subst
        (λ old. find_agent name (filter is_dynamic (put a all)) ≡ (
          if str_eq a.name name
          then some (record a { created_at = created_for a all })
          else find_agent name old))
        (some_injective loaded) (find-put a dyn name all),
)

passes :
    (b c : Bool) (x : Option Disk) (t : Disk)
    → (if b then none else if c then none else x) ≡ some t
    → x ≡ some t
passes true c x t h = absurd (cc)
passes false true x t h = absurd (cc)
passes false false x t h = h

upsert-Found :
    (now : ℕ) (a : RegisteredAgent) (s t : Disk) (before : List RegisteredAgent)
    → a.source ≡ AgentSource.dynamic
    → load_file s.file ≡ some before
    → upsert now a s ≡ some t
    → (after : List RegisteredAgent) × (created : ℕ) × (load_file t.file ≡ some after)
      × ((name : String)
          → find_agent name after ≡ (
              if str_eq a.name name
              then some (record a { created_at = created; updated_at = now })
              else find_agent name before))
unfolding upsert
upsert-Found now a s t before dyn loaded h =
    let stamped = record a {
      source = as_dynamic a.source;
      created_at = or_else a.created_at now;
      updated_at = now;
    } in
    let kept : as_dynamic a.source ≡ a.source = ground (arith, dyn) in
    let (after, created, read, found) =
      put_in-Found stamped s t s.file before (ground (arith, dyn)) loaded
        (passes (str_eq a.name "") (is_static a) (put_in stamped s s.file) t h) in
    (
      after,
      created,
      read,
      subst
          (λ src.
            (name : String)
            → find_agent name after ≡ (
                if str_eq a.name name
                then some (record a { source = src; created_at = created; updated_at = now })
                else find_agent name before))
          kept found,
    )

filter-bound :
    (p : RegisteredAgent → Bool) (all : List RegisteredAgent) → length (filter p all) ≤ length all
filter-bound p [] = omega arith
filter-bound p (a ∷ all) = ground (arith, filter-bound p all)

-- As long as the list, the kept part is the list.
filter-whole :
    (p : RegisteredAgent → Bool) (all : List RegisteredAgent)
    → length (filter p all) ≡ length all
    → filter p all ≡ all
filter-whole p [] h = refl
filter-whole p (a ∷ all) h = ground (arith, filter-bound p all, filter-whole p all)

remove_from-Found :
    (gone : String) (s t : Disk) (file : File) (before : List RegisteredAgent)
    → s.file ≡ file
    → load_file file ≡ some before
    → remove_from gone s file ≡ some t
    → (after : List RegisteredAgent) × (load_file t.file ≡ some after)
      × ((name : String)
          → find_agent name after ≡ (if str_eq gone name then none else find_agent name before))
unfolding load_file find_agent
remove_from-Found gone s t missing before here loaded h = (
  [],
  ap load_file (ap (λ d. d.file) (sym (some_injective h)) ∙ here),
  subst
      (λ old.
        (name : String)
        → find_agent name [] ≡ (if str_eq gone name then none else find_agent name old))
      (some_injective loaded) (λ name. ground arith),
)
remove_from-Found gone s t unreadable before here loaded h = absurd (cc)
remove_from-Found gone s t (agents all) before here loaded h =
    let kept = filter (λ a. not (str_eq a.name gone)) all in
    let removed =
      subst
        (λ old.
          (name : String)
          → find_agent name (filter is_dynamic kept)
            ≡ (if str_eq gone name then none else find_agent name old))
        (some_injective loaded) (λ name. find-filter gone name all) in
    elim (Bool-cases (length kept == length all)) [
      | inl same ↦
          let whole = filter-whole (λ a. not (str_eq a.name gone)) all ((==_iff _ _).0 same) in
          let Step = λ (b : Bool). (if b then some s else write kept s) ≡ some t in
          let still : s ≡ t = some_injective (subst Step same h) in
          (
            filter is_dynamic kept,
            ap (λ d. load_file d.file) (sym still)
                ∙ (ap load_file here ∙ ap (λ l. some (filter is_dynamic l)) (sym whole)),
            removed,
          )
      | inr fewer ↦ (
        filter is_dynamic kept,
        write-load kept s t (subst (λ b. (if b then some s else write kept s) ≡ some t) fewer h),
        removed,
      )
    ]

delete-Found :
    (gone : String) (s t : Disk) (before : List RegisteredAgent)
    → load_file s.file ≡ some before
    → delete gone s ≡ some t
    → (after : List RegisteredAgent) × (load_file t.file ≡ some after)
      × ((name : String)
          → find_agent name after ≡ (if str_eq gone name then none else find_agent name before))
unfolding delete
delete-Found gone s t before loaded h =
    remove_from-Found gone s t s.file before refl loaded
      (passes (str_eq gone "") false (remove_from gone s s.file) t h)

found-IsDynamic :
    (all : List RegisteredAgent) (name : String) (a : RegisteredAgent)
    → find_agent name (filter is_dynamic all) ≡ some a
    → a.source ≡ AgentSource.dynamic
unfolding find_agent
found-IsDynamic [] name a h = absurd (cc)
found-IsDynamic (b ∷ all) name a h = ground (arith, found-IsDynamic all name a, h)

load_file-IsDynamic :
    (file : File) (agents' : List RegisteredAgent) (name : String) (a : RegisteredAgent)
    → load_file file ≡ some agents'
    → find_agent name agents' ≡ some a
    → a.source ≡ AgentSource.dynamic
unfolding load_file find_agent
load_file-IsDynamic missing loaded name a h found =
    absurd (none-ne-some (subst (λ l. find_agent name l ≡ some a) (sym (some_injective h)) found))
load_file-IsDynamic unreadable loaded name a h found = absurd (cc)
load_file-IsDynamic (agents all) loaded name a h found =
    found-IsDynamic all name a
      (subst (λ l. find_agent name l ≡ some a) (sym (some_injective h)) found)

-- The store in a file keeps the laws: only dynamic agents are loaded; after an update that succeeds, the agent is read back with its
-- fields, its time of creation aside, after a deletion it is gone, and the agents of other names are
-- found as before.
pub json_store-IsLawful : IsLawful json_store
json_store-IsLawful = record {
  load-IsDynamic = λ s. load_file-IsDynamic s.file;
  load-upsert = upsert-Found;
  load-delete = delete-Found;
}
