-- ===== src/Validator/Content.antt =====
-- What the text of a task may not hold: containsCI, containsURL, isInternalHost, containsSecret,
-- containsDSN and containsSystemPrompt of services/orchestrator/validator/validator.go.
use Prim.Native.Char.{code}
use Prim.Native.String.{len, slice, find}
use multi_agent_agent_hub.Prelude.{
  ℕ, zero, suc, ◌+◌, ◌≡◌, refl, String, Bool, true, false, ◌&&◌, ◌||◌, Option, none, some, List, [],
  ◌∷◌, any, ◌==◌, str_eq, if◌then◌else◌,
}
use multi_agent_agent_hub.Prelude.Int.{ℤ, pos, leb_ℤ}
use multi_agent_agent_hub.Prelude.Text.{
  trim_space, Cases, to_lower, equal_fold, contains, has_suffix, atoi, ascii_cases, map_text,
  digits,
}
use text.Mathlib.Text.{starts_with}

unfoldable pub contains_ci : Cases → List String → String → Bool
contains_ci cases slice item = any (λ s. equal_fold cases (trim_space s) (trim_space item)) slice

abbrev contains_any : List String → String → Bool
contains_any patterns lower = any (contains lower) patterns

unfoldable pub contains_secret : Cases → String → Bool
contains_secret cases s =
    contains_any
      ("sk-" ∷ "api_key" ∷ "apikey" ∷ "api-key" ∷ "bearer " ∷ "token=" ∷ "token:" ∷ "token "
        ∷ "secret=" ∷ "secret:" ∷ "secret " ∷ "password=" ∷ "password:" ∷ "password " ∷ "credential"
        ∷ [])
      (to_lower cases s)

unfoldable pub contains_dsn : Cases → String → Bool
contains_dsn cases s =
    contains_any
      ("mysql://" ∷ "postgres://" ∷ "postgresql://" ∷ "mongodb://" ∷ "sqlite://" ∷ "redis://"
        ∷ "jdbc:" ∷ "dsn=" ∷ [])
      (to_lower cases s)

unfoldable pub contains_system_prompt : Cases → String → Bool
contains_system_prompt cases s =
    contains_any
      ("you are a" ∷ "you are an" ∷ "system prompt" ∷ "system instruction" ∷ "system:"
        ∷ "system message" ∷ [])
      (to_lower cases s)

-- The text up to the first character that passes a test.
unfoldable pub until : (ℕ → Bool) → String → String
until stop String.[] = String.[]
until stop (String.◌∷◌ c s) =
    let rest = until stop s in if stop (code c) then String.[] else String.◌∷◌ c rest

-- What stands before the last colon and what after it.
unfoldable pub split_port : String → Option (String × String)
split_port String.[] = none
split_port (String.◌∷◌ c s) = elim (split_port s) [
  | some (host, port) ↦ some (String.◌∷◌ c host, port)
  | none ↦ if code c == b':' then some (String.[], s) else none
]

-- The second label of a host that starts with "172." is a number from 16 to 31.
abbrev in_range : Option ℤ → Bool
in_range none = false
in_range (some n) = leb_ℤ (pos 16) n && leb_ℤ n (pos 31)

unfoldable pub is_internal_host : String → Bool
unfolding until
is_internal_host host =
    if str_eq host ""
    then false
    else any (str_eq host) ("localhost" ∷ "127.0.0.1" ∷ "0.0.0.0" ∷ "::1" ∷ "[::1]" ∷ [])
      || any (starts_with host) ("10." ∷ "192.168." ∷ "169.254." ∷ [])
      || (starts_with host "172."
          && in_range (atoi (until (λ c. c == b'.') (slice host 4 (len host)))))
      || any (has_suffix host)
          (".local" ∷ ".internal" ∷ ".lan" ∷ ".corp" ∷ ".localhost" ∷ ".intranet" ∷ ".private" ∷ [])

abbrev is_some {ℓ} : {A : Type ℓ} → Option A → Bool
is_some none = false
is_some (some a) = true

abbrev without_port : String → Option (String × String) → String
without_port host none = host
without_port host (some (name, port)) = if is_some (atoi port) then name else host

abbrev ends_host : ℕ → Bool
ends_host c =
    any (λ d. c == d)
      (b'/' ∷ b'?' ∷ b'#' ∷ b' ' ∷ b'\t' ∷ b'\n' ∷ b'\r' ∷ b'"' ∷ b'\'' ∷ b'`' ∷ b'<' ∷ b'>' ∷ [])

-- The host that a text behind `://` starts with.
unfoldable pub host_of : String → String
unfolding until split_port
host_of after = let host = until ends_host after in trim_space (without_port host (split_port host))

-- The loop over the URLs with one prefix, in the part of the text that is left. The position grows in
-- each round, so the source's step that ensures progress is never taken.
unfoldable pub scan_urls : String → ℕ → String → Bool
unfolding host_of is_internal_host
scan_urls prefix zero lower = false
scan_urls prefix (suc fuel) lower =
    let after = slice lower (find lower prefix + len prefix) (len lower) in
    let host = host_of after in
    let rest = scan_urls prefix fuel (slice after (len host + 1) (len after)) in
    if contains lower prefix then (if is_internal_host host then true else rest) else false

unfoldable pub contains_url : Cases → String → Bool
unfolding scan_urls
contains_url cases s =
    let lower = to_lower cases s in
    contains_any ("localhost" ∷ "127.0.0.1" ∷ "0.0.0.0" ∷ "[::1]" ∷ []) lower
    || any (λ prefix. scan_urls prefix (suc (len lower)) lower) ("http://" ∷ "https://" ∷ [])

url_found : contains_url ascii_cases "see http://a.b/ and HTTPS://172.20.0.1:8080/x" ≡ true
unfolding contains_url map_text digits atoi trim_space
url_found = refl

url_outside :
    contains_url ascii_cases "see http://172.40.0.1:80 and https://api.github.com/x" ≡ false
unfolding contains_url map_text digits atoi trim_space
url_outside = refl

-- User information before the host hides it.
url_with_user : contains_url ascii_cases "fetch http://me@10.0.0.1/x" ≡ false
unfolding contains_url map_text digits atoi trim_space
url_with_user = refl

-- A host behind a scheme that is written twice is passed over.
url_twice : contains_url ascii_cases "fetch http://http://10.0.0.1/x" ≡ false
unfolding contains_url map_text digits atoi trim_space
url_twice = refl
