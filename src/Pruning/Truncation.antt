-- ===== src/Pruning/Truncation.antt =====
-- truncateWithSuffix of pkg/runtime/pruning/pruner.go.
use Prim.Native.String.{String, ◌++◌ as text_append}
use text.Mathlib.TextLemmas.{nil-append, cons-append}
use multi_agent_agent_hub.Prelude.{
  ℕ, zero, suc, ◌+◌, ◌≤◌, ◌<◌, ◌⊎◌, ◌≡◌, refl, ap, ◌∙◌, leb, Bool-cases, inl, inr, arith,
}
use multi_agent_agent_hub.Prelude.Int.{pos}
use multi_agent_agent_hub.Pruning.{first_runes, rune_count, truncate_with_suffix, truncated_suffix}

rune_count-append : (s t : String) → rune_count (text_append s t) ≡ rune_count s + rune_count t
unfolding rune_count
rune_count-append String.[] t = ap rune_count (nil-append t) ∙ omega arith
rune_count-append (String.◌∷◌ c s) t =
    ap rune_count (cons-append c s t) ∙ omega (arith, rune_count-append s t)

count-first_runes : (n : ℕ) (s : String) → n ≤ rune_count s → rune_count (first_runes n s) ≡ n
unfolding rune_count first_runes
count-first_runes zero s h = refl
count-first_runes (suc n) String.[] h = absurd (omega (arith, h))
count-first_runes (suc n) (String.◌∷◌ c s) h = ap suc (count-first_runes n s (omega (arith, h)))

first_runes-append :
    (n : ℕ) (s t : String)
    → n ≤ rune_count s
    → first_runes n (text_append (first_runes n s) t) ≡ first_runes n s
unfolding rune_count first_runes
first_runes-append zero s t h = refl
first_runes-append (suc n) String.[] t h = absurd (omega (arith, h))
first_runes-append (suc n) (String.◌∷◌ c s) t h =
    ap (first_runes (suc n)) (cons-append c (first_runes n s) t)
    ∙ ap (String.◌∷◌ c) (first_runes-append n s t (omega (arith, h)))

suffix_count : rune_count truncated_suffix ≡ 14
unfolding rune_count
suffix_count = refl

-- The two branches, for a positive limit.
short : (s : String) (n : ℕ) → rune_count s ≤ n → truncate_with_suffix s (pos n) ≡ s
unfolding truncate_with_suffix
short s n h = ground (arith, h)

long :
    (s : String) (n : ℕ)
    → 1 ≤ n
    → suc n ≤ rune_count s
    → truncate_with_suffix s (pos n) ≡ text_append (first_runes n s) truncated_suffix
unfolding truncate_with_suffix
long s n positive h = ground (arith, h, positive)

-- The result is the text itself where that is short enough, else its first characters and the suffix.
pub Truncates : ℕ → String → String → Type 0
Truncates n s t =
    ((rune_count s ≤ n) × (t ≡ s))
    ⊎ ((n < rune_count s) × (t ≡ text_append (first_runes n s) "...[truncated]"))

truncate_with_suffix-Truncates :
    (s : String) (n : ℕ) → 1 ≤ n → Truncates n s (truncate_with_suffix s (pos n))
unfolding Truncates
truncate_with_suffix-Truncates s n positive = elim (Bool-cases (leb (rune_count s) n)) [
  | inl fits ↦ let h : rune_count s ≤ n = ground (arith, fits) in inl (h, short s n h)
  | inr cut ↦ let h : n < rune_count s = ground (arith, cut) in inr (h, long s n positive h)
]

truncated_again :
    (s : String) (n : ℕ)
    → 1 ≤ n
    → (rune_count (truncate_with_suffix s (pos n)) ≤ n + 14)
      × (first_runes n (truncate_with_suffix s (pos n)) ≡ first_runes n s)
      × (truncate_with_suffix (truncate_with_suffix s (pos n)) (pos n)
          ≡ truncate_with_suffix s (pos n))
truncated_again s n positive = elim (Bool-cases (leb (rune_count s) n)) [
  | inl fits ↦
      let h : rune_count s ≤ n = ground (arith, fits) in
      let e = short s n h in rw e (omega (arith, h), refl, e)
  | inr cut ↦
      let h : suc n ≤ rune_count s = ground (arith, cut) in
      let e = long s n positive h in
      let front = first_runes n s in
      let size = rune_count-append front truncated_suffix in
      let front_size = count-first_runes n s (omega (arith, h)) in
      let result = text_append front truncated_suffix in
      let same = first_runes-append n s truncated_suffix (omega (arith, h)) in
      let again : truncate_with_suffix result (pos n) ≡ result =
        long result n positive (omega (arith, size, front_size, suffix_count))
        ∙ ap (λ l. text_append l truncated_suffix) same in
      rw e (omega (arith, size, front_size, suffix_count), same, again)
]

-- For a positive limit, a text of at most that many characters is unchanged; any longer one is cut to
-- its first characters, as many as the limit, with the suffix "...[truncated]" after them, so that it has
-- at most 14 more than the limit; and to cut the result again changes nothing.
pub truncate_with_suffix_bound :
    (s : String) (n : ℕ)
    → 1 ≤ n
    → Truncates n s (truncate_with_suffix s (pos n))
      × (rune_count (truncate_with_suffix s (pos n)) ≤ n + 14)
      × (first_runes n (truncate_with_suffix s (pos n)) ≡ first_runes n s)
      × (truncate_with_suffix (truncate_with_suffix s (pos n)) (pos n)
          ≡ truncate_with_suffix s (pos n))
truncate_with_suffix_bound s n positive =
    let (bound, front, again) = truncated_again s n positive in
    (truncate_with_suffix-Truncates s n positive, bound, front, again)
