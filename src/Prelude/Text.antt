-- ===== src/Prelude/Text.antt =====
-- Go's strings as the native texts: TrimSpace, ToLower, EqualFold, Contains, HasSuffix, and Atoi. A
-- position counts bytes, as in Go.
use Prim.Native.Nat.{ℕ, zero, suc, ◌+◌, ◌-◌, ◌*◌, ◌/◌, ◌%◌, ◌^◌}
use Prim.Native.Char.{Char, code}
use Prim.Native.String.{String, len, slice, find, char_at}
use mathlib.Core.Path.{◌≡◌, refl, ap, ◌∙◌}
use mathlib.Core.Logic.{inl, inr}
use mathlib.Core.Bool.{Bool, true, false, ◌&&◌, ◌||◌}
use mathlib.Core.Option.{Option, none, some}
use text.Mathlib.Text.{◌==◌ as str_eq}
use multi_agent_agent_hub.Prelude.Int.{ℤ, pos, negsuc, sub_ℕ}
use multi_agent_agent_hub.Prelude.Tests.{Bool-cases, leb, ◌==◌, if◌then◌else◌}

-- unicode.IsSpace.
unfoldable pub is_space : ℕ → Bool
is_space c =
    (leb 0x9 c && leb c 0xd)
    || c == 0x20
    || c == 0x85
    || c == 0xa0
    || c == 0x1680
    || (leb 0x2000 c && leb c 0x200a)
    || c == 0x2028
    || c == 0x2029
    || c == 0x202f
    || c == 0x205f
    || c == 0x3000

unfoldable pub trim_left : String → String
unfolding is_space
trim_left String.[] = String.[]
trim_left (String.◌∷◌ c s) = if is_space (code c) then trim_left s else String.◌∷◌ c s

-- A space goes where nothing but spaces follows it.
abbrev cons_trimmed : Char → String → String
cons_trimmed c String.[] = if is_space (code c) then String.[] else String.◌∷◌ c String.[]
cons_trimmed c (String.◌∷◌ d s) = String.◌∷◌ c (String.◌∷◌ d s)

unfoldable pub trim_right : String → String
unfolding is_space
trim_right String.[] = String.[]
trim_right (String.◌∷◌ c s) = cons_trimmed c (trim_right s)

unfoldable pub trim_space : String → String
unfolding trim_left trim_right
trim_space s = trim_right (trim_left s)

trim_space_example : trim_space "  a b \n" ≡ "a b"
unfolding trim_space
trim_space_example = refl

-- Unicode's tables: the lower case of a character, and the first character that it folds to.
pub record Cases : Type 0 where
  pub lower : Char → Char
  pub fold : Char → Char

unfoldable pub map_text : (Char → Char) → String → String
map_text f String.[] = String.[]
map_text f (String.◌∷◌ c s) = String.◌∷◌ (f c) (map_text f s)

abbrev pub to_lower : Cases → String → String
to_lower cases s = map_text cases.lower s

abbrev pub equal_fold : Cases → String → String → Bool
equal_fold cases s t = str_eq (map_text cases.fold s) (map_text cases.fold t)

-- `find` answers one more than the length where the part is missing.
abbrev pub contains : String → String → Bool
contains s part = leb (find s part) (len s)

abbrev pub has_suffix : String → String → Bool
has_suffix s end = str_eq (slice s (len s - len end) (len s)) end

abbrev is_digit : ℕ → Bool
is_digit c = leb b'0' c && leb c b'9'

-- The number that the digits stand for, after the digits read so far.
unfoldable pub digits : ℕ → String → Option ℕ
digits n String.[] = some n
digits n (String.◌∷◌ c s) =
    let rest = digits (n * 10 + (code c - b'0')) s in if is_digit (code c) then rest else none

abbrev some_digits : String → Option ℕ
some_digits String.[] = none
some_digits (String.◌∷◌ c s) = digits 0 (String.◌∷◌ c s)

abbrev below : ℕ → ℤ → Option ℕ → Option ℤ
below limit z none = none
below limit z (some n) = if leb n limit then some z else none

abbrev number_of : Option ℕ → ℕ
number_of none = 0
number_of (some n) = n

-- An optional sign and digits, in the range of 64 bits.
unfoldable pub atoi : String → Option ℤ
unfolding digits
atoi String.[] = none
atoi (String.◌∷◌ c s) =
    let plain = some_digits s in
    let all = some_digits (String.◌∷◌ c s) in
    if code c == b'-'
    then below (2 ^ 63) (sub_ℕ 0 (number_of plain)) plain
    else if code c == b'+'
    then below (2 ^ 63 - 1) (pos (number_of plain)) plain
    else below (2 ^ 63 - 1) (pos (number_of all)) all

-- The lower case of the letters A to Z.
abbrev pub ascii_lower : Char → Char
ascii_lower c =
    if leb b'A' (code c) && leb (code c) b'Z'
    then char_at "abcdefghijklmnopqrstuvwxyz" (code c - b'A')
    else c

abbrev pub ascii_cases : Cases
ascii_cases = record { lower = ascii_lower; fold = ascii_lower }

atoi_examples :
    (atoi "-12" ≡ some (negsuc 11))
    × (atoi "+7" ≡ some (pos 7))
    × (atoi "7a" ≡ none)
    × (atoi "9223372036854775808" ≡ none)
unfolding atoi
atoi_examples = (refl, refl, refl, refl)

to_lower_example : to_lower ascii_cases "Sk-ABZ" ≡ "sk-abz"
unfolding map_text
to_lower_example = refl

-- Trimming trims all: on the right, on the left after the right, and so on both sides.
trim_right_again : (s : String) → trim_right (trim_right s) ≡ trim_right s
unfolding trim_right
trim_right_again String.[] = refl
trim_right_again (String.◌∷◌ c s) = again (trim_right s) (trim_right_again s)
  where
    again : (t : String) → trim_right t ≡ t → trim_right (cons_trimmed c t) ≡ cons_trimmed c t
    again String.[] h = elim (Bool-cases (is_space (code c))) [
      | inl space ↦ rw space refl
      | inr other ↦ rw other (rw other refl)
    ]
    again (String.◌∷◌ d t) h = ap (cons_trimmed c) h

StartsInside : (s : String) → Type 0
StartsInside String.[] = Unit
StartsInside (String.◌∷◌ c s) = is_space (code c) ≡ false

trim_left-StartsInside : (s : String) → StartsInside (trim_left s)
unfolding StartsInside trim_left
trim_left-StartsInside String.[] = tt
trim_left-StartsInside (String.◌∷◌ c s) = elim (Bool-cases (is_space (code c))) [
  | inl space ↦ rw space (trim_left-StartsInside s)
  | inr other ↦ rw other other
]

trim_left-trim_right : (s : String) → StartsInside s → trim_left (trim_right s) ≡ trim_right s
unfolding StartsInside trim_left trim_right
trim_left-trim_right String.[] h = refl
trim_left-trim_right (String.◌∷◌ c s) h = first (trim_right s)
  where
    first : (t : String) → trim_left (cons_trimmed c t) ≡ cons_trimmed c t
    first String.[] = rw h (rw h refl)
    first (String.◌∷◌ d t) = rw h refl

pub trim_space-again : (s : String) → trim_space (trim_space s) ≡ trim_space s
unfolding trim_space
trim_space-again s =
    ap trim_right (trim_left-trim_right (trim_left s) (trim_left-StartsInside s))
    ∙ trim_right_again (trim_left s)

-- `%d` of a number: its digits go before the text; each round takes one digit.
unfoldable pub print_digits : ℕ → ℕ → String → String
print_digits zero n after = after
print_digits (suc fuel) n after =
    let text = String.◌∷◌ (char_at "0123456789" (n % 10)) after in
    elim (leb 10 n) [ true ↦ print_digits fuel (n / 10) text | false ↦ text ]

unfoldable pub print_ℤ : ℤ → String
unfolding print_digits
print_ℤ (pos n) = print_digits (suc n) n ""
print_ℤ (negsuc n) = String.◌∷◌ "-" (print_digits (suc (suc n)) (suc n) "")

print_ℤ_tests : (print_ℤ (pos 120) ≡ "120") × (print_ℤ (negsuc 6) ≡ "-7")
unfolding print_ℤ
print_ℤ_tests = (refl, refl)
