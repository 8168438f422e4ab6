-- ===== src/Validator/Scan.antt =====
-- The loop of containsURL in services/orchestrator/validator/validator.go ends: its fuel, one more than the
-- length of the text, is enough.
use Prim.Native.Char.{Char, len_utf8}
use Prim.Native.String.find
use Prim.Native.String.len
use Prim.Native.String.slice
use Prim.Native.String.{len, slice, find, fits}
use Prim.Native.Nat.{Ordering, compare}
use multi_agent_agent_hub.Prelude.{
  ℕ, zero, suc, ◌+◌, ◌-◌, ◌≤◌, ◌<◌, ◌≡◌, ap, String, true, false, leb, if◌then◌else◌, arith,
}
use multi_agent_agent_hub.Prelude.Text.{contains}
use multi_agent_agent_hub.Validator.Content.{host_of, is_internal_host, scan_urls}
use text.Mathlib.TextPositions.{len_utf8-pos}

len-fits : (o : Ordering) (c : Char) (r : String) → len (fits o c r) ≤ len_utf8 c + len r
len-fits Ordering.lt c r = omega (arith, len.cons c r)
len-fits Ordering.eq c r = omega (arith, len.cons c r)
len-fits Ordering.gt c r = omega (arith, len.nil)

slice-le : (s : String) (a b : ℕ) → len (slice s a b) ≤ len s
slice-le String.[] a b = omega (arith, ap len (slice.nil a b))
slice-le (String.◌∷◌ c s) zero b =
    let w = len_utf8 c in
    omega (
      arith,
      ap len (slice.cons-zero c s b),
      len-fits (compare w b) c (slice s zero (b - w)),
      slice-le s zero (b - w),
      len.cons c s,
    )
slice-le (String.◌∷◌ c s) (suc a) b =
    let w = len_utf8 c in
    omega (arith, ap len (slice.cons-suc c s a b), slice-le s (suc a - w) (b - w), len.cons c s)

-- From a position that is not the start, a text that is not empty gets shorter.
slice-lt :
    (c : Char) (s : String) (a b : ℕ)
    → 0 < a
    → len (slice (String.◌∷◌ c s) a b) < len (String.◌∷◌ c s)
slice-lt c s zero b h = absurd (omega (arith, h))
slice-lt c s (suc a) b h =
    let w = len_utf8 c in
    omega (
      arith,
      ap len (slice.cons-suc c s a b),
      slice-le s (suc a - w) (b - w),
      len.cons c s,
      (len_utf8-pos c).1,
    )

-- What one round leaves.
abbrev next : String → String → String
next prefix lower =
    let after = slice lower (find lower prefix + len prefix) (len lower) in
    slice after (len (host_of after) + 1) (len after)

next-lt :
    (d : Char) (t : String) (c : Char) (s : String)
    → len (next (String.◌∷◌ d t) (String.◌∷◌ c s)) < len (String.◌∷◌ c s)
next-lt d t c s =
    let prefix = String.◌∷◌ d t in
    let lower = String.◌∷◌ c s in
    let after = slice lower (find lower prefix + len prefix) (len lower) in
    omega (
      arith,
      slice-lt c s (find lower prefix + len prefix) (len lower)
          (omega (arith, len.cons d t, (len_utf8-pos d).1)),
      slice-le after (len (host_of after) + 1) (len after),
    )

-- Nothing stands in the empty text.
contains-empty : (d : Char) (t : String) → contains "" (String.◌∷◌ d t) ≡ false
contains-empty d t = ap (λ k. leb k 0) (find.nil (String.◌∷◌ d t))

-- For any prefix and text, two amounts of fuel above the length of the text give the same answer.
pub scan_urls-enough :
    (d : Char) (t : String) (f g : ℕ) (lower : String)
    → len lower < f
    → len lower < g
    → scan_urls (String.◌∷◌ d t) f lower ≡ scan_urls (String.◌∷◌ d t) g lower
unfolding scan_urls
scan_urls-enough d t zero g lower h k = absurd (omega (arith, h))
scan_urls-enough d t (suc f) zero lower h k = absurd (omega (arith, k))
scan_urls-enough d t (suc f) (suc g) String.[] h k = ground (arith, contains-empty d t)
scan_urls-enough d t (suc f) (suc g) (String.◌∷◌ c s) h k =
    let prefix = String.◌∷◌ d t in
    let lower = String.◌∷◌ c s in
    let shorter = next-lt d t c s in
    let host = host_of (slice lower (find lower prefix + len prefix) (len lower)) in
    ap
      (λ rest.
        if contains lower prefix then (if is_internal_host host then true else rest) else false)
      (scan_urls-enough d t f g (next prefix lower) (omega (arith, h, shorter))
        (omega (arith, k, shorter)))
