-- ===== src/Gateway/Projection/Pages.antt =====
-- The pages that RecoverRun of services/gateway/projection/worker.go reads: together they are the journal
-- after the offset.
use multi_agent_agent_hub.Prelude.{
  ℕ, zero, suc, ◌<◌, ◌≤◌, String, Bool, true, false, some, List, [], ◌∷◌, ◌++◌, ◌≡◌, refl, sym, ap,
  ◌∙◌, subst, inl, inr, length, take, drop, filter, filter-keeps, filter-skips, length-take,
  length-drop, append-take-drop, arith, Bool-cases, ltb, ltb→lt,
}
use multi_agent_agent_hub.Gateway.Store.{Position}
use multi_agent_agent_hub.Gateway.Projection.{
  PublicEvent, Worker, position_of, later, list_public_events_after, Read, events, last_position,
  read_pages, next_page, with_page,
}

pub later_trans : (a b c : Position) → later a b ≡ true → later b c ≡ true → later a c ≡ true
unfolding later
later_trans (a, i) (b, j) (c, k) h g = ground arith

later_self : (a : Position) → later a a ≡ false
unfolding later
later_self (a, i) = ground arith

-- Each event is after the one before it, and the first after the given position.
unfoldable pub Journal : Position → List PublicEvent → Type 0
Journal at [] = Unit
Journal at (event ∷ rest) = (later at (position_of event) ≡ true) × Journal (position_of event) rest

abbrev pub after : Position → List PublicEvent → List PublicEvent
after at journal = filter (λ event. later at (position_of event)) journal

Journal-weaken :
    (a b : Position) (xs : List PublicEvent) → later a b ≡ true → Journal b xs → Journal a xs
unfolding Journal
Journal-weaken a b [] h j = tt
Journal-weaken a b (x ∷ xs) h (first, rest) = (later_trans a b (position_of x) h first, rest)

Journal-filter :
    (p : PublicEvent → Bool) (a : Position) (xs : List PublicEvent)
    → Journal a xs
    → Journal a (filter p xs)
unfolding Journal
Journal-filter p a [] j = tt
Journal-filter p a (x ∷ xs) (first, rest) =
    let later_ones = Journal-filter p (position_of x) xs rest in
    elim (Bool-cases (p x)) [
      | inl keep ↦ subst (Journal a) (sym (filter-keeps p x xs keep)) (first, later_ones)
      | inr skip ↦
          subst (Journal a) (sym (filter-skips p x xs skip))
            (Journal-weaken a (position_of x) (filter p xs) first later_ones)
    ]

-- The events after a position, from a journal that may start before it.
Journal-after : (a at : Position) (xs : List PublicEvent) → Journal a xs → Journal at (after at xs)
unfolding Journal
Journal-after a at [] j = tt
Journal-after a at (x ∷ xs) (first, rest) = elim (Bool-cases (later at (position_of x))) [
  | inl keep ↦
      subst (Journal at) (sym (filter-keeps _ x xs keep))
        (keep, Journal-filter (λ event. later at (position_of event)) (position_of x) xs rest)
  | inr skip ↦
      subst (Journal at) (sym (filter-skips _ x xs skip)) (Journal-after (position_of x) at xs rest)
]

after-Journal : (a : Position) (xs : List PublicEvent) → Journal a xs → after a xs ≡ xs
unfolding Journal
after-Journal a [] j = refl
after-Journal a (x ∷ xs) (first, rest) =
    filter-keeps _ x xs first
    ∙ ap (λ l. x ∷ l) (after-Journal a xs (Journal-weaken a (position_of x) xs first rest))

-- The last position of a page is not before its first.
last_position-later :
    (n : ℕ) (a b : Position) (xs : List PublicEvent)
    → Journal a xs
    → later b a ≡ true
    → later b (last_position a (take n xs)) ≡ true
unfolding Journal
last_position-later zero a b xs j h = h
last_position-later (suc n) a b [] j h = h
last_position-later (suc n) a b (x ∷ xs) (first, rest) h =
    last_position-later n (position_of x) b xs rest (later_trans b a (position_of x) h first)

later_asym : (a b : Position) → later a b ≡ true → later b a ≡ false
unfolding later
later_asym (a, i) (b, j) h = ground arith

last_position-first :
    (n : ℕ) (a : Position) (xs : List PublicEvent)
    → Journal a xs
    → later (last_position a (take n xs)) a ≡ false
unfolding Journal
last_position-first zero a xs j = later_self a
last_position-first (suc n) a [] j = later_self a
last_position-first (suc n) a (x ∷ xs) (first, rest) =
    later_asym a _ (last_position-later n (position_of x) a xs rest first)

-- The next page starts where this one ends.
after-last_position :
    (n : ℕ) (a : Position) (xs : List PublicEvent)
    → Journal a xs
    → after (last_position a (take n xs)) xs ≡ drop n xs
unfolding Journal
after-last_position zero a xs j = after-Journal a xs j
after-last_position (suc n) a [] j = refl
after-last_position (suc n) a (x ∷ xs) (first, rest) =
    filter-skips _ x xs (last_position-first n (position_of x) xs rest)
    ∙ (after-last_position n (position_of x) xs rest)

after-after :
    (a b : Position) (xs : List PublicEvent)
    → ((c : Position) → later b c ≡ true → later a c ≡ true)
    → after b (after a xs) ≡ after b xs
after-after a b [] h = refl
after-after a b (x ∷ xs) h =
    let rest = after-after a b xs h in
    elim (Bool-cases (later a (position_of x))) [
      | inl keep ↦
          ap (after b) (filter-keeps _ x (xs) keep) ∙ elim (Bool-cases (later b (position_of x))) [
            | inl both ↦
                filter-keeps _ x (after a xs) both
                ∙ ap (λ l. x ∷ l) rest
                ∙ sym (filter-keeps _ x xs both)
            | inr first ↦
                filter-skips _ x (after a xs) first ∙ rest ∙ sym (filter-skips _ x xs first)
          ]
      | inr skip ↦
          ap (after b) (filter-skips _ x xs skip)
          ∙ rest
          ∙ sym (
              filter-skips (λ event. later b (position_of event)) x xs
                (elim (Bool-cases (later b (position_of x))) [
                  | inl beyond ↦ ground (arith, h (position_of x) beyond, skip)
                  | inr before ↦ before
                ]))
    ]

later-le : (a b c : Position) → later b a ≡ false → later b c ≡ true → later a c ≡ true
unfolding later
later-le (a, i) (b, j) (c, k) h g = ground arith

-- What is left after a page.
after-page :
    (start at : Position) (n : ℕ) (journal : List PublicEvent)
    → Journal start journal
    → after (last_position at (take n (after at journal))) journal ≡ drop n (after at journal)
after-page start at n journal j =
    let left = after at journal in
    let next = last_position at (take n left) in
    let sorted = Journal-after start at journal j in
    sym
      (after-after at next journal (λ c. later-le at next c (last_position-first n at left sorted)))
    ∙ after-last_position n at left sorted

take-all {ℓ} : {A : Type ℓ} (n : ℕ) (xs : List A) → length xs < n → take n xs ≡ xs
take-all zero xs h = ground arith
take-all (suc n) [] h = refl
take-all (suc n) (x ∷ xs) h = ap (λ l. x ∷ l) (take-all n xs (omega arith))

last_page :
    (n : ℕ) (xs : List PublicEvent) (rest : Read) → length xs < n → next_page n xs rest ≡ events xs
last_page n [] rest h = refl
last_page n (x ∷ xs) rest h = ground arith

full_page :
    (n : ℕ) (page more : List PublicEvent)
    → 1 ≤ n
    → length page ≡ n
    → next_page n page (events more) ≡ events (page ++ more)
full_page n page more h g = ground arith

next_page-take :
    (n : ℕ) (xs : List PublicEvent) (rest : Read)
    → 1 ≤ n
    → (n ≤ length xs → rest ≡ events (drop n xs))
    → next_page n (take n xs) rest ≡ events xs
next_page-take n xs rest h more = elim (Bool-cases (ltb (length xs) n)) [
  | inl last ↦
      subst (λ page. next_page n page rest ≡ events xs) (sym (take-all n xs (ltb→lt _ n last)))
        (last_page n xs rest (ltb→lt _ n last))
  | inr full ↦
      let le : n ≤ length xs = ground arith in
      ap (next_page n (take n xs)) (more le)
      ∙ full_page n (take n xs) (drop n xs) h (omega (arith, length-take n xs))
      ∙ ap events (append-take-drop n xs)
]

list_public_events_after-take :
    (journal : List PublicEvent) (at : Position) (n : ℕ)
    → 1 ≤ n
    → n ≤ 1000
    → list_public_events_after journal at n ≡ take n (after at journal)
unfolding list_public_events_after
list_public_events_after-take journal at n h g = ap (λ k. take k (after at journal)) (ground arith)

-- With more fuel than there are events after the offset, the loop reads exactly those.
pub read_pages-enough :
    (w : Worker) (run_id : String) (start : Position) (journal : List PublicEvent)
    → 1 ≤ w.page_size
    → w.page_size ≤ 1000
    → Journal start journal
    → ((at : Position)
        → w.list_page run_id at w.page_size
          ≡ some (list_public_events_after journal at w.page_size))
    → (fuel : ℕ) (at : Position) → length (after at journal) < fuel
    → read_pages w run_id fuel at ≡ events (after at journal)
unfolding read_pages
read_pages-enough w run_id start journal h g sorted reads zero at enough = ground arith
read_pages-enough w run_id start journal h g sorted reads (suc fuel) at enough =
    let n = w.page_size in
    let left = after at journal in
    let rest = read_pages w run_id fuel in
    ap (λ o. with_page o (λ page. next_page n page (rest (last_position at page))))
      (reads at ∙ ap some (list_public_events_after-take journal at n h g))
    ∙ next_page-take n left (rest (last_position at (take n left))) h (λ le.
      let next = after-page start at n journal sorted in
      let short : length (drop n left) < fuel = omega (arith, length-drop n left, le, h) in
      read_pages-enough w run_id start journal h g sorted reads fuel _
        (subst (λ l. length l < fuel) (sym next) short)
      ∙ ap events next)
