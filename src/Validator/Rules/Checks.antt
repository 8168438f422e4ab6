-- ===== src/Validator/Rules/Checks.antt =====
-- Lists of reported errors of services/orchestrator/validator/validator.go that are empty.
use multi_agent_agent_hub.Prelude.{
  ◌≡◌, ◌≢◌, ◌↔◌, refl, String, Bool, true, false, not, List, [], ◌∷◌, ◌++◌, if◌then◌else◌, All,
}
use multi_agent_agent_hub.Validator.{TaskError, report, reports, each}

pub append-eq-nil {ℓ} : {A : Type ℓ} (xs ys : List A) → (xs ++ ys ≡ []) ↔ ((xs ≡ []) × (ys ≡ []))
append-eq-nil [] ys = (λ e. (refl, e), λ h. h.1)
append-eq-nil (x ∷ xs) ys = (λ e. cc, λ h. cc)

pub report-eq-nil {ℓ} : {A : Type ℓ} (b : Bool) (e : A) → (report b e ≡ []) ↔ (b ≡ false)
report-eq-nil true e = (λ h. cc, λ h. cc)
report-eq-nil false e = (λ h. refl, λ h. refl)

pub each-eq-nil :
    (fails : String → Bool) (error : String → TaskError) (items : List String)
    → (each fails error items ≡ []) ↔ All (λ s. fails s ≡ false) items
unfolding each
each-eq-nil fails error [] = (λ h. tt, λ h. refl)
each-eq-nil fails error (s ∷ items) =
    let split = append-eq-nil (report (fails s) (error s)) (each fails error items) in
    let here = report-eq-nil (fails s) (error s) in
    let rest = each-eq-nil fails error items in
    (λ h. (here.0 (split.0 h).0, rest.0 (split.0 h).1), λ h. split.1 (here.1 h.0, rest.1 h.1))

pub All-map {ℓ κ ι} :
    {A : Type ℓ} (P : A → Type κ) (Q : A → Type ι)
    → ((a : A) → P a → Q a)
    → (items : List A) → All P items
    → All Q items
All-map P Q f [] h = tt
All-map P Q f (a ∷ items) h = (f a h.0, All-map P Q f items h.1)

pub reports-eq-nil {ℓ} :
    {A : Type ℓ} (checks : List (Bool × A)) → (reports checks ≡ []) ↔ All (λ c. c.0 ≡ false) checks
unfolding reports
reports-eq-nil [] = (λ h. tt, λ h. refl)
reports-eq-nil ((b, e) ∷ checks) =
    let split = append-eq-nil (report b e) (reports checks) in
    let here = report-eq-nil b e in
    let rest = reports-eq-nil checks in
    (λ h. (here.0 (split.0 h).0, rest.0 (split.0 h).1), λ h. split.1 (here.1 h.0, rest.1 h.1))

pub not-eq-false : (b : Bool) → (not b ≡ false) ↔ (b ≡ true)
not-eq-false true = (λ h. refl, λ h. refl)
not-eq-false false = (λ h. cc, λ h. cc)

-- A list of texts that all pass gives no error.
pub each-All :
    (passes : String → Bool) (error : String → TaskError) (items : List String)
    → (each (λ s. not (passes s)) error items ≡ []) ↔ All (λ s. passes s ≡ true) items
each-All passes error items =
    let clear = each-eq-nil (λ s. not (passes s)) error items in
    (
      λ h. All-map _ (λ s. passes s ≡ true) (λ s. (not-eq-false (passes s)).0) items (clear.0 h),
      λ h. clear.1 (All-map (λ s. passes s ≡ true) _ (λ s. (not-eq-false (passes s)).1) items h),
    )

pub cons-ne-nil {ℓ} : {A : Type ℓ} {a : A} {rest : List A} → (a ∷ rest) ≢ []
cons-ne-nil h = cc

pub cons_if-nil {ℓ} :
    {A : Type ℓ} (b : Bool) (e : A) (rest : List A)
    → ((if b then e ∷ [] else rest) ≡ []) ↔ ((b ≡ false) × (rest ≡ []))
cons_if-nil true e rest = (λ h. absurd (cons-ne-nil h), λ h. cc)
cons_if-nil false e rest = (λ h. (refl, h), λ h. h.1)
