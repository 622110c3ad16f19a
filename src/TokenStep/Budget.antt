-- ===== src/TokenStep/Budget.antt =====
-- Limits and the work budget of preparation, after crates/greatgramma-core/src/token_step.rs and
-- limits.rs.
use greatgramma_rust.Base.{
  ◌≡◌, Bool-cases, inl, inr, ok_inj, ℕ, ◌+◌, ◌-◌, List, [], ◌∷◌, ◌++◌, length, Option, none, some,
  ltb, if◌then◌else◌, Outcome, ok, err, ◌>>=◌, checked_add, usize_max, Allocator,
}

pub data PreparationError : Type 0 where
  too_large : (required maximum : ℕ) → PreparationError
  allocation_failure : (requested : ℕ) → PreparationError
  invariant_violation : PreparationError

pub record PreparationLimits : Type 0 where
  pub max_items : ℕ
  pub max_work : ℕ

pub record WorkBudget : Type 0 where
  pub used : ℕ
  pub maximum : ℕ

abbrev pub Prepare : Type 0 → Type 0
Prepare A = Outcome PreparationError A

-- A required amount that overflowed is reported as `usize::MAX`.
unfoldable pub check_limit : Option ℕ → ℕ → Prepare ℕ
check_limit none maximum = err (too_large usize_max maximum)
check_limit (some required) maximum =
    if ltb maximum required then err (too_large required maximum) else ok required

unfoldable pub check_items : Option ℕ → PreparationLimits → Prepare ℕ
check_items required limits = check_limit required limits.max_items

-- `WorkBudget::new`, `WorkBudget::charge` and `WorkBudget::remaining`.
abbrev pub new_budget : PreparationLimits → WorkBudget
new_budget limits = record { used = 0; maximum = limits.max_work }

unfoldable pub charge : WorkBudget → ℕ → Prepare WorkBudget
unfolding checked_add
charge work amount = do
  used ← check_limit (checked_add work.used amount) work.maximum
  ok (record work { used = used })

unfoldable pub remaining : WorkBudget → ℕ
remaining work = work.maximum - work.used

-- The reservation of `prepared_vec`.
unfoldable pub prepared_vec : Allocator → ℕ → Prepare (Unit {0})
prepared_vec alloc capacity = if alloc capacity then ok tt else err (allocation_failure capacity)

-- The reservation and the push of `prepared_push`.
unfoldable pub prepared_push : {A : Type 0} → Allocator → List A → A → Prepare (List A)
prepared_push alloc values value =
    if alloc (length values + 1)
    then ok (values ++ value ∷ [])
    else err (allocation_failure (length values + 1))

pub prepared_push-eq-ok :
    {A : Type 0} (alloc : Allocator) (values : List A) (value : A) (pushed : List A)
    → prepared_push alloc values value ≡ ok pushed
    → values ++ value ∷ [] ≡ pushed
unfolding prepared_push
prepared_push-eq-ok alloc values value pushed h = elim (Bool-cases (alloc (length values + 1))) [
  | inl e ↦ ok_inj (rw e at h)
  | inr e ↦ absurd (cc (h, e))
]
