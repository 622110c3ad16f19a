-- ===== src/Engine/Matcher/Masks/Closed.antt =====
-- The mask operations of crates/greatgramma-core/src/engine.rs fail closed: on an error the output
-- is cleared, whatever was written into it, and the rows keep their statuses. With and without
-- masks, an advance comes to the same.
use greatgramma_rust.Base.{
  ℕ, Bool, true, false, ◌≡◌, refl, ap, ◌∙◌, inl, inr, Bool-cases, List, Option, length, ◌==◌, ok,
  err, fault, ◌>>=◌, map_err, map_err-eq-ok, Outcome, Ensures, Ensures-bind, Ensures-map_err,
  >>=-eq-ok, ok_inj, Allocator,
}
use greatgramma_rust.Normalized.{TokenId}
use greatgramma_rust.Mask.{clear, is_set}
use greatgramma_rust.Mask.Bits.{is_set-clear}
use greatgramma_rust.Engine.{AdvanceResult}
use greatgramma_rust.Engine.Errors.{EngineError, Engine, Filling}
use greatgramma_rust.Engine.Matcher.{
  Matcher, StatusRows, rows_of, with_rows, check_size, stage_active, advance_active,
}
use greatgramma_rust.Engine.Matcher.Staging.{Keeps, Staging}
use greatgramma_rust.Engine.Matcher.Atomic.{ActiveRow, stage_active-Stages}
use greatgramma_rust.Engine.Matcher.Masks.{
  Written, or_clear, mask, masks, check_output, fill_all_masks, after_check, fill_staged_masks,
  rows_left, output_left, stage_and_fill, committed_masks, checked_masks, no_results,
  advance_active_and_masks_impl, advance_active_and_masks, advance_active_and_masks_no_result,
}

-- An error comes with a mask that allows no token.
abbrev pub FailsClosed : {A : Type 0} → Written A → Type 0
FailsClosed (ok a, output) = Unit
FailsClosed (err e, output) = (token : TokenId) → is_set output token ≡ false
FailsClosed (fault x, output) = Unit

or_clear-FailsClosed : (output : List ℕ) (o : Filling (List ℕ)) → FailsClosed (or_clear output o)
or_clear-FailsClosed output (ok filled) = tt
or_clear-FailsClosed output (err (e, left)) = is_set-clear left
or_clear-FailsClosed output (fault x) = tt

module _ (alloc : Allocator) (m : Matcher) where
  after_check-FailsClosed :
      (check : Engine (Unit {0})) (output : List ℕ) (next : Written (Unit {0}))
      → FailsClosed next
      → FailsClosed (after_check alloc m check (clear output) next)
  after_check-FailsClosed (ok done) output next h = h
  after_check-FailsClosed (err e) output next h = is_set-clear output
  after_check-FailsClosed (fault x) output next h = tt

  -- Whatever the output held before and whatever was written into it before the error, if `mask`
  -- fails then the output allows no token, and if `masks` fails then it allows no token in any row.
  pub mask-FailsClosed :
      (row : ℕ) (output : List ℕ)
      → FailsClosed (mask alloc m row output) × FailsClosed (masks alloc m output)
  unfolding mask masks
  mask-FailsClosed row output = (
    or_clear-FailsClosed (clear output) _,
    after_check-FailsClosed (check_output alloc m (clear output)) output
        (or_clear (clear output) (fill_all_masks alloc m.prepared m.states (clear output)))
        (or_clear-FailsClosed (clear output) _),
  )

  -- An error also comes with the statuses as they were.
  abbrev pub LeavesRows : {A : Type 0} → Written A × Matcher → Type 0
  LeavesRows ((ok a, output), m') = Unit
  LeavesRows ((err e, output), m') =
      ((token : TokenId) → is_set output token ≡ false)
      × (m'.states ≡ m.states)
      × (length m'.staging ≡ length m.staging)
      × (m'.prepared ≡ m.prepared)
  LeavesRows ((fault x, output), m') = Unit

  abbrev KeepsRows : EngineError × (StatusRows × List ℕ) → Type 0
  KeepsRows left = Keeps (rows_of m) left.1.0

  abbrev Filled : Type 0
  Filled = List (Option AdvanceResult) × (StatusRows × List ℕ)

  fill-KeepsRows :
      (results : List (Option AdvanceResult)) (rows : StatusRows) (o : Filling (List ℕ))
      → Keeps (rows_of m) rows
      → Ensures {A = Filled}
          (λ made. Unit)
          KeepsRows
          (map_err (output_left alloc m rows) o >>= λ filled. ok (results, (rows, filled)))
  fill-KeepsRows results rows (ok filled) keeps = tt
  fill-KeepsRows results rows (err (e, left)) keeps = keeps
  fill-KeepsRows results rows (fault x) keeps = tt

  stage_and_fill-KeepsRows :
      (report : Bool) (tokens : List (Option TokenId)) (output : List ℕ)
      → length m.staging ≡ length m.states
      → Ensures (λ made. Unit) KeepsRows (stage_and_fill alloc m report tokens output)
  unfolding stage_and_fill
  stage_and_fill-KeepsRows report tokens output l =
      let Row = ActiveRow alloc m tokens in
      let stage = stage_active alloc m.prepared report tokens (rows_of m) in
      let Staged_all = Staging Row (rows_of m) (length m.states) in
      Ensures-bind Staged_all (λ made. Unit) KeepsRows (map_err (rows_left alloc m output) stage) _
        (Ensures-map_err Staged_all (λ left. Keeps (rows_of m) left.1) KeepsRows
          (rows_left alloc m output) stage (λ left h. h)
          (stage_active-Stages alloc m report tokens l))
        (λ (results, rows) (keeps, staged). fill-KeepsRows results rows _ keeps)

  committed_masks-LeavesRows :
      {A : Type 0} (output : List ℕ)
      (o : Outcome (EngineError × (StatusRows × List ℕ)) (A × (StatusRows × List ℕ)))
      → Ensures (λ made. Unit) KeepsRows o
      → LeavesRows (committed_masks alloc m output o)
  committed_masks-LeavesRows output (ok (a, ((states, staging), filled))) h = tt
  committed_masks-LeavesRows output (err (e, ((states, staging), left))) (same, width) =
      (is_set-clear left, same, width, refl)
  committed_masks-LeavesRows output (fault x) h = tt

  checked_masks-LeavesRows :
      {A : Type 0} (check : Engine (Unit {0})) (output : List ℕ) (next : Written A × Matcher)
      → LeavesRows next
      → LeavesRows (checked_masks alloc m check (clear output) next)
  checked_masks-LeavesRows (ok done) output next h = h
  checked_masks-LeavesRows (err e) output next h = (is_set-clear output, refl, refl, refl)
  checked_masks-LeavesRows (fault x) output next h = tt

  no_results-LeavesRows :
      {A : Type 0} (o : Engine A) (output : List ℕ) (m' : Matcher)
      → LeavesRows ((o, output), m')
      → LeavesRows ((no_results alloc m o, output), m')
  no_results-LeavesRows (ok a) output m' h = tt
  no_results-LeavesRows (err e) output m' h = h
  no_results-LeavesRows (fault x) output m' h = tt

  -- On a matcher with as many staging rows as rows, if `advance_active_and_masks_no_result` fails,
  -- be it in the advance of some row or in the mask of a row already advanced, then no token is
  -- allowed and every row has the status that it had.
  pub no_result-LeavesRows :
      (tokens : List (Option TokenId)) (output : List ℕ)
      → length m.staging ≡ length m.states
      → LeavesRows (advance_active_and_masks_no_result alloc m tokens output)
  unfolding advance_active_and_masks_no_result advance_active_and_masks_impl
  no_result-LeavesRows tokens output l = no_results-LeavesRows _ _ _ (
      checked_masks-LeavesRows _ output _ (
        committed_masks-LeavesRows (clear output) _
          (stage_and_fill-KeepsRows true tokens (clear output) l)))

  committed-masks_ok :
      {A : Type 0} (output output' : List ℕ)
      (o : Outcome (EngineError × (StatusRows × List ℕ)) (A × (StatusRows × List ℕ))) (a : A)
      (m' : Matcher)
      → committed_masks alloc m output o ≡ ((ok a, output'), m')
      → (rows : StatusRows) × (o ≡ ok (a, (rows, output'))) × (with_rows m (rows.1, rows.0) ≡ m')
  committed-masks_ok output output' (ok (b, ((states, staging), filled))) a m' h =
      ((states, staging), cc h, ap (λ r. r.1) h)
  committed-masks_ok output output' (err (e, (rows, left))) a m' h = absurd (cc h)
  committed-masks_ok output output' (fault x) a m' h = absurd (cc h)

  checked_masks-eq-ok :
      {A : Type 0} (check : Engine (Unit {0})) (output : List ℕ) (next : Written A × Matcher)
      {a : A} {output' : List ℕ} {m' : Matcher}
      → checked_masks alloc m check output next ≡ ((ok a, output'), m')
      → (check ≡ ok tt) × (next ≡ ((ok a, output'), m'))
  checked_masks-eq-ok (ok done) output next h = (refl, h)
  checked_masks-eq-ok (err e) output next h = absurd (cc h)
  checked_masks-eq-ok (fault x) output next h = absurd (cc h)

  check_size-eq-ok :
      (actual : ℕ) (size : Bool)
      → (actual == length m.states) ≡ size
      → check_size alloc m actual ≡ ok tt
      → (actual == length m.states) ≡ true
  check_size-eq-ok actual true e h = e
  check_size-eq-ok actual false e h = absurd (cc (h, e))

  advance_active_of :
      (tokens : List (Option TokenId)) (staged : List (Option AdvanceResult) × StatusRows)
      → (length tokens == length m.states) ≡ true
      → alloc (length m.states) ≡ true
      → stage_active alloc m.prepared false tokens (rows_of m) ≡ ok staged
      → advance_active alloc m tokens ≡ (ok staged.0, with_rows m (staged.1.1, staged.1.0))
  unfolding advance_active
  advance_active_of tokens (results, (states, staging)) size room e = rw (size, room, e) refl

  impl-advance_active :
      (tokens : List (Option TokenId)) (output output' : List ℕ)
      (results : List (Option AdvanceResult)) (m' : Matcher)
      → alloc (length m.states) ≡ true
      → advance_active_and_masks_impl alloc m false tokens output ≡ ((ok results, output'), m')
      → advance_active alloc m tokens ≡ (ok results, m')
  unfolding advance_active_and_masks_impl stage_and_fill
  impl-advance_active tokens output output' results m' room h =
      let cleared = clear output in
      let (checks, h₁) = checked_masks-eq-ok _ cleared _ h in
      let (rows, e, same) = committed-masks_ok cleared output' _ results m' h₁ in
      let (u, e₁, e₂) = >>=-eq-ok (check_size alloc m (length tokens)) _ checks in
      let stage = stage_active alloc m.prepared false tokens (rows_of m) in
      let (staged, e₃, e₄) = >>=-eq-ok (map_err (rows_left alloc m cleared) stage) _ e in
      let (filled, e₅, e₆) =
        >>=-eq-ok
          (map_err (output_left alloc m staged.1)
            (fill_staged_masks alloc m.prepared staged.1.1 cleared))
          _ e₄ in
      let same_results : staged.0 ≡ results = ap (λ r. r.0) (ok_inj e₆) in
      let same_rows : staged.1 ≡ rows = ap (λ r. r.1.0) (ok_inj e₆) in
      advance_active_of tokens staged (check_size-eq-ok (length tokens) _ refl e₁) room
        (map_err-eq-ok (rows_left alloc m cleared) stage e₃)
      ∙ ap (λ r. (ok r, with_rows m (staged.1.1, staged.1.0))) same_results
      ∙ ap (λ rs. (ok results, with_rows m (rs.1, rs.0))) same_rows
      ∙ ap (λ n. (ok results, n)) same

  -- If `advance_active_and_masks` succeeds, then `advance_active` alone succeeds on the same
  -- tokens, with the same results and the same matcher after it.
  pub advance_active_and_masks-advance_active :
      (tokens : List (Option TokenId)) (output output' : List ℕ)
      (results : List (Option AdvanceResult)) (m' : Matcher)
      → advance_active_and_masks alloc m tokens output ≡ ((ok results, output'), m')
      → advance_active alloc m tokens ≡ (ok results, m')
  unfolding advance_active_and_masks
  advance_active_and_masks-advance_active tokens output output' results m' h =
      elim (Bool-cases (alloc (length m.states))) [
        | inl e ↦ impl-advance_active tokens output output' results m' e (rw e at h)
        | inr e ↦ absurd (cc (h, e))
      ]
