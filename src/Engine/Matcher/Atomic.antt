-- ===== src/Engine/Matcher/Atomic.antt =====
-- The batched advances of crates/greatgramma-core/src/engine.rs advance every row or none.
use greatgramma_rust.Base.{
  ℕ, suc, ◌<◌, ◌≡◌, refl, Bool, false, Option, none, some, List, [], length, get_elem?, set, subst,
  arith, ok, ok_or, map_err, ok_or-eq-ok, Ensures, Ensures-bind, Ensures-leaving, Ensures-map_err,
  for_range-Ensures, Allocator,
}
use greatgramma_rust.Normalized.{TokenId}
use greatgramma_rust.Engine.{
  MatcherPhase, running, MatcherStatus, empty_status, AdvanceResult, next_status_into,
}
use greatgramma_rust.Engine.Errors.{corrupt_prepared_data}
use greatgramma_rust.Engine.Matcher.{
  Matcher, StatusRows, rows_of, with_row_left, next_status_at, Staged, stage_batch_row, stage_batch,
  advance_batch, stage_active_status, stage_active_row, stage_active, advance_active,
}
use greatgramma_rust.Engine.Matcher.Staging.{
  Keeps, Staging, Staging-push, Stages, Written, IsAtomic, returned-IsAtomic,
  next_status_at-Ensures,
}

module _ (alloc : Allocator) (m : Matcher) where
  -- A row of `advance_batch`: its token leads from its status to the new one.
  abbrev pub BatchRow : List TokenId → ℕ → AdvanceResult → MatcherStatus → Type 0
  BatchRow tokens i result s' =
      (token : TokenId) × (status : MatcherStatus) × (get_elem? tokens i ≡ some token)
      × (get_elem? m.states i ≡ some status)
      × (next_status_into alloc m.prepared status token ≡ ok (result, s'))

  stage_batch_row-Staging :
      (tokens : List TokenId) (k : ℕ) (t : Staged AdvanceResult)
      → k < length m.staging
      → Staging (BatchRow tokens) (rows_of m) k t
      → Ensures
          (Staging (BatchRow tokens) (rows_of m) (suc k))
          (λ left. Keeps (rows_of m) left.1)
          (stage_batch_row alloc m.prepared tokens k t)
  unfolding stage_batch_row
  stage_batch_row-Staging tokens k (results, rows) lt (keeps, staged) =
      Ensures-leaving _ _ rows (ok_or (get_elem? tokens k) corrupt_prepared_data) _ (λ e. keeps)
        (λ token e₁.
          Ensures-leaving _ _ rows (ok_or (get_elem? rows.0 k) corrupt_prepared_data) _ (λ e. keeps)
            (λ status e₂.
              Ensures-bind _ _ _ (next_status_at alloc m.prepared status rows k token) _
                (next_status_at-Ensures alloc m.prepared (rows_of m) status rows k token keeps)
                (λ next (s', run, written).
                  Staging-push (BatchRow tokens) (rows_of m) k results rows next.1 next.0 s' lt
                    (
                      token,
                      status,
                      ok_or-eq-ok _ _ e₁,
                      subst (λ ss. get_elem? ss k ≡ some status) keeps.0 (ok_or-eq-ok _ _ e₂),
                      run,
                    )
                    (keeps, staged) written)))

  stage_batch-Stages :
      (tokens : List TokenId)
      → length m.staging ≡ length m.states
      → Stages (BatchRow tokens) (rows_of m) (stage_batch alloc m.prepared tokens (rows_of m))
  unfolding stage_batch
  stage_batch-Stages tokens l =
      for_range-Ensures (Staging (BatchRow tokens) (rows_of m)) (λ left. Keeps (rows_of m) left.1)
        (stage_batch_row alloc m.prepared tokens) (length m.states) ([], rows_of m)
        (λ k t lt. stage_batch_row-Staging tokens k t (omega arith))
        ((refl, refl), (refl, refl, λ i h. absurd (omega arith)))

  -- On a matcher with as many staging rows as rows, if `advance_batch` succeeds then every row has
  -- a result and a new status, those to which `next_status_into` leads from its status by its
  -- token, and if it fails, be it after some rows, then every row has the status that it had.
  pub advance_batch-IsAtomic :
      (tokens : List TokenId)
      → length m.staging ≡ length m.states
      → IsAtomic (BatchRow tokens) m (advance_batch alloc m tokens)
  unfolding advance_batch
  advance_batch-IsAtomic tokens l =
      returned-IsAtomic (BatchRow tokens) alloc m (length tokens)
        (stage_batch alloc m.prepared tokens (rows_of m)) l (stage_batch-Stages tokens l)

  -- A row of `advance_active`: a completed row needs no token, a running one needs one.
  abbrev pub ActiveStep :
      MatcherStatus → MatcherPhase → Option TokenId → Option AdvanceResult → MatcherStatus → Type 0
  ActiveStep status MatcherPhase.accepted none result s' = (result ≡ none) × (s' ≡ empty_status)
  ActiveStep status MatcherPhase.accepted (some token) result s' = ⊥
  ActiveStep status (running lexer) none result s' = ⊥
  ActiveStep status (running lexer) (some token) result s' =
      (r : AdvanceResult) × (result ≡ some r)
      × (next_status_into alloc m.prepared status token ≡ ok (r, s'))

  abbrev pub ActiveRow : List (Option TokenId) → ℕ → Option AdvanceResult → MatcherStatus → Type 0
  ActiveRow tokens i result s' =
      (token : Option TokenId) × (status : MatcherStatus) × (get_elem? tokens i ≡ some token)
      × (get_elem? m.states i ≡ some status)
      × ActiveStep status status.phase token result s'

  stage_active_status-ActiveStep :
      (report : Bool) (row : ℕ) (status : MatcherStatus) (rows : StatusRows) (phase : MatcherPhase)
      (token : Option TokenId)
      → Keeps (rows_of m) rows
      → Ensures
          (λ made.
            (s' : MatcherStatus) × ActiveStep status phase token made.0 s'
            × ((rows.0, set rows.1 row s') ≡ made.1))
          (λ left. Keeps (rows_of m) left.1)
          (stage_active_status alloc m.prepared report row status rows phase token)
  unfolding stage_active_status
  stage_active_status-ActiveStep report row status rows MatcherPhase.accepted none keeps =
      Ensures-leaving _ _ rows (ok_or (get_elem? rows.1 row) corrupt_prepared_data) _ (λ e. keeps)
        (λ d e. (empty_status, (refl, refl), refl))
  stage_active_status-ActiveStep report row status rows MatcherPhase.accepted (some token) keeps =
      keeps
  stage_active_status-ActiveStep report row status rows (running lexer) none keeps = keeps
  stage_active_status-ActiveStep report row status rows (running lexer) (some token) keeps =
      Ensures-bind (Written alloc m.prepared status rows row token) _ _
        (map_err (with_row_left alloc m.prepared report row)
          (next_status_at alloc m.prepared status rows row token))
        _
        (Ensures-map_err (Written alloc m.prepared status rows row token)
          (λ left. Keeps (rows_of m) left.1) (λ left. Keeps (rows_of m) left.1)
          (with_row_left alloc m.prepared report row)
          (next_status_at alloc m.prepared status rows row token) (λ left h. h)
          (next_status_at-Ensures alloc m.prepared (rows_of m) status rows row token keeps))
        (λ next (s', run, written). (s', (next.0, refl, run), written))

  stage_active_row-Staging :
      (report : Bool) (tokens : List (Option TokenId)) (k : ℕ) (t : Staged (Option AdvanceResult))
      → k < length m.staging
      → Staging (ActiveRow tokens) (rows_of m) k t
      → Ensures
          (Staging (ActiveRow tokens) (rows_of m) (suc k))
          (λ left. Keeps (rows_of m) left.1)
          (stage_active_row alloc m.prepared report tokens k t)
  unfolding stage_active_row
  stage_active_row-Staging report tokens k (results, rows) lt (keeps, staged) =
      Ensures-leaving _ _ rows (ok_or (get_elem? rows.0 k) corrupt_prepared_data) _ (λ e. keeps)
        (λ status e₁.
          Ensures-leaving _ _ rows (ok_or (get_elem? tokens k) corrupt_prepared_data) _ (λ e. keeps)
            (λ token e₂.
              Ensures-bind _ _ _
                (stage_active_status alloc m.prepared report k status rows status.phase token) _
                (stage_active_status-ActiveStep report k status rows status.phase token keeps)
                (λ next (s', step, written).
                  Staging-push (ActiveRow tokens) (rows_of m) k results rows next.1 next.0 s' lt
                    (
                      token,
                      status,
                      ok_or-eq-ok _ _ e₂,
                      subst (λ ss. get_elem? ss k ≡ some status) keeps.0 (ok_or-eq-ok _ _ e₁),
                      step,
                    )
                    (keeps, staged) written)))

  pub stage_active-Stages :
      (report : Bool) (tokens : List (Option TokenId))
      → length m.staging ≡ length m.states
      → Stages
          (ActiveRow tokens)
          (rows_of m)
          (stage_active alloc m.prepared report tokens (rows_of m))
  unfolding stage_active
  stage_active-Stages report tokens l =
      for_range-Ensures (Staging (ActiveRow tokens) (rows_of m)) (λ left. Keeps (rows_of m) left.1)
        (stage_active_row alloc m.prepared report tokens) (length m.states) ([], rows_of m)
        (λ k t lt. stage_active_row-Staging report tokens k t (omega arith))
        ((refl, refl), (refl, refl, λ i h. absurd (omega arith)))

  -- On a matcher with as many staging rows as rows, if `advance_active` succeeds then every
  -- completed row had no token and stays completed and every running row had one and has the
  -- result and the status to which `next_status_into` leads by it, and if it fails, be it after
  -- some rows, then every row has the status that it had.
  pub advance_active-IsAtomic :
      (tokens : List (Option TokenId))
      → length m.staging ≡ length m.states
      → IsAtomic (ActiveRow tokens) m (advance_active alloc m tokens)
  unfolding advance_active
  advance_active-IsAtomic tokens l =
      returned-IsAtomic (ActiveRow tokens) alloc m (length tokens)
        (stage_active alloc m.prepared false tokens (rows_of m)) l
        (stage_active-Stages false tokens l)
