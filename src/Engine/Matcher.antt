-- ===== src/Engine/Matcher.antt =====
-- The matcher: rows of statuses, their masks and their advances, after
-- crates/greatgramma-core/src/engine.rs. The functions that write statuses pass the rows on, and an
-- error comes with the rows as they are then. Only what a token that fails leaves in its own row of
-- staging is not modelled: that row keeps what it had.
pub mod Agree
pub mod Atomic
pub mod Staging
pub mod Completed
pub mod Fresh
pub mod Masks
use greatgramma_rust.Base.{
  ℕ, zero, suc, ◌+◌, ◌-◌, Bool, true, false, Option, none, some, List, [], ◌∷◌, ◌++◌, length,
  get_elem?, set, take, drop, replicate, ltb, ◌==◌, if◌then◌else◌, Outcome, ok, err, fault, ◌>>=◌,
  ◌>>◌, leaving, ok_or, map_err, for_range, checked_add, checked_mul, Allocator,
}
use greatgramma_rust.Normalized.{TokenId}
use greatgramma_rust.Mask.{clear}
use greatgramma_rust.Engine.{
  PreparedGrammar, MatcherPhase, running, MatcherStatus, empty_status, AdvanceResult,
  initial_status, allows_status, next_status_into,
}
use greatgramma_rust.Engine.Errors.{
  EngineError, invalid_row, empty_batch, batch_size_mismatch, missing_running_token, completed,
  constraint_violation, batch_constraint_violation, buffer_too_small, allocation_failure,
  corrupt_prepared_data, Engine,
}

-- The scratch stack is not here: it is written before it is read.
pub record Matcher : Type 0 where
  pub prepared : PreparedGrammar
  pub states : List MatcherStatus
  pub staging : List MatcherStatus

-- The rows of a matcher: the statuses, and those of staging.
abbrev pub StatusRows : Type 0
StatusRows = List MatcherStatus × List MatcherStatus

-- A step that writes to the rows. An error comes with the rows as they are then.
abbrev pub Moving : Type 0 → Type 0
Moving A = Outcome (EngineError × StatusRows) (A × StatusRows)

-- The results so far and the rows, which the loops over rows pass on.
abbrev pub Staged : Type 0 → Type 0
Staged R = List R × StatusRows

-- `std::mem::swap` of states and staging after the rows are staged.
abbrev pub swap_all : {R : Type 0} → R × StatusRows → Moving R
swap_all (results, (states, staging)) = ok (results, (staging, states))

abbrev pub rows_of : Matcher → StatusRows
rows_of m = (m.states, m.staging)

abbrev pub with_rows : Matcher → StatusRows → Matcher
with_rows m rows = record m { states = rows.0; staging = rows.1 }

-- What a method that moves the rows returns, with the matcher that it leaves. A panic does not
-- return.
abbrev pub returned : {A : Type 0} → Matcher → Moving A → Engine A × Matcher
returned m (ok (result, rows)) = (ok result, with_rows m rows)
returned m (err (e, rows)) = (err e, with_rows m rows)
returned m (fault x) = (fault x, m)

unfoldable pub state : Matcher → ℕ → Engine MatcherStatus
state m row = ok_or (get_elem? m.states row) (invalid_row row (length m.states))

unfoldable pub row_count : Matcher → ℕ
row_count m = length m.states

abbrev is_accepted : MatcherPhase → Bool
is_accepted MatcherPhase.accepted = true
is_accepted (running lexer) = false

unfoldable pub is_completed : Matcher → ℕ → Engine Bool
unfolding state
is_completed m row = state m row >>= λ s. ok (is_accepted s.phase)

module _ (alloc : Allocator) where
  -- One status for each row, and as many to be written by the first advance.
  unfoldable pub initial_rows : PreparedGrammar → ℕ → Engine (List MatcherStatus)
  initial_rows prepared zero = ok []
  initial_rows prepared (suc rows) = initial_status alloc prepared >>= λ status.
      initial_rows prepared rows >>= λ statuses. ok (status ∷ statuses)

  unfoldable pub into_matcher : PreparedGrammar → ℕ → Engine Matcher
  into_matcher prepared rows =
      if rows == 0
      then err empty_batch
      else if alloc rows
      then (initial_rows prepared rows >>= λ states.
          ok (record {
            prepared = prepared;
            states = states;
            staging = replicate rows empty_status;
          }))
      else err (allocation_failure rows)

  module _ (prepared : PreparedGrammar) where
    -- `next_status_at`: the status goes to its row of staging.
    unfoldable pub next_status_at : MatcherStatus → StatusRows → ℕ → TokenId → Moving AdvanceResult
    next_status_at status rows row token =
        leaving rows (ok_or (get_elem? rows.1 row) corrupt_prepared_data) >>= λ destination.
        leaving rows (next_status_into alloc prepared status token) >>= λ next.
        ok (next.0, (rows.0, set rows.1 row next.1))

    -- `swap_status_at`: the statuses of a row in `states` and in `staging` change places.
    unfoldable pub swap_status_at : StatusRows → ℕ → Outcome (EngineError × StatusRows) StatusRows
    swap_status_at rows row =
        leaving rows (ok_or (get_elem? rows.0 row) corrupt_prepared_data) >>= λ status.
        leaving rows (ok_or (get_elem? rows.1 row) corrupt_prepared_data) >>= λ destination.
        ok (set rows.0 row destination, set rows.1 row status)

    unfoldable pub advance_row : ℕ → TokenId → StatusRows → Moving AdvanceResult
    unfolding next_status_at swap_status_at
    advance_row row token rows =
        leaving rows (ok_or (get_elem? rows.0 row) (invalid_row row (length rows.0))) >>= λ status.
        next_status_at status rows row token >>= λ next.
        swap_status_at next.1 row >>= λ swapped. ok (next.0, swapped)

    unfoldable pub stage_batch_row :
        List TokenId
        → ℕ
        → Staged AdvanceResult
        → Outcome (EngineError × StatusRows) (Staged AdvanceResult)
    unfolding next_status_at
    stage_batch_row tokens row (results, rows) =
        leaving rows (ok_or (get_elem? tokens row) corrupt_prepared_data) >>= λ token.
        leaving rows (ok_or (get_elem? rows.0 row) corrupt_prepared_data) >>= λ status.
        next_status_at status rows row token >>= λ next. ok (results ++ next.0 ∷ [], next.1)

    unfoldable pub stage_batch : List TokenId → StatusRows → Moving (List AdvanceResult)
    stage_batch tokens rows = for_range (stage_batch_row tokens) (length rows.0) 0 ([], rows)

    -- A token that no row may take is reported with its row if the caller asks for it.
    abbrev pub with_row : Bool → ℕ → EngineError → EngineError
    with_row true row (constraint_violation token) = batch_constraint_violation row token
    with_row report row e = e

    abbrev pub with_row_left : Bool → ℕ → EngineError × StatusRows → EngineError × StatusRows
    with_row_left report row (e, rows) = (with_row report row e, rows)

    abbrev pub stage_active_status :
        Bool
        → ℕ
        → MatcherStatus
        → StatusRows
        → MatcherPhase
        → Option TokenId
        → Moving (Option AdvanceResult)
    unfolding next_status_at
    stage_active_status report row status rows MatcherPhase.accepted none =
        leaving rows (ok_or (get_elem? rows.1 row) corrupt_prepared_data) >>= λ destination.
        ok (none, (rows.0, set rows.1 row empty_status))
    stage_active_status report row status rows MatcherPhase.accepted (some token) =
        err (completed, rows)
    stage_active_status report row status rows (running lexer) none =
        err (missing_running_token row, rows)
    stage_active_status report row status rows (running lexer) (some token) =
        map_err (with_row_left report row) (next_status_at status rows row token) >>= λ next.
        ok (some next.0, next.1)

    unfoldable pub stage_active_row :
        Bool
        → List (Option TokenId)
        → ℕ
        → Staged (Option AdvanceResult)
        → Outcome (EngineError × StatusRows) (Staged (Option AdvanceResult))
    unfolding next_status_at
    stage_active_row report tokens row (results, rows) =
        leaving rows (ok_or (get_elem? rows.0 row) corrupt_prepared_data) >>= λ status.
        leaving rows (ok_or (get_elem? tokens row) corrupt_prepared_data) >>= λ token.
        stage_active_status report row status rows status.phase token >>= λ next.
        ok (results ++ next.0 ∷ [], next.1)

    -- `stage_active_with_results`; without results it only drops them.
    unfoldable pub stage_active :
        Bool → List (Option TokenId) → StatusRows → Moving (List (Option AdvanceResult))
    stage_active report tokens rows =
        for_range (stage_active_row report tokens) (length rows.0) 0 ([], rows)

  module _ (m : Matcher) where
    unfoldable pub allows : ℕ → TokenId → Engine Bool
    unfolding state
    allows row token = state m row >>= λ s. allows_status alloc m.prepared s token

    unfoldable pub advance : ℕ → TokenId → Engine AdvanceResult × Matcher
    unfolding advance_row
    advance row token = returned m (advance_row m.prepared row token (rows_of m))

    abbrev pub check_size : ℕ → Engine (Unit {0})
    check_size actual =
        if actual == length m.states
        then ok tt
        else err (batch_size_mismatch (length m.states) actual)

    abbrev pub reserve_results : Engine (Unit {0})
    reserve_results =
        if alloc (length m.states) then ok tt else err (allocation_failure (length m.states))

    -- The size is checked and the results get room before any row is staged.
    abbrev pub admitted : {A : Type 0} → ℕ → Moving A → Moving A
    admitted actual next = leaving (rows_of m) (check_size actual >> reserve_results) >> next

    unfoldable pub advance_batch : List TokenId → Engine (List AdvanceResult) × Matcher
    unfolding stage_batch
    advance_batch tokens =
        returned m
          (admitted (length tokens) (stage_batch m.prepared tokens (rows_of m) >>= swap_all))

    unfoldable pub advance_active :
        List (Option TokenId) → Engine (List (Option AdvanceResult)) × Matcher
    unfolding stage_active
    advance_active tokens =
        returned m
          (admitted (length tokens) (stage_active m.prepared false tokens (rows_of m) >>= swap_all))
