-- ===== src/Engine/Matcher/Masks.antt =====
-- The masks of a matcher's rows, alone and after an advance, after
-- crates/greatgramma-core/src/engine.rs: a part of the caller's output is filled for each row, and an
-- error clears the whole output.
pub mod Closed
pub mod Exact
use greatgramma_rust.Base.{
  ℕ, ◌-◌, Bool, true, false, Option, none, some, List, ◌++◌, length, get_elem?, take, drop, ltb,
  if◌then◌else◌, ok, err, fault, ◌>>=◌, ◌>>◌, leaving, ok_or, map_err, for_range, Outcome,
  checked_add, checked_mul, Allocator,
}
use greatgramma_rust.Normalized.{TokenId}
use greatgramma_rust.Mask.{clear}
use greatgramma_rust.Engine.{PreparedGrammar, MatcherPhase, running, MatcherStatus, AdvanceResult}
use greatgramma_rust.Engine.Errors.{
  buffer_too_small, allocation_failure, corrupt_prepared_data, EngineError, Engine, Filling,
}
use greatgramma_rust.Engine.Masks.{fill_mask_with_scratch}
use greatgramma_rust.Engine.Matcher.{
  Matcher, StatusRows, rows_of, with_rows, state, check_size, stage_active,
}

-- The result of a method that writes into the caller's buffer: the buffer comes back either way.
abbrev pub Written : Type 0 → Type 0
Written A = Engine A × List ℕ

-- `if result.is_err() { mask::clear(output) }`.
abbrev pub or_clear : List ℕ → Filling (List ℕ) → Written (Unit {0})
or_clear output (ok filled) = (ok tt, filled)
or_clear output (err (e, left)) = (err e, clear left)
or_clear output (fault x) = (fault x, output)

-- `output.get_mut(start..end)`, and the output with that part replaced.
abbrev pub slice : List ℕ → ℕ → ℕ → Option (List ℕ)
slice output start end =
    if ltb (length output) end then none else some (take (end - start) (drop start output))

abbrev pub splice : List ℕ → ℕ → ℕ → List ℕ → List ℕ
splice output start end row = take start output ++ (row ++ drop end output)

abbrev pub splice_left : List ℕ → ℕ → ℕ → EngineError × List ℕ → EngineError × List ℕ
splice_left output start end (e, left) = (e, splice output start end left)

module _ (alloc : Allocator) (prepared : PreparedGrammar) where
  -- The part of the output that is a row's mask is filled for its status.
  unfoldable pub fill_row : MatcherStatus → ℕ → List ℕ → Filling (List ℕ)
  fill_row status row output =
      leaving output (ok_or (checked_mul row prepared.mask_bytes) corrupt_prepared_data)
      >>= λ start.
          leaving output (ok_or (checked_add start prepared.mask_bytes) corrupt_prepared_data)
          >>= λ end.
              leaving output (ok_or (slice output start end) corrupt_prepared_data) >>= λ part.
              map_err (splice_left output start end)
                (fill_mask_with_scratch alloc prepared status part)
              >>= λ filled. ok (splice output start end filled)

  unfoldable pub fill_mask_row : List MatcherStatus → ℕ → List ℕ → Filling (List ℕ)
  unfolding fill_row
  fill_mask_row states row output =
      leaving output (ok_or (get_elem? states row) corrupt_prepared_data) >>= λ status.
      fill_row status row output

  unfoldable pub fill_all_masks : List MatcherStatus → List ℕ → Filling (List ℕ)
  fill_all_masks states output = for_range (fill_mask_row states) (length states) 0 output

  abbrev pub fill_staged_status : MatcherStatus → MatcherPhase → ℕ → List ℕ → Filling (List ℕ)
  unfolding fill_row
  fill_staged_status status (running lexer) row output = fill_row status row output
  fill_staged_status status MatcherPhase.accepted row output = ok output

  unfoldable pub fill_staged_mask_row : List MatcherStatus → ℕ → List ℕ → Filling (List ℕ)
  unfolding fill_row
  fill_staged_mask_row staging row output =
      leaving output (ok_or (get_elem? staging row) corrupt_prepared_data) >>= λ status.
      fill_staged_status status status.phase row output

  unfoldable pub fill_staged_masks : List MatcherStatus → List ℕ → Filling (List ℕ)
  fill_staged_masks staging output =
      for_range (fill_staged_mask_row staging) (length staging) 0 output

module _ (alloc : Allocator) (m : Matcher) where
  unfoldable pub mask : ℕ → List ℕ → Written (Unit {0})
  unfolding state
  mask row output = or_clear (clear output) (
      leaving (clear output) (state m row) >>= λ status.
      fill_mask_with_scratch alloc m.prepared status (clear output))

  -- The length that the masks of all rows take.
  abbrev pub check_output : List ℕ → Engine (Unit {0})
  check_output output =
      ok_or (checked_mul (length m.states) m.prepared.mask_bytes) corrupt_prepared_data
      >>= λ required.
          if ltb (length output) required
          then err (buffer_too_small required (length output))
          else ok tt

  -- A check that fails returns at once.
  abbrev pub after_check : Engine (Unit {0}) → List ℕ → Written (Unit {0}) → Written (Unit {0})
  after_check (ok done) output next = next
  after_check (err e) output next = (err e, output)
  after_check (fault x) output next = (fault x, output)

  unfoldable pub masks : List ℕ → Written (Unit {0})
  unfolding fill_all_masks
  masks output =
      after_check (check_output (clear output)) (clear output)
        (or_clear (clear output) (fill_all_masks alloc m.prepared m.states (clear output)))

  -- The rows and the output that a step of `advance_active_and_masks_impl` leaves.
  abbrev pub Left : Type 0
  Left = StatusRows × List ℕ

  abbrev pub rows_left : List ℕ → EngineError × StatusRows → EngineError × Left
  rows_left output (e, rows) = (e, (rows, output))

  abbrev pub output_left : StatusRows → EngineError × List ℕ → EngineError × Left
  output_left rows (e, output) = (e, (rows, output))

  -- Every row is staged, then the mask of every staged row is filled.
  abbrev pub stage_and_fill :
      Bool
      → List (Option TokenId)
      → List ℕ
      → Outcome (EngineError × Left) (List (Option AdvanceResult) × Left)
  unfolding stage_active fill_staged_masks
  stage_and_fill report tokens output =
      map_err (rows_left output) (stage_active alloc m.prepared report tokens (rows_of m))
      >>= λ staged.
          map_err (output_left staged.1) (fill_staged_masks alloc m.prepared staged.1.1 output)
          >>= λ filled. ok (staged.0, (staged.1, filled))

  -- The `match staged`: states and staging change places, or the output is cleared.
  abbrev pub committed_masks :
      {A : Type 0} → List ℕ → Outcome (EngineError × Left) (A × Left) → Written A × Matcher
  committed_masks output (ok (results, ((states, staging), filled))) =
      ((ok results, filled), with_rows m (staging, states))
  committed_masks output (err (e, (rows, left))) = ((err e, clear left), with_rows m rows)
  committed_masks output (fault x) = ((fault x, output), m)

  abbrev pub checked_masks :
      {A : Type 0} → Engine (Unit {0}) → List ℕ → Written A × Matcher → Written A × Matcher
  checked_masks (ok done) output next = next
  checked_masks (err e) output next = ((err e, output), m)
  checked_masks (fault x) output next = ((fault x, output), m)

  unfoldable pub advance_active_and_masks_impl :
      Bool → List (Option TokenId) → List ℕ → Written (List (Option AdvanceResult)) × Matcher
  unfolding stage_and_fill
  advance_active_and_masks_impl report tokens output =
      checked_masks (check_size alloc m (length tokens) >> check_output (clear output))
        (clear output)
        (committed_masks (clear output) (stage_and_fill report tokens (clear output)))

  -- Without room for the results nothing is touched, not even the output.
  unfoldable pub advance_active_and_masks :
      List (Option TokenId) → List ℕ → Written (List (Option AdvanceResult)) × Matcher
  unfolding advance_active_and_masks_impl
  advance_active_and_masks tokens output =
      if alloc (length m.states)
      then advance_active_and_masks_impl false tokens output
      else ((err (allocation_failure (length m.states)), output), m)

  abbrev pub no_results : {A : Type 0} → Engine A → Engine (Unit {0})
  no_results (ok a) = ok tt
  no_results (err e) = err e
  no_results (fault x) = fault x

  unfoldable pub advance_active_and_masks_no_result :
      List (Option TokenId) → List ℕ → Written (Unit {0}) × Matcher
  unfolding advance_active_and_masks_impl
  advance_active_and_masks_no_result tokens output =
      let ((results, output'), m') = advance_active_and_masks_impl true tokens output in
      ((no_results results, output'), m')
