-- ===== src/Engine/Matcher/Staging.antt =====
-- What the loops over rows of crates/greatgramma-core/src/engine.rs stage: a result and a status for
-- each row, all of which take effect at once.
use greatgramma_rust.Base.{
  ℕ, suc, ◌<◌, ◌≡◌, ◌≢◌, refl, ap, ◌∙◌, Bool-cases, inl, inr, some, List, [], ◌∷◌, ◌++◌, length,
  length-append, length-set, get_elem?, get_elem?-append_left, get_elem?-append_end,
  get_elem?-set_self, get_elem?-set_ne, set, subst, ◌==◌, arith, ok, err, fault, ◌>>=◌, ok_or, ◌>>◌,
  Ensures, Ensures-bind, Ensures-leaving, Allocator,
}
use greatgramma_rust.Normalized.{TokenId}
use greatgramma_rust.Engine.{PreparedGrammar, MatcherStatus, AdvanceResult, next_status_into}
use greatgramma_rust.Engine.Errors.{EngineError, Engine, corrupt_prepared_data}
use greatgramma_rust.Engine.Matcher.{
  Matcher, StatusRows, Moving, rows_of, returned, next_status_at, Staged, swap_all, admitted,
  check_size, reserve_results,
}

-- The statuses are as they were, and staging has as many rows.
abbrev pub Keeps : StatusRows → StatusRows → Type 0
Keeps before rows = (rows.0 ≡ before.0) × (length rows.1 ≡ length before.1)

-- What the first rows of a batch have come to, each result with its status.
module _ {R : Type 0} (Row : ℕ → R → MatcherStatus → Type 0) where
  abbrev pub RowAt : List R → List MatcherStatus → ℕ → Type 0
  RowAt results states i =
      (r : R) × (s : MatcherStatus) × (get_elem? results i ≡ some r)
      × (get_elem? states i ≡ some s)
      × Row i r s

  abbrev pub Rows : ℕ → ℕ → List R × List MatcherStatus → Type 0
  Rows rows k (results, staging) =
      (length results ≡ k) × (length staging ≡ rows) × ((i : ℕ) → i < k → RowAt results staging i)

  RowAt-push :
      (results : List R) (staging : List MatcherStatus) (k i : ℕ) (r : R) (s : MatcherStatus)
      → length results ≡ k
      → k < length staging
      → Row k r s
      → ((j : ℕ) → j < k → RowAt results staging j)
      → i < suc k
      → RowAt (results ++ r ∷ []) (set staging k s) i
  RowAt-push results staging k i r s len lt row before h = elim (Bool-cases (i == k)) [
    | inl e ↦
        let same : k ≡ i = ground arith in
        subst (RowAt (results ++ r ∷ []) (set staging k s)) same (
          r,
          s,
          subst (λ n. get_elem? (results ++ r ∷ []) n ≡ some r) len
              (get_elem?-append_end results r),
          get_elem?-set_self staging k s lt,
          row,
        )
    | inr e ↦
        let other : k ≢ i = ground arith in
        let (r', s', found, at, row') = before i (ground arith) in
        (
          r',
          s',
          get_elem?-append_left results (r ∷ []) i (ground arith) ∙ found,
          get_elem?-set_ne staging k i s other ∙ at,
          row',
        )
  ]

  pub Rows-push :
      (rows k : ℕ) (staged : List R × List MatcherStatus) (r : R) (s : MatcherStatus)
      → k < rows
      → Row k r s
      → Rows rows k staged
      → Rows rows (suc k) (staged.0 ++ r ∷ [], set staged.1 k s)
  Rows-push rows k (results, staging) r s lt row (len, width, before) = (
    length-append results (r ∷ []) ∙ ground arith,
    length-set staging k s ∙ width,
    λ i h. RowAt-push results staging k i r s len (ground arith) row before h,
  )

  -- A batch that succeeds has a result and a new status for each row; one that fails has written
  -- to staging at most.
  abbrev pub IsAtomic : Matcher → Engine (List R) × Matcher → Type 0
  IsAtomic m (ok results, m') =
      (length results ≡ length m.states)
      × (length m'.states ≡ length m.states)
      × (length m'.staging ≡ length m.states)
      × (m'.prepared ≡ m.prepared)
      × ((i : ℕ) → i < length m.states → RowAt results m'.states i)
  IsAtomic m (err e, m') =
      (m'.states ≡ m.states) × (length m'.staging ≡ length m.staging) × (m'.prepared ≡ m.prepared)
  IsAtomic m (fault x, m') = Unit

  -- What the loops over rows keep, and what they have staged.
  abbrev pub Staging : StatusRows → ℕ → Staged R → Type 0
  Staging before k (results, rows) = Keeps before rows × Rows (length before.1) k (results, rows.1)

  -- Staging the rows keeps the statuses, whether it succeeds or not.
  abbrev pub Stages : StatusRows → Moving (List R) → Type 0
  Stages before o = Ensures (Staging before (length before.0)) (λ left. Keeps before left.1) o

  abbrev Swapped : Matcher → List R × StatusRows → Type 0
  Swapped m (results, (states, staging)) =
      (length results ≡ length m.states)
      × (length states ≡ length m.states)
      × (length staging ≡ length m.states)
      × ((i : ℕ) → i < length m.states → RowAt results states i)

  abbrev FailsKeeping : Matcher → EngineError × StatusRows → Type 0
  FailsKeeping m left = Keeps (rows_of m) left.1

  returned_of :
      (m : Matcher) (o : Moving (List R))
      → Ensures (Swapped m) (FailsKeeping m) o
      → IsAtomic m (returned m o)
  returned_of m (ok (results, (states, staging))) (len, wide, width, at) =
      (len, wide, width, refl, at)
  returned_of m (err (e, (states, staging))) (same, width) = (same, width, refl)
  returned_of m (fault x) h = tt

  pub returned-IsAtomic :
      (alloc : Allocator) (m : Matcher) (actual : ℕ) (stage : Moving (List R))
      → length m.staging ≡ length m.states
      → Stages (rows_of m) stage
      → IsAtomic m (returned m (admitted alloc m actual (stage >>= swap_all)))
  returned-IsAtomic alloc m actual stage l stages = returned_of m _ (
      Ensures-leaving (Swapped m) (FailsKeeping m) (rows_of m)
        (check_size alloc m actual >> reserve_results alloc m) _ (λ e. (refl, refl))
        (λ u e.
          Ensures-bind (Staging (rows_of m) (length m.states)) (Swapped m) (FailsKeeping m) stage
            swap_all stages
            (λ (results, (states, staging)) ((same, width), (len, wide, at)).
              (len, wide ∙ l, ap length same, at))))

module _ (alloc : Allocator) (prepared : PreparedGrammar) where
  -- The status to which a token leads, in its row of staging.
  abbrev pub Written :
      MatcherStatus → StatusRows → ℕ → TokenId → AdvanceResult × StatusRows → Type 0
  Written status rows row token made =
      (s' : MatcherStatus) × (next_status_into alloc prepared status token ≡ ok (made.0, s'))
      × ((rows.0, set rows.1 row s') ≡ made.1)

  -- The next status is written to its row of staging, and nothing else is.
  pub next_status_at-Ensures :
      (before : StatusRows) (status : MatcherStatus) (rows : StatusRows) (row : ℕ) (token : TokenId)
      → Keeps before rows
      → Ensures
          (Written status rows row token)
          (λ left. Keeps before left.1)
          (next_status_at alloc prepared status rows row token)
  unfolding next_status_at
  next_status_at-Ensures before status rows row token keeps =
      Ensures-leaving _ _ rows (ok_or (get_elem? rows.1 row) corrupt_prepared_data) _ (λ e. keeps)
        (λ d at.
          Ensures-leaving _ _ rows (next_status_into alloc prepared status token) _ (λ e. keeps)
            (λ next run. (next.1, run, refl)))

-- A step that stages one more row.
pub Staging-push :
    {R : Type 0} (Row : ℕ → R → MatcherStatus → Type 0) (before : StatusRows) (k : ℕ)
    (results : List R) (rows rows' : StatusRows) (r : R) (s : MatcherStatus)
    → k < length before.1
    → Row k r s
    → Staging Row before k (results, rows)
    → (rows.0, set rows.1 k s) ≡ rows'
    → Staging Row before (suc k) (results ++ r ∷ [], rows')
Staging-push Row before k results rows rows' r s lt row (keeps, staged) written =
    subst (λ rs. Staging Row before (suc k) (results ++ r ∷ [], rs)) written
      (
        (keeps.0, length-set rows.1 k s ∙ keeps.1),
        Rows-push Row (length before.1) k (results, rows.1) r s lt row staged,
      )
