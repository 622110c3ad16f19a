-- ===== src/Sequence/Facts.antt =====
-- The fixpoint of singleton facts, after crates/greatgramma-core/src/sequence.rs: a fact says that
-- a terminal may be the next one that the lexer emits from a source.
pub mod Counted
pub mod Ends
pub mod Places
pub mod Known
pub mod Closed
pub mod Predecessors
pub mod Covered
pub mod Next
pub mod Scanned
pub mod Singletons
pub mod Complete
use greatgramma_rust.Base.{
  ℕ, zero, suc, Bool, false, ◌||◌, Option, none, some, List, [], ◌∷◌, ◌++◌, length, get_elem?, set,
  replicate, leb, ◌==◌, if◌then◌else◌, ok, err, fault, out_of_fuel, ◌>>=◌, ◌>>◌, ok_or, for_range,
  collect, checked_add, checked_mul, try_u32, Allocator,
}
use greatgramma_rust.Normalized.{TerminalId, ValidatedGrammar, terminal}
use greatgramma_rust.Lexer.{
  LexerState, start, dfa, byte, LexerStep, LexerError, LexerResult, lexer_step,
}
use greatgramma_rust.TokenStep.Budget.{
  invariant_violation, PreparationLimits, WorkBudget, Prepare, check_items, charge, prepared_vec,
  prepared_push,
}
use greatgramma_rust.TokenStep.Table.{source_count, source_at, source_index}

pub record Fact : Type 0 where
  pub source : ℕ
  pub terminal : TerminalId

-- The marks of the facts that are known, and the facts in the order in which they were found.
pub record Facts : Type 0 where
  pub seen : List ℕ
  pub facts : List Fact

unfoldable pub fact_index : ℕ → ℕ → ℕ → Prepare ℕ
unfolding checked_mul checked_add
fact_index source terminal terminal_count =
    ok_or (checked_mul source terminal_count) invariant_violation >>= λ row_start.
    ok_or (checked_add row_start terminal) invariant_violation

unfoldable pub mark_fact_seen : List ℕ → ℕ → Prepare (List ℕ)
mark_fact_seen seen index =
    ok_or (get_elem? seen index) invariant_violation >>= λ present. ok (set seen index 1)

-- `destinations.contains(&destination)`.
unfoldable pub contains : List ℕ → ℕ → Bool
contains [] x = false
contains (y ∷ ys) x = (y == x) || contains ys x

-- What the scan of the bytes of a source passes on.
pub record Scan : Type 0 where
  pub known : Facts
  pub predecessors : List (List ℕ)
  pub work : WorkBudget

module _ (alloc : Allocator) (terminal_count : ℕ) where
  unfoldable pub push_fact : Facts → ℕ → TerminalId → ℕ → Prepare Facts
  unfolding mark_fact_seen prepared_push
  push_fact known source t index = mark_fact_seen known.seen index >>= λ seen.
      prepared_push alloc known.facts (record { source = source; terminal = t }) >>= λ facts.
      ok (record { seen = seen; facts = facts })

  unfoldable pub add_fact : Facts → ℕ → TerminalId → Prepare Facts
  unfolding fact_index push_fact
  add_fact known source t =
      if leb terminal_count t
      then err invariant_violation
      else (fact_index source t terminal_count >>= λ index.
          ok_or (get_elem? known.seen index) invariant_violation >>= λ present.
          if present == 0 then push_fact known source t index else ok known)

  unfoldable pub propagate_predecessor : List ℕ → TerminalId → ℕ → Facts → Prepare Facts
  propagate_predecessor row t predecessor_index known =
      ok_or (get_elem? row predecessor_index) invariant_violation >>= λ predecessor.
      add_fact known predecessor t

  unfoldable pub propagate_fact :
      List (List ℕ) → Facts → Fact → WorkBudget → Prepare (Facts × WorkBudget)
  propagate_fact predecessors known fact work =
      ok_or (get_elem? predecessors fact.source) invariant_violation >>= λ row.
      charge work (length row) >>= λ work'.
      for_range (propagate_predecessor row fact.terminal) (length row) 0 known >>= λ known'.
      ok (known', work')

  -- The loop of `propagate_facts` from `cursor` on. It reads one fact in each round, and there are
  -- at most as many facts as marks: see Sequence/Facts/Ends.
  unfoldable pub propagate_loop :
      List (List ℕ) → ℕ → ℕ → Facts → WorkBudget → Prepare (Facts × WorkBudget)
  propagate_loop predecessors zero cursor known work = fault out_of_fuel
  propagate_loop predecessors (suc fuel) cursor known work = elim (get_elem? known.facts cursor) [
    | none ↦ ok (known, work)
    | some fact ↦ propagate_fact predecessors known fact work >>= λ r.
        propagate_loop predecessors fuel (suc cursor) r.0 r.1
  ]

  unfoldable pub propagate_facts : List (List ℕ) → Facts → WorkBudget → Prepare (Facts × WorkBudget)
  propagate_facts predecessors known work =
      propagate_loop predecessors (suc (length known.seen)) 0 known work

  unfoldable pub collect_singleton : List ℕ → ℕ → ℕ → List TerminalId → Prepare (List TerminalId)
  collect_singleton seen source t row = fact_index source t terminal_count >>= λ index.
      ok_or (get_elem? seen index) invariant_violation >>= λ present.
      if present == 0
      then ok row
      else (ok_or (try_u32 t) invariant_violation >>= λ id. prepared_push alloc row id)

  unfoldable pub collect_singletons : List ℕ → ℕ → Prepare (List TerminalId)
  collect_singletons seen source = for_range (collect_singleton seen source) terminal_count 0 []

  unfoldable pub collect_singleton_row :
      List ℕ → ℕ → WorkBudget → Prepare (List TerminalId × WorkBudget)
  collect_singleton_row seen source work = charge work terminal_count >>= λ work'.
      collect_singletons seen source >>= λ row. ok (row, work')

  unfoldable pub collect_all_singletons :
      List ℕ → ℕ → WorkBudget → Prepare (List (List TerminalId) × WorkBudget)
  collect_all_singletons seen sources work =
      prepared_vec alloc sources >> collect (collect_singleton_row seen) sources 0 work

  unfoldable pub append_predecessor : List (List ℕ) → ℕ → ℕ → Prepare (List (List ℕ))
  append_predecessor predecessors destination source =
      ok_or (get_elem? predecessors destination) invariant_violation >>= λ row.
      prepared_push alloc row source >>= λ row'. ok (set predecessors destination row')

  module _ (g : ValidatedGrammar) where
    -- A byte leads to `destination` without a terminal: `source` precedes it.
    unfoldable pub scan_move : ℕ → ℕ → Scan × List ℕ → Prepare (Scan × List ℕ)
    scan_move source destination (scan, destinations) =
        charge scan.work (length destinations) >>= λ work.
        if contains destinations destination
        then ok (record scan { work = work }, destinations)
        else (append_predecessor scan.predecessors destination source >>= λ predecessors. ok (
          record scan { predecessors = predecessors; work = work },
          destinations ++ destination ∷ [],
        ))

    abbrev pub scan_step : ℕ → Scan × List ℕ → LexerResult → Prepare (Scan × List ℕ)
    scan_step source state (ok (LexerStep.continue destination (some t))) =
        add_fact state.0.known source t >>= λ known. ok (record state.0 { known = known }, state.1)
    scan_step source state (ok (LexerStep.continue destination none)) =
        ok_or (source_index g destination) invariant_violation >>= λ index.
        scan_move source index state
    scan_step source state (ok (LexerStep.finished t eof)) = ok state
    scan_step source state (err (LexerError.invalid_state q)) = err invariant_violation
    scan_step source state (err (LexerError.cannot_begin_lexeme b)) = ok state
    scan_step source state (err (LexerError.byte_after_unfinished_residual q b)) = ok state
    scan_step source state (err (LexerError.eos_after_unfinished_residual q)) = ok state
    scan_step source state (fault x) = fault x

    unfoldable pub scan_byte : LexerState → ℕ → ℕ → Scan × List ℕ → Prepare (Scan × List ℕ)
    scan_byte lexer_source source b state =
        scan_step source state (lexer_step g lexer_source (byte b))

    -- An accepting state is a fact of its own.
    abbrev pub scan_accepted : Facts → ℕ → Option (Option TerminalId) → Prepare Facts
    scan_accepted known source (some (some t)) = add_fact known source t
    scan_accepted known source (some none) = ok known
    scan_accepted known source none = ok known

    unfoldable pub scan_accepting : Facts → ℕ → LexerState → Prepare Facts
    scan_accepting known source start = ok known
    scan_accepting known source (dfa q) = scan_accepted known source (terminal g.lexer q)

    unfoldable pub scan_source : ℕ → Scan → Prepare Scan
    scan_source source scan = ok_or (source_at source) invariant_violation >>= λ lexer_source.
        scan_accepting scan.known source lexer_source >>= λ known. prepared_vec alloc 256 >>= λ _.
        for_range (scan_byte lexer_source source) 256 0 (record scan { known = known }, [])
        >>= λ scanned. ok scanned.0

    unfoldable pub scan_sources : ℕ → Scan → Prepare Scan
    scan_sources sources scan = for_range scan_source sources 0 scan

-- The rows of `SequenceTable::build_singletons`.
unfoldable pub build_singletons :
    Allocator
    → ValidatedGrammar
    → PreparationLimits
    → WorkBudget
    → Prepare (List (List TerminalId) × WorkBudget)
build_singletons alloc g limits work = do
  sources ← source_count g
  let terminals = g.lalr.dimensions.terminal_count
  fact_cells ← check_items (checked_mul sources terminals) limits
  byte_steps ← check_items (checked_mul sources 256) limits
  work₁ ← charge work byte_steps
  prepared_vec alloc fact_cells
  prepared_vec alloc sources
  scanned ← scan_sources alloc terminals g sources (record {
    known = record { seen = replicate fact_cells 0; facts = [] };
    predecessors = replicate sources [];
    work = work₁;
  })
  (known, work₂) ← propagate_facts alloc terminals scanned.predecessors scanned.known scanned.work
  collect_all_singletons alloc terminals known.seen sources work₂
