-- ===== src/Spanner.antt =====
-- Inverse token buckets and the prepared spanner, after crates/greatgramma-core/src/spanner.rs.
pub mod Buckets
pub mod Exact
use greatgramma_rust.Base.{
  ℕ, suc, true, false, Option, none, some, List, [], ◌∷◌, ◌++◌, length, get_elem?, set, ◌==◌,
  u32_max, Outcome, ok, ◌>>=◌, ◌>>◌, ok_or, for_range, checked_add, Allocator,
}
use greatgramma_rust.Normalized.{TokenId, DfaStateId, TerminalId, SequenceId, ValidatedGrammar}
use greatgramma_rust.Lexer.{LexerState, start, dfa}
use greatgramma_rust.TokenStep.{TokenExecution, continue, finished}
use greatgramma_rust.TokenStep.Budget.{
  invariant_violation, PreparationLimits, WorkBudget, Prepare, check_items, charge, new_budget,
  prepared_vec, prepared_push,
}
use greatgramma_rust.TokenStep.Table.{
  PreparedTokenTable, cell, source_index, source_index_for_count, prepare_token_table,
}
use greatgramma_rust.Sequence.{
  SequenceTable, singleton, singleton_terminal, singleton_count, sequence, intern_head,
}
use greatgramma_rust.Sequence.Facts.{build_singletons}

pub data SpannerQueryError : Type 0 where
  invalid_state : (state : DfaStateId) → SpannerQueryError
  invalid_sequence : (sequence : SequenceId) → SpannerQueryError

pub record InverseBucket : Type 0 where
  pub sequence : SequenceId
  pub tokens : List TokenId

abbrev pub Buckets : Type 0
Buckets = List InverseBucket

-- The field `empty_tokens` is always empty.
pub record PreparedSpanner : Type 0 where
  pub token_table : PreparedTokenTable
  pub sequences : SequenceTable
  pub inverse : List Buckets

abbrev pub Query : Type 0 → Type 0
Query A = Outcome SpannerQueryError A

-- The start state has no ID of its own.
unfoldable pub invalid_source : LexerState → SpannerQueryError
invalid_source start = invalid_state u32_max
invalid_source (dfa state) = invalid_state state

-- `bucket_index` from `index` on.
unfoldable pub bucket_index : Buckets → SequenceId → ℕ → Option ℕ
bucket_index [] id index = none
bucket_index (entry ∷ row) id index = elim (entry.sequence == id) [
  | true ↦ some index
  | false ↦ bucket_index row id (suc index)
]

-- The queries of `PreparedSpanner`.
unfoldable pub query_source : PreparedSpanner → LexerState → Query ℕ
query_source spanner source =
    ok_or (source_index_for_count (length spanner.token_table.rows) source) (invalid_source source)

unfoldable pub singleton_terminals : PreparedSpanner → LexerState → Query (List TerminalId)
singleton_terminals spanner source = query_source spanner source >>= λ index.
    ok_or (singleton spanner.sequences index) (invalid_source source)

unfoldable pub inverse_buckets : PreparedSpanner → LexerState → Query Buckets
inverse_buckets spanner source = query_source spanner source >>= λ index.
    ok_or (get_elem? spanner.inverse index) (invalid_source source)

abbrev bucket_tokens : Buckets → SequenceId → Option ℕ → Query (List TokenId)
bucket_tokens row id none = ok []
bucket_tokens row id (some index) =
    ok_or (get_elem? row index) (invalid_sequence id) >>= λ entry. ok entry.tokens

unfoldable pub inverse_tokens : PreparedSpanner → LexerState → SequenceId → Query (List TokenId)
unfolding bucket_index
inverse_tokens spanner source id =
    ok_or (sequence spanner.sequences id) (invalid_sequence id) >>= λ head.
    inverse_buckets spanner source >>= λ row. bucket_tokens row id (bucket_index row id 0)

unfoldable pub token_execution :
    PreparedSpanner → LexerState → TokenId → Query (Option TokenExecution)
token_execution spanner source id = query_source spanner source >>= λ index.
    ok_or (cell spanner.token_table index id) (invalid_sequence id)

-- What the construction of the buckets passes on: `row` is the row in hand.
pub record Building : Type 0 where
  pub sequences : SequenceTable
  pub inverse : List Buckets
  pub row : Buckets
  pub members : ℕ
  pub work : WorkBudget

module _ (alloc : Allocator) (limits : PreparationLimits) where
  unfoldable pub append_existing_member : Buckets → ℕ → TokenId → Prepare Buckets
  append_existing_member row index token =
      ok_or (get_elem? row index) invariant_violation >>= λ entry.
      prepared_push alloc entry.tokens token >>= λ tokens.
      ok (set row index (record entry { tokens = tokens }))

  -- A member joins the bucket at `index`, or a new bucket.
  abbrev pub append_at : Buckets → SequenceId → TokenId → Option ℕ → Prepare Buckets
  unfolding append_existing_member
  append_at row id token (some index) = ok_or (get_elem? row index) invariant_violation >>= λ entry.
      check_items (checked_add (length entry.tokens) 1) limits >>= λ _.
      append_existing_member row index token
  append_at row id token none = check_items (checked_add (length row) 1) limits >>= λ _.
      prepared_vec alloc 1 >>= λ _.
      prepared_push alloc row (record { sequence = id; tokens = token ∷ [] })

  unfoldable pub append_member :
      Buckets → SequenceId → TokenId → WorkBudget → Prepare (Buckets × WorkBudget)
  unfolding bucket_index append_existing_member
  append_member row id token work = charge work (length row) >>= λ work'.
      append_at row id token (bucket_index row id 0) >>= λ row'. ok (row', work')

  unfoldable pub append_continuation :
      ℕ → List TerminalId → TokenId → ℕ → Building → Prepare Building
  append_continuation destination emitted token singleton b = do
    work₁ ← charge b.work 1
    continuation ← ok_or (singleton_terminal b.sequences destination singleton) invariant_violation
    (id, sequences, work₂) ← intern_head alloc limits b.sequences emitted continuation work₁
    (row, work₃) ← append_member b.row id token work₂
    ok (record b { sequences = sequences; row = row; work = work₃ })

  unfoldable pub append_continuations : ℕ → List TerminalId → TokenId → Building → Prepare Building
  append_continuations destination emitted token b =
      ok_or (singleton_count b.sequences destination) invariant_violation >>= λ count.
      for_range (append_continuation destination emitted token) count 0 b

  module _ (g : ValidatedGrammar) (table : PreparedTokenTable) where
    -- Only a token that continues has continuations.
    unfoldable pub append_execution : TokenId → Option TokenExecution → Building → Prepare Building
    append_execution token (some (continue state emitted)) b = do
      destination ← ok_or (source_index g state) invariant_violation
      count ← ok_or (singleton_count b.sequences destination) invariant_violation
      members ← check_items (checked_add b.members count) limits
      append_continuations destination emitted token (record b { members = members })
    append_execution token (some (finished emitted eof)) b = ok b
    append_execution token none b = ok b

    unfoldable pub append_token_continuations : ℕ → TokenId → Building → Prepare Building
    append_token_continuations source token b = do
      work ← charge b.work 1
      execution ← ok_or (cell table source token) invariant_violation
      append_execution token execution (record b { work = work })

    -- The row starts empty and is pushed when it is complete.
    unfoldable pub build_inverse_row : ℕ → Building → Prepare Building
    build_inverse_row source b =
        for_range (append_token_continuations source) g.token_count 0 (record b { row = [] })
        >>= λ b'. ok (record b' { inverse = b'.inverse ++ b'.row ∷ []; row = [] })

    unfoldable pub build_inverse_rows : ℕ → Building → Prepare Building
    build_inverse_rows sources b =
        prepared_vec alloc sources >> for_range build_inverse_row sources 0 b

  unfoldable pub prepare_spanner_with_budget :
      ValidatedGrammar → WorkBudget → Prepare (PreparedSpanner × WorkBudget)
  prepare_spanner_with_budget g work = do
    (table, work₁) ← prepare_token_table alloc g limits work
    (singletons, work₂) ← build_singletons alloc g limits work₁
    built ← build_inverse_rows g table (length table.rows) (record {
      sequences = record { singletons = singletons; sequences = []; sequence_items = 0 };
      inverse = [];
      row = [];
      members = 0;
      work = work₂;
    })
    ok (
      record { token_table = table; sequences = built.sequences; inverse = built.inverse },
      built.work,
    )

  unfoldable pub prepare_spanner : ValidatedGrammar → Prepare PreparedSpanner
  prepare_spanner g =
      prepare_spanner_with_budget g (new_budget limits) >>= λ (spanner, work). ok spanner
