-- ===== src/TokenStep/Table/Sound.antt =====
-- The prepared token table of crates/greatgramma-core/src/token_step.rs holds what `execute_token`
-- computes.
use greatgramma_rust.Base.{
  ℕ, suc, ◌+◌, ◌<◌, ◌≤◌, ◌≡◌, sym, ap, subst, ◌∙◌, Option, some, List, get_elem?, arith, ok, err,
  fault, ok_or, map_err, >>=-eq-ok, collect-MadeAt, ok_inj, ok_or-eq-ok, map_err-eq-ok, checked_add,
  checked_mul, try_u32, try_u32-eq-some, usize_max, Allocator,
}
use greatgramma_rust.Normalized.{TokenId, TokenEntry, ValidatedGrammar, token}
use greatgramma_rust.Normalized.WellFormed.{IsWellFormed}
use greatgramma_rust.Lexer.{LexerState, start, dfa}
use greatgramma_rust.Lexer.Safe.{InRange}
use greatgramma_rust.TokenStep.{TokenExecution, execute_entry, execute_token}
use greatgramma_rust.TokenStep.Safe.{check_source-eq-ok}
use greatgramma_rust.TokenStep.Budget.{
  Prepare, PreparationLimits, WorkBudget, invariant_violation, check_items, charge, prepared_vec,
}
use greatgramma_rust.TokenStep.Table.{
  Row, PreparedTokenTable, cell, source_count, index_in, source_index, source_at,
  source_index_for_count, preparation_token_error, token_work, emitted_count, Spent,
  append_token_cell, build_token_row, build_token_table_row, build_token_rows, prepare_token_table,
}

-- The row of a lexer state.
abbrev pub position : LexerState → ℕ
position start = 0
position (dfa q) = suc q

pub source_at-position : (s s' : LexerState) → source_at (position s) ≡ some s' → s' ≡ s
unfolding source_at try_u32
source_at-position start s' h = cc h
source_at-position (dfa q) s' h = ground arith

pub source_count-eq-ok :
    (g : ValidatedGrammar) (n : ℕ)
    → source_count g ≡ ok n
    → (n ≡ g.lexer.state_count + 1) × (n ≤ usize_max)
unfolding source_count checked_add
source_count-eq-ok g n h = (ground arith, ground arith)

position-lt :
    (g : ValidatedGrammar) (s : LexerState)
    → InRange g.lexer s
    → position s < g.lexer.state_count + 1
position-lt g start r = omega arith
position-lt g (dfa q) r = omega (arith, r)

index_for-position :
    (g : ValidatedGrammar) (s : LexerState) (n : ℕ)
    → n ≡ g.lexer.state_count + 1
    → n ≤ usize_max
    → InRange g.lexer s
    → source_index_for_count n s ≡ some (position s)
unfolding source_index_for_count checked_add
index_for-position g start n e h r = ground arith
index_for-position g (dfa q) n e h r = ground arith

source_index-position :
    (g : ValidatedGrammar) (s : LexerState) (n : ℕ)
    → source_count g ≡ ok n
    → InRange g.lexer s
    → source_index g s ≡ some (position s)
unfolding source_index
source_index-position g s n h r =
    let (e, k) = source_count-eq-ok g n h in rw h (index_for-position g s n e k r)

source_index_for-position :
    (n i : ℕ) (s : LexerState) → source_index_for_count n s ≡ some i → i ≡ position s
unfolding source_index_for_count checked_add
source_index_for-position n i start h = ground arith
source_index_for-position n i (dfa q) h = ground arith

index_in-position :
    (count : Prepare ℕ) (i : ℕ) (s : LexerState) → index_in count s ≡ some i → i ≡ position s
unfolding index_in
index_in-position (ok n) i s h = source_index_for-position n i s h
index_in-position (err e) i s h = absurd (cc h)
index_in-position (fault x) i s h = absurd (cc h)

pub source_index-eq-some :
    (g : ValidatedGrammar) (i : ℕ) (s : LexerState) → source_index g s ≡ some i → i ≡ position s
unfolding source_index
source_index-eq-some g i s h = index_in-position (source_count g) i s h

module _ (alloc : Allocator) (g : ValidatedGrammar) (limits : PreparationLimits) where
  append_token_cell-Executes :
      (source : LexerState) (index : ℕ) (before : Spent) (made : Option TokenExecution × Spent)
      → append_token_cell alloc g limits source index before ≡ ok made
      → (entry : TokenEntry) × (token g index ≡ some entry)
        × (execute_entry alloc g source entry ≡ ok made.0)
  unfolding append_token_cell
  append_token_cell-Executes source index before made h =
      let (id, e₁, h₁) = >>=-eq-ok (ok_or (try_u32 index) invariant_violation) _ h in
      let (entry, e₂, h₂) = >>=-eq-ok (ok_or (token g id) invariant_violation) _ h₁ in
      let (cost, e₃, h₃) = >>=-eq-ok (token_work limits entry) _ h₂ in
      let (work, e₄, h₄) = >>=-eq-ok (charge before.work cost) _ h₃ in
      let (y, e₅, h₅) =
        >>=-eq-ok (map_err preparation_token_error (execute_entry alloc g source entry)) _ h₄ in
      let (n, e₆, h₆) =
        >>=-eq-ok (check_items (checked_add before.emitted_items (emitted_count y)) limits) _ h₅ in
      (
        entry,
        subst (λ m. token g m ≡ some entry) (try_u32-eq-some index id (ok_or-eq-ok _ _ e₁))
            (ok_or-eq-ok (token g id) _ e₂),
        map_err-eq-ok preparation_token_error _ e₅ ∙ ap (λ m. ok m.0) (ok_inj h₆),
      )

  build_token_row-Executes :
      (source : LexerState) (token_count : ℕ) (before : Spent) (made : Row × Spent) (t : TokenId)
      → build_token_row alloc g limits source token_count before ≡ ok made
      → t < token_count
      → (entry : TokenEntry) × (x : Option TokenExecution) × (get_elem? made.0 t ≡ some x)
        × (token g t ≡ some entry)
        × (execute_entry alloc g source entry ≡ ok x)
  unfolding build_token_row
  build_token_row-Executes source token_count before made t h k =
      let (u, e, f) = >>=-eq-ok (prepared_vec alloc token_count) _ h in
      let (x, b, a, got, made') =
        collect-MadeAt (append_token_cell alloc g limits source) token_count before made t f k in
      let (entry, found, run) = append_token_cell-Executes source t b (x, a) made' in
      (entry, x, got, found, run)

  build_token_table_row-Executes :
      (token_count index : ℕ) (before : Spent) (made : Row × Spent) (t : TokenId)
      → build_token_table_row alloc g limits token_count index before ≡ ok made
      → t < token_count
      → (source : LexerState) × (entry : TokenEntry) × (x : Option TokenExecution) × (source_at
            index
          ≡ some source)
        × (get_elem? made.0 t ≡ some x)
        × (token g t ≡ some entry)
        × (execute_entry alloc g source entry ≡ ok x)
  unfolding build_token_table_row
  build_token_table_row-Executes token_count index before made t h k =
      let (source, e, f) = >>=-eq-ok (ok_or (source_at index) invariant_violation) _ h in
      let (entry, x, got, found, run) =
        build_token_row-Executes source token_count before made t f k in
      (source, entry, x, ok_or-eq-ok (source_at index) _ e, got, found, run)

  -- A row of the table, by its index.
  build_token_rows-Executes :
      (sources token_count : ℕ) (before : Spent) (made : List Row × Spent) (i : ℕ) (t : TokenId)
      → build_token_rows alloc g limits sources token_count before ≡ ok made
      → i < sources
      → t < token_count
      → (source : LexerState) × (entry : TokenEntry) × (x : Option TokenExecution) × (source_at i
          ≡ some source)
        × (cell (record { rows = made.0 }) i t ≡ some x)
        × (token g t ≡ some entry)
        × (execute_entry alloc g source entry ≡ ok x)
  unfolding build_token_rows cell
  build_token_rows-Executes sources token_count before made i t h j k =
      let (u, e, f) = >>=-eq-ok (prepared_vec alloc sources) _ h in
      let (row, b, a, got, made') =
        collect-MadeAt (build_token_table_row alloc g limits token_count) sources before made i f
          j in
      let (source, entry, x, at, got', found, run) =
        build_token_table_row-Executes token_count i b (row, a) t made' k in
      (source, entry, x, at, rw got got', found, run)

  execute_token_of_entry :
      IsWellFormed g
      → (s s' : LexerState) (t : TokenId) (entry : TokenEntry) (x : Option TokenExecution)
      → InRange g.lexer s
      → s' ≡ s
      → token g t ≡ some entry
      → execute_entry alloc g s' entry ≡ ok x
      → execute_token alloc g s t ≡ ok x
  unfolding execute_token
  execute_token_of_entry w s s' t entry x r e found run =
      rw (check_source-eq-ok alloc g w s r, found)
        (subst (λ y. execute_entry alloc g y entry ≡ ok x) e run)

  -- On a well-formed grammar, if `prepare_token_table` succeeds, then every lexer state in range
  -- has a row and every token of the table a cell in it, and the cell holds what `execute_token`
  -- returns from that state.
  pub prepare_token_table-Executes :
      IsWellFormed g
      → (work : WorkBudget) (made : PreparedTokenTable × WorkBudget)
      → prepare_token_table alloc g limits work ≡ ok made
      → (s : LexerState) (t : TokenId) → InRange g.lexer s
      → t < g.token_count
      → (i : ℕ) × (x : Option TokenExecution) × (source_index g s ≡ some i)
        × (cell made.0 i t ≡ some x)
        × (execute_token alloc g s t ≡ ok x)
  unfolding prepare_token_table
  prepare_token_table-Executes w work made h s t r k =
      let (sources, e₁, h₁) = >>=-eq-ok (source_count g) _ h in
      let (cells, e₂, h₂) =
        >>=-eq-ok (check_items (checked_mul sources g.token_count) limits) _ h₁ in
      let (work', e₃, h₃) = >>=-eq-ok (charge work cells) _ h₂ in
      let spent : Spent = record { work = work'; emitted_items = 0 } in
      let (built, e₄, h₄) =
        >>=-eq-ok (build_token_rows alloc g limits sources g.token_count spent) _ h₃ in
      let (source, entry, x, at, got, found, run) =
        build_token_rows-Executes sources g.token_count spent built (position s) t e₄
          (subst (λ n. position s < n) (sym (source_count-eq-ok g sources e₁).0)
            (position-lt g s r))
          k in
      (
        position s,
        x,
        source_index-position g s sources e₁ r,
        subst (λ m. cell m.0 (position s) t ≡ some x) (ok_inj h₄) got,
        execute_token_of_entry w s source t entry x r (source_at-position s source at) found run,
      )
