-- ===== src/Validate/Sizes.antt =====
-- The declared sizes and the budgets of crates/greatgramma-core/src/validate.rs.
use greatgramma_rust.Base.{ℕ, List, length, ◌==◌, if◌then◌else◌, ok, err, ◌>>=◌, ◌>>◌}
use greatgramma_rust.Normalized.{TokenEntry, LexerDfa, LalrTable}
use greatgramma_rust.Errors.{ArithmeticKind, LimitKind, empty_token_table, ValidationLimits}
use greatgramma_rust.Validate.Checks.{
  Check, check_limit, checked_len, checked_product, checked_sum, add_u64, mul_u64,
}
use greatgramma_rust.Validate.Tables.{validate_tokens}

pub record DeclaredSizes : Type 0 where
  pub token_count : ℕ
  pub token_bytes : ℕ
  pub lexer_states : ℕ
  pub lexer_cells : ℕ
  pub parser_action_cells : ℕ
  pub parser_goto_cells : ℕ
  pub production_count : ℕ
  pub ignored_terminal_count : ℕ

-- `total = checked_add(total, checked_mul(count, unit)?)?`.
abbrev pub add_product : ℕ → ℕ → ℕ → ArithmeticKind → Check ℕ
add_product total count unit calculation = do
  product ← mul_u64 count unit calculation
  add_u64 total product calculation

unfoldable pub logical_bytes : DeclaredSizes → Check ℕ
logical_bytes sizes = do
  let calculation = ArithmeticKind.logical_bytes
  start ← add_u64 sizes.token_count sizes.token_bytes calculation
  scalars ← add_product start 8 4 calculation
  classes ← add_product scalars 256 4 calculation
  cells ← add_product classes sizes.lexer_cells 4 calculation
  states ← add_product cells sizes.lexer_states 4 calculation
  actions ← add_product states sizes.parser_action_cells 12 calculation
  gotos ← add_product actions sizes.parser_goto_cells 4 calculation
  productions ← add_product gotos sizes.production_count 8 calculation
  add_product productions sizes.ignored_terminal_count 4 calculation

unfoldable pub validation_base_work : DeclaredSizes → Check ℕ
validation_base_work sizes = do
  let calculation = ArithmeticKind.work
  scalars ← add_u64 0 8 calculation
  classes ← add_u64 scalars 256 calculation
  states ← add_u64 classes sizes.lexer_states calculation
  cells ← add_u64 states sizes.lexer_cells calculation
  actions ← add_product cells sizes.parser_action_cells 2 calculation
  gotos ← add_u64 actions sizes.parser_goto_cells calculation
  productions ← add_u64 gotos sizes.production_count calculation
  add_u64 productions sizes.ignored_terminal_count calculation

unfoldable pub validate_declared_sizes :
    List TokenEntry → LexerDfa → LalrTable → ValidationLimits → Check DeclaredSizes
validate_declared_sizes tokens lexer parser limits =
    if length tokens == 0 then err empty_token_table else (do
      token_count ← checked_len (length tokens) ArithmeticKind.token_count
      check_limit LimitKind.tokens token_count limits.max_tokens
      check_limit LimitKind.dfa_states lexer.state_count limits.max_dfa_states
      check_limit LimitKind.dfa_classes lexer.class_count limits.max_dfa_classes
      check_limit LimitKind.parser_states parser.dimensions.state_count limits.max_parser_states
      check_limit LimitKind.terminals parser.dimensions.terminal_count limits.max_terminals
      check_limit LimitKind.nonterminals parser.dimensions.nonterminal_count limits.max_nonterminals
      production_count ← checked_len (length parser.productions) ArithmeticKind.production_count
      ignored_terminal_count ←
          checked_len (length parser.ignored_terminals) ArithmeticKind.ignored_terminal_count
      check_limit LimitKind.productions production_count limits.max_productions
      lexer_cells ← checked_product lexer.state_count lexer.class_count ArithmeticKind.lexer_cells
      check_limit LimitKind.dfa_cells lexer_cells limits.max_dfa_cells
      parser_action_cells ←
          checked_product parser.dimensions.state_count parser.dimensions.terminal_count
            ArithmeticKind.parser_action_cells
      parser_goto_cells ←
          checked_product parser.dimensions.state_count parser.dimensions.nonterminal_count
            ArithmeticKind.parser_goto_cells
      parser_cells ← checked_sum parser_action_cells parser_goto_cells ArithmeticKind.parser_cells
      check_limit LimitKind.parser_cells parser_cells limits.max_parser_cells
      let sizes_without_tokens : DeclaredSizes = record {
        token_count = 0;
        token_bytes = 0;
        lexer_states = lexer.state_count;
        lexer_cells = lexer_cells;
        parser_action_cells = parser_action_cells;
        parser_goto_cells = parser_goto_cells;
        production_count = production_count;
        ignored_terminal_count = ignored_terminal_count;
      }
      base_work ← validation_base_work sizes_without_tokens
      check_limit LimitKind.work base_work limits.max_work
      token_bytes ← validate_tokens tokens base_work limits
      let sizes : DeclaredSizes = record sizes_without_tokens {
        token_count = token_count;
        token_bytes = token_bytes;
      }
      logical ← logical_bytes sizes
      check_limit LimitKind.logical_bytes logical limits.max_logical_bytes
      ok sizes)
