-- ===== src/Validate.antt =====
-- Validation of caller-owned tables, after crates/greatgramma-core/src/validate.rs.
pub mod Checks
pub mod Tables
pub mod Sizes
pub mod Parts
pub mod Sound
pub mod Ignored
use greatgramma_rust.Base.{ℕ, List, length, Outcome, ok, ◌>>=◌, ◌>>◌, none, Allocator}
use greatgramma_rust.Normalized.{
  LexerDfa, LalrTable, UnvalidatedGrammar, ValidatedLexer, ValidatedLalr, ValidatedGrammar,
}
use greatgramma_rust.Errors.{ValidationTable, IdKind, ArithmeticKind, ValidationLimits}
use Checks.{Check, validate_id, check_length, count_as_usize}
use Tables.{
  validate_transitions, validate_lexer_terminals, validate_gotos, validate_productions,
  validate_byte_classes, validate_actions, validate_ignored_terminals, build_ignored_terminal_table,
}
use Sizes.{DeclaredSizes, validate_declared_sizes}

-- `ValidatedLexer::from_unvalidated` and `ValidatedLalr::from_unvalidated`.
abbrev pub lexer_from_unvalidated : LexerDfa → ValidatedLexer
lexer_from_unvalidated l = record {
  state_count = l.state_count;
  class_count = l.class_count;
  byte_classes = l.byte_classes;
  transitions = l.transitions;
  start_state = l.start_state;
  terminals = l.terminals;
}

abbrev pub lalr_from_unvalidated : LalrTable → ℕ → List ℕ → ValidatedLalr
lalr_from_unvalidated t production_count ignored_terminals = record {
  dimensions = t.dimensions;
  start_state = t.start_state;
  eof_terminal = t.eof_terminal;
  actions = t.actions;
  gotos = t.gotos;
  production_count = production_count;
  productions = t.productions;
  ignored_terminals = ignored_terminals;
}

-- The checks of `validate` before and after the sizes, in their order.
unfoldable pub validate_lengths : LexerDfa → LalrTable → DeclaredSizes → Check (Unit {0})
validate_lengths lexer lalr sizes = do
  check_length ValidationTable.lexer_byte_classes 256 (length lexer.byte_classes)
  lexer_cells ← count_as_usize sizes.lexer_cells ArithmeticKind.lexer_cells
  check_length ValidationTable.lexer_transitions lexer_cells (length lexer.transitions)
  lexer_states ← count_as_usize lexer.state_count ArithmeticKind.lexer_cells
  check_length ValidationTable.lexer_terminals lexer_states (length lexer.terminals)
  action_cells ← count_as_usize sizes.parser_action_cells ArithmeticKind.parser_action_cells
  check_length ValidationTable.parser_actions action_cells (length lalr.actions)
  goto_cells ← count_as_usize sizes.parser_goto_cells ArithmeticKind.parser_goto_cells
  check_length ValidationTable.parser_gotos goto_cells (length lalr.gotos)

unfoldable pub validate_starts : LexerDfa → LalrTable → Check (Unit {0})
validate_starts lexer lalr = do
  validate_id ValidationTable.lexer_start none IdKind.dfa_state lexer.start_state lexer.state_count
  validate_id ValidationTable.parser_start none IdKind.parser_state lalr.start_state
      lalr.dimensions.state_count
  validate_id ValidationTable.parser_eof none IdKind.terminal lalr.eof_terminal
      lalr.dimensions.terminal_count

unfoldable pub validate_entries : LexerDfa → LalrTable → ℕ → Check (Unit {0})
validate_entries lexer lalr production_count = do
  validate_ignored_terminals lalr.ignored_terminals lalr.dimensions.terminal_count lalr.eof_terminal
  validate_byte_classes lexer.byte_classes lexer.class_count
  validate_transitions lexer.transitions lexer.state_count
  validate_lexer_terminals lexer.terminals lexer.start_state lalr.dimensions.terminal_count
      lalr.eof_terminal
  validate_actions lalr.actions lalr.dimensions.state_count lalr.dimensions.terminal_count
      production_count lalr.eof_terminal
  validate_gotos lalr.gotos lalr.dimensions.state_count
  validate_productions lalr.productions lalr.dimensions.nonterminal_count

unfoldable pub validate : Allocator → UnvalidatedGrammar → ValidationLimits → Check ValidatedGrammar
validate alloc g limits = do
  sizes ← validate_declared_sizes g.tokens g.lexer g.lalr limits
  validate_lengths g.lexer g.lalr sizes
  validate_starts g.lexer g.lalr
  validate_entries g.lexer g.lalr sizes.production_count
  ignored_terminals ←
      build_ignored_terminal_table alloc g.lalr.ignored_terminals g.lalr.dimensions.terminal_count
  ok (record {
    token_count = sizes.token_count;
    tokens = g.tokens;
    lexer = lexer_from_unvalidated g.lexer;
    lalr = lalr_from_unvalidated g.lalr sizes.production_count ignored_terminals;
  })
