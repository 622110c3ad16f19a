-- ===== src/Errors.antt =====
-- Validation errors and limits, after crates/greatgramma-core/src/error.rs and limits.rs.
use greatgramma_rust.Base.{ℕ, Option}
use greatgramma_rust.Normalized.{TokenId, DfaStateId, TerminalId, ParserStateId}

pub data ValidationTable : Type 0 where
  tokens lexer_byte_classes lexer_transitions lexer_start lexer_terminals : ValidationTable
  parser_actions parser_gotos parser_start parser_eof : ValidationTable
  parser_ignored_terminals productions : ValidationTable

pub data IdKind : Type 0 where
  dfa_state terminal parser_state nonterminal production : IdKind

pub data ArithmeticKind : Type 0 where
  token_count token_bytes production_count ignored_terminal_count lexer_cells : ArithmeticKind
  parser_action_cells parser_goto_cells parser_cells logical_bytes work : ArithmeticKind

pub data LimitKind : Type 0 where
  tokens token_bytes dfa_states dfa_classes dfa_cells parser_states : LimitKind
  terminals nonterminals productions parser_cells logical_bytes work : LimitKind

pub data ValidationError : Type 0 where
  empty_token_table missing_ordinary_token missing_eos_token : ValidationError
  empty_token_bytes : (token : TokenId) → ValidationError
  wrong_table_length : (table : ValidationTable) (expected actual : ℕ) → ValidationError
  id_out_of_range :
      (table : ValidationTable) (index : Option ℕ) (kind : IdKind) (id count : ℕ) → ValidationError
  byte_class_out_of_range : (byte class class_count : ℕ) → ValidationError
  accepting_lexer_start : (state : DfaStateId) (terminal : TerminalId) → ValidationError
  lexer_terminal_is_parser_eof : (state : DfaStateId) (terminal : TerminalId) → ValidationError
  ignored_terminal_is_parser_eof : (index : ℕ) (terminal : TerminalId) → ValidationError
  accept_on_non_eof : (state : ParserStateId) (terminal : TerminalId) → ValidationError
  arithmetic_overflow : (calculation : ArithmeticKind) → ValidationError
  limit_exceeded : (limit : LimitKind) (actual maximum : ℕ) → ValidationError
  allocation_failure : (table : ValidationTable) (requested : ℕ) → ValidationError

pub record ValidationLimits : Type 0 where
  pub max_tokens : ℕ
  pub max_token_bytes : ℕ
  pub max_dfa_states : ℕ
  pub max_dfa_classes : ℕ
  pub max_dfa_cells : ℕ
  pub max_parser_states : ℕ
  pub max_terminals : ℕ
  pub max_nonterminals : ℕ
  pub max_productions : ℕ
  pub max_parser_cells : ℕ
  pub max_logical_bytes : ℕ
  pub max_work : ℕ

-- `ValidationLimits::default`.
abbrev pub default_limits : ValidationLimits
default_limits = record {
  max_tokens = 1_000_000;
  max_token_bytes = 1_073_741_824;
  max_dfa_states = 1_000_000;
  max_dfa_classes = 256;
  max_dfa_cells = 64_000_000;
  max_parser_states = 1_000_000;
  max_terminals = 65_536;
  max_nonterminals = 65_536;
  max_productions = 1_000_000;
  max_parser_cells = 64_000_000;
  max_logical_bytes = 4_294_967_296;
  max_work = 1_000_000_000;
}
