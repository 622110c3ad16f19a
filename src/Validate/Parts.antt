-- ===== src/Validate/Parts.antt =====
-- The facts that the stages of `validate` in crates/greatgramma-core/src/validate.rs establish.
use greatgramma_rust.Base.{ℕ, ◌+◌, ◌*◌, ◌≤◌, ◌<◌, ◌≡◌, List, length, u32_max, try_u32, arith, ok}
use greatgramma_rust.Normalized.{TokenEntry, LexerDfa, LalrTable}
use greatgramma_rust.Errors.{ValidationLimits}
use greatgramma_rust.Validate.Checks.{
  validate_id, check_length, count_as_usize, checked_product, checked_sum, checked_len,
}
use greatgramma_rust.Validate.Tables.{
  validate_transitions, validate_lexer_terminals, validate_gotos, validate_productions,
  validate_byte_classes, validate_actions, validate_ignored_terminals,
}
use greatgramma_rust.Validate.Sizes.{DeclaredSizes, validate_declared_sizes}
use greatgramma_rust.Validate.{validate_lengths, validate_starts, validate_entries}

-- The parts of `validate_entries`.
pub record Entries (l : LexerDfa) (t : LalrTable) (production_count : ℕ) : Type 0 where
  pub ignored :
      validate_ignored_terminals t.ignored_terminals t.dimensions.terminal_count t.eof_terminal
      ≡ ok tt
  pub classes : validate_byte_classes l.byte_classes l.class_count ≡ ok tt
  pub transitions : validate_transitions l.transitions l.state_count ≡ ok tt
  pub terminals :
      validate_lexer_terminals l.terminals l.start_state t.dimensions.terminal_count t.eof_terminal
      ≡ ok tt
  pub actions :
      validate_actions t.actions t.dimensions.state_count t.dimensions.terminal_count
        production_count t.eof_terminal
      ≡ ok tt
  pub gotos : validate_gotos t.gotos t.dimensions.state_count ≡ ok tt
  pub productions : validate_productions t.productions t.dimensions.nonterminal_count ≡ ok tt

pub validate_entries-Entries :
    (l : LexerDfa) (t : LalrTable) (n : ℕ) → validate_entries l t n ≡ ok tt → Entries l t n
unfolding validate_entries
validate_entries-Entries l t n h = ground arith

-- What the sizes and the lengths give.
pub record Lengths (l : LexerDfa) (t : LalrTable) (sizes : DeclaredSizes) : Type 0 where
  pub classes : length l.byte_classes ≡ 256
  pub transitions : length l.transitions ≡ sizes.lexer_cells
  pub terminals : length l.terminals ≡ l.state_count
  pub actions : length t.actions ≡ sizes.parser_action_cells
  pub gotos : length t.gotos ≡ sizes.parser_goto_cells

pub validate_lengths-Lengths :
    (l : LexerDfa) (t : LalrTable) (sizes : DeclaredSizes)
    → validate_lengths l t sizes ≡ ok tt
    → Lengths l t sizes
unfolding validate_lengths count_as_usize check_length
validate_lengths-Lengths l t sizes h = ground arith

pub record Starts (l : LexerDfa) (t : LalrTable) : Type 0 where
  pub lexer_start : l.start_state < l.state_count
  pub parser_start : t.start_state < t.dimensions.state_count
  pub eof : t.eof_terminal < t.dimensions.terminal_count

pub validate_starts-Starts :
    (l : LexerDfa) (t : LalrTable) → validate_starts l t ≡ ok tt → Starts l t
unfolding validate_starts validate_id
validate_starts-Starts l t h = ground arith

pub record Sizes (l : LexerDfa) (t : LalrTable) (tokens : ℕ) (sizes : DeclaredSizes) : Type 0 where
  pub token_count : sizes.token_count ≡ tokens
  pub lexer_cells : sizes.lexer_cells ≡ l.state_count * l.class_count
  pub action_cells :
      sizes.parser_action_cells ≡ t.dimensions.state_count * t.dimensions.terminal_count
  pub goto_cells :
      sizes.parser_goto_cells ≡ t.dimensions.state_count * t.dimensions.nonterminal_count
  pub production_count : sizes.production_count ≡ length t.productions
  pub lexer_fits : sizes.lexer_cells ≤ u32_max
  pub parser_fits : sizes.parser_action_cells + sizes.parser_goto_cells ≤ u32_max

pub validate_declared_sizes-Sizes :
    (tokens : List TokenEntry) (l : LexerDfa) (t : LalrTable) (limits : ValidationLimits)
    (sizes : DeclaredSizes)
    → validate_declared_sizes tokens l t limits ≡ ok sizes
    → Sizes l t (length tokens) sizes
unfolding validate_declared_sizes checked_product checked_sum checked_len try_u32
validate_declared_sizes-Sizes tokens l t limits sizes h = ground arith
