-- ===== src/Normalized/WellFormed.antt =====
-- The shape of validated tables that the lexer and the parser rely on; see the validated types in
-- crates/greatgramma-core/src/normalized.rs.
use greatgramma_rust.Base.{ℕ, ◌+◌, ◌*◌, ◌%◌, ◌≤◌, ◌<◌, ◌≡◌, ◌≢◌, some, length, get_elem?, u32_max}
use greatgramma_rust.Normalized.{
  shift, reduce, accept, Production, ValidatedLexer, ValidatedLalr, ValidatedGrammar,
}

pub record LalrIsWellFormed (p : ValidatedLalr) : Type 0 where
  pub actions_length : length p.actions ≡ p.dimensions.state_count * p.dimensions.terminal_count
  pub gotos_length : length p.gotos ≡ p.dimensions.state_count * p.dimensions.nonterminal_count
  pub cells_fit : length p.actions + length p.gotos ≤ u32_max
  pub ignored_length : length p.ignored_terminals ≡ p.dimensions.terminal_count
  pub start_in_range : p.start_state < p.dimensions.state_count
  pub eof_in_range : p.eof_terminal < p.dimensions.terminal_count
  pub shifts :
      (cell state : ℕ)
      → get_elem? p.actions cell ≡ some (shift state)
      → state < p.dimensions.state_count
  pub reductions :
      (cell id rank : ℕ)
      → get_elem? p.actions cell ≡ some (reduce id rank)
      → id < length p.productions
  pub accepts :
      (cell : ℕ)
      → get_elem? p.actions cell ≡ some accept
      → cell % p.dimensions.terminal_count ≡ p.eof_terminal
  pub gotos :
      (cell state : ℕ)
      → get_elem? p.gotos cell ≡ some (some state)
      → state < p.dimensions.state_count
  pub left_sides :
      (id : ℕ) (prod : Production)
      → get_elem? p.productions id ≡ some prod
      → prod.lhs < p.dimensions.nonterminal_count

-- `terminals` and `eof` are those of the grammar's parser.
pub record LexerIsWellFormed (l : ValidatedLexer) (terminals eof : ℕ) : Type 0 where
  pub classes_length : length l.byte_classes ≡ 256
  pub transitions_length : length l.transitions ≡ l.state_count * l.class_count
  pub terminals_length : length l.terminals ≡ l.state_count
  pub cells_fit : length l.transitions ≤ u32_max
  pub start_in_range : l.start_state < l.state_count
  pub start_not_accepting : (t : ℕ) → get_elem? l.terminals l.start_state ≢ some (some t)
  pub classes :
      (byte class : ℕ) → get_elem? l.byte_classes byte ≡ some class → class < l.class_count
  pub destinations :
      (cell state : ℕ) → get_elem? l.transitions cell ≡ some (some state) → state < l.state_count
  pub accepted :
      (state t : ℕ) → get_elem? l.terminals state ≡ some (some t) → (t < terminals) × (t ≢ eof)

pub record IsWellFormed (g : ValidatedGrammar) : Type 0 where
  pub token_count : g.token_count ≡ length g.tokens
  pub lalr : LalrIsWellFormed g.lalr
  pub lexer : LexerIsWellFormed g.lexer g.lalr.dimensions.terminal_count g.lalr.eof_terminal
