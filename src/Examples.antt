-- ===== src/Examples.antt =====
-- A grammar for the lists of one or more letters, on which the theorems are tried. Every byte is a
-- lexeme of terminal 0; terminal 1 is the end of the input, terminal 2 is ignored. The parser has
-- the productions 0: S → x and 1: S → S x.
pub mod Prepared
pub mod Matching
pub mod Spanning
pub mod Singletons
pub mod Lexing
pub mod Parsing
pub mod Tables
pub mod Masks
pub mod Validation
use greatgramma_rust.Base.{ℕ, Bool, true, none, some, [], ◌∷◌, replicate, ◌≡◌, refl, ok, Allocator}
use greatgramma_rust.Normalized.{
  bytes, eos, LexerDfa, Action, shift, reduce, accept, Production, LalrTable, UnvalidatedGrammar,
  ValidatedGrammar,
}
use greatgramma_rust.Errors.{default_limits}
use greatgramma_rust.Validate.{lexer_from_unvalidated, lalr_from_unvalidated, validate}

abbrev pub roomy : Allocator
roomy n = true

pub roomy-true : (n : ℕ) → roomy n ≡ true
roomy-true n = refl

abbrev pub letters_lexer : LexerDfa
letters_lexer = record {
  state_count = 2;
  class_count = 1;
  byte_classes = replicate 256 0;
  transitions = some 1 ∷ none ∷ [];
  start_state = 0;
  terminals = none ∷ some 0 ∷ [];
}

abbrev pub letters_parser : LalrTable
letters_parser = record {
  dimensions = record { state_count = 4; terminal_count = 3; nonterminal_count = 1 };
  start_state = 0;
  eof_terminal = 1;
  actions =
      shift 1
      ∷ Action.error
      ∷ Action.error
      ∷ reduce 0 0
      ∷ reduce 0 0
      ∷ Action.error
      ∷ shift 3
      ∷ accept
      ∷ Action.error
      ∷ reduce 1 0
      ∷ reduce 1 0
      ∷ Action.error
      ∷ [];
  gotos = some 2 ∷ none ∷ none ∷ none ∷ [];
  productions = record { lhs = 0; pop_len = 1 } ∷ record { lhs = 0; pop_len = 2 } ∷ [];
  ignored_terminals = 2 ∷ [];
}

abbrev pub letters : UnvalidatedGrammar
letters = record {
  tokens = bytes (97 ∷ []) ∷ bytes (97 ∷ 98 ∷ []) ∷ eos ∷ [];
  lexer = letters_lexer;
  lalr = letters_parser;
}

abbrev pub letters_grammar : ValidatedGrammar
letters_grammar = record {
  token_count = 3;
  tokens = bytes (97 ∷ []) ∷ bytes (97 ∷ 98 ∷ []) ∷ eos ∷ [];
  lexer = lexer_from_unvalidated letters_lexer;
  lalr = lalr_from_unvalidated letters_parser 2 (0 ∷ 0 ∷ 1 ∷ []);
}
