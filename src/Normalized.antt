-- ===== src/Normalized.antt =====
-- Normalized grammar tables and their read-only lookups, after
-- crates/greatgramma-core/src/normalized.rs and ids.rs. An ID is its `u32` value.
pub mod WellFormed
pub mod Lookups
use greatgramma_rust.Base.{
  ℕ, Bool, not, Option, none, some, List, get_elem?, leb, ◌==◌, if◌then◌else◌, Outcome, ok,
  index_or_panic, ◌>>=◌ as bind, checked_add, checked_mul,
}

abbrev pub TokenId : Type 0
TokenId = ℕ

abbrev pub DfaStateId : Type 0
DfaStateId = ℕ

abbrev pub TerminalId : Type 0
TerminalId = ℕ

abbrev pub ParserStateId : Type 0
ParserStateId = ℕ

abbrev pub NonterminalId : Type 0
NonterminalId = ℕ

abbrev pub ProductionId : Type 0
ProductionId = ℕ

abbrev pub SequenceId : Type 0
SequenceId = ℕ

pub data TokenEntry : Type 0 where
  bytes : List ℕ → TokenEntry
  eos : TokenEntry

pub record LexerDfa : Type 0 where
  pub state_count : ℕ
  pub class_count : ℕ
  pub byte_classes : List ℕ
  pub transitions : List (Option DfaStateId)
  pub start_state : DfaStateId
  pub terminals : List (Option TerminalId)

pub record LalrDimensions : Type 0 where
  pub state_count : ℕ
  pub terminal_count : ℕ
  pub nonterminal_count : ℕ

pub data Action : Type 0 where
  error : Action
  shift : ParserStateId → Action
  reduce : (production rank : ℕ) → Action
  accept : Action

pub record Production : Type 0 where
  pub lhs : NonterminalId
  pub pop_len : ℕ

pub record LalrTable : Type 0 where
  pub dimensions : LalrDimensions
  pub start_state : ParserStateId
  pub eof_terminal : TerminalId
  pub actions : List Action
  pub gotos : List (Option ParserStateId)
  pub productions : List Production
  pub ignored_terminals : List TerminalId

pub record UnvalidatedGrammar : Type 0 where
  pub tokens : List TokenEntry
  pub lexer : LexerDfa
  pub lalr : LalrTable

-- The validated lexer has the same fields as the caller's.
pub record ValidatedLexer : Type 0 where
  pub state_count : ℕ
  pub class_count : ℕ
  pub byte_classes : List ℕ
  pub transitions : List (Option DfaStateId)
  pub start_state : DfaStateId
  pub terminals : List (Option TerminalId)

pub record ValidatedLalr : Type 0 where
  pub dimensions : LalrDimensions
  pub start_state : ParserStateId
  pub eof_terminal : TerminalId
  pub actions : List Action
  pub gotos : List (Option ParserStateId)
  pub production_count : ℕ
  pub productions : List Production
  pub ignored_terminals : List ℕ

pub record ValidatedGrammar : Type 0 where
  pub token_count : ℕ
  pub tokens : List TokenEntry
  pub lexer : ValidatedLexer
  pub lalr : ValidatedLalr

-- `Option::and_then`, for the `?` of the lookups.
infixl 5 ◌>>=◌
abbrev pub ◌>>=◌ {ℓ κ} : {A : Type ℓ} {B : Type κ} → Option A → (A → Option B) → Option B
none >>= f = none
some a >>= f = f a

unfoldable pub checked_index : ℕ → ℕ → Option ℕ
checked_index id count = if leb count id then none else some id

-- `ValidatedGrammar::token`.
unfoldable pub token : ValidatedGrammar → TokenId → Option TokenEntry
token g id = get_elem? g.tokens id

-- The lookups of `ValidatedLexer`. `byte_class` indexes the class table and may panic.
unfoldable pub byte_class {ℓ} : {E : Type ℓ} → ValidatedLexer → ℕ → Outcome E ℕ
byte_class l byte = index_or_panic l.byte_classes byte

-- The cell of a checked state and a class: the rest of `transition` behind its two lookups.
unfoldable pub transition_cell : ValidatedLexer → ℕ → ℕ → Option (Option DfaStateId)
unfolding checked_mul checked_add
transition_cell l state_index class = do
  row_start ← checked_mul state_index l.class_count
  cell ← checked_add row_start class
  get_elem? l.transitions cell

unfoldable pub transition {ℓ} :
    {E : Type ℓ} → ValidatedLexer → DfaStateId → ℕ → Outcome E (Option (Option DfaStateId))
unfolding checked_index byte_class transition_cell
transition l state byte = elim (checked_index state l.state_count) [
  | none ↦ ok none
  | some state_index ↦ bind (byte_class l byte) λ class. ok (transition_cell l state_index class)
]

unfoldable pub terminal : ValidatedLexer → DfaStateId → Option (Option TerminalId)
unfolding checked_index
terminal l state = do
  state_index ← checked_index state l.state_count
  get_elem? l.terminals state_index

-- The lookups of `ValidatedLalr`.
unfoldable pub is_ignored : ValidatedLalr → TerminalId → Option Bool
unfolding checked_index
is_ignored p t = do
  terminal_index ← checked_index t p.dimensions.terminal_count
  ignored ← get_elem? p.ignored_terminals terminal_index
  some (not (ignored == 0))

unfoldable pub action : ValidatedLalr → ParserStateId → TerminalId → Option Action
unfolding checked_index checked_mul checked_add
action p s t = do
  state_index ← checked_index s p.dimensions.state_count
  terminal_index ← checked_index t p.dimensions.terminal_count
  row_start ← checked_mul state_index p.dimensions.terminal_count
  cell ← checked_add row_start terminal_index
  get_elem? p.actions cell

unfoldable pub goto : ValidatedLalr → ParserStateId → NonterminalId → Option (Option ParserStateId)
unfolding checked_index checked_mul checked_add
goto p s n = do
  state_index ← checked_index s p.dimensions.state_count
  nonterminal_index ← checked_index n p.dimensions.nonterminal_count
  row_start ← checked_mul state_index p.dimensions.nonterminal_count
  cell ← checked_add row_start nonterminal_index
  get_elem? p.gotos cell

unfoldable pub production : ValidatedLalr → ProductionId → Option Production
production p id = get_elem? p.productions id
