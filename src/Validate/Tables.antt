-- ===== src/Validate/Tables.antt =====
-- The checks of the table entries in crates/greatgramma-core/src/validate.rs.
use greatgramma_rust.Base.{
  ℕ, suc, ◌/◌, ◌%◌, Bool, true, false, Option, none, some, List, [], ◌∷◌, length, set, replicate,
  leb, ltb, ◌==◌, if◌then◌else◌, ok, err, fault, panic, ◌>>=◌, ◌>>◌, for_each, Allocator,
}
use greatgramma_rust.Normalized.{
  TokenEntry, bytes, eos, DfaStateId, TerminalId, ParserStateId, Action, shift, reduce, accept,
  Production,
}
use greatgramma_rust.Errors.{
  ValidationTable, IdKind, ArithmeticKind, LimitKind, missing_ordinary_token, missing_eos_token,
  empty_token_bytes, byte_class_out_of_range, accepting_lexer_start, lexer_terminal_is_parser_eof,
  ignored_terminal_is_parser_eof, accept_on_non_eof, arithmetic_overflow, allocation_failure,
  ValidationLimits,
}
use greatgramma_rust.Validate.Checks.{
  Check, validate_id, check_limit, index_as_u32, add_u64, count_as_usize,
}

unfoldable pub validate_transition : ℕ → ℕ → Option DfaStateId → Check (Unit {0})
validate_transition state_count index none = ok tt
validate_transition state_count index (some destination) =
    validate_id ValidationTable.lexer_transitions (some index) IdKind.dfa_state destination
      state_count

unfoldable pub validate_transitions : List (Option DfaStateId) → ℕ → Check (Unit {0})
validate_transitions transitions state_count =
    for_each (validate_transition state_count) 0 transitions

-- What a DFA state in range may not accept.
abbrev reject_terminal : DfaStateId → TerminalId → TerminalId → ℕ → Check (Unit {0})
reject_terminal start_state eof_terminal terminal state =
    if state == start_state
    then err (accepting_lexer_start state terminal)
    else if terminal == eof_terminal
    then err (lexer_terminal_is_parser_eof state terminal)
    else ok tt

unfoldable pub validate_lexer_terminal :
    DfaStateId → ℕ → TerminalId → ℕ → Option TerminalId → Check (Unit {0})
validate_lexer_terminal start_state terminal_count eof_terminal index none = ok tt
validate_lexer_terminal start_state terminal_count eof_terminal index (some terminal) = do
  validate_id ValidationTable.lexer_terminals (some index) IdKind.terminal terminal terminal_count
  state ← index_as_u32 index ArithmeticKind.lexer_cells
  reject_terminal start_state eof_terminal terminal state

unfoldable pub validate_lexer_terminals :
    List (Option TerminalId) → DfaStateId → ℕ → TerminalId → Check (Unit {0})
validate_lexer_terminals terminals start_state terminal_count eof_terminal =
    for_each (validate_lexer_terminal start_state terminal_count eof_terminal) 0 terminals

unfoldable pub validate_goto : ℕ → ℕ → Option ParserStateId → Check (Unit {0})
validate_goto state_count index none = ok tt
validate_goto state_count index (some destination) =
    validate_id ValidationTable.parser_gotos (some index) IdKind.parser_state destination
      state_count

unfoldable pub validate_gotos : List (Option ParserStateId) → ℕ → Check (Unit {0})
validate_gotos gotos state_count = for_each (validate_goto state_count) 0 gotos

unfoldable pub validate_productions : List Production → ℕ → Check (Unit {0})
validate_productions productions nonterminal_count =
    for_each
      (λ index prod.
        validate_id ValidationTable.productions (some index) IdKind.nonterminal prod.lhs
          nonterminal_count)
      0 productions

-- An index that fits no byte is an overflow: the table has 256 entries.
unfoldable pub validate_byte_class : ℕ → ℕ → ℕ → Check (Unit {0})
validate_byte_class class_count index byte_class =
    if leb class_count byte_class
    then (if ltb index 256
        then err (byte_class_out_of_range index byte_class class_count)
        else err (arithmetic_overflow ArithmeticKind.lexer_cells))
    else ok tt

unfoldable pub validate_byte_classes : List ℕ → ℕ → Check (Unit {0})
validate_byte_classes classes class_count = for_each (validate_byte_class class_count) 0 classes

-- Division by a width of zero panics.
unfoldable pub validate_action : ℕ → ℕ → ℕ → TerminalId → ℕ → Action → Check (Unit {0})
validate_action terminal_width state_count production_count eof_terminal index Action.error = ok tt
validate_action terminal_width state_count production_count eof_terminal index (shift destination) =
    validate_id ValidationTable.parser_actions (some index) IdKind.parser_state destination
      state_count
validate_action terminal_width state_count production_count eof_terminal index
      (reduce production rank) =
    validate_id ValidationTable.parser_actions (some index) IdKind.production production
      production_count
validate_action terminal_width state_count production_count eof_terminal index accept =
    if terminal_width == 0 then fault panic else (do
      terminal ← index_as_u32 (index % terminal_width) ArithmeticKind.parser_action_cells
      if terminal == eof_terminal then ok tt else (do
        state ← index_as_u32 (index / terminal_width) ArithmeticKind.parser_action_cells
        err (accept_on_non_eof state terminal)))

unfoldable pub validate_actions : List Action → ℕ → ℕ → ℕ → TerminalId → Check (Unit {0})
validate_actions actions state_count terminal_count production_count eof_terminal = do
  terminal_width ← count_as_usize terminal_count ArithmeticKind.parser_action_cells
  for_each (validate_action terminal_width state_count production_count eof_terminal) 0 actions

unfoldable pub validate_ignored_terminal : ℕ → TerminalId → ℕ → TerminalId → Check (Unit {0})
validate_ignored_terminal terminal_count eof_terminal index terminal = do
  validate_id ValidationTable.parser_ignored_terminals (some index) IdKind.terminal terminal
      terminal_count
  if terminal == eof_terminal then err (ignored_terminal_is_parser_eof index terminal) else ok tt

unfoldable pub validate_ignored_terminals : List TerminalId → ℕ → TerminalId → Check (Unit {0})
validate_ignored_terminals ignored_terminals terminal_count eof_terminal =
    for_each (validate_ignored_terminal terminal_count eof_terminal) 0 ignored_terminals

-- `table.get_mut(index)`, then the write.
unfoldable pub mark_ignored_terminal : List ℕ → TerminalId → Check (List ℕ)
mark_ignored_terminal table terminal =
    if ltb terminal (length table)
    then ok (set table terminal 1)
    else err (arithmetic_overflow ArithmeticKind.ignored_terminal_count)

unfoldable pub mark_ignored_terminals : List ℕ → List TerminalId → Check (List ℕ)
mark_ignored_terminals table [] = ok table
mark_ignored_terminals table (t ∷ ts) =
    mark_ignored_terminal table t >>= λ marked. mark_ignored_terminals marked ts

unfoldable pub build_ignored_terminal_table : Allocator → List TerminalId → ℕ → Check (List ℕ)
build_ignored_terminal_table alloc ignored_terminals terminal_count = do
  requested ← count_as_usize terminal_count ArithmeticKind.ignored_terminal_count
  if alloc requested
      then mark_ignored_terminals (replicate requested 0) ignored_terminals
      else err (allocation_failure ValidationTable.parser_ignored_terminals requested)

pub record TokenValidation : Type 0 where
  pub has_ordinary : Bool
  pub has_eos : Bool
  pub total_bytes : ℕ
  pub work : ℕ

-- The bytes of a nonempty ordinary token, after the charge for its entry.
unfoldable pub count_token_bytes :
    ℕ → ℕ → TokenValidation → ValidationLimits → Check TokenValidation
count_token_bytes byte_count work state limits = do
  total_bytes ← add_u64 state.total_bytes byte_count ArithmeticKind.token_bytes
  check_limit LimitKind.token_bytes total_bytes limits.max_token_bytes
  work' ← add_u64 work byte_count ArithmeticKind.work
  check_limit LimitKind.work work' limits.max_work
  ok (record state { has_ordinary = true; total_bytes = total_bytes; work = work' })

abbrev validate_entry_bytes :
    TokenEntry → ℕ → ℕ → TokenValidation → ValidationLimits → Check TokenValidation
validate_entry_bytes (bytes []) index work state limits =
    index_as_u32 index ArithmeticKind.token_count >>= λ token. err (empty_token_bytes token)
validate_entry_bytes (bytes (b ∷ bs)) index work state limits =
    count_token_bytes (length (b ∷ bs)) work state limits
validate_entry_bytes eos index work state limits = ok (record state { has_eos = true; work = work })

-- The state after one entry.
unfoldable pub validate_token_entry :
    TokenEntry → ℕ → TokenValidation → ValidationLimits → Check TokenValidation
validate_token_entry token index state limits = do
  work ← add_u64 state.work 1 ArithmeticKind.work
  check_limit LimitKind.work work limits.max_work
  validate_entry_bytes token index work state limits

unfoldable pub validate_token_entries :
    List TokenEntry → ℕ → TokenValidation → ValidationLimits → Check TokenValidation
validate_token_entries [] index state limits = ok state
validate_token_entries (t ∷ ts) index state limits =
    validate_token_entry t index state limits >>= λ state'.
    validate_token_entries ts (suc index) state' limits

unfoldable pub validate_tokens : List TokenEntry → ℕ → ValidationLimits → Check ℕ
validate_tokens tokens initial_work limits = do
  state ←
      validate_token_entries tokens 0
        (record { has_ordinary = false; has_eos = false; total_bytes = 0; work = initial_work })
        limits
  if state.has_ordinary
      then (if state.has_eos then ok state.total_bytes else err missing_eos_token)
      else err missing_ordinary_token
