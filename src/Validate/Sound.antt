-- ===== src/Validate/Sound.antt =====
-- A grammar that crates/greatgramma-core/src/validate.rs accepts is well formed.
use greatgramma_rust.Base.{
  ℕ, subst, ◌≡◌, ◌∙◌, some, List, [], ◌∷◌, length, get_elem?, set, replicate, try_u32, arith, ok,
  >>=-eq-ok, for_each-at, Allocator, length-set, length-replicate,
}
use greatgramma_rust.Normalized.{
  Action, shift, reduce, accept, TerminalId, LexerDfa, LalrTable, UnvalidatedGrammar,
  ValidatedGrammar,
}
use greatgramma_rust.Normalized.WellFormed.{LalrIsWellFormed, LexerIsWellFormed, IsWellFormed}
use greatgramma_rust.Errors.{ValidationLimits}
use greatgramma_rust.Validate.Checks.{validate_id, count_as_usize, index_as_u32}
use greatgramma_rust.Validate.Tables.{
  validate_transition, validate_transitions, validate_lexer_terminal, validate_lexer_terminals,
  validate_goto, validate_gotos, validate_productions, validate_byte_class, validate_byte_classes,
  validate_action, validate_actions, build_ignored_terminal_table, mark_ignored_terminal,
  mark_ignored_terminals,
}
use greatgramma_rust.Validate.Sizes.{DeclaredSizes, validate_declared_sizes}
use greatgramma_rust.Validate.{
  validate_lengths, validate_starts, validate_entries, validate, lexer_from_unvalidated,
  lalr_from_unvalidated,
}
use greatgramma_rust.Validate.Parts.{
  Entries, Lengths, Starts, Sizes, validate_entries-Entries, validate_lengths-Lengths,
  validate_starts-Starts, validate_declared_sizes-Sizes,
}

length-mark_ignored_terminals :
    (table : List ℕ) (ts : List TerminalId) (marked : List ℕ)
    → mark_ignored_terminals table ts ≡ ok marked
    → length marked ≡ length table
unfolding mark_ignored_terminals mark_ignored_terminal
length-mark_ignored_terminals table [] marked h = ground arith
length-mark_ignored_terminals table (t ∷ ts) marked h =
    ground (arith, length-mark_ignored_terminals (set table t 1) ts marked, length-set table t 1)

length-build_ignored_terminal_table :
    (alloc : Allocator) (ts : List TerminalId) (n : ℕ) (table : List ℕ)
    → build_ignored_terminal_table alloc ts n ≡ ok table
    → length table ≡ n
unfolding build_ignored_terminal_table count_as_usize
length-build_ignored_terminal_table alloc ts n table h =
    ground
      (arith, length-mark_ignored_terminals (replicate n 0) ts table, length-replicate {A = ℕ} n 0)

module _ (l : LexerDfa) (t : LalrTable) (sizes : DeclaredSizes) (tokens : ℕ)
    (z : Sizes l t tokens sizes) (n : Lengths l t sizes) (s : Starts l t)
    (e : Entries l t sizes.production_count) where
  actions_lem :
      (cell : ℕ) (a : Action)
      → get_elem? t.actions cell ≡ some a
      → validate_action t.dimensions.terminal_count t.dimensions.state_count sizes.production_count
          t.eof_terminal cell a
        ≡ ok tt
  unfolding validate_actions count_as_usize
  actions_lem cell a h =
      for_each-at
        (validate_action t.dimensions.terminal_count t.dimensions.state_count sizes.production_count
          t.eof_terminal)
        t.actions cell a e.actions h

  lalr-IsWellFormed :
      (ignored : List ℕ)
      → length ignored ≡ t.dimensions.terminal_count
      → LalrIsWellFormed (lalr_from_unvalidated t sizes.production_count ignored)
  unfolding validate_action validate_id index_as_u32 try_u32 validate_gotos validate_goto
      validate_productions
  lalr-IsWellFormed ignored size = record {
    actions_length = n.actions ∙ z.action_cells;
    gotos_length = n.gotos ∙ z.goto_cells;
    cells_fit = omega (arith, n.actions, n.gotos, z.parser_fits);
    ignored_length = size;
    start_in_range = s.parser_start;
    eof_in_range = s.eof;
    shifts = λ cell state h. ground (arith, actions_lem cell (shift state) h);
    reductions =
        λ cell id rank h. ground (arith, actions_lem cell (reduce id rank) h, z.production_count);
    accepts = λ cell h. ground (arith, actions_lem cell accept h);
    gotos = λ cell state h. ground (
      arith,
      for_each-at (validate_goto t.dimensions.state_count) t.gotos cell (some state) e.gotos h,
    );
    left_sides = λ id prod h. ground (arith, for_each-at _ t.productions id prod e.productions h);
  }

  lexer-IsWellFormed :
      LexerIsWellFormed (lexer_from_unvalidated l) t.dimensions.terminal_count t.eof_terminal
  unfolding validate_transitions validate_transition validate_byte_classes validate_byte_class
      validate_lexer_terminals validate_lexer_terminal validate_id index_as_u32 try_u32
  lexer-IsWellFormed = record {
    classes_length = n.classes;
    transitions_length = n.transitions ∙ z.lexer_cells;
    terminals_length = n.terminals;
    cells_fit = omega (arith, n.transitions, z.lexer_fits);
    start_in_range = s.lexer_start;
    start_not_accepting = λ x h. ground (
      arith,
      for_each-at (validate_lexer_terminal l.start_state t.dimensions.terminal_count t.eof_terminal)
          l.terminals l.start_state (some x) e.terminals h,
    );
    classes = λ byte class h. ground (
      arith,
      for_each-at (validate_byte_class l.class_count) l.byte_classes byte class e.classes h,
    );
    destinations = λ cell state h. ground (
      arith,
      for_each-at (validate_transition l.state_count) l.transitions cell (some state) e.transitions
          h,
    );
    accepted = λ state x h. ground (
      arith,
      for_each-at (validate_lexer_terminal l.start_state t.dimensions.terminal_count t.eof_terminal)
          l.terminals state (some x) e.terminals h,
    );
  }

-- Whatever `validate` accepts, under whatever limits, is well-formed: it has every range and length
-- that the lexer and the parser rely on.
pub validate-IsWellFormed :
    (alloc : Allocator) (g : UnvalidatedGrammar) (limits : ValidationLimits) (v : ValidatedGrammar)
    → validate alloc g limits ≡ ok v
    → IsWellFormed v
unfolding validate
validate-IsWellFormed alloc g limits v h =
    let (sizes, e₁, h₁) = >>=-eq-ok (validate_declared_sizes g.tokens g.lexer g.lalr limits) _ h in
    let (u, e₂, h₂) = >>=-eq-ok (validate_lengths g.lexer g.lalr sizes) _ h₁ in
    let (u', e₃, h₃) = >>=-eq-ok (validate_starts g.lexer g.lalr) _ h₂ in
    let (u'', e₄, h₄) = >>=-eq-ok (validate_entries g.lexer g.lalr sizes.production_count) _ h₃ in
    let (ignored, e₅, h₅) =
      >>=-eq-ok
        (build_ignored_terminal_table alloc g.lalr.ignored_terminals
          g.lalr.dimensions.terminal_count)
        _ h₄ in
    let z = validate_declared_sizes-Sizes g.tokens g.lexer g.lalr limits sizes e₁ in
    let n = validate_lengths-Lengths g.lexer g.lalr sizes e₂ in
    let s = validate_starts-Starts g.lexer g.lalr e₃ in
    let e = validate_entries-Entries g.lexer g.lalr sizes.production_count e₄ in
    let size =
      length-build_ignored_terminal_table alloc g.lalr.ignored_terminals
        g.lalr.dimensions.terminal_count ignored e₅ in
    let made : IsWellFormed (record {
      token_count = sizes.token_count;
      tokens = g.tokens;
      lexer = lexer_from_unvalidated g.lexer;
      lalr = lalr_from_unvalidated g.lalr sizes.production_count ignored;
    }) =
      record {
        token_count = z.token_count;
        lalr = lalr-IsWellFormed g.lexer g.lalr sizes (length g.tokens) z n s e ignored size;
        lexer = lexer-IsWellFormed g.lexer g.lalr sizes (length g.tokens) z n s e;
      } in
    let same : _ ≡ v = ground arith in subst IsWellFormed same made
