-- ===== src/Normalized/Lookups.antt =====
-- The lookups of crates/greatgramma-core/src/normalized.rs on well-formed tables: an ID in range
-- always finds its cell, and what a cell names is in range.
use greatgramma_rust.Base.{
  ℕ, zero, suc, ◌+◌, ◌*◌, ◌≤◌, ◌<◌, ◌≡◌, refl, sym, ap, ◌∙◌, not, ◌==◌, Bool, ◌≢◌, Option, some,
  length, get_elem?, get_elem?-total, arith, checked_add, checked_mul, u32_max, checked_mul-eq-some,
  checked_add-eq-some, ok, List,
}
use greatgramma_rust.Normalized.{
  DfaStateId, TerminalId, ValidatedLexer, ValidatedLalr, Action, checked_index, byte_class,
  transition_cell, transition, terminal, is_ignored, action, goto,
}
use greatgramma_rust.Normalized.WellFormed.{LexerIsWellFormed, LalrIsWellFormed}

-- A cell of a table of `rows` rows of `width` cells.
cell-lt :
    (row rows column width : ℕ) → row < rows → column < width → row * width + column < rows * width
cell-lt row zero column width h g = absurd (omega arith)
cell-lt zero (suc rows) column width h g = ground arith
cell-lt (suc row) (suc rows) column width h g =
    omega (arith, cell-lt row rows column width (omega arith) g)

pub checked_index-eq-some : (id count : ℕ) → id < count → checked_index id count ≡ some id
unfolding checked_index
checked_index-eq-some id count h = ground arith

-- The two checked operations that find a cell.
cell-eq-some :
    {A : Type 0} (xs : List A) (row rows column width : ℕ)
    → length xs ≡ rows * width
    → length xs ≤ u32_max
    → row < rows
    → column < width
    → (x : A) × (checked_mul row width ≡ some (row * width))
      × (checked_add (row * width) column ≡ some (row * width + column))
      × (get_elem? xs (row * width + column) ≡ some x)
cell-eq-some xs row rows column width e fits h g =
    let lt = cell-lt row rows column width h g in
    let (x, f) = get_elem?-total xs (row * width + column) (omega (arith, lt, e)) in
    (
      x,
      checked_mul-eq-some row width (omega (arith, lt, e, fits)),
      checked_add-eq-some (row * width) column (omega (arith, lt, e, fits)),
      f,
    )

module _ (l : ValidatedLexer) (terminals eof : ℕ) (w : LexerIsWellFormed l terminals eof) where
  transition_cell-eq-some :
      (q class : ℕ)
      → q < l.state_count
      → class < l.class_count
      → (r : Option DfaStateId) × (transition_cell l q class ≡ some r)
        × ((q' : DfaStateId) → r ≡ some q' → q' < l.state_count)
  unfolding transition_cell
  transition_cell-eq-some q class h g =
      let (r, e, e', f) =
        cell-eq-some l.transitions q l.state_count class l.class_count w.transitions_length
          w.cells_fit h g in
      (r, rw (e, e') f, λ q' k. w.destinations (q * l.class_count + class) q' (rw (sym k) f))

  transition_of :
      {E : Type 0} (q b class : ℕ)
      → q < l.state_count
      → get_elem? l.byte_classes b ≡ some class
      → transition {E = E} l q b ≡ ok (transition_cell l q class)
  unfolding transition byte_class checked_index
  transition_of q b class h e = ground arith

  -- A byte at a state in range finds a transition or its absence.
  pub transition-eq-ok :
      {E : Type 0} (q b : ℕ)
      → q < l.state_count
      → b < 256
      → (r : Option DfaStateId) × (transition {E = E} l q b ≡ ok (some r))
        × ((q' : DfaStateId) → r ≡ some q' → q' < l.state_count)
  transition-eq-ok q b h g =
      let (class, e) = get_elem?-total l.byte_classes b (omega (arith, w.classes_length, g)) in
      let (r, f, k) = transition_cell-eq-some q class h (w.classes b class e) in
      (r, transition_of q b class h e ∙ ap ok f, k)

  pub terminal-eq-some :
      (q : ℕ)
      → q < l.state_count
      → (r : Option TerminalId) × (terminal l q ≡ some r)
        × ((t : TerminalId) → r ≡ some t → (t < terminals) × (t ≢ eof))
  unfolding terminal
  terminal-eq-some q h =
      let (r, e) = get_elem?-total l.terminals q (omega (arith, w.terminals_length, h)) in
      (r, rw (checked_index-eq-some q l.state_count h) e, λ t k. w.accepted q t (rw (sym k) e))

module _ (p : ValidatedLalr) (w : LalrIsWellFormed p) where
  pub is_ignored-eq-some :
      (t : ℕ) → t < p.dimensions.terminal_count → (b : Bool) × (is_ignored p t ≡ some b)
  unfolding is_ignored
  is_ignored-eq-some t h =
      let (n, e) = get_elem?-total p.ignored_terminals t (omega (arith, w.ignored_length, h)) in
      (not (n == 0), rw (checked_index-eq-some t p.dimensions.terminal_count h, e) refl)

  pub action-eq-some :
      (s t : ℕ)
      → s < p.dimensions.state_count
      → t < p.dimensions.terminal_count
      → (a : Action) × (action p s t ≡ some a)
        × (get_elem? p.actions (s * p.dimensions.terminal_count + t) ≡ some a)
  unfolding action
  action-eq-some s t h g =
      let (a, e, e', f) =
        cell-eq-some p.actions s p.dimensions.state_count t p.dimensions.terminal_count
          w.actions_length (omega (arith, w.cells_fit)) h g in
      (
        a,
        rw
            (
              checked_index-eq-some s p.dimensions.state_count h,
              checked_index-eq-some t p.dimensions.terminal_count g,
              e,
              e',
            )
            f,
        f,
      )

  pub goto-eq-some :
      (s n : ℕ)
      → s < p.dimensions.state_count
      → n < p.dimensions.nonterminal_count
      → (r : Option ℕ) × (goto p s n ≡ some r)
        × ((s' : ℕ) → r ≡ some s' → s' < p.dimensions.state_count)
  unfolding goto
  goto-eq-some s n h g =
      let (r, e, e', f) =
        cell-eq-some p.gotos s p.dimensions.state_count n p.dimensions.nonterminal_count
          w.gotos_length (omega (arith, w.cells_fit)) h g in
      (
        r,
        rw
            (
              checked_index-eq-some s p.dimensions.state_count h,
              checked_index-eq-some n p.dimensions.nonterminal_count g,
              e,
              e',
            )
            f,
        λ s' k. w.gotos (s * p.dimensions.nonterminal_count + n) s' (rw (sym k) f),
      )
