-- ===== src/Validate/Ignored.antt =====
-- The table of ignored terminals that crates/greatgramma-core/src/validate.rs builds.
use greatgramma_rust.Base.{
  ℕ, ◌<◌, ◌≡◌, refl, sym, ap, subst, ◌∙◌, Bool, true, false, ◌||◌, not, Bool-cases, inl, inr, some,
  List, [], ◌∷◌, length, get_elem?, set, replicate, get_elem?-set_self, get_elem?-set_ne,
  get_elem?-replicate, ◌==◌, ==→≡, ==→≢, arith, ok, >>=-eq-ok, Allocator,
}
use greatgramma_rust.Normalized.{
  TerminalId, UnvalidatedGrammar, ValidatedLalr, ValidatedGrammar, is_ignored,
}
use greatgramma_rust.Normalized.Lookups.{checked_index-eq-some}
use greatgramma_rust.Errors.{ValidationLimits}
use greatgramma_rust.Validate.{
  validate, validate_lengths, validate_starts, validate_entries, lalr_from_unvalidated,
}
use greatgramma_rust.Validate.Checks.{Check, count_as_usize}
use greatgramma_rust.Validate.Tables.{
  mark_ignored_terminal, mark_ignored_terminals, build_ignored_terminal_table,
}
use greatgramma_rust.Validate.Sizes.{validate_declared_sizes}

-- Whether a terminal is listed.
abbrev pub listed : TerminalId → List TerminalId → Bool
listed t [] = false
listed t (u ∷ us) = (t == u) || listed t us

-- The mark of a terminal, from the mark it has.
abbrev marked_as : Bool → ℕ → ℕ
marked_as true n = 1
marked_as false n = n

mark_ignored_terminal-eq-ok :
    (table table' : List ℕ) (u : ℕ)
    → mark_ignored_terminal table u ≡ ok table'
    → (u < length table) × (table' ≡ set table u 1)
unfolding mark_ignored_terminal
mark_ignored_terminal-eq-ok table table' u h = (ground arith, ground arith)

set-get_elem? :
    (table : List ℕ) (u t n : ℕ) (b : Bool)
    → (t == u) ≡ b
    → u < length table
    → get_elem? table t ≡ some n
    → get_elem? (set table u 1) t ≡ some (marked_as b n)
set-get_elem? table u t n true k l e =
    subst (λ x. get_elem? (set table u 1) x ≡ some 1) (sym (==→≡ t u k))
      (get_elem?-set_self table u 1 l)
set-get_elem? table u t n false k l e = get_elem?-set_ne table u t 1 (λ x. ==→≢ t u k (sym x)) ∙ e

mark_ignored_terminal-get_elem? :
    (table table' : List ℕ) (u t n : ℕ)
    → mark_ignored_terminal table u ≡ ok table'
    → get_elem? table t ≡ some n
    → get_elem? table' t ≡ some (marked_as (t == u) n)
mark_ignored_terminal-get_elem? table table' u t n h e =
    let (l, f) = mark_ignored_terminal-eq-ok table table' u h in
    subst (λ x. get_elem? x t ≡ some (marked_as (t == u) n)) (sym f)
      (set-get_elem? table u t n (t == u) refl l e)

marked_as_or : (a b : Bool) (n : ℕ) → marked_as b (marked_as a n) ≡ marked_as (a || b) n
marked_as_or true true n = refl
marked_as_or true false n = refl
marked_as_or false b n = refl

mark_ignored_terminals-get_elem? :
    (ts table marked : List ℕ) (t n : ℕ)
    → mark_ignored_terminals table ts ≡ ok marked
    → get_elem? table t ≡ some n
    → get_elem? marked t ≡ some (marked_as (listed t ts) n)
unfolding mark_ignored_terminals
mark_ignored_terminals-get_elem? [] table marked t n h e = ground arith
mark_ignored_terminals-get_elem? (u ∷ us) table marked t n h e =
    let (table', f, g) = >>=-eq-ok (mark_ignored_terminal table u) _ h in
    mark_ignored_terminals-get_elem? us table' marked t (marked_as (t == u) n) g
      (mark_ignored_terminal-get_elem? table table' u t n f e)
    ∙ ap some (marked_as_or (t == u) (listed t us) n)

ignored_of_mark : (b : Bool) → not (marked_as b 0 == 0) ≡ b
ignored_of_mark true = refl
ignored_of_mark false = refl

build_ignored_terminal_table-get_elem? :
    (alloc : Allocator) (ts : List TerminalId) (count : ℕ) (table : List ℕ) (t : ℕ)
    → build_ignored_terminal_table alloc ts count ≡ ok table
    → t < count
    → get_elem? table t ≡ some (marked_as (listed t ts) 0)
unfolding build_ignored_terminal_table count_as_usize
build_ignored_terminal_table-get_elem? alloc ts count table t h k =
    elim (Bool-cases (alloc count)) [
      | inl e ↦
          mark_ignored_terminals-get_elem? ts (replicate count 0) table t 0 (rw e at h)
            (get_elem?-replicate count 0 t k)
      | inr e ↦ absurd (cc (rw e at h))
    ]

made_inj : {a b : ValidatedGrammar} → ◌≡◌ {A = Check ValidatedGrammar} (ok a) (ok b) → a ≡ b
made_inj h = cc h

is_ignored_of_mark :
    (p : ValidatedLalr) (t : TerminalId) (b : Bool)
    → t < p.dimensions.terminal_count
    → get_elem? p.ignored_terminals t ≡ some (marked_as b 0)
    → is_ignored p t ≡ some b
unfolding is_ignored
is_ignored_of_mark p t b k e =
    rw (checked_index-eq-some t p.dimensions.terminal_count k, e) (ap some (ignored_of_mark b))

-- In a validated grammar a terminal of the parser is ignored exactly if the caller listed it among
-- the ignored terminals.
pub is_ignored-validate :
    (alloc : Allocator) (g : UnvalidatedGrammar) (limits : ValidationLimits) (v : ValidatedGrammar)
    (t : TerminalId)
    → validate alloc g limits ≡ ok v
    → t < g.lalr.dimensions.terminal_count
    → is_ignored v.lalr t ≡ some (listed t g.lalr.ignored_terminals)
unfolding validate
is_ignored-validate alloc g limits v t h k =
    let (sizes, e₁, h₁) = >>=-eq-ok (validate_declared_sizes g.tokens g.lexer g.lalr limits) _ h in
    let (u, e₂, h₂) = >>=-eq-ok (validate_lengths g.lexer g.lalr sizes) _ h₁ in
    let (u', e₃, h₃) = >>=-eq-ok (validate_starts g.lexer g.lalr) _ h₂ in
    let (u'', e₄, h₄) = >>=-eq-ok (validate_entries g.lexer g.lalr sizes.production_count) _ h₃ in
    let (ignored, e₅, h₅) =
      >>=-eq-ok
        (build_ignored_terminal_table alloc g.lalr.ignored_terminals
          g.lalr.dimensions.terminal_count)
        _ h₄ in
    let mark =
      build_ignored_terminal_table-get_elem? alloc g.lalr.ignored_terminals
        g.lalr.dimensions.terminal_count ignored t e₅ k in
    subst (λ x. is_ignored x.lalr t ≡ some (listed t g.lalr.ignored_terminals)) (made_inj h₅)
      (is_ignored_of_mark (lalr_from_unvalidated g.lalr sizes.production_count ignored) t _ k mark)
