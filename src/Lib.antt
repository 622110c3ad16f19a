-- ===== src/Lib.antt =====
-- greatgramma: grammar-constrained decoding over a lexer DFA and an LALR table.
--
-- A caller gives normalized tables: the byte strings of the model's tokens, a lexer DFA over bytes
-- and an LALR table over terminals. Validation checks them once. At decoding time a token is run
-- through the lexer, which emits terminals; the terminals are run through the parser's stack. A
-- preparation step runs every token from every lexer state, sorts the tokens into buckets by the
-- terminal sequences that they may begin, and executes each such sequence from one parser state
-- alone, so that most tokens are allowed or refused later without running the parser. A matcher has
-- a row for each text in progress; it answers whether a token may come next, writes the mask of
-- all tokens that may, and advances the rows by a token each.
--
-- Which file models which part, with paths from the repository's root:
--   Base            the shared names; outcomes of fallible code, vectors, machine integers
--   Normalized      crates/greatgramma-core/src/normalized.rs and ids.rs: the tables and their
--                   lookups (`ValidatedLexer::transition` is `transition`, `ValidatedLalr::action`
--                   is `action`, and so on); WellFormed says what shape the lookups rely on, and
--                   Lookups that they then find their cells
--   Errors          crates/greatgramma-core/src/error.rs, and limits.rs: the validation limits
--   Validate        crates/greatgramma-core/src/validate.rs: Checks has the elementary checks,
--                   Tables those of the entries, Sizes the declared sizes and budgets
--   Lexer           crates/greatgramma-core/src/lexer.rs
--   TokenStep       crates/greatgramma-core/src/token_step.rs: `execute_token` and what it calls;
--                   Munch has the relation of maximal munch, its specification; Budget and
--                   Table have the work budget and the prepared token table
--   Lalr            crates/greatgramma-core/src/lalr.rs; Run has its runs over a slice of
--                   terminals, Reference crates/greatgramma-core/src/lalr_reference.rs
--   Sequence        crates/greatgramma-core/src/sequence.rs: the interned heads, and in Facts the
--                   fixpoint of the terminals that a lexer state may emit next
--   Spanner         crates/greatgramma-core/src/spanner.rs: from a lexer state and a head to tokens
--   Preprocess      crates/greatgramma-core/src/preprocess.rs: `classify_sequence_head`, and in
--                   Table the classification of every head on every parser state
--   Mask            crates/greatgramma-core/src/mask.rs
--   Engine          crates/greatgramma-core/src/engine.rs: Errors, the evaluation of a token for
--                   the status of a row, Masks the mask of a status, Matcher the rows of a matcher
--                   and their advances, and Matcher/Masks the masks of its rows
--   Examples        a grammar of lists of letters, on which the theorems are tried
-- A function keeps the name that it has in the source. Where the source has one long function, its
-- parts are functions of their own, beside it.
--
-- How Rust becomes functions here:
--   * A fallible function returns an `Outcome`: `ok`, `err` with the source's error, or a `fault`,
--     for an index out of range (`panic`) or a loop of the model without fuel (`out_of_fuel`).
--   * Whether a reservation succeeds is a parameter `alloc`, a test on the number of elements. A
--     theorem that needs every reservation to succeed says so. A push asks at every element and a
--     copy into a buffer at every copy, where the source asks only if the vector is full or the
--     buffer is too small; so `alloc` may refuse here what the source has room for, and the errors
--     of a run on a fresh buffer and of one on a kept buffer are compared with room for all.
--   * An ID is its `u32` value, a number; a `usize` has 64 bits, and every checked operation of the
--     source is a checked operation here. Lengths of vectors are not bounded otherwise.
--   * A parser stack is a list whose head is the top, the reverse of the source's vector. The
--     buffers and scratch stacks that the lexer and the parser leave after an error are not
--     modelled: callers overwrite them. So the matcher has no scratch stack, and a token that fails
--     keeps its row of staging as it was.
--   * A method that writes into a mask or into a matcher's rows passes them on, and its error comes
--     with what they hold by then (`leaving`): clearing the mask and keeping the rows are left to
--     the caller, as in the source.
--   * A loop over a slice is structural recursion. The `loop` of `run_terminal` is on fuel:
--     `rank_rounds` of the largest rank in the table and of the stack's height. The progress check
--     lets a reduction keep its rank only if it shortens the stack, so the fuel is enough. The
--     loop of `propagate_facts` has one round for each mark and one more, and there is a mark of its
--     own for every fact.
--
-- Not modelled: the compiler of grammars and tokenizers (crates/greatgramma-compile), which runs
-- before any of this and builds its automata with third-party crates, the Python binding
-- (crates/greatgramma-python), the fuzz targets and the tests.
pub mod Base
pub mod Normalized
pub mod Lexer
pub mod TokenStep
pub mod Lalr
pub mod Preprocess
pub mod Sequence
pub mod Spanner
pub mod Errors
pub mod Validate
pub mod Mask
pub mod Engine
pub mod Examples
