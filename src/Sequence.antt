-- ===== src/Sequence.antt =====
-- The table of sequences: singleton terminals of each lexer state, and interned heads, after
-- crates/greatgramma-core/src/sequence.rs.
pub mod Facts
pub mod Interning
use greatgramma_rust.Base.{
  ℕ, suc, ◌+◌, Bool, true, false, ◌&&◌, Option, none, some, List, [], ◌∷◌, ◌++◌, length, get_elem?,
  ◌==◌, Outcome, ok, err, ◌>>=◌, ◌>>◌, ok_or, checked_add, try_u32, Allocator,
}
use greatgramma_rust.Normalized.{TerminalId, SequenceId}
use greatgramma_rust.TokenStep.Budget.{
  invariant_violation, PreparationLimits, WorkBudget, Prepare, check_items, charge, prepared_vec,
  prepared_push,
}

pub record SequenceTable : Type 0 where
  pub singletons : List (List TerminalId)
  pub sequences : List (List TerminalId)
  pub sequence_items : ℕ

-- `Option::and_then`, for a lookup in a row that may be missing.
abbrev pub in_row : Option (List TerminalId) → ℕ → Option TerminalId
in_row none index = none
in_row (some row) index = get_elem? row index

unfoldable pub singleton : SequenceTable → ℕ → Option (List TerminalId)
singleton table source = get_elem? table.singletons source

unfoldable pub singleton_terminal : SequenceTable → ℕ → ℕ → Option TerminalId
singleton_terminal table source index = in_row (get_elem? table.singletons source) index

abbrev pub row_length : Option (List TerminalId) → Option ℕ
row_length none = none
row_length (some row) = some (length row)

unfoldable pub singleton_count : SequenceTable → ℕ → Option ℕ
singleton_count table source = row_length (get_elem? table.singletons source)

unfoldable pub sequence_count : SequenceTable → ℕ
sequence_count table = length table.sequences

unfoldable pub sequence : SequenceTable → SequenceId → Option (List TerminalId)
sequence table id = get_elem? table.sequences id

-- Equality of two vectors of terminals.
unfoldable pub terminals_eq : List TerminalId → List TerminalId → Bool
terminals_eq [] [] = true
terminals_eq [] (t ∷ ts) = false
terminals_eq (t ∷ ts) [] = false
terminals_eq (t ∷ ts) (u ∷ us) = (t == u) && terminals_eq ts us

unfoldable pub sequence_id : ℕ → Prepare SequenceId
unfolding try_u32
sequence_id index = ok_or (try_u32 index) invariant_violation

-- `copy_direct`: each terminal is pushed, within the capacity that is reserved.
unfoldable pub copy_direct : List TerminalId → List TerminalId → List TerminalId
copy_direct [] destination = destination
copy_direct (t ∷ ts) destination = copy_direct ts (destination ++ t ∷ [])

-- `find_sequence` from `index` on, with the budget that it leaves.
unfoldable pub find_sequence :
    List (List TerminalId) → List TerminalId → ℕ → ℕ → WorkBudget → Prepare (Option ℕ × WorkBudget)
find_sequence [] head head_len index work = ok (none, work)
find_sequence (candidate ∷ rest) head head_len index work = charge work head_len >>= λ work'.
    elim (terminals_eq candidate head) [
      | true ↦ ok (some index, work')
      | false ↦ find_sequence rest head head_len (suc index) work'
    ]

abbrev pub Interned : Type 0
Interned = SequenceId × SequenceTable × WorkBudget

module _ (alloc : Allocator) (limits : PreparationLimits) where
  -- A head that is not there yet gets the next ID.
  unfoldable pub intern_new : SequenceTable → List TerminalId → ℕ → WorkBudget → Prepare Interned
  intern_new table head head_len work = do
    new_count ← check_items (checked_add (length table.sequences) 1) limits
    id ← sequence_id (length table.sequences)
    sequence_items ← check_items (checked_add table.sequence_items head_len) limits
    sequences ← prepared_push alloc table.sequences head
    ok (id, record table { sequences = sequences; sequence_items = sequence_items }, work)

  abbrev pub after_find :
      SequenceTable → List TerminalId → ℕ → Option ℕ × WorkBudget → Prepare Interned
  unfolding intern_new
  after_find table head head_len (some index, work) =
      sequence_id index >>= λ id. ok (id, table, work)
  after_find table head head_len (none, work) = intern_new table head head_len work

  unfoldable pub intern_head :
      SequenceTable → List TerminalId → TerminalId → WorkBudget → Prepare Interned
  unfolding intern_new
  intern_head table direct continuation work = do
    head_len ← check_items (checked_add (length direct) 1) limits
    work' ← charge work (length direct)
    prepared_vec alloc head_len
    let head = copy_direct direct [] ++ continuation ∷ []
    found ← find_sequence table.sequences head head_len 0 work'
    after_find table head head_len found
