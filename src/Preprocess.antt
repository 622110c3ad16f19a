-- ===== src/Preprocess.antt =====
-- Classification of sequence heads from a one-state symbolic stack, after
-- crates/greatgramma-core/src/preprocess.rs.
pub mod Sound
pub mod Table
use greatgramma_rust.Base.{List, [], ◌∷◌, ok, err, ◌>>=◌, Allocator}
use greatgramma_rust.Normalized.{ParserStateId, TerminalId, ValidatedLalr}
use greatgramma_rust.Lalr.{empty_sequence_head, RunDecision, continue, accepted, Parse}
use greatgramma_rust.Lalr.Run.{execute_terminals_symbolic}

pub data SequenceClassification : Type 0 where
  always_readable rejected dependent : SequenceClassification

unfoldable pub classify_decision : RunDecision → SequenceClassification
classify_decision RunDecision.rejected = SequenceClassification.rejected
classify_decision RunDecision.dependent = SequenceClassification.dependent
classify_decision continue = always_readable
classify_decision accepted = always_readable

module _ (alloc : Allocator) (p : ValidatedLalr) where
  unfoldable pub classify_sequence_head :
      ParserStateId → List TerminalId → Parse SequenceClassification
  classify_sequence_head state [] = err empty_sequence_head
  classify_sequence_head state (t ∷ ts) =
      execute_terminals_symbolic alloc p (state ∷ []) (t ∷ ts) >>= λ decision.
      ok (classify_decision decision)
