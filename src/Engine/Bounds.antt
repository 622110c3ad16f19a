-- ===== src/Engine/Bounds.antt =====
-- The mask of crates/greatgramma-core/src/engine.rs has a bit for every token.
use greatgramma_rust.Base.{
  ℕ, ◌/◌, ◌%◌, ◌^◌, ◌<◌, ◌≤◌, ◌≡◌, ap, List, length, length-set, get_elem?, get_elem?-total,
  set as set_elem, some, arith, ok, Allocator,
}
use greatgramma_rust.Normalized.{TokenId, ValidatedGrammar}
use greatgramma_rust.TokenStep.Budget.{PreparationLimits}
use greatgramma_rust.Mask.{set, set_bit}
use greatgramma_rust.Engine.{PreparedGrammar, prepare}
use greatgramma_rust.Engine.Parts.{prepare-IsPrepared}
use Prim.Native.Nat.{bit_or}

set_at :
    (output : List ℕ) (token byte : ℕ)
    → get_elem? output (token / 8) ≡ some byte
    → (output' : List ℕ) × (set output token ≡ ok output') × (length output' ≡ length output)
unfolding set
set_at output token byte e = (
  set_elem output (token / 8) (bit_or byte (2 ^ (token % 8))),
  ap (set_bit output (token / 8) (token % 8)) e,
  length-set output (token / 8) (bit_or byte (2 ^ (token % 8))),
)

-- In an output of at least the `mask_bytes` that `prepare` computes, `set` never runs out of bounds
-- for a token of the table, and it keeps the length.
pub set-prepare :
    (alloc : Allocator) (limits : PreparationLimits) (g : ValidatedGrammar)
    (prepared : PreparedGrammar) (output : List ℕ) (token : TokenId)
    → prepare alloc g limits ≡ ok prepared
    → prepared.mask_bytes ≤ length output
    → token < prepared.grammar.token_count
    → (output' : List ℕ) × (set output token ≡ ok output') × (length output' ≡ length output)
set-prepare alloc limits g prepared output token h enough lt =
    let (work, work', spanner, parser, bytes) = prepare-IsPrepared alloc limits g prepared h in
    let (byte, e) = get_elem?-total output (token / 8) (omega (arith, bytes)) in
    set_at output token byte e
