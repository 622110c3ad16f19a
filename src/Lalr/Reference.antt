-- ===== src/Lalr/Reference.antt =====
-- Execution of a realizable sequence head: the direct prefix, then a probe of the final terminal,
-- after crates/greatgramma-core/src/lalr_reference.rs.
use greatgramma_rust.Base.{
  ℕ, Bool, true, false, Option, none, some, List, [], ◌∷◌, length, Outcome, ok, err, ◌>>=◌, ◌>>◌,
  ok_or, checked_sub, Allocator,
}
use greatgramma_rust.Normalized.{TerminalId, ValidatedLalr}
use greatgramma_rust.Lalr.{
  ParserError, empty_sequence_head, accept_before_end, invariant_violation, RunDecision, rejected,
  continue, accepted, dependent, Stack, Parse, validate_inputs,
}
use greatgramma_rust.Lalr.Run.{execute_terminals_concrete_into, execute_terminals_concrete_in_place}

-- `sequence_head.get(..len - 1)` and `sequence_head.get(len - 1..)` of a head that is not empty.
abbrev pub direct_prefix : TerminalId → List TerminalId → List TerminalId
direct_prefix t [] = []
direct_prefix t (u ∷ us) = t ∷ direct_prefix u us

abbrev pub final_terminal : TerminalId → List TerminalId → TerminalId
final_terminal t [] = t
final_terminal t (u ∷ us) = final_terminal u us

-- The early returns after the direct prefix, and `then` if the run goes on.
abbrev pub after_direct {ℓ} :
    {A : Type ℓ}
    → ℕ
    → A
    → (Stack → Outcome ParserError A)
    → RunDecision × Stack
    → Outcome ParserError A
after_direct direct_len refused then' (rejected, stack) = ok refused
after_direct direct_len refused then' (continue, stack) = then' stack
after_direct direct_len refused then' (accepted, stack) =
    ok_or (checked_sub direct_len 1) invariant_violation >>= λ last. err (accept_before_end last)
after_direct direct_len refused then' (dependent, stack) = err invariant_violation

-- The decision of the probe.
abbrev pub after_probe {ℓ} : {A : Type ℓ} → A → A → RunDecision × Stack → Outcome ParserError A
after_probe refused allowed (rejected, stack) = ok refused
after_probe refused allowed (continue, stack) = ok allowed
after_probe refused allowed (accepted, stack) = ok allowed
after_probe refused allowed (dependent, stack) = err invariant_violation

module _ (alloc : Allocator) (p : ValidatedLalr) where
  unfoldable pub execute_sequence_head_checked : Stack → List TerminalId → Parse (Option Stack)
  execute_sequence_head_checked stack [] = err invariant_violation
  execute_sequence_head_checked stack (t ∷ ts) =
      let direct = direct_prefix t ts in
      let probe = λ (committed : Stack).
        execute_terminals_concrete_into alloc p committed (final_terminal t ts ∷ [])
        >>= after_probe none (some committed) in
      execute_terminals_concrete_into alloc p stack direct
      >>= after_direct (length direct) none probe

  unfoldable pub execute_sequence_head : Stack → List TerminalId → Parse (Option Stack)
  execute_sequence_head stack [] = err empty_sequence_head
  execute_sequence_head stack (t ∷ ts) =
      validate_inputs p stack (t ∷ ts) >> execute_sequence_head_checked stack (t ∷ ts)

  -- The answer; the scratch stack that it leaves is dropped.
  unfoldable pub sequence_head_allowed_with_scratch : Stack → List TerminalId → Parse Bool
  sequence_head_allowed_with_scratch stack [] = err empty_sequence_head
  sequence_head_allowed_with_scratch stack (t ∷ ts) =
      let direct = direct_prefix t ts in
      let probe = λ (scratch : Stack).
        execute_terminals_concrete_in_place alloc p scratch (final_terminal t ts ∷ [])
        >>= after_probe false true in
      execute_terminals_concrete_into alloc p stack direct
      >>= after_direct (length direct) false probe
