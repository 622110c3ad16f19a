-- ===== src/Sequence/Facts/Places.antt =====
-- The index of a fact in crates/greatgramma-core/src/sequence.rs determines the fact.
use greatgramma_rust.Base.{
  ℕ, zero, suc, ◌+◌, ◌*◌, ◌<◌, ◌≡◌, refl, ap, arith, ok, ok_or, >>=-eq-ok, ok_or-eq-ok, checked_add,
  checked_mul,
}
use native.Mathlib.Nat.{suc-mul, zero-mul}
use greatgramma_rust.TokenStep.Budget.{invariant_violation}
use greatgramma_rust.Sequence.Facts.{fact_index}

-- A row and a place in it are determined by the index.
pub place-inj :
    (width s s' t t' : ℕ)
    → t < width
    → t' < width
    → s * width + t ≡ s' * width + t'
    → (s ≡ s') × (t ≡ t')
place-inj width zero zero t t' h h' e = let z = zero-mul width in (refl, omega arith)
place-inj width zero (suc s') t t' h h' e =
    let z = zero-mul width in let m = suc-mul s' width in absurd (omega arith)
place-inj width (suc s) zero t t' h h' e =
    let z = zero-mul width in let m = suc-mul s width in absurd (omega arith)
place-inj width (suc s) (suc s') t t' h h' e =
    let m = suc-mul s width in
    let m' = suc-mul s' width in
    let (same, place) = place-inj width s s' t t' h h' (omega arith) in (ap suc same, place)

pub fact_index-eq-ok :
    (source t width index : ℕ) → fact_index source t width ≡ ok index → source * width + t ≡ index
unfolding fact_index checked_add checked_mul
fact_index-eq-ok source t width index h =
    let (row_start, e, f) = >>=-eq-ok (ok_or (checked_mul source width) invariant_violation) _ h in
    let at = ok_or-eq-ok _ _ e in
    let is = ok_or-eq-ok _ _ f in
    let start : source * width ≡ row_start = ground arith in ground arith
