-- ===== src/Sequence/Facts/Closed.antt =====
-- The loop of `propagate_facts` in crates/greatgramma-core/src/sequence.rs leaves no fact behind: what
-- is known of a source is known of each of its predecessors.
use greatgramma_rust.Base.{
  ℕ, zero, suc, ◌<◌, ◌≡◌, subst, Bool-cases, inl, inr, some, List, length, get_elem?,
  get_elem?-total, get_elem?-lt-length, ◌==◌, ==→≡, leb, leb→lt, arith, ok, ok_or, >>=-eq-ok,
  ok_or-eq-ok, ok_inj, for_range, for_range_inv_from_0, Option-cases, Allocator,
}
use greatgramma_rust.TokenStep.Budget.{invariant_violation, WorkBudget, charge}
use greatgramma_rust.Sequence.Facts.{
  Fact, Facts, propagate_predecessor, propagate_fact, propagate_loop,
}
use greatgramma_rust.Sequence.Facts.Known.{Known, Extends, Extends-trans, Indexed, add_fact-Learns}

module _ (predecessors : List (List ℕ)) where
  abbrev pub Precedes : ℕ → ℕ → Type 0
  Precedes s d =
      (row : List ℕ) × (k : ℕ) × (get_elem? predecessors d ≡ some row) × (get_elem? row k ≡ some s)

  -- What is known of the fact's source is known of its predecessors.
  abbrev pub IsClosed : Facts → Fact → Type 0
  IsClosed known fact = (s : ℕ) → Precedes s fact.source → Known known s fact.terminal

  abbrev Processed : ℕ → Facts → Type 0
  Processed cursor known =
      (k : ℕ) (fact : Fact) → k < cursor → get_elem? known.facts k ≡ some fact → IsClosed known fact

  module _ (alloc : Allocator) (width : ℕ) where
    propagate_fact-IsClosed :
        (known : Facts) (fact : Fact) (work : WorkBudget) (made : Facts × WorkBudget)
        → Indexed width known
        → propagate_fact alloc width predecessors known fact work ≡ ok made
        → Indexed width made.0 × Extends known made.0 × IsClosed made.0 fact
    unfolding propagate_fact propagate_predecessor
    propagate_fact-IsClosed known fact work made indexed h =
        let (row, e, f) =
          >>=-eq-ok (ok_or (get_elem? predecessors fact.source) invariant_violation) _ h in
        let (work', e₁, f₁) = >>=-eq-ok (charge work (length row)) _ f in
        let body = propagate_predecessor alloc width row fact.terminal in
        let (known', e₂, f₂) = >>=-eq-ok (for_range body (length row) 0 known) _ f₁ in
        let (indexed', extends, all) =
          for_range_inv_from_0
            (λ k t.
              Indexed width t
              × Extends known t
              × ((j s : ℕ) → j < k → get_elem? row j ≡ some s → Known t s fact.terminal))
            body (length row) known known'
            (λ k t t' lt (before, extends, all) step.
              let (source, e₃, f₃) =
                >>=-eq-ok (ok_or (get_elem? row k) invariant_violation) _ step in
              let (after, extends', new) =
                add_fact-Learns width alloc t t' source fact.terminal before f₃ in
              (
                after,
                Extends-trans known t t' extends extends',
                λ j s lt' at. elim (Bool-cases (j == k)) [
                  | inl same ↦
                      let is : source ≡ s =
                        cc (ok_or-eq-ok (get_elem? row k) _ e₃, at, ==→≡ j k same) in
                      subst (λ s. Known t' s fact.terminal) is new
                  | inr other ↦
                      let (n, found) = all j s (ground arith) at in (n, extends' n _ found)
                ],
              ))
            (indexed, λ k fact e. e, λ j s lt at. absurd (omega arith)) e₂ in
        let at = ok_or-eq-ok (get_elem? predecessors fact.source) _ e in
        subst (λ m. Indexed width m.0 × Extends known m.0 × IsClosed m.0 fact) (ok_inj f₂)
          (
            indexed',
            extends,
            λ s (row', k, at', found).
                let same : row' ≡ row = cc (at, at') in
                let found' = subst (λ r. get_elem? r k ≡ some s) same found in
                all k s (get_elem?-lt-length row k found') found',
          )

    Processed-next :
        (cursor : ℕ) (known known' : Facts) (fact : Fact)
        → Processed cursor known
        → get_elem? known.facts cursor ≡ some fact
        → Extends known known'
        → IsClosed known' fact
        → Processed (suc cursor) known'
    Processed-next cursor known known' fact processed at extends closed k other lt found =
        let in_range = get_elem?-lt-length known.facts cursor at in
        let (old, old_at) = get_elem?-total known.facts k (omega arith) in
        let same : old ≡ other = cc (extends k old old_at, found) in
        elim (Bool-cases (k == cursor)) [
          | inl e ↦
              let is : fact ≡ other = cc (old_at, at, same, ==→≡ k cursor e) in
              subst (IsClosed known') is closed
          | inr e ↦ subst (IsClosed known') same (λ s precedes.
              let (n, there) = processed k old (ground arith) old_at s precedes in
              (n, extends n _ there))
        ]

    pub propagate_loop-IsClosed :
        (fuel cursor : ℕ) (known : Facts) (work : WorkBudget) (made : Facts × WorkBudget)
        → Indexed width known
        → Processed cursor known
        → propagate_loop alloc width predecessors fuel cursor known work ≡ ok made
        → Indexed width made.0
          × Extends known made.0
          × ((k : ℕ) (fact : Fact) → get_elem? made.0.facts k ≡ some fact → IsClosed made.0 fact)
    unfolding propagate_loop
    propagate_loop-IsClosed zero cursor known work made indexed processed h = absurd (cc h)
    propagate_loop-IsClosed (suc fuel) cursor known work made indexed processed h =
        elim (Option-cases (get_elem? known.facts cursor)) [
          | inl e ↦
              subst
                (λ m.
                  Indexed width m.0
                  × Extends known m.0
                  × ((k : ℕ) (fact : Fact) → get_elem? m.0.facts k ≡ some fact → IsClosed m.0 fact))
                (ok_inj (rw (e, propagate_loop) at h))
                (
                  indexed,
                  λ k fact e. e,
                  λ k fact found. elim (Bool-cases (leb cursor k)) [
                    | inl le ↦
                        let lt = get_elem?-lt-length known.facts k found in
                        let (x, at) = get_elem?-total known.facts cursor (ground arith) in
                        absurd (cc (e, at))
                    | inr gt ↦ processed k fact (leb→lt cursor k gt) found
                  ],
                )
          | inr (fact, e) ↦
              let (r, e₁, f) =
                >>=-eq-ok (propagate_fact alloc width predecessors known fact work) _
                  (rw (e, propagate_loop) at h) in
              let (indexed', extends, closed) =
                propagate_fact-IsClosed known fact work r indexed e₁ in
              let (indexed'', extends', all) =
                propagate_loop-IsClosed fuel (suc cursor) r.0 r.1 made indexed'
                  (Processed-next cursor known r.0 fact processed e extends closed) f in
              (indexed'', Extends-trans known r.0 made.0 extends extends', all)
        ]
