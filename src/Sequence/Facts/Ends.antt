-- ===== src/Sequence/Facts/Ends.antt =====
-- The loop of `propagate_facts` in crates/greatgramma-core/src/sequence.rs ends: every fact has a
-- mark of its own.
use greatgramma_rust.Base.{
  ℕ, zero, suc, ◌+◌, ◌<◌, ◌≤◌, ◌≡◌, refl, sym, subst, inl, inr, List, [], length, get_elem?,
  get_elem?-lt-length, arith, ok, err, fault, ◌>>=◌, ok_or, for_range, for_range_inv_from_0,
  Answers, Answers-bind, ok_or-Answers, Option-cases, Allocator,
}
use greatgramma_rust.Normalized.{ValidatedGrammar}
use greatgramma_rust.TokenStep.Budget.{
  invariant_violation, WorkBudget, Prepare, check_limit, charge, prepared_push,
}
use greatgramma_rust.Sequence.Facts.{
  Fact, Facts, Scan, fact_index, mark_fact_seen, push_fact, add_fact, propagate_predecessor,
  propagate_fact, propagate_loop, propagate_facts, scan_source, scan_sources,
}
use greatgramma_rust.Sequence.Facts.Counted.{
  marks, marks-length, Counted, propagate_fact-Counted, scan_source-Counted,
}

module _ (alloc : Allocator) (terminal_count cells : ℕ) where
  -- No operation of a round has a fault.
  charge-Answers : (work : WorkBudget) (amount : ℕ) → Answers (charge work amount)
  unfolding charge check_limit
  charge-Answers work amount = ground arith

  add_fact-Answers :
      (known : Facts) (source t : ℕ) → Answers (add_fact alloc terminal_count known source t)
  unfolding add_fact fact_index push_fact mark_fact_seen prepared_push
  add_fact-Answers known source t = ground arith

  propagate_predecessor-Answers :
      (row : List ℕ) (t k : ℕ) (known : Facts)
      → Answers (propagate_predecessor alloc terminal_count row t k known)
  unfolding propagate_predecessor
  propagate_predecessor-Answers row t k known =
      Answers-bind (ok_or (get_elem? row k) invariant_violation) _ (ok_or-Answers _ _)
        (λ predecessor. add_fact-Answers known predecessor t)

  for_range-Answers :
      {S : Type 0} (body : ℕ → S → Prepare S) (count index : ℕ) (s : S)
      → ((k : ℕ) (t : S) → Answers (body k t))
      → Answers (for_range body count index s)
  unfolding for_range
  for_range-Answers body zero index s answers = tt
  for_range-Answers body (suc count) index s answers =
      Answers-bind (body index s) _ (answers index s)
        (λ t. for_range-Answers body count (suc index) t answers)

  propagate_fact-Answers :
      (predecessors : List (List ℕ)) (known : Facts) (fact : Fact) (work : WorkBudget)
      → Answers (propagate_fact alloc terminal_count predecessors known fact work)
  unfolding propagate_fact
  propagate_fact-Answers predecessors known fact work =
      Answers-bind (ok_or (get_elem? predecessors fact.source) invariant_violation) _
        (ok_or-Answers _ _)
        (λ row. Answers-bind (charge work (length row)) _ (charge-Answers work _) (λ work'.
          Answers-bind
            (for_range (propagate_predecessor alloc terminal_count row fact.terminal) (length row) 0
              known)
            _
            (for_range-Answers _ (length row) 0 known
              (propagate_predecessor-Answers row fact.terminal))
            (λ known'. tt)))

  next-Answers :
      {A B : Type 0} (o : Prepare A) (next : A → Prepare B)
      → Answers o
      → ((a : A) → o ≡ ok a → Answers (next a))
      → Answers (o >>= next)
  next-Answers (ok a) next h k = k a refl
  next-Answers (err e) next h k = tt
  next-Answers (fault x) next h k = h

  propagate_loop-Answers :
      (predecessors : List (List ℕ)) (fuel cursor : ℕ) (known : Facts) (work : WorkBudget)
      → Counted cells known
      → cells < fuel + cursor
      → cursor ≤ cells
      → Answers (propagate_loop alloc terminal_count predecessors fuel cursor known work)
  unfolding propagate_loop
  propagate_loop-Answers predecessors zero cursor known work counted enough le =
      absurd (omega arith)
  propagate_loop-Answers predecessors (suc fuel) cursor known work (len, most) enough le =
      elim (Option-cases (get_elem? known.facts cursor)) [
        | inl e ↦ rw (e, Answers) tt
        | inr (fact, e) ↦
            let lt = get_elem?-lt-length known.facts cursor e in
            let room = marks-length known.seen in
            rw (e, Answers)
              (next-Answers (propagate_fact alloc terminal_count predecessors known fact work)
                (λ r. propagate_loop alloc terminal_count predecessors fuel (suc cursor) r.0 r.1)
                (propagate_fact-Answers predecessors known fact work)
                (λ r made.
                  propagate_loop-Answers predecessors fuel (suc cursor) r.0 r.1
                    (propagate_fact-Counted alloc terminal_count cells predecessors known fact work
                      r (len, most) made)
                    (omega arith) (omega arith)))
      ]

  propagate_facts-Answers_of :
      (predecessors : List (List ℕ)) (known : Facts) (work : WorkBudget)
      → Counted cells known
      → Answers (propagate_facts alloc terminal_count predecessors known work)
  unfolding propagate_facts
  propagate_facts-Answers_of predecessors known work (len, most) =
      propagate_loop-Answers predecessors (suc (length known.seen)) 0 known work (len, most)
        (omega (arith, len)) (omega arith)

-- After `scan_sources` from a scan without facts, the loop of `propagate_facts` ends: it answers
-- within its fuel and without a panic.
pub propagate_facts-Answers :
    (alloc : Allocator) (terminal_count sources : ℕ) (g : ValidatedGrammar) (before scanned : Scan)
    (predecessors : List (List ℕ)) (work : WorkBudget)
    → before.known.facts ≡ []
    → scan_sources alloc terminal_count g sources before ≡ ok scanned
    → Answers (propagate_facts alloc terminal_count predecessors scanned.known work)
unfolding scan_sources
propagate_facts-Answers alloc terminal_count sources g before scanned predecessors work empty h =
    let cells = length before.known.seen in
    propagate_facts-Answers_of alloc terminal_count cells predecessors scanned.known work (
      for_range_inv_from_0 (λ k t. Counted cells t.known) (scan_source alloc terminal_count g)
        sources before scanned
        (λ k t t' lt c step. scan_source-Counted alloc terminal_count cells g k t t' c step)
        (refl, subst (λ facts. length facts ≤ marks before.known.seen) (sym empty) (omega arith)) h)
