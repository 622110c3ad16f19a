-- ===== src/Sequence/Facts/Singletons.antt =====
-- The rows of `SequenceTable::build_singletons` in crates/greatgramma-core/src/sequence.rs, read
-- off the marks.
use greatgramma_rust.Base.{
  ℕ, ◌<◌, ◌≡◌, sym, ap, ◌∙◌, subst, false, Bool-cases, inl, inr, some, List, [], get_elem?,
  get_elem?-lt-length, get_elem?-append_cases, get_elem?-replicate-eq, replicate, ◌==◌, ok, ok_or,
  >>=-eq-ok, ok_or-eq-ok, ok_inj, for_range_inv_from_0, collect-MadeAt, length-collect, checked_mul,
  try_u32, try_u32-eq-some, Allocator,
}
use greatgramma_rust.Normalized.{TerminalId, ValidatedGrammar}
use greatgramma_rust.TokenStep.Budget.{
  PreparationLimits, invariant_violation, WorkBudget, check_items, charge, prepared_vec,
  prepared_push-eq-ok,
}
use greatgramma_rust.TokenStep.Table.{source_count}
use greatgramma_rust.Sequence.Facts.{
  Facts, Scan, fact_index, propagate_facts, scan_source, scan_sources, collect_singleton,
  collect_singletons, collect_singleton_row, collect_all_singletons, build_singletons,
}
use greatgramma_rust.Sequence.Facts.Places.{place-inj, fact_index-eq-ok}
use greatgramma_rust.Sequence.Facts.Next.{MayEmit, IsTrue, ScanIsTrue, propagate_loop-IsTrue}
use greatgramma_rust.Sequence.Facts.Scanned.{scan_source-IsTrue}

module _ (alloc : Allocator) (g : ValidatedGrammar) (terminal_count : ℕ) where
  -- A mark that is set is that of its own source and terminal.
  marked-MayEmit :
      (known : Facts) (source t index mark : ℕ)
      → IsTrue g terminal_count known
      → t < terminal_count
      → fact_index source t terminal_count ≡ ok index
      → get_elem? known.seen index ≡ some mark
      → (mark == 0) ≡ false
      → MayEmit g source t
  marked-MayEmit known source t index mark is_true lt at found is_set =
      let (source', t', lt', at', may) = is_true.1 index mark found is_set in
      let (same, place) = place-inj terminal_count source' source t' t lt' lt (
        fact_index-eq-ok source' t' terminal_count index at'
        ∙ sym (fact_index-eq-ok source t terminal_count index at)) in
      subst (λ s. MayEmit g s t) same (subst (MayEmit g source') place may)

  abbrev AllEmitted : ℕ → List TerminalId → Type 0
  AllEmitted source row = (k : ℕ) (t : TerminalId) → get_elem? row k ≡ some t → MayEmit g source t

  collect_singleton-AllEmitted :
      (known : Facts) (source t : ℕ) (row row' : List TerminalId)
      → IsTrue g terminal_count known
      → t < terminal_count
      → AllEmitted source row
      → collect_singleton alloc terminal_count known.seen source t row ≡ ok row'
      → AllEmitted source row'
  unfolding collect_singleton
  collect_singleton-AllEmitted known source t row row' is_true lt all h =
      let (index, e, f) = >>=-eq-ok (fact_index source t terminal_count) _ h in
      let (mark, e₁, f₁) = >>=-eq-ok (ok_or (get_elem? known.seen index) invariant_violation) _ f in
      elim (Bool-cases (mark == 0)) [
        | inl unset ↦ subst (AllEmitted source) (ok_inj (rw unset at f₁)) all
        | inr is_set ↦
            let (id, e₂, f₂) =
              >>=-eq-ok (ok_or (try_u32 t) invariant_violation) _ (rw is_set at f₁) in
            let pushed = prepared_push-eq-ok alloc row id row' f₂ in
            let same = try_u32-eq-some t id (ok_or-eq-ok _ _ e₂) in
            let may =
              marked-MayEmit known source t index mark is_true lt e (ok_or-eq-ok _ _ e₁) is_set in
            λ k u found.
              elim (get_elem?-append_cases row id u k
                (subst (λ xs. get_elem? xs k ≡ some u) (sym pushed) found)) [
                  | inl old ↦ all k u old
                  | inr (end, is) ↦ subst (MayEmit g source) (sym (is ∙ same)) may
                ]
      ]

  collect_singletons-AllEmitted :
      (known : Facts) (source : ℕ) (row : List TerminalId)
      → IsTrue g terminal_count known
      → collect_singletons alloc terminal_count known.seen source ≡ ok row
      → AllEmitted source row
  unfolding collect_singletons
  collect_singletons-AllEmitted known source row is_true h =
      for_range_inv_from_0 (λ k t. AllEmitted source t)
        (collect_singleton alloc terminal_count known.seen source) terminal_count [] row
        (λ k t t' lt all step. collect_singleton-AllEmitted known source k t t' is_true lt all step)
        (λ k t found. absurd (cc found)) h

  collect_all_singletons-AllEmitted :
      (known : Facts) (sources : ℕ) (work : WorkBudget) (made : List (List TerminalId) × WorkBudget)
      (source : ℕ) (row : List TerminalId)
      → IsTrue g terminal_count known
      → collect_all_singletons alloc terminal_count known.seen sources work ≡ ok made
      → get_elem? made.0 source ≡ some row
      → AllEmitted source row
  unfolding collect_all_singletons collect_singleton_row
  collect_all_singletons-AllEmitted known sources work made source row is_true h found =
      let (u, e, f) = >>=-eq-ok (prepared_vec alloc sources) _ h in
      let item = collect_singleton_row alloc terminal_count known.seen in
      let lt = get_elem?-lt-length made.0 source found in
      let (row', before, after, at, step) =
        collect-MadeAt item sources work made source f
          (subst (λ n. source < n) (length-collect item sources 0 work made f) lt) in
      let (work', e₁, f₁) = >>=-eq-ok (charge before terminal_count) _ step in
      let (row'', e₂, f₂) =
        >>=-eq-ok (collect_singletons alloc terminal_count known.seen source) _ f₁ in
      subst (AllEmitted source) (cc (ok_inj f₂, at, found))
        (collect_singletons-AllEmitted known source row'' is_true e₂)

  initial-ScanIsTrue :
      (cells sources : ℕ) (work : WorkBudget)
      → ScanIsTrue g terminal_count (record {
        known = record { seen = replicate cells 0; facts = [] };
        predecessors = replicate sources [];
        work = work;
      })
  initial-ScanIsTrue cells sources work = (
    (
      λ i fact found. absurd (cc found),
      λ index mark found is_set.
          let zero_mark = get_elem?-replicate-eq cells 0 mark index found in
          absurd (cc (is_set, zero_mark, ap (λ m. m == 0) zero_mark)),
    ),
    λ destination row k source found place.
        let empty = get_elem?-replicate-eq sources [] row destination found in
        absurd (cc (subst (λ xs. get_elem? xs k ≡ some source) empty place)),
  )

  scan_sources-ScanIsTrue :
      (sources : ℕ) (scan scan' : Scan)
      → ScanIsTrue g terminal_count scan
      → scan_sources alloc terminal_count g sources scan ≡ ok scan'
      → ScanIsTrue g terminal_count scan'
  unfolding scan_sources
  scan_sources-ScanIsTrue sources scan scan' keeps h =
      for_range_inv_from_0 (λ k t. ScanIsTrue g terminal_count t)
        (scan_source alloc terminal_count g) sources scan scan'
        (λ k t t' lt keeps step. scan_source-IsTrue g alloc terminal_count k t t' keeps step) keeps
        h

pub build_singletons-MayEmit :
    (alloc : Allocator) (g : ValidatedGrammar) (limits : PreparationLimits) (work : WorkBudget)
    (made : List (List TerminalId) × WorkBudget) (source : ℕ) (row : List TerminalId) (k : ℕ)
    (t : TerminalId)
    → build_singletons alloc g limits work ≡ ok made
    → get_elem? made.0 source ≡ some row
    → get_elem? row k ≡ some t
    → MayEmit g source t
unfolding build_singletons propagate_facts
build_singletons-MayEmit alloc g limits work made source row k t h found place =
    let terminals = g.lalr.dimensions.terminal_count in
    let (sources, e₁, h₁) = >>=-eq-ok (source_count g) _ h in
    let (cells, e₂, h₂) = >>=-eq-ok (check_items (checked_mul sources terminals) limits) _ h₁ in
    let (steps, e₃, h₃) = >>=-eq-ok (check_items (checked_mul sources 256) limits) _ h₂ in
    let (work₁, e₄, h₄) = >>=-eq-ok (charge work steps) _ h₃ in
    let (u, e₅, h₅) = >>=-eq-ok (prepared_vec alloc cells) _ h₄ in
    let (v, e₆, h₆) = >>=-eq-ok (prepared_vec alloc sources) _ h₅ in
    let unscanned : Scan = record {
      known = record { seen = replicate cells 0; facts = [] };
      predecessors = replicate sources [];
      work = work₁;
    } in
    let (scanned, e₇, h₇) = >>=-eq-ok (scan_sources alloc terminals g sources unscanned) _ h₆ in
    let (is_true, all) =
      scan_sources-ScanIsTrue alloc g terminals sources unscanned scanned
        (initial-ScanIsTrue alloc g terminals cells sources work₁) e₇ in
    let (known, e₈, h₈) =
      >>=-eq-ok (propagate_facts alloc terminals scanned.predecessors scanned.known scanned.work) _
        h₇ in
    collect_all_singletons-AllEmitted alloc g terminals known.0 sources known.1 made source row
      (propagate_loop-IsTrue g alloc terminals scanned.predecessors _ 0 scanned.known scanned.work
        known all is_true e₈)
      h₈ found k t place
