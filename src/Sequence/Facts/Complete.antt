-- ===== src/Sequence/Facts/Complete.antt =====
-- The rows of `SequenceTable::build_singletons` in crates/greatgramma-core/src/sequence.rs miss no
-- terminal that may be emitted next.
use greatgramma_rust.Base.{
  ℕ, suc, ◌<◌, ◌≡◌, sym, ap, ◌∙◌, subst, Bool-cases, inl, inr, some, List, [], ◌∷◌, length,
  length-replicate, get_elem?, get_elem?-total, checked_add, get_elem?-lt-length,
  get_elem?-append_left, get_elem?-append_end, get_elem?-replicate-eq, replicate, ◌==◌, ==→≡, arith,
  ok, ok_or, >>=-eq-ok, ok_or-eq-ok, ok_inj, for_range_inv_from_0, collect-MadeAt, length-collect,
  checked_add, checked_mul, try_u32, try_u32-eq-some, Allocator, ◌↔◌,
}
use greatgramma_rust.Normalized.{TerminalId, ValidatedGrammar}
use greatgramma_rust.Lexer.{LexerState, start, dfa}
use greatgramma_rust.TokenStep.Budget.{
  PreparationLimits, invariant_violation, WorkBudget, check_items, charge, prepared_vec,
  prepared_push-eq-ok,
}
use greatgramma_rust.TokenStep.Table.{source_at, source_count, source_index, source_index_for_count}
use greatgramma_rust.TokenStep.Table.Sound.{source_at-position, source_index-eq-some}
use greatgramma_rust.Sequence.Facts.{
  Fact, Facts, Scan, fact_index, propagate_facts, scan_sources, collect_singleton,
  collect_singletons, collect_singleton_row, collect_all_singletons, build_singletons,
}
use greatgramma_rust.Sequence.Facts.Next.{NextTerminal, accepts, emits, extends, MayEmit}
use greatgramma_rust.Sequence.Facts.Known.{Known, Indexed, IsMarked}
use greatgramma_rust.Sequence.Facts.Closed.{IsClosed, propagate_loop-IsClosed}
use greatgramma_rust.Sequence.Facts.Predecessors.{Covered}
use greatgramma_rust.Sequence.Facts.Covered.{Scanned, scan_sources-Scanned}
use greatgramma_rust.Sequence.Facts.Singletons.{build_singletons-MayEmit}

module _ (alloc : Allocator) (g : ValidatedGrammar) (width sources : ℕ) where
  -- From a scan of every source, what a state may emit next is known once the facts are closed.
  NextTerminal-Known :
      (scan : Scan) (known : Facts)
      → ((source : ℕ) → source < sources → Scanned alloc width g source scan)
      → length scan.predecessors ≡ sources
      → ((s t : ℕ) → Known scan.known s t → Known known s t)
      → ((k : ℕ) (fact : Fact)
          → get_elem? known.facts k ≡ some fact
          → IsClosed scan.predecessors known fact)
      → (source : ℕ) (s : LexerState) (t : TerminalId) → source < sources
      → source_at source ≡ some s
      → NextTerminal g s t
      → Known known source t
  NextTerminal-Known scan known scanned len grows closed source s t lt at (accepts e) =
      let (s', at', accepting, covered) = scanned source lt in
      let same : s' ≡ s = cc (at, at') in grows source t (accepting _ t same e)
  NextTerminal-Known scan known scanned len grows closed source s t lt at (emits b b_lt e) =
      let (s', at', accepting, covered) = scanned source lt in
      let same : s ≡ s' = cc (at, at') in
      let (emitted, moved) =
        subst (λ r. Covered alloc width g source scan r b) (sym same) (covered b b_lt) in
      grows source t (emitted _ t e)
  NextTerminal-Known scan known scanned len grows closed source s t lt at (extends b b_lt e next) =
      let (s', at', accepting, covered) = scanned source lt in
      let same : s ≡ s' = cc (at, at') in
      let (emitted, moved) =
        subst (λ r. Covered alloc width g source scan r b) (sym same) (covered b b_lt) in
      let (index, place, precedes) = moved _ e in
      let (row, k, found, in_row) = precedes in
      let index_lt : index < sources =
        subst (λ n. index < n) len (get_elem?-lt-length scan.predecessors index found) in
      let (r, r_at, accepting', covered') = scanned index index_lt in
      let is : r ≡ _ = source_at-position _ r (subst (λ n. source_at n ≡ some r) place r_at) in
      let (n, fact_at) =
        NextTerminal-Known scan known scanned len grows closed index _ t index_lt
          (r_at ∙ ap some is) next in
      closed n _ fact_at source precedes

  -- A marked terminal is pushed.
  collect_singleton-Listed :
      (seen : List ℕ) (source k : ℕ) (row row' : List TerminalId)
      → ((t : ℕ) → t < k → IsMarked width seen source t → (j : ℕ) × (get_elem? row j ≡ some t))
      → collect_singleton alloc width seen source k row ≡ ok row'
      → (t : ℕ) → t < suc k
      → IsMarked width seen source t
      → (j : ℕ) × (get_elem? row' j ≡ some t)
  unfolding collect_singleton
  collect_singleton-Listed seen source k row row' listed h t lt (i, m, t_lt, at, found, is_set) =
      let (index, e, f) = >>=-eq-ok (fact_index source k width) _ h in
      let (mark, e₁, f₁) = >>=-eq-ok (ok_or (get_elem? seen index) invariant_violation) _ f in
      let there = ok_or-eq-ok (get_elem? seen index) _ e₁ in
      elim (Bool-cases (mark == 0)) [
        | inl unset ↦ elim (Bool-cases (t == k)) [
          | inl same ↦
              let t_is : t ≡ k = ==→≡ t k same in
              let index_is : i ≡ index =
                ok_inj (sym at ∙ ap (λ n. fact_index source n width) t_is ∙ e) in
              let mark_is : m ≡ mark = cc (found, there, index_is) in
              absurd (cc (unset, is_set, ap (λ n. n == 0) mark_is))
          | inr other ↦
              subst (λ r. (j : ℕ) × (get_elem? r j ≡ some t)) (ok_inj (rw unset at f₁))
                (listed t (ground arith) (i, m, t_lt, at, found, is_set))
        ]
        | inr set_mark ↦
            let (id, e₂, f₂) =
              >>=-eq-ok (ok_or (try_u32 k) invariant_violation) _ (rw set_mark at f₁) in
            let pushed = prepared_push-eq-ok alloc row id row' f₂ in
            let id_is : id ≡ k = try_u32-eq-some k id (ok_or-eq-ok _ _ e₂) in
            subst (λ r. (j : ℕ) × (get_elem? r j ≡ some t)) pushed
              (elim (Bool-cases (t == k)) [
                | inl same ↦
                    let t_is : id ≡ t = id_is ∙ sym (==→≡ t k same) in
                    (length row, get_elem?-append_end row id ∙ ap some t_is)
                | inr other ↦
                    let (j, old) = listed t (ground arith) (i, m, t_lt, at, found, is_set) in
                    (j, get_elem?-append_left row (id ∷ []) j (get_elem?-lt-length row j old) ∙ old)
              ])
      ]

  collect_all_singletons-Listed :
      (seen : List ℕ) (work : WorkBudget) (made : List (List TerminalId) × WorkBudget) (source : ℕ)
      (row : List TerminalId) (t : ℕ)
      → collect_all_singletons alloc width seen sources work ≡ ok made
      → get_elem? made.0 source ≡ some row
      → IsMarked width seen source t
      → (j : ℕ) × (get_elem? row j ≡ some t)
  unfolding collect_all_singletons collect_singleton_row collect_singletons
  collect_all_singletons-Listed seen work made source row t h found marked =
      let (u, e, f) = >>=-eq-ok (prepared_vec alloc sources) _ h in
      let item = collect_singleton_row alloc width seen in
      let lt : source < sources =
        subst (λ n. source < n) (length-collect item sources 0 work made f)
          (get_elem?-lt-length made.0 source found) in
      let (row', before, after, at, step) = collect-MadeAt item sources work made source f lt in
      let (work', e₁, f₁) = >>=-eq-ok (charge before width) _ step in
      let (row'', e₂, f₂) = >>=-eq-ok (collect_singletons alloc width seen source) _ f₁ in
      let same : row'' ≡ row = cc (ok_inj f₂, at, found) in
      let t_lt : t < width = marked.2 in
      let listed =
        for_range_inv_from_0
          (λ k r.
            (t : ℕ) → t < k → IsMarked width seen source t → (j : ℕ) × (get_elem? r j ≡ some t))
          (collect_singleton alloc width seen source) width [] row''
          (λ k r r' lt before step. collect_singleton-Listed seen source k r r' before step)
          (λ t lt. absurd (omega arith)) e₂ in
      subst (λ r. (j : ℕ) × (get_elem? r j ≡ some t)) same (listed t t_lt marked)

initial-Indexed :
    (width cells : ℕ) → Indexed width (record { seen = replicate cells 0; facts = [] })
initial-Indexed width cells = (
  λ s t (k, found). absurd (cc found),
  λ s t (i, m, lt, at, found, is_set).
      let zero_mark = get_elem?-replicate-eq cells 0 m i found in
      absurd (cc (is_set, ap (λ m. m == 0) zero_mark)),
)

collected-rows :
    (alloc : Allocator) (width sources : ℕ) (seen : List ℕ) (work : WorkBudget)
    (made : List (List TerminalId) × WorkBudget)
    → collect_all_singletons alloc width seen sources work ≡ ok made
    → length made.0 ≡ sources
unfolding collect_all_singletons
collected-rows alloc width sources seen work made h =
    let (u, e, f) = >>=-eq-ok (prepared_vec alloc sources) _ h in
    length-collect (collect_singleton_row alloc width seen) sources 0 work made f

build_singletons-Lists_at :
    (alloc : Allocator) (g : ValidatedGrammar) (limits : PreparationLimits) (work : WorkBudget)
    (made : List (List TerminalId) × WorkBudget) (source : ℕ) (row : List TerminalId)
    (t : TerminalId)
    → build_singletons alloc g limits work ≡ ok made
    → get_elem? made.0 source ≡ some row
    → (((k : ℕ) × (get_elem? row k ≡ some t)) ↔ MayEmit g source t)
      × (s : LexerState) × (source_at source ≡ some s)
unfolding build_singletons propagate_facts
build_singletons-Lists_at alloc g limits work made source row t h found =
    let width = g.lalr.dimensions.terminal_count in
    let (sources, e₁, h₁) = >>=-eq-ok (source_count g) _ h in
    let (cells, e₂, h₂) = >>=-eq-ok (check_items (checked_mul sources width) limits) _ h₁ in
    let (steps, e₃, h₃) = >>=-eq-ok (check_items (checked_mul sources 256) limits) _ h₂ in
    let (work₁, e₄, h₄) = >>=-eq-ok (charge work steps) _ h₃ in
    let (u, e₅, h₅) = >>=-eq-ok (prepared_vec alloc cells) _ h₄ in
    let (v, e₆, h₆) = >>=-eq-ok (prepared_vec alloc sources) _ h₅ in
    let unscanned : Scan = record {
      known = record { seen = replicate cells 0; facts = [] };
      predecessors = replicate sources [];
      work = work₁;
    } in
    let (scan, e₇, h₇) = >>=-eq-ok (scan_sources alloc width g sources unscanned) _ h₆ in
    let (grows, scanned) =
      scan_sources-Scanned alloc width g sources unscanned scan (initial-Indexed width cells) e₇ in
    let (known, e₈, h₈) =
      >>=-eq-ok (propagate_facts alloc width scan.predecessors scan.known scan.work) _ h₇ in
    let (indexed, extends_facts, closed) =
      propagate_loop-IsClosed scan.predecessors alloc width _ 0 scan.known scan.work known grows.0
        (λ k fact lt. absurd (omega arith)) e₈ in
    let lt : source < sources =
      subst (λ n. source < n) (collected-rows alloc width sources known.0.seen known.1 made h₈)
        (get_elem?-lt-length made.0 source found) in
    let (s', at', accepting, covered) = scanned source lt in
    (
      (
        λ (k, place).
            build_singletons-MayEmit alloc g limits work made source row k t h found place,
        λ (s, at, next).
            let learnt =
              NextTerminal-Known alloc g width sources scan known.0 scanned
                (grows.2.0 ∙ length-replicate sources [])
                (λ s t (k, fact_at). (k, extends_facts k _ fact_at)) closed source s t lt at next in
            collect_all_singletons-Listed alloc g width sources known.0.seen known.1 made source row
              t h₈ found (indexed.0 source t learnt),
      ),
      s',
      at',
    )

-- If build_singletons succeeds, then a terminal is in the row of a source exactly if it may be
-- emitted next from that source: some bytes, which may be none, lead from its lexer state without
-- an emission to a state that accepts the terminal or emits it with one more byte.
pub build_singletons-Lists :
    (alloc : Allocator) (g : ValidatedGrammar) (limits : PreparationLimits) (work : WorkBudget)
    (made : List (List TerminalId) × WorkBudget) (source : ℕ) (row : List TerminalId)
    (t : TerminalId)
    → build_singletons alloc g limits work ≡ ok made
    → get_elem? made.0 source ≡ some row
    → ((k : ℕ) × (get_elem? row k ≡ some t)) ↔ MayEmit g source t
build_singletons-Lists alloc g limits work made source row t h found =
    (build_singletons-Lists_at alloc g limits work made source row t h found).0

source_index_for-lt : (n i : ℕ) (s : LexerState) → source_index_for_count n s ≡ some i → i < n
unfolding source_index_for_count checked_add
source_index_for-lt n i start h = ground arith
source_index_for-lt n i (dfa q) h = ground arith

-- Every source has a row.
pub build_singletons-row :
    (alloc : Allocator) (g : ValidatedGrammar) (limits : PreparationLimits) (work : WorkBudget)
    (made : List (List TerminalId) × WorkBudget) (s : LexerState) (i : ℕ)
    → build_singletons alloc g limits work ≡ ok made
    → source_index g s ≡ some i
    → (row : List TerminalId) × (get_elem? made.0 i ≡ some row)
unfolding build_singletons source_index
build_singletons-row alloc g limits work made s i h index =
    let width = g.lalr.dimensions.terminal_count in
    let (sources, e₁, h₁) = >>=-eq-ok (source_count g) _ h in
    let (cells, e₂, h₂) = >>=-eq-ok (check_items (checked_mul sources width) limits) _ h₁ in
    let (steps, e₃, h₃) = >>=-eq-ok (check_items (checked_mul sources 256) limits) _ h₂ in
    let (work₁, e₄, h₄) = >>=-eq-ok (charge work steps) _ h₃ in
    let (u, e₅, h₅) = >>=-eq-ok (prepared_vec alloc cells) _ h₄ in
    let (v, e₆, h₆) = >>=-eq-ok (prepared_vec alloc sources) _ h₅ in
    let (scan, e₇, h₇) = >>=-eq-ok (scan_sources alloc width g sources _) _ h₆ in
    let (known, e₈, h₈) =
      >>=-eq-ok (propagate_facts alloc width scan.predecessors scan.known scan.work) _ h₇ in
    let lt : i < sources = source_index_for-lt sources i s (rw e₁ at index) in
    get_elem?-total made.0 i (
      subst (λ n. i < n) (sym (collected-rows alloc width sources known.0.seen known.1 made h₈)) lt)

-- The terminals of a state's row are those that it may emit next.
pub build_singletons-NextTerminal :
    (alloc : Allocator) (g : ValidatedGrammar) (limits : PreparationLimits) (work : WorkBudget)
    (made : List (List TerminalId) × WorkBudget) (s : LexerState) (i : ℕ) (row : List TerminalId)
    (t : TerminalId)
    → build_singletons alloc g limits work ≡ ok made
    → source_index g s ≡ some i
    → get_elem? made.0 i ≡ some row
    → ((k : ℕ) × (get_elem? row k ≡ some t)) ↔ NextTerminal g s t
build_singletons-NextTerminal alloc g limits work made s i row t h index found =
    let ((lists, listed), s', at') =
      build_singletons-Lists_at alloc g limits work made i row t h found in
    let place = source_index-eq-some g i s index in
    let same : (r : LexerState) → source_at i ≡ some r → r ≡ s =
      λ r at. source_at-position s r (subst (λ n. source_at n ≡ some r) place at) in
    (
      λ there. let (r, at, next) = lists there in subst (λ r. NextTerminal g r t) (same r at) next,
      λ next. listed (s', at', subst (λ r. NextTerminal g r t) (sym (same s' at')) next),
    )
