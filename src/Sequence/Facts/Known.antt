-- ===== src/Sequence/Facts/Known.antt =====
-- What `add_fact` and `propagate_facts` of crates/greatgramma-core/src/sequence.rs leave: every fact
-- has its mark, every mark its fact, and a fact that was processed is one of every predecessor.
use greatgramma_rust.Base.{
  ℕ, ◌<◌, ◌≡◌, ◌≢◌, refl, sym, ap, ◌∙◌, subst, false, Bool-cases, inl, inr, some, List, [], ◌∷◌,
  ◌++◌, length, get_elem?, get_elem?-lt-length, get_elem?-append_cases, get_elem?-append_left,
  get_elem?-append_end, get_elem?-set_cases, get_elem?-set_self, get_elem?-set_ne, set, leb, leb→lt,
  ◌==◌, ==→≡, arith, ok, ok_or, >>=-eq-ok, ok_or-eq-ok, ok_inj, Allocator,
}
use greatgramma_rust.Normalized.{TerminalId}
use greatgramma_rust.TokenStep.Budget.{invariant_violation, prepared_push, prepared_push-eq-ok}
use greatgramma_rust.Sequence.Facts.{Fact, Facts, fact_index, mark_fact_seen, push_fact, add_fact}
use greatgramma_rust.Sequence.Facts.Places.{place-inj, fact_index-eq-ok}

abbrev pub Known : Facts → ℕ → TerminalId → Type 0
Known known s t = (k : ℕ) × (get_elem? known.facts k ≡ some (record { source = s; terminal = t }))

-- The facts of the one are those of the other, followed by more.
abbrev pub Extends : Facts → Facts → Type 0
Extends known known' =
    (k : ℕ) (fact : Fact)
    → get_elem? known.facts k ≡ some fact
    → get_elem? known'.facts k ≡ some fact

pub Extends-trans : (a b c : Facts) → Extends a b → Extends b c → Extends a c
Extends-trans a b c h h' k fact e = h' k fact (h k fact e)

set_keeps_marks :
    (xs : List ℕ) (i j mark : ℕ)
    → get_elem? xs i ≡ some mark
    → (mark == 0) ≡ false
    → (mark' : ℕ) × (get_elem? (set xs j 1) i ≡ some mark') × ((mark' == 0) ≡ false)
set_keeps_marks xs i j mark found is_set = elim (Bool-cases (i == j)) [
  | inl e ↦
      let same : j ≡ i = sym (==→≡ i j e) in
      (
        1,
        subst (λ n. get_elem? (set xs n 1) i ≡ some 1) (sym same)
            (get_elem?-set_self xs i 1 (get_elem?-lt-length xs i found)),
        refl,
      )
  | inr e ↦
      let other : j ≢ i = ground arith in (mark, get_elem?-set_ne xs j i 1 other ∙ found, is_set)
]

module _ (width : ℕ) where
  abbrev pub IsMarked : List ℕ → ℕ → TerminalId → Type 0
  IsMarked seen s t =
      (index : ℕ) × (mark : ℕ) × (t < width)
      × (fact_index s t width ≡ ok index)
      × (get_elem? seen index ≡ some mark)
      × ((mark == 0) ≡ false)

  abbrev pub Indexed : Facts → Type 0
  Indexed known =
      ((s t : ℕ) → Known known s t → IsMarked known.seen s t)
      × ((s t : ℕ) → IsMarked known.seen s t → Known known s t)

  module _ (alloc : Allocator) where
    abbrev pub Learns : Facts → ℕ → TerminalId → Facts → Type 0
    Learns known s t known' = Indexed known' × Extends known known' × Known known' s t

    pushed-Learns :
        (known : Facts) (s t index mark : ℕ)
        → Indexed known
        → t < width
        → fact_index s t width ≡ ok index
        → get_elem? known.seen index ≡ some mark
        → Learns known s t (record {
          seen = set known.seen index 1;
          facts = known.facts ++ record { source = s; terminal = t } ∷ [];
        })
    pushed-Learns known s t index mark (marked, known_of) lt at present =
        let new : Fact = record { source = s; terminal = t } in
        let place = get_elem?-append_end known.facts new in
        let extends : (k : ℕ) (fact : Fact)
            → get_elem? known.facts k ≡ some fact
            → get_elem? (known.facts ++ new ∷ []) k ≡ some fact =
          λ k fact e.
            get_elem?-append_left known.facts (new ∷ []) k (get_elem?-lt-length known.facts k e)
            ∙ e in
        (
          (
            λ s' t' (k, found). elim (get_elem?-append_cases known.facts new _ k found) [
              | inl old ↦
                  let (index', mark', lt', at', there, is_set) = marked s' t' (k, old) in
                  let (mark'', there', is_set') =
                    set_keeps_marks known.seen index' index mark' there is_set in
                  (index', mark'', lt', at', there', is_set')
              | inr (end, is) ↦
                  let same_s : s ≡ s' = sym (ap (λ f. f.source) is) in
                  let same_t : t ≡ t' = sym (ap (λ f. f.terminal) is) in
                  (
                    index,
                    1,
                    subst (λ n. n < width) same_t lt,
                    subst (λ n. fact_index n t' width ≡ ok index) same_s
                        (subst (λ n. fact_index s n width ≡ ok index) same_t at),
                    get_elem?-set_self known.seen index 1
                        (get_elem?-lt-length known.seen index present),
                    refl,
                  )
            ],
            λ s' t' (index', mark', lt', at', there, is_set).
                elim (get_elem?-set_cases known.seen index index' 1 mark' there) [
                  | inl old ↦
                      let (k, found) = known_of s' t' (index', mark', lt', at', old, is_set) in
                      (k, extends k _ found)
                  | inr (same, is) ↦
                      let (same_s, same_t) = place-inj width s s' t t' lt lt' (
                        fact_index-eq-ok s t width index at
                        ∙ sym (fact_index-eq-ok s' t' width index' at' ∙ same)) in
                      (
                        length known.facts,
                        place
                            ∙ ap (λ n. some (record new { source = n })) same_s
                            ∙ ap (λ n. some (record new { source = s'; terminal = n })) same_t,
                      )
                ],
          ),
          extends,
          (length known.facts, place),
        )

    pub add_fact-Learns :
        (known known' : Facts) (s t : ℕ)
        → Indexed known
        → add_fact alloc width known s t ≡ ok known'
        → Learns known s t known'
    unfolding add_fact push_fact mark_fact_seen
    add_fact-Learns known known' s t indexed h = elim (Bool-cases (leb width t)) [
      | inl e ↦ absurd (cc (h, e))
      | inr e ↦
          let lt = leb→lt width t e in
          let (index, e₁, f) = >>=-eq-ok (fact_index s t width) _ (rw e at h) in
          let (mark, e₂, f₂) =
            >>=-eq-ok (ok_or (get_elem? known.seen index) invariant_violation) _ f in
          let there = ok_or-eq-ok _ _ e₂ in
          elim (Bool-cases (mark == 0)) [
            | inl unset ↦
                let new : Fact = record { source = s; terminal = t } in
                let (seen, e₃, f₃) =
                  >>=-eq-ok (mark_fact_seen known.seen index) _ (rw unset at f₂) in
                let (u, e₄, f₄) =
                  >>=-eq-ok (ok_or (get_elem? known.seen index) invariant_violation) _ e₃ in
                let (facts, e₅, f₅) = >>=-eq-ok (prepared_push alloc known.facts new) _ f₃ in
                let pushed = prepared_push-eq-ok alloc known.facts new facts e₅ in
                let same_seen : set known.seen index 1 ≡ seen = ok_inj f₄ in
                subst (Learns known s t)
                  (ap (λ ss. record { seen = ss; facts = known.facts ++ new ∷ [] }) same_seen
                    ∙ ap (λ fs. record { seen = seen; facts = fs }) pushed
                    ∙ ok_inj f₅)
                  (pushed-Learns known s t index mark indexed lt e₁ there)
            | inr is_set ↦
                subst (Learns known s t) (ok_inj (rw is_set at f₂))
                  (indexed, λ k fact e. e, indexed.1 s t (index, mark, lt, e₁, there, is_set))
          ]
    ]
