-- ===== src/Adviser/Shown.antt =====
-- traceability.py: whatever is shown of a brief or an interpretation is grounded and sourced.
use us_stock_helper.Prelude.{
  ◌<◌, Text, text_eq, ◌≡◌, ap, sym, subst, true, some, Bool-cases, inl, inr, List, [], ◌∷◌, All,
  Any, arith, length, if◌then◌else◌,
}
use us_stock_helper.Adviser.Tokens.{Builtins}
use us_stock_helper.Adviser.Evidence.{EvidencePacket}
use us_stock_helper.Adviser.Trace.{
  Conclusion, FrameworkOpinion, CouncilBrief, NewsInterpretation, TracedConclusion, TracedOpinion,
  TracedBrief, TracedInterpretation, Traced, ok, ◌>>=◌, each, resolve_citation, reject_facts,
  has_any, trace_conclusion, framework_of, trace_opinion, trace_brief, trace_interpretation,
}
use us_stock_helper.Adviser.Frameworks.{AnalysisFramework, framework_by_id}
use us_stock_helper.Adviser.Sourced.{
  bind_ok, guard_ok, ok_inj, each-All, IsGrounded, reject_facts-IsGrounded, IsSourced,
  resolve_citation-IsSourced,
}

pub record IsShownConclusion (b : Builtins) (packet : EvidencePacket) (c : TracedConclusion)
    : Type 0 where
  pub statement_grounded : IsGrounded b packet c.statement
  pub has_source : 0 < length c.citations
  pub citations_sourced : All (IsSourced b packet) c.citations
  pub counter_sourced : All (IsSourced b packet) c.counter_evidence

each-some :
    {A B : Type 0} (f : A → Traced B) (xs : List A) (ys : List B)
    → has_any xs ≡ true
    → each f xs ≡ ok ys
    → 0 < length ys
each-some f [] ys some_x h = cc
each-some f (x ∷ xs) ys some_x h =
    let (y, first, rest) = bind_ok (f x) (λ y. each f xs >>= λ zs. ok (y ∷ zs)) ys h in
    let (zs, others, whole) = bind_ok (each f xs) (λ zs. ok (y ∷ zs)) ys rest in
    subst (λ l. 0 < length l) (ok_inj whole) (omega arith)

pub trace_conclusion-IsShown :
    (b : Builtins) (packet : EvidencePacket) (c : Conclusion) (t : TracedConclusion)
    → trace_conclusion b packet c ≡ ok t
    → IsShownConclusion b packet t
unfolding trace_conclusion
trace_conclusion-IsShown b packet c t h =
    let (cited, h1) = guard_ok (has_any c.citations) _ _ t h in
    let (u, grounded, h2) = bind_ok (reject_facts b packet c.statement) _ t h1 in
    let (cs, citations, h3) = bind_ok (each (resolve_citation b packet) c.citations) _ t h2 in
    let (ds, counter, h4) = bind_ok (each (resolve_citation b packet) c.counter_evidence) _ t h3 in
    let sourced = resolve_citation-IsSourced b packet in
    subst (IsShownConclusion b packet) (ok_inj h4) (record {
      statement_grounded = reject_facts-IsGrounded b packet c.statement u grounded;
      has_source = each-some _ c.citations cs cited citations;
      citations_sourced = each-All _ _ sourced c.citations cs citations;
      counter_sourced = each-All _ _ sourced c.counter_evidence ds counter;
    })

pub record IsShownOpinion (b : Builtins) (frameworks : List AnalysisFramework)
    (packet : EvidencePacket) (o : TracedOpinion) : Type 0 where
  pub known_framework :
      Any (λ f. (o.framework_id ≡ f.id) × (o.display_name ≡ f.display_name)) frameworks
  pub note_grounded : IsGrounded b packet o.blind_spot_note
  pub conclusions_shown : All (IsShownConclusion b packet) o.conclusions

framework_by_id-Any :
    (frameworks : List AnalysisFramework) (id : Text) (f : AnalysisFramework)
    → framework_of (framework_by_id frameworks id) ≡ ok f
    → Any (λ g. (f.id ≡ g.id) × (f.display_name ≡ g.display_name)) frameworks
unfolding framework_by_id
framework_by_id-Any [] id f h = cc
framework_by_id-Any (g ∷ gs) id f h = elim (Bool-cases (text_eq g.id id)) [
  | inl same ↦
      let e =
        ok_inj
          (subst (λ b. framework_of (if b then some g else framework_by_id gs id) ≡ ok f) same h) in
      inl (ap (λ x. x.id) (sym e), ap (λ x. x.display_name) (sym e))
  | inr other ↦ inr (
      framework_by_id-Any gs id f
        (subst (λ b. framework_of (if b then some g else framework_by_id gs id) ≡ ok f) other h))
]

pub trace_opinion-IsShown :
    (b : Builtins) (frameworks : List AnalysisFramework) (packet : EvidencePacket)
    (o : FrameworkOpinion) (t : TracedOpinion)
    → trace_opinion b frameworks packet o ≡ ok t
    → IsShownOpinion b frameworks packet t
unfolding trace_opinion
trace_opinion-IsShown b frameworks packet o t h =
    let (f, known, h1) = bind_ok (framework_of (framework_by_id frameworks o.framework_id)) _ t h in
    let (u, grounded, h2) = bind_ok (reject_facts b packet o.blind_spot_note) _ t h1 in
    let (cs, conclusions, h3) = bind_ok (each (trace_conclusion b packet) o.conclusions) _ t h2 in
    subst (IsShownOpinion b frameworks packet) (ok_inj h3) (record {
      known_framework = framework_by_id-Any frameworks o.framework_id f known;
      note_grounded = reject_facts-IsGrounded b packet o.blind_spot_note u grounded;
      conclusions_shown =
          each-All _ _ (trace_conclusion-IsShown b packet) o.conclusions cs conclusions;
    })

pub record IsShownBrief (b : Builtins) (frameworks : List AnalysisFramework)
    (packet : EvidencePacket) (t : TracedBrief) : Type 0 where
  pub summary_grounded : IsGrounded b packet t.summary
  pub opinions_shown : All (IsShownOpinion b frameworks packet) t.opinions

-- A brief that is not refused is grounded and sourced. Each number of two characters or more and each
-- abbreviation in its summary, in a note on blind spots and in a conclusion occurs in the packet;
-- each opinion is of a known framework, under its name; each conclusion has a citation, and each
-- citation is of an item of the packet, with the source and the times of that item, whose text holds
-- the quote up to space and case.
pub trace_brief-IsShown :
    (b : Builtins) (frameworks : List AnalysisFramework) (packet : EvidencePacket)
    (brief : CouncilBrief) (t : TracedBrief)
    → trace_brief b frameworks packet brief ≡ ok t
    → IsShownBrief b frameworks packet t
unfolding trace_brief
trace_brief-IsShown b frameworks packet brief t h =
    let (u, grounded, h1) = bind_ok (reject_facts b packet brief.summary) _ t h in
    let (os, opinions, h2) =
      bind_ok (each (trace_opinion b frameworks packet) brief.opinions) _ t h1 in
    subst (IsShownBrief b frameworks packet) (ok_inj h2) (record {
      summary_grounded = reject_facts-IsGrounded b packet brief.summary u grounded;
      opinions_shown =
          each-All _ _ (trace_opinion-IsShown b frameworks packet) brief.opinions os opinions;
    })

pub record IsShownInterpretation (b : Builtins) (packet : EvidencePacket) (t : TracedInterpretation)
    : Type 0 where
  pub headline_grounded : IsGrounded b packet t.headline_summary
  pub reading_grounded : IsGrounded b packet t.cross_source_reading
  pub unknowns_grounded : All (IsGrounded b packet) t.unknowns
  pub impact_shown : All (IsShownConclusion b packet) t.investment_impact

each_checked :
    {A : Type 0} (f : A → Traced (Unit {0})) (Q : A → Type 0)
    → ((x : A) (u : Unit {0}) → f x ≡ ok u → Q x)
    → (xs : List A) (us : List (Unit {0})) → each f xs ≡ ok us
    → All Q xs
each_checked f Q q [] us h = tt
each_checked f Q q (x ∷ xs) us h =
    let (u, first, rest) = bind_ok (f x) (λ y. each f xs >>= λ zs. ok (y ∷ zs)) us h in
    let (zs, others, whole) = bind_ok (each f xs) (λ zs. ok (u ∷ zs)) us rest in
    (q x u first, each_checked f Q q xs zs others)

-- An interpretation of the news that is not refused is grounded and sourced: its summary, its reading
-- across sources and each unknown hold only numbers of two characters or more and abbreviations that
-- occur in the packet, and so do its conclusions, each of which has a citation, and only citations of
-- items of the packet that hold the quote.
pub trace_interpretation-IsShown :
    (b : Builtins) (packet : EvidencePacket) (n : NewsInterpretation) (t : TracedInterpretation)
    → trace_interpretation b packet n ≡ ok t
    → IsShownInterpretation b packet t
unfolding trace_interpretation
trace_interpretation-IsShown b packet n t h =
    let (u, headline, h1) = bind_ok (reject_facts b packet n.headline_summary) _ t h in
    let (v, reading, h2) = bind_ok (reject_facts b packet n.cross_source_reading) _ t h1 in
    let (ws, unknowns, h3) = bind_ok (each (reject_facts b packet) n.unknowns) _ t h2 in
    let (cs, impact, h4) = bind_ok (each (trace_conclusion b packet) n.investment_impact) _ t h3 in
    subst (IsShownInterpretation b packet) (ok_inj h4) (record {
      headline_grounded = reject_facts-IsGrounded b packet n.headline_summary u headline;
      reading_grounded = reject_facts-IsGrounded b packet n.cross_source_reading v reading;
      unknowns_grounded =
          each_checked _ _ (reject_facts-IsGrounded b packet) n.unknowns ws unknowns;
      impact_shown = each-All _ _ (trace_conclusion-IsShown b packet) n.investment_impact cs impact;
    })
