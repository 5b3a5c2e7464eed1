-- ===== src/Adviser/Trace.antt =====
-- services/adviser_llm/src/adviser_llm/traceability.py: a model's output, resolved to the packet of
-- evidence or refused; the schemas that it has are those of schemas.py.
use us_stock_helper.Prelude.{
  Text, Bool, true, false, ◌||◌, Option, none, some, List, [], ◌∷◌, ◌++◌, ltb, map, every, select,
  length, leb,
}
use us_stock_helper.Adviser.Tokens.{Builtins, normalize, contains, numbers, uppercase_tokens}
use us_stock_helper.Adviser.Frameworks.{AnalysisFramework, framework_by_id}
use us_stock_helper.Adviser.Evidence.{
  Instant, EvidenceItem, EvidencePacket, text_of, item_of, is_in,
}

pub data Confidence : Type 0 where
  low medium high : Confidence

pub data Stance : Type 0 where
  bullish neutral bearish : Stance

pub record Citation : Type 0 where
  pub evidence_id : Text
  pub quote : Text

pub record Conclusion : Type 0 where
  pub statement : Text
  pub confidence : Confidence
  pub citations : List Citation
  pub counter_evidence : List Citation

pub record FrameworkOpinion : Type 0 where
  pub framework_id : Text
  pub stance : Stance
  pub conclusions : List Conclusion
  pub blind_spot_note : Text

pub record CouncilBrief : Type 0 where
  pub summary : Text
  pub opinions : List FrameworkOpinion

pub record NewsInterpretation : Type 0 where
  pub headline_summary : Text
  pub cross_source_reading : Text
  pub investment_impact : List Conclusion
  pub unknowns : List Text

pub record ResolvedCitation : Type 0 where
  pub evidence_id : Text
  pub quote : Text
  pub url : Text
  pub publisher : Text
  pub available_at : Instant
  pub received_at : Instant
  pub is_counter_evidence : Bool

pub record TracedConclusion : Type 0 where
  pub statement : Text
  pub confidence : Confidence
  pub citations : List ResolvedCitation
  pub counter_evidence : List ResolvedCitation

pub record TracedOpinion : Type 0 where
  pub framework_id : Text
  pub display_name : Text
  pub stance : Stance
  pub conclusions : List TracedConclusion
  pub blind_spot_note : Text

pub record TracedBrief : Type 0 where
  pub summary : Text
  pub opinions : List TracedOpinion

pub record TracedInterpretation : Type 0 where
  pub headline_summary : Text
  pub cross_source_reading : Text
  pub investment_impact : List TracedConclusion
  pub unknowns : List Text

-- The two errors of the module, without their messages.
pub data Refusal : Type 0 where
  traceability_error fabricated_fact_error : Refusal

pub data Traced (A : Type 0) : Type 0 where
  ok : A → Traced A
  refused : Refusal → Traced A

infixl 5 ◌>>=◌ ◌>>◌
abbrev pub ◌>>=◌ : {A B : Type 0} → Traced A → (A → Traced B) → Traced B
ok a >>= f = f a
refused e >>= f = refused e

abbrev pub ◌>>◌ : {B : Type 0} → Traced (Unit {0}) → Traced B → Traced B
m >> k = m >>= λ _. k

abbrev pub guard : Bool → Refusal → Traced (Unit {0})
guard true e = ok tt
guard false e = refused e

-- A tuple of results, in order, and the first error of it.
abbrev pub each : {A B : Type 0} → (A → Traced B) → List A → Traced (List B)
each f [] = ok []
each f (x ∷ xs) = f x >>= λ y. each f xs >>= λ ys. ok (y ∷ ys)

abbrev pub to_resolved : Citation → EvidenceItem → ResolvedCitation
to_resolved citation item = record {
  evidence_id = item.id;
  quote = citation.quote;
  url = item.url;
  publisher = item.publisher;
  available_at = item.available_at;
  received_at = item.received_at;
  is_counter_evidence = item.is_counter_evidence;
}

unfoldable pub resolve_item : Builtins → Citation → Option EvidenceItem → Traced ResolvedCitation
resolve_item b citation none = refused traceability_error
resolve_item b citation (some item) =
    guard (contains (normalize b citation.quote) (normalize b (text_of item))) fabricated_fact_error
    >> ok (to_resolved citation item)

-- `_resolve_citation`
unfoldable pub resolve_citation : Builtins → EvidencePacket → Citation → Traced ResolvedCitation
resolve_citation b packet citation = resolve_item b citation (item_of packet citation.evidence_id)

-- `" ".join(…)`
unfoldable pub join_spaced : List Text → Text
join_spaced [] = []
join_spaced (t ∷ []) = t
join_spaced (t ∷ u ∷ us) = t ++ b' ' ∷ join_spaced (u ∷ us)

abbrev item_corpus : Builtins → EvidenceItem → Text
item_corpus b item = join_spaced (
    item.headline
    ∷ item.body
    ∷ item.publisher
    ∷ join_spaced item.symbols
    ∷ b.isodate item.available_at
    ∷ b.isodate item.received_at
    ∷ [])

-- The text in which a number or an abbreviation must occur to be grounded.
unfoldable pub corpus : Builtins → EvidencePacket → Text
corpus b packet =
    join_spaced (packet.symbol ∷ b.isodate packet.as_of ∷ map (item_corpus b) packet.items)

-- `_grounded_tokens`
abbrev pub grounded_numbers : Builtins → EvidencePacket → List Text
grounded_numbers b packet = select (λ t. leb 2 (length t)) (numbers b (corpus b packet))

abbrev pub grounded_uppercase : Builtins → EvidencePacket → List Text
grounded_uppercase b packet = uppercase_tokens b (corpus b packet)

-- A number of one digit, or one of the packet's.
abbrev pub is_allowed : Builtins → EvidencePacket → Text → Bool
is_allowed b packet t = ltb (length t) 2 || is_in t (grounded_numbers b packet)

-- `_reject_facts_outside_the_packet`
unfoldable pub reject_facts : Builtins → EvidencePacket → Text → Traced (Unit {0})
reject_facts b packet statement =
    guard (every (is_allowed b packet) (numbers b statement)) fabricated_fact_error
    >> guard (every (λ t. is_in t (grounded_uppercase b packet)) (uppercase_tokens b statement))
        fabricated_fact_error

abbrev pub has_any {ℓ} : {A : Type ℓ} → List A → Bool
has_any [] = false
has_any (x ∷ xs) = true

unfoldable pub trace_conclusion : Builtins → EvidencePacket → Conclusion → Traced TracedConclusion
trace_conclusion b packet c = do
  guard (has_any c.citations) traceability_error
  reject_facts b packet c.statement
  citations ← each (resolve_citation b packet) c.citations
  counter ← each (resolve_citation b packet) c.counter_evidence
  ok (record {
    statement = c.statement;
    confidence = c.confidence;
    citations = citations;
    counter_evidence = counter;
  })

-- A framework that is not known is a `TraceabilityError`.
abbrev pub framework_of : Option AnalysisFramework → Traced AnalysisFramework
framework_of none = refused traceability_error
framework_of (some f) = ok f

-- `_trace_opinion`
unfoldable pub trace_opinion :
    Builtins → List AnalysisFramework → EvidencePacket → FrameworkOpinion → Traced TracedOpinion
trace_opinion b frameworks packet o = do
  framework ← framework_of (framework_by_id frameworks o.framework_id)
  reject_facts b packet o.blind_spot_note
  conclusions ← each (trace_conclusion b packet) o.conclusions
  ok (record {
    framework_id = framework.id;
    display_name = framework.display_name;
    stance = o.stance;
    conclusions = conclusions;
    blind_spot_note = o.blind_spot_note;
  })

unfoldable pub trace_brief :
    Builtins → List AnalysisFramework → EvidencePacket → CouncilBrief → Traced TracedBrief
trace_brief b frameworks packet brief = do
  reject_facts b packet brief.summary
  opinions ← each (trace_opinion b frameworks packet) brief.opinions
  ok (record { summary = brief.summary; opinions = opinions })

unfoldable pub trace_interpretation :
    Builtins → EvidencePacket → NewsInterpretation → Traced TracedInterpretation
trace_interpretation b packet n = do
  reject_facts b packet n.headline_summary
  reject_facts b packet n.cross_source_reading
  checked ← each (reject_facts b packet) n.unknowns
  impact ← each (trace_conclusion b packet) n.investment_impact
  ok (record {
    headline_summary = n.headline_summary;
    cross_source_reading = n.cross_source_reading;
    investment_impact = impact;
    unknowns = n.unknowns;
  })
