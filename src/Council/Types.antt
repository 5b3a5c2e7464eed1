-- ===== src/Council/Types.antt =====
-- council.py: facts, requests, opinions and results, and the errors.
use us_stock_helper.Prelude.{
  ℕ, Text, text_eq, codes, Bool, true, false, ◌&&◌, List, [], ◌∷◌, exists,
}

abbrev pub Instant : Type 0
Instant = ℕ

abbrev pub is_in : Text → List Text → Bool
is_in t ts = exists (text_eq t) ts

abbrev pub same_texts : List Text → List Text → Bool
same_texts [] [] = true
same_texts [] (b ∷ bs) = false
same_texts (a ∷ as_) [] = false
same_texts (a ∷ as_) (b ∷ bs) = text_eq a b && same_texts as_ bs

pub record EvidenceFact (F : Type 0) : Type 0 where
  pub id : Text
  pub text : Text
  pub citation_url : Text
  pub available_at : Instant
  pub credibility : F
  pub is_counter_evidence : Bool
  pub symbols : List Text

pub record CouncilRequest (F : Type 0) : Type 0 where
  pub symbol : Text
  pub horizon : Text
  pub as_of : Instant
  pub baseline_score : F
  pub baseline_direction : Text
  pub requested_focus : List Text
  pub facts : List (EvidenceFact F)

pub record AdviserOpinion (F : Type 0) : Type 0 where
  pub adviser_id : Text
  pub direction : Text
  pub confidence : F
  pub score_adjustment : F
  pub thesis : Text
  pub counterargument : Text
  pub citation_ids : List Text
  pub missing_evidence : List Text
  pub abstained : Bool

pub record CouncilResult (F : Type 0) : Type 0 where
  pub baseline_score : F
  pub adjusted_score : F
  pub adjustment : F
  pub objective_direction : Text
  pub action_eligible : Bool
  pub active_opinions : ℕ
  pub abstentions : ℕ

-- The `ValueError`s, those of `InvalidAdviserOutput` among them; `out_of_fuel` is no error of the source.
pub data CouncilError : Type 0 where
  unknown_adviser unknown_direction confidence_out_of_range adjustment_over_cap : CouncilError
  texts_required cites_outside_packet abstention_required citation_required : CouncilError
  abstention_not_neutral conflicting_fact baseline_out_of_range negative_cap : CouncilError
  maximum_not_positive packet_too_small no_evidence packet_cannot_fit out_of_fuel : CouncilError

abbrev pub directions : List Text
directions = codes "bullish" ∷ codes "neutral" ∷ codes "bearish" ∷ []

abbrev pub is_none_left : {A : Type 0} → List A → Bool
is_none_left [] = true
is_none_left (x ∷ xs) = false
