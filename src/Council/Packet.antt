-- ===== src/Council/Packet.antt =====
-- council.py, `build_compact_packet`: the facts that a packet shows, cut until it fits. `encode` is
-- `json.dumps` of the payload with these facts.
use us_stock_helper.Prelude.{
  ℕ, zero, suc, ◌+◌, ◌/◌, max, Text, text_lt, Bool, not, ◌&&◌, ◌||◌, ◌==◌, Option, none, some, List,
  [], ◌∷◌, map, length, take, ltb, leb, if◌then◌else◌, Dict,
}
use us_stock_helper.Prelude.Doubles.{Doubles}
use us_stock_helper.Prelude.Checked.{Checked, accepted, require, present, ◌>>=◌, ◌>>◌}
use us_stock_helper.Feeds.Collector.{sort_by}
use us_stock_helper.Council.Types.{
  EvidenceFact, CouncilRequest, CouncilError, is_none_left, packet_too_small, no_evidence,
  packet_cannot_fit, out_of_fuel,
}
use us_stock_helper.Council.{visible_facts}

-- A fact with what is left of its text.
pub record PacketFact (F : Type 0) : Type 0 where
  pub fact : EvidenceFact F
  pub text : Text

module _ {F : Type 0} where
  abbrev pub packet_fact : EvidenceFact F → PacketFact F
  packet_fact item = record { fact = item; text = take 280 item.text }

  -- The length of the text that is longest.
  abbrev pub longest : List (PacketFact F) → ℕ
  longest [] = 0
  longest (f ∷ fs) = max (length f.text) (longest fs)

  abbrev pub cut : PacketFact F → PacketFact F
  cut f = record f { text = take (max 72 (length f.text / 2)) f.text }

  -- The first of the texts of length n is cut.
  unfoldable pub cut_first : ℕ → List (PacketFact F) → List (PacketFact F)
  cut_first n [] = []
  cut_first n (f ∷ fs) =
      let rest = cut_first n fs in if length f.text == n then cut f ∷ fs else f ∷ rest

  -- `facts.pop()`
  unfoldable pub drop_last : List (PacketFact F) → List (PacketFact F)
  drop_last [] = []
  drop_last (f ∷ []) = []
  drop_last (f ∷ g ∷ fs) = f ∷ drop_last (g ∷ fs)

  -- One turn of the loop, where `none` is its `break`.
  unfoldable pub cut_once : List (PacketFact F) → Option (List (PacketFact F))
  cut_once facts =
      if ltb 72 (longest facts)
      then some (cut_first (longest facts) facts)
      else if ltb 1 (length facts)
      then some (drop_last facts)
      else none

  abbrev pub after_turn {ℓ} :
      {A : Type ℓ} → A → Option (List (PacketFact F)) → (List (PacketFact F) → A) → A
  after_turn out none loop = out
  after_turn out (some next) loop = loop next

  -- The loop; `none` when the fuel does not reach.
  unfoldable pub cut_until :
      (List (PacketFact F) → Text) → ℕ → ℕ → List (PacketFact F) → Option (List (PacketFact F))
  cut_until encode maximum zero facts = none
  cut_until encode maximum (suc fuel) facts =
      if leb (length (encode facts)) maximum || is_none_left facts
      then some facts
      else after_turn (some facts) (cut_once facts) (cut_until encode maximum fuel)

  -- The characters that there are, and the facts.
  abbrev pub size : List (PacketFact F) → ℕ
  size [] = 0
  size (f ∷ fs) = suc (length f.text) + size fs

  -- By `(available_at, id)`
  unfoldable pub comes_before : EvidenceFact F → EvidenceFact F → Bool
  comes_before a b =
      ltb a.available_at b.available_at || (a.available_at == b.available_at && text_lt a.id b.id)

  abbrev pub values : Dict (EvidenceFact F) → List (EvidenceFact F)
  values d = map (λ e. e.1) d

  abbrev pub packet_facts : Dict (EvidenceFact F) → List (PacketFact F)
  packet_facts visible = map packet_fact (sort_by comes_before (values visible))

  unfoldable pub build_compact_packet :
      Doubles F
      → (CouncilRequest F → List (PacketFact F) → Text)
      → CouncilRequest F
      → ℕ
      → Checked CouncilError Text
  build_compact_packet d encode r maximum = do
    require (leb 400 maximum) packet_too_small
    visible ← visible_facts d r
    require (not (is_none_left visible)) no_evidence
    facts ←
        present
          (cut_until (encode r) maximum (suc (size (packet_facts visible))) (packet_facts visible))
          out_of_fuel
    require (leb (length (encode r facts)) maximum) packet_cannot_fit
    accepted (encode r facts)
