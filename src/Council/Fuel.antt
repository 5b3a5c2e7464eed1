-- ===== src/Council/Fuel.antt =====
-- council.py, `build_compact_packet`: no answer is for want of fuel.
use us_stock_helper.Prelude.{
  ℕ, suc, Text, ◌≡◌, ◌≢◌, refl, arith, Bool, true, false, not, Option, none, some, List, [], ◌∷◌,
  length, leb, if◌then◌else◌, Dict, get_key,
}
use us_stock_helper.Prelude.Doubles.{Doubles}
use us_stock_helper.Prelude.Checked.{Checked, accepted, rejected, require, present, ◌>>=◌}
use us_stock_helper.Council.Types.{
  EvidenceFact, CouncilRequest, CouncilError, is_none_left, Instant, conflicting_fact,
  packet_too_small, no_evidence, packet_cannot_fit, out_of_fuel,
}
use us_stock_helper.Council.{visible_facts, see_facts, see_fact, is_visible, conflicts}
use us_stock_helper.Council.Shrinks.{cut_until-ends}
use us_stock_helper.Council.Packet.{PacketFact, cut_until, size, packet_facts, build_compact_packet}

abbrev is_fuel : CouncilError → Bool
is_fuel out_of_fuel = true
is_fuel _ = false

abbrev pub wants_fuel : {A : Type 0} → Checked CouncilError A → Bool
wants_fuel (accepted a) = false
wants_fuel (rejected e) = is_fuel e

pub is_false : {b : Bool} → b ≡ false → b ≡ true → ⊥
is_false h k = cc

bind_fuel :
    {A B : Type 0} (m : Checked CouncilError A) (f : A → Checked CouncilError B)
    → wants_fuel m ≡ false
    → ((a : A) → m ≡ accepted a → wants_fuel (f a) ≡ false)
    → wants_fuel (m >>= f) ≡ false
bind_fuel (accepted a) f h k = k a refl
bind_fuel (rejected e) f h k = h

require_fuel : (t : Bool) (e : CouncilError) → is_fuel e ≡ false → wants_fuel (require t e) ≡ false
require_fuel true e h = refl
require_fuel false e h = h

present_fuel : {A : Type 0} (o : Option A) → o ≢ none → wants_fuel (present o out_of_fuel) ≡ false
present_fuel none h = absurd (h refl)
present_fuel (some a) h = refl

seen_or_clash :
    {A : Type 0} (shown clash : Bool) (seen new : A)
    → wants_fuel (
        if not shown
        then accepted seen
        else if clash
        then rejected conflicting_fact
        else accepted new)
      ≡ false
seen_or_clash true true seen new = refl
seen_or_clash true false seen new = refl
seen_or_clash false clash seen new = refl

module _ {F : Type 0} where
  see_facts-fuel :
      (d : Doubles F) (symbol : Text) (as_of : Instant) (seen : Dict (EvidenceFact F))
      (items : List (EvidenceFact F))
      → wants_fuel (see_facts d symbol as_of seen items) ≡ false
  unfolding see_facts see_fact
  see_facts-fuel d symbol as_of seen [] = refl
  see_facts-fuel d symbol as_of seen (item ∷ items) =
      bind_fuel (see_fact d symbol as_of seen item) (λ s. see_facts d symbol as_of s items)
        (seen_or_clash (is_visible symbol as_of item) (conflicts d (get_key item.id seen) item) seen
          _)
        (λ s h. see_facts-fuel d symbol as_of s items)

  pub build_compact_packet-fuel :
      (d : Doubles F) (encode : CouncilRequest F → List (PacketFact F) → Text)
      (r : CouncilRequest F) (maximum : ℕ)
      → wants_fuel (build_compact_packet d encode r maximum) ≡ false
  unfolding build_compact_packet visible_facts
  build_compact_packet-fuel d encode r maximum =
      bind_fuel (require (leb 400 maximum) packet_too_small) _
        (require_fuel _ packet_too_small refl)
        (λ a h.
          bind_fuel (visible_facts d r) _ (see_facts-fuel d _ r.as_of [] r.facts) (λ visible seen.
            bind_fuel (require (not (is_none_left visible)) no_evidence) _
              (require_fuel _ no_evidence refl)
              (λ b k.
                bind_fuel
                  (present
                    (cut_until (encode r) maximum (suc (size (packet_facts visible)))
                      (packet_facts visible))
                    out_of_fuel)
                  _
                  (present_fuel _ (
                    cut_until-ends (encode r) maximum (suc (size (packet_facts visible)))
                      (packet_facts visible) (omega arith)))
                  (λ fs e.
                    bind_fuel (require (leb (length (encode r fs)) maximum) packet_cannot_fit) _
                      (require_fuel _ packet_cannot_fit refl) (λ c l. refl)))))
