-- ===== src/Council/Fits.antt =====
-- council.py, `build_compact_packet`: the loop ends, and the packet fits.
use us_stock_helper.Prelude.{
  ℕ, zero, suc, ◌/◌, ◌≤◌, max, Text, ◌≡◌, ◌≢◌, refl, sym, ap, subst, ◌∙◌, not, ◌||◌, ◌==◌, Option,
  none, some, List, [], ◌∷◌, map, length, take, ltb, leb, leb→le, Dict, All, inl, inr, Bool-cases,
  Option-cases, strip, to_upper,
}
use us_stock_helper.Prelude.Doubles.{Doubles}
use us_stock_helper.Prelude.Keys.{some_inj}
use us_stock_helper.Prelude.Checked.{
  accepted, rejected, present, accepted_by, required_by, accepted_inj,
}
use us_stock_helper.Feeds.Collector.{sort_by}
use us_stock_helper.Feeds.Collector.Sorting.{sort_by-All}
use us_stock_helper.Council.Types.{
  EvidenceFact, CouncilRequest, is_none_left, packet_too_small, no_evidence, packet_cannot_fit,
  out_of_fuel,
}
use us_stock_helper.Council.{visible_facts}
use us_stock_helper.Council.Cited.{IsSeen, visible_facts-IsSeen}
use us_stock_helper.Council.Fuel.{wants_fuel, is_false, build_compact_packet-fuel}
use us_stock_helper.Council.Shrinks.{turned}
use us_stock_helper.Council.Packet.{
  PacketFact, packet_fact, longest, cut, cut_first, drop_last, cut_once, cut_until, size,
  comes_before, values, packet_facts, build_compact_packet,
}

-- What is cut twice is cut once.
take-take : (m n : ℕ) (t : Text) → (k : ℕ) × (take m (take n t) ≡ take k t)
take-take zero n t = (0, refl)
take-take (suc m) zero t = (0, refl)
take-take (suc m) (suc n) [] = (0, refl)
take-take (suc m) (suc n) (c ∷ t) = let (k, same) = take-take m n t in (suc k, ap (λ u. c ∷ u) same)

present-some : {A : Type 0} (o : Option A) (a : A) → present o out_of_fuel ≡ accepted a → o ≡ some a
present-some none a h = cc
present-some (some b) a h = ap some (accepted_inj b a h)

module _ {F : Type 0} where
  -- A fact in a packet is one that may be seen, with a text that its own begins with.
  abbrev pub IsShownFact : CouncilRequest F → PacketFact F → Type 0
  IsShownFact r f =
      (IsSeen (map to_upper (strip r.symbol)) r.as_of r.facts f.fact.id f.fact)
      × ((n : ℕ) × (f.text ≡ take n f.fact.text))

  cut-IsShownFact :
      (r : CouncilRequest F) (f : PacketFact F) → IsShownFact r f → IsShownFact r (cut f)
  cut-IsShownFact r f (seen, (n, same)) =
      let m = max 72 (length f.text / 2) in
      let (k, once) = take-take m n f.fact.text in (seen, (k, ap (take m) same ∙ once))

  cut_first-All :
      (r : CouncilRequest F) (n : ℕ) (fs : List (PacketFact F))
      → All (IsShownFact r) fs
      → All (IsShownFact r) (cut_first n fs)
  unfolding cut_first
  cut_first-All r n [] h = tt
  cut_first-All r n (f ∷ fs) (one, rest) = elim (Bool-cases (length f.text == n)) [
    | inl same ↦ rw same (cut-IsShownFact r f one, rest)
    | inr other ↦ rw other (one, cut_first-All r n fs rest)
  ]

  drop_last-All :
      (r : CouncilRequest F) (fs : List (PacketFact F))
      → All (IsShownFact r) fs
      → All (IsShownFact r) (drop_last fs)
  unfolding drop_last
  drop_last-All r [] h = tt
  drop_last-All r (f ∷ []) h = tt
  drop_last-All r (f ∷ g ∷ fs) (one, rest) = (one, drop_last-All r (g ∷ fs) rest)

  cut_once-All :
      (r : CouncilRequest F) (fs next : List (PacketFact F))
      → All (IsShownFact r) fs
      → cut_once fs ≡ some next
      → All (IsShownFact r) next
  unfolding cut_once
  cut_once-All r fs next all h =
      elim (turned (ltb 72 (longest fs)) (ltb 1 (length fs)) _ _ next h) [
        | inl (long, same) ↦ subst (All (IsShownFact r)) same (cut_first-All r (longest fs) fs all)
        | inr (more, same) ↦ subst (All (IsShownFact r)) same (drop_last-All r fs all)
      ]

  cut_until-All :
      (r : CouncilRequest F) (encode : List (PacketFact F) → Text) (maximum fuel : ℕ)
      (fs out : List (PacketFact F))
      → All (IsShownFact r) fs
      → cut_until encode maximum fuel fs ≡ some out
      → All (IsShownFact r) out
  unfolding cut_until
  cut_until-All r encode maximum zero fs out all = λ e. cc
  cut_until-All r encode maximum (suc fuel) fs out all =
      elim (Bool-cases (leb (length (encode fs)) maximum || is_none_left fs)) [
        | inl done ↦ rw done (λ e. subst (All (IsShownFact r)) (some_inj e) all)
        | inr again ↦ rw again (elim (Option-cases (cut_once fs)) [
          | inl stuck ↦ rw stuck (λ e. subst (All (IsShownFact r)) (some_inj e) all)
          | inr (next, turn) ↦
              rw turn
                (cut_until-All r encode maximum fuel next out (cut_once-All r fs next all turn))
        ])
      ]

  values-All :
      (r : CouncilRequest F) (symbol : Text) (visible : Dict (EvidenceFact F))
      → All (λ e. IsSeen symbol r.as_of r.facts e.0 e.1) visible
      → All (λ f. IsSeen symbol r.as_of r.facts f.id f) (values visible)
  values-All r symbol [] h = tt
  values-All r symbol ((id, f) ∷ rest) ((same, shown, member), later) =
      ((refl, shown, member), values-All r symbol rest later)

  packed-All :
      (r : CouncilRequest F) (fs : List (EvidenceFact F))
      → All (λ f. IsSeen (map to_upper (strip r.symbol)) r.as_of r.facts f.id f) fs
      → All (IsShownFact r) (map packet_fact fs)
  packed-All r [] h = tt
  packed-All r (f ∷ fs) (one, rest) = ((one, (280, refl)), packed-All r fs rest)

  packet_facts-All :
      (d : Doubles F) (r : CouncilRequest F) (visible : Dict (EvidenceFact F))
      → visible_facts d r ≡ accepted visible
      → All (IsShownFact r) (packet_facts visible)
  packet_facts-All d r visible h = packed-All r (sort_by comes_before (values visible)) (
      sort_by-All comes_before (λ f. IsSeen (map to_upper (strip r.symbol)) r.as_of r.facts f.id f)
        (values visible)
        (values-All r (map to_upper (strip r.symbol)) visible (visible_facts-IsSeen d r visible h)))

  -- A packet is the encoding of facts that may be seen, within the limit.
  abbrev pub IsFitting :
      (CouncilRequest F → List (PacketFact F) → Text) → CouncilRequest F → ℕ → Text → Type 0
  IsFitting encode r maximum t =
      (fs : List (PacketFact F)) × (t ≡ encode r fs) × (length t ≤ maximum) × All (IsShownFact r) fs

  accepted-IsFitting :
      (d : Doubles F) (encode : CouncilRequest F → List (PacketFact F) → Text)
      (r : CouncilRequest F) (maximum : ℕ) (t : Text)
      → build_compact_packet d encode r maximum ≡ accepted t
      → IsFitting encode r maximum t
  unfolding build_compact_packet
  accepted-IsFitting d encode r maximum t h =
      let (large, h1) = required_by (leb 400 maximum) packet_too_small _ t h in
      let (visible, seen, h2) = accepted_by (visible_facts d r) _ t h1 in
      let (filled, h3) = required_by (not (is_none_left visible)) no_evidence _ t h2 in
      let loop =
        cut_until (encode r) maximum (suc (size (packet_facts visible))) (packet_facts visible) in
      let (fs, ended, h4) = accepted_by (present loop out_of_fuel) _ t h3 in
      let (fits, h5) = required_by (leb (length (encode r fs)) maximum) packet_cannot_fit _ t h4 in
      let same = accepted_inj (encode r fs) t h5 in
      (
        fs,
        sym same,
        subst (λ u. length u ≤ maximum) same (leb→le _ _ fits),
        cut_until-All r (encode r) maximum _ (packet_facts visible) fs
            (packet_facts-All d r visible seen) (present-some loop fs ended),
      )

  -- What `build_compact_packet` answers is never for want of fuel: its loop ends. A packet that it
  -- returns has no more characters than the limit, and encodes facts of the request alone, each of no
  -- later time and about the symbol or about none, with a text that the fact's own begins with.
  pub build_compact_packet-Fits :
      (d : Doubles F) (encode : CouncilRequest F → List (PacketFact F) → Text)
      (r : CouncilRequest F) (maximum : ℕ)
      → (build_compact_packet d encode r maximum ≢ rejected out_of_fuel)
        × ((t : Text)
            → build_compact_packet d encode r maximum ≡ accepted t
            → IsFitting encode r maximum t)
  build_compact_packet-Fits d encode r maximum = (
    λ h. is_false (build_compact_packet-fuel d encode r maximum) (ap wants_fuel h),
    λ t h. accepted-IsFitting d encode r maximum t h,
  )
