-- ===== src/Adviser/Visible.antt =====
-- evidence.py: what a packet holds.
use us_stock_helper.Prelude.{
  ◌≤◌, Text, ◌≡◌, refl, subst, Bool, true, false, Bool-cases, inl, inr, List, [], ◌∷◌, All, arith,
  count_where, select, if◌then◌else◌, map, strip, to_upper, ◌+◌,
}
use us_stock_helper.Adviser.Evidence.{
  Instant, EvidenceItem, EvidencePacket, BuildResult, built, value_error, is_visible, comes_after,
  insert_item, sort_items, pack, build_packet,
}

insert_item-count :
    (p : EvidenceItem → Bool) (a : EvidenceItem) (items : List EvidenceItem)
    → count_where p (insert_item a items) ≡ (if p a then 1 else 0) + count_where p items
unfolding insert_item
insert_item-count p a [] = refl
insert_item-count p a (b ∷ bs) = elim (Bool-cases (comes_after a b)) [
  | inl after ↦ rw after (omega (arith, insert_item-count p a bs))
  | inr before ↦ rw before refl
]

-- Sorting neither adds nor drops an item.
sort_items-count :
    (p : EvidenceItem → Bool) (items : List EvidenceItem)
    → count_where p (sort_items items) ≡ count_where p items
unfolding sort_items
sort_items-count p [] = refl
sort_items-count p (x ∷ xs) =
    omega (arith, insert_item-count p x (sort_items xs), sort_items-count p xs)

insert_item-All :
    (P : EvidenceItem → Type 0) (a : EvidenceItem) (items : List EvidenceItem)
    → P a
    → All P items
    → All P (insert_item a items)
unfolding insert_item
insert_item-All P a [] h hs = (h, tt)
insert_item-All P a (b ∷ bs) h (hb, hbs) = elim (Bool-cases (comes_after a b)) [
  | inl after ↦ rw after (hb, insert_item-All P a bs h hbs)
  | inr before ↦ rw before (h, (hb, hbs))
]

sort_items-All :
    (P : EvidenceItem → Type 0) (items : List EvidenceItem) → All P items → All P (sort_items items)
unfolding sort_items
sort_items-All P [] h = tt
sort_items-All P (x ∷ xs) (h, hs) = insert_item-All P x (sort_items xs) h (sort_items-All P xs hs)

select-holds :
    (p : EvidenceItem → Bool) (items : List EvidenceItem) → All (λ x. p x ≡ true) (select p items)
select-holds p [] = tt
select-holds p (x ∷ xs) = elim (Bool-cases (p x)) [
  | inl kept ↦ rw kept (kept, select-holds p xs)
  | inr dropped ↦ rw dropped (select-holds p xs)
]

-- The items stand in the order in which they became available.
abbrev pub IsInOrder : List EvidenceItem → Type 0
IsInOrder [] = Unit
IsInOrder (x ∷ xs) = All (λ y. x.available_at ≤ y.available_at) xs × IsInOrder xs

All-later :
    (a b : EvidenceItem) (items : List EvidenceItem)
    → a.available_at ≤ b.available_at
    → All (λ y. b.available_at ≤ y.available_at) items
    → All (λ y. a.available_at ≤ y.available_at) items
All-later a b [] le h = tt
All-later a b (x ∷ xs) le (h, hs) = (omega (arith, le, h), All-later a b xs le hs)

insert_item-IsInOrder :
    (a : EvidenceItem) (items : List EvidenceItem)
    → IsInOrder items
    → IsInOrder (insert_item a items)
unfolding insert_item
insert_item-IsInOrder a [] h = (tt, tt)
insert_item-IsInOrder a (b ∷ bs) (first, rest) = elim (Bool-cases (comes_after a b)) [
  | inl after ↦ rw after (
    insert_item-All (λ y. b.available_at ≤ y.available_at) a bs (ground arith) first,
    insert_item-IsInOrder a bs rest,
  )
  | inr before ↦
      let le : a.available_at ≤ b.available_at = ground arith in
      rw before ((le, All-later a b bs le first), (first, rest))
]

sort_items-IsInOrder : (items : List EvidenceItem) → IsInOrder (sort_items items)
unfolding sort_items
sort_items-IsInOrder [] = tt
sort_items-IsInOrder (x ∷ xs) = insert_item-IsInOrder x (sort_items xs) (sort_items-IsInOrder xs)

-- What a packet holds of the items that it is built from.
pub record IsFrozen (as_of : Instant) (items : List EvidenceItem) (packet : EvidencePacket)
    : Type 0 where
  pub time_of_packet : packet.as_of ≡ as_of
  pub all_visible : All (λ x. is_visible packet.symbol as_of x ≡ true) packet.items
  pub none_lost :
      (p : EvidenceItem → Bool)
      → count_where p packet.items ≡ count_where p (select (is_visible packet.symbol as_of) items)
  pub in_order : IsInOrder packet.items

built_inj : {x y : EvidencePacket} → built x ≡ built y → x ≡ y
built_inj h = cc

if_built :
    (b : Bool) (x y : EvidencePacket) → (if b then value_error else built x) ≡ built y → x ≡ y
if_built true x y h = cc
if_built false x y h = built_inj h

pack-IsFrozen :
    (symbol horizon : Text) (as_of : Instant) (items : List EvidenceItem) (packet : EvidencePacket)
    → pack symbol horizon as_of (select (is_visible symbol as_of) items) ≡ built packet
    → IsFrozen as_of items packet
unfolding pack
pack-IsFrozen symbol horizon as_of items packet h =
    let visible = select (is_visible symbol as_of) items in
    subst (IsFrozen as_of items) (if_built _ _ packet h) (record {
      time_of_packet = refl;
      all_visible = sort_items-All _ visible (select-holds (is_visible symbol as_of) items);
      none_lost = λ p. sort_items-count p visible;
      in_order = sort_items-IsInOrder visible;
    })

if_pack :
    (b : Bool) (r : BuildResult) (packet : EvidencePacket)
    → (if b then value_error else r) ≡ built packet
    → r ≡ built packet
if_pack true r packet h = cc
if_pack false r packet h = h

-- A packet holds exactly the items that were available at its time and concern its symbol, or no
-- symbol in particular, in the order in which they became available.
pub build_packet-IsFrozen :
    (symbol horizon : Text) (as_of : Instant) (items : List EvidenceItem) (packet : EvidencePacket)
    → build_packet symbol horizon as_of items ≡ built packet
    → IsFrozen as_of items packet
unfolding build_packet
build_packet-IsFrozen symbol horizon as_of items packet h =
    pack-IsFrozen (map to_upper (strip symbol)) horizon as_of items packet (if_pack _ _ packet h)
