-- ===== src/UniverseCache/Flight/Leaders.antt =====
-- market_universe_cache.py: what the attempt in flight says of the callers that compute.
use us_stock_helper.Prelude.{
  ℕ, ◌≤◌, Text, text_eq, text_eq_refl, ◌≡◌, refl, Bool, true, false, not, ◌||◌, every,
  count_where-select_le, Option, none, some, List, [], ◌∷◌, arith, ◌==◌, select, count_where,
}
use us_stock_helper.UniverseCache.{Instant, Attempt, new_attempt}
use us_stock_helper.UniverseCache.Flight.{Leader, is_leader, is_of}

-- For the name: with no attempt in flight nobody computes; the leader of an attempt, which is for the
-- key, is the only one.
abbrev pub Agrees : Text → Text → Option Attempt → List Leader → Type 0
Agrees name key none ls = count_where (is_of name) ls ≡ 0
Agrees name key (some a) ls =
    (a.key ≡ key)
    × (count_where (is_of name) ls ≤ 1)
    × (every (λ l. not (is_of name l) || is_leader name a.marker l) ls ≡ true)

pub every_zero :
    (name : Text) (m : ℕ) (ls : List Leader)
    → count_where (is_of name) ls ≡ 0
    → every (λ l. not (is_of name l) || is_leader name m l) ls ≡ true
every_zero name m [] h = refl
every_zero name m (l ∷ ls) h = ground (arith, every_zero name m ls)

pub every-select_mono :
    (p k : Leader → Bool) (ls : List Leader) → every p ls ≡ true → every p (select k ls) ≡ true
every-select_mono p k [] h = refl
every-select_mono p k (l ∷ ls) h = ground (arith, every-select_mono p k ls)

pub all_leave :
    (name : Text) (m : ℕ) (ls : List Leader)
    → every (λ l. not (is_of name l) || is_leader name m l) ls ≡ true
    → count_where (is_of name) (select (λ l. not (is_leader name m l)) ls) ≡ 0
all_leave name m [] h = refl
all_leave name m (l ∷ ls) h = ground (arith, all_leave name m ls)

-- Leaders that go change nothing of it, nor does one of another name that comes.
pub Agrees-select :
    (name key : Text) (a : Option Attempt) (k : Leader → Bool) (ls : List Leader)
    → Agrees name key a ls
    → Agrees name key a (select k ls)
Agrees-select name key none k ls h = omega (arith, h, count_where-select_le k (is_of name) ls)
Agrees-select name key (some a) k ls (same, few, all) = (
  same,
  omega (arith, few, count_where-select_le k (is_of name) ls),
  every-select_mono _ k ls all,
)

pub Agrees-other :
    (name key n : Text) (m : ℕ) (a : Option Attempt) (ls : List Leader)
    → text_eq n name ≡ false
    → Agrees name key a ls
    → Agrees name key a (record { name = n; marker = m } ∷ ls)
Agrees-other name key n m none ls other h = rw other (omega (arith, h))
Agrees-other name key n m (some a) ls other (same, few, all) =
    (same, rw other (omega (arith, few)), rw other all)

pub Agrees-new :
    (name key : Text) (now : Instant) (m : ℕ) (ls : List Leader)
    → count_where (is_of name) ls ≡ 0
    → Agrees name key (some (new_attempt key now m)) (record { name = name; marker = m } ∷ ls)
Agrees-new name key now m ls h = (
  refl,
  rw (text_eq_refl name) (omega (arith, h)),
  ground (arith, text_eq_refl name, every_zero name m ls),
)

pub Agrees-few :
    (name key : Text) (a : Option Attempt) (ls : List Leader)
    → Agrees name key a ls
    → count_where (is_of name) ls ≤ 1
Agrees-few name key none ls h = omega (arith, h)
Agrees-few name key (some a) ls h = h.1

pub marker_eq : (a b : ℕ) → (a == b) ≡ true → a ≡ b
marker_eq a b h = ground arith
