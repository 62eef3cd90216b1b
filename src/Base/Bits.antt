-- ===== src/Base/Bits.antt =====
-- Laws of `bit_and` and `bit_or` at every number: masks of low bits, fields, and the laws of a
-- distributive lattice by which masks are set, cleared and tested.
use Prim.Native.Nat.{ℕ, zero, suc, ◌+◌, ◌-◌, ◌*◌, ◌/◌, ◌%◌, ◌^◌, ◌≤◌, ◌<◌, bit_and, bit_or}
use mathlib.Core.Path.{◌≡◌, refl, ap, ◌∙◌}
use native.Mathlib.Nat.{pow-suc, one-le-pow, div-add-mod, div-div-eq-div-mul, mul-one, mod-eq_of_lt}
use native.Mathlib.Omega.{arith}
use resume_from_edk2_tooling.Base.Digits.{bit_and_halve, bit_or_halve}

-- Each law is proved for all arguments up to a bound, from the halves up.
bit_and-zero_le : (n a : ℕ) → a ≤ n → bit_and a 0 ≡ 0
bit_and-zero_le n zero le = refl
bit_and-zero_le zero (suc a) le = absurd (omega arith)
bit_and-zero_le (suc n) (suc a) le =
    omega (arith, bit_and_halve (suc a) 0, bit_and-zero_le n (suc a / 2) (omega arith))

pub bit_and-zero : (a : ℕ) → bit_and a 0 ≡ 0
bit_and-zero a = bit_and-zero_le a a (omega arith)

bit_and_comm_le : (n a b : ℕ) → a ≤ n → b ≤ n → bit_and a b ≡ bit_and b a
bit_and_comm_le zero zero zero p q = refl
bit_and_comm_le zero zero (suc b) p q = absurd (omega arith)
bit_and_comm_le zero (suc a) b p q = absurd (omega arith)
bit_and_comm_le (suc n) a b p q = omega (
  arith,
  bit_and_halve a b,
  bit_and_halve b a,
  bit_and_comm_le n (a / 2) (b / 2) (omega arith) (omega arith),
)

pub bit_and_comm : (a b : ℕ) → bit_and a b ≡ bit_and b a
bit_and_comm a b = bit_and_comm_le (a + b) a b (omega arith) (omega arith)

pub zero-bit_and : (a : ℕ) → bit_and 0 a ≡ 0
zero-bit_and a = bit_and_comm 0 a ∙ bit_and-zero a

bit_and_self_le : (n a : ℕ) → a ≤ n → bit_and a a ≡ a
bit_and_self_le n zero le = refl
bit_and_self_le zero (suc a) le = absurd (omega arith)
bit_and_self_le (suc n) (suc a) le =
    omega (arith, bit_and_halve (suc a) (suc a), bit_and_self_le n (suc a / 2) (omega arith))

pub bit_and_self : (a : ℕ) → bit_and a a ≡ a
bit_and_self a = bit_and_self_le a a (omega arith)

bit_and_assoc_le : (n a b c : ℕ) → a ≤ n → bit_and (bit_and a b) c ≡ bit_and a (bit_and b c)
bit_and_assoc_le n zero b c le = rw (zero-bit_and b, zero-bit_and (bit_and b c)) (zero-bit_and c)
bit_and_assoc_le zero (suc a) b c le = absurd (omega arith)
bit_and_assoc_le (suc n) (suc a) b c le = ground (
  arith,
  bit_and_halve (bit_and (suc a) b) c,
  bit_and_halve (suc a) b,
  bit_and_halve (suc a) (bit_and b c),
  bit_and_halve b c,
  bit_and_assoc_le n (suc a / 2) (b / 2) (c / 2),
)

-- Halving and then taking a remainder.
mod_double : (p a : ℕ) → a % (2 * p) ≡ a / 2 % p * 2 + a % 2
mod_double p a = omega (
  arith,
  div-add-mod a (2 * p),
  div-add-mod (a / 2) p,
  ap (λ (t : ℕ). p * t) (div-div-eq-div-mul a 2 p),
)

-- A mask of `k` low bits is the remainder by `2 ^ k`.
pub bit_and_low : (k a : ℕ) → bit_and a (2 ^ k - 1) ≡ a % 2 ^ k
bit_and_low zero a = omega (arith, bit_and-zero a)
bit_and_low (suc k) a =
    let twice : 2 ^ suc k ≡ 2 * 2 ^ k = omega (arith, pow-suc 2 k) in
    let halved : (2 ^ suc k - 1) / 2 ≡ 2 ^ k - 1 = omega (arith, twice, one-le-pow k 2) in
    bit_and_halve a (2 ^ suc k - 1)
    ∙ omega (
      arith,
      ap (bit_and (a / 2)) halved,
      bit_and_low k (a / 2),
      ap (λ t. a % t) twice,
      mod_double (2 ^ k) a,
      twice,
      one-le-pow k 2,
    )

-- A mask shifted up by `k` reads the bits from `k` on.
pub bit_and_shifted : (k a m : ℕ) → bit_and a (m * 2 ^ k) ≡ bit_and (a / 2 ^ k) m * 2 ^ k
bit_and_shifted zero a m =
    let same : a / 1 ≡ a = omega arith in rw same (omega (arith, ap (bit_and a) (mul-one m)))
bit_and_shifted (suc k) a m =
    let twice : m * 2 ^ suc k ≡ 2 * (m * 2 ^ k) =
      omega (arith, ap (λ (t : ℕ). m * t) (pow-suc 2 k)) in
    let deep : a / 2 / 2 ^ k ≡ a / 2 ^ suc k =
      div-div-eq-div-mul a 2 (2 ^ k) ∙ ap (λ t. a / t) (omega (arith, pow-suc 2 k)) in
    let half : m * 2 ^ suc k / 2 ≡ m * 2 ^ k = omega (arith, twice) in
    bit_and_halve a (m * 2 ^ suc k)
    ∙ omega (
      arith,
      ap (bit_and (a / 2)) half,
      bit_and_shifted k (a / 2) m,
      ap (λ t. bit_and t m * 2 ^ k) deep,
      ap (λ (t : ℕ). bit_and (a / 2 ^ suc k) m * t) (pow-suc 2 k),
      twice,
    )

-- A field of `w` bits from bit `k` on.
pub bit_and_field : (k w a : ℕ) → bit_and a ((2 ^ w - 1) * 2 ^ k) ≡ a / 2 ^ k % 2 ^ w * 2 ^ k
bit_and_field k w a =
    bit_and_shifted k a (2 ^ w - 1) ∙ ap (λ t. t * 2 ^ k) (bit_and_low w (a / 2 ^ k))

-- A mask and its complement on `k` bits part the low `k` bits of a number.
pub bit_and_complement :
    (k a m : ℕ) → m < 2 ^ k → bit_and a (2 ^ k - 1 - m) + bit_and a m ≡ a % 2 ^ k
bit_and_complement zero a zero h = omega (arith, bit_and-zero a)
bit_and_complement zero a (suc m) h = absurd (omega arith)
bit_and_complement (suc k) a m h =
    let twice : 2 ^ suc k ≡ 2 * 2 ^ k = omega (arith, pow-suc 2 k) in
    let half : (2 ^ suc k - 1 - m) / 2 ≡ 2 ^ k - 1 - m / 2 = omega (arith, twice) in
    omega (
      arith,
      bit_and_halve a (2 ^ suc k - 1 - m),
      bit_and_halve a m,
      ap (bit_and (a / 2)) half,
      bit_and_complement k (a / 2) (m / 2) (omega (arith, twice)),
      ap (λ t. a % t) twice,
      mod_double (2 ^ k) a,
      twice,
    )

or_half : (a b : ℕ) → bit_or a b / 2 ≡ bit_or (a / 2) (b / 2)
or_half a b = omega (arith, bit_or_halve a b)

bit_or-absorb_le : (n a m : ℕ) → m ≤ n → bit_and (bit_or a m) m ≡ m
bit_or-absorb_le n a zero le = bit_and-zero (bit_or a 0)
bit_or-absorb_le zero a (suc m) le = absurd (omega arith)
bit_or-absorb_le (suc n) a (suc m) le = omega (
  arith,
  bit_and_halve (bit_or a (suc m)) (suc m),
  bit_or_halve a (suc m),
  bit_or-absorb_le n (a / 2) (suc m / 2) (omega arith),
  ap (λ t. bit_and t (suc m / 2)) (or_half a (suc m)),
)

-- A mask that has been set is read back whole.
pub bit_or-absorb : (a m : ℕ) → bit_and (bit_or a m) m ≡ m
bit_or-absorb a m = bit_or-absorb_le m a m (omega arith)

bit_or-absorb_inner_le : (n a m x : ℕ) → m ≤ n → bit_and (bit_or a (bit_or m x)) m ≡ m
bit_or-absorb_inner_le n a zero x le = bit_and-zero (bit_or a (bit_or 0 x))
bit_or-absorb_inner_le zero a (suc m) x le = absurd (omega arith)
bit_or-absorb_inner_le (suc n) a (suc m) x le =
    let whole : ℕ = bit_or (suc m) x in
    let halves : bit_or a whole / 2 ≡ bit_or (a / 2) (bit_or (suc m / 2) (x / 2)) =
      or_half a whole ∙ ap (bit_or (a / 2)) (or_half (suc m) x) in
    omega (
      arith,
      bit_and_halve (bit_or a whole) (suc m),
      bit_or_halve a whole,
      bit_or_halve (suc m) x,
      bit_or-absorb_inner_le n (a / 2) (suc m / 2) (x / 2) (omega arith),
      ap (λ t. bit_and t (suc m / 2)) halves,
    )

-- The same where more than the mask was set.
pub bit_or-absorb_inner : (a m x : ℕ) → bit_and (bit_or a (bit_or m x)) m ≡ m
bit_or-absorb_inner a m x = bit_or-absorb_inner_le m a m x (omega arith)

-- A mask that has been cleared is read back as 0.
pub bit_and_cleared : (k a m : ℕ) → m < 2 ^ k → bit_and (bit_and a (2 ^ k - 1 - m)) m ≡ 0
bit_and_cleared k a m h =
    bit_and_assoc_le a a (2 ^ k - 1 - m) m (omega arith) ∙ ap (bit_and a) none ∙ bit_and-zero a
  where
    none : bit_and (2 ^ k - 1 - m) m ≡ 0
    none =
        bit_and_comm (2 ^ k - 1 - m) m
        ∙ omega (arith, bit_and_complement k m m h, bit_and_self m, mod-eq_of_lt h)

zero-bit_or_le : (n m : ℕ) → m ≤ n → bit_or 0 m ≡ m
zero-bit_or_le n zero le = refl
zero-bit_or_le zero (suc m) le = absurd (omega arith)
zero-bit_or_le (suc n) (suc m) le =
    omega (arith, bit_or_halve 0 (suc m), zero-bit_or_le n (suc m / 2) (omega arith))

-- Digits that do not meet are added.
pub bit_or_joined : (k a m : ℕ) → a < 2 ^ k → bit_or a (m * 2 ^ k) ≡ a + m * 2 ^ k
bit_or_joined zero a m h =
    let nothing : a ≡ 0 = omega arith in
    rw (nothing, mul-one m) (omega (arith, zero-bit_or_le m m (omega arith)))
bit_or_joined (suc k) a m h =
    let double : m * 2 ^ suc k ≡ 2 * (m * 2 ^ k) = grind (arith, ap (λ t. m * t) (pow-suc 2 k)) in
    let rest : bit_or (a / 2) (m * 2 ^ k) ≡ a / 2 + m * 2 ^ k =
      bit_or_joined k (a / 2) m (omega (arith, pow-suc 2 k)) in
    let half : 2 * (m * 2 ^ k) / 2 ≡ m * 2 ^ k = omega arith in
    rw double
      (omega (arith, bit_or_halve a (2 * (m * 2 ^ k)), rest, half, ap (λ t. bit_or (a / 2) t) half))

bit_or_comm_le : (n a b : ℕ) → a ≤ n → b ≤ n → bit_or a b ≡ bit_or b a
bit_or_comm_le zero zero zero p q = refl
bit_or_comm_le zero zero (suc b) p q = absurd (omega arith)
bit_or_comm_le zero (suc a) b p q = absurd (omega arith)
bit_or_comm_le (suc n) a b p q = omega (
  arith,
  bit_or_halve a b,
  bit_or_halve b a,
  bit_or_comm_le n (a / 2) (b / 2) (omega arith) (omega arith),
)

pub bit_or_comm : (a b : ℕ) → bit_or a b ≡ bit_or b a
bit_or_comm a b = bit_or_comm_le (a + b) a b (omega arith) (omega arith)

-- Numbers of `k` bits are closed under both.
pub bit_or-lt : (k a b : ℕ) → a < 2 ^ k → b < 2 ^ k → bit_or a b < 2 ^ k
bit_or-lt zero zero zero ha hb = omega arith
bit_or-lt zero zero (suc b) ha hb = absurd (omega arith)
bit_or-lt zero (suc a) b ha hb = absurd (omega arith)
bit_or-lt (suc k) a b ha hb =
    let twice : 2 ^ suc k ≡ 2 * 2 ^ k = omega (arith, pow-suc 2 k) in
    omega (
      arith,
      bit_or_halve a b,
      bit_or-lt k (a / 2) (b / 2) (omega (arith, twice)) (omega (arith, twice)),
      twice,
    )

pub bit_and-lt : (k a m : ℕ) → m < 2 ^ k → bit_and a m < 2 ^ k
bit_and-lt zero a zero h = omega (arith, bit_and-zero a)
bit_and-lt zero a (suc m) h = absurd (omega arith)
bit_and-lt (suc k) a m h =
    let twice : 2 ^ suc k ≡ 2 * 2 ^ k = omega (arith, pow-suc 2 k) in
    omega (arith, bit_and_halve a m, bit_and-lt k (a / 2) (m / 2) (omega (arith, twice)), twice)
