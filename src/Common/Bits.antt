-- ===== src/Common/Bits.antt =====
-- `bit_or` of two numbers with no digit in common is their sum.
use Prim.Native.Nat.{
  ℕ, zero, suc, ◌+◌, ◌*◌, ◌/◌, ◌%◌, ◌^◌, ◌≤◌, ◌<◌, min, max, bit_and, bit_or, bit_xor, digits,
  differ, bit_and-bitwise, bit_or-bitwise, bit_xor-bitwise,
}
use mathlib.Core.Path.{◌≡◌, refl, sym, ap, ◌∙◌}
use native.Mathlib.Omega.{arith}
use native.Mathlib.Nat.{pow-suc, zero-add}

-- An operation on the digits, with `last` for the digits behind the first number's: more rounds than
-- the first number has digits add nothing.
module _ (last : ℕ → ℕ) (on_digit : ℕ → ℕ → ℕ) where
  rounds_agree :
      (x y k l : ℕ) → x ≤ k → x ≤ l → digits last on_digit k x y ≡ digits last on_digit l x y
  rounds_agree zero y zero zero hk hl = refl
  rounds_agree zero y (suc k) zero hk hl = refl
  rounds_agree zero y zero (suc l) hk hl = refl
  rounds_agree zero y (suc k) (suc l) hk hl = refl
  rounds_agree (suc x) y zero l hk hl = absurd (omega arith)
  rounds_agree (suc x) y (suc k) zero hk hl = absurd (omega arith)
  rounds_agree (suc x) y (suc k) (suc l) hk hl =
      ap (λ high. high * 2 + on_digit (suc x % 2) (y % 2))
        (rounds_agree (suc x / 2) (y / 2) k l (omega arith) (omega arith))

  -- The lowest digit and the others.
  split_low :
      (x y : ℕ)
      → digits last on_digit (suc x) (suc x) y
        ≡ digits last on_digit (suc x / 2) (suc x / 2) (y / 2) * 2 + on_digit (suc x % 2) (y % 2)
  split_low x y =
      ap (λ high. high * 2 + on_digit (suc x % 2) (y % 2))
        (rounds_agree (suc x / 2) (y / 2) x (suc x / 2) (omega arith) (omega arith))

zero-bit_or : (y : ℕ) → bit_or 0 y ≡ y
zero-bit_or y = bit_or-bitwise 0 y

pub bit_or_step : (a b : ℕ) → bit_or a b ≡ bit_or (a / 2) (b / 2) * 2 + max (a % 2) (b % 2)
bit_or_step zero y = omega (arith, zero-bit_or y, zero-bit_or (y / 2))
bit_or_step (suc x) y =
    bit_or-bitwise (suc x) y
    ∙ split_low (λ t. t) max x y
    ∙ ap (λ high. high * 2 + max (suc x % 2) (y % 2)) (sym (bit_or-bitwise (suc x / 2) (y / 2)))

twice : (b k : ℕ) → b * 2 ^ suc k ≡ b * 2 ^ k * 2
twice b k = rw pow-suc (omega arith)

-- The shifted operand leaves the low digits of the other one alone.
pub bit_or-disjoint : (k x b : ℕ) → x < 2 ^ k → bit_or x (b * 2 ^ k) ≡ x + b * 2 ^ k
bit_or-disjoint zero zero b h = zero-bit_or (b * 2 ^ 0) ∙ sym (zero-add (b * 2 ^ 0))
bit_or-disjoint zero (suc x) b h = absurd (omega arith)
bit_or-disjoint (suc k) x b h =
    let double : b * 2 ^ suc k ≡ b * 2 ^ k * 2 = twice b k in
    let half : b * 2 ^ suc k / 2 ≡ b * 2 ^ k = omega arith in
    omega (
      arith,
      bit_or_step x (b * 2 ^ suc k),
      ap (bit_or (x / 2)) half,
      bit_or-disjoint k (x / 2) b (omega (arith, pow-suc 2 k)),
    )

zero-bit_xor : (y : ℕ) → bit_xor 0 y ≡ y
zero-bit_xor y = bit_xor-bitwise 0 y

zero-differ : (y : ℕ) → differ 0 y ≡ y
zero-differ y = refl

pub bit_xor_step : (a b : ℕ) → bit_xor a b ≡ bit_xor (a / 2) (b / 2) * 2 + differ (a % 2) (b % 2)
bit_xor_step zero y = omega (arith, zero-bit_xor y, zero-bit_xor (y / 2), zero-differ (y % 2))
bit_xor_step (suc x) y =
    bit_xor-bitwise (suc x) y
    ∙ split_low (λ t. t) differ x y
    ∙ ap (λ high. high * 2 + differ (suc x % 2) (y % 2)) (sym (bit_xor-bitwise (suc x / 2) (y / 2)))

pub differ_lt : (x y : ℕ) → x < 2 → y < 2 → differ x y < 2
differ_lt zero y p q = q
differ_lt (suc x) zero p q = p
differ_lt (suc x) (suc y) p q = differ_lt x y (omega arith) (omega arith)

differ_eq : (x y : ℕ) → differ x y ≡ 0 → x ≡ y
differ_eq zero y e = sym e
differ_eq (suc x) zero e = absurd (omega arith)
differ_eq (suc x) (suc y) e = ap suc (differ_eq x y e)

differ_self : (x : ℕ) → differ x x ≡ 0
differ_self zero = refl
differ_self (suc x) = differ_self x

-- Two words of `k` bits: the bounds of the operations, and when their results are zero.
pub bit_xor-lt : (k a b : ℕ) → a < 2 ^ k → b < 2 ^ k → bit_xor a b < 2 ^ k
bit_xor-lt zero zero b p q = omega (arith, zero-bit_xor b)
bit_xor-lt zero (suc a) b p q = absurd (omega arith)
bit_xor-lt (suc k) a b p q = omega (
  arith,
  bit_xor_step a b,
  pow-suc 2 k,
  differ_lt (a % 2) (b % 2) (omega arith) (omega arith),
  bit_xor-lt k (a / 2) (b / 2) (omega (arith, pow-suc 2 k)) (omega (arith, pow-suc 2 k)),
)

pub bit_or-lt : (k a b : ℕ) → a < 2 ^ k → b < 2 ^ k → bit_or a b < 2 ^ k
bit_or-lt zero zero b p q = omega (arith, zero-bit_or b)
bit_or-lt zero (suc a) b p q = absurd (omega arith)
bit_or-lt (suc k) a b p q = omega (
  arith,
  bit_or_step a b,
  pow-suc 2 k,
  bit_or-lt k (a / 2) (b / 2) (omega (arith, pow-suc 2 k)) (omega (arith, pow-suc 2 k)),
)

pub bit_xor_eq : (k a b : ℕ) → a < 2 ^ k → b < 2 ^ k → bit_xor a b ≡ 0 → a ≡ b
bit_xor_eq zero a b p q e = omega arith
bit_xor_eq (suc k) a b p q e =
    let low : a % 2 ≡ b % 2 = differ_eq (a % 2) (b % 2) (omega (arith, bit_xor_step a b)) in
    let high : a / 2 ≡ b / 2 =
      bit_xor_eq k (a / 2) (b / 2) (omega (arith, pow-suc 2 k)) (omega (arith, pow-suc 2 k))
        (omega (arith, bit_xor_step a b)) in
    omega arith

pub bit_xor_self : (k a : ℕ) → a < 2 ^ k → bit_xor a a ≡ 0
bit_xor_self zero zero p = zero-bit_xor 0
bit_xor_self zero (suc a) p = absurd (omega arith)
bit_xor_self (suc k) a p = omega (
  arith,
  bit_xor_step a a,
  differ_self (a % 2),
  bit_xor_self k (a / 2) (omega (arith, pow-suc 2 k)),
)

pub bit_or_zeros : (k a b : ℕ) → a < 2 ^ k → b < 2 ^ k → bit_or a b ≡ 0 → (a ≡ 0) × (b ≡ 0)
bit_or_zeros zero a b p q e = (omega arith, omega arith)
bit_or_zeros (suc k) a b p q e =
    let (x, y) =
      bit_or_zeros k (a / 2) (b / 2) (omega (arith, pow-suc 2 k)) (omega (arith, pow-suc 2 k))
        (omega (arith, bit_or_step a b)) in
    (omega (arith, bit_or_step a b, x), omega (arith, bit_or_step a b, y))

pub bit_or_comm : (k a b : ℕ) → a < 2 ^ k → b < 2 ^ k → bit_or a b ≡ bit_or b a
bit_or_comm zero a b p q =
    let x : a ≡ 0 = omega arith in let y : b ≡ 0 = omega arith in rw (x, y) refl
bit_or_comm (suc k) a b p q = omega (
  arith,
  bit_or_step a b,
  bit_or_step b a,
  bit_or_comm k (a / 2) (b / 2) (omega (arith, pow-suc 2 k)) (omega (arith, pow-suc 2 k)),
)

zero-bit_and : (y : ℕ) → bit_and 0 y ≡ 0
zero-bit_and y = bit_and-bitwise 0 y

pub bit_and_step : (a b : ℕ) → bit_and a b ≡ bit_and (a / 2) (b / 2) * 2 + min (a % 2) (b % 2)
bit_and_step zero y = omega (arith, zero-bit_and y, zero-bit_and (y / 2))
bit_and_step (suc x) y =
    bit_and-bitwise (suc x) y
    ∙ split_low (λ t. 0) min x y
    ∙ ap (λ high. high * 2 + min (suc x % 2) (y % 2)) (sym (bit_and-bitwise (suc x / 2) (y / 2)))

-- No digit is common with a number that has none.
bit_and-none : (bound x : ℕ) → x ≤ bound → bit_and x 0 ≡ 0
bit_and-none bound zero h = zero-bit_and 0
bit_and-none zero (suc x) h = absurd (omega arith)
bit_and-none (suc bound) (suc x) h =
    let high : bit_and (suc x / 2) 0 ≡ 0 = bit_and-none bound (suc x / 2) (omega arith) in
    omega (arith, bit_and_step (suc x) 0)

-- The four low digits.
pub bit_and-15 : (x : ℕ) → bit_and x 15 ≡ x % 16
bit_and-15 x = omega (
  arith,
  bit_and_step x 15,
  bit_and_step (x / 2) 7,
  bit_and_step (x / 2 / 2) 3,
  bit_and_step (x / 2 / 2 / 2) 1,
  bit_and-none x (x / 2 / 2 / 2 / 2) (omega arith),
)

differ_cancel : (x y : ℕ) → x < 2 → y < 2 → differ (differ x y) y ≡ x
differ_cancel zero zero p q = refl
differ_cancel zero (suc zero) p q = refl
differ_cancel (suc zero) zero p q = refl
differ_cancel (suc zero) (suc zero) p q = refl
differ_cancel zero (suc (suc y)) p q = absurd (omega arith)
differ_cancel (suc zero) (suc (suc y)) p q = absurd (omega arith)
differ_cancel (suc (suc x)) y p q = absurd (omega arith)

-- A word that is added twice is gone.
pub bit_xor_cancel : (k x y : ℕ) → x < 2 ^ k → y < 2 ^ k → bit_xor (bit_xor x y) y ≡ x
bit_xor_cancel zero x y p q =
    let once : bit_xor x y < 2 ^ 0 = bit_xor-lt 0 x y p q in
    omega (arith, bit_xor-lt 0 (bit_xor x y) y once q)
bit_xor_cancel (suc k) x y p q =
    let t = bit_xor x y in
    let bit : differ (x % 2) (y % 2) < 2 = differ_lt (x % 2) (y % 2) (omega arith) (omega arith) in
    let high : t / 2 ≡ bit_xor (x / 2) (y / 2) = omega (arith, bit_xor_step x y) in
    let low : t % 2 ≡ differ (x % 2) (y % 2) = omega (arith, bit_xor_step x y) in
    let high_back : bit_xor (t / 2) (y / 2) ≡ x / 2 =
      ap (λ h. bit_xor h (y / 2)) high
      ∙ bit_xor_cancel k (x / 2) (y / 2) (omega (arith, pow-suc 2 k))
          (omega (arith, pow-suc 2 k)) in
    let low_back : differ (t % 2) (y % 2) ≡ x % 2 =
      ap (λ l. differ l (y % 2)) low ∙ differ_cancel (x % 2) (y % 2) (omega arith) (omega arith) in
    omega (arith, bit_xor_step t y)
