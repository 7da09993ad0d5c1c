-- ===== src/Crypto/Hex.antt =====
-- The comparison without an early exit and the hex digits of src/net/crypto.cpp.
use Prim.Native.Nat.{bit_and, bit_or, bit_xor}
use ta_engine.Common.{
  ℕ, zero, suc, ◌+◌, ◌-◌, ◌*◌, ◌/◌, ◌%◌, ◌^◌, ◌<◌, ◌≡◌, refl, sym, ap, ◌∙◌, ◌↔◌, Bool, true, ◌&&◌,
  Option, none, some, List, [], ◌∷◌, arith, leb, ◌==◌, if◌then◌else◌, ==_iff, ==_refl, length,
  get_or, drop, All,
}
use ta_engine.Common.Bits.{
  bit_or-disjoint, bit_xor-lt, bit_or-lt, bit_xor_eq, bit_xor_self, bit_or_zeros, bit_or_comm,
  bit_and-15,
}
use ta_engine.Common.Word.{IsByte}

-- `for (size_t i = 0; i < len; ++i) diff = uint8_t(diff | (x[i] ^ y[i]))`, by the rounds that are
-- left.
unfoldable pub differences : ℕ → ℕ → List ℕ → List ℕ → ℕ
differences zero diff x y = diff
differences (suc n) diff x y =
    differences n (bit_or diff (bit_xor (get_or x 0 0) (get_or y 0 0)) % 256) (drop 1 x) (drop 1 y)

unfoldable pub equal_ct : List ℕ → List ℕ → ℕ → Bool
equal_ct a b len = differences len 0 a b == 0

-- `kHex`
abbrev pub hex_digits : List ℕ
hex_digits =
    b'0' ∷ b'1' ∷ b'2' ∷ b'3' ∷ b'4' ∷ b'5' ∷ b'6' ∷ b'7' ∷ b'8' ∷ b'9' ∷ b'a' ∷ b'b' ∷ b'c' ∷ b'd'
    ∷ b'e' ∷ b'f' ∷ []

unfoldable pub hex_digit : ℕ → ℕ
hex_digit x = get_or hex_digits x 0

unfoldable pub to_hex : List ℕ → List ℕ
to_hex [] = []
to_hex (x ∷ xs) = hex_digit (x / 2 ^ 4) ∷ hex_digit (bit_and x 15) ∷ to_hex xs

-- `nib`; `none` is -1.
unfoldable pub nib : ℕ → Option ℕ
nib c =
    if leb b'0' c && leb c b'9'
    then some (c - b'0')
    else if leb b'a' c && leb c b'f'
    then some (c - b'a' + 10)
    else if leb b'A' c && leb c b'F'
    then some (c - b'A' + 10)
    else none

-- `uint8_t(hi << 4 | lo)`, where both digits are there.
unfoldable pub join_nibs : Option ℕ → Option ℕ → Option ℕ
join_nibs (some hi) (some lo) = some (bit_or (hi * 2 ^ 4) lo % 256)
join_nibs hi lo = none

unfoldable pub prepend : Option ℕ → Option (List ℕ) → Option (List ℕ)
prepend (some x) (some xs) = some (x ∷ xs)
prepend x xs = none

-- The loop of `fromHex`, by the rounds that are left; `none` is `return false`.
unfoldable pub hex_bytes : ℕ → List ℕ → Option (List ℕ)
hex_bytes zero hex = some []
hex_bytes (suc n) hex =
    prepend (join_nibs (nib (get_or hex 0 0)) (nib (get_or hex 1 0))) (hex_bytes n (drop 2 hex))

-- What is written to `out`.
unfoldable pub from_hex : List ℕ → ℕ → Option (List ℕ)
from_hex hex len = if length hex == len * 2 then hex_bytes len hex else none

nib-hex_digit : (x : ℕ) → x < 16 → nib (hex_digit x) ≡ some x
unfolding nib hex_digit
nib-hex_digit zero h = refl
nib-hex_digit (suc zero) h = refl
nib-hex_digit (suc (suc zero)) h = refl
nib-hex_digit (suc (suc (suc zero))) h = refl
nib-hex_digit (suc (suc (suc (suc zero)))) h = refl
nib-hex_digit (suc (suc (suc (suc (suc zero))))) h = refl
nib-hex_digit (suc (suc (suc (suc (suc (suc zero)))))) h = refl
nib-hex_digit (suc (suc (suc (suc (suc (suc (suc zero))))))) h = refl
nib-hex_digit (suc (suc (suc (suc (suc (suc (suc (suc zero)))))))) h = refl
nib-hex_digit (suc (suc (suc (suc (suc (suc (suc (suc (suc zero))))))))) h = refl
nib-hex_digit (suc (suc (suc (suc (suc (suc (suc (suc (suc (suc zero)))))))))) h = refl
nib-hex_digit (suc (suc (suc (suc (suc (suc (suc (suc (suc (suc (suc zero))))))))))) h = refl
nib-hex_digit (suc (suc (suc (suc (suc (suc (suc (suc (suc (suc (suc (suc zero)))))))))))) h = refl
nib-hex_digit (suc (suc (suc (suc (suc (suc (suc (suc (suc (suc (suc (suc (suc zero))))))))))))) h =
    refl
nib-hex_digit
      (suc (suc (suc (suc (suc (suc (suc (suc (suc (suc (suc (suc (suc (suc zero)))))))))))))) h =
    refl
nib-hex_digit
      (suc (suc (suc (suc (suc (suc (suc (suc (suc (suc (suc (suc (suc (suc (suc zero)))))))))))))))
      h =
    refl
nib-hex_digit
      (suc
        (suc (suc (suc (suc (suc (suc (suc (suc (suc (suc (suc (suc (suc (suc (suc n))))))))))))))))
      h =
    absurd (omega arith)

join_nibs-byte : (x : ℕ) → IsByte x → join_nibs (some (x / 2 ^ 4)) (some (x % 16)) ≡ some x
unfolding join_nibs
join_nibs-byte x h =
    let hi : x / 2 ^ 4 * 2 ^ 4 < 2 ^ 8 = omega arith in
    ap (λ v. some (v % 256))
      (bit_or_comm 8 (x / 2 ^ 4 * 2 ^ 4) (x % 16) hi (omega arith)
        ∙ bit_or-disjoint 4 (x % 16) (x / 2 ^ 4) (omega arith))
    ∙ ap some (omega arith)

hex_bytes-to_hex : (xs : List ℕ) → All IsByte xs → hex_bytes (length xs) (to_hex xs) ≡ some xs
unfolding hex_bytes to_hex prepend
hex_bytes-to_hex [] h = refl
hex_bytes-to_hex (x ∷ xs) (hx, h) =
    rw
      (
        bit_and-15 x,
        nib-hex_digit (x / 2 ^ 4) (omega arith),
        nib-hex_digit (x % 16) (omega arith),
        hex_bytes-to_hex xs h,
        join_nibs-byte x hx,
      )
      refl

length-to_hex : (xs : List ℕ) → length (to_hex xs) ≡ length xs * 2
unfolding to_hex
length-to_hex [] = refl
length-to_hex (x ∷ xs) = omega (arith, length-to_hex xs)

-- Every string of bytes is read back from the hex digits that are written of it.
pub from_hex-to_hex : (xs : List ℕ) → All IsByte xs → from_hex (to_hex xs) (length xs) ≡ some xs
unfolding from_hex
from_hex-to_hex xs h = rw (length-to_hex xs, ==_refl (length xs * 2)) (hex_bytes-to_hex xs h)

-- Whatever is found in the loop adds to what was found before it.
differences-zero :
    (n diff : ℕ) (x y : List ℕ)
    → length x ≡ n
    → length y ≡ n
    → diff < 256
    → All IsByte x
    → All IsByte y
    → differences n diff x y ≡ 0
    → (diff ≡ 0) × (x ≡ y)
unfolding differences
differences-zero zero diff [] [] hx hy hd bx by e = (e, refl)
differences-zero zero diff (a ∷ x) y hx hy hd bx by e = absurd (omega arith)
differences-zero zero diff [] (b ∷ y) hx hy hd bx by e = absurd (omega arith)
differences-zero (suc n) diff [] y hx hy hd bx by e = absurd (omega arith)
differences-zero (suc n) diff (a ∷ x) [] hx hy hd bx by e = absurd (omega arith)
differences-zero (suc n) diff (a ∷ x) (b ∷ y) hx hy hd (ha, bx) (hb, by) e =
    let small : bit_xor a b < 2 ^ 8 = bit_xor-lt 8 a b ha hb in
    let whole : bit_or diff (bit_xor a b) < 2 ^ 8 = bit_or-lt 8 diff (bit_xor a b) hd small in
    let (here, behind) =
      differences-zero n (bit_or diff (bit_xor a b) % 256) x y (omega arith) (omega arith)
        (omega arith) bx by e in
    let (before, now) = bit_or_zeros 8 diff (bit_xor a b) hd small (omega arith) in
    (before, cc (bit_xor_eq 8 a b ha hb now, behind))

differences-same : (n : ℕ) (x : List ℕ) → length x ≡ n → All IsByte x → differences n 0 x x ≡ 0
unfolding differences
differences-same zero x hx bx = refl
differences-same (suc n) [] hx bx = absurd (omega arith)
differences-same (suc n) (a ∷ x) hx (ha, bx) =
    rw (bit_xor_self 8 a ha) (differences-same n x (omega arith) bx)

-- Without an early exit, two strings of `len` bytes compare equal exactly where they are the same.
pub equal_ct-same :
    (a b : List ℕ) (len : ℕ)
    → length a ≡ len
    → length b ≡ len
    → All IsByte a
    → All IsByte b
    → (equal_ct a b len ≡ true) ↔ (a ≡ b)
unfolding equal_ct
equal_ct-same a b len ha hb ba bb = (
  λ e. (differences-zero len 0 a b ha hb (omega arith) ba bb ((==_iff _ 0).0 e)).1,
  λ e. (==_iff _ 0).1 (ap (differences len 0 a) (sym e) ∙ differences-same len a ha ba),
)
