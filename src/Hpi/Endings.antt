-- ===== src/Hpi/Endings.antt =====
-- How the loops of src/hpi/hpi.cpp end: the fuel is enough, and what is returned has the size that was
-- asked for.
use Prim.Native.Nat.{bit_and, bit_or}
use ta_engine.Common.{
  ℕ, zero, suc, ◌+◌, ◌*◌, ◌/◌, ◌%◌, ◌^◌, ◌<◌, ◌≡◌, refl, ap, inl, inr, Bool, true, false, not, ◌&&◌,
  List, [], ◌∷◌, arith, ltb, ◌==◌, if◌then◌else◌, ==_iff, Bool-cases, length, get_or,
}
use ta_engine.Hpi.{
  Outcome, returned, thrown, unfinished, ◌>>=◌, Lz, lz_push, lz_copy, take_from, take_byte,
  lz_refill, lz_refer, lz_reference, lz_literal, lz_shift, lz_round, lz_loop, lz77_decompress,
}

-- An outcome is thrown, or it is returned with the property `P`; it is not unfinished.
abbrev pub Ends : {A : Type 0} → (A → Type 0) → Outcome A → Type 0
Ends P (returned a) = P a
Ends P thrown = Unit
Ends P unfinished = ⊥

pub Ends-bind :
    {A B : Type 0} (P : A → Type 0) (Q : B → Type 0) (o : Outcome A) (f : A → Outcome B)
    → Ends P o
    → ((a : A) → P a → Ends Q (f a))
    → Ends Q (o >>= f)
unfolding ◌>>=◌
Ends-bind P Q (returned a) f h g = g a h
Ends-bind P Q thrown f h g = tt
Ends-bind P Q unfinished f h g = absurd h

pub Ends-if :
    {A : Type 0} (P : A → Type 0) (b : Bool) (x y : Outcome A)
    → Ends P x
    → Ends P y
    → Ends P (if b then x else y)
Ends-if P true x y h k = h
Ends-if P false x y h k = k

-- A test that throws.
pub Ends-unless :
    {A : Type 0} (P : A → Type 0) (b : Bool) (x : Outcome A)
    → (b ≡ false → Ends P x)
    → Ends P (if b then thrown else x)
Ends-unless P true x h = tt
Ends-unless P false x h = h refl

-- Fewer than `n` bytes of input are left.
abbrev Below : ℕ → Lz → Type 0
Below n s = length s.input < n

take_from-Below : (l : List ℕ) (s : Lz) → Ends (λ x. Below (length l) x.1) (take_from l s)
unfolding take_from
take_from-Below [] s = tt
take_from-Below (b ∷ rest) s = omega arith

take_byte-Below : (s : Lz) → Ends (λ x. Below (length s.input) x.1) (take_byte s)
unfolding take_byte
take_byte-Below s = take_from-Below s.input s

lz_copy-input : (n from size : ℕ) (s : Lz) → (lz_copy n from size s).input ≡ s.input
unfolding lz_copy lz_push
lz_copy-input zero from size s = refl
lz_copy-input (suc n) from size s = elim (Bool-cases (ltb (length s.out) size)) [
  | inl e ↦
      rw (lz_copy, e)
        (lz_copy-input n ((from + 1) % 4096) size (lz_push (get_or s.window from 0) s))
  | inr e ↦ rw (lz_copy, e) refl
]

lz_refill-Below : (s : Lz) → Ends (Below (length s.input + 1)) (lz_refill s)
unfolding lz_refill ◌>>=◌
lz_refill-Below s =
    Ends-if (Below (length s.input + 1)) (s.tag_bit == 0x100) _ (returned s)
      (Ends-bind (λ x. Below (length s.input) x.1) (Below (length s.input + 1)) (take_byte s) _
        (take_byte-Below s) (λ x h. omega arith))
      (omega arith)

lz_refer-input : (ref size : ℕ) (s : Lz) → (lz_refer ref size s).input ≡ s.input
unfolding lz_refer
lz_refer-input ref size s = elim (Bool-cases (ref / 2 ^ 4 == 0)) [
  | inl e ↦ rw (lz_refer, e) refl
  | inr e ↦ rw (lz_refer, e) (lz_copy-input (bit_and ref 0x0f + 2) (ref / 2 ^ 4) size s)
]

lz_literal-Below : (s : Lz) → Ends (Below (length s.input)) (lz_literal s)
unfolding lz_literal lz_push
lz_literal-Below s =
    Ends-bind (λ x. Below (length s.input) x.1) (Below (length s.input)) (take_byte s) _
      (take_byte-Below s) (λ x h. h)

lz_reference-Below : (size : ℕ) (s : Lz) → Ends (Below (length s.input)) (lz_reference size s)
unfolding lz_reference
lz_reference-Below size s =
    Ends-bind (λ x. Below (length s.input) x.1) (Below (length s.input)) (take_byte s) _
      (take_byte-Below s)
      (λ x h.
        Ends-bind (λ y. Below (length x.1.input) y.1) (Below (length s.input)) (take_byte x.1) _
          (take_byte-Below x.1)
          (λ y k. omega (arith, ap length (lz_refer-input (bit_or x.0 (y.0 * 2 ^ 8)) size y.1))))

lz_shift-input : (s : Lz) → (lz_shift s).input ≡ s.input
unfolding lz_shift
lz_shift-input s = elim (Bool-cases s.ended) [
  | inl e ↦ rw (lz_shift, e) refl
  | inr e ↦ rw (lz_shift, e) refl
]

lz_round-Below : (size : ℕ) (s : Lz) → Ends (Below (length s.input)) (lz_round size s)
unfolding lz_round
lz_round-Below size s =
    Ends-bind (Below (length s.input + 1)) (Below (length s.input)) (lz_refill s) _
      (lz_refill-Below s)
      (λ t h.
        Ends-bind (Below (length t.input)) (Below (length s.input)) _ _
          (Ends-if (Below (length t.input)) (bit_and t.tag t.tag_bit == 0) (lz_literal t)
            (lz_reference size t) (lz_literal-Below t) (lz_reference-Below size t))
          (λ u k. omega (arith, ap length (lz_shift-input u))))

-- The loop's fuel is enough where there is more of it than of the input.
lz_loop-Ends : (n size : ℕ) (s : Lz) → length s.input < n → Ends (λ t. Unit {0}) (lz_loop n size s)
unfolding lz_loop
lz_loop-Ends zero size s h = absurd (omega arith)
lz_loop-Ends (suc n) size s h = elim (Bool-cases (ltb (length s.out) size && not s.ended)) [
  | inl e ↦
      rw (lz_loop, e)
        (Ends-bind (Below (length s.input)) (λ t. Unit {0}) (lz_round size s) (lz_loop n size)
          (lz_round-Below size s) (λ t k. lz_loop-Ends n size t (omega arith)))
  | inr e ↦ rw (lz_loop, e) tt
]

abbrev pub HasSize : ℕ → List ℕ → Type 0
HasSize n out = length out ≡ n

-- `return` behind a test of the size.
pub checked :
    (n : ℕ) (out : List ℕ) → Ends (HasSize n) (if length out == n then returned out else thrown)
checked n out = elim (Bool-cases (length out == n)) [
  | inl e ↦ rw e ((==_iff (length out) n).0 e)
  | inr e ↦ rw e tt
]

-- Whatever the bytes are, the decompressor comes to an end: it throws, or it returns exactly as many
-- bytes as were asked for.
pub lz77_decompress-Ends :
    (input : List ℕ) (size : ℕ) → Ends (HasSize size) (lz77_decompress input size)
unfolding lz77_decompress
lz77_decompress-Ends input size =
    Ends-bind (λ t. Unit {0}) (HasSize size) (lz_loop (length input + 1) size _) _
      (lz_loop-Ends (length input + 1) size _ (omega arith)) (λ s h. checked size s.out)
