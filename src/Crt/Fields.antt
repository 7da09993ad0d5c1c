-- ===== src/Crt/Fields.antt =====
-- The fields of a record of src/crt/crt.cpp: what a word or a string written into a record is when
-- it is read at its offset.
use Prim.Native.Nat.{bit_or}
use ta_engine.Common.{
  ℕ, zero, suc, ◌+◌, ◌-◌, ◌*◌, ◌/◌, ◌%◌, ◌^◌, ◌<◌, min, ◌≡◌, refl, sym, ap, ◌∙◌, List, [], ◌∷◌,
  ◌++◌, append_assoc, arith, ◌==◌, if◌then◌else◌, length, get_or, take, replicate, All,
  length-append, length-take, length-replicate, drop-append_self,
}
use ta_engine.Common.Bits.{bit_or-disjoint}
use ta_engine.Common.Word.{IsU32}
use ta_engine.Crt.{u32_at, c_str, str_at, i32s_at}

unfoldable pub le4 : ℕ → List ℕ
le4 v = v % 256 ∷ v / 2 ^ 8 % 256 ∷ v / 2 ^ 16 % 256 ∷ v / 2 ^ 24 % 256 ∷ []

-- The bytes of the words of a list.
unfoldable pub words : List ℕ → List ℕ
words [] = []
words (v ∷ vs) = le4 v ++ words vs

-- The bytes of a fixed-size field.
unfoldable pub field_bytes : List ℕ → ℕ → List ℕ
field_bytes s cap = let n = min (length s) (cap - 1) in take n s ++ replicate (cap - n) 0

get_or-skip : (a b : List ℕ) (n i : ℕ) → n ≡ length a + i → get_or (a ++ b) n 0 ≡ get_or b i 0
get_or-skip [] b n i h = ap (λ k. get_or b k 0) (omega arith)
get_or-skip (x ∷ a) b zero i h = absurd (omega arith)
get_or-skip (x ∷ a) b (suc n) i h = get_or-skip a b n i (omega arith)

-- A word behind a prefix is read at its offset behind it.
pub u32_at-skip : (a b : List ℕ) (n off : ℕ) → n ≡ length a + off → u32_at (a ++ b) n ≡ u32_at b off
unfolding u32_at
u32_at-skip a b n off h = rw (
  get_or-skip a b n off h,
  get_or-skip a b (n + 1) (off + 1) (omega arith),
  get_or-skip a b (n + 2) (off + 2) (omega arith),
  get_or-skip a b (n + 3) (off + 3) (omega arith),
)

u32_bytes :
    (a b c d : ℕ)
    → a < 256
    → b < 256
    → c < 256
    → bit_or (bit_or (bit_or a (b * 2 ^ 8)) (c * 2 ^ 16)) (d * 2 ^ 24)
      ≡ a + b * 2 ^ 8 + c * 2 ^ 16 + d * 2 ^ 24
u32_bytes a b c d ha hb hc = rw (
  bit_or-disjoint 8 a b (omega arith),
  bit_or-disjoint 16 (a + b * 2 ^ 8) c (omega arith),
  bit_or-disjoint 24 (a + b * 2 ^ 8 + c * 2 ^ 16) d (omega arith),
)

pub u32_at-le4 : (v : ℕ) (rest : List ℕ) → IsU32 v → u32_at (le4 v ++ rest) 0 ≡ v
unfolding u32_at le4
u32_at-le4 v rest h =
    u32_bytes (v % 256) (v / 2 ^ 8 % 256) (v / 2 ^ 16 % 256) (v / 2 ^ 24 % 256) (omega arith)
      (omega arith) (omega arith)
    ∙ omega arith

pub length-le4 : (v : ℕ) → length (le4 v) ≡ 4
unfolding le4
length-le4 v = refl

pub length-words : (vs : List ℕ) → length (words vs) ≡ 4 * length vs
unfolding words
length-words [] = refl
length-words (v ∷ vs) =
    omega (arith, length-append (le4 v) (words vs), length-le4 v, length-words vs)

-- The word with the index `i` among the words behind `pre`.
pub u32_at-words :
    (pre vs rest : List ℕ) (off i : ℕ)
    → off ≡ length pre + 4 * i
    → i < length vs
    → All IsU32 vs
    → u32_at (pre ++ (words vs ++ rest)) off ≡ get_or vs i 0
unfolding words
u32_at-words pre [] rest off i h hi hv = absurd (omega arith)
u32_at-words pre (w ∷ vs) rest off zero h hi (hw, hv) =
    u32_at-skip pre (le4 w ++ words vs ++ rest) off 0 (omega arith)
    ∙ ap (λ l. u32_at l 0) (append_assoc (le4 w) (words vs) rest)
    ∙ u32_at-le4 w (words vs ++ rest) hw
u32_at-words pre (w ∷ vs) rest off (suc i) h hi (hw, hv) =
    ap (λ l. u32_at l off)
      (ap (λ l. pre ++ l) (append_assoc (le4 w) (words vs) rest)
        ∙ sym (append_assoc pre (le4 w) (words vs ++ rest)))
    ∙ u32_at-words (pre ++ le4 w) vs rest off i
        (omega (arith, length-append pre (le4 w), length-le4 w)) (omega arith) hv

-- The array of all the words behind `pre`.
pub i32s_at-words :
    (pre vs rest : List ℕ) (off : ℕ)
    → off ≡ length pre
    → All IsU32 vs
    → i32s_at (pre ++ (words vs ++ rest)) off (length vs) ≡ vs
unfolding words i32s_at
i32s_at-words pre [] rest off h hv = refl
i32s_at-words pre (w ∷ vs) rest off h (hw, hv) =
    rw (u32_at-words pre (w ∷ vs) rest off 0 (omega arith) (omega arith) (hw, hv)) (
      ap (◌∷◌ w) (
        ap (λ l. i32s_at l (off + 4) (length vs))
          (ap (λ l. pre ++ l) (append_assoc (le4 w) (words vs) rest)
            ∙ sym (append_assoc pre (le4 w) (words vs ++ rest)))
        ∙ i32s_at-words (pre ++ le4 w) vs rest (off + 4)
            (omega (arith, length-append pre (le4 w), length-le4 w)) hv))

-- A string in a field ends at its first NUL, or at the size less one.
padded :
    (k n : ℕ) (s rest : List ℕ)
    → n ≡ min (length s) k
    → c_str (suc k) ((take n s ++ replicate (suc k - n) 0) ++ rest) ≡ c_str k s
unfolding c_str
padded zero zero s rest h = refl
padded zero (suc n) s rest h = absurd (omega arith)
padded (suc k) zero [] rest h =
    ap (λ m. c_str (suc (suc k)) (replicate m 0 ++ rest)) {x = suc (suc k) - 0} {y = suc (suc k)}
      (omega arith)
padded (suc k) (suc n) [] rest h = absurd (omega arith)
padded (suc k) zero (c ∷ s) rest h = absurd (omega arith)
padded (suc k) (suc n) (c ∷ s) rest h =
    ap (λ t. if c == 0 then [] else c ∷ t)
      (ap (λ m. c_str (suc k) ((take n s ++ replicate m 0) ++ rest)) {x = suc (suc k) - suc n}
          {y = suc k - n} (omega arith)
        ∙ padded k n s rest (omega arith))

pub length-field_bytes : (s : List ℕ) (n : ℕ) → length (field_bytes s n) ≡ n
unfolding field_bytes
length-field_bytes s n = omega (
  arith,
  length-append (take (min (length s) (n - 1)) s)
      (replicate {A = ℕ} (n - min (length s) (n - 1)) 0),
  length-take (min (length s) (n - 1)) s,
  length-replicate {A = ℕ} (n - min (length s) (n - 1)) 0,
)

-- The field behind `pre`.
pub str_at-field_bytes :
    (pre s rest : List ℕ) (off k : ℕ)
    → off ≡ length pre
    → str_at (pre ++ (field_bytes s (suc k) ++ rest)) off (suc k) ≡ c_str k s
unfolding str_at field_bytes
str_at-field_bytes pre s rest off k h =
    ap (c_str (suc k)) (drop-append_self off pre (field_bytes s (suc k) ++ rest) h)
    ∙ padded k (min (length s) (suc k - 1)) s rest (omega arith)
