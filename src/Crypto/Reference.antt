-- ===== src/Crypto/Reference.antt =====
-- SHA-256 of src/net/crypto.cpp against the hash of a padded message, block by block.
use ta_engine.Common.{
  ℕ, zero, suc, ◌+◌, ◌-◌, ◌*◌, ◌/◌, ◌%◌, ◌^◌, ◌<◌, ◌≡◌, sym, ap, ◌∙◌, List, [], ◌∷◌, ◌++◌,
  append-nil, append_assoc, arith, leb, ◌==◌, if◌then◌else◌, ne→==, length, drop, replicate,
  length-append, length-drop, length-replicate,
}
use ta_engine.Crypto.{
  Sha256, fresh, initial, block_len, update, length_bytes, put_words, final, sha256,
}
use ta_engine.Crypto.Streaming.{run_blocks, state, fed, update-fed, update-state}

-- The padding of FIPS 180-4: a set bit, zeros up to 8 bytes short of a whole block, and the length of
-- the message in bits.
unfoldable pub padding : List ℕ → List ℕ
padding m =
    (0x80 ∷ replicate ((119 - length m % 64) % 64) 0) ++ length_bytes (length m * 8 % 2 ^ 64)

unfoldable pub padded : List ℕ → List ℕ
padded m = m ++ padding m

-- The hash of a message: all the blocks of the padded message, one after the other.
unfoldable pub sha_reference : List ℕ → List ℕ
sha_reference m = put_words (run_blocks (length (padded m) / 64) (padded m) initial)

-- `update` with each piece in turn.
unfoldable pub feed : List (List ℕ) → Sha256 → Sha256
feed [] s = s
feed (p ∷ ps) s = feed ps (update p s)

unfoldable pub joined : List (List ℕ) → List ℕ
joined [] = []
joined (p ∷ ps) = p ++ joined ps

abbrev with_bits : ℕ → Sha256 → Sha256
with_bits n s = record s { bits = n }

-- The count of bits does not touch the rest of the state.
update_with :
    (d m : List ℕ) (x y : ℕ)
    → record (update d (record (state m) { bits = x })) { bits = y }
      ≡ record (state (m ++ d)) { bits = y }
unfolding state fed
update_with d m x y =
    let k = length m / 64 in
    let b = drop (64 * k) m in
    let small : length b < 64 = omega (arith, length-drop (64 * k) m) in
    ap (with_bits y) (update-fed d (run_blocks k m initial) x b small)
    ∙ sym (ap (with_bits y) (update-fed d (run_blocks k m initial) (length m * 8 % 2 ^ 64) b small))
    ∙ ap (with_bits y) (update-state d m)

abbrev holds : List ℕ → ℕ → Sha256
holds m bits = record (state m) { bits = bits }

length-buf : (m : List ℕ) → length (state m).buf ≡ length m % 64
unfolding state run_blocks
length-buf m = omega (arith, length-drop (64 * (length m / 64)) m)

-- `final` in its three steps.
zeros_fed :
    (m : List ℕ) (x need : ℕ)
    → (if need == 0 then holds m x else record (update (replicate need 0) (holds m x)) { bits = x })
      ≡ holds (m ++ replicate need 0) x
zeros_fed m x zero = ap (λ l. holds l x) (sym (append-nil m))
zeros_fed m x (suc n) =
    rw (ne→== (suc n) 0 (λ e. absurd (omega arith))) (update_with (replicate (suc n) 0) m x x)

needed_zeros :
    (n r : ℕ)
    → n ≡ (r + 1) % 64
    → (if leb n 56 then 56 - n else 56 + block_len - n) ≡ (119 - r % 64) % 64
needed_zeros n r h = ground arith

-- The rest of `final`, behind its first byte.
abbrev finish : ℕ → Sha256 → List ℕ
finish x s =
    let n = length s.buf in
    let need = if leb n 56 then 56 - n else 56 + block_len - n in
    put_words
      (update (length_bytes x)
        (if need == 0 then s else with_bits x (update (replicate need 0) s))).h

final-state : (m : List ℕ) → final (state m) ≡ sha_reference m
unfolding final sha_reference padded padding state
final-state m =
    let x = length m * 8 % 2 ^ 64 in
    let m1 = m ++ 0x80 ∷ [] in
    let z = (119 - length m % 64) % 64 in
    let n_is : length (state m1).buf ≡ (length m + 1) % 64 =
      length-buf m1 ∙ ap (λ n. n % 64) (length-append m (0x80 ∷ [])) in
    let need_is = needed_zeros (length (state m1).buf) (length m) n_is in
    let whole : (m1 ++ replicate z 0) ++ length_bytes x ≡ padded m = simp append_assoc in
    ap (finish x) (update_with (0x80 ∷ []) m x x)
    ∙ ap
        (λ need.
          put_words
            (update (length_bytes x) (
              if need == 0
              then holds m1 x
              else with_bits x (update (replicate need 0) (holds m1 x)))).h)
        need_is
    ∙ ap (λ s. put_words (update (length_bytes x) s).h) (zeros_fed m1 x z)
    ∙ ap (λ s. put_words s.h) (update_with (length_bytes x) (m1 ++ replicate z 0) x x)
    ∙ ap (λ l. put_words (state l).h) whole

feed-state : (ps : List (List ℕ)) (m : List ℕ) → feed ps (state m) ≡ state (m ++ joined ps)
unfolding feed joined
feed-state [] m = ap state (sym (append-nil m))
feed-state (p ∷ ps) m =
    ap (feed ps) (update-state p m)
    ∙ feed-state ps (m ++ p)
    ∙ ap state (append_assoc m p (joined ps))

-- However a message is cut into pieces, `update` with each piece in turn and `final` give the hash of
-- the message by the reference: the compression of the blocks of the padded message, one after the
-- other.
pub final-feed : (ps : List (List ℕ)) → final (feed ps fresh) ≡ sha_reference (joined ps)
unfolding state run_blocks
final-feed ps = ap final (feed-state ps []) ∙ final-state (joined ps)

pub sha256-reference : (m : List ℕ) → sha256 m ≡ sha_reference m
unfolding sha256 state run_blocks
sha256-reference m = ap final (update-state m []) ∙ final-state m

-- The padded message is a whole number of blocks.
pub length-padded : (m : List ℕ) → length (padded m) % 64 ≡ 0
unfolding padded padding length_bytes
length-padded m =
    let z = (119 - length m % 64) % 64 in
    omega (
      arith,
      length-append m (padding m),
      length-append (0x80 ∷ replicate z 0) (length_bytes (length m * 8 % 2 ^ 64)),
      length-replicate {A = ℕ} z 0,
    )
