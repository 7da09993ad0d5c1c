-- ===== src/Crypto/Streaming.antt =====
-- SHA-256 of src/net/crypto.cpp block by block: `update` leaves the state that depends only on the
-- bytes given so far.
use ta_engine.Common.{
  ℕ, zero, suc, ◌+◌, ◌-◌, ◌*◌, ◌/◌, ◌%◌, ◌^◌, ◌≤◌, ◌<◌, min, ◌≡◌, refl, sym, ap, ◌∙◌, inl, inr,
  List, [], ◌∷◌, ◌++◌, arith, ltb, ◌==◌, if◌then◌else◌, ltb→lt, ltb→ge, le→leb, gt→leb, ne→==,
  Bool-cases, length, take, drop, length-append, length-take, length-drop, take-all, drop-all,
  drop-append, take-append, drop-drop, take-past, drop-past,
}
use ta_engine.Crypto.{Sha256, initial, block, block_len, top_up, whole_blocks, update}

-- The first `k` blocks of `m`, one after the other.
unfoldable pub run_blocks : ℕ → List ℕ → List ℕ → List ℕ
run_blocks zero m h = h
run_blocks (suc k) m h = run_blocks k (drop 64 m) (block h (take 64 m))

-- The state that holds the message `m`.
unfoldable pub state : List ℕ → Sha256
state m = record {
  h = run_blocks (length m / 64) m initial;
  bits = length m * 8 % 2 ^ 64;
  buf = drop (64 * (length m / 64)) m;
}

-- The loop over whole blocks, with fuel enough.
whole_blocks-run_blocks :
    (k fuel : ℕ) (h p : List ℕ)
    → k ≤ fuel
    → 64 * k ≤ length p
    → length p < 64 * k + 64
    → whole_blocks fuel h p ≡ (run_blocks k p h, drop (64 * k) p)
unfolding whole_blocks run_blocks
whole_blocks-run_blocks zero zero h p hk hl hu = refl
whole_blocks-run_blocks zero (suc fuel) h p hk hl hu =
    rw (whole_blocks, gt→leb block_len (length p) (omega arith))
whole_blocks-run_blocks (suc k) zero h p hk hl hu = absurd (omega arith)
whole_blocks-run_blocks (suc k) (suc fuel) h p hk hl hu =
    rw (whole_blocks, le→leb block_len (length p) (omega arith))
      (whole_blocks-run_blocks k fuel (block h (take 64 p)) (drop 64 p) (omega arith)
          (omega (arith, length-drop 64 p)) (omega (arith, length-drop 64 p))
        ∙ ap (λ d. (run_blocks k (drop 64 p) (block h (take 64 p)), d))
            (drop-drop (64 * k) 64 p ∙ ap (λ n. drop n p) (omega arith)))

run_blocks-add :
    (k j : ℕ) (m h : List ℕ)
    → run_blocks (k + j) m h ≡ run_blocks j (drop (64 * k) m) (run_blocks k m h)
unfolding run_blocks
run_blocks-add zero j m h = ap (λ n. run_blocks n m h) {x = 0 + j} {y = j} (omega arith)
run_blocks-add (suc k) j m h =
    ap (λ n. run_blocks n m h) {x = suc k + j} {y = suc (k + j)} (omega arith)
    ∙ run_blocks-add k j (drop 64 m) (block h (take 64 m))
    ∙ ap (λ d. run_blocks j d (run_blocks k (drop 64 m) (block h (take 64 m))))
        (drop-drop (64 * k) 64 m ∙ ap (λ n. drop n m) (omega arith))

-- What stands behind the blocks does not count.
run_blocks-append :
    (k : ℕ) (m d h : List ℕ) → 64 * k ≤ length m → run_blocks k (m ++ d) h ≡ run_blocks k m h
unfolding run_blocks
run_blocks-append zero m d h hl = refl
run_blocks-append (suc k) m d h hl =
    rw (take-append 64 m d (omega arith), drop-append 64 m d (omega arith))
      (run_blocks-append k (drop 64 m) d (block h (take 64 m)) (omega (arith, length-drop 64 m)))

abbrev pub holding : List ℕ → ℕ → List ℕ → Sha256
holding h bits buf = record { h = h; bits = bits; buf = buf }

holding_eq :
    {h h' : List ℕ} {n n' : ℕ} {b b' : List ℕ}
    → h ≡ h'
    → n ≡ n'
    → b ≡ b'
    → holding h n b ≡ holding h' n' b'
holding_eq e f g = cc

-- The state once `p` has been fed to a state with the buffer `b`.
unfoldable pub fed : List ℕ → ℕ → List ℕ → Sha256
fed h bits p = record {
  h = run_blocks (length p / 64) p h;
  bits = bits;
  buf = drop (64 * (length p / 64)) p;
}

-- The end of `update`, behind the partial buffer.
absorb : List ℕ → Sha256 → Sha256
absorb p s =
    let (h, p) = whole_blocks (length p) s.h p in
    if length p == 0 then record s { h = h } else record s { h = h; buf = p }

rest_kept :
    (h : List ℕ) (bits : ℕ) (p : List ℕ)
    → (if length p == 0 then holding h bits [] else holding h bits p) ≡ holding h bits p
rest_kept h bits [] = refl
rest_kept h bits (x ∷ p) = rw (ne→== (suc (length p)) 0 (λ e. absurd (omega arith))) refl

absorb-fed : (h : List ℕ) (bits : ℕ) (p : List ℕ) → absorb p (holding h bits []) ≡ fed h bits p
unfolding absorb fed
absorb-fed h bits p =
    rw
      (whole_blocks-run_blocks (length p / 64) (length p) h p (omega arith) (omega arith)
        (omega arith))
      (rest_kept (run_blocks (length p / 64) p h) bits (drop (64 * (length p / 64)) p))

fed_short : (h : List ℕ) (bits : ℕ) (p : List ℕ) → length p < 64 → fed h bits p ≡ holding h bits p
unfolding fed run_blocks
fed_short h bits p hp = let e : length p / 64 ≡ 0 = omega arith in rw e refl

fed-block :
    (h : List ℕ) (bits : ℕ) (p : List ℕ)
    → 64 ≤ length p
    → fed h bits p ≡ fed (block h (take 64 p)) bits (drop 64 p)
unfolding fed run_blocks
fed-block h bits p hp =
    let k = length (drop 64 p) / 64 in
    let e : length p / 64 ≡ suc k = omega (arith, length-drop 64 p) in
    rw e (
      ap (λ d. record { h = run_blocks k (drop 64 p) (block h (take 64 p)); bits = bits; buf = d })
        (ap (λ n. drop n p) {x = 64 * suc k} {y = 64 + 64 * k} (omega arith)
          ∙ sym (drop-drop (64 * k) 64 p)))

module _ (h : List ℕ) (bits : ℕ) (b d : List ℕ) where
  top_up_short :
      0 < length b
      → length b + length d < 64
      → top_up d (holding h bits b) ≡ (holding h bits (b ++ d), [])
  unfolding top_up
  top_up_short hb hs =
      rw
        (
          ne→== (length b) 0 (λ e. absurd (omega arith)),
          (let e : min (block_len - length b) (length d) ≡ length d = omega arith in e),
          take-all (length d) d (omega arith),
          drop-all (length d) d (omega arith),
          ne→== (length (b ++ d)) block_len (λ e. absurd (omega (arith, length-append b d))),
        )
        refl

  top_up_full :
      0 < length b
      → length b < 64
      → 64 ≤ length b + length d
      → top_up d (holding h bits b)
        ≡ (holding (block h (take 64 (b ++ d))) bits [], drop 64 (b ++ d))
  unfolding top_up
  top_up_full hb hl hs =
      rw
        (
          ne→== (length b) 0 (λ e. absurd (omega arith)),
          (let e : min (block_len - length b) (length d) ≡ 64 - length b = omega arith in e),
          take-past 64 b d (omega arith),
          drop-past 64 b d (omega arith),
          (let e : length (b ++ take (64 - length b) d) ≡ 64 =
                omega (
                  arith,
                  length-append b (take (64 - length b) d),
                  length-take (64 - length b) d,
                ) in
              e),
        )
        refl

-- `update` from any state with a buffer that is not full.
pub update-fed :
    (d h : List ℕ) (bits : ℕ) (b : List ℕ)
    → length b < 64
    → update d (holding h bits b) ≡ fed h ((bits + length d * 8) % 2 ^ 64) (b ++ d)
unfolding update top_up absorb fed whole_blocks
update-fed d h bits [] hb = absorb-fed h ((bits + length d * 8) % 2 ^ 64) d
update-fed d h bits (x ∷ b) hb =
    let n = (bits + length d * 8) % 2 ^ 64 in
    elim (Bool-cases (ltb (length (x ∷ b) + length d) 64)) [
      | inl e ↦
          let lt : length (x ∷ b) + length d < 64 = ltb→lt (length (x ∷ b) + length d) 64 e in
          ap (λ t. absorb t.1 t.0) (top_up_short h n (x ∷ b) d (omega arith) lt)
          ∙ sym (fed_short h n ((x ∷ b) ++ d) (omega (arith, length-append (x ∷ b) d)))
      | inr e ↦
          let le : 64 ≤ length (x ∷ b) + length d = ltb→ge (length (x ∷ b) + length d) 64 e in
          ap (λ t. absorb t.1 t.0) (top_up_full h n (x ∷ b) d (omega arith) hb le)
          ∙ absorb-fed (block h (take 64 ((x ∷ b) ++ d))) n (drop 64 ((x ∷ b) ++ d))
          ∙ sym (fed-block h n ((x ∷ b) ++ d) (omega (arith, length-append (x ∷ b) d)))
    ]

-- `update` adds its bytes to the message that the state holds.
pub update-state : (d m : List ℕ) → update d (state m) ≡ state (m ++ d)
unfolding state fed
update-state d m =
    let k = length m / 64 in
    let b = drop (64 * k) m in
    let j = length (b ++ d) / 64 in
    let size : length (b ++ d) ≡ length m - 64 * k + length d =
      length-append b d ∙ ap (λ n. n + length d) (length-drop (64 * k) m) in
    let both : length (m ++ d) / 64 ≡ k + j = omega (arith, length-append m d) in
    let behind : drop (64 * k) (m ++ d) ≡ b ++ d = drop-append (64 * k) m d (omega arith) in
    let h_is : run_blocks j (b ++ d) (run_blocks k m initial)
        ≡ run_blocks (length (m ++ d) / 64) (m ++ d) initial =
      rw
        (
          both,
          run_blocks-add k j (m ++ d) initial,
          behind,
          run_blocks-append k m d initial (omega arith),
        )
        refl in
    let buf_is : drop (64 * j) (b ++ d) ≡ drop (64 * (length (m ++ d) / 64)) (m ++ d) =
      ap (drop (64 * j)) (sym behind)
      ∙ drop-drop (64 * j) (64 * k) (m ++ d)
      ∙ ap (λ n. drop n (m ++ d)) {x = 64 * k + 64 * j} {y = 64 * (length (m ++ d) / 64)}
          (omega arith) in
    update-fed d (run_blocks k m initial) (length m * 8 % 2 ^ 64) b
      (omega (arith, length-drop (64 * k) m))
    ∙ holding_eq h_is (omega (arith, length-append m d)) buf_is
