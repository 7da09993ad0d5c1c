-- ===== src/Crypto/Keys.antt =====
-- HMAC and PBKDF2 of src/net/crypto.cpp against RFC 2104 and RFC 8018, over the reference hash.
use ta_engine.Common.{
  ℕ, zero, suc, ◌+◌, ◌-◌, ◌*◌, ◌/◌, ◌%◌, ◌^◌, ◌≤◌, ◌<◌, min, max, ◌≡◌, refl, sym, ap, ◌∙◌, inl, inr,
  List, [], ◌∷◌, ◌++◌, append-nil, append_assoc, arith, ltb, ◌==◌, if◌then◌else◌, ltb→lt, ge→ltb,
  ltb→ge, Bool-cases, length, take, drop, replicate, length-append, length-take, take-all,
  take-both,
}
use ta_engine.Common.Int32.{word}
use ta_engine.Crypto.{fresh, initial, block, update, final, put_be32, put_words}
use ta_engine.Crypto.Streaming.{run_blocks}
use ta_engine.Crypto.Reference.{sha_reference, padded, feed, joined, final-feed, sha256-reference}
use ta_engine.Crypto.Mac.{
  key_block, pad_with, hmac_init, hmac_run, hmac_sha256, xor_bytes, stretch, derive_block, derive,
  pbkdf2_sha256,
}

unfoldable pub reference_key : List ℕ → List ℕ
reference_key key =
    let k = if ltb 64 (length key) then sha_reference key else key in
    k ++ replicate (64 - length k) 0

-- H(K xor opad, H(K xor ipad, text))
unfoldable pub hmac_reference : List ℕ → List ℕ → List ℕ
hmac_reference key msg =
    sha_reference (
      pad_with 0x5c (reference_key key) ++ sha_reference (pad_with 0x36 (reference_key key) ++ msg))

key_block-reference_key : (key : List ℕ) → key_block key ≡ reference_key key
unfolding key_block reference_key
key_block-reference_key key = elim (Bool-cases (ltb 64 (length key))) [
  | inl e ↦ rw (e, sha256-reference key) refl
  | inr e ↦ rw e refl
]

final_two : (a b : List ℕ) → final (update b (update a fresh)) ≡ sha_reference (a ++ b)
unfolding feed joined
final_two a b = final-feed (a ∷ b ∷ []) ∙ ap (λ l. sha_reference (a ++ l)) (append-nil b)

-- A key that is primed once and a key that is given with the message give the MAC of RFC 2104: the
-- hash of the outer pad and the hash of the inner pad and the message, the key hashed first where it
-- is longer than a block.
pub hmac_sha256-hmac_reference : (key msg : List ℕ) → hmac_sha256 key msg ≡ hmac_reference key msg
unfolding hmac_sha256 hmac_run hmac_init hmac_reference
hmac_sha256-hmac_reference key msg =
    rw (key_block-reference_key key, final_two (pad_with 0x36 (reference_key key)) msg)
      (final_two (pad_with 0x5c (reference_key key)) _)

-- U_1, U_2, … of one block.
unfoldable pub chain : List ℕ → List ℕ → ℕ → ℕ → List ℕ
chain password salt index zero = hmac_reference password (salt ++ put_be32 index)
chain password salt index (suc j) = hmac_reference password (chain password salt index j)

-- U_1 xor … xor U_(j + 1)
unfoldable pub folded : List ℕ → List ℕ → ℕ → ℕ → List ℕ
folded password salt index zero = chain password salt index 0
folded password salt index (suc j) =
    xor_bytes (folded password salt index j) (chain password salt index (suc j))

-- The blocks from `index` on, one after the other.
unfoldable pub key_stream : List ℕ → List ℕ → ℕ → ℕ → ℕ → List ℕ
key_stream password salt iters index zero = []
key_stream password salt iters index (suc n) =
    folded password salt index (iters - 1) ++ key_stream password salt iters (index + 1) n

hmac_run-hmac_reference : (key msg : List ℕ) → hmac_run (hmac_init key) msg ≡ hmac_reference key msg
unfolding hmac_sha256
hmac_run-hmac_reference key msg = hmac_sha256-hmac_reference key msg

-- Every hash is 32 bytes.
length-put_words : (ws : List ℕ) → length (put_words ws) ≡ 4 * length ws
unfolding put_words put_be32
length-put_words [] = refl
length-put_words (w ∷ ws) =
    omega (arith, length-append (put_be32 w) (put_words ws), length-put_words ws)

length-block : (h p : List ℕ) → length (block h p) ≡ 8
unfolding block
length-block h p = refl

length-run_blocks : (k : ℕ) (m h : List ℕ) → length h ≡ 8 → length (run_blocks k m h) ≡ 8
unfolding run_blocks
length-run_blocks zero m h e = e
length-run_blocks (suc k) m h e =
    length-run_blocks k (drop 64 m) (block h (take 64 m)) (length-block h (take 64 m))

pub length-sha_reference : (m : List ℕ) → length (sha_reference m) ≡ 32
unfolding sha_reference
length-sha_reference m =
    let h = run_blocks (length (padded m) / 64) (padded m) initial in
    let e : length h ≡ 8 = length-run_blocks (length (padded m) / 64) (padded m) initial refl in
    omega (arith, length-put_words h)

length-xor_bytes : (a b : List ℕ) → length (xor_bytes a b) ≡ length a
unfolding xor_bytes
length-xor_bytes [] b = refl
length-xor_bytes (a ∷ acc) [] = refl
length-xor_bytes (a ∷ acc) (b ∷ u) = ap suc (length-xor_bytes acc u)

module _ (password salt : List ℕ) where
  stretch-folded :
      (index n j : ℕ)
      → stretch (hmac_init password) n (chain password salt index j) (folded password salt index j)
        ≡ folded password salt index (n + j)
  unfolding stretch chain folded
  stretch-folded index zero j = ap (folded password salt index) {x = j} {y = 0 + j} (omega arith)
  stretch-folded index (suc n) j =
      let acc = folded password salt index j in
      ap (λ u. stretch (hmac_init password) n u (xor_bytes acc u))
        (hmac_run-hmac_reference password (chain password salt index j))
      ∙ stretch-folded index n (suc j)
      ∙ ap (folded password salt index) {x = n + suc j} {y = suc n + j} (omega arith)

  length-folded : (index j : ℕ) → length (folded password salt index j) ≡ 32
  unfolding folded chain hmac_reference
  length-folded index zero = length-sha_reference _
  length-folded index (suc j) =
      length-xor_bytes (folded password salt index j) (chain password salt index (suc j))
      ∙ length-folded index j

  derive_block-folded :
      (iters index : ℕ)
      → derive_block (hmac_init password) salt iters index ≡ folded password salt index (iters - 1)
  unfolding derive_block chain folded
  derive_block-folded iters index =
      ap (λ u. stretch (hmac_init password) (iters - 1) u u)
        (hmac_run-hmac_reference password (salt ++ put_be32 index))
      ∙ stretch-folded index (iters - 1) 0
      ∙ ap (folded password salt index) {x = iters - 1 + 0} {y = iters - 1} (omega arith)

  -- A round of the loop, with what is left of the stream.
  round_taken :
      (t s out : List ℕ) (r : ℕ)
      → length t ≡ 32
      → (out ++ take (if ltb r 32 then r else 32) t) ++ take (r - 32) s ≡ out ++ take r (t ++ s)
  round_taken t s out r ht =
      let same : take (if ltb r 32 then r else 32) t ≡ take r t = elim (Bool-cases (ltb r 32)) [
        | inl e ↦ rw e refl
        | inr e ↦
            rw e (take-all 32 t (omega arith) ∙ sym (take-all r t (omega (arith, ltb→ge r 32 e))))
      ] in
      append_assoc out (take (if ltb r 32 then r else 32) t) (take (r - 32) s)
      ∙ ap (λ l. out ++ (l ++ take (r - 32) s)) same
      ∙ ap (λ n. out ++ (take r t ++ take n s)) {x = r - 32} {y = r - length t} (omega arith)
      ∙ ap (λ l. out ++ l) (sym (take-both r t s))

  spent : (out s : List ℕ) (r : ℕ) → r ≡ 0 → out ≡ out ++ take r s
  spent out s zero h = sym (append-nil out)
  spent out s (suc r) h = absurd (omega arith)

  -- One round less, from the buffer that it leaves.
  taken_size :
      (r : ℕ) (t : List ℕ) → length t ≡ 32 → length (take (if ltb r 32 then r else 32) t) ≡ min r 32
  taken_size r t ht = ground (arith, length-take (if ltb r 32 then r else 32) t)

  derive-key_stream :
      (fuel n iters dk index : ℕ) (out : List ℕ)
      → length out ≤ dk
      → dk - length out ≤ fuel
      → dk - length out ≤ 32 * n
      → index + n < word
      → derive fuel (hmac_init password) salt iters dk index out
        ≡ out ++ take (dk - length out) (key_stream password salt iters index n)
  unfolding derive key_stream
  derive-key_stream zero n iters dk index out hd hf hn hi =
      spent out (key_stream password salt iters index n) (dk - length out) (omega arith)
  derive-key_stream (suc fuel) zero iters dk index out hd hf hn hi =
      rw (derive, ge→ltb (length out) dk (omega arith))
        (spent out [] (dk - length out) (omega arith))
  derive-key_stream (suc fuel) (suc n) iters dk index out hd hf hn hi =
      elim (Bool-cases (ltb (length out) dk)) [
        | inl e ↦
            let lt : length out < dk = ltb→lt (length out) dk e in
            let r = dk - length out in
            let t = folded password salt index (iters - 1) in
            let next = out ++ take (if ltb r 32 then r else 32) t in
            let size : length next ≡ length out + min r 32 =
              length-append out (take (if ltb r 32 then r else 32) t)
              ∙ ap (λ k. length out + k) (taken_size r t (length-folded index (iters - 1))) in
            let i_is : (index + 1) % word ≡ index + 1 = omega arith in
            rw (derive, e, derive_block-folded iters index, i_is)
              (derive-key_stream fuel n iters dk (index + 1) next (omega arith) (omega arith)
                  (omega arith) (omega arith)
                ∙ ap (λ k. next ++ take k (key_stream password salt iters (index + 1) n))
                    {x = dk - length next} {y = r - 32} (omega arith)
                ∙ round_taken t (key_stream password salt iters (index + 1) n) out r
                    (length-folded index (iters - 1)))
        | inr e ↦
            rw (derive, e)
              (spent out (key_stream password salt iters index (suc n)) (dk - length out)
                (omega (arith, ltb→ge (length out) dk e)))
      ]

  length-key_stream : (iters index n : ℕ) → length (key_stream password salt iters index n) ≡ 32 * n
  unfolding key_stream
  length-key_stream iters index zero = refl
  length-key_stream iters index (suc n) =
      let t = folded password salt index (iters - 1) in
      omega (
        arith,
        length-append t (key_stream password salt iters (index + 1) n),
        length-folded index (iters - 1),
        length-key_stream iters (index + 1) n,
      )

  pbkdf2_stream :
      (iters dk : ℕ)
      → dk < 2 ^ 32
      → pbkdf2_sha256 password salt iters dk
        ≡ take dk (key_stream password salt (max 1 iters) 1 ((dk + 31) / 32))
  unfolding pbkdf2_sha256
  pbkdf2_stream iters dk h =
      let once : (if iters == 0 then 1 else iters) ≡ max 1 iters = ground arith in
      derive-key_stream dk ((dk + 31) / 32) (if iters == 0 then 1 else iters) dk 1 [] (omega arith)
        (omega arith) (omega arith) (omega arith)
      ∙ ap
          (λ k.
            take k (key_stream password salt (if iters == 0 then 1 else iters) 1 ((dk + 31) / 32)))
          {x = dk - 0} {y = dk} (omega arith)
      ∙ ap (λ c. take dk (key_stream password salt c 1 ((dk + 31) / 32))) once

  -- A key of fewer than 2 ^ 32 bytes is the front of the stream of RFC 8018, whose blocks fold the
  -- chain of `iters` MACs, one where `iters` is 0; and it has all the bytes that are asked for.
  pub pbkdf2-key_stream :
      (iters dk : ℕ)
      → dk < 2 ^ 32
      → (pbkdf2_sha256 password salt iters dk
          ≡ take dk (key_stream password salt (max 1 iters) 1 ((dk + 31) / 32)))
        × (length (pbkdf2_sha256 password salt iters dk) ≡ dk)
  pbkdf2-key_stream iters dk h =
      let s = key_stream password salt (max 1 iters) 1 ((dk + 31) / 32) in
      let e = pbkdf2_stream iters dk h in
      (
        e,
        ap length e
            ∙ length-take dk s
            ∙ omega (arith, length-key_stream (max 1 iters) 1 ((dk + 31) / 32)),
      )
