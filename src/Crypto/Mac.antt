-- ===== src/Crypto/Mac.antt =====
-- HMAC and PBKDF2 of src/net/crypto.cpp.
use Prim.Native.Nat.{bit_xor}
use ta_engine.Common.{
  ℕ, zero, suc, ◌+◌, ◌-◌, ◌%◌, true, false, List, [], ◌∷◌, ◌++◌, map, ltb, ◌==◌, if◌then◌else◌,
  length, take, replicate,
}
use ta_engine.Common.Int32.{word}
use ta_engine.Crypto.{Sha256, fresh, block_len, hash_len, update, final, sha256, put_be32}

-- `Hmac`: the two primed states.
pub record Hmac : Type 0 where
  pub inner : Sha256
  pub outer : Sha256

-- `k`, the key in a block of zeros.
unfoldable pub key_block : List ℕ → List ℕ
key_block key =
    if ltb block_len (length key)
    then (let d = sha256 key in d ++ replicate (block_len - length d) 0)
    else key ++ replicate (block_len - length key) 0

-- `for (size_t i = 0; i < kBlockLen; ++i) pad[i] = uint8_t(k[i] ^ b)`
unfoldable pub pad_with : ℕ → List ℕ → List ℕ
pad_with b k = map (λ x. bit_xor x b % 256) k

-- `Hmac::Hmac`. The wiping of `k` and `pad` at its end touches nothing that is kept.
unfoldable pub hmac_init : List ℕ → Hmac
hmac_init key =
    let k = key_block key in
    record { inner = update (pad_with 0x36 k) fresh; outer = update (pad_with 0x5c k) fresh }

-- `Hmac::operator()`
unfoldable pub hmac_run : Hmac → List ℕ → List ℕ
hmac_run m msg = let ih = final (update msg m.inner) in final (update ih m.outer)

unfoldable pub hmac_sha256 : List ℕ → List ℕ → List ℕ
hmac_sha256 key msg = hmac_run (hmac_init key) msg

-- `for (size_t b = 0; b < kHashLen; ++b) acc[b] ^= u[b]`
unfoldable pub xor_bytes : List ℕ → List ℕ → List ℕ
xor_bytes (a ∷ acc) (b ∷ u) = bit_xor a b ∷ xor_bytes acc u
xor_bytes acc u = acc

-- `for (uint32_t i = 1; i < iters; ++i) …`, by the rounds that are left.
unfoldable pub stretch : Hmac → ℕ → List ℕ → List ℕ → List ℕ
stretch prf zero u acc = acc
stretch prf (suc n) u acc = let u = hmac_run prf u in stretch prf n u (xor_bytes acc u)

-- One block of the key.
unfoldable pub derive_block : Hmac → List ℕ → ℕ → ℕ → List ℕ
derive_block prf salt iters index =
    let u = hmac_run prf (salt ++ put_be32 index) in stretch prf (iters - 1) u u

-- `for (uint32_t blockIdx = …; done < dkLen; ++blockIdx) …`; `done` is the length of `out`, and a
-- round adds a byte at the least.
unfoldable pub derive : ℕ → Hmac → List ℕ → ℕ → ℕ → ℕ → List ℕ → List ℕ
derive zero prf salt iters dk index out = out
derive (suc n) prf salt iters dk index out = elim (ltb (length out) dk) [
  | true ↦
      let acc = derive_block prf salt iters index in
      let taken = if ltb (dk - length out) hash_len then dk - length out else hash_len in
      derive n prf salt iters dk ((index + 1) % word) (out ++ take taken acc)
  | false ↦ out
]

unfoldable pub pbkdf2_sha256 : List ℕ → List ℕ → ℕ → ℕ → List ℕ
pbkdf2_sha256 password salt iters dk =
    derive dk (hmac_init password) salt (if iters == 0 then 1 else iters) dk 1 []
