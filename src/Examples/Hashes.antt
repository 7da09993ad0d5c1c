-- ===== src/Examples/Hashes.antt =====
-- The hashes of short messages.
use ta_engine.Common.{ℕ, ◌≡◌, refl, ◌↔◌, true, List, [], ◌∷◌, arith, length, take, replicate}
use ta_engine.Common.Int32.{not32}
use ta_engine.Crypto.{
  be32, put_be32, fresh, load_words, rotr, small0, small1, next_word, extend, schedule, round,
  rounds, load_vars, block, top_up, whole_blocks, update, length_bytes, put_words, final, sha256,
}
use ta_engine.Crypto.Reference.{sha_reference, feed, joined, final-feed}
use ta_engine.Crypto.Mac.{hmac_sha256, pbkdf2_sha256}
use ta_engine.Crypto.Keys.{
  hmac_reference, hmac_sha256-hmac_reference, key_stream, pbkdf2-key_stream,
}
use ta_engine.Crypto.Hex.{equal_ct, equal_ct-same}

abbrev abc : List ℕ
abc = b'a' ∷ b'b' ∷ b'c' ∷ []

-- The first vector of FIPS 180-4.
sha256-abc :
    sha256 abc
    ≡ 186 ∷ 120 ∷ 22 ∷ 191 ∷ 143 ∷ 1 ∷ 207 ∷ 234 ∷ 65 ∷ 65 ∷ 64 ∷ 222 ∷ 93 ∷ 174 ∷ 34 ∷ 35 ∷ 176 ∷ 3
      ∷ 97 ∷ 163 ∷ 150 ∷ 23 ∷ 122 ∷ 156 ∷ 180 ∷ 16 ∷ 255 ∷ 97 ∷ 242 ∷ 0 ∷ 21 ∷ 173 ∷ []
unfolding be32 put_be32 load_words rotr small0 small1 next_word extend schedule round rounds
    load_vars block top_up whole_blocks update length_bytes put_words final sha256 not32
sha256-abc = refl

final-feed_example :
    final (feed (abc ∷ replicate 70 0 ∷ [] ∷ abc ∷ []) fresh)
    ≡ sha_reference (joined (abc ∷ replicate 70 0 ∷ [] ∷ abc ∷ []))
final-feed_example = final-feed (abc ∷ replicate 70 0 ∷ [] ∷ abc ∷ [])

hmac_sha256-hmac_reference_example :
    hmac_sha256 (replicate 65 1) abc ≡ hmac_reference (replicate 65 1) abc
hmac_sha256-hmac_reference_example = hmac_sha256-hmac_reference (replicate 65 1) abc

pbkdf2-key_stream_example :
    (pbkdf2_sha256 abc abc 2 40 ≡ take 40 (key_stream abc abc 2 1 2))
    × (length (pbkdf2_sha256 abc abc 2 40) ≡ 40)
pbkdf2-key_stream_example = pbkdf2-key_stream abc abc 2 40 (omega arith)

abbrev one_two : List ℕ
one_two = 1 ∷ 2 ∷ []

abbrev one_three : List ℕ
one_three = 1 ∷ 3 ∷ []

equal_ct-same_example : (equal_ct one_two one_three 2 ≡ true) ↔ (one_two ≡ one_three)
equal_ct-same_example =
    equal_ct-same one_two one_three 2 refl refl (omega arith, (omega arith, tt))
      (omega arith, (omega arith, tt))
