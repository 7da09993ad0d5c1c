-- ===== src/Auth/Transcript.antt =====
-- The transcript of a login, `authMessage` of src/net/auth.cpp: two exchanges that differ have two
-- transcripts.
use ta_engine.Common.{
  ℕ, ◌+◌, ◌*◌, ◌%◌, ◌^◌, ◌≡◌, refl, sym, ap, ◌∙◌, List, [], ◌++◌, append-nil, append_assoc, arith,
  length, get_or, take, drop, take-append_self, drop-append_self,
}
use ta_engine.Common.Word.{IsU32}
use ta_engine.Crypto.{put_be32}
use ta_engine.Auth.{transcript_tag, put_field, auth_message}

-- What was exchanged.
pub record Exchange : Type 0 where
  pub user : List ℕ
  pub client_nonce : List ℕ
  pub server_nonce : List ℕ
  pub salt : List ℕ
  pub iters : ℕ

unfoldable pub message_of : Exchange → List ℕ
message_of e = auth_message e.user e.client_nonce e.server_nonce e.salt e.iters

-- The lengths and the work factor fit in 32 bits, in which they are written.
pub record IsExchange (e : Exchange) : Type 0 where
  pub user_fits : IsU32 (length e.user)
  pub client_fits : IsU32 (length e.client_nonce)
  pub server_fits : IsU32 (length e.server_nonce)
  pub salt_fits : IsU32 (length e.salt)
  pub iters_fit : IsU32 e.iters

be_value : List ℕ → ℕ
be_value b = get_or b 0 0 * 2 ^ 24 + get_or b 1 0 * 2 ^ 16 + get_or b 2 0 * 2 ^ 8 + get_or b 3 0

be_value-put_be32 : (v : ℕ) (rest : List ℕ) → IsU32 v → be_value (put_be32 v ++ rest) ≡ v
unfolding be_value put_be32
be_value-put_be32 v rest h = omega arith

length-put_be32 : (v : ℕ) → length (put_be32 v) ≡ 4
unfolding put_be32
length-put_be32 v = refl

-- A field and what stands behind it.
take_field : List ℕ → List ℕ × List ℕ
take_field b = (take (be_value b) (drop 4 b), drop (be_value b) (drop 4 b))

field_bytes : List ℕ → List ℕ
field_bytes p = put_be32 (length p % 2 ^ 32) ++ p

take_field-field_bytes :
    (p rest : List ℕ) → IsU32 (length p) → take_field (field_bytes p ++ rest) ≡ (p, rest)
unfolding take_field field_bytes
take_field-field_bytes p rest h =
    let n : be_value (put_be32 (length p % 2 ^ 32) ++ p ++ rest) ≡ length p =
      ap be_value (append_assoc (put_be32 (length p % 2 ^ 32)) p rest)
      ∙ be_value-put_be32 (length p % 2 ^ 32) (p ++ rest) (omega arith)
      ∙ omega arith in
    let behind : drop 4 (put_be32 (length p % 2 ^ 32) ++ p ++ rest) ≡ p ++ rest =
      ap (drop 4) (append_assoc (put_be32 (length p % 2 ^ 32)) p rest)
      ∙ drop-append_self 4 (put_be32 (length p % 2 ^ 32)) (p ++ rest)
          (sym (length-put_be32 (length p % 2 ^ 32))) in
    rw (n, behind, take-append_self (length p) p rest refl, drop-append_self (length p) p rest refl)
      refl

read_message : List ℕ → Exchange
read_message b =
    let tag = take_field b in
    let user = take_field tag.1 in
    let client = take_field user.1 in
    let server = take_field client.1 in
    let salt = take_field server.1 in
    record {
      user = user.0;
      client_nonce = client.0;
      server_nonce = server.0;
      salt = salt.0;
      iters = be_value salt.1;
    }

message-fields :
    (e : Exchange)
    → message_of e
      ≡ field_bytes transcript_tag
        ++ (field_bytes e.user
            ++ (field_bytes e.client_nonce
                ++ (field_bytes e.server_nonce
                    ++ (field_bytes e.salt ++ (put_be32 e.iters ++ [])))))
unfolding message_of auth_message put_field field_bytes
message-fields e = simp (append_assoc, append-nil)

read_message-message_of : (e : Exchange) → IsExchange e → read_message (message_of e) ≡ e
unfolding read_message
read_message-message_of e h =
    rw
      (
        message-fields e,
        take_field-field_bytes transcript_tag _ (omega arith),
        take_field-field_bytes e.user _ h.user_fits,
        take_field-field_bytes e.client_nonce _ h.client_fits,
        take_field-field_bytes e.server_nonce _ h.server_fits,
        take_field-field_bytes e.salt _ h.salt_fits,
        be_value-put_be32 e.iters [] h.iters_fit,
      )
      refl

-- Where the lengths and the work factors fit in 32 bits, two exchanges with the same transcript are the
-- same: the user, both nonces, the salt and the work factor.
pub auth_message-injective :
    (e e' : Exchange) → IsExchange e → IsExchange e' → message_of e ≡ message_of e' → e ≡ e'
auth_message-injective e e' h h' same =
    sym (read_message-message_of e h) ∙ ap read_message same ∙ read_message-message_of e' h'
