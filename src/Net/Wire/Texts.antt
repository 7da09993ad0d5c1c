-- ===== src/Net/Wire/Texts.antt =====
-- Texts, byte strings and lists survive the wire.
use Prim.Native.Nat.{bit_or}
use ta_engine.Common.{
  ℕ, suc, ◌*◌, ◌/◌, ◌%◌, ◌^◌, ◌≤◌, ◌≡◌, refl, sym, ap, ◌∙◌, ◌⊎◌, true, false, not, ◌&&◌, ◌||◌, List,
  [], ◌∷◌, ◌++◌, append-nil, append_assoc, arith, ltb, leb, ◌==◌, ge→ltb, le→leb, length, All,
  length-append, take-append_self, drop-append_self, take-all,
}
use ta_engine.Common.Bits.{bit_or-disjoint}
use native.Mathlib.Nat.{le_refl}
use ta_engine.Net.Wire.{
  put_list, get_list, Put, put_str, put_bytes, Reader, Get, get_str, get_bytes,
}
use ta_engine.Net.Wire.RoundTrip.{RoundTrip}

-- A text of at most 4096 bytes.
text_bytes : List ℕ → List ℕ
text_bytes s = length s % 256 ∷ length s / 256 % 256 ∷ s

put_text : (s b : List ℕ) → length s ≤ 4096 → put_str s b ≡ b ++ text_bytes s
unfolding put_str text_bytes
put_text s b h =
    rw (ge→ltb 4096 (length s) h, take-all (length s) s (le_refl (length s))) (simp append_assoc)

length_bytes : (n : ℕ) → n ≤ 4096 → bit_or (n % 256) (n / 256 % 256 * 2 ^ 8) ≡ n
length_bytes n h = omega (arith, bit_or-disjoint 8 (n % 256) (n / 256 % 256) (omega arith))

-- The reader behind the two length bytes.
text_run :
    (s rest : List ℕ)
    → length s ≤ 4096
    → (ltb 4096 (length s) || not (leb (length s) (length (s ++ rest)))) ≡ false
text_run s rest h = rw (
  ge→ltb 4096 (length s) h,
  le→leb (length s) (length (s ++ rest)) (omega (arith, length-append s rest)),
)

two_ahead : (s rest : List ℕ) → leb 2 (length (text_bytes s ++ rest)) ≡ true
unfolding text_bytes
two_ahead s rest = le→leb 2 (length (text_bytes s ++ rest)) (omega arith)

str_reads :
    (s rest : List ℕ) (r : Reader)
    → length s ≤ 4096
    → r.p ≡ text_bytes s ++ rest
    → get_str r ≡ (s, record r { p = rest })
unfolding get_str text_bytes
str_reads s rest r h e =
    rw (e, get_str, two_ahead s rest, length_bytes (length s) h, text_run s rest h)
      (rw (take-append_self (length s) s rest refl, drop-append_self (length s) s rest refl))

pub RoundTrip-str : (s : List ℕ) → length s ≤ 4096 → RoundTrip (put_str s) get_str s
RoundTrip-str s h = record {
  written = text_bytes s;
  writes = λ b. put_text s b h;
  reads = λ rest r e k. str_reads s rest r h e;
}

wanted : (want n : ℕ) → (want ≡ 0) ⊎ (want ≡ n) → (not (want == 0) && not (n == want)) ≡ false
wanted want n w = ground arith

bytes_reads :
    (want : ℕ) (s rest : List ℕ) (r : Reader)
    → length s ≤ 4096
    → (want ≡ 0) ⊎ (want ≡ length s)
    → r.p ≡ text_bytes s ++ rest
    → get_bytes want r ≡ (s, record r { p = rest })
unfolding get_bytes text_bytes
bytes_reads want s rest r h w e =
    rw
      (
        e,
        get_bytes,
        two_ahead s rest,
        length_bytes (length s) h,
        text_run s rest h,
        wanted want _ w,
      )
      (rw (take-append_self (length s) s rest refl, drop-append_self (length s) s rest refl))

-- An exact length is accepted, and so is any length where none is asked for.
pub RoundTrip-bytes :
    (want : ℕ) (s : List ℕ)
    → length s ≤ 4096
    → (want ≡ 0) ⊎ (want ≡ length s)
    → RoundTrip (put_bytes s) (get_bytes want) s
unfolding put_bytes put_str
RoundTrip-bytes want s h w = record {
  written = text_bytes s;
  writes = λ b. put_text s b h;
  reads = λ rest r e k. bytes_reads want s rest r h w e;
}

get_list_step :
    {A : Type 0} (n : ℕ) (get : Get A) (acc : List A) (r : Reader)
    → r.ok ≡ true
    → get_list (suc n) get acc r ≡ get_list n get (acc ++ (get r).0 ∷ []) (get r).1
unfolding get_list
get_list_step n get acc r k = ground arith

-- A list written item by item, and a loop that reads while the flag is up.
pub RoundTrip-list :
    {A : Type 0} (put : A → Put) (get : Get A) (xs acc : List A)
    → All (λ x. RoundTrip (put x) get x) xs
    → RoundTrip (put_list put xs) (get_list (length xs) get acc) (acc ++ xs)
unfolding put_list get_list
RoundTrip-list put get [] acc h = record {
  written = [];
  writes = λ b. sym (append-nil b);
  reads = λ rest r e k. rw append-nil (ap (λ q. (acc, record r { p = q })) e);
}
RoundTrip-list put get (x ∷ xs) acc (s, h) =
    let t = RoundTrip-list put get xs (acc ++ x ∷ []) h in
    record {
      written = s.written ++ t.written;
      writes = λ b. rw (s.writes b, t.writes (b ++ s.written)) (append_assoc b s.written t.written);
      reads = λ rest r e k.
          get_list_step (length xs) get acc r k
          ∙ rw (s.reads (t.written ++ rest) r (e ∙ append_assoc s.written t.written rest) k) (
              t.reads rest (record r { p = t.written ++ rest }) refl k
              ∙ ap (λ q. (q, record r { p = rest })) (append_assoc acc (x ∷ []) xs));
    }
