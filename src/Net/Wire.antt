-- ===== src/Net/Wire.antt =====
-- `Writer` and `Reader` of src/net/protocol.h. A byte buffer is a list of numbers below 256; a
-- `std::string` is the list of its bytes. A method of `Writer` is a function on the buffer `b`, and
-- one of `Reader` returns its value with the reader it leaves.
pub mod RoundTrip
pub mod Texts
pub mod Lawful
pub mod Lengths
use Prim.Native.Nat.{bit_or}
use ta_engine.Common.{
  ℕ, zero, suc, ◌+◌, ◌*◌, ◌/◌, ◌%◌, ◌^◌, Bool, true, false, not, ◌||◌, ◌&&◌, List, [], ◌∷◌, ◌++◌,
  length, take, drop, ltb, leb, ◌==◌, if◌then◌else◌,
}

abbrev pub Put : Type 0
Put = List ℕ → List ℕ

infixl 5 ◌>>◌
unfoldable pub ◌>>◌ : Put → Put → Put
◌>>◌ m k b = k (m b)

unfoldable pub put_nothing : Put
put_nothing b = b

unfoldable pub put_u8 : ℕ → Put
put_u8 v b = b ++ v % 256 ∷ []

-- `for (int i = …; …; ++i) b.push_back(uint8_t(v >> (8 * i)))`, by the rounds that are left.
unfoldable pub put_le : ℕ → ℕ → ℕ → Put
put_le zero i v b = b
put_le (suc n) i v b = put_le n (i + 1) v (b ++ v / 2 ^ (8 * i) % 256 ∷ [])

unfoldable pub put_u32 : ℕ → Put
unfolding put_le
put_u32 v = put_le 4 0 v

unfoldable pub put_u64 : ℕ → Put
unfolding put_le
put_u64 v = put_le 8 0 v

-- A float travels as its bit pattern (`memcpy`), and a pattern is what the model keeps.
unfoldable pub put_f32 : ℕ → Put
unfolding put_u32
put_f32 v = put_u32 v

-- The length that `str` and `bytes` write: capped.
unfoldable pub capped : ℕ → ℕ
capped n = if ltb 4096 n then 4096 else n

unfoldable pub put_raw : List ℕ → Put
put_raw s b = b ++ s

unfoldable pub put_str : List ℕ → Put
unfolding capped put_u8 put_raw ◌>>◌
put_str s = do
  put_u8 (capped (length s))
  put_u8 (capped (length s) / 256)
  put_raw (take (capped (length s)) s)

unfoldable pub put_bytes : List ℕ → Put
unfolding capped put_u8 put_raw ◌>>◌
put_bytes v = do
  put_u8 (capped (length v))
  put_u8 (capped (length v) / 256)
  put_raw (take (capped (length v)) v)

-- The bytes from `p` to `end`, and the flag.
pub record Reader : Type 0 where
  pub p : List ℕ
  pub ok : Bool

abbrev pub Get : Type 0 → Type 0
Get A = Reader → A × Reader

infixl 4 ◌>>=◌
unfoldable pub ◌>>=◌ : {A B : Type 0} → Get A → (A → Get B) → Get B
◌>>=◌ m f r = let (a, r') = m r in f a r'

unfoldable pub pure : {A : Type 0} → A → Get A
pure a r = (a, r)

unfoldable pub avail : ℕ → Reader → Bool
avail n r = leb n (length r.p)

abbrev pub failed : Reader → Reader
failed r = record r { ok = false }

-- `ok = false; return v`
unfoldable pub fail_with : {A : Type 0} → A → Get A
fail_with a r = (a, failed r)

unfoldable pub get_u8 : Get ℕ
unfolding fail_with
get_u8 r = elim r.p [ [] ↦ fail_with 0 r | b ∷ rest ↦ (b, record r { p = rest }) ]

-- `v |= uint32_t(*p++) << (8 * i)`, by the rounds that are left. A byte shifted so stays within the
-- word that is read, so nothing wraps.
unfoldable pub get_le : ℕ → ℕ → ℕ → List ℕ → ℕ × List ℕ
get_le zero i v p = (v, p)
get_le (suc n) i v [] = (v, [])
get_le (suc n) i v (b ∷ p) = get_le n (i + 1) (bit_or v (b * 2 ^ (8 * i))) p

unfoldable pub get_word : ℕ → Get ℕ
unfolding avail get_le fail_with
get_word n r =
    if avail n r
    then (let (v, rest) = get_le n 0 0 r.p in (v, record r { p = rest }))
    else fail_with 0 r

unfoldable pub get_u32 : Get ℕ
unfolding get_word
get_u32 = get_word 4

unfoldable pub get_u64 : Get ℕ
unfolding get_word
get_u64 = get_word 8

unfoldable pub get_f32 : Get ℕ
unfolding get_u32
get_f32 = get_u32

-- The bytes behind a length that was accepted.
unfoldable pub get_run : ℕ → Get (List ℕ)
get_run n r = (take n r.p, record r { p = drop n r.p })

-- The two length bytes; `avail(2)` has been tested.
unfoldable pub get_length : List ℕ → ℕ × List ℕ
get_length (a ∷ b ∷ p) = (bit_or a (b * 2 ^ 8), p)
get_length p = (0, p)

-- `want` is 0 where any length will do.
unfoldable pub get_bytes : ℕ → Get (List ℕ)
unfolding avail get_length get_run fail_with
get_bytes want r =
    if avail 2 r
    then (let (n, rest) = get_length r.p in
        let r' = record r { p = rest } in
        if ltb 4096 n || not (avail n r') || (not (want == 0) && not (n == want))
        then fail_with [] r'
        else get_run n r')
    else fail_with [] r

unfoldable pub get_str : Get (List ℕ)
unfolding avail get_length get_run fail_with
get_str r =
    if avail 2 r
    then (let (n, rest) = get_length r.p in
        let r' = record r { p = rest } in
        if ltb 4096 n || not (avail n r') then fail_with [] r' else get_run n r')
    else fail_with [] r

-- `for (const auto& x : xs) …`
unfoldable pub put_list : {A : Type 0} → (A → Put) → List A → Put
put_list put [] b = b
put_list put (x ∷ xs) b = put_list put xs (put x b)

-- `for (uint32_t i = 0; i < n && r.ok; ++i) acc.push_back(…)`, by the rounds that are left.
unfoldable pub get_list : {A : Type 0} → ℕ → Get A → List A → Get (List A)
get_list zero get acc r = (acc, r)
get_list (suc n) get acc r = elim r.ok [
  | true ↦ get_list n get (acc ++ (get r).0 ∷ []) (get r).1
  | false ↦ (acc, r)
]
