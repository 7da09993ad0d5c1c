-- ===== src/Crt/Stored.antt =====
-- Parsers of src/crt/crt.cpp that may fail: what a writer puts is read back, and every proper front
-- of it is refused. The laws compose, field by field and list by list.
use ta_engine.Common.{
  ℕ, suc, ◌+◌, ◌-◌, ◌*◌, ◌%◌, ◌^◌, ◌≤◌, ◌<◌, ◌≡◌, refl, sym, ap, ◌∙◌, inl, inr, none, some, List,
  [], ◌∷◌, ◌++◌, map, append-nil, append_assoc, arith, ltb, ltb→lt, ge→ltb, ltb→ge, le→leb, gt→leb,
  Bool-cases, length, take, All, length-append, length-take, take-past, drop-append_self,
  take-append,
}
use native.Mathlib.Nat.{suc-mul}
use ta_engine.Common.Int32.{word, is_neg}
use ta_engine.Crt.{
  u32v, Parse, done, ◌>>=◌, counted, read_records, needed, times, write_all, write_counted, records,
}
use ta_engine.Crt.Fields.{le4, u32_at-le4, length-le4}
use ta_engine.Crt.Records.{Recorded}

-- `n` bytes at the least are put.
pub record Stored (n : ℕ) {A : Type 0} (put : List ℕ → List ℕ) (m : Parse A) (v : A) : Type 0 where
  pub bytes : List ℕ
  pub writes : (b : List ℕ) → put b ≡ b ++ bytes
  pub reads : (rest : List ℕ) → m (bytes ++ rest) ≡ some (v, rest)
  pub short : (k : ℕ) → k < length bytes → m (take k bytes) ≡ none
  pub least : n ≤ length bytes

pub Stored-done : {A : Type 0} (v : A) → Stored 0 (λ b. b) (done v) v
unfolding done
Stored-done v = record {
  bytes = [];
  writes = λ b. sym (append-nil b);
  reads = λ rest. refl;
  short = λ k h. absurd (omega arith);
  least = omega arith;
}

bind-some :
    {A B : Type 0} (m : Parse A) (f : A → Parse B) {d r : List ℕ} {a : A}
    → m d ≡ some (a, r)
    → (m >>= f) d ≡ f a r
unfolding ◌>>=◌
bind-some m f e = ap (λ o. elim o [ none ↦ none | some x ↦ f x.0 x.1 ]) e

bind-none :
    {A B : Type 0} (m : Parse A) (f : A → Parse B) {d : List ℕ} → m d ≡ none → (m >>= f) d ≡ none
unfolding ◌>>=◌
bind-none m f e = ap (λ o. elim o [ none ↦ none | some x ↦ f x.0 x.1 ]) e

weaken :
    {A : Type 0} {n : ℕ} {p : List ℕ → List ℕ} {m : Parse A} {v : A}
    → Stored n p m v
    → Stored 0 p m v
weaken s = record {
  bytes = s.bytes;
  writes = s.writes;
  reads = s.reads;
  short = s.short;
  least = omega arith;
}

pub Stored-seq :
    {A B : Type 0} {p q : List ℕ → List ℕ} {m : Parse A} (f : A → Parse B) (v : A) {w : B} {i j : ℕ}
    → Stored i p m v
    → Stored j q (f v) w
    → Stored (i + j) (λ b. q (p b)) (m >>= f) w
Stored-seq f v s t = record {
  bytes = s.bytes ++ t.bytes;
  writes = λ b. rw (s.writes b, t.writes (b ++ s.bytes)) (append_assoc b s.bytes t.bytes);
  reads = λ rest.
      rw (append_assoc s.bytes t.bytes rest)
        (bind-some _ f (s.reads (t.bytes ++ rest)) ∙ t.reads rest);
  short = λ k h. elim (Bool-cases (ltb k (length s.bytes))) [
    | inl e ↦
        let lt : k < length s.bytes = ltb→lt k (length s.bytes) e in
        rw (take-append k s.bytes t.bytes (omega arith)) (bind-none _ f (s.short k lt))
    | inr e ↦
        let le : length s.bytes ≤ k = ltb→ge k (length s.bytes) e in
        rw (take-past k s.bytes t.bytes le) (
          bind-some _ f (s.reads (take (k - length s.bytes) t.bytes))
          ∙ t.short (k - length s.bytes) (omega (arith, length-append s.bytes t.bytes)))
  ];
  least = omega (arith, length-append s.bytes t.bytes, s.least, t.least);
}

-- A count within its limit.
pub Stored-counted :
    (limit n : ℕ) → n ≤ limit → limit < 2 ^ 31 → Stored 4 (u32v (n % word)) (counted limit) n
unfolding u32v le4 counted is_neg
Stored-counted limit n h hl = record {
  bytes = le4 (n % word);
  writes = λ b. refl;
  reads = λ rest.
      rw
        (
          le→leb 4 (length (le4 (n % word) ++ rest))
              (omega (arith, length-append (le4 (n % word)) rest, length-le4 (n % word))),
          u32_at-le4 (n % word) rest (omega arith),
          gt→leb (2 ^ 31) (n % word) (omega arith),
          ge→ltb limit (n % word) (omega arith),
        )
        (ap (λ x. some (x, rest)) (omega arith));
  short = λ k e. rw (
      gt→leb 4 (length (take k (le4 (n % word))))
        (omega (arith, length-take k (le4 (n % word)), length-le4 (n % word))));
  least = omega (arith, length-le4 (n % word));
}

one_more : (n size : ℕ) {a b : ℕ} → a ≡ size → b ≡ n * size → a + b ≡ suc n * size
one_more n size e f = rw suc-mul (omega arith)

-- What the loop over records of one size leaves of the list `xs`.
record Laid {A : Type 0} (put : A → List ℕ → List ℕ) (size : ℕ) (read : List ℕ → A) (keep : A → A)
    (xs : List A) : Type 0 where
  bytes : List ℕ
  writes : (b : List ℕ) → write_all put xs b ≡ b ++ bytes
  sized : length bytes ≡ length xs * size
  reads : (rest : List ℕ) → read_records size read (length xs) (bytes ++ rest) ≡ (map keep xs, rest)

module _ {A : Type 0} (put : A → List ℕ → List ℕ) (size : ℕ) (read : List ℕ → A)
    (keep : A → A) where
  abbrev pub AllRecorded : List A → Type 0
  AllRecorded xs = All (λ x. Recorded (put x) size read (keep x)) xs

  laid : (xs : List A) → AllRecorded xs → Laid put size read keep xs
  unfolding write_all read_records
  laid [] h = record {
    bytes = [];
    writes = λ b. sym (append-nil b);
    sized = omega arith;
    reads = λ rest. refl;
  }
  laid (x ∷ xs) (s, hs) =
      let t = laid xs hs in
      record {
        bytes = s.bytes ++ t.bytes;
        writes = λ b. rw (s.writes b, t.writes (b ++ s.bytes)) (append_assoc b s.bytes t.bytes);
        sized = length-append s.bytes t.bytes ∙ one_more (length xs) size s.sized t.sized;
        reads = λ rest. rw (
          append_assoc s.bytes t.bytes rest,
          s.reads (t.bytes ++ rest),
          drop-append_self size s.bytes (t.bytes ++ rest) (sym s.sized),
          t.reads rest,
        );
      }

  pub Stored-needed :
      (xs : List A)
      → AllRecorded xs
      → Stored 0 (write_all put xs) (needed size read (length xs)) (map keep xs)
  unfolding needed
  Stored-needed xs h =
      let t = laid xs h in
      record {
        bytes = t.bytes;
        writes = t.writes;
        reads = λ rest. rw (
          le→leb (length xs * size) (length (t.bytes ++ rest))
              (omega (arith, length-append t.bytes rest, t.sized)),
          t.reads rest,
        );
        short = λ k e. rw (
            gt→leb (length xs * size) (length (take k t.bytes))
              (omega (arith, length-take k t.bytes, t.sized)));
        least = omega arith;
      }

  pub Stored-records :
      (xs : List A)
      → length xs ≤ 100000
      → AllRecorded xs
      → Stored 4 (write_counted put xs) (records size read) (map keep xs)
  unfolding write_counted records
  Stored-records xs hl h =
      Stored-seq (needed size read) (length xs) (Stored-counted 100000 (length xs) hl (omega arith))
        (Stored-needed xs h)

module _ {A : Type 0} (n : ℕ) (put : A → List ℕ → List ℕ) (m : Parse A) (keep : A → A) where
  abbrev pub AllStored : List A → Type 0
  AllStored xs = All (λ x. Stored n (put x) m (keep x)) xs

  Stored-times :
      (xs : List A) → AllStored xs → Stored 0 (write_all put xs) (times m (length xs)) (map keep xs)
  unfolding write_all times
  Stored-times [] h = Stored-done []
  Stored-times (x ∷ xs) (s, hs) = weaken (
      Stored-seq _ (keep x) s
        (Stored-seq _ (map keep xs) (Stored-times xs hs) (Stored-done (keep x ∷ map keep xs))))

  pub Stored-many :
      (limit : ℕ) (xs : List A)
      → length xs ≤ limit
      → limit < 2 ^ 31
      → AllStored xs
      → Stored 4 (write_counted put xs) (counted limit >>= times m) (map keep xs)
  unfolding write_counted
  Stored-many limit xs hl hm h =
      Stored-seq (times m) (length xs) (Stored-counted limit (length xs) hl hm) (Stored-times xs h)
