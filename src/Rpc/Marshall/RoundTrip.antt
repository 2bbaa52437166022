-- ===== src/Rpc/Marshall/RoundTrip.antt =====
-- Reading back what the operators of rpc/rpc.cc and rpc/marshall.h have written.
use mathlib.Core.List.{append_assoc}
use distributed_system_lab.Base.{
  ℕ, suc, ◌+◌, ◌*◌, ◌/◌, ◌%◌, ◌^◌, ◌≤◌, ◌<◌, ◌≡◌, refl, ap, ◌∙◌, true, false, List, [], ◌∷◌, ◌++◌,
  if◌then◌else◌, length, length-append, All, arith,
}
use distributed_system_lab.Base.Bytes.{Bytes}
use distributed_system_lab.Rpc.Marshall.{
  Unmarshall, rawbyte, Marshal, put_bool, get_bool, put_uint, get_uint, put_ulonglong,
  get_ulonglong, put_string, get_string, split_at, rawbytes, bool_marshal, uint_marshal,
  ulonglong_marshal, string_marshal, put_each, put_vector, get_each, get_vector, vector_marshal,
  put_entry, get_entry, entry_marshal,
}

-- A reader at the start of `rest` in a buffer of `sz` bytes, without an error so far.
abbrev pub reading : ℕ → Bytes → Unmarshall
reading sz rest = record { sz = sz; rest = rest; ok = true; overrun = false }

-- Each value that is good, whatever is written after it, is read back, and what follows it is left;
-- in a buffer whose size fits an int.
abbrev pub Reads : {A : Type 0} → Marshal A → (A → Type 0) → Type 0
Reads {A} m Good =
    (x : A) (tail : Bytes) (sz : ℕ)
    → Good x
    → length (m.put x ++ tail) ≤ sz
    → sz < 2 ^ 31
    → m.get (reading sz (m.put x ++ tail)) ≡ (x, reading sz tail)

pub bool-Reads : Reads bool_marshal (λ b. Unit)
unfolding put_bool get_bool rawbyte
bool-Reads true tail sz g h k = refl
bool-Reads false tail sz g h k = refl

big_endian :
    (x : ℕ)
    → x < 2 ^ 32
    → x / 2 ^ 24 % 256 % 256 * 2 ^ 24
        + x / 2 ^ 16 % 256 % 256 * 2 ^ 16
        + x / 2 ^ 8 % 256 % 256 * 2 ^ 8
        + x % 256 % 256
      ≡ x
big_endian x h = omega arith

get_uint-put_uint :
    (x : ℕ) (tail : Bytes) (sz : ℕ)
    → x < 2 ^ 32
    → get_uint (reading sz (put_uint x ++ tail)) ≡ (x, reading sz tail)
unfolding put_uint get_uint rawbyte
get_uint-put_uint x tail sz h = ap (λ (y : ℕ). (y, reading sz tail)) (big_endian x h)

pub uint-Reads : Reads uint_marshal (λ x. x < 2 ^ 32)
uint-Reads x tail sz g h k = get_uint-put_uint x tail sz g

pub ulonglong-Reads : Reads ulonglong_marshal (λ x. x < 2 ^ 64)
unfolding put_ulonglong get_ulonglong
ulonglong-Reads x tail sz g h k =
    let a = x / 2 ^ 32 % 2 ^ 32 in
    let b = x % 2 ^ 32 in
    let high = get_uint-put_uint a (put_uint b ++ tail) sz (omega arith) in
    let low = get_uint-put_uint b tail sz (omega arith) in
    ap (λ (r : ℕ × Unmarshall). ((get_uint r.1).0 + r.0 * 2 ^ 32, (get_uint r.1).1)) high
    ∙ ap (λ (r : ℕ × Unmarshall). (r.0 + a * 2 ^ 32, r.1)) low
    ∙ ap (λ (y : ℕ). (y, reading sz tail)) (omega arith)

split_at-append : (s tail : Bytes) → split_at (length s) (s ++ tail) ≡ (s, tail)
unfolding split_at
split_at-append [] tail = refl
split_at-append (x ∷ s) tail = ap (λ (r : Bytes × Bytes). (x ∷ r.0, r.1)) (split_at-append s tail)

rawbytes-append :
    (s t tail : Bytes) (sz : ℕ)
    → length (s ++ tail) ≤ sz
    → sz < 2 ^ 31
    → rawbytes t (length s) (reading sz (s ++ tail)) ≡ (s, reading sz tail)
unfolding rawbytes
rawbytes-append s t tail sz h k = ground (arith, split_at-append s tail, length-append s tail)

-- A string whose length fits an unsigned int.
pub string-Reads : Reads string_marshal (λ s. length s < 2 ^ 32)
unfolding put_string get_string
string-Reads s tail sz g h k =
    let same : length s % 2 ^ 32 ≡ length s = omega arith in
    let size = get_uint-put_uint (length s % 2 ^ 32) (s ++ tail) sz (omega arith) in
    ap (λ (r : ℕ × Unmarshall). if r.1.ok then rawbytes [] r.0 r.1 else ([], r.1)) size
    ∙ ap (λ (n : ℕ). rawbytes [] n (reading sz (s ++ tail))) same
    ∙ rawbytes-append s [] tail sz (omega arith) k

module _ {A : Type 0} (m : Marshal A) (Good : A → Type 0) (reads : Reads m Good) where
  get_each-put_each :
      (xs : List A) (tail : Bytes) (sz : ℕ)
      → All Good xs
      → length (put_each m xs ++ tail) ≤ sz
      → sz < 2 ^ 31
      → get_each m (length xs) (reading sz (put_each m xs ++ tail)) ≡ (xs, reading sz tail)
  unfolding put_each get_each
  get_each-put_each [] tail sz g h k = refl
  get_each-put_each (x ∷ xs) tail sz (gx, gs) h k =
      let e = append_assoc (m.put x) (put_each m xs) tail in
      let fits : length (m.put x ++ (put_each m xs ++ tail)) ≤ sz = omega (arith, h, ap length e) in
      let first = reads x (put_each m xs ++ tail) sz gx fits k in
      let others =
        get_each-put_each xs tail sz gs
          (omega (arith, fits, length-append (m.put x) (put_each m xs ++ tail))) k in
      ap (λ (l : Bytes). get_each m (suc (length xs)) (reading sz l)) e
      ∙ ap
          (λ (r : A × Unmarshall).
            (r.0 ∷ (get_each m (length xs) r.1).0, (get_each m (length xs) r.1).1))
          first
      ∙ ap (λ (r : List A × Unmarshall). (x ∷ r.0, r.1)) others

  -- A vector that is written and followed by any bytes is read back, and the reader then stands at
  -- those bytes: if so it is with each good element, the size of the vector fits an unsigned int,
  -- its elements are good, and the whole text is shorter than 2 ^ 31.
  pub vector-Reads : Reads (vector_marshal m) (λ xs. (length xs < 2 ^ 32) × All Good xs)
  unfolding put_uint put_vector get_vector
  vector-Reads xs tail sz (g, gs) h k =
      let same : length xs % 2 ^ 32 ≡ length xs = omega arith in
      let size = get_uint-put_uint (length xs % 2 ^ 32) (put_each m xs ++ tail) sz (omega arith) in
      ap (λ (r : ℕ × Unmarshall). get_each m r.0 r.1) size
      ∙ ap (λ (n : ℕ). get_each m n (reading sz (put_each m xs ++ tail))) same
      ∙ get_each-put_each xs tail sz gs (omega arith) k

module _ {K V : Type 0} (k : Marshal K) (v : Marshal V) (GoodK : K → Type 0) (GoodV : V → Type 0)
    (reads_key : Reads k GoodK) (reads_value : Reads v GoodV) where
  -- The key and the value of an entry.
  pub entry-Reads : Reads (entry_marshal k v) (λ e. GoodK e.0 × GoodV e.1)
  unfolding put_entry get_entry
  entry-Reads (a, b) tail sz (ga, gb) h small =
      let e = append_assoc (k.put a) (v.put b) tail in
      let fits : length (k.put a ++ (v.put b ++ tail)) ≤ sz = omega (arith, h, ap length e) in
      let first = reads_key a (v.put b ++ tail) sz ga fits small in
      let second =
        reads_value b tail sz gb (omega (arith, fits, length-append (k.put a) (v.put b ++ tail)))
          small in
      ap (λ (l : Bytes). get_entry k v (reading sz l)) e
      ∙ ap (λ (r : K × Unmarshall). ((r.0, (v.get r.1).0), (v.get r.1).1)) first
      ∙ ap (λ (r : V × Unmarshall). ((a, r.0), r.1)) second
