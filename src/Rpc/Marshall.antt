-- ===== src/Rpc/Marshall.antt =====
-- Marshalling: rpc/marshall.h and the operators in rpc/rpc.cc. A `marshall` is the bytes after the
-- RPC header; `m << x` appends the bytes that `put x` gives here. An int is its bit pattern, so it
-- is written and read as an unsigned int. The buffer grows as it must, and is not modelled.
pub mod RoundTrip
use distributed_system_lab.Base.{
  ℕ, zero, suc, ◌+◌, ◌-◌, ◌*◌, ◌/◌, ◌%◌, ◌^◌, Bool, true, false, not, List, [], ◌∷◌, ◌++◌, ltb,
  nat_eq, if◌then◌else◌, length,
}
use distributed_system_lab.Base.Tests.{Key}
use distributed_system_lab.Base.Bytes.{Bytes}
use distributed_system_lab.Base.Map.{Map, insert}

-- What is left to read: `_ind` is `sz - length rest`. `overrun` is set when bytes outside the buffer
-- are taken, which is undefined in the source.
pub record Unmarshall : Type 0 where
  pub sz : ℕ
  pub rest : Bytes
  pub ok : Bool
  pub overrun : Bool

-- sizeof(req_header) and sizeof(rpc_sz_t), without checksums
abbrev pub rpc_header_sz : ℕ
rpc_header_sz = 24

unfoldable pub take_content : Bytes → Unmarshall
take_content s = record { sz = length s + rpc_header_sz; rest = s; ok = true; overrun = false }

unfoldable pub okdone : Unmarshall → Bool
okdone u = if u.ok then nat_eq (length u.rest) 0 else false

-- A read past the end gives 0.
unfoldable pub rawbyte : Unmarshall → ℕ × Unmarshall
rawbyte u = elim u.rest [
  | [] ↦ (0, record u { ok = false })
  | x ∷ rest ↦ (x, record u { rest = rest })
]

-- operator<< and operator>> at a type
pub record Marshal (A : Type 0) : Type 0 where
  pub put : A → Bytes
  pub get : Unmarshall → A × Unmarshall

unfoldable pub put_bool : Bool → Bytes
put_bool x = (if x then 1 else 0) ∷ []

unfoldable pub get_bool : Unmarshall → Bool × Unmarshall
unfolding rawbyte
get_bool u = let (x, u') = rawbyte u in (not (nat_eq x 0), u')

unfoldable pub put_uint : ℕ → Bytes
put_uint x = x / 2 ^ 24 % 256 ∷ x / 2 ^ 16 % 256 ∷ x / 2 ^ 8 % 256 ∷ x % 256 ∷ []

unfoldable pub get_uint : Unmarshall → ℕ × Unmarshall
unfolding rawbyte
get_uint u =
    let (a, ua) = rawbyte u in
    let (b, ub) = rawbyte ua in
    let (c, uc) = rawbyte ub in
    let (d, ud) = rawbyte uc in
    (a % 256 * 2 ^ 24 + b % 256 * 2 ^ 16 + c % 256 * 2 ^ 8 + d % 256, ud)

unfoldable pub put_ulonglong : ℕ → Bytes
unfolding put_uint
put_ulonglong x = put_uint (x / 2 ^ 32 % 2 ^ 32) ++ put_uint (x % 2 ^ 32)

unfoldable pub get_ulonglong : Unmarshall → ℕ × Unmarshall
unfolding get_uint
get_ulonglong u = let (h, uh) = get_uint u in let (l, ul) = get_uint uh in (l + h * 2 ^ 32, ul)

unfoldable pub put_string : Bytes → Bytes
unfolding put_uint
put_string s = put_uint (length s % 2 ^ 32) ++ s

-- The first `n` elements and the others.
unfoldable pub split_at : ℕ → Bytes → Bytes × Bytes
split_at zero l = ([], l)
split_at (suc n) [] = ([], [])
split_at (suc n) (x ∷ l) = let (front, back) = split_at n l in (x ∷ front, back)

-- The end is compared as an unsigned int.
unfoldable pub rawbytes : Bytes → ℕ → Unmarshall → Bytes × Unmarshall
rawbytes s n u =
    let end = u.sz - length u.rest + n in
    if ltb u.sz (end % 2 ^ 32)
    then (s, record u { ok = false })
    else (let (front, back) = split_at n u.rest in
        (front, record u { rest = back; overrun = if ltb u.sz end then true else u.overrun }))

-- A new string is empty.
unfoldable pub get_string : Unmarshall → Bytes × Unmarshall
unfolding get_uint rawbytes
get_string u0 =
    let (n, u) = get_uint u0 in let read = rawbytes [] n u in if u.ok then read else ([], u)

instance abbrev pub bool_marshal : Marshal Bool
bool_marshal = record { put = put_bool; get = get_bool }

abbrev pub uint_marshal : Marshal ℕ
uint_marshal = record { put = put_uint; get = get_uint }

abbrev pub ulonglong_marshal : Marshal ℕ
ulonglong_marshal = record { put = put_ulonglong; get = get_ulonglong }

abbrev pub string_marshal : Marshal Bytes
string_marshal = record { put = put_string; get = get_string }

-- The templates for vectors and maps, and the loops that lock_server_cache_rsm.cc writes like them.
module _ {A : Type 0} (m : Marshal A) where
  unfoldable pub put_each : List A → Bytes
  put_each [] = []
  put_each (x ∷ xs) = m.put x ++ put_each xs

  unfoldable pub put_vector : List A → Bytes
  unfolding put_each
  put_vector xs = put_uint (length xs % 2 ^ 32) ++ put_each xs

  unfoldable pub get_each : ℕ → Unmarshall → List A × Unmarshall
  get_each zero u = ([], u)
  get_each (suc n) u0 = let (x, u1) = m.get u0 in let (xs, u2) = get_each n u1 in (x ∷ xs, u2)

  unfoldable pub get_vector : Unmarshall → List A × Unmarshall
  unfolding get_each
  get_vector u0 = let (n, u) = get_uint u0 in get_each n u

  abbrev pub vector_marshal : Marshal (List A)
  vector_marshal = record { put = put_vector; get = get_vector }

module _ {K V : Type 0} (k : Marshal K) (v : Marshal V) where
  unfoldable pub put_entry : K × V → Bytes
  put_entry (a, b) = k.put a ++ v.put b

  unfoldable pub get_entry : Unmarshall → (K × V) × Unmarshall
  get_entry u0 = let (a, u1) = k.get u0 in let (b, u2) = v.get u1 in ((a, b), u2)

  abbrev pub entry_marshal : Marshal (K × V)
  entry_marshal = record { put = put_entry; get = get_entry }

-- The assignments d[a] = b, in the order of the entries.
unfoldable pub insert_each : {K V : Type 0} ⦃key : Key K⦄ → List (K × V) → Map K V → Map K V
insert_each [] d = d
insert_each ((a, b) ∷ entries) d = insert_each entries (insert a b d)

-- operator<< and operator>> of a map
module _ {K V : Type 0} ⦃key : Key K⦄ (k : Marshal K) (v : Marshal V) where
  unfoldable pub put_map : Map K V → Bytes
  put_map d = put_vector (entry_marshal k v) d

  unfoldable pub get_map : Unmarshall → Map K V × Unmarshall
  get_map u0 = let (entries, u) = get_vector (entry_marshal k v) u0 in (insert_each entries [], u)
