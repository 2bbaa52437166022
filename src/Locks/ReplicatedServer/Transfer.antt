-- ===== src/Locks/ReplicatedServer/Transfer.antt =====
-- The state of lock_server_cache_rsm.cc as it is marshalled and read into another server.
use distributed_system_lab.Base.{
  ℕ, ◌+◌, ◌^◌, ◌≤◌, ◌<◌, ◌≡◌, refl, sym, ap, ◌∙◌, Bool, ◌&&◌, Option, none, some, List, [], ◌∷◌,
  ◌++◌, nat_eq, if◌then◌else◌, length, length-append, arith, All,
}
use distributed_system_lab.Base.Tests.{nat_key}
use distributed_system_lab.Base.Bytes.{Bytes, bytes_key}
use distributed_system_lab.Base.Map.{Map, lookup, insert, or_else, lookup-insert}
use distributed_system_lab.Base.Ordered.{IsOrdered, lookup-Above}
use distributed_system_lab.Rpc.Marshall.{
  Unmarshall, Marshal, bool_marshal, uint_marshal, ulonglong_marshal, string_marshal,
  vector_marshal, entry_marshal, take_content, insert_each, rpc_header_sz,
}
use distributed_system_lab.Rpc.Marshall.RoundTrip.{
  reading, Reads, bool-Reads, uint-Reads, ulonglong-Reads, string-Reads, vector-Reads, entry-Reads,
}
use distributed_system_lab.Locks.ReplicatedServer.{
  LockServer, write_xid, clients_marshal, locks_marshal, xids_marshal, marshal_state,
  unmarshal_state, write_xids, write_clients,
}

-- The first value, or else the second.
abbrev pub override {ℓ} : {A : Type ℓ} → Option A → Option A → Option A
override none y = y
override (some x) y = some x

lookup-insert_each :
    {V : Type 0} (entries d : Map ℕ V) (j : ℕ)
    → IsOrdered entries
    → lookup j (insert_each entries d) ≡ override (lookup j entries) (lookup j d)
unfolding insert_each lookup IsOrdered
lookup-insert_each [] d j h = refl
lookup-insert_each ((i, v) ∷ entries) d j (a, h) = ground (
  arith,
  lookup-insert_each entries (insert i v d) j h,
  lookup-insert i j v d,
  lookup-Above i entries a,
)

-- The entry of a client and a lock.
unfoldable pub find_xid : Map ℕ (Map ℕ ℕ) → ℕ → ℕ → Option ℕ
find_xid m clt lid = elim (lookup clt m) [ none ↦ none | some ids ↦ lookup lid ids ]

find_xid-write_xid :
    (m : Map ℕ (Map ℕ ℕ)) (clt lid xid c l : ℕ)
    → find_xid (write_xid clt lid xid m) c l
      ≡ (if nat_eq clt c && nat_eq lid l then some xid else find_xid m c l)
unfolding find_xid write_xid lookup
find_xid-write_xid m clt lid xid c l = ground (
  arith,
  lookup-insert clt c (insert lid xid (or_else (lookup clt m) [])) m,
  lookup-insert lid l xid (or_else (lookup clt m) []),
)

find_xid-write_xids :
    (clt : ℕ) (entries : Map ℕ ℕ) (m : Map ℕ (Map ℕ ℕ)) (c l : ℕ)
    → IsOrdered entries
    → find_xid (write_xids clt entries m) c l
      ≡ (if nat_eq clt c then override (lookup l entries) (find_xid m c l) else find_xid m c l)
unfolding write_xids lookup IsOrdered
find_xid-write_xids clt [] m c l h = ground arith
find_xid-write_xids clt ((name, value) ∷ entries) m c l (a, h) = ground (
  arith,
  find_xid-write_xids clt entries (write_xid clt name value m) c l h,
  find_xid-write_xid m clt name value c l,
  lookup-Above name entries a,
)

-- The map of the transaction numbers and the maps in it are in order.
abbrev pub AreOrdered : Map ℕ (Map ℕ ℕ) → Type 0
AreOrdered m = IsOrdered m × All (λ e. IsOrdered e.1) m

find_xid-write_clients :
    (es m : Map ℕ (Map ℕ ℕ)) (c l : ℕ)
    → AreOrdered es
    → find_xid (write_clients es m) c l ≡ override (find_xid es c l) (find_xid m c l)
unfolding write_clients find_xid lookup IsOrdered
find_xid-write_clients [] m c l h = refl
find_xid-write_clients ((clt, ids) ∷ es) m c l ((a, h), (first, others)) = ground (
  arith,
  find_xid-write_clients es (write_xids clt ids m) c l (h, others),
  find_xid-write_xids clt ids m c l first,
  lookup-Above clt es a,
)

-- The numbers and sizes of a server fit the integers that are written for them.
abbrev pub Fits : LockServer → Type 0
Fits s =
    ((length s.lock_client_list < 2 ^ 32)
      × All (λ e. (e.0 < 2 ^ 64) × ((length e.1 < 2 ^ 32) × All (λ b. length b < 2 ^ 32) e.1))
          s.lock_client_list)
    × ((length s.locks < 2 ^ 32) × All (λ e. (e.0 < 2 ^ 64) × Unit) s.locks)
    × ((length s.client_lock_id < 2 ^ 32)
        × All
            (λ e.
              (e.0 < 2 ^ 32)
              × ((length e.1 < 2 ^ 32) × All (λ b. (b.0 < 2 ^ 64) × (b.1 < 2 ^ 64)) e.1))
            s.client_lock_id)
    × (length (marshal_state s) + rpc_header_sz < 2 ^ 31)

clients-Reads : Reads clients_marshal (λ m.
    (length m < 2 ^ 32)
    × All (λ e. (e.0 < 2 ^ 64) × ((length e.1 < 2 ^ 32) × All (λ b. length b < 2 ^ 32) e.1)) m)
clients-Reads = vector-Reads (entry_marshal ulonglong_marshal (vector_marshal string_marshal)) _ (
    entry-Reads ulonglong_marshal (vector_marshal string_marshal) _ _ ulonglong-Reads
      (vector-Reads string_marshal _ string-Reads))

locks-Reads : Reads locks_marshal (λ m. (length m < 2 ^ 32) × All (λ e. (e.0 < 2 ^ 64) × Unit) m)
locks-Reads =
    vector-Reads (entry_marshal ulonglong_marshal bool_marshal) _
      (entry-Reads ulonglong_marshal bool_marshal _ _ ulonglong-Reads bool-Reads)

xids-Reads : Reads xids_marshal (λ m.
    (length m < 2 ^ 32)
    × All
        (λ e.
          (e.0 < 2 ^ 32) × ((length e.1 < 2 ^ 32) × All (λ b. (b.0 < 2 ^ 64) × (b.1 < 2 ^ 64)) e.1))
        m)
xids-Reads =
    vector-Reads
      (entry_marshal uint_marshal
        (vector_marshal (entry_marshal ulonglong_marshal ulonglong_marshal)))
      _
      (entry-Reads uint_marshal (vector_marshal (entry_marshal ulonglong_marshal ulonglong_marshal))
        _ _ uint-Reads
        (vector-Reads (entry_marshal ulonglong_marshal ulonglong_marshal) _
          (entry-Reads ulonglong_marshal ulonglong_marshal _ _ ulonglong-Reads ulonglong-Reads)))

append_nil : (a : Bytes) → a ++ [] ≡ a
append_nil [] = refl
append_nil (x ∷ a) = ap (λ (l : Bytes). x ∷ l) (append_nil a)

-- Three values that are written one after the other are read back.
module _ {A B C : Type 0} (ma : Marshal A) (mb : Marshal B) (mc : Marshal C) {GoodA : A → Type 0}
    {GoodB : B → Type 0} {GoodC : C → Type 0} (reads_a : Reads ma GoodA) (reads_b : Reads mb GoodB)
    (reads_c : Reads mc GoodC) where
  abbrev get_three : Unmarshall → A × B × C
  get_three u =
      let (a, u1) = ma.get u in let (b, u2) = mb.get u1 in let (c, u3) = mc.get u2 in (a, b, c)

  get_three-put :
      (a : A) (b : B) (c : C) (sz : ℕ)
      → GoodA a
      → GoodB b
      → GoodC c
      → length (ma.put a ++ (mb.put b ++ mc.put c)) ≤ sz
      → sz < 2 ^ 31
      → get_three (reading sz (ma.put a ++ (mb.put b ++ mc.put c))) ≡ (a, b, c)
  get_three-put a b c sz ga gb gc h k =
      let fits_b : length (mb.put b ++ mc.put c) ≤ sz =
        omega (arith, h, length-append (ma.put a) (mb.put b ++ mc.put c)) in
      let e = append_nil (mc.put c) in
      let fits_c : length (mc.put c ++ []) ≤ sz =
        omega (arith, fits_b, length-append (mb.put b) (mc.put c), ap length e) in
      let first = reads_a a (mb.put b ++ mc.put c) sz ga h k in
      let second = reads_b b (mc.put c) sz gb fits_b k in
      let third = ap (λ (l : Bytes). mc.get (reading sz l)) (sym e) ∙ reads_c c [] sz gc fits_c k in
      ap (λ (r : A × Unmarshall). (r.0, (mb.get r.1).0, (mc.get (mb.get r.1).1).0)) first
      ∙ ap (λ (r : B × Unmarshall). (a, r.0, (mc.get r.1).0)) second
      ∙ ap (λ (r : C × Unmarshall). (a, b, r.0)) third

-- What the other server writes to its maps is what was marshalled.
unmarshal-marshal :
    (s t : LockServer)
    → Fits s
    → unmarshal_state (marshal_state s) t ≡ record t {
      lock_client_list = insert_each s.lock_client_list t.lock_client_list;
      locks = insert_each s.locks t.locks;
      client_lock_id = write_clients s.client_lock_id t.client_lock_id;
    }
unfolding unmarshal_state marshal_state take_content
unmarshal-marshal s t (fc, fl, fx, size) =
    ap
      (λ (r : Map ℕ (List Bytes) × Map ℕ Bool × Map ℕ (Map ℕ ℕ)). record t {
        lock_client_list = insert_each r.0 t.lock_client_list;
        locks = insert_each r.1 t.locks;
        client_lock_id = write_clients r.2 t.client_lock_id;
      })
      (get_three-put clients_marshal locks_marshal xids_marshal clients-Reads locks-Reads xids-Reads
        s.lock_client_list s.locks s.client_lock_id (length (marshal_state s) + rpc_header_sz) fc fl
        fx (omega arith) size)

pub record OrderedMaps (s : LockServer) : Type 0 where
  pub lists_in_order : IsOrdered s.lock_client_list
  pub locks_in_order : IsOrdered s.locks
  pub xids_in_order : AreOrdered s.client_lock_id

-- A state transfer: when one server reads the state that another has marshalled, each entry of the
-- other server's maps takes the place of its own, an entry that only it has stays, and so does the
-- counter. The other server's numbers and sizes fit their integers, and its maps are in order.
pub unmarshal-marshal_state :
    (s t : LockServer)
    → Fits s
    → OrderedMaps s
    → let u = unmarshal_state (marshal_state s) t in
      ((j : ℕ)
        → lookup j u.lock_client_list
          ≡ override (lookup j s.lock_client_list) (lookup j t.lock_client_list))
      × ((j : ℕ) → lookup j u.locks ≡ override (lookup j s.locks) (lookup j t.locks))
      × ((c l : ℕ)
          → find_xid u.client_lock_id c l
            ≡ override (find_xid s.client_lock_id c l) (find_xid t.client_lock_id c l))
      × (u.nacquire ≡ t.nacquire)
unmarshal-marshal_state s t fits order =
    let e = unmarshal-marshal s t fits in
    (
      λ j.
          ap (λ (u : LockServer). lookup j u.lock_client_list) e
          ∙ lookup-insert_each s.lock_client_list t.lock_client_list j order.lists_in_order,
      λ j.
          ap (λ (u : LockServer). lookup j u.locks) e
          ∙ lookup-insert_each s.locks t.locks j order.locks_in_order,
      λ c l.
          ap (λ (u : LockServer). find_xid u.client_lock_id c l) e
          ∙ find_xid-write_clients s.client_lock_id t.client_lock_id c l order.xids_in_order,
      ap (λ (u : LockServer). u.nacquire) e,
    )
