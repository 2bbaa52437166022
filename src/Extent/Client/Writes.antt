-- ===== src/Extent/Client/Writes.antt =====
-- What the calls of extent_client.cc other than get do to the contents in the cache and at the
-- server.
use distributed_system_lab.Base.{
  ℕ, ◌%◌, ◌^◌, ◌≡◌, ◌≢◌, refl, sym, subst, inl, inr, true, none, some, length, if◌then◌else◌,
  nat_eq, arith, Bool-cases, Option-cases,
}
use distributed_system_lab.Base.Tests.{nat_key}
use distributed_system_lab.Base.Bytes.{Bytes}
use distributed_system_lab.Base.Map.{lookup, insert, erase, or_else, lookup-insert, lookup-erase}
use distributed_system_lab.Extent.{Attr, Status}
use distributed_system_lab.Extent.Server.{ExtentServer, no_attr}
use distributed_system_lab.Extent.Server
use distributed_system_lab.Extent.Server.Contents.{
  IsConsistent, put-IsConsistent, remove-IsConsistent,
}
use distributed_system_lab.Extent.Client.{
  Moment, ExtentClient, is_ok, call_getattr, call_put, call_remove, fill_attr, settled, getattr,
  put, remove, write_back, flush,
}
use distributed_system_lab.Extent.Client.Coherence.{view, IsCoherent}

getattr-known :
    (m : Moment) (c : ExtentClient) (s : ExtentServer) (id : ℕ) (attr a : Attr)
    → lookup id c.attributes ≡ some a
    → (getattr m c s id attr).0 ≡ record c { attributes = c.attributes }
unfolding getattr fill_attr
getattr-known m c s id attr a e = ground (arith, e)

getattr-asked :
    (m : Moment) (c : ExtentClient) (s : ExtentServer) (id : ℕ) (attr : Attr)
    → lookup id c.attributes ≡ none
    → (getattr m c s id attr).0
      ≡ settled
          (call_getattr m s id attr).0
          id
          (record c { attributes = insert id (call_getattr m s id attr).1 c.attributes })
unfolding getattr fill_attr
getattr-asked m c s id attr e = ground (arith, e)

-- The attributes that have come from the server are kept or, with all of the extent, dropped.
asked-view :
    (c : ExtentClient) (s : ExtentServer) (id : ℕ) (a : Attr) (r : Status)
    → lookup id c.attributes ≡ none
    → IsCoherent c s
    → IsCoherent (settled r id (record c { attributes = insert id a c.attributes })) s
      × ((j : ℕ)
          → view (settled r id (record c { attributes = insert id a c.attributes })) s j
            ≡ view c s j)
asked-view c s id a r e h = elim (Bool-cases (is_ok r)) [
  | inl k ↦ rw k (
    record {
      backed = λ j i. ground (arith, i, h.backed j, lookup-insert id j a c.attributes);
      server = h.server;
    },
    λ j. unfold view in refl,
  )
  | inr k ↦ rw k (
    record {
      backed = λ j i. ground (
        arith,
        i,
        h.backed j,
        lookup-insert id j a c.attributes,
        lookup-erase id j (insert id a c.attributes),
        lookup-erase id j c.contents,
      );
      server = h.server;
    },
    λ j. unfold view in ground (arith, lookup-erase id j c.contents, h.backed id e),
  )
]

-- getattr changes no content.
pub getattr-view :
    (m : Moment) (c : ExtentClient) (s : ExtentServer) (id : ℕ) (attr : Attr)
    → IsCoherent c s
    → IsCoherent (getattr m c s id attr).0 s
      × ((j : ℕ) → view (getattr m c s id attr).0 s j ≡ view c s j)
getattr-view m c s id attr h = elim (Option-cases (lookup id c.attributes)) [
  | inr (a, e) ↦
      subst (λ (d : ExtentClient). IsCoherent d s × ((j : ℕ) → view d s j ≡ view c s j))
        (sym (getattr-known m c s id attr a e))
        (record { backed = h.backed; server = h.server }, λ j. unfold view in refl)
  | inl e ↦
      subst (λ (d : ExtentClient). IsCoherent d s × ((j : ℕ) → view d s j ≡ view c s j))
        (sym (getattr-asked m c s id attr e)) (asked-view c s id _ _ e h)
]

-- put changes the content of its extent, and no other.
pub put-view :
    (m : Moment) (c : ExtentClient) (s : ExtentServer) (id : ℕ) (buf : Bytes)
    → IsCoherent c s
    → IsCoherent (put m c id buf).0 s
      × ((j : ℕ) → view (put m c id buf).0 s j ≡ (if nat_eq id j then some buf else view c s j))
unfolding put
put-view m c s id buf h = (
  record {
    backed = λ j i. ground (
      arith,
      i,
      h.backed j,
      lookup-insert id j stamped c.attributes,
      lookup-insert id j buf c.contents,
    );
    server = h.server;
  },
  λ j. unfold view in ground (arith, lookup-insert id j buf c.contents),
)
  where
    stamped : Attr
    stamped = record (or_else (lookup id c.attributes) no_attr) {
      mtime = m.now % 2 ^ 32;
      ctime = m.now % 2 ^ 32;
      size = length buf % 2 ^ 32;
    }

-- What flush leaves in the cache.
forgotten-backed :
    (c : ExtentClient) (id : ℕ)
    → ((j : ℕ) → lookup j c.attributes ≡ none → lookup j c.contents ≡ none)
    → (j : ℕ) → lookup j (erase id c.attributes) ≡ none
    → lookup j (erase id c.contents) ≡ none
forgotten-backed c id h j i =
    ground (arith, i, h j, lookup-erase id j c.attributes, lookup-erase id j c.contents)

server_put-contents :
    (s : ExtentServer) (id j : ℕ) (buf : Bytes) (now atime : ℕ)
    → lookup j (Server.put s id buf now atime).0.contents
      ≡ (if nat_eq id j then some buf else lookup j s.contents)
unfolding Server.put
server_put-contents s id j buf now atime = lookup-insert id j buf s.contents

server_remove-contents :
    (s : ExtentServer) (id j : ℕ)
    → lookup j (Server.remove s id).0.contents ≡ (if nat_eq id j then none else lookup j s.contents)
unfolding Server.remove
server_remove-contents s id j = ground (arith, lookup-erase id j s.contents)

-- What a write-back of an extent with its attributes in the cache leaves at the server.
write_back-view :
    (m : Moment) (c : ExtentClient) (s : ExtentServer) (id : ℕ)
    → m.up ≡ true
    → lookup id c.attributes ≢ none
    → IsConsistent s
    → IsConsistent (write_back m c s id).0
      × ((j : ℕ)
          → lookup j (write_back m c s id).0.contents
            ≡ (if nat_eq id j then view c s j else lookup j s.contents))
unfolding write_back
write_back-view m c s id u cached h = elim (Option-cases (lookup id c.attributes)) [
  | inl e ↦ absurd (cached e)
  | inr (a, e) ↦ elim (Option-cases (lookup id c.contents)) [
    | inl f ↦ rw (e, write_back) (rw (f, write_back) (h, λ j. unfold view in ground (arith, f)))
    | inr (buf, f) ↦
        rw (e, write_back)
          (rw (f, write_back)
            (unfold call_put in
              rw (u, call_put)
                (
                  put-IsConsistent s id buf m.now m.junk.atime h,
                  λ j.
                      unfold view in
                      ground (arith, f, server_put-contents s id j buf m.now m.junk.atime),
                )))
  ]
]

-- When the RPCs get through, flush of an extent whose attributes are cached moves its content to
-- the server and changes no content.
pub flush-view :
    (m : Moment) (c : ExtentClient) (s : ExtentServer) (id : ℕ)
    → m.up ≡ true
    → lookup id c.attributes ≢ none
    → IsCoherent c s
    → IsCoherent (flush m c s id).0 (flush m c s id).1
      × ((j : ℕ) → view (flush m c s id).0 (flush m c s id).1 j ≡ view c s j)
      × (lookup id (flush m c s id).1.contents ≡ view c s id)
flush-view m c s id u cached h =
    let w = write_back-view m c s id u cached h.server in
    unfold flush in
    (
      record { backed = forgotten-backed c id h.backed; server = w.0 },
      λ j. unfold view in ground (arith, w.1 j, lookup-erase id j c.contents),
      ground (arith, w.1 id),
    )

-- When they do, flush of an extent that is not cached removes it, so that remove and then flush
-- do, whatever the cache and the server hold.
pub remove-view :
    (m : Moment) (c : ExtentClient) (s : ExtentServer) (id : ℕ)
    → m.up ≡ true
    → IsCoherent c s
    → IsCoherent (flush m (remove c id).0 s id).0 (flush m (remove c id).0 s id).1
      × ((j : ℕ)
          → view (flush m (remove c id).0 s id).0 (flush m (remove c id).0 s id).1 j
            ≡ (if nat_eq id j then none else view c s j))
unfolding flush remove
remove-view m c s id u h =
    rw (asks, flush)
      (
        record {
          backed =
              forgotten-backed
                (record { contents = erase id c.contents; attributes = erase id c.attributes }) id
                (forgotten-backed c id h.backed);
          server = remove-IsConsistent s id h.server;
        },
        λ j.
            unfold view in
            ground (
              arith,
              server_remove-contents s id j,
              lookup-erase id j (erase id c.contents),
              lookup-erase id j c.contents,
            ),
      )
  where
    asks :
        write_back m
          (record { contents = erase id c.contents; attributes = erase id c.attributes })
          s
          id
        ≡ Server.remove s id
    asks = unfold write_back call_remove in ground (arith, u, lookup-erase id id c.attributes)
