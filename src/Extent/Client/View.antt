-- ===== src/Extent/Client/View.antt =====
-- What get of extent_client.cc makes of the contents in the cache and at the server.
use distributed_system_lab.Base.{
  ℕ, ◌%◌, ◌^◌, ◌≡◌, ◌≢◌, refl, sym, subst, inl, inr, Bool, true, false, Option, none, some, arith,
  Option-cases,
}
use distributed_system_lab.Base.Tests.{nat_key}
use distributed_system_lab.Base.Bytes.{Bytes}
use distributed_system_lab.Base.Map.{
  Map, lookup, insert, or_else, lookup-insert, lookup-erase, lookup-insert_self,
}
use distributed_system_lab.Extent.{Attr, Status, ok, ioerr}
use distributed_system_lab.Extent.Server.{ExtentServer, no_attr}
use distributed_system_lab.Extent.Server
use distributed_system_lab.Extent.Server.Contents.{IsConsistent}
use distributed_system_lab.Extent.Client.{
  Moment, ExtentClient, is_ok, call_getattr, call_get, fill_attr, fill_content, settled, get,
}
use distributed_system_lab.Extent.Client.Coherence.{
  view, IsCoherent, call_get-contents, call_get-IsConsistent,
}

-- The extent is in the cache.
get-cached :
    (m : Moment) (c : ExtentClient) (s : ExtentServer) (id : ℕ) (buf b : Bytes) (a : Attr)
    → lookup id c.contents ≡ some b
    → lookup id c.attributes ≡ some a
    → get m c s id buf ≡ (
      record {
        contents = c.contents;
        attributes = insert id (record a { atime = m.now % 2 ^ 32 }) c.attributes;
      },
      s,
      ok,
      b,
    )
unfolding get fill_attr fill_content
get-cached m c s id buf b a e f = ground (arith, e, f)

-- Its content is not: what the server answers is the status.
get-asked :
    (m : Moment) (c : ExtentClient) (s t : ExtentServer) (id : ℕ) (buf b : Bytes) (r : Status)
    → lookup id c.contents ≡ none
    → call_get m s id buf ≡ (t, r, b)
    → (filled : Map ℕ Attr) × (get m c s id buf ≡ (
      settled r id (record {
        contents = insert id b c.contents;
        attributes =
            insert id
              (record (or_else (lookup id filled) no_attr) { atime = m.now % 2 ^ 32 })
              filled;
      }),
      t,
      r,
      b,
    ))
      × ((j : ℕ) → id ≢ j → lookup j filled ≡ lookup j c.attributes)
unfolding get fill_content
get-asked m c s t id buf b r e f = (
  (fill_attr m s c.attributes id m.junk).1,
  ground (arith, e, f, lookup-insert_self id b c.contents),
  λ j ne.
      unfold fill_attr in
      elim (Option-cases (lookup id c.attributes)) [
        | inl k ↦
            rw (k, fill_attr)
              (ground (arith, lookup-insert id j (call_getattr m s id m.junk).1 c.attributes))
        | inr (a, k) ↦ rw (k, fill_attr) refl
      ],
)

-- What get answers for the content that the cache and the server hold.
abbrev pub Answers : Option Bytes → Status → Bytes → Type 0
Answers none ret buf = ret ≡ ioerr
Answers (some b) ret buf = (ret ≡ ok) × (buf ≡ b)

-- get changes no content and answers what is held.
pub record Reads (m : Moment) (c : ExtentClient) (s : ExtentServer) (id : ℕ)
    (t : ExtentClient × ExtentServer × Status × Bytes) : Type 0 where
  pub coherent : IsCoherent t.0 t.1
  pub same : (j : ℕ) → view t.0 t.1 j ≡ view c s j
  pub answers : m.up ≡ true → Answers (view c s id) t.2 t.3

cached-Reads :
    (m : Moment) (c : ExtentClient) (s : ExtentServer) (id : ℕ) (b : Bytes) (a : Attr)
    → lookup id c.contents ≡ some b
    → IsCoherent c s
    → Reads m c s id
        (record { contents = c.contents; attributes = insert id a c.attributes }, s, ok, b)
cached-Reads m c s id b a e h = record {
  coherent = record {
    backed = λ j k. h.backed j (ground (arith, k, lookup-insert id j a c.attributes));
    server = h.server;
  };
  same = λ j. unfold view in refl;
  answers = λ u. unfold view in rw e (refl, refl);
}

-- A call of the server's get, at an extent that is not cached.
asked-Answers :
    (m : Moment) (s t : ExtentServer) (id : ℕ) (buf b : Bytes) (r : Status)
    → call_get m s id buf ≡ (t, r, b)
    → m.up ≡ true
    → Answers (lookup id s.contents) r b
unfolding call_get Server.get
asked-Answers m s t id buf b r e u = elim (Option-cases (lookup id s.contents)) [
  | inl k ↦ rw k (ground (arith, e, k))
  | inr (x, k) ↦ rw k (ground (arith, e, k), ground (arith, e, k))
]

asked-status :
    (m : Moment) (s t : ExtentServer) (id : ℕ) (buf b : Bytes) (r : Status)
    → call_get m s id buf ≡ (t, r, b)
    → is_ok r ≡ true
    → lookup id s.contents ≡ some b
unfolding call_get Server.get
asked-status m s t id buf b r e u = ground (arith, e, u)

asked-server :
    (m : Moment) (s t : ExtentServer) (id : ℕ) (buf b : Bytes) (r : Status)
    → call_get m s id buf ≡ (t, r, b)
    → IsConsistent s
    → (t.contents ≡ s.contents) × IsConsistent t
asked-server m s t id buf b r e h = (
  subst (λ (u : ExtentServer × Status × Bytes). u.0.contents ≡ s.contents) e
      (call_get-contents m s id buf),
  subst (λ (u : ExtentServer × Status × Bytes). IsConsistent u.0) e
      (call_get-IsConsistent m s id buf h),
)

asked-Reads :
    (m : Moment) (c : ExtentClient) (s t : ExtentServer) (id : ℕ) (buf b : Bytes) (r : Status)
    (a : Attr) (filled : Map ℕ Attr)
    → lookup id c.contents ≡ none
    → call_get m s id buf ≡ (t, r, b)
    → ((j : ℕ) → id ≢ j → lookup j filled ≡ lookup j c.attributes)
    → IsCoherent c s
    → Reads m c s id (
      settled r id (record { contents = insert id b c.contents; attributes = insert id a filled }),
      t,
      r,
      b,
    )
asked-Reads m c s t id buf b r a filled e f others h = go (is_ok r) refl
  where
    served : (t.contents ≡ s.contents) × IsConsistent t
    served = asked-server m s t id buf b r f h.server

    answer : m.up ≡ true → Answers (view c s id) r b
    answer u = unfold view in rw e (asked-Answers m s t id buf b r f u)

    go :
        (k : Bool)
        → is_ok r ≡ k
        → Reads m c s id (
          settled r id
              (record { contents = insert id b c.contents; attributes = insert id a filled }),
          t,
          r,
          b,
        )
    go true k = rw k (record {
      coherent = record {
        backed = λ j i. ground (
          arith,
          i,
          h.backed j,
          others j,
          lookup-insert id j a filled,
          lookup-insert id j b c.contents,
        );
        server = served.1;
      };
      same = λ j.
          unfold view in
          ground (
            arith,
            served.0,
            e,
            asked-status m s t id buf b r f k,
            lookup-insert id j b c.contents,
          );
      answers = answer;
    })
    go false k = rw k (record {
      coherent = record {
        backed = λ j i. ground (
          arith,
          i,
          h.backed j,
          others j,
          lookup-insert id j a filled,
          lookup-insert id j b c.contents,
          lookup-erase id j (insert id a filled),
          lookup-erase id j (insert id b c.contents),
        );
        server = served.1;
      };
      same = λ j.
          unfold view in
          ground (
            arith,
            served.0,
            e,
            lookup-insert id j b c.contents,
            lookup-erase id j (insert id b c.contents),
          );
      answers = answer;
    })

pub get-Reads :
    (m : Moment) (c : ExtentClient) (s : ExtentServer) (id : ℕ) (buf : Bytes)
    → IsCoherent c s
    → Reads m c s id (get m c s id buf)
get-Reads m c s id buf h = elim (Option-cases (lookup id c.contents)) [
  | inl e ↦
      (let (filled, same, others) = get-asked m c s _ id buf _ _ e refl in
        subst (Reads m c s id) (sym same) (asked-Reads m c s _ id buf _ _ _ filled e refl others h))
  | inr (b, e) ↦ elim (Option-cases (lookup id c.attributes)) [
    | inl f ↦ absurd (ground (arith, e, h.backed id f))
    | inr (a, f) ↦
        subst (Reads m c s id) (sym (get-cached m c s id buf b a e f))
          (cached-Reads m c s id b _ e h)
  ]
]
