-- ===== src/Yfs/Extents/Cache.antt =====
-- The extents of extent_client.cc, with the server behind it, while its RPCs get through.
use distributed_system_lab.Base.{ℕ, ◌≡◌, ◌≢◌, refl, true, arith}
use distributed_system_lab.Base.Tests.{nat_key}
use distributed_system_lab.Base.Map.{lookup-erase}
use distributed_system_lab.Extent.Client.{Moment, get, getattr, put, remove}
use distributed_system_lab.Extent.Client.View.{get-Reads}
use distributed_system_lab.Extent.Client.Coherence.{view, IsCoherent}
use distributed_system_lab.Extent.Client.Writes.{put-view}
use distributed_system_lab.Extent.Client.Refinement.{Session}
use distributed_system_lab.Yfs.Extents.{Extents, ExtentLaws}

abbrev pub cache : Moment → Extents Session
cache m = record {
  get = λ s id buf.
      (let (c, t, ret, b) = get m s.client s.server id buf in
        (record { client = c; server = t }, ret, b));
  getattr = λ s id attr.
      (let (c, ret, a) = getattr m s.client s.server id attr in (record s { client = c }, ret, a));
  put = λ s id buf. (let (c, ret) = put m s.client id buf in (record s { client = c }, ret));
  remove = λ s id. (let (c, ret) = remove s.client id in (record s { client = c }, ret));
}

pub removed-IsCoherent :
    (s : Session) (id : ℕ)
    → IsCoherent s.client s.server
    → IsCoherent (remove s.client id).0 s.server
unfolding remove
removed-IsCoherent s id h = record {
  backed = λ j i. ground (
    arith,
    i,
    h.backed j,
    lookup-erase id j s.client.attributes,
    lookup-erase id j s.client.contents,
  );
  server = h.server;
}

pub removed-view :
    (s : Session) (id j : ℕ)
    → id ≢ j
    → view (remove s.client id).0 s.server j ≡ view s.client s.server j
unfolding remove view
removed-view s id j ne = ground (arith, lookup-erase id j s.client.contents)

unfoldable pub cache-ExtentLaws : (m : Moment) → m.up ≡ true → ExtentLaws (cache m)
unfolding put remove view
cache-ExtentLaws m u = record {
  IsGood = λ s. IsCoherent s.client s.server;
  content = λ s id. view s.client s.server id;
  get-IsGood = λ s id buf h. (get-Reads m s.client s.server id buf h).coherent;
  get-content = λ s id buf j h. (get-Reads m s.client s.server id buf h).same j;
  get-Answers = λ s id buf h. (get-Reads m s.client s.server id buf h).answers u;
  put-IsGood = λ s id buf h. (put-view m s.client s.server id buf h).0;
  put_ok = λ s id buf. refl;
  put-content = λ s id buf j h. (put-view m s.client s.server id buf h).1 j;
  remove-IsGood = λ s id h. removed-IsCoherent s id h;
  remove_ok = λ s id. refl;
  remove-content = λ s id j h ne. removed-view s id j ne;
}
