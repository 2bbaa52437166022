-- ===== src/Locks/CachingClient/Exclusion.antt =====
-- That one thread of a client of lock_client_cache_rsm.cc holds a lock at a time, and only while
-- the client owns it.
use distributed_system_lab.Base.{
  ℕ, ◌≡◌, refl, sym, ap, ◌∙◌, inl, inr, true, false, arith, Bool-cases,
}
use distributed_system_lab.Base.Tests.{nat_key}
use distributed_system_lab.Base.Map.{lookup}
use distributed_system_lab.Locks.CachingClient.{
  is_none, is_retry, LockClient, next_xid, status, waits, sends, retry_handler, releaser_end,
}
use distributed_system_lab.Locks.CachingClient.Statuses.{
  status-set_status, begin-sends, begin-acquired, releaser-returns, Elsewhere-status, reply-granted,
  reply-retry, retry-sends, next_xid-status,
}
use distributed_system_lab.Locks.CachingClient.Threads.{
  Phase, outside, calling, waiting, holding, Threads, moved, Step, begins, takes, granted, put_off,
  calls_again, resumes, leaves, hands_back, handed_back, numbers, told, elsewhere, Reach, here,
  next, IsStart,
}
use distributed_system_lab.Locks.CachingClient.Phases.{
  busy, at_rest, Alone, AllIdle, Good, moved-alone, entered-alone, left-idle, moved-owns,
}

-- A step that leaves a lock with somebody, and the threads that are busy busy.
during-Good :
    (lid : ℕ) (s t : Threads)
    → Good lid s
    → at_rest (status t.client lid) ≡ false
    → Alone t.phase
    → (t.releasing ≡ true → AllIdle t.phase)
    → ((i : ℕ) → t.phase i ≡ holding → t.owned ≡ true)
    → Good lid t
during-Good lid s t g r alone apart owns = record {
  alone = alone;
  idle = λ k. absurd (ground (arith, r, k));
  resting = λ k. absurd (ground (arith, r, k));
  apart = apart;
  owns = owns;
  kept = λ k. absurd (ground (arith, r, ap at_rest k));
}

-- A step that changes neither the status of the lock nor a phase's being busy.
same-Good :
    (lid : ℕ) (s : Threads) (d : LockClient) (f : ℕ → Phase)
    → Good lid s
    → status d lid ≡ status s.client lid
    → Alone f
    → (AllIdle s.phase → AllIdle f)
    → ((i : ℕ) → f i ≡ holding → s.owned ≡ true)
    → Good lid (record s { client = d; phase = f })
same-Good lid s d f g e alone idle owns = record {
  alone = alone;
  idle = λ k. idle (g.idle (ap at_rest (sym e) ∙ k));
  resting = λ k. g.resting (ap at_rest (sym e) ∙ k);
  apart = λ k. idle (g.apart k);
  owns = owns;
  kept = λ k. g.kept (sym e ∙ k);
}

-- A busy thread that goes on to a phase in which it holds nothing.
goes_on-Good :
    (lid : ℕ) (s : Threads) (d : LockClient) (i : ℕ) (p : Phase)
    → Good lid s
    → busy (s.phase i) ≡ true
    → (p ≡ holding → ⊥)
    → status d lid ≡ status s.client lid
    → Good lid (record s { client = d; phase = moved s.phase i p })
goes_on-Good lid s d i p g b np e =
    same-Good lid s d (moved s.phase i p) g e (moved-alone s.phase i p g.alone b)
      (λ idle. absurd (ground (arith, b, idle i)))
      (moved-owns s.phase i p s.owned (λ k. absurd (np k)) g.owns)

Step-Good : (lid : ℕ) {s t : Threads} → Step lid s t → Good lid s → Good lid t
Step-Good lid {s} (begins i d p e) g =
    let (was, now) = begin-sends s.client d lid e in
    let rest = ap at_rest was in
    during-Good lid s _ g (ap at_rest now) (entered-alone s.phase i calling (g.idle rest))
      (λ k. absurd (ground (arith, k, g.resting rest)))
      (moved-owns s.phase i calling s.owned (λ k. absurd (ground (arith, k))) g.owns)
Step-Good lid {s} (takes i d p e) g =
    let (was, now) = begin-acquired s.client d lid e in
    let rest = ap at_rest was in
    during-Good lid s _ g (ap at_rest now) (entered-alone s.phase i holding (g.idle rest))
      (λ k. absurd (ground (arith, k, g.resting rest)))
      (moved-owns s.phase i holding s.owned (λ k. g.kept was) g.owns)
Step-Good lid {s} (granted i d p e) g =
    let b = ap busy p in
    during-Good lid s _ g (ap at_rest (reply-granted s.client d lid e))
      (moved-alone s.phase i holding g.alone b) (λ k. absurd (ground (arith, b, g.apart k i)))
      (λ j k. refl)
Step-Good lid {s} (put_off i d p e) g =
    goes_on-Good lid s d i waiting g (ap busy p) (λ k. ground (arith, k))
      (reply-retry s.client d lid waits e)
Step-Good lid {s} (calls_again i d p e) g =
    goes_on-Good lid s d i calling g (ap busy p) (λ k. ground (arith, k))
      (reply-retry s.client d lid sends e)
Step-Good lid {s} (resumes i d p e) g =
    goes_on-Good lid s d i calling g (ap busy p) (λ k. ground (arith, k))
      (retry-sends s.client d lid e)
Step-Good lid {s} (leaves i p) g =
    (let b = ap busy p in
      record {
        alone = moved-alone s.phase i outside g.alone b;
        idle = λ k. left-idle s.phase i g.alone b;
        resting = λ k. not_releasing b;
        apart = λ k. left-idle s.phase i g.alone b;
        owns = moved-owns s.phase i outside s.owned (λ k. absurd (ground (arith, k))) g.owns;
        kept = λ k. g.owns i p;
      })
  where
    not_releasing : busy (s.phase i) ≡ true → s.releasing ≡ false
    not_releasing b = elim (Bool-cases s.releasing) [
      | inr k ↦ k
      | inl k ↦ absurd (ground (arith, b, g.apart k i))
    ]
Step-Good lid {s} (hands_back d q e) g =
    let (was, now) = releaser-returns s.client d lid e in
    let idle = g.idle (ap at_rest was) in
    during-Good lid s _ g (ap at_rest now) g.alone (λ k. idle)
      (λ i k. absurd (ground (arith, ap busy k, idle i)))
Step-Good lid {s} (handed_back q) g = record {
  alone = g.alone;
  idle = λ k. g.apart q;
  resting = λ k. refl;
  apart = λ k. g.apart q;
  owns = g.owns;
  kept = λ k. absurd (ground (arith, k, gone));
}
  where
    gone : status (releaser_end s.client lid) lid ≡ is_none
    gone = unfold releaser_end in status-set_status s.client lid is_none
Step-Good lid {s} numbers g =
    same-Good lid s (next_xid s.client).0 s.phase g (next_xid-status s.client lid) g.alone
      (λ idle. idle) g.owns
Step-Good lid {s} told g = during-Good lid s _ g (ap at_rest now) g.alone g.apart g.owns
  where
    now : status (retry_handler s.client lid).0 lid ≡ is_retry
    now = unfold retry_handler in status-set_status s.client lid is_retry
Step-Good lid {s} (elsewhere k d ne o) g =
    same-Good lid s d s.phase g (Elsewhere-status s.client k lid d ne o) g.alone (λ idle. idle)
      g.owns

start-Good : (lid : ℕ) (s : Threads) → IsStart lid s → Good lid s
start-Good lid s h = record {
  alone = λ i j a b. absurd (ground (arith, a, ap busy (h.all_outside i)));
  idle = λ k i. ap busy (h.all_outside i);
  resting = λ k. h.no_rpc;
  apart = λ k i. ap busy (h.all_outside i);
  owns = λ i k. absurd (ground (arith, ap busy k, ap busy (h.all_outside i)));
  kept = λ k. absurd (ground (arith, k, unheld));
}
  where
    unheld : status s.client lid ≡ is_none
    unheld = unfold status lookup in ground (arith, h.empty)

Reach-Good : (lid : ℕ) {s t : Threads} → Good lid s → Reach lid s t → Good lid t
Reach-Good lid g here = g
Reach-Good lid g (next r x) = Step-Good lid x (Reach-Good lid g r)

-- In a new client, after any steps of its threads, of the releaser, of retry requests that may come
-- at any time, and of other locks, when only a thread that holds the lock releases it: no two
-- threads hold the lock, and while one does the server has granted it to the client, no
-- release was sent since, and none is on its way.
pub one_holder :
    (lid : ℕ) (s t : Threads) (i : ℕ)
    → IsStart lid s
    → Reach lid s t
    → t.phase i ≡ holding
    → ((j : ℕ) → t.phase j ≡ holding → i ≡ j) × (t.owned ≡ true) × (t.releasing ≡ false)
one_holder lid s t i h r p = (λ j q. g.alone i j (ap busy p) (ap busy q), g.owns i p, quiet)
  where
    g : Good lid t
    g = Reach-Good lid (start-Good lid s h) r

    quiet : t.releasing ≡ false
    quiet = elim (Bool-cases t.releasing) [
      | inr k ↦ k
      | inl k ↦ absurd (ground (arith, ap busy p, g.apart k i))
    ]
