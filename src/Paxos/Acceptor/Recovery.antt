-- ===== src/Paxos/Acceptor/Recovery.antt =====
-- A crash and a restart: the log of log.cc carries the state of the acceptor of paxos.cc.
use mathlib.Core.List.{append-nil}
use distributed_system_lab.Base.{
  eq_of_some-eq, ℕ, ◌+◌, ◌%◌, ◌^◌, ◌<◌, ◌≡◌, refl, ap, subst, sym, ◌∙◌, ◌⊎◌, inl, inr, some, List,
  [], ◌∷◌, ◌++◌, arith, Option-cases, Bool-cases, All, All-append, ltb, nat_eq, leb, ◌==◌,
}
use distributed_system_lab.Base.Bytes.{Bytes, bytes_key}
use distributed_system_lab.Base.Map.{insert, index, lookup-insert, or_else-lookup-index}
use distributed_system_lab.Base.Tests.{nat_key}
use distributed_system_lab.Paxos.Proposal.{PropT, prop_gt, prop_ge}
use distributed_system_lab.Paxos.State.{Acceptor}
use distributed_system_lab.Paxos.Log.{
  LogRecord, done, propseen, accepted, log_line, append_log, apply,
}
use distributed_system_lab.Paxos.Log.RoundTrip.{
  IsWord, IsLine, IsWritable, log_text, replay, log_text-append, replay-append,
}
use distributed_system_lab.Paxos.Acceptor.{
  PrepareArg, PrepareRes, AcceptArg, DecideArg, preparereq, acceptreq, decidereq, commit_wo, commit,
  value,
}
use distributed_system_lab.Paxos.Acceptor.Calls.{
  Call, prepare, accept, decide, commits, reads, step, run,
}
use distributed_system_lab.Paxos.Acceptor.Commits.{value_of}

-- Equal proposals, but for the node of a proposal whose number is 0: logread resets the number
-- alone at a `done` record, and commit_wo both.
abbrev pub SameProp : PropT → PropT → Type 0
SameProp p q = (p.n ≡ q.n) × ((p.n ≡ 0) ⊎ (p.m ≡ q.m))

-- The durable state of two acceptors is the same.
pub record SameDurable (s t : Acceptor) : Type 0 where
  pub n_h : SameProp s.n_h t.n_h
  pub n_a : SameProp s.n_a t.n_a
  pub v_a : s.v_a ≡ t.v_a
  pub instance_h : s.instance_h ≡ t.instance_h
  pub values : (i : ℕ) → value_of s i ≡ value_of t i

pub SameDurable-trans : (s t u : Acceptor) → SameDurable s t → SameDurable t u → SameDurable s u
SameDurable-trans s t u h k = record {
  n_h = ground (arith, h.n_h, k.n_h);
  n_a = ground (arith, h.n_a, k.n_a);
  v_a = h.v_a ∙ k.v_a;
  instance_h = h.instance_h ∙ k.instance_h;
  values = λ i. h.values i ∙ k.values i;
}

-- The file of `s` consists of written records, and what they rebuild from `b` is the state.
pub record Durable (b s : Acceptor) : Type 0 where
  pub records : List LogRecord
  pub text : s.file ≡ log_text records
  pub writable : All IsWritable records
  pub same : SameDurable (replay b records) s
  pub line : IsLine s.v_a

log_text-snoc :
    (rs : List LogRecord) (r : LogRecord) → log_text (rs ++ r ∷ []) ≡ log_text rs ++ log_line r
unfolding log_text
log_text-snoc rs r =
    log_text-append rs (r ∷ []) ∙ ap (λ (t : Bytes). log_text rs ++ t) (append-nil (log_line r))

replay-snoc :
    (b : Acceptor) (rs : List LogRecord) (r : LogRecord)
    → replay b (rs ++ r ∷ []) ≡ apply (replay b rs) r
unfolding replay
replay-snoc b rs r = replay-append b rs (r ∷ [])

pub Durable-append :
    (b s t : Acceptor) (r : LogRecord)
    → IsWritable r
    → IsLine t.v_a
    → t.file ≡ s.file ++ log_line r
    → ((x : Acceptor) → SameDurable x s → SameDurable (apply x r) t)
    → Durable b s
    → Durable b t
Durable-append b s t r w l e h d = record {
  records = d.records ++ r ∷ [];
  text = e ∙ (ap (λ (x : Bytes). x ++ log_line r) d.text ∙ sym (log_text-snoc d.records r));
  writable = All-append IsWritable d.records (r ∷ []) d.writable (w, tt);
  same = rw (replay-snoc b d.records r) (h (replay b d.records) d.same);
  line = l;
}

-- A call that writes nothing and changes no durable member.
Durable-same : (b s t : Acceptor) → t.file ≡ s.file → SameDurable s t → Durable b s → Durable b t
Durable-same b s t e h d = record {
  records = d.records;
  text = e ∙ d.text;
  writable = d.writable;
  same = SameDurable-trans _ s t d.same h;
  line = subst IsLine h.v_a d.line;
}

pub SameDurable-refl : (s : Acceptor) → SameDurable s s
SameDurable-refl s = record {
  n_h = (refl, inr refl);
  n_a = (refl, inr refl);
  v_a = refl;
  instance_h = refl;
  values = λ i. refl;
}

-- The read values[i] leaves the durable state alone.
index-SameDurable :
    (s : Acceptor) (i : ℕ) → SameDurable s (record s { values = (index i [] s.values).1 })
index-SameDurable s i = record {
  n_h = (refl, inr refl);
  n_a = (refl, inr refl);
  v_a = refl;
  instance_h = refl;
  values = λ j. sym (or_else-lookup-index i j [] s.values);
}

-- What the requests must hold for their text to be read back.
abbrev pub IsWritableCall : Call → Type 0
IsWritableCall (prepare a r) = (a.n.n < 2 ^ 32) × IsWord a.n.m
IsWritableCall (accept a) = (a.n.n < 2 ^ 32) × IsWord a.n.m × IsLine a.v
IsWritableCall (decide a) = Unit {0}
IsWritableCall (commits i v) = (i < 2 ^ 32) × IsLine v
IsWritableCall (reads i) = Unit {0}

preparereq-Durable :
    (b s : Acceptor) (a : PrepareArg) (r : PrepareRes)
    → a.n.n < 2 ^ 32
    → IsWord a.n.m
    → Durable b s
    → Durable b (preparereq s a r).0
unfolding preparereq append_log
preparereq-Durable b s a r h w d = elim (Bool-cases (leb a.instance_no s.instance_h)) [
  | inl e ↦ rw e (Durable-same b s _ refl (index-SameDurable s a.instance_no) d)
  | inr e ↦ elim (Bool-cases (prop_gt a.n s.n_h)) [
    | inr f ↦ rw (e, f) d
    | inl f ↦
        rw (e, f)
          (Durable-append b s _ (propseen a.n) (h, w) d.line refl
            (λ x same.
              unfold apply in
              record {
                n_h = (refl, inr refl);
                n_a = same.n_a;
                v_a = same.v_a;
                instance_h = same.instance_h;
                values = same.values;
              })
            d)
  ]
]

acceptreq-Durable :
    (b s : Acceptor) (a : AcceptArg)
    → a.n.n < 2 ^ 32
    → IsWord a.n.m
    → IsLine a.v
    → Durable b s
    → Durable b (acceptreq s a).0
unfolding acceptreq append_log
acceptreq-Durable b s a h w l d = elim (Bool-cases (prop_ge a.n s.n_h)) [
  | inr f ↦ rw f d
  | inl f ↦ rw f (
      Durable-append b s _ (accepted a.n a.v) (h, w, l) l refl
        (λ x same.
          unfold apply in
          record {
            n_h = same.n_h;
            n_a = (refl, inr refl);
            v_a = refl;
            instance_h = same.instance_h;
            values = same.values;
          })
        d)
]

-- The members after a commit, whether or not the layer above is told.
pub SameDurable-commit :
    (x s t : Acceptor) (i : ℕ) (v : Bytes)
    → SameDurable x s
    → t.n_h.n ≡ 0
    → t.n_a.n ≡ 0
    → t.v_a ≡ []
    → t.instance_h ≡ i
    → t.values ≡ insert i v s.values
    → SameDurable (apply x (done i v)) t
unfolding apply
SameDurable-commit x s t i v same p q r o w = record {
  n_h = (sym p, inl refl);
  n_a = (sym q, inl refl);
  v_a = sym r;
  instance_h = sym o;
  values = λ j.
      ground (arith, w, lookup-insert i j v x.values, lookup-insert i j v s.values, same.values j);
}

pub commit_wo-Durable :
    (b s : Acceptor) (i : ℕ) (v : Bytes)
    → i < 2 ^ 32
    → IsLine v
    → Durable b s
    → Durable b (commit_wo s i v)
unfolding commit_wo append_log
commit_wo-Durable b s i v h l d = elim (Bool-cases (ltb s.instance_h i)) [
  | inr f ↦ rw f d
  | inl f ↦
      Durable-append b s _ (done i v) (h, l) (ground arith) (ground arith)
        (λ x same.
          SameDurable-commit x s (commit_wo s i v) i v same (ground arith) (ground arith)
            (ground arith) (ground arith) (ground arith))
        d
]

decidereq-Durable :
    (b s t : Acceptor) (a : DecideArg) → decidereq s a ≡ some t → Durable b s → Durable b t
unfolding decidereq
decidereq-Durable b s t a e d =
    elim (Bool-cases (nat_eq a.instance_no ((s.instance_h + 1) % 2 ^ 32))) [
      | inl f ↦ elim (Bool-cases (s.v_a == a.v)) [
        | inl g ↦
            subst (Durable b) (eq_of_some-eq (ground arith))
              (commit_wo-Durable b s a.instance_no s.v_a (ground arith) d.line d)
        | inr g ↦ absurd (ground arith)
      ]
      | inr f ↦ subst (Durable b) (ground arith) d
    ]

step-Durable :
    (b s t : Acceptor) (c : Call) → IsWritableCall c → step s c ≡ some t → Durable b s → Durable b t
unfolding step commit value
step-Durable b s t (prepare a r) w e d =
    subst (Durable b) (eq_of_some-eq e) (preparereq-Durable b s a r w.0 w.1 d)
step-Durable b s t (accept a) w e d =
    subst (Durable b) (eq_of_some-eq e) (acceptreq-Durable b s a w.0 w.1 w.2 d)
step-Durable b s t (decide a) w e d = decidereq-Durable b s t a e d
step-Durable b s t (commits i v) w e d =
    subst (Durable b) (eq_of_some-eq e) (commit_wo-Durable b s i v w.0 w.1 d)
step-Durable b s t (reads i) w e d =
    subst (Durable b) (eq_of_some-eq e) (Durable-same b s _ refl (index-SameDurable s i) d)

pub run-Durable :
    (b s t : Acceptor) (cs : List Call)
    → All IsWritableCall cs
    → run s cs ≡ some t
    → Durable b s
    → Durable b t
unfolding run
run-Durable b s t [] w e d = subst (Durable b) (eq_of_some-eq e) d
run-Durable b s t (c ∷ cs) w e d = elim (Option-cases (step s c)) [
  | inl f ↦ absurd (ground arith)
  | inr (u, f) ↦ run-Durable b u t cs w.1 (ground arith) (step-Durable b s u c w.0 f d)
]
