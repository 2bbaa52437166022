-- ===== src/Paxos/Acceptor/Restart.antt =====
-- The constructor of the acceptor of paxos.cc on the file that an earlier life has left.
use distributed_system_lab.Base.{
  ◌≤◌, ◌≡◌, refl, subst, ◌∙◌, inl, inr, Bool, some, List, [], ◌∷◌, arith, All, nat_eq, ◌&&◌,
  Bool-cases, ap,
}
use distributed_system_lab.Base.Bytes.{Bytes}
use distributed_system_lab.Base.Map.{lookup-insert}
use distributed_system_lab.Base.Tests.{nat_key}
use distributed_system_lab.Paxos.State.{Acceptor}
use distributed_system_lab.Paxos.Log.{
  LogRecord, done, propseen, accepted, loaded, append_log, apply, logread,
}
use distributed_system_lab.Paxos.Log.RoundTrip.{
  IsLine, IsWritable, log_text, replay, logread-log_text,
}
use distributed_system_lab.Paxos.Acceptor.{blank, first_view, acceptor}
use distributed_system_lab.Paxos.Acceptor.Calls.{Call, run}
use distributed_system_lab.Paxos.Acceptor.Promise.{run-Advances}
use distributed_system_lab.Paxos.Acceptor.Recovery.{
  SameDurable, SameDurable-refl, SameDurable-trans, Durable, Durable-append, SameDurable-commit,
  IsWritableCall, run-Durable,
}

apply-SameDurable :
    (s t : Acceptor) (r : LogRecord) → SameDurable s t → SameDurable (apply s r) (apply t r)
unfolding apply
apply-SameDurable s t (done i v) h = record {
  n_h = (refl, inl refl);
  n_a = (refl, inl refl);
  v_a = refl;
  instance_h = refl;
  values =
      λ j. ground (arith, lookup-insert i j v s.values, lookup-insert i j v t.values, h.values j);
}
apply-SameDurable s t (propseen p) h = record {
  n_h = (refl, inr refl);
  n_a = h.n_a;
  v_a = h.v_a;
  instance_h = h.instance_h;
  values = h.values;
}
apply-SameDurable s t (accepted p v) h = record {
  n_h = h.n_h;
  n_a = (refl, inr refl);
  v_a = refl;
  instance_h = h.instance_h;
  values = h.values;
}

replay-SameDurable :
    (s t : Acceptor) (rs : List LogRecord)
    → SameDurable s t
    → SameDurable (replay s rs) (replay t rs)
unfolding replay
replay-SameDurable s t [] h = h
replay-SameDurable s t (r ∷ rs) h =
    replay-SameDurable (apply s r) (apply t r) rs (apply-SameDurable s t r h)

-- A blank acceptor has the same durable state whatever its file holds.
blank-SameDurable : (c : Bool) (me f g : Bytes) → SameDurable (blank c me f) (blank c me g)
unfolding blank
blank-SameDurable c me f g = record {
  n_h = (refl, inr refl);
  n_a = (refl, inr refl);
  v_a = refl;
  instance_h = refl;
  values = λ i. refl;
}

blank-Durable : (c : Bool) (me : Bytes) → Durable (blank c me []) (blank c me [])
unfolding blank log_text replay
blank-Durable c me = record {
  records = [];
  text = refl;
  writable = tt;
  same = SameDurable-refl (blank c me []);
  line = tt;
}

first_view-Durable :
    (b s : Acceptor) (first : Bool) (v : Bytes)
    → IsLine v
    → s.n_h.n ≡ 0
    → s.n_a.n ≡ 0
    → s.v_a ≡ []
    → Durable b s
    → Durable b (first_view first v s)
unfolding first_view append_log
first_view-Durable b s first v l p q r d = elim (Bool-cases (nat_eq s.instance_h 0 && first)) [
  | inr f ↦ rw f d
  | inl f ↦
      Durable-append b s _ (done 1 v) (omega arith, l) (ground arith) (ground arith)
        (λ x same.
          SameDurable-commit x s (first_view first v s) 1 v same (ground arith) (ground arith)
            (ground arith) (ground arith) (ground arith))
        d
]

-- On an empty file the constructor starts blank, and the first node commits the first view.
acceptor-empty :
    (c first : Bool) (me v : Bytes)
    → acceptor c first me v [] ≡ loaded (first_view first v (blank c me []))
unfolding acceptor logread log_text
acceptor-empty c first me v = ground (arith, logread-log_text (blank c me []) [] tt refl)

-- The first view is not written again.
first_view_again :
    (first : Bool) (v : Bytes) (s t : Acceptor)
    → (first_view first v s).instance_h ≤ t.instance_h
    → first_view first v t ≡ t
unfolding first_view
first_view_again first v s t h = ground arith

acceptor_of_text :
    (c first : Bool) (me v f : Bytes) (rs : List LogRecord)
    → All IsWritable rs
    → f ≡ log_text rs
    → acceptor c first me v f ≡ loaded (first_view first v (replay (blank c me f) rs))
unfolding acceptor
acceptor_of_text c first me v f rs w e =
    ground (arith, logread-log_text (blank c me f) rs w (unfold blank in e))

-- The file of a durable state rebuilds it, if the first view is there already.
restart-Durable :
    (c first : Bool) (me v : Bytes) (t : Acceptor)
    → Durable (blank c me []) t
    → (first_view first v (blank c me [])).instance_h ≤ t.instance_h
    → (u : Acceptor) × (acceptor c first me v t.file ≡ loaded u) × SameDurable u t
restart-Durable c first me v t d h =
    let u = replay (blank c me t.file) d.records in
    let carried : SameDurable u (replay (blank c me []) d.records) =
      replay-SameDurable _ _ d.records (blank-SameDurable c me t.file []) in
    let e : u.instance_h ≡ t.instance_h = carried.instance_h ∙ d.same.instance_h in
    (
      u,
      acceptor_of_text c first me v t.file d.records d.writable d.text
          ∙ ap loaded (first_view_again first v (blank c me []) u (omega arith)),
      SameDurable-trans u _ t carried d.same,
    )

-- An acceptor that started on an empty file, served any calls whose text can be written, and then
-- crashed, starts again on its file with the same arguments: the constructor reads the whole file
-- without a fault, and the new acceptor has the same instance, the same value for every instance,
-- the same accepted value, and the same proposals seen and accepted (but for the node name of a
-- proposal with the number 0).
pub restart :
    (c first : Bool) (me v : Bytes) (s t : Acceptor) (cs : List Call)
    → IsLine v
    → acceptor c first me v [] ≡ loaded s
    → All IsWritableCall cs
    → run s cs ≡ some t
    → (u : Acceptor) × (acceptor c first me v t.file ≡ loaded u) × SameDurable u t
restart c first me v s t cs l start w e =
    let started : first_view first v (blank c me []) ≡ s =
      ground (arith, acceptor-empty c first me v) in
    restart-Durable c first me v t
      (run-Durable (blank c me []) s t cs w e (
        subst (Durable (blank c me [])) started (
          first_view-Durable (blank c me []) (blank c me []) first v l (unfold blank in refl)
            (unfold blank in refl) (unfold blank in refl) (blank-Durable c me))))
      (ground (arith, run-Advances s t cs e, started))
