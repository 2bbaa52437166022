-- ===== src/Tests/Paxos.antt =====
-- paxos.cc and log.cc at concrete inputs.
use distributed_system_lab.Base.{ℕ, ◌≡◌, refl, true, false, some, List, [], ◌∷◌, arith}
use distributed_system_lab.Base.Bytes.{Bytes, bytes, bytes_eq, bytes_lt, bytes_key}
use distributed_system_lab.Base.Map.{lookup, insert, index}
use distributed_system_lab.Paxos.Proposal.{PropT, prop_gt, prop_ge}
use distributed_system_lab.Paxos.State.{Acceptor}
use distributed_system_lab.Paxos.Log.{loaded, logread, log_line, append_log, read_word}
use distributed_system_lab.Paxos.Log.Numbers.{put_unsigned, is_space, skip_space}
use distributed_system_lab.Paxos.Log.RoundTrip.{IsWord, IsLine}
use distributed_system_lab.Paxos.Acceptor.{
  PrepareArg, PrepareRes, AcceptArg, zero_prop, blank, first_view, acceptor, preparereq, acceptreq,
  decidereq, commit_wo, value,
}
use distributed_system_lab.Paxos.Acceptor.Calls.{Call, prepare, accept, decide, reads, step, run}
use distributed_system_lab.Paxos.Acceptor.Promise.{promise_kept}
use distributed_system_lab.Paxos.Acceptor.Commits.{Keeps, run-Keeps}
use distributed_system_lab.Paxos.Acceptor.Recovery.{SameDurable}
use distributed_system_lab.Paxos.Acceptor.Restart.{restart}
use distributed_system_lab.Paxos.Acceptor.Stale.{late_accept, accept_lowers}

abbrev me : Bytes
me = bytes "5001"

abbrev other : Bytes
other = bytes "5002"

abbrev view_one : Bytes
view_one = bytes "5001 "

abbrev view_two : Bytes
view_two = bytes "5001 5002 "

-- The first node, after its first start.
abbrev first_node : Acceptor
first_node = record {
  me = me;
  has_cfg = true;
  n_h = zero_prop me;
  n_a = zero_prop me;
  v_a = [];
  instance_h = 1;
  values = (1, view_one) ∷ [];
  file = bytes "done 1 5001 \n";
  upcalls = [];
}

first_start : acceptor true true me view_one [] ≡ loaded first_node
unfolding acceptor blank first_view logread read_word skip_space insert log_line put_unsigned
first_start = refl

abbrev prop_at : ℕ → Bytes → PropT
prop_at n m = record { n = n; m = m }

abbrev no_reply : PrepareRes
no_reply = record { oldinstance = false; accept = false; n_a = prop_at 0 []; v_a = [] }

abbrev prepare_two : PrepareArg
prepare_two = record { instance_no = 2; n = prop_at 1 me }

abbrev accept_two : AcceptArg
accept_two = record { instance_no = 2; n = prop_at 1 me; v = view_two }

abbrev calls_two : List Call
calls_two =
    prepare prepare_two no_reply
    ∷ accept accept_two
    ∷ decide (record { instance_no = 2; v = view_two })
    ∷ prepare (record { instance_no = 3; n = prop_at 4 other }) no_reply
    ∷ []

-- What the four calls leave.
abbrev second_view : Acceptor
second_view = record {
  me = me;
  has_cfg = true;
  n_h = prop_at 4 other;
  n_a = zero_prop me;
  v_a = [];
  instance_h = 2;
  values = (1, view_one) ∷ (2, view_two) ∷ [];
  file =
      bytes
        "done 1 5001 \npropseen 1 5001\naccepted 1 5001 5001 5002 \ndone 2 5001 5002 \npropseen 4 5002\n";
  upcalls = (2, view_two) ∷ [];
}

served : run first_node calls_two ≡ some second_view
unfolding run step preparereq acceptreq decidereq commit_wo append_log log_line put_unsigned insert
    prop_gt prop_ge bytes_eq bytes_lt
served = refl

me-IsWord : IsWord me
me-IsWord = record {
  nonempty = λ e. cc;
  solid = unfold is_space in (refl, (refl, (refl, (refl, tt))));
}

other-IsWord : IsWord other
other-IsWord = record {
  nonempty = λ e. cc;
  solid = unfold is_space in (refl, (refl, (refl, (refl, tt))));
}

view_two-IsLine : IsLine view_two
view_two-IsLine = ground arith

restart_example :
    (u : Acceptor) × (acceptor true true me view_one second_view.file ≡ loaded u)
    × SameDurable u second_view
restart_example =
    restart true true me view_one first_node second_view calls_two (ground arith) first_start
      (
        (omega arith, me-IsWord),
        ((omega arith, me-IsWord, view_two-IsLine), (tt, ((omega arith, other-IsWord), tt))),
      )
      served

abbrev prepare_four : PrepareArg
prepare_four = record { instance_no = 2; n = prop_at 4 other }

-- The first node once it has promised (4, 5002) for instance 2.
abbrev promised_four : Acceptor
promised_four = record first_node {
  n_h = prop_at 4 other;
  file = bytes "done 1 5001 \npropseen 4 5002\n";
}

after_promise :
    run (preparereq first_node prepare_four no_reply).0 (accept accept_two ∷ reads 1 ∷ [])
    ≡ some promised_four
unfolding run step preparereq acceptreq value append_log log_line put_unsigned index lookup prop_gt
    prop_ge bytes_eq bytes_lt
after_promise = refl

promise_accepted : (preparereq first_node prepare_four no_reply).1.accept ≡ true
unfolding preparereq prop_gt bytes_lt
promise_accepted = refl

promise_kept_example :
    (acceptreq promised_four (record { instance_no = 2; n = prop_at 3 other; v = view_two })
      ≡ (promised_four, false))
    × (preparereq promised_four (record { instance_no = 2; n = prop_at 4 me }) no_reply
        ≡ (promised_four, record no_reply { oldinstance = false; accept = false }))
unfolding prop_gt prop_ge bytes_lt
promise_kept_example =
    promise_kept first_node promised_four prepare_four no_reply no_reply
      (accept accept_two ∷ reads 1 ∷ [])
      (record { instance_no = 2; n = prop_at 3 other; v = view_two })
      (record { instance_no = 2; n = prop_at 4 me }) promise_accepted after_promise refl refl refl
      (omega arith)

run-Keeps_example : Keeps first_node second_view
run-Keeps_example = run-Keeps first_node second_view calls_two served

late_accept_example :
    let t =
      acceptreq
        (commit_wo first_node 2 view_two)
        (record { instance_no = 2; n = prop_at 3 other; v = view_one }) in
    (t.1 ≡ true)
    × ((preparereq t.0 (record { instance_no = 3; n = prop_at 4 me }) no_reply).1
        ≡ record { oldinstance = false; accept = true; n_a = prop_at 3 other; v_a = view_one })
late_accept_example =
    late_accept first_node 2 view_two
      (record { instance_no = 2; n = prop_at 3 other; v = view_one })
      (record { instance_no = 3; n = prop_at 4 me }) no_reply (omega arith) (omega arith)
      (omega arith) (omega arith)

accept_lowers_example :
    let t =
      acceptreq
        (acceptreq first_node (record { instance_no = 2; n = prop_at 5 other; v = view_two })).0
        accept_two in
    (t.1 ≡ true)
    × (prop_gt
          (acceptreq first_node
            (record { instance_no = 2; n = prop_at 5 other; v = view_two })).0.n_a
          t.0.n_a
        ≡ true)
    × (t.0.v_a ≡ view_two)
unfolding prop_gt prop_ge bytes_lt
accept_lowers_example =
    accept_lowers first_node (record { instance_no = 2; n = prop_at 5 other; v = view_two })
      accept_two refl refl refl
