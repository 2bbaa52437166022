-- ===== src/Tests/Rpc.antt =====
-- A client that binds at a server of rpc.cc, over a network that delivers its request twice.
use distributed_system_lab.Base.{
  ℕ, ◌≡◌, refl, inl, inr, Bool, true, some, [], ◌∷◌, ◌<◌, arith, In, map, nat_eq, ◌||◌,
}
use distributed_system_lab.Base.Tests.{nat_key}
use distributed_system_lab.Base.Bytes.{bytes}
use distributed_system_lab.Base.Map.{lookup, insert}
use distributed_system_lab.Rpc.Numbers.{IsDistinct, seen, has}
use distributed_system_lab.Rpc.Client.{
  ret, timeout_failure, Rpcc, sends, rpcc, begin_call, end_call, got_pdu, update_xid_rep, place,
  pop, compress,
}
use distributed_system_lab.Rpc.Client.Window.{IsWindow, update_xid_rep-IsWindow}
use distributed_system_lab.Rpc.Client.Calls.{
  got, ends, run, Others, OthersOrReplies, call-first_reply,
}
use distributed_system_lab.Rpc.Server.{
  reply_t, Rpcs, ReqHeader, resends, dispatch, dispatch_reply, add_reply, store_reply,
  checkduplicate_and_update, check_window, drop_acked, settle, back, seek,
}
use distributed_system_lab.Rpc.System.{
  Net, arrive, calls, arrives, finishes, Reach, here, next, IsStart,
}
use distributed_system_lab.Rpc.System.Once.{at_most_once}
use distributed_system_lab.Rpc.System.Replies.{resent_reply}

abbrev all_known : ℕ → Bool
all_known p = true

abbrev start : Net
start = record {
  client = rpcc true 7;
  server = record { nonce = 99; reachable = true; reply_window = [] };
  sent = [];
  executed = [];
  replies = [];
}

abbrev bind_header : ReqHeader
bind_header = record { xid = 1; proc = 1; clt_nonce = 7; srv_nonce = 0; xid_rep = 0 }

abbrev bound : Net
bound = record start { client = (begin_call (rpcc true 7) 1).0; sent = bind_header ∷ [] }

abbrev arrived : Net
arrived = arrive bound all_known bind_header

abbrev answer : Rpcs
answer = record {
  nonce = 99;
  reachable = true;
  reply_window = (7, record { xid = 1; cb_present = true; buf = bytes "c" } ∷ []) ∷ [];
}

abbrev answered : Net
answered = record arrived { server = answer; replies = (1, bytes "c") ∷ [] }

start-IsStart : IsStart start
start-IsStart = record {
  numbered = unfold rpcc in refl;
  window = unfold rpcc in refl;
  unknown = unfold rpcc lookup in refl;
  named = unfold rpcc in ground arith;
  unsent = refl;
  idle = refl;
  silent = refl;
}

begins-bind : begin_call (rpcc true 7) 1 ≡ ((begin_call (rpcc true 7) 1).0, sends bind_header)
unfolding begin_call rpcc
begins-bind = refl

replies-bind : dispatch_reply arrived.server bind_header (bytes "c") ≡ some answer
unfolding dispatch_reply add_reply store_reply arrive dispatch checkduplicate_and_update
    check_window drop_acked settle back seek lookup insert reply_t rpcc begin_call
replies-bind = refl

runs-bind : In 1 arrived.executed
unfolding arrive dispatch checkduplicate_and_update check_window drop_acked settle back lookup
    insert reply_t rpcc begin_call
runs-bind = inl refl

arrived-Reach : Reach all_known start arrived
arrived-Reach =
    next
      (next here (
        calls 1 (begin_call (rpcc true 7) 1).0 bind_header (unfold rpcc in omega arith)
          begins-bind))
      (arrives bind_header (inl refl))

answered-Reach : Reach all_known start answered
unfolding arrive
answered-Reach =
    next arrived-Reach
      (finishes bind_header (bytes "c") answer (unfold arrive in inl refl) runs-bind replies-bind)

again-Reach : Reach all_known start (arrive answered all_known bind_header)
again-Reach = next answered-Reach (arrives bind_header (unfold arrive in inl refl))

at_most_once_example :
    IsDistinct (map (λ (h : ReqHeader). h.xid) (arrive answered all_known bind_header).sent)
    × IsDistinct (arrive answered all_known bind_header).executed
    × ((h : ReqHeader) → In h (arrive answered all_known bind_header).sent → h.xid_rep < h.xid)
at_most_once_example =
    at_most_once all_known start (arrive answered all_known bind_header) start-IsStart again-Reach

answer-resends : (dispatch answered.server all_known bind_header).1 ≡ resends (bytes "c")
unfolding dispatch checkduplicate_and_update check_window drop_acked settle back seek lookup insert
    reply_t
answer-resends = refl

resent_reply_example : In (1, bytes "c") answered.replies × In 1 answered.executed
resent_reply_example =
    resent_reply all_known start answered bind_header (bytes "c") start-IsStart answered-Reach
      (unfold arrive in inl refl) answer-resends

-- The replies 2 and 1 come after 3.
gapped-IsWindow : IsWindow (0 ∷ 3 ∷ [])
unfolding has
gapped-IsWindow = record {
  ordered = (omega arith, (omega arith, tt));
  not_empty = λ e. ground arith;
  fits = (omega arith, (omega arith, tt));
  gap = refl;
}

update_xid_rep-IsWindow_example :
    IsWindow (update_xid_rep 2 (0 ∷ 3 ∷ []))
    × ((e : ℕ) → seen e (update_xid_rep 2 (0 ∷ 3 ∷ [])) ≡ (seen e (0 ∷ 3 ∷ []) || nat_eq 2 e))
update_xid_rep-IsWindow_example =
    update_xid_rep-IsWindow 2 (0 ∷ 3 ∷ []) (omega arith) gapped-IsWindow

fills_gap : update_xid_rep 1 (0 ∷ 2 ∷ 2 ∷ 3 ∷ []) ≡ 3 ∷ []
unfolding update_xid_rep place compress pop
fills_gap = refl

-- A late reply to the call, and one to another.
abbrev begun : Rpcc
begun = (begin_call (rpcc true 7) 1).0

before-Others : Others 1 begun (got 5 0 (bytes "x") ∷ ends 5 ∷ [])
unfolding Others
before-Others = (omega arith, (omega arith, tt))

after-OthersOrReplies :
    OthersOrReplies 1
      (got_pdu (run begun (got 5 0 (bytes "x") ∷ ends 5 ∷ [])) 1 0 (bytes "c"))
      (got 1 4 (bytes "y") ∷ [])
unfolding OthersOrReplies
after-OthersOrReplies = (inr refl, tt)

call-first_reply_example :
    ((end_call
        (run
          (got_pdu (run begun (got 5 0 (bytes "x") ∷ ends 5 ∷ [])) 1 0 (bytes "c"))
          (got 1 4 (bytes "y") ∷ []))
        1).1
      ≡ (ret 0, bytes "c"))
    × ((end_call (run begun (got 5 0 (bytes "x") ∷ ends 5 ∷ [])) 1).1 ≡ (timeout_failure, []))
call-first_reply_example =
    call-first_reply (rpcc true 7) begun 1 bind_header (got 5 0 (bytes "x") ∷ ends 5 ∷ [])
      (got 1 4 (bytes "y") ∷ []) 0 (bytes "c") begins-bind before-Others after-OthersOrReplies
