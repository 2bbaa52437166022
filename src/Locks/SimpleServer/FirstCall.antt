-- ===== src/Locks/SimpleServer/FirstCall.antt =====
-- The first call for a lock at the server of lock_server.cc.
use distributed_system_lab.Base.{ℕ, ◌≡◌, refl, ap, ◌∙◌, [], arith}
use distributed_system_lab.Base.Tests.{nat_key}
use distributed_system_lab.Base.Map.{lookup}
use distributed_system_lab.Locks.SimpleServer.{
  SimpleServer, end_read, waits, returns, acquire_test, acquire, release,
}

-- The calls of any clients that return or wait.
pub data Step (s : SimpleServer) : SimpleServer → Type 0 where
  acquires : (lid : ℕ) (t : SimpleServer) → acquire s lid ≡ returns t → Step s t
  begins_to_wait : (lid : ℕ) (t : SimpleServer) → acquire s lid ≡ waits t → Step s t
  wakes : (lid : ℕ) (t : SimpleServer) → acquire_test s lid ≡ returns t → Step s t
  releases : (lid : ℕ) (t : SimpleServer) → release s lid ≡ returns t → Step s t

pub data Reach (s : SimpleServer) : SimpleServer → Type 0 where
  here : Reach s s
  next : {t u : SimpleServer} → Reach s t → Step t u → Reach s u

-- A server without locks reads through the end of the map in every call.
pub first_call :
    (s : SimpleServer) (lid : ℕ)
    → s.lock_list ≡ []
    → (acquire s lid ≡ end_read) × (release s lid ≡ end_read)
first_call s lid e = (
  unfold acquire acquire_test lookup in ground (arith, e),
  unfold release lookup in ground (arith, e),
)

test_empty : (s : SimpleServer) (lid : ℕ) → s.lock_list ≡ [] → acquire_test s lid ≡ end_read
test_empty s lid e = unfold acquire_test lookup in ground (arith, e)

no_step : {s t : SimpleServer} → s.lock_list ≡ [] → Step s t → ⊥
no_step {s} e (acquires lid w f) = ground (arith, f, (first_call s lid e).0)
no_step {s} e (begins_to_wait lid w f) = ground (arith, f, (first_call s lid e).0)
no_step {s} e (wakes lid w f) = ground (arith, f, test_empty s lid e)
no_step {s} e (releases lid w f) = ground (arith, f, (first_call s lid e).1)

-- No run of a server without locks in which no call reads through the end of the map ever grants a
-- lock: no call returns or waits.
pub never_grants : {s t : SimpleServer} → s.lock_list ≡ [] → Reach s t → t ≡ s
never_grants e here = refl
never_grants e (next r x) =
    absurd (no_step (ap (λ (v : SimpleServer). v.lock_list) (never_grants e r) ∙ e) x)
