-- ===== src/Tests/ExtentClient.antt =====
-- An extent that is written and flushed through the cache of extent_client.cc.
use distributed_system_lab.Base.{
  ◌≡◌, refl, true, false, none, some, List, [], ◌∷◌, nat_eq, if◌then◌else◌, arith, ℕ,
}
use distributed_system_lab.Base.Tests.{nat_key}
use distributed_system_lab.Base.Bytes.{bytes}
use distributed_system_lab.Base.Map.{lookup, insert}
use distributed_system_lab.Extent.Server.{extent_server}
use distributed_system_lab.Extent.Server.Contents.{Agree}
use distributed_system_lab.Extent.Client.{Moment, get, put}
use distributed_system_lab.Extent.Client.View.{Answers}
use distributed_system_lab.Extent.Client.Coherence.{IsCoherent}
use distributed_system_lab.Extent.Client.Refinement.{
  Session, Op, puts, flushes, removes_and_flushes, step, run, AllRun, view_of, spec_run,
  run-refines,
}

abbrev pub at_noon : Moment
at_noon = record {
  up = true;
  now = 100;
  junk = record { atime = 0; mtime = 0; ctime = 0; size = 0 };
}

abbrev pub fresh : Session
fresh = record { client = record { contents = []; attributes = [] }; server = extent_server }

abbrev work : List (Moment × Op)
work =
    (at_noon, puts 7 (bytes "abc")) ∷ (at_noon, flushes 7) ∷ (at_noon, removes_and_flushes 1) ∷ []

pub fresh-IsCoherent : IsCoherent fresh.client fresh.server
unfolding extent_server insert lookup Agree
fresh-IsCoherent = record {
  backed = λ id e. refl;
  server = λ id.
      elim (nat_eq 1 id)
        as (λ b.
          Agree (if b then some [] else none)
            (if b then some (record { atime = 0; mtime = 0; ctime = 0; size = 0 }) else none)) [
              | true ↦ refl
              | false ↦ tt
            ];
}

work-AllRun : AllRun fresh work
unfolding AllRun step put insert lookup
work-AllRun = (refl, tt, (refl, (λ e. ground arith), (refl, tt, tt)))

run-refines_example :
    ((j : ℕ) → view_of (run fresh work) j ≡ spec_run (view_of fresh) work j)
    × Answers
        (spec_run (view_of fresh) work 7)
        (get at_noon (run fresh work).client (run fresh work).server 7 []).2
        (get at_noon (run fresh work).client (run fresh work).server 7 []).3
run-refines_example = run-refines fresh work at_noon 7 [] fresh-IsCoherent work-AllRun refl

spec-reads : spec_run (view_of fresh) work 7 ≡ some (bytes "abc")
unfolding spec_run
spec-reads = refl
