-- ===== src/Tests/RsmClient.antt =====
-- A client of rsm_client.cc whose first primary cannot be reached.
use distributed_system_lab.Base.{◌≡◌, refl, inl, inr, none, List, [], ◌∷◌, ◌++◌}
use distributed_system_lab.Base.Bytes.{Bytes, bytes, bytes_eq}
use distributed_system_lab.Rsm.{ok}
use distributed_system_lab.Rsm.Client.{
  unbound, failed, replied, Round, answered, invoke, primary_failure, erase_primary,
}
use distributed_system_lab.Rsm.Client.Failover.{AllDifferent, knows, invoke-next_primary}

abbrev before : List Bytes
before = bytes "5001" ∷ bytes "5002" ∷ []

abbrev gone : List Round
gone =
    record { answer = unbound; new_view = none } ∷ record { answer = failed; new_view = none } ∷ []

abbrev reached : Round
reached = record { answer = replied ok (bytes "r"); new_view = none }

all_different : AllDifferent (before ++ bytes "5003" ∷ [])
unfolding bytes_eq
all_different = ((refl, (refl, tt)), ((refl, tt), (tt, tt)))

invoke-next_primary_example :
    invoke (knows before (bytes "5003") []) (gone ++ reached ∷ [])
    ≡ answered (record { primary = bytes "5003"; known_mems = bytes "5003" ∷ [] }) (bytes "r")
invoke-next_primary_example =
    invoke-next_primary before (bytes "5003") [] gone [] reached (bytes "r") all_different refl
      (inl refl, (inr refl, tt)) refl

-- The last member that is known fails: the iterator passes the end of the list.
primary_failure_last :
    primary_failure (record { primary = bytes "5001"; known_mems = bytes "5001" ∷ [] }) ≡ none
unfolding primary_failure erase_primary bytes_eq
primary_failure_last = refl
