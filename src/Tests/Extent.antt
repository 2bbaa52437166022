-- ===== src/Tests/Extent.antt =====
-- Two extents at the server of extent_server.cc.
use distributed_system_lab.Base.{
  ◌≡◌, refl, true, false, none, some, [], ◌∷◌, All, nat_eq, if◌then◌else◌,
}
use distributed_system_lab.Base.Tests.{nat_key}
use distributed_system_lab.Base.Bytes.{bytes}
use distributed_system_lab.Base.Map.{lookup, insert}
use distributed_system_lab.Extent.Server.{extent_server}
use distributed_system_lab.Extent.Server.Contents.{
  puts, gets, removes, run, writes, Agree, IsConsistent, run-IsConsistent,
}

new-IsConsistent : IsConsistent extent_server
unfolding extent_server insert lookup Agree
new-IsConsistent id =
    elim (nat_eq 1 id)
      as (λ b.
        Agree (if b then some [] else none)
          (if b then some (record { atime = 0; mtime = 0; ctime = 0; size = 0 }) else none)) [
            | true ↦ refl
            | false ↦ tt
          ]

run-IsConsistent_example :
    IsConsistent (run extent_server (puts 7 (bytes "abc") 100 0 ∷ gets 7 [] 101 ∷ removes 1 ∷ []))
run-IsConsistent_example =
    run-IsConsistent extent_server (puts 7 (bytes "abc") 100 0 ∷ gets 7 [] 101 ∷ removes 1 ∷ [])
      new-IsConsistent

others : All (λ c. writes 7 c ≡ false) (gets 7 [] 101 ∷ removes 1 ∷ [])
unfolding writes
others = (refl, (refl, tt))
