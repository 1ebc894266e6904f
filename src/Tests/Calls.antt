-- ===== src/Tests/Calls.antt =====
-- Calls on one index structure, and the map of structures.
use oxford_sigmod.Base.{true, false, List, [], ◌∷◌, ◌≡◌, refl}
use oxford_sigmod.Base.Sets.{member, insert}
use oxford_sigmod.Structure.{new_structure, start_transaction, end_transaction, make_read_only}
use oxford_sigmod.Structure.Transactions.{
  Call, start, stop, freeze, step, run, run-IsSafe, frozen_refuses, make_read_only_refused,
}
use oxford_sigmod.Tests.{kinds, structure}

abbrev a_deletion : List Call
a_deletion = start 3 ∷ freeze ∷ stop 3 ∷ freeze ∷ start 4 ∷ []

run-IsSafe_example : (run (new_structure kinds) a_deletion).transactions ≡ []
unfolding new_structure run step insert start_transaction end_transaction make_read_only
run-IsSafe_example = run-IsSafe kinds a_deletion refl

frozen_refuses_example :
    let t = run (make_read_only (structure [])).1 (stop 2 ∷ start 5 ∷ []) in
    (start_transaction 4 t ≡ (false, t)) × (t.transactions ≡ [])
unfolding make_read_only
frozen_refuses_example = frozen_refuses (structure []) (stop 2 ∷ start 5 ∷ []) 4 refl

make_read_only_refused_example :
    let t = run (step (structure []) (start 3)) (stop 2 ∷ freeze ∷ []) in
    (make_read_only t ≡ (false, t)) × (member 3 t.transactions ≡ true)
make_read_only_refused_example =
    make_read_only_refused (structure []) 3 (stop 2 ∷ freeze ∷ []) refl (λ e. cc e, (λ e. cc e, tt))
