-- ===== src/Cancel/Tests.antt =====
-- A cancellation that arrives before the process it is for.
use ai_support_agent_cli.Common.{
  ◌≡◌, refl, true, List, [], ◌∷◌, All, lookup, insert, remove, member, add, erase, differ-str_eq,
}
use ai_support_agent_cli.Cancel.{
  Manager, register, cancel, cancel_when_registered, forget, Operation, registers, forgets, operate,
  operations, Spares,
}

abbrev idle : Manager
idle = record { running = []; pending_cancellations = []; cancelled = [] }

abbrev meanwhile : List Operation
meanwhile = registers "b" 7 ∷ forgets "a" ∷ []

cancel_computed :
    ((register "a" 3 (operations (cancel_when_registered "a" idle).1 meanwhile)).cancelled ≡ 3 ∷ [])
    × ((cancel "b" (operations idle meanwhile)).0 ≡ true)
unfolding register cancel cancel_when_registered forget operate operations lookup insert remove
    member add erase
cancel_computed = (refl, refl)

spared : All (Spares "a") meanwhile
spared = (differ-str_eq "b" "a" refl, (tt, tt))
