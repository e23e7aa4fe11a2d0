-- ===== src/Examples/Ovsdb.antt =====
-- Row updates and a server of lib/ovsdb_client.
use govtep.Base.{ℕ, suc, ◌≤◌, ◌≡◌, ◌↔◌, Bool, true, none, List, [], ◌∷◌, length, All}
use govtep.Ovsdb.Rows.{update}
use govtep.Ovsdb.Client.{Operation, Server, transact}
use govtep.Ovsdb.Client.Safety.{HasNoError, transact_accepts_iff}

-- Halves stand for the numbers of float64: 2 * n is the integer n.
-- A server that gives one result, whatever it is asked.
abbrev server : Server ℕ Bool Bool
server ops w = ((record { count = 1; error = []; rows = [] } ∷ [], none), suc w)

abbrev one_operation : List (Operation Bool)
one_operation = record { op = update; table = "Locator"; body = true } ∷ []

transact_accepts_iff_example : ((transact server one_operation 0).0.1 ≡ none) ↔ (
    ((server one_operation 0).0.1 ≡ none)
    × All HasNoError (server one_operation 0).0.0
    × (length one_operation ≤ length (server one_operation 0).0.0)
    × ((transact server one_operation 0).0.0 ≡ (server one_operation 0).0.0))
transact_accepts_iff_example = transact_accepts_iff server one_operation 0
