-- ===== src/Tests/Calls.antt =====
-- Calls of the contract at concrete values.
use samaritan_db.Prelude.{refl, false, List, drop, [], ◌≡◌, ◌∷◌, if◌then◌else◌}
use samaritan_db.Text.{contains, Text, codes, ◌==◌}
use samaritan_db.Contract.State.{DbContract}
use samaritan_db.Contract.Access.{blockers_of, restrict, unrestrict}
use samaritan_db.ContractCalls.Permission.{Dispatches, modify_access_call-blockers}
use samaritan_db.Tests.Data.{sam, app, contract}
use samaritan_db.ContractCalls.{ContractCall, modify_access_call}

-- A contract behind the two messages about access, for arguments that are written as they stand.
with_args : Text → List Text → DbContract → DbContract
with_args message [] c = c
with_args message (x ∷ []) c = c
with_args message (x ∷ y ∷ zs) c =
    if message == codes "restrict"
    then (restrict (drop 2 x) (drop 2 y) c).0
    else (if message == codes "unrestrict" then (unrestrict (drop 2 x) (drop 2 y) c).0 else c)

abbrev contract_call : ContractCall → DbContract → DbContract
contract_call m c = with_args m.0 m.1 c

contract_call-Dispatches : Dispatches (λ s. s) contract_call
unfolding with_args ◌==◌
contract_call-Dispatches = record { on_restrict = λ a b c. refl; on_unrestrict = λ a b c. refl }

modify_access_call-blockers_example :
    contains
      (blockers_of app (contract_call (modify_access_call (λ s. s) app sam false) contract))
      sam
    ≡ contains (blockers_of app contract) sam
unfolding ◌==◌
modify_access_call-blockers_example =
    modify_access_call-blockers (λ s. s) contract_call app sam sam false contract
      contract_call-Dispatches refl
