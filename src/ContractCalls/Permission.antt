-- ===== src/ContractCalls/Permission.antt =====
-- What becomes of a permission that the contract is told of.
use samaritan_db.Prelude.{ap, Bool, true, false, arith, [], ◌≡◌, ◌∙◌, ◌∷◌}
use samaritan_db.Text.{contains, Text, codes, ◌==◌}
use samaritan_db.Contract.State.{DbContract}
use samaritan_db.Contract.Access.{
  restrict, unrestrict, contains-restrict, contains-unrestrict, blockers_of,
}
use samaritan_db.ContractCalls.{modify_access_call, str_to_hex, ContractCall}

-- What the contract makes of a call, as far as the two messages go: it takes the arguments in the
-- order that they are given in.
pub record Dispatches (encode : Text → Text)
    (contract_call : ContractCall → DbContract → DbContract) : Type 0 where
  pub on_restrict :
      (a b : Text) (c : DbContract)
      → contract_call (codes "restrict", str_to_hex encode a ∷ str_to_hex encode b ∷ []) c
        ≡ (restrict a b c).0
  pub on_unrestrict :
      (a b : Text) (c : DbContract)
      → contract_call (codes "unrestrict", str_to_hex encode a ∷ str_to_hex encode b ∷ []) c
        ≡ (unrestrict a b c).0

-- An owner's change of an application's permission leaves the users that bar the application as they
-- were in the contract, because the application is passed as the user and the owner as the
-- application.
pub modify_access_call-blockers :
    (encode : Text → Text) (contract_call : ContractCall → DbContract → DbContract)
    (did owner_did u : Text) (perm : Bool) (c : DbContract)
    → Dispatches encode contract_call
    → (owner_did == did) ≡ false
    → contains (blockers_of did (contract_call (modify_access_call encode did owner_did perm) c)) u
      ≡ contains (blockers_of did c) u
unfolding modify_access_call
modify_access_call-blockers encode contract_call did owner_did u true c m h =
    ap (λ d. contains (blockers_of did d) u) (m.on_restrict did owner_did c)
    ∙ contains-restrict did owner_did u did c
    ∙ ground arith
modify_access_call-blockers encode contract_call did owner_did u false c m h =
    ap (λ d. contains (blockers_of did d) u) (m.on_unrestrict did owner_did c)
    ∙ contains-unrestrict did owner_did u did c
    ∙ ground arith
