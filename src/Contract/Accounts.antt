-- ===== src/Contract/Accounts.antt =====
-- The account messages of database/contract/lib.rs.
use samaritan_db.Prelude.{
  inl, inr, Bool, false, none, some, arith, Option-cases, is_some, [], ◌≡◌, ◌&&◌, ◌∷◌,
  if◌then◌else◌,
}
use samaritan_db.Text.{Text, eq_iff, ◌==◌}
use samaritan_db.Dict.{Dict}
use samaritan_db.Dict
use samaritan_db.Contract.State.{
  AccountInfo, DbContract, Outcome, account_created, hash_table_address_updated, entry_not_found,
}

unfoldable pub check_did_existence : Text → DbContract → Bool
check_did_existence did c = is_some (Dict.lookup did c.accounts)

unfoldable pub new_account : Text → Text → Text → DbContract → Outcome
new_account did hashtable_cid auth_material c =
    let account : AccountInfo = record {
      did_document_uri = [];
      hashtable_cid = hashtable_cid;
      auth_material = auth_material;
    } in
    (record c { accounts = Dict.insert did account c.accounts }, account_created did ∷ [])

unfoldable pub get_account_ht_cid : Text → Text → DbContract → Text
get_account_ht_cid did auth_material c = elim (Dict.lookup did c.accounts) [
  | some account_info ↦
      if account_info.auth_material == auth_material then account_info.hashtable_cid else []
  | none ↦ []
]

unfoldable pub update_account_ht_cid : Text → Text → DbContract → Outcome
update_account_ht_cid did ht_cid c = elim (Dict.lookup did c.accounts) [
  | some account ↦ (
    record c { accounts = Dict.insert did (record account { hashtable_cid = ht_cid }) c.accounts },
    hash_table_address_updated did ht_cid ∷ [],
  )
  | none ↦ (c, entry_not_found did ∷ [])
]

-- After an account is created its link is read with its own secret and no other, also where the
-- name was taken before: the old secret stops working. Every other account reads as before.
pub get_account_ht_cid-new_account :
    (did cid auth d a : Text) (c : DbContract)
    → get_account_ht_cid d a (new_account did cid auth c).0
      ≡ (if did == d then (if auth == a then cid else []) else get_account_ht_cid d a c)
unfolding get_account_ht_cid new_account
get_account_ht_cid-new_account did cid auth d a c = ground (
  arith,
  Dict.lookup-insert d did
      (record { did_document_uri = []; hashtable_cid = cid; auth_material = auth }) c.accounts,
)

-- The link that a read with a right secret returns.
abbrev pub authenticated : Text → Text → DbContract → Bool
authenticated did auth c = elim (Dict.lookup did c.accounts) [
  | some account ↦ account.auth_material == auth
  | none ↦ false
]

-- An update changes the link that the account's own secret reads, keeps the secret, and leaves
-- every other account alone; of a name that has no account it changes nothing.
pub get_account_ht_cid-update :
    (did cid d a : Text) (c : DbContract)
    → get_account_ht_cid d a (update_account_ht_cid did cid c).0
      ≡ (if did == d && authenticated d a c then cid else get_account_ht_cid d a c)
unfolding get_account_ht_cid update_account_ht_cid
get_account_ht_cid-update did cid d a c = elim (Option-cases (Dict.lookup did c.accounts)) [
  | inl missing ↦ ground (arith, eq_iff did d)
  | inr (account, found) ↦ ground (
    arith,
    eq_iff did d,
    Dict.lookup-insert d did (record account { hashtable_cid = cid }) c.accounts,
  )
]
