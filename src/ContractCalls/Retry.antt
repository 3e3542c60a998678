-- ===== src/ContractCalls/Retry.antt =====
-- When a call comes to its end.
use samaritan_db.Prelude.{
  ℕ, zero, suc, refl, inl, inr, Option, none, some, arith, num_eq, num_eq_iff, Bool-cases, ◌+◌, ◌≤◌,
  ◌<◌, ◌≡◌,
}
use samaritan_db.Text.{Text}
use samaritan_db.Util.ReturnData.{parse_contract_return_data}
use samaritan_db.ContractCalls.{retry, query}

retry_ends :
    (f n k : ℕ) (attempt : ℕ → Option Text) (output : Text)
    → n ≤ k
    → k < n + f
    → ((i : ℕ) → i < k → attempt i ≡ none)
    → attempt k ≡ some output
    → retry f attempt n ≡ some (output, k)
unfolding retry
retry_ends zero n k attempt output l b h e = absurd (omega arith)
retry_ends (suc f) n k attempt output l b h e = elim (Bool-cases (num_eq n k)) [
  | inl last ↦ let same : n ≡ k = (num_eq_iff n k).0 last in rw same (rw (retry, e) refl)
  | inr before ↦
      rw (retry, h n (ground arith))
        (retry_ends f (n + 1) k attempt output (ground arith) (omega arith) h e)
]

-- A query ends with the first attempt that starts, with any fuel above the number of failures, and
-- answers with what that attempt prints.
pub query_ends :
    (lossy : Text → Text) (k f : ℕ) (attempt : ℕ → Option Text) (output : Text)
    → k < f
    → ((i : ℕ) → i < k → attempt i ≡ none)
    → attempt k ≡ some output
    → query lossy f attempt ≡ some (parse_contract_return_data (lossy output))
unfolding query
query_ends lossy k f attempt output b h e =
    rw (query, retry_ends f 0 k attempt output (omega arith) (omega arith) h e) refl
