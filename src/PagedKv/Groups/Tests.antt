-- ===== src/PagedKv/Groups/Tests.antt =====
-- The theorems on groups of reservations at concrete inputs.
use ru_llm.Base.{◌≡◌, [], ◌∷◌, arith, Ensures}
use ru_llm.PagedKv.Pool.{new_pool}
use ru_llm.PagedKv.Commit.{commit_appends, cancel_appends, commit_append_prefixes}
use ru_llm.PagedKv.Samples.{appending, appending-Inv}
use ru_llm.PagedKv.Groups.{IsGroup}
use ru_llm.PagedKv.Groups.Ends.{GroupEnded}
use ru_llm.PagedKv.Groups.Atomic.{
  start_of, full_end_of, commit_appends-Ensures, cancel_appends-Ensures,
}
use ru_llm.PagedKv.Groups.Prefixes.{prefix_end_of, IsPrefixes, commit_append_prefixes-Ensures}

cancel_appends-Ensures_example :
    Ensures
      (λ _ t. IsGroup appending (1 ∷ []) × GroupEnded start_of appending (1 ∷ []) t)
      (λ e t. (t ≡ appending) × ¬ IsGroup appending (1 ∷ []))
      (cancel_appends (1 ∷ []) appending)
unfolding new_pool
cancel_appends-Ensures_example =
    cancel_appends-Ensures appending appending-Inv (1 ∷ []) (omega arith)

commit_appends-Ensures_example :
    Ensures
      (λ _ t. IsGroup appending (1 ∷ []) × GroupEnded full_end_of appending (1 ∷ []) t)
      (λ e t. (t ≡ appending) × ¬ IsGroup appending (1 ∷ []))
      (commit_appends (1 ∷ []) appending)
unfolding new_pool
commit_appends-Ensures_example =
    commit_appends-Ensures appending appending-Inv (1 ∷ []) (omega arith)

-- Two of the three tokens are kept.
commit_append_prefixes-Ensures_example :
    Ensures
      (λ _ t.
        IsGroup appending (1 ∷ [])
        × IsPrefixes appending ((1, 2) ∷ [])
        × GroupEnded (prefix_end_of ((1, 2) ∷ [])) appending (1 ∷ []) t)
      (λ e t. (t ≡ appending) × ¬ (IsGroup appending (1 ∷ []) × IsPrefixes appending ((1, 2) ∷ [])))
      (commit_append_prefixes ((1, 2) ∷ []) appending)
unfolding new_pool
commit_append_prefixes-Ensures_example =
    commit_append_prefixes-Ensures appending appending-Inv ((1, 2) ∷ []) (omega arith)
