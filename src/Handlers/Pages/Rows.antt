-- ===== src/Handlers/Pages/Rows.antt =====
-- What the rows of the pages are.
use billtracker_plugin.Base.{
  ◌≡◌, ap, not, List, [], ◌∷◌, ◌++◌, map, append_assoc, append-nil, select, Bool-cases, inl, inr,
}
use billtracker_plugin.Models.Rows.{Account}
use billtracker_plugin.Models.Accounts.{is_credit}
use billtracker_plugin.Handlers.Pages.{split_rows}

module _ {R : Type 0} (row : Account → R) where
  split_rows_lem :
      (bank credit : List R) (accounts : List Account)
      → split_rows row bank credit accounts
        ≡ (bank ++ map row (select (λ a. not (is_credit a)) accounts))
          ++ (credit ++ map row (select is_credit accounts))
  unfolding split_rows
  split_rows_lem bank credit [] = rw (append-nil, append-nil)
  split_rows_lem bank credit (a ∷ as') = elim (Bool-cases (is_credit a)) [
    | inl e ↦
        rw (e, split_rows_lem bank (credit ++ row a ∷ []) as')
          (ap (λ xs. (bank ++ map row (select (λ a. not (is_credit a)) as')) ++ xs)
            (append_assoc credit (row a ∷ []) (map row (select is_credit as'))))
    | inr e ↦
        rw (e, split_rows_lem (bank ++ row a ∷ []) credit as')
          (ap (λ xs. xs ++ (credit ++ map row (select is_credit as')))
            (append_assoc bank (row a ∷ []) (map row (select (λ a. not (is_credit a)) as'))))
  ]

  -- The account rows of both pages are those of the accounts with a balance of zero or more, and
  -- behind them those with debts, each in the order that the query gave.
  pub split_rows_groups :
      (accounts : List Account)
      → split_rows row [] [] accounts
        ≡ map row (select (λ a. not (is_credit a)) accounts) ++ map row (select is_credit accounts)
  split_rows_groups accounts = split_rows_lem [] [] accounts
