-- ===== src/SimpleFin/Balances.antt =====
-- What the client makes of the bridge's answer.
use billtracker_plugin.Base.{
  ◌≡◌, refl, ap, sym, subst, ◌∙◌, ◌↔◌, Bool, true, Option, none, some, List, [], ◌∷◌, ◌++◌, Bytes,
  All, codes, length, ◌==◌, arith, Bool-cases, inl, inr, map, ==_iff,
}
use billtracker_plugin.Base.Int.{ℤ, fits_int64}
use billtracker_plugin.Errors.{ok-injective, Result-cases, Result, ok, err}
use billtracker_plugin.Money.{parse_money_to_cents}
use billtracker_plugin.Money.Text.{money, parse_money_to_cents-money}
use billtracker_plugin.Connectors.Billeriq.{trim_right_slashes}
use billtracker_plugin.SimpleFin.{
  Url, Request, Response, is_secure, Account, Entry, SimplefinAccountsResponse, account_of,
  then_account, read_entries, accounts_request, decoded, answered, fetch_at, fetch_accounts,
}

-- The accounts are the entries, in order, each with its balance read.
abbrev pub AreRead : List Entry → List Account → Type 0
AreRead [] [] = Unit
AreRead [] (x ∷ xs) = ⊥
AreRead (e ∷ es) [] = ⊥
AreRead (e ∷ es) (x ∷ xs) =
    (parse_money_to_cents e.balance ≡ ok x.balance_cents)
    × (x ≡ account_of e x.balance_cents)
    × AreRead es xs

read_entries_sound : (es : List Entry) (xs : List Account) → read_entries es ≡ ok xs → AreRead es xs
unfolding read_entries
read_entries_sound [] [] h = tt
read_entries_sound [] (x ∷ xs) h = cc
read_entries_sound (e ∷ es) xs h = elim (Result-cases (parse_money_to_cents e.balance)) [
  | inl (x, bad) ↦ cc (rw bad at h)
  | inr (cents, good) ↦ elim (Result-cases (read_entries es)) [
    | inl (x, bad) ↦ cc (rw (good, bad) at h)
    | inr (rest, more) ↦
        subst (AreRead (e ∷ es)) (ok-injective (rw (good, more) at h))
          (good, refl, read_entries_sound es rest more)
  ]
]

read_entries_complete :
    (es : List Entry) (xs : List Account) → AreRead es xs → read_entries es ≡ ok xs
unfolding read_entries
read_entries_complete [] [] h = refl
read_entries_complete [] (x ∷ xs) h = absurd h
read_entries_complete (e ∷ es) [] h = absurd h
read_entries_complete (e ∷ es) (x ∷ xs) (good, is, rest) =
    rw (good, read_entries_complete es xs rest) (ap (λ a. ok (a ∷ xs)) (sym is))

-- Balances that are printed amounts are read to the cent.
read_entries-money :
    (cents : Entry → ℤ) (es : List Entry)
    → All (λ e. (fits_int64 (cents e) ≡ true) × (e.balance ≡ money (cents e))) es
    → read_entries es ≡ ok (map (λ e. account_of e (cents e)) es)
unfolding read_entries
read_entries-money cents [] h = refl
read_entries-money cents (e ∷ es) ((fits, printed), rest) =
    ap (λ r. then_account e r (read_entries es))
      (ap parse_money_to_cents printed ∙ parse_money_to_cents-money (cents e) fits)
    ∙ ap (then_account e (ok (cents e))) (read_entries-money cents es rest)

module _ (insecure : Bool) (parse : Bytes → Option Url) (send : Request → Result Response)
    (decode : Bytes → Option SimplefinAccountsResponse) where
  -- An exchange with the bridge that went well, and what it answered.
  pub record Exchange (access_url : Bytes) (entries : List Entry) : Type 0 where
    pub url : Url
    pub parsed : parse (trim_right_slashes access_url ++ codes "/accounts") ≡ some url
    pub secure : is_secure insecure url ≡ true
    pub response : Response
    pub sent : send (accounts_request url) ≡ ok response
    pub status_ok : response.status ≡ 200
    pub answer : SimplefinAccountsResponse
    pub read : decode response.body ≡ some answer
    pub no_errors : answer.errors ≡ []
    pub entries_are : answer.accounts ≡ entries

  fetch_accounts-Exchange :
      (access_url : Bytes) (entries : List Entry)
      → Exchange access_url entries
      → fetch_accounts insecure parse send decode access_url ≡ read_entries entries
  unfolding fetch_accounts
  fetch_accounts-Exchange access_url entries x =
      rw (x.parsed, x.secure, x.sent, x.status_ok, x.read, x.no_errors, x.entries_are)

  -- What was read came of an exchange that went well.
  abbrev pub IsFetched : Bytes → List Account → Type 0
  IsFetched access_url accounts =
      (entries : List Entry) × Exchange access_url entries × AreRead entries accounts

  no_errors_in : (xs : List Bytes) → (length xs == 0) ≡ true → xs ≡ []
  no_errors_in [] h = refl
  no_errors_in (x ∷ xs) h = ground arith

  module _ (access_url : Bytes) (accounts : List Account) (u : Url)
      (parsed : parse (trim_right_slashes access_url ++ codes "/accounts") ≡ some u)
      (secure : is_secure insecure u ≡ true) where
    decoded_sound :
        (resp : Response) (o : Option SimplefinAccountsResponse)
        → send (accounts_request u) ≡ ok resp
        → resp.status ≡ 200
        → decode resp.body ≡ o
        → decoded insecure parse send decode o ≡ ok accounts
        → IsFetched access_url accounts
    decoded_sound resp none sent status read h = cc
    decoded_sound resp (some r) sent status read h = elim (Bool-cases (length r.errors == 0)) [
      | inr e ↦ cc (rw e at h)
      | inl e ↦ (
        r.accounts,
        record {
          url = u;
          parsed = parsed;
          secure = secure;
          response = resp;
          sent = sent;
          status_ok = status;
          answer = r;
          read = read;
          no_errors = no_errors_in r.errors e;
          entries_are = refl;
        },
        read_entries_sound r.accounts accounts (rw e at h),
      )
    ]

    answered_sound :
        (r : Result Response)
        → send (accounts_request u) ≡ r
        → answered insecure parse send decode r ≡ ok accounts
        → IsFetched access_url accounts
    answered_sound (err x) sent h = cc
    answered_sound (ok resp) sent h = elim (Bool-cases (resp.status == 200)) [
      | inr e ↦ cc (rw e at h)
      | inl e ↦
          decoded_sound resp (decode resp.body) sent ((==_iff resp.status 200).0 e) refl (rw e at h)
    ]

  fetch_at_sound :
      (access_url : Bytes) (accounts : List Account) (o : Option Url)
      → parse (trim_right_slashes access_url ++ codes "/accounts") ≡ o
      → fetch_at insecure parse send decode o ≡ ok accounts
      → IsFetched access_url accounts
  fetch_at_sound access_url accounts none parsed h = cc
  fetch_at_sound access_url accounts (some u) parsed h = elim (Bool-cases (is_secure insecure u)) [
    | inr e ↦ cc (rw e at h)
    | inl e ↦
        answered_sound access_url accounts u parsed e (send (accounts_request u)) refl (rw e at h)
  ]

  -- The client returns accounts just where the access URL is one with https (or the test switch is
  -- on), the bridge answers its request with 200 and reports no errors, and the accounts are those
  -- of the answer, all of them and in order, each with its balance read.
  pub fetch_accounts_iff :
      (access_url : Bytes) (accounts : List Account)
      → (fetch_accounts insecure parse send decode access_url ≡ ok accounts)
        ↔ IsFetched access_url accounts
  unfolding fetch_accounts
  fetch_accounts_iff access_url accounts = (
    fetch_at_sound access_url accounts _ refl,
    λ (entries, x, are_read).
        fetch_accounts-Exchange access_url entries x
        ∙ read_entries_complete entries accounts are_read,
  )

  -- Where the balances that the bridge reports are printed amounts of cents, the client returns
  -- every account with just these cents.
  pub fetch_accounts-money :
      (access_url : Bytes) (cents : Entry → ℤ) (entries : List Entry)
      → Exchange access_url entries
      → All (λ e. (fits_int64 (cents e) ≡ true) × (e.balance ≡ money (cents e))) entries
      → fetch_accounts insecure parse send decode access_url
        ≡ ok (map (λ e. account_of e (cents e)) entries)
  fetch_accounts-money access_url cents entries x printed =
      fetch_accounts-Exchange access_url entries x ∙ read_entries-money cents entries printed
