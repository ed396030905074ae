-- ===== src/Config/Loading.antt =====
-- When the plugin starts with its settings, and what it reports otherwise.
use billtracker_plugin.Base.{
  ◌≡◌, ◌≢◌, ◌⊎◌, refl, subst, false, Option, none, some, List, [], ◌∷◌, ◌++◌, Bytes, codes,
  is_empty, Option-cases, inl, inr, Any,
}
use billtracker_plugin.Base.Int.{ℤ}
use billtracker_plugin.Base.Atoi.{atoi}
use billtracker_plugin.Clock.{minutes}
use billtracker_plugin.Errors.{
  Result, ok, err, invalid_setting, database_unset, encryption_key_unset,
}
use billtracker_plugin.Config.{
  Config, Numbers, getenv, get_env_default, file_variable, number_in, lookahead_key, simplefin_key,
  vendor_key, version_key, with_numbers, checked, load,
}

empty_or_not : (s : Bytes) → (s ≡ []) ⊎ ((is_empty s ≡ false) × (s ≢ []))
empty_or_not [] = inl refl
empty_or_not (c ∷ s) = inr (refl, λ e. cc)

module _ (env : Bytes → Bytes) (read_file : Bytes → Option Bytes) where
  -- The value of a variable: the contents of the file that the variable of the same name with
  -- `_FILE` behind it names, or, without one or where it cannot be read, the variable's own.
  abbrev pub From : Bytes → Bytes → Type 0
  From key v =
      ((env (key ++ codes "_FILE") ≡ []) × (v ≡ env key))
      ⊎ ((env (key ++ codes "_FILE") ≢ [])
          × ((read_file (env (key ++ codes "_FILE")) ≡ some v)
              ⊎ ((read_file (env (key ++ codes "_FILE")) ≡ none) × (v ≡ env key))))

  abbrev pub IsGiven : Bytes → Type 0
  IsGiven key = (v : Bytes) × From key v × (v ≢ [])

  -- The value of a variable, or another where it is empty.
  abbrev pub FromOr : Bytes → Bytes → Bytes → Type 0
  FromOr key def v = (From key v × (v ≢ [])) ⊎ (From key [] × (v ≡ def))

  abbrev pub IsNumber : Bytes → Bytes → ℤ → Type 0
  IsNumber key def n = (text : Bytes) × FromOr key def text × (atoi text ≡ some n)

  -- The settings hold these numbers.
  pub record HasNumbers (lookahead simplefin vendor version : ℤ) : Type 0 where
    pub days : IsNumber (codes "BILL_INSTANCE_LOOKAHEAD_DAYS") (codes "60") lookahead
    pub bridge : IsNumber (codes "SIMPLEFIN_REFRESH_INTERVAL_MINUTES") (codes "60") simplefin
    pub portals : IsNumber (codes "VENDOR_REFRESH_INTERVAL_MINUTES") (codes "360") vendor
    pub versions : IsNumber (codes "VERSION_CHECK_INTERVAL_MINUTES") (codes "1440") version

  abbrev pub AreNumbers : Type 0
  AreNumbers =
      (lookahead : ℤ) × (simplefin : ℤ) × (vendor : ℤ) × (version : ℤ) × HasNumbers lookahead
        simplefin vendor version

  -- The configuration that an environment stands for.
  pub record IsLoaded (cfg : Config) : Type 0 where
    pub listen_addr : FromOr (codes "LISTEN_ADDR") (codes ":8090") cfg.listen_addr
    pub db_host : From (codes "DB_HOST") cfg.db_host
    pub db_port : FromOr (codes "DB_PORT") (codes "5432") cfg.db_port
    pub db_name : From (codes "DB_NAME") cfg.db_name
    pub db_user : From (codes "DB_USER") cfg.db_user
    pub db_password : From (codes "DB_PASSWORD") cfg.db_password
    pub db_sslmode : FromOr (codes "DB_SSLMODE") (codes "disable") cfg.db_sslmode
    pub config_dir : FromOr (codes "CONFIG_DIR") (codes "./.config") cfg.config_dir
    pub encryption_key : From (codes "ENCRYPTION_KEY") cfg.encryption_key
    pub connection_secret :
        FromOr
          (codes "PLUGIN_CONNECTION_SECRET")
          (codes "hhq-plugin-connection")
          cfg.plugin_connection_secret
    pub version_minutes : ℤ
    pub check_interval : cfg.version_check_interval ≡ minutes version_minutes
    pub numbers :
        HasNumbers cfg.bill_instance_lookahead_days cfg.simplefin_refresh_interval_minutes
          cfg.vendor_refresh_interval_minutes version_minutes
    pub host_given : cfg.db_host ≢ []
    pub name_given : cfg.db_name ≢ []
    pub user_given : cfg.db_user ≢ []
    pub key_given : cfg.encryption_key ≢ []

  -- The settings that are numbers, with what stands for one that is empty.
  abbrev pub number_settings : List (Bytes × Bytes)
  number_settings =
      (codes "BILL_INSTANCE_LOOKAHEAD_DAYS", codes "60")
      ∷ (codes "SIMPLEFIN_REFRESH_INTERVAL_MINUTES", codes "60")
      ∷ (codes "VENDOR_REFRESH_INTERVAL_MINUTES", codes "360")
      ∷ (codes "VERSION_CHECK_INTERVAL_MINUTES", codes "1440")
      ∷ []

  -- What each result of loading says of the environment; no other error occurs.
  abbrev pub Loads : Result Config → Type 0
  Loads (ok cfg) = IsLoaded cfg
  Loads (err (invalid_setting key)) =
      Any (λ (k, def). (k ≡ key) × (text : Bytes) × FromOr k def text × (atoi text ≡ none))
        number_settings
  Loads (err database_unset) =
      AreNumbers
      × (From (codes "DB_HOST") [] ⊎ (From (codes "DB_NAME") [] ⊎ From (codes "DB_USER") []))
  Loads (err encryption_key_unset) =
      AreNumbers
      × IsGiven (codes "DB_HOST")
      × IsGiven (codes "DB_NAME")
      × IsGiven (codes "DB_USER")
      × From (codes "ENCRYPTION_KEY") []
  Loads (err _) = ⊥

  getenv-From : (key : Bytes) → From key (getenv env read_file key)
  unfolding getenv
  getenv-From key = elim (empty_or_not (env (file_variable env read_file key))) [
    | inl e ↦ inl (e, rw e refl)
    | inr (filled, nonempty) ↦
        elim (Option-cases (read_file (env (file_variable env read_file key)))) [
          | inl lost ↦ inr (nonempty, inr (lost, rw (filled, lost) refl))
          | inr (v, found) ↦ inr (nonempty, inl (rw (filled, found) refl))
        ]
  ]

  get_env_default-FromOr :
      (key def : Bytes) → FromOr key def (get_env_default env read_file key def)
  unfolding get_env_default
  get_env_default-FromOr key def = elim (empty_or_not (getenv env read_file key)) [
    | inl e ↦ inr (subst (From key) e (getenv-From key), rw e refl)
    | inr (filled, nonempty) ↦ inl (rw filled (getenv-From key, nonempty))
  ]

  number_in-IsNumber :
      (key def : Bytes) (n : ℤ) → number_in env read_file key def ≡ some n → IsNumber key def n
  number_in-IsNumber key def n e =
      (get_env_default env read_file key def, get_env_default-FromOr key def, e)

  module _ (n : Numbers)
      (has : HasNumbers n.lookahead_days n.simplefin_minutes n.vendor_minutes
        n.version_minutes) where
    abbrev four : AreNumbers
    four = (n.lookahead_days, n.simplefin_minutes, n.vendor_minutes, n.version_minutes, has)

    with_numbers-IsLoaded :
        getenv env read_file (codes "DB_HOST") ≢ []
        → getenv env read_file (codes "DB_NAME") ≢ []
        → getenv env read_file (codes "DB_USER") ≢ []
        → getenv env read_file (codes "ENCRYPTION_KEY") ≢ []
        → IsLoaded (with_numbers env read_file n)
    with_numbers-IsLoaded host name user key = record {
      listen_addr = get_env_default-FromOr _ _;
      db_host = getenv-From _;
      db_port = get_env_default-FromOr _ _;
      db_name = getenv-From _;
      db_user = getenv-From _;
      db_password = getenv-From _;
      db_sslmode = get_env_default-FromOr _ _;
      config_dir = get_env_default-FromOr _ _;
      encryption_key = getenv-From _;
      connection_secret = get_env_default-FromOr _ _;
      version_minutes = n.version_minutes;
      check_interval = refl;
      numbers = has;
      host_given = host;
      name_given = name;
      user_given = user;
      key_given = key;
    }

    unset : (key : Bytes) → getenv env read_file key ≡ [] → From key []
    unset key e = subst (From key) e (getenv-From key)

    given : (key : Bytes) → getenv env read_file key ≢ [] → IsGiven key
    given key nonempty = (getenv env read_file key, getenv-From key, nonempty)

    checked-Loads : Loads (checked env read_file (with_numbers env read_file n))
    checked-Loads = elim (empty_or_not (getenv env read_file (codes "DB_HOST"))) [
      | inl e ↦ rw e (four, inl (unset (codes "DB_HOST") e))
      | inr (h, host) ↦ elim (empty_or_not (getenv env read_file (codes "DB_NAME"))) [
        | inl e ↦ rw (h, e) (four, inr (inl (unset (codes "DB_NAME") e)))
        | inr (m, name) ↦ elim (empty_or_not (getenv env read_file (codes "DB_USER"))) [
          | inl e ↦ rw (h, m, e) (four, inr (inr (unset (codes "DB_USER") e)))
          | inr (u, user) ↦ elim (empty_or_not (getenv env read_file (codes "ENCRYPTION_KEY"))) [
            | inl e ↦
                rw (h, m, u, e)
                  (four, given _ host, given _ name, given _ user, unset (codes "ENCRYPTION_KEY") e)
            | inr (k, key) ↦ rw (h, m, u, k) (with_numbers-IsLoaded host name user key)
          ]
        ]
      ]
    ]

  unread :
      (key def : Bytes)
      → number_in env read_file key def ≡ none
      → (key ≡ key) × (text : Bytes) × FromOr key def text × (atoi text ≡ none)
  unread key def e =
      (refl, get_env_default env read_file key def, get_env_default-FromOr key def, e)

  -- `Load` succeeds just with the settings of the environment, each the contents of the file that its
  -- `_FILE` variable names or else its own variable, or its default where that is empty, where the
  -- four numbers can be read and the database's host, name and user and the encryption key are not
  -- empty. Otherwise it names a number that cannot be read, or, where all can, reports that the
  -- database's host, name or user is empty, or, where none is, that the key is. It fails with no
  -- other error.
  pub load_outcome : Loads (load env read_file)
  unfolding load
  load_outcome =
      elim (Option-cases (number_in env read_file (lookahead_key env read_file) (codes "60"))) [
        | inl e ↦ rw e (inl (unread _ _ e))
        | inr (days, a) ↦
            elim (Option-cases
              (number_in env read_file (simplefin_key env read_file) (codes "60"))) [
                | inl e ↦ rw (a, e) (inr (inl (unread _ _ e)))
                | inr (bridge, b) ↦
                    elim (Option-cases
                      (number_in env read_file (vendor_key env read_file) (codes "360"))) [
                        | inl e ↦ rw (a, b, e) (inr (inr (inl (unread _ _ e))))
                        | inr (portals, c) ↦
                            elim (Option-cases (
                              number_in env read_file (version_key env read_file) (codes "1440"))) [
                                | inl e ↦ rw (a, b, c, e) (inr (inr (inr (inl (unread _ _ e)))))
                                | inr (versions, d) ↦
                                    rw (a, b, c, d)
                                      (checked-Loads
                                        (record {
                                          lookahead_days = days;
                                          simplefin_minutes = bridge;
                                          vendor_minutes = portals;
                                          version_minutes = versions;
                                        })
                                        (record {
                                          days = number_in-IsNumber _ _ _ a;
                                          bridge = number_in-IsNumber _ _ _ b;
                                          portals = number_in-IsNumber _ _ _ c;
                                          versions = number_in-IsNumber _ _ _ d;
                                        }))
                              ]
                      ]
              ]
      ]
