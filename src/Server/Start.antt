-- ===== src/Server/Start.antt =====
-- cmd/server/main.go: `main` up to where the server listens, with `New` and `Migrate` of internal/db.
-- A fatal error ends the process.
use billtracker_plugin.Base.{
  ◌≡◌, refl, ◌∙◌, ◌⊎◌, inl, inr, Bool-cases, subst, sym, arith, true, false, ◌&&◌, Bool, Option,
  none, some, Option-cases, length, ◌==◌, ◌≢◌, codes, [], ◌∷◌, ◌++◌, append_assoc, List, Bytes,
  if◌then◌else◌,
}
use billtracker_plugin.Errors.{
  Error, Result, Result-cases, ok, err, db_failure, bad_templates, key_not_hex, key_not_32_bytes,
}
use billtracker_plugin.Models.Database.Quiet.{ignoring_runs}
use billtracker_plugin.Clock.{Clock}
use billtracker_plugin.Config.{Config, load, dsn}
use billtracker_plugin.Connectors.{Registry}
use billtracker_plugin.Crypto.Hex
use billtracker_plugin.Crypto.{Aead, new_encryptor}
use billtracker_plugin.Models.Database.{Db, Exec, attempt, lift, pure, ignoring, ◌>>=◌}
use billtracker_plugin.Handlers.Forms.{BillBootstrap}
use billtracker_plugin.Server.{start_bills}

-- What the libraries that `main` calls answer: `sql.Open` on a connection string, the ping, the two
-- calls of goose, and the parser of the templates.
pub record Libraries : Type 0 where
  pub connects : Bytes → Bool
  pub ping : Bool
  pub set_dialect : Bool
  pub migrations_up : Bool
  pub templates : Bool

abbrev unless : Error → Bool → Result (Unit {0})
unless e fine = if fine then ok tt else err e

abbrev both : Result (Unit {0}) → Result (Unit {0}) → Result (Unit {0})
both (err e) r = err e
both (ok _) r = r

-- `New`.
unfoldable pub new_db : Libraries → Bytes → Result (Unit {0})
new_db libs s = both (unless db_failure (libs.connects s)) (unless db_failure libs.ping)

-- `Migrate`; the tables are there afterwards.
unfoldable pub migrate : Libraries → Result (Unit {0})
migrate libs = both (unless db_failure libs.set_dialect) (unless db_failure libs.migrations_up)

-- What the process serves with.
pub record Serving : Type 0 where
  pub cfg : Config
  pub gcm : Aead

-- The words of a connection string, each behind its name.
abbrev connection_words : List (Bytes × Bytes) → Bytes
connection_words [] = []
connection_words ((name, word) ∷ []) = name ++ codes "=" ++ word
connection_words ((name, word) ∷ w ∷ more) =
    name ++ codes "=" ++ word ++ codes " " ++ connection_words (w ∷ more)

abbrev pub connection_string : Config → Bytes
connection_string cfg = connection_words (
    (codes "host", cfg.db_host)
    ∷ (codes "port", cfg.db_port)
    ∷ (codes "dbname", cfg.db_name)
    ∷ (codes "user", cfg.db_user)
    ∷ (codes "password", cfg.db_password)
    ∷ (codes "sslmode", cfg.db_sslmode)
    ∷ [])

dsn-connection_string : (cfg : Config) → dsn cfg ≡ connection_string cfg
unfolding dsn
dsn-connection_string cfg = simp append_assoc

module _ (env : Bytes → Bytes) (read_file : Bytes → Option Bytes) (libs : Libraries)
    (aes : Bytes → Aead) where
  abbrev with_gcm : Config → Result Aead → Result Serving
  with_gcm cfg (err e) = err e
  with_gcm cfg (ok gcm) =
      if libs.templates then ok (record { cfg = cfg; gcm = gcm }) else err bad_templates

  abbrev opened : Config → Result (Unit {0}) → Result Serving
  opened cfg (err e) = err e
  opened cfg (ok _) = with_gcm cfg (new_encryptor aes cfg.encryption_key)

  abbrev configured : Result Config → Result Serving
  configured (err e) = err e
  configured (ok cfg) = opened cfg (both (new_db libs (dsn cfg)) (migrate libs))

  -- What comes before the first statement of the program's own.
  unfoldable pub prepared : Result Serving
  prepared = configured (load env read_file)

  -- The libraries open the database on a connection string, reach it, and migrate it.
  abbrev database_up : Bytes → Bool
  database_up s = libs.connects s && libs.ping && libs.set_dialect && libs.migrations_up

  -- A text is a key of 32 bytes in hexadecimal, or an error says how it is none.
  abbrev pub KeyOf : Bytes → Result Aead → Type 0
  KeyOf hex (ok gcm) =
      (key : Bytes) × (Hex.decode hex ≡ some key) × (length key ≡ 32) × (gcm ≡ aes key)
  KeyOf hex (err e) =
      ((Hex.decode hex ≡ none) × (e ≡ key_not_hex))
      ⊎ ((key : Bytes) × (Hex.decode hex ≡ some key) × (length key ≢ 32) × (e ≡ key_not_32_bytes))

  new_encryptor-KeyOf : (hex : Bytes) → KeyOf hex (new_encryptor aes hex)
  unfolding new_encryptor
  new_encryptor-KeyOf hex = elim (Option-cases (Hex.decode hex)) [
    | inl bad ↦ rw bad (inl (bad, refl))
    | inr (key, read) ↦ elim (Bool-cases (length key == 32)) [
      | inl fits ↦ rw (read, fits) (key, read, ground (arith, fits), refl)
      | inr other ↦ rw (read, other) (inr (key, read, ground (arith, other), refl))
    ]
  ]

  -- Every step of a start succeeded, with this configuration and this key.
  pub record IsReady (serving : Serving) : Type 0 where
    pub loads : load env read_file ≡ ok serving.cfg
    pub connects : libs.connects (connection_string serving.cfg) ≡ true
    pub pings : libs.ping ≡ true
    pub dialect : libs.set_dialect ≡ true
    pub migrates : libs.migrations_up ≡ true
    pub keyed : KeyOf serving.cfg.encryption_key (ok serving.gcm)
    pub templates_parse : libs.templates ≡ true

  -- The first step that failed, with what it reports.
  abbrev pub FailsWith : Error → Type 0
  FailsWith e =
      (load env read_file ≡ err e)
      ⊎ ((cfg : Config) × (load env read_file ≡ ok cfg)
          × (((database_up (connection_string cfg) ≡ false) × (e ≡ db_failure))
              ⊎ ((database_up (connection_string cfg) ≡ true)
                  × (KeyOf cfg.encryption_key (err e)
                      ⊎ ((gcm : Aead) × KeyOf cfg.encryption_key (ok gcm)
                          × (libs.templates ≡ false)
                          × (e ≡ bad_templates))))))

  -- How the steps before the first statement end.
  abbrev Prepares : Result Serving → Type 0
  Prepares (ok serving) = IsReady serving
  Prepares (err e) = FailsWith e

  database_steps :
      (s : Bytes)
      → both (new_db libs s) (migrate libs) ≡ (if database_up s then ok tt else err db_failure)
  unfolding new_db migrate
  database_steps s = ground arith

  keyed-Prepares :
      (cfg : Config)
      → load env read_file ≡ ok cfg
      → database_up (connection_string cfg) ≡ true
      → Prepares (with_gcm cfg (new_encryptor aes cfg.encryption_key))
  keyed-Prepares cfg l up =
      let known : (r : Result Aead)
          → new_encryptor aes cfg.encryption_key ≡ r
          → KeyOf cfg.encryption_key r =
        λ r k. subst (KeyOf cfg.encryption_key) k (new_encryptor-KeyOf cfg.encryption_key) in
      elim (Result-cases (new_encryptor aes cfg.encryption_key)) [
        | inl (e, k) ↦ rw k (inr (cfg, l, inr (up, inl (known _ k))))
        | inr (gcm, k) ↦
            let ends : Bool → Result Serving =
              λ parse. if parse then ok (record { cfg = cfg; gcm = gcm }) else err bad_templates in
            rw k (elim (Bool-cases libs.templates) [
              | inl fine ↦
                  subst (λ b. Prepares (ends b)) (sym fine)
                    (record {
                      loads = l;
                      connects = ground (arith, up);
                      pings = ground (arith, up);
                      dialect = ground (arith, up);
                      migrates = ground (arith, up);
                      keyed = known _ k;
                      templates_parse = fine;
                    })
              | inr bad ↦
                  subst (λ b. Prepares (ends b)) (sym bad)
                    (inr (cfg, l, inr (up, inr (gcm, known _ k, bad, refl))))
            ])
      ]

  opened-Prepares :
      (cfg : Config)
      → load env read_file ≡ ok cfg
      → Prepares (opened cfg (both (new_db libs (dsn cfg)) (migrate libs)))
  opened-Prepares cfg l = elim (Bool-cases (database_up (connection_string cfg))) [
    | inl up ↦
        rw (database_steps (dsn cfg), dsn-connection_string cfg, up) (keyed-Prepares cfg l up)
    | inr down ↦
        rw (database_steps (dsn cfg), dsn-connection_string cfg, down)
          (inr (cfg, l, inl (down, refl)))
  ]

  prepared-Prepares : Prepares prepared
  unfolding prepared
  prepared-Prepares = elim (Result-cases (load env read_file)) [
    | inl (e, l) ↦ rw l (inl l)
    | inr (cfg, l) ↦ rw l (opened-Prepares cfg l)
  ]

  module _ (parse_json : Bytes → Option (List BillBootstrap)) (random : Bytes → Option Bytes)
      (registry : Registry) (clock : Clock) (bills_json : Config → Option Bytes) where
    -- `main`: then come the bills of bills.json, and only then the loops and the server.
    unfoldable pub start : Exec Serving
    start = lift prepared >>= λ serving.
        ignoring
          (start_bills parse_json read_file serving.gcm random registry clock serving.cfg
            (bills_json serving.cfg))
          (pure serving)

    abbrev pub after : Serving → Db → Db
    after serving db =
        (start_bills parse_json read_file serving.gcm random registry clock serving.cfg
          (bills_json serving.cfg) db).1

    -- What a start comes to, from a database.
    abbrev pub Starts : Db → Type 0
    Starts db =
        ((e : Error) × FailsWith e × (start db ≡ (err e, db)))
        ⊎ ((serving : Serving) × IsReady serving × (start db ≡ (ok serving, after serving db)))

    start_of : (db : Db) (p : Result Serving) → prepared ≡ p → Prepares p → Starts db
    unfolding start attempt lift ◌>>=◌
    start_of db (err e) is fails = inl (e, fails, rw is refl)
    start_of db (ok serving) is ready =
        inr (serving, ready, rw is (ignoring_runs _ (pure serving) db ∙ (unfold pure in refl)))

    -- A start either stops with the error of the first step that failed, the settings, the database
    -- at their connection string, the key, which is 32 bytes in hexadecimal, or the templates, and
    -- has run no statement of the program's own; or all of these succeeded, and the process serves
    -- with the configuration that was loaded and the cipher under its key, behind the bootstrap of
    -- the bills, whatever statements fail in it.
    pub start_outcome : (db : Db) → Starts db
    start_outcome db = start_of db prepared refl prepared-Prepares
