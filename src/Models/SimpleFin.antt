-- ===== src/Models/SimpleFin.antt =====
-- internal/models/simplefin_connection.go: `SimpleFinConnectionStore`.
pub mod Atomic
use billtracker_plugin.Base.{ℕ, suc, Option, none, some, List, [], ◌∷◌, ◌++◌, Bytes, ◌==◌, update}
use billtracker_plugin.Errors.{Error, Result, ok, err, no_simplefin_connection}
use billtracker_plugin.Models.Rows.{Instant, SimpleFinConnection, Tables}
use billtracker_plugin.Models.Database.{Exec, statement, transaction, ◌>>=◌, ◌>>◌}

abbrev pub scan_connection : List SimpleFinConnection → Result SimpleFinConnection
scan_connection [] = err no_simplefin_connection
scan_connection (c ∷ cs) = ok c

-- `Get`, with LIMIT 1.
unfoldable pub get : Exec SimpleFinConnection
get = statement λ t. (scan_connection t.simplefin_connections, t)

-- `Disconnect`, which is also the first statement of `Connect`.
unfoldable pub disconnect : Exec (Unit {0})
disconnect = statement λ t. (ok tt, record t { simplefin_connections = [] })

abbrev pub new_connection : ℕ → Instant → Bytes → SimpleFinConnection
new_connection id now url = record {
  id = id;
  encrypted_access_url = url;
  connected_at = now;
  last_synced_at = none;
  last_sync_error = none;
}

unfoldable pub insert_connection : Instant → Bytes → Exec (Unit {0})
insert_connection now url = statement λ t. (
  ok tt,
  record t {
    simplefin_connections = t.simplefin_connections ++ new_connection t.next_simplefin now url ∷ [];
    next_simplefin = suc t.next_simplefin;
  },
)

-- `BeginTx` and `Commit` send a statement each, which may fail too.
unfoldable pub begin_or_commit : Exec (Unit {0})
begin_or_commit = statement λ t. (ok tt, t)

-- `Connect`.
unfoldable pub connect : Instant → Bytes → Exec (Unit {0})
connect now url =
    transaction do begin_or_commit; disconnect; insert_connection now url; begin_or_commit

abbrev synced : Instant → Option Error → SimpleFinConnection → SimpleFinConnection
synced now e c = record c { last_synced_at = some now; last_sync_error = e }

-- `MarkSynced`.
unfoldable pub mark_synced : Instant → ℕ → Option Error → Exec (Unit {0})
mark_synced now id e = statement λ t. (
  ok tt,
  record t {
    simplefin_connections = update (λ c. c.id == id) (synced now e) t.simplefin_connections;
  },
)
