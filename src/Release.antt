-- ===== src/Release.antt =====
-- internal/release/release.go: the plugin's versions, and the newest one on GitHub; cache.go; and
-- internal/handlers/version.go. GitHub's answers are parameters.
pub mod Order
pub mod Newest
pub mod Github
use billtracker_plugin.Base.{
  ℕ, suc, ◌+◌, ◌-◌, Bool, true, false, not, ◌&&◌, Option, none, some, List, [], ◌∷◌, ◌++◌, Bytes,
  codes, same, is_empty, length, take, drop, ltb, leb, ◌==◌, if◌then◌else◌, cut_prefix,
}
use billtracker_plugin.Base.Int.{ℤ, pos, negsuc, ltb_ℤ}
use billtracker_plugin.Base.Atoi.{atoi}
use billtracker_plugin.Errors.{Error, Result, ok, err, no_dev_tags}

pub record Info : Type 0 where
  pub version : Bytes
  pub changelog : Bytes

-- `semver`.
pub record Semver : Type 0 where
  pub major : ℤ
  pub minor : ℤ
  pub patch : ℤ
  pub dev : Bool

abbrev dev_suffix : Bytes
dev_suffix = codes "-dev"

-- `strings.HasSuffix(s, "-dev")` with `strings.TrimSuffix`; `none` without the suffix.
unfoldable pub cut_dev : Bytes → Option Bytes
cut_dev s =
    let n = length s - length dev_suffix in
    if leb (length dev_suffix) (length s) && same (drop n s) dev_suffix
    then some (take n s)
    else none

abbrev pub is_dev : Bytes → Bool
is_dev s = leb 4 (length s) && same (drop (length s - 4) s) dev_suffix

abbrev with_first : ℕ → List Bytes → List Bytes
with_first c [] = (c ∷ []) ∷ []
with_first c (p ∷ ps) = (c ∷ p) ∷ ps

-- `strings.Split(s, ".")`.
unfoldable pub split_dots : Bytes → List Bytes
split_dots [] = [] ∷ []
split_dots (c ∷ s) = let rest = split_dots s in if c == b'.' then [] ∷ rest else with_first c rest

abbrev numbered : Bool → Option ℤ → Option ℤ → Option ℤ → Option Semver
numbered is_dev (some a) (some b) (some c) =
    some (record { major = a; minor = b; patch = c; dev = is_dev })
numbered is_dev _ _ _ = none

abbrev of_parts : Bool → List Bytes → Option Semver
of_parts is_dev (a ∷ b ∷ c ∷ []) = numbered is_dev (atoi a) (atoi b) (atoi c)
of_parts is_dev _ = none

abbrev of_cut : Bytes → Option Bytes → Option Semver
of_cut v none = of_parts false (split_dots v)
of_cut v (some rest) = of_parts true (split_dots rest)

-- `parseVersion`.
unfoldable pub parse_version : Bytes → Option Semver
parse_version v = of_cut v (cut_dev v)

-- `cmpInt`: -1, 0 or 1.
unfoldable pub cmp_int : ℤ → ℤ → ℤ
cmp_int a b = if ltb_ℤ a b then negsuc 0 else if ltb_ℤ b a then pos 1 else pos 0

-- `a != b` on int.
abbrev pub differ : ℤ → ℤ → Bool
differ (pos a) (pos b) = not (a == b)
differ (negsuc a) (negsuc b) = not (a == b)
differ (pos a) (negsuc b) = true
differ (negsuc a) (pos b) = true

abbrev pub cmp_dev : Bool → Bool → ℤ
cmp_dev true false = negsuc 0
cmp_dev false true = pos 1
cmp_dev true true = pos 0
cmp_dev false false = pos 0

-- `compareVersions`.
unfoldable pub compare_versions : Semver → Semver → ℤ
compare_versions a b =
    if differ a.major b.major
    then cmp_int a.major b.major
    else if differ a.minor b.minor
    then cmp_int a.minor b.minor
    else if differ a.patch b.patch
    then cmp_int a.patch b.patch
    else cmp_dev a.dev b.dev

abbrev is_later : Option Semver → Option Semver → Bool
is_later (some c) (some l) = ltb_ℤ (pos 0) (compare_versions l c)
is_later _ _ = false

-- `IsNewer`.
unfoldable pub is_newer : Bytes → Bytes → Bool
is_newer current latest = is_later (parse_version current) (parse_version latest)

abbrev trimmed : Bytes → Option Bytes → Bytes
trimmed s none = s
trimmed s (some rest) = rest

-- `strings.TrimPrefix(s, "v")`.
abbrev pub trim_v : Bytes → Bytes
trim_v s = trimmed s (cut_prefix s (codes "v"))

pub record GithubTag : Type 0 where
  pub name : Bytes
  pub sha : Bytes

-- `best` and `bestTag`.
abbrev pub Best : Type 0
Best = Option (Semver × GithubTag)

abbrev better : Semver → GithubTag → Best → Best
better v t none = some (v, t)
better v t (some (b, u)) = if ltb_ℤ (pos 0) (compare_versions v b) then some (v, t) else some (b, u)

abbrev consider : Best → GithubTag → Option Semver → Best
consider best t none = best
consider best t (some v) = if v.dev then better v t best else best

-- The loop over the tags of a page.
unfoldable pub best_of : Best → List GithubTag → Best
best_of best [] = best
best_of best (t ∷ ts) = best_of (consider best t (parse_version (trim_v t.name))) ts

-- `tags` is what GitHub answers for a page, `subject` is `commitSubject`.
module _ (tags : ℕ → Result (List GithubTag)) (subject : Bytes → Bytes) where
  abbrev on_page : (Best → Result Best) → Best → Result (List GithubTag) → Result Best
  on_page go_on best (err e) = err e
  on_page go_on best (ok ts) =
      let best' = best_of best ts in if ltb (length ts) 100 then ok best' else go_on best'

  -- The loop over `left` more pages, from `page` on.
  unfoldable pub best_of_pages : ℕ → ℕ → Best → Result Best
  best_of_pages ℕ.zero page best = ok best
  best_of_pages (suc left) page best = on_page (best_of_pages left (suc page)) best (tags page)

  abbrev told : Result Best → Result Info
  told (err e) = err e
  told (ok none) = err no_dev_tags
  told (ok (some (v, t))) =
      ok (record {
        version = trim_v t.name;
        changelog = if is_empty t.sha then [] else subject t.sha;
      })

  -- `checkDevTags`: at most 10 pages.
  unfoldable pub check_dev_tags : Result Info
  check_dev_tags = told (best_of_pages 10 1 none)

  -- `CheckForUpdate`; `latest_release` is `checkLatestRelease`.
  unfoldable pub check_for_update : Result Info → Bytes → Result Info
  check_for_update latest_release current =
      if is_dev current then check_dev_tags else latest_release

-- internal/scheduler/scheduler.go: `checkVersion`, over what the cache holds and what the check
-- gives: a failed check leaves the cache as it is. The cache's `Get` and `Set` are the value itself.
unfoldable pub check_version : Option Info → Result Info → Option Info
check_version cached (err e) = cached
check_version cached (ok info) = some info

pub record GithubRelease : Type 0 where
  pub tag_name : Bytes
  pub name : Bytes
  pub body : Bytes

-- What `checkLatestRelease` makes of GitHub's answer.
unfoldable pub check_latest_release : Result GithubRelease → Result Info
check_latest_release (err e) = err e
check_latest_release (ok r) =
    ok (record {
      version = trim_v r.tag_name;
      changelog = if is_empty r.body then r.name else r.body;
    })

-- `versionResponse`; `channel_is_dev` is its channel.
pub record VersionResponse : Type 0 where
  pub version : Bytes
  pub upgrade_available : Bool
  pub upgrade_version : Bytes
  pub changelog : Bytes
  pub channel : Bytes

abbrev current_only : Bytes → VersionResponse
current_only v = record {
  version = v;
  upgrade_available = false;
  upgrade_version = [];
  changelog = [];
  channel = if is_dev v then codes "dev" else codes "release";
}

-- `GetVersion`, over what the cache holds.
unfoldable pub get_version : Bytes → Option Info → VersionResponse
get_version v none = current_only v
get_version v (some info) =
    if is_newer v info.version
    then record (current_only v) {
      upgrade_available = true;
      upgrade_version = info.version;
      changelog = info.changelog;
    }
    else current_only v
