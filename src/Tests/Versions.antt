-- ===== src/Tests/Versions.antt =====
-- Versions of the plugin.
use billtracker_plugin.Base.{
  ℕ, ◌≡◌, refl, [], ◌∷◌, some, true, false, codes, List, All, Any, same, cut_prefix,
}
use billtracker_plugin.Base.Atoi.{atoi, digits_from}
use billtracker_plugin.Errors.{Result, ok}
use billtracker_plugin.Release.{
  Info, Semver, GithubTag, parse_version, cut_dev, split_dots, compare_versions, cmp_int, is_newer,
  trim_v, best_of, best_of_pages, check_dev_tags,
}
use billtracker_plugin.Release.Order.{is_newer_strict_order}
use billtracker_plugin.Release.Newest.{version_of, outruns, tags_read, check_dev_tags_newest}

-- A development version is older than its release.
dev_is_older : is_newer (codes "1.2.3-dev") (codes "1.2.3") ≡ true
unfolding is_newer parse_version cut_dev split_dots compare_versions cmp_int atoi digits_from same
dev_is_older = refl

ten_after_nine : is_newer (codes "1.9.0") (codes "1.10.0") ≡ true
unfolding is_newer parse_version cut_dev split_dots compare_versions cmp_int atoi digits_from same
ten_after_nine = refl

two_is_newer : is_newer (codes "1.10.0") (codes "2.0.0") ≡ true
unfolding is_newer parse_version cut_dev split_dots compare_versions cmp_int atoi digits_from same
two_is_newer = refl

is_newer_strict_order_example :
    (is_newer (codes "1.9.0") (codes "2.0.0") ≡ true)
    × (is_newer (codes "1.10.0") (codes "1.9.0") ≡ false)
is_newer_strict_order_example =
    is_newer_strict_order (codes "1.9.0") (codes "1.10.0") (codes "2.0.0") ten_after_nine
      two_is_newer

-- GitHub answers one page.
abbrev page : ℕ → Result (List GithubTag)
page n = ok (
    record { name = codes "v1.2.3-dev"; sha = [] }
    ∷ record { name = codes "v1.3.0"; sha = [] }
    ∷ record { name = codes "v1.2.4-dev"; sha = [] }
    ∷ [])

abbrev found : Info
found = record { version = codes "1.2.4-dev"; changelog = [] }

newest_found : check_dev_tags page (λ sha. []) ≡ ok found
unfolding check_dev_tags best_of_pages best_of parse_version cut_dev split_dots compare_versions
    cmp_int atoi digits_from same cut_prefix
newest_found = refl

check_dev_tags_newest_example :
    (v : Semver) × (t : GithubTag) × Any (λ u. u ≡ t) (tags_read page (λ sha. []) 10 1)
    × (codes "1.2.4-dev" ≡ trim_v t.name)
    × (version_of t ≡ some v)
    × (v.dev ≡ true)
    × All (λ u. outruns v (version_of u) ≡ false) (tags_read page (λ sha. []) 10 1)
check_dev_tags_newest_example = check_dev_tags_newest page (λ sha. []) found newest_found
