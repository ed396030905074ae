-- ===== src/Release/Github.antt =====
-- internal/release/release.go: the requests to GitHub. The answers are parameters, and so is the JSON
-- in them; the requests differ in their addresses only.
use billtracker_plugin.Base.{
  ℕ, Option, none, some, List, [], ◌∷◌, ◌++◌, Bytes, codes, ◌==◌, if◌then◌else◌,
}
use billtracker_plugin.Base.Decimal.{decimal}
use billtracker_plugin.Errors.{Result, ok, err, request_failed, bad_status, bad_response}
use billtracker_plugin.Release.{
  Info, GithubTag, GithubRelease, check_for_update, check_latest_release,
}

abbrev github_api_base : Bytes
github_api_base = codes "https://api.github.com"

pub record GithubResponse : Type 0 where
  pub status_code : ℕ
  pub body : Bytes

-- What `json.NewDecoder(resp.Body).Decode` makes of a body, for each type that is asked for.
pub record Decoders : Type 0 where
  pub tags : Bytes → Option (List GithubTag)
  pub release : Bytes → Option GithubRelease
  -- the message of a `githubCommit`
  pub commit : Bytes → Option Bytes

abbrev decoded : {A : Type 0} → Option A → Result A
decoded none = err bad_response
decoded (some a) = ok a

abbrev in_body : {A : Type 0} → (Bytes → Option A) → Option GithubResponse → Result A
in_body decode none = err request_failed
in_body decode (some r) =
    if r.status_code == 200 then decoded (decode r.body) else err (bad_status r.status_code)

abbrev repository : Bytes → Bytes
repository repo = github_api_base ++ codes "/repos/" ++ repo

-- `strings.Cut(message, "\n")`, of which the first part is used.
unfoldable pub first_line : Bytes → Bytes
first_line [] = []
first_line (c ∷ s) = let rest = first_line s in if c == 10 then [] else c ∷ rest

abbrev subject_of : Result Bytes → Bytes
subject_of (err e) = []
subject_of (ok message) = first_line message

-- `send` gives GitHub's answer to a GET of an address, if there is one.
module _ (send : Bytes → Option GithubResponse) (decoders : Decoders) (repo : Bytes) where
  abbrev tags_url : ℕ → Bytes
  tags_url page = repository repo ++ codes "/tags?per_page=100&page=" ++ decimal page

  -- The tags of a page, in `checkDevTags`.
  abbrev tags_on : ℕ → Result (List GithubTag)
  tags_on page = in_body decoders.tags (send (tags_url page))

  -- `commitSubject`: the empty text where the request fails.
  unfoldable pub commit_subject : Bytes → Bytes
  commit_subject sha =
      subject_of (in_body decoders.commit (send (repository repo ++ codes "/commits/" ++ sha)))

  abbrev latest : Result GithubRelease
  latest = in_body decoders.release (send (repository repo ++ codes "/releases/latest"))

  -- `CheckForUpdate`, with what it asks of GitHub.
  unfoldable pub ask_github : Bytes → Result Info
  ask_github current = check_for_update tags_on commit_subject (check_latest_release latest) current
