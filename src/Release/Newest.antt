-- ===== src/Release/Newest.antt =====
-- The tag that a check of the dev tags reports, among those of the pages that it reads.
use billtracker_plugin.Base.{
  ℕ, zero, suc, ◌≡◌, refl, subst, inl, inr, Bool, true, false, Bool-cases, ◌&&◌, Option, none, some,
  List, [], ◌∷◌, ◌++◌, append_assoc, append-nil, Bytes, length, ltb, if◌then◌else◌, All, All-append,
  All-imp, Any, Any-append_right,
}
use billtracker_plugin.Errors.{Result, ok, err}
use billtracker_plugin.Release.{
  Info, Semver, GithubTag, Best, parse_version, trim_v, better, consider, best_of, on_page,
  best_of_pages, told, check_dev_tags,
}
use billtracker_plugin.Release.Order.{later, later_transitive, later_irreflexive}

-- The version of a tag.
abbrev pub version_of : GithubTag → Option Semver
version_of t = parse_version (trim_v t.name)

-- Where the tag has a dev version, `v` is at least that.
abbrev pub NoLater : Semver → GithubTag → Type 0
NoLater v u = (w : Semver) → version_of u ≡ some w → w.dev ≡ true → later w v ≡ false

-- Whether an optional version is a dev version later than `v`.
abbrev pub outruns : Semver → Option Semver → Bool
outruns v none = false
outruns v (some w) = w.dev && later w v

and_false : (a b : Bool) → b ≡ false → (a && b) ≡ false
and_false true b h = h
and_false false b h = refl

outruns_at :
    (v : Semver) (u : GithubTag) (o : Option Semver)
    → version_of u ≡ o
    → NoLater v u
    → outruns v o ≡ false
outruns_at v u none e h = refl
outruns_at v u (some w) e h = elim (Bool-cases w.dev) [
  | inl d ↦ and_false w.dev (later w v) (h w e d)
  | inr d ↦ rw d
]

outruns_none : (v : Semver) (u : GithubTag) → NoLater v u → outruns v (version_of u) ≡ false
outruns_none v u h = outruns_at v u (version_of u) refl h

abbrev NoDev : GithubTag → Type 0
NoDev u = (w : Semver) → version_of u ≡ some w → w.dev ≡ true → ⊥

-- `best` is the newest dev tag of those seen; none where none of them is one.
abbrev Newest : List GithubTag → Best → Type 0
Newest seen none = All NoDev seen
Newest seen (some (v, t)) =
    (version_of t ≡ some v) × (v.dev ≡ true) × Any (λ u. u ≡ t) seen × All (NoLater v) seen

Any-append_left : {A : Type 0} (P : A → Type 0) (xs ys : List A) → Any P xs → Any P (xs ++ ys)
Any-append_left P [] ys h = elim h [ ]
Any-append_left P (x ∷ xs) ys (inl h) = inl h
Any-append_left P (x ∷ xs) ys (inr h) = inr (Any-append_left P xs ys h)

-- The version of a tag is one.
one_version : (t : GithubTag) (v w : Semver) → version_of t ≡ some v → version_of t ≡ some w → v ≡ w
one_version t v w e f = cc

NoLater-self : (t : GithubTag) (v : Semver) → version_of t ≡ some v → NoLater v t
NoLater-self t v e w f d =
    let is : v ≡ w = one_version t v w e f in
    subst (λ x. later x v ≡ false) is (later_irreflexive v)

-- What comes no later than `b` comes no later than what is later than `b`.
NoLater-later : (v b : Semver) → later v b ≡ true → (u : GithubTag) → NoLater b u → NoLater v u
NoLater-later v b h u k w e d = elim (Bool-cases (later w v)) [
  | inl l ↦
      let le : later w b ≡ false = k w e d in
      let ge : later w b ≡ true = later_transitive w v b l h in cc
  | inr l ↦ l
]

NoDev-NoLater : (v : Semver) (u : GithubTag) → NoDev u → NoLater v u
NoDev-NoLater v u h w e d = elim (h w e d) [ ]

skip_none : (t : GithubTag) → version_of t ≡ none → NoDev t
skip_none t e w g d = cc

skip_dev : (t : GithubTag) (v : Semver) → version_of t ≡ some v → v.dev ≡ false → NoDev t
skip_dev t v e f w g d = let is : v ≡ w = one_version t v w e g in cc

Newest-skip :
    (seen : List GithubTag) (best : Best) (t : GithubTag)
    → NoDev t
    → Newest seen best
    → Newest (seen ++ t ∷ []) best
Newest-skip seen none t h n = All-append NoDev seen (t ∷ []) n (h, tt)
Newest-skip seen (some (v, u)) t h (e, d, from, all) = (
  e,
  d,
  Any-append_left _ seen (t ∷ []) from,
  All-append (NoLater v) seen (t ∷ []) all (NoDev-NoLater v t h, tt),
)

Newest-better :
    (seen : List GithubTag) (best : Best) (t : GithubTag) (v : Semver)
    → version_of t ≡ some v
    → v.dev ≡ true
    → Newest seen best
    → Newest (seen ++ t ∷ []) (better v t best)
Newest-better seen none t v e d n = (
  e,
  d,
  Any-append_right _ seen (t ∷ []) (inl refl),
  All-append (NoLater v) seen (t ∷ []) (All-imp _ seen (NoDev-NoLater v) n)
      (NoLater-self t v e, tt),
)
Newest-better seen (some (b, u)) t v e d (eb, db, from, all) = elim (Bool-cases (later v b)) [
  | inl l ↦ rw l (
    e,
    d,
    Any-append_right _ seen (t ∷ []) (inl refl),
    All-append (NoLater v) seen (t ∷ []) (All-imp _ seen (NoLater-later v b l) all)
        (NoLater-self t v e, tt),
  )
  | inr l ↦ rw l (
    eb,
    db,
    Any-append_left _ seen (t ∷ []) from,
    All-append (NoLater b) seen (t ∷ []) all
        ((λ w f _. subst (λ x. later x b ≡ false) (one_version t v w e f) l), tt),
  )
]

either_best :
    (P : Best → Type 0) (b : Bool) (x y : Best)
    → (b ≡ true → P x)
    → (b ≡ false → P y)
    → P (if b then x else y)
either_best P true x y f g = f refl
either_best P false x y f g = g refl

Newest-consider :
    (seen : List GithubTag) (best : Best) (t : GithubTag) (o : Option Semver)
    → version_of t ≡ o
    → Newest seen best
    → Newest (seen ++ t ∷ []) (consider best t o)
Newest-consider seen best t none e n = Newest-skip seen best t (skip_none t e) n
Newest-consider seen best t (some v) e n =
    either_best (Newest (seen ++ t ∷ [])) v.dev (better v t best) best
      (λ d. Newest-better seen best t v e d n) (λ d. Newest-skip seen best t (skip_dev t v e d) n)

Newest-best_of :
    (seen ts : List GithubTag) (best : Best)
    → Newest seen best
    → Newest (seen ++ ts) (best_of best ts)
unfolding best_of
Newest-best_of seen [] best n = rw append-nil n
Newest-best_of seen (t ∷ ts) best n =
    subst (λ s. Newest s (best_of best (t ∷ ts))) (append_assoc seen (t ∷ []) ts)
      (Newest-best_of (seen ++ t ∷ []) ts _ (Newest-consider seen best t (version_of t) refl n))

module _ (tags : ℕ → Result (List GithubTag)) (subject : Bytes → Bytes) where
  abbrev then_read : List GithubTag → Result (List GithubTag) → List GithubTag
  then_read rest (err e) = []
  then_read rest (ok ts) = if ltb (length ts) 100 then ts else ts ++ rest

  -- The tags of the pages that are read: up to a page that is not full, and `left` at most.
  abbrev pub tags_read : ℕ → ℕ → List GithubTag
  tags_read zero page = []
  tags_read (suc left) page = then_read (tags_read left (suc page)) (tags page)

  Newest-on_page :
      (seen rest : List GithubTag) (best r : Best) (go_on : Best → Result Best)
      (page : Result (List GithubTag))
      → ((seen : List GithubTag) (best : Best)
          → go_on best ≡ ok r
          → Newest seen best
          → Newest (seen ++ rest) r)
      → on_page tags subject go_on best page ≡ ok r
      → Newest seen best
      → Newest (seen ++ then_read rest page) r
  Newest-on_page seen rest best r go_on (err e) k h n = cc
  Newest-on_page seen rest best r go_on (ok ts) k h n = elim (Bool-cases (ltb (length ts) 100)) [
    | inl full ↦
        let stops : ok (best_of best ts) ≡ ok r =
          subst (λ b. (if b then ok (best_of best ts) else go_on (best_of best ts)) ≡ ok r) full
            h in
        let is : best_of best ts ≡ r = cc in rw (full, ← is) (Newest-best_of seen ts best n)
    | inr full ↦
        let goes : go_on (best_of best ts) ≡ ok r =
          subst (λ b. (if b then ok (best_of best ts) else go_on (best_of best ts)) ≡ ok r) full
            h in
        rw full (
          subst (λ s. Newest s r) (append_assoc seen ts rest)
            (k (seen ++ ts) (best_of best ts) goes (Newest-best_of seen ts best n)))
  ]

  Newest-best_of_pages :
      (left page : ℕ) (r : Best) (seen : List GithubTag) (best : Best)
      → best_of_pages tags subject left page best ≡ ok r
      → Newest seen best
      → Newest (seen ++ tags_read left page) r
  unfolding best_of_pages
  Newest-best_of_pages zero page r seen best h n = let is : best ≡ r = cc in rw (append-nil, ← is) n
  Newest-best_of_pages (suc left) page r seen best h n =
      Newest-on_page seen (tags_read left (suc page)) best r _ (tags page)
        (Newest-best_of_pages left (suc page) r) h n

  Reported : Info → Result Best → Type 0
  Reported info (err e) = ⊥
  Reported info (ok none) = ⊥
  Reported info (ok (some (v, t))) = info.version ≡ trim_v t.name

  told_lem : (info : Info) (r : Result Best) → told tags subject r ≡ ok info → Reported info r
  unfolding Reported
  told_lem info (err e) h = cc
  told_lem info (ok none) h = cc
  told_lem info (ok (some (v, t))) h = cc

  abbrev Found : Info → Type 0
  Found info =
      (v : Semver) × (t : GithubTag) × Any (λ u. u ≡ t) (tags_read 10 1)
      × (info.version ≡ trim_v t.name)
      × (version_of t ≡ some v)
      × (v.dev ≡ true)
      × All (λ u. outruns v (version_of u) ≡ false) (tags_read 10 1)

  found :
      (info : Info) (r : Result Best)
      → Reported info r
      → best_of_pages tags subject 10 1 none ≡ r
      → Found info
  unfolding Reported
  found info (err e) h is = elim h [ ]
  found info (ok none) h is = elim h [ ]
  found info (ok (some (v, t))) h is =
      let (e, d, from, all) = Newest-best_of_pages 10 1 (some (v, t)) [] none is tt in
      (v, t, from, h, e, d, All-imp _ (tags_read 10 1) (outruns_none v) all)

  -- Where a check reports a version, it is that of a dev tag of the pages read, and no dev tag of
  -- those pages is later.
  pub check_dev_tags_newest :
      (info : Info)
      → check_dev_tags tags subject ≡ ok info
      → (v : Semver) × (t : GithubTag) × Any (λ u. u ≡ t) (tags_read 10 1)
        × (info.version ≡ trim_v t.name)
        × (version_of t ≡ some v)
        × (v.dev ≡ true)
        × All (λ u. outruns v (version_of u) ≡ false) (tags_read 10 1)
  unfolding check_dev_tags Reported
  check_dev_tags_newest info h =
      found info (best_of_pages tags subject 10 1 none) (told_lem info _ h) refl
