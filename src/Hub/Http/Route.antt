-- ===== src/Hub/Http/Route.antt =====
-- Which paths are git requests.
use wkp.Base.{
  ◌<◌, ◌≡◌, refl, sym, ap, ap₂, ◌∙◌, subst, ◌↔◌, inl, inr, true, false, Option, none, some, [], ◌∷◌,
  ◌++◌, arith, ◌==◌, if◌then◌else◌, ==_iff, Bool-cases, Option-cases, length, is_empty,
  length-append,
}
use wkp.Str.{Text, codes, text_eq, strip_prefix, split_once}
use wkp.Str.Laws.{
  split_once_sound, split_once-has_no, has_no_prefix, has_no-append, has_no, split_once_first,
  text_eq_iff,
}
use wkp.Hub.Http.{strip_suffix, route_of, repo_route, rest_route, git_http_path}

strip_suffix_sound : (suffix t r : Text) → strip_suffix suffix t ≡ some r → t ≡ r ++ suffix
unfolding strip_suffix
strip_suffix_sound suffix [] r h = cc
strip_suffix_sound suffix (c ∷ cs) r h = elim (Option-cases (strip_suffix suffix cs)) [
  | inl e ↦ ground (arith, h, e, text_eq_iff (c ∷ cs) suffix)
  | inr (r', e) ↦
      let rest = strip_suffix_sound suffix cs r' e in
      ground (arith, h, e, rest, text_eq_iff (c ∷ cs) suffix)
]

longer-differs : (a b : Text) → length b < length a → text_eq a b ≡ false
unfolding text_eq
longer-differs [] b h = absurd (omega arith)
longer-differs (x ∷ a) [] h = refl
longer-differs (x ∷ a) (y ∷ b) h = ground (arith, longer-differs a b, h)

strip_suffix-git : (slug : Text) → strip_suffix (codes ".git") (slug ++ codes ".git") ≡ some slug
unfolding strip_suffix
strip_suffix-git [] = unfold text_eq in refl
strip_suffix-git (c ∷ slug) =
    let longer =
      longer-differs ((c ∷ slug) ++ codes ".git") (codes ".git")
        (omega (arith, length-append slug (codes ".git"))) in
    rw (longer, strip_suffix-git slug) refl

-- A path and the route that it is.
abbrev pub git_path : Text → Text → Text
git_path slug suffix = b'/' ∷ ((slug ++ codes ".git") ++ b'/' ∷ suffix)

pub record IsRoute (path slug suffix : Text) : Type 0 where
  pub spelled : path ≡ git_path slug suffix
  pub slug_solid : is_empty slug ≡ false
  pub suffix_solid : is_empty suffix ≡ false
  pub one_part : has_no b'/' slug ≡ true

route_of_sound :
    (o : Option Text) (suffix slug rest : Text)
    → route_of o suffix ≡ some (slug, rest)
    → (o ≡ some slug) × (suffix ≡ rest) × (is_empty slug ≡ false) × (is_empty rest ≡ false)
route_of_sound none suffix slug rest h = cc
route_of_sound (some []) suffix slug rest h = cc
route_of_sound (some (c ∷ s)) [] slug rest h = cc
route_of_sound (some (c ∷ s)) (d ∷ suffix) slug rest h =
    (cc, cc, ground (arith, h), ground (arith, h))

repo_route_sound :
    (t slug suffix : Text) (o : Option (Text × Text))
    → split_once b'/' t ≡ o
    → repo_route o ≡ some (slug, suffix)
    → IsRoute (b'/' ∷ t) slug suffix
repo_route_sound t slug suffix none e h = cc
repo_route_sound t slug suffix (some (repo, rest)) e h =
    let (stripped, same, solid, solid') = route_of_sound _ rest slug suffix h in
    let repo_is = strip_suffix_sound (codes ".git") repo slug stripped in
    record {
      spelled =
          ap (λ x. b'/' ∷ x)
            (split_once_sound b'/' t repo rest e ∙ ap₂ (λ r s. r ++ b'/' ∷ s) repo_is same);
      slug_solid = solid;
      suffix_solid = solid';
      one_part =
          has_no_prefix b'/' slug (codes ".git")
            (subst (λ r. has_no b'/' r ≡ true) repo_is (split_once-has_no b'/' t repo rest e));
    }

git_http_path_sound :
    (path slug suffix : Text) → git_http_path path ≡ some (slug, suffix) → IsRoute path slug suffix
unfolding git_http_path strip_prefix
git_http_path_sound [] slug suffix h = cc
git_http_path_sound (c ∷ t) slug suffix h = elim (Bool-cases (b'/' == c)) [
  | inl e ↦
      let is_slash : b'/' ≡ c = ground (arith, ==_iff b'/' c, e) in
      let tested : (if b'/' == c then some t else none) ≡ some t = rw e refl in
      let routed = sym (ap rest_route tested) ∙ h in
      subst (λ d. IsRoute (d ∷ t) slug suffix) is_slash
        (repo_route_sound t slug suffix (split_once b'/' t) refl routed)
  | inr e ↦ absurd (ground (arith, h, e))
]

git_http_path_complete :
    (slug suffix : Text)
    → is_empty slug ≡ false
    → is_empty suffix ≡ false
    → has_no b'/' slug ≡ true
    → git_http_path (git_path slug suffix) ≡ some (slug, suffix)
unfolding git_http_path strip_prefix
git_http_path_complete slug suffix solid solid' one =
    rw
      (
        split_once_first b'/' (slug ++ codes ".git") suffix
            (has_no-append b'/' slug (codes ".git") one refl),
        strip_suffix-git slug,
        solid,
        solid',
      )
      refl

-- A path is a git request for the tenant `slug` with the service path `suffix` exactly where it is
-- `/<slug>.git/<suffix>`, neither of the two is empty and the slug has no `/`.
pub git_http_path_iff :
    (path slug suffix : Text)
    → (git_http_path path ≡ some (slug, suffix)) ↔ IsRoute path slug suffix
git_http_path_iff path slug suffix = (
  git_http_path_sound path slug suffix,
  λ route.
      ap git_http_path (IsRoute.spelled route)
      ∙ git_http_path_complete slug suffix (IsRoute.slug_solid route) (IsRoute.suffix_solid route)
          (IsRoute.one_part route),
)
