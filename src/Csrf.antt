-- ===== src/Csrf.antt =====
-- quansec/core/csrf.py: the double-submit check, and the cookies that it writes. A random token is an
-- argument. `hmac.compare_digest` raises TypeError on a text with a character above 127.
use quansec_pqc_platform.Prelude.{
  ℕ, ◌*◌, Bool, true, false, ◌&&◌, Option, none, some, Text, codes, all, ltb, eq_text, truthy,
  if◌then◌else◌, ◌++◌,
}
use quansec_pqc_platform.Http.{Request}

-- The `settings` of the two cookies.
pub record CookieSettings : Type 0 where
  pub refresh_name : Text
  pub csrf_name : Text
  pub csrf_header : Text
  pub secure : Bool
  pub same_site : Text
  pub path : Text
  pub domain : Option Text
  pub refresh_ttl_days : ℕ

pub record Cookie : Type 0 where
  pub key : Text
  pub value : Text
  pub httponly : Bool
  pub secure : Bool
  pub same_site : Text
  pub path : Text
  pub domain : Option Text
  pub max_age : ℕ

-- response.set_cookie, response.delete_cookie
pub data SetCookie : Type 0 where
  set_cookie : Cookie → SetCookie
  delete_cookie : Text → Text → Option Text → SetCookie

-- Both cookies are set alike, but for the name and `httponly`.
abbrev pub cookie : CookieSettings → Text → Text → Bool → Cookie
cookie s key value httponly = record {
  key = key;
  value = value;
  httponly = httponly;
  secure = s.secure;
  same_site = s.same_site;
  path = s.path;
  domain = s.domain;
  max_age = s.refresh_ttl_days * 24 * 3600;
}

abbrev pub set_csrf_cookie : CookieSettings → Text → SetCookie
set_csrf_cookie s token = set_cookie (cookie s s.csrf_name token false)

abbrev pub clear_csrf_cookie : CookieSettings → SetCookie
clear_csrf_cookie s = delete_cookie s.csrf_name s.path s.domain

-- `not value` is false
abbrev pub given : Option Text → Bool
given none = false
given (some t) = truthy t

abbrev pub or_empty : Option Text → Text
or_empty none = codes ""
or_empty (some t) = t

abbrev pub is_ascii : Text → Bool
is_ascii = all (λ c. ltb c 128)

-- `none` is the TypeError.
unfoldable pub compare_digest : Text → Text → Option Bool
compare_digest a b = if is_ascii a && is_ascii b then some (eq_text a b) else none

-- What `verify_csrf` does: it returns, raises an HTTPException with this detail, or fails.
pub data Verified : Type 0 where
  passed : Verified
  forbidden : Text → Verified
  failed : Verified

unfoldable pub on_compared : Option Bool → Verified
on_compared none = failed
on_compared (some true) = passed
on_compared (some false) = forbidden (codes "CSRF token mismatch")

unfoldable pub verify_csrf : CookieSettings → Request → Verified
unfolding on_compared compare_digest
verify_csrf s r =
    if given r.csrf_cookie && given r.csrf_header
    then on_compared (compare_digest (or_empty r.csrf_cookie) (or_empty r.csrf_header))
    else forbidden (
        codes "Missing CSRF token. Read the "
        ++ (s.csrf_name
            ++ (codes " cookie and send it in the " ++ (s.csrf_header ++ codes " header."))))

-- A token in the body wins over the cookie; an empty cookie is there all the same.
unfoldable pub is_cookie_authenticated : Request → Option Text → Bool
is_cookie_authenticated r body_token =
    if given body_token then false else elim r.refresh_cookie [ none ↦ false | some t ↦ true ]
