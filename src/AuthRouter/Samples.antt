-- ===== src/AuthRouter/Samples.antt =====
-- Settings and draws for the tests.
use quansec_pqc_platform.Prelude.{ℕ, true, false, none, some, Text, codes, eq_text}
use quansec_pqc_platform.AccessTokens.{jwt_error}
use quansec_pqc_platform.RateLimit.{healthy}
use quansec_pqc_platform.Http.Samples.{plain}
use quansec_pqc_platform.Auth.{Passwords}
use quansec_pqc_platform.AuthRouter.Session.{Env, Chance}

abbrev pub passwords : Passwords
passwords = record {
  verify = λ p h. some (eq_text p h);
  needs_update = λ h. some false;
  hash_password = λ salt p. p;
}

abbrev pub env : Env
env = record {
  sha256 = plain;
  jwt = record { encode = λ c. codes "jwt"; decode = λ t i a n. jwt_error };
  jwt_settings = record { issuer = codes "i"; audience = codes "a"; ttl_minutes = 15 };
  limits = record {
    login_rate_limit = 5;
    login_rate_window_seconds = 300;
    login_lockout_seconds = 900;
    refresh_rate_limit = 30;
    refresh_rate_window_seconds = 60;
  };
  passwords = passwords;
  cookies = record {
    refresh_name = codes "quansec_refresh";
    csrf_name = codes "quansec_csrf";
    csrf_header = codes "X-CSRF-Token";
    secure = true;
    same_site = codes "lax";
    path = codes "/api/auth";
    domain = none;
    refresh_ttl_days = 7;
  };
}

abbrev pub at : ℕ → Text → Chance
at now raw = record {
  now = now;
  draws = record { raw = raw; token_id = raw; family = raw };
  jti = codes "j";
  csrf = codes "t";
  salt = codes "";
  rehash_fails = false;
  limit_outage = healthy;
  reset_outage = healthy;
}

abbrev pub chance : Chance
chance = at 100 (codes "A")
