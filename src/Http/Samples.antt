-- ===== src/Http/Samples.antt =====
-- Values that the tests share: an operator of the TLS portal, a request, and a database.
use quansec_pqc_platform.Prelude.{none, some, [], ◌∷◌, Text, codes}
use quansec_pqc_platform.Tokens.Rows.{User, empty}
use quansec_pqc_platform.RateLimit.{Limiter}
use quansec_pqc_platform.Http.{Db, Request}

abbrev pub carol : User
carol = record {
  id = 3;
  email = codes "c@x";
  role = codes "operator";
  portal = some (codes "tls");
  password_hash = codes "pw";
  created_at = 0;
}

abbrev pub no_limits : Limiter
no_limits = record { redis_store = λ k. none; throttle = λ k. none }

abbrev pub world : Db
world = record {
  users = carol ∷ [];
  next_user = 10;
  tokens = empty;
  api_keys = [];
  next_key = 1;
  limiter = no_limits;
  log = [];
}

abbrev pub plain : Text → Text
plain t = t

abbrev pub ask : Request
ask = record {
  path = codes "/api/auth";
  method = codes "POST";
  user_agent = none;
  ip = none;
  refresh_cookie = none;
  csrf_cookie = none;
  csrf_header = none;
}
