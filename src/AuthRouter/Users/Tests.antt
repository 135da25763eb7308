-- ===== src/AuthRouter/Users/Tests.antt =====
-- An administrator registers a user, who logs in.
use quansec_pqc_platform.Prelude.{◌≡◌, refl, none, [], ◌∷◌, codes, eq_text, lower, arith}
use quansec_pqc_platform.Tokens.Rows.{User}
use quansec_pqc_platform.Http.{Db, ok}
use quansec_pqc_platform.Http.Samples.{world}
use quansec_pqc_platform.Auth.{Principal, access_token}
use quansec_pqc_platform.AuthRouter.Users.{RegisterRequest, register, new_user, out}
use quansec_pqc_platform.AuthRouter.Users.Registration.{AreSound, IsRegistered, register-AreSound}
use quansec_pqc_platform.AuthRouter.Samples.{passwords}

abbrev payload : RegisterRequest
payload = record {
  email = codes "D@x";
  password = codes "p";
  role = codes "operator";
  portal = codes "ssh";
}

abbrev root : Principal
root = record {
  id = 1;
  email = codes "r@x";
  role = codes "admin";
  portal = none;
  created_at = 0;
  scopes = codes "system:admin" ∷ [];
  auth_method = access_token none;
}

abbrev dave : User
dave = new_user passwords payload (codes "") 10 100

abbrev registered : Db
registered = (register passwords payload root (codes "") 100 world).1

registers : register passwords payload root (codes "") 100 world ≡ (ok (out dave), registered)
unfolding register eq_text lower
registers = refl

world-AreSound : AreSound world.users world.next_user
world-AreSound = record {
  emails = (tt, tt);
  ids = ((omega arith, omega arith), tt);
  starts = omega arith;
}

register-AreSound_example :
    IsRegistered passwords payload root (codes "") 100 (out dave) world registered
    × AreSound registered.users registered.next_user
register-AreSound_example =
    register-AreSound passwords payload root (codes "") 100 (out dave) world registered registers
      world-AreSound
