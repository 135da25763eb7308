-- ===== src/Lib.antt =====
-- quansec, a platform that enforces and measures post-quantum key exchange. This library models its
-- access control: who may log in, how a session is kept, renewed and ended, what an API key may do, and
-- the guards that a route can put before a caller; the policy of its TLS data plane: when a policy is
-- fail-closed, how it is applied, how it is probed, and on what evidence it is called enforced; the SSH policy that an
-- agent applies on the host, and the certificates of the SSH authority; and what the platform observes:
-- the TLS sessions of the access log, the IPsec tunnels, and the alerts.
--
-- The parts, and the files that model them:
--
--   quansec/core/scopes.py            Scopes, Scopes/*: the scopes, what each implies, what a role and portal
--                                     are granted (`scopes_for`), and the test of a route (`has_any`).
--   quansec/core/tokens.py            Tokens, Tokens/*: the refresh tokens, over the table refresh_tokens.
--                                     AccessTokens, AccessTokens/*: the JWTs, minted and decoded.
--   quansec/core/ratelimit.py         RateLimit, RateLimit/*: the counters in Redis and in PostgreSQL.
--   quansec/core/audit.py             Audit, Audit/*: the events, and what is redacted of their details.
--   quansec/core/auth.py              Auth, Auth/*: passwords, principals and the guards of the routes.
--   quansec/core/csrf.py              Csrf: the cookies and the double-submit check.
--   quansec/protocols/auth_router.py  AuthRouter, AuthRouter/*: login, login_scoped, refresh, logout,
--                                     revoke_all, register, me, sessions and list_users.
--   quansec/protocols/auth_api_keys.py  ApiKeys, ApiKeys/*: create_api_key, list_api_keys, revoke_api_key.
--   quansec/protocols/tls/policy.py   Tls/Policy, Tls/Policy/*: group lists, what a policy implies, drift.
--                                     Tls/Apply, Tls/Apply/*: the table of applied policies, `apply_policy`.
--   quansec/protocols/tls/policies.py  Tls/Policies, Tls/Policies/*: the named policies, `validate_selection`.
--   quansec/protocols/tls/service.py  Tls/Status, Tls/Status/*: `evaluate_status`. What `apply_policy` calls of
--                                     this file is in Tls/Apply.
--   quansec/protocols/tls/collector.py  Tls/Collector, Tls/Collector/*: from a line of the access log to a session.
--                                     Tls/Tailing, Tls/Tailing/*: the tailer `read_from`, the offsets,
--                                     `insert_sessions` and `collect_once`.
--   quansec/protocols/tls/probe.py    Tls/Transcript: what is read from the output of the openssl client.
--                                     Tls/Probe, Tls/Probe/*: the probes and their verdicts.
--   quansec/protocols/ssh/policy.py   Ssh/Policies, Ssh/Policies/*: `apply_ssh_policy`, `ssh_policy_rollback`; with
--                                     quansec/core/host_control.py, the request to the agent.
--   quansec/protocols/ssh/ca.py       Ssh/Ca, Ssh/Ca/*: `issue_certificate` and its serials.
--   quansec/protocols/ipsec/vici_client.py  Ipsec/Sas: `normalise_sa`.
--   quansec/protocols/ipsec/collector.py  Ipsec/Collector, Ipsec/Collector/*, Ipsec/Established: a polling cycle.
--   quansec/protocols/alerts/router.py  Alerts, Alerts/*: the rules, `_raise` and `ack_alert`.
--   quansec/protocols/scoring/router.py  Scoring, Scoring/*: `_algo_strength`.
--   quansec/protocols/failmode/router.py  FailMode, FailMode/Modes: `set_failmode`.
--   quansec/host_policy_agent.py      HostAgent, HostAgent/*: `apply_ssh`, which edits sshd_config on the host.
--                                     HostAgent/Edits, HostAgent/Lines and HostAgent/Rewrites: the lines of
--                                     the written file, as they are read again.
--
-- Prelude holds the names, lemmas and rules that the files share, Json the values of Python
-- dictionaries. A definition has the name of the function it translates; where a function is long, its
-- steps are definitions of their own, in the order of the code: `refresh` is `limit_refresh`,
-- `refuse_refresh`, `check_csrf` and `exchange`.
--
-- How they interact. Http is the world of the handlers: `Db` has the rows of users, api_keys and
-- refresh_tokens, the next values of the sequences, the state of the limiter, and the audit log. A
-- handler takes a `Db` to a response and a `Db`; the response is a value, an HTTPException with its
-- status, or an exception that nothing catches (500). The code has no transaction around a handler, so
-- a handler that raises leaves what it wrote before; one that answers sends its cookies, and one that
-- raises sends none, since the framework merges the cookies of the injected response only into a
-- returned value. A login asks the limiter, authenticates, resets the limiter, issues a refresh token
-- and mints an access token. A refresh asks the limiter and for the CSRF header where it relies on a
-- cookie, rotates the token and mints anew. A route for a signed-in caller starts at
-- `get_current_user`, from a JWT or from an API key, whose scopes are narrowed to what the user's row
-- grants now. The routes of protocols/tls/router.py then go through `require_scope`; those of the
-- sessions, the API keys, SSH, IPsec, the alerts, the scores and the fail mode go through
-- `require_user`, which asks for nothing more, or `require_admin`, which tests the role alone.
-- `require_all_scopes` is modelled, and no route uses it. The guards are in Auth; a handler is
-- modelled behind its guard, and takes the principal where it uses it.
--
-- A sequence of requests is a sequence of such steps, and Tokens.History has every operation on the
-- sessions as a step relation. Two requests that overlap are the case of Tokens.Detection, where both
-- read the row before either writes.
--
-- The TLS policy has a state of its own, `TlsDb`: the rows of tls_policy_state, the events, and the text
-- of nginx.conf. What NGINX answers (the test, the pid, the reload) is an input, so that a theorem about
-- `apply_policy` holds for every answer.
--
-- The access log is a list of bytes that grows between the cycles of the collector, and a cycle can be
-- cut off after any of its INSERT statements (`Visit` of Tls/Tailing/Visits). The SSH policy has the world
-- `SshWorld`: the host of the agent's model, the history and the audit rows; a request to the agent may find
-- no agent, or lose its answer (`Link`). The alerts are evaluated on what the queries find (`Platform`).
--
-- Texts are lists of code points. Time is in whole seconds and an argument. What a request draws at
-- random (tokens, ids, salts) is an argument as well, and a theorem that needs a draw to be new says so.
-- Row ids are natural numbers that start at 1.
--
-- Parameters, which stand for code outside the repository: SHA-256 (`sha256`), the JWT library (`Jwt`),
-- passlib (`Passwords`), Python's printing of times and lists (`Printing`), its json, datetime and text
-- codec (`Python` of Tls/Collector), the test of PostgreSQL whether a text is JSON (`is_json`), the runs of
-- the nginx binary, of sshd, of ssh-keygen and of the openssl client (`Runs`, `SshRuns`, `Signing`,
-- `ClientRun`), the report of strongSwan, and the outages of Redis and of the database (`Outage`). Their
-- documented behaviour is a named hypothesis where it is used: that a signed token decodes to its claims,
-- that a password verifies against its hash, that the codec decodes what it encoded, and that a run of
-- `nginx -t` gives the verdict of the file that it tests.
--
-- Every loop of the code is over a list. The one definition with fuel is `decimal` of
-- AccessTokens/Decimal, the text of a number `n`, whose fuel `n + 1` bounds the number of its digits.
-- `expand` follows the table of implications once, as the code does.
--
-- Not modelled: the order of the rows of a listing (ORDER BY), the lengths that pydantic checks, the
-- failure of an audit INSERT, which the code swallows, the parsing of a peer address, and the rest of
-- the platform: the text of nginx.conf (`render_config`, the parameter `render`) and how it is parsed
-- back, the TLS certificates, statistics and router, the IPsec events, policies and attacks, the SSH
-- collector and zero-trust audit, the weighted scores, which are in floating point, the exports, the
-- routes' choice of a guard, and the rest of the host agent. What the log loops and listings do beyond the parts above is to
-- repeat them, to write log messages, and to print rows.
mod Prelude
mod Json
pub mod Audit
pub mod Scopes
pub mod AccessTokens
pub mod Tokens
pub mod RateLimit
mod Http
pub mod Auth
pub mod ApiKeys
pub mod Csrf
pub mod AuthRouter
pub mod Tls
pub mod HostAgent
pub mod Ssh
pub mod Ipsec
pub mod Alerts
pub mod Scoring
pub mod FailMode
