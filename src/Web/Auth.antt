-- ===== src/Web/Auth.antt =====
-- The sessions and the digest authentication of webserver/WebServer.cpp.
pub mod Sessions
pub mod Login
pub mod Challenge
pub mod Passwords
mod Tests
use dumais_lib.Prelude.{
  ℕ, zero, suc, ◌+◌, ◌%◌, ◌^◌, Bool, true, false, Option, none, some, List, [], ◌∷◌, ◌++◌, Text,
  codes, get_or, ltb, if◌then◌else◌,
}
use dumais_lib.Json.Number.{text_eq}
use dumais_lib.Rest.Parameters.{Values, lookup, store}
use dumais_lib.Rest.Engine.{split_at}
use dumais_lib.Utils.Hash.Md5.{compute_md5}
use dumais_lib.Web.Request.{
  Regex, Request, Auth, get_authorization, get_cookie, wants_authentication_hack,
}
use dumais_lib.Web.Response.{Response}

-- `WebSession`.
pub record Session : Type 0 where
  pub expires : ℕ
  pub nonce : Text

-- `mSessions`.
abbrev pub Sessions : Type 0
Sessions = List (Text × Session)

unfoldable pub session_at : Text → Sessions → Option Session
unfolding text_eq
session_at k [] = none
session_at k ((j, ws) ∷ m) = if text_eq j k then some ws else session_at k m

-- `mSessions.find(k) != mSessions.end()`.
unfoldable pub has_session : Text → Sessions → Bool
unfolding session_at
has_session k m = elim (session_at k m) [ none ↦ false | some ws ↦ true ]

-- `mSessions[k] = ws`.
unfoldable pub put_session : Text → Session → Sessions → Sessions
unfolding text_eq
put_session k ws [] = (k, ws) ∷ []
put_session k ws ((j, old) ∷ m) = if text_eq j k then (j, ws) ∷ m else (j, old) ∷ put_session k ws m

-- The members that authentication uses.
pub record Server : Type 0 where
  pub passwords : Values
  pub sessions : Sessions
  pub session_expires : ℕ
  pub needs_auth : Bool

-- `clearExpiredSessions` at the time `t`; `none` where an iterator that has been erased is advanced,
-- which has no defined behaviour.
unfoldable pub clear_expired_sessions : ℕ → Sessions → Option Sessions
clear_expired_sessions t [] = some []
clear_expired_sessions t ((k, ws) ∷ m) =
    let rest = clear_expired_sessions t m in
    if ltb ws.expires t then none else elim rest [ none ↦ none | some kept ↦ some ((k, ws) ∷ kept) ]

-- The characters of a nonce.
abbrev pub alphanum : Text
alphanum = codes "0123456789ABCDEFGHIJKLMNOPQRSTUVWXYZabcdefghijklmnopqrstuvwxyz"

-- The loop of `generateNonce` from `i` on; `rand i` is what the call of `rand` number `i` returns.
unfoldable pub nonce_from : (left i : ℕ) → (ℕ → ℕ) → Text
nonce_from zero i rand = []
nonce_from (suc n) i rand = get_or alphanum (rand i % 62) 0 ∷ nonce_from n (i + 1) rand

unfoldable pub generate_nonce : (ℕ → ℕ) → Text
unfolding nonce_from
generate_nonce rand = nonce_from 20 0 rand

-- `ha3` of `validateAuthentication`.
unfoldable pub digest_of : (password : Text) → Auth → Text
unfolding compute_md5
digest_of password auth =
    let ha1 = compute_md5 (auth.username ++ (codes ":dumais:" ++ password)) in
    let ha2 = compute_md5 (codes "GET:" ++ auth.uri) in
    compute_md5 (ha1 ++ (codes ":" ++ (auth.nonce ++ (codes ":" ++ ha2))))

-- The tests on a user who must have a password.
unfoldable pub has_response : Option Text → Auth → Bool
unfolding digest_of text_eq
has_response none auth = false
has_response (some password) auth = text_eq (digest_of password auth) auth.response

-- The session of a request that is rejected: the one of its nonce, or a new one.
unfoldable pub next_session : (ℕ → ℕ) → Auth → Sessions → Text × Session
unfolding generate_nonce session_at text_eq
next_session rand auth m =
    let nonce = generate_nonce rand in
    let fresh : Text × Session = (nonce, record { expires = 0; nonce = nonce }) in
    if text_eq auth.nonce []
    then fresh
    else elim (session_at auth.nonce m) [ none ↦ fresh | some ws ↦ (auth.nonce, ws) ]

-- `buildBufferedResponse`.
unfoldable pub build_buffered_response : ℕ → (content content_type auth_header : Text) → Response
build_buffered_response code content content_type auth_header = record {
  response_code = code;
  content_type = content_type;
  auth_header = auth_header;
  header = [];
  cookie = [];
  authentication_hack = false;
  header_built = false;
  content = content;
}

-- The indices of `Unauthorized`, `RequestEntityTooLarge`, `NotImplemented` and `ServiceUnavailable`.
abbrev pub unauthorized : ℕ
unauthorized = 23

abbrev pub request_entity_too_large : ℕ
request_entity_too_large = 35

abbrev pub not_implemented : ℕ
not_implemented = 48

abbrev pub service_unavailable : ℕ
service_unavailable = 50

-- The response to a request that is rejected.
unfoldable pub challenge : (nonce : Text) → (hack : Bool) → Response
unfolding build_buffered_response
challenge nonce hack =
    let resp =
      build_buffered_response unauthorized (codes "{\"status\" : \"Authorization needed\"}")
        (codes "application/json")
        (codes "Digest realm=\"dumais\",nonce=\"" ++ (nonce ++ codes "\"")) in
    record resp { authentication_hack = hack }

-- The cookie of an answer to a request that is accepted.
unfoldable pub cookie_of : Auth → Sessions → Text
unfolding text_eq has_session
cookie_of auth m =
    if text_eq auth.nonce []
    then []
    else if has_session auth.nonce m
    then codes "session=" ++ auth.nonce
    else []

-- What `onClientMessage` does with a request once its session has been looked at: the listener
-- answers, with that cookie, or the response is sent.
pub data Verdict : Type 0 where
  accepted : (cookie : Text) → Verdict
  rejected : Response → Verdict

module _ (rx : Regex) where
  unfoldable pub validate_authentication : Server → Request → Auth → Bool
  unfolding get_cookie has_session text_eq lookup has_response
  validate_authentication server q auth =
      if server.needs_auth
      then if has_session (get_cookie rx (codes "session") q) server.sessions
        then true
        else if text_eq auth.nonce []
        then false
        else if has_session auth.nonce server.sessions
        then has_response (lookup auth.username server.passwords) auth
        else false
      else true

  -- The branch of `onClientMessage` for a request that is rejected, at the time `t`.
  unfoldable pub reject : (t : ℕ) → (ℕ → ℕ) → Server → Request → Auth → Verdict × Server
  unfolding next_session put_session challenge wants_authentication_hack
  reject t rand server q auth =
      let (nonce, ws) = next_session rand auth server.sessions in
      (
        rejected (challenge nonce (wants_authentication_hack rx q)),
        record server {
          sessions =
              put_session nonce (record ws { expires = (t + server.session_expires) % 2 ^ 32 })
                server.sessions;
        },
      )

  -- The tests of `onClientMessage` once the sessions have been cleared.
  unfoldable pub decide : (t : ℕ) → (ℕ → ℕ) → Server → Request → Verdict × Server
  unfolding get_authorization validate_authentication cookie_of reject
  decide t rand server q =
      let auth = get_authorization rx q in
      if validate_authentication server q auth
      then (accepted (cookie_of auth server.sessions), server)
      else reject t rand server q auth

  -- The session part of `onClientMessage`: `t0` and `t1` are the times that it reads; `none` where
  -- the behaviour of `clearExpiredSessions` is not defined.
  unfoldable pub judge : (t0 t1 : ℕ) → (ℕ → ℕ) → Server → Request → Option (Verdict × Server)
  unfolding clear_expired_sessions decide
  judge t0 t1 rand server q = elim (clear_expired_sessions t0 server.sessions) [
    | none ↦ none
    | some m ↦ some (decide t1 rand (record server { sessions = m }) q)
  ]

-- `requireAuth` from the lines of the file on.
unfoldable pub read_passwords : List Text → Values → Values
unfolding split_at store
read_passwords [] m = m
read_passwords (line ∷ lines) m = elim (split_at b':' line) [
  | none ↦ read_passwords lines m
  | some (username, password) ↦ read_passwords lines (store username password m)
]

unfoldable pub require_auth : (lines : List Text) → (session_expiry : ℕ) → Server → Server
unfolding read_passwords
require_auth lines session_expiry server = record server {
  needs_auth = true;
  session_expires = session_expiry;
  passwords = read_passwords lines server.passwords;
}
