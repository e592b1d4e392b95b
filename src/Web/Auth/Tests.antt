-- ===== src/Web/Auth/Tests.antt =====
-- Runs of the sessions and the answers of webserver/WebServer.cpp.
use dumais_lib.Json.Number.{text_eq}
use dumais_lib.Prelude.{ℕ, Bool, true, Option, map, drop, if◌then◌else◌, ◌↔◌}
use dumais_lib.Rest.Parameters.{lookup}
use dumais_lib.Utils.RingBuffer.{Ring}
use dumais_lib.Web.Request.{Regex, Request, Auth, starts_with, get_authorization, get_cookie}
use dumais_lib.Web.Auth.{
  Server, has_session, clear_expired_sessions, challenge, cookie_of, accepted, rejected,
  validate_authentication, judge, require_auth,
}
use dumais_lib.Web.Auth.Sessions.{AreNamed}
use dumais_lib.Web.Auth.Login.{IsLogin, validate_authentication-IsLogin}
use dumais_lib.Web.Auth.Challenge.{judge-AreNamed, judge-cookie}
use dumais_lib.Web.Auth.Passwords.{
  HasNoColon, Line, user, other, line_text, AreLines, last_password, require_auth-last_password,
}
use dumais_lib.Web.Serving.{AsyncResponse, process_async_queue}
use dumais_lib.Web.Response.{Response}
use dumais_lib.Web.Answers.{Delivered, process_async_queue-deliveries}
use dumais_lib.Prelude.{none, some, [], ◌∷◌, ◌++◌, ◌≡◌, refl, Text, codes, take, arith}
use dumais_lib.Utils.RingBuffer.{empty_ring, put}
use dumais_lib.Utils.RingBuffer.Refine.{Holds, empty_ring-Holds, put_room}
use dumais_lib.Prelude.{false, List}

-- A search for the first eight characters of a pattern, at the start of the text.
search_start : Bool → Text → Text → Option (List Text)
unfolding starts_with
search_start icase pattern text =
    if starts_with (take 8 pattern) text then some (text ∷ drop 8 text ∷ []) else none

abbrev regex : Regex
regex = record { search = search_start; search_all = λ pattern text. [] }

abbrev server : Server
server = record {
  passwords = (codes "joe", codes "secret") ∷ [];
  sessions = [];
  session_expires = 30;
  needs_auth = true;
}

abbrev nonce : Text
nonce = codes "00000000000000000000"

-- The server after a request of a stranger.
abbrev after_stranger : Server
after_stranger = record server { sessions = (nonce, record { expires = 130; nonce = nonce }) ∷ [] }

abbrev stranger : Request
stranger = record { header = codes "GET / HTTP/1.1"; buffer = [] }

abbrev with_nonce : Request
with_nonce = record { header = codes "cookie: session=" ++ nonce; buffer = [] }

stranger_judged :
    judge regex 100 100 (λ i. 0) server stranger
    ≡ some (rejected (challenge nonce false), after_stranger)
unfolding judge search_start
stranger_judged = refl

judge-cookie_example :
    judge regex 101 101 (λ i. 0) after_stranger with_nonce
    ≡ some (
      accepted (cookie_of (get_authorization regex with_nonce) after_stranger.sessions),
      after_stranger,
    )
unfolding get_cookie search_start clear_expired_sessions
judge-cookie_example =
    judge-cookie regex 100 100 (λ i. 0) server stranger nonce false after_stranger 101 101 (λ i. 0)
      with_nonce stranger_judged refl refl

no_sessions_AreNamed : AreNamed server.sessions
unfolding AreNamed
no_sessions_AreNamed = tt

judge-AreNamed_example : AreNamed after_stranger.sessions
judge-AreNamed_example =
    judge-AreNamed regex 100 100 (λ i. 0) server stranger (rejected (challenge nonce false))
      after_stranger no_sessions_AreNamed stranger_judged

abbrev joe : Auth
joe = record { username = codes "joe"; nonce = nonce; response = codes "8f1c"; uri = codes "/" }

validate_authentication-IsLogin_example :
    (validate_authentication regex after_stranger stranger joe ≡ true) ↔ IsLogin after_stranger joe
unfolding has_session get_cookie search_start
validate_authentication-IsLogin_example =
    validate_authentication-IsLogin regex after_stranger stranger joe refl refl

abbrev file : List Line
file = other (codes "users") ∷ user (codes "joe") (codes "a:b") ∷ []

file-AreLines : AreLines file
unfolding AreLines HasNoColon
file-AreLines = (
  (
    λ e. omega arith,
    (λ e. omega arith, (λ e. omega arith, (λ e. omega arith, (λ e. omega arith, tt)))),
  ),
  ((λ e. omega arith, (λ e. omega arith, (λ e. omega arith, tt))), tt),
)

require_auth-last_password_example :
    lookup (codes "joe") (require_auth (map line_text file) 30 server).passwords
    ≡ some (codes "a:b")
unfolding last_password text_eq
require_auth-last_password_example =
    require_auth-last_password file 30 server (codes "joe") file-AreLines

abbrev answers : Ring AsyncResponse
answers = empty_ring (record { client = 0; resp = none }) 3

answers-Holds : Holds answers []
answers-Holds = empty_ring-Holds (record { client = 0; resp = none }) 3 (omega arith) (omega arith)

abbrev two_answers : Ring AsyncResponse
two_answers =
    (put (put answers (record { client = 1; resp = some (challenge nonce true) })).1
      (record { client = 2; resp = none })).1

two_answers-Holds : Holds two_answers (
    (record { client = 1; resp = some (challenge nonce true) })
    ∷ (record { client = 2; resp = none })
    ∷ [])
unfolding empty_ring put
two_answers-Holds =
    (put_room _ _ _ (put_room answers [] _ answers-Holds (omega arith)).1 (omega arith)).1

process_async_queue-deliveries_example :
    (sent : List (ℕ × Response)) × (left : Ring AsyncResponse) × (process_async_queue 3
        (1 ∷ [])
        two_answers
      ≡ some (sent, left))
    × Delivered
        (1 ∷ [])
        ((record { client = 1; resp = some (challenge nonce true) })
          ∷ (record { client = 2; resp = none })
          ∷ [])
        sent
    × Holds left []
process_async_queue-deliveries_example =
    process_async_queue-deliveries 3 (1 ∷ []) two_answers
      ((record { client = 1; resp = some (challenge nonce true) })
        ∷ (record { client = 2; resp = none })
        ∷ [])
      two_answers-Holds (omega arith)
