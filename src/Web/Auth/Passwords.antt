-- ===== src/Web/Auth/Passwords.antt =====
-- The file of users that `WebServer::requireAuth` of webserver/WebServer.cpp reads.
use dumais_lib.Prelude.{
  ℕ, ◌≡◌, ◌≢◌, refl, ap, ◌∙◌, Option, none, some, List, [], ◌∷◌, ◌++◌, Text, ==_of_ne,
  if◌then◌else◌, map,
}
use dumais_lib.Json.Number.{text_eq}
use dumais_lib.Rest.Parameters.{Values, lookup, store}
use dumais_lib.Rest.Stored.{lookup-store}
use dumais_lib.Rest.Engine.{split_at}
use dumais_lib.Web.Auth.{Server, read_passwords, require_auth}

-- A text without a colon.
unfoldable pub HasNoColon : Text → Type 0
HasNoColon [] = Unit {0}
HasNoColon (c ∷ s) = (c ≢ b':') × HasNoColon s

-- A line of the file: a user with a password, or a text without a colon.
pub data Line : Type 0 where
  user : (username password : Text) → Line
  other : Text → Line

abbrev pub line_text : Line → Text
line_text (user username password) = username ++ b':' ∷ password
line_text (other s) = s

abbrev pub IsLine : Line → Type 0
IsLine (user username password) = HasNoColon username
IsLine (other s) = HasNoColon s

unfoldable pub AreLines : List Line → Type 0
AreLines [] = Unit {0}
AreLines (l ∷ ls) = IsLine l × AreLines ls

-- The password of a user's last line, and `known` if there is none.
unfoldable pub last_password : Text → List Line → Option Text → Option Text
last_password k [] known = known
last_password k (user username password ∷ ls) known =
    last_password k ls (if text_eq username k then some password else known)
last_password k (other s ∷ ls) known = last_password k ls known

split_at-line :
    (username password : Text)
    → HasNoColon username
    → split_at b':' (username ++ b':' ∷ password) ≡ some (username, password)
unfolding split_at HasNoColon
split_at-line [] password h = refl
split_at-line (c ∷ username) password (h, rest) =
    rw (==_of_ne c b':' h, split_at-line username password rest) refl

split_at-plain : (s : Text) → HasNoColon s → split_at b':' s ≡ none
unfolding split_at HasNoColon
split_at-plain [] h = refl
split_at-plain (c ∷ s) (h, rest) = rw (==_of_ne c b':' h, split_at-plain s rest) refl

read_passwords-last :
    (ls : List Line) (m : Values) (k : Text)
    → AreLines ls
    → lookup k (read_passwords (map line_text ls) m) ≡ last_password k ls (lookup k m)
unfolding read_passwords last_password AreLines
read_passwords-last [] m k h = refl
read_passwords-last (user username password ∷ ls) m k (plain, h) =
    rw (read_passwords, split_at-line username password plain)
      (read_passwords-last ls (store username password m) k h
        ∙ ap (last_password k ls) (lookup-store username password k m))
read_passwords-last (other s ∷ ls) m k (plain, h) =
    rw (read_passwords, split_at-plain s plain) (read_passwords-last ls m k h)

-- After the file of users has been read, the password of a user is that of the user's last line,
-- all that is behind the first colon, and the one known before if there is no line of the user.
-- Lines without a colon say nothing. No name in the file has a colon.
pub require_auth-last_password :
    (ls : List Line) (session_expiry : ℕ) (server : Server) (k : Text)
    → AreLines ls
    → lookup k (require_auth (map line_text ls) session_expiry server).passwords
      ≡ last_password k ls (lookup k server.passwords)
unfolding require_auth
require_auth-last_password ls session_expiry server k h =
    read_passwords-last ls server.passwords k h
