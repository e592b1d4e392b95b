-- ===== src/Web/Auth/Login.antt =====
-- Who is let in by webserver/WebServer.cpp.
use dumais_lib.Prelude.{
  ◌≡◌, ◌≢◌, ◌↔◌, refl, sym, true, false, Option, none, some, [], ◌∷◌, ◌++◌, Text, codes, Bool-cases,
  inl, inr,
}
use dumais_lib.Json.Number.{text_eq, text_eq_sound, text_eq_refl}
use dumais_lib.Json.Keys.{text_eq_of_ne}
use dumais_lib.Rest.Parameters.{lookup}
use dumais_lib.Utils.Hash.Md5.{compute_md5}
use dumais_lib.Web.Request.{Regex, Request, Auth, get_cookie}
use dumais_lib.Web.Auth.{has_session, Server, digest_of, has_response, validate_authentication}

-- The digest of RFC 2617 without a quality of protection, for a GET.
unfoldable pub request_digest : (username realm password nonce uri : Text) → Text
request_digest username realm password nonce uri =
    let a1 = username ++ b':' ∷ (realm ++ b':' ∷ password) in
    let a2 = codes "GET" ++ b':' ∷ uri in
    compute_md5 (compute_md5 a1 ++ b':' ∷ (nonce ++ b':' ∷ compute_md5 a2))

-- The nonce is one of a session, and the response is the digest of the user's password.
unfoldable pub IsLogin : Server → Auth → Type 0
unfolding request_digest
IsLogin server auth =
    (auth.nonce ≢ [])
    × ((has_session auth.nonce server.sessions ≡ true)
        × ((password : Text) × ((lookup auth.username server.passwords ≡ some password)
              × (auth.response
                  ≡ request_digest auth.username (codes "dumais") password auth.nonce auth.uri))))

has_response-password :
    (found : Option Text) (auth : Auth)
    → has_response found auth ≡ true
    → (password : Text) × ((found ≡ some password)
        × (auth.response
            ≡ request_digest auth.username (codes "dumais") password auth.nonce auth.uri))
unfolding has_response request_digest digest_of
has_response-password none auth h = absurd (cc)
has_response-password (some password) auth h =
    (password, (refl, sym (text_eq_sound (digest_of password auth) auth.response h)))

has_response-digest :
    (password : Text) (auth : Auth)
    → auth.response ≡ request_digest auth.username (codes "dumais") password auth.nonce auth.uri
    → has_response (some password) auth ≡ true
unfolding has_response request_digest digest_of
has_response-digest password auth h = rw h (text_eq_refl (digest_of password auth))

module _ (rx : Regex) (server : Server) (q : Request) (auth : Auth) where
  validate_authentication_sound :
      server.needs_auth ≡ true
      → has_session (get_cookie rx (codes "session") q) server.sessions ≡ false
      → validate_authentication rx server q auth ≡ true
      → IsLogin server auth
  unfolding validate_authentication IsLogin
  validate_authentication_sound needs no_cookie h = elim (Bool-cases (text_eq auth.nonce [])) [
    | inl e ↦ absurd (let f : false ≡ true = rw (needs, no_cookie, e) at h in cc)
    | inr e ↦ elim (Bool-cases (has_session auth.nonce server.sessions)) [
      | inr f ↦ absurd (let g : false ≡ true = rw (needs, no_cookie, e, f) at h in cc)
      | inl f ↦ (
        λ empty. absurd (let g : true ≡ false = rw empty at e in cc),
        (
          f,
          has_response-password (lookup auth.username server.passwords) auth
              (rw (needs, no_cookie, e, f) at h),
        ),
      )
    ]
  ]

  validate_authentication_complete :
      server.needs_auth ≡ true
      → has_session (get_cookie rx (codes "session") q) server.sessions ≡ false
      → IsLogin server auth
      → validate_authentication rx server q auth ≡ true
  unfolding validate_authentication IsLogin
  validate_authentication_complete needs no_cookie
        (named, (session, (password, (known, response)))) =
      let e : text_eq auth.nonce [] ≡ false = text_eq_of_ne auth.nonce [] named in
      rw (needs, no_cookie, e, session, known) (has_response-digest password auth response)

  -- Where authentication is needed and the request's session cookie is not the nonce of a
  -- session, the request is let in exactly if its nonce is not empty and one of a session, its
  -- user has a password, and its response is the digest of RFC 2617 of user, realm, password,
  -- nonce, GET and URI.
  pub validate_authentication-IsLogin :
      server.needs_auth ≡ true
      → has_session (get_cookie rx (codes "session") q) server.sessions ≡ false
      → (validate_authentication rx server q auth ≡ true) ↔ IsLogin server auth
  validate_authentication-IsLogin needs no_cookie = (
    validate_authentication_sound needs no_cookie,
    validate_authentication_complete needs no_cookie,
  )

  pub validate_authentication-cookie :
      has_session (get_cookie rx (codes "session") q) server.sessions ≡ true
      → validate_authentication rx server q auth ≡ true
  unfolding validate_authentication
  validate_authentication-cookie h = elim (Bool-cases server.needs_auth) [
    | inl e ↦ rw (e, h) refl
    | inr e ↦ rw e refl
  ]
