-- ===== src/Web/Auth/Challenge.antt =====
-- What webserver/WebServer.cpp does with requests that it rejects.
use dumais_lib.Prelude.{
  ℕ, ◌+◌, ◌%◌, ◌^◌, ◌<◌, ◌≡◌, refl, sym, subst, ap, ap₂, ◌∙◌, arith, Bool, true, Option, none, some,
  [], ◌∷◌, ◌++◌, Text, codes, drop, Bool-cases, inl, inr,
}
use dumais_lib.Json.Number.{text_eq}
use dumais_lib.Web.Request.{
  Regex, Request, Auth, get_authorization, get_cookie, wants_authentication_hack,
}
use dumais_lib.Web.Response.{Response}
use dumais_lib.Web.Auth.{
  Session, Sessions, session_at, has_session, put_session, Server, clear_expired_sessions,
  generate_nonce, next_session, build_buffered_response, challenge, cookie_of, Verdict, accepted,
  rejected, validate_authentication, reject, decide, judge,
}
use dumais_lib.Web.Auth.Sessions.{
  AreNamed, has_session-put_self, put_session-AreNamed, session_at-named,
  clear_expired_sessions-same, clear_expired_sessions-expired,
}
use dumais_lib.Web.Auth.Login.{validate_authentication-cookie}

-- The text that a challenge has its nonce in.
abbrev nonce_tail : Response → Text
nonce_tail r = drop 29 r.auth_header

-- The text without its last byte.
abbrev front : Text → Text
front [] = []
front (c ∷ []) = []
front (c ∷ d ∷ s) = c ∷ front (d ∷ s)

front-append : (s : Text) (c : ℕ) → front (s ++ c ∷ []) ≡ s
front-append [] c = refl
front-append (d ∷ []) c = refl
front-append (d ∷ e ∷ s) c = ap (λ t. d ∷ t) (front-append (e ∷ s) c)

challenge-nonce : (m n : Text) (hack other : Bool) → challenge m hack ≡ challenge n other → m ≡ n
unfolding challenge build_buffered_response
challenge-nonce m n hack other h =
    sym (front-append m b'"') ∙ (ap (λ r. front (nonce_tail r)) h ∙ front-append n b'"')

module _ (rx : Regex) (t0 t1 : ℕ) (rand : ℕ → ℕ) (server : Server) (q : Request) where
  -- The sessions are as they were when the request is judged.
  judge-decide :
      (r : Verdict × Server)
      → judge rx t0 t1 rand server q ≡ some r
      → decide rx t1 rand server q ≡ r
  unfolding judge
  judge-decide r h =
      from (clear_expired_sessions t0 server.sessions)
        (λ m. clear_expired_sessions-same t0 server.sessions m) h
    where
      from :
          (o : Option Sessions)
          → ((m : Sessions) → o ≡ some m → m ≡ server.sessions)
          → elim o [
            | none ↦ none
            | some m ↦ some (decide rx t1 rand (record server { sessions = m }) q)
          ]
            ≡ some r
          → decide rx t1 rand server q ≡ r
      from none same h = absurd (cc)
      from (some m) same h =
          let e : decide rx t1 rand (record server { sessions = m }) q ≡ r = cc in
          ap (λ k. decide rx t1 rand (record server { sessions = k }) q) (sym (same m refl)) ∙ e

next_session-nonce :
    (rand : ℕ → ℕ) (auth : Auth) (m : Sessions)
    → AreNamed m
    → (next_session rand auth m).1.nonce ≡ (next_session rand auth m).0
unfolding next_session
next_session-nonce rand auth m h = elim (Bool-cases (text_eq auth.nonce [])) [
  | inl e ↦ rw e refl
  | inr e ↦ rw e (of (session_at auth.nonce m) refl)
]
  where
    fresh : Text × Session
    fresh = (generate_nonce rand, record { expires = 0; nonce = generate_nonce rand })

    pick : Option Session → Text × Session
    pick o = elim o [ none ↦ fresh | some ws ↦ (auth.nonce, ws) ]

    of : (o : Option Session) → session_at auth.nonce m ≡ o → (pick o).1.nonce ≡ (pick o).0
    of none e = refl
    of (some ws) e = session_at-named auth.nonce ws m h e

module _ (rx : Regex) (t : ℕ) (rand : ℕ → ℕ) (server : Server) (q : Request) where
  decide-rejected :
      (nonce : Text) (hack : Bool) (next : Server)
      → decide rx t rand server q ≡ (rejected (challenge nonce hack), next)
      → has_session nonce next.sessions ≡ true
  unfolding decide reject
  decide-rejected nonce hack next h =
      elim (Bool-cases (validate_authentication rx server q (get_authorization rx q))) [
        | inl e ↦ absurd (
            let f : accepted (cookie_of (get_authorization rx q) server.sessions)
                ≡ rejected (challenge nonce hack) =
              ap (λ p. p.0) (rw e at h) in
            cc)
        | inr e ↦
            let (made, ws) = next_session rand (get_authorization rx q) server.sessions in
            let late = record ws { expires = (t + server.session_expires) % 2 ^ 32 } in
            let both : (
              rejected (challenge made (wants_authentication_hack rx q)),
              record server { sessions = put_session made late server.sessions },
            )
                ≡ (rejected (challenge nonce hack), next) =
              rw e at h in
            let f : rejected (challenge made (wants_authentication_hack rx q))
                ≡ rejected (challenge nonce hack) =
              ap (λ p. p.0) both in
            let g : challenge made (wants_authentication_hack rx q) ≡ challenge nonce hack = cc in
            let same : made ≡ nonce =
              challenge-nonce made nonce (wants_authentication_hack rx q) hack g in
            ap₂ has_session (sym same) (ap (λ p. p.1.sessions) (sym both))
            ∙ has_session-put_self made late server.sessions
      ]

  decide-AreNamed :
      (v : Verdict) (next : Server)
      → AreNamed server.sessions
      → decide rx t rand server q ≡ (v, next)
      → AreNamed next.sessions
  unfolding decide reject
  decide-AreNamed v next named h =
      subst (λ p. AreNamed p.1.sessions) h
        (elim (Bool-cases (validate_authentication rx server q (get_authorization rx q))) [
          | inl e ↦ rw e named
          | inr e ↦
              let auth = get_authorization rx q in
              rw e (
                put_session-AreNamed (next_session rand auth server.sessions).0 _ server.sessions
                  (next_session-nonce rand auth server.sessions named) (omega arith) named)
        ])

module _ (rx : Regex) (t0 t1 : ℕ) (rand : ℕ → ℕ) (server : Server) (q : Request) where
  -- Whatever request is judged, the sessions stay a map from nonces: each stands under the
  -- nonce that it has, no nonce has two of them, and every expiry is of 32 bits.
  pub judge-AreNamed :
      (v : Verdict) (next : Server)
      → AreNamed server.sessions
      → judge rx t0 t1 rand server q ≡ some (v, next)
      → AreNamed next.sessions
  judge-AreNamed v next named h =
      decide-AreNamed rx t1 rand server q v next named
        (judge-decide rx t0 t1 rand server q (v, next) h)

  -- If any session has expired when a request is judged, `clearExpiredSessions` advances an
  -- iterator that it has erased, which has no defined behaviour.
  pub judge-expired :
      (k : Text) (ws : Session)
      → session_at k server.sessions ≡ some ws
      → ws.expires < t0
      → judge rx t0 t1 rand server q ≡ none
  unfolding judge
  judge-expired k ws found old =
      rw (judge, clear_expired_sessions-expired t0 k ws server.sessions found old) refl

  -- After a request has been rejected with a challenge, any request whose session cookie is
  -- the nonce of that challenge is accepted, without a user or a password, at any later time
  -- at which no session has expired.
  pub judge-cookie :
      (nonce : Text) (hack : Bool) (next : Server) (t2 t3 : ℕ) (rand' : ℕ → ℕ) (q' : Request)
      → judge rx t0 t1 rand server q ≡ some (rejected (challenge nonce hack), next)
      → get_cookie rx (codes "session") q' ≡ nonce
      → clear_expired_sessions t2 next.sessions ≡ some next.sessions
      → judge rx t2 t3 rand' next q'
        ≡ some (accepted (cookie_of (get_authorization rx q') next.sessions), next)
  unfolding judge decide
  judge-cookie nonce hack next t2 t3 rand' q' h cookie kept =
      let there : has_session nonce next.sessions ≡ true =
        decide-rejected rx t1 rand server q nonce hack next
          (judge-decide rx t0 t1 rand server q _ h) in
      let ok : validate_authentication rx next q' (get_authorization rx q') ≡ true =
        validate_authentication-cookie rx next q' (get_authorization rx q')
          (ap (λ c. has_session c next.sessions) cookie ∙ there) in
      rw (judge, kept) (rw (decide, ok) refl)
