-- ===== src/Web/Auth/Sessions.antt =====
-- The map of the sessions of webserver/WebServer.cpp.
use dumais_lib.Prelude.{
  ℕ, ◌^◌, ◌<◌, ◌≡◌, refl, sym, ap, ◌∙◌, true, false, Option, none, some, [], ◌∷◌, Text, ltb, lt→ltb,
  if◌then◌else◌, Bool-cases, inl, inr,
}
use dumais_lib.Json.Number.{text_eq, text_eq_sound, text_eq_refl, text_eq_comm}
use dumais_lib.Web.Auth.{
  Session, Sessions, session_at, has_session, put_session, clear_expired_sessions,
}

-- Each session has the nonce that it stands under, an expiry of 32 bits, and no second one has its
-- nonce.
unfoldable pub AreNamed : Sessions → Type 0
unfolding session_at
AreNamed [] = Unit {0}
AreNamed ((k, ws) ∷ m) =
    (ws.nonce ≡ k) × ((ws.expires < 2 ^ 32) × ((session_at k m ≡ none) × AreNamed m))

session_at-put_self :
    (k : Text) (ws : Session) (m : Sessions) → session_at k (put_session k ws m) ≡ some ws
unfolding session_at put_session
session_at-put_self k ws [] = rw (text_eq_refl k) refl
session_at-put_self k ws ((j, old) ∷ m) = elim (Bool-cases (text_eq j k)) [
  | inl e ↦ rw (e, e) refl
  | inr e ↦ rw (e, e) (session_at-put_self k ws m)
]

pub has_session-put_self :
    (k : Text) (ws : Session) (m : Sessions) → has_session k (put_session k ws m) ≡ true
unfolding has_session
has_session-put_self k ws m = rw (has_session, session_at-put_self k ws m) refl

session_at-put_ne :
    (k j : Text) (ws : Session) (m : Sessions)
    → text_eq k j ≡ false
    → session_at j (put_session k ws m) ≡ session_at j m
unfolding session_at put_session
session_at-put_ne k j ws [] h = rw h refl
session_at-put_ne k j ws ((i, old) ∷ m) h = elim (Bool-cases (text_eq i k)) [
  | inl e ↦ let other : text_eq i j ≡ false = rw (text_eq_sound i k e) h in rw (e, other) refl
  | inr e ↦ rw e (ap (λ o. if text_eq i j then some old else o) (session_at-put_ne k j ws m h))
]

pub put_session-AreNamed :
    (k : Text) (ws : Session) (m : Sessions)
    → ws.nonce ≡ k
    → ws.expires < 2 ^ 32
    → AreNamed m
    → AreNamed (put_session k ws m)
unfolding put_session AreNamed session_at
put_session-AreNamed k ws [] named small h = (named, (small, (refl, tt)))
put_session-AreNamed k ws ((j, old) ∷ m) named small (old_named, (old_small, (only, h))) =
    elim (Bool-cases (text_eq j k)) [
      | inl e ↦ rw e (named ∙ sym (text_eq_sound j k e), (small, (only, h)))
      | inr e ↦
          let other : text_eq k j ≡ false = rw (text_eq_comm k j) e in
          rw e (
            old_named,
            (
              old_small,
              (session_at-put_ne k j ws m other ∙ only, put_session-AreNamed k ws m named small h),
            ),
          )
    ]

pub session_at-named :
    (k : Text) (ws : Session) (m : Sessions) → AreNamed m → session_at k m ≡ some ws → ws.nonce ≡ k
unfolding AreNamed session_at
session_at-named k ws [] h e = absurd (cc)
session_at-named k ws ((j, old) ∷ m) (named, (small, (only, h))) e =
    elim (Bool-cases (text_eq j k)) [
      | inl is ↦
          let e' : some old ≡ some ws = rw is at e in
          let found : old ≡ ws = cc in
          sym (ap (λ s. s.nonce) found) ∙ (named ∙ text_eq_sound j k is)
      | inr ne ↦ session_at-named k ws m h (rw ne at e)
    ]

-- What is left is everything.
pub clear_expired_sessions-same :
    (t : ℕ) (m kept : Sessions) → clear_expired_sessions t m ≡ some kept → kept ≡ m
unfolding clear_expired_sessions
clear_expired_sessions-same t [] kept h = cc
clear_expired_sessions-same t ((k, ws) ∷ m) kept h = elim (Bool-cases (ltb ws.expires t)) [
  | inl old ↦ absurd (let e : none ≡ some kept = rw old at h in cc)
  | inr fresh ↦
      rest (clear_expired_sessions t m) (λ s. clear_expired_sessions-same t m s) (rw fresh at h)
]
  where
    rest :
        (o : Option Sessions)
        → ((s : Sessions) → o ≡ some s → s ≡ m)
        → elim o [ none ↦ none | some s ↦ some ((k, ws) ∷ s) ] ≡ some kept
        → kept ≡ (k, ws) ∷ m
    rest none same h = absurd (cc)
    rest (some s) same h =
        let e : kept ≡ (k, ws) ∷ s = cc in e ∙ ap (λ s. (k, ws) ∷ s) (same s refl)

-- Where one session has expired, the loop does what has no defined behaviour.
pub clear_expired_sessions-expired :
    (t : ℕ) (k : Text) (ws : Session) (m : Sessions)
    → session_at k m ≡ some ws
    → ws.expires < t
    → clear_expired_sessions t m ≡ none
unfolding clear_expired_sessions session_at
clear_expired_sessions-expired t k ws [] h old = absurd (cc)
clear_expired_sessions-expired t k ws ((j, other) ∷ m) h old =
    elim (Bool-cases (ltb other.expires t)) [
      | inl e ↦ rw e refl
      | inr e ↦ elim (Bool-cases (text_eq j k)) [
        | inl is ↦
            let e' : some other ≡ some ws = rw is at h in
            let found : other ≡ ws = cc in
            absurd
              (let late : ltb other.expires t ≡ true = rw found (lt→ltb ws.expires t old) in cc)
        | inr ne ↦ rw (e, clear_expired_sessions-expired t k ws m (rw ne at h) old) refl
      ]
    ]
