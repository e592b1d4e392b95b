-- ===== src/Web/Engine.antt =====
-- `TcpEngine` of webserver/TcpEngine.cpp, and the settings of webserver/TcpServer.cpp that it makes.
-- Handlers are numbers.
use dumais_lib.Prelude.{
  ℕ, suc, ◌≡◌, refl, Bool, true, false, Option, none, some, [], Text, not, ◌&&◌, Bool-cases, inl,
  inr, if◌then◌else◌,
}
use dumais_lib.Json.Number.{text_eq}

-- The socket that a server listens on.
pub data Listening : Type 0 where
  closed plain : Listening
  secure : (certificate private_key : Text) → (usable : Bool) → Listening

-- What the calls of `start` and of `SecureSocket::initServer` return: whether each of them succeeds.
pub record StartCalls : Type 0 where
  pub bound : Bool
  pub listens : Bool
  pub has_event_fd : Bool
  pub has_context : Bool
  pub reads_certificate : Bool
  pub reads_key : Bool

-- `initServer`, which cleans the socket up after a failure and returns nothing.
unfoldable pub init_server : StartCalls → (certificate private_key : Text) → Listening
init_server calls certificate private_key =
    secure certificate private_key
      (calls.has_context && (calls.reads_certificate && calls.reads_key))

-- The settings of a `TcpServer`; `accepting` tells whether `listen` has succeeded.
pub record Settings : Type 0 where
  pub port : ℕ
  pub bind_address : Text
  pub max_connections : ℕ
  pub certificate_path : Text
  pub private_key_path : Text
  pub stop_event : Option ℕ
  pub async_queue_event : Option ℕ
  pub listening : Listening
  pub accepting : Bool
  pub stopping : Bool
  pub wakes : ℕ  -- the writes to the control descriptor

-- The constructor, which leaves `stopping` as it finds it.
unfoldable pub new_settings :
    (port : ℕ) → (bind_address : Text) → (max : ℕ) → (stopping : Bool) → Settings
new_settings port bind_address max stopping = record {
  port = port;
  bind_address = bind_address;
  max_connections = max;
  certificate_path = [];
  private_key_path = [];
  stop_event = none;
  async_queue_event = none;
  listening = closed;
  accepting = false;
  stopping = stopping;
  wakes = 0;
}

-- `setStopEventHandler`, `setAsyncQueueEventHandler` and `setSecurity`; `has_ssl` is
-- `SECURE_IMPLEMENTATION`.
unfoldable pub with_stop_event : ℕ → Settings → Settings
with_stop_event handler s = record s { stop_event = some handler }

unfoldable pub with_async_queue_event : ℕ → Settings → Settings
with_async_queue_event handler s = record s { async_queue_event = some handler }

unfoldable pub set_security :
    (has_ssl : Bool) → (certificate private_key : Text) → Settings → Bool × Settings
set_security has_ssl certificate private_key s =
    if has_ssl
    then (true, record s { certificate_path = certificate; private_key_path = private_key })
    else (false, s)

-- `start`, which looks at the results of `bind` and `eventfd` alone.
unfoldable pub start_server : StartCalls → Settings → Bool × Settings
unfolding text_eq init_server
start_server calls s =
    if not calls.bound
    then (false, s)
    else if not calls.has_event_fd
    then (false, record s { accepting = calls.listens })
    else (
      true,
      record s {
        accepting = calls.listens;
        listening =
            if text_eq s.private_key_path []
            then plain
            else init_server calls s.certificate_path s.private_key_path;
        stopping = false;
      },
    )

-- `notifyAsyncQueue` and `stop`, which both wake the reactor's thread.
unfoldable pub wake : Settings → Settings
wake s = record s { wakes = suc s.wakes }

unfoldable pub stop_server : Settings → Settings
unfolding wake
stop_server s = wake (record s { stopping = true })

-- `tcpServer`, none before `init`.
abbrev pub Engine : Type 0
Engine = Option Settings

-- An operation that needs a server.
unfoldable pub with_server : (Settings → Settings) → Engine → Engine
with_server f none = none
with_server f (some s) = some (f s)

-- `init`: a server that is there is dropped, with its handlers.
unfoldable pub init :
    (port : ℕ) → (bind_address : Text) → (max : ℕ) → (stopping : Bool) → Engine → Engine
unfolding new_settings
init port bind_address max stopping e = some (new_settings port bind_address max stopping)

unfoldable pub notify_async_queue : Engine → Engine
unfolding with_server wake
notify_async_queue e = with_server wake e

unfoldable pub set_stop_event_handler : ℕ → Engine → Engine
unfolding with_server with_stop_event
set_stop_event_handler handler e = with_server (with_stop_event handler) e

unfoldable pub set_async_queue_event_handler : ℕ → Engine → Engine
unfolding with_server with_async_queue_event
set_async_queue_event_handler handler e = with_server (with_async_queue_event handler) e

unfoldable pub result_of : Bool × Settings → Bool × Engine
result_of (ok, s) = (ok, some s)

-- `start`.
unfoldable pub start : StartCalls → Engine → Bool × Engine
unfolding start_server result_of
start calls none = (false, none)
start calls (some s) = result_of (start_server calls s)

unfoldable pub start_if : StartCalls → Bool × Settings → Bool × Engine
unfolding start
start_if calls (true, s) = start calls (some s)
start_if calls (false, s) = (false, some s)

-- `startSecure`.
unfoldable pub start_secure :
    (has_ssl : Bool) → StartCalls → (certificate private_key : Text) → Engine → Bool × Engine
unfolding set_security start_if
start_secure has_ssl calls certificate private_key none = (false, none)
start_secure has_ssl calls certificate private_key (some s) =
    start_if calls (set_security has_ssl certificate private_key s)

-- `stop`.
unfoldable pub stop : Engine → Engine
unfolding with_server stop_server
stop e = with_server stop_server e

-- Whether the files could be used does not change what `startSecure` returns.
start_secure-ignores :
    (has_ssl b e l c r k : Bool) (certificate private_key : Text) (engine : Engine)
    → (start_secure has_ssl
        (record {
          bound = b;
          listens = l;
          has_event_fd = e;
          has_context = c;
          reads_certificate = r;
          reads_key = k;
        })
        certificate
        private_key
        engine).0
      ≡ (start_secure has_ssl
          (record {
            bound = b;
            listens = true;
            has_event_fd = e;
            has_context = true;
            reads_certificate = true;
            reads_key = true;
          })
          certificate
          private_key
          engine).0
unfolding start_secure set_security start_if start start_server result_of
start_secure-ignores has_ssl b e l c r k certificate private_key none = refl
start_secure-ignores false b e l c r k certificate private_key (some s) = refl
start_secure-ignores true false e l c r k certificate private_key (some s) = refl
start_secure-ignores true true false l c r k certificate private_key (some s) = refl
start_secure-ignores true true true l c r k certificate private_key (some s) = refl

-- The engine listens on a secure socket for the two files.
unfoldable pub IsSecure : StartCalls → Text → Text → Engine → Type 0
unfolding init_server
IsSecure calls certificate private_key none = ⊥
IsSecure calls certificate private_key (some s) =
    s.listening ≡ init_server calls certificate private_key

-- If `startSecure` succeeds, there is OpenSSL, `bind` and `eventfd` have not failed, and the engine
-- has a secure socket on which `initServer` has been called with the certificate and the key that
-- it was given, and no plain one. The path of the key is not empty.
pub start_secure-IsSecure :
    (has_ssl : Bool) (calls : StartCalls) (certificate private_key : Text) (e : Engine)
    → text_eq private_key [] ≡ false
    → (start_secure has_ssl calls certificate private_key e).0 ≡ true
    → (has_ssl ≡ true)
      × (calls.bound ≡ true)
      × (calls.has_event_fd ≡ true)
      × IsSecure calls certificate private_key
          (start_secure has_ssl calls certificate private_key e).1
unfolding start_secure set_security start_if start start_server result_of IsSecure
start_secure-IsSecure has_ssl calls certificate private_key none h ok = absurd (cc)
start_secure-IsSecure false calls certificate private_key (some s) h ok = absurd (cc)
start_secure-IsSecure true calls certificate private_key (some s) h ok =
    elim (Bool-cases calls.bound) [
      | inr e ↦ absurd (let f : false ≡ true = rw e at ok in cc)
      | inl e ↦ elim (Bool-cases calls.has_event_fd) [
        | inr f ↦ absurd (let g : false ≡ true = rw (e, f) at ok in cc)
        | inl f ↦ (refl, e, f, rw (e, f, h) refl)
      ]
    ]
