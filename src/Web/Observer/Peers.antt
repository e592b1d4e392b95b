-- ===== src/Web/Observer/Peers.antt =====
-- The clients of webserver/TcpServer.cpp by their pointers, which webserver/WebServer.cpp knows.
use dumais_lib.Prelude.{
  ℕ, suc, ◌≡◌, refl, ap, sym, ◌∙◌, arith, Bool, true, false, ◌||◌, Bool-cases, inl, inr, none, some,
  List, [], ◌∷◌, ◌++◌, length, ◌==◌,
}
use dumais_lib.Prelude.Maps.{lookup, insert, erase}
use dumais_lib.Web.Client.{Client}
use dumais_lib.Web.Serving.{has_client, on_client_disconnected}
use dumais_lib.Web.Observer.{Peer, Peers, sender_at, set_sender}

unfoldable pub addresses : Peers → List ℕ
addresses [] = []
addresses ((fd, p) ∷ m) = p.address ∷ addresses m

unfoldable pub AreDistinct : List ℕ → Type 0
unfolding has_client
AreDistinct [] = Unit {0}
AreDistinct (a ∷ ks) = (has_client a ks ≡ false) × AreDistinct ks

pub same_of : (a b : ℕ) → (a == b) ≡ true → a ≡ b
same_of a b h = ground arith

pub addresses-insert_new :
    (fd : ℕ) (p : Peer) (m : Peers)
    → lookup fd m ≡ none
    → addresses (insert fd p m) ≡ addresses m ++ p.address ∷ []
unfolding addresses lookup insert
addresses-insert_new fd p [] h = refl
addresses-insert_new fd p ((d, q) ∷ m) h = elim (Bool-cases (d == fd)) [
  | inl e ↦ absurd (let f : some q ≡ none = rw e at h in cc)
  | inr e ↦ rw e (ap (λ ks. q.address ∷ ks) (addresses-insert_new fd p m (rw e at h)))
]

pub addresses-insert_same :
    (fd : ℕ) (p q : Peer) (m : Peers)
    → lookup fd m ≡ some p
    → q.address ≡ p.address
    → addresses (insert fd q m) ≡ addresses m
unfolding addresses lookup insert
addresses-insert_same fd p q [] h e = absurd (cc)
addresses-insert_same fd p q ((d, old) ∷ m) h e = elim (Bool-cases (d == fd)) [
  | inl t ↦
      let f : some old ≡ some p = rw t at h in
      let g : old ≡ p = cc in rw t (ap (λ a. a ∷ addresses m) (e ∙ ap (λ r. r.address) (sym g)))
  | inr t ↦ rw t (ap (λ ks. old.address ∷ ks) (addresses-insert_same fd p q m (rw t at h) e))
]

pub addresses-set_sender :
    (a : ℕ) (c : Client) (m : Peers) → addresses (set_sender a c m) ≡ addresses m
unfolding addresses set_sender
addresses-set_sender a c [] = refl
addresses-set_sender a c ((fd, p) ∷ m) = elim (Bool-cases (p.address == a)) [
  | inl e ↦ rw e refl
  | inr e ↦ rw e (ap (λ ks. p.address ∷ ks) (addresses-set_sender a c m))
]

-- A client of the map is one of its pointers.
pub has_client-lookup :
    (fd : ℕ) (p : Peer) (m : Peers)
    → lookup fd m ≡ some p
    → has_client p.address (addresses m) ≡ true
unfolding addresses lookup has_client
has_client-lookup fd p [] h = absurd (cc)
has_client-lookup fd p ((d, q) ∷ m) h = elim (Bool-cases (d == fd)) [
  | inl e ↦
      let f : some q ≡ some p = rw e at h in
      let g : q ≡ p = cc in
      let t : (q.address == p.address) ≡ true = ground (arith, ap (λ r. r.address) g) in rw t refl
  | inr e ↦ rest (q.address == p.address) (has_client-lookup fd p m (rw e at h))
]
  where
    rest :
        (b : Bool)
        → has_client p.address (addresses m) ≡ true
        → (b || has_client p.address (addresses m)) ≡ true
    rest true h = refl
    rest false h = h

pub sender_at-has_client :
    (a : ℕ) (m : Peers)
    → has_client a (addresses m) ≡ true
    → (c : Client) × (sender_at a m ≡ some c)
unfolding addresses has_client sender_at
sender_at-has_client a [] h = absurd (cc)
sender_at-has_client a ((fd, p) ∷ m) h = elim (Bool-cases (p.address == a)) [
  | inl e ↦ (p.sender, rw e refl)
  | inr e ↦ let (c, found) = sender_at-has_client a m (rw e at h) in (c, rw e found)
]

pub on_client_disconnected-other :
    (a : ℕ) (ks : List ℕ) → has_client a ks ≡ false → on_client_disconnected a ks ≡ ks
unfolding has_client on_client_disconnected
on_client_disconnected-other a [] h = refl
on_client_disconnected-other a (b ∷ ks) h = elim (Bool-cases (b == a)) [
  | inl e ↦ absurd (let f : true ≡ false = rw e at h in cc)
  | inr e ↦ rw e (ap (λ bs. b ∷ bs) (on_client_disconnected-other a ks (rw e at h)))
]

pub addresses-erase :
    (fd : ℕ) (p : Peer) (m : Peers)
    → lookup fd m ≡ some p
    → AreDistinct (addresses m)
    → addresses (erase fd m) ≡ on_client_disconnected p.address (addresses m)
unfolding addresses lookup erase AreDistinct on_client_disconnected
addresses-erase fd p [] h k = absurd (cc)
addresses-erase fd p ((d, q) ∷ m) h (new, k) = elim (Bool-cases (d == fd)) [
  | inl e ↦
      let f : some q ≡ some p = rw e at h in
      let g : q.address ≡ p.address = ap (λ r. r.address) (let r : q ≡ p = cc in r) in
      let t : (q.address == p.address) ≡ true = ground arith in
      let absent : has_client p.address (addresses m) ≡ false =
        ap (λ a. has_client a (addresses m)) (sym g) ∙ new in
      rw (e, t) (sym (on_client_disconnected-other p.address (addresses m) absent))
  | inr e ↦ elim (Bool-cases (q.address == p.address)) [
    | inl t ↦
        let there = has_client-lookup fd p m (rw e at h) in
        let f : true ≡ false =
          sym there
          ∙ ap (λ a. has_client a (addresses m)) (sym (same_of q.address p.address t))
          ∙ new in
        absurd (cc)
    | inr t ↦ rw (e, t) (ap (λ ks. q.address ∷ ks) (addresses-erase fd p m (rw e at h) k))
  ]
]

has_client-append :
    (a b : ℕ) (ks : List ℕ)
    → has_client a ks ≡ false
    → (b == a) ≡ false
    → has_client a (ks ++ b ∷ []) ≡ false
unfolding has_client
has_client-append a b [] h e = rw e refl
has_client-append a b (c ∷ ks) h e = elim (Bool-cases (c == a)) [
  | inl t ↦ absurd (let f : true ≡ false = rw t at h in cc)
  | inr t ↦ rw t (has_client-append a b ks (rw t at h) e)
]

pub AreDistinct-append :
    (a : ℕ) (ks : List ℕ) → AreDistinct ks → has_client a ks ≡ false → AreDistinct (ks ++ a ∷ [])
unfolding AreDistinct has_client
AreDistinct-append a [] k h = (refl, tt)
AreDistinct-append a (b ∷ ks) (new, k) h = elim (Bool-cases (b == a)) [
  | inl t ↦ absurd (let f : true ≡ false = rw t at h in cc)
  | inr t ↦
      let other : (a == b) ≡ false = ground arith in
      (has_client-append b a ks new other, AreDistinct-append a ks k (rw t at h))
]

has_client-disconnected :
    (a b : ℕ) (ks : List ℕ)
    → has_client a ks ≡ false
    → has_client a (on_client_disconnected b ks) ≡ false
unfolding has_client on_client_disconnected
has_client-disconnected a b [] h = refl
has_client-disconnected a b (c ∷ ks) h = elim (Bool-cases (c == a)) [
  | inl t ↦ absurd (let f : true ≡ false = rw t at h in cc)
  | inr t ↦ elim (Bool-cases (c == b)) [
    | inl e ↦ rw e (has_client-disconnected a b ks (rw t at h))
    | inr e ↦ rw (e, t) (has_client-disconnected a b ks (rw t at h))
  ]
]

pub AreDistinct-disconnected :
    (a : ℕ) (ks : List ℕ) → AreDistinct ks → AreDistinct (on_client_disconnected a ks)
unfolding AreDistinct on_client_disconnected
AreDistinct-disconnected a [] k = tt
AreDistinct-disconnected a (b ∷ ks) (new, k) = elim (Bool-cases (b == a)) [
  | inl e ↦ rw e (AreDistinct-disconnected a ks k)
  | inr e ↦ rw e (has_client-disconnected b a ks new, AreDistinct-disconnected a ks k)
]

-- A client that disconnects is one less.
pub length-disconnected :
    (a : ℕ) (ks : List ℕ)
    → AreDistinct ks
    → has_client a ks ≡ true
    → length ks ≡ suc (length (on_client_disconnected a ks))
unfolding AreDistinct has_client on_client_disconnected
length-disconnected a [] k h = absurd (cc)
length-disconnected a (b ∷ ks) (new, k) h = elim (Bool-cases (b == a)) [
  | inl e ↦
      let absent : has_client a ks ≡ false =
        ap (λ c. has_client c ks) (sym (same_of b a e)) ∙ new in
      rw (e, on_client_disconnected-other a ks absent) refl
  | inr e ↦ rw e (ap suc (length-disconnected a ks k (rw e at h)))
]
