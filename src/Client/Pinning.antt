-- ===== src/Client/Pinning.antt =====
-- With whom the client talks, over all its connections.
use py_frp.Base.{
  ◌≡◌, ◌≢◌, refl, ap, sym, ◌∙◌, Bool, true, false, Option, none, some, List, [], ◌∷◌, arith,
  if◌then◌else◌, ◌⊎◌, inl, inr, Bool-cases,
}
use py_frp.Base.Texts.{Text}
use py_frp.Base.Result.{Result, ok, err}
use py_frp.Fingerprint.{fingerprints_equal}
use py_frp.Client.State.{
  Client, Failure, security, Python, Peer, unreachable, no_certificate, presents, Answer, Attempt,
  confirmed,
}
use py_frp.Client.Trust.{open_server_connection, verify_fingerprint, first_trust}
use py_frp.Client.Session.{
  Connection, Ended, raised, waits, on_connection, connected, run_once, apply_aliases,
}
use py_frp.Client.Rule.{IsRule, on_connection-Ends}
use py_frp.Client.Reconnect.{ClientRun, after_connection, run_client}

-- A client `before` takes up a connection and is `after`: it trusts a fingerprint, and the peer has
-- that one, or one that is equal to what was trusted before.
pub record Trusts (python : Python) (peer : Peer) (answer : Answer) (before after : Client)
    : Type 0 where
  pub fingerprint : Text
  pub trusted_text : Text
  pub is_peer : peer ≡ presents fingerprint
  pub is_trusted : after.trusted ≡ some trusted_text
  pub reason :
      ((before.trusted ≡ none) × (trusted_text ≡ fingerprint) × (confirmed answer ≡ true))
      ⊎ ((before.trusted ≡ some trusted_text)
          × (fingerprints_equal python.upper fingerprint trusted_text ≡ true))

first_trust-confirmed :
    (fingerprint : Text) (answer : Answer) (c c' : Client)
    → first_trust fingerprint answer c ≡ ok c'
    → (confirmed answer ≡ true) × (c'.trusted ≡ some fingerprint)
unfolding first_trust
first_trust-confirmed fingerprint answer c c' e = elim (Bool-cases (confirmed answer)) [
  | inl y ↦ let f = rw (y, first_trust) at e in (y, ground arith)
  | inr n ↦ let f = rw (n, first_trust) at e in cc
]

checked :
    (b : Bool) (c c' : Client) → (if b then ok c else err security) ≡ ok c' → (b ≡ true) × (c ≡ c')
checked true c c' e = (refl, cc)
checked false c c' e = cc

verify-Trusts :
    (python : Python) (fingerprint : Text) (answer : Answer) (c c' : Client) (o : Option Text)
    → c.trusted ≡ o
    → verify_fingerprint python fingerprint answer c o ≡ ok c'
    → Trusts python (presents fingerprint) answer c c'
unfolding verify_fingerprint
verify-Trusts python fingerprint answer c c' none e h =
    let f = first_trust-confirmed fingerprint answer c c' h in
    record {
      fingerprint = fingerprint;
      trusted_text = fingerprint;
      is_peer = refl;
      is_trusted = f.1;
      reason = inl (e, refl, f.0);
    }
verify-Trusts python fingerprint answer c c' (some t) e h =
    let f = checked (fingerprints_equal python.upper fingerprint t) c c' h in
    record {
      fingerprint = fingerprint;
      trusted_text = t;
      is_peer = refl;
      is_trusted = ap (λ (d : Client). d.trusted) (sym f.1) ∙ e;
      reason = inr (e, f.0);
    }

open_server_connection-Trusts :
    (python : Python) (peer : Peer) (answer : Answer) (c c' : Client)
    → open_server_connection python peer answer c ≡ ok c'
    → Trusts python peer answer c c'
unfolding open_server_connection
open_server_connection-Trusts python unreachable answer c c' e = cc
open_server_connection-Trusts python no_certificate answer c c' e = cc
open_server_connection-Trusts python (presents f) answer c c' e =
    verify-Trusts python f answer c c' c.trusted refl e

-- Taking up a connection changes nothing but the trust.
abbrev pub SameSettings : Client → Client → Type 0
SameSettings c d =
    (d.config ≡ c.config)
    × (d.base_proxies ≡ c.base_proxies)
    × (d.proxies ≡ c.proxies)
    × (d.force_connect ≡ c.force_connect)

first_trust-SameSettings :
    (fingerprint : Text) (answer : Answer) (c d : Client)
    → first_trust fingerprint answer c ≡ ok d
    → SameSettings c d
unfolding first_trust
first_trust-SameSettings fingerprint answer c d e = elim (Bool-cases (confirmed answer)) [
  | inl y ↦ let f = rw (y, first_trust) at e in (cc, cc, cc, cc)
  | inr n ↦ let f = rw (n, first_trust) at e in cc
]

verify-SameSettings :
    (python : Python) (fingerprint : Text) (answer : Answer) (c d : Client) (o : Option Text)
    → verify_fingerprint python fingerprint answer c o ≡ ok d
    → SameSettings c d
unfolding verify_fingerprint
verify-SameSettings python fingerprint answer c d none e =
    first_trust-SameSettings fingerprint answer c d e
verify-SameSettings python fingerprint answer c d (some t) e =
    let f = (checked (fingerprints_equal python.upper fingerprint t) c d e).1 in (cc, cc, cc, cc)

pub open_server_connection-SameSettings :
    (python : Python) (peer : Peer) (answer : Answer) (c d : Client)
    → open_server_connection python peer answer c ≡ ok d
    → SameSettings c d
unfolding open_server_connection
open_server_connection-SameSettings python unreachable answer c d e = cc
open_server_connection-SameSettings python no_certificate answer c d e = cc
open_server_connection-SameSettings python (presents f) answer c d e =
    verify-SameSettings python f answer c d c.trusted e

-- What is trusted stays trusted while nothing else is.
kept :
    {python : Python} {peer : Peer} {answer : Answer} {before after : Client}
    → Trusts python peer answer before after
    → (t : Text) → before.trusted ≡ some t
    → after.trusted ≡ some t
kept {python = python} {answer = answer} {before = before} {after = after} v t h =
    by_reason v.reason
  where
    by_reason :
        ((before.trusted ≡ none) × (v.trusted_text ≡ v.fingerprint) × (confirmed answer ≡ true))
          ⊎ ((before.trusted ≡ some v.trusted_text)
              × (fingerprints_equal python.upper v.fingerprint v.trusted_text ≡ true))
        → after.trusted ≡ some t
    by_reason (inl (n, e, y)) = cc
    by_reason (inr (e, y)) = v.is_trusted ∙ (sym e ∙ h)

later :
    {python : Python} {peer : Peer} {answer : Answer} {before after last : Client}
    → Trusts python peer answer before after
    → last.trusted ≡ after.trusted
    → Trusts python peer answer before last
later v e = record {
  fingerprint = v.fingerprint;
  trusted_text = v.trusted_text;
  is_peer = v.is_peer;
  is_trusted = e ∙ v.is_trusted;
  reason = v.reason;
}

module _ (python : Python) (a : Attempt) where
  SameTrust-IsRule :
      (o : Option Text)
      → IsRule python a (λ s. s.client.trusted ≡ o) (λ ended s. s.client.trusted ≡ o)
  unfolding apply_aliases
  SameTrust-IsRule o = record {
    when_waiting = λ s g. g;
    when_fatal = λ s g. g;
    when_other = λ s g. g;
    when_restarting = λ s m g. g;
    hello = λ s g. g;
    registration = λ s g. g;
    forced = λ s m g here full y. g;
    opening = λ s m g. g;
    registering = λ s m g. g;
  }

  on_connection-trusted :
      (s : Connection) → (on_connection python a s).1.client.trusted ≡ s.client.trusted
  on_connection-trusted s =
      on_connection-Ends python a (λ t. t.client.trusted ≡ s.client.trusted)
        (λ ended t. t.client.trusted ≡ s.client.trusted) (SameTrust-IsRule s.client.trusted) s refl

  -- The client that a connection leaves, by whether it was taken up.
  connected-cases :
      (c : Client) (r : Result Failure Client)
      → open_server_connection python a.peer a.trust_answer c ≡ r
      → ((connected python a c r).1.written ≢ []
          → Trusts python a.peer a.trust_answer c (connected python a c r).1.client)
        × ((t : Text) → c.trusted ≡ some t → (connected python a c r).1.client.trusted ≡ some t)
  unfolding connected
  connected-cases c (err f) e = ((λ n. absurd (n refl)), λ t h. h)
  connected-cases c (ok d) e =
      let s : Connection = record { client = d; written = []; opened = []; registered = [] } in
      let same = on_connection-trusted s in
      let trusts = open_server_connection-Trusts python a.peer a.trust_answer c d e in
      ((λ n. later trusts same), λ t h. same ∙ kept trusts t h)

-- A client writes to a peer only when it trusts the peer's fingerprint: it trusted one that is equal
-- before, or it trusted none and the user has confirmed this one.
pub run_once-Trusts :
    (python : Python) (a : Attempt) (c : Client)
    → (run_once python a c).1.written ≢ []
    → Trusts python a.peer a.trust_answer c (run_once python a c).1.client
unfolding run_once
run_once-Trusts python a c =
    (connected-cases python a c (open_server_connection python a.peer a.trust_answer c) refl).0

run_once-keeps :
    (python : Python) (a : Attempt) (c : Client) (t : Text)
    → c.trusted ≡ some t
    → (run_once python a c).1.client.trusted ≡ some t
unfolding run_once
run_once-keeps python a c =
    (connected-cases python a c (open_server_connection python a.peer a.trust_answer c) refl).1

after_connection-trusted :
    (later : Client → ClientRun) (r : Ended × Connection) (t : Text)
    → r.1.client.trusted ≡ some t
    → ((c : Client) → c.trusted ≡ some t → (later c).client.trusted ≡ some t)
    → (after_connection later r).client.trusted ≡ some t
unfolding after_connection
after_connection-trusted later (waits, s) t e h = e
after_connection-trusted later (raised f, s) t e h = ground (arith, h s.client e)

-- Over all its connections a client that trusts a fingerprint never trusts another.
pub run_client_trusted :
    (python : Python) (attempts : List Attempt) (c : Client) (t : Text)
    → c.trusted ≡ some t
    → (run_client python attempts c).client.trusted ≡ some t
unfolding run_client
run_client_trusted python [] c t e = e
run_client_trusted python (a ∷ attempts) c t e =
    after_connection-trusted (run_client python attempts) (run_once python a c) t
      (run_once-keeps python a c t e) (λ d h. run_client_trusted python attempts d t h)
