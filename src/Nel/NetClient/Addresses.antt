-- ===== src/Nel/NetClient/Addresses.antt =====
-- nel/NetClient.cpp: which address a client asks for.
use zylib.Prelude.{
  ℕ, ◌≡◌, refl, sym, ◌⊎◌, inl, inr, Bool, true, false, List, [], ◌∷◌, ◌++◌, ◌==◌, if◌then◌else◌,
  ==_iff, Bool-cases, if_both, All,
}
use mathlib.Core.Path.{subst}
use zylib.Nel.NetClient.{
  InetAddress, Address, unspecified, NetClient, net_client, disconnect, on_connect, disconnects,
  Event, connects, reconnects, ends, leaves, async_connect, connect, reconnect, step, run,
}

-- Only the unspecified address.
abbrev pub Unspecified : List (Address × ℕ) → Type 0
Unspecified asked = All (λ a. a.0 ≡ unspecified) asked

Unspecified-append :
    (asked : List (Address × ℕ)) (port : ℕ)
    → Unspecified asked
    → Unspecified (asked ++ (unspecified, port) ∷ [])
Unspecified-append [] port u = (refl, tt)
Unspecified-append (a ∷ asked) port u = (u.0, Unspecified-append asked port u.1)

module _ (is_address : List ℕ → Bool) where
  async-Unspecified :
      (addr : InetAddress) (c : NetClient)
      → Unspecified c.asked
      → Unspecified (async_connect is_address addr c).0.asked
  unfolding async_connect
  async-Unspecified addr c u =
      if_both (λ (r : NetClient × Bool). Unspecified r.0.asked) (is_address addr.ip) _ (c, false)
        (Unspecified-append c.asked addr.port u) u

  on_connect-asked : (ok : Bool) (c : NetClient) → (on_connect ok c).asked ≡ c.asked
  unfolding on_connect
  on_connect-asked true c =
      if_both (λ (d : NetClient). d.asked ≡ c.asked) c.has_callback _ _ refl refl
  on_connect-asked false c =
      if_both (λ (d : NetClient). d.asked ≡ c.asked) c.has_callback _ _ refl refl

  step-Unspecified :
      (e : Event) (c : NetClient) → Unspecified c.asked → Unspecified (step is_address e c).asked
  unfolding step connect reconnect disconnects
  step-Unspecified (connects addr) c u =
      if_both (λ (r : NetClient × Bool). Unspecified r.0.asked) (c.m_state == disconnect) _
        (c, false) (async-Unspecified addr (record c { has_callback = true; inet_addr = addr }) u) u
  step-Unspecified reconnects c u =
      if_both (λ (r : NetClient × Bool). Unspecified r.0.asked) c.has_callback _ (c, false)
        (async-Unspecified c.inet_addr c u) u
  step-Unspecified (ends ok) c u =
      if_both (λ (d : NetClient). Unspecified d.asked) c.waiting _ c
        (subst Unspecified (sym (on_connect-asked ok c)) u) u
  step-Unspecified leaves c u = u

  run-Unspecified :
      (es : List Event) (c : NetClient)
      → Unspecified c.asked
      → Unspecified (run is_address es c).asked
  unfolding run
  run-Unspecified [] c u = u
  run-Unspecified (e ∷ es) c u = run-Unspecified es (step is_address e c) (step-Unspecified e c u)

  -- A client that connect refuses.
  record Refusing (c : NetClient) : Type 0 where
    pub refused : (c.m_state == disconnect) ≡ false
    pub no_callback : c.has_callback ≡ false
    pub idle : c.waiting ≡ false
    pub nothing : c.asked ≡ []

  step-Refusing : (e : Event) (c : NetClient) → Refusing c → Refusing (step is_address e c)
  unfolding step connect reconnect disconnects
  step-Refusing (connects addr) c k =
      subst
        (λ (b : Bool).
          Refusing
            (if b
              then async_connect is_address addr
                  (record c { has_callback = true; inet_addr = addr })
              else (c, false)).0)
        (sym k.refused) k
  step-Refusing reconnects c k =
      subst
        (λ (b : Bool).
          Refusing (if b then async_connect is_address c.inet_addr c else (c, false)).0)
        (sym k.no_callback) k
  step-Refusing (ends ok) c k =
      subst (λ (b : Bool). Refusing (if b then on_connect ok c else c)) (sym k.idle) k
  step-Refusing leaves c k = record {
    refused = k.refused;
    no_callback = k.no_callback;
    idle = k.idle;
    nothing = k.nothing;
  }

  run-Refusing : (es : List Event) (c : NetClient) → Refusing c → Refusing (run is_address es c)
  unfolding run
  run-Refusing [] c k = k
  run-Refusing (e ∷ es) c k = run-Refusing es (step is_address e c) (step-Refusing e c k)

  -- Whatever addresses a new client is told to connect to, and however often, it asks for no other than the
  -- unspecified one; and where its state was not found to be DISCONNECT, it never asks for any.
  pub run-asks :
      (es : List Event) (found : ℕ)
      → Unspecified (run is_address es (net_client found)).asked
        × (((run is_address es (net_client found)).asked ≡ []) ⊎ (found ≡ disconnect))
  unfolding net_client
  run-asks es found = (
    run-Unspecified es (net_client found) tt,
    elim (Bool-cases (found == disconnect)) [
      | inl same ↦ inr ((==_iff found disconnect).0 same)
      | inr other ↦
          inl
            (run-Refusing es (net_client found)
              (record { refused = other; no_callback = refl; idle = refl; nothing = refl })).nothing
    ],
  )
