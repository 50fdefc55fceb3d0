-- ===== src/Auth/Connection/Laws.antt =====
-- Commands are sent over an open connection only.
use nest_js_tutorial.Base.{◌≡◌, ◌⊎◌, inl, inr, refl, sym, ap, ◌∙◌, Bool, true, false, subst}
use nest_js_tutorial.Runtime.{Exception, Outcome, returned, thrown, M, after}
use nest_js_tutorial.Auth.Connection.{RedisConnection, Client, on_server, opened, connect, call}

module _ {S : Type 0} (redis : RedisConnection S) (IsOpen : S → Type 0) where
  -- A client that takes its connection to be open is right.
  abbrev pub IsReady : Client S → Type 0
  IsReady c = c.connection_ready ≡ true → IsOpen c.server

  -- How a call ends: its command has run on an open connection, or the connection could not be opened.
  abbrev pub IsCalled : {A : Type 0} → M S A → Client S → Outcome A × Client S → Type 0
  IsCalled command c o =
      ((s : S) × IsOpen s
        × (o ≡ on_server (record { connection_ready = true; server = s }) (command s)))
      ⊎ ((e : Exception) × (c.connection_ready ≡ false)
          × ((redis.connect c.server).0 ≡ thrown e)
          × (o.0 ≡ thrown e)
          × (o.1.connection_ready ≡ false))

  opened_lem :
      {A : Type 0} (command : M S A) (c : Client S) (i : Outcome (Unit {0}) × S)
      → c.connection_ready ≡ false
      → redis.connect c.server ≡ i
      → ((t : S) (u : Unit {0}) → i ≡ (returned u, t) → IsOpen t)
      → IsCalled command c (after (opened i) (λ u d. on_server d (command (Client.server d))))
  opened_lem command c (returned u, s) h k opens = inl (s, opens s u refl, refl)
  opened_lem command c (thrown e, s) h k opens = inr (e, h, ap (λ x. x.0) k, refl, refl)

  called :
      {A : Type 0} (command : M S A) (b : Bool) (s : S)
      → IsReady (record { connection_ready = b; server = s })
      → ((s t : S) (u : Unit {0}) → redis.connect s ≡ (returned u, t) → IsOpen t)
      → IsCalled command
          (record { connection_ready = b; server = s })
          (call redis command (record { connection_ready = b; server = s }))
  unfolding call connect
  called command true s ready opens = inl (s, ready refl, refl)
  called command false s ready opens =
      opened_lem command (record { connection_ready = false; server = s }) (redis.connect s) refl
        refl (opens s)

  kept :
      {A : Type 0} (command : M S A) (c : Client S) (o : Outcome A × Client S)
      → ((s : S) → IsOpen s → IsOpen (command s).1)
      → IsCalled command c o
      → IsReady o.1
  kept command c o keeps (inl (s, is_open, same)) h =
      subst IsOpen (sym (ap (λ x. Client.server (x.1)) same)) (keeps s is_open)
  kept command c o keeps (inr (e, closed, failed, ends, reset)) h = let bad = sym reset ∙ h in cc

  -- If connecting opens the connection and the command leaves it open, then a call sends its command
  -- over an open connection, or it ends with the error of a connection that could not be opened, and
  -- the next call tries again; and the client is right about its connection as before.
  pub call_lem :
      {A : Type 0} (command : M S A) (c : Client S)
      → IsReady c
      → ((s t : S) (u : Unit {0}) → redis.connect s ≡ (returned u, t) → IsOpen t)
      → ((s : S) → IsOpen s → IsOpen (command s).1)
      → IsCalled command c (call redis command c) × IsReady (call redis command c).1
  call_lem command c ready opens keeps =
      let done = called command c.connection_ready c.server ready opens in
      (done, kept command c (call redis command c) keeps done)
