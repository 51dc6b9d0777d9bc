-- ===== src/Natsconn.antt =====
-- pkg/transport/nats/natsconn: a NATS connection with the life cycle of a component. The NATS client is a
-- parameter.
pub mod Once
use event_driven.Prelude.{
  ℕ, zero, suc, ℤ, pos, negsuc, Bytes, str, quoted, is_empty, Bool, true, false, not, ◌&&◌, Option,
  none, some, if◌then◌else◌,
}
use event_driven.Error.{Err, Result, ok, err, errorf, lit, verb, done, wrap}
use event_driven.Redact.{Urls, urls}

pub record Config : Type 0 where
  pub url : Bytes
  pub name : Bytes
  pub max_reconnects : ℤ

abbrev pub or_forever : ℤ → ℤ
or_forever (pos zero) = negsuc 0
or_forever (pos (suc n)) = pos (suc n)
or_forever (negsuc n) = negsuc n

-- nats.go: its DefaultURL, Connect, and whether errors.Is finds ErrConnectionClosed or
-- ErrConnectionReconnecting. `drain` is Drain of the connection, and `log` the record of a connecting client.
pub record Nats (S : Type 0) : Type 0 where
  pub default_url : Bytes
  pub connect : Config → S → Option Err × S
  pub drain : S → Option Err × S
  pub is_connection_closed : Err → Bool
  pub is_connection_reconnecting : Err → Bool
  pub log : Bytes → S → S

-- `stopped` is whether stopOnce has run; `drains` counts the calls of Drain.
pub record Conn (S : Type 0) : Type 0 where
  pub stopped : Bool
  pub drains : ℕ
  pub outside : S

module _ {S : Type 0} (nats : Nats S) where
  unfoldable pub with_defaults : Config → Config
  with_defaults c = record c {
    url = if is_empty c.url then nats.default_url else c.url;
    max_reconnects = or_forever c.max_reconnects;
  }

  abbrev pub connected : Bytes → Option Err × S → Result (Conn S) × S
  connected safe_url (none, s) = (ok (record { stopped = false; drains = 0; outside = s }), s)
  connected safe_url (some e, s) = (
    err (
        errorf
          (lit (str "natsconn: connect ") (lit (quoted safe_url) (lit (str ": ") (verb e done))))),
    s,
  )

  -- Dial; `lib` is for the redaction.
  unfoldable pub dial : Urls → Config → S → Result (Conn S) × S
  unfolding with_defaults urls
  dial lib cfg s =
      let c = with_defaults cfg in
      let safe_url = urls lib c.url in connected safe_url (nats.connect c (nats.log safe_url s))

  abbrev pub await_closed : Option Err → Option Err
  await_closed none = none
  await_closed (some e) = some (wrap (str "natsconn: drain: ") e)

  abbrev pub after_drain : Option Err → Option Err × S → Option Err × S
  after_drain expired (none, s) = (await_closed expired, s)
  after_drain expired (some e, s) =
      if not (nats.is_connection_closed e) && not (nats.is_connection_reconnecting e)
      then (some (wrap (str "natsconn: drain: ") e), s)
      else (await_closed expired, s)

  -- waitClosed; `expired` is the error of the context if it ends before the connection is closed.
  unfoldable pub wait_closed : Option Err → S → Option Err × S
  wait_closed expired s = after_drain expired (nats.drain s)

  abbrev pub mark_stopped : Conn S → Option Err × S → Option Err × Conn S
  mark_stopped c (e, s) = (e, record { stopped = true; drains = suc c.drains; outside = s })

  -- Stop; concurrent calls wait for each other in stopOnce.
  unfoldable pub stop : Option Err → Conn S → Option Err × Conn S
  unfolding wait_closed
  stop expired c = if c.stopped then (none, c) else mark_stopped c (wait_closed expired c.outside)
