-- ===== src/Notify.antt =====
-- notify/notify.go: the queue of alerts. The request's side and the goroutine that delivers run at
-- the same time; each step of either is one step of the state.
pub mod Queue
use floodguard_rate_limiter.Prelude.{
  ℕ, ◌+◌, String, Option, none, some, List, [], ◌∷◌, ◌++◌, if◌then◌else◌, ltb, length,
}
use floodguard_rate_limiter.Prelude.Int.{ℤ}
use floodguard_rate_limiter.Errors.{Error, Result, ok, err}

pub record Event : Type 0 where
  pub account_id : String
  pub action : String
  pub device_fingerprint : String
  pub ip_address : String
  pub at : ℤ

-- The lines that the notifier logs.
pub data Line : Type 0 where
  alert : Event → Line
  delivery_failed : Event → Error → Line
  queue_full : String → String → Line

-- The events in the channel, and what the notifier has logged, the latest last.
pub record Notifier (W : Type 0) : Type 0 where
  pub ch : List Event
  pub log : List Line
  pub world : W

-- `make(chan Event, 256)`
abbrev pub capacity : ℕ
capacity = 256

module _ {W : Type 0} where
  -- `AfterSensitiveAction` at time `now`: the select sends when the channel has room.
  unfoldable pub after_sensitive_action :
      ℤ → String → String → String → String → Notifier W → Notifier W
  after_sensitive_action now account_id action device_fingerprint ip_address n =
      let e : Event = record {
        account_id = account_id;
        action = action;
        device_fingerprint = device_fingerprint;
        ip_address = ip_address;
        at = now;
      } in
      if ltb (length n.ch) capacity
      then record n { ch = n.ch ++ e ∷ [] }
      else record n { log = n.log ++ queue_full account_id action ∷ [] }

  -- `deliver`; the sender, when there is one, answers and may change the world.
  unfoldable pub deliver :
      Option (Event → W → Result (Unit {0}) × W) → Event → Notifier W → Notifier W
  deliver none e n = record n { log = n.log ++ alert e ∷ [] }
  deliver (some send) e n =
      let (r, w) = send e n.world in
      elim r [
        | ok u ↦ record n { world = w }
        | err f ↦ record n { log = n.log ++ delivery_failed e f ∷ []; world = w }
      ]

  -- One turn of the goroutine's loop: it receives and delivers the oldest event, or waits while there
  -- is none.
  unfoldable pub receive :
      Option (Event → W → Result (Unit {0}) × W) → Notifier W → Option Event × Notifier W
  unfolding deliver
  receive sender n = elim n.ch [
    | [] ↦ (none, n)
    | e ∷ rest ↦ (some e, deliver sender e (record n { ch = rest }))
  ]

-- `StubSender.Send`
pub record StubSender : Type 0 where
  pub events : List Event
  pub answer : Result (Unit {0})

unfoldable pub stub_send : Event → StubSender → Result (Unit {0}) × StubSender
stub_send e s = (s.answer, record s { events = s.events ++ e ∷ [] })

-- `StubSender.Count`
unfoldable pub stub_count : StubSender → ℕ
stub_count s = length s.events
