-- ===== src/Examples/Server.antt =====
-- The theorems on the settings, the in-memory counter, the alerts and the example server at concrete inputs.
use floodguard_rate_limiter.Prelude.{
  ℕ, zero, suc, String, str_append, none, some, List, [], ◌∷◌, ◌≡◌, refl, arith, text_eq,
  if◌then◌else◌, ◌⊎◌,
}
use floodguard_rate_limiter.Prelude.Int.{ℤ, pos, negsuc, ◌+ℤ◌, ◌-ℤ◌, leb_ℤ}
use floodguard_rate_limiter.Prelude.Dict.{lookup}
use floodguard_rate_limiter.Errors.{ok, err, foreign, background}
use floodguard_rate_limiter.Config.{Parsers, Config, defaults}
use floodguard_rate_limiter.Config.Reading.{parse_account_balances, env_parsed, env_string, load}
use floodguard_rate_limiter.Config.Loaded.{Settings, load-Settings}
use floodguard_rate_limiter.Config.Texts.{is_space, trim_right, parse_int, read_digits}
use floodguard_rate_limiter.Config.Balances.{
  Balance, joined, balances_of, AllBalances, parse_account_balances-joined,
}
use floodguard_rate_limiter.Anomaly.{Floats, Detector, memory_count_in_window}
use floodguard_rate_limiter.Anomaly.Loop.{total_of, count_in_window-terminates}
use floodguard_rate_limiter.Notify.{Event, StubSender, stub_send}
use floodguard_rate_limiter.Notify.Queue.{
  Step, acts, receives, Queue, queue_run, run, Refines, run-Refines,
}
use floodguard_rate_limiter.Ledger.{Printing, Records}
use floodguard_rate_limiter.Ledger
use floodguard_rate_limiter.DeviceTrust.{Devices}
use floodguard_rate_limiter.DeviceTrust
use floodguard_rate_limiter.App.Service.{Request, Service, withdraw}
use floodguard_rate_limiter.App.Withdrawals.{AllSound, account_of, Settles, withdraw-Settles}

abbrev first_balance : Balance
first_balance = record { account = "acct-1"; text = "500"; cents = pos 500 }

abbrev other_balances : List Balance
other_balances = record { account = "acct-2"; text = "-7"; cents = negsuc 6 } ∷ []

balances_fit : AllBalances (first_balance ∷ other_balances)
unfolding is_space trim_right parse_int read_digits
balances_fit = (
  (
    (refl, (refl, (refl, (refl, (refl, (refl, tt)))))),
    (refl, (refl, (refl, (refl, (refl, (refl, tt)))))),
    (refl, (refl, (refl, tt))),
    (refl, refl),
    (refl, refl),
    refl,
  ),
  (
    (
      (refl, (refl, (refl, (refl, (refl, (refl, tt)))))),
      (refl, (refl, (refl, (refl, (refl, (refl, tt)))))),
      (refl, (refl, tt)),
      (refl, refl),
      (refl, refl),
      refl,
    ),
    tt,
  ),
)

parse_account_balances-joined_example :
    parse_account_balances (joined first_balance other_balances)
    ≡ ok (balances_of (first_balance ∷ other_balances) [])
parse_account_balances-joined_example =
    parse_account_balances-joined first_balance other_balances balances_fit

-- A number's text, for few numbers.
abbrev minute_name : ℤ → String
minute_name (pos zero) = "0"
minute_name (pos (suc n)) = "1"
minute_name (negsuc n) = "-1"

count_in_window-terminates_example :
    memory_count_in_window minute_name 3 "m" (pos 5) (pos 60000000001) (("m:0", pos 2) ∷ [])
    ≡ some (total_of minute_name 2 "m" (pos 0) (("m:0", pos 2) ∷ []) (pos 0))
unfolding ◌-ℤ◌
count_in_window-terminates_example =
    count_in_window-terminates minute_name 3 "m" (pos 5) (pos 60000000001) (("m:0", pos 2) ∷ [])
      (omega arith)

abbrev event : Event
event = record {
  account_id = "acct";
  action = "withdraw";
  device_fingerprint = "fp";
  ip_address = "ip";
  at = pos 1;
}

-- A sender that fails.
abbrev failing : StubSender
failing = record { events = []; answer = err (foreign "refused") }

abbrev no_alerts : Queue
no_alerts = record { waiting = []; taken = []; dropped = [] }

abbrev alert_steps : List Step
alert_steps = acts event ∷ receives ∷ receives ∷ acts event ∷ []

run-Refines_example :
    Refines
      (some stub_send)
      failing
      (queue_run alert_steps no_alerts)
      (run (some stub_send) alert_steps (record { ch = []; log = []; world = failing }))
run-Refines_example = run-Refines (some stub_send) alert_steps failing

-- Floats and durations that the environment below does not set.
abbrev pub parsers : Parsers
parsers = record {
  Float = ℕ;
  five = 5;
  parse_float = λ s. err (foreign "invalid syntax");
  parse_duration = λ s. err (foreign "invalid duration");
}

-- An environment with two of the variables.
abbrev environment : String → String
environment key =
    if text_eq key "IP_RATE_LIMIT"
    then "5"
    else if text_eq key "DEVICE_TRUST_STORE"
    then "redis"
    else ""

abbrev settings : Config parsers
settings = record (defaults parsers) {
  rate_limit = record (defaults parsers).rate_limit { ip_limit = pos 5 };
  device_trust = record { store = "redis" };
}

loaded : load parsers environment ≡ ok settings
unfolding load env_parsed env_string parse_int read_digits defaults
loaded = refl

load-Settings_example : Settings parsers environment settings
load-Settings_example = load-Settings parsers environment settings loaded

abbrev pub printing : Printing
printing = record { digest = λ s. str_append "#" s; format_int = λ n. "n"; format_time = λ t. "t" }

abbrev pub floats : Floats
floats = record {
  Float = ℤ;
  zero_float = pos 0;
  five = pos 5;
  of_int = λ n. n;
  over = λ a b. a;
  times = λ a b. a;
  is_nonpositive = λ a. leb_ℤ a (pos 0);
  is_at_least = λ a b. leb_ℤ b a;
}

-- A counter that keeps one number.
abbrev pub detector : Detector floats ℤ
detector = record {
  counter = record {
    increment = λ ctx metric at delta n. (ok tt, n +ℤ delta);
    count_in_window = λ ctx metric from to n. (ok n, n);
  };
  multiplier = pos 5;
}

abbrev pub service : Service Records Devices ℤ ℕ
service = record {
  accounts =
      ("acct-1", record { total_cents = pos 100; pending_withdraw = pos 0 })
      ∷ ("acct-2", record { total_cents = pos 7; pending_withdraw = pos 0 })
      ∷ [];
  created = [];
  ledger = [];
  devices = [];
  counts = pos 0;
  notifier = none;
}

abbrev request : Request
request = record {
  context = background;
  account_id = "acct-1";
  fingerprint = "fp";
  amount_cents = some (pos 30);
  remote_addr = "ip";
}

withdraw-Settles_example :
    let (reply, s') =
      withdraw printing floats Ledger.memory_store DeviceTrust.memory_store detector
        (pos 1)
        request
        service in
    Settles
      (pos 30)
      (account_of "acct-1" service.accounts)
      reply.status
      (account_of "acct-1" s'.accounts)
    × ((◌≡◌ {A = String} "acct-1" "acct-2")
        ⊎ (lookup "acct-2" s'.accounts ≡ lookup "acct-2" service.accounts))
    × AllSound s'.accounts
withdraw-Settles_example =
    withdraw-Settles printing floats Ledger.memory_store DeviceTrust.memory_store detector (pos 1)
      (pos 30) request "acct-2" service refl (omega arith, omega arith)
      ((refl, omega arith, omega arith), ((refl, omega arith, omega arith), tt))
