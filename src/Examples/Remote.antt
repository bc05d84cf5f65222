-- ===== src/Examples/Remote.antt =====
-- The theorems on the Redis-backed parts at concrete histories.
use floodguard_rate_limiter.Prelude.{
  ℕ, zero, suc, String, str_append, true, List, [], ◌∷◌, ◌≡◌, refl, ◌≢◌, arith, text_eq, eq_iff,
  if◌then◌else◌,
}
use floodguard_rate_limiter.Prelude.Int.{ℤ, pos, ◌+ℤ◌}
use floodguard_rate_limiter.Prelude.Dict.{lookup}
use floodguard_rate_limiter.Errors.{Bytes, ok, err}
use floodguard_rate_limiter.Redis.{delivered, lost_request, lost_reply}
use floodguard_rate_limiter.Errors.{foreign}
use floodguard_rate_limiter.Idempotency.{busy, replay, to_process}
use floodguard_rate_limiter.Idempotency.Redis.{
  Encoding, redis_claim, redis_complete, claim_script, claim_result,
}
use floodguard_rate_limiter.Idempotency.RedisHistory.{Sent, claims, completes, Sequence, sent_all}
use floodguard_rate_limiter.Idempotency.RedisClaims.{redis_claim_exclusive, redis_complete_replays}
use floodguard_rate_limiter.Lock.Agreement.{
  acquires, releases, redis_answers, memory_answers, redis_answers-eq_memory,
}
use floodguard_rate_limiter.Lock.Agreement as Agreement
use floodguard_rate_limiter.Lock.Redis.{RedisLock, redis_acquire, redis_key}
use floodguard_rate_limiter.RateLimit.{validate}
use floodguard_rate_limiter.RateLimit.RedisWindow.{new_redis_sliding_window}
use floodguard_rate_limiter.Config.{Parsers, defaults}
use floodguard_rate_limiter.App.{Stores, new_stores}
use floodguard_rate_limiter.App.Keys.{lock_read_as_result}
use floodguard_rate_limiter.Examples.Servers.{string_server, string_laws}

-- Two attempts at a key, the second within the first lease, a release, and an attempt after it.
abbrev lock_calls : List (ℤ × Agreement.Call)
lock_calls =
    (pos 0, acquires "acct" "t1" (pos 50))
    ∷ (pos 10, acquires "acct" "t2" (pos 50))
    ∷ (pos 20, releases "acct" "t1")
    ∷ (pos 30, acquires "acct" "t3" (pos 50))
    ∷ []

redis_answers-eq_memory_example :
    redis_answers string_server "floodguard" lock_calls [] ≡ memory_answers lock_calls []
unfolding lookup
redis_answers-eq_memory_example =
    redis_answers-eq_memory string_server "floodguard" string_laws (pos 0) lock_calls []
      (λ t key. refl)
      (
        omega arith,
        omega arith,
        (omega arith, omega arith, (omega arith, (omega arith, omega arith, tt))),
      )

-- Bytes as runs of marks, each run closed by a comma.
abbrev marks : ℕ → String → String
marks zero s = s
marks (suc n) s = String.◌∷◌ "." (marks n s)

abbrev encode_marks : Bytes → String
encode_marks [] = ""
encode_marks (n ∷ ns) = marks n (str_append "," (encode_marks ns))

abbrev decode_marks : ℕ → String → Bytes
decode_marks n String.[] = []
decode_marks n (String.◌∷◌ c s) =
    if text_eq (String.◌∷◌ c "") "," then n ∷ decode_marks 0 s else decode_marks (suc n) s

abbrev marked : Encoding
marked = record { encode = encode_marks; decode = decode_marks 0 }

abbrev second : ℤ
second = pos 1000000000

abbrev sent_calls : List Sent
sent_calls =
    (pos 10, delivered, claims "pay-2" second)
    ∷ (pos 20, lost_reply (foreign "timeout"), completes "pay-2" (1 ∷ []) second)
    ∷ (pos 30, lost_request (foreign "timeout"), claims "pay-1" second)
    ∷ (pos 40, delivered, claims "pay-1" second)
    ∷ []

pay_2≢pay_1 : ◌≢◌ {A = String} "pay-2" "pay-1"
pay_2≢pay_1 e = ground (arith, (eq_iff "pay-2" "pay-1").1 e)

pay_1≢empty : ◌≢◌ {A = String} "pay-1" ""
pay_1≢empty e = cc

sent_calls-Sequence : Sequence "pay-1" (pos 0) sent_calls
sent_calls-Sequence = (
  omega arith,
  omega arith,
  tt,
  (
    omega arith,
    omega arith,
    pay_2≢pay_1,
    (omega arith, omega arith, tt, (omega arith, omega arith, tt, tt)),
  ),
)

first_claim :
    (redis_claim string_server "floodguard" marked (pos 0) delivered "pay-1" second []).0
    ≡ ok to_process
unfolding redis_claim claim_script claim_result lookup
first_claim = refl

redis_claim_exclusive_example :
    let s' =
      sent_all string_server "floodguard" marked sent_calls
        (redis_claim string_server "floodguard" marked (pos 0) delivered "pay-1" second []).1 in
    (redis_claim string_server "floodguard" marked (pos 50) delivered "pay-1" second s').0 ≡ ok busy
unfolding ◌+ℤ◌
redis_claim_exclusive_example =
    redis_claim_exclusive string_server "floodguard" marked string_laws "pay-1" (pos 0) (pos 50)
      second second sent_calls [] (omega arith) (omega arith) first_claim sent_calls-Sequence
      (omega arith) (omega arith)

redis_complete_replays_example :
    let s' =
      sent_all string_server "floodguard" marked sent_calls
        (redis_complete string_server "floodguard" marked
          (pos 0)
          delivered
          "pay-1"
          (2 ∷ 3 ∷ [])
          second
          []).1 in
    (redis_claim string_server "floodguard" marked (pos 50) delivered "pay-1" second s').0
    ≡ ok (replay (2 ∷ 3 ∷ []))
unfolding ◌+ℤ◌
redis_complete_replays_example =
    redis_complete_replays string_server "floodguard" marked string_laws "pay-1" (2 ∷ 3 ∷ [])
      (pos 0) (pos 50) second second sent_calls [] pay_1≢empty refl (omega arith)
      sent_calls-Sequence (omega arith) (omega arith)

-- Floats and durations that the default settings do not read.
abbrev parsers : Parsers
parsers = record {
  Float = ℕ;
  five = 5;
  parse_float = λ s. err (foreign "invalid syntax");
  parse_duration = λ s. err (foreign "invalid duration");
}

abbrev demo_stores : Stores
demo_stores = record {
  ip_rate_limiter = record {
    prefix = "floodguard:ip";
    cfg = record { limit = pos 30; window = pos 60000000000 };
  };
  account_rate_limiter = record {
    prefix = "floodguard:acct";
    cfg = record { limit = pos 10; window = pos 60000000000 };
  };
  idempotency_prefix = "floodguard";
  velocity_prefix = "floodguard";
  lock_prefix = "floodguard";
}

demo_built : new_stores parsers true (defaults parsers) ≡ ok demo_stores
unfolding new_stores defaults new_redis_sliding_window validate
demo_built = refl

floodguard≢empty : ◌≢◌ {A = String} (defaults parsers).redis.key_prefix ""
unfolding defaults
floodguard≢empty e = cc

abbrev held : RedisLock
held = record { key = "floodguard:result:pay-1"; token = "..," }

lock_granted :
    (redis_acquire string_server "floodguard"
      (pos 0)
      delivered
      (ok "..,")
      "result:pay-1"
      (pos 100)
      []).0
    ≡ ok held
unfolding redis_acquire lookup redis_key
lock_granted = refl

lock_read_as_result_example :
    (redis_claim string_server "floodguard" marked
      (pos 50)
      delivered
      "pay-1"
      second
      (redis_acquire string_server "floodguard"
        (pos 0)
        delivered
        (ok "..,")
        "result:pay-1"
        (pos 100)
        []).1).0
    ≡ ok (replay (2 ∷ []))
unfolding ◌+ℤ◌
lock_read_as_result_example =
    lock_read_as_result string_server string_laws parsers true (defaults parsers) demo_stores marked
      "pay-1" "..," (pos 0) (pos 50) (pos 100) second held [] floodguard≢empty demo_built
      pay_1≢empty lock_granted (omega arith) (omega arith)
