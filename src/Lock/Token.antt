-- ===== src/Lock/Token.antt =====
-- lock/token.go: the random tokens of locks, over the source of crypto/rand.
use floodguard_rate_limiter.Prelude.{ℕ, String}
use floodguard_rate_limiter.Errors.{Action, Bytes, ◌>>=◌, pure}

-- `rand.Read` of a number of bytes, and `hex.EncodeToString`.
pub record Random (W : Type 0) : Type 0 where
  pub read : ℕ → Action W Bytes
  pub hex : Bytes → String

-- `randomToken`
unfoldable pub random_token : {W : Type 0} → Random W → Action W String
random_token rand = do b ← rand.read 16; pure (rand.hex b)
