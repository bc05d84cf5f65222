-- ===== src/Redis/Sorted.antt =====
-- The sorted sets of Redis, which is not in the repository, as a parameter: the commands that the code
-- and its scripts send, and what Redis documents of them.
use floodguard_rate_limiter.Prelude.{
  ℕ, suc, String, Option, none, some, List, [], ◌∷◌, ◌≡◌, ◌≢◌, if◌then◌else◌, ◌&&◌, length,
}
use floodguard_rate_limiter.Prelude.Int.{ℤ, pos, ◌+ℤ◌, ◌≤ℤ◌, ◌<ℤ◌, ltb_ℤ, leb_ℤ}
use floodguard_rate_limiter.Prelude.Dict.{Dict, insert, erase}

-- The members with their scores, and the time at which the key is removed.
pub record SortedSet : Type 0 where
  pub members : Dict ℤ
  pub deadline : Option ℤ

abbrev pub scores : Dict ℤ → List ℤ
scores [] = []
scores (entry ∷ rest) = entry.1 ∷ scores rest

-- How many of the scores are above a bound.
unfoldable pub above : ℤ → List ℤ → ℕ
above c [] = 0
above c (x ∷ xs) = let rest = above c xs in if ltb_ℤ c x then suc rest else rest

-- The commands, at the server's time in milliseconds.
pub record Sorted : Type 1 where
  pub Server : Type 0
  -- ZREMRANGEBYSCORE key min max
  pub zremrangebyscore : ℤ → String → ℤ → ℤ → Server → Server
  -- ZADD key score member
  pub zadd : ℤ → String → ℤ → String → Server → Server
  pub zcard : ℤ → String → Server → ℕ
  pub zrem : ℤ → String → String → Server → Server
  pub pexpire : ℤ → String → ℤ → Server → Server

-- The set without the scores from `least` to `greatest`.
unfoldable pub remove_range : ℤ → ℤ → Dict ℤ → Dict ℤ
remove_range least greatest [] = []
remove_range least greatest (entry ∷ rest) =
    let kept = remove_range least greatest rest in
    if leb_ℤ least entry.1 && leb_ℤ entry.1 greatest then kept else entry ∷ kept

-- A set that is empty has no deadline, since it is removed.
abbrev pub kept_deadline : Dict ℤ → Option ℤ → Option ℤ
kept_deadline [] d = none
kept_deadline (x ∷ xs) d = d

-- What Redis documents: the set of a key as each command leaves it and as time passes, `view` being
-- the set at a time. A command changes its own key alone; a set that is left empty is removed, and
-- a key is removed when its deadline comes.
pub record SortedLaws (R : Sorted) : Type 0 where
  pub view : ℤ → String → R.Server → SortedSet
  pub view_later :
      (now t : ℤ) (key : String) (s : R.Server)
      → now ≤ℤ t
      → view t key s ≡ elim (view now key s).deadline [
        | none ↦ view now key s
        | some d ↦ if leb_ℤ d t then record { members = []; deadline = none } else view now key s
      ]
  pub view-zremrangebyscore :
      (now : ℤ) (key : String) (least greatest : ℤ) (s : R.Server)
      → let left = remove_range least greatest (view now key s).members in
        view now key (R.zremrangebyscore now key least greatest s)
        ≡ record { members = left; deadline = kept_deadline left (view now key s).deadline }
  pub view-zadd :
      (now : ℤ) (key : String) (score : ℤ) (member : String) (s : R.Server)
      → view now key (R.zadd now key score member s) ≡ record {
        members = insert member score (view now key s).members;
        deadline = (view now key s).deadline;
      }
  pub zcard_lem :
      (now : ℤ) (key : String) (s : R.Server) → R.zcard now key s ≡ length (view now key s).members
  pub view-zrem :
      (now : ℤ) (key member : String) (s : R.Server)
      → let left = erase member (view now key s).members in
        view now key (R.zrem now key member s)
        ≡ record { members = left; deadline = kept_deadline left (view now key s).deadline }
  pub view-pexpire :
      (now : ℤ) (key : String) (ttl : ℤ) (s : R.Server)
      → pos 0 <ℤ ttl
      → view now key (R.pexpire now key ttl s) ≡ record {
        members = (view now key s).members;
        deadline = kept_deadline (view now key s).members (some (now +ℤ ttl));
      }
  -- the keys that a command is not about
  pub other_zremrangebyscore :
      (now : ℤ) (key other : String) (least greatest : ℤ) (s : R.Server)
      → key ≢ other
      → view now other (R.zremrangebyscore now key least greatest s) ≡ view now other s
  pub other_zadd :
      (now : ℤ) (key other : String) (score : ℤ) (member : String) (s : R.Server)
      → key ≢ other
      → view now other (R.zadd now key score member s) ≡ view now other s
  pub other_zrem :
      (now : ℤ) (key other member : String) (s : R.Server)
      → key ≢ other
      → view now other (R.zrem now key member s) ≡ view now other s
  pub other_pexpire :
      (now : ℤ) (key other : String) (ttl : ℤ) (s : R.Server)
      → key ≢ other
      → view now other (R.pexpire now key ttl s) ≡ view now other s
