-- ===== src/Examples/Servers.antt =====
-- Redis servers that hold their keys in a dictionary, for runs at concrete inputs.
use floodguard_rate_limiter.Prelude.{
  String, true, false, Option, none, some, [], ◌≡◌, refl, ◌≢◌, arith, eq_iff, if◌then◌else◌,
  Option-cases, inl, inr, length,
}
use floodguard_rate_limiter.Prelude.Int.{ℤ, pos, ◌+ℤ◌, ◌≤ℤ◌, ◌<ℤ◌, ltb_ℤ, leb_ℤ}
use floodguard_rate_limiter.Prelude.Dict.{
  Dict, lookup, insert, erase, lookup-insert, lookup-insert_self, lookup-erase,
}
use floodguard_rate_limiter.Redis.{Strings, StringLaws}
use floodguard_rate_limiter.Redis.Sorted.{
  SortedSet, Sorted, SortedLaws, remove_range, kept_deadline,
}

-- A value with its deadline, as a time shows it.
abbrev live_string : ℤ → Option (String × ℤ) → Option String
live_string t none = none
live_string t (some (v, d)) = if ltb_ℤ t d then some v else none

abbrev pub string_server : Strings
string_server = record {
  Server = Dict (String × ℤ);
  get = λ t key s. live_string t (lookup key s);
  set = λ now key v ttl s. insert key (v, now +ℤ ttl) s;
  set_nx = λ now key v ttl s. elim (live_string now (lookup key s)) [
    | none ↦ (true, insert key (v, now +ℤ ttl) s)
    | some u ↦ (false, s)
  ];
  del = λ now key s. erase key s;
}

pub string_laws : StringLaws string_server
string_laws = record {
  get-set =
      λ now t ttl key other v s l p. ground (arith, lookup-insert key other (v, now +ℤ ttl) s);
  get-del = λ now t key other s l. ground (arith, lookup-erase key other s);
  get_gone = λ now t key s l h. ground arith;
  set_nx_lem = λ now ttl key v s p. refl;
}

abbrev no_set : SortedSet
no_set = record { members = []; deadline = none }

-- A set as a time shows it.
abbrev live_set : ℤ → Option SortedSet → SortedSet
live_set t none = no_set
live_set t (some z) = elim z.deadline [ none ↦ z | some d ↦ if leb_ℤ d t then no_set else z ]

abbrev seen : ℤ → String → Dict SortedSet → SortedSet
seen t key s = live_set t (lookup key s)

abbrev with_left : String → Dict ℤ → SortedSet → Dict SortedSet → Dict SortedSet
with_left key left z s =
    insert key (record { members = left; deadline = kept_deadline left z.deadline }) s

abbrev pub sorted_server : Sorted
sorted_server = record {
  Server = Dict SortedSet;
  zremrangebyscore = λ now key least greatest s.
      with_left key (remove_range least greatest (seen now key s).members) (seen now key s) s;
  zadd = λ now key score member s.
      insert key
        (record {
          members = insert member score (seen now key s).members;
          deadline = (seen now key s).deadline;
        })
        s;
  zcard = λ now key s. length (seen now key s).members;
  zrem =
      λ now key member s. with_left key (erase member (seen now key s).members) (seen now key s) s;
  pexpire = λ now key ttl s.
      insert key
        (record {
          members = (seen now key s).members;
          deadline = kept_deadline (seen now key s).members (some (now +ℤ ttl));
        })
        s;
}

-- A deadline that a time shows is still to come.
live-deadline :
    (t : ℤ) (o : Option SortedSet) (d : ℤ) → (live_set t o).deadline ≡ some d → leb_ℤ d t ≡ false
live-deadline t none d h = ground arith
live-deadline t (some z) d h = ground arith

seen-insert :
    (now : ℤ) (key : String) (z : SortedSet) (s : Dict SortedSet)
    → ((d : ℤ) → z.deadline ≡ some d → leb_ℤ d now ≡ false)
    → seen now key (insert key z s) ≡ z
seen-insert now key z s h = elim (Option-cases z.deadline) [
  | inl e ↦ ground (arith, lookup-insert_self key z s, e)
  | inr (d, e) ↦ ground (arith, lookup-insert_self key z s, e, h d e)
]

seen-insert_other :
    (now : ℤ) (key other : String) (z : SortedSet) (s : Dict SortedSet)
    → key ≢ other
    → seen now other (insert key z s) ≡ seen now other s
seen-insert_other now key other z s n =
    ground (arith, lookup-insert key other z s, eq_iff key other)

live_later :
    (now t : ℤ) (o : Option SortedSet)
    → now ≤ℤ t
    → live_set t o ≡ elim (live_set now o).deadline [
      | none ↦ live_set now o
      | some d ↦ if leb_ℤ d t then no_set else live_set now o
    ]
live_later now t none l = refl
live_later now t (some z) l = ground arith

left_deadline :
    (now : ℤ) (o : Option SortedSet) (left : Dict ℤ) (d : ℤ)
    → kept_deadline left (live_set now o).deadline ≡ some d
    → leb_ℤ d now ≡ false
left_deadline now o left d h = ground (arith, live-deadline now o d)

later_than : (now ttl : ℤ) → pos 0 <ℤ ttl → leb_ℤ (now +ℤ ttl) now ≡ false
unfolding ◌+ℤ◌
later_than now ttl p = ground arith

new_deadline :
    (now ttl : ℤ) (members : Dict ℤ)
    → pos 0 <ℤ ttl
    → (d : ℤ) → kept_deadline members (some (now +ℤ ttl)) ≡ some d
    → leb_ℤ d now ≡ false
new_deadline now ttl members p d h = ground (arith, later_than now ttl p)

pub sorted_laws : SortedLaws sorted_server
sorted_laws = record {
  view = seen;
  view_later = λ now t key s l. live_later now t (lookup key s) l;
  view-zremrangebyscore = λ now key least greatest s.
      seen-insert now key
        (record {
          members = remove_range least greatest (seen now key s).members;
          deadline =
              kept_deadline (remove_range least greatest (seen now key s).members)
                (seen now key s).deadline;
        })
        s (left_deadline now (lookup key s) (remove_range least greatest (seen now key s).members));
  view-zadd = λ now key score member s.
      seen-insert now key
        (record {
          members = insert member score (seen now key s).members;
          deadline = (seen now key s).deadline;
        })
        s (live-deadline now (lookup key s));
  zcard_lem = λ now key s. refl;
  view-zrem = λ now key member s.
      seen-insert now key
        (record {
          members = erase member (seen now key s).members;
          deadline =
              kept_deadline (erase member (seen now key s).members) (seen now key s).deadline;
        })
        s (left_deadline now (lookup key s) (erase member (seen now key s).members));
  view-pexpire = λ now key ttl s p.
      seen-insert now key
        (record {
          members = (seen now key s).members;
          deadline = kept_deadline (seen now key s).members (some (now +ℤ ttl));
        })
        s (new_deadline now ttl (seen now key s).members p);
  other_zremrangebyscore = λ now key other least greatest s n.
      seen-insert_other now key other
        (record {
          members = remove_range least greatest (seen now key s).members;
          deadline =
              kept_deadline (remove_range least greatest (seen now key s).members)
                (seen now key s).deadline;
        })
        s n;
  other_zadd = λ now key other score member s n.
      seen-insert_other now key other
        (record {
          members = insert member score (seen now key s).members;
          deadline = (seen now key s).deadline;
        })
        s n;
  other_zrem = λ now key other member s n.
      seen-insert_other now key other
        (record {
          members = erase member (seen now key s).members;
          deadline =
              kept_deadline (erase member (seen now key s).members) (seen now key s).deadline;
        })
        s n;
  other_pexpire = λ now key other ttl s n.
      seen-insert_other now key other
        (record {
          members = (seen now key s).members;
          deadline = kept_deadline (seen now key s).members (some (now +ℤ ttl));
        })
        s n;
}

pub sorted_server-fresh :
    (t : ℤ) (key : String) → sorted_laws.view t key [] ≡ record { members = []; deadline = none }
unfolding sorted_laws lookup
sorted_server-fresh t key = refl
