-- ===== src/Config/Balances.antt =====
-- The account balances of config/config.go: reading what was joined.
use Prim.Native.Char.{Char}
use floodguard_rate_limiter.Prelude.{
  ℕ, ap, sym, subst, ◌∙◌, String, str_append, false, some, List, [], ◌∷◌, ◌≡◌, refl, ◌≢◌, arith,
  text_eq, eq_iff, ◌==◌, length,
}
use floodguard_rate_limiter.Prelude.Int.{ℤ}
use floodguard_rate_limiter.Prelude.Dict.{Dict, insert}
use text.Mathlib.TextLemmas.{nil-append, cons-append}
use floodguard_rate_limiter.Errors.{ok}
use floodguard_rate_limiter.Config.Reading.{parse_parts, parse_account_balances}
use floodguard_rate_limiter.Config.Texts.{
  Lacks, is_space, trim_left, trim_right, trim_space, attach, split, split_two, parse_int,
}

-- An account, the text of its cents and their value.
pub record Balance : Type 0 where
  pub account : String
  pub text : String
  pub cents : ℤ

abbrev pub IsBlackFirst : String → Type 0
IsBlackFirst String.[] = Unit {0}
IsBlackFirst (String.◌∷◌ c s) = is_space c ≡ false

-- No space at either end.
abbrev pub IsTrimmed : String → Type 0
IsTrimmed s = IsBlackFirst s × (trim_right s ≡ s)

-- An entry that the format can hold.
abbrev pub IsBalance : Balance → Type 0
IsBalance b =
    Lacks b',' b.account
    × Lacks b'=' b.account
    × Lacks b',' b.text
    × IsTrimmed b.account
    × IsTrimmed b.text
    × (parse_int b.text ≡ ok b.cents)

abbrev pub AllBalances : List Balance → Type 0
AllBalances [] = Unit {0}
AllBalances (b ∷ bs) = IsBalance b × AllBalances bs

-- `account=cents`
abbrev pub shown : Balance → String
shown b = str_append b.account (str_append "=" b.text)

-- The entries with commas between them.
unfoldable pub joined : Balance → List Balance → String
joined b [] = shown b
joined b (b' ∷ bs) = str_append (shown b) (str_append "," (joined b' bs))

-- The map of the entries, a later one replacing an earlier one of the same account.
unfoldable pub balances_of : List Balance → Dict ℤ → Dict ℤ
balances_of [] out = out
balances_of (b ∷ bs) out = balances_of bs (insert b.account b.cents out)

abbrev parts_of : Balance → List Balance → List String
parts_of b [] = shown b ∷ []
parts_of b (b' ∷ bs) = shown b ∷ parts_of b' bs

split-Lacks : (n : ℕ) (s : String) → Lacks n s → split n s ≡ s ∷ []
unfolding split attach
split-Lacks n String.[] h = refl
split-Lacks n (String.◌∷◌ c s) h = rw h.0 (rw (split-Lacks n s h.1) refl)

-- A comma after a text without one.
split-comma :
    (s t : String) → Lacks b',' s → split b',' (str_append s (str_append "," t)) ≡ s ∷ split b',' t
unfolding split attach
split-comma String.[] t h =
    rw (nil-append (str_append "," t)) (rw (cons-append "," "" t) (rw (nil-append t) refl))
split-comma (String.◌∷◌ c s) t h =
    rw (cons-append c s (str_append "," t)) (rw h.0 (rw (split-comma s t h.1) refl))

split_two-equals :
    (s t : String) → Lacks b'=' s → split_two b'=' (str_append s (str_append "=" t)) ≡ some (s, t)
unfolding split_two
split_two-equals String.[] t h =
    rw (nil-append (str_append "=" t)) (rw (cons-append "=" "" t) (rw (nil-append t) refl))
split_two-equals (String.◌∷◌ c s) t h =
    rw (cons-append c s (str_append "=" t)) (rw h.0 (rw (split_two-equals s t h.1) refl))

trim_left-black : (s : String) → IsBlackFirst s → trim_left s ≡ s
unfolding trim_left
trim_left-black String.[] h = refl
trim_left-black (String.◌∷◌ c s) h = rw h refl

cons_nonempty : (c : Char) (s : String) → text_eq (String.◌∷◌ c s) "" ≡ false
cons_nonempty c s =
    let no : String.◌∷◌ c s ≢ "" = cc in ground (arith, (eq_iff (String.◌∷◌ c s) "").0, no)

shown-nonempty : (s t : String) → text_eq (str_append s (str_append "=" t)) "" ≡ false
shown-nonempty String.[] t =
    rw (nil-append (str_append "=" t))
      (rw (cons-append "=" "" t) (cons_nonempty "=" (str_append "" t)))
shown-nonempty (String.◌∷◌ c s) t =
    rw (cons-append c s (str_append "=" t)) (cons_nonempty c (str_append s (str_append "=" t)))

trim_right-shown :
    (s t : String)
    → trim_right t ≡ t
    → trim_right (str_append s (str_append "=" t)) ≡ str_append s (str_append "=" t)
unfolding trim_right is_space
trim_right-shown String.[] t h =
    rw (nil-append (str_append "=" t))
      (rw (cons-append "=" "" t) (rw (nil-append t) (rw h (ground arith))))
trim_right-shown (String.◌∷◌ c s) t h =
    rw (cons-append c s (str_append "=" t))
      (rw (trim_right-shown s t h) (rw (shown-nonempty s t) refl))

Lacks-append : (n : ℕ) (s t : String) → Lacks n s → Lacks n t → Lacks n (str_append s t)
Lacks-append n String.[] t h k = subst (Lacks n) (sym (nil-append t)) k
Lacks-append n (String.◌∷◌ c s) t h k =
    subst (Lacks n) (sym (cons-append c s t)) (h.0, Lacks-append n s t h.1 k)

shown-IsBlackFirst :
    (s t : String) → IsBlackFirst s → IsBlackFirst (str_append s (str_append "=" t))
unfolding is_space
shown-IsBlackFirst String.[] t h =
    subst IsBlackFirst (sym (nil-append (str_append "=" t) ∙ cons-append "=" "" t)) refl
shown-IsBlackFirst (String.◌∷◌ c s) t h =
    subst IsBlackFirst (sym (cons-append c s (str_append "=" t))) h

trim_space_id : (s : String) → IsTrimmed s → trim_space s ≡ s
unfolding trim_space
trim_space_id s h = rw (trim_left-black s h.0) h.1

trim_space-shown : (b : Balance) → IsBalance b → trim_space (shown b) ≡ shown b
trim_space-shown b h =
    trim_space_id (shown b)
      (shown-IsBlackFirst b.account b.text h.3.0, trim_right-shown b.account b.text h.4.1)

shown-Lacks : (b : Balance) → IsBalance b → Lacks b',' (shown b)
shown-Lacks b h =
    Lacks-append b',' b.account (str_append "=" b.text) h.0
      (Lacks-append b',' "=" b.text (refl, tt) h.2)

split-joined :
    (b : Balance) (bs : List Balance)
    → AllBalances (b ∷ bs)
    → split b',' (joined b bs) ≡ parts_of b bs
unfolding joined
split-joined b [] h = split-Lacks b',' (shown b) (shown-Lacks b h.0)
split-joined b (b' ∷ bs) h =
    split-comma (shown b) (joined b' bs) (shown-Lacks b h.0)
    ∙ ap (λ x. shown b ∷ x) (split-joined b' bs h.1)

parse_parts_step :
    (b : Balance) (parts : List String) (out : Dict ℤ)
    → IsBalance b
    → parse_parts (shown b ∷ parts) out ≡ parse_parts parts (insert b.account b.cents out)
unfolding parse_parts
parse_parts_step b parts out h = rw (trim_space-shown b h) (
    rw (shown-nonempty b.account b.text) (
      rw (split_two-equals b.account b.text h.1)
        (rw (trim_space_id b.text h.4) (rw h.5 (rw (trim_space_id b.account h.3) refl)))))

parse_parts-joined :
    (b : Balance) (bs : List Balance) (out : Dict ℤ)
    → AllBalances (b ∷ bs)
    → parse_parts (parts_of b bs) out ≡ ok (balances_of (b ∷ bs) out)
unfolding balances_of parse_parts
parse_parts-joined b [] out h = parse_parts_step b [] out h.0 ∙ refl
parse_parts-joined b (b' ∷ bs) out h =
    parse_parts_step b (parts_of b' bs) out h.0
    ∙ parse_parts-joined b' bs (insert b.account b.cents out) h.1

balances-nonempty :
    (bs : List Balance) (key : String) (v : ℤ) (out : Dict ℤ)
    → (length (balances_of bs (insert key v out)) == 0) ≡ false
unfolding balances_of insert
balances-nonempty [] key v out = ground arith
balances-nonempty (b ∷ bs) key v out = balances-nonempty bs b.account b.cents (insert key v out)

-- For a list of entries that is not empty, whose account names have no comma and no equals sign,
-- whose texts have no comma, and whose names and texts have no space at their ends, each text
-- being read as its cents: parseAccountBalances of the entries, written account=text with commas
-- between them, returns the map of the entries, a later one replacing an earlier one of the same
-- account.
pub parse_account_balances-joined :
    (b : Balance) (bs : List Balance)
    → AllBalances (b ∷ bs)
    → parse_account_balances (joined b bs) ≡ ok (balances_of (b ∷ bs) [])
unfolding parse_account_balances balances_of
parse_account_balances-joined b bs h =
    rw (split-joined b bs h)
      (rw (parse_parts-joined b bs [] h) (rw (balances-nonempty bs b.account b.cents []) refl))
