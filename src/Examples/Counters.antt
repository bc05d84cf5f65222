-- ===== src/Examples/Counters.antt =====
-- The theorem on the counts of the in-memory counter at a concrete input.
use floodguard_rate_limiter.Prelude.{
  ℕ, zero, suc, ◌+◌, ap, sym, ◌∙◌, String, some, [], ◌∷◌, ◌≡◌, refl, arith,
}
use Prim.Native.Nat.{◌*◌}
use floodguard_rate_limiter.Prelude.Int.{ℤ, pos, negsuc, ◌+ℤ◌, ◌-ℤ◌, wrap64}
use floodguard_rate_limiter.Anomaly.{Buckets, memory_increment, memory_count_in_window}
use floodguard_rate_limiter.Anomaly.Counts.{count_in_window-increment}

-- Numbers written as runs of dots.
abbrev dots : ℕ → String
dots zero = ""
dots (suc n) = String.◌∷◌ "." (dots n)

abbrev length_of : String → ℕ
length_of String.[] = 0
length_of (String.◌∷◌ c s) = suc (length_of s)

length-dots : (n : ℕ) → length_of (dots n) ≡ n
length-dots zero = refl
length-dots (suc n) = ap suc (length-dots n)

abbrev run_length : ℤ → ℕ
run_length (pos n) = 2 * n
run_length (negsuc n) = 2 * n + 1

abbrev dotted : ℤ → String
dotted a = dots (run_length a)

run_length-inj : (a b : ℤ) → run_length a ≡ run_length b → a ≡ b
run_length-inj (pos m) (pos n) e = ap pos (omega (arith, e))
run_length-inj (pos m) (negsuc n) e = absurd (omega (arith, e))
run_length-inj (negsuc m) (pos n) e = absurd (omega (arith, e))
run_length-inj (negsuc m) (negsuc n) e = ap negsuc (omega (arith, e))

dotted-inj : (a b : ℤ) → dotted a ≡ dotted b → a ≡ b
dotted-inj a b e =
    run_length-inj a b
      (sym (length-dots (run_length a)) ∙ ap length_of e ∙ length-dots (run_length b))

-- Two withdrawals in minute 0 and one in minute 1.
abbrev counted : Buckets
counted = ("m:", pos 2) ∷ ("m:..", pos 1) ∷ []

abbrev incremented : Buckets
incremented = (memory_increment dotted "m" (pos 60000000007) (pos 4) counted).1

count_in_window-increment_example :
    (v : ℤ) × (memory_count_in_window dotted 3 "m" (pos 5) (pos 60000000001) counted ≡ some v)
    × (memory_count_in_window dotted 3 "m" (pos 5) (pos 60000000001) incremented
        ≡ some (wrap64 (v +ℤ pos 4)))
unfolding ◌-ℤ◌
count_in_window-increment_example =
    count_in_window-increment dotted 3 5 60000000007 "m" (pos 60000000001) (pos 4) counted
      dotted-inj (omega arith)
