-- ===== src/Idempotency/RedisKeys.antt =====
-- The keys that idempotency/redis.go gives two requests.
use floodguard_rate_limiter.Prelude.{
  ap, sym, ◌∙◌, String, str_append, false, ◌≡◌, ◌≢◌, arith, text_eq, eq_iff,
}
use text.Mathlib.TextLemmas.{append_cancel_left, append_assoc}
use text.Mathlib.TextPositions.{slice-append_left}
use Prim.Native.String.{slice}
use floodguard_rate_limiter.Redis.{Strings}
use floodguard_rate_limiter.Idempotency.Redis.{inflight_key, result_key}

i-ne-r : ◌≢◌ {A = String} "i" "r"
i-ne-r e = ground (arith, (eq_iff "i" "r").1 e)

differ : (j k : String) → str_append ":inflight:" j ≢ str_append ":result:" k
differ j k e =
    let tails : str_append "inflight:" j ≡ str_append "result:" k =
      append_cancel_left ":" (str_append "inflight:" j) (str_append "result:" k)
        (sym (append_assoc ":" "inflight:" j) ∙ e ∙ append_assoc ":" "result:" k) in
    let firsts : str_append "i" (str_append "nflight:" j) ≡ str_append "r" (str_append "esult:" k) =
      sym (append_assoc "i" "nflight:" j) ∙ tails ∙ append_assoc "r" "esult:" k in
    let same : ◌≡◌ {A = String} "i" "r" =
      sym (slice-append_left "i" (str_append "nflight:" j))
      ∙ ap (λ x. slice x 0 1) firsts
      ∙ slice-append_left "r" (str_append "esult:" k) in
    i-ne-r same

module _ (R : Strings) (prefix : String) where
  -- The texts of the keys of two requests.
  pub same_inflight :
      (j k : String) → text_eq (inflight_key R prefix j) (inflight_key R prefix k) ≡ text_eq j k
  unfolding inflight_key
  same_inflight j k =
      let back : inflight_key R prefix j ≡ inflight_key R prefix k → j ≡ k = λ e.
        append_cancel_left ":inflight:" j k
          (append_cancel_left prefix (str_append ":inflight:" j) (str_append ":inflight:" k) e) in
      ground (
        arith,
        eq_iff j k,
        eq_iff (inflight_key R prefix j) (inflight_key R prefix k),
        back,
        (λ (e : j ≡ k). ap (inflight_key R prefix) e),
      )

  pub same_result :
      (j k : String) → text_eq (result_key R prefix j) (result_key R prefix k) ≡ text_eq j k
  unfolding result_key
  same_result j k =
      let back : result_key R prefix j ≡ result_key R prefix k → j ≡ k = λ e.
        append_cancel_left ":result:" j k
          (append_cancel_left prefix (str_append ":result:" j) (str_append ":result:" k) e) in
      ground (
        arith,
        eq_iff j k,
        eq_iff (result_key R prefix j) (result_key R prefix k),
        back,
        (λ (e : j ≡ k). ap (result_key R prefix) e),
      )

  pub inflight-ne-result :
      (j k : String) → text_eq (inflight_key R prefix j) (result_key R prefix k) ≡ false
  unfolding inflight_key result_key
  inflight-ne-result j k =
      let no : inflight_key R prefix j ≢ result_key R prefix k = λ e.
        differ j k
          (append_cancel_left prefix (str_append ":inflight:" j) (str_append ":result:" k) e) in
      ground (arith, eq_iff (inflight_key R prefix j) (result_key R prefix k), no)

  pub result-ne-inflight :
      (j k : String) → text_eq (result_key R prefix j) (inflight_key R prefix k) ≡ false
  result-ne-inflight j k = ground (
    arith,
    inflight-ne-result k j,
    eq_iff (inflight_key R prefix k) (result_key R prefix j),
    eq_iff (result_key R prefix j) (inflight_key R prefix k),
  )
