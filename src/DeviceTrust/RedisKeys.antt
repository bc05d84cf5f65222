-- ===== src/DeviceTrust/RedisKeys.antt =====
-- The keys that devicetrust/redis.go gives two devices.
use Prim.Native.Char.{Char}
use floodguard_rate_limiter.Prelude.{
  sym, subst, ◌∙◌, String, str_append, ◌&&◌, ◌≡◌, refl, arith, text_eq, eq_iff,
}
use text.Mathlib.TextLemmas.{append_cancel_left, nil-append, cons-append}
use floodguard_rate_limiter.Config.Texts.{Lacks}
use floodguard_rate_limiter.DeviceTrust.Redis.{Records, device_key}

abbrev colon : String → String
colon f = str_append ":" f

colon-cons : (f : String) → str_append "" (colon f) ≡ String.◌∷◌ ":" f
colon-cons f = rw (nil-append (colon f)) (rw (cons-append ":" "" f) (rw (nil-append f) refl))

tails : (c d : Char) (s t : String) → String.◌∷◌ c s ≡ String.◌∷◌ d t → s ≡ t
tails c d s t e = cc

heads : (c d : Char) (s t : String) → String.◌∷◌ c s ≡ String.◌∷◌ d t → c ≡ d
heads c d s t e = cc

not_Lacks : (a f : String) → ¬ Lacks b':' (str_append a (colon f))
not_Lacks String.[] f h = ground (arith, (subst (Lacks b':') (colon-cons f) h).0)
not_Lacks (String.◌∷◌ c a) f h = not_Lacks a f (subst (Lacks b':') (cons-append c a (colon f)) h).1

-- A text whose end has no colon is split at its last one.
last_colon-inj :
    (a b f g : String)
    → Lacks b':' f
    → Lacks b':' g
    → str_append a (colon f) ≡ str_append b (colon g)
    → (a ≡ b) × (f ≡ g)
last_colon-inj String.[] String.[] f g h k e =
    (refl, tails ":" ":" f g (sym (colon-cons f) ∙ e ∙ colon-cons g))
last_colon-inj String.[] (String.◌∷◌ c b) f g h k e =
    let same =
      tails ":" c f (str_append b (colon g)) (sym (colon-cons f) ∙ e ∙ cons-append c b (colon g)) in
    absurd (not_Lacks b g (subst (Lacks b':') same h))
last_colon-inj (String.◌∷◌ c a) String.[] f g h k e =
    let same =
      tails ":" c g (str_append a (colon f))
        (sym (colon-cons g) ∙ sym e ∙ cons-append c a (colon f)) in
    absurd (not_Lacks a f (subst (Lacks b':') same k))
last_colon-inj (String.◌∷◌ c a) (String.◌∷◌ d b) f g h k e =
    let cut = sym (cons-append c a (colon f)) ∙ e ∙ cons-append d b (colon g) in
    let rest =
      last_colon-inj a b f g h k
        (tails c d (str_append a (colon f)) (str_append b (colon g)) cut) in
    (cc (heads c d (str_append a (colon f)) (str_append b (colon g)) cut, rest.0), rest.1)

-- The texts of the keys of two devices.
pub same_device :
    (R : Records) (prefix a b f g : String)
    → Lacks b':' f
    → Lacks b':' g
    → text_eq (device_key R prefix a f) (device_key R prefix b g) ≡ (text_eq a b && text_eq f g)
unfolding device_key
same_device R prefix a b f g h k =
    let back : device_key R prefix a f ≡ device_key R prefix b g → (a ≡ b) × (f ≡ g) = λ e.
      last_colon-inj a b f g h k (
        append_cancel_left ":" (str_append a (colon f)) (str_append b (colon g)) (
          append_cancel_left prefix (str_append ":" (str_append a (colon f)))
            (str_append ":" (str_append b (colon g))) e)) in
    let forth : a ≡ b → f ≡ g → device_key R prefix a f ≡ device_key R prefix b g = λ x y. cc in
    ground (
      arith,
      eq_iff a b,
      eq_iff f g,
      eq_iff (device_key R prefix a f) (device_key R prefix b g),
      back,
      forth,
    )
