-- ===== src/Notify/Queue.antt =====
-- Runs of the notifier of notify/notify.go against a bounded queue of alerts.
use floodguard_rate_limiter.Prelude.{
  ◌≤◌, ap, sym, subst, ◌∙◌, Option, none, some, List, [], ◌∷◌, ◌++◌, ◌≡◌, refl, arith,
  if◌then◌else◌, true, false, Bool-cases, inl, inr, ltb, length,
}
use floodguard_rate_limiter.Prelude.{length-append}
use mathlib.Core.List.{append_assoc, append-nil}
use floodguard_rate_limiter.Errors.{Result, ok, err}
use floodguard_rate_limiter.Notify.{
  Event, Line, alert, delivery_failed, queue_full, Notifier, capacity, after_sensitive_action,
  deliver, receive,
}

-- A step of the request's side or of the goroutine.
pub data Step : Type 0 where
  acts : Event → Step
  receives : Step

-- The queue that the notifier means: the alerts that wait, those that were taken and those that found
-- no room, each in order.
pub record Queue : Type 0 where
  pub waiting : List Event
  pub taken : List Event
  pub dropped : List Event

pub queue_step : Step → Queue → Queue
queue_step (acts e) q =
    if ltb (length q.waiting) 256
    then record q { waiting = q.waiting ++ e ∷ [] }
    else record q { dropped = q.dropped ++ e ∷ [] }
queue_step receives q = elim q.waiting [
  | [] ↦ q
  | e ∷ rest ↦ record q { waiting = rest; taken = q.taken ++ e ∷ [] }
]

pub queue_run : List Step → Queue → Queue
queue_run [] q = q
queue_run (s ∷ ss) q = queue_run ss (queue_step s q)

-- The lines on deliveries, and those on a full queue.
pub delivery_lines : List Line → List Line
delivery_lines [] = []
delivery_lines (alert e ∷ ls) = alert e ∷ delivery_lines ls
delivery_lines (delivery_failed e f ∷ ls) = delivery_failed e f ∷ delivery_lines ls
delivery_lines (queue_full a b ∷ ls) = delivery_lines ls

pub full_lines : List Line → List Line
full_lines [] = []
full_lines (alert e ∷ ls) = full_lines ls
full_lines (delivery_failed e f ∷ ls) = full_lines ls
full_lines (queue_full a b ∷ ls) = queue_full a b ∷ full_lines ls

pub fulls : List Event → List Line
fulls [] = []
fulls (e ∷ es) = queue_full e.account_id e.action ∷ fulls es

delivery_lines-append :
    (ls ms : List Line) → delivery_lines (ls ++ ms) ≡ delivery_lines ls ++ delivery_lines ms
unfolding delivery_lines
delivery_lines-append [] ms = refl
delivery_lines-append (alert e ∷ ls) ms = ap (λ x. alert e ∷ x) (delivery_lines-append ls ms)
delivery_lines-append (delivery_failed e f ∷ ls) ms =
    ap (λ x. delivery_failed e f ∷ x) (delivery_lines-append ls ms)
delivery_lines-append (queue_full a b ∷ ls) ms = delivery_lines-append ls ms

full_lines-append : (ls ms : List Line) → full_lines (ls ++ ms) ≡ full_lines ls ++ full_lines ms
unfolding full_lines
full_lines-append [] ms = refl
full_lines-append (alert e ∷ ls) ms = full_lines-append ls ms
full_lines-append (delivery_failed e f ∷ ls) ms = full_lines-append ls ms
full_lines-append (queue_full a b ∷ ls) ms = ap (λ x. queue_full a b ∷ x) (full_lines-append ls ms)

fulls-append :
    (es : List Event) (e : Event)
    → fulls (es ++ e ∷ []) ≡ fulls es ++ queue_full e.account_id e.action ∷ []
unfolding fulls
fulls-append [] e = refl
fulls-append (x ∷ es) e = ap (λ ls. queue_full x.account_id x.action ∷ ls) (fulls-append es e)

module _ {W : Type 0} (sender : Option (Event → W → Result (Unit {0}) × W)) where
  -- What one alert comes to: without a sender it is logged; a sender is handed it, and logged when it
  -- fails.
  abbrev pub told : Option (Event → W → Result (Unit {0}) × W) → Event → W → List Line × W
  told none e w = (alert e ∷ [], w)
  told (some send) e w =
      (elim (send e w).0 [ ok u ↦ [] | err f ↦ delivery_failed e f ∷ [] ], (send e w).1)

  pub told_all : List Event → W → List Line × W
  told_all [] w = ([], w)
  told_all (e ∷ es) w =
      let (ls, w₁) = told sender e w in let (ms, w₂) = told_all es w₁ in (ls ++ ms, w₂)

  told_all-append :
      (es : List Event) (e : Event) (w : W)
      → let (ls, w₁) = told_all es w in
        let (ms, w₂) = told sender e w₁ in told_all (es ++ e ∷ []) w ≡ (ls ++ ms, w₂)
  unfolding told_all
  told_all-append [] e w = ap (λ ls. (ls, (told sender e w).1)) (append-nil (told sender e w).0)
  told_all-append (x ∷ es) e w =
      let (ks, w₁) = told sender x w in
      let (ls, w₂) = told_all es w₁ in
      let (ms, w₃) = told sender e w₂ in
      rw (told_all-append es e w₁) (ap (λ l. (l, w₃)) (sym (append_assoc ks ls ms)))

  -- The notifier's own steps.
  pub step : Step → Notifier W → Notifier W
  step (acts e) n =
      after_sensitive_action e.at e.account_id e.action e.device_fingerprint e.ip_address n
  step receives n = (receive sender n).1

  pub run : List Step → Notifier W → Notifier W
  run [] n = n
  run (s ∷ ss) n = run ss (step s n)

  -- The channel holds what waits, what was taken was handed over in order, one by one, and what was
  -- dropped was logged.
  pub record Refines (w : W) (q : Queue) (n : Notifier W) : Type 0 where
    pub channel : n.ch ≡ q.waiting
    pub size : length q.waiting ≤ 256
    pub world : n.world ≡ (told_all q.taken w).1
    pub reports : delivery_lines n.log ≡ (told_all q.taken w).0
    pub drops : full_lines n.log ≡ fulls q.dropped

  told-lines :
      (o : Option (Event → W → Result (Unit {0}) × W)) (e : Event) (w : W)
      → (delivery_lines (told o e w).0 ≡ (told o e w).0) × (full_lines (told o e w).0 ≡ [])
  unfolding delivery_lines full_lines
  told-lines none e w = (refl, refl)
  told-lines (some send) e w =
      elim (send e w).0
        as (λ r.
          (delivery_lines
              (elim r as (λ x. List Line) [ ok u ↦ [] | err f ↦ delivery_failed e f ∷ [] ])
            ≡ elim r as (λ x. List Line) [ ok u ↦ [] | err f ↦ delivery_failed e f ∷ [] ])
          × (full_lines
                (elim r as (λ x. List Line) [ ok u ↦ [] | err f ↦ delivery_failed e f ∷ [] ])
              ≡ [])) [ ok u ↦ (refl, refl) | err f ↦ (refl, refl) ]

  deliver_lem :
      (o : Option (Event → W → Result (Unit {0}) × W)) (e : Event) (n : Notifier W)
      → deliver o e n
        ≡ record n { log = n.log ++ (told o e n.world).0; world = (told o e n.world).1 }
  unfolding deliver
  deliver_lem none e n = refl
  deliver_lem (some send) e n = ground (arith, append-nil n.log)

  received-Refines :
      (w : W) (q : Queue) (n : Notifier W) (ws : List Event)
      → q.waiting ≡ ws
      → Refines w q n
      → Refines w (queue_step receives q) (step receives n)
  unfolding queue_step step receive
  received-Refines w q n [] e h =
      let still : queue_step receives q ≡ q = rw e refl in
      let still' : step receives n ≡ n = rw (h.channel ∙ e) refl in
      subst (λ p. Refines w p (step receives n)) (sym still) (subst (Refines w q) (sym still') h)
  received-Refines w q n (x ∷ xs) e h =
      let (ls, v) = told sender x n.world in
      let q' : Queue = record q { waiting = xs; taken = q.taken ++ x ∷ [] } in
      let n' : Notifier W = record n { ch = xs; log = n.log ++ ls; world = v } in
      let next : queue_step receives q ≡ q' = rw e refl in
      let next' : step receives n ≡ n' =
        rw (h.channel ∙ e) (deliver_lem sender x (record n { ch = xs })) in
      let history = told_all-append q.taken x w in
      let fits : length xs ≤ 256 = omega (arith, subst (λ es. length es ≤ 256) e h.size) in
      let after : Refines w q' n' = record {
        channel = refl;
        size = fits;
        world = ap (λ z. (told sender x z).1) h.world ∙ sym (ap (λ r. r.1) history);
        reports =
            delivery_lines-append n.log ls
            ∙ ap (λ ms. delivery_lines n.log ++ ms) (told-lines sender x n.world).0
            ∙ ap (λ ks. ks ++ ls) h.reports
            ∙ ap (λ z. (told_all q.taken w).0 ++ (told sender x z).0) h.world
            ∙ sym (ap (λ r. r.0) history);
        drops =
            full_lines-append n.log ls
            ∙ ap (λ ms. full_lines n.log ++ ms) (told-lines sender x n.world).1
            ∙ append-nil (full_lines n.log)
            ∙ h.drops;
      } in
      subst (λ p. Refines w p (step receives n)) (sym next) (subst (Refines w q') (sym next') after)

  acted-Refines :
      (w : W) (q : Queue) (n : Notifier W) (e : Event)
      → Refines w q n
      → Refines w (queue_step (acts e) q) (step (acts e) n)
  unfolding queue_step step after_sensitive_action full_lines delivery_lines
  acted-Refines w q n e h = elim (Bool-cases (ltb (length q.waiting) 256)) [
    | inl room ↦
        let room' : ltb (length n.ch) capacity ≡ true =
          ap (λ es. ltb (length es) 256) h.channel ∙ room in
        rw room (
          rw room' (record {
            channel = ap (λ es. es ++ e ∷ []) h.channel;
            size = ground (arith, room, length-append q.waiting (e ∷ []));
            world = h.world;
            reports = h.reports;
            drops = h.drops;
          }))
    | inr full ↦
        let full' : ltb (length n.ch) capacity ≡ false =
          ap (λ es. ltb (length es) 256) h.channel ∙ full in
        let line = queue_full e.account_id e.action in
        rw full (
          rw full' (record {
            channel = h.channel;
            size = h.size;
            world = h.world;
            reports =
                delivery_lines-append n.log (line ∷ [])
                ∙ append-nil (delivery_lines n.log)
                ∙ h.reports;
            drops =
                full_lines-append n.log (line ∷ [])
                ∙ ap (λ ls. ls ++ line ∷ []) h.drops
                ∙ sym (fulls-append q.dropped e);
          }))
  ]

  run-keeps :
      (w : W) (ss : List Step) (q : Queue) (n : Notifier W)
      → Refines w q n
      → Refines w (queue_run ss q) (run ss n)
  unfolding queue_run run
  run-keeps w [] q n h = h
  run-keeps w (acts e ∷ ss) q n h =
      run-keeps w ss (queue_step (acts e) q) (step (acts e) n) (acted-Refines w q n e h)
  run-keeps w (receives ∷ ss) q n h =
      run-keeps w ss (queue_step receives q) (step receives n)
        (received-Refines w q n q.waiting refl h)

  -- From an empty notifier, with any sender or none, after any interleaving of sensitive actions
  -- and turns of the delivering goroutine, the notifier stands as a first-in first-out queue of at
  -- most 256 alerts has it: the channel holds the waiting alerts; the alerts that were taken were
  -- handed to the sender one by one in their order, which has made the world what it is; the lines
  -- on deliveries are those of these alerts, one for each without a sender and one for each
  -- failure with one; and the lines on a full queue are those of the alerts that found 256
  -- waiting, in order.
  pub run-Refines :
      (ss : List Step) (w : W)
      → Refines w
          (queue_run ss (record { waiting = []; taken = []; dropped = [] }))
          (run ss (record { ch = []; log = []; world = w }))
  unfolding told_all delivery_lines full_lines fulls
  run-Refines ss w =
      run-keeps w ss (record { waiting = []; taken = []; dropped = [] })
        (record { ch = []; log = []; world = w })
        (record { channel = refl; size = omega arith; world = refl; reports = refl; drops = refl })
