-- ===== src/Pacing/Tests.antt =====
-- Small inputs of kytos/core/pacing.py: a pace is a number of hits, and the state is the hits
-- that are left in the window and the time.
use kytos.Prelude.{
  ℕ, zero, suc, ◌+◌, leb, sym, subst, ◌∙◌, ◌-◌, ◌≤◌, ◌<◌, inl, inr, Bool-cases, ◌≡◌, refl, String,
  Bool, true, false, Option, none, some, List, [], ◌∷◌, str_eq, arith, if◌then◌else◌,
}
use kytos.Events.{ℤ, pos, negsuc}
use kytos.Errors.{Result, ok, err, value_error, no_such_action_error}
use kytos.Dict.{Dict, lookup, distinct_keys}
use kytos.Pacing.{Setting, Pacer, inject_config, inject_napp_config, hit, raised, Limiter}
use kytos.Pacing.Config.{AllOrNone, inject_config_lem}
use kytos.Pacing.Hits.{Admits, Reopens, IsAdmitted, reset_at, now_at, state_at, hit-inject_config}

abbrev parse : String → Option ℕ
parse text = if str_eq text "3/second" then some 3 else none

-- (hits left, the time): there is a new window at the time 10.
abbrev strategy_hit : ℕ → String → List String → ℕ × ℕ → Bool × (ℕ × ℕ)
strategy_hit pace action keys (zero, now) =
    if leb 10 now then (true, (2, now)) else (false, (zero, now))
strategy_hit pace action keys (suc left, now) = (true, (left, now))

abbrev sleep : ℤ → ℕ × ℕ → Result (Unit {0}) × (ℕ × ℕ)
sleep (pos n) (left, now) = (ok tt, (left, now + n))
sleep (negsuc n) w = (err value_error, w)

abbrev limiter : Limiter ℕ (ℕ × ℕ)
limiter = record {
  strategy_hit = strategy_hit;
  get_window_stats = λ pace action keys w. (10, w);
  time = λ w. (w.1, w);
  sleep = sleep;
  async_sleep = λ n w. (sleep n w).1;
}

is_open : (now : ℕ) → 10 ≤ now → (strategy_hit 3 "send_flow" [] (0, now)).0 ≡ true
is_open now h = let e : leb 10 now ≡ true = ground (arith, h) in rw e refl

refused_before :
    (left now : ℕ) → (strategy_hit 3 "send_flow" [] (left, now)).0 ≡ false → (left ≡ 0) × (now < 10)
refused_before zero now h = elim (Bool-cases (leb 10 now)) [
  | inl e ↦ absurd (yes_and_no (sym (is_open now (ground (arith, e))) ∙ h))
  | inr e ↦ (refl, ground (arith, e))
]
  where
    yes_and_no : true ≡ false → ⊥
    yes_and_no k = cc
refused_before (suc left) now h = cc

now_read : (now : ℕ) → now < 10 → now_at limiter 3 "send_flow" [] (0, now) ≡ now
now_read now h = let e : leb 10 now ≡ false = ground (arith, h) in rw (now_at, e) refl

limiter_reopens : Reopens limiter 3 "send_flow" []
limiter_reopens = record {
  sleep-returns = λ n w. refl;
  open_now = open_now;
  open_later = open_later;
}
  where
    open_now :
        (w : ℕ × ℕ)
        → (strategy_hit 3 "send_flow" [] w).0 ≡ false
        → reset_at limiter 3 "send_flow" [] w ≤ now_at limiter 3 "send_flow" [] w
        → Admits limiter 3 "send_flow" [] (state_at limiter 3 "send_flow" [] w)
    open_now (zero, now) h past =
        let before = (refused_before 0 now h).1 in
        let late : 10 ≤ now = subst (λ n. 10 ≤ n) (now_read now before) past in
        absurd (omega (arith, before, late))
    open_now (suc left, now) h past = cc

    open_later :
        (w : ℕ × ℕ)
        → (strategy_hit 3 "send_flow" [] w).0 ≡ false
        → now_at limiter 3 "send_flow" [] w < reset_at limiter 3 "send_flow" [] w
        → Admits limiter 3 "send_flow" []
            (sleep
              (pos (reset_at limiter 3 "send_flow" [] w - now_at limiter 3 "send_flow" [] w))
              (state_at limiter 3 "send_flow" [] w)).1
    open_later (zero, now) h ahead =
        let before = (refused_before 0 now h).1 in
        let e : leb 10 now ≡ false = ground (arith, before) in
        rw (state_at, e)
          (subst (λ n. (strategy_hit 3 "send_flow" [] (0, now + (10 - n))).0 ≡ true)
            (sym (now_read now before)) (is_open (now + (10 - now)) (omega (arith, before))))
    open_later (suc left, now) h ahead = cc

abbrev send_flow : Setting
send_flow = record { strategy = none; pace = some "3/second" }

abbrev settings : Dict Setting
settings = ("send_flow", send_flow) ∷ []

abbrev no_actions : Pacer ℕ
no_actions = record { pace_config = [] }

inject_napp_config_run :
    inject_napp_config parse "of_core" settings no_actions
    ≡ (ok tt, record { pace_config = ("of_core.send_flow", ("fixed_window", 3)) ∷ [] })
unfolding inject_napp_config
inject_napp_config_run = refl

hit_run : hit limiter 5 "send_flow" [] no_actions (0, 0) ≡ (raised no_such_action_error, (0, 0))
unfolding hit
hit_run = refl

inject_config_example : AllOrNone parse settings no_actions
unfolding distinct_keys
inject_config_example = inject_config_lem parse settings no_actions refl

hit-inject_config_example :
    (s' : Pacer ℕ) × (inject_config parse settings no_actions ≡ (ok tt, s'))
    × IsAdmitted limiter 3 "send_flow" [] (0, 0) (hit limiter 2 "send_flow" [] s' (0, 0))
unfolding distinct_keys lookup
hit-inject_config_example =
    hit-inject_config parse limiter 2 settings "send_flow" send_flow "fixed_window" 3 [] no_actions
      (0, 0) refl refl refl refl limiter_reopens (omega arith)
