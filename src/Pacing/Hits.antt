-- ===== src/Pacing/Hits.antt =====
-- When `hit` returns.
use kytos.Prelude.{
  ℕ, zero, suc, ◌-◌, ◌≤◌, ◌<◌, ◌≡◌, ◌⊎◌, refl, ap, sym, subst, ◌∙◌, inl, inr, String, Bool, true,
  false, ◌&&◌, Option, some, List, [], ◌∷◌, arith, if◌then◌else◌, Bool-cases, taken_if, other_if,
  str_eq, leb,
}
use kytos.Errors.{Result, ok, err}
use kytos.Events.{pos, is_positive}
use kytos.Dict.{Dict, lookup, distinct_keys}
use kytos.Pacing.Config.{all_fine, is_fine, AllOrNone, inject_config_lem}
use kytos.Pacing.{
  Setting, Pacer, Hit, admitted, is_available, read_setting, inject_config, hit, hit_loop,
  try_again, Limiter, wait_for_reset, waited, minus,
}

not_positive : (m n : ℕ) → m ≤ n → is_positive (minus m n) ≡ false
not_positive m n h = ground (arith, h)

positive : (m n : ℕ) → n < m → is_positive (minus m n) ≡ true
positive m n h = ground (arith, h)

minus_pos : (m n : ℕ) → n < m → minus m n ≡ pos (m - n)
minus_pos m n h = ground (arith, h)

module _ {P S : Type 0} (limiter : Limiter P S) (pace : P) (action : String)
    (keys : List String) where
  -- The limiter admits in a state.
  abbrev pub Admits : S → Type 0
  Admits w = (limiter.strategy_hit pace action keys w).0 ≡ true

  abbrev pub admitted_from : S → Hit × S
  admitted_from w = (admitted, (limiter.strategy_hit pace action keys w).1)

  -- After a refusal: the state in which the clock was read, the reset that was reported and the time.
  abbrev pub asked_at : S → ℕ × S
  asked_at w = limiter.get_window_stats pace action keys (limiter.strategy_hit pace action keys w).1

  abbrev pub reset_at : S → ℕ
  reset_at w = (asked_at w).0

  abbrev pub now_at : S → ℕ
  now_at w = (limiter.time (asked_at w).1).0

  abbrev pub state_at : S → S
  state_at w = (limiter.time (asked_at w).1).1

  -- The documented behaviour: to sleep for a time that is not negative returns, and a strategy that has
  -- refused admits once the reset that it reports has come, as long as nobody else uses up the hits of
  -- the new window.
  pub record Reopens : Type 0 where
    pub sleep-returns : (n : ℕ) (w : S) → (limiter.sleep (pos n) w).0 ≡ ok tt
    pub open_now :
        (w : S)
        → (limiter.strategy_hit pace action keys w).0 ≡ false
        → reset_at w ≤ now_at w
        → Admits (state_at w)
    pub open_later :
        (w : S)
        → (limiter.strategy_hit pace action keys w).0 ≡ false
        → now_at w < reset_at w
        → Admits (limiter.sleep (pos (reset_at w - now_at w)) (state_at w)).1

  -- A first try that is admitted; or a second one, at once if the reset has come, and else after a
  -- sleep of exactly the time to the reset.
  abbrev pub IsAdmitted : S → Hit × S → Type 0
  IsAdmitted w out =
      (Admits w × (out ≡ admitted_from w))
      ⊎ ((reset_at w ≤ now_at w) × (out ≡ admitted_from (state_at w)))
      ⊎ ((now_at w < reset_at w)
          × (out ≡ admitted_from (limiter.sleep (pos (reset_at w - now_at w)) (state_at w)).1))

  tried :
      (loop : S → Hit × S) (out : Bool × S)
      → try_again limiter (wait_for_reset limiter) loop pace action keys out ≡ (
          if out.0
          then (admitted, out.1)
          else waited limiter loop (wait_for_reset limiter pace action keys out.1))
  tried loop (true, w) = refl
  tried loop (false, w) = refl

  loop_admitted :
      (fuel : ℕ) (w : S)
      → Admits w
      → hit_loop limiter (wait_for_reset limiter) (suc fuel) pace action keys w ≡ admitted_from w
  loop_admitted fuel w h = tried _ (limiter.strategy_hit pace action keys w) ∙ rw h refl

  loop_refused :
      (fuel : ℕ) (w : S)
      → (limiter.strategy_hit pace action keys w).0 ≡ false
      → hit_loop limiter (wait_for_reset limiter) (suc fuel) pace action keys w
        ≡ waited limiter
            (hit_loop limiter (wait_for_reset limiter) fuel pace action keys)
            (wait_for_reset limiter pace action keys (limiter.strategy_hit pace action keys w).1)
  loop_refused fuel w h = tried _ (limiter.strategy_hit pace action keys w) ∙ rw h refl

  slept :
      (loop : S → Hit × S) (out : Result (Unit {0}) × S)
      → out.0 ≡ ok tt
      → waited limiter loop out ≡ loop out.1
  slept loop (ok _, w) h = refl
  slept loop (err e, w) h = cc

  wait-now :
      (w : S)
      → reset_at w ≤ now_at w
      → wait_for_reset limiter pace action keys (limiter.strategy_hit pace action keys w).1
        ≡ (ok tt, state_at w)
  wait-now w h = rw (not_positive (reset_at w) (now_at w) h) refl

  wait-later :
      (w : S)
      → now_at w < reset_at w
      → wait_for_reset limiter pace action keys (limiter.strategy_hit pace action keys w).1
        ≡ limiter.sleep (pos (reset_at w - now_at w)) (state_at w)
  wait-later w h =
      rw (positive (reset_at w) (now_at w) h)
        (ap (λ t. limiter.sleep t (state_at w)) (minus_pos (reset_at w) (now_at w) h))

  loop_run :
      (fuel : ℕ) (w : S)
      → Reopens
      → 2 ≤ fuel
      → IsAdmitted w (hit_loop limiter (wait_for_reset limiter) fuel pace action keys w)
  loop_run zero w laws enough = absurd (omega arith)
  loop_run (suc zero) w laws enough = absurd (omega arith)
  loop_run (suc (suc fuel)) w laws enough =
      elim (Bool-cases (limiter.strategy_hit pace action keys w).0) [
        | inl e ↦ inl (e, loop_admitted (suc fuel) w e)
        | inr e ↦ elim (Bool-cases (leb (reset_at w) (now_at w))) [
          | inl come ↦
              let past : reset_at w ≤ now_at w = ground (arith, come) in
              inr (
                inl (
                  past,
                  loop_refused (suc fuel) w e
                      ∙ ap (waited limiter _) (wait-now w past)
                      ∙ loop_admitted fuel (state_at w) (laws.open_now w e past),
                ))
          | inr ahead ↦
              let before : now_at w < reset_at w = ground (arith, ahead) in
              inr (
                inr (
                  before,
                  loop_refused (suc fuel) w e
                      ∙ ap (waited limiter _) (wait-later w before)
                      ∙ slept _ (limiter.sleep (pos (reset_at w - now_at w)) (state_at w))
                          (laws.sleep-returns (reset_at w - now_at w) (state_at w))
                      ∙ loop_admitted fuel _ (laws.open_later w e before),
                ))
        ]
      ]

  hit_run :
      (fuel : ℕ) (strat : String) (s : Pacer P) (w : S)
      → lookup action s.pace_config ≡ some (strat, pace)
      → is_available strat ≡ true
      → hit limiter fuel action keys s w
        ≡ hit_loop limiter (wait_for_reset limiter) fuel pace action keys w
  unfolding hit
  hit_run fuel strat s w there available = rw there (rw available refl)

and_both : (p q : Bool) → (p && q) ≡ true → (p ≡ true) × (q ≡ true)
and_both p q h = ground arith

module _ {P : Type 0} (parse : String → Option P) where
  available_in :
      (config : Dict Setting) (action : String) (setting : Setting) (strat : String) (pace : P)
      → all_fine parse config ≡ true
      → lookup action config ≡ some setting
      → read_setting parse setting ≡ ok (strat, pace)
      → is_available strat ≡ true
  unfolding lookup
  available_in [] action setting strat pace fine there reads = cc
  available_in ((j, other) ∷ config) action setting strat pace fine there reads =
      let (this, others) =
        and_both (is_fine parse (read_setting parse other)) (all_fine parse config) fine in
      elim (Bool-cases (str_eq j action)) [
        | inl e ↦
            sym (
              ap (is_fine parse) (
                ap (read_setting parse)
                  (taken_if (str_eq j action) other setting (lookup action config) e there)
                ∙ reads))
            ∙ this
        | inr e ↦
            available_in config action setting strat pace others
              (other_if (str_eq j action) (some other) (lookup action config) (some setting) e
                there)
              reads
      ]

  module _ {S : Type 0} (limiter : Limiter P S) where
    -- If settings are injected, each with a pace that can be parsed and an available strategy, then
    -- `hit` of one of their actions returns, without an exception and with no more than two tries, for a
    -- limiter that admits once the reset that it reports has come: at once if it is admitted; after a
    -- refusal at once again if the reset has come, and else after a sleep of exactly the time to it.
    pub hit-inject_config :
        (fuel : ℕ) (config : Dict Setting) (action : String) (setting : Setting) (strat : String)
        (pace : P) (keys : List String) (s : Pacer P) (w : S)
        → distinct_keys config ≡ true
        → all_fine parse config ≡ true
        → lookup action config ≡ some setting
        → read_setting parse setting ≡ ok (strat, pace)
        → Reopens limiter pace action keys
        → 2 ≤ fuel
        → (s' : Pacer P) × (inject_config parse config s ≡ (ok tt, s'))
          × IsAdmitted limiter pace action keys w (hit limiter fuel action keys s' w)
    unfolding AllOrNone
    hit-inject_config fuel config action setting strat pace keys s w once fine there reads laws
          enough =
        elim (inject_config_lem parse config s once) [
          | inl (good, s', runs, found) ↦ (
            s',
            runs,
            subst (IsAdmitted limiter pace action keys w)
                (sym (
                  hit_run limiter pace action keys fuel strat s' w
                    (found action ∙ rw there (rw reads refl))
                    (available_in config action setting strat pace fine there reads)))
                (loop_run limiter pace action keys fuel w laws enough),
          )
          | inr (bad, e, fails) ↦ cc
        ]
