-- ===== src/Pacing.antt =====
-- kytos/core/pacing.py. The rate limiters belong to the library limits: `parse` of a pace (`none` is
-- its ValueError) is a parameter, and so is what a strategy, the clock and a sleep do to the state `S`
-- of the storage and the clock.
pub mod Config
pub mod Hits
mod Tests
use Prim.Native.String.{◌++◌ as concat}
use kytos.Prelude.{
  ℕ, zero, suc, ◌-◌, not, ltb, leb, String, Bool, true, false, Option, none, some, List, [], ◌∷◌,
  str_eq, if◌then◌else◌,
}
use kytos.Errors.{
  Error, Result, ok, err, key_error, value_error, no_such_action_error, raise_if, ◌>>=◌, ◌>>◌,
}
use kytos.Dict.{Dict, lookup, insert}
use kytos.Events.{ℤ, pos, negsuc, is_positive}

-- The dict of the settings of an action; a key may be missing.
pub record Setting : Type 0 where
  pub strategy : Option String
  pub pace : Option String

pub record Pacer (P : Type 0) : Type 0 where
  pub pace_config : Dict (String × P)

-- strat in available_strategies, the keys also of `sync_strategies` and `async_strategies`
abbrev pub is_available : String → Bool
is_available strat = str_eq strat "fixed_window"

abbrev pub chosen : Option String → String
chosen none = "fixed_window"
chosen (some strat) = strat

module _ {P : Type 0} where
  abbrev pub validate : Dict (String × P) → Result (Unit {0})
  validate [] = ok tt
  validate ((action, (strat, pace)) ∷ rest) =
      let later = validate rest in if is_available strat then later else err value_error

  -- d.update(new)
  abbrev pub update : Dict (String × P) → Dict (String × P) → Dict (String × P)
  unfolding insert
  update [] d = d
  update ((action, pace) ∷ new) d = update new (insert action pace d)

module _ {P : Type 0} (parse : String → Option P) where
  abbrev pub parsed : Option P → Result P
  parsed none = err value_error
  parsed (some pace) = ok pace

  abbrev pub read_pace : Option String → Result P
  read_pace none = err (key_error "pace")
  read_pace (some text) = parsed (parse text)

  abbrev pub read_setting : Setting → Result (String × P)
  read_setting setting = read_pace setting.pace >>= λ pace. ok (chosen setting.strategy, pace)

  abbrev pub regenerate : Dict Setting → Result (Dict (String × P))
  regenerate [] = ok []
  regenerate ((action, setting) ∷ config) =
      let rest = regenerate config in
      read_setting setting >>= λ pace. rest >>= λ paces. ok ((action, pace) ∷ paces)

  abbrev pub applied : Result (Dict (String × P)) → Pacer P → Result (Unit {0}) × Pacer P
  unfolding update
  applied (err e) s = (err e, s)
  applied (ok next_config) s = (ok tt, record s { pace_config = update next_config s.pace_config })

  unfoldable pub inject_config : Dict Setting → Pacer P → Result (Unit {0}) × Pacer P
  unfolding applied
  inject_config config s =
      applied (regenerate config >>= λ next_config. validate next_config >> ok next_config) s

-- PacerWrapper
unfoldable pub localized_key : String → String → String
localized_key namespace key = concat namespace (concat "." key)

abbrev pub localized : String → Dict Setting → Dict Setting
unfolding localized_key
localized namespace [] = []
localized namespace ((key, setting) ∷ config) =
    (localized_key namespace key, setting) ∷ localized namespace config

unfoldable pub inject_napp_config :
    {P : Type 0}
    → (String → Option P)
    → String
    → Dict Setting
    → Pacer P
    → Result (Unit {0}) × Pacer P
unfolding inject_config localized
inject_napp_config parse namespace napp_config s =
    inject_config parse (localized namespace napp_config) s

pub data Hit : Type 0 where
  admitted waiting : Hit
  raised : Error → Hit

-- What the library `limits` and the modules `time` and `asyncio` do to the state `S` of the storage
-- and the clock. Times are whole numbers of some small unit. `time.sleep` may raise.
pub record Limiter (P S : Type 0) : Type 0 where
  pub strategy_hit : P → String → List String → S → Bool × S
  pub get_window_stats : P → String → List String → S → ℕ × S
  pub time : S → ℕ × S
  pub sleep : ℤ → S → Result (Unit {0}) × S
  pub async_sleep : ℤ → S → S

-- window_reset - time.time()
abbrev pub minus : ℕ → ℕ → ℤ
minus m n = if leb n m then pos (m - n) else negsuc ((n - m) - 1)

module _ {P S : Type 0} (limiter : Limiter P S) where
  abbrev pub Wait : Type 0
  Wait = P → String → List String → S → Result (Unit {0}) × S

  abbrev pub sleep_until : ℕ × S → ℕ → Result (Unit {0}) × S
  sleep_until (now, w) window_reset =
      if not (is_positive (minus window_reset now))
      then (ok tt, w)
      else limiter.sleep (minus window_reset now) w

  -- The body of the loop of `hit`; `continue` is to return.
  abbrev pub wait_for_reset : Wait
  wait_for_reset pace action keys w =
      let (window_reset, w') = limiter.get_window_stats pace action keys w in
      sleep_until (limiter.time w') window_reset

  abbrev async_sleep_until : ℕ × S → ℕ → Result (Unit {0}) × S
  async_sleep_until (now, w) window_reset = (ok tt, limiter.async_sleep (minus window_reset now) w)

  -- The body of the loop of `ahit`.
  abbrev async_wait_for_reset : Wait
  async_wait_for_reset pace action keys w =
      let (window_reset, w') = limiter.get_window_stats pace action keys w in
      async_sleep_until (limiter.time w') window_reset

  abbrev pub waited : (S → Hit × S) → Result (Unit {0}) × S → Hit × S
  waited loop (ok _, w) = loop w
  waited loop (err e, w) = (raised e, w)

  abbrev pub try_again : Wait → (S → Hit × S) → P → String → List String → Bool × S → Hit × S
  try_again wait loop pace action keys (true, w) = (admitted, w)
  try_again wait loop pace action keys (false, w) = waited loop (wait pace action keys w)

  -- At most `fuel` tries.
  abbrev pub hit_loop : Wait → ℕ → P → String → List String → S → Hit × S
  hit_loop wait zero pace action keys w = (waiting, w)
  hit_loop wait (suc fuel) pace action keys w =
      try_again wait (hit_loop wait fuel pace action keys) pace action keys
        (limiter.strategy_hit pace action keys w)

  abbrev with_strategy : Wait → ℕ → String → List String → Option (String × P) → S → Hit × S
  with_strategy wait fuel action keys none w = (raised no_such_action_error, w)
  with_strategy wait fuel action keys (some (strat, pace)) w =
      if is_available strat
      then hit_loop wait fuel pace action keys w
      else (raised (key_error strat), w)

  unfoldable pub hit : ℕ → String → List String → Pacer P → S → Hit × S
  unfolding lookup
  hit fuel action keys s w =
      with_strategy wait_for_reset fuel action keys (lookup action s.pace_config) w

  unfoldable pub ahit : ℕ → String → List String → Pacer P → S → Hit × S
  unfolding lookup
  ahit fuel action keys s w =
      with_strategy async_wait_for_reset fuel action keys (lookup action s.pace_config) w

  unfoldable pub hit_napp : ℕ → String → String → List String → Pacer P → S → Hit × S
  unfolding hit localized_key
  hit_napp fuel namespace action keys s w = hit fuel (localized_key namespace action) keys s w

  unfoldable pub ahit_napp : ℕ → String → String → List String → Pacer P → S → Hit × S
  unfolding ahit localized_key
  ahit_napp fuel namespace action keys s w = ahit fuel (localized_key namespace action) keys s w
