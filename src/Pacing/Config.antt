-- ===== src/Pacing/Config.antt =====
-- What `inject_config` leaves.
use kytos.Prelude.{
  ◌≡◌, refl, ap, sym, ◌∙◌, ◌⊎◌, inl, inr, String, Bool, true, false, ◌&&◌, Option, none, some, [],
  ◌∷◌, str_eq, eq_iff, arith, if◌then◌else◌, Bool-cases, not_and,
}
use kytos.Errors.{Error, Result, ok, err, value_error}
use kytos.Dict.{Dict, lookup, insert, has_key, distinct_keys, lookup-insert, lookup-none_of_has_key}
use kytos.Pacing.{
  Setting, Pacer, is_available, validate, update, read_setting, regenerate, inject_config,
}

module _ {P : Type 0} where
  -- A later entry of a dict decides.
  abbrev first_of : Option (String × P) → Option (String × P) → Option (String × P)
  first_of none old = old
  first_of (some new) old = some new

  lookup-update :
      (new d : Dict (String × P)) (action : String)
      → distinct_keys new ≡ true
      → lookup action (update new d) ≡ first_of (lookup action new) (lookup action d)
  unfolding update lookup distinct_keys
  lookup-update [] d action h = refl
  lookup-update ((j, pace) ∷ new) d action h = elim (Bool-cases (str_eq j action)) [
    | inl e ↦ rw e (
        lookup-update new (insert j pace d) action others
        ∙ rw (none_here e) (rw (lookup-insert j action pace d) (rw e refl)))
    | inr e ↦ rw e (
        lookup-update new (insert j pace d) action others
        ∙ rw (lookup-insert j action pace d) (rw e refl))
  ]
    where
      others : distinct_keys new ≡ true
      others = (not_and (has_key j new) (distinct_keys new) h).1

      none_here : str_eq j action ≡ true → lookup action new ≡ none
      none_here e =
          ap (λ k. lookup k new) (sym ((eq_iff j action).0 e))
          ∙ lookup-none_of_has_key j new (not_and (has_key j new) (distinct_keys new) h).0

and_false : (p : Bool) → (p && false) ≡ false
and_false p = ground arith

module _ {P : Type 0} (parse : String → Option P) where
  -- A setting that has a pace which can be parsed, and a strategy that there is.
  abbrev pub is_fine : Result (String × P) → Bool
  is_fine (err e) = false
  is_fine (ok (strat, pace)) = is_available strat

  abbrev pub all_fine : Dict Setting → Bool
  all_fine [] = true
  all_fine ((action, setting) ∷ config) = is_fine (read_setting parse setting) && all_fine config

  -- What an action has after the settings are injected.
  abbrev pub value_of : Result (String × P) → Option (String × P)
  value_of (err e) = none
  value_of (ok pace) = some pace

  abbrev pub injected : Option Setting → Option (String × P) → Option (String × P)
  injected none old = old
  injected (some setting) old = value_of (read_setting parse setting)

  abbrev Regenerated : Dict Setting → Dict (String × P) → Type 0
  unfolding distinct_keys has_key lookup
  Regenerated config new =
      (distinct_keys new ≡ true)
      × (validate new ≡ (if all_fine config then ok tt else err value_error))
      × ((action : String) → has_key action new ≡ has_key action config)
      × ((action : String) (old : Option (String × P))
          → first_of (lookup action new) old ≡ injected (lookup action config) old)

  -- What the dict comprehension leaves.
  abbrev Read : Dict Setting → Type 0
  unfolding Regenerated
  Read config =
      ((e : Error) × (regenerate parse config ≡ err e) × (all_fine config ≡ false))
      ⊎ ((new : Dict (String × P)) × (regenerate parse config ≡ ok new) × Regenerated config new)

  regenerate-cases : (config : Dict Setting) → distinct_keys config ≡ true → Read config
  unfolding Read distinct_keys has_key lookup
  regenerate-cases [] h = inr ([], refl, (refl, refl, (λ action. refl), λ action old. refl))
  regenerate-cases ((j, setting) ∷ config) h =
      go (read_setting parse setting) refl
        (regenerate-cases config (not_and (has_key j config) (distinct_keys config) h).1)
    where
      go :
          (r : Result (String × P))
          → read_setting parse setting ≡ r
          → Read config
          → Read ((j, setting) ∷ config)
      go (err e) eq rest = inl (e, rw eq refl, rw eq refl)
      go (ok pace) eq (inl (e, fails, bad)) =
          inl (e, rw eq (rw fails refl), rw bad (and_false (is_fine (read_setting parse setting))))
      go (ok (strat, pace)) eq (inr (new, runs, (once, valid, keys, found))) = inr (
        (j, (strat, pace)) ∷ new,
        rw eq (rw runs refl),
        (
          rw (keys j) (rw (not_and (has_key j config) (distinct_keys config) h).0 once),
          validated (Bool-cases (is_available strat)),
          (λ action. rw (keys action) refl),
          λ action old. looked_up action old (Bool-cases (str_eq j action)),
        ),
      )
        where
          validated :
              (is_available strat ≡ true) ⊎ (is_available strat ≡ false)
              → validate ((j, (strat, pace)) ∷ new)
                ≡ (if all_fine ((j, setting) ∷ config) then ok tt else err value_error)
          validated (inl e) = rw eq (rw e valid)
          validated (inr e) = rw eq (rw e refl)

          looked_up :
              (action : String) (old : Option (String × P))
              → (str_eq j action ≡ true) ⊎ (str_eq j action ≡ false)
              → first_of (lookup action ((j, (strat, pace)) ∷ new)) old
                ≡ injected (lookup action ((j, setting) ∷ config)) old
          looked_up action old (inl e) = rw e (rw eq refl)
          looked_up action old (inr e) = rw e (found action old)

  -- Either all settings are injected or none.
  unfoldable pub AllOrNone : Dict Setting → Pacer P → Type 0
  unfolding inject_config lookup
  AllOrNone config s =
      ((all_fine config ≡ true)
        × (s' : Pacer P) × (inject_config parse config s ≡ (ok tt, s'))
        × ((action : String)
            → lookup action s'.pace_config
              ≡ injected (lookup action config) (lookup action s.pace_config)))
      ⊎ ((all_fine config ≡ false) × (e : Error) × (inject_config parse config s ≡ (err e, s)))

  -- The settings are injected all or not at all: if each has a pace that can be parsed and a
  -- strategy that there is, then every action of the settings has them and every other action has
  -- what it had; else there is an exception, and the pacer is as it was.
  pub inject_config_lem :
      (config : Dict Setting) (s : Pacer P) → distinct_keys config ≡ true → AllOrNone config s
  unfolding AllOrNone Read
  inject_config_lem config s h = go (regenerate-cases config h) (Bool-cases (all_fine config))
    where
      go : Read config → (all_fine config ≡ true) ⊎ (all_fine config ≡ false) → AllOrNone config s
      go (inl (e, fails, bad)) fine = inr (bad, e, rw fails refl)
      go (inr (new, runs, (once, valid, keys, found))) (inl fine) = inl (
        fine,
        record s { pace_config = update new s.pace_config },
        rw runs (rw valid (rw fine refl)),
        λ action.
            lookup-update new s.pace_config action once
            ∙ found action (lookup action s.pace_config),
      )
      go (inr (new, runs, (once, valid, keys, found))) (inr bad) =
          inr (bad, value_error, rw runs (rw valid (rw bad refl)))
