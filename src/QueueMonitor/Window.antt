-- ===== src/QueueMonitor/Window.antt =====
-- What the window counts, and which windows there are.
use kytos.Prelude.{
  ℕ, ◌≤◌, ◌<◌, ◌≡◌, refl, subst, ap, ◌∙◌, ◌↔◌, ◌⊎◌, inl, inr, Bool, true, false, ◌&&◌, List, [],
  ◌∷◌, ◌++◌, ltb, leb, length, arith, Bool-cases,
}
use kytos.Errors.{ok}
use kytos.Clock.{seconds}
use kytos.Events.{ℤ, pos, negsuc}
use kytos.QueueMonitor.{
  QueueRecord, QueueMonitorWindow, validate, popleft_passed, take_near, get_records, is_hit,
  hits_of, last_created,
}

-- Every record is longer ago than the window lasts.
abbrev pub Passed : ℕ → ℕ → List QueueRecord → Type 0
Passed now delta_secs [] = Unit
Passed now delta_secs (r ∷ rs) = (delta_secs < seconds now r.created_at) × Passed now delta_secs rs

-- Every record comes within the window after a time.
abbrev pub Near : ℕ → ℕ → List QueueRecord → Type 0
Near delta_secs start [] = Unit
Near delta_secs start (r ∷ rs) =
    (seconds r.created_at start ≤ delta_secs) × Near delta_secs start rs

-- The first of the records is not longer ago than the window lasts.
abbrev pub StartsRecent : ℕ → ℕ → List QueueRecord → Type 0
StartsRecent now delta_secs [] = Unit
StartsRecent now delta_secs (r ∷ rs) = seconds now r.created_at ≤ delta_secs

-- The first of the records does not come within the window after a time.
abbrev pub StartsFar : ℕ → ℕ → List QueueRecord → Type 0
StartsFar delta_secs start [] = Unit
StartsFar delta_secs start (r ∷ rs) = delta_secs < seconds r.created_at start

popleft_passed-StartsRecent :
    (now delta_secs : ℕ) (rs : List QueueRecord)
    → StartsRecent now delta_secs (popleft_passed now delta_secs rs)
unfolding popleft_passed
popleft_passed-StartsRecent now delta_secs [] = tt
popleft_passed-StartsRecent now delta_secs (r ∷ rs) =
    elim (Bool-cases (ltb delta_secs (seconds now r.created_at))) [
      | inl e ↦ rw e (popleft_passed-StartsRecent now delta_secs rs)
      | inr e ↦ rw e (ground arith)
    ]

take_near-StartsFar :
    (delta_secs start : ℕ) (rs : List QueueRecord)
    → StartsFar delta_secs start (take_near delta_secs start rs).1
unfolding take_near
take_near-StartsFar delta_secs start [] = tt
take_near-StartsFar delta_secs start (r ∷ rs) =
    elim (Bool-cases (leb (seconds r.created_at start) delta_secs)) [
      | inl e ↦ rw e (take_near-StartsFar delta_secs start rs)
      | inr e ↦ rw e (ground arith)
    ]

popleft_passed-Passed :
    (now delta_secs : ℕ) (rs : List QueueRecord)
    → (passed : List QueueRecord) × (rs ≡ passed ++ popleft_passed now delta_secs rs)
      × Passed now delta_secs passed
unfolding popleft_passed
popleft_passed-Passed now delta_secs [] = ([], refl, tt)
popleft_passed-Passed now delta_secs (r ∷ rs) =
    elim (Bool-cases (ltb delta_secs (seconds now r.created_at))) [
      | inl e ↦
          let (passed, same, old) = popleft_passed-Passed now delta_secs rs in
          rw e (r ∷ passed, ap (λ l. r ∷ l) same, (ground arith, old))
      | inr e ↦ rw e ([], refl, tt)
    ]

take_near-Near :
    (delta_secs start : ℕ) (rs : List QueueRecord)
    → (rs ≡ (take_near delta_secs start rs).0 ++ (take_near delta_secs start rs).1)
      × Near delta_secs start (take_near delta_secs start rs).0
unfolding take_near
take_near-Near delta_secs start [] = (refl, tt)
take_near-Near delta_secs start (r ∷ rs) =
    elim (Bool-cases (leb (seconds r.created_at start) delta_secs)) [
      | inl e ↦
          let (same, near) = take_near-Near delta_secs start rs in
          rw e (ap (λ l. r ∷ l) same, (ground arith, near))
      | inr e ↦ rw e (refl, tt)
    ]

-- No records are counted, as there are none, too few, or it is too soon; or the window has had enough
-- of them and has waited for long enough, and then all that come within the window after the first are
-- counted.
abbrev pub IsCounted : ℕ → QueueMonitorWindow → List QueueRecord × QueueMonitorWindow → Type 0
IsCounted now w ([], w') =
    (w'.last_counted_at ≡ w.last_counted_at)
    × ((w'.deque ≡ [])
        ⊎ ((length w'.deque < w.min_hits) ⊎ (seconds now w.last_counted_at < w.delta_secs)))
IsCounted now w (first ∷ near, w') =
    (w.min_hits ≤ length (first ∷ near ++ w'.deque))
    × (w.delta_secs ≤ seconds now w.last_counted_at)
    × (seconds now first.created_at ≤ w.delta_secs)
    × Near w.delta_secs first.created_at near
    × StartsFar w.delta_secs first.created_at w'.deque
    × (w'.last_counted_at ≡ last_created first near)

not_hit : (p q r : Bool) → (p && (q && r)) ≡ false → q ≡ true → (p ≡ false) ⊎ (r ≡ false)
not_hit p q r h e = elim (Bool-cases p) [ inl holds ↦ inr (ground arith) | inr fails ↦ inl fails ]

too_few_or_soon :
    (now : ℕ) (first : QueueRecord) (rest : List QueueRecord) (w : QueueMonitorWindow)
    → is_hit now first rest w ≡ false
    → StartsRecent now w.delta_secs (first ∷ rest)
    → (length (first ∷ rest) < w.min_hits) ⊎ (seconds now w.last_counted_at < w.delta_secs)
too_few_or_soon now first rest w h recent =
    elim (not_hit (leb w.min_hits (length (first ∷ rest)))
      (leb (seconds now first.created_at) w.delta_secs)
      (leb w.delta_secs (seconds now w.last_counted_at)) h (ground (arith, recent))) [
        | inl few ↦ inl (ground (arith, few))
        | inr soon ↦ inr (ground (arith, soon))
      ]

hits_of-IsCounted :
    (now : ℕ) (rs : List QueueRecord) (w : QueueMonitorWindow)
    → StartsRecent now w.delta_secs rs
    → (rs ≡ (hits_of now rs w).0 ++ (hits_of now rs w).1.deque) × IsCounted now w (hits_of now rs w)
hits_of-IsCounted now [] w recent = (refl, (refl, inl refl))
hits_of-IsCounted now (first ∷ rest) w recent = elim (Bool-cases (is_hit now first rest w)) [
  | inl e ↦
      let (same, near) = take_near-Near w.delta_secs first.created_at rest in
      let enough : w.min_hits ≤ length (first ∷ rest) = ground arith in
      rw e (
        ap (λ l. first ∷ l) same,
        (
          subst (λ l. w.min_hits ≤ length (first ∷ l)) same enough,
          ground arith,
          ground arith,
          near,
          take_near-StartsFar w.delta_secs first.created_at rest,
          refl,
        ),
      )
  | inr e ↦ rw e (refl, (refl, inr (too_few_or_soon now first rest w e recent)))
]

-- The records of the window are split in order into three parts: those that are dropped, all of
-- them longer ago than the window lasts, up to the first that is not; those that are returned; and
-- those that stay. If any are returned, there were enough hits, the window has waited for long enough
-- since the last time, and they are all in front of the first that does not come within the window
-- after the first of them. If none are returned, the time of the last count stays, and there were none,
-- there were too few, or the window has not waited for long enough. Differences of times are without
-- their whole days, as `timedelta.seconds` is.
pub get_records_lem :
    (now : ℕ) (w : QueueMonitorWindow)
    → (passed : List QueueRecord) × (w.deque
        ≡ passed ++ ((get_records now w).0 ++ (get_records now w).1.deque))
      × Passed now w.delta_secs passed
      × StartsRecent now w.delta_secs ((get_records now w).0 ++ (get_records now w).1.deque)
      × IsCounted now w (get_records now w)
unfolding get_records
get_records_lem now w =
    let (passed, same, old) = popleft_passed-Passed now w.delta_secs w.deque in
    let recent = popleft_passed-StartsRecent now w.delta_secs w.deque in
    let (split, counted) =
      hits_of-IsCounted now (popleft_passed now w.delta_secs w.deque) w recent in
    (
      passed,
      same ∙ ap (λ l. passed ++ l) split,
      old,
      subst (StartsRecent now w.delta_secs) split recent,
      counted,
    )

-- A window is accepted exactly if its three numbers are not negative, it lasts for at least a
-- second, and it does not ask for more hits than seconds. The ratio is compared exactly, as floats do
-- for numbers below 2^53.
pub validate_iff :
    (min_hits delta_secs min_size_threshold : ℤ)
    → validate min_hits delta_secs min_size_threshold ≡ ok tt ↔ (
        (h : ℕ) × (d : ℕ) × (m : ℕ) × (min_hits ≡ pos h)
        × (delta_secs ≡ pos d)
        × (min_size_threshold ≡ pos m)
        × (0 < d)
        × (h ≤ d))
unfolding validate
validate_iff (pos h) (pos d) (pos m) = (
  λ e. (h, d, m, refl, refl, refl, ground arith, ground arith),
  λ (h', d', m', eh, ed, em, p, q). ground arith,
)
validate_iff (negsuc h) (pos d) (pos m) = (λ e. cc, λ (h', d', m', eh, ed, em, p, q). cc)
validate_iff (pos h) (negsuc d) (pos m) = (λ e. cc, λ (h', d', m', eh, ed, em, p, q). cc)
validate_iff (negsuc h) (negsuc d) (pos m) = (λ e. cc, λ (h', d', m', eh, ed, em, p, q). cc)
validate_iff (pos h) (pos d) (negsuc m) = (λ e. cc, λ (h', d', m', eh, ed, em, p, q). cc)
validate_iff (negsuc h) (pos d) (negsuc m) = (λ e. cc, λ (h', d', m', eh, ed, em, p, q). cc)
validate_iff (pos h) (negsuc d) (negsuc m) = (λ e. cc, λ (h', d', m', eh, ed, em, p, q). cc)
validate_iff (negsuc h) (negsuc d) (negsuc m) = (λ e. cc, λ (h', d', m', eh, ed, em, p, q). cc)
