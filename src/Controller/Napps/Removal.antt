-- ===== src/Controller/Napps/Removal.antt =====
-- To remove the listeners that were added gives back the listeners that were there.
use mathlib.Core.List.{append-nil}
use kytos.Prelude.{
  ◌≡◌, refl, ap, sym, subst, ◌∙◌, String, Bool, true, false, not, ◌&&◌, Option, none, some, List,
  [], ◌∷◌, ◌++◌, str_eq, eq_iff, if◌then◌else◌, arith, Bool-cases, inl, inr, taken_if, not_and,
}
use kytos.Errors.{ok}
use kytos.Dict.{
  distinct_keys, Dict, lookup, insert, delete, has_key, lookup-insert, lookup-insert_self,
  lookup-insert_ne, lookup-delete,
}
use kytos.Table.{Eq, same_refl}
use kytos.Controller.Napps.{
  listed, or_nothing, add_listeners, remove, put_back, and_then, remove_each, write_back,
  remove_entry, next_entry, remove_listeners,
}

ne_sym : (j k : String) → str_eq j k ≡ false → str_eq k j ≡ false
ne_sym j k h = ground (arith, eq_iff j k, eq_iff k j, h)

if_false : (p q : Bool) → (if p then true else q) ≡ false → (p ≡ false) × (q ≡ false)
if_false p q h = ground arith

both : (p q : Bool) → (p && q) ≡ true → (p ≡ true) × (q ≡ true)
both p q h = ground arith

if_same : {A : Type 0} (p : Bool) (a : A) → (if p then a else a) ≡ a
if_same true a = refl
if_same false a = refl

module _ {L : Type 0} where
  -- What a list of listeners is stored as.
  abbrev pub stored : List L → Option (List L)
  stored [] = none
  stored (x ∷ l) = some (x ∷ l)

  -- No event has an empty list.
  abbrev has_some : List L → Bool
  has_some [] = false
  has_some (x ∷ l) = true

  abbrev pub none_empty : Dict (List L) → Bool
  none_empty [] = true
  none_empty ((event, l) ∷ entries) = has_some l && none_empty entries

  stored-listed_one : (l : List L) → has_some l ≡ true → stored l ≡ some l
  stored-listed_one [] h = cc
  stored-listed_one (x ∷ l) h = refl

  stored-listed :
      (event : String) (d : Dict (List L))
      → none_empty d ≡ true
      → stored (listed event d) ≡ lookup event d
  unfolding listed lookup
  stored-listed event [] h = refl
  stored-listed event ((other, l) ∷ d) h = elim (Bool-cases (str_eq other event)) [
    | inl e ↦ rw e (stored-listed_one l (ground (arith, h)))
    | inr e ↦ rw e (stored-listed event d (ground (arith, h)))
  ]

  -- Each event of the entries has its old listeners and those of the entry behind them.
  abbrev Added : Dict (List L) → (String → Option (List L)) → (String → Option (List L)) → Type 0
  Added [] old now = Unit {0}
  Added ((event, l) ∷ entries) old now =
      (now event ≡ some (or_nothing (old event) ++ l)) × Added entries old now

  Added-change :
      (entries : Dict (List L)) (old now old' now' : String → Option (List L)) (event : String)
      → has_key event entries ≡ false
      → ((j : String) → str_eq event j ≡ false → old j ≡ old' j)
      → ((j : String) → str_eq event j ≡ false → now j ≡ now' j)
      → Added entries old now
      → Added entries old' now'
  unfolding has_key
  Added-change [] old now old' now' event h f g a = tt
  Added-change ((j, l) ∷ entries) old now old' now' event h f g (a, rest) =
      let other = ne_sym j event (if_false (str_eq j event) (has_key event entries) h).0 in
      (
        sym (g j other) ∙ a ∙ ap (λ o. some (or_nothing o ++ l)) (f j other),
        Added-change entries old now old' now' event
            (if_false (str_eq j event) (has_key event entries) h).1 f g rest,
      )

  lookup-add_listeners :
      (entries : Dict (List L)) (d : Dict (List L)) (event : String)
      → has_key event entries ≡ false
      → lookup event (add_listeners entries d) ≡ lookup event d
  unfolding add_listeners has_key
  lookup-add_listeners [] d event h = refl
  lookup-add_listeners ((j, l) ∷ entries) d event h =
      lookup-add_listeners entries (insert j (listed j d ++ l) d) event
        (if_false (str_eq j event) (has_key event entries) h).1
      ∙ lookup-insert_ne j event (listed j d ++ l) d
          (if_false (str_eq j event) (has_key event entries) h).0

  add_listeners-Added :
      (entries : Dict (List L)) (d : Dict (List L))
      → distinct_keys entries ≡ true
      → Added entries (λ j. lookup j d) (λ j. lookup j (add_listeners entries d))
  unfolding add_listeners distinct_keys listed
  add_listeners-Added [] d h = tt
  add_listeners-Added ((j, l) ∷ entries) d h =
      let (once, others) = not_and (has_key j entries) (distinct_keys entries) h in
      (
        lookup-add_listeners entries (insert j (listed j d ++ l) d) j once
            ∙ lookup-insert_self j (listed j d ++ l) d,
        Added-change entries (λ k. lookup k (insert j (listed j d ++ l) d))
            (λ k. lookup k (add_listeners entries (insert j (listed j d ++ l) d))) (λ k. lookup k d)
            (λ k. lookup k (add_listeners entries (insert j (listed j d ++ l) d))) j once
            (λ k other. lookup-insert_ne j k (listed j d ++ l) d other) (λ k other. refl)
            (add_listeners-Added entries (insert j (listed j d ++ l) d) others),
      )

  Added-lookup :
      (entries : Dict (List L)) (old now : String → Option (List L)) (event : String) (l : List L)
      → lookup event entries ≡ some l
      → Added entries old now
      → now event ≡ some (or_nothing (old event) ++ l)
  unfolding lookup
  Added-lookup [] old now event l h a = cc
  Added-lookup ((j, m) ∷ entries) old now event l h (here, rest) =
      elim (Bool-cases (str_eq j event)) [
        | inl e ↦
            subst (λ k. now k ≡ some (or_nothing (old k) ++ l)) ((eq_iff j event).0 e)
              (here
                ∙ ap (λ k. some (or_nothing (old j) ++ k))
                    (taken_if (str_eq j event) m l (lookup event entries) e h))
        | inr e ↦ Added-lookup entries old now event l (ground (arith, h, e)) rest
      ]

  -- An event that had no listeners has those of the entry.
  pub lookup-add_listeners_new :
      (entries d : Dict (List L)) (event : String) (l : List L)
      → distinct_keys entries ≡ true
      → lookup event d ≡ none
      → lookup event entries ≡ some l
      → lookup event (add_listeners entries d) ≡ some l
  lookup-add_listeners_new entries d event l h fresh there =
      Added-lookup entries (λ j. lookup j d) (λ j. lookup j (add_listeners entries d)) event l there
        (add_listeners-Added entries d h)
      ∙ ap (λ o. some (or_nothing o ++ l)) fresh

  module _ ⦃e : Eq L⦄ where
    abbrev pub absent : L → List L → Bool
    absent x [] = true
    absent x (y ∷ l) = not (e.same y x) && absent x l

    -- The listeners of the entries are new to their events.
    abbrev each_absent : List L → List L → Bool
    each_absent [] l = true
    each_absent (x ∷ xs) l = absent x l && each_absent xs l

    abbrev pub all_new : Dict (List L) → (String → List L) → Bool
    all_new [] old = true
    all_new ((event, l) ∷ entries) old = each_absent l (old event) && all_new entries old

    remove-new :
        (x : L) (l rest : List L)
        → absent x l ≡ true
        → remove x (l ++ x ∷ rest) ≡ (ok tt, l ++ rest)
    remove-new x [] rest h = rw (same_refl x) refl
    remove-new x (y ∷ l) rest h =
        let (other, later) = not_and (e.same y x) (absent x l) h in
        rw other (ap (put_back y) (remove-new x l rest later))

    remove_each-new :
        (xs l : List L) → each_absent xs l ≡ true → remove_each xs (l ++ xs) ≡ (ok tt, l)
    remove_each-new [] l h = ap (λ m. (ok tt, m)) (append-nil l)
    remove_each-new (x ∷ xs) l h =
        let (new, others) = both (absent x l) (each_absent xs l) h in
        ap (λ r. and_then r (remove_each xs)) (remove-new x l xs new) ∙ remove_each-new xs l others

    -- The listeners of an event are what is left without the new ones.
    abbrev written : String → List L → Dict (List L) → Dict (List L)
    unfolding insert delete
    written event [] d = delete event d
    written event (x ∷ l) d = insert event (x ∷ l) d

    write_back-written :
        (event : String) (l : List L) (d : Dict (List L))
        → write_back event (ok tt, l) d ≡ (ok tt, written event l d)
    unfolding written
    write_back-written event [] d = refl
    write_back-written event (x ∷ l) d = refl

    lookup-written :
        (event j : String) (l : List L) (d : Dict (List L))
        → lookup j (written event l d) ≡ (if str_eq event j then stored l else lookup j d)
    unfolding written
    lookup-written event j [] d = lookup-delete event j d
    lookup-written event j (x ∷ l) d = lookup-insert event j (x ∷ l) d

    -- The events of the entries have their old listeners, the others what they had.
    abbrev before :
        Dict (List L)
        → (String → Option (List L))
        → (String → Option (List L))
        → String
        → Option (List L)
    unfolding has_key
    before entries old now j = if has_key j entries then stored (or_nothing (old j)) else now j

    same_before :
        (event : String) (l : List L) (entries : Dict (List L)) (old : String → Option (List L))
        (d : Dict (List L)) (j : String)
        → before entries old (λ k. lookup k (written event (or_nothing (old event)) d)) j
          ≡ before ((event, l) ∷ entries) old (λ k. lookup k d) j
    unfolding before has_key
    same_before event l entries old d j = elim (Bool-cases (str_eq event j)) [
      | inl e ↦ rw (lookup-written event j (or_nothing (old event)) d) (
          rw e
            (rw ((eq_iff event j).0 e) (if_same (has_key j entries) (stored (or_nothing (old j))))))
      | inr e ↦ rw (lookup-written event j (or_nothing (old event)) d) (rw e refl)
    ]

    remove_listeners-Added :
        (entries : Dict (List L)) (old : String → Option (List L)) (d : Dict (List L))
        → distinct_keys entries ≡ true
        → all_new entries (λ j. or_nothing (old j)) ≡ true
        → Added entries old (λ j. lookup j d)
        → (d' : Dict (List L)) × (remove_listeners entries d ≡ (ok tt, d'))
          × ((j : String) → lookup j d' ≡ before entries old (λ k. lookup k d) j)
    unfolding remove_listeners before distinct_keys has_key
    remove_listeners-Added [] old d h n a = (d, refl, λ j. refl)
    remove_listeners-Added ((event, l) ∷ entries) old d h n (there, rest) =
        let (once, others) = not_and (has_key event entries) (distinct_keys entries) h in
        let (new, newer) =
          both (each_absent l (or_nothing (old event))) (all_new entries (λ j. or_nothing (old j)))
            n in
        let left = written event (or_nothing (old event)) d in
        let (d', runs, found) = remove_listeners-Added entries old left others newer (
          Added-change entries old (λ k. lookup k d) old (λ k. lookup k left) event once
            (λ k other. refl)
            (λ k other. sym (lookup-written event k (or_nothing (old event)) d ∙ rw other refl))
            rest) in
        (
          d',
          ap (λ r. next_entry r (remove_listeners entries))
                (ap (λ o. remove_entry event l o d) there
                  ∙ ap (λ r. write_back event r d) (remove_each-new l (or_nothing (old event)) new)
                  ∙ write_back-written event (or_nothing (old event)) d)
              ∙ runs,
          λ j. found j ∙ same_before event l entries old d j,
        )

    before-add_listeners :
        (entries d : Dict (List L))
        → none_empty d ≡ true
        → (j : String)
        → before entries (λ k. lookup k d) (λ k. lookup k (add_listeners entries d)) j ≡ lookup j d
    unfolding before listed
    before-add_listeners entries d full j = elim (Bool-cases (has_key j entries)) [
      | inl e ↦ rw e (stored-listed j d full)
      | inr e ↦ rw e (lookup-add_listeners entries d j e)
    ]

    -- After the listeners of the entries are added and removed, each event has the listeners it had.
    pub remove_listeners-add_listeners :
        (entries : Dict (List L)) (d : Dict (List L))
        → distinct_keys entries ≡ true
        → none_empty d ≡ true
        → all_new entries (λ j. listed j d) ≡ true
        → (d' : Dict (List L)) × (remove_listeners entries (add_listeners entries d) ≡ (ok tt, d'))
          × ((j : String) → lookup j d' ≡ lookup j d)
    unfolding listed
    remove_listeners-add_listeners entries d h full new =
        let (d', runs, found) =
          remove_listeners-Added entries (λ j. lookup j d) (add_listeners entries d) h new
            (add_listeners-Added entries d h) in
        (d', runs, λ j. found j ∙ before-add_listeners entries d full j)
