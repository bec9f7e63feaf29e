-- ===== src/DeadLetter/Tests.antt =====
-- Small inputs of kytos/core/dead_letter.py, with lists for the queues.
use kytos.Prelude.{ℕ, ◌≡◌, refl, ◌⊎◌, String, true, false, some, List, [], ◌∷◌, ◌++◌, arith, str_eq}
use kytos.Errors.{ok}
use kytos.Dict.{Dict, lookup, insert}
use kytos.Events.{KytosEvent, pos}
use kytos.Buffers.{KytosEventBuffer}
use kytos.DeadLetter.{DeadLetter, QueueBufferName, events_of, add_event, rest_patch}
use kytos.DeadLetter.Kept.{IsBounded, after, add_event_lem}
use kytos.DeadLetter.Reinjected.{delete_each, IsPut, rest_patch_lem}

abbrev event : String → KytosEvent ℕ
event id = record {
  name = "n";
  content = [];
  timestamp = 0;
  reinjections = 0;
  priority = pos 0;
  id = id;
}

abbrev Queue : Type 0
Queue = List (KytosEvent ℕ)

abbrev append : KytosEvent ℕ → Queue → Queue
append e q = q ++ e ∷ []

abbrev empty : String → KytosEventBuffer Queue
empty name = record { name = name; queue = []; reject_new_events = false }

abbrev kept : Dict (KytosEvent ℕ)
kept = ("a", event "a") ∷ ("b", event "b") ∷ []

abbrev letters : DeadLetter ℕ Queue
letters = record {
  dict = ("n", kept) ∷ [];
  max_len_per_event_name = 2;
  app = empty "app";
  msg_in = empty "msg_in";
}

add_event_example :
    (add_event (event "c") letters ≡ (ok tt, after (event "c") letters))
    × IsBounded 2 (after (event "c") letters).dict
    × (lookup "c" (events_of "n" (after (event "c") letters)) ≡ some (event "c"))
    × ((str_eq "n" "m" ≡ true)
        ⊎ (events_of "m" (after (event "c") letters) ≡ events_of "m" letters))
add_event_example = add_event_lem (event "c") "m" letters (omega arith) (omega arith, tt)

rest_patch_example :
    (s' : DeadLetter ℕ Queue) × (rest_patch append "n" ("b" ∷ []) QueueBufferName.app letters
      ≡ (ok tt, s'))
    × (s'.dict ≡ insert "n" (delete_each ("b" ∷ []) kept) letters.dict)
    × IsPut append QueueBufferName.app (event "b" ∷ []) letters s'
rest_patch_example =
    rest_patch_lem append "n" "b" [] QueueBufferName.app letters kept (event "b" ∷ [])
      (unfold lookup in refl) (unfold lookup in refl, tt)
