-- ===== src/Telemetry/History.antt =====
-- The deduplication against a history that forgets nothing.
use freebsd_laboratory.Base.{
  ℕ, suc, ◌≤◌, Bool, true, false, List, [], ◌∷◌, Option, none, some, ◌≡◌, refl, ap, ◌∙◌, sym, not,
  ◌&&◌, ◌||◌, ◌==◌, ==_iff, if◌then◌else◌, is_nil, length, take, length-take-le, arith, Bool-cases,
  inl, inr,
}
use freebsd_laboratory.Base.Text.{Text, eq_text, member}
use freebsd_laboratory.Evidence.Json.{Json, null, bool, int, real, str, array, object}
use freebsd_laboratory.Telemetry.{
  Recent, make_room, remember, observe_text, first_observation, no_errors,
}
use freebsd_laboratory.Telemetry.Deque.{
  distinct, pop_oldest-IsPopped, take-take, take_short, member-discard, left_over, unique_left,
}

-- The specification: the history of the ids, the newest first. An id is new where it is not among
-- the last `n`.
pub observe : ℕ → Text → List Text → Bool × List Text
observe n id history =
    if is_nil id
    then (true, history)
    else if member id (take n history)
    then (false, history)
    else (true, id ∷ history)

-- The deque holds the newest ids of the history, none of them twice, and the set the same ids.
pub record Remembers (n : ℕ) (r : Recent) (history : List Text) : Type 0 where
  pub maxlen : r.maxlen ≡ n
  pub ids : r.ids ≡ take n history
  pub id_set : (x : Text) → member x r.id_set ≡ member x r.ids
  pub unique : distinct r.ids ≡ true

module _ (m : ℕ) (r : Recent) (history : List Text) (inv : Remembers (suc m) r history) (id : Text)
    (new : member id (take (suc m) history) ≡ false) where
  -- A new id in a deque that is full.
  full_step : length r.ids ≡ suc m → Remembers (suc m) (remember id (make_room r)) (id ∷ history)
  unfolding remember make_room
  full_step full =
      let p = pop_oldest-IsPopped m r.ids full in
      let is_full : (length r.ids == r.maxlen) ≡ true =
        rw (full, inv.maxlen) ((==_iff (suc m) (suc m)).1 refl) in
      rw (is_full, p.popped)
        (record {
          maxlen = inv.maxlen;
          ids = ap (λ l. id ∷ take m l) inv.ids ∙ ap (◌∷◌ id) (take-take m history);
          id_set = λ x.
              ap (λ b. eq_text x id || b)
                (member-discard x p.oldest r.id_set
                  ∙ ap (λ b. not (eq_text x p.oldest) && b) (inv.id_set x ∙ p.had x)
                  ∙ left_over x p.oldest (take m r.ids) (p.fresh inv.unique));
          unique =
              unique_left (member id (take m r.ids)) (eq_text id p.oldest) (distinct (take m r.ids))
                (sym (p.had id) ∙ ap (member id) inv.ids ∙ new) (p.unique inv.unique);
        })

  -- A new id in a deque that has room.
  room_step : length r.ids ≤ m → Remembers (suc m) (remember id (make_room r)) (id ∷ history)
  unfolding remember make_room
  room_step room =
      let is_room : (length r.ids == r.maxlen) ≡ false = rw inv.maxlen (ground (arith, room)) in
      rw is_room (record {
        maxlen = inv.maxlen;
        ids = ap (◌∷◌ id) (inv.ids ∙ take_short m history (omega (arith, ap length inv.ids, room)));
        id_set = λ x. ap (λ b. eq_text x id || b) (inv.id_set x);
        unique = ground (arith, ap (member id) inv.ids ∙ new, inv.unique);
      })

new_step :
    (m : ℕ) (r : Recent) (history : List Text) (id : Text)
    → Remembers (suc m) r history
    → member id (take (suc m) history) ≡ false
    → Remembers (suc m) (remember id (make_room r)) (id ∷ history)
new_step m r history id inv new =
    let bound : length r.ids ≤ suc m =
      omega (arith, ap length inv.ids, length-take-le (suc m) history) in
    elim (Bool-cases (length r.ids == suc m)) [
      | inl full ↦ full_step m r history inv id new ((==_iff (length r.ids) (suc m)).0 full)
      | inr room ↦ room_step m r history inv id new (ground (arith, room, bound))
    ]

-- An observation answers as the specification does, and remembers its history.
observe_text-observe :
    (m : ℕ) (r : Recent) (history : List Text) (id : Text)
    → Remembers (suc m) r history
    → ((observe_text id r).0 ≡ (observe (suc m) id history).0)
      × Remembers (suc m) (observe_text id r).1 (observe (suc m) id history).1
unfolding observe_text observe
observe_text-observe m r history [] inv = (refl, inv)
observe_text-observe m r history (c ∷ id) inv =
    let same : member (c ∷ id) r.id_set ≡ member (c ∷ id) (take (suc m) history) =
      inv.id_set (c ∷ id) ∙ ap (member (c ∷ id)) inv.ids in
    elim (Bool-cases (member (c ∷ id) (take (suc m) history))) [
      | inl old ↦ rw (same, old) (refl, inv)
      | inr new ↦ rw (same, new) (refl, new_step m r history (c ∷ id) inv new)
    ]

-- The ids that a header may hold, to the specification: what is no text counts as new.
pub observe_value : ℕ → Option Json → List Text → Bool × List Text
observe_value n (some (str id)) history = observe n id history
observe_value n _ history = (true, history)

-- The answers to a sequence of observations.
pub answers : {S : Type 0} → (Option Json → S → Bool × S) → List (Option Json) → S → List Bool
answers step [] s = []
answers step (v ∷ vs) s = let (b, s') = step v s in b ∷ answers step vs s'

first_observation-observe_value :
    (m : ℕ) (v : Option Json) (r : Recent) (history : List Text)
    → Remembers (suc m) r history
    → ((first_observation v r).0 ≡ (observe_value (suc m) v history).0)
      × Remembers (suc m) (first_observation v r).1 (observe_value (suc m) v history).1
unfolding first_observation observe_value
first_observation-observe_value m (some (str id)) r history inv =
    observe_text-observe m r history id inv
first_observation-observe_value m none r history inv = (refl, inv)
first_observation-observe_value m (some null) r history inv = (refl, inv)
first_observation-observe_value m (some (bool b)) r history inv = (refl, inv)
first_observation-observe_value m (some (int i)) r history inv = (refl, inv)
first_observation-observe_value m (some (real t)) r history inv = (refl, inv)
first_observation-observe_value m (some (array xs)) r history inv = (refl, inv)
first_observation-observe_value m (some (object d)) r history inv = (refl, inv)

answers_lem :
    (m : ℕ) (vs : List (Option Json)) (r : Recent) (history : List Text)
    → Remembers (suc m) r history
    → answers first_observation vs r ≡ answers (observe_value (suc m)) vs history
unfolding answers
answers_lem m [] r history inv = refl
answers_lem m (v ∷ vs) r history inv =
    let h = first_observation-observe_value m v r history inv in
    ap (λ b. b ∷ answers first_observation vs (first_observation v r).1) h.0
    ∙ ap (◌∷◌ (observe_value (suc m) v history).0)
        (answers_lem m vs (first_observation v r).1 (observe_value (suc m) v history).1 h.1)

-- Over any sequence of message ids the deque and the set of the class give the answers of a history
-- that forgets nothing: an id is an observation of its own unless it is among the last 1024 new ids,
-- and what is no text or empty always is.
pub first_observation_refines :
    (vs : List (Option Json))
    → answers first_observation vs no_errors ≡ answers (observe_value 1024) vs []
unfolding no_errors
first_observation_refines vs =
    answers_lem 1023 vs _ []
      (record { maxlen = refl; ids = refl; id_set = λ x. refl; unique = refl })
