-- ===== src/Telemetry/Deque.antt =====
-- The deque and the set of the recent ids.
use freebsd_laboratory.Base.{
  ℕ, zero, suc, ◌≤◌, Bool, true, false, List, [], ◌∷◌, some, ◌≡◌, refl, ap, ◌∙◌, not, ◌&&◌, ◌||◌,
  length, take, arith, Bool-cases, inl, inr,
}
use freebsd_laboratory.Base.Text.{Text, eq_text, eq_text_iff, eq_text_refl, member}
use freebsd_laboratory.Telemetry.{pop_oldest, discard}

pub member-discard :
    (x e : Text) (s : List Text) → member x (discard e s) ≡ (not (eq_text x e) && member x s)
unfolding discard
member-discard x e [] = ground arith
member-discard x e (y ∷ s) =
    ground (arith, member-discard x e s, eq_text_iff y e, eq_text_iff x e, eq_text_iff x y)

abbrev pub distinct : List Text → Bool
distinct [] = true
distinct (x ∷ l) = not (member x l) && distinct l

pub take-take : {A : Type 0} (m : ℕ) (h : List A) → take m (take (suc m) h) ≡ take m h
take-take zero h = refl
take-take (suc m) [] = refl
take-take (suc m) (x ∷ h) = ap (◌∷◌ x) (take-take m h)

pub take_short :
    {A : Type 0} (m : ℕ) (h : List A) → length (take (suc m) h) ≤ m → take (suc m) h ≡ take m h
take_short zero [] s = refl
take_short zero (x ∷ h) s = absurd (omega (arith, s))
take_short (suc m) [] s = refl
take_short (suc m) (x ∷ h) s = ap (◌∷◌ x) (take_short m h (omega (arith, s)))

-- What popping the oldest element of a full deque gives.
pub record IsPopped (m : ℕ) (l : List Text) : Type 0 where
  pub oldest : Text
  pub popped : pop_oldest l ≡ some (oldest, take m l)
  pub had : (x : Text) → member x l ≡ (member x (take m l) || eq_text x oldest)
  pub fresh : distinct l ≡ true → member oldest (take m l) ≡ false
  pub unique : distinct l ≡ true → distinct (take m l) ≡ true

fresh_step :
    (x e : Text) (l t : List Text)
    → distinct (x ∷ l) ≡ true
    → member e l ≡ true
    → member e t ≡ false
    → (eq_text e x || member e t) ≡ false
fresh_step x e l t d old new = elim (Bool-cases (eq_text e x)) [
  | inr other ↦ rw (other, new) refl
  | inl same ↦
      let both : member x l ≡ true = rw (← (eq_text_iff e x).0 same) old in
      absurd (ground (arith, d, both))
]

unique_step :
    (x e : Text) (l t : List Text)
    → distinct (x ∷ l) ≡ true
    → member x l ≡ (member x t || eq_text x e)
    → distinct t ≡ true
    → distinct (x ∷ t) ≡ true
unique_step x e l t d had u = ground (arith, d, had, u)

IsPopped-step :
    (m : ℕ) (x y : Text) (l : List Text) → IsPopped m (y ∷ l) → IsPopped (suc m) (x ∷ y ∷ l)
unfolding pop_oldest
IsPopped-step m x y l ih = record {
  oldest = ih.oldest;
  popped = rw ih.popped refl;
  had = λ z. ground (arith, ih.had z);
  fresh = λ d.
      fresh_step x ih.oldest (y ∷ l) (take m (y ∷ l)) d
        (ih.had ih.oldest ∙ ground (arith, eq_text_refl ih.oldest)) (ih.fresh (ground (arith, d)));
  unique = λ d.
      unique_step x ih.oldest (y ∷ l) (take m (y ∷ l)) d (ih.had x) (ih.unique (ground (arith, d)));
}

pub pop_oldest-IsPopped : (m : ℕ) (l : List Text) → length l ≡ suc m → IsPopped m l
unfolding pop_oldest
pop_oldest-IsPopped m [] h = absurd (omega (arith, h))
pop_oldest-IsPopped zero (x ∷ []) h = record {
  oldest = x;
  popped = refl;
  had = λ y. ground arith;
  fresh = λ d. refl;
  unique = λ d. refl;
}
pop_oldest-IsPopped (suc m) (x ∷ []) h = absurd (omega (arith, h))
pop_oldest-IsPopped zero (x ∷ y ∷ l) h = absurd (omega (arith, h))
pop_oldest-IsPopped (suc m) (x ∷ y ∷ l) h =
    IsPopped-step m x y l (pop_oldest-IsPopped m (y ∷ l) (omega (arith, h)))

pub left_over :
    (x e : Text) (t : List Text)
    → member e t ≡ false
    → (not (eq_text x e) && (member x t || eq_text x e)) ≡ member x t
left_over x e t new = elim (Bool-cases (eq_text x e)) [
  | inr other ↦ ground (arith, other)
  | inl same ↦
      let absent : member x t ≡ false = ap (λ y. member y t) ((eq_text_iff x e).0 same) ∙ new in
      ground (arith, same, absent)
]

pub unique_left : (a b c : Bool) → (a || b) ≡ false → c ≡ true → (not a && c) ≡ true
unique_left a b c h k = ground (arith, h, k)
