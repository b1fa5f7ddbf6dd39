-- ===== src/Errors/Actions.antt =====
-- Sequences of actions: the first error ends the sequence, with the state that it left.
use poison_trace.Base.{◌≡◌, ◌⊎◌, inl, inr, refl, arith}
use poison_trace.Text.{Str}
use poison_trace.Errors.{ErrorChain, Action, Result, ok, err, wrap}

unfoldable pub proceed : {S A B : Type 0} → Result A × S → (A → Action S B) → Result B × S
proceed (ok a, s) f = f a s
proceed (err e, s) f = (err e, s)

infixl 5 ◌>>=◌
abbrev pub ◌>>=◌ : {S A B : Type 0} → Action S A → (A → Action S B) → Action S B
◌>>=◌ m f s = proceed (m s) f

abbrev pub done : {S A : Type 0} → Result A → Action S A
done r s = (r, s)

wrap_pair : {S A : Type 0} → Str → Result A × S → Result A × S
wrap_pair text (ok a, s) = (ok a, s)
wrap_pair text (err e, s) = (err (wrap text e), s)

-- `if err != nil { return …, fmt.Errorf("text: %w", err) }`.
unfoldable pub within : {S A : Type 0} → Str → Action S A → Action S A
unfolding wrap_pair
within text m s = wrap_pair text (m s)

-- A sequence gives a value exactly if both parts do.
pub proceed-eq-ok :
    {S A B : Type 0} (m : Result A × S) (f : A → Action S B) {b : B} {t : S}
    → proceed m f ≡ (ok b, t)
    → (a : A) × (m.0 ≡ ok a) × (f a m.1 ≡ (ok b, t))
unfolding proceed
proceed-eq-ok (ok a, s) f h = (a, refl, h)
proceed-eq-ok (err e, s) f h = ground arith

-- Of a sequence only the value counts here.
pub proceed-value :
    {S A B : Type 0} (m : Result A × S) (f : A → Action S B) {b : B}
    → (proceed m f).0 ≡ ok b
    → (a : A) × ((m.0 ≡ ok a) × ((f a m.1).0 ≡ ok b))
unfolding proceed
proceed-value (ok a, s) f h = (a, (refl, h))
proceed-value (err e, s) f h = ground arith

pub Result-cases {ℓ} :
    {A : Type ℓ} (r : Result A) → ((a : A) × (r ≡ ok a)) ⊎ ((e : ErrorChain) × (r ≡ err e))
Result-cases (ok a) = inl (a, refl)
Result-cases (err e) = inr (e, refl)

wrap_pair-eq-ok :
    {S A : Type 0} (text : Str) (r : Result A × S) {a : A}
    → (wrap_pair text r).0 ≡ ok a
    → r.0 ≡ ok a
unfolding wrap_pair
wrap_pair-eq-ok text (ok a, s) h = h
wrap_pair-eq-ok text (err e, s) h = ground arith

-- A wrapped action gives the values of the action.
pub within-eq-ok :
    {S A : Type 0} (text : Str) (m : Action S A) (s : S) {a : A}
    → (within text m s).0 ≡ ok a
    → (m s).0 ≡ ok a
unfolding within wrap_pair
within-eq-ok text m s h = wrap_pair-eq-ok text (m s) h

wrap_pair-state : {S A : Type 0} (text : Str) (r : Result A × S) → (wrap_pair text r).1 ≡ r.1
unfolding wrap_pair
wrap_pair-state text (ok a, s) = refl
wrap_pair-state text (err e, s) = refl

-- The wrapping of an error leaves the state.
pub within-state :
    {S A : Type 0} (text : Str) (m : Action S A) (s : S) → (within text m s).1 ≡ (m s).1
unfolding within wrap_pair
within-state text m s = wrap_pair-state text (m s)

-- A property of the value that an action gives, if it gives one.
abbrev pub OnOk : {S A : Type 0} → (A → Type 0) → Result A × S → Type 0
OnOk P (ok a, s) = P a
OnOk P (err e, s) = Unit

pub proceed-OnOk :
    {S A B : Type 0} (P : B → Type 0) (r : Result A × S) (f : A → Action S B)
    → ((a : A) (s : S) → OnOk P (f a s))
    → OnOk P (proceed r f)
unfolding proceed
proceed-OnOk P (ok a, s) f h = h a s
proceed-OnOk P (err e, s) f h = tt

-- A property of the first value that gives one of the second.
pub OnOk-proceed :
    {S A B : Type 0} (Q : A → Type 0) (P : B → Type 0) (r : Result A × S) (f : A → Action S B)
    → OnOk Q r
    → ((a : A) (s : S) → Q a → OnOk P (f a s))
    → OnOk P (proceed r f)
unfolding proceed
OnOk-proceed Q P (ok a, s) f q h = h a s q
OnOk-proceed Q P (err e, s) f q h = tt
