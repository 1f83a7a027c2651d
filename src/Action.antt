-- ===== src/Action.antt =====
-- Code that changes a world, may return an error and may panic: the functions of the program that
-- talk to the system, composed as Go composes them.
use an_app.Base.{◌≡◌, Option, none, some}

pub data Result (E A : Type 0) : Type 0 where
  ok : A → Result E A
  err : E → Result E A
  crash : Result E A

-- What was changed before an error or a panic stays changed.
abbrev pub Action : Type 0 → Type 0 → Type 0 → Type 0
Action W E A = W → Result E A × W

module _ {W E : Type 0} where
  abbrev pub pure : {A : Type 0} → A → Action W E A
  pure a w = (ok a, w)

  abbrev pub fail : {A : Type 0} → E → Action W E A
  fail e w = (err e, w)

  abbrev pub panic : {A : Type 0} → Action W E A
  panic w = (crash, w)

  abbrev pub gets : {A : Type 0} → (W → A) → Action W E A
  gets f w = (ok (f w), w)

  abbrev pub change : (W → W) → Action W E (Unit {0})
  change f w = (ok tt, f w)

  abbrev pub fail_if : Option E → Action W E (Unit {0})
  fail_if none w = (ok tt, w)
  fail_if (some e) w = (err e, w)

  -- A nil that is dereferenced.
  abbrev pub or_panic : {A : Type 0} → Option A → Action W E A
  or_panic none w = (crash, w)
  or_panic (some a) w = (ok a, w)

  -- `defer`: the second runs after the first, however that ends.
  abbrev pub finally : {A : Type 0} → Action W E A → (W → W) → Action W E A
  finally m c w = let (r, w') = m w in (r, c w')

-- What follows an action that has come to this.
abbrev pub next : {W E A B : Type 0} → Result E A → W → (A → Action W E B) → Result E B × W
next (ok a) w f = f a w
next (err e) w f = (err e, w)
next crash w f = (crash, w)

infixl 5 ◌>>=◌ ◌>>◌
abbrev pub ◌>>=◌ : {W E A B : Type 0} → Action W E A → (A → Action W E B) → Action W E B
◌>>=◌ m f w = let (r, w') = m w in next r w' f

abbrev pub ◌>>◌ : {W E B : Type 0} → Action W E (Unit {0}) → Action W E B → Action W E B
m >> k = m >>= λ _. k

-- The action leaves a property of the world true, however it ends.
abbrev pub Keeps : {W E A : Type 0} → (W → Type 0) → Action W E A → Type 0
Keeps {W} P m = (w : W) → P w → P (m w).1

-- Actions that keep a property, and their composition.
abbrev pub Kept : {W : Type 0} → (W → Type 0) → Type 0 → Type 0 → Type 0
Kept {W} P E A = (m : Action W E A) × Keeps P m

pub next-Keeps :
    {W E A B : Type 0} {P : W → Type 0} (f : (a : A) → Kept P E B) (r : Result E A) (w : W)
    → P w
    → P (next r w (λ a. (f a).0)).1
next-Keeps f (ok a) w p = (f a).1 w p
next-Keeps f (err e) w p = p
next-Keeps f crash w p = p

infixl 5 ◌>>>◌
abbrev pub ◌>>>◌ :
    {W E A B : Type 0} {P : W → Type 0} → Kept P E A → ((a : A) → Kept P E B) → Kept P E B
(m, keeps) >>> f = (m >>= (λ a. (f a).0), λ w p. next-Keeps f (m w).0 (m w).1 (keeps w p))

-- From worlds with the first property the action ends without an error, with the second.
abbrev pub Works : {W E A : Type 0} → (W → Type 0) → Action W E A → (A → W → Type 0) → Type 0
Works {W} {E} {A} P m Q = (w : W) → P w → (a : A) × (w' : W) × (m w ≡ (ok a, w')) × Q a w'

abbrev pub Worked : {W : Type 0} → Type 0 → (W → Type 0) → (A : Type 0) → (A → W → Type 0) → Type 0
Worked {W} E P A Q = (m : Action W E A) × Works P m Q

pub >>=-Works :
    {W E A B : Type 0} {P : W → Type 0} {Q : A → W → Type 0} {R : B → W → Type 0} (m : Action W E A)
    (f : A → Action W E B)
    → Works P m Q
    → ((a : A) → Works (Q a) (f a) R)
    → Works P (m >>= f) R
>>=-Works m f works rest w p =
    let (a, w1, e, q) = works w p in let (b, w2, e', r) = rest a w1 q in (b, w2, rw e e', r)

infixl 5 ◌>=>◌
abbrev pub ◌>=>◌ :
    {W E A B : Type 0} {P : W → Type 0} {Q : A → W → Type 0} {R : B → W → Type 0}
    → Worked E P A Q
    → ((a : A) → Worked E (Q a) B R)
    → Worked E P B R
◌>=>◌ (m, works) f = (m >>= (λ a. (f a).0), >>=-Works m (λ a. (f a).0) works (λ a. (f a).1))
