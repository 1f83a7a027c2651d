-- ===== src/Device/Linux/Ioctl/Memory.antt =====
-- Structures in memory: their fields one behind another, each at a multiple of its alignment, as Go and
-- C lay them out for the structures of device/device_linux_64.go and device_linux_32.go. A field is its
-- bytes.
use Prim.Native.String.{String}
use mathlib.Core.List.{append_assoc}
use an_app.Base.{
  ℕ, zero, suc, ◌+◌, ◌-◌, ◌%◌, ◌≡◌, refl, sym, subst, ap, ap₂, ◌∙◌, List, [], ◌∷◌, ◌++◌, take, drop,
  take_nil, length, length-append, All, arith,
}

abbrev pub Bytes : Type 0
Bytes = List ℕ

pub record Field : Type 0 where
  pub name : String
  pub align : ℕ
  pub size : ℕ

-- The bytes that a field leaves free before it.
abbrev pub gap : ℕ → ℕ → ℕ
gap pos align = (align - pos % align) % align

abbrev pub zeros : ℕ → Bytes
zeros zero = []
zeros (suc n) = 0 ∷ zeros n

-- The memory of a structure from a position on, and where its fields are.
abbrev pub store : ℕ → List Field → (String → Bytes) → Bytes
store pos [] v = []
store pos (f ∷ fs) v =
    zeros (gap pos f.align) ++ (v f.name ++ store (pos + gap pos f.align + f.size) fs v)

abbrev pub offsets : ℕ → List Field → List (Field × ℕ)
offsets pos [] = []
offsets pos (f ∷ fs) = (f, pos + gap pos f.align) ∷ offsets (pos + gap pos f.align + f.size) fs

abbrev pub slice : ℕ → ℕ → Bytes → Bytes
slice off n b = take n (drop off b)

abbrev pub Sized : (String → Bytes) → List Field → Type 0
Sized v = All (λ f. length (v f.name) ≡ f.size)

drop_front : (xs ys : Bytes) → drop (length xs) (xs ++ ys) ≡ ys
drop_front [] ys = refl
drop_front (x ∷ xs) ys = drop_front xs ys

take_front : (xs ys : Bytes) → take (length xs) (xs ++ ys) ≡ xs
take_front [] ys = refl
take_front (x ∷ xs) ys = ap (λ t. x ∷ t) (take_front xs ys)

slice_middle :
    (front xs rest : Bytes) (off n : ℕ)
    → length front ≡ off
    → length xs ≡ n
    → slice off n (front ++ (xs ++ rest)) ≡ xs
slice_middle front xs rest off n at long =
    rw (sym at, sym long)
      (ap (take (length xs)) (drop_front front (xs ++ rest)) ∙ take_front xs rest)

length-zeros : (n : ℕ) → length (zeros n) ≡ n
length-zeros zero = refl
length-zeros (suc n) = omega (arith, length-zeros n)

-- Every field is found at its offset.
pub stored :
    (v : String → Bytes) (fs : List Field) (pos : ℕ) (front : Bytes)
    → length front ≡ pos
    → Sized v fs
    → All (λ p. slice p.1 p.0.size (front ++ store pos fs v) ≡ v p.0.name) (offsets pos fs)
stored v [] pos front at s = tt
stored v (f ∷ fs) pos front at (s, ss) =
    let g = zeros (gap pos f.align) in
    let rest = store (pos + gap pos f.align + f.size) fs v in
    let before : length (front ++ g) ≡ pos + gap pos f.align =
      length-append front g ∙ ap₂ (λ a b. a + b) at (length-zeros (gap pos f.align)) in
    let after : length ((front ++ g) ++ v f.name) ≡ pos + gap pos f.align + f.size =
      length-append (front ++ g) (v f.name) ∙ ap₂ (λ a b. a + b) before s in
    let joined : (front ++ g) ++ (v f.name ++ rest) ≡ front ++ (g ++ (v f.name ++ rest)) =
      append_assoc front g (v f.name ++ rest) in
    let split : ((front ++ g) ++ v f.name) ++ rest ≡ front ++ (g ++ (v f.name ++ rest)) =
      append_assoc (front ++ g) (v f.name) rest ∙ joined in
    (
      ap (slice (pos + gap pos f.align) f.size) (sym joined)
          ∙ slice_middle (front ++ g) (v f.name) rest (pos + gap pos f.align) f.size before s,
      subst
          (λ b.
            All (λ p. slice p.1 p.0.size b ≡ v p.0.name)
              (offsets (pos + gap pos f.align + f.size) fs))
          split (stored v fs (pos + gap pos f.align + f.size) ((front ++ g) ++ v f.name) after ss),
    )

take_more : (m n : ℕ) (b : Bytes) → take (m + n) b ≡ take m b ++ take n (drop m b)
take_more zero n b = let e : zero + n ≡ n = omega arith in ap (λ k. take k b) e
take_more (suc m) n [] = take_nil ℕ (suc m + n) ∙ sym (take_nil ℕ n)
take_more (suc m) n (x ∷ b) =
    let e : suc m + n ≡ suc (m + n) = omega arith in
    ap (λ k. take k (x ∷ b)) e ∙ ap (λ t. x ∷ t) (take_more m n b)

drop_nil : (n : ℕ) → drop {A = ℕ} n [] ≡ []
drop_nil zero = refl
drop_nil (suc n) = refl

drop_more : (off m : ℕ) (b : Bytes) → drop (off + m) b ≡ drop m (drop off b)
drop_more zero m b = let e : zero + m ≡ m = omega arith in ap (λ k. drop k b) e
drop_more (suc off) m [] = drop_nil (suc off + m) ∙ sym (drop_nil m)
drop_more (suc off) m (x ∷ b) =
    let e : suc off + m ≡ suc (off + m) = omega arith in
    ap (λ k. drop k (x ∷ b)) e ∙ drop_more off m b

-- Two fields side by side are one of both sizes.
pub slice_both :
    (off m n : ℕ) (b : Bytes) → slice off (m + n) b ≡ slice off m b ++ slice (off + m) n b
slice_both off m n b =
    take_more m n (drop off b) ∙ ap (λ t. slice off m b ++ take n t) (sym (drop_more off m b))
