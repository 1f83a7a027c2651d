-- ===== src/Script.antt =====
-- Straight-line code of the program that calls the system or a library step by step: which answers
-- end it, which are dropped, and what was called.
use an_app.Base.{◌≡◌, refl, ap, List, [], ◌∷◌, ◌++◌, Option, none, some, Option-cases, inl, inr}

-- A call's error, if it has one, and the world after it.
abbrev pub Sys : Type 0 → Type 0 → Type 0 → Type 0
Sys W C E = W → C → Option E × W

-- One call of a function that returns errors of type R: `must` returns at once when the call fails,
-- `note` keeps the error in the function's result and goes on, `ignore` drops it.
pub data Step (C E R : Type 0) : Type 0 where
  must : C → (E → R) → Step C E R
  note : C → (E → R) → Step C E R
  ignore : C → Step C E R

-- What a run has called, its result, and the world that it leaves.
pub record Ran (W C R : Type 0) : Type 0 where
  pub calls : List C
  pub err : Option R
  pub world : W

abbrev pub after_call : {W C R : Type 0} → C → Ran W C R → Ran W C R
after_call c r = record { calls = c ∷ r.calls; err = r.err; world = r.world }

-- The error so far is the third argument.
abbrev pub noted : {E R : Type 0} → (E → R) → Option E → Option R → Option R
noted wrap none err = err
noted wrap (some e) err = some (wrap e)

abbrev pub after_must : {W C E R : Type 0} → C → (E → R) → Option E → W → Ran W C R → Ran W C R
after_must c wrap none w rest = after_call c rest
after_must c wrap (some e) w rest = record { calls = c ∷ []; err = some (wrap e); world = w }

unfoldable pub run : {W C E R : Type 0} → Sys W C E → List (Step C E R) → Option R → W → Ran W C R
run sys [] err w = record { calls = []; err = err; world = w }
run sys (must c wrap ∷ steps) err w =
    let (e, w') = sys w c in after_must c wrap e w' (run sys steps err w')
run sys (note c wrap ∷ steps) err w =
    let (e, w') = sys w c in after_call c (run sys steps (noted wrap e err) w')
run sys (ignore c ∷ steps) err w = let (e, w') = sys w c in after_call c (run sys steps err w')

abbrev pub call_of : {C E R : Type 0} → Step C E R → C
call_of (must c wrap) = c
call_of (note c wrap) = c
call_of (ignore c) = c

-- The calls of a script, when nothing ends it.
abbrev pub calls_of : {C E R : Type 0} → List (Step C E R) → List C
calls_of [] = []
calls_of (s ∷ steps) = call_of s ∷ calls_of steps

-- p is the front of a list.
abbrev pub IsPrefix : {C : Type 0} → List C → List C → Type 0
IsPrefix {C} p all = (rest : List C) × (p ++ rest ≡ all)

IsPrefix-cons :
    {C : Type 0} (c : C) (p : List C) {all : List C} → IsPrefix p all → IsPrefix (c ∷ p) (c ∷ all)
IsPrefix-cons c p (rest, e) = (rest, ap (λ t. c ∷ t) e)

-- A run makes calls from the front of its script, in their order.
pub run-IsPrefix :
    {W C E R : Type 0} (sys : Sys W C E) (steps : List (Step C E R)) (err : Option R) (w : W)
    → IsPrefix (run sys steps err w).calls (calls_of steps)
unfolding run
run-IsPrefix sys [] err w = ([], refl)
run-IsPrefix sys (must c wrap ∷ steps) err w = elim (Option-cases (sys w c).0) [
  | inl ok ↦ rw (ok, run) (IsPrefix-cons c _ (run-IsPrefix sys steps err (sys w c).1))
  | inr (e, bad) ↦ rw (bad, run) (calls_of steps, refl)
]
run-IsPrefix sys (note c wrap ∷ steps) err w =
    IsPrefix-cons c _ (run-IsPrefix sys steps (noted wrap (sys w c).0 err) (sys w c).1)
run-IsPrefix sys (ignore c ∷ steps) err w =
    IsPrefix-cons c _ (run-IsPrefix sys steps err (sys w c).1)

-- An error so far is never forgotten.
run_keeps_error :
    {W C E R : Type 0} (sys : Sys W C E) (steps : List (Step C E R)) (e : R) (w : W)
    → (run sys steps (some e) w).err ≡ none
    → ⊥
unfolding run
run_keeps_error sys [] e w h = cc
run_keeps_error sys (must c wrap ∷ steps) e w h = elim (Option-cases (sys w c).0) [
  | inl ok ↦ run_keeps_error sys steps e (sys w c).1 (rw (ok, run) at h)
  | inr (x, bad) ↦ cc (rw (bad, run) at h)
]
run_keeps_error sys (note c wrap ∷ steps) e w h = elim (Option-cases (sys w c).0) [
  | inl ok ↦ run_keeps_error sys steps e (sys w c).1 (rw (ok, run) at h)
  | inr (x, bad) ↦ run_keeps_error sys steps (wrap x) (sys w c).1 (rw (bad, run) at h)
]
run_keeps_error sys (ignore c ∷ steps) e w h = run_keeps_error sys steps e (sys w c).1 h

-- A run without an error has made every call of its script.
pub run_complete :
    {W C E R : Type 0} (sys : Sys W C E) (steps : List (Step C E R)) (w : W)
    → (run sys steps none w).err ≡ none
    → (run sys steps none w).calls ≡ calls_of steps
unfolding run
run_complete sys [] w h = refl
run_complete sys (must c wrap ∷ steps) w h = elim (Option-cases (sys w c).0) [
  | inl ok ↦ rw (ok, run) (ap (λ t. c ∷ t) (run_complete sys steps (sys w c).1 (rw (ok, run) at h)))
  | inr (x, bad) ↦ cc (rw (bad, run) at h)
]
run_complete sys (note c wrap ∷ steps) w h = elim (Option-cases (sys w c).0) [
  | inl ok ↦ rw (ok, run) (ap (λ t. c ∷ t) (run_complete sys steps (sys w c).1 (rw (ok, run) at h)))
  | inr (x, bad) ↦ absurd (run_keeps_error sys steps (wrap x) (sys w c).1 (rw (bad, run) at h))
]
run_complete sys (ignore c ∷ steps) w h = ap (λ t. c ∷ t) (run_complete sys steps (sys w c).1 h)
