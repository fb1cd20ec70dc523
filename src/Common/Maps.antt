-- ===== src/Common/Maps.antt =====
-- Maps as functions: `SecondaryMap` and the slots of a `SlotMap`.
use Prim.Native.Nat.{ℕ}
use mathlib.Core.Bool.{Bool, true, false}
use mathlib.Core.List.{List, [], ◌∷◌}
use mathlib.Core.Option.{Option, none, some}
use mathlib.Core.Path.{◌≡◌, subst}
use mathlib.Core.Logic.{inl, inr}
use native.Mathlib.Omega.{arith}
use pirx.Common.Tests.{◌==◌, ==_iff, Bool-cases, if◌then◌else◌}
use pirx.Common.Lists.{All}

-- A key of the arena, as its 64-bit word. Nothing is ever removed from the arena, so every key in
-- circulation is live, and a map that is keyed by it is a plain partial function.
abbrev pub OpKey : Type 0
OpKey = ℕ

abbrev pub SecondaryMap {ℓ} : Type ℓ → Type ℓ
SecondaryMap V = OpKey → Option V

-- `insert(key, value)`.
abbrev pub update {ℓ} : {V : Type ℓ} → SecondaryMap V → OpKey → V → SecondaryMap V
update m k v j = if k == j then some v else m j

-- `if let Some(v) = get_mut(key) { *v = f(v) }`.
abbrev pub modify {ℓ} : {V : Type ℓ} → SecondaryMap V → OpKey → (V → V) → SecondaryMap V
modify m k f j = elim (m j) [ none ↦ none | some v ↦ some (if k == j then f v else v) ]

abbrev pub get_or {ℓ} : {V : Type ℓ} → Option V → V → V
get_or none d = d
get_or (some v) d = v

abbrev pub mem : ℕ → List ℕ → Bool
mem a [] = false
mem a (x ∷ xs) = if x == a then true else mem a xs

-- What holds of all entries holds of a member.
pub All-mem {ℓ} : (P : ℕ → Type ℓ) (a : ℕ) (xs : List ℕ) → All P xs → mem a xs ≡ true → P a
All-mem P a [] h m = cc
All-mem P a (x ∷ xs) h m = elim (Bool-cases (x == a)) [
  | inl same ↦ subst P ((==_iff x a).0 same) h.0
  | inr other ↦ All-mem P a xs h.1 (ground arith)
]
