-- ===== src/Prelude/Dict.antt =====
-- Python's `dict` with text keys: insertion order is kept, and a write to a key keeps its place.
use Prim.Native.String.{String}
use mathlib.Core.Path.{◌≡◌, refl, sym, ap, ◌∙◌}
use mathlib.Core.Option.{Option, none, some}
use mathlib.Core.List.{List, [], ◌∷◌}
use native.Mathlib.Omega.{arith}
use text.Mathlib.Text.{◌==◌ as str_eq}
use text.Mathlib.TextEquality.{eq_iff}
use mathlib.Core.Logic.{inl, inr}
use mathlib.Core.Bool.{false}
use netix_backend.Prelude.Tests.{Bool-cases, if◌then◌else◌}

abbrev pub Dict {ℓ} : Type ℓ → Type ℓ
Dict V = List (String × V)

abbrev pub keys {ℓ} : {V : Type ℓ} → Dict V → List String
keys [] = []
keys ((k, v) ∷ d) = k ∷ keys d

module _ {ℓ} {V : Type ℓ} where
  -- d.get(k)
  unfoldable pub get : Dict V → String → Option V
  get [] k = none
  get ((j, v) ∷ d) k = if str_eq j k then some v else get d k

  -- d[k] = v
  unfoldable pub set : Dict V → String → V → Dict V
  set [] k v = (k, v) ∷ []
  set ((j, w) ∷ d) k v = if str_eq j k then (j, v) ∷ d else (j, w) ∷ set d k v

  -- d.pop(k, None)
  unfoldable pub pop : Dict V → String → Dict V
  pop [] k = []
  pop ((j, w) ∷ d) k = let rest = pop d k in if str_eq j k then rest else (j, w) ∷ rest

  -- d.update(e)
  unfoldable pub update : Dict V → Dict V → Dict V
  update d [] = d
  update d ((k, v) ∷ e) = update (set d k v) e

  pub get-set :
      (d : Dict V) (k j : String) (v : V)
      → get (set d k v) j ≡ (if str_eq k j then some v else get d j)
  unfolding get set
  get-set [] k j v = refl
  get-set ((i, w) ∷ d) k j v = ground (arith, eq_iff k j, eq_iff i k, eq_iff i j, get-set d k j v)

  pub get-pop :
      (d : Dict V) (k j : String) → get (pop d k) j ≡ (if str_eq k j then none else get d j)
  unfolding get pop
  get-pop [] k j = ground arith
  get-pop ((i, w) ∷ d) k j = ground (arith, eq_iff k j, eq_iff i k, eq_iff i j, get-pop d k j)

  -- A key that the second dictionary lacks keeps its value.
  pub get-update : (d e : Dict V) (k : String) → get e k ≡ none → get (update d e) k ≡ get d k
  unfolding get update
  get-update d [] k h = refl
  get-update d ((j, v) ∷ e) k h = elim (Bool-cases (str_eq j k)) [
    | inl hit ↦ absurd (ground arith)
    | inr miss ↦ get-update (set d j v) e k (ground arith) ∙ ground (arith, get-set d j k v)
  ]

pub ruleset dict_laws = (get-set, get-pop)

-- No key stands twice.
module _ {ℓ} {V : Type ℓ} where
  abbrev pub IsDistinct : Dict V → Type ℓ
  IsDistinct [] = Unit
  IsDistinct ((k, v) ∷ d) = (get d k ≡ none) × IsDistinct d

  pub set-IsDistinct : (d : Dict V) (k : String) (v : V) → IsDistinct d → IsDistinct (set d k v)
  unfolding set get
  set-IsDistinct [] k v h = (refl, tt)
  set-IsDistinct ((j, w) ∷ d) k v (fresh, h) = elim (Bool-cases (str_eq j k)) [
    | inl hit ↦ rw hit (fresh, h)
    | inr miss ↦ rw miss (other miss, set-IsDistinct d k v h)
  ]
    where
      other : str_eq j k ≡ false → get (set d k v) j ≡ none
      other miss = rw get-set (ground (arith, eq_iff j k, eq_iff k j))

  -- A key of the second dictionary takes its value.
  pub get-update-some :
      (d e : Dict V) (k : String) (v : V)
      → IsDistinct e
      → get e k ≡ some v
      → get (update d e) k ≡ some v
  unfolding get update
  get-update-some d [] k v h g = absurd (cc)
  get-update-some d ((j, w) ∷ e) k v (fresh, h) g = elim (Bool-cases (str_eq j k)) [
    | inl hit ↦
        let same : j ≡ k = (eq_iff j k).0 hit in
        get-update (set d j w) e k (ap (get e) (sym same) ∙ fresh) ∙ ground (arith, get-set d j k w)
    | inr miss ↦ get-update-some (set d j w) e k v h (ground arith)
  ]
