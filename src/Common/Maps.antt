-- ===== src/Common/Maps.antt =====
-- Go maps with string keys, as association lists in some iteration order. The first entry of a key
-- is its value; `put` and `remove` leave no second entry of their key.
use tunneledge.Common.Tests.{if◌then◌else◌}
use tunneledge.Common.Strings.{Text, text_eq, text_eq_iff}
use mathlib.Core.Path.{◌≡◌, refl}
use mathlib.Core.Bool.{Bool}
use mathlib.Core.Option.{Option, none, some}
use mathlib.Core.List.{List, [], ◌∷◌}
use native.Mathlib.Omega.{arith}

abbrev pub Dict {ℓ} : Type ℓ → Type ℓ
Dict V = List (Text × V)

module _ {ℓ} {V : Type ℓ} where
  -- m[k], with the missing key as `none`
  unfoldable pub get : Dict V → Text → Option V
  get [] k = none
  get ((j, v) ∷ m) k = if text_eq j k then some v else get m k

  -- delete(m, k)
  unfoldable pub remove : Dict V → Text → Dict V
  remove [] k = []
  remove ((j, v) ∷ m) k = let rest = remove m k in if text_eq j k then rest else (j, v) ∷ rest

  -- m[k] = v
  unfoldable pub put : Dict V → Text → V → Dict V
  put m k v = (k, v) ∷ remove m k

  -- for k, v := range m { if !keep(k, v) { delete(m, k) } }
  unfoldable pub retain : (Text → V → Bool) → Dict V → Dict V
  retain keep [] = []
  retain keep ((j, v) ∷ m) =
      let rest = retain keep m in if keep j v then (j, v) ∷ rest else remove rest j

  -- The keys in the order of the iteration.
  unfoldable pub keys : Dict V → List Text
  keys [] = []
  keys ((j, v) ∷ m) = j ∷ keys m

  abbrev pub kept : (Text → V → Bool) → Text → Option V → Option V
  kept keep k none = none
  kept keep k (some v) = if keep k v then some v else none

  pub get-remove :
      (m : Dict V) (k j : Text) → get (remove m k) j ≡ (if text_eq k j then none else get m j)
  unfolding get remove
  get-remove [] k j = ground arith
  get-remove ((i, v) ∷ m) k j =
      ground (arith, get-remove m k j, text_eq_iff i k, text_eq_iff i j, text_eq_iff k j)

  pub get-put :
      (m : Dict V) (k j : Text) (v : V)
      → get (put m k v) j ≡ (if text_eq k j then some v else get m j)
  unfolding get put
  get-put m k j v = ground (arith, get-remove m k j)

  pub get-retain :
      (keep : Text → V → Bool) (m : Dict V) (j : Text)
      → get (retain keep m) j ≡ kept keep j (get m j)
  unfolding get retain
  get-retain keep [] j = refl
  get-retain keep ((i, v) ∷ m) j =
      ground (arith, get-retain keep m j, get-remove (retain keep m) i j, text_eq_iff i j)

pub ruleset dict_laws = (get-remove, get-put, get-retain)
