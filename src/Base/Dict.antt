-- ===== src/Base/Dict.antt =====
-- Python's `dict` with text keys, in insertion order: a write to a key that is there keeps its
-- place, a new key goes to the end.
use core_py.Base.Tests.{if◌then◌else◌}
use core_py.Base.Text.{Str, str_eq, str_eq_iff, str_eq_refl}
use mathlib.Core.Path.{◌≡◌, refl}
use mathlib.Core.Option.{Option, none, some}
use mathlib.Core.Bool.{Bool, true, false}
use mathlib.Core.List.{List, [], ◌∷◌}
use native.Mathlib.Omega.{arith}

abbrev pub Dict {ℓ} : Type ℓ → Type ℓ
Dict V = List (Str × V)

module _ {ℓ} {V : Type ℓ} where
  -- d.get(k)
  unfoldable pub get : Str → Dict V → Option V
  get k [] = none
  get k ((j, v) ∷ d) = if str_eq j k then some v else get k d

  -- d[k] = v
  unfoldable pub put : Str → V → Dict V → Dict V
  put k v [] = (k, v) ∷ []
  put k v ((j, w) ∷ d) = if str_eq j k then (j, v) ∷ d else (j, w) ∷ put k v d

  -- d.pop(k, None)
  unfoldable pub remove : Str → Dict V → Dict V
  remove k [] = []
  remove k ((j, w) ∷ d) = let rest = remove k d in if str_eq j k then rest else (j, w) ∷ rest

  -- d.update(e)
  unfoldable pub update : Dict V → Dict V → Dict V
  unfolding put
  update d [] = d
  update d ((k, v) ∷ e) = update (put k v d) e

  -- k in d
  abbrev pub has : Str → Dict V → Bool
  has k d = elim (get k d) [ none ↦ false | some _ ↦ true ]

  pub get-put :
      (k j : Str) (v : V) (d : Dict V)
      → get j (put k v d) ≡ (if str_eq k j then some v else get j d)
  unfolding get put
  get-put k j v [] = refl
  get-put k j v ((i, w) ∷ d) =
      ground (arith, str_eq_iff k j, str_eq_iff i k, str_eq_iff i j, get-put k j v d)

  pub get-put_self : (k : Str) (v : V) (d : Dict V) → get k (put k v d) ≡ some v
  get-put_self k v d = simp (get-put, str_eq_refl)

  pub get-put_ne :
      (k j : Str) (v : V) (d : Dict V) → str_eq k j ≡ false → get j (put k v d) ≡ get j d
  get-put_ne k j v d h = simp (get-put, h)

  pub get-remove :
      (k j : Str) (d : Dict V) → get j (remove k d) ≡ (if str_eq k j then none else get j d)
  unfolding get remove
  get-remove k j [] = ground arith
  get-remove k j ((i, w) ∷ d) =
      ground (arith, str_eq_iff k j, str_eq_iff i k, str_eq_iff i j, get-remove k j d)
