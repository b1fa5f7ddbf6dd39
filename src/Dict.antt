-- ===== src/Dict.antt =====
-- `map[string]V` as an association list, `map[string]struct{}` as a list of its keys.
pub mod Laws
use poison_trace.Base.{
  Bool, true, false, List, [], ◌∷◌, map, any, Option, none, some, if◌then◌else◌,
}
use poison_trace.Text.{Str, str_eq}

abbrev pub Dict {ℓ} : Type ℓ → Type ℓ
Dict V = List (Str × V)

module _ {ℓ} {V : Type ℓ} where
  -- `v, ok := m[k]`.
  unfoldable pub get : Dict V → Str → Option V
  get [] k = none
  get ((j, v) ∷ m) k = if str_eq j k then some v else get m k

  -- `m[k]`, with the zero value of the type on a missing key.
  unfoldable pub get_or : Dict V → Str → V → V
  get_or [] k d = d
  get_or ((j, v) ∷ m) k d = if str_eq j k then v else get_or m k d

  -- `m[k] = v`.
  unfoldable pub put : Dict V → Str → V → Dict V
  put [] k v = (k, v) ∷ []
  put ((j, w) ∷ m) k v = if str_eq j k then (k, v) ∷ m else (j, w) ∷ put m k v

  abbrev pub keys : Dict V → List Str
  keys = map (λ e. e.0)

-- `_, ok := set[k]`.
unfoldable pub has : List Str → Str → Bool
has [] k = false
has (j ∷ s) k = if str_eq j k then true else has s k

-- `set[k] = struct{}{}`.
unfoldable pub add : List Str → Str → List Str
unfolding has
add s k = if has s k then s else k ∷ s
