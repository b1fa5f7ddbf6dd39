-- ===== src/Dict/Laws.antt =====
-- What a map or a set holds after a write.
use poison_trace.Base.{
  List, [], ◌∷◌, ◌||◌, some, ◌≡◌, inl, inr, refl, arith, if◌then◌else◌, All, Bool-cases,
}
use poison_trace.Text.{Str, str_eq}
use poison_trace.Text.Equality.{str_eq_iff}
use poison_trace.Dict.{Dict, get, get_or, put, has, add}

module _ {ℓ} {V : Type ℓ} where
  pub get-put :
      (m : Dict V) (k : Str) (v : V) (j : Str)
      → get (put m k v) j ≡ (if str_eq k j then some v else get m j)
  unfolding get put
  get-put [] k v j = refl
  get-put ((i, w) ∷ m) k v j =
      ground (arith, str_eq_iff i k, str_eq_iff k j, str_eq_iff i j, get-put m k v j)

  pub get_or-put :
      (m : Dict V) (k : Str) (v : V) (j : Str) (d : V)
      → get_or (put m k v) j d ≡ (if str_eq k j then v else get_or m j d)
  unfolding get_or put
  get_or-put [] k v j d = refl
  get_or-put ((i, w) ∷ m) k v j d =
      ground (arith, str_eq_iff i k, str_eq_iff k j, str_eq_iff i j, get_or-put m k v j d)

  -- What holds of all values and of a written value holds of all values after the write.
  pub All-put {κ} :
      (P : V → Type κ) (m : Dict V) (k : Str) (v : V)
      → All (λ e. P e.1) m
      → P v
      → All (λ e. P e.1) (put m k v)
  unfolding put
  All-put P [] k v h p = (p, tt)
  All-put P ((j, w) ∷ m) k v h p = elim (Bool-cases (str_eq j k)) [
    | inl e ↦ rw e (p, h.1)
    | inr e ↦ rw e (h.0, All-put P m k v h.1 p)
  ]

  pub All-get_or {κ} :
      (P : V → Type κ) (m : Dict V) (k : Str) (d : V) → All (λ e. P e.1) m → P d → P (get_or m k d)
  unfolding get_or
  All-get_or P [] k d h p = p
  All-get_or P ((j, w) ∷ m) k d h p = elim (Bool-cases (str_eq j k)) [
    | inl e ↦ rw e h.0
    | inr e ↦ rw e (All-get_or P m k d h.1 p)
  ]

pub has-of_eq : (s : List Str) (k j : Str) → k ≡ j → has s k ≡ has s j
has-of_eq s k j e = cc

pub has-add : (s : List Str) (k j : Str) → has (add s k) j ≡ (str_eq k j || has s j)
unfolding has add
has-add s k j = ground (arith, str_eq_iff k j, has-of_eq s k j)
