-- ===== src/Pipeline/Core/Reasons.antt =====
-- Merged reasons and the order of the reasons.
use mathlib.Core.List.{Permᴰ}
use poison_trace.Base.{
  List, [], ◌∷◌, foldl, foldl-perm, if◌then◌else◌, ◌≡◌, refl, arith, ap, ◌∙◌, sym,
}
use poison_trace.Text.{Str, codes, str_lt, is_empty, join}
use poison_trace.Text.Equality.{str_eq_iff}
use poison_trace.Text.Sort.{sort_by, insert_by, insert_comm}
use poison_trace.Text.Trim.{trim_space}
use poison_trace.Dict.{has, add}
use poison_trace.Dict.Laws.{has-of_eq}
use poison_trace.Pipeline.Core.{merge_reasons, add_reason}

has-insert : (x : Str) (l : List Str) (k : Str) → has (insert_by str_lt x l) k ≡ has (x ∷ l) k
unfolding has insert_by
has-insert x [] k = refl
has-insert x (y ∷ l) k = ground (arith, has-insert x l k)

has-sort : (l : List Str) (k : Str) → has (sort_by str_lt l) k ≡ has l k
unfolding has sort_by
has-sort [] k = refl
has-sort (x ∷ l) k = has-insert x (sort_by str_lt l) k ∙ ground (arith, has-sort l k)

-- A set that is kept sorted.
add_sorted : List Str → Str → List Str
add_sorted l reason =
    let trimmed = trim_space reason in
    if is_empty trimmed then l else if has l trimmed then l else insert_by str_lt trimmed l

sort-add_reason :
    (l : List Str) (r : Str) → sort_by str_lt (add_reason l r) ≡ add_sorted (sort_by str_lt l) r
unfolding add_reason add_sorted add sort_by
sort-add_reason l r = ground (arith, has-sort l (trim_space r))

sort-fold :
    (rs l : List Str)
    → sort_by str_lt (foldl add_reason l rs) ≡ foldl add_sorted (sort_by str_lt l) rs
sort-fold [] l = refl
sort-fold (r ∷ rs) l =
    sort-fold rs (add_reason l r) ∙ ap (λ m. foldl add_sorted m rs) (sort-add_reason l r)

insert_sorted : Str → List Str → List Str
insert_sorted x l = if is_empty x then l else if has l x then l else insert_by str_lt x l

insert_sorted_comm :
    (x y : Str) (l : List Str)
    → insert_sorted y (insert_sorted x l) ≡ insert_sorted x (insert_sorted y l)
unfolding insert_sorted has
insert_sorted_comm x y l = ground (
  arith,
  has-insert x l y,
  has-insert y l x,
  insert_comm x y l,
  str_eq_iff x y,
  str_eq_iff y x,
  has-of_eq l x y,
)

insert_sorted_again :
    (x : Str) (l : List Str) → insert_sorted x (insert_sorted x l) ≡ insert_sorted x l
unfolding insert_sorted has
insert_sorted_again x l = ground (arith, has-insert x l x, str_eq_iff x x)

merged : (rs : List Str) → merge_reasons rs ≡ join (codes ";") (foldl add_sorted [] rs)
unfolding merge_reasons sort_by
merged rs = ap (join (codes ";")) (sort-fold rs [])

-- The merged text is the same for every order of the reasons.
pub merge_reasons-perm : {rs rs' : List Str} → Permᴰ rs rs' → merge_reasons rs ≡ merge_reasons rs'
unfolding add_sorted
merge_reasons-perm {rs} {rs'} h =
    merged rs
    ∙ ap (join (codes ";")) (
        foldl-perm add_sorted
          (λ l x y.
            unfold add_sorted insert_sorted in insert_sorted_comm (trim_space x) (trim_space y) l)
          h [])
    ∙ sym (merged rs')

add_sorted_again : (l : List Str) (r : Str) → add_sorted (add_sorted l r) r ≡ add_sorted l r
unfolding add_sorted insert_sorted
add_sorted_again l r = insert_sorted_again (trim_space r) l

-- A reason that is given twice in a row at the front merges as one.
pub merge_reasons_again :
    (r : Str) (rs : List Str) → merge_reasons (r ∷ r ∷ rs) ≡ merge_reasons (r ∷ rs)
merge_reasons_again r rs =
    merged (r ∷ r ∷ rs)
    ∙ ap (λ l. join (codes ";") (foldl add_sorted l rs)) (add_sorted_again [] r)
    ∙ sym (merged (r ∷ rs))
