-- ===== src/CollList/Range/Bounds.antt =====
-- engines/default/coll_list.c: which indices `adjust_list_range` selects.
use arcus_memcached.Prelude.{ℕ, ◌≤◌, ◌<◌, ◌⊎◌, Option, none, some, arith, ℤ, pos, negsuc}
use arcus_memcached.CollList.Range.{adjust_list_range}

-- The order of the list's own index `i` and a signed index.
abbrev pub Below : ℕ → ℤ → Type 0
Below i (pos n) = i ≤ n
Below i (negsuc n) = ⊥

abbrev pub Above : ℕ → ℤ → Type 0
Above i (pos n) = n ≤ i
Above i (negsuc n) = Unit

-- `i` lies in the range from one signed index to the other, in either order.
abbrev pub InRange : ℕ → ℤ → ℤ → Type 0
InRange i f t = (Above i f × Below i t) ⊎ (Above i t × Below i f)

-- What a call selects: the indices of the answer, none where it has none.
abbrev pub Selected : ℕ → Option (ℕ × ℕ) → Type 0
Selected i none = ⊥
Selected i (some (f, t)) = ((f ≤ i) × (i ≤ t)) ⊎ ((t ≤ i) × (i ≤ f))

abbrev pub InBounds : ℕ → Option (ℕ × ℕ) → Type 0
InBounds ccnt none = Unit
InBounds ccnt (some (f, t)) = (f < ccnt) × (t < ccnt)

-- The indices of the answer are those of elements.
pub adjust_list_range-InBounds : (ccnt : ℕ) (f t : ℤ) → InBounds ccnt (adjust_list_range ccnt f t)
unfolding adjust_list_range
adjust_list_range-InBounds ccnt (pos f) (pos t) = ground arith
adjust_list_range-InBounds ccnt (negsuc f) (pos t) = ground arith
adjust_list_range-InBounds ccnt (pos f) (negsuc t) = ground arith
adjust_list_range-InBounds ccnt (negsuc f) (negsuc t) = ground arith
