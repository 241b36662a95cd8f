-- ===== src/Base/Ring.antt =====
-- A C ring buffer written at `head` that keeps its `count` newest entries, as the selector's change
-- ring and the headroom ring do. `view` is the queue that it holds, oldest entry first.
use native.Mathlib.Nat.{mod-eq_of_lt, mod-eq-sub-mod}
use native.Mathlib.Decide.{dec_lt}
use waybeam_wfb_ng.Base.{
  ℕ, zero, suc, ◌+◌, ◌-◌, ◌%◌, ◌≤◌, ◌<◌, ◌≡◌, ◌≢◌, refl, ap₂, List, [], ◌∷◌, ◌++◌, get_or, set,
  length, arith,
}

-- `(head - back + size) % size`; the C sum is the same number, since `back` is at most `size`.
unfoldable pub back_index : ℕ → ℕ → ℕ → ℕ
back_index size head back = (head + size - back) % size

pub back_index_lt : (size head back : ℕ) → 0 < size → back_index size head back < size
unfolding back_index
back_index_lt size head back h = omega arith

mod_wrap : (x n : ℕ) → n ≤ x → x < n + n → x % n ≡ x - n
mod_wrap x n h k =
    omega (arith, mod-eq-sub-mod {n = x} {m = n} h, mod-eq_of_lt {n = x - n} {m = n} (omega arith))

back_index_in :
    (size head back : ℕ) → head < size → back ≤ head → back_index size head back ≡ head - back
unfolding back_index
back_index_in size head back h b =
    omega (arith, mod_wrap (head + size - back) size (omega arith) (omega arith))

back_index_round :
    (size head back : ℕ)
    → head < back
    → back ≤ size
    → back_index size head back ≡ head + size - back
unfolding back_index
back_index_round size head back h b = mod-eq_of_lt (omega arith)

next_in : (size head : ℕ) → suc head < size → (head + 1) % size ≡ suc head
next_in size head h = omega (arith, mod-eq_of_lt {n = head + 1} {m = size} (omega arith))

next_round : (size head : ℕ) → suc head ≡ size → (head + 1) % size ≡ 0
next_round size head h = omega (arith, mod_wrap (head + 1) size (omega arith) (omega arith))

-- From the next head, one entry further back is the same slot.
back_index-next :
    (size head back : ℕ)
    → head < size
    → back < size
    → back_index size ((head + 1) % size) (suc back) ≡ back_index size head back
back_index-next size head back h b = elim (dec_lt (suc head) size) [
  | yes p ↦ elim (dec_lt head back) [
    | yes q ↦ rw (next_in size head p) (
        omega (
          arith,
          back_index_round size (suc head) (suc back) (omega arith) (omega arith),
          back_index_round size head back q (omega arith),
        ))
    | no q ↦ rw (next_in size head p) (
        omega (
          arith,
          back_index_in size (suc head) (suc back) (omega arith) (omega arith),
          back_index_in size head back h (omega arith),
        ))
  ]
  | no p ↦ rw (next_round size head (omega arith)) (
      omega (
        arith,
        back_index_round size 0 (suc back) (omega arith) (omega arith),
        back_index_in size head back h (omega arith),
      ))
]

back_index-ne :
    (size head back : ℕ) → head < size → 0 < back → back < size → head ≢ back_index size head back
back_index-ne size head back h b c = elim (dec_lt head back) [
  | yes q ↦ omega (arith, back_index_round size head back q (omega arith))
  | no q ↦ omega (arith, back_index_in size head back h (omega arith))
]

back_index_zero : (size head : ℕ) → head < size → back_index size head 0 ≡ head
back_index_zero size head h = omega (arith, back_index_in size head 0 h (omega arith))

get_or-set_self {ℓ} :
    {A : Type ℓ} (xs : List A) (i : ℕ) (v d : A) → i < length xs → get_or (set xs i v) i d ≡ v
get_or-set_self [] i v d h = elim h [ ]
get_or-set_self (x ∷ xs) zero v d h = refl
get_or-set_self (x ∷ xs) (suc i) v d h = get_or-set_self xs i v d (omega arith)

get_or-set_ne {ℓ} :
    {A : Type ℓ} (xs : List A) (i j : ℕ) (v d : A) → i ≢ j → get_or (set xs i v) j d ≡ get_or xs j d
get_or-set_ne [] i j v d h = refl
get_or-set_ne (x ∷ xs) zero zero v d h = absurd (h refl)
get_or-set_ne (x ∷ xs) zero (suc j) v d h = refl
get_or-set_ne (x ∷ xs) (suc i) zero v d h = refl
get_or-set_ne (x ∷ xs) (suc i) (suc j) v d h = get_or-set_ne xs i j v d (omega arith)

module _ {ℓ} {A : Type ℓ} (d : A) where
  unfoldable pub view : List A → ℕ → ℕ → ℕ → List A
  view buf size head zero = []
  view buf size head (suc n) = get_or buf (back_index size head (suc n)) d ∷ view buf size head n

  pub length-view : (buf : List A) (size head n : ℕ) → length (view buf size head n) ≡ n
  unfolding view
  length-view buf size head zero = refl
  length-view buf size head (suc n) = omega (arith, length-view buf size head n)

  -- Writing at the head and moving it on puts the entry at the young end of the queue.
  pub view-push :
      (buf : List A) (size head : ℕ) (v : A) (n : ℕ)
      → length buf ≡ size
      → head < size
      → n < size
      → view (set buf head v) size ((head + 1) % size) (suc n) ≡ view buf size head n ++ (v ∷ [])
  unfolding view
  view-push buf size head v zero l h p =
      ap₂ ◌∷◌
        (rw (back_index-next size head 0 h p, back_index_zero size head h)
          (get_or-set_self buf head v d (omega arith)))
        refl
  view-push buf size head v (suc n) l h p =
      ap₂ ◌∷◌
        (rw (back_index-next size head (suc n) h p) (
          get_or-set_ne buf head (back_index size head (suc n)) v d
            (back_index-ne size head (suc n) h (omega arith) p)))
        (view-push buf size head v n l h (omega arith))
