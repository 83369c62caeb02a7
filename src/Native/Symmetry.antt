-- ===== src/Native/Symmetry.antt =====
-- The distances are symmetric (`src/native_vector.h`).
use vsql_vector.Base.{ℕ, zero, suc, ◌≡◌, refl, List, ap, ◌∙◌, get_or}
use vsql_vector.Native.{
  Data, Arithmetic, sum_pairs, dist_l1, dist_squared_l2, dist_l2, dist_cosine, dist_inner_product,
}

-- What holds of IEEE arithmetic, as far as symmetry needs it: a product does not depend on the order,
-- nor do the absolute value and the square of a difference.
pub record IsSymmetric (a : Arithmetic) : Type 0 where
  pub mul_comm : (x y : ℕ) → a.mul x y ≡ a.mul y x
  pub mul_d_comm : (x y : a.Double) → a.mul_d x y ≡ a.mul_d y x
  pub abs_sub : (x y : ℕ) → a.abs (a.sub x y) ≡ a.abs (a.sub y x)
  pub square_sub :
      (x y : a.Double) → a.mul_d (a.sub_d x y) (a.sub_d x y) ≡ a.mul_d (a.sub_d y x) (a.sub_d y x)

module _ (a : Arithmetic) where
  sum_pairs_flip :
      (f g : ℕ → ℕ → a.Double)
      → ((x y : ℕ) → f x y ≡ g y x)
      → (r : a.Double) (i n : ℕ) (xs ys : List ℕ)
      → sum_pairs a f r i n xs ys ≡ sum_pairs a g r i n ys xs
  unfolding sum_pairs
  sum_pairs_flip f g h r i zero xs ys = refl
  sum_pairs_flip f g h r i (suc n) xs ys =
      let x = get_or xs i 0 in
      let y = get_or ys i 0 in
      ap (λ t. sum_pairs a f (a.add_d r t) (suc i) n xs ys) (h x y)
      ∙ sum_pairs_flip f g h (a.add_d r (g y x)) (suc i) n xs ys

  module _ (s : IsSymmetric a) (v1 v2 : Data) (same : v1.dim ≡ v2.dim) where
    -- The sum of all pairs, over the dimension that the vectors share.
    sum_flip :
        (f g : ℕ → ℕ → a.Double)
        → ((x y : ℕ) → f x y ≡ g y x)
        → sum_pairs a f a.zero_d 0 v1.dim v1.floats v2.floats
          ≡ sum_pairs a g a.zero_d 0 v2.dim v2.floats v1.floats
    sum_flip f g h =
        sum_pairs_flip f g h a.zero_d 0 v1.dim v1.floats v2.floats
        ∙ ap (λ n. sum_pairs a g a.zero_d 0 n v2.floats v1.floats) same

    squared_comm : dist_squared_l2 a v1 v2 ≡ dist_squared_l2 a v2 v1
    unfolding dist_squared_l2
    squared_comm = sum_flip _ _ λ x y. s.square_sub (a.widen x) (a.widen y)

    cosine_comm : dist_cosine a v1 v2 ≡ dist_cosine a v2 v1
    unfolding dist_cosine
    cosine_comm =
        let dot =
          sum_flip (λ x y. a.mul_d (a.widen x) (a.widen y)) (λ x y. a.mul_d (a.widen x) (a.widen y))
            λ x y. s.mul_d_comm (a.widen x) (a.widen y) in
        let first =
          sum_flip (λ x y. a.mul_d (a.widen x) (a.widen x)) (λ x y. a.mul_d (a.widen y) (a.widen y))
            λ x y. refl in
        let second =
          sum_flip (λ x y. a.mul_d (a.widen y) (a.widen y)) (λ x y. a.mul_d (a.widen x) (a.widen x))
            λ x y. refl in
        let sum =
          λ (term : ℕ → ℕ → a.Double). sum_pairs a term a.zero_d 0 v2.dim v2.floats v1.floats in
        let product =
          s.mul_d_comm (a.sqrt_d (sum λ x y. a.mul_d (a.widen y) (a.widen y)))
            (a.sqrt_d (sum λ x y. a.mul_d (a.widen x) (a.widen x))) in
        rw (dot, first, second, product) refl

    -- Where products do not depend on their order, nor absolute values and squares of
    -- differences, the L1, the L2, the cosine and the inner product distance of two vectors of
    -- the same dimension do not depend on the order of the vectors.
    pub distances_comm :
        (dist_l1 a v1 v2 ≡ dist_l1 a v2 v1)
        × (dist_l2 a v1 v2 ≡ dist_l2 a v2 v1)
        × (dist_cosine a v1 v2 ≡ dist_cosine a v2 v1)
        × (dist_inner_product a v1 v2 ≡ dist_inner_product a v2 v1)
    unfolding dist_l1 dist_l2 dist_inner_product
    distances_comm = (
      sum_flip _ _ λ x y. ap a.widen (s.abs_sub x y),
      ap a.sqrt_d squared_comm,
      cosine_comm,
      sum_flip _ _ λ x y. ap a.widen (s.mul_comm x y),
    )
