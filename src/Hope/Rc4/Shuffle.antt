-- ===== src/Hope/Rc4/Shuffle.antt =====
-- The state array as a permutation of the bytes.
use lemoniscate.Common.{
  ℕ, zero, suc, ◌+◌, ◌≤◌, ◌<◌, ◌≡◌, refl, ap, ◌∙◌, arith, ◌==◌, if◌then◌else◌, all_below,
  all_below-at, ==→eq,
}
use lemoniscate.Common.{List, [], ◌∷◌, length, get_or, set, length-set}
use lemoniscate.Hope.Rc4.{Rc4, swap, count_up, schedule, rc4_init, next, rc4_process}

abbrev occurs : ℕ → ℕ → ℕ
occurs v x = if v == x then 1 else 0

-- How often a value stands in the array.
unfoldable pub count : ℕ → List ℕ → ℕ
count v [] = 0
count v (x ∷ xs) = occurs v x + count v xs

-- Each of the 256 bytes once.
pub record IsShuffle (s : List ℕ) : Type 0 where
  pub full : length s ≡ 256
  pub once : (v : ℕ) → v < 256 → count v s ≡ 1

count-set :
    (v : ℕ) (s : List ℕ) (i x : ℕ)
    → i < length s
    → count v (set s i x) + occurs v (get_or s i 0) ≡ count v s + occurs v x
unfolding count
count-set v [] i x h = absurd (omega arith)
count-set v (y ∷ s) zero x h = omega arith
count-set v (y ∷ s) (suc i) x h = omega (arith, count-set v s i x (omega arith))

-- After the first store the other place still holds its value.
get_or-set : (s : List ℕ) (i j : ℕ) → get_or (set s i (get_or s j 0)) j 0 ≡ get_or s j 0
get_or-set [] i j = refl
get_or-set (y ∷ s) zero zero = refl
get_or-set (y ∷ s) zero (suc j) = refl
get_or-set (y ∷ s) (suc i) zero = refl
get_or-set (y ∷ s) (suc i) (suc j) = get_or-set s i j

swap-count :
    (v : ℕ) (s : List ℕ) (i j : ℕ) → i < length s → j < length s → count v (swap s i j) ≡ count v s
unfolding swap
swap-count v s i j hi hj =
    let a = count-set v s i (get_or s j 0) hi in
    let b =
      count-set v (set s i (get_or s j 0)) j (get_or s i 0)
        (omega (arith, length-set s i (get_or s j 0))) in
    omega (arith, a, b, ap (occurs v) (get_or-set s i j))

length-swap : (s : List ℕ) (i j : ℕ) → length (swap s i j) ≡ length s
unfolding swap
length-swap s i j =
    length-set (set s i (get_or s j 0)) j (get_or s i 0) ∙ length-set s i (get_or s j 0)

swap-IsShuffle : (s : List ℕ) (i j : ℕ) → i < 256 → j < 256 → IsShuffle s → IsShuffle (swap s i j)
swap-IsShuffle s i j hi hj w = record {
  full = length-swap s i j ∙ w.full;
  once = λ v h. swap-count v s i j (omega (arith, w.full)) (omega (arith, w.full)) ∙ w.once v h;
}

schedule-IsShuffle :
    (n i j : ℕ) (key s : List ℕ) → i + n ≤ 256 → IsShuffle s → IsShuffle (schedule n i j key s)
unfolding schedule
schedule-IsShuffle zero i j key s h w = w
schedule-IsShuffle (suc n) i j key s h w =
    schedule-IsShuffle n (i + 1) _ key _ (omega arith)
      (swap-IsShuffle s i _ (omega arith) (omega arith) w)

count_up-IsShuffle : IsShuffle (count_up 256 0)
unfolding count_up count all_below
count_up-IsShuffle = record {
  full = refl;
  once = λ v h.
      ==→eq (count v (count_up 256 0)) 1
        (all_below-at 256 (λ x. count x (count_up 256 0) == 1) v refl h);
}

rc4_init-IsShuffle : (key : List ℕ) → IsShuffle (rc4_init key).s
unfolding rc4_init
rc4_init-IsShuffle key =
    schedule-IsShuffle 256 0 0 key (count_up 256 0) (omega arith) count_up-IsShuffle

rc4_process-IsShuffle :
    (rc4 : Rc4) (bytes : List ℕ) → IsShuffle rc4.s → IsShuffle (rc4_process rc4 bytes).0.s
unfolding rc4_process next
rc4_process-IsShuffle rc4 [] w = w
rc4_process-IsShuffle rc4 (b ∷ bytes) w =
    rc4_process-IsShuffle (next rc4) bytes (swap-IsShuffle rc4.s _ _ (omega arith) (omega arith) w)

-- However many bytes a cipher has processed since it was set up with a key, its array holds each of
-- the 256 bytes exactly once: no index reaches outside it and no byte is lost.
pub rc4_process-rc4_init : (key bytes : List ℕ) → IsShuffle (rc4_process (rc4_init key) bytes).0.s
rc4_process-rc4_init key bytes = rc4_process-IsShuffle (rc4_init key) bytes (rc4_init-IsShuffle key)
