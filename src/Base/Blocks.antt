-- ===== src/Base/Blocks.antt =====
-- What a run of stores leaves, read as a prefix of the memory.
use Prim.Native.Nat.{ℕ, zero, suc, ◌+◌, ◌-◌, ◌≤◌, ◌<◌}
use mathlib.Core.Path.{◌≡◌, refl, sym, ap, ap₂, ◌∙◌}
use mathlib.Core.List.{List, [], ◌∷◌, ◌++◌}
use native.Mathlib.Omega.{arith}
use cbasis.Base.Lists.{length, get_or, take, drop, length-take, length-append, get_elem?-eq-get_or}
use cbasis.Base.Memory.{HasAt, Wrote}

-- Lists of one length that agree at every index are equal.
pub get_or_ext {ℓ} :
    {A : Type ℓ} (d : A) (xs ys : List A)
    → length xs ≡ length ys
    → ((i : ℕ) → i < length xs → get_or xs i d ≡ get_or ys i d)
    → xs ≡ ys
get_or_ext d [] [] e h = refl
get_or_ext d [] (y ∷ ys) e h = absurd (omega arith)
get_or_ext d (x ∷ xs) [] e h = absurd (omega arith)
get_or_ext d (x ∷ xs) (y ∷ ys) e h =
    ap₂ ◌∷◌ (h 0 (omega arith)) (get_or_ext d xs ys (omega arith) (λ i p. h (suc i) (omega arith)))

module _ {ℓ} {A : Type ℓ} where
  pub get_or-take : (n i : ℕ) (xs : List A) (d : A) → i < n → get_or (take n xs) i d ≡ get_or xs i d
  get_or-take zero i xs d h = absurd (omega arith)
  get_or-take (suc n) i [] d h = refl
  get_or-take (suc n) zero (x ∷ xs) d h = refl
  get_or-take (suc n) (suc i) (x ∷ xs) d h = get_or-take n i xs d (omega arith)

  pub get_or-append_left :
      (xs ys : List A) (i : ℕ) (d : A) → i < length xs → get_or (xs ++ ys) i d ≡ get_or xs i d
  get_or-append_left [] ys i d h = absurd (omega arith)
  get_or-append_left (x ∷ xs) ys zero d h = refl
  get_or-append_left (x ∷ xs) ys (suc i) d h = get_or-append_left xs ys i d (omega arith)

  pub get_or-append_right :
      (xs ys : List A) (i j : ℕ) (d : A) → i ≡ length xs + j → get_or (xs ++ ys) i d ≡ get_or ys j d
  get_or-append_right [] ys i j d e = ap (λ k. get_or ys k d) (omega arith)
  get_or-append_right (x ∷ xs) ys zero j d e = absurd (omega arith)
  get_or-append_right (x ∷ xs) ys (suc i) j d e = get_or-append_right xs ys i j d (omega arith)

-- The bytes that stand from `i` on, by index.
pub HasAt-get_or :
    (buf : List ℕ) (i : ℕ) (bs : List ℕ) (j : ℕ)
    → HasAt buf i bs
    → j < length bs
    → i + length bs ≤ length buf
    → get_or buf (i + j) 0 ≡ get_or bs j 0
HasAt-get_or buf i [] j h lt room = absurd (omega arith)
HasAt-get_or buf i (b ∷ bs) zero h lt room =
    ground (arith, get_elem?-eq-get_or buf i 0, ap (λ (k : ℕ). get_or buf k 0) (e i))
  where
    e : (i : ℕ) → i + zero ≡ i
    e i = omega arith
HasAt-get_or buf i (b ∷ bs) (suc j) h lt room =
    ap (λ (k : ℕ). get_or buf k 0) (omega arith)
    ∙ HasAt-get_or buf (i + 1) bs j h.1 (omega arith) (omega arith)

-- The memory up to the end of what was written.
pub take-Wrote :
    (before after bs : List ℕ) (i : ℕ)
    → Wrote before i bs after
    → i + length bs ≤ length before
    → take (i + length bs) after ≡ take i before ++ bs
take-Wrote before after bs i w room =
    get_or_ext 0 _ _
      (omega (
        arith,
        w.same_length,
        length-take (i + length bs) after,
        length-append (take i before) bs,
        length-take i before,
      ))
      λ j p. cell j (omega (arith, length-take (i + length bs) after))
  where
    cell :
        (j : ℕ)
        → j < i + length bs
        → get_or (take (i + length bs) after) j 0 ≡ get_or (take i before ++ bs) j 0
    cell j p = ground (
      arith,
      w.same_length,
      length-take i before,
      get_or-take (i + length bs) j after 0,
      get_or-take i j before 0,
      w.outside j,
      get_or-append_left (take i before) bs j 0,
      get_or-append_right (take i before) bs j (j - i) 0,
      HasAt-get_or after i bs (j - i) w.stands,
      w.stands,
    )

-- A prefix inside an unchanged part.
pub take-agree :
    (n : ℕ) (xs ys : List ℕ)
    → n ≤ length xs
    → n ≤ length ys
    → ((j : ℕ) → j < n → get_or xs j 0 ≡ get_or ys j 0)
    → take n xs ≡ take n ys
take-agree n xs ys hx hy h =
    get_or_ext 0 _ _ (omega (arith, length-take n xs, length-take n ys)) λ j p.
      let q : j < n = omega (arith, length-take n xs) in
      get_or-take n j xs 0 q ∙ (h j q ∙ sym (get_or-take n j ys 0 q))

step : (m k : ℕ) → suc m + k ≡ suc (m + k)
step m k = omega arith

module _ {ℓ} {A : Type ℓ} where
  pub take-nil : (n : ℕ) → take {A = A} n [] ≡ []
  take-nil zero = refl
  take-nil (suc n) = refl

  pub take-add : (m k : ℕ) (xs : List A) → take (m + k) xs ≡ take m xs ++ take k (drop m xs)
  take-add zero k xs = ap (λ n. take n xs) (omega arith)
  take-add (suc m) k [] = take-nil (suc m + k) ∙ sym (take-nil k)
  take-add (suc m) k (x ∷ xs) =
      ap (λ n. take n (x ∷ xs)) (step m k) ∙ ap (λ t. x ∷ t) (take-add m k xs)

  pub get_or-drop : (m i : ℕ) (xs : List A) (d : A) → get_or (drop m xs) i d ≡ get_or xs (m + i) d
  get_or-drop zero i xs d = ap (λ k. get_or xs k d) (omega arith)
  get_or-drop (suc m) i [] d = refl
  get_or-drop (suc m) i (x ∷ xs) d =
      get_or-drop m i xs d ∙ ap (λ k. get_or (x ∷ xs) k d) (sym (step m i))

  pub take-of_le : (n : ℕ) (xs : List A) → length xs ≤ n → take n xs ≡ xs
  take-of_le zero [] h = refl
  take-of_le zero (x ∷ xs) h = absurd (omega arith)
  take-of_le (suc n) [] h = refl
  take-of_le (suc n) (x ∷ xs) h = ap (λ t. x ∷ t) (take-of_le n xs (omega arith))

  pub take-take : (m n : ℕ) (xs : List A) → m ≤ n → take m (take n xs) ≡ take m xs
  take-take zero n xs h = refl
  take-take (suc m) zero xs h = absurd (omega arith)
  take-take (suc m) (suc n) [] h = refl
  take-take (suc m) (suc n) (x ∷ xs) h = ap (λ t. x ∷ t) (take-take m n xs (omega arith))
