-- ===== src/Memory.antt =====
-- The bytes that the program's pointers reach: `uint8_t* data`, with `data[i]` read and written.
-- An address is a number, and a byte is one below 256.
use rtac_asio.Prelude.{
  ℕ, zero, suc, ◌+◌, ◌≤◌, ◌<◌, ◌≡◌, refl, ap, ◌∙◌, ◌⊎◌, inl, inr, List, [], ◌∷◌, ◌++◌, arith, ◌==◌,
  if◌then◌else◌, length, ≢→==, ≡→==,
}

abbrev pub Bytes : Type 0
Bytes = ℕ → ℕ

-- `p[0] = v`
abbrev pub poke : Bytes → ℕ → ℕ → Bytes
poke m p v q = if p == q then v else m q

-- The bytes `p[0]` to `p[n - 1]`.
abbrev pub peek : Bytes → ℕ → ℕ → List ℕ
peek m p zero = []
peek m p (suc n) = m p ∷ peek m (p + 1) n

-- `p[0] = b0; p[1] = b1; …`, what a stream does to a caller's buffer.
abbrev pub fill : Bytes → ℕ → List ℕ → Bytes
fill m p [] = m
fill m p (b ∷ bs) = fill (poke m p b) (p + 1) bs

pub length-peek : (m : Bytes) (p n : ℕ) → length (peek m p n) ≡ n
length-peek m p zero = refl
length-peek m p (suc n) = ap suc (length-peek m (p + 1) n)

-- A fill reaches its own addresses only.
pub fill-outside :
    (m : Bytes) (p : ℕ) (bs : List ℕ) (q : ℕ) → (q < p) ⊎ (p + length bs ≤ q) → fill m p bs q ≡ m q
fill-outside m p [] q h = refl
fill-outside m p (b ∷ bs) q h =
    fill-outside (poke m p b) (p + 1) bs q (later h)
    ∙ ap (λ t. if t then b else m q) (≢→== p q (omega arith))
  where
    later : (q < p) ⊎ (p + suc (length bs) ≤ q) → (q < p + 1) ⊎ (p + 1 + length bs ≤ q)
    later (inl l) = inl (omega arith)
    later (inr l) = inr (omega arith)

-- What was filled is read back.
pub peek-fill : (m : Bytes) (p : ℕ) (bs : List ℕ) → peek (fill m p bs) p (length bs) ≡ bs
peek-fill m p [] = refl
peek-fill m p (b ∷ bs) = λ i. first i ∷ peek-fill (poke m p b) (p + 1) bs i
  where
    first : fill (poke m p b) (p + 1) bs p ≡ b
    first =
        fill-outside (poke m p b) (p + 1) bs p (inl (omega arith))
        ∙ ap (λ t. if t then b else m p) (≡→== p p refl)

pub peek-append : (m : Bytes) (p n k : ℕ) → peek m p (n + k) ≡ peek m p n ++ peek m (p + n) k
peek-append m p zero k = λ i. peek m (end i) (same i)
  where
    end : p ≡ p + 0
    end = omega arith

    same : 0 + k ≡ k
    same = omega arith
peek-append m p (suc n) k =
    ap (peek m p) (shift) ∙ ap (λ r. m p ∷ r) (peek-append m (p + 1) n k ∙ moved)
  where
    shift : suc n + k ≡ suc (n + k)
    shift = omega arith

    moved : peek m (p + 1) n ++ peek m (p + 1 + n) k ≡ peek m (p + 1) n ++ peek m (p + suc n) k
    moved = ap (λ a. peek m (p + 1) n ++ peek m a k) (omega arith)

-- Two memories that agree on a range show the same bytes there.
pub peek-congr :
    (m m' : Bytes) (p n : ℕ) → ((q : ℕ) → p ≤ q → q < p + n → m q ≡ m' q) → peek m p n ≡ peek m' p n
peek-congr m m' p zero h = refl
peek-congr m m' p (suc n) h = λ i.
    h p (omega arith) (omega arith) i
    ∷ peek-congr m m' (p + 1) n (λ q l u. h q (omega arith) (omega arith)) i

pub peek-fill_before :
    (m : Bytes) (p n a : ℕ) (bs : List ℕ) → p + n ≤ a → peek (fill m a bs) p n ≡ peek m p n
peek-fill_before m p n a bs h =
    peek-congr (fill m a bs) m p n (λ q l u. fill-outside m a bs q (inl (omega arith)))

pub fill-append :
    (m : Bytes) (p : ℕ) (xs ys : List ℕ)
    → fill m p (xs ++ ys) ≡ fill (fill m p xs) (p + length xs) ys
fill-append m p [] ys = ap (λ q. fill m q ys) (omega arith)
fill-append m p (x ∷ xs) ys =
    fill-append (poke m p x) (p + 1) xs ys
    ∙ ap (λ q. fill (fill (poke m p x) (p + 1) xs) q ys) (omega arith)
