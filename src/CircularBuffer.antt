-- ===== src/CircularBuffer.antt =====
-- `boost::circular_buffer<uint8_t>`, as far as StringStream uses it, with what its documentation says.
use rtac_asio.Prelude.{
  ℕ, ◌<◌, ◌≡◌, refl, List, [], ◌∷◌, ◌++◌, length, if◌then◌else◌, ltb, lt→ltb, ap,
}

pub record CircularBuffer (B : Type 0) : Type 0 where
  pub contents : B → List ℕ
  pub capacity : B → ℕ
  pub size : B → ℕ
  -- `front` and `pop_front` are used on a buffer that is not empty.
  pub front : B → ℕ
  pub pop_front : B → B
  pub push_back : B → ℕ → B
  pub clear : B → B
  pub size_lem : (b : B) → size b ≡ length (contents b)
  pub front_lem : (b : B) (x : ℕ) (xs : List ℕ) → contents b ≡ x ∷ xs → front b ≡ x
  pub pop_front_lem :
      (b : B) (x : ℕ) (xs : List ℕ) → contents b ≡ x ∷ xs → contents (pop_front b) ≡ xs
  pub push_back_lem :
      (b : B) (x : ℕ) → size b < capacity b → contents (push_back b x) ≡ contents b ++ x ∷ []
  pub clear_lem : (b : B) → contents (clear b) ≡ []
  pub pop_front_capacity : (b : B) → capacity (pop_front b) ≡ capacity b
  pub push_back_capacity : (b : B) (x : ℕ) → capacity (push_back b x) ≡ capacity b
  pub clear_capacity : (b : B) → capacity (clear b) ≡ capacity b

-- A list with a capacity. `push_back` on a full buffer drops the oldest byte.
pub record Bounded : Type 0 where
  pub bytes : List ℕ
  pub most : ℕ

abbrev pub first_of : List ℕ → ℕ
first_of [] = 0
first_of (x ∷ xs) = x

abbrev pub rest_of : List ℕ → List ℕ
rest_of [] = []
rest_of (x ∷ xs) = xs

abbrev pub push_bounded : Bounded → ℕ → Bounded
push_bounded b x = record b {
  bytes = if ltb (length b.bytes) b.most then b.bytes ++ x ∷ [] else rest_of (b.bytes ++ x ∷ []);
}

pub push_bounded_lem :
    (b : Bounded) (x : ℕ) → length b.bytes < b.most → (push_bounded b x).bytes ≡ b.bytes ++ x ∷ []
push_bounded_lem b x h =
    ap (λ t. if t then b.bytes ++ x ∷ [] else rest_of (b.bytes ++ x ∷ []))
      (lt→ltb (length b.bytes) b.most h)

instance abbrev pub bounded_buffer : CircularBuffer Bounded
bounded_buffer = record {
  contents = λ b. b.bytes;
  capacity = λ b. b.most;
  size = λ b. length b.bytes;
  front = λ b. first_of b.bytes;
  pop_front = λ b. record b { bytes = rest_of b.bytes };
  push_back = push_bounded;
  clear = λ b. record b { bytes = [] };
  size_lem = λ b. refl;
  front_lem = λ b x xs e. ap first_of e;
  pop_front_lem = λ b x xs e. ap rest_of e;
  push_back_lem = push_bounded_lem;
  clear_lem = λ b. refl;
  pop_front_capacity = λ b. refl;
  push_back_capacity = λ b x. refl;
  clear_capacity = λ b. refl;
}
