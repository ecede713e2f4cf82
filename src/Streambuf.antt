-- ===== src/Streambuf.antt =====
-- `boost::asio::streambuf`, the type of `StreamReader::readBuffer_`, as its documentation has it: a
-- queue of bytes that `std::istream::get` takes from and `std::ostream::operator<<` adds to.
use rtac_asio.Prelude.{
  ℕ, ◌≡◌, refl, List, [], ◌∷◌, ◌++◌, Option, none, some, length, drop, arith, ap, ltb, le→not-ltb,
  false,
}

pub record Streambuf (B : Type 0) : Type 0 where
  pub size : B → ℕ
  -- What `data()` shows.
  pub contents : B → List ℕ
  -- `sbumpc`, which `get` calls: `none` is the end of file.
  pub get : B → Option ℕ × B
  -- `sputc`, which `<<` calls.
  pub put : B → ℕ → B
  pub consume : B → ℕ → B
  pub empty : B
  pub size_lem : (b : B) → size b ≡ length (contents b)
  pub empty_lem : contents empty ≡ []
  pub get_empty : (b : B) → contents b ≡ [] → get b ≡ (none, b)
  pub get_char : (b : B) (c : ℕ) (cs : List ℕ) → contents b ≡ c ∷ cs → (get b).0 ≡ some c
  pub get_rest : (b : B) (c : ℕ) (cs : List ℕ) → contents b ≡ c ∷ cs → contents (get b).1 ≡ cs
  pub put_lem : (b : B) (c : ℕ) → contents (put b c) ≡ contents b ++ c ∷ []
  pub consume_lem : (b : B) (n : ℕ) → contents (consume b n) ≡ drop n (contents b)

-- A list of bytes is such a queue.
abbrev pub get_list : List ℕ → Option ℕ × List ℕ
get_list [] = (none, [])
get_list (c ∷ cs) = (some c, cs)

pub get_list_empty : (b : List ℕ) → b ≡ [] → get_list b ≡ (none, b)
get_list_empty [] h = refl
get_list_empty (c ∷ cs) h = cc

pub get_list_char : (b : List ℕ) (c : ℕ) (cs : List ℕ) → b ≡ c ∷ cs → (get_list b).0 ≡ some c
get_list_char [] c cs h = cc
get_list_char (x ∷ xs) c cs h = ground arith

pub get_list_rest : (b : List ℕ) (c : ℕ) (cs : List ℕ) → b ≡ c ∷ cs → (get_list b).1 ≡ cs
get_list_rest [] c cs h = cc
get_list_rest (x ∷ xs) c cs h = ground arith

instance abbrev pub list_streambuf : Streambuf (List ℕ)
list_streambuf = record {
  size = length;
  contents = λ b. b;
  get = get_list;
  put = λ b c. b ++ c ∷ [];
  consume = λ b n. drop n b;
  empty = [];
  size_lem = λ b. refl;
  empty_lem = refl;
  get_empty = get_list_empty;
  get_char = get_list_char;
  get_rest = get_list_rest;
  put_lem = λ b c. refl;
  consume_lem = λ b n. refl;
}

-- `readBuffer_.size() > 0` on an empty buffer.
pub size-empty :
    {B : Type 0} ⦃s : Streambuf B⦄ (b : B) → s.contents b ≡ [] → ltb 0 (s.size b) ≡ false
size-empty ⦃s⦄ b dry = le→not-ltb 0 (s.size b) (omega (arith, s.size_lem b, ap length dry))
