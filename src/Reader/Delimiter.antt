-- ===== src/Reader/Delimiter.antt =====
-- src/StreamReader.cpp, `async_read_until_continue`: the search for the delimiter in what the stream
-- delivered, and what is saved for the next read.
use rtac_asio.Prelude.{
  ℕ, zero, suc, ◌+◌, ◌≡◌, ◌≢◌, refl, sym, ap, ap₂, subst, ◌∙◌, none, some, List, [], ◌∷◌, ◌++◌,
  arith, length, append_assoc, append-nil,
}
use rtac_asio.Memory.{Bytes, peek}
use rtac_asio.Streambuf.{Streambuf}
use rtac_asio.Reader.Until.{find_delimiter, save}

-- No byte is the delimiter.
abbrev pub Lacks : ℕ → List ℕ → Type 0
Lacks d [] = Unit {0}
Lacks d (x ∷ xs) = (x ≢ d) × Lacks d xs

next_peek : (m : Bytes) (p i k : ℕ) → peek m (p + i + 1) k ≡ peek m (p + (i + 1)) k
next_peek m p i k = ap (λ q. peek m q k) (omega arith)

-- The search stops just behind the first delimiter.
pub find_delimiter_first :
    (m : Bytes) (p d k i : ℕ) (before after : List ℕ)
    → Lacks d before
    → peek m (p + i) k ≡ before ++ d ∷ after
    → find_delimiter m p d k i ≡ some (i + length before + 1)
unfolding find_delimiter
find_delimiter_first m p d zero i [] after l e = cc
find_delimiter_first m p d zero i (b ∷ bs) after l e = cc
find_delimiter_first m p d (suc k) i [] after l e = let hit : m (p + i) ≡ d = cc in ground arith
find_delimiter_first m p d (suc k) i (b ∷ bs) after l e =
    let head : m (p + i) ≡ b = cc in
    let tail : peek m (p + i + 1) k ≡ bs ++ d ∷ after = cc in
    let miss : m (p + i) ≢ d = λ x. l.0 (sym head ∙ x) in
    let ih = find_delimiter_first m p d k (i + 1) bs after l.1 (sym (next_peek m p i k) ∙ tail) in
    ground (arith, ih, miss)

pub find_delimiter-none :
    (m : Bytes) (p d k i : ℕ) → Lacks d (peek m (p + i) k) → find_delimiter m p d k i ≡ none
unfolding find_delimiter
find_delimiter-none m p d zero i l = refl
find_delimiter-none m p d (suc k) i l =
    ground
      (arith, l.0, find_delimiter-none m p d k (i + 1) (subst (Lacks d) (next_peek m p i k) l.1))

module _ {B : Type 0} ⦃s : Streambuf B⦄ where
  pub save_lem :
      (k j : ℕ) (m : Bytes) (p : ℕ) (b : B)
      → s.contents (save k j m p b) ≡ s.contents b ++ peek m (p + j) k
  unfolding save
  save_lem zero j m p b = sym (append-nil (s.contents b))
  save_lem (suc k) j m p b =
      save_lem k (j + 1) m p (s.put b (m (p + j)))
      ∙ ap₂ ◌++◌ (s.put_lem b (m (p + j))) (sym (next_peek m p j k))
      ∙ append_assoc (s.contents b) (m (p + j) ∷ []) (peek m (p + j + 1) k)
