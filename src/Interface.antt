-- ===== src/Interface.antt =====
-- include/rtac_asio/StreamInterface.h: the virtual operations that a reader, a writer or a facade calls
-- through `stream_`, as a record that each stream of the library fills, and what its callers rely on.
use rtac_asio.Prelude.{
  ℕ, ◌+◌, ◌≤◌, ◌<◌, ◌≡◌, ◌⊎◌, inr, refl, subst, Bool, Option, none, some, [], ◌∷◌, ◌++◌,
}
use mathlib.Core.Option
use rtac_asio.Service.{ErrorCode, Env, submit}

-- `none` is the use of a null pointer, and a `reset` with `false` threw an exception. What a stream
-- cannot end at once it leaves among the operations in hand.
pub record StreamInterface (D : Type 0) : Type 1 where
  pub async_read_some : {H : Type 0} → D → Env H → ℕ → ℕ → H → Option (D × Env H)
  pub async_write_some : {H : Type 0} → D → Env H → ℕ → ℕ → H → Option (D × Env H)
  pub flush : D → Option D
  pub reset : D → Bool × D
  pub is_open : D → Bool

-- One call with the handler `h`, for `n` bytes at `p`: the handler is posted once, with at most `n` as
-- its count, or the operation is in hand once; nothing else is posted or taken in hand, no byte
-- outside the `n` changes, and no timer or file.
pub record Answers {H : Type 0} (e e' : Env H) (n p : ℕ) (h : H) : Type 0 where
  pub answered :
      ((err : ErrorCode) × (k : ℕ) × (k ≤ n)
        × (e'.posted ≡ e.posted ++ record { handler = h; err = err; count = k } ∷ [])
        × (e'.pending ≡ e.pending))
      ⊎ ((e'.posted ≡ e.posted)
          × (e'.pending ≡ e.pending ++ record { count = n; addr = p; handler = h } ∷ []))
  pub apart : (q : ℕ) → (q < p) ⊎ (p + n ≤ q) → e'.mem q ≡ e.mem q
  pub waits : e'.waits ≡ e.waits
  pub files : e'.files ≡ e.files

-- Each call that uses no null pointer answers, and a write leaves memory as it is.
pub record IsLawful (D : Type 0) ⦃i : StreamInterface D⦄ : Type 1 where
  pub reads :
      {H : Type 0} (d d' : D) (e e' : Env H) (n p : ℕ) (h : H)
      → i.async_read_some d e n p h ≡ some (d', e')
      → Answers e e' n p h
  pub writes :
      {H : Type 0} (d d' : D) (e e' : Env H) (n p : ℕ) (h : H)
      → i.async_write_some d e n p h ≡ some (d', e')
      → Answers e e' n p h × (e'.mem ≡ e.mem)

-- An operation that stays in hand is an answer.
pub submit-Answers : {H : Type 0} (e : Env H) (n p : ℕ) (h : H) → Answers e (submit e n p h) n p h
unfolding submit
submit-Answers e n p h = record {
  answered = inr (refl, refl);
  apart = λ q out. refl;
  waits = refl;
  files = refl;
}

-- So it is with a stream that hands everything on to what it owns, if it owns anything.
pub handed-Answers :
    {D S H : Type 0} (o : Option S) (d d' : D) (e e' : Env H) (n p : ℕ) (h : H)
    → Option.map {B = D × Env H}
        (λ x. (d, x))
        (elim o [ none ↦ none | some _ ↦ some (submit e n p h) ])
      ≡ some (d', e')
    → Answers e e' n p h × (e'.mem ≡ e.mem)
unfolding submit
handed-Answers none d d' e e' n p h eq = absurd (Option.none-ne-some _ eq)
handed-Answers (some s) d d' e e' n p h eq =
    subst (λ x. Answers e x.1 n p h × (x.1.mem ≡ e.mem)) (Option.some-injective _ _ eq)
      (submit-Answers e n p h, refl)
