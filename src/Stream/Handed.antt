-- ===== src/Stream/Handed.antt =====
-- src/Stream.cpp: what a function of the reader or of the writer leaves when the stream has answered.
use mathlib.Core.Option
use rtac_asio.Prelude.{
  ℕ, ◌≤◌, ◌≡◌, ◌⊎◌, inl, inr, sym, subst, some, List, [], ◌∷◌, ◌++◌, Option-cases, Option,
}
use rtac_asio.Service.{Request, Env}
use rtac_asio.Service.Hand.{
  AnyTask, AnyRequest, AnyTask-last, AnyTask-append, AnyRequest-last, AnyRequest-append,
}
use rtac_asio.Interface.{Answers}
use rtac_asio.Stream.{hand_over}

module _ {H : Type 0} (P : H → Type 0) where
  abbrev pub IsHeld : Env H → Type 0
  IsHeld e = AnyRequest P e.pending ⊎ AnyTask P e.posted

  -- What was in hand still is, and so is the new operation.
  Answers-IsHeld :
      (e e' : Env H) (n p : ℕ) (h : H) → Answers e e' n p h → IsHeld e ⊎ P h → IsHeld e'
  Answers-IsHeld e e' n p h a v = go a.answered v
    where
      go :
          ((err : ℕ) × (k : ℕ) × (k ≤ n)
              × (e'.posted ≡ e.posted ++ record { handler = h; err = err; count = k } ∷ [])
              × (e'.pending ≡ e.pending))
            ⊎ ((e'.posted ≡ e.posted)
                × (e'.pending ≡ e.pending ++ record { count = n; addr = p; handler = h } ∷ []))
          → IsHeld e ⊎ P h
          → IsHeld e'
      go (inl (err, k, _, posted, pending)) (inl (inl q)) =
          inl (subst (AnyRequest P) (sym pending) q)
      go (inl (err, k, _, posted, pending)) (inl (inr t)) =
          inr (subst (AnyTask P) (sym posted) (AnyTask-append P e.posted _ t))
      go (inl (err, k, _, posted, pending)) (inr x) =
          inr (subst (AnyTask P) (sym posted) (AnyTask-last P e.posted _ x))
      go (inr (posted, pending)) (inl (inl q)) =
          inl (subst (AnyRequest P) (sym pending) (AnyRequest-append P e.pending _ q))
      go (inr (posted, pending)) (inl (inr t)) = inr (subst (AnyTask P) (sym posted) t)
      go (inr (posted, pending)) (inr x) =
          inl (subst (AnyRequest P) (sym pending) (AnyRequest-last P e.pending _ x))

  module _ {D : Type 0} (f : D → Env H → ℕ → ℕ → H → Option (D × Env H))
      (law : (d d' : D) (e e' : Env H) (n p : ℕ) (h : H)
        → f d e n p h ≡ some (d', e')
        → Answers e e' n p h) where
    pub hand_over-IsHeld :
        (qs : List (Request H)) (d d' : D) (e e' : Env H)
        → hand_over f qs d e ≡ some (d', e')
        → IsHeld e ⊎ AnyRequest P qs
        → IsHeld e'
    unfolding hand_over
    hand_over-IsHeld [] d d' e e' eq (inl h) =
        subst (λ x. IsHeld x.1) (Option.some-injective _ _ eq) h
    hand_over-IsHeld [] d d' e e' eq (inr h) = elim h [ ]
    hand_over-IsHeld (q ∷ qs) d d' e e' eq v =
        elim (Option-cases (f d e q.count q.addr q.handler)) [
          | inl threw ↦ absurd (Option.none-ne-some _ (rw threw at eq))
          | inr ((d1, e1), ok) ↦
              hand_over-IsHeld qs d1 d' e1 e' (rw ok at eq) (next (law d d1 e e1 _ _ _ ok) v)
        ]
      where
        next :
            {e1 : Env H}
            → Answers e e1 q.count q.addr q.handler
            → IsHeld e ⊎ (P q.handler ⊎ AnyRequest P qs)
            → IsHeld e1 ⊎ AnyRequest P qs
        next a (inl h) = inl (Answers-IsHeld e _ _ _ _ a (inl h))
        next a (inr (inl x)) = inl (Answers-IsHeld e _ _ _ _ a (inr x))
        next a (inr (inr later)) = inr later
