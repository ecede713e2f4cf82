-- ===== src/Service/Hand.antt =====
-- include/rtac_asio/StreamInterface.h and AsyncService::post: what an environment holds of the handlers
-- with a property.
use rtac_asio.Prelude.{
  ℕ, zero, suc, ◌≡◌, ◌⊎◌, refl, some, List, [], ◌∷◌, ◌++◌, inl, inr, get_elem?, erase_idx, take,
  drop,
}
use rtac_asio.Service.{Task, Request}

module _ {H : Type 0} where
  abbrev pub AnyTask : (H → Type 0) → List (Task H) → Type 0
  AnyTask P [] = ⊥
  AnyTask P (t ∷ ts) = P t.handler ⊎ AnyTask P ts

  abbrev pub AnyRequest : (H → Type 0) → List (Request H) → Type 0
  AnyRequest P [] = ⊥
  AnyRequest P (q ∷ qs) = P q.handler ⊎ AnyRequest P qs

  module _ (P : H → Type 0) where
    pub AnyTask-last : (ts : List (Task H)) (t : Task H) → P t.handler → AnyTask P (ts ++ t ∷ [])
    AnyTask-last [] t e = inl e
    AnyTask-last (u ∷ us) t e = inr (AnyTask-last us t e)

    pub AnyTask-append : (ts us : List (Task H)) → AnyTask P ts → AnyTask P (ts ++ us)
    AnyTask-append [] us h = elim h [ ]
    AnyTask-append (t ∷ ts) us (inl e) = inl e
    AnyTask-append (t ∷ ts) us (inr h) = inr (AnyTask-append ts us h)

    pub AnyRequest-last :
        (qs : List (Request H)) (q : Request H) → P q.handler → AnyRequest P (qs ++ q ∷ [])
    AnyRequest-last [] q e = inl e
    AnyRequest-last (p ∷ ps) q e = inr (AnyRequest-last ps q e)

    pub AnyRequest-append : (qs ps : List (Request H)) → AnyRequest P qs → AnyRequest P (qs ++ ps)
    AnyRequest-append [] ps h = elim h [ ]
    AnyRequest-append (q ∷ qs) ps (inl e) = inl e
    AnyRequest-append (q ∷ qs) ps (inr h) = inr (AnyRequest-append qs ps h)

    -- What is taken out is the one, or the one is still there.
    pub AnyRequest-erase_idx :
        (qs : List (Request H)) (k : ℕ)
        → AnyRequest P qs
        → ((q : Request H) × (get_elem? qs k ≡ some q) × P q.handler)
          ⊎ AnyRequest P (erase_idx qs k)
    AnyRequest-erase_idx [] k h = absurd h
    AnyRequest-erase_idx (q ∷ qs) zero (inl e) = inl (q, refl, e)
    AnyRequest-erase_idx (q ∷ qs) zero (inr h) = inr h
    AnyRequest-erase_idx (q ∷ qs) (suc k) (inl e) = inr (inl e)
    AnyRequest-erase_idx (q ∷ qs) (suc k) (inr h) = elim (AnyRequest-erase_idx qs k h) [
      | inl found ↦ inl found
      | inr kept ↦ inr (inr kept)
    ]

    pub AnyRequest-take_or_drop :
        (n : ℕ) (qs : List (Request H))
        → AnyRequest P qs
        → AnyRequest P (take n qs) ⊎ AnyRequest P (drop n qs)
    AnyRequest-take_or_drop zero qs h = inr h
    AnyRequest-take_or_drop (suc n) [] h = elim h [ ]
    AnyRequest-take_or_drop (suc n) (q ∷ qs) (inl e) = inl (inl e)
    AnyRequest-take_or_drop (suc n) (q ∷ qs) (inr h) = elim (AnyRequest-take_or_drop n qs h) [
      | inl early ↦ inl (inr early)
      | inr late ↦ inr late
    ]
