-- ===== src/Serial/Configure.antt =====
-- src/SerialStream.cpp, `reset`: the options of the port that it leaves.
use rtac_asio.Prelude.{
  ℕ, ◌≡◌, ◌≢◌, inl, inr, refl, subst, ◌∙◌, Bool, true, false, Option, none, some, List, [], ◌∷◌,
  Bool-cases, Option-cases, arith,
}
use mathlib.Core.Bool.{false≢true}
use rtac_asio.SerialPort.{
  Setting, baud_rate, character_size, parity, flow_control, stop_bits, setting_number, SerialPorts,
}
use rtac_asio.Serial.{
  Parameters, Serial, settings, flush_both, is_open, close, close_on, set_options, flush_port,
  reset, reset_to,
}

abbrev Avoids : Setting → List (Setting × ℕ) → Type 0
Avoids l [] = Unit
Avoids l (o ∷ os) = (setting_number o.0 ≢ setting_number l) × Avoids l os

abbrev IsDistinct : List (Setting × ℕ) → Type 0
IsDistinct [] = Unit
IsDistinct (o ∷ os) = Avoids o.0 os × IsDistinct os

settings-IsDistinct : (p : Parameters) → IsDistinct (settings p)
settings-IsDistinct p = (
  (omega arith, (omega arith, (omega arith, (omega arith, tt)))),
  (
    (omega arith, (omega arith, (omega arith, tt))),
    ((omega arith, (omega arith, tt)), ((omega arith, tt), (tt, tt))),
  ),
)

module _ {S : Type 0} ⦃k : SerialPorts S⦄ where
  abbrev Applied : List (Setting × ℕ) → S → Type 0
  Applied [] s = Unit
  Applied (o ∷ os) s = (k.option s o.0 ≡ o.1) × Applied os s

  set_options-open :
      (os : List (Setting × ℕ)) (s : S) → k.is_open (set_options os s).0 ≡ k.is_open s
  unfolding set_options
  set_options-open [] s = refl
  set_options-open (o ∷ os) s = elim (Bool-cases (k.set_option s o.0 o.1).1) [
    | inl ok ↦ rw ok (set_options-open os (k.set_option s o.0 o.1).0 ∙ k.set_option_open s o.0 o.1)
    | inr threw ↦ rw threw (k.set_option_open s o.0 o.1)
  ]

  set_options-device :
      (os : List (Setting × ℕ)) (s : S) → k.device (set_options os s).0 ≡ k.device s
  unfolding set_options
  set_options-device [] s = refl
  set_options-device (o ∷ os) s = elim (Bool-cases (k.set_option s o.0 o.1).1) [
    | inl ok ↦
        rw ok (set_options-device os (k.set_option s o.0 o.1).0 ∙ k.set_option_device s o.0 o.1)
    | inr threw ↦ rw threw (k.set_option_device s o.0 o.1)
  ]

  set_options-other :
      (os : List (Setting × ℕ)) (s : S) (l : Setting)
      → Avoids l os
      → k.option (set_options os s).0 l ≡ k.option s l
  unfolding set_options
  set_options-other [] s l a = refl
  set_options-other (o ∷ os) s l a = elim (Bool-cases (k.set_option s o.0 o.1).1) [
    | inl ok ↦
        rw ok (
          set_options-other os (k.set_option s o.0 o.1).0 l a.1
          ∙ k.set_option_other s o.0 l o.1 a.0)
    | inr threw ↦ rw threw (k.set_option_other s o.0 l o.1 a.0)
  ]

  set_options-Applied :
      (os : List (Setting × ℕ)) (s : S)
      → IsDistinct os
      → (set_options os s).1 ≡ true
      → Applied os (set_options os s).0
  unfolding set_options
  set_options-Applied [] s d h = tt
  set_options-Applied (o ∷ os) s d h = elim (Bool-cases (k.set_option s o.0 o.1).1) [
    | inl ok ↦ rw ok (
      set_options-other os (k.set_option s o.0 o.1).0 o.0 d.0 ∙ k.set_option_lem s o.0 o.1 ok,
      set_options-Applied os (k.set_option s o.0 o.1).0 d.1 (rw ok at h),
    )
    | inr threw ↦ absurd (false≢true (rw threw at h))
  ]

  close_closes_at :
      (o : Option S) (d : ℕ) (p : Parameters)
      → let t = close (record { device = d; parameters = p; serial = o }) in
        (is_open t ≡ false) × (t.device ≡ d) × (t.parameters ≡ p)
  unfolding close close_on is_open
  close_closes_at none d p = (refl, refl, refl)
  close_closes_at (some s) d p = elim (Bool-cases (k.is_open s)) [
    | inr shut ↦ rw shut (shut, refl, refl)
    | inl live ↦ rw live (elim (Option-cases (k.cancel s)) [
      | inl threw ↦ rw (threw, close_on, is_open) (refl, refl, refl)
      | inr (s', ok) ↦
          rw (ok, close_on, is_open)
            (elim (Option-cases (k.close s')) [
              | inl threw ↦ rw threw (refl, refl, refl)
              | inr (_, good) ↦ rw good (refl, refl, refl)
            ])
    ])
  ]

  -- `close` leaves no open port, whatever throws, and forgets neither device nor parameters.
  pub close_closes :
      (t : Serial S)
      → (is_open (close t) ≡ false)
        × ((close t).device ≡ t.device)
        × ((close t).parameters ≡ t.parameters)
  close_closes t = close_closes_at t.serial t.device t.parameters

  -- What a `reset` that returns leaves of the state that it closed.
  abbrev Configured : Serial S → Bool × Serial S → Type 0
  Configured u out =
      (s : S) × (out.1 ≡ record u { serial = some s })
      × (k.is_open s ≡ true)
      × (k.device s ≡ u.device)
      × Applied (settings u.parameters) s

  flushed-Applied :
      (os : List (Setting × ℕ)) (s : S) (n : ℕ) → Applied os s → Applied os (k.tcflush s n).0
  flushed-Applied [] s n a = tt
  flushed-Applied (o ∷ os) s n a = (k.tcflush_option s n o.0 ∙ a.0, flushed-Applied os s n a.1)

  flush_port-Configured :
      (u : Serial S) (s : S)
      → k.is_open s ≡ true
      → k.device s ≡ u.device
      → (flush_port u (set_options (settings u.parameters) s)).0 ≡ true
      → Configured u (flush_port u (set_options (settings u.parameters) s))
  unfolding flush_port
  flush_port-Configured u s live own h =
      let x : S × Bool = set_options (settings u.parameters) s in
      elim (Bool-cases (set_options (settings u.parameters) s).1) [
        | inr threw ↦ absurd (false≢true (rw threw at h))
        | inl ok ↦ rw ok (
          (k.tcflush x.0 flush_both).0,
          refl,
          k.tcflush_open x.0 flush_both ∙ set_options-open (settings u.parameters) s ∙ live,
          k.tcflush_device x.0 flush_both ∙ set_options-device (settings u.parameters) s ∙ own,
          flushed-Applied (settings u.parameters) x.0 flush_both
              (set_options-Applied (settings u.parameters) s (settings-IsDistinct u.parameters) ok),
        )
      ]

  reset-Configured : (t : Serial S) → (reset t).0 ≡ true → Configured (close t) (reset t)
  unfolding reset
  reset-Configured t h = elim (Option-cases (k.open_device (close t).device)) [
    | inl threw ↦ absurd (false≢true (rw (threw, reset) at h))
    | inr (s, made) ↦
        rw (made, reset)
          (flush_port-Configured (close t) s (k.open_device_lem (close t).device s made)
            (k.open_device_device (close t).device s made) (rw (made, reset) at h))
  ]

  -- If `reset` to some parameters returns, the port is open, on the device that the stream was made
  -- for, and each of its five options is that of the parameters.
  pub reset_configures :
      (t : Serial S) (p : Parameters)
      → (reset_to t p).0 ≡ true
      → (s : S) × ((reset_to t p).1 ≡ record { device = t.device; parameters = p; serial = some s })
        × (k.is_open s ≡ true)
        × (k.device s ≡ t.device)
        × (k.option s baud_rate ≡ p.baudrate)
        × (k.option s character_size ≡ p.character_size)
        × (k.option s parity ≡ p.parity)
        × (k.option s flow_control ≡ p.flow_control)
        × (k.option s stop_bits ≡ p.stop_bits)
  unfolding reset_to
  reset_configures t p h =
      let u : Serial S = record t { parameters = p } in
      let (s, is, live, own, options) = reset-Configured u h in
      let (_, device, params) = close_closes u in
      let a = subst (λ q. Applied (settings q) s) params options in
      (
        s,
        is ∙ (λ i. record { device = device i; parameters = params i; serial = some s }),
        live,
        own ∙ device,
        a.0,
        a.1.0,
        a.1.1.0,
        a.1.1.1.0,
        a.1.1.1.1.0,
      )
